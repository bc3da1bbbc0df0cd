-- ===== src/Disk/Transfer.antt =====
-- driver/virtio.c: `virtio_disk_rw`, from the request to the descriptors that it gives back.
use os.Util.{
  ℕ, suc, ◌<◌, ◌≡◌, refl, ◌∙◌, ap, arith, Bool, true, false, ◌==◌, none, some, List, ok, fault,
  ◌>>=◌, bit_and, ltb, ◌&&◌, if◌then◌else◌, get_or, set, length-set, get_or-set_ne,
  get_elem?-eq-get_or,
}
use os.Disk.{
  Disk, Desc, Places, Info, no_desc, fetch, read_desc, free_desc, free_chain, finish_request,
  flag_next,
}
use os.Disk.Taken.{IsTable}
use os.Disk.Grant.{freed, free_desc_lem, freed-IsTable}
use os.Disk.Chain.{Three, Holds, header, bytes, status, middle-more}

abbrev no_info : Info
no_info = record { buf = none; status = 0 }

-- A round of `free_chain` at a descriptor that is taken.
module _ (fuel : ℕ) (d : Disk) (i : ℕ) (here : Desc) (t : IsTable d) (lt : i < 8)
    (e : get_or d.desc i no_desc ≡ here) (z : get_or d.free i 0 ≡ 0) where
  chain_round : free_chain (suc fuel) d i ≡ elim (bit_and here.flags flag_next == 0) [
    | true ↦ ok (freed d i)
    | false ↦ free_chain fuel (freed d i) here.next
  ]
  unfolding free_chain read_desc
  chain_round =
      ap
        (λ o. o >>= λ h. free_desc d i >>= λ d'. elim (bit_and h.flags flag_next == 0) [
          | true ↦ ok d'
          | false ↦ free_chain fuel d' h.next
        ])
        read
      ∙ ap
          (λ o. o >>= λ d'. elim (bit_and here.flags flag_next == 0) [
            | true ↦ ok d'
            | false ↦ free_chain fuel d' here.next
          ])
          (free_desc_lem d i t lt z)
    where
      inside : (ltb 8 i && ltb i 256) ≡ false
      inside = ground arith

      read : read_desc d i ≡ ok here
      read =
          ap (λ b. if b then ok no_desc else fetch d.desc i) inside
          ∙ ap (λ o. elim o [ none ↦ fault | some x ↦ ok x ])
              (get_elem?-eq-get_or d.desc i no_desc (omega (arith, t.desc_len)))
          ∙ ap (λ x. ok x) e

  chain_more :
      (bit_and here.flags flag_next == 0) ≡ false
      → free_chain (suc fuel) d i ≡ free_chain fuel (freed d i) here.next
  chain_more more =
      chain_round
      ∙ ap (λ b. elim b [ true ↦ ok (freed d i) | false ↦ free_chain fuel (freed d i) here.next ])
          more

  chain_last :
      (bit_and here.flags flag_next == 0) ≡ true → free_chain (suc fuel) d i ≡ ok (freed d i)
  chain_last end =
      chain_round
      ∙ ap (λ b. elim b [ true ↦ ok (freed d i) | false ↦ free_chain fuel (freed d i) here.next ])
          end

-- The marks of the three descriptors of a request are those of taken ones.
pub record Busy (i j k : ℕ) (marks : List ℕ) : Type 0 where
  pub first : get_or marks i 0 ≡ 0
  pub second : get_or marks j 0 ≡ 0
  pub third : get_or marks k 0 ≡ 0

abbrev pub released : Disk → ℕ → ℕ → ℕ → Disk
released d i j k = freed (freed (freed d i) j) k

free_chain-released :
    (at : Places) (buf : ℕ) (write : Bool) (i j k fuel : ℕ) (d : Disk)
    → IsTable d
    → Three i j k
    → Holds at buf write i j k d.desc
    → Busy i j k d.free
    → free_chain (suc (suc (suc fuel))) d i ≡ ok (released d i j k)
free_chain-released at buf write i j k fuel d t x h b =
    chain_more (suc (suc fuel)) d i (header at i j) t x.first h.head b.first refl
    ∙ chain_more (suc fuel) (freed d i) j (bytes at buf write k) t1 x.second
        (get_or-set_ne d.desc i j no_desc no_desc x.ij ∙ h.middle)
        (get_or-set_ne d.free i j 1 0 x.ij ∙ b.second) (middle-more at buf write k)
    ∙ chain_last fuel (freed (freed d i) j) k (status at i) t2 x.third
        (get_or-set_ne (set d.desc i no_desc) j k no_desc no_desc x.jk
          ∙ get_or-set_ne d.desc i k no_desc no_desc x.ik
          ∙ h.last)
        (get_or-set_ne (set d.free i 1) j k 1 0 x.jk ∙ get_or-set_ne d.free i k 1 0 x.ik ∙ b.third)
        refl
  where
    t1 : IsTable (freed d i)
    t1 = freed-IsTable d i t x.first

    t2 : IsTable (freed (freed d i) j)
    t2 = freed-IsTable (freed d i) j t1 x.second

-- The request is forgotten.
abbrev pub forget : Disk → ℕ → Disk
forget d i = record d { info = set d.info i (record (get_or d.info i no_info) { buf = none }) }

pub finish_request-released :
    (at : Places) (buf : ℕ) (write : Bool) (i j k : ℕ) (d : Disk)
    → IsTable d
    → Three i j k
    → Holds at buf write i j k d.desc
    → Busy i j k d.free
    → finish_request i d ≡ ok (released (forget d i) i j k)
unfolding finish_request
finish_request-released at buf write i j k d t x h b =
    ap
      (λ o. (elim o [ none ↦ fault | some e ↦ ok e ]) >>= λ e.
        free_chain 9 (record d { info = set d.info i (record e { buf = none }) }) i)
      (get_elem?-eq-get_or d.info i no_info (omega (arith, t.info_len, x.first)))
    ∙ free_chain-released at buf write i j k 6 (forget d i) table x h b
  where
    table : IsTable (forget d i)
    table = record {
      free_len = t.free_len;
      desc_len = t.desc_len;
      info_len = length-set d.info i (record (get_or d.info i no_info) { buf = none }) ∙ t.info_len;
      mark = t.mark;
    }
