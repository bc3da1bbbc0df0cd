-- ===== src/Disk/Whole.antt =====
-- driver/virtio.c: `virtio_disk_rw` as a whole, with what the device and the handler do meanwhile.
use os.Util.{
  ℕ, zero, suc, ◌<◌, ◌≡◌, ◌≢◌, ◌∙◌, ap, arith, Bool, true, false, ◌==◌, ==_ne, none, some, List, [],
  ◌∷◌, ok, fault, ◌>>=◌, get_elem?, get_or, get_or-set_inside,
}
use os.Disk.{
  Disk, Places, Others, submit, finish_request, alloc_descs, wait_descs, wait_done, transfer,
  virtio_disk_rw,
}
use os.Disk.Taken.{IsTable, frees, take, take-IsTable, alloc_desc-Taken}
use os.Disk.Grant.{round_some}
use os.Disk.Chain.{Three, Holds}
use os.Disk.Transfer.{Busy, released, forget, finish_request-released}

-- With three free descriptors, `alloc_descs` takes three different ones.
pub record Allocated (d : Disk) (i j k : ℕ) : Type 0 where
  pub done : alloc_descs d ≡ ok (some (i ∷ j ∷ k ∷ []), take (take (take d i) j) k)
  pub three : Three i j k
  pub busy : Busy i j k (take (take (take d i) j) k).free
  pub table : IsTable (take (take (take d i) j) k)
  pub marked : (get_or d.free i 0 ≡ 1) × (get_or d.free j 0 ≡ 1) × (get_or d.free k 0 ≡ 1)

pub frees-Allocated :
    (d : Disk) (i j k : ℕ) (rest : List ℕ)
    → IsTable d
    → frees d.free 0 ≡ i ∷ j ∷ k ∷ rest
    → Allocated d i j k
unfolding alloc_descs
frees-Allocated d i j k rest t e =
    let f = alloc_desc-Taken d i (j ∷ k ∷ rest) t e in
    let t1 = take-IsTable d i t f.inside in
    let g = alloc_desc-Taken (take d i) j (k ∷ rest) t1 f.others in
    let t2 = take-IsTable (take d i) j t1 g.inside in
    let h = alloc_desc-Taken (take (take d i) j) k rest t2 g.others in
    let read1 = λ (n : ℕ). get_or-set_inside d.free i n 0 0 (omega (arith, t.free_len, f.inside)) in
    let read2 =
      λ (n : ℕ). get_or-set_inside (take d i).free j n 0 0 (omega (arith, t1.free_len, g.inside)) in
    let read3 = λ (n : ℕ).
      get_or-set_inside (take (take d i) j).free k n 0 0 (omega (arith, t2.free_len, h.inside)) in
    let same = λ (n m : ℕ) (q : n ≡ m). ap (λ (x : ℕ). get_or d.free x 0) q in
    record {
      done =
          round_some 2 d i [] f.done
          ∙ round_some 1 (take d i) j (i ∷ []) g.done
          ∙ round_some 0 (take (take d i) j) k (i ∷ j ∷ []) h.done;
      three = record {
        first = f.inside;
        second = g.inside;
        third = h.inside;
        ij = λ q. ground (arith, g.marked, read1 j);
        ik = λ q. ground (arith, h.marked, read2 k, read1 k);
        jk = λ q. ground (arith, h.marked, read2 k);
      };
      busy = record {
        first = ground (arith, read3 i, read2 i, read1 i);
        second = ground (arith, read3 j, read2 j);
        third = ground (arith, read3 k);
      };
      table = take-IsTable (take (take d i) j) k t2 h.inside;
      marked =
          (f.marked, ground (arith, g.marked, read1 j), ground (arith, h.marked, read2 k, read1 k));
    }

-- While the function waits, `others` runs n times, and then the buffer does not wait any more.
abbrev pub Served : Others → ℕ → ℕ → Disk → Disk → Type 0
Served others buf zero d e = (get_elem? d.pending buf ≡ some 0) × (d ≡ e)
Served others buf (suc n) d e =
    (p : ℕ) × (get_elem? d.pending buf ≡ some p)
    × (p ≢ 0)
    × (m : Disk) × (others d ≡ ok m)
    × Served others buf n m e

wait_done-Served :
    (others : Others) (buf n fuel : ℕ) (d e : Disk)
    → n < fuel
    → Served others buf n d e
    → wait_done others fuel buf d ≡ ok e
unfolding wait_done
wait_done-Served others buf n zero d e lt h = absurd (omega arith)
wait_done-Served others buf zero (suc fuel) d e lt (z, same) =
    ap
      (λ o. (elim o [ none ↦ fault | some x ↦ ok x ]) >>= λ busy. elim (busy == 0) [
        | true ↦ ok d
        | false ↦ others d >>= λ d'. wait_done others fuel buf d'
      ])
      z
    ∙ ap (λ x. ok x) same
wait_done-Served others buf (suc n) (suc fuel) d e lt (p, read, busy, m, run, rest) =
    ap
      (λ o. (elim o [ none ↦ fault | some x ↦ ok x ]) >>= λ busy. elim (busy == 0) [
        | true ↦ ok d
        | false ↦ others d >>= λ d'. wait_done others fuel buf d'
      ])
      read
    ∙ ap (λ b. elim b [ true ↦ ok d | false ↦ others d >>= λ d'. wait_done others fuel buf d' ])
        (==_ne p 0 busy)
    ∙ ap (λ r. r >>= λ d'. wait_done others fuel buf d') run
    ∙ wait_done-Served others buf n fuel m e (omega arith) rest

-- The state in which the function waits.
abbrev pub asked : Places → ℕ → ℕ → Bool → ℕ → ℕ → ℕ → Disk → Disk
asked at buf block_no write i j k d =
    submit at buf block_no write i j k (take (take (take d i) j) k)

pub rw-released :
    (at : Places) (others : Others) (fuel buf block_no : ℕ) (write : Bool) (i j k n : ℕ)
    (rest : List ℕ) (d e : Disk)
    → IsTable d
    → frees d.free 0 ≡ i ∷ j ∷ k ∷ rest
    → n < fuel
    → Served others buf n (asked at buf block_no write i j k d) e
    → IsTable e
    → Holds at buf write i j k e.desc
    → Busy i j k e.free
    → virtio_disk_rw at others fuel buf block_no write d ≡ ok (released (forget e i) i j k)
unfolding virtio_disk_rw wait_descs transfer
rw-released at others zero buf block_no write i j k n rest d e t s lt h te ho b =
    absurd (omega arith)
rw-released at others (suc fuel) buf block_no write i j k n rest d e t s lt h te ho b =
    let a = frees-Allocated d i j k rest t s in
    ap
      (λ r.
        (r >>= λ (got, d'). elim got [
          | none ↦ others d' >>= λ d''. wait_descs others fuel d''
          | some index ↦ ok (index, d')
        ])
        >>= λ (index, d'). transfer at others (suc fuel) buf block_no write index d')
      a.done
    ∙ ap (λ r. r >>= λ d'. finish_request i d')
        (wait_done-Served others buf n (suc fuel) (asked at buf block_no write i j k d) e lt h)
    ∙ finish_request-released at buf write i j k e te a.three ho b
