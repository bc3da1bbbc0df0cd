-- ===== src/Disk/Chain.antt =====
-- driver/virtio.c: the chains of descriptors, as they are built, read and freed.
use os.Util.{
  ℕ, zero, suc, ◌+◌, ◌*◌, ◌≤◌, ◌<◌, ◌≡◌, refl, sym, ◌≢◌, ◌∙◌, ap, arith, Bool, true, false,
  Option-cases, inl, inr, ◌==◌, some, List, [], ◌∷◌, ok, out_of_fuel, ◌>>=◌, >>=-ne-out_of_fuel,
  bit_and, if◌then◌else◌, get_elem?, get_or, set, length, length-set, get_or-set_self,
  get_or-set_ne,
}
use os.Disk.{
  Disk, Desc, Places, no_desc, make_desc, fetch, read_desc, free_desc, free_chain, submit,
  flag_next,
}
use os.Disk.Taken.{IsTable}

-- The number of descriptors that are taken.
unfoldable pub taken : List ℕ → ℕ
taken [] = 0
taken (mark ∷ marks) = taken marks + (if mark == 0 then 1 else 0)

taken-set :
    (marks : List ℕ) (i m : ℕ)
    → get_elem? marks i ≡ some m
    → m ≡ 0
    → taken (set marks i 1) + 1 ≡ taken marks
unfolding taken
taken-set [] i m e z = cc
taken-set (x ∷ marks) zero m e z = ground arith
taken-set (x ∷ marks) (suc i) m e z = ground (arith, taken-set marks i m)

pub taken-le : (marks : List ℕ) → taken marks ≤ length marks
unfolding taken
taken-le [] = omega arith
taken-le (mark ∷ marks) = ground (arith, taken-le marks)

free_desc-taken :
    (d : Disk) (i : ℕ) {d' : Disk} → free_desc d i ≡ ok d' → taken d'.free + 1 ≡ taken d.free
unfolding free_desc
free_desc-taken d i h = elim (Option-cases (get_elem? d.free i)) [
  | inl e ↦ ground arith
  | inr (m, e) ↦ ground (arith, taken-set d.free i m e)
]

fetch-returns {ℓ} : {A : Type ℓ} (xs : List A) (i : ℕ) → fetch xs i ≢ out_of_fuel
fetch-returns xs i h = ground arith

free_desc-returns : (d : Disk) (i : ℕ) → free_desc d i ≢ out_of_fuel
unfolding free_desc
free_desc-returns d i h = ground arith

read_desc-returns : (d : Disk) (i : ℕ) → read_desc d i ≢ out_of_fuel
unfolding read_desc
read_desc-returns d i h = ground arith

-- `free_chain` ends, by a return, a panic or a fault, whatever the descriptors hold, also if they
-- form a cycle: more rounds than there are taken descriptors are enough fuel.
pub free_chain-fuel :
    (fuel : ℕ) (d : Disk) (i : ℕ) → taken d.free < fuel → free_chain fuel d i ≢ out_of_fuel
unfolding free_chain
free_chain-fuel zero d i lt = λ h. absurd (omega arith)
free_chain-fuel (suc fuel) d i lt =
    >>=-ne-out_of_fuel (read_desc d i)
      (λ here. free_desc d i >>= λ d'. elim (bit_and here.flags flag_next == 0) [
        | true ↦ ok d'
        | false ↦ free_chain fuel d' here.next
      ])
      (read_desc-returns d i)
      λ here e.
        >>=-ne-out_of_fuel (free_desc d i)
          (λ d'. elim (bit_and here.flags flag_next == 0) [
            | true ↦ ok d'
            | false ↦ free_chain fuel d' here.next
          ])
          (free_desc-returns d i)
          λ d' f.
            elim (bit_and here.flags flag_next == 0)
              as (λ b.
                elim b [ true ↦ ok d' | false ↦ free_chain fuel d' here.next ] ≢ out_of_fuel) [
                  | true ↦ λ h. cc
                  | false ↦ free_chain-fuel fuel d' here.next (omega (arith, free_desc-taken d i f))
                ]

-- What the device reads from a descriptor on, as the flags lead it.
unfoldable pub walk : ℕ → List Desc → ℕ → List Desc
walk zero table i = []
walk (suc count) table i =
    let here = get_or table i no_desc in
    let rest = walk count table here.next in
    if bit_and here.flags flag_next == 0 then here ∷ [] else here ∷ rest

-- Three different descriptors of the table.
pub record Three (i j k : ℕ) : Type 0 where
  pub first : i < 8
  pub second : j < 8
  pub third : k < 8
  pub ij : i ≢ j
  pub ik : i ≢ k
  pub jk : j ≢ k

-- A table with the request that `submit` writes.
abbrev pub header : Places → ℕ → ℕ → Desc
header at i j = make_desc (at.ops + 16 * i) 16 1 j

abbrev pub bytes : Places → ℕ → Bool → ℕ → Desc
bytes at buf write k = make_desc (at.bytes buf) 512 (if write then 1 else 3) k

abbrev pub status : Places → ℕ → Desc
status at i = make_desc (at.info + 16 * i + 8) 1 2 0

pub record Holds (at : Places) (buf : ℕ) (write : Bool) (i j k : ℕ) (table : List Desc)
    : Type 0 where
  pub head : get_or table i no_desc ≡ header at i j
  pub middle : get_or table j no_desc ≡ bytes at buf write k
  pub last : get_or table k no_desc ≡ status at i

Holds-set :
    (at : Places) (buf : ℕ) (write : Bool) (i j k : ℕ) (table : List Desc)
    → length table ≡ 8
    → Three i j k
    → Holds at buf write i j k
        (set (set (set table i (header at i j)) j (bytes at buf write k)) k (status at i))
Holds-set at buf write i j k table size x = record {
  head =
      get_or-set_ne two k i (status at i) no_desc (λ e. x.ik (sym e))
      ∙ get_or-set_ne one j i (bytes at buf write k) no_desc (λ e. x.ij (sym e))
      ∙ get_or-set_self table i (header at i j) no_desc (omega (arith, size, x.first));
  middle =
      get_or-set_ne two k j (status at i) no_desc (λ e. x.jk (sym e))
      ∙ get_or-set_self one j (bytes at buf write k) no_desc (omega (arith, one_len, x.second));
  last = get_or-set_self two k (status at i) no_desc (omega (arith, two_len, x.third));
}
  where
    one : List Desc
    one = set table i (header at i j)

    two : List Desc
    two = set one j (bytes at buf write k)

    one_len : length one ≡ 8
    one_len = length-set table i (header at i j) ∙ size

    two_len : length two ≡ 8
    two_len = length-set one j (bytes at buf write k) ∙ one_len

-- `submit` writes the request, whichever way the bytes go.
pub Holds-submit :
    (at : Places) (buf block_no : ℕ) (write : Bool) (i j k : ℕ) (d : Disk)
    → IsTable d
    → Three i j k
    → Holds at buf write i j k (submit at buf block_no write i j k d).desc
unfolding submit
Holds-submit at buf block_no true i j k d t x = Holds-set at buf true i j k d.desc t.desc_len x
Holds-submit at buf block_no false i j k d t x = Holds-set at buf false i j k d.desc t.desc_len x

module _ (count : ℕ) (table : List Desc) (i : ℕ) (here : Desc)
    (e : get_or table i no_desc ≡ here) where
  walk_more :
      (bit_and here.flags flag_next == 0) ≡ false
      → walk (suc count) table i ≡ here ∷ walk count table here.next
  unfolding walk
  walk_more more =
      ap (λ x. if bit_and x.flags flag_next == 0 then x ∷ [] else x ∷ walk count table x.next) e
      ∙ ap (λ b. if b then here ∷ [] else here ∷ walk count table here.next) more

  walk_last : (bit_and here.flags flag_next == 0) ≡ true → walk (suc count) table i ≡ here ∷ []
  unfolding walk
  walk_last end =
      ap (λ x. if bit_and x.flags flag_next == 0 then x ∷ [] else x ∷ walk count table x.next) e
      ∙ ap (λ b. if b then here ∷ [] else here ∷ walk count table here.next) end

pub middle-more :
    (at : Places) (buf : ℕ) (write : Bool) (k : ℕ)
    → (bit_and (bytes at buf write k).flags flag_next == 0) ≡ false
middle-more at buf true k = refl
middle-more at buf false k = refl

pub Holds-walk :
    (at : Places) (buf : ℕ) (write : Bool) (i j k : ℕ) (table : List Desc)
    → Holds at buf write i j k table
    → walk 8 table i ≡ header at i j ∷ bytes at buf write k ∷ status at i ∷ []
Holds-walk at buf write i j k table x =
    walk_more 7 table i (header at i j) x.head refl
    ∙ ap (λ rest. header at i j ∷ rest)
        (walk_more 6 table j (bytes at buf write k) x.middle (middle-more at buf write k)
          ∙ ap (λ rest. bytes at buf write k ∷ rest)
              (walk_last 5 table k (status at i) x.last refl))
