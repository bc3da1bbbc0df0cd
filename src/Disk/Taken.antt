-- ===== src/Disk/Taken.antt =====
-- driver/virtio.c: which descriptors `alloc_descs` takes, and what it leaves behind.
use os.Util.{
  ℕ, suc, ◌+◌, ◌≤◌, ◌<◌, ◌≡◌, refl, sym, ◌≢◌, ◌∙◌, ap, arith, Bool-cases, inl, inr, ◌==◌, Option,
  none, some, List, [], ◌∷◌, if◌then◌else◌, get_or, set, length, length-set, get_or-set_inside,
}
use os.Disk.{Disk, find_desc, alloc_desc}

-- The tables have eight places, and a mark is 0 or 1.
pub record IsTable (d : Disk) : Type 0 where
  pub free_len : length d.free ≡ 8
  pub desc_len : length d.desc ≡ 8
  pub info_len : length d.info ≡ 8
  pub mark : (i : ℕ) → get_or d.free i 0 ≤ 1

-- The free descriptors, in order.
unfoldable pub frees : List ℕ → ℕ → List ℕ
frees [] i = []
frees (mark ∷ marks) i = if mark == 0 then frees marks (suc i) else i ∷ frees marks (suc i)

-- Three of them are given, or none.
unfoldable pub grant : List ℕ → Option (List ℕ)
grant (i ∷ j ∷ k ∷ rest) = some (i ∷ j ∷ k ∷ [])
grant (i ∷ j ∷ []) = none
grant (i ∷ []) = none
grant [] = none

unfoldable pub left : List ℕ → List ℕ
left (i ∷ j ∷ k ∷ rest) = rest
left (i ∷ j ∷ []) = i ∷ j ∷ []
left (i ∷ []) = i ∷ []
left [] = []

find_desc-none : (marks : List ℕ) (b : ℕ) → frees marks b ≡ [] → find_desc marks b ≡ none
unfolding frees find_desc
find_desc-none [] b e = refl
find_desc-none (m ∷ marks) b e = ground (arith, find_desc-none marks (suc b))

-- The first free descriptor, which is n places on.
record First (marks : List ℕ) (b i : ℕ) (rest : List ℕ) : Type 0 where
  place : ℕ
  here : i ≡ place + b
  inside : place < length marks
  marked : get_or marks place 0 ≢ 0
  found : find_desc marks b ≡ some i
  others : frees (set marks place 0) b ≡ rest

find_desc-First :
    (marks : List ℕ) (b i : ℕ) (rest : List ℕ) → frees marks b ≡ i ∷ rest → First marks b i rest
unfolding frees find_desc
find_desc-First [] b i rest e = cc
find_desc-First (m ∷ marks) b i rest e = elim (Bool-cases (m == 0)) [
  | inl taken ↦
      let f = find_desc-First marks (suc b) i rest (ground arith) in
      record {
        place = suc f.place;
        here = omega (arith, f.here);
        inside = omega (arith, f.inside);
        marked = f.marked;
        found = rw taken f.found;
        others = rw taken f.others;
      }
  | inr marked ↦ record {
    place = 0;
    here = ground arith;
    inside = omega arith;
    marked = ground arith;
    found = ground arith;
    others = ground arith;
  }
]

abbrev pub take : Disk → ℕ → Disk
take d i = record d { free = set d.free i 0 }

pub record Taken (d : Disk) (i : ℕ) (rest : List ℕ) : Type 0 where
  pub inside : i < 8
  pub marked : get_or d.free i 0 ≡ 1
  pub done : alloc_desc d ≡ (some i, take d i)
  pub others : frees (take d i).free 0 ≡ rest

pub take-IsTable : (d : Disk) (i : ℕ) → IsTable d → i < 8 → IsTable (take d i)
take-IsTable d i t lt = record {
  free_len = omega (arith, length-set d.free i 0, t.free_len);
  desc_len = t.desc_len;
  info_len = t.info_len;
  mark =
      λ n. ground (arith, get_or-set_inside d.free i n 0 0 (omega (arith, t.free_len)), t.mark n);
}

pub alloc_desc-Taken :
    (d : Disk) (i : ℕ) (rest : List ℕ) → IsTable d → frees d.free 0 ≡ i ∷ rest → Taken d i rest
unfolding alloc_desc
alloc_desc-Taken d i rest t e =
    let f = find_desc-First d.free 0 i rest e in
    let same : f.place ≡ i = omega (arith, f.here) in
    record {
      inside = omega (arith, f.here, f.inside, t.free_len);
      marked = ground (arith, f.marked, t.mark f.place, ap (λ (n : ℕ). get_or d.free n 0) same);
      done = ap (λ o. elim o [ none ↦ (none, d) | some n ↦ (some n, take d n) ]) f.found;
      others = ap (λ n. frees (set d.free n 0) 0) (sym same) ∙ f.others;
    }

pub alloc_desc-none : (d : Disk) → frees d.free 0 ≡ [] → alloc_desc d ≡ (none, d)
unfolding alloc_desc
alloc_desc-none d e =
    ap (λ o. elim o [ none ↦ (none, d) | some n ↦ (some n, take d n) ]) (find_desc-none d.free 0 e)
