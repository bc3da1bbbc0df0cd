-- ===== src/Malloc/Linked.antt =====
-- mm/malloc.c: the lists of descriptors, and the searches in them.
use os.Util.{
  ℕ, zero, suc, ◌<◌, ◌≡◌, sym, ◌≢◌, ap, arith, false, inl, inr, Bool-cases, ==_iff, List, [], ◌∷◌,
  ◌++◌, ok, ◌==◌, ==_refl, ==_ne, if◌then◌else◌, length,
}
use mathlib.Core.Path.{subst}
use os.Malloc.{Bdesc, put_desc, find_open}

-- From p on, `next` leads through the descriptors to NULL.
abbrev pub Linked : (ℕ → Bdesc) → ℕ → List ℕ → Type 0
Linked desc p [] = p ≡ 0
Linked desc p (x ∷ xs) = (p ≡ x) × (x ≢ 0) × Linked desc (desc x).next xs

abbrev pub All : (ℕ → Type 0) → List ℕ → Type 0
All P [] = Unit
All P (x ∷ xs) = P x × All P xs

abbrev pub last_of : ℕ → List ℕ → ℕ
last_of prev [] = prev
last_of prev (x ∷ xs) = last_of x xs

pub put_desc_self : (desc : ℕ → Bdesc) (p : ℕ) (b : Bdesc) → put_desc desc p b p ≡ b
unfolding put_desc
put_desc_self desc p b = ap (λ t. if t then b else desc p) (==_refl p)

pub put_desc_other :
    (desc : ℕ → Bdesc) (p : ℕ) (b : Bdesc) (q : ℕ) → q ≢ p → put_desc desc p b q ≡ desc q
unfolding put_desc
put_desc_other desc p b q ne = ap (λ t. if t then b else desc q) (==_ne q p ne)

-- A list does not see a write to a descriptor that is not in it.
pub Linked-put :
    (desc : ℕ → Bdesc) (q : ℕ) (b : Bdesc) (p : ℕ) (xs : List ℕ)
    → All (λ x. x ≢ q) xs
    → Linked desc p xs
    → Linked (put_desc desc q b) p xs
unfolding put_desc
Linked-put desc q b p [] all l = l
Linked-put desc q b p (x ∷ xs) (ne, all) (e, nz, l) = (
  e,
  nz,
  subst (λ c. Linked (put_desc desc q b) c.next xs) (sym (here (==_ne x q ne)))
      (Linked-put desc q b (desc x).next xs all l),
)
  where
    here : (x == q) ≡ false → put_desc desc q b x ≡ desc x
    here e = ap (λ t. if t then b else desc x) e

-- Nor a write that keeps `next`.
pub Linked-keep :
    (desc : ℕ → Bdesc) (q : ℕ) (b : Bdesc) (p : ℕ) (xs : List ℕ)
    → b.next ≡ (desc q).next
    → Linked desc p xs
    → Linked (put_desc desc q b) p xs
unfolding put_desc
Linked-keep desc q b p [] keep l = l
Linked-keep desc q b p (x ∷ xs) keep (e, nz, l) = (
  e,
  nz,
  subst (λ n. Linked (put_desc desc q b) n xs) same (Linked-keep desc q b (desc x).next xs keep l),
)
  where
    same : (desc x).next ≡ (put_desc desc q b x).next
    same = elim (Bool-cases (x == q)) [
      | inl here ↦ ground (arith, here, ap (λ (y : ℕ). (desc y).next) ((==_iff x q).0 here))
      | inr there ↦ ap (λ t. (if t then b else desc x).next) (sym there)
    ]

-- The first descriptor with a free object, behind those that have none.
pub find_open_lem :
    (fuel : ℕ) (desc : ℕ → Bdesc) (p : ℕ) (full : List ℕ) (x : ℕ) (rest : List ℕ)
    → length full < fuel
    → All (λ y. (desc y).freeptr ≡ 0) full
    → Linked desc p (full ++ x ∷ rest)
    → (desc x).freeptr ≢ 0
    → find_open fuel desc p ≡ ok x
unfolding find_open
find_open_lem zero desc p full x rest lt all l ne = absurd (omega arith)
find_open_lem (suc fuel) desc p [] x rest lt all (e, nz, l) ne =
    ground (arith, e, ap (λ (y : ℕ). (desc y).freeptr) e)
find_open_lem (suc fuel) desc p (y ∷ full) x rest lt (z, all) (e, nz, l) ne = ground (
  arith,
  e,
  z,
  find_open_lem fuel desc (desc y).next full x rest (omega arith) all l ne,
  ap (λ (y : ℕ). (desc y).freeptr) e,
  ap (λ (y : ℕ). find_open fuel desc (desc y).next) e,
)

pub find_open-none :
    (fuel : ℕ) (desc : ℕ → Bdesc) (p : ℕ) (full : List ℕ)
    → length full < fuel
    → All (λ y. (desc y).freeptr ≡ 0) full
    → Linked desc p full
    → find_open fuel desc p ≡ ok 0
unfolding find_open
find_open-none zero desc p full lt all l = absurd (omega arith)
find_open-none (suc fuel) desc p [] lt all e = ground arith
find_open-none (suc fuel) desc p (y ∷ full) lt (z, all) (e, nz, l) = ground (
  arith,
  e,
  z,
  find_open-none fuel desc (desc y).next full (omega arith) all l,
  ap (λ (y : ℕ). (desc y).freeptr) e,
  ap (λ (y : ℕ). find_open fuel desc (desc y).next) e,
)
