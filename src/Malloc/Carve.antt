-- ===== src/Malloc/Carve.antt =====
-- mm/malloc.c: the list of free objects that is made of a page.
use os.Util.{
  ℕ, zero, suc, ◌+◌, ◌*◌, ◌<◌, ◌≡◌, refl, sym, ◌≢◌, ◌∙◌, arith, ◌⊎◌, inl, inr, List, [], ◌∷◌,
}
use mathlib.Core.Path.{subst}
use os.Page.{store_word}
use os.Malloc.{carve}

-- From p on, the words lead through the objects to NULL.
abbrev pub Chain : (ℕ → ℕ) → ℕ → List ℕ → Type 0
Chain word p [] = p ≡ 0
Chain word p (x ∷ xs) = (p ≡ x) × (x ≢ 0) × Chain word (word x) xs

-- The addresses of `count` objects that follow one another.
unfoldable pub objects : ℕ → ℕ → ℕ → List ℕ
objects p size zero = []
objects p size (suc count) = p ∷ objects (p + size) size count

-- Words before the page and after its last object stay as they are.
pub carve_outside :
    (word : ℕ → ℕ) (cp size count a : ℕ)
    → (a < cp) ⊎ (cp + size * count < a)
    → carve word cp size count a ≡ word a
unfolding carve store_word
carve_outside word cp size zero a (inl h) = ground arith
carve_outside word cp size zero a (inr h) = ground arith
carve_outside word cp size (suc count) a (inl h) =
    carve_outside (store_word word cp (cp + size)) (cp + size) size count a (inl (omega arith))
    ∙ ground arith
carve_outside word cp size (suc count) a (inr h) =
    carve_outside (store_word word cp (cp + size)) (cp + size) size count a (inr (grind arith))
    ∙ ground arith

pub carve-Chain :
    (word : ℕ → ℕ) (cp size count : ℕ)
    → cp ≢ 0
    → 0 < size
    → Chain (carve word cp size count) cp (objects cp size (suc count))
unfolding carve store_word objects
carve-Chain word cp size zero ne pos = (refl, ne, ground arith)
carve-Chain word cp size (suc count) ne pos = (
  refl,
  ne,
  subst (λ p. Chain later p (objects (cp + size) size (suc count))) (sym next)
      (carve-Chain (store_word word cp (cp + size)) (cp + size) size count (omega arith) pos),
)
  where
    later : ℕ → ℕ
    later = carve (store_word word cp (cp + size)) (cp + size) size count

    next : later cp ≡ cp + size
    next =
        carve_outside (store_word word cp (cp + size)) (cp + size) size count cp (inl (omega arith))
        ∙ ground arith
