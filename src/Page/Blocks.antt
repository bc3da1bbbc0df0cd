-- ===== src/Page/Blocks.antt =====
-- The shape of the descriptor array: every run of taken pages ends in a page marked as last.
use os.Util.{
  ℕ, zero, suc, ◌+◌, ◌*◌, ◌^◌, ◌≤◌, ◌<◌, ◌≡◌, refl, ◌≢◌, ap, Bool, true, false, not, ◌&&◌, ◌||◌,
  List, [], ◌∷◌, ok, arith, ◌==◌, leb, if◌then◌else◌, length, get_or, Bool-cases, inl, inr, ==_iff,
  ◌⊎◌,
}
use os.Page.{Pool, clear_at}

-- 0 is a free page, 1 a taken page that others of its block follow, 3 the last page of a block.
abbrev valid_flag : Bool → ℕ → Bool
valid_flag inside f = ((f == 0) && not inside) || ((f == 1) || (f == 3))

-- `inside` says that a block has begun before the first descriptor and has not ended.
unfoldable pub blocks : Bool → List ℕ → Bool
blocks inside [] = not inside
blocks inside (f ∷ flags) = valid_flag inside f && blocks (f == 1) flags

-- What holds of the allocator between two calls.
pub record IsValid (p : Pool) : Type 0 where
  pub counted : length p.flags ≡ p.num_pages
  pub shape : blocks false p.flags ≡ true
  pub end : p.alloc_end ≡ p.alloc_start + 4096 * p.num_pages
  pub fits : p.alloc_end < 2 ^ 32
  pub not_null : 0 < p.alloc_start

-- The marks of a block of `suc n` pages at index i.
unfoldable pub paint : List ℕ → ℕ → ℕ → List ℕ
paint [] i n = []
paint (f ∷ flags) (suc i) n = f ∷ paint flags i n
paint (f ∷ flags) zero zero = 3 ∷ flags
paint (f ∷ flags) zero (suc n) = 1 ∷ paint flags zero n

-- The pages [i, i + n) exist and are free.
abbrev pub AllFree : List ℕ → ℕ → ℕ → Type 0
AllFree flags i n = (k : ℕ) → i ≤ k → k < i + n → get_or flags k 3 ≡ 0

-- Painting free pages keeps the shape, also where the first of them is drawn inside a block.
paint-blocks_here :
    (inside : Bool) (flags : List ℕ) (n : ℕ)
    → AllFree flags 0 (suc n)
    → blocks false flags ≡ true
    → blocks inside (paint flags 0 n) ≡ true
unfolding blocks paint
paint-blocks_here inside [] n free h = cc (free 0 (omega arith) (omega arith))
paint-blocks_here inside (f ∷ flags) zero free h = ground (arith, free 0)
paint-blocks_here inside (f ∷ flags) (suc n) free h =
    let tail : AllFree flags 0 (suc n) = λ k a b. free (suc k) (omega arith) (omega arith) in
    ground (arith, free 0, paint-blocks_here true flags n tail)

pub paint-blocks :
    (inside : Bool) (flags : List ℕ) (i n : ℕ)
    → AllFree flags i (suc n)
    → blocks inside flags ≡ true
    → blocks inside (paint flags i n) ≡ true
unfolding blocks paint
paint-blocks inside [] i n free h = h
paint-blocks true (f ∷ flags) zero n free h = ground (arith, free 0)
paint-blocks false (f ∷ flags) zero n free h = paint-blocks_here false (f ∷ flags) n free h
paint-blocks inside (f ∷ flags) (suc i) n free h =
    let tail : AllFree flags i (suc n) = λ k a b. free (suc k) (omega arith) (omega arith) in
    ground (arith, paint-blocks (f == 1) flags i n tail)

pub length-paint : (flags : List ℕ) (i n : ℕ) → length (paint flags i n) ≡ length flags
unfolding paint
length-paint [] i n = refl
length-paint (f ∷ flags) (suc i) n = ap suc (length-paint flags i n)
length-paint (f ∷ flags) zero zero = refl
length-paint (f ∷ flags) zero (suc n) = ap suc (length-paint flags zero n)

-- What `paint` leaves at each index.
pub paint_lem :
    (flags : List ℕ) (i n k : ℕ)
    → i + n < length flags
    → get_or (paint flags i n) k 3
      ≡ (if leb i k && leb k (i + n) then (if k == i + n then 3 else 1) else get_or flags k 3)
unfolding paint
paint_lem [] i n k h = absurd (omega arith)
paint_lem (f ∷ flags) (suc i) n zero h = ground arith
paint_lem (f ∷ flags) (suc i) n (suc k) h = ground (arith, paint_lem flags i n k)
paint_lem (f ∷ flags) zero zero zero h = ground arith
paint_lem (f ∷ flags) zero zero (suc k) h = ground arith
paint_lem (f ∷ flags) zero (suc n) zero h = ground arith
paint_lem (f ∷ flags) zero (suc n) (suc k) h = ground (arith, paint_lem flags zero n k)

-- Freeing at i what was painted at i gives the array back.
pub clear_at-paint :
    (flags : List ℕ) (i n : ℕ) → AllFree flags i (suc n) → clear_at (paint flags i n) i ≡ ok flags
unfolding clear_at paint
clear_at-paint [] i n free = cc (free i (omega arith) (omega arith))
clear_at-paint (f ∷ flags) zero zero free = ground (arith, free 0)
clear_at-paint (f ∷ flags) zero (suc n) free =
    let tail : AllFree flags 0 (suc n) = λ k a b. free (suc k) (omega arith) (omega arith) in
    rw (clear_at-paint flags zero n tail) (ground (arith, free 0))
clear_at-paint (f ∷ flags) (suc i) n free =
    let tail : AllFree flags i (suc n) = λ k a b. free (suc k) (omega arith) (omega arith) in
    rw (clear_at-paint flags i n tail) refl

-- The pages [i, i + n] are one block.
abbrev pub BlockAt : List ℕ → ℕ → ℕ → Type 0
BlockAt [] i n = ⊥
BlockAt (f ∷ flags) (suc i) n = BlockAt flags i n
BlockAt (f ∷ flags) zero zero = f ≡ 3
BlockAt (f ∷ flags) zero (suc n) = (f ≡ 1) × BlockAt flags zero n

-- No block that has begun before index i goes on at i.
abbrev pub Outside : Bool → List ℕ → ℕ → Type 0
Outside inside flags zero = inside ≡ false
Outside inside [] (suc i) = Unit
Outside inside (f ∷ flags) (suc i) = Outside (f == 1) flags i

-- What freeing the block [i, i + n] leaves.
unfoldable pub erase : List ℕ → ℕ → ℕ → List ℕ
erase [] i n = []
erase (f ∷ flags) (suc i) n = f ∷ erase flags i n
erase (f ∷ flags) zero zero = 0 ∷ flags
erase (f ∷ flags) zero (suc n) = 0 ∷ erase flags zero n

pub length-erase : (flags : List ℕ) (i n : ℕ) → length (erase flags i n) ≡ length flags
unfolding erase
length-erase [] i n = refl
length-erase (f ∷ flags) (suc i) n = ap suc (length-erase flags i n)
length-erase (f ∷ flags) zero zero = refl
length-erase (f ∷ flags) zero (suc n) = ap suc (length-erase flags zero n)

pub erase_lem :
    (flags : List ℕ) (i n k : ℕ)
    → get_or (erase flags i n) k 0 ≡ (if leb i k && leb k (i + n) then 0 else get_or flags k 0)
unfolding erase
erase_lem [] i n k = ground arith
erase_lem (f ∷ flags) (suc i) n zero = ground arith
erase_lem (f ∷ flags) (suc i) n (suc k) = ground (arith, erase_lem flags i n k)
erase_lem (f ∷ flags) zero zero zero = ground arith
erase_lem (f ∷ flags) zero zero (suc k) = ground arith
erase_lem (f ∷ flags) zero (suc n) zero = ground arith
erase_lem (f ∷ flags) zero (suc n) (suc k) = ground (arith, erase_lem flags zero n k)

pub clear_at-BlockAt :
    (flags : List ℕ) (i n : ℕ) → BlockAt flags i n → clear_at flags i ≡ ok (erase flags i n)
unfolding clear_at erase
clear_at-BlockAt [] i n b = absurd b
clear_at-BlockAt (f ∷ flags) (suc i) n b = rw (clear_at-BlockAt flags i n b) refl
clear_at-BlockAt (f ∷ flags) zero zero b = ground arith
clear_at-BlockAt (f ∷ flags) zero (suc n) b = rw (b.0, clear_at-BlockAt flags zero n b.1) refl

-- In an array of the right shape every taken page is in a block that ends.
block_here :
    (inside : Bool) (flags : List ℕ)
    → blocks inside flags ≡ true
    → (inside ≡ true) ⊎ (get_or flags 0 0 ≢ 0)
    → (n : ℕ) × BlockAt flags 0 n
unfolding blocks
block_here inside [] h t = absurd (ground arith)
block_here inside (f ∷ flags) h t = elim (Bool-cases (f == 1)) [
  | inl more ↦
      let (n, b) = block_here true flags (ground arith) (inl refl) in
      (suc n, ((==_iff f 1).0 more, b))
  | inr last ↦ (0, ground arith)
]

pub block_at :
    (inside : Bool) (flags : List ℕ) (i : ℕ)
    → blocks inside flags ≡ true
    → get_or flags i 0 ≢ 0
    → (n : ℕ) × BlockAt flags i n
unfolding blocks
block_at inside flags zero h t = block_here inside flags h (inr t)
block_at inside [] (suc i) h t = absurd (t refl)
block_at inside (f ∷ flags) (suc i) h t = block_at (f == 1) flags i (ground arith) t

-- Freeing a whole block keeps the shape.
erase-blocks_here :
    (inside : Bool) (flags : List ℕ) (n : ℕ)
    → BlockAt flags 0 n
    → blocks inside flags ≡ true
    → blocks false (erase flags 0 n) ≡ true
unfolding blocks erase
erase-blocks_here inside [] n b h = absurd b
erase-blocks_here inside (f ∷ flags) zero b h = ground arith
erase-blocks_here inside (f ∷ flags) (suc n) b h =
    ground (arith, erase-blocks_here (f == 1) flags n b.1)

pub erase-blocks :
    (inside : Bool) (flags : List ℕ) (i n : ℕ)
    → BlockAt flags i n
    → Outside inside flags i
    → blocks inside flags ≡ true
    → blocks inside (erase flags i n) ≡ true
unfolding blocks erase
erase-blocks inside [] i n b o h = absurd b
erase-blocks inside (f ∷ flags) zero n b o h = rw o (erase-blocks_here inside (f ∷ flags) n b h)
erase-blocks inside (f ∷ flags) (suc i) n b o h =
    ground (arith, erase-blocks (f == 1) flags i n b o)
