-- ===== src/User/Words.antt =====
-- user/lib/string.c: the test of a word for a zero byte.
use os.Util.{
  ℕ, ◌+◌, ◌-◌, ◌*◌, ◌%◌, ◌^◌, ◌≤◌, ◌<◌, ◌≡◌, refl, ◌≢◌, ◌∙◌, ap, ap₂, arith, Bool, true, false, not,
  ◌||◌, Bool-cases, inl, inr, List, [], ◌∷◌, bit_and, ◌==◌, ==_ne, ==_iff, ltb, ltb→lt,
  if◌then◌else◌,
}
use os.Util.Bits.{all_below, all_below_sound, bit_and-fields}
use os.User.{ones, highs, haszero, word_of}

-- The bytes of a word, of which one is zero.
abbrev pub AllBytes : List ℕ → Type 0
AllBytes [] = Unit
AllBytes (b ∷ bs) = (b < 256) × AllBytes bs

abbrev pub has_zero : List ℕ → Bool
has_zero [] = false
has_zero (b ∷ bs) = (b == 0) || has_zero bs

-- 256 to the number of the bytes, and the two constants for words of so many bytes.
power : List ℕ → ℕ
power [] = 1
power (b ∷ bs) = 256 * power bs

ones_of : List ℕ → ℕ
ones_of [] = 0
ones_of (b ∷ bs) = 1 + 256 * ones_of bs

highs_of : List ℕ → ℕ
highs_of [] = 0
highs_of (b ∷ bs) = 128 + 256 * highs_of bs

word-lt : (bs : List ℕ) → AllBytes bs → word_of bs < power bs
unfolding word_of power
word-lt [] h = omega arith
word-lt (b ∷ bs) (lt, h) = omega (arith, word-lt bs h)

ones-lt : (bs : List ℕ) → ones_of bs < power bs
unfolding ones_of power
ones-lt [] = omega arith
ones-lt (b ∷ bs) = omega (arith, ones-lt bs)

-- The word less the ones, modulo the power.
less_ones : List ℕ → ℕ
less_ones bs =
    if ltb (word_of bs) (ones_of bs)
    then word_of bs + power bs - ones_of bs
    else word_of bs - ones_of bs

tested : List ℕ → ℕ
unfolding less_ones power
tested bs = bit_and (bit_and (less_ones bs) (power bs - 1 - word_of bs)) (highs_of bs)

small_and : (b : ℕ) → b < 256 → bit_and (b - 1) (255 - b) < 256
unfolding all_below
small_and b lt =
    ltb→lt _ _ (all_below_sound 256 (λ x. ltb (bit_and (x - 1) (255 - x)) 256) b refl lt)

-- The lowest byte is tested apart from the others.
test_fields :
    (u v w x y z a b c : ℕ)
    → v < 256
    → x < 256
    → z < 256
    → bit_and v x < 256
    → a ≡ u * 256 + v
    → b ≡ w * 256 + x
    → c ≡ y * 256 + z
    → bit_and (bit_and a b) c ≡ bit_and (bit_and u w) y * 256 + bit_and (bit_and v x) z
test_fields u v w x y z a b c lv lx lz lvx ea eb ec =
    ap₂ (λ (s : ℕ) (t : ℕ). bit_and s t)
      (ap₂ (λ (s : ℕ) (t : ℕ). bit_and s t) ea eb ∙ bit_and-fields 8 u v w x lv lx) ec
    ∙ bit_and-fields 8 (bit_and u w) (bit_and v x) y z lvx lz

-- A zero byte borrows, and its highest bit is set.
tested-zero : (bs : List ℕ) → AllBytes bs → 128 ≤ tested (0 ∷ bs)
unfolding tested less_ones word_of ones_of highs_of power
tested-zero bs h =
    let q =
      if ltb (ones_of bs) (word_of bs)
      then word_of bs - ones_of bs - 1
      else word_of bs + power bs - ones_of bs - 1 in
    omega (
      arith,
      test_fields q 255 (power bs - 1 - word_of bs) 255 (highs_of bs) 128 (less_ones (0 ∷ bs))
          (power (0 ∷ bs) - 1 - word_of (0 ∷ bs)) (highs_of (0 ∷ bs)) (omega arith) (omega arith)
          (omega arith) (omega arith) (ground (arith, word-lt bs h, ones-lt bs))
          (omega (arith, word-lt bs h)) (omega arith),
    )

-- Another byte leaves the test of those behind it as it is.
tested-cons :
    (b : ℕ) (bs : List ℕ) → b < 256 → b ≢ 0 → AllBytes bs → 256 * tested bs ≤ tested (b ∷ bs)
unfolding tested less_ones word_of ones_of highs_of power
tested-cons b bs lt ne h = omega (
  arith,
  test_fields (less_ones bs) (b - 1) (power bs - 1 - word_of bs) (255 - b) (highs_of bs) 128
      (less_ones (b ∷ bs)) (power (b ∷ bs) - 1 - word_of (b ∷ bs)) (highs_of (b ∷ bs)) (omega arith)
      (omega arith) (omega arith) (small_and b lt) (ground (arith, word-lt bs h, ones-lt bs))
      (omega (arith, word-lt bs h)) (omega arith),
)

tested-ne_zero : (bs : List ℕ) → AllBytes bs → has_zero bs ≡ true → tested bs ≢ 0
tested-ne_zero [] h z = cc
tested-ne_zero (b ∷ bs) (lt, h) z = elim (Bool-cases (b == 0)) [
  | inl e ↦ λ t. omega (arith, tested-zero bs h, ap (λ (x : ℕ). tested (x ∷ bs)) ((==_iff b 0).0 e))
  | inr ne ↦
      λ t. omega (arith, tested-cons b bs lt (ground arith) h, tested-ne_zero bs h (ground arith))
]

-- A word of eight bytes passes the test if one of them is zero.
pub haszero_lem :
    (a b c d e f g h : ℕ)
    → let bs : List ℕ = a ∷ b ∷ c ∷ d ∷ e ∷ f ∷ g ∷ h ∷ [] in
      AllBytes bs → has_zero bs ≡ true → haszero (word_of bs) ≡ true
unfolding haszero tested less_ones ones_of highs_of power
haszero_lem a b c d e f g h all z =
    let bs : List ℕ = a ∷ b ∷ c ∷ d ∷ e ∷ f ∷ g ∷ h ∷ [] in
    let x = word_of bs in
    let same : less_ones bs ≡ (x + 2 ^ 64 - ones) % 2 ^ 64 = ground (arith, word-lt bs all) in
    ap not (
      ==_ne _ 0 (λ t.
        tested-ne_zero bs all z
          (ap (λ (l : ℕ). bit_and (bit_and l (2 ^ 64 - 1 - x)) highs) same ∙ t)))
