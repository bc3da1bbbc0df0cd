-- ===== src/Util/Bits.antt =====
-- The bit operations of the source as arithmetic: a mask of k ones is a remainder, an or of
-- disjoint fields is a sum. The laws hold for every width, by induction on it.
use Prim.Native.Nat.{
  ℕ, zero, suc, ◌+◌, ◌*◌, ◌/◌, ◌%◌, ◌^◌, ◌≤◌, ◌<◌, min, max, digits, bit_and, bit_or,
  bit_and-bitwise, bit_or-bitwise,
}
use mathlib.Core.Bool.{Bool, true, ◌&&◌}
use mathlib.Core.Path.{◌≡◌, refl, ap, ap₂, ◌∙◌}
use native.Mathlib.Nat.{pow-suc, pow-succ', two-pow-succ, div-div-eq-div-mul}
use native.Mathlib.Omega.{arith}

-- Over a small range, every value is checked by evaluation.
unfoldable pub all_below : ℕ → (ℕ → Bool) → Bool
all_below zero holds = true
all_below (suc n) holds = holds n && all_below n holds

pub all_below_sound :
    (n : ℕ) (holds : ℕ → Bool) (x : ℕ) → all_below n holds ≡ true → x < n → holds x ≡ true
unfolding all_below
all_below_sound zero holds x every lt = absurd (omega arith)
all_below_sound (suc n) holds x every lt = ground (arith, all_below_sound n holds x)

-- The count of digits of `digits` is fuel: more of it changes nothing.
fuel-irrelevant :
    (z : ℕ → ℕ) (f : ℕ → ℕ → ℕ) (n m a b : ℕ) → a ≤ n → a ≤ m → digits z f n a b ≡ digits z f m a b
fuel-irrelevant z f zero zero a b p q = refl
fuel-irrelevant z f (suc n) (suc m) zero b p q = refl
fuel-irrelevant z f zero (suc m) zero b p q = refl
fuel-irrelevant z f (suc n) zero zero b p q = refl
fuel-irrelevant z f zero m (suc a) b p q = absurd (omega arith)
fuel-irrelevant z f n zero (suc a) b p q = absurd (omega arith)
fuel-irrelevant z f (suc n) (suc m) (suc a) b p q =
    rw (fuel-irrelevant z f n m (suc a / 2) (b / 2) (omega arith) (omega arith)) refl

and-zero_left : (b : ℕ) → bit_and 0 b ≡ 0
and-zero_left b = bit_and-bitwise 0 b

or-zero_left : (b : ℕ) → bit_or 0 b ≡ b
or-zero_left b = bit_or-bitwise 0 b

-- The lowest digit of a conjunction.
pub bit_and-halves : (a b : ℕ) → bit_and a b ≡ bit_and (a / 2) (b / 2) * 2 + min (a % 2) (b % 2)
bit_and-halves zero b = omega (arith, and-zero_left b, and-zero_left (b / 2))
bit_and-halves (suc a) b = omega (
  arith,
  bit_and-bitwise (suc a) b,
  bit_and-bitwise (suc a / 2) (b / 2),
  fuel-irrelevant (λ b. zero) min a (suc a / 2) (suc a / 2) (b / 2) (omega arith) (omega arith),
)

-- The lowest digit of a disjunction.
pub bit_or-halves : (a b : ℕ) → bit_or a b ≡ bit_or (a / 2) (b / 2) * 2 + max (a % 2) (b % 2)
bit_or-halves zero b = omega (arith, or-zero_left b, or-zero_left (b / 2))
bit_or-halves (suc a) b = omega (
  arith,
  bit_or-bitwise (suc a) b,
  bit_or-bitwise (suc a / 2) (b / 2),
  fuel-irrelevant (λ b. b) max a (suc a / 2) (suc a / 2) (b / 2) (omega arith) (omega arith),
)

and-zero_below : (n a : ℕ) → a ≤ n → bit_and a 0 ≡ 0
and-zero_below n zero h = and-zero_left 0
and-zero_below zero (suc a) h = absurd (omega arith)
and-zero_below (suc n) (suc a) h =
    omega (arith, bit_and-halves (suc a) 0, and-zero_below n (suc a / 2) (omega arith))

pub bit_and-zero : (a : ℕ) → bit_and a 0 ≡ 0
bit_and-zero a = and-zero_below a a (omega arith)

or-zero_below : (n a : ℕ) → a ≤ n → bit_or a 0 ≡ a
or-zero_below n zero h = or-zero_left 0
or-zero_below zero (suc a) h = absurd (omega arith)
or-zero_below (suc n) (suc a) h =
    omega (arith, bit_or-halves (suc a) 0, or-zero_below n (suc a / 2) (omega arith))

pub bit_or-zero : (a : ℕ) → bit_or a 0 ≡ a
bit_or-zero a = or-zero_below a a (omega arith)

mod-double : (a p : ℕ) → 0 < p → a % (p * 2) ≡ a / 2 % p * 2 + a % 2
mod-double a p h = grind arith

pow-pos : (k : ℕ) → 0 < 2 ^ k
pow-pos zero = omega arith
pow-pos (suc k) = omega (arith, two-pow-succ k, pow-pos k)

-- `x & (2 ^ k - 1)` is `x % 2 ^ k`.
pub bit_and-ones : (k a m : ℕ) → m + 1 ≡ 2 ^ k → bit_and a m ≡ a % 2 ^ k
bit_and-ones zero a m h = omega (arith, ap (λ (t : ℕ). bit_and a t) (zero_of h), bit_and-zero a)
  where
    zero_of : m + 1 ≡ 2 ^ 0 → m ≡ 0
    zero_of e = omega arith
bit_and-ones (suc k) a m h = omega (
  arith,
  two-pow-succ k,
  pow-suc 2 k,
  bit_and-halves a m,
  bit_and-ones k (a / 2) (m / 2) (omega (arith, two-pow-succ k, h)),
  mod-double a (2 ^ k) (pow-pos k),
  ap (λ (t : ℕ). a % t) (pow-suc 2 k),
)

-- An or of fields that share no bit is their sum.
pub bit_or-disjoint : (k h l : ℕ) → l < 2 ^ k → bit_or (h * 2 ^ k) l ≡ h * 2 ^ k + l
bit_or-disjoint zero h l lt =
    omega (arith, ap (λ (t : ℕ). bit_or (h * 1) t) (none_left lt), bit_or-zero (h * 1))
  where
    none_left : l < 2 ^ 0 → l ≡ 0
    none_left e = omega arith
bit_or-disjoint (suc k) h l lt = omega (
  arith,
  even,
  ap (λ (t : ℕ). bit_or t l) even,
  bit_or-halves (h * 2 ^ k * 2) l,
  ap (λ (t : ℕ). bit_or t (l / 2)) halved,
  bit_or-disjoint k h (l / 2) (omega (arith, two-pow-succ k)),
)
  where
    even : h * 2 ^ suc k ≡ h * 2 ^ k * 2
    even = rw pow-suc (grind arith)

    halved : h * 2 ^ k * 2 / 2 ≡ h * 2 ^ k
    halved = omega arith

-- A mask that spares the k lowest bits acts on the bits above them.
pub bit_and-high : (k a m : ℕ) → bit_and a (m * 2 ^ k) ≡ bit_and (a / 2 ^ k) m * 2 ^ k
bit_and-high zero a m =
    omega (arith, ap (λ (t : ℕ). bit_and a t) unit, ap (λ (t : ℕ). bit_and t m) whole)
  where
    unit : m * 2 ^ 0 ≡ m
    unit = omega arith

    whole : a / 2 ^ 0 ≡ a
    whole = omega arith
bit_and-high (suc k) a m = omega (
  arith,
  ap (λ (t : ℕ). bit_and a t) doubled,
  bit_and-halves a (m * 2 ^ k * 2),
  ap (λ (t : ℕ). bit_and (a / 2) t) halved,
  bit_and-high k (a / 2) m,
  ap (λ (t : ℕ). bit_and t m * 2 ^ k) quotient,
  ap (λ (t : ℕ). bit_and (a / 2 ^ suc k) m * t) (pow-suc 2 k),
)
  where
    doubled : m * 2 ^ suc k ≡ m * 2 ^ k * 2
    doubled = rw pow-suc (grind arith)

    halved : m * 2 ^ k * 2 / 2 ≡ m * 2 ^ k
    halved = omega arith

    quotient : a / 2 / 2 ^ k ≡ a / 2 ^ suc k
    quotient = rw (div-div-eq-div-mul, pow-succ') refl

half-digit : (u v : ℕ) → v < 2 → ((u * 2 + v) / 2 ≡ u) × ((u * 2 + v) % 2 ≡ v)
half-digit u v lt = (omega arith, omega arith)

-- The digits of two numbers that are put together are conjoined apart.
bit_and-digit :
    (u v w x : ℕ) → v < 2 → x < 2 → bit_and (u * 2 + v) (w * 2 + x) ≡ bit_and u w * 2 + min v x
bit_and-digit u v w x lv lx =
    bit_and-halves (u * 2 + v) (w * 2 + x)
    ∙ ap₂ (λ (s : ℕ) (t : ℕ). s * 2 + t)
        (ap₂ (λ (s : ℕ) (t : ℕ). bit_and s t) (half-digit u v lv).0 (half-digit w x lx).0)
        (ap₂ (λ (s : ℕ) (t : ℕ). min s t) (half-digit u v lv).1 (half-digit w x lx).1)

-- So are fields of k digits.
pub bit_and-fields :
    (k u v w x : ℕ)
    → v < 2 ^ k
    → x < 2 ^ k
    → bit_and (u * 2 ^ k + v) (w * 2 ^ k + x) ≡ bit_and u w * 2 ^ k + bit_and v x
bit_and-fields zero u v w x lv lx =
    ap₂ (λ (s : ℕ) (t : ℕ). bit_and s t) whole_u whole_w
    ∙ omega (arith, and-zero_left x, ap (λ (t : ℕ). bit_and t x) none_v)
  where
    none_v : v ≡ 0
    none_v = omega arith

    whole_u : u * 2 ^ 0 + v ≡ u
    whole_u = omega arith

    whole_w : w * 2 ^ 0 + x ≡ w
    whole_w = omega arith
bit_and-fields (suc k) u v w x lv lx =
    ap₂ (λ (s : ℕ) (t : ℕ). bit_and s t) (doubled u v) (doubled w x)
    ∙ bit_and-digit (u * 2 ^ k + v / 2) (v % 2) (w * 2 ^ k + x / 2) (x % 2) (omega arith)
        (omega arith)
    ∙ omega (
      arith,
      bit_and-fields k u (v / 2) w (x / 2) (omega (arith, two-pow-succ k))
          (omega (arith, two-pow-succ k)),
      bit_and-halves v x,
      apart (bit_and u w),
    )
  where
    apart : (u : ℕ) → u * 2 ^ suc k ≡ u * 2 ^ k * 2
    apart u = rw pow-suc (grind arith)

    doubled : (u v : ℕ) → u * 2 ^ suc k + v ≡ (u * 2 ^ k + v / 2) * 2 + v % 2
    doubled u v = omega (arith, apart u)
