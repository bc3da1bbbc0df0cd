-- ===== src/User/Digits.antt =====
-- user/lib: `atoi` reads what `printint` prints.
use os.Util.{
  ℕ, zero, suc, ◌+◌, ◌-◌, ◌*◌, ◌/◌, ◌%◌, ◌^◌, ◌≤◌, ◌<◌, ◌≡◌, refl, sym, ◌≢◌, ◌∙◌, ap, arith, Bool,
  true, false, Bool-cases, inl, inr, [], ◌∷◌, ◌++◌, Run, ok, fault, ◌>>=◌, ◌==◌, ==_iff, ==_ne, ltb,
  if◌then◌else◌, get_or,
}
use os.Util.Int.{ℤ, pos, negsuc}
use os.Util.Bits.{all_below, all_below_sound}
use mathlib.Core.Path.{subst}
use native.Mathlib.Nat.{pow-suc}
use os.Text.{Bytes}
use os.User.{
  isspace, isdigit, skip_spaces, take_sign, read_digits, signed, atoi, digits, digit_loop, put_sign,
  print_digits, magnitude, printint,
}

digit_lem : (d : ℕ) → d < 10 → get_or digits d 0 ≡ 48 + d
unfolding all_below
digit_lem d lt = (==_iff _ _).0 (all_below_sound 10 (λ x. get_or digits x 0 == 48 + x) d refl lt)

-- A digit is read.
read_digits-digit :
    (d m : ℕ) (s : Bytes)
    → d < 10
    → 10 * m + d ≤ 2 ^ 31
    → read_digits (get_or digits d 0 ∷ s) m ≡ read_digits s (10 * m + d)
unfolding read_digits isdigit
read_digits-digit d m s lt le =
    ap (λ (c : ℕ). read_digits (c ∷ s) m) (digit_lem d lt)
    ∙ ground (
      arith,
      ap (λ (x : ℕ). read_digits s x) {x = 10 * m + (48 + d - 48)} {y = 10 * m + d} (omega arith),
    )

-- The digits of x, before those of `out`.
record Printed (room x : ℕ) (out : Bytes) (r : Bytes × ℕ) : Type 0 where
  head : ℕ
  rest : Bytes
  shape : r.0 ≡ get_or digits head 0 ∷ rest
  small : head < 10
  left : (k : ℕ) → x < 10 ^ k → 0 < k → room ≤ r.1 + k
  reads : (tail : Bytes) → read_digits (r.0 ++ tail) 0 ≡ read_digits (out ++ tail) x

fewer : (room x : ℕ) → x < 10 ^ suc room → x / 10 < 10 ^ room
fewer room x lt = omega (arith, pow-suc 10 room)

more_room : (room x : ℕ) → x < 10 ^ suc room → x / 10 ≢ 0 → 0 < room
more_room zero x lt ne = absurd (omega arith)
more_room (suc room) x lt ne = omega arith

-- A digit less is left for the others.
left_more :
    (room x used k : ℕ)
    → x / 10 ≢ 0
    → x < 10 ^ k
    → ((j : ℕ) → x / 10 < 10 ^ j → 0 < j → room ≤ used + j)
    → suc room ≤ used + k
left_more room x used zero ne lt h = absurd (omega arith)
left_more room x used (suc k) ne lt h = omega (arith, h k (fewer k x lt) (more_room k x lt ne))

digit_loop-Printed :
    (room x : ℕ) (out : Bytes)
    → 0 < room
    → x < 10 ^ room
    → x ≤ 2 ^ 31
    → (r : Bytes × ℕ) × (digit_loop room x 10 out ≡ ok r) × Printed room x out r
unfolding digit_loop
digit_loop-Printed zero x out room_left lt le = absurd (omega arith)
digit_loop-Printed (suc room) x out room_left lt le = elim (Bool-cases (x / 10 == 0)) [
  | inl last ↦ (
    (get_or digits (x % 10) 0 ∷ out, room),
    ap (λ b. if b then ok (get_or digits (x % 10) 0 ∷ out, room) else rest_run) last,
    record {
      head = x % 10;
      rest = out;
      shape = refl;
      small = omega arith;
      left = λ k below some_digit. omega arith;
      reads = λ tail.
          read_digits-digit (x % 10) 0 (out ++ tail) (omega arith) (omega arith)
          ∙ ap (λ (n : ℕ). read_digits (out ++ tail) n) (ground (arith, last));
    },
  )
  | inr more ↦
      let (r, run, p) =
        digit_loop-Printed room (x / 10) (get_or digits (x % 10) 0 ∷ out)
          (more_room room x lt (ground (arith, more))) (fewer room x lt) (omega arith) in
      (
        r,
        ap (λ b. if b then ok (get_or digits (x % 10) 0 ∷ out, room) else rest_run) more ∙ run,
        record {
          head = p.head;
          rest = p.rest;
          shape = p.shape;
          small = p.small;
          left = λ k below some_digit. left_more room x r.1 k (ground (arith, more)) below p.left;
          reads = λ tail.
              p.reads tail
              ∙ read_digits-digit (x % 10) (x / 10) (out ++ tail) (omega arith) (omega arith)
              ∙ ap (λ (n : ℕ). read_digits (out ++ tail) n) (omega arith);
        },
      )
]
  where
    rest_run : Run (Bytes × ℕ)
    rest_run = digit_loop room (x / 10) 10 (get_or digits (x % 10) 0 ∷ out)

-- The numbers that an `int` holds.
abbrev pub IsInt : ℤ → Type 0
IsInt (pos n) = n < 2 ^ 31
IsInt (negsuc n) = n < 2 ^ 31

abbrev pub is_int_min : ℤ → Bool
is_int_min (pos n) = false
is_int_min (negsuc n) = n == 2 ^ 31 - 1

-- A digit is neither a space nor a sign.
digit_starts :
    (d : ℕ) (s : Bytes)
    → d < 10
    → (skip_spaces (get_or digits d 0 ∷ s) ≡ ok (get_or digits d 0 ∷ s))
      × (take_sign (get_or digits d 0 ∷ s) ≡ (false, get_or digits d 0 ∷ s))
unfolding skip_spaces take_sign isspace
digit_starts d s lt =
    let e = digit_lem d lt in
    subst (λ c. (skip_spaces (c ∷ s) ≡ ok (c ∷ s)) × (take_sign (c ∷ s) ≡ (false, c ∷ s))) (sym e)
      (ground arith, ground arith)

-- What is behind the number ends it.
read_digits-end : (c : ℕ) (s : Bytes) (m : ℕ) → isdigit c ≡ false → read_digits (c ∷ s) m ≡ ok m
unfolding read_digits
read_digits-end c s m e =
    ap
      (λ b.
        if b
        then (if ltb (2 ^ 31) (10 * m + (c - 48)) then fault else read_digits s (10 * m + (c - 48)))
        else ok m)
      e

module _ (room x : ℕ) (r : Bytes × ℕ) (p : Printed room x [] r) (c : ℕ) (s : Bytes)
    (end : isdigit c ≡ false) where
  open p use {head, rest, shape, small, reads}

  read_back : read_digits (r.0 ++ c ∷ s) 0 ≡ ok x
  read_back = reads (c ∷ s) ∙ read_digits-end c s x end

  starts :
      (skip_spaces (r.0 ++ c ∷ s) ≡ ok (r.0 ++ c ∷ s))
      × (take_sign (r.0 ++ c ∷ s) ≡ (false, r.0 ++ c ∷ s))
  starts =
      subst
        (λ t.
          (skip_spaces (t ++ c ∷ s) ≡ ok (t ++ c ∷ s))
          × (take_sign (t ++ c ∷ s) ≡ (false, t ++ c ∷ s)))
        (sym shape) (digit_starts head (rest ++ c ∷ s) small)

  atoi-plain : atoi (r.0 ++ c ∷ s) ≡ signed false x
  unfolding atoi
  atoi-plain =
      ap (λ o. o >>= λ t. read_digits (take_sign t).1 0 >>= λ m. signed (take_sign t).0 m) starts.0
      ∙ ap (λ q. read_digits q.1 0 >>= λ m. signed q.0 m) starts.1
      ∙ ap (λ o. o >>= λ m. signed false m) read_back

  atoi-minus : atoi (45 ∷ (r.0 ++ c ∷ s)) ≡ signed true x
  unfolding atoi isspace
  atoi-minus = ap (λ o. o >>= λ m. signed true m) read_back

print_digits-left :
    (room : ℕ) (neg : Bool) (x : ℕ) (r : Bytes × ℕ)
    → digit_loop room x 10 [] ≡ ok r
    → 0 < r.1
    → print_digits room (neg, x) 10 ≡ ok (if neg then 45 ∷ r.0 else r.0)
unfolding print_digits
print_digits-left room neg x r run left =
    ap (λ o. o >>= λ (out, left). put_sign neg out left) run ∙ put_sign_lem neg r.0 r.1 left
  where
    put_sign_lem :
        (neg : Bool) (out : Bytes) (left : ℕ)
        → 0 < left
        → put_sign neg out left ≡ ok (if neg then 45 ∷ out else out)
    put_sign_lem false out left h = refl
    put_sign_lem true out zero h = absurd (omega arith)
    put_sign_lem true out (suc left) h = refl

-- `printint` prints every `int` but INT_MIN in base ten, and `atoi` reads it back from what is
-- printed, up to the first byte that is no digit; at INT_MIN, whose negation is no `int`, it faults.
pub atoi-printint :
    (xx : ℤ) (c : ℕ) (s : Bytes)
    → IsInt xx
    → isdigit c ≡ false
    → (printint xx 10 true >>= λ out. atoi (out ++ c ∷ s))
      ≡ (if is_int_min xx then fault else ok xx)
unfolding printint magnitude signed
atoi-printint (pos n) c s lt e =
    let (r, run, p) = digit_loop-Printed 16 n [] (omega arith) (omega arith) (omega arith) in
    let left = p.left 10 (omega arith) (omega arith) in
    ap (λ o. o >>= λ out. atoi (out ++ c ∷ s))
      (print_digits-left 16 false n r run (omega (arith, left)))
    ∙ atoi-plain 16 n r p c s e
    ∙ ap (λ b. if b then fault else ok (pos n)) (==_ne n (2 ^ 31) (omega arith))
atoi-printint (negsuc n) c s lt e = elim (Bool-cases (n == 2 ^ 31 - 1)) [
  | inl least ↦ rw least refl
  | inr other ↦
      let (r, run, p) =
        digit_loop-Printed 16 (n + 1) [] (omega arith) (omega arith) (omega arith) in
      let left = p.left 10 (omega arith) (omega arith) in
      rw other refl
      ∙ ap (λ o. o >>= λ out. atoi (out ++ c ∷ s))
          (print_digits-left 16 true (n + 1) r run (omega (arith, left)))
      ∙ atoi-minus 16 (n + 1) r p c s e
      ∙ ap (λ (z : ℤ). ok z) {y = negsuc n} (ground arith)
      ∙ ap (λ b. if b then fault else ok (negsuc n)) (sym other)
]
