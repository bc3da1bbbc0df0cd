-- ===== src/Print/Measure.antt =====
-- The first pass of `_vprintf` measures what the second one writes.
use os.Util.{
  ℕ, zero, suc, ◌+◌, ◌-◌, ◌*◌, ◌/◌, ◌%◌, ◌^◌, ◌≤◌, ◌<◌, ◌≡◌, refl, sym, ap, ◌∙◌, arith, Bool, true,
  false, not, ◌&&◌, ◌||◌, Bool-cases, inl, inr, Option, none, some, List, [], ◌∷◌, Run, ok, panic,
  fault, out_of_fuel, ◌>>=◌, map_run, ◌==◌, ltb, leb, if◌then◌else◌, set,
}
use mathlib.Core.Path.{subst}
use os.Print.{
  Arg, register, string, Printing, put, va_arg, put_hex, done, put_x, put_d, put_all, put_s,
  convert, plain, print_char, print_chars, end_string, vsnprintf,
}
use os.Print.Forget.{forget, no_c, next_format, print_char-forget}

-- Where printing goes on, it does so with that state of the format.
abbrev Then : Bool → Run Printing → Type 0
Then format (ok st) = st.format ≡ format
Then format panic = Unit
Then format fault = Unit
Then format out_of_fuel = Unit

put_x-Then : (n : ℕ) (st : Printing) → Then false (put_x n st)
unfolding put_x
put_x-Then n st =
    elim (va_arg st.longarg st.args)
      as (λ r.
        Then false
          (r >>= λ (num, args). ok (done args (put_hex n num (if st.longarg then 16 else 8) st)))) [
            | ok (num, args) ↦ refl
            | os.Util.panic ↦ tt
            | os.Util.fault ↦ tt
            | os.Util.out_of_fuel ↦ tt
          ]

put_d-Then : (n : ℕ) (st : Printing) → Then false (put_d n st)
unfolding put_d
put_d-Then n st = go (va_arg st.longarg st.args) refl
  where
    go : (r : Run (ℕ × List Arg)) → va_arg st.longarg st.args ≡ r → Then false (put_d n st)
    go (ok (num, args)) e = elim (Bool-cases (ltb num (2 ^ 63))) [
      | inl up ↦ rw (e, put_d, up) refl
      | inr down ↦ elim (Bool-cases (num == 2 ^ 63)) [
        | inl least ↦ rw (e, put_d, down, least) tt
        | inr other ↦ rw (e, put_d, down, other) refl
      ]
    ]
    go panic e = rw (e, put_d) tt
    go fault e = rw (e, put_d) tt
    go out_of_fuel e = rw (e, put_d) tt

put_s-Then : (n : ℕ) (st : Printing) → Then false (put_s n st)
unfolding put_s
put_s-Then n st =
    elim st.args
      as (λ l. Then false (elim l [
        | [] ↦ fault
        | string s ∷ args ↦ ok (done args (put_all n s st))
        | register x ∷ args ↦ fault
      ])) [ [] ↦ tt | string s ∷ args ↦ refl | register x ∷ args ↦ tt ]

convert-Then :
    (n c : ℕ) (st : Printing)
    → st.format ≡ true
    → (c == 99) ≡ false
    → Then (next_format true c) (convert n c st)
unfolding convert
convert-Then n c st format not_c = elim (Bool-cases (c == 112)) [
  | inl e ↦
      let l : (c == 108) ≡ false = ground (arith, e) in
      rw (l, e, convert) (put_x-Then n (put n 120 (put n 48 (record st { longarg = true }))))
  | inr p ↦ elim (Bool-cases (c == 120)) [
    | inl e ↦
        let l : (c == 108) ≡ false = ground (arith, e) in rw (l, p, e, convert) (put_x-Then n st)
    | inr x ↦ elim (Bool-cases (c == 100)) [
      | inl e ↦
          let l : (c == 108) ≡ false = ground (arith, e) in
          rw (l, p, x, e, convert) (put_d-Then n st)
      | inr d ↦ elim (Bool-cases (c == 115)) [
        | inl e ↦
            let l : (c == 108) ≡ false = ground (arith, e) in
            rw (l, p, x, d, e, convert) (put_s-Then n st)
        | inr s ↦ elim (Bool-cases (c == 108)) [
          | inl e ↦ rw (e, p, x, d, s, convert) format
          | inr l ↦ rw (l, p, x, d, s, not_c, convert) format
        ]
      ]
    ]
  ]
]

print_char-Then :
    (n c : ℕ) (st : Printing)
    → (st.format && (c == 99)) ≡ false
    → Then (next_format st.format c) (print_char n c st)
unfolding print_char plain
print_char-Then n c st other = elim (Bool-cases st.format) [
  | inl format ↦
      subst (λ b. Then (next_format b c) (if b then convert n c st else ok (plain n c st)))
        (sym format) (convert-Then n c st format (ground (arith, format, other)))
  | inr letter ↦
      subst (λ b. Then (next_format b c) (if b then convert n c st else ok (plain n c st)))
        (sym letter)
        (elim (c == 37)
          as (λ b. (if b then record st { format = true } else put n c st).format ≡ b) [
            | true ↦ refl
            | false ↦ letter
          ])
]

-- Printing with and without a buffer goes on alike.
no_c-here : (b : Bool) (c : ℕ) (s : List ℕ) → no_c b (c ∷ s) ≡ true → (b && (c == 99)) ≡ false
unfolding no_c
no_c-here true c s h = ground (arith, h)
no_c-here false c s h = refl

no_c-later :
    (b : Bool) (c : ℕ) (s : List ℕ) → no_c b (c ∷ s) ≡ true → no_c (next_format b c) s ≡ true
unfolding no_c
no_c-later true c s h = elim (Bool-cases (c == 99)) [
  | inl e ↦ cc (ap (λ b. if b then false else no_c (next_format true c) s) e, h)
  | inr e ↦ sym (ap (λ b. if b then false else no_c (next_format true c) s) e) ∙ h
]
no_c-later false c s h = h

print_chars-forget :
    (n m : ℕ) (s : List ℕ) (st : Printing)
    → no_c st.format s ≡ true
    → map_run forget (print_chars n s st) ≡ print_chars m s (forget st)
unfolding print_chars
print_chars-forget n m [] st h = refl
print_chars-forget n m (c ∷ s) st h =
    let other = no_c-here st.format c s h in
    go (print_char n c st) refl (print_char-Then n c st other) (print_char-forget n m c st other)
      (λ st' e. print_chars-forget n m s st' (ap (λ b. no_c b s) e ∙ no_c-later st.format c s h))
  where
    go :
        (r : Run Printing)
        → print_char n c st ≡ r
        → Then (next_format st.format c) r
        → map_run forget r ≡ print_char m c (forget st)
        → ((st' : Printing)
            → st'.format ≡ next_format st.format c
            → map_run forget (print_chars n s st') ≡ print_chars m s (forget st'))
        → map_run forget (print_char n c st >>= print_chars n s)
          ≡ (print_char m c (forget st) >>= print_chars m s)
    go (ok st') e next same rest = rw e (rest st' next ∙ ap (λ r. r >>= print_chars m s) same)
    go panic e next same rest = rw e (ap (λ r. r >>= print_chars m s) same)
    go fault e next same rest = rw e (ap (λ r. r >>= print_chars m s) same)
    go out_of_fuel e next same rest = rw e (ap (λ r. r >>= print_chars m s) same)

-- For a format without `%c`, the length that `_vsnprintf` returns does not depend on the buffer, nor
-- on how much of it may be used; nor does it fail in one case and not in the other.
pub vsnprintf-measure :
    (out : Option (List ℕ)) (n m : ℕ) (s : List ℕ) (args : List Arg)
    → no_c false s ≡ true
    → map_run (λ (written, res). res) (vsnprintf out n s args)
      ≡ map_run (λ (written, res). res) (vsnprintf none m s args)
unfolding vsnprintf
vsnprintf-measure out n m s args h =
    let st : Printing = record {
      out = out;
      pos = 0;
      format = false;
      longarg = false;
      args = args;
    } in
    sym (counted n (print_chars n s st))
    ∙ ap (map_run place) (print_chars-forget n m s st h)
    ∙ after m (print_chars m s (forget st))
  where
    place : Printing → ℕ
    place st = st.pos

    counted :
        (k : ℕ) (r : Run Printing)
        → map_run place (map_run forget r)
          ≡ map_run (λ (written, res). res) (map_run (end_string k) r)
    counted k (ok st) = refl
    counted k panic = refl
    counted k fault = refl
    counted k out_of_fuel = refl

    after :
        (k : ℕ) (r : Run Printing)
        → map_run place r ≡ map_run (λ (written, res). res) (map_run (end_string k) r)
    after k (ok st) = refl
    after k panic = refl
    after k fault = refl
    after k out_of_fuel = refl
