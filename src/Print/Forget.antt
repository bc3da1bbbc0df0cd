-- ===== src/Print/Forget.antt =====
-- What a state without a buffer does is what one with a buffer does.
use os.Util.{
  ℕ, zero, suc, ◌+◌, ◌-◌, ◌/◌, ◌%◌, ◌^◌, ◌≡◌, refl, sym, ap, ◌∙◌, arith, Bool, true, false, not,
  ◌&&◌, ◌||◌, Bool-cases, inl, inr, none, List, [], ◌∷◌, Run, ok, panic, fault, out_of_fuel,
  map_run, ◌==◌, ltb, if◌then◌else◌,
}
use os.Print.{
  Arg, register, string, Printing, write_char, put, va_arg, hex_digit, put_hex, done, put_x,
  count_digits, put_dec, put_number, put_d, put_all, put_s, convert, plain, print_char,
}

-- The state without its buffer.
abbrev pub forget : Printing → Printing
forget st = record st { out = none }

-- Whether no character that follows a `%` is a c.
unfoldable pub no_c : (format : Bool) → List ℕ → Bool
no_c format [] = true
no_c true (c ∷ s) =
    if c == 99
    then false
    else no_c (not ((c == 112) || ((c == 120) || ((c == 100) || (c == 115))))) s
no_c false (c ∷ s) = no_c (c == 37) s

put_hex-forget :
    (n m num i : ℕ) (st : Printing) → forget (put_hex n num i st) ≡ put_hex m num i (forget st)
unfolding put_hex
put_hex-forget n m num zero st = refl
put_hex-forget n m num (suc i) st =
    put_hex-forget n m num i (put n (hex_digit (num / 16 ^ i % 16)) st)

put_dec-forget :
    (n m num i : ℕ) (st : Printing) → forget (put_dec n num i st) ≡ put_dec m num i (forget st)
unfolding put_dec
put_dec-forget n m num zero st = refl
put_dec-forget n m num (suc i) st =
    put_dec-forget n m (num / 10) i
      (record st { out = write_char n (st.pos + i) (48 + num % 10) st.out })

put_all-forget :
    (n m : ℕ) (s : List ℕ) (st : Printing) → forget (put_all n s st) ≡ put_all m s (forget st)
unfolding put_all
put_all-forget n m [] st = refl
put_all-forget n m (c ∷ s) st = put_all-forget n m s (put n c st)

put_number-forget :
    (n m num : ℕ) (st : Printing) → forget (put_number n num st) ≡ put_number m num (forget st)
put_number-forget n m num st =
    ap (λ (after : Printing). record after { pos = after.pos + count_digits 20 num })
      (put_dec-forget n m num (count_digits 20 num) st)

put_x-forget : (n m : ℕ) (st : Printing) → map_run forget (put_x n st) ≡ put_x m (forget st)
unfolding put_x
put_x-forget n m st = go (va_arg st.longarg st.args) refl
  where
    go :
        (r : Run (ℕ × List Arg))
        → va_arg st.longarg st.args ≡ r
        → map_run forget (put_x n st) ≡ put_x m (forget st)
    go (ok (num, args)) e =
        rw (e, put_x)
          (ap ok (ap (done args) (put_hex-forget n m num (if st.longarg then 16 else 8) st)))
    go panic e = rw (e, put_x) refl
    go fault e = rw (e, put_x) refl
    go out_of_fuel e = rw (e, put_x) refl

put_d-forget : (n m : ℕ) (st : Printing) → map_run forget (put_d n st) ≡ put_d m (forget st)
unfolding put_d
put_d-forget n m st = go (va_arg st.longarg st.args) refl
  where
    go :
        (r : Run (ℕ × List Arg))
        → va_arg st.longarg st.args ≡ r
        → map_run forget (put_d n st) ≡ put_d m (forget st)
    go (ok (num, args)) e = elim (Bool-cases (ltb num (2 ^ 63))) [
      | inl up ↦ rw (e, put_d, up) (ap ok (ap (done args) (put_number-forget n m num st)))
      | inr down ↦ elim (Bool-cases (num == 2 ^ 63)) [
        | inl least ↦ rw (e, put_d, down, least) refl
        | inr other ↦
            rw (e, put_d, down, other)
              (ap ok (ap (done args) (put_number-forget n m (2 ^ 64 - num) (put n 45 st))))
      ]
    ]
    go panic e = rw (e, put_d) refl
    go fault e = rw (e, put_d) refl
    go out_of_fuel e = rw (e, put_d) refl

put_s-forget : (n m : ℕ) (st : Printing) → map_run forget (put_s n st) ≡ put_s m (forget st)
unfolding put_s
put_s-forget n m st = go st.args refl
  where
    go : (args : List Arg) → st.args ≡ args → map_run forget (put_s n st) ≡ put_s m (forget st)
    go [] e = rw (e, put_s) refl
    go (string s ∷ args) e = rw (e, put_s) (ap ok (ap (done args) (put_all-forget n m s st)))
    go (register x ∷ args) e = rw (e, put_s) refl

abbrev pub next_format : Bool → ℕ → Bool
next_format true c = not ((c == 112) || ((c == 120) || ((c == 100) || (c == 115))))
next_format false c = c == 37

convert-forget :
    (n m c : ℕ) (st : Printing)
    → (c == 99) ≡ false
    → map_run forget (convert n c st) ≡ convert m c (forget st)
unfolding convert
convert-forget n m c st not_c = elim (Bool-cases (c == 108)) [
  | inl e ↦ rw (e, convert) refl
  | inr l ↦ elim (Bool-cases (c == 112)) [
    | inl e ↦
        rw (l, e, convert) (put_x-forget n m (put n 120 (put n 48 (record st { longarg = true }))))
    | inr p ↦ elim (Bool-cases (c == 120)) [
      | inl e ↦ rw (l, p, e, convert) (put_x-forget n m st)
      | inr x ↦ elim (Bool-cases (c == 100)) [
        | inl e ↦ rw (l, p, x, e, convert) (put_d-forget n m st)
        | inr d ↦ elim (Bool-cases (c == 115)) [
          | inl e ↦ rw (l, p, x, d, e, convert) (put_s-forget n m st)
          | inr s ↦ rw (l, p, x, d, s, not_c, convert) refl
        ]
      ]
    ]
  ]
]

plain-forget : (n m c : ℕ) (st : Printing) → forget (plain n c st) ≡ plain m c (forget st)
unfolding plain
plain-forget n m c st =
    elim (c == 37)
      as (λ b.
        forget (if b then record st { format = true } else put n c st)
        ≡ (if b then record (forget st) { format = true } else put m c (forget st))) [
          | true ↦ refl
          | false ↦ refl
        ]

pub print_char-forget :
    (n m c : ℕ) (st : Printing)
    → (st.format && (c == 99)) ≡ false
    → map_run forget (print_char n c st) ≡ print_char m c (forget st)
unfolding print_char
print_char-forget n m c st other = elim (Bool-cases st.format) [
  | inl format ↦
      ap (λ b. map_run forget (if b then convert n c st else ok (plain n c st))) format
      ∙ convert-forget n m c st (ground (arith, format, other))
      ∙ ap (λ b. if b then convert m c (forget st) else ok (plain m c (forget st))) (sym format)
  | inr letter ↦
      ap (λ b. map_run forget (if b then convert n c st else ok (plain n c st))) letter
      ∙ ap ok (plain-forget n m c st)
      ∙ ap (λ b. if b then convert m c (forget st) else ok (plain m c (forget st))) (sym letter)
]
