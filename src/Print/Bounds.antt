-- ===== src/Print/Bounds.antt =====
-- `_vsnprintf` writes only in the first n bytes.
use os.Util.{
  ℕ, ◌+◌, ◌-◌, ◌≤◌, ◌<◌, ◌≡◌, refl, sym, ap, ◌∙◌, arith, true, false, Bool-cases, Option-cases, inl,
  inr, Option, some, List, [], ◌∷◌, Run, ok, panic, fault, out_of_fuel, map_run, ◌==◌, ltb,
  if◌then◌else◌, set, get_or, drop, length, length-set, get_or-set_self, ok-injective,
}
use mathlib.Core.Path.{subst}
use os.Print.{
  Arg, Printing, write_char, put, put_x, convert, plain, print_char, print_chars, end_string,
  vsnprintf,
}
use os.Print.Writes.{
  tail_of, drop-set, write-tail, Kept, Kept-trans, put_x-Kept, put_d-Kept, put_s-Kept, put_c-Kept,
}

convert-Kept : (n c : ℕ) (st : Printing) → Kept n st.out (convert n c st)
unfolding convert
convert-Kept n c st = elim (Bool-cases (c == 108)) [
  | inl e ↦ rw (e, convert) refl
  | inr l ↦ elim (Bool-cases (c == 112)) [
    | inl e ↦
        rw (l, e, convert)
          (Kept-trans n st.out (ok (put n 120 (put n 48 (record st { longarg = true })))) (put_x n)
            (write-tail n (st.pos + 1) 120 (write_char n st.pos 48 st.out)
              ∙ write-tail n st.pos 48 st.out)
            (put_x-Kept n))
    | inr p ↦ elim (Bool-cases (c == 120)) [
      | inl e ↦ rw (l, p, e, convert) (put_x-Kept n st)
      | inr x ↦ elim (Bool-cases (c == 100)) [
        | inl e ↦ rw (l, p, x, e, convert) (put_d-Kept n st)
        | inr d ↦ elim (Bool-cases (c == 115)) [
          | inl e ↦ rw (l, p, x, d, e, convert) (put_s-Kept n st)
          | inr s ↦ elim (Bool-cases (c == 99)) [
            | inl e ↦ rw (l, p, x, d, s, e, convert) (put_c-Kept n st)
            | inr c' ↦ rw (l, p, x, d, s, c', convert) refl
          ]
        ]
      ]
    ]
  ]
]

print_char-Kept : (n c : ℕ) (st : Printing) → Kept n st.out (print_char n c st)
unfolding print_char plain
print_char-Kept n c st =
    elim st.format as (λ b. Kept n st.out (if b then convert n c st else ok (plain n c st))) [
      | true ↦ convert-Kept n c st
      | false ↦
          elim (c == 37)
            as (λ b.
              tail_of n (if b then record st { format = true } else put n c st).out
              ≡ tail_of n st.out) [ true ↦ refl | false ↦ write-tail n st.pos c st.out ]
    ]

print_chars-Kept : (n : ℕ) (s : List ℕ) (st : Printing) → Kept n st.out (print_chars n s st)
unfolding print_chars
print_chars-Kept n [] st = refl
print_chars-Kept n (c ∷ s) st =
    Kept-trans n st.out (print_char n c st) (print_chars n s) (print_char-Kept n c st)
      (print_chars-Kept n s)

-- What a string in a buffer is: the buffer keeps its length and its bytes from n on, and has a zero
-- behind the `res` first bytes, or in the last of n.
abbrev pub Ended : (out : List ℕ) (n res : ℕ) (text : List ℕ) → Type 0
Ended out n res text =
    (length text ≡ length out)
    × (drop n text ≡ drop n out)
    × (get_or text (if ltb res n then res else n - 1) 1 ≡ 0)

set-Ended :
    (out b : List ℕ) (n at : ℕ)
    → at < n
    → n ≤ length out
    → length b ≡ length out
    → drop n b ≡ drop n out
    → (length (set b at 0) ≡ length out)
      × (drop n (set b at 0) ≡ drop n out)
      × (get_or (set b at 0) at 1 ≡ 0)
set-Ended out b n at lt fits len rest = (
  length-set b at 0 ∙ len,
  drop-set n b at 0 lt ∙ rest,
  get_or-set_self b at 0 1 (omega (arith, len)),
)

finish-Ended :
    (out b : List ℕ) (n : ℕ) (st : Printing)
    → 1 ≤ n
    → n ≤ length out
    → st.out ≡ some b
    → length b ≡ length out
    → drop n b ≡ drop n out
    → (text : List ℕ) × ((end_string n st).0 ≡ some text) × Ended out n st.pos text
finish-Ended out b n st from fits there len rest = elim (Bool-cases (ltb st.pos n)) [
  | inl inside ↦ (
    set b st.pos 0,
    rw (inside, there, inside) refl,
    rw inside (set-Ended out b n st.pos (ground (arith, inside)) fits len rest),
  )
  | inr past ↦
      let more : (n == 0) ≡ false = ground arith in
      let inside : ltb (n - 1) n ≡ true = ground arith in
      (
        set b (n - 1) 0,
        rw (past, more, there, inside) refl,
        rw past (set-Ended out b n (n - 1) (omega arith) fits len rest),
      )
]

some-injective : {A : Type 0} {a b : A} → some a ≡ some b → a ≡ b
some-injective h = cc

-- With a buffer of at least n bytes, n not 0, `_vsnprintf` writes only to the first n bytes.
pub vsnprintf-Ended :
    (out : List ℕ) (n : ℕ) (s : List ℕ) (args : List Arg) (written : Option (List ℕ)) (res : ℕ)
    → 1 ≤ n
    → n ≤ length out
    → vsnprintf (some out) n s args ≡ ok (written, res)
    → (text : List ℕ) × (written ≡ some text) × Ended out n res text
unfolding vsnprintf
vsnprintf-Ended out n s args written res from fits h =
    go (print_chars n s st) (print_chars-Kept n s st) h
  where
    st : Printing
    st = record { out = some out; pos = 0; format = false; longarg = false; args = args }

    go :
        (r : Run Printing)
        → Kept n (some out) r
        → map_run (end_string n) r ≡ ok (written, res)
        → (text : List ℕ) × (written ≡ some text) × Ended out n res text
    go panic k h = cc
    go fault k h = cc
    go out_of_fuel k h = cc
    go (ok st') k h = elim (Option-cases st'.out) [
      | inl null ↦ cc (ap (tail_of n) null, k)
      | inr (b, there) ↦
          let kept : (length b, drop n b) ≡ (length out, drop n out) =
            some-injective (sym (ap (tail_of n) there) ∙ k) in
          let e : end_string n st' ≡ (written, res) = ok-injective h in
          let (text, e', ended) =
            finish-Ended out b n st' from fits there (ap (λ x. x.0) kept) (ap (λ x. x.1) kept) in
          (
            text,
            sym (ap (λ x. x.0) e) ∙ e',
            subst (λ (r : ℕ). Ended out n r text) (ap (λ x. x.1) e) ended,
          )
    ]
