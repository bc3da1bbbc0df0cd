-- ===== src/Print/Writes.antt =====
-- Which bytes a conversion writes.
use os.Util.{
  ℕ, zero, suc, ◌+◌, ◌-◌, ◌/◌, ◌%◌, ◌^◌, ◌<◌, ◌≡◌, refl, ap, ap₂, ◌∙◌, arith, true, false,
  Bool-cases, inl, inr, Option, none, some, List, [], ◌∷◌, Run, ok, panic, fault, out_of_fuel,
  ◌>>=◌, ◌==◌, ltb, if◌then◌else◌, set, drop, length, length-set,
}
use os.Print.{
  register, string, Printing, write_char, put, va_arg, hex_digit, put_hex, done, put_x,
  count_digits, put_dec, put_d, put_all, put_s, put_c, has_room,
}

-- The length of the buffer, and its bytes from n on.
abbrev pub tail_of : ℕ → Option (List ℕ) → Option (ℕ × List ℕ)
tail_of n none = none
tail_of n (some out) = some (length out, drop n out)

pub drop-set : (n : ℕ) (out : List ℕ) (i c : ℕ) → i < n → drop n (set out i c) ≡ drop n out
drop-set zero out i c lt = absurd (omega arith)
drop-set (suc n) [] i c lt = refl
drop-set (suc n) (x ∷ out) zero c lt = refl
drop-set (suc n) (x ∷ out) (suc i) c lt = drop-set n out i c (omega arith)

pub write-tail :
    (n pos c : ℕ) (out : Option (List ℕ)) → tail_of n (write_char n pos c out) ≡ tail_of n out
write-tail n pos c none = refl
write-tail n pos c (some out) = elim (Bool-cases (ltb pos n)) [
  | inl inside ↦ rw inside (
      ap some (
        ap₂ (λ (l : ℕ) d. (l, d)) (length-set out pos c)
          (drop-set n out pos c (ground (arith, inside)))))
  | inr past ↦ rw past refl
]

put_hex-tail : (n num i : ℕ) (st : Printing) → tail_of n (put_hex n num i st).out ≡ tail_of n st.out
unfolding put_hex
put_hex-tail n num zero st = refl
put_hex-tail n num (suc i) st =
    put_hex-tail n num i (put n (hex_digit (num / 16 ^ i % 16)) st)
    ∙ write-tail n st.pos (hex_digit (num / 16 ^ i % 16)) st.out

put_dec-tail : (n num i : ℕ) (st : Printing) → tail_of n (put_dec n num i st).out ≡ tail_of n st.out
unfolding put_dec
put_dec-tail n num zero st = refl
put_dec-tail n num (suc i) st =
    put_dec-tail n (num / 10) i
      (record st { out = write_char n (st.pos + i) (48 + num % 10) st.out })
    ∙ write-tail n (st.pos + i) (48 + num % 10) st.out

put_all-tail :
    (n : ℕ) (s : List ℕ) (st : Printing) → tail_of n (put_all n s st).out ≡ tail_of n st.out
unfolding put_all
put_all-tail n [] st = refl
put_all-tail n (c ∷ s) st = put_all-tail n s (put n c st) ∙ write-tail n st.pos c st.out

-- Where printing goes on, the bytes from n on are as in `out`.
abbrev pub Kept : ℕ → Option (List ℕ) → Run Printing → Type 0
Kept n out (ok st) = tail_of n st.out ≡ tail_of n out
Kept n out panic = Unit
Kept n out fault = Unit
Kept n out out_of_fuel = Unit

Kept->>= :
    {A : Type 0} (n : ℕ) (out : Option (List ℕ)) (r : Run A) (next : A → Run Printing)
    → ((a : A) → Kept n out (next a))
    → Kept n out (r >>= next)
Kept->>= n out (ok a) next h = h a
Kept->>= n out panic next h = tt
Kept->>= n out fault next h = tt
Kept->>= n out out_of_fuel next h = tt

pub put_x-Kept : (n : ℕ) (st : Printing) → Kept n st.out (put_x n st)
unfolding put_x
put_x-Kept n st =
    Kept->>= n st.out (va_arg st.longarg st.args) _
      (λ (num, args). put_hex-tail n num (if st.longarg then 16 else 8) st)

pub put_d-Kept : (n : ℕ) (st : Printing) → Kept n st.out (put_d n st)
unfolding put_d
put_d-Kept n st = Kept->>= n st.out (va_arg st.longarg st.args) _ (λ (num, args).
    elim (Bool-cases (ltb num (2 ^ 63))) [
      | inl up ↦ rw up (put_dec-tail n num (count_digits 20 num) st)
      | inr down ↦ elim (Bool-cases (num == 2 ^ 63)) [
        | inl least ↦ rw (down, least) tt
        | inr other ↦
            rw (down, other)
              (put_dec-tail n (2 ^ 64 - num) (count_digits 20 (2 ^ 64 - num)) (put n 45 st)
                ∙ write-tail n st.pos 45 st.out)
      ]
    ])

pub put_s-Kept : (n : ℕ) (st : Printing) → Kept n st.out (put_s n st)
unfolding put_s
put_s-Kept n st =
    elim st.args
      as (λ l. Kept n st.out (elim l [
        | [] ↦ fault
        | string s ∷ args ↦ ok (done args (put_all n s st))
        | register x ∷ args ↦ fault
      ])) [ [] ↦ tt | string s ∷ args ↦ put_all-tail n s st | register x ∷ args ↦ tt ]

pub put_c-Kept : (n : ℕ) (st : Printing) → Kept n st.out (put_c n st)
unfolding put_c
put_c-Kept n st =
    elim (has_room n st.pos st.out)
      as (λ b. Kept n st.out (
        if b
        then (va_arg false st.args >>= λ (c, args). ok (done args (put n (c % 256) st)))
        else ok (done st.args (record st { pos = st.pos + 1 })))) [
          | true ↦
              Kept->>= n st.out (va_arg false st.args) _
                (λ (c, args). write-tail n st.pos (c % 256) st.out)
          | false ↦ refl
        ]

pub Kept-trans :
    (n : ℕ) (out : Option (List ℕ)) (r : Run Printing) (next : Printing → Run Printing)
    → Kept n out r
    → ((st : Printing) → Kept n st.out (next st))
    → Kept n out (r >>= next)
Kept-trans n out (ok st) next h h' = widen (next st) (h' st)
  where
    widen : (r : Run Printing) → Kept n st.out r → Kept n out r
    widen (ok st') k = k ∙ h
    widen panic k = tt
    widen fault k = tt
    widen out_of_fuel k = tt
Kept-trans n out panic next h h' = tt
Kept-trans n out fault next h h' = tt
Kept-trans n out out_of_fuel next h h' = tt
