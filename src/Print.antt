-- ===== src/Print.antt =====
-- Formatted printing, print/printf.c: `_vsnprintf` and `_vprintf`. Strings are lists of characters
-- without the end. An argument is a register or a string; another type than the format asks for is a
-- fault. The buffer has at least n bytes; `none` is NULL. The count that
-- `_vsnprintf` returns as an `int` is below 2 ^ 31. The serial line is not part of it.
pub mod Writes
pub mod Forget
pub mod Bounds
pub mod Measure
pub mod Whole
mod Tests
use os.Util.{
  ℕ, zero, suc, ◌+◌, ◌-◌, ◌*◌, ◌/◌, ◌%◌, ◌^◌, Bool, true, false, not, ◌&&◌, Option, none, some,
  List, [], ◌∷◌, Run, ok, panic, fault, out_of_fuel, ◌>>=◌, map_run, ◌==◌, ltb, leb, if◌then◌else◌,
  set,
}

pub data Arg : Type 0 where
  register : ℕ → Arg
  string : List ℕ → Arg

pub record Printing : Type 0 where
  pub out : Option (List ℕ)
  pub pos : ℕ
  pub format : Bool
  pub longarg : Bool
  pub args : List Arg

-- `if (out && pos < n) out[pos] = c`
abbrev pub write_char : (n pos c : ℕ) → Option (List ℕ) → Option (List ℕ)
write_char n pos c none = none
write_char n pos c (some out) = some (if ltb pos n then set out pos c else out)

abbrev pub put : (n c : ℕ) → Printing → Printing
put n c st = record st { out = write_char n st.pos c st.out; pos = st.pos + 1 }

-- The next argument as a `long`, or as an `int` made one.
unfoldable pub va_arg : (long : Bool) → List Arg → Run (ℕ × List Arg)
va_arg long [] = fault
va_arg long (string s ∷ args) = fault
va_arg true (register x ∷ args) = ok (x % 2 ^ 64, args)
va_arg false (register x ∷ args) =
    let low = x % 2 ^ 32 in ok (if ltb low (2 ^ 31) then low else low + (2 ^ 64 - 2 ^ 32), args)

abbrev pub hex_digit : ℕ → ℕ
hex_digit d = if ltb d 10 then 48 + d else 97 + d - 10

-- The loop of `x`, with i digits left.
unfoldable pub put_hex : (n num i : ℕ) → Printing → Printing
put_hex n num zero st = st
put_hex n num (suc i) st = put_hex n num i (put n (hex_digit (num / 16 ^ i % 16)) st)

abbrev pub done : List Arg → Printing → Printing
done args st = record st { longarg = false; format = false; args = args }

unfoldable pub put_x : ℕ → Printing → Run Printing
put_x n st = va_arg st.longarg st.args >>= λ (num, args).
    ok (done args (put_hex n num (if st.longarg then 16 else 8) st))

-- The loop that counts digits; a `long` has less than 20.
unfoldable pub count_digits : (fuel nn : ℕ) → ℕ
count_digits zero nn = 1
count_digits (suc fuel) nn =
    let rest = count_digits fuel (nn / 10) in if nn / 10 == 0 then 1 else rest + 1

-- The loop of `d`, with i digits left, which are the lower ones of the places from pos on.
unfoldable pub put_dec : (n num i : ℕ) → Printing → Printing
put_dec n num zero st = st
put_dec n num (suc i) st =
    put_dec n (num / 10) i (record st { out = write_char n (st.pos + i) (48 + num % 10) st.out })

abbrev pub put_number : (n num : ℕ) → Printing → Printing
put_number n num st =
    let after = put_dec n num (count_digits 20 num) st in
    record after { pos = after.pos + count_digits 20 num }

-- The negation of the least `long` overflows.
unfoldable pub put_d : ℕ → Printing → Run Printing
put_d n st = va_arg st.longarg st.args >>= λ (num, args).
    if ltb num (2 ^ 63)
    then ok (done args (put_number n num st))
    else if num == 2 ^ 63
    then fault
    else ok (done args (put_number n (2 ^ 64 - num) (put n 45 st)))

unfoldable pub put_all : ℕ → List ℕ → Printing → Printing
put_all n [] st = st
put_all n (c ∷ cs) st = put_all n cs (put n c st)

unfoldable pub put_s : ℕ → Printing → Run Printing
put_s n st = elim st.args [
  | [] ↦ fault
  | string s ∷ args ↦ ok (done args (put_all n s st))
  | register x ∷ args ↦ fault
]

abbrev pub has_room : (n pos : ℕ) → Option (List ℕ) → Bool
has_room n pos none = false
has_room n pos (some out) = ltb pos n

-- The argument is only taken where there is room for the character.
unfoldable pub put_c : ℕ → Printing → Run Printing
put_c n st =
    if has_room n st.pos st.out
    then (va_arg false st.args >>= λ (c, args). ok (done args (put n (c % 256) st)))
    else ok (done st.args (record st { pos = st.pos + 1 }))

-- A character after a `%`: l, p, x, d, s or c, or one that has no effect.
unfoldable pub convert : (n c : ℕ) → Printing → Run Printing
convert n c st =
    if c == 108
    then ok (record st { longarg = true })
    else if c == 112
    then put_x n (put n 120 (put n 48 (record st { longarg = true })))
    else if c == 120
    then put_x n st
    else if c == 100
    then put_d n st
    else if c == 115
    then put_s n st
    else if c == 99
    then put_c n st
    else ok st

unfoldable pub plain : (n c : ℕ) → Printing → Printing
plain n c st = if c == 37 then record st { format = true } else put n c st

unfoldable pub print_char : (n c : ℕ) → Printing → Run Printing
print_char n c st = if st.format then convert n c st else ok (plain n c st)

unfoldable pub print_chars : ℕ → List ℕ → Printing → Run Printing
print_chars n [] st = ok st
print_chars n (c ∷ s) st = print_char n c st >>= print_chars n s

-- The zero at the end, or in the last place.
abbrev pub end_string : ℕ → Printing → Option (List ℕ) × ℕ
end_string n st = (
  (if ltb st.pos n
      then write_char n st.pos 0 st.out
      else if n == 0
      then st.out
      else write_char n (n - 1) 0 st.out),
  st.pos,
)

unfoldable pub vsnprintf :
    (out : Option (List ℕ)) (n : ℕ) → List ℕ → List Arg → Run (Option (List ℕ) × ℕ)
vsnprintf out n s args =
    map_run (end_string n) (
      print_chars n s (record { out = out; pos = 0; format = false; longarg = false; args = args }))

abbrev pub buf_size : ℕ
buf_size = 1000

-- A longer text than the buffer ends in an endless loop.
unfoldable pub second_pass : List ℕ → List ℕ → List Arg → (res : ℕ) → Run (List ℕ × ℕ)
second_pass buf s args res =
    if leb buf_size (res + 1)
    then out_of_fuel
    else (vsnprintf (some buf) (res + 1) s args >>= λ (written, again). elim written [
      | none ↦ fault
      | some text ↦ ok (text, res)
    ])

-- The first pass, without a buffer, counts.
unfoldable pub vprintf : List ℕ → List ℕ → List Arg → Run (List ℕ × ℕ)
vprintf buf s args =
    vsnprintf none (2 ^ 64 - 1) s args >>= λ (counted, res). second_pass buf s args res
