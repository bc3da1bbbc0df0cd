-- ===== src/User.antt =====
-- user/lib/string.c and user/lib/stdio.c: strings and printed numbers of the user programs. A
-- `char *` is the list of the bytes from it to the end of the memory there; what lies behind is a
-- `fault`, and so is the overflow of a signed number.
pub mod Words
pub mod Length
pub mod Digits
mod Tests
use os.Util.{
  ℕ, zero, suc, ◌+◌, ◌-◌, ◌*◌, ◌/◌, ◌%◌, ◌^◌, Bool, true, false, not, ◌&&◌, ◌||◌, List, [], ◌∷◌,
  ◌++◌, Run, ok, fault, out_of_fuel, ◌>>=◌, map_run, bit_and, ◌==◌, ltb, if◌then◌else◌, get_or,
}
use os.Util.Int.{ℤ, pos, negsuc, sub_ℕ}
use os.Text.{Bytes}

-- c == ' ' || (unsigned)c - '\t' < 5
unfoldable pub isspace : ℕ → Bool
isspace c = (c == 32) || ltb ((c + 2 ^ 32 - 9) % 2 ^ 32) 5

unfoldable pub isdigit : ℕ → Bool
isdigit c = ltb ((c + 2 ^ 32 - 48) % 2 ^ 32) 10

-- The first loop of `atoi`.
unfoldable pub skip_spaces : Bytes → Run Bytes
skip_spaces [] = fault
skip_spaces (c ∷ s) = let rest = skip_spaces s in if isspace c then rest else ok (c ∷ s)

-- The `switch`: is there a minus, and what follows.
unfoldable pub take_sign : Bytes → Bool × Bytes
take_sign [] = (false, [])
take_sign (c ∷ s) = if c == 45 then (true, s) else if c == 43 then (false, s) else (false, c ∷ s)

-- The last loop, with -n for n: from 2 ^ 31 on, n is below INT_MIN.
unfoldable pub read_digits : Bytes → ℕ → Run ℕ
read_digits [] m = fault
read_digits (c ∷ s) m =
    let m' = 10 * m + (c - 48) in
    let rest = read_digits s m' in
    if isdigit c then (if ltb (2 ^ 31) m' then fault else rest) else ok m

-- neg ? n : -n, where -INT_MIN is no `int`.
unfoldable pub signed : Bool → ℕ → Run ℤ
signed true m = ok (sub_ℕ 0 m)
signed false m = if m == 2 ^ 31 then fault else ok (pos m)

unfoldable pub atoi : Bytes → Run ℤ
unfolding skip_spaces take_sign read_digits signed
atoi s = skip_spaces s >>= λ t. read_digits (take_sign t).1 0 >>= λ m. signed (take_sign t).0 m

-- `i` is an `int`, and its comparison with n one of unsigned numbers.
unfoldable pub memset : Bytes → ℕ → ℕ → Run Bytes
memset dest c zero = ok dest
memset [] c (suc n) = fault
memset (b ∷ dest) c (suc n) = map_run (λ r. (c % 2 ^ 8) ∷ r) (memset dest c n)

unfoldable pub strcmp : Bytes → Bytes → Run ℤ
strcmp [] r = fault
strcmp (a ∷ l) [] = fault
strcmp (a ∷ l) (b ∷ r) =
    let rest = strcmp l r in if (a == b) && not (a == 0) then rest else ok (sub_ℕ a b)

-- The loop of `strncmp`, with what is left of n.
unfoldable pub strncmp_loop : Bytes → Bytes → ℕ → Run ℤ
strncmp_loop [] r n = fault
strncmp_loop (a ∷ l) [] n = fault
strncmp_loop (a ∷ l) (b ∷ r) zero = ok (sub_ℕ a b)
strncmp_loop (a ∷ l) (b ∷ r) (suc n) =
    let rest = strncmp_loop l r n in
    if (not (a == 0) && not (b == 0)) && (a == b) then rest else ok (sub_ℕ a b)

unfoldable pub strncmp : Bytes → Bytes → ℕ → Run ℤ
strncmp l r zero = ok (pos 0)
strncmp l r (suc n) = strncmp_loop l r n

-- size_t has 64 bits.
abbrev pub ones : ℕ
ones = (2 ^ 64 - 1) / 255

abbrev pub highs : ℕ
highs = ones * (255 / 2 + 1)

unfoldable pub haszero : ℕ → Bool
haszero x = not (bit_and (bit_and ((x + 2 ^ 64 - ones) % 2 ^ 64) (2 ^ 64 - 1 - x)) highs == 0)

-- The word that some bytes are, the first one lowest.
unfoldable pub word_of : Bytes → ℕ
word_of [] = 0
word_of (b ∷ bs) = b + 256 * word_of bs

-- The third loop of `strlen`, with the bytes that are passed.
unfoldable pub count_bytes : Bytes → ℕ → Run ℕ
count_bytes [] n = fault
count_bytes (c ∷ s) n = let rest = count_bytes s (n + 1) in if c == 0 then ok n else rest

-- The second loop, by words.
unfoldable pub count_words : Bytes → ℕ → Run ℕ
count_words (a ∷ b ∷ c ∷ d ∷ e ∷ f ∷ g ∷ h ∷ s) n =
    let rest = count_words s (n + 8) in
    let here = a ∷ b ∷ c ∷ d ∷ e ∷ f ∷ g ∷ h ∷ [] in
    if haszero (word_of here) then count_bytes (here ++ s) n else rest
count_words s n = fault

-- The first loop, up to an address that is a multiple of eight.
unfoldable pub count_head : Bytes → ℕ → ℕ → Run ℕ
count_head [] address n = if address % 8 == 0 then count_words [] n else fault
count_head (c ∷ s) address n =
    let rest = count_head s (address + 1) (n + 1) in
    if address % 8 == 0 then count_words (c ∷ s) n else if c == 0 then ok n else rest

unfoldable pub strlen : (address : ℕ) → Bytes → Run ℕ
unfolding count_head
strlen address s = count_head s address 0

-- "0123456789abcdef"
abbrev pub digits : Bytes
digits = 48 ∷ 49 ∷ 50 ∷ 51 ∷ 52 ∷ 53 ∷ 54 ∷ 55 ∷ 56 ∷ 57 ∷ 97 ∷ 98 ∷ 99 ∷ 100 ∷ 101 ∷ 102 ∷ []

-- The loop of `printint`, with the places of `buf` that are left. It writes before `buf` when none
-- is left.
unfoldable pub digit_loop : ℕ → ℕ → ℕ → Bytes → Run (Bytes × ℕ)
digit_loop zero x base out = fault
digit_loop (suc room) x base out =
    let out' = get_or digits (x % base) 0 ∷ out in
    let rest = digit_loop room (x / base) base out' in
    if x / base == 0 then ok (out', room) else rest

-- Whether a minus is printed, and the `uint` that is.
-- -INT_MIN is no `int`.
unfoldable pub magnitude : ℤ → Bool → Run (Bool × ℕ)
magnitude (pos n) sign = ok (false, n)
magnitude (negsuc n) true = if n == 2 ^ 31 - 1 then fault else ok (true, n + 1)
magnitude (negsuc n) false = ok (false, 2 ^ 32 - (n + 1))

unfoldable pub put_sign : Bool → Bytes → ℕ → Run Bytes
put_sign false out room = ok out
put_sign true out zero = fault
put_sign true out (suc room) = ok (45 ∷ out)

-- The digits and the sign of x, in a buffer of so many places.
unfoldable pub print_digits : (room : ℕ) → Bool × ℕ → ℕ → Run Bytes
unfolding digit_loop put_sign
print_digits room x base = digit_loop room x.1 base [] >>= λ (out, left). put_sign x.0 out left

-- What `printint` writes to the standard output.
unfoldable pub printint : ℤ → ℕ → Bool → Run Bytes
unfolding magnitude
printint xx base sign = magnitude xx sign >>= λ x. print_digits 16 x base

-- The loop of `printptr`.
unfoldable pub hex_digits : ℕ → ℕ → Bytes
hex_digits zero x = []
hex_digits (suc count) x = get_or digits (x / 2 ^ 60) 0 ∷ hex_digits count (x * 2 ^ 4 % 2 ^ 64)

unfoldable pub printptr : ℕ → Bytes
unfolding hex_digits
printptr x = 48 ∷ 120 ∷ hex_digits 16 x
