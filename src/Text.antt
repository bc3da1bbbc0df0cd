-- ===== src/Text.antt =====
-- string/string.c and the character macros of include/ctype.h with kernel/ctype.c.
-- A `char` of the RISC-V target is an unsigned byte. A `char *` is the list of the bytes from it to
-- the end of its object; a read or write past that end is a `fault`. The two areas of `memmove`
-- may overlap, so it works on one memory by addresses.
pub mod Compare
pub mod Copy
pub mod Move
pub mod Case
mod Tests
use os.Util.{
  ℕ, zero, suc, ◌+◌, ◌-◌, ◌≤◌, ◌<◌, Bool, true, false, not, ◌&&◌, ◌||◌, Option, none, some, List,
  [], ◌∷◌, ◌++◌, map, Run, ok, panic, fault, ◌>>=◌, map_run, bit_and, ◌==◌, ltb, leb, if◌then◌else◌,
  replicate, get_or,
}
use os.Util.Int.{ℤ, pos, negsuc, sub_ℕ}

abbrev pub Bytes : Type 0
Bytes = List ℕ

unfoldable pub strlen : Bytes → Run ℕ
strlen [] = fault
strlen (c ∷ s) = if c == 0 then ok 0 else map_run suc (strlen s)

-- The second loop of `strncpy`: zeros to the end.
pub pad : Bytes → ℕ → Run Bytes
pad d zero = ok d
pad [] (suc n) = fault
pad (_ ∷ d) (suc n) = map_run (λ r. 0 ∷ r) (pad d n)

-- `strncpy` returns the bytes of the destination after the call.
unfoldable pub strncpy : Bytes → Bytes → ℕ → Run Bytes
unfolding pad
strncpy d t zero = ok d
strncpy [] t (suc n) = fault
strncpy (_ ∷ d) [] (suc n) = fault
strncpy (_ ∷ d) (c ∷ t) (suc n) =
    if c == 0 then map_run (λ r. 0 ∷ r) (pad d n) else map_run (λ r. c ∷ r) (strncpy d t n)

-- The loop of `strncmp` counts n down and leaves both pointers where they are.
pub strncmp : Bytes → Bytes → ℕ → Run ℤ
strncmp s1 s2 zero = ok (pos 0)
strncmp [] s2 (suc n) = fault
strncmp (a ∷ s1) [] (suc n) = fault
strncmp (a ∷ s1) (b ∷ s2) (suc n) =
    let rest = strncmp (a ∷ s1) (b ∷ s2) n in
    if (a == 0) || not (a == b) then ok (sub_ℕ a b) else rest

-- The loop of `strcmp`, for two strings of `total` characters.
pub same_chars : Bytes → Bytes → ℕ → Run ℕ
same_chars s1 s2 zero = ok 0
same_chars [] s2 (suc total) = fault
same_chars (a ∷ s1) [] (suc total) = fault
same_chars (a ∷ s1) (b ∷ s2) (suc total) = if not (a == b) then ok 1 else same_chars s1 s2 total

pub strcmp : Bytes → Bytes → Run ℕ
unfolding strlen same_chars
strcmp s1 s2 = do
  total1 ← strlen s1
  total2 ← strlen s2
  if not (total1 == total2) then ok 1 else same_chars s1 s2 total1

abbrev pub Memory : Type 0
Memory = ℕ → ℕ

pub store : Memory → ℕ → ℕ → Memory
store mem address v a = if a == address then v else mem a

-- `while (n-- > 0) *--d = *--s`, for d and s one past the areas' ends.
pub copy_down : Memory → ℕ → ℕ → ℕ → Memory
unfolding store
copy_down mem d s zero = mem
copy_down mem d s (suc n) = copy_down (store mem (d - 1) (mem (s - 1))) (d - 1) (s - 1) n

-- `while (n-- > 0) *d++ = *s++`
pub copy_up : Memory → ℕ → ℕ → ℕ → Memory
unfolding store
copy_up mem d s zero = mem
copy_up mem d s (suc n) = copy_up (store mem d (mem s)) (suc d) (suc s) n

pub memmove : Memory → ℕ → ℕ → ℕ → Memory
unfolding copy_down copy_up
memmove mem dst src n =
    if n == 0
    then mem
    else if ltb src dst && ltb dst (src + n)
    then copy_down mem (dst + n) (src + n) n
    else copy_up mem dst src n

pub memcpy : Memory → ℕ → ℕ → ℕ → Memory
unfolding memmove
memcpy mem dst src n = memmove mem dst src n

-- kernel/ctype.c, from `_ctype + 1` on. The classes that the macros below test are the bits 1
-- (upper case), 2 (lower case), 4 (digit); 8 is control, 16 punctuation, 32 white space, 64 a
-- hexadecimal letter, 128 the hard space.
abbrev pub ctype : List ℕ
ctype =
    replicate 8 8
    ++ (8 ∷ replicate 5 40)
    ++ replicate 18 8
    ++ (160 ∷ replicate 15 16)
    ++ (replicate 10 4 ++ replicate 7 16)
    ++ (replicate 6 65 ++ replicate 20 1 ++ replicate 6 16)
    ++ (replicate 6 66 ++ replicate 20 2 ++ replicate 4 16 ++ (8 ∷ []))
    ++ replicate 128 0

abbrev has_class : ℕ → ℕ → Bool
has_class c mask = not (bit_and (get_or ctype c 0) mask == 0)

pub islower : ℕ → Bool
islower c = has_class c 2

pub isupper : ℕ → Bool
isupper c = has_class c 1

pub isdigit : ℕ → Bool
isdigit c = has_class c 4

pub isalnum : ℕ → Bool
isalnum c = has_class c 7

pub toupper : ℕ → ℕ
unfolding islower
toupper c = if islower c then c - 32 else c

pub tolower : ℕ → ℕ
unfolding isupper
tolower c = if isupper c then c + 32 else c

-- The string is upper-cased in place, its end excepted.
pub upper_loop : Bytes → Run Bytes
unfolding toupper
upper_loop [] = fault
upper_loop (c ∷ s) = if c == 0 then ok (c ∷ s) else map_run (λ r. toupper c ∷ r) (upper_loop s)

-- `none` is NULL.
pub str_toupper : Option Bytes → Run (Option Bytes)
unfolding upper_loop
str_toupper none = ok none
str_toupper (some s) = map_run some (upper_loop s)

-- The index of the first c, or of the end for c = 0; `none` is NULL.
pub strchr : Bytes → ℕ → Run (Option ℕ)
strchr [] c = fault
strchr (a ∷ s) c =
    if a == 0
    then (if c == 0 then ok (some 0) else ok none)
    else if a == c
    then ok (some 0)
    else map_run (λ r. elim r [ none ↦ none | some i ↦ some (suc i) ]) (strchr s c)

-- The bytes from index i on.
abbrev pub from : Bytes → ℕ → Bytes
from s zero = s
from [] (suc i) = []
from (c ∷ s) (suc i) = from s i

-- The result, and the two parts after the call.
pub str_split : Bytes → ℕ → Bytes → Bytes → Run (ℤ × Bytes × Bytes)
unfolding strchr strncpy strlen
str_split str ch str1 str2 = do
  p ← strchr str ch
  elim p [
    | none ↦ ok (negsuc 0, str1, str2)
    | some i ↦ do
      part1 ← strncpy str1 str i
      total ← strlen str
      part2 ← strncpy str2 (from str (i + 1)) (total - 1 - i)
      ok (pos 1, part1, part2)
  ]
