-- ===== src/User/Tests.antt =====
-- Runs of user/lib, and the theorems at concrete strings.
use os.Util.{ℕ, ◌≡◌, refl, arith, true, false, List, [], ◌∷◌, ◌++◌, ok, fault, ◌>>=◌, replicate}
use os.Util.Int.{pos, negsuc}
use os.Text
use os.User.{
  isspace, isdigit, strncmp_loop, haszero, word_of, strlen, atoi, memset, strcmp, strncmp, printint,
  printptr, print_digits,
}
use os.User.Length.{strlen-strlen}
use os.User.Digits.{atoi-printint}

-- "hello, world" and its end, up to a multiple of eight.
abbrev hello : List ℕ
hello = 104 ∷ 101 ∷ 108 ∷ 108 ∷ 111 ∷ 44 ∷ 32 ∷ 119 ∷ 111 ∷ 114 ∷ 108 ∷ 100 ∷ 0 ∷ 255 ∷ []

strlen-strlen_example : strlen 1002 hello ≡ ok 12
unfolding Text.strlen
strlen-strlen_example = strlen-strlen 1002 hello (omega arith) refl

-- A byte of 128 and more does not pass for a zero.
no_zero : haszero (word_of (replicate 8 255)) ≡ false
unfolding haszero word_of
no_zero = refl

atoi-printint_example :
    (printint (negsuc 41) 10 true >>= λ out. atoi (out ++ 0 ∷ [])) ≡ ok (negsuc 41)
unfolding isdigit
atoi-printint_example = atoi-printint (negsuc 41) 0 [] (omega arith) refl

least : printint (negsuc 0x7fff_ffff) 16 true ≡ fault
unfolding printint print_digits
least = refl

-- Base two has too many digits for the buffer.
too_long : printint (pos 65536) 2 true ≡ fault
unfolding printint print_digits
too_long = refl

spaces : atoi (32 ∷ 9 ∷ 43 ∷ 52 ∷ 50 ∷ 120 ∷ []) ≡ ok (pos 42)
unfolding atoi isspace isdigit
spaces = refl

too_large : atoi (50 ∷ 49 ∷ 52 ∷ 55 ∷ 52 ∷ 56 ∷ 51 ∷ 54 ∷ 52 ∷ 56 ∷ 0 ∷ []) ≡ fault
unfolding atoi isspace isdigit
too_large = refl

filled : memset (1 ∷ 2 ∷ 3 ∷ []) 0x141 2 ≡ ok (0x41 ∷ 0x41 ∷ 3 ∷ [])
unfolding memset
filled = refl

pointer : printptr 0xabc ≡ 48 ∷ 120 ∷ (replicate 13 48 ++ 97 ∷ 98 ∷ 99 ∷ [])
unfolding printptr
pointer = refl

differ :
    (strcmp hello (104 ∷ 0 ∷ []) ≡ ok (pos 101)) × (strncmp hello (104 ∷ 0 ∷ []) 1 ≡ ok (pos 0))
unfolding strcmp strncmp strncmp_loop
differ = (refl, refl)
