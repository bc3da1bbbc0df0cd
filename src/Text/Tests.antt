-- ===== src/Text/Tests.antt =====
-- Runs of the string functions, and the theorems at them.
use os.Util.{ℕ, ◌≡◌, refl, ◌↔◌, [], ◌∷◌, ok, arith}
use os.Util.Int.{pos}
use os.Text.{Bytes, strncmp}
use os.Text.Compare.{NoZero, cstr, strncmp_iff}

-- "ab", "ac" and "c", and an object of four bytes
abbrev ab : Bytes
ab = 97 ∷ 98 ∷ []

abbrev ac : Bytes
ac = 97 ∷ 99 ∷ []

abbrev c_only : Bytes
c_only = 99 ∷ []

abbrev four : Bytes
four = 1 ∷ 2 ∷ 3 ∷ 4 ∷ []

ab-NoZero : NoZero ab
ab-NoZero = omega arith

-- Two names that differ behind their first byte pass as equal.
strncmp_misses : strncmp (cstr ab []) (cstr ac []) 260 ≡ ok (pos 0)
unfolding strncmp
strncmp_misses = refl

strncmp_iff_example :
    (strncmp (97 ∷ 98 ∷ 0 ∷ []) (97 ∷ 99 ∷ 0 ∷ []) 260 ≡ ok (pos 0)) ↔ ◌≡◌ {A = ℕ} 97 97
strncmp_iff_example = strncmp_iff 97 97 (98 ∷ 0 ∷ []) (99 ∷ 0 ∷ []) 259
