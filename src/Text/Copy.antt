-- ===== src/Text/Copy.antt =====
-- What `strncpy` and `str_split` leave in their destinations.
use os.Util.{
  ℕ, zero, suc, ◌+◌, ◌-◌, ◌≤◌, ◌≡◌, refl, ◌≢◌, sym, ap, ◌∙◌, [], ◌∷◌, ◌++◌, ok, none, some, arith,
  length, drop, replicate, length-append,
}
use mathlib.Core.List.{append_assoc}
use os.Util.Int.{pos, negsuc}
use os.Text.{Bytes, strlen, strncpy, pad, strchr, from, str_split}
use os.Text.Compare.{NoZero, cstr, strlen_lem}

pad_lem : (d : Bytes) (n : ℕ) → n ≤ length d → pad d n ≡ ok (replicate n 0 ++ drop n d)
unfolding pad
pad_lem d zero h = refl
pad_lem [] (suc n) h = absurd (omega arith)
pad_lem (x ∷ d) (suc n) h = rw (pad_lem d n (omega arith)) refl

-- The n bytes that `strncpy` writes: the string, cut off or followed by zeros.
abbrev pub padded : Bytes → ℕ → Bytes
padded s zero = []
padded [] (suc n) = 0 ∷ replicate n 0
padded (c ∷ s) (suc n) = c ∷ padded s n

-- `strncpy` writes exactly n bytes: the first n of the string, with zeros behind a shorter one.
-- The destination keeps its other bytes, so a string of n or more characters gets no end.
pub strncpy_lem :
    (d s rest : Bytes) (n : ℕ)
    → NoZero s
    → n ≤ length d
    → strncpy d (cstr s rest) n ≡ ok (padded s n ++ drop n d)
unfolding strncpy
strncpy_lem d s rest zero h le = refl
strncpy_lem [] s rest (suc n) h le = absurd (omega arith)
strncpy_lem (x ∷ d) [] rest (suc n) h le = rw (pad_lem d n (omega arith)) refl
strncpy_lem (x ∷ d) (c ∷ s) rest (suc n) h le =
    ground (arith, strncpy_lem d s rest n h.1 (omega arith))

-- The character does not occur in the string.
abbrev pub Lacks : ℕ → Bytes → Type 0
Lacks c [] = Unit
Lacks c (a ∷ s) = (a ≢ c) × Lacks c s

strchr-Lacks :
    (s rest : Bytes) (c : ℕ) → NoZero s → c ≢ 0 → Lacks c s → strchr (cstr s rest) c ≡ ok none
unfolding strchr
strchr-Lacks [] rest c h ne l = ground arith
strchr-Lacks (a ∷ s) rest c h ne l = ground (arith, strchr-Lacks s rest c h.1 ne l.1)

strchr-first :
    (s rest : Bytes) (c : ℕ)
    → NoZero s
    → c ≢ 0
    → Lacks c s
    → strchr (s ++ (c ∷ rest)) c ≡ ok (some (length s))
unfolding strchr
strchr-first [] rest c h ne l = ground arith
strchr-first (a ∷ s) rest c h ne l = ground (arith, strchr-first s rest c h.1 ne l.1)

-- Where the separator does not occur, `str_split` returns -1 and writes nothing.
pub str_split-Lacks :
    (s rest : Bytes) (c : ℕ) (d1 d2 : Bytes)
    → NoZero s
    → c ≢ 0
    → Lacks c s
    → str_split (cstr s rest) c d1 d2 ≡ ok (negsuc 0, d1, d2)
unfolding str_split
str_split-Lacks s rest c d1 d2 h ne l = rw (strchr-Lacks s rest c h ne l) refl

strncpy-prefix :
    (d s more : Bytes)
    → NoZero s
    → length s ≤ length d
    → strncpy d (s ++ more) (length s) ≡ ok (s ++ drop (length s) d)
unfolding strncpy
strncpy-prefix d [] more h le = refl
strncpy-prefix [] (c ∷ s) more h le = absurd (omega arith)
strncpy-prefix (x ∷ d) (c ∷ s) more h le = ground (arith, strncpy-prefix d s more h.1 (omega arith))

from-append : (s more : Bytes) (c : ℕ) → from (s ++ (c ∷ more)) (suc (length s)) ≡ more
from-append [] more c = refl
from-append (a ∷ s) more c = from-append s more c

NoZero-append : (s t : Bytes) → NoZero s → NoZero t → NoZero (s ++ t)
NoZero-append [] t hs ht = ht
NoZero-append (a ∷ s) t hs ht = (hs.0, NoZero-append s t hs.1 ht)

-- `str_split` cuts a string at the first separator. Each part is written without an end: behind it
-- its destination is as it was.
pub str_split-first :
    (s t rest : Bytes) (c : ℕ) (d1 d2 : Bytes)
    → NoZero s
    → NoZero t
    → c ≢ 0
    → Lacks c s
    → length s ≤ length d1
    → length t ≤ length d2
    → str_split (s ++ (c ∷ cstr t rest)) c d1 d2
      ≡ ok (pos 1, s ++ drop (length s) d1, t ++ drop (length t) d2)
unfolding str_split
str_split-first s t rest c d1 d2 hs ht ne l le1 le2 =
    rw
      (
        strchr-first s (cstr t rest) c hs ne l,
        strncpy-prefix d1 s (c ∷ cstr t rest) hs le1,
        total,
        after,
        tail_length,
        strncpy-prefix d2 t (0 ∷ rest) ht le2,
      )
      refl
  where
    total : strlen (s ++ (c ∷ cstr t rest)) ≡ ok (length s + suc (length t))
    total =
        ap strlen (sym (append_assoc s (c ∷ t) (0 ∷ rest)))
        ∙ strlen_lem (s ++ (c ∷ t)) rest (NoZero-append s (c ∷ t) hs (ne, ht))
        ∙ ap ok (length-append s (c ∷ t))

    after : from (s ++ (c ∷ cstr t rest)) (length s + 1) ≡ cstr t rest
    after =
        ap (from (s ++ (c ∷ cstr t rest))) {y = suc (length s)} (omega arith)
        ∙ from-append s (cstr t rest) c

    tail_length : length s + suc (length t) - 1 - length s ≡ length t
    tail_length = omega arith
