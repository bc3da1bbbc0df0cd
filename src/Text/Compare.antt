-- ===== src/Text/Compare.antt =====
-- What `strlen`, `strcmp` and `strncmp` say of two strings.
use os.Util.{
  ℕ, zero, suc, ◌≡◌, refl, ◌≢◌, ◌↔◌, ◌⊎◌, inl, inr, ap, [], ◌∷◌, ◌++◌, ok, arith, ◌==◌, length,
  Bool-cases,
}
use os.Util.Int.{pos}
use os.Text.{Bytes, strlen, strcmp, strncmp, same_chars}

-- The characters of a string: its end is the first zero.
abbrev pub NoZero : Bytes → Type 0
NoZero [] = Unit
NoZero (c ∷ s) = (c ≢ 0) × NoZero s

-- A string of these characters in an object that goes on behind it.
abbrev pub cstr : Bytes → Bytes → Bytes
cstr s rest = s ++ (0 ∷ rest)

pub strlen_lem : (s rest : Bytes) → NoZero s → strlen (cstr s rest) ≡ ok (length s)
unfolding strlen
strlen_lem [] rest h = refl
strlen_lem (c ∷ s) rest h = ground (arith, strlen_lem s rest h.1)

-- Two strings of one length: equal, or not.
same_chars_lem :
    (s t r q : Bytes) (n : ℕ)
    → length s ≡ n
    → length t ≡ n
    → ((same_chars (cstr s r) (cstr t q) n ≡ ok 0) × (s ≡ t))
      ⊎ ((same_chars (cstr s r) (cstr t q) n ≡ ok 1) × (s ≢ t))
unfolding same_chars
same_chars_lem [] [] r q zero e d = inl (refl, refl)
same_chars_lem [] t r q (suc n) e d = absurd (omega arith)
same_chars_lem [] (b ∷ t) r q zero e d = absurd (omega arith)
same_chars_lem (a ∷ s) t r q zero e d = absurd (omega arith)
same_chars_lem (a ∷ s) [] r q (suc n) e d = absurd (omega arith)
same_chars_lem (a ∷ s) (b ∷ t) r q (suc n) e d =
    ground (arith, same_chars_lem s t r q n (omega arith) (omega arith))

-- `strcmp` decides whether two strings are equal: 0 if they are, 1 if they are not. It says
-- nothing of their order.
pub strcmp_lem :
    (s t r q : Bytes)
    → NoZero s
    → NoZero t
    → ((strcmp (cstr s r) (cstr t q) ≡ ok 0) × (s ≡ t))
      ⊎ ((strcmp (cstr s r) (cstr t q) ≡ ok 1) × (s ≢ t))
unfolding strcmp
strcmp_lem s t r q hs ht = elim (Bool-cases (length s == length t)) [
  | inr differ ↦
      inr (rw (strlen_lem s r hs, strlen_lem t q ht, differ) refl, λ e. ground (arith, ap length e))
  | inl same ↦ elim (same_chars_lem s t r q (length s) refl (ground arith)) [
    | inl (e, eq) ↦ inl (rw (strlen_lem s r hs, strlen_lem t q ht, same) e, eq)
    | inr (e, ne) ↦ inr (rw (strlen_lem s r hs, strlen_lem t q ht, same) e, ne)
  ]
]

-- The kernel's `strncmp`, given a positive count, returns 0 exactly when the first bytes of its
-- arguments are the same: no later byte is compared.
pub strncmp_iff :
    (a b : ℕ) (s t : Bytes) (n : ℕ) → (strncmp (a ∷ s) (b ∷ t) (suc n) ≡ ok (pos 0)) ↔ (a ≡ b)
unfolding strncmp
strncmp_iff a b s t zero = ground arith
strncmp_iff a b s t (suc n) = ground (arith, strncmp_iff a b s t n)
