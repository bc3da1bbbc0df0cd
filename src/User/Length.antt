-- ===== src/User/Length.antt =====
-- user/lib/string.c: `strlen`, which reads eight bytes at a time, against the plain one.
use os.Util.{
  ℕ, suc, ◌+◌, ◌%◌, ◌≡◌, refl, sym, ◌∙◌, ap, arith, Bool, true, false, ◌||◌, Bool-cases, inl, inr,
  [], ◌∷◌, ◌++◌, Run, ok, panic, fault, out_of_fuel, map_run, ◌==◌, ==_iff, if◌then◌else◌, length,
}
use mathlib.Core.Path.{fun_ext}
use os.Text
use os.Text.{Bytes}
use os.User.{haszero, word_of, count_bytes, count_words, count_head, strlen}
use os.User.Words.{AllBytes, has_zero, haszero_lem}

-- The length of what is left, with what is passed.
abbrev behind : ℕ → Bytes → Run ℕ
behind n s = map_run (λ k. n + k) (Text.strlen s)

map_run-map {ℓ} :
    {A B C : Type ℓ} (f : B → C) (g : A → B) (r : Run A)
    → map_run f (map_run g r) ≡ map_run (λ a. f (g a)) r
map_run-map f g (ok a) = refl
map_run-map f g panic = refl
map_run-map f g fault = refl
map_run-map f g out_of_fuel = refl

-- A byte that is not the end.
behind-suc : (n : ℕ) (r : Run ℕ) → map_run (λ k. n + k) (map_run suc r) ≡ map_run (λ k. n + 1 + k) r
behind-suc n r = map_run-map (λ k. n + k) suc r ∙ ap (λ f. map_run f r) (fun_ext λ k. omega arith)

behind-cons : (n c : ℕ) (s : Bytes) → behind n (c ∷ s) ≡ (if c == 0 then ok n else behind (n + 1) s)
unfolding Text.strlen
behind-cons n c s = elim (Bool-cases (c == 0)) [
  | inl e ↦
      ap (λ b. map_run (λ k. n + k) (if b then ok 0 else map_run suc (Text.strlen s))) e
      ∙ ap (λ (m : ℕ). ok m) (omega arith)
      ∙ ap (λ b. if b then ok n else behind (n + 1) s) (sym e)
  | inr e ↦
      ap (λ b. map_run (λ k. n + k) (if b then ok 0 else map_run suc (Text.strlen s))) e
      ∙ behind-suc n (Text.strlen s)
      ∙ ap (λ b. if b then ok n else behind (n + 1) s) (sym e)
]

count_bytes_lem : (s : Bytes) (n : ℕ) → count_bytes s n ≡ behind n s
unfolding count_bytes Text.strlen
count_bytes_lem [] n = refl
count_bytes_lem (c ∷ s) n =
    ap (λ r. if c == 0 then ok n else r) (count_bytes_lem s (n + 1)) ∙ sym (behind-cons n c s)

-- Bytes that are not the end are passed.
behind-append :
    (bs s : Bytes) (n : ℕ) → has_zero bs ≡ false → behind n (bs ++ s) ≡ behind (n + length bs) s
behind-append [] s n h = ap (λ (m : ℕ). behind m s) (omega arith)
behind-append (b ∷ bs) s n h =
    behind-cons n b (bs ++ s)
    ∙ ap (λ t. if t then ok n else behind (n + 1) (bs ++ s)) (first (b == 0) h)
    ∙ behind-append bs s (n + 1) (others (b == 0) h)
    ∙ ap (λ (m : ℕ). behind m s) (omega arith)
  where
    first : (t : Bool) → (t || has_zero bs) ≡ false → t ≡ false
    first true e = cc
    first false e = refl

    others : (t : Bool) → (t || has_zero bs) ≡ false → has_zero bs ≡ false
    others true e = cc
    others false e = e

count_words_lem : (s : Bytes) (n : ℕ) → AllBytes s → length s % 8 ≡ 0 → count_words s n ≡ behind n s
unfolding count_words Text.strlen
count_words_lem [] n all al = refl
count_words_lem (a ∷ []) n all al = absurd (omega arith)
count_words_lem (a ∷ b ∷ []) n all al = absurd (omega arith)
count_words_lem (a ∷ b ∷ c ∷ []) n all al = absurd (omega arith)
count_words_lem (a ∷ b ∷ c ∷ d ∷ []) n all al = absurd (omega arith)
count_words_lem (a ∷ b ∷ c ∷ d ∷ e ∷ []) n all al = absurd (omega arith)
count_words_lem (a ∷ b ∷ c ∷ d ∷ e ∷ f ∷ []) n all al = absurd (omega arith)
count_words_lem (a ∷ b ∷ c ∷ d ∷ e ∷ f ∷ g ∷ []) n all al = absurd (omega arith)
count_words_lem (a ∷ b ∷ c ∷ d ∷ e ∷ f ∷ g ∷ h ∷ s) n
      (la, (lb, (lc, (ld, (le, (lf, (lg, (lh, all)))))))) al =
    let bs : Bytes = a ∷ b ∷ c ∷ d ∷ e ∷ f ∷ g ∷ h ∷ [] in
    elim (Bool-cases (haszero (word_of bs))) [
      | inl ends ↦
          ap (λ t. if t then count_bytes (bs ++ s) n else count_words s (n + 8)) ends
          ∙ count_bytes_lem (bs ++ s) n
      | inr on ↦
          ap (λ t. if t then count_bytes (bs ++ s) n else count_words s (n + 8)) on
          ∙ count_words_lem s (n + 8) all (omega (arith, al))
          ∙ sym (
              behind-append bs s n (
                passed (has_zero bs) (haszero (word_of bs))
                  (haszero_lem a b c d e f g h (la, (lb, (lc, (ld, (le, (lf, (lg, (lh, tt)))))))))
                  on))
    ]
  where
    passed : (z t : Bool) → (z ≡ true → t ≡ true) → t ≡ false → z ≡ false
    passed true t h e = cc (h refl)
    passed false t h e = refl

count_head_lem :
    (s : Bytes) (address n : ℕ)
    → AllBytes s
    → (address + length s) % 8 ≡ 0
    → count_head s address n ≡ behind n s
unfolding count_head Text.strlen
count_head_lem [] address n all al =
    ap (λ t. if t then count_words [] n else fault) ((==_iff (address % 8) 0).1 (omega arith))
    ∙ count_words_lem [] n all refl
count_head_lem (c ∷ s) address n all al = elim (Bool-cases (address % 8 == 0)) [
  | inl here ↦
      ap (λ t. if t then count_words (c ∷ s) n else go) here
      ∙ count_words_lem (c ∷ s) n all (ground (arith, here, al))
  | inr there ↦
      ap (λ t. if t then count_words (c ∷ s) n else go) there
      ∙ ap (λ r. if c == 0 then ok n else r)
          (count_head_lem s (address + 1) (n + 1) all.1 (omega (arith, al)))
      ∙ sym (behind-cons n c s)
]
  where
    go : Run ℕ
    go = if c == 0 then ok n else count_head s (address + 1) (n + 1)

-- If the memory of a string ends at a multiple of eight, then at every address the length that
-- `strlen` finds by words is the one that the kernel's `strlen` finds by bytes; without an end to
-- the string both read behind the memory.
pub strlen-strlen :
    (address : ℕ) (s : Bytes)
    → AllBytes s
    → (address + length s) % 8 ≡ 0
    → strlen address s ≡ Text.strlen s
unfolding strlen
strlen-strlen address s all al = count_head_lem s address 0 all al ∙ plain (Text.strlen s)
  where
    plain : (r : Run ℕ) → map_run (λ k. 0 + k) r ≡ r
    plain (ok k) = ap (λ (m : ℕ). ok m) (omega arith)
    plain panic = refl
    plain fault = refl
    plain out_of_fuel = refl
