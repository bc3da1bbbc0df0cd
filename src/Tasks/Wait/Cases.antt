-- ===== src/Tasks/Wait/Cases.antt =====
-- Everything that a call of `sys_waitpid` can come to.
use os.Util.{
  ℕ, zero, suc, ◌≤◌, ◌≡◌, refl, ap, ◌∙◌, arith, Bool, true, false, Bool-cases, inl, inr, ◌⊎◌, ◌==◌,
  ==_iff, ◌&&◌,
}
use os.Util.Int.{ℤ}
use os.Tasks.{Sched, slot}
use os.Tasks.Wait.{is_child, is_over, over, alive, nobody, wait_scan}

-- No child in slots 1 to n that the call is for is dead or stopped.
abbrev pub NoneOver : Sched → (me : ℕ) → ℤ → ℕ → Type 0
NoneOver s me pid n =
    (p : ℕ) → 1 ≤ p → p ≤ n → (is_child s.current me pid p (slot s p) && is_over (slot s p)) ≡ false

abbrev pub NoChild : Sched → (me : ℕ) → ℤ → ℕ → Type 0
NoChild s me pid n = (p : ℕ) → 1 ≤ p → p ≤ n → is_child s.current me pid p (slot s p) ≡ false

abbrev pub HasChild : Sched → (me : ℕ) → ℤ → ℕ → Type 0
HasChild s me pid n = (p : ℕ) × (1 ≤ p) × (p ≤ n) × (is_child s.current me pid p (slot s p) ≡ true)

-- What the loop from n down finds.
pub wait_scan_lem :
    (s : Sched) (me : ℕ) (pid : ℤ) (n : ℕ) (flag : Bool)
    → ((p : ℕ) × (wait_scan s me pid n flag ≡ over p)
        × (1 ≤ p)
        × (p ≤ n)
        × (is_child s.current me pid p (slot s p) ≡ true)
        × (is_over (slot s p) ≡ true))
      ⊎ (((wait_scan s me pid n flag ≡ alive)
            × NoneOver s me pid n
            × ((flag ≡ true) ⊎ HasChild s me pid n))
          ⊎ ((wait_scan s me pid n flag ≡ nobody) × (flag ≡ false) × NoChild s me pid n))
unfolding wait_scan
wait_scan_lem s me pid zero flag = elim (Bool-cases flag) [
  | inl on ↦ inr (inl (rw (on, wait_scan) refl, λ p a b. absurd (omega arith), inl on))
  | inr off ↦ inr (inr (rw (off, wait_scan) refl, off, λ p a b. absurd (omega arith)))
]
wait_scan_lem s me pid (suc i) flag =
    elim (Bool-cases (is_child s.current me pid (suc i) (slot s (suc i)))) [
      | inr other ↦ elim (wait_scan_lem s me pid i flag) [
        | inl (p, e, a, b, child, done) ↦
            inl (p, rw (other, wait_scan) e, a, omega arith, child, done)
        | inr (inl (e, none_over, seen)) ↦ inr (
            inl (
              rw (other, wait_scan) e,
              λ p a b.
                  below p (λ (q : ℕ). is_child s.current me pid q (slot s q) && is_over (slot s q))
                    b (rw other refl) (none_over p a),
              elim seen [ inl on ↦ inl on | inr (p, a, b, child) ↦ inr (p, a, omega arith, child) ],
            ))
        | inr (inr (e, off, none_there)) ↦ inr (
            inr (
              rw (other, wait_scan) e,
              off,
              λ p a b.
                  below p (λ (q : ℕ). is_child s.current me pid q (slot s q)) b other
                    (none_there p a),
            ))
      ]
      | inl child ↦ elim (Bool-cases (is_over (slot s (suc i)))) [
        | inl done ↦
            inl (suc i, rw (child, done, wait_scan) refl, omega arith, omega arith, child, done)
        | inr lives ↦ elim (wait_scan_lem s me pid i true) [
          | inl (p, e, a, b, child', done) ↦
              inl (p, rw (child, lives, wait_scan) e, a, omega arith, child', done)
          | inr (inl (e, none_over, seen)) ↦ inr (
              inl (
                rw (child, lives, wait_scan) e,
                λ p a b.
                    below p
                      (λ (q : ℕ). is_child s.current me pid q (slot s q) && is_over (slot s q)) b
                      (rw (child, lives) refl) (none_over p a),
                inr (suc i, omega arith, omega arith, child),
              ))
          | inr (inr (e, off, none_there)) ↦ cc off
        ]
      ]
    ]
  where
    below :
        (p : ℕ) (f : ℕ → Bool) → p ≤ suc i → f (suc i) ≡ false → (p ≤ i → f p ≡ false) → f p ≡ false
    below p f le last rest = elim (Bool-cases (p == suc i)) [
      | inl same ↦ ap f ((==_iff p (suc i)).0 same) ∙ last
      | inr other ↦ rest (ground (arith, other))
    ]
