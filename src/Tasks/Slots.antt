-- ===== src/Tasks/Slots.antt =====
-- Which slot a new task gets, and that a released one can be given again.
use os.Util.{
  ltb, ℕ, zero, suc, ◌+◌, ◌≤◌, ◌<◌, ◌≡◌, refl, sym, ap, ◌∙◌, ◌⊎◌, inl, inr, arith, Bool-cases,
  ==_iff, ◌==◌, true, false, Option, none, some, List, ok, get_or, set, length, get_or-set_self,
}
use mathlib.Core.Path.{subst}
use os.Tasks.{Task, Sched, slot, is_none, find_free, take_id, find_slot_of, release}

-- The slots from a to b (b excluded) have tasks.
abbrev pub AllTaken : List (Option Task) → (a b : ℕ) → Type 0
AllTaken task a b = (i : ℕ) → a ≤ i → i < b → is_none (get_or task i none) ≡ false

AllTaken-step :
    (task : List (Option Task)) (a b : ℕ)
    → is_none (get_or task a none) ≡ false
    → AllTaken task (a + 1) b
    → AllTaken task a b
AllTaken-step task a b here later i le lt = elim (Bool-cases (i == a)) [
  | inl same ↦
      subst (λ (t : ℕ). is_none (get_or task t none) ≡ false) (sym ((==_iff i a).0 same)) here
  | inr other ↦ later i (ground arith) lt
]

pub find_free_lem :
    (task : List (Option Task)) (count i : ℕ)
    → ((k : ℕ) × (find_free task count i ≡ some k)
        × (i ≤ k)
        × (k < i + count)
        × (is_none (get_or task k none) ≡ true)
        × AllTaken task i k)
      ⊎ ((find_free task count i ≡ none) × AllTaken task i (i + count))
unfolding find_free
find_free_lem task zero i = inr (refl, λ j le lt. absurd (omega arith))
find_free_lem task (suc count) i = elim (Bool-cases (is_none (get_or task i none))) [
  | inl free ↦
      inl (i, rw free refl, omega arith, omega arith, free, λ j le lt. absurd (omega arith))
  | inr taken ↦ elim (find_free_lem task count (i + 1)) [
    | inl (k, e, le, lt, free, all) ↦
        inl
          (k, rw (taken, e) refl, omega arith, omega arith, free, AllTaken-step task i k taken all)
    | inr (e, all) ↦ inr (
      rw (taken, e) refl,
      AllTaken-step task i (i + suc count) taken (λ j le lt. all j le (omega arith)),
    )
  ]
]

-- `take_id` takes a new process number, and gives the first slot from 1 on that has no task,
-- which it also stores; or, if slots 1 to 63 have tasks, 64, and stores none.
pub take_id_lem :
    (s : Sched)
    → ((k : ℕ) × (take_id s ≡ (k, record s { new_pid = s.new_pid + 1; new_pcbid = k }))
        × (1 ≤ k)
        × (k < 64)
        × (is_none (slot s k) ≡ true)
        × AllTaken s.task 1 k)
      ⊎ ((take_id s ≡ (64, record s { new_pid = s.new_pid + 1 })) × AllTaken s.task 1 64)
unfolding take_id
take_id_lem s = elim (find_free_lem s.task 63 1) [
  | inl (k, e, le, lt, free, all) ↦
      inl (k, rw (e, take_id) refl, omega arith, omega arith, free, all)
  | inr (e, all) ↦ inr (rw (e, take_id) refl, λ j le lt. all j le (omega arith))
]

find_slot_of_lem :
    (task : List (Option Task)) (p count i : ℕ)
    → i ≤ p
    → p < i + count
    → is_none (get_or task p none) ≡ false
    → find_slot_of task p count i ≡ some p
unfolding find_slot_of
find_slot_of_lem task p zero i le lt there = absurd (omega arith)
find_slot_of_lem task p (suc count) i le lt there = elim (Bool-cases (i == p)) [
  | inl same ↦
      let e = (==_iff i p).0 same in
      let here : is_none (get_or task i none) ≡ false =
        ap (λ (t : ℕ). is_none (get_or task t none)) e ∙ there in
      rw (here, same) (ap some e)
  | inr other ↦
      let rest = find_slot_of_lem task p count (i + 1) (ground arith) (omega arith) there in
      ground (arith, other, rest)
]

-- A task of slots 1 to 63 can be released: its slot, and nothing else, changes to have no task,
-- and `take_id` then gives this slot or an earlier one.
pub release-take_id :
    (s : Sched) (p : ℕ)
    → p < length s.task
    → 1 ≤ p
    → p < 64
    → is_none (slot s p) ≡ false
    → let s' = record s { task = set s.task p none } in
      (release s (some p) ≡ ok s') × (is_none (slot s' p) ≡ true) × ((take_id s').0 ≤ p)
unfolding release
release-take_id s p inside from to there =
    let s' : Sched = record s { task = set s.task p none } in
    let gone : is_none (slot s' p) ≡ true =
      ap is_none (get_or-set_self s.task p none none inside) in
    (
      rw (find_slot_of_lem s.task p 63 1 from (omega arith) there, release) refl,
      gone,
      elim (take_id_lem s') [
        | inl (k, e, le, lt, free, all) ↦ elim (Bool-cases (ltb p k)) [
          | inl after ↦ cc (all p from (ground arith), gone)
          | inr before ↦ ground (arith, before, ap (λ (t : ℕ × Sched). t.0) e)
        ]
        | inr (e, all) ↦ cc (all p from to, gone)
      ],
    )
