-- ===== src/Tasks/Wake.antt =====
-- What the loops of the scheduler over all tasks do to each of them.
use os.Util.{
  ℕ, zero, suc, ◌≤◌, ◌<◌, ◌≡◌, sym, ap, ◌≢◌, arith, Bool-cases, ◌⊎◌, inl, inr, ==_iff, ◌==◌, ◌&&◌,
  Option, none, some, List, get_or, set, length, length-set, get_or-set, if◌then◌else◌, leb,
  bit_and,
}
use mathlib.Core.Path.{subst}
use os.Tasks.{
  Task, Sched, slot, map_task, each_task, alter_task, alter_state, task_wait, not_sig_stop,
}

pub each_task_lem :
    (f : Task → Task) (task : List (Option Task)) (n j : ℕ)
    → n < length task
    → get_or (each_task f task n) j none
      ≡ (if leb 1 j && leb j n then map_task f (get_or task j none) else get_or task j none)
unfolding each_task
each_task_lem f task zero j lt = ground arith
each_task_lem f task (suc i) j lt =
    let v = map_task f (get_or task (suc i) none) in
    elim (Bool-cases (j == suc i)) [
      | inl same ↦
          let e = (==_iff j (suc i)).0 same in
          ground (
            arith,
            same,
            each_task_lem f (set task (suc i) v) i j (omega (arith, length-set task (suc i) v)),
            get_or-set task (suc i) j v none,
            ap (λ (t : ℕ). map_task f (get_or task t none)) e,
          )
      | inr other ↦ ground (
        arith,
        other,
        each_task_lem f (set task (suc i) v) i j (omega (arith, length-set task (suc i) v)),
        get_or-set task (suc i) j v none,
      )
    ]

-- A waiting task has no signal but the stop.
abbrev pub NoneToDeliver : Option Task → Type 0
NoneToDeliver none = Unit
NoneToDeliver (some t) = (t.state ≢ task_wait) ⊎ (bit_and t.signal not_sig_stop ≡ 0)

alter_task_lem : (o : Option Task) → NoneToDeliver (map_task alter_task o)
unfolding alter_task
alter_task_lem none = tt
alter_task_lem (some t) = elim (Bool-cases (t.state == task_wait)) [
  | inr awake ↦ rw (awake, alter_task) (inl (λ e. ground arith))
  | inl waits ↦ elim (Bool-cases (bit_and t.signal not_sig_stop == 0)) [
    | inl nothing ↦ rw (waits, nothing, alter_task) (inr ((==_iff _ 0).0 nothing))
    | inr pending ↦ rw (waits, pending, alter_task) (inl (λ e. absurd (omega (arith, e))))
  ]
]

-- In a table of 64 slots, `alter_state` treats the task of each slot from 1 to 63 as `alter_task`
-- does; after it that task does not wait with a signal other than the stop. Slot 0 is left alone.
pub alter_state_lem :
    (s : Sched) (j : ℕ)
    → length s.task ≡ 64
    → 1 ≤ j
    → j < 64
    → (slot (alter_state s) j ≡ map_task alter_task (slot s j))
      × NoneToDeliver (slot (alter_state s) j)
      × (slot (alter_state s) 0 ≡ slot s 0)
unfolding alter_state
alter_state_lem s j len from to =
    let at_j = each_task_lem alter_task s.task 63 j (omega arith) in
    let changed : get_or (each_task alter_task s.task 63) j none ≡ map_task alter_task (slot s j) =
      ground (arith, at_j) in
    (
      changed,
      subst NoneToDeliver (sym changed) (alter_task_lem (slot s j)),
      ground (arith, each_task_lem alter_task s.task 63 0 (omega arith)),
    )
