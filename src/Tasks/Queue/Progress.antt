-- ===== src/Tasks/Queue/Progress.antt =====
-- The processor does not stay with the initial task while another one can run.
use os.Util.{
  ℕ, ◌≤◌, ◌<◌, ◌≡◌, refl, sym, ap, ◌∙◌, arith, Bool, true, false, inl, inr, Option, none, some, ok,
  get_or, leb, ◌&&◌, length, get_or-set_self, ◌≢◌,
}
use os.Tasks.{Task, Sched, slot, map_task, each_task, alter_task, alter_state, change}
use os.Tasks.Wake.{each_task_lem}
use os.Tasks.Queue.{is_runnable, schedule, sleep, sleeping, run_task, task_running}
use os.Tasks.Queue.Settle.{settle, slot_inside}
use os.Tasks.Queue.Moves.{set-IsSound}
use os.Tasks.Queue.First.{length-each_task}
use os.Tasks.Queue.Pick.{schedule-IsValid}
use os.Tasks.Queue.Valid.{fits, is_queued, IsSound, IsValid}

-- A task that can run, or that a signal lets run.
abbrev pub can_run : Option Task → Bool
can_run none = false
can_run (some t) = is_runnable (alter_task t)

abbrev pub state_of : Option Task → Option ℕ
state_of none = none
state_of (some t) = some t.state

-- The table that the next task is picked from.
pub prepared_lem :
    (s : Sched) (p : ℕ)
    → length s.task ≡ 64
    → 1 ≤ p
    → p < 64
    → get_or (each_task settle (alter_state s).task 63) p none
      ≡ map_task settle (map_task alter_task (slot s p))
unfolding alter_state
prepared_lem s p len from to =
    let inside : (leb 1 p && leb p 63) ≡ true = ground arith in
    each_task_lem settle (each_task alter_task s.task 63) 63 p
      (omega (arith, length-each_task alter_task s.task 63))
    ∙ rw (inside, each_task_lem alter_task s.task 63 p (omega arith), inside) refl

prepared-zero :
    (s : Sched)
    → length s.task ≡ 64
    → get_or (each_task settle (alter_state s).task 63) 0 none ≡ slot s 0
unfolding alter_state
prepared-zero s len =
    each_task_lem settle (each_task alter_task s.task 63) 63 0
      (omega (arith, length-each_task alter_task s.task 63))
    ∙ each_task_lem alter_task s.task 63 0 (omega arith)

settle-queued :
    (o : Option Task)
    → can_run o ≡ true
    → is_queued (map_task settle (map_task alter_task o)) ≡ true
settle-queued none h = cc
settle-queued (some t) h = ground (arith, h)

-- Where a task of slots 1 to 63 can run, or waits with a signal that wakes it, `schedule` does not
-- give the processor to the initial task, but to a task that then is running.
pub schedule-progress :
    (s : Sched) (p : ℕ)
    → IsSound s
    → 1 ≤ p
    → p < 64
    → can_run (slot s p) ≡ true
    → (s' : Sched) × (schedule s ≡ ok s')
      × (1 ≤ s'.current)
      × (state_of (slot s' s'.current) ≡ some task_running)
schedule-progress s p h from to runs =
    let (s', e, valid, picked) = schedule-IsValid s h in
    let task = each_task settle (alter_state s).task 63 in
    let queued : is_queued (get_or task p none) ≡ true =
      ap is_queued (prepared_lem s p h.slots from to) ∙ settle-queued (slot s p) runs in
    elim picked [
      | inl (zeroth, same, none_queued) ↦ cc (none_queued p, queued)
      | inr (t, at, queue, table, least) ↦
          let moved : s'.current ≢ 0 = λ zeroth. cc (
            h.idle.1,
            ap is_queued (prepared-zero s h.slots),
            ap (λ (j : ℕ). get_or task j none) zeroth,
            ap is_queued at,
            queue,
          ) in
          (
            s',
            e,
            ground (arith, moved),
            ap state_of (
                ap (λ l. get_or l s'.current none) table
                ∙ get_or-set_self task s'.current (some (run_task t)) none
                    (slot_inside task s'.current at)),
          )
    ]

-- From a valid state in which the task that runs is in a slot from 1 to 63 and is not dead, `sleep`
-- returns, in a valid state again.
pub sleep-IsValid :
    (s : Sched) (t : Task)
    → IsValid s
    → slot s s.current ≡ some t
    → 1 ≤ s.current
    → t.state ≤ 2
    → (s' : Sched) × (sleep s ≡ ok s') × IsValid s'
unfolding sleep change
sleep-IsValid s t h at from alive =
    let inside : s.current < 64 = omega (arith, slot_inside s.task s.current at, h.sound.slots) in
    let out : t.in_queue ≡ false = sym (ap is_queued at) ∙ h.running.1 in
    let fit : fits (some (sleeping t)) ≡ true =
      ground (arith, ap fits at, h.sound.fit s.current, out) in
    let (s', e, valid, picked) =
      schedule-IsValid _ (
        set-IsSound s s.current (some (sleeping t)) inside h.running.1 out fit (inl refl)
          h.sound) in
    (s', rw (at, sleep, change) e, valid)
