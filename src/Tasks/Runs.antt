-- ===== src/Tasks/Runs.antt =====
-- A running system with three tasks, and the theorems on the scheduler at it.
use os.Util.{
  ℕ, ◌+◌, ◌*◌, ◌≤◌, ◌<◌, ◌≡◌, refl, ◌⊎◌, inl, true, false, ◌&&◌, Option, none, some, List, [], ◌∷◌,
  replicate, length-replicate, ok, arith, get_or, set, ltb, leb,
}
use os.Util.Int.{pos, negsuc}
use os.Tasks.{Task, Sched, slot, is_none, each_task, alter_state, alter_task}
use os.Tasks.Exit.{do_exit, task_zombine}
use os.Tasks.Exit.Leave.{Left, do_exit-IsValid}
use os.Tasks.Fork.{sys_fork}
use os.Tasks.Fork.Child.{sys_fork-child}
use os.Tasks.Queue.{schedule, set_queue, task_running}
use os.Tasks.Queue.Moves.{set-IsSound, with_ids-IsSound}
use os.Tasks.Queue.Pick.{Picked, schedule-IsValid}
use os.Tasks.Queue.Progress.{schedule-progress, state_of}
use os.Tasks.Queue.Settle.{settle, set_queue_lem}
use os.Tasks.Queue.Valid.{IsSound, IsValid}
use os.Tasks.Start.{boot, init_task, init_sched, boot-IsValid, init_sched-IsValid}
use os.Tasks.Timer.{TimerList}
use os.Tasks.Timer.Slice.{ticks, later, time_slice}
use os.Tasks.Wait.{wait_round, returned, asleep, no_child, is_child, task_stop}
use os.Tasks.Wait.Cases.{NoneOver, HasChild, NoChild}
use os.Tasks.Wait.Round.{Reaped, wait_round_lem}

abbrev base : ℕ
base = 0x80000000

-- A task in slot `pid`.
abbrev worker : (pid father_pid state order : ℕ) → Task
worker pid father_pid state order =
    let t = init_task in
    let r = t.context in
    record t {
      pid = pid;
      father_pid = father_pid;
      pcb_id = pid;
      state = state;
      order = order;
      counter = 3;
      context = record r { sp = base + pid * 4096 + 4000 };
    }

-- Task 1 runs; its child, task 2, has exited.
abbrev pub father : Sched
father =
    let s = boot in
    record s {
      task = set (set s.task 1 (some (worker 1 0 0 0))) 2 (some (worker 2 1 3 255));
      current = 1;
      new_pid = 2;
      new_pcbid = 2;
    }

-- Task 2 runs, a child of task 1, which waits.
abbrev child : Sched
child =
    let s = boot in
    record s {
      task = set (set s.task 1 (some (worker 1 0 2 0))) 2 (some (worker 2 1 0 0));
      current = 2;
      new_pid = 2;
      new_pcbid = 2;
    }

start-IsSound : IsSound (boot)
start-IsSound = let h = boot-IsValid in h.sound

father-IsSound : IsSound father
father-IsSound = with_ids-IsSound _ 1 2 2 0 (
    set-IsSound _ 2 (some (worker 2 1 3 255)) (omega arith) refl refl refl (inl refl) (
      set-IsSound _ 1 (some (worker 1 0 0 0)) (omega arith) refl refl refl (inl refl)
        start-IsSound))

father-IsValid : IsValid father
father-IsValid = record { sound = father-IsSound; running = (refl, refl) }

child-IsValid : IsValid child
child-IsValid = record {
  sound = with_ids-IsSound _ 2 2 2 0 (
      set-IsSound _ 2 (some (worker 2 1 0 0)) (omega arith) refl refl refl (inl refl) (
        set-IsSound _ 1 (some (worker 1 0 2 0)) (omega arith) refl refl refl (inl refl)
          start-IsSound));
  running = (refl, refl);
}

-- There is a task in slot 2, with an id of slot 5.
old_tasks : List (Option Task)
old_tasks = none ∷ some (worker 5 1 0 0) ∷ replicate 61 none

init_sched-IsValid_example :
    let s = init_sched (record boot { task = some init_task ∷ old_tasks }) in
    (s.task ≡ some init_task ∷ replicate 63 none) × IsValid s
unfolding old_tasks
init_sched-IsValid_example = init_sched-IsValid old_tasks refl

set_queue_lem_example :
    (s' : Sched) × (set_queue father 63 ≡ ok s')
    × (s'.task ≡ each_task settle father.task 63)
    × (s'.current ≡ 1)
    × IsSound s'
set_queue_lem_example = set_queue_lem father 63 (omega arith) father-IsSound

schedule-IsValid_example :
    (s' : Sched) × (schedule father ≡ ok s')
    × IsValid s'
    × Picked (each_task settle (alter_state father).task 63) s'
schedule-IsValid_example = schedule-IsValid father father-IsSound

schedule-progress_example :
    (s' : Sched) × (schedule father ≡ ok s')
    × (1 ≤ s'.current)
    × (state_of (slot s' s'.current) ≡ some task_running)
unfolding alter_task
schedule-progress_example =
    schedule-progress father 1 father-IsSound (omega arith) (omega arith) refl

do_exit-IsValid_example : (s' : Sched) × (do_exit child ≡ ok s') × Left 2 2 s'
do_exit-IsValid_example =
    do_exit-IsValid child (worker 2 1 0 0) child-IsValid refl (omega arith) refl refl refl

wait_round_lem_example :
    ((p : ℕ) × (t : Task) × (slot father p ≡ some t)
      × (is_child 1 1 (negsuc 0) p (some t) ≡ true)
      × (((t.state ≡ task_zombine) × Reaped father p t (wait_round father (negsuc 0)))
          ⊎ ((t.state ≡ task_stop)
              × (wait_round father (negsuc 0) ≡ ok (returned (pos t.pid) none, father)))))
    ⊎ (((s' : Sched) × (wait_round father (negsuc 0) ≡ ok (asleep, s'))
          × IsValid s'
          × NoneOver father 1 (negsuc 0) 63
          × HasChild father 1 (negsuc 0) 63)
        ⊎ ((wait_round father (negsuc 0) ≡ ok (returned no_child none, father))
            × NoChild father 1 (negsuc 0) 63))
wait_round_lem_example =
    wait_round_lem father (negsuc 0) (worker 1 0 0 0) father-IsValid refl (omega arith)
      (omega arith)

sys_fork-child_example :
    (n : ℕ) × (c : Task) × (s' : Sched) × (stacks' : List ℕ) × (sys_fork base
        (some 9)
        father
        (replicate (64 * 4096) 0)
      ≡ ok (c.pid, s', stacks'))
    × IsValid s'
    × (is_none (slot father n) ≡ true)
    × (s'.task ≡ set father.task n (some c))
    × (c.father_pid ≡ 1)
    × (c.pid ≡ 3)
    × (c.context.a0 ≡ 0)
    × (c.context.epc ≡ 4)
    × (c.context.sp ≡ base + n * 4096 + 4000)
    × ((i : ℕ)
        → i < 4096
        → get_or stacks' (n * 4096 + i) 0 ≡ get_or (replicate (64 * 4096) 0) (1 * 4096 + i) 0)
    × ((j : ℕ)
        → (leb (n * 4096) j && ltb j (n * 4096 + 4096)) ≡ false
        → get_or stacks' j 0 ≡ get_or (replicate (64 * 4096) 0) j 0)
sys_fork-child_example =
    sys_fork-child base 9 father (replicate (64 * 4096) 0) (worker 1 0 0 0) 3 4000 father-IsValid
      (omega arith) refl refl refl (omega arith) (omega arith)
      (length-replicate {A = ℕ} (64 * 4096) 0) (omega arith) (omega arith) refl

-- A timer that is due at 100.
abbrev hundred : TimerList
hundred = record { set_at = 0; delay = 100; fn = some (λ s. schedule s) }

time_slice_example :
    (ticks (hundred ∷ []) 2 father ≡ ok (later 2 4 father (worker 1 0 0 0)))
    × (ticks (hundred ∷ []) 3 father ≡ schedule (later 3 5 father (worker 1 0 0 0)))
time_slice_example =
    time_slice (hundred ∷ []) 50 2 father (worker 1 0 0 0) refl (omega arith) (omega arith) refl
      refl refl refl (omega arith) (omega arith)
