-- ===== src/Tasks.antt =====
-- The table of tasks in kernel/sched: the slots that fork takes and exit gives back, the signal to a
-- father, and the signals that wake tasks. A task is named by its slot of `TASK`; slot 0 is the
-- initial task. The five ready queues are lists of nodes, each with an address of its own; a tail is
-- the address of a node, so that one that points to no node is seen.
pub mod Slots
pub mod Wake
pub mod Queue
pub mod Exit
pub mod Wait
pub mod Fork
pub mod Timer
pub mod Signal
pub mod Start
mod Tests
pub mod Runs
use os.Util.{
  ℕ, zero, suc, ◌+◌, ◌-◌, ◌^◌, Bool, true, false, not, ◌&&◌, Option, none, some, List, [], ◌∷◌, Run,
  ok, panic, fault, ◌>>=◌, ◌==◌, ltb, leb, if◌then◌else◌, get_or, set, bit_or, bit_and,
}

abbrev pub max_task : ℕ
max_task = 64

-- `1 << (SIGCHLD - 1)`
abbrev pub sig_chld : ℕ
sig_chld = 0x10000

pub record Reg : Type 0 where
  pub ra : ℕ
  pub sp : ℕ
  pub gp : ℕ
  pub tp : ℕ
  pub t0 : ℕ
  pub t1 : ℕ
  pub t2 : ℕ
  pub s0 : ℕ
  pub s1 : ℕ
  pub a0 : ℕ
  pub a1 : ℕ
  pub a2 : ℕ
  pub a3 : ℕ
  pub a4 : ℕ
  pub a5 : ℕ
  pub a6 : ℕ
  pub a7 : ℕ
  pub s2 : ℕ
  pub s3 : ℕ
  pub s4 : ℕ
  pub s5 : ℕ
  pub s6 : ℕ
  pub s7 : ℕ
  pub s8 : ℕ
  pub s9 : ℕ
  pub s10 : ℕ
  pub s11 : ℕ
  pub t3 : ℕ
  pub t4 : ℕ
  pub t5 : ℕ
  pub t6 : ℕ
  pub epc : ℕ
  pub temp : ℕ

pub record Sigaction : Type 0 where
  pub sa_handler : ℕ
  pub sa_mask : ℕ
  pub sa_flags : ℕ

-- The working directory and the open files are addresses.
pub record Task : Type 0 where
  pub pid : ℕ
  pub father_pid : ℕ
  pub pcb_id : ℕ
  pub state : ℕ
  pub start_time : ℕ
  pub time : ℕ
  pub priority : ℕ
  pub counter : ℕ
  pub in_queue : Bool
  pub order : ℕ
  pub signal : ℕ
  pub sigaction : List Sigaction
  pub exit_code : ℕ
  pub cwd : ℕ
  pub ofile : List ℕ
  pub context : Reg

-- A node names its task by the slot.
pub record Node : Type 0 where
  pub addr : ℕ
  pub pid : ℕ
  pub task : ℕ

-- `fresh` is the address that the next node gets.
pub record Sched : Type 0 where
  pub task : List (Option Task)
  pub current : ℕ
  pub new_pid : ℕ
  pub new_pcbid : ℕ
  pub head : List (List Node)
  pub tail : List (Option ℕ)
  pub fresh : ℕ
  pub jiffies : ℕ

abbrev pub slot : Sched → ℕ → Option Task
slot s i = get_or s.task i none

abbrev pub is_none : Option Task → Bool
is_none none = true
is_none (some t) = false

-- The loop of `find_new_id`, with `count` slots left from i on.
unfoldable pub find_free : List (Option Task) → (count i : ℕ) → Option ℕ
find_free task zero i = none
find_free task (suc count) i =
    let rest = find_free task count (i + 1) in if is_none (get_or task i none) then some i else rest

-- The new process number and slot; the result is `max_task` where there is no slot.
unfoldable pub take_id : Sched → ℕ × Sched
take_id s = elim (find_free s.task 63 1) [
  | none ↦ (max_task, record s { new_pid = s.new_pid + 1 })
  | some i ↦ (i, record s { new_pid = s.new_pid + 1; new_pcbid = i })
]

-- `NEW_PID` is an `int`, which must not overflow.
unfoldable pub find_new_id : Sched → Run (ℕ × Sched)
find_new_id s = if leb (2 ^ 31 - 1) s.new_pid then fault else ok (take_id s)

-- The loop of `release`, which looks for the slot of the task p.
unfoldable pub find_slot_of : List (Option Task) → (p count i : ℕ) → Option ℕ
find_slot_of task p zero i = none
find_slot_of task p (suc count) i =
    let rest = find_slot_of task p count (i + 1) in
    if not (is_none (get_or task i none)) && (i == p) then some i else rest

-- `none` is NULL.
unfoldable pub release : Sched → Option ℕ → Run Sched
release s none = ok s
release s (some p) = elim (find_slot_of s.task p 63 1) [
  | none ↦ panic
  | some i ↦ ok (record s { task = set s.task i none })
]

abbrev pub has_pid : Option Task → ℕ → Bool
has_pid none pid = false
has_pid (some t) pid = t.pid == pid

-- The loop of `tell_father`.
unfoldable pub find_pid : List (Option Task) → (pid count i : ℕ) → Option ℕ
find_pid task pid zero i = none
find_pid task pid (suc count) i =
    let rest = find_pid task pid count (i + 1) in
    if has_pid (get_or task i none) pid then some i else rest

-- A task that is not there is a fault.
unfoldable pub change : Sched → ℕ → (Task → Task) → Run Sched
change s i f = elim (slot s i) [
  | none ↦ fault
  | some t ↦ ok (record s { task = set s.task i (some (f t)) })
]

abbrev pub signal_child : Task → Task
signal_child t = record t { signal = bit_or t.signal sig_chld }

-- The father gets the signal; without one the task becomes a child of task 1.
unfoldable pub tell_father : Sched → ℕ → Run Sched
tell_father s pid = elim (if pid == 0 then none else find_pid s.task pid 63 1) as (λ x. Run Sched) [
  | some i ↦ change s i signal_child
  | none ↦ change s s.current (λ t. record t { father_pid = 1 }) >>= λ s1. change s1 1 signal_child
]

abbrev pub map_task : (Task → Task) → Option Task → Option Task
map_task f none = none
map_task f (some t) = some (f t)

-- The loops of `alter_state` and `wakeup` over the tasks of slots n to 1, with `f` for the code of
-- a task.
unfoldable pub each_task : (Task → Task) → List (Option Task) → ℕ → List (Option Task)
each_task f task zero = task
each_task f task (suc i) = each_task f (set task (suc i) (map_task f (get_or task (suc i) none))) i

abbrev pub task_ready : ℕ
task_ready = 1

abbrev pub task_wait : ℕ
task_wait = 2

-- `1 << (SIGSTOP - 1)`, `~SIG_STOP` of 32 bits, and `1 << (SIGCONT - 1)`
abbrev pub sig_stop : ℕ
sig_stop = 0x40000

abbrev pub not_sig_stop : ℕ
not_sig_stop = 0xfffbffff

abbrev pub sig_cont : ℕ
sig_cont = 0x20000

-- A waiting task with a signal other than the stop becomes ready, and loses its signals.
unfoldable pub alter_task : Task → Task
alter_task t =
    if (t.state == task_wait) && not (bit_and t.signal not_sig_stop == 0)
    then record t { state = task_ready; signal = 0 }
    else t

unfoldable pub alter_state : Sched → Sched
alter_state s = record s { task = each_task alter_task s.task 63 }

-- A stopped task is told to go on.
unfoldable pub wake_task : Task → Task
wake_task t =
    if t.signal == 0
    then t
    else if bit_and t.signal sig_stop == sig_stop
    then record t { signal = bit_or (bit_and t.signal not_sig_stop) sig_cont }
    else t

unfoldable pub wakeup : Sched → Sched
wakeup s = record s { task = each_task wake_task s.task 63 }
