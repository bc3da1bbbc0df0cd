-- ===== src/Tasks/Wait.antt =====
-- `sys_waitpid` of kernel/sys.c. It gives up the processor where its children live; `wait_round` is
-- the code up to there, `wait_resume` the code from there on, when the task is current again.
pub mod Cases
pub mod Round
use os.Util.{
  ℕ, zero, suc, ◌+◌, ◌%◌, ◌^◌, Bool, true, false, not, ◌&&◌, ◌||◌, Option, none, some, Run, ok,
  fault, ◌>>=◌, ◌==◌, if◌then◌else◌, bit_and,
}
use os.Util.Int.{ℤ, pos, negsuc}
use os.Tasks.{Task, Sched, slot, change, release, task_wait}
use os.Tasks.Queue.{schedule}
use os.Tasks.Exit.{task_zombine}

abbrev pub task_stop : ℕ
task_stop = 4

-- `-ECHILD` and `-EINTR`
abbrev pub no_child : ℤ
no_child = negsuc 9

abbrev pub interrupted : ℤ
interrupted = negsuc 3

-- `~SIG_CHLD` of 32 bits
abbrev pub not_sig_chld : ℕ
not_sig_chld = 0xfffeffff

-- What the call comes to: a result, with the status that it stores if it does, or the task sleeps.
pub data Waited : Type 0 where
  returned : ℤ → Option ℕ → Waited
  asleep : Waited

-- Whether a call for `pid` is for the task t.
abbrev pub wants : ℤ → Task → Bool
wants (pos zero) t = false
wants (pos (suc n)) t = t.pid == suc n
wants (negsuc zero) t = true
wants (negsuc (suc n)) t = false

-- Whether the task of slot p is a child of the task `me`, in slot `current`, that the call is for.
abbrev pub is_child : (current me : ℕ) → ℤ → (p : ℕ) → Option Task → Bool
is_child current me pid p none = false
is_child current me pid p (some t) = not (p == current) && (t.father_pid == me) && wants pid t

abbrev pub is_over : Option Task → Bool
is_over none = false
is_over (some t) = (t.state == task_zombine) || (t.state == task_stop)

-- What the loop sees: a child that is dead or stopped, in slot p; else whether there is a child.
pub data Seen : Type 0 where
  over : ℕ → Seen
  alive : Seen
  nobody : Seen

-- The loop over the slots from n down to 1; `flag` says that a living child has been seen.
unfoldable pub wait_scan : Sched → (me : ℕ) → ℤ → (n : ℕ) → (flag : Bool) → Seen
wait_scan s me pid zero flag = if flag then alive else nobody
wait_scan s me pid (suc i) flag =
    let rest = λ (f : Bool). wait_scan s me pid i f in
    if is_child s.current me pid (suc i) (slot s (suc i))
    then if is_over (slot s (suc i)) then over (suc i) else rest true
    else rest flag

abbrev pub add_time : (time : ℕ) → Task → Task
add_time time t = record t { time = (t.time + time) % 2 ^ 64 }

abbrev pub waiting : Task → Task
waiting t = record t { state = task_wait; in_queue = false }

unfoldable pub reap : Sched → (p : ℕ) → Run (Waited × Sched)
reap s p = elim (slot s p) [
  | none ↦ fault
  | some t ↦
      if t.state == task_zombine
      then (change s s.current (add_time t.time) >>= λ s1.
          release s1 (some p) >>= λ s2. ok (returned (pos t.pid) (some t.exit_code), s2))
      else ok (returned (pos t.pid) none, s)
]

unfoldable pub give_up : Sched → Run (Waited × Sched)
give_up s = change s s.current waiting >>= λ s1. schedule s1 >>= λ s2. ok (asleep, s2)

unfoldable pub wait_round : Sched → ℤ → Run (Waited × Sched)
wait_round s pid = elim (slot s s.current) [
  | none ↦ fault
  | some me ↦ elim (wait_scan s me.pid pid 63 false) [
    | over p ↦ reap s p
    | alive ↦ give_up s
    | nobody ↦ ok (returned no_child none, s)
  ]
]

abbrev pub told : Task → Task
told t = record t { signal = bit_and t.signal not_sig_chld }

unfoldable pub wait_resume : Sched → ℤ → Run (Waited × Sched)
wait_resume s pid = elim (slot s s.current) [
  | none ↦ fault
  | some t ↦ change s s.current told >>= λ s1.
      if bit_and t.signal not_sig_chld == 0
      then wait_round s1 pid
      else ok (returned interrupted none, s1)
]
