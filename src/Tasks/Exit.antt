-- ===== src/Tasks/Exit.antt =====
-- `do_exit` of kernel/sched/exit.c. The error code is not kept by the code: `exit_code` stays as it was.
pub mod Adopt
pub mod Leave
use os.Util.{
  ℕ, zero, suc, ◌+◌, Option, none, some, Run, ok, panic, fault, ◌>>=◌, ◌==◌, if◌then◌else◌, Bool,
  false,
}
use os.Tasks.{Task, Sched, slot, change, tell_father}
use os.Tasks.Queue.{schedule}

abbrev pub task_zombine : ℕ
task_zombine = 3

abbrev pub to_init : Task → Task
to_init t = record t { father_pid = 1 }

-- A child of the task `me` becomes a child of task 1, which is told of one that is dead already.
unfoldable pub adopt : Sched → (me p : ℕ) → Run Sched
adopt s me p = elim (slot s p) [
  | none ↦ ok s
  | some t ↦
      if t.father_pid == me
      then (change s p to_init >>= λ s1.
          if t.state == task_zombine then tell_father s1 1 else ok s1)
      else ok s
]

-- The loop over the slots from n down to 1.
unfoldable pub adopt_all : Sched → (me n : ℕ) → Run Sched
adopt_all s me zero = ok s
adopt_all s me (suc i) = adopt s me (suc i) >>= λ s1. adopt_all s1 me i

-- `order = -1` is 255 in a `char` without a sign.
abbrev pub exited : Task → Task
exited t = record t { state = task_zombine; counter = 0; in_queue = false; order = 255 }

abbrev pub father_of : Option Task → ℕ
father_of none = 0
father_of (some t) = t.father_pid

-- What `do_exit` does after the loop.
unfoldable pub leave : Sched → Run Sched
leave s =
    change s s.current exited >>= λ s1. tell_father s1 (father_of (slot s1 s1.current)) >>= schedule

unfoldable pub do_exit : Sched → Run Sched
do_exit s = elim (slot s s.current) [
  | none ↦ fault
  | some t ↦ if t.pid == 0 then panic else adopt_all s t.pid 63 >>= leave
]
