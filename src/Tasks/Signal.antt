-- ===== src/Tasks/Signal.antt =====
-- The delivery of a signal: kernel/system_call.c and `do_signal` of kernel/signal.c. The handlers are
-- addresses, with SIG_DFL 0 and SIG_IGN 1; an index outside the 32 actions is a fault.
use os.Util.{
  ℕ, zero, suc, ◌+◌, ◌-◌, ◌/◌, ◌%◌, ◌^◌, none, some, Run, ok, fault, ◌>>=◌, ◌==◌, if◌then◌else◌,
  get_elem?, set, bit_and,
}
use os.Tasks.{Task, Sigaction, Sched, slot, change}
use os.Tasks.Exit.{do_exit}

abbrev pub sigchld : ℕ
sigchld = 17

abbrev pub sa_oneshot : ℕ
sa_oneshot = 0x80000000

abbrev pub forget_handler : ℕ → Sigaction → Task → Task
forget_handler i a t = record t { sigaction = set t.sigaction i (record a { sa_handler = 0 }) }

-- After `do_exit` the task does not run again.
unfoldable pub do_signal : Sched → (signr : ℕ) → Run Sched
do_signal s zero = fault
do_signal s (suc i) = elim (slot s s.current) [
  | none ↦ fault
  | some t ↦ elim (get_elem? t.sigaction i) [
    | none ↦ fault
    | some a ↦
        if a.sa_handler == 0
        then ok s
        else if a.sa_handler == 1
        then if suc i == sigchld then ok s else do_exit s
        else if bit_and a.sa_flags sa_oneshot == 0
        then ok s
        else change s s.current (forget_handler i a)
  ]
]

-- The loop of `ret_from_syscall` with `count` numbers left from i on: the number of the lowest bit of
-- the signals that is set, and 23 if none of 1 to 22 is.
unfoldable pub lowest : (signal count i : ℕ) → ℕ
lowest signal zero i = i
lowest signal (suc count) i =
    let later = lowest signal count (i + 1) in if signal / 2 ^ (i - 1) % 2 == 1 then i else later

-- The signals without that of number i, which is set.
abbrev pub take_signal : ℕ → Task → Task
take_signal i t = record t { signal = if i == 23 then t.signal else t.signal - 2 ^ (i - 1) }

unfoldable pub ret_from_syscall : Sched → Run Sched
ret_from_syscall s = elim (slot s s.current) [
  | none ↦ fault
  | some t ↦
      if t.signal == 0
      then do_signal s 0
      else change s s.current (take_signal (lowest t.signal 22 1)) >>= λ s1.
          do_signal s1 (lowest t.signal 22 1)
]
