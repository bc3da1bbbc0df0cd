-- ===== src/Tasks/Timer.antt =====
-- The timer tick of timer/timer.c. A timer's function is a step of the scheduler's state; the
-- calls that set the next tick are not part of it.
pub mod Slice
use os.Util.{
  ℕ, ◌+◌, ◌-◌, ◌%◌, ◌^◌, Bool, not, ◌&&◌, ◌||◌, Option, none, some, List, [], ◌∷◌, Run, ok, fault,
  ◌>>=◌, ◌==◌, ltb, leb, if◌then◌else◌,
}
use os.Tasks.{Task, Sched, slot, change}
use os.Tasks.Queue.{is_runnable, schedule}

-- When it was set, how long it waits, and its function, which may be NULL.
pub record TimerList : Type 0 where
  pub set_at : ℕ
  pub delay : ℕ
  pub fn : Option (Sched → Run Sched)

unfoldable pub timer_selfadd : Sched → Sched
timer_selfadd s = record s { jiffies = (s.jiffies + 1) % 2 ^ 64 }

-- The loop of `do_timer`: the functions of the timers that are due.
unfoldable pub run_timers : List TimerList → Sched → Run Sched
run_timers [] s = ok s
run_timers (p ∷ ps) s = elim p.fn [
  | none ↦ run_timers ps s
  | some fn ↦
      (if leb ((p.set_at + p.delay) % 2 ^ 64) s.jiffies then fn s else ok s) >>= run_timers ps
]

abbrev pub tick_time : Task → Task
tick_time t = record t { time = (t.time + 1) % 2 ^ 64 }

-- `counter` is an `int16_t`.
abbrev pub count_down : Task → Task
count_down t = record t { counter = (t.counter + (2 ^ 16 - 1)) % 2 ^ 16 }

abbrev pub is_positive_16 : ℕ → Bool
is_positive_16 c = ltb 0 c && ltb c (2 ^ 15)

-- The rest of `do_timer`: the task goes on, with a tick less, or another one is chosen.
unfoldable pub go_on_or_schedule : (runnable : Bool) → (counter : ℕ) → Sched → Run Sched
go_on_or_schedule runnable counter s =
    if is_positive_16 counter && runnable then ok (timer_selfadd s) else schedule s

unfoldable pub charge : Sched → Run Sched
charge s = elim (slot s s.current) [
  | none ↦ fault
  | some t ↦
      if t.pid == 0
      then schedule s
      else change s s.current count_down
        >>= go_on_or_schedule (is_runnable t) (count_down t).counter
]

-- The code of `do_timer` after the loop.
unfoldable pub tick : Sched → Run Sched
tick s = change s s.current tick_time >>= charge

unfoldable pub do_timer : List TimerList → Sched → Run Sched
do_timer timers s = run_timers timers s >>= tick

unfoldable pub timer_interrupt_handler : List TimerList → Sched → Run Sched
timer_interrupt_handler timers s = do_timer timers (timer_selfadd s)
