-- ===== src/Tasks/Timer/Slice.antt =====
-- How long a task keeps the processor.
use os.Util.{
  ℕ, zero, suc, ◌+◌, ◌-◌, ◌*◌, ◌%◌, ◌^◌, ◌≤◌, ◌<◌, ◌≡◌, refl, sym, ap, ◌∙◌, arith, true, false,
  Bool, none, some, List, [], ◌∷◌, ltb, leb, ◌&&◌, if◌then◌else◌, Run, ok, panic, fault,
  out_of_fuel, ◌>>=◌, ◌==◌, set, set-get_or, set-set, get_or-set_self,
}
use os.Tasks.{Task, Sched, slot, change}
use os.Tasks.Queue.{is_runnable, schedule}
use os.Tasks.Queue.Settle.{slot_inside}
use os.Tasks.Timer.{
  TimerList, timer_selfadd, run_timers, tick, charge, go_on_or_schedule, tick_time, count_down,
  is_positive_16, do_timer, timer_interrupt_handler,
}

unfoldable pub ticks : List TimerList → ℕ → Sched → Run Sched
ticks timers zero s = ok s
ticks timers (suc k) s = timer_interrupt_handler timers s >>= ticks timers k

-- Whether all timers are due later than at b.
abbrev pub all_wait : List TimerList → ℕ → Bool
all_wait [] b = true
all_wait (p ∷ ps) b = ltb b ((p.set_at + p.delay) % 2 ^ 64) && all_wait ps b

-- They do not run before.
run_timers-wait :
    (timers : List TimerList) (b : ℕ) (s : Sched)
    → all_wait timers b ≡ true
    → s.jiffies ≤ b
    → run_timers timers s ≡ ok s
unfolding run_timers
run_timers-wait [] b s waits le = refl
run_timers-wait (p ∷ ps) b s waits le =
    let rest = run_timers-wait ps b s (ground (arith, waits)) le in
    let later : leb ((p.set_at + p.delay) % 2 ^ 64) s.jiffies ≡ false = ground (arith, waits) in
    elim p.fn
      as (λ fn.
        elim fn [
          | none ↦ run_timers ps s
          | some fn ↦
              (if leb ((p.set_at + p.delay) % 2 ^ 64) s.jiffies then fn s else ok s)
              >>= run_timers ps
        ]
        ≡ ok s) [
          | none ↦ rest
          | some fn ↦ ap (λ c. (if c then fn s else ok s) >>= run_timers ps) later ∙ rest
        ]

-- The task, and the state, `k` ticks later.
abbrev pub older : ℕ → Task → Task
older k t = record t { time = (t.time + k) % 2 ^ 64; counter = t.counter - k }

abbrev pub later : (k jumps : ℕ) → Sched → Task → Sched
later k jumps s t = record s {
  task = set s.task s.current (some (older k t));
  jiffies = (s.jiffies + jumps) % 2 ^ 64;
}

change_lem :
    (s : Sched) (p : ℕ) (f : Task → Task) (t : Task)
    → slot s p ≡ some t
    → change s p f ≡ ok (record s { task = set s.task p (some (f t)) })
unfolding change
change_lem s p f t at = rw (at, change) refl

charge_lem :
    (s : Sched) (t : Task)
    → slot s s.current ≡ some t
    → (t.pid == 0) ≡ false
    → charge s
      ≡ go_on_or_schedule
          (is_runnable t)
          (count_down t).counter
          (record s { task = set s.task s.current (some (count_down t)) })
unfolding charge
charge_lem s t at named =
    rw (at, named, charge)
      (ap (λ r. r >>= go_on_or_schedule (is_runnable t) (count_down t).counter)
        (change_lem s s.current count_down t at))

-- A tick, up to the choice whether the task goes on.
tick_lem :
    (timers : List TimerList) (b : ℕ) (s : Sched) (t : Task)
    → all_wait timers b ≡ true
    → s.jiffies + 1 ≤ b
    → slot s s.current ≡ some t
    → (t.pid == 0) ≡ false
    → 1 ≤ t.counter
    → t.counter < 2 ^ 15
    → timer_interrupt_handler timers s
      ≡ go_on_or_schedule (is_runnable t) (t.counter - 1) (later 1 1 s t)
unfolding timer_interrupt_handler do_timer tick timer_selfadd
tick_lem timers b s t waits early at named more fits =
    let s' : Sched = timer_selfadd s in
    let s1 : Sched = record s' { task = set s.task s.current (some (tick_time t)) } in
    let self =
      get_or-set_self s.task s.current (some (tick_time t)) none
        (slot_inside s.task s.current at) in
    let counted : (count_down t).counter ≡ t.counter - 1 = omega arith in
    ap (λ r. r >>= tick) (run_timers-wait timers b s' waits (omega arith))
    ∙ ap (λ r. r >>= charge) (change_lem s' s.current tick_time t at)
    ∙ charge_lem s1 (tick_time t) self named
    ∙ ap
        (λ c. go_on_or_schedule (is_runnable t) c (record s1 {
          task =
              set s1.task s.current (some (record t { time = (t.time + 1) % 2 ^ 64; counter = c }));
        }))
        counted
    ∙ ap (λ l. go_on_or_schedule (is_runnable t) (t.counter - 1) (record s' { task = l }))
        (set-set s.task s.current (some (tick_time t)) (some (older 1 t)))

-- A tick that leaves the task some of its time, and the last one.
tick-kept :
    (timers : List TimerList) (b : ℕ) (s : Sched) (t : Task)
    → all_wait timers b ≡ true
    → s.jiffies + 1 ≤ b
    → slot s s.current ≡ some t
    → (t.pid == 0) ≡ false
    → is_runnable t ≡ true
    → 2 ≤ t.counter
    → t.counter < 2 ^ 15
    → timer_interrupt_handler timers s ≡ ok (later 1 2 s t)
unfolding go_on_or_schedule timer_selfadd
tick-kept timers b s t waits early at named runs more fits =
    let positive : is_positive_16 (t.counter - 1) ≡ true = ground arith in
    let jumps : ((s.jiffies + 1) % 2 ^ 64 + 1) % 2 ^ 64 ≡ (s.jiffies + 2) % 2 ^ 64 = omega arith in
    tick_lem timers b s t waits early at named (omega arith) fits
    ∙ rw (runs, positive, go_on_or_schedule)
        (ap
          (λ (j : ℕ). ok (record s { task = set s.task s.current (some (older 1 t)); jiffies = j }))
          jumps)

tick-last :
    (timers : List TimerList) (b : ℕ) (s : Sched) (t : Task)
    → all_wait timers b ≡ true
    → s.jiffies + 1 ≤ b
    → slot s s.current ≡ some t
    → (t.pid == 0) ≡ false
    → t.counter ≡ 1
    → timer_interrupt_handler timers s ≡ schedule (later 1 1 s t)
unfolding go_on_or_schedule
tick-last timers b s t waits early at named one =
    let spent : is_positive_16 (t.counter - 1) ≡ false = ground (arith, one) in
    tick_lem timers b s t waits early at named (omega (arith, one)) (omega (arith, one))
    ∙ rw (spent, go_on_or_schedule) refl

-- Times add up.
later-later :
    (k jumps : ℕ) (s : Sched) (t : Task)
    → later k jumps (later 1 2 s t) (older 1 t) ≡ later (suc k) (jumps + 2) s t
later-later k jumps s t =
    let time : ((t.time + 1) % 2 ^ 64 + k) % 2 ^ 64 ≡ (t.time + suc k) % 2 ^ 64 = omega arith in
    let counter : t.counter - 1 - k ≡ t.counter - suc k = omega arith in
    let jiffies : ((s.jiffies + 2) % 2 ^ 64 + jumps) % 2 ^ 64 ≡ (s.jiffies + (jumps + 2)) % 2 ^ 64 =
      omega arith in
    ap
      (λ (j : ℕ). record s {
        task = set (set s.task s.current (some (older 1 t))) s.current (some (older k (older 1 t)));
        jiffies = j;
      })
      jiffies
    ∙ ap (λ l. record s { task = l; jiffies = (s.jiffies + (jumps + 2)) % 2 ^ 64 })
        (set-set s.task s.current (some (older 1 t)) (some (older k (older 1 t))))
    ∙ ap
        (λ u. record s {
          task = set s.task s.current (some u);
          jiffies = (s.jiffies + (jumps + 2)) % 2 ^ 64;
        })
        (ap (λ (m : ℕ). record t { time = m; counter = t.counter - 1 - k }) time
          ∙ ap (λ (c : ℕ). record t { time = (t.time + suc k) % 2 ^ 64; counter = c }) counter)

later-none :
    (s : Sched) (t : Task)
    → slot s s.current ≡ some t
    → t.time < 2 ^ 64
    → s.jiffies < 2 ^ 64
    → later 0 0 s t ≡ s
later-none s t at time jiffies =
    let same : (s.jiffies + 0) % 2 ^ 64 ≡ s.jiffies = omega arith in
    let untouched : t.counter - 0 ≡ t.counter = omega arith in
    let same' : (t.time + 0) % 2 ^ 64 ≡ t.time = omega arith in
    ap (λ (j : ℕ). record s { task = set s.task s.current (some (older 0 t)); jiffies = j }) same
    ∙ ap
        (λ (m : ℕ). record s {
          task = set s.task s.current (some (record t { time = m; counter = t.counter - 0 }));
        })
        same'
    ∙ ap (λ (c : ℕ). record s { task = set s.task s.current (some (record t { counter = c })) })
        untouched
    ∙ ap (λ o. record s { task = set s.task s.current o }) (sym at)
    ∙ ap (λ l. record s { task = l }) (set-get_or s.task s.current none)

>>=-ok {ℓ} : {A : Type ℓ} (r : Run A) → (r >>= ok) ≡ r
>>=-ok (ok x) = refl
>>=-ok panic = refl
>>=-ok fault = refl
>>=-ok out_of_fuel = refl

-- A task that can run, whose process number is not 0, with a counter from 1 to 2 ^ 15 - 1, keeps the
-- processor for as many ticks as its counter says, if its time fits 64 bits and all timers are due
-- later than at b, a time of 64 bits that the two jiffies of each of these ticks do not pass: after all
-- of them but one it is still current, with its time and counter brought up to date; the last one calls
-- `schedule`. Each tick counts as two jiffies, the last as one.
pub time_slice :
    (timers : List TimerList) (b c : ℕ) (s : Sched) (t : Task)
    → all_wait timers b ≡ true
    → s.jiffies + 2 * suc c ≤ b
    → b < 2 ^ 64
    → slot s s.current ≡ some t
    → (t.pid == 0) ≡ false
    → is_runnable t ≡ true
    → t.counter ≡ suc c
    → suc c < 2 ^ 15
    → t.time < 2 ^ 64
    → (ticks timers c s ≡ ok (later c (2 * c) s t))
      × (ticks timers (suc c) s ≡ schedule (later (suc c) (2 * c + 1) s t))
unfolding ticks
time_slice timers b zero s t waits early fit at named runs counted fits time = (
  ap ok (sym (later-none s t at time (omega arith))),
  ap (λ r. r >>= ticks timers 0) (tick-last timers b s t waits (omega arith) at named counted)
      ∙ >>=-ok (schedule (later 1 1 s t)),
)
time_slice timers b (suc c) s t waits early fit at named runs counted fits time =
    let t1 = older 1 t in
    let s1 = later 1 2 s t in
    let at1 : slot s1 s1.current ≡ some t1 =
      get_or-set_self s.task s.current (some t1) none (slot_inside s.task s.current at) in
    let (e, e') =
      time_slice timers b c s1 t1 waits (omega arith) fit at1 named runs (omega (arith, counted))
        (omega arith) (omega arith) in
    let twice : 2 * c + 2 ≡ 2 * suc c = omega arith in
    let twice' : 2 * c + 1 + 2 ≡ 2 * suc c + 1 = omega arith in
    let first =
      tick-kept timers b s t waits (omega arith) at named runs (omega (arith, counted))
        (omega (arith, counted, fits)) in
    (
      rw first
          (e ∙ ap ok (later-later c (2 * c) s t) ∙ ap (λ (j : ℕ). ok (later (suc c) j s t)) twice),
      rw first (
          e'
          ∙ ap schedule (later-later (suc c) (2 * c + 1) s t)
          ∙ ap (λ (j : ℕ). schedule (later (suc (suc c)) j s t)) twice'),
    )
