-- ===== src/Tasks/Start.antt =====
-- The state in which the kernel starts: the initial values of kernel/sched/sched.c, `INIT_TASK` of
-- include/sched.h, and `Init_sched`.
use os.Util.{
  ℕ, zero, suc, ◌+◌, ◌≡◌, refl, sym, ap, ◌∙◌, arith, length, true, false, Option, none, some, List,
  [], ◌∷◌, set, get_or, replicate, get_or-replicate,
}
use mathlib.Core.Path.{subst}
use os.Tasks.{Task, Reg, Sched, slot, task_ready}
use os.Tasks.Queue.Links.{count, Tailed}
use os.Tasks.Queue.Valid.{fits, place, IsSound, IsValid}

-- The registers of the initial task: the braces of `INIT_TASK` for them stand where `_ofile[1]` is
-- due, since `_ofile` has no braces, so that they are left zero.
abbrev pub init_context : Reg
init_context = record {
  ra = 0;
  sp = 0;
  gp = 0;
  tp = 0;
  t0 = 0;
  t1 = 0;
  t2 = 0;
  s0 = 0;
  s1 = 0;
  a0 = 0;
  a1 = 0;
  a2 = 0;
  a3 = 0;
  a4 = 0;
  a5 = 0;
  a6 = 0;
  a7 = 0;
  s2 = 0;
  s3 = 0;
  s4 = 0;
  s5 = 0;
  s6 = 0;
  s7 = 0;
  s8 = 0;
  s9 = 0;
  s10 = 0;
  s11 = 0;
  t3 = 0;
  t4 = 0;
  t5 = 0;
  t6 = 0;
  epc = 0;
  temp = 0;
}

abbrev pub init_task : Task
init_task = record {
  pid = 0;
  father_pid = 0;
  pcb_id = 0;
  state = task_ready;
  start_time = 0;
  time = 0;
  priority = 1;
  counter = 1;
  in_queue = false;
  order = 0;
  signal = 0;
  sigaction = replicate 32 (record { sa_handler = 0; sa_mask = 0; sa_flags = 0 });
  exit_code = 0;
  cwd = 0;
  ofile = replicate 128 0;
  context = init_context;
}

-- The static data of the scheduler.
abbrev pub boot : Sched
boot = record {
  task = some init_task ∷ replicate 63 none;
  current = 0;
  new_pid = 0;
  new_pcbid = 0;
  head = replicate 5 [];
  tail = replicate 5 none;
  fresh = 1;
  jiffies = 0;
}

-- The loop of `Init_sched`, with n slots left from i on.
unfoldable pub clear_tasks : List (Option Task) → (n i : ℕ) → List (Option Task)
clear_tasks task zero i = task
clear_tasks task (suc n) i = clear_tasks (set task i none) n (i + 1)

unfoldable pub init_sched : Sched → Sched
init_sched s = record s { task = clear_tasks s.task 63 1 }

clear_tasks-behind :
    (t : Option Task) (others : List (Option Task)) (n i : ℕ)
    → clear_tasks (t ∷ others) n (suc i) ≡ t ∷ clear_tasks others n i
unfolding clear_tasks
clear_tasks-behind t others zero i = refl
clear_tasks-behind t others (suc n) i =
    let next : suc i + 1 ≡ suc (i + 1) = omega arith in
    ap (λ (k : ℕ). clear_tasks (t ∷ set others i none) n k) next
    ∙ clear_tasks-behind t (set others i none) n (i + 1)

clear_tasks_lem :
    (others : List (Option Task)) (n : ℕ)
    → length others ≡ n
    → clear_tasks others n 0 ≡ replicate n none
unfolding clear_tasks
clear_tasks_lem [] zero len = refl
clear_tasks_lem [] (suc n) len = absurd (omega (arith, len))
clear_tasks_lem (o ∷ others) zero len = absurd (omega (arith, len))
clear_tasks_lem (o ∷ others) (suc n) len =
    clear_tasks-behind none others n 0
    ∙ ap (λ l. none ∷ l) (clear_tasks_lem others n (omega (arith, len)))

pub boot-IsValid : IsValid boot
unfolding count Tailed
boot-IsValid = record { sound = sound; running = (refl, refl) }
  where
    s : Sched
    s = boot

    fit : (p : ℕ) → fits (slot s p) ≡ true
    fit zero = refl
    fit (suc p) = rw (get_or-replicate {A = Option Task} 63 none p) refl

    unplaced : (o p : ℕ) → 0 ≡ place (slot s p) o
    unplaced o zero = refl
    unplaced o (suc p) = rw (get_or-replicate {A = Option Task} 63 none p) refl

    no_node : (o : ℕ) → get_or s.head o [] ≡ []
    no_node o = get_or-replicate 5 [] o

    sound : IsSound s
    sound = record {
      slots = refl;
      heads = refl;
      tails = refl;
      fit = fit;
      linked = λ o. rw (no_node o) tt;
      once = λ o p. rw (no_node o) (unplaced o p);
      idle = (refl, refl);
    }

-- Whatever the other 63 slots of the table hold, `Init_sched` with the initial task in slot 0 and the
-- queues empty leaves the scheduler in a valid state: the one with no other task.
pub init_sched-IsValid :
    (others : List (Option Task))
    → length others ≡ 63
    → let s = init_sched (record boot { task = some init_task ∷ others }) in
      (s.task ≡ some init_task ∷ replicate 63 none) × IsValid s
unfolding init_sched
init_sched-IsValid others len =
    let cleared : clear_tasks (some init_task ∷ others) 63 1 ≡ some init_task ∷ replicate 63 none =
      clear_tasks-behind (some init_task) others 63 0
      ∙ ap (λ l. some init_task ∷ l) (clear_tasks_lem others 63 len) in
    (cleared, subst IsValid (ap (λ l. record boot { task = l }) (sym cleared)) boot-IsValid)
