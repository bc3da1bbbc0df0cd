-- ===== src/Tasks/Tests.antt =====
-- A table of tasks, and the theorems at it.
use os.Util.{ℕ, false, Option, none, some, [], ◌∷◌, ◌++◌, replicate}
use os.Tasks.{Task, Reg, Sched}

abbrev no_registers : Reg
no_registers = record {
  ra = 0;
  sp = 0;
  gp = 0;
  tp = 0;
  t0 = 0;
  t1 = 0;
  t2 = 0;
  s0 = 0;
  s1 = 0;
  a0 = 0;
  a1 = 0;
  a2 = 0;
  a3 = 0;
  a4 = 0;
  a5 = 0;
  a6 = 0;
  a7 = 0;
  s2 = 0;
  s3 = 0;
  s4 = 0;
  s5 = 0;
  s6 = 0;
  s7 = 0;
  s8 = 0;
  s9 = 0;
  s10 = 0;
  s11 = 0;
  t3 = 0;
  t4 = 0;
  t5 = 0;
  t6 = 0;
  epc = 0;
  temp = 0;
}

abbrev task_of : ℕ → Option Task
task_of pid = some (record {
  pid = pid;
  father_pid = 0;
  pcb_id = pid;
  state = 2;
  start_time = 0;
  time = 0;
  priority = 1;
  counter = 1;
  in_queue = false;
  order = 0;
  signal = 0x10000;
  sigaction = [];
  exit_code = 0;
  cwd = 0;
  ofile = [];
  context = no_registers;
})

-- tasks in slots 0 to 2
abbrev three : Sched
three = record {
  task = (task_of 0 ∷ task_of 1 ∷ task_of 2 ∷ []) ++ replicate 61 none;
  current = 1;
  new_pid = 2;
  new_pcbid = 2;
  head = replicate 5 [];
  tail = replicate 5 none;
  fresh = 1;
  jiffies = 0;
}
