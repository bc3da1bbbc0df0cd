-- ===== src/Tasks/Fork.antt =====
-- `sys_fork` of kernel/sys.c and `copy_process` of kernel/sched/fork.c. The stacks of the tasks are
-- one array of bytes, at the address `base`; `malloc` gives the address of the new task, or none.
pub mod Child
use os.Util.{
  ℕ, zero, suc, ◌+◌, ◌-◌, ◌*◌, ◌%◌, ◌^◌, Bool, false, Option, none, some, List, Run, ok, panic,
  fault, ◌>>=◌, leb, if◌then◌else◌, get_or, set,
}
use os.Tasks.{Task, Reg, Sched, slot, find_new_id, max_task, task_ready}

abbrev pub stack_size : ℕ
stack_size = 4096

-- `&task_stack[pcb_id][STACK_SIZE - 1]`
abbrev pub stack_top : (base pcb_id : ℕ) → ℕ
stack_top base pcb_id = base + pcb_id * stack_size + (stack_size - 1)

-- The loop of `copy_memory`, with n bytes left below it.
unfoldable pub copy_bytes : List ℕ → (from to n : ℕ) → List ℕ
copy_bytes stacks from to zero = stacks
copy_bytes stacks from to (suc i) =
    copy_bytes (set stacks (to + i) (get_or stacks (from + i) 0)) from to i

unfoldable pub copy_memory : List ℕ → (old new : ℕ) → List ℕ
copy_memory stacks old new = copy_bytes stacks (old * stack_size) (new * stack_size) stack_size

-- Subtraction of `reg64_t`.
abbrev pub sub_64 : ℕ → ℕ → ℕ
sub_64 a b = (a % 2 ^ 64 + (2 ^ 64 - b % 2 ^ 64)) % 2 ^ 64

-- Where an address of the old stack is in the new one.
abbrev pub in_new_stack : (base old new a : ℕ) → ℕ
in_new_stack base old new a = sub_64 (stack_top base new) (sub_64 (stack_top base old) a)

abbrev pub child_context : (base old new p : ℕ) → Reg → Reg
child_context base old new p r = record r {
  sp = in_new_stack base old new r.sp;
  gp = p;
  s0 = in_new_stack base old new r.s0;
  a0 = 0;
  epc = (r.epc + 4) % 2 ^ 64;
  temp = 0;
}

abbrev pub child_of : (base p : ℕ) → Sched → Task → Task
child_of base p s t = record {
  pid = s.new_pid;
  father_pid = t.pid;
  pcb_id = s.new_pcbid;
  state = task_ready;
  start_time = s.jiffies;
  time = 0;
  priority = t.priority;
  counter = t.priority;
  in_queue = false;
  order = 0;
  signal = 0;
  sigaction = t.sigaction;
  exit_code = 0;
  cwd = t.cwd;
  ofile = t.ofile;
  context = child_context base t.pcb_id s.new_pcbid p t.context;
}

unfoldable pub copy_process :
    (base : ℕ) → (malloc : Option ℕ) → Sched → List ℕ → Run (ℕ × Sched × List ℕ)
copy_process base none s stacks = panic
copy_process base (some p) s stacks = elim (slot s s.current) [
  | none ↦ fault
  | some t ↦ ok (
    s.new_pid,
    record s { task = set s.task s.new_pcbid (some (child_of base p s t)) },
    copy_memory stacks t.pcb_id s.new_pcbid,
  )
]

unfoldable pub sys_fork :
    (base : ℕ) → (malloc : Option ℕ) → Sched → List ℕ → Run (ℕ × Sched × List ℕ)
sys_fork base malloc s stacks = find_new_id s >>= λ found.
    if leb max_task found.0 then panic else copy_process base malloc found.1 stacks
