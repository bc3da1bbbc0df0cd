-- ===== src/Tasks/Queue.antt =====
-- The ready queues of kernel/sched/sched.c: `set_Queue`, `schedule` and `sleep`. Memory for a node
-- is always found. `switch_to`, which changes the registers of the processor, is not part of it: the
-- code after a call of `schedule` runs when the task is current again.
pub mod Links
pub mod Valid
pub mod Settle
pub mod First
pub mod Pick
pub mod Moves
pub mod Progress
use os.Util.{
  ℕ, zero, suc, ◌+◌, ◌*◌, Bool, true, false, not, ◌&&◌, ◌||◌, Option, none, some, List, [], ◌∷◌,
  Run, ok, panic, fault, ◌>>=◌, ◌==◌, ltb, leb, if◌then◌else◌, get_or, set, bit_or,
}
use os.Tasks.{Task, Node, Sched, slot, change, alter_state, task_ready, task_wait, sig_stop}

abbrev pub task_running : ℕ
task_running = 0

-- An `int8_t` is a `char`, without a sign on this machine, so the test `order < 0` never holds.
abbrev pub is_runnable : Task → Bool
is_runnable t = (t.state == task_ready) || (t.state == task_running)

abbrev pub next_order : Task → ℕ
next_order t = if ltb t.order 4 && (t.state == task_running) then t.order + 1 else t.order

-- `tail->next = new`, where the tail has the address a; it is not in the queue in the case `none`.
unfoldable pub link_after : List Node → (a : ℕ) → Node → Option (List Node)
link_after [] a new = none
link_after (n ∷ ns) a new =
    let rest = link_after ns a new in
    if n.addr == a then some (n ∷ new ∷ []) else elim rest [ none ↦ none | some r ↦ some (n ∷ r) ]

-- The new last node of queue `order`; an order past the last queue is out of the array's bounds.
unfoldable pub link : Sched → (order pid p : ℕ) → Run Sched
link s order pid p =
    let new : Node = record { addr = s.fresh; pid = pid; task = p } in
    let linked = λ (q : List Node). ok (record s {
      head = set s.head order q;
      tail = set s.tail order (some s.fresh);
      fresh = s.fresh + 1;
    }) in
    if leb 5 order then fault else elim (get_or s.head order []) [
      | [] ↦ linked (new ∷ [])
      | n ∷ ns ↦ elim (get_or s.tail order none) [
        | none ↦ fault
        | some a ↦ elim (link_after (n ∷ ns) a new) [ none ↦ fault | some q ↦ linked q ]
      ]
    ]

abbrev pub ready_in : ℕ → Task → Task
ready_in order t = record t {
  state = task_ready;
  in_queue = true;
  order = order;
  counter = 2 + 6 * order;
}

unfoldable pub enqueue : Sched → (p : ℕ) → Task → Run Sched
enqueue s p t = link s (next_order t) t.pid p >>= λ s1. change s1 p (ready_in (next_order t))

-- The loop of the removal: the address of the node before the one of `pid`, if there is one, the
-- node's own, and the queue without it.
unfoldable pub unlink_node :
    List Node → (pid : ℕ) → (last : Option ℕ) → Option (Option ℕ × ℕ × List Node)
unlink_node [] pid last = none
unlink_node (n ∷ ns) pid last =
    let rest = unlink_node ns pid (some n.addr) in
    if n.pid == pid
    then some (last, n.addr, ns)
    else elim rest [ none ↦ none | some (before, a, r) ↦ some (before, a, n ∷ r) ]

abbrev pub is_tail : Option ℕ → ℕ → Bool
is_tail none a = false
is_tail (some b) a = b == a

-- The tail that is compared and set is that of the number of the slot, not of the order.
unfoldable pub dequeue : Sched → (p : ℕ) → Task → Run Sched
dequeue s p t = if leb 5 t.order then fault else elim (get_or s.head t.order []) [
  | [] ↦ fault
  | n ∷ ns ↦ elim (unlink_node (n ∷ ns) t.pid none) [
    | none ↦ panic
    | some (last, a, q) ↦
        if leb 5 p
        then fault
        else ok (record s {
          head = set s.head t.order q;
          tail = if is_tail (get_or s.tail p none) a then set s.tail p last else s.tail;
        })
  ]
]

-- What `set_Queue` does with the task of slot p.
unfoldable pub set_queue_task : Sched → (p : ℕ) → Run Sched
set_queue_task s p = elim (slot s p) [
  | none ↦ ok s
  | some t ↦
      if t.in_queue
      then if is_runnable t then ok s else dequeue s p t
      else if is_runnable t
      then enqueue s p t
      else ok s
]

-- The loop of `set_Queue` over the slots from n down to 1.
unfoldable pub set_queue : Sched → (n : ℕ) → Run Sched
set_queue s zero = ok s
set_queue s (suc i) = set_queue_task s (suc i) >>= λ s1. set_queue s1 i

-- The first node of the first queue that has one, of the `count` queues from i on, and the queues
-- without it.
unfoldable pub first_queue : List (List Node) → (count i : ℕ) → Option (Node × List (List Node))
first_queue head zero i = none
first_queue head (suc count) i =
    let later = first_queue head count (i + 1) in
    elim (get_or head i []) [ [] ↦ later | n ∷ ns ↦ some (n, set head i ns) ]

abbrev pub run_task : Task → Task
run_task t = record t { in_queue = false; state = task_running }

unfoldable pub pick_next : Sched → Run Sched
pick_next s = elim (first_queue s.head 5 0) [
  | none ↦ ok (record s { current = 0 })
  | some (q, head) ↦ change (record s { head = head }) q.task run_task >>= λ s1.
      ok (record s1 { current = q.task })
]

unfoldable pub schedule : Sched → Run Sched
schedule s = set_queue (alter_state s) 63 >>= pick_next

abbrev pub sleeping : Task → Task
sleeping t = record t { state = task_wait; signal = bit_or t.signal sig_stop }

unfoldable pub sleep : Sched → Run Sched
sleep s = change s s.current sleeping >>= schedule
