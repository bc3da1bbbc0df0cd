-- ===== src/Tasks/Queue/Valid.antt =====
-- What holds of the table of tasks and the ready queues between two calls.
use os.Util.{
  ℕ, ◌≡◌, Bool, true, false, not, ◌&&◌, ◌||◌, Option, none, some, [], ltb, ◌==◌, if◌then◌else◌,
  length, get_or,
}
use os.Tasks.{Task, Sched, slot, is_none}
use os.Tasks.Queue.{is_runnable}
use os.Tasks.Queue.Links.{count, Tailed}

-- A task that is not gone has the number of a queue for its order, and a queued one can run.
abbrev pub fits : Option Task → Bool
fits none = true
fits (some t) = (ltb t.order 5 || ltb 2 t.state) && (not t.in_queue || is_runnable t)

abbrev pub is_queued : Option Task → Bool
is_queued none = false
is_queued (some t) = t.in_queue

-- How many nodes of queue o the task must have.
abbrev pub place : Option Task → ℕ → ℕ
place none o = 0
place (some t) o = if t.in_queue && (t.order == o) then 1 else 0

-- The table and the queues agree; the task of slot 0 is in no queue.
pub record IsSound (s : Sched) : Type 0 where
  pub slots : length s.task ≡ 64
  pub heads : length s.head ≡ 5
  pub tails : length s.tail ≡ 5
  pub fit : (p : ℕ) → fits (slot s p) ≡ true
  pub linked : (o : ℕ) → Tailed (get_or s.head o []) (get_or s.tail o none) s.fresh
  pub once : (o p : ℕ) → count (get_or s.head o []) p ≡ place (slot s p) o
  pub idle : (is_none (slot s 0) ≡ false) × (is_queued (slot s 0) ≡ false)

-- Also the task that runs is in no queue.
pub record IsValid (s : Sched) : Type 0 where
  pub sound : IsSound s
  pub running : (is_none (slot s s.current) ≡ false) × (is_queued (slot s s.current) ≡ false)
