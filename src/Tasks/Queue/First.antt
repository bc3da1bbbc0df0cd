-- ===== src/Tasks/Queue/First.antt =====
-- The change of each task that `alter_state` makes, and the first node of the first queue.
use os.Util.{
  ℕ, zero, suc, ◌+◌, ◌≤◌, ◌<◌, ◌≡◌, refl, sym, ap, ◌∙◌, arith, true, false, Bool-cases,
  Option-cases, inl, inr, ◌⊎◌, ◌==◌, ==_iff, Option, none, some, List, [], ◌∷◌, if◌then◌else◌,
  get_or, set, length, length-set, leb, ◌&&◌,
}
use mathlib.Core.Path.{subst}
use os.Tasks.{Task, Node, Sched, slot, map_task, each_task, alter_task, alter_state}
use os.Tasks.Wake.{each_task_lem}
use os.Tasks.Queue.{first_queue}
use os.Tasks.Queue.Links.{count}
use os.Tasks.Queue.Valid.{fits, place, IsSound}

pub length-each_task :
    (f : Task → Task) (task : List (Option Task)) (n : ℕ)
    → length (each_task f task n) ≡ length task
unfolding each_task
length-each_task f task zero = refl
length-each_task f task (suc i) = length-each_task f _ i ∙ length-set task (suc i) _

-- A change of each task that neither puts it into a queue nor takes it out keeps the invariant.
pub each_task-IsSound :
    (f : Task → Task) (s : Sched)
    → ((o : Option Task) → fits o ≡ true → fits (map_task f o) ≡ true)
    → ((o : Option Task) (i : ℕ) → place (map_task f o) i ≡ place o i)
    → IsSound s
    → IsSound (record s { task = each_task f s.task 63 })
each_task-IsSound f s fit' place' h =
    let inside : 63 < length s.task = omega (arith, h.slots) in
    let zeroth : get_or (each_task f s.task 63) 0 none ≡ slot s 0 =
      each_task_lem f s.task 63 0 inside in
    record {
      slots = length-each_task f s.task 63 ∙ h.slots;
      heads = h.heads;
      tails = h.tails;
      fit = λ q.
          rw (each_task_lem f s.task 63 q inside)
            (elim (leb 1 q && leb q 63)
              as (λ b. fits (if b then map_task f (slot s q) else slot s q) ≡ true) [
                | true ↦ fit' (slot s q) (h.fit q)
                | false ↦ h.fit q
              ]);
      linked = h.linked;
      once = λ i q.
          h.once i q
          ∙ rw (each_task_lem f s.task 63 q inside)
              (elim (leb 1 q && leb q 63)
                as (λ b.
                  place (slot s q) i ≡ place (if b then map_task f (slot s q) else slot s q) i) [
                    | true ↦ sym (place' (slot s q) i)
                    | false ↦ refl
                  ]);
      idle = rw zeroth h.idle;
    }

alter_task-fits : (o : Option Task) → fits o ≡ true → fits (map_task alter_task o) ≡ true
unfolding alter_task
alter_task-fits none h = refl
alter_task-fits (some t) h = ground (arith, h)

alter_task-place : (o : Option Task) (i : ℕ) → place (map_task alter_task o) i ≡ place o i
unfolding alter_task
alter_task-place none i = refl
alter_task-place (some t) i = ground arith

pub alter_state-IsSound : (s : Sched) → IsSound s → IsSound (alter_state s)
unfolding alter_state
alter_state-IsSound s h = each_task-IsSound alter_task s alter_task-fits alter_task-place h

-- The queues from i to k (k excluded) are empty.
abbrev pub AllEmpty : List (List Node) → (i k : ℕ) → Type 0
AllEmpty head i k = (o : ℕ) → i ≤ o → o < k → get_or head o [] ≡ []

AllEmpty-step :
    (head : List (List Node)) (i k : ℕ)
    → get_or head i [] ≡ []
    → AllEmpty head (i + 1) k
    → AllEmpty head i k
AllEmpty-step head i k here later o le lt = elim (Bool-cases (o == i)) [
  | inl same ↦ subst (λ (t : ℕ). get_or head t [] ≡ []) (sym ((==_iff o i).0 same)) here
  | inr other ↦ later o (ground arith) lt
]

-- What the search over `size` queues from i on finds.
abbrev pub FirstOf : List (List Node) → (size i : ℕ) → Option (Node × List (List Node)) → Type 0
FirstOf head size i found =
    ((found ≡ none) × AllEmpty head i (i + size))
    ⊎ ((k : ℕ) × (n : Node) × (ns : List Node) × (found ≡ some (n, set head k ns))
        × (get_or head k [] ≡ n ∷ ns)
        × (k < i + size)
        × AllEmpty head i k)

pub first_queue_lem :
    (head : List (List Node)) (size i : ℕ) → FirstOf head size i (first_queue head size i)
unfolding first_queue
first_queue_lem head zero i = inl (refl, λ o le lt. absurd (omega arith))
first_queue_lem head (suc size) i = go (get_or head i []) refl (first_queue_lem head size (i + 1))
  where
    go :
        (q : List Node)
        → get_or head i [] ≡ q
        → FirstOf head size (i + 1) (first_queue head size (i + 1))
        → FirstOf head (suc size) i (first_queue head (suc size) i)
    go (n ∷ ns) e rest =
        inr (i, n, ns, rw (e, first_queue) refl, e, omega arith, λ o le lt. absurd (omega arith))
    go [] e (inl (none_left, empty)) = inl (
      rw (e, none_left, first_queue) refl,
      AllEmpty-step head i _ e (λ o le lt. empty o le (omega arith)),
    )
    go [] e (inr (k, n, ns, f, at, lt, empty)) =
        inr (k, n, ns, rw (e, f, first_queue) refl, at, omega arith, AllEmpty-step head i k e empty)

-- The task of the first node of a queue is in that queue.
pub node-queued :
    (s : Sched) (k : ℕ) (n : Node) (ns : List Node)
    → IsSound s
    → get_or s.head k [] ≡ n ∷ ns
    → (t : Task) × (slot s n.task ≡ some t) × (t.in_queue ≡ true) × (t.order ≡ k)
unfolding count
node-queued s k n ns h at = elim (Option-cases (slot s n.task)) [
  | inl gone ↦
      absurd
        (ground (arith, h.once k n.task, ap (λ q. count q n.task) at, ap (λ o. place o k) gone))
  | inr (t, there) ↦ (
    t,
    there,
    ground (arith, h.once k n.task, ap (λ q. count q n.task) at, ap (λ o. place o k) there),
    ground (arith, h.once k n.task, ap (λ q. count q n.task) at, ap (λ o. place o k) there),
  )
]
