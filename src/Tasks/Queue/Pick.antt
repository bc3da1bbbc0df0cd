-- ===== src/Tasks/Queue/Pick.antt =====
-- Which task `schedule` makes the current one.
use os.Util.{
  ℕ, ◌≤◌, ◌<◌, ◌≡◌, refl, ap, ◌∙◌, arith, true, false, Bool-cases, Option-cases, ◌≢◌, inl, inr, ◌⊎◌,
  ◌==◌, ==_iff, ==_refl, Option, none, some, List, [], ◌∷◌, ok, if◌then◌else◌, get_or, set,
  get_or-set_inside, get_or-set_ne, length-set, leb,
}
use mathlib.Core.Path.{subst}
use os.Tasks.{Task, Node, Sched, slot, each_task, change, alter_state}
use os.Tasks.Queue.{run_task, pick_next, schedule}
use os.Tasks.Queue.Links.{count, Tailed, Tailed-rest}
use os.Tasks.Queue.Settle.{settle, set_queue_lem, slot_inside}
use os.Tasks.Queue.Valid.{fits, is_queued, place, IsSound, IsValid}
use os.Tasks.Queue.First.{alter_state-IsSound, first_queue_lem, node-queued}

-- Taking the first node of a queue, and making its task the one that runs.
pop-IsSound :
    (s : Sched) (k : ℕ) (n : Node) (ns : List Node) (t : Task)
    → k < 5
    → get_or s.head k [] ≡ n ∷ ns
    → slot s n.task ≡ some t
    → t.in_queue ≡ true
    → t.order ≡ k
    → IsSound s
    → IsSound (record s {
      task = set s.task n.task (some (run_task t));
      current = n.task;
      head = set s.head k ns;
    })
unfolding count
pop-IsSound s k n ns t lt at there queued order h =
    let inside = slot_inside s.task n.task there in
    record {
      slots = length-set s.task n.task (some (run_task t)) ∙ h.slots;
      heads = length-set s.head k ns ∙ h.heads;
      tails = h.tails;
      fit = λ q.
          rw (get_or-set_inside s.task n.task q (some (run_task t)) none inside)
            (elim (q == n.task) as (λ b. fits (if b then some (run_task t) else slot s q) ≡ true) [
              | true ↦ ground (arith, ap fits there, h.fit n.task, queued)
              | false ↦ h.fit q
            ]);
      linked = λ i.
          rw (get_or-set_inside s.head k i ns [] (omega (arith, h.heads)))
            (elim (Bool-cases (i == k)) [
              | inl same ↦ rw same (
                  Tailed-rest n ns _ _ (
                    subst (λ q. Tailed q (get_or s.tail i none) s.fresh)
                      (ap (λ (j : ℕ). get_or s.head j []) ((==_iff i k).0 same) ∙ at) (h.linked i)))
              | inr other ↦ rw other (h.linked i)
            ]);
      once = λ i q. ground (
        arith,
        get_or-set_inside s.task n.task q (some (run_task t)) none inside,
        get_or-set_inside s.head k i ns [] (omega (arith, h.heads)),
        ap (λ l. count l q) at,
        ap (λ (o : Option Task). place o i) there,
        h.once i q,
        queued,
        order,
      );
      idle =
          let aside : n.task ≢ 0 = λ e.
            ground
              (arith, h.idle, ap (λ (j : ℕ). is_queued (slot s j)) e, ap is_queued there, queued) in
          rw (get_or-set_ne s.task n.task 0 (some (run_task t)) none aside) h.idle;
    }

-- The queue in which a task is; 5 for one that is in none.
abbrev pub queue_of : Option Task → ℕ
queue_of none = 5
queue_of (some t) = if t.in_queue then t.order else 5

queued-nonempty :
    (s : Sched) (p : ℕ)
    → IsSound s
    → get_or s.head (queue_of (slot s p)) [] ≡ []
    → is_queued (slot s p) ≡ false
unfolding count
queued-nonempty s p h empty = elim (Option-cases (slot s p)) [
  | inl gone ↦ rw gone refl
  | inr (t, at) ↦ rw at (elim (Bool-cases t.in_queue) [
    | inr out ↦ out
    | inl queued ↦ absurd (
        ground (
          arith,
          h.once (queue_of (slot s p)) p,
          ap (λ q. count q p) empty,
          at,
          ap (λ o. place o (queue_of (slot s p))) at,
          ap queue_of at,
          queued,
        ))
  ])
]

queue_of-queued :
    (s : Sched) (p : ℕ) → IsSound s → is_queued (slot s p) ≡ true → queue_of (slot s p) < 5
queue_of-queued s p h queued = elim (Option-cases (slot s p)) [
  | inl gone ↦ cc (ap is_queued gone, queued)
  | inr (t, at) ↦ rw at (ground (arith, h.fit p, ap fits at, ap is_queued at, queued))
]

queue_of-out : (o : Option Task) → is_queued o ≡ false → queue_of o ≡ 5
queue_of-out none out = refl
queue_of-out (some t) out = ground (arith, out)

-- What becomes of a table when the next task is picked: the task of slot 0 becomes current where no
-- task is in a queue, and else a queued one of least order, which then runs and is in no queue.
abbrev pub Picked : List (Option Task) → Sched → Type 0
Picked task s' =
    ((s'.current ≡ 0) × (s'.task ≡ task) × ((p : ℕ) → is_queued (get_or task p none) ≡ false))
    ⊎ ((t : Task) × (get_or task s'.current none ≡ some t)
        × (t.in_queue ≡ true)
        × (s'.task ≡ set task s'.current (some (run_task t)))
        × ((p : ℕ) → t.order ≤ queue_of (get_or task p none)))

pick_next_lem :
    (s : Sched) → IsSound s → (s' : Sched) × (pick_next s ≡ ok s') × IsValid s' × Picked s.task s'
unfolding pick_next change
pick_next_lem s h = elim (first_queue_lem s.head 5 0) [
  | inl (nothing, empty) ↦ (
    record s { current = 0 },
    rw (nothing, pick_next) refl,
    record { sound = moved; running = h.idle },
    inl (
      refl,
      refl,
      λ p. elim (Bool-cases (is_queued (slot s p))) [
        | inr out ↦ out
        | inl queued ↦ queued-nonempty s p h (empty _ (omega arith) (queue_of-queued s p h queued))
      ],
    ),
  )
  | inr (k, n, ns, found, at, lt, empty) ↦
      let (t, there, queued, order) = node-queued s k n ns h at in
      let s' : Sched = record s {
        task = set s.task n.task (some (run_task t));
        current = n.task;
        head = set s.head k ns;
      } in
      (
        s',
        rw (found, there, pick_next, change) refl,
        record {
          sound = pop-IsSound s k n ns t lt at there queued order h;
          running =
              rw
                (
                  get_or-set_inside s.task n.task n.task (some (run_task t)) none
                      (slot_inside s.task n.task there),
                  ==_refl n.task,
                )
                (refl, refl);
        },
        inr (
          t,
          there,
          queued,
          refl,
          λ p. elim (Bool-cases (leb t.order (queue_of (slot s p)))) [
            | inl le ↦ ground (arith, le)
            | inr before ↦
                let below : queue_of (slot s p) < k = ground (arith, before, order) in
                absurd (
                  omega (
                    arith,
                    queue_of-out (slot s p) (queued-nonempty s p h (empty _ (omega arith) below)),
                  ))
          ],
        ),
      )
]
  where
    moved : IsSound (record s { current = 0 })
    moved = record {
      slots = h.slots;
      heads = h.heads;
      tails = h.tails;
      fit = h.fit;
      linked = h.linked;
      once = h.once;
      idle = h.idle;
    }

-- From a sound state `schedule` returns, in a valid one: it wakes and queues the tasks of slots 1 to
-- 63 that can run, and then makes a queued task of least order the current one, or, where no task is
-- queued, that of slot 0.
pub schedule-IsValid :
    (s : Sched)
    → IsSound s
    → (s' : Sched) × (schedule s ≡ ok s')
      × IsValid s'
      × Picked (each_task settle (alter_state s).task 63) s'
unfolding schedule
schedule-IsValid s h =
    let (s1, e1, t1, c1, h1) =
      set_queue_lem (alter_state s) 63 (omega arith) (alter_state-IsSound s h) in
    let (s2, e2, v2, p2) = pick_next_lem s1 h1 in
    (s2, rw (e1, e2) refl, v2, subst (λ task. Picked task s2) t1 p2)
