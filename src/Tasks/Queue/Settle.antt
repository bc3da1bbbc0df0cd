-- ===== src/Tasks/Queue/Settle.antt =====
-- `set_Queue` as a function of each task: one that can run and is in no queue is put behind the last
-- of its queue, and nothing is removed.
use os.Util.{
  ℕ, zero, suc, ◌+◌, ◌≤◌, ◌<◌, ◌≡◌, refl, sym, ap, ◌∙◌, arith, Bool, true, false, Bool-cases,
  Option-cases, inl, inr, ◌==◌, Option, none, some, List, [], ◌∷◌, ◌++◌, ok, if◌then◌else◌, get_or,
  set, length, get_or-set_inside, get_or-set_ne, length-set, set-get_or, leb,
}
use mathlib.Core.Path.{subst}
use os.Tasks.{Task, Node, Sched, slot, map_task, each_task, change}
use os.Tasks.Queue.{is_runnable, next_order, link, ready_in, enqueue, set_queue_task, set_queue}
use os.Tasks.Queue.Links.{
  Tailed, Tailed-later, Tailed-bounds, link_after_lem, Tailed-snoc, count-snoc,
}
use os.Tasks.Queue.Valid.{fits, place, IsSound}

abbrev pub settle : Task → Task
settle t = if t.in_queue then t else if is_runnable t then ready_in (next_order t) t else t

abbrev pub new_node : Sched → (pid p : ℕ) → Node
new_node s pid p = record { addr = s.fresh; pid = pid; task = p }

-- The state after a node was put behind the last of queue o.
abbrev pub linked_in : Sched → (o pid p : ℕ) → Sched
linked_in s o pid p = record s {
  head = set s.head o (get_or s.head o [] ++ new_node s pid p ∷ []);
  tail = set s.tail o (some s.fresh);
  fresh = s.fresh + 1;
}

pub link_lem :
    (s : Sched) (o pid p : ℕ)
    → o < 5
    → Tailed (get_or s.head o []) (get_or s.tail o none) s.fresh
    → link s o pid p ≡ ok (linked_in s o pid p)
unfolding link
link_lem s o pid p lt h = go (get_or s.head o []) refl h
  where
    inside : leb 5 o ≡ false
    inside = ground arith

    go :
        (q : List Node)
        → get_or s.head o [] ≡ q
        → Tailed q (get_or s.tail o none) s.fresh
        → link s o pid p ≡ ok (linked_in s o pid p)
    go [] e h = rw (inside, e) refl
    go (n ∷ ns) e h =
        let (a, at, le, below) = Tailed-bounds n ns (get_or s.tail o none) s.fresh h in
        let h' : Tailed (n ∷ ns) (some a) s.fresh =
          subst (λ (t : Option ℕ). Tailed (n ∷ ns) t s.fresh) at h in
        rw (inside, e, at, link_after_lem n ns a s.fresh (new_node s pid p) h') refl

pub slot_inside :
    (task : List (Option Task)) (p : ℕ) {t : Task} → get_or task p none ≡ some t → p < length task
slot_inside [] p h = absurd (cc)
slot_inside (x ∷ task) zero h = omega arith
slot_inside (x ∷ task) (suc p) h = omega (arith, slot_inside task p h)

-- A node and the task that it names, in the same queue: the table and the queues agree again.
enqueue-IsSound :
    (s : Sched) (p : ℕ) (t : Task) (o : ℕ)
    → 1 ≤ p
    → o < 5
    → slot s p ≡ some t
    → t.in_queue ≡ false
    → IsSound s
    → let s1 = linked_in s o t.pid p in
      IsSound (record s1 { task = set s1.task p (some (ready_in o t)) })
enqueue-IsSound s p t o from lt at out h =
    let inside = slot_inside s.task p at in
    let task' = set s.task p (some (ready_in o t)) in
    let new = new_node s t.pid p in
    let q' = get_or s.head o [] ++ new ∷ [] in
    let here : length s.head ≡ 5 = h.heads in
    record {
      slots = length-set s.task p (some (ready_in o t)) ∙ h.slots;
      heads = length-set s.head o q' ∙ h.heads;
      tails = length-set s.tail o (some s.fresh) ∙ h.tails;
      fit = λ q.
          rw (get_or-set_inside s.task p q (some (ready_in o t)) none inside)
            (elim (q == p) as (λ b. fits (if b then some (ready_in o t) else slot s q) ≡ true) [
              | true ↦ fit_ready
              | false ↦ h.fit q
            ]);
      linked = λ i.
          rw
            (
              get_or-set_inside s.head o i q' [] (omega (arith, h.heads)),
              get_or-set_inside s.tail o i (some s.fresh) none (omega (arith, h.tails)),
            )
            (elim (i == o)
              as (λ b.
                Tailed (if b then q' else get_or s.head i [])
                  (if b then some s.fresh else get_or s.tail i none) (s.fresh + 1)) [
                    | true ↦
                        Tailed-snoc (get_or s.head o []) (get_or s.tail o none) s.fresh new refl
                          (h.linked o)
                    | false ↦ Tailed-later _ _ _ (h.linked i)
                  ]);
      once = λ i q.
          let old = h.once i q in
          let moved : place (slot s p) i ≡ 0 = ground (arith, at, out) in
          ground (
            arith,
            get_or-set_inside s.task p q (some (ready_in o t)) none inside,
            get_or-set_inside s.head o i q' [] (omega (arith, h.heads)),
            count-snoc (get_or s.head o []) new q,
            ap (λ (o : Option Task). place o i) at,
            old,
            moved,
          );
      idle =
          rw (get_or-set_ne s.task p 0 (some (ready_in o t)) none (λ e. absurd (omega arith)))
            h.idle;
    }
  where
    fit_ready : fits (some (ready_in o t)) ≡ true
    fit_ready = ground arith

abbrev pub settle_at : Sched → ℕ → List (Option Task)
settle_at s p = set s.task p (map_task settle (slot s p))

-- One round: the table with the task of slot p settled.
set_queue_task_lem :
    (s : Sched) (p : ℕ)
    → 1 ≤ p
    → p < 64
    → IsSound s
    → (s' : Sched) × (set_queue_task s p ≡ ok s')
      × (s'.task ≡ settle_at s p)
      × (s'.current ≡ s.current)
      × IsSound s'
unfolding set_queue_task enqueue change
set_queue_task_lem s p from to h = elim (Option-cases (slot s p)) [
  | inl gone ↦ (s, rw (gone, set_queue_task) refl, rw gone (kept gone), refl, h)
  | inr (t, at) ↦ elim (Bool-cases t.in_queue) [
    | inl queued ↦
        let runs : is_runnable t ≡ true = ground (arith, ap fits at, h.fit p, queued) in
        (
          s,
          rw (at, queued, runs, set_queue_task) refl,
          rw at (kept at ∙ ap (set_some p) (sym (ap (if_queued t) queued))),
          refl,
          h,
        )
    | inr out ↦ elim (Bool-cases (is_runnable t)) [
      | inl runs ↦
          let o = next_order t in
          let lt : o < 5 = ground (arith, ap fits at, h.fit p, runs) in
          let s1 = linked_in s o t.pid p in
          (
            record s1 { task = set s1.task p (some (ready_in o t)) },
            rw
                (
                  at,
                  out,
                  runs,
                  link_lem s o t.pid p lt (h.linked o),
                  at,
                  set_queue_task,
                  enqueue,
                  change,
                )
                refl,
            rw at (ap (set_some p) (sym (ap (if_queued t) out ∙ ap (if_runs t) runs))),
            refl,
            enqueue-IsSound s p t o from lt at out h,
          )
      | inr rests ↦ (
        s,
        rw (at, out, rests, set_queue_task) refl,
        rw at (kept at ∙ ap (set_some p) (sym (ap (if_queued t) out ∙ ap (if_runs t) rests))),
        refl,
        h,
      )
    ]
  ]
]
  where
    set_some : ℕ → Task → List (Option Task)
    set_some p t = set s.task p (some t)

    if_runs : Task → Bool → Task
    if_runs t b = if b then ready_in (next_order t) t else t

    if_queued : Task → Bool → Task
    if_queued t b = if b then t else if_runs t (is_runnable t)

    kept : {o : Option Task} → slot s p ≡ o → s.task ≡ set s.task p o
    kept e = sym (ap (set s.task p) (sym e) ∙ set-get_or s.task p none)

-- From a sound state the loop of `set_Queue` over slots n to 1 returns, and the queues with their
-- links implement a change of each task by itself: the new table is the old one with the tasks of
-- these slots settled, and the queues agree with it.
pub set_queue_lem :
    (s : Sched) (n : ℕ)
    → n < 64
    → IsSound s
    → (s' : Sched) × (set_queue s n ≡ ok s')
      × (s'.task ≡ each_task settle s.task n)
      × (s'.current ≡ s.current)
      × IsSound s'
unfolding set_queue each_task
set_queue_lem s zero to h = (s, refl, refl, refl, h)
set_queue_lem s (suc i) to h =
    let (s1, e1, t1, c1, h1) = set_queue_task_lem s (suc i) (omega arith) to h in
    let (s2, e2, t2, c2, h2) = set_queue_lem s1 i (omega arith) h1 in
    (s2, rw e1 e2, t2 ∙ ap (λ task. each_task settle task i) t1, c2 ∙ c1, h2)
