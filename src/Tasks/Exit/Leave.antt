-- ===== src/Tasks/Exit/Leave.antt =====
-- What `do_exit` leaves behind.
use os.Util.{
  ℕ, ◌≤◌, ◌<◌, ◌≡◌, refl, sym, ap, ◌∙◌, arith, true, false, Bool-cases, Option-cases, inl, inr,
  ◌==◌, ==_iff, Option, none, some, List, if◌then◌else◌, get_or, set, length, get_or-set_inside,
  get_or-set_self, get_or-set_ne, ok, ◌>>=◌, ◌≢◌,
}
use mathlib.Core.Path.{subst}
use os.Tasks.{Task, Sched, slot, is_none, change, alter_task, alter_state, map_task, each_task}
use os.Tasks.Exit.{task_zombine, father_of, exited, leave, do_exit}
use os.Tasks.Exit.Adopt.{not_child, Tame-HasInit, tell_father-Tame, adopt_all-Tame}
use os.Tasks.Queue.{schedule, run_task, is_runnable, ready_in, next_order}
use os.Tasks.Queue.Moves.{bare, bare-is_queued, set-IsSound, SameTasks-IsSound}
use os.Tasks.Queue.Pick.{Picked, schedule-IsValid}
use os.Tasks.Queue.Progress.{prepared_lem, state_of}
use os.Tasks.Queue.Settle.{settle, slot_inside}
use os.Tasks.Queue.Valid.{is_queued, IsSound, IsValid}

-- What `alter_state`, `set_Queue` and the choice of the next task do not change.
pub schedule-observe {ℓ} :
    {B : Type ℓ} (g : Option Task → B)
    → ((t : Task) → g (some (alter_task t)) ≡ g (some t))
    → ((t : Task) → g (some (settle t)) ≡ g (some t))
    → ((t : Task) → g (some (run_task t)) ≡ g (some t))
    → (s s' : Sched) (p : ℕ) → length s.task ≡ 64
    → 1 ≤ p
    → p < 64
    → Picked (each_task settle (alter_state s).task 63) s'
    → g (slot s' p) ≡ g (slot s p)
schedule-observe {B = B} g alters settles runs s s' p len from to picked = elim picked [
  | inl (zeroth, same, none_queued) ↦ ap (λ l. g (get_or l p none)) same ∙ before
  | inr (t, at, queue, table, least) ↦
      ap (λ l. g (get_or l p none)) table
      ∙ rw
          (get_or-set_inside task s'.current p (some (run_task t)) none
            (slot_inside task s'.current at))
          (elim (Bool-cases (p == s'.current)) [
            | inl same ↦ rw same (
                runs t
                ∙ sym
                    (ap g (ap (λ (j : ℕ). get_or task j none) ((==_iff p s'.current).0 same) ∙ at))
                ∙ before)
            | inr other ↦ rw other before
          ])
]
  where
    task : List (Option Task)
    task = each_task settle (alter_state s).task 63

    mapped :
        (f : Task → Task)
        → ((t : Task) → g (some (f t)) ≡ g (some t))
        → (o : Option Task) → g (map_task f o) ≡ g o
    mapped f h none = refl
    mapped f h (some t) = h t

    before : g (get_or task p none) ≡ g (slot s p)
    before =
        ap g (prepared_lem s p len from to)
        ∙ mapped settle settles (map_task alter_task (slot s p))
        ∙ mapped alter_task alters (slot s p)

alter_task-dead : (t : Task) → t.state ≡ task_zombine → alter_task t ≡ t
unfolding alter_task
alter_task-dead t dead =
    let awake : (t.state == 2) ≡ false = ground (arith, dead) in rw (awake, alter_task) refl

settle-dead : (t : Task) → t.state ≡ task_zombine → t.in_queue ≡ false → settle t ≡ t
settle-dead t dead out =
    ap (λ b. if b then t else if is_runnable t then ready_in (next_order t) t else t) out
    ∙ ap (λ b. if b then ready_in (next_order t) t else t) stuck
  where
    stuck : is_runnable t ≡ false
    stuck = ground (arith, dead)

dead-still :
    (o : Option Task)
    → state_of o ≡ some task_zombine
    → is_queued o ≡ false
    → map_task settle (map_task alter_task o) ≡ o
dead-still none dead out = refl
dead-still (some t) dead out =
    let e : t.state ≡ task_zombine = ground (arith, dead) in
    ap (λ u. some (settle u)) (alter_task-dead t e) ∙ ap some (settle-dead t e out)

-- A dead task stays as it is, and does not become the current one.
dead-kept :
    (s s' : Sched) (p : ℕ)
    → length s.task ≡ 64
    → 1 ≤ p
    → p < 64
    → state_of (slot s p) ≡ some task_zombine
    → is_queued (slot s p) ≡ false
    → Picked (each_task settle (alter_state s).task 63) s'
    → (state_of (slot s' p) ≡ some task_zombine) × (s'.current ≢ p)
dead-kept s s' p len from to dead out picked =
    let task = each_task settle (alter_state s).task 63 in
    let still : get_or task p none ≡ slot s p =
      prepared_lem s p len from to ∙ dead-still (slot s p) dead out in
    elim picked [
      | inl (zeroth, same, none_queued) ↦ (
        ap (λ l. state_of (get_or l p none)) same ∙ ap state_of still ∙ dead,
        λ e. absurd (omega (arith, e, zeroth)),
      )
      | inr (t, at, queue, table, least) ↦
          let aside : s'.current ≢ p = λ e. cc (
            ap is_queued at,
            queue,
            ap (λ (j : ℕ). is_queued (get_or task j none)) e,
            ap is_queued still,
            out,
          ) in
          (
            ap (λ l. state_of (get_or l p none)) table
                ∙ ap state_of (get_or-set_ne task s'.current p (some (run_task t)) none aside)
                ∙ ap state_of still
                ∙ dead,
            aside,
          )
    ]

bare-state_of : (o : Option Task) → state_of (bare o) ≡ state_of o
bare-state_of none = refl
bare-state_of (some t) = refl

-- What is left when a task has exited: another is current, it is dead, and no task is its child.
abbrev pub Left : (me c : ℕ) → Sched → Type 0
Left me c s' =
    IsValid s'
    × (s'.current ≢ c)
    × (state_of (slot s' c) ≡ some task_zombine)
    × ((p : ℕ) → 1 ≤ p → p < 64 → not_child me (slot s' p) ≡ true)

alter_task-father : (me : ℕ) (t : Task) → not_child me (some (alter_task t)) ≡ not_child me (some t)
unfolding alter_task
alter_task-father me t = ground arith

settle-father : (me : ℕ) (t : Task) → not_child me (some (settle t)) ≡ not_child me (some t)
settle-father me t = ground arith

leave_lem :
    (me : ℕ) (s : Sched) (u : Task)
    → (me == 1) ≡ false
    → IsSound s
    → slot s s.current ≡ some u
    → u.in_queue ≡ false
    → 1 ≤ s.current
    → is_none (slot s 1) ≡ false
    → ((p : ℕ) → 1 ≤ p → p ≤ 63 → not_child me (slot s p) ≡ true)
    → (s' : Sched) × (leave s ≡ ok s') × Left me s.current s'
unfolding leave change alter_task
leave_lem me s u aside h at out from one none_left =
    let c = s.current in
    let len = slot_inside s.task c at in
    let inside : c < 64 = omega (arith, len, h.slots) in
    let s2 : Sched = record s { task = set s.task c (some (exited u)) } in
    let at2 = λ (q : ℕ). get_or-set_inside s.task c q (some (exited u)) none len in
    let self2 : slot s2 c ≡ some (exited u) = get_or-set_self s.task c (some (exited u)) none len in
    let sound2 : IsSound s2 =
      set-IsSound s c (some (exited u)) inside (ap is_queued at ∙ out) refl refl (inl refl) h in
    let one2 : is_none (slot s2 1) ≡ false =
      rw (at2 1)
        (elim (1 == c) as (λ b. is_none (if b then some (exited u) else slot s 1) ≡ false) [
          | true ↦ refl
          | false ↦ one
        ]) in
    let children2 : (p : ℕ) → 1 ≤ p → p ≤ 63 → not_child me (slot s2 p) ≡ true = λ p a b.
      rw (at2 p)
        (elim (p == c) as (λ b. not_child me (if b then some (exited u) else slot s p) ≡ true) [
          | true ↦ sym (ap (not_child me) at) ∙ none_left c from (omega arith)
          | false ↦ none_left p a b
        ]) in
    let (s3, e3, t3) =
      tell_father-Tame me s2 (father_of (slot s2 c)) aside (one2, ap is_none self2) in
    let sound3 = SameTasks-IsSound s2 s3 t3.same sound2 in
    let (s4, e4, valid, picked) = schedule-IsValid s3 sound3 in
    let dead3 : state_of (slot s3 c) ≡ some task_zombine =
      sym (bare-state_of (slot s3 c)) ∙ ap state_of (t3.same.4 c ∙ ap bare self2) in
    let out3 : is_queued (slot s3 c) ≡ false =
      sym (bare-is_queued (slot s3 c)) ∙ ap is_queued (t3.same.4 c ∙ ap bare self2) in
    let (dead, other) = dead-kept s3 s4 c sound3.slots from inside dead3 out3 picked in
    (
      s4,
      rw (at, leave, change) (ap (λ r. r >>= schedule) e3 ∙ e4),
      (
        valid,
        other,
        dead,
        λ p a b.
            schedule-observe (not_child me) (alter_task-father me) (settle-father me) (λ t. refl) s3
              s4 p sound3.slots a b picked
            ∙ t3.children p (children2 p a (omega arith)),
      ),
    )

-- When a task that is neither 0 nor 1 exits, in a valid state with a task in slot 1, `do_exit`
-- returns, in a valid state: another task is current, the one that exited is dead, and no task of
-- slots 1 to 63 is its child any more.
pub do_exit-IsValid :
    (s : Sched) (t : Task)
    → IsValid s
    → slot s s.current ≡ some t
    → 1 ≤ s.current
    → (t.pid == 0) ≡ false
    → (t.pid == 1) ≡ false
    → is_none (slot s 1) ≡ false
    → (s' : Sched) × (do_exit s ≡ ok s') × Left t.pid s.current s'
unfolding do_exit
do_exit-IsValid s t h at from named aside one =
    let c = s.current in
    let (s1, e1, t1, none_left) = adopt_all-Tame t.pid s 63 aside (one, ap is_none at) in
    elim (Option-cases (slot s1 c)) [
      | inl gone ↦ cc (t1.same.4 c, ap bare gone, ap bare at)
      | inr (u, there) ↦
          let out : is_queued (slot s1 c) ≡ false =
            sym (bare-is_queued (slot s1 c))
            ∙ ap is_queued (t1.same.4 c)
            ∙ bare-is_queued (slot s c)
            ∙ h.running.1 in
          let (s', e, left) =
            leave_lem t.pid s1 u aside (SameTasks-IsSound s s1 t1.same h.sound)
              (ap (slot s1) t1.current ∙ there) (sym (ap is_queued there) ∙ out)
              (subst (λ (k : ℕ). 1 ≤ k) (sym t1.current) from)
              (Tame-HasInit t.pid s s1 t1 (one, ap is_none at)).0 none_left in
          (
            s',
            rw (at, named, do_exit) (ap (λ r. r >>= leave) e1 ∙ e),
            subst (λ (k : ℕ). Left t.pid k s') t1.current left,
          )
    ]
