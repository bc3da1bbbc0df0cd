-- ===== src/Tasks/Exit/Adopt.antt =====
-- What the loop of `do_exit` over the children does.
use os.Util.{
  ℕ, zero, suc, ◌+◌, ◌≤◌, ◌≡◌, refl, sym, ap, ◌∙◌, arith, Bool, true, false, not, Bool-cases,
  Option-cases, inl, inr, ◌⊎◌, ◌==◌, ==_iff, Option, none, some, List, get_or, set,
  get_or-set_inside, get_or-set_self, length-set, ok, ◌>>=◌,
}
use os.Tasks.{Task, Sched, slot, is_none, change, tell_father, find_pid, has_pid, signal_child}
use os.Tasks.Exit.{adopt, adopt_all, to_init, task_zombine}
use os.Tasks.Queue.Moves.{bare, bare-is_none, SameTasks, SameTasks-trans}
use os.Tasks.Queue.Settle.{slot_inside}

-- The father of a task is not `me`, if there is a task.
abbrev pub not_child : (me : ℕ) → Option Task → Bool
not_child me none = true
not_child me (some t) = not (t.father_pid == me)

-- What the loop keeps: the tasks but for fathers and signals, and no task becomes a child of `me`.
pub record Tame (me : ℕ) (s s' : Sched) : Type 0 where
  pub same : SameTasks s s'
  pub current : s'.current ≡ s.current
  pub children : (p : ℕ) → not_child me (slot s p) ≡ true → not_child me (slot s' p) ≡ true

pub Tame-refl : (me : ℕ) (s : Sched) → Tame me s s
Tame-refl me s = record {
  same = (refl, refl, refl, refl, λ p. refl);
  current = refl;
  children = λ p h. h;
}

pub Tame-trans : (me : ℕ) (s s1 s2 : Sched) → Tame me s s1 → Tame me s1 s2 → Tame me s s2
Tame-trans me s s1 s2 a b = record {
  same = SameTasks-trans s s1 s2 a.same b.same;
  current = b.current ∙ a.current;
  children = λ p h. b.children p (a.children p h);
}

-- A change of father and signals of one task.
pub change-Tame :
    (me : ℕ) (s : Sched) (p : ℕ) (f : Task → Task)
    → is_none (slot s p) ≡ false
    → ((t : Task) → bare (some (f t)) ≡ bare (some t))
    → ((t : Task) → not_child me (some t) ≡ true → not_child me (some (f t)) ≡ true)
    → (s' : Sched) × (change s p f ≡ ok s')
      × Tame me s s'
      × ((t : Task) × (slot s p ≡ some t) × (s' ≡ record s { task = set s.task p (some (f t)) }))
unfolding change
change-Tame me s p f there same fathers = elim (Option-cases (slot s p)) [
  | inl gone ↦ cc (ap is_none gone, there)
  | inr (t, at) ↦
      let at_most = get_or-set_inside s.task p in
      (
        record s { task = set s.task p (some (f t)) },
        rw (at, change) refl,
        record {
          same = (
            length-set s.task p (some (f t)),
            refl,
            refl,
            refl,
            λ q.
                rw (at_most q (some (f t)) none (slot_inside s.task p at))
                  (elim (Bool-cases (q == p)) [
                    | inl eq ↦ rw eq (same t ∙ sym (ap bare (ap (slot s) ((==_iff q p).0 eq) ∙ at)))
                    | inr other ↦ rw other refl
                  ]),
          );
          current = refl;
          children = λ q h.
              rw (at_most q (some (f t)) none (slot_inside s.task p at))
                (elim (Bool-cases (q == p)) [
                  | inl eq ↦ rw eq (
                      fathers t
                        (sym (ap (not_child me) (ap (slot s) ((==_iff q p).0 eq) ∙ at)) ∙ h))
                  | inr other ↦ rw other h
                ]);
        },
        (t, at, refl),
      )
]

find_pid-there :
    (task : List (Option Task)) (pid count i : ℕ)
    → (find_pid task pid count i ≡ none)
      ⊎ ((k : ℕ) × (find_pid task pid count i ≡ some k)
          × (is_none (get_or task k none) ≡ false)
          × (has_pid (get_or task k none) pid ≡ true))
unfolding find_pid
find_pid-there task pid zero i = inl refl
find_pid-there task pid (suc count) i = elim (Option-cases (get_or task i none)) [
  | inl gone ↦ elim (find_pid-there task pid count (i + 1)) [
    | inl e ↦ inl (rw (gone, find_pid) e)
    | inr (k, e, there, has) ↦ inr (k, rw (gone, find_pid) e, there, has)
  ]
  | inr (t, at) ↦ elim (Bool-cases (t.pid == pid)) [
    | inl same ↦
        inr (i, rw (at, find_pid, same) refl, ap is_none at, ap (λ o. has_pid o pid) at ∙ same)
    | inr other ↦ elim (find_pid-there task pid count (i + 1)) [
      | inl e ↦ inl (rw (at, find_pid, other) e)
      | inr (k, e, there, has) ↦ inr (k, rw (at, find_pid, other) e, there, has)
    ]
  ]
]

-- A table in which task 1 and the task that runs are there.
abbrev pub HasInit : Sched → Type 0
HasInit s = (is_none (slot s 1) ≡ false) × (is_none (slot s s.current) ≡ false)

Tame-there :
    (me : ℕ) (s s' : Sched) (p : ℕ)
    → Tame me s s'
    → is_none (slot s p) ≡ false
    → is_none (slot s' p) ≡ false
Tame-there me s s' p h there =
    sym (bare-is_none (slot s' p)) ∙ ap is_none (h.same.4 p) ∙ bare-is_none (slot s p) ∙ there

pub Tame-HasInit : (me : ℕ) (s s' : Sched) → Tame me s s' → HasInit s → HasInit s'
Tame-HasInit me s s' h (one, cur) = (
  Tame-there me s s' 1 h one,
  ap (λ (c : ℕ). is_none (slot s' c)) h.current ∙ Tame-there me s s' s.current h cur,
)

pub tell_father-Tame :
    (me : ℕ) (s : Sched) (pid : ℕ)
    → (me == 1) ≡ false
    → HasInit s
    → (s' : Sched) × (tell_father s pid ≡ ok s') × Tame me s s'
unfolding tell_father
tell_father-Tame me s pid aside (one, cur) = elim (Bool-cases (pid == 0)) [
  | inl zeroth ↦ let (s', e, tame) = orphan in (s', rw (zeroth, tell_father) e, tame)
  | inr known ↦ elim (find_pid-there s.task pid 63 1) [
    | inl absent ↦ let (s', e, tame) = orphan in (s', rw (known, absent, tell_father) e, tame)
    | inr (k, found, there, has) ↦
        let (s', e, tame, rest) = change-Tame me s k signal_child there (λ t. refl) (λ t h. h) in
        (s', rw (known, found, tell_father) e, tame)
  ]
]
  where
    orphan :
        (s' : Sched) × ((change s s.current to_init >>= λ s1. change s1 1 signal_child) ≡ ok s')
        × Tame me s s'
    orphan =
        let (s1, e1, t1, r1) =
          change-Tame me s s.current to_init cur (λ t. refl) (λ t h. ground (arith, aside)) in
        let (s2, e2, t2, r2) =
          change-Tame me s1 1 signal_child (Tame-there me s s1 1 t1 one) (λ t. refl) (λ t h. h) in
        (s2, rw e1 e2, Tame-trans me s s1 s2 t1 t2)

adopt-Tame :
    (me : ℕ) (s : Sched) (p : ℕ)
    → (me == 1) ≡ false
    → HasInit s
    → (s' : Sched) × (adopt s me p ≡ ok s') × Tame me s s' × (not_child me (slot s' p) ≡ true)
unfolding adopt
adopt-Tame me s p aside init = elim (Option-cases (slot s p)) [
  | inl gone ↦ (s, rw (gone, adopt) refl, Tame-refl me s, ap (not_child me) gone)
  | inr (t, at) ↦ elim (Bool-cases (t.father_pid == me)) [
    | inr other ↦ (
      s,
      rw (at, other, adopt) refl,
      Tame-refl me s,
      ap (not_child me) at ∙ ground (arith, other),
    )
    | inl child ↦
        let (s1, e1, t1, (u, there, made)) =
          change-Tame me s p to_init (ap is_none at) (λ t. refl) (λ t h. ground (arith, aside)) in
        let adopted : not_child me (slot s1 p) ≡ true =
          ap (λ s. not_child me (slot s p)) made
          ∙ ap (not_child me) (get_or-set_self s.task p _ none (slot_inside s.task p at))
          ∙ ground (arith, aside) in
        elim (Bool-cases (t.state == task_zombine)) [
          | inr lives ↦ (s1, rw (at, child, adopt, e1, lives) refl, t1, adopted)
          | inl dead ↦
              let (s2, e2, t2) = tell_father-Tame me s1 1 aside (Tame-HasInit me s s1 t1 init) in
              (
                s2,
                rw (at, child, adopt, e1, dead) e2,
                Tame-trans me s s1 s2 t1 t2,
                t2.children p adopted,
              )
        ]
  ]
]

-- The loop of `do_exit` comes to its end, changes only fathers and signals, and leaves no child.
pub adopt_all-Tame :
    (me : ℕ) (s : Sched) (n : ℕ)
    → (me == 1) ≡ false
    → HasInit s
    → (s' : Sched) × (adopt_all s me n ≡ ok s')
      × Tame me s s'
      × ((p : ℕ) → 1 ≤ p → p ≤ n → not_child me (slot s' p) ≡ true)
unfolding adopt_all
adopt_all-Tame me s zero aside init = (s, refl, Tame-refl me s, λ p from to. absurd (omega arith))
adopt_all-Tame me s (suc i) aside init =
    let (s1, e1, t1, here) = adopt-Tame me s (suc i) aside init in
    let (s2, e2, t2, rest) = adopt_all-Tame me s1 i aside (Tame-HasInit me s s1 t1 init) in
    (
      s2,
      rw e1 e2,
      Tame-trans me s s1 s2 t1 t2,
      λ p from to. elim (Bool-cases (p == suc i)) [
        | inl last ↦
            t2.children p
              (ap (λ (q : ℕ). not_child me (slot s1 q)) ((==_iff p (suc i)).0 last) ∙ here)
        | inr before ↦ rest p from (ground (arith, before))
      ],
    )
