-- ===== src/Tasks/Wait/Round.antt =====
-- Everything that `sys_waitpid` comes to before it gives up the processor.
use os.Util.{
  ℕ, ◌≤◌, ◌<◌, ◌≡◌, refl, sym, ap, ◌∙◌, arith, true, false, Bool-cases, Option-cases, inl, inr, ◌⊎◌,
  ◌==◌, ==_iff, none, some, Run, ok, ◌>>=◌, set, get_or-set_ne, get_or-set_self, ◌≢◌,
}
use os.Util.Int.{ℤ, pos}
use mathlib.Core.Path.{subst}
use os.Tasks.{Task, Sched, slot, is_none, change}
use os.Tasks.Exit.{task_zombine}
use os.Tasks.Queue.Moves.{set-IsSound}
use os.Tasks.Queue.Pick.{schedule-IsValid}
use os.Tasks.Queue.Settle.{slot_inside}
use os.Tasks.Queue.Valid.{fits, is_queued, IsSound, IsValid}
use os.Tasks.Slots.{release-take_id}
use os.Tasks.Wait.{
  Waited, returned, asleep, no_child, task_stop, is_child, is_over, add_time, waiting, reap,
  give_up, wait_round,
}
use os.Tasks.Wait.Cases.{NoneOver, NoChild, HasChild, wait_scan_lem}

-- A dead child is taken out of its slot, and the caller gets its number and its exit code.
abbrev pub Reaped : Sched → (p : ℕ) → Task → Run (Waited × Sched) → Type 0
Reaped s p t r =
    (s' : Sched) × (r ≡ ok (returned (pos t.pid) (some t.exit_code), s'))
    × (is_none (slot s' p) ≡ true)
    × IsValid s'

reap-dead :
    (s : Sched) (p : ℕ) (t me : Task)
    → IsValid s
    → slot s s.current ≡ some me
    → slot s p ≡ some t
    → 1 ≤ p
    → (p == s.current) ≡ false
    → t.state ≡ task_zombine
    → Reaped s p t (reap s p)
unfolding reap change
reap-dead s p t me h cur at from aside dead =
    let apart : p ≢ s.current = λ e. ground (arith, aside, e) in
    let inside : p < 64 = omega (arith, slot_inside s.task p at, h.sound.slots) in
    let inside' : s.current < 64 = omega (arith, slot_inside s.task s.current cur, h.sound.slots) in
    let zombie : (t.state == task_zombine) ≡ true = ground (arith, dead) in
    let me' = some (add_time t.time me) in
    let s1 : Sched = record s { task = set s.task s.current me' } in
    let at1 : slot s1 p ≡ some t =
      get_or-set_ne s.task s.current p me' none (λ e. apart (sym e)) ∙ at in
    let cur1 : slot s1 s.current ≡ me' =
      get_or-set_self s.task s.current me' none (slot_inside s.task s.current cur) in
    let out' : me.in_queue ≡ false = sym (ap is_queued cur) ∙ h.running.1 in
    let fit' : fits me' ≡ true = ap fits (sym cur) ∙ h.sound.fit s.current in
    let sound1 : IsSound s1 =
      set-IsSound s s.current me' inside' h.running.1 out' fit' (inl refl) h.sound in
    let out : is_queued (slot s1 p) ≡ false =
      ground (arith, at1, ap is_queued at1, dead, ap fits at1, sound1.fit p) in
    let s2 : Sched = record s1 { task = set s1.task p none } in
    let gone = release-take_id s1 p (slot_inside s1.task p at1) from inside (ap is_none at1) in
    let kept : slot s2 s.current ≡ me' = get_or-set_ne s1.task p s.current none none apart ∙ cur1 in
    (
      s2,
      rw (at, zombie, cur, reap, change)
          (ap (λ r. r >>= λ s. ok (returned (pos t.pid) (some t.exit_code), s)) gone.0),
      gone.1,
      record {
        sound = set-IsSound s1 p none inside out refl refl (inr from) sound1;
        running = (ap is_none kept, ap is_queued kept ∙ out');
      },
    )

give_up_lem :
    (s : Sched) (me : Task)
    → IsValid s
    → slot s s.current ≡ some me
    → me.state ≤ 2
    → (s' : Sched) × (give_up s ≡ ok (asleep, s')) × IsValid s'
unfolding give_up change
give_up_lem s me h cur lives =
    let inside : s.current < 64 = omega (arith, slot_inside s.task s.current cur, h.sound.slots) in
    let fit : fits (some (waiting me)) ≡ true =
      ground (arith, ap fits cur, h.sound.fit s.current, lives) in
    let (s', e, valid, picked) = schedule-IsValid _ (
      set-IsSound s s.current (some (waiting me)) inside h.running.1 refl fit (inl refl) h.sound) in
    (s', rw (cur, give_up, change) (ap (λ r. r >>= λ s2. ok (asleep, s2)) e), valid)

-- In a valid state, up to where it gives up the processor `sys_waitpid` does one of four things: it
-- takes a dead child that the call is for out of its slot and returns its number and exit code;
-- returns the number of a stopped one; sleeps, if there are children that the call is for, but none
-- dead or stopped; or returns `-ECHILD`, if there are none. The state is valid after it.
pub wait_round_lem :
    (s : Sched) (pid : ℤ) (me : Task)
    → IsValid s
    → slot s s.current ≡ some me
    → 1 ≤ s.current
    → me.state ≤ 2
    → ((p : ℕ) × (t : Task) × (slot s p ≡ some t)
        × (is_child s.current me.pid pid p (some t) ≡ true)
        × (((t.state ≡ task_zombine) × Reaped s p t (wait_round s pid))
            ⊎ ((t.state ≡ task_stop) × (wait_round s pid ≡ ok (returned (pos t.pid) none, s)))))
      ⊎ (((s' : Sched) × (wait_round s pid ≡ ok (asleep, s'))
            × IsValid s'
            × NoneOver s me.pid pid 63
            × HasChild s me.pid pid 63)
          ⊎ ((wait_round s pid ≡ ok (returned no_child none, s)) × NoChild s me.pid pid 63))
unfolding wait_round reap
wait_round_lem s pid me h cur from lives = elim (wait_scan_lem s me.pid pid 63 false) [
  | inr (inr (e, unseen, none_there)) ↦ inr (inr (rw (cur, e, wait_round) refl, none_there))
  | inr (inl (e, none_over, seen)) ↦
      let (s', r, valid) = give_up_lem s me h cur lives in
      inr (
        inl (
          s',
          rw (cur, e, wait_round) r,
          valid,
          none_over,
          elim seen [ inl absurd_flag ↦ cc absurd_flag | inr child_there ↦ child_there ],
        ))
  | inl (p, e, a, b, child, done) ↦ elim (Option-cases (slot s p)) [
    | inl gone ↦ cc (ap is_over gone, done)
    | inr (t, at) ↦
        let child' : is_child s.current me.pid pid p (some t) ≡ true =
          sym (ap (is_child s.current me.pid pid p) at) ∙ child in
        let run : wait_round s pid ≡ reap s p = rw (cur, e, wait_round) refl in
        inl (
          p,
          t,
          at,
          child',
          elim (Bool-cases (t.state == task_zombine)) [
            | inl dead ↦ inl (
              (==_iff t.state task_zombine).0 dead,
              subst (Reaped s p t) (sym run) (
                  reap-dead s p t me h cur at a (ground (arith, child'))
                    ((==_iff t.state task_zombine).0 dead)),
            )
            | inr other ↦
                inr (ground (arith, other, ap is_over at, done), run ∙ rw (at, other, reap) refl)
          ],
        )
  ]
]
