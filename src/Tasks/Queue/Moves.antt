-- ===== src/Tasks/Queue/Moves.antt =====
-- Changes of the table of tasks that leave the ready queues alone.
use os.Util.{
  ℕ, ◌≤◌, ◌<◌, ◌≡◌, refl, sym, ap, ◌∙◌, arith, true, false, Bool-cases, inl, inr, ◌⊎◌, ◌==◌, ==_iff,
  Option, none, some, if◌then◌else◌, set, length, get_or-set_inside, length-set,
}
use os.Tasks.{Task, Sched, slot, is_none}
use os.Tasks.Queue.Valid.{fits, is_queued, place, IsSound}

-- What the queues know of a task: all but its father and its signals.
abbrev pub bare : Option Task → Option Task
bare none = none
bare (some t) = some (record t { father_pid = 0; signal = 0 })

bare-fits : (o : Option Task) → fits (bare o) ≡ fits o
bare-fits none = refl
bare-fits (some t) = refl

bare-place : (o : Option Task) (i : ℕ) → place (bare o) i ≡ place o i
bare-place none i = refl
bare-place (some t) i = refl

pub bare-is_queued : (o : Option Task) → is_queued (bare o) ≡ is_queued o
bare-is_queued none = refl
bare-is_queued (some t) = refl

pub bare-is_none : (o : Option Task) → is_none (bare o) ≡ is_none o
bare-is_none none = refl
bare-is_none (some t) = refl

-- A table that has the same tasks but for fathers and signals.
abbrev pub SameTasks : Sched → Sched → Type 0
SameTasks s s' =
    (length s'.task ≡ length s.task)
    × (s'.head ≡ s.head)
    × (s'.tail ≡ s.tail)
    × (s'.fresh ≡ s.fresh)
    × ((p : ℕ) → bare (slot s' p) ≡ bare (slot s p))

pub SameTasks-trans : (s s1 s2 : Sched) → SameTasks s s1 → SameTasks s1 s2 → SameTasks s s2
SameTasks-trans s s1 s2 (a, b, c, d, e) (a', b', c', d', e') =
    (a' ∙ a, b' ∙ b, c' ∙ c, d' ∙ d, λ p. e' p ∙ e p)

pub SameTasks-IsSound : (s s' : Sched) → SameTasks s s' → IsSound s → IsSound s'
SameTasks-IsSound s s' (len, head, tail, fresh, same) h =
    let queued : (p : ℕ) → is_queued (slot s' p) ≡ is_queued (slot s p) =
      λ p. sym (bare-is_queued (slot s' p)) ∙ ap is_queued (same p) ∙ bare-is_queued (slot s p) in
    let there : (p : ℕ) → is_none (slot s' p) ≡ is_none (slot s p) =
      λ p. sym (bare-is_none (slot s' p)) ∙ ap is_none (same p) ∙ bare-is_none (slot s p) in
    record {
      slots = len ∙ h.slots;
      heads = ap length head ∙ h.heads;
      tails = ap length tail ∙ h.tails;
      fit = λ p. sym (bare-fits (slot s' p)) ∙ ap fits (same p) ∙ bare-fits (slot s p) ∙ h.fit p;
      linked = λ o. rw (head, tail, fresh) (h.linked o);
      once = λ o p. rw head (
          h.once o p
          ∙ sym (bare-place (slot s p) o)
          ∙ sym (ap (λ t. place t o) (same p))
          ∙ bare-place (slot s' p) o);
      idle = (there 0 ∙ h.idle.0, queued 0 ∙ h.idle.1);
    }

-- A task that is in no queue may change, or go, if it stays out of the queues.
pub set-IsSound :
    (s : Sched) (p : ℕ) (o : Option Task)
    → p < 64
    → is_queued (slot s p) ≡ false
    → is_queued o ≡ false
    → fits o ≡ true
    → (is_none o ≡ false) ⊎ (1 ≤ p)
    → IsSound s
    → IsSound (record s { task = set s.task p o })
set-IsSound s p o lt out stays fit kept h =
    let inside : p < length s.task = omega (arith, h.slots) in
    let at_most = get_or-set_inside s.task p in
    record {
      slots = length-set s.task p o ∙ h.slots;
      heads = h.heads;
      tails = h.tails;
      fit = λ q.
          rw (at_most q o none inside)
            (elim (q == p) as (λ b. fits (if b then o else slot s q) ≡ true) [
              | true ↦ fit
              | false ↦ h.fit q
            ]);
      linked = h.linked;
      once = λ i q.
          h.once i q
          ∙ rw (at_most q o none inside) (elim (Bool-cases (q == p)) [
            | inr other ↦ rw other refl
            | inl same ↦ rw same (
                ap (λ (j : ℕ). place (slot s j) i) ((==_iff q p).0 same)
                ∙ unplaced (slot s p) i out
                ∙ sym (unplaced o i stays))
          ]);
      idle = rw (at_most 0 o none inside) (elim (Bool-cases (0 == p)) [
        | inr other ↦ rw other h.idle
        | inl same ↦ rw same (elim kept [
          | inl there ↦ (there, stays)
          | inr from ↦ absurd (ground (arith, same, from))
        ])
      ]);
    }
  where
    unplaced : (o : Option Task) (i : ℕ) → is_queued o ≡ false → place o i ≡ 0
    unplaced none i e = refl
    unplaced (some t) i e = ground (arith, e)

-- The other fields of the state do not matter.
pub with_ids-IsSound :
    (s : Sched) (c n m j : ℕ)
    → IsSound s
    → IsSound (record s { current = c; new_pid = n; new_pcbid = m; jiffies = j })
with_ids-IsSound s c n m j h = record {
  slots = h.slots;
  heads = h.heads;
  tails = h.tails;
  fit = h.fit;
  linked = h.linked;
  once = h.once;
  idle = h.idle;
}
