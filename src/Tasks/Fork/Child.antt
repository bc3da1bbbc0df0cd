-- ===== src/Tasks/Fork/Child.antt =====
-- What a new task has of the one that forks.
use os.Util.{
  ℕ, zero, suc, ◌+◌, ◌-◌, ◌*◌, ◌%◌, ◌^◌, ◌≤◌, ◌<◌, ◌≡◌, refl, sym, ap, ◌∙◌, arith, true, false,
  Bool-cases, inl, inr, ◌⊎◌, ◌==◌, ◌&&◌, Option, none, some, List, ok, panic, leb, ltb,
  if◌then◌else◌, get_or, set, length, length-set, get_or-set_inside, get_or-set_ne, ◌≢◌, ==_iff,
}
use os.Tasks.{Task, Sched, slot, is_none, max_task, find_new_id}
use os.Tasks.Fork.{
  copy_bytes, copy_memory, copy_process, sys_fork, child_of, in_new_stack, sub_64, stack_top,
}
use os.Tasks.Queue.Moves.{set-IsSound, with_ids-IsSound}
use os.Tasks.Queue.Settle.{slot_inside}
use os.Tasks.Queue.Valid.{fits, is_queued, IsSound, IsValid}
use os.Tasks.Slots.{take_id_lem}

-- Copying n bytes between areas that lie apart.
copy_bytes_lem :
    (stacks : List ℕ) (from to n j : ℕ)
    → to + n ≤ length stacks
    → (from + n ≤ to) ⊎ (to + n ≤ from)
    → get_or (copy_bytes stacks from to n) j 0 ≡ (
        if leb to j && ltb j (to + n) then get_or stacks (from + (j - to)) 0 else get_or stacks j 0)
unfolding copy_bytes
copy_bytes_lem stacks from to zero j inside apart = ground arith
copy_bytes_lem stacks from to (suc i) j inside apart =
    let stacks' = set stacks (to + i) (get_or stacks (from + i) 0) in
    let before =
      copy_bytes_lem stacks' from to i j
        (omega (arith, length-set stacks (to + i) (get_or stacks (from + i) 0))) (narrow apart) in
    let at =
      λ (k : ℕ). get_or-set_inside stacks (to + i) k (get_or stacks (from + i) 0) 0 (omega arith) in
    elim (Bool-cases (j == to + i)) [
      | inl last ↦
          let place : from + (j - to) ≡ from + i = ground (arith, last) in
          ground (arith, before, at j, last, ap (λ (k : ℕ). get_or stacks k 0) place)
      | inr other ↦ ground (arith, before, at j, at (from + (j - to)), other, apart)
    ]
  where
    narrow : (from + suc i ≤ to) ⊎ (to + suc i ≤ from) → (from + i ≤ to) ⊎ (to + i ≤ from)
    narrow (inl h) = inl (omega arith)
    narrow (inr h) = inr (omega arith)

-- The bytes of the stack of `old` are at the same places of the stack of `new`, and all others are
-- as they were.
pub copy_memory_lem :
    (stacks : List ℕ) (old new : ℕ)
    → old < 64
    → new < 64
    → (old == new) ≡ false
    → length stacks ≡ 64 * 4096
    → ((i : ℕ)
        → i < 4096
        → get_or (copy_memory stacks old new) (new * 4096 + i) 0 ≡ get_or stacks (old * 4096 + i) 0)
      × ((j : ℕ)
          → (leb (new * 4096) j && ltb j (new * 4096 + 4096)) ≡ false
          → get_or (copy_memory stacks old new) j 0 ≡ get_or stacks j 0)
unfolding copy_memory
copy_memory_lem stacks old new below below' aside len =
    let copied =
      λ (j : ℕ). copy_bytes_lem stacks (old * 4096) (new * 4096) 4096 j (omega arith) apart in
    (
      λ i lt. ground (
        arith,
        copied (new * 4096 + i),
        ap (λ (k : ℕ). get_or stacks (old * 4096 + k) 0) (same i),
      ),
      λ j out. ground (arith, copied j, out),
    )
  where
    apart : (old * 4096 + 4096 ≤ new * 4096) ⊎ (new * 4096 + 4096 ≤ old * 4096)
    apart = elim (Bool-cases (ltb old new)) [
      | inl lt ↦ inl (ground (arith, lt))
      | inr ge ↦ inr (ground (arith, ge, aside))
    ]

    same : (i : ℕ) → new * 4096 + i - new * 4096 ≡ i
    same i = omega arith

-- An address of the old stack is moved to the same place of the new one.
moved_lem :
    (base old new off : ℕ)
    → old < 64
    → new < 64
    → off < 4096
    → base + 64 * 4096 ≤ 2 ^ 64
    → in_new_stack base old new (base + old * 4096 + off) ≡ base + new * 4096 + off
moved_lem base old new off below below' inside fits =
    let depth : sub_64 (stack_top base old) (base + old * 4096 + off) ≡ 4095 - off = omega arith in
    rw depth (omega arith)

-- In a valid state with a free slot, where `malloc` gives an address and the last process number is
-- below INT_MAX, `sys_fork` of a task whose slot
-- is its `pcb_id`, and whose stack pointer is `off` bytes into its stack, takes a free slot for a new
-- task, in a valid state: a child of the task, with the next process number, for which the call
-- returns 0 behind the `ecall`. Its stack, among 64 below 2 ^ 64, holds the same bytes, with its stack
-- pointer at the same place; the other stacks and slots are as before.
pub sys_fork-child :
    (base p : ℕ) (s : Sched) (stacks : List ℕ) (t : Task) (free off : ℕ)
    → IsValid s
    → s.new_pid < 2 ^ 31 - 1
    → slot s s.current ≡ some t
    → t.pcb_id ≡ s.current
    → t.context.sp ≡ base + s.current * 4096 + off
    → off < 4096
    → base + 64 * 4096 ≤ 2 ^ 64
    → length stacks ≡ 64 * 4096
    → 1 ≤ free
    → free < 64
    → is_none (slot s free) ≡ true
    → (n : ℕ) × (child : Task) × (s' : Sched) × (stacks' : List ℕ) × (sys_fork base
          (some p)
          s
          stacks
        ≡ ok (child.pid, s', stacks'))
      × IsValid s'
      × (is_none (slot s n) ≡ true)
      × (s'.task ≡ set s.task n (some child))
      × (child.father_pid ≡ t.pid)
      × (child.pid ≡ s.new_pid + 1)
      × (child.context.a0 ≡ 0)
      × (child.context.epc ≡ (t.context.epc + 4) % 2 ^ 64)
      × (child.context.sp ≡ base + n * 4096 + off)
      × ((i : ℕ)
          → i < 4096
          → get_or stacks' (n * 4096 + i) 0 ≡ get_or stacks (s.current * 4096 + i) 0)
      × ((j : ℕ)
          → (leb (n * 4096) j && ltb j (n * 4096 + 4096)) ≡ false
          → get_or stacks' j 0 ≡ get_or stacks j 0)
unfolding sys_fork find_new_id copy_process
sys_fork-child base p s stacks t free off h room at own sp inside fits len from to empty =
    elim (take_id_lem s) [
      | inr (e, all) ↦ cc (all free from to, empty)
      | inl (n, e, le, lt, none_there, taken) ↦
          let s1 : Sched = record s { new_pid = s.new_pid + 1; new_pcbid = n } in
          let child = child_of base p s1 t in
          let s' : Sched = record s1 { task = set s.task n (some child) } in
          let below : s.current < 64 =
            omega (arith, slot_inside s.task s.current at, h.sound.slots) in
          let aside : (s.current == n) ≡ false = elim (Bool-cases (s.current == n)) [
            | inr other ↦ other
            | inl same ↦ cc (
              ap (λ (k : ℕ). is_none (slot s k)) ((==_iff s.current n).0 same),
              none_there,
              ap is_none at,
            )
          ] in
          let sound : IsSound s' = with_ids-IsSound _ s.current (s.new_pid + 1) n s.jiffies (
            set-IsSound s n (some child) lt (unqueued (slot s n) none_there) refl refl (inl refl)
              h.sound) in
          let full : leb 64 n ≡ false = ground arith in
          let room' : leb (2 ^ 31 - 1) s.new_pid ≡ false = ground (arith, room) in
          let apart : s.current ≢ n = λ e. ground (arith, aside, e) in
          let kept : slot s' s.current ≡ slot s s.current =
            get_or-set_ne s.task n s.current (some child) none (λ e. apart (sym e)) in
          let (copied, rest) = copy_memory_lem stacks s.current n below lt aside len in
          (
            n,
            child,
            s',
            copy_memory stacks s.current n,
            rw (room', find_new_id) refl
                ∙ ap
                    (λ r. if leb max_task r.0 then panic else copy_process base (some p) r.1 stacks)
                    e
                ∙ rw (full, at, copy_process)
                    (ap (λ (c : ℕ). ok (child.pid, s', copy_memory stacks c n)) own),
            record { sound = sound; running = rw kept h.running },
            none_there,
            refl,
            refl,
            refl,
            refl,
            refl,
            rw (sp, own) (moved_lem base s.current n off below lt inside fits),
            copied,
            rest,
          )
    ]
  where
    unqueued : (o : Option Task) → is_none o ≡ true → is_queued o ≡ false
    unqueued none e = refl
    unqueued (some t) e = cc
