-- ===== src/Disk/Handler.antt =====
-- driver/virtio.c: what the interrupt handler answers.
use os.Util.{
  ℕ, zero, suc, ◌+◌, ◌%◌, ◌^◌, ◌<◌, ◌≡◌, refl, ◌≢◌, ◌∙◌, ap, arith, ==_ne, ◌==◌, true, false,
  Option, none, some, ok, ◌>>=◌, if◌then◌else◌, get_elem?, get_or, set, length, length-set,
  get_or-set_inside,
}
use os.Disk.{Disk, UsedElem, Info, queue_size, complete, drain, virtio_disk_interrupt_handler}
use os.Tasks.{Sched, wakeup}

abbrev pub owner_of_info : Option Info → Option ℕ
owner_of_info none = none
owner_of_info (some x) = if x.status == 0 then x.buf else none

abbrev pub owner_of_elem : Disk → Option UsedElem → Option ℕ
owner_of_elem d none = none
owner_of_elem d (some e) = owner_of_info (get_elem? d.info e.id)

-- The buffer whose request the element at a position of the ring of answers names, where the
-- device has answered it with success.
abbrev pub owner : Disk → ℕ → Option ℕ
owner d p = owner_of_elem d (get_elem? d.used.ring (p % queue_size))

abbrev pub answered : Disk → ℕ → Disk
answered d b = record d { pending = set d.pending b 0; used_idx = (d.used_idx + 1) % 2 ^ 16 }

pub complete_lem : (d : Disk) (b : ℕ) → owner d d.used_idx ≡ some b → complete d ≡ ok (answered d b)
unfolding complete
complete_lem d b e = ground arith

-- The first n answers that the driver has not seen name the buffers `buf 0`, `buf 1` and so on.
pub record Answers (d : Disk) (n : ℕ) (buf : ℕ → ℕ) : Type 0 where
  pub seen : d.used_idx < 2 ^ 16
  pub short : n < 2 ^ 16
  pub count : (d.used_idx + n) % 2 ^ 16 ≡ d.used.idx
  pub owned : (t : ℕ) → t < n → owner d ((d.used_idx + t) % 2 ^ 16) ≡ some (buf t)
  pub inside : (t : ℕ) → t < n → buf t < length d.pending

Answers-step :
    (d : Disk) (n : ℕ) (buf : ℕ → ℕ)
    → Answers d (suc n) buf
    → Answers (answered d (buf 0)) n (λ t. buf (suc t))
Answers-step d n buf a = record {
  seen = omega (arith);
  short = omega (arith, a.short);
  count = omega (arith, a.count, a.seen, a.short);
  owned = λ t lt. ap (λ p. owner d p) (next t) ∙ a.owned (suc t) (omega arith);
  inside = λ t lt. omega (arith, length-set d.pending (buf 0) 0, a.inside (suc t) (omega arith));
}
  where
    next : (t : ℕ) → ((d.used_idx + 1) % 2 ^ 16 + t) % 2 ^ 16 ≡ (d.used_idx + suc t) % 2 ^ 16
    next t = omega arith

-- The state after all answers: the driver has seen them, the buffers that they name do not wait
-- any more, and nothing else changes.
pub record Drained (d d' : Disk) (n : ℕ) (buf : ℕ → ℕ) : Type 0 where
  pub caught_up : d'.used_idx ≡ d.used.idx
  pub frame : d' ≡ record d { pending = d'.pending; used_idx = d'.used_idx }
  pub size : length d'.pending ≡ length d.pending
  pub ready : (t : ℕ) → t < n → get_or d'.pending (buf t) 0 ≡ 0
  pub stays : (b : ℕ) → get_or d.pending b 0 ≡ 0 → get_or d'.pending b 0 ≡ 0
  pub kept : (b : ℕ) → ((t : ℕ) → t < n → buf t ≢ b) → get_or d'.pending b 0 ≡ get_or d.pending b 0

Drained-step :
    (d d' : Disk) (n : ℕ) (buf : ℕ → ℕ)
    → Answers d (suc n) buf
    → Drained (answered d (buf 0)) d' n (λ t. buf (suc t))
    → Drained d d' (suc n) buf
Drained-step d d' n buf a r = record {
  caught_up = r.caught_up;
  frame = r.frame;
  size = omega (arith, r.size, length-set d.pending (buf 0) 0);
  ready = ready;
  stays = λ b e. r.stays b (ground (arith, first b, e));
  kept = λ b other.
      r.kept b (λ t lt. other (suc t) (omega arith))
      ∙ ground (arith, first b, other 0 (omega arith));
}
  where
    first :
        (b : ℕ)
        → get_or (set d.pending (buf 0) 0) b 0 ≡ (if b == buf 0 then 0 else get_or d.pending b 0)
    first b = get_or-set_inside d.pending (buf 0) b 0 0 (a.inside 0 (omega arith))

    ready : (t : ℕ) → t < suc n → get_or d'.pending (buf t) 0 ≡ 0
    ready zero lt = r.stays (buf 0) (ground (arith, first (buf 0)))
    ready (suc t) lt = r.ready t (omega arith)

drain-Drained :
    (n fuel : ℕ) (d : Disk) (buf : ℕ → ℕ)
    → n < fuel
    → Answers d n buf
    → (d' : Disk) × (drain fuel d ≡ ok d') × Drained d d' n buf
unfolding drain
drain-Drained n zero d buf lt a = absurd (omega arith)
drain-Drained zero (suc fuel) d buf lt a =
    let same : d.used_idx ≡ d.used.idx = omega (arith, a.count, a.seen) in
    (
      d,
      elim_on_test (ground (arith, same)),
      record {
        caught_up = same;
        frame = refl;
        size = refl;
        ready = λ t h. absurd (omega arith);
        stays = λ b e. e;
        kept = λ b other. refl;
      },
    )
  where
    elim_on_test : (d.used_idx == d.used.idx) ≡ true → drain (suc fuel) d ≡ ok d
    elim_on_test e = ap (λ b. elim b [ true ↦ ok d | false ↦ complete d >>= λ d'. drain fuel d' ]) e
drain-Drained (suc n) (suc fuel) d buf lt a =
    let here : owner d d.used_idx ≡ some (buf 0) =
      ap (λ p. owner d p) (omega (arith, a.seen)) ∙ a.owned 0 (omega arith) in
    let (d', run, r) =
      drain-Drained n fuel (answered d (buf 0)) (λ t. buf (suc t)) (omega arith)
        (Answers-step d n buf a) in
    (
      d',
      ap (λ b. elim b [ true ↦ ok d | false ↦ complete d >>= λ d'. drain fuel d' ])
            (==_ne d.used_idx d.used.idx (omega (arith, a.count, a.seen, a.short)))
          ∙ ap (λ r. r >>= λ d'. drain fuel d') (complete_lem d (buf 0) here)
          ∙ run,
      Drained-step d d' n buf a r,
    )

-- If the device has answered n requests with success, fewer than the index of the ring counts, the
-- handler ends, with every answer seen: the buffers that they name do not wait any more, all other
-- buffers and the rest of the queue stay as they are, and the tasks that wait are woken.
pub interrupt_handler-Drained :
    (d : Disk) (s : Sched) (n : ℕ) (buf : ℕ → ℕ)
    → Answers d n buf
    → (d' : Disk) × (virtio_disk_interrupt_handler d s ≡ ok (d', wakeup s)) × Drained d d' n buf
unfolding virtio_disk_interrupt_handler
interrupt_handler-Drained d s n buf a =
    let (d', run, r) = drain-Drained n (2 ^ 16) d buf (omega (arith, a.short)) a in
    (d', ap (λ o. o >>= λ d'. ok (d', wakeup s)) run, r)
