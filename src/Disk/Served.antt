-- ===== src/Disk/Served.antt =====
-- driver/virtio.c: a request that the device answers with one interrupt.
use os.Util.{
  ℕ, ◌+◌, ◌%◌, ◌^◌, ◌<◌, ◌≡◌, refl, sym, ◌≢◌, ◌∙◌, ap, arith, Bool, none, some, List, ◌∷◌, ok,
  map_run, get_elem?, get_or, set, length, length-set, get_or-set_self, get_or-set_inside,
  get_or-set_ne, get_elem?-set_self, get_elem?-eq-get_or, get_or_ext,
}
use mathlib.Core.Path.{subst}
use os.Disk.{
  Disk, Places, Info, Others, virtio_disk_rw, virtio_disk_interrupt_handler, submit, queue_size,
}
use os.Disk.Taken.{IsTable, frees, take}
use os.Disk.Handler.{Answers, Drained, owner_of_elem, owner_of_info, interrupt_handler-Drained}
use os.Disk.Chain.{Three, Holds, Holds-submit}
use os.Disk.Transfer.{Busy, released, forget}
use os.Disk.Whole.{Allocated, frees-Allocated, Served, asked, rw-released}
use os.Tasks.{Sched}

abbrev silent : Info
silent = record { buf = none; status = 0 }

-- A device that has done the request of the chain from i on with success says so in its ring and
-- in the status byte.
abbrev pub answer : Disk → ℕ → ℕ → Disk
answer d i len = record d {
  used = record {
    ring = set d.used.ring (d.used.idx % queue_size) (record { id = i; len = len });
    idx = (d.used.idx + 1) % 2 ^ 16;
  };
  info = set d.info i (record (get_or d.info i silent) { status = 0 });
}

-- The device works, and the interrupt comes.
abbrev pub serve : (Disk → Disk) → Sched → Others
serve device s d = map_run (λ p. p.0) (virtio_disk_interrupt_handler (device d) s)

-- No answer is left from before.
pub record IsQuiet (d : Disk) : Type 0 where
  pub table : IsTable d
  pub ring : length d.used.ring ≡ 8
  pub seen : d.used_idx ≡ d.used.idx
  pub small : d.used.idx < 2 ^ 16

module _ (at : Places) (buf block_no : ℕ) (write : Bool) (i j k len : ℕ) (d : Disk) (q : IsQuiet d)
    (lt : i < 8) (inside : buf < length d.pending) where
  answer-Answers : Answers (answer (asked at buf block_no write i j k d) i len) 1 (λ t. buf)
  unfolding submit
  answer-Answers = record {
    seen = omega (arith, q.seen, q.small);
    short = omega arith;
    count = omega (arith, q.seen);
    owned = λ t h.
        ap (λ p. owner_of_elem done (get_elem? done.used.ring p)) (place t h)
        ∙ ap (owner_of_elem done) (
            get_elem?-set_self d.used.ring (d.used.idx % 8) (record { id = i; len = len })
              (omega (arith, q.ring)))
        ∙ ap owner_of_info (
            get_elem?-set_self asked_info i (record (get_or asked_info i silent) { status = 0 })
              (omega (arith, length-set d.info i posted, q.table.info_len)))
        ∙ ap (λ x. x.buf)
            (get_or-set_self d.info i posted silent (omega (arith, q.table.info_len)));
    inside = λ t h. omega (arith, length-set d.pending buf 1);
  }
    where
      done : Disk
      done = answer (asked at buf block_no write i j k d) i len

      posted : Info
      posted = record { buf = some buf; status = 0xff }

      asked_info : List Info
      asked_info = set d.info i posted

      place : (t : ℕ) → t < 1 → (d.used_idx + t) % 2 ^ 16 % 8 ≡ d.used.idx % 8
      place t h = omega (arith, q.seen, q.small)

restored_three :
    (d : Disk) (i j k : ℕ)
    → IsTable d
    → Allocated d i j k
    → (released (take (take (take d i) j) k) i j k).free ≡ d.free
restored_three d i j k t a =
    get_or_ext 0 (set (set (set (set (set (set d.free i 0) j 0) k 0) i 1) j 1) k 1) d.free
      (omega (arith, s1, s2, s3, s4, s5, s6))
      λ n. ground (
        arith,
        a.marked,
        get_or-set_inside m5 k n 1 0 (omega (arith, s1, s2, s3, s4, s5, t.free_len, x.third)),
        get_or-set_inside m4 j n 1 0 (omega (arith, s1, s2, s3, s4, t.free_len, x.second)),
        get_or-set_inside m3 i n 1 0 (omega (arith, s1, s2, s3, t.free_len, x.first)),
        get_or-set_inside m2 k n 0 0 (omega (arith, s1, s2, t.free_len, x.third)),
        get_or-set_inside m1 j n 0 0 (omega (arith, s1, t.free_len, x.second)),
        get_or-set_inside d.free i n 0 0 (omega (arith, t.free_len, x.first)),
        λ (e : n ≡ i). ap (λ (y : ℕ). get_or d.free y 0) e,
        λ (e : n ≡ j). ap (λ (y : ℕ). get_or d.free y 0) e,
        λ (e : n ≡ k). ap (λ (y : ℕ). get_or d.free y 0) e,
      )
  where
    x : Three i j k
    x = a.three

    m1 : List ℕ
    m1 = set d.free i 0

    m2 : List ℕ
    m2 = set m1 j 0

    m3 : List ℕ
    m3 = set m2 k 0

    m4 : List ℕ
    m4 = set m3 i 1

    m5 : List ℕ
    m5 = set m4 j 1

    s1 : length m1 ≡ length d.free
    s1 = length-set d.free i 0

    s2 : length m2 ≡ length m1
    s2 = length-set m1 j 0

    s3 : length m3 ≡ length m2
    s3 = length-set m2 k 0

    s4 : length m4 ≡ length m3
    s4 = length-set m3 i 1

    s5 : length m5 ≡ length m4
    s5 = length-set m4 j 1

    s6 : length (set m5 k 1) ≡ length m5
    s6 = length-set m5 k 1

-- The outcome of a request: the marks are as before, the buffer does not wait, the other buffers
-- are as before, and the queue is quiet again.
pub record Settled (d f : Disk) (buf : ℕ) : Type 0 where
  pub marks : f.free ≡ d.free
  pub ready : get_or f.pending buf 0 ≡ 0
  pub others : (b : ℕ) → b ≢ buf → get_or f.pending b 0 ≡ get_or d.pending b 0
  pub seen : f.used_idx ≡ f.used.idx
  pub asked_one : f.avail.idx ≡ (d.avail.idx + 1) % 2 ^ 16
  pub answered_one : f.used.idx ≡ (d.used.idx + 1) % 2 ^ 16

Drained-IsTable :
    (at : Places) (buf block_no : ℕ) (write : Bool) (i j k len : ℕ) (d : Disk)
    → IsQuiet d
    → Allocated d i j k
    → (m : Disk) → Drained (answer (asked at buf block_no write i j k d) i len) m 1 (λ t. buf)
    → IsTable m
unfolding submit
Drained-IsTable at buf block_no write i j k len d q a m r = subst IsTable (sym r.frame) (record {
  free_len = a.table.free_len;
  desc_len =
      length-set (set (set d.desc i _) j _) k _
      ∙ length-set (set d.desc i _) j _
      ∙ length-set d.desc i _
      ∙ q.table.desc_len;
  info_len =
      length-set (set d.info i posted) i
        (record (get_or (set d.info i posted) i silent) { status = 0 })
      ∙ length-set d.info i posted
      ∙ q.table.info_len;
  mark = a.table.mark;
})
  where
    posted : Info
    posted = record { buf = some buf; status = 0xff }

-- If three descriptors are free, no answer is outstanding, and the device answers the request with
-- success, `virtio_disk_rw` returns: it has asked once, the handler of the one interrupt has seen
-- the answer, the buffer does not wait, and every descriptor is as free as before.
pub rw-Settled :
    (at : Places) (device : Disk → Disk) (s : Sched) (fuel buf block_no : ℕ) (write : Bool)
    (i j k len : ℕ) (rest : List ℕ) (d : Disk)
    → IsQuiet d
    → frees d.free 0 ≡ i ∷ j ∷ k ∷ rest
    → buf < length d.pending
    → device (asked at buf block_no write i j k d)
      ≡ answer (asked at buf block_no write i j k d) i len
    → 1 < fuel
    → (f : Disk) × (virtio_disk_rw at (serve device s) fuel buf block_no write d ≡ ok f)
      × Settled d f buf
unfolding submit
rw-Settled at device s fuel buf block_no write i j k len rest d q e inside works lt =
    let a = frees-Allocated d i j k rest q.table e in
    let wait = asked at buf block_no write i j k d in
    let said = answer wait i len in
    let (m, run, r) =
      interrupt_handler-Drained said s 1 (λ t. buf)
        (answer-Answers at buf block_no write i j k len d q a.three.first inside) in
    let served : Served (serve device s) buf 1 wait m = (
      1,
      get_elem?-set_self d.pending buf 1 inside,
      omega arith,
      m,
      ap (λ x. map_run (λ p. p.0) (virtio_disk_interrupt_handler x s)) works
          ∙ ap (map_run (λ p. p.0)) run,
      (
        get_elem?-eq-get_or m.pending buf 0 (omega (arith, r.size, length-set d.pending buf 1))
            ∙ ap some (r.ready 0 (omega arith)),
        refl,
      ),
    ) in
    (
      released (forget m i) i j k,
      rw-released at (serve device s) fuel buf block_no write i j k 1 rest d m q.table e lt served
          (Drained-IsTable at buf block_no write i j k len d q a m r)
          (subst (λ x. Holds at buf write i j k x.desc) (sym r.frame)
            (Holds-submit at buf block_no write i j k (take (take (take d i) j) k) a.table a.three))
          (subst (λ x. Busy i j k x.free) (sym r.frame) a.busy),
      record {
        marks = ap (λ x. (released x i j k).free) r.frame ∙ restored_three d i j k q.table a;
        ready = r.ready 0 (omega arith);
        others = λ b other.
            r.kept b (λ t h same. other (sym same))
            ∙ get_or-set_ne d.pending buf b 1 0 (λ same. other (sym same));
        seen = r.caught_up ∙ sym (ap (λ x. x.used.idx) r.frame);
        asked_one = ap (λ x. x.avail.idx) r.frame;
        answered_one = ap (λ x. x.used.idx) r.frame;
      },
    )
