-- ===== src/Disk.antt =====
-- driver/virtio.c and include/disk/virtio.h: the queue of requests to the virtio disk. A `struct
-- buffer *` is the index of the buffer, and `pending` holds the field `disk` of each. An access
-- outside an array is a `fault`. One hart runs, so the spin lock that a call takes is free.
pub mod Taken
pub mod Grant
pub mod Handler
pub mod Chain
pub mod Transfer
pub mod Whole
pub mod Served
pub mod Asked
pub mod Init
mod Tests
use os.Util.{
  ℕ, zero, suc, ◌+◌, ◌*◌, ◌/◌, ◌%◌, ◌^◌, Bool, true, false, not, Option, none, some, List, [], ◌∷◌,
  ◌++◌, Run, ok, fault, out_of_fuel, ◌>>=◌, ◌>>◌, ensure, bit_and, bit_or, ◌&&◌, ◌==◌, ltb,
  if◌then◌else◌, get_elem?, set,
}
use os.Tasks.{Sched, wakeup}

abbrev pub queue_size : ℕ
queue_size = 8

abbrev pub flag_next : ℕ
flag_next = 1

abbrev pub flag_write : ℕ
flag_write = 2

pub record Desc : Type 0 where
  pub addr : ℕ
  pub len : ℕ
  pub flags : ℕ
  pub next : ℕ

pub record Avail : Type 0 where
  pub ring : List ℕ
  pub idx : ℕ

pub record UsedElem : Type 0 where
  pub id : ℕ
  pub len : ℕ

pub record Used : Type 0 where
  pub ring : List UsedElem
  pub idx : ℕ

pub record BlkReq : Type 0 where
  pub kind : ℕ
  pub reserved : ℕ
  pub sector : ℕ

-- `none` is the null pointer.
pub record Info : Type 0 where
  pub buf : Option ℕ
  pub status : ℕ

pub record Disk : Type 0 where
  pub desc : List Desc
  pub avail : Avail
  pub used : Used
  pub free : List ℕ
  pub used_idx : ℕ
  pub info : List Info
  pub ops : List BlkReq
  pub pending : List ℕ

-- Where the linker puts `disk.ops`, `disk.info` and the data of each buffer.
pub record Places : Type 0 where
  pub ops : ℕ
  pub info : ℕ
  pub bytes : ℕ → ℕ

abbrev pub fetch {ℓ} : {A : Type ℓ} → List A → ℕ → Run A
fetch xs i = elim (get_elem? xs i) [ none ↦ fault | some x ↦ ok x ]

abbrev pub no_desc : Desc
no_desc = record { addr = 0; len = 0; flags = 0; next = 0 }

-- A descriptor whose mark cannot be read is outside the table.
pub free_desc : Disk → ℕ → Run Disk
free_desc d i = do
  ensure (not (ltb queue_size i))
  mark ← fetch d.free i
  ensure (mark == 0)
  ok (record d { desc = set d.desc i no_desc; free = set d.free i 1 })

-- The descriptors stand in a page of 256 times 16 bytes: behind the table there is one to read, whose
-- content does not matter since `free_desc` then panics.
unfoldable pub read_desc : Disk → ℕ → Run Desc
read_desc d i = if ltb queue_size i && ltb i 256 then ok no_desc else fetch d.desc i

-- The loop of `free_chain`. Each round frees a descriptor that is taken.
pub free_chain : ℕ → Disk → ℕ → Run Disk
unfolding free_desc read_desc
free_chain zero d i = out_of_fuel
free_chain (suc fuel) d i = do
  here ← read_desc d i
  d' ← free_desc d i
  elim (bit_and here.flags flag_next == 0) [ true ↦ ok d' | false ↦ free_chain fuel d' here.next ]

-- The loop of `alloc_desc` over the marks from descriptor i on.
unfoldable pub find_desc : List ℕ → ℕ → Option ℕ
find_desc [] i = none
find_desc (mark ∷ marks) i =
    let rest = find_desc marks (suc i) in if mark == 0 then rest else some i

pub alloc_desc : Disk → Option ℕ × Disk
unfolding find_desc
alloc_desc d = elim (find_desc d.free 0) [
  | none ↦ (none, d)
  | some i ↦ (some i, record d { free = set d.free i 0 })
]

-- The loop on j.
pub give_back : Disk → List ℕ → Run Disk
unfolding free_desc
give_back d [] = ok d
give_back d (i ∷ index) = free_desc d i >>= λ d'. give_back d' index

-- The loop on i, with the descriptors that it has got.
pub alloc_rounds : ℕ → Disk → List ℕ → Run (Option (List ℕ) × Disk)
unfolding alloc_desc give_back
alloc_rounds zero d index = ok (some index, d)
alloc_rounds (suc rounds) d index =
    let (got, d') = alloc_desc d in
    elim got [
      | none ↦ give_back d' index >>= λ d''. ok (none, d'')
      | some i ↦ alloc_rounds rounds d' (index ++ i ∷ [])
    ]

pub alloc_descs : Disk → Run (Option (List ℕ) × Disk)
unfolding alloc_rounds
alloc_descs d = alloc_rounds 3 d []

abbrev pub request : Bool → ℕ → BlkReq
request write sector = record { kind = if write then 1 else 0; reserved = 0; sector = sector }

abbrev pub make_desc : ℕ → ℕ → ℕ → ℕ → Desc
make_desc addr len flags next = record { addr = addr; len = len; flags = flags; next = next }

-- From the setting of the request to the index of the ring of requests, which counts modulo 2^16.
pub submit : Places → ℕ → ℕ → Bool → ℕ → ℕ → ℕ → Disk → Disk
submit at buf block_no write i j k d =
    let header = make_desc (at.ops + 16 * i) 16 flag_next j in
    let bytes =
      make_desc (at.bytes buf) 512 (bit_or (if write then 0 else flag_write) flag_next) k in
    let status = make_desc (at.info + 16 * i + 8) 1 flag_write 0 in
    record d {
      ops = set d.ops i (request write (block_no * (512 / 512)));
      desc = set (set (set d.desc i header) j bytes) k status;
      info = set d.info i (record { buf = some buf; status = 0xff });
      pending = set d.pending buf 1;
      avail = record {
        ring = set d.avail.ring (d.avail.idx % queue_size) i;
        idx = (d.avail.idx + 1) % 2 ^ 16;
      };
    }

-- What happens while the function waits: the device works, interrupts come, other tasks run.
abbrev pub Others : Type 0
Others = Disk → Run Disk

-- The loop around `alloc_descs`, with the lock given up in between.
pub wait_descs : Others → ℕ → Disk → Run (List ℕ × Disk)
unfolding alloc_descs
wait_descs others zero d = out_of_fuel
wait_descs others (suc fuel) d = alloc_descs d >>= λ (got, d'). elim got [
  | none ↦ others d' >>= λ d''. wait_descs others fuel d''
  | some index ↦ ok (index, d')
]

-- The loop on `buf->disk`.
pub wait_done : Others → ℕ → ℕ → Disk → Run Disk
wait_done others zero buf d = out_of_fuel
wait_done others (suc fuel) buf d = fetch d.pending buf >>= λ busy. elim (busy == 0) [
  | true ↦ ok d
  | false ↦ others d >>= λ d'. wait_done others fuel buf d'
]

-- From the end of the wait on. A chain in the table has at most eight descriptors.
pub finish_request : ℕ → Disk → Run Disk
unfolding free_chain
finish_request i d = do
  entry ← fetch d.info i
  free_chain (suc queue_size) (record d { info = set d.info i (record entry { buf = none }) }) i

pub transfer : Places → Others → ℕ → ℕ → ℕ → Bool → List ℕ → Disk → Run Disk
unfolding submit wait_done finish_request
transfer at others fuel buf block_no write (i ∷ j ∷ k ∷ []) d =
    wait_done others fuel buf (submit at buf block_no write i j k d) >>= λ d'. finish_request i d'
transfer at others fuel buf block_no write index d = fault

pub virtio_disk_rw : Places → Others → ℕ → ℕ → ℕ → Bool → Disk → Run Disk
unfolding wait_descs transfer
virtio_disk_rw at others fuel buf block_no write d =
    wait_descs others fuel d >>= λ (index, d'). transfer at others fuel buf block_no write index d'

-- A round of the handler's loop: the request that the next element of the ring names is done.
pub complete : Disk → Run Disk
complete d = do
  element ← fetch d.used.ring (d.used_idx % queue_size)
  entry ← fetch d.info element.id
  ensure (entry.status == 0)
  elim entry.buf [
    | none ↦ fault
    | some buf ↦
        ok (record d { pending = set d.pending buf 0; used_idx = (d.used_idx + 1) % 2 ^ 16 })
  ]

pub drain : ℕ → Disk → Run Disk
unfolding complete
drain zero d = out_of_fuel
drain (suc fuel) d = elim (d.used_idx == d.used.idx) [
  | true ↦ ok d
  | false ↦ complete d >>= λ d'. drain fuel d'
]

pub virtio_disk_interrupt_handler : Disk → Sched → Run (Disk × Sched)
unfolding drain
virtio_disk_interrupt_handler d s = drain (2 ^ 16) d >>= λ d'. ok (d', wakeup s)
