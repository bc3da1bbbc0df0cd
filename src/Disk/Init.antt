-- ===== src/Disk/Init.antt =====
-- driver/virtio.c: `Init_virtio`. The device is a function from the writes so far, the last one
-- first, to the value that a register has then. The memory that `malloc` gives for the queue is
-- cleared, and so is the queue of the model.
pub mod Started
mod Tests
use os.Util.{
  ℕ, zero, suc, ◌+◌, ◌-◌, ◌/◌, ◌%◌, ◌^◌, ◌≤◌, ◌<◌, ◌≡◌, refl, sym, ◌∙◌, ap, arith, Bool, true,
  false, not, ◌&&◌, ◌||◌, none, some, List, [], ◌∷◌, Run, ok, panic, ◌>>=◌, ◌>>◌, ensure, >>=-eq-ok,
  ok-injective, bit_and, bit_or, ◌==◌, ltb, if◌then◌else◌, get_or, set, length, replicate,
}
use mathlib.Core.Path.{subst}
use os.Malloc.{Heap, malloc}
use os.Disk.{Disk, no_desc, queue_size}

pub data Register : Type 0 where
  magic_value device_version device_id vendor_id : Register
  device_features driver_features : Register
  queue_sel queue_num_max queue_num queue_ready : Register
  device_status : Register
  queue_desc_low queue_desc_high : Register
  queue_driver_low queue_driver_high : Register
  queue_device_low queue_device_high : Register

abbrev pub Trace : Type 0
Trace = List (Register × ℕ)

abbrev pub Device : Type 0
Device = Trace → Register → ℕ

-- Before anything is written.
abbrev pub is_disk : Device → Bool
is_disk dev =
    ((dev [] magic_value == 0x74726976) && (dev [] device_version == 2))
    && ((dev [] device_id == 2) && (dev [] vendor_id == 0x554d4551))

-- features &= ~(1 << k)
abbrev pub without : ℕ → ℕ → ℕ
without k features = bit_and features (2 ^ 32 - 1 - 2 ^ k)

-- VIRTIO_BLK_F_RO, _SCSI, _CONFIG_WCE and _MQ, VIRTIO_F_ANY_LAYOUT, VIRTIO_RING_F_EVENT_IDX and
-- VIRTIO_RING_F_INDIRECT_DESC
abbrev pub accepted : ℕ → ℕ
accepted features =
    without 28 (without 29 (without 27 (without 12 (without 11 (without 7 (without 5 features))))))

-- The reset, the two first status bits, the features, and the status with FEATURES_OK.
pub negotiate : Device → Trace
negotiate dev =
    let known : Trace = (device_status, 3) ∷ (device_status, 1) ∷ (device_status, 0) ∷ [] in
    (device_status, 11) ∷ (driver_features, accepted (dev known device_features)) ∷ known

-- The status is read back, and the queue's size and state are tested.
pub select_queue : Device → Trace → Run (Trace × ℕ)
select_queue dev t = do
  let status = dev t device_status
  ensure (not (bit_and status 8 == 0))
  let t' = (queue_sel, 0) ∷ t
  ensure (dev t' queue_ready == 0)
  ensure (not (dev t' queue_num_max == 0))
  ensure (not (ltb (dev t' queue_num_max) queue_size))
  ok (t', status)

-- The size and the addresses of the queue, which is ready then.
abbrev pub place_queue : ℕ → ℕ → ℕ → Trace → Trace
place_queue table avail used t =
    (queue_ready, 1)
    ∷ (queue_device_high, used / 2 ^ 32)
    ∷ (queue_device_low, used % 2 ^ 32)
    ∷ (queue_driver_high, avail / 2 ^ 32)
    ∷ (queue_driver_low, avail % 2 ^ 32)
    ∷ (queue_desc_high, table / 2 ^ 32)
    ∷ (queue_desc_low, table % 2 ^ 32)
    ∷ (queue_num, queue_size)
    ∷ t

-- The loop that marks the descriptors from i on as free.
unfoldable pub mark_free : List ℕ → ℕ → ℕ → List ℕ
mark_free marks i zero = marks
mark_free marks i (suc count) = mark_free (set marks i 1) (suc i) count

abbrev pub cleared_queue : Disk → Disk
cleared_queue d = record d {
  desc = replicate 8 no_desc;
  avail = record { ring = replicate 8 0; idx = 0 };
  used = record { ring = replicate 8 (record { id = 0; len = 0 }); idx = 0 };
  free = mark_free d.free 0 queue_size;
}

-- The memory of the queue.
pub queue_memory : ℕ → Heap → Run ((ℕ × ℕ × ℕ) × Heap)
queue_memory fuel h = do
  (table, h1) ← malloc fuel h 4096
  (avail, h2) ← malloc fuel h1 4096
  (used, h3) ← malloc fuel h2 4096
  ensure (not ((table == 0) || ((avail == 0) || (used == 0))))
  ok ((table, avail, used), h3)

pub init_virtio : Device → ℕ → Heap → Disk → Run (Trace × Heap × Disk)
unfolding negotiate select_queue queue_memory mark_free
init_virtio dev fuel h d = do
  ensure (is_disk dev)
  (t, status) ← select_queue dev (negotiate dev)
  ((table, avail, used), h') ← queue_memory fuel h
  ok ((device_status, bit_or status 4) ∷ place_queue table avail used t, h', cleared_queue d)
