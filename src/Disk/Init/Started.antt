-- ===== src/Disk/Init/Started.antt =====
-- driver/virtio.c: what `Init_virtio` finds and leaves, if it returns.
use os.Util.{ℕ, ◌≤◌, ◌≡◌, true, false, [], ◌∷◌, bit_and, bit_or, ◌==◌}
use os.Disk.{Disk, queue_size}
use os.Disk.Taken.{frees}
use os.Disk.Served.{IsQuiet}
use os.Disk.Init.{
  Trace, Device, queue_sel, queue_num_max, queue_ready, device_status, is_disk, negotiate,
  place_queue,
}

-- What a start that succeeds has found and left.
pub record Started (dev : Device) (d : Disk) (t : Trace) (d' : Disk) : Type 0 where
  pub known : is_disk dev ≡ true
  pub features : (bit_and (dev (negotiate dev) device_status) 8 == 0) ≡ false
  pub unused : dev ((queue_sel, 0) ∷ negotiate dev) queue_ready ≡ 0
  pub large : queue_size ≤ dev ((queue_sel, 0) ∷ negotiate dev) queue_num_max
  pub writes :
      (table : ℕ) × (avail : ℕ) × (used : ℕ) × (t
        ≡ (device_status, bit_or (dev (negotiate dev) device_status) 4)
          ∷ place_queue table avail used ((queue_sel, 0) ∷ negotiate dev))
  pub quiet : IsQuiet d'
  pub all_free : frees d'.free 0 ≡ 0 ∷ 1 ∷ 2 ∷ 3 ∷ 4 ∷ 5 ∷ 6 ∷ 7 ∷ []

-- What the tests of the status and of the queue let through.
record Selected (dev : Device) (t : Trace) (sel : Trace × ℕ) : Type 0 where
  features : (bit_and (dev t device_status) 8 == 0) ≡ false
  unused : dev ((queue_sel, 0) ∷ t) queue_ready ≡ 0
  large : queue_size ≤ dev ((queue_sel, 0) ∷ t) queue_num_max
  result : sel ≡ ((queue_sel, 0) ∷ t, dev t device_status)
