-- ===== src/Disk/Init/Tests.antt =====
-- A run of `Init_virtio`, and the theorem at it.
use os.Util.{ℕ, ◌+◌, none, List, [], ◌∷◌, replicate}
use os.Page.{Pool}
use os.Malloc.{Heap, block_dir, pop_object}
use os.Malloc.Take.{opened}
use os.Disk.Init.{
  magic_value, device_version, device_id, vendor_id, queue_num_max, device_status, Device,
}
use os.Disk.Init.Started.{Started}
use os.Disk.{Disk}

-- The static data before the start.
abbrev static_disk : Disk
static_disk = record {
  desc = [];
  avail = record { ring = []; idx = 0 };
  used = record { ring = []; idx = 0 };
  free = replicate 8 0;
  used_idx = 0;
  info = replicate 8 (record { buf = none; status = 0 });
  ops = replicate 8 (record { kind = 0; reserved = 0; sector = 0 });
  pending = replicate 30 0;
}

-- A start. The fourth page and those behind it are free, and spare descriptors are there.
abbrev pages : List ℕ → Pool
pages flags = record {
  flags = flags;
  alloc_start = 0x8000_0000;
  alloc_end = 0x8000_7000;
  num_pages = 7;
  word = λ a. 0;
}

abbrev heap : Heap
heap = record {
  pool = pages (3 ∷ 3 ∷ 3 ∷ 0 ∷ 0 ∷ 0 ∷ 0 ∷ []);
  desc = λ q. record { block = 0; next = q + 32; freeptr = 0; blocnt = 0; block_size = 0 };
  dir = block_dir;
  spare = 0x8000_0020;
}

-- The device answers as a disk does that knows no feature and has room for 1024 descriptors.
abbrev virtio : Device
virtio t magic_value = 0x74726976
virtio t device_version = 2
virtio t device_id = 2
virtio t vendor_id = 0x554d4551
virtio t device_status = 11
virtio t queue_num_max = 1024
virtio t other = 0

-- The heap after a page has been given as one object.
abbrev after : Heap → ℕ → List ℕ → Heap
after h cp flags = (pop_object (opened h 9 cp (record h.pool { flags = flags })) h.spare).1

abbrev served : Heap
served =
    after
      (after (after heap 0x8000_3000 (3 ∷ 3 ∷ 3 ∷ 3 ∷ 0 ∷ 0 ∷ 0 ∷ [])) 0x8000_4000
        (3 ∷ 3 ∷ 3 ∷ 3 ∷ 3 ∷ 0 ∷ 0 ∷ []))
      0x8000_5000 (3 ∷ 3 ∷ 3 ∷ 3 ∷ 3 ∷ 3 ∷ 0 ∷ [])
