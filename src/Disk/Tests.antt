-- ===== src/Disk/Tests.antt =====
-- Runs of driver/virtio.c, and the theorems at concrete states.
use os.Util.{
  ℕ, zero, suc, ◌+◌, ◌*◌, ◌%◌, ◌^◌, ◌<◌, ◌≡◌, refl, ◌≢◌, arith, true, none, some, List, [], ◌∷◌, ok,
  panic, fault, out_of_fuel, get_or, set, replicate, ◌≤◌,
}
use os.Tasks.{wakeup}
use os.Tasks.Runs.{father}
use os.Disk.{
  Disk, Places, Info, no_desc, make_desc, request, free_desc, free_chain, alloc_desc, alloc_descs,
  alloc_rounds, give_back, find_desc, submit, virtio_disk_rw, complete,
  virtio_disk_interrupt_handler,
}
use os.Disk.Taken.{IsTable, frees}
use os.Disk.Grant.{Granted, alloc_descs_lem}
use os.Disk.Handler.{owner, Answers, Drained, interrupt_handler-Drained}
use os.Disk.Chain.{taken, walk, free_chain-fuel}
use os.Disk.Served.{IsQuiet, Settled, answer, serve, rw-Settled}
use os.Disk.Asked.{submit-walk}

abbrev places : Places
places = record { ops = 1000; info = 2000; bytes = λ b. 5000 + 600 * b }

abbrev marks : List ℕ
marks = 0 ∷ 1 ∷ 1 ∷ 0 ∷ 1 ∷ 1 ∷ 1 ∷ 1 ∷ []

abbrev no_info : Info
no_info = record { buf = none; status = 0 }

-- Descriptors 0 and 3 are taken.
abbrev disk : Disk
disk = record {
  desc = replicate 8 no_desc;
  avail = record { ring = replicate 8 0; idx = 65535 };
  used = record { ring = replicate 8 (record { id = 0; len = 0 }); idx = 65535 };
  free = marks;
  used_idx = 65535;
  info = replicate 8 no_info;
  ops = replicate 8 (record { kind = 0; reserved = 0; sector = 0 });
  pending = replicate 30 0;
}

disk-IsTable : IsTable disk
disk-IsTable = record { free_len = refl; desc_len = refl; info_len = refl; mark = λ i. mark i }
  where
    mark : (i : ℕ) → get_or marks i 0 ≤ 1
    mark zero = omega arith
    mark (suc zero) = omega arith
    mark (suc (suc zero)) = omega arith
    mark (suc (suc (suc zero))) = omega arith
    mark (suc (suc (suc (suc zero)))) = omega arith
    mark (suc (suc (suc (suc (suc zero))))) = omega arith
    mark (suc (suc (suc (suc (suc (suc zero)))))) = omega arith
    mark (suc (suc (suc (suc (suc (suc (suc zero))))))) = omega arith
    mark (suc (suc (suc (suc (suc (suc (suc (suc i)))))))) = omega arith

alloc_descs_lem_example : (d' : Disk) × Granted disk d'
alloc_descs_lem_example = alloc_descs_lem disk disk-IsTable

-- Two descriptors are not enough, and are given back.
short_of_descs :
    alloc_descs (record disk { free = 0 ∷ 1 ∷ 0 ∷ 0 ∷ 0 ∷ 0 ∷ 1 ∷ 0 ∷ [] })
    ≡ ok (none, record disk { free = 0 ∷ 1 ∷ 0 ∷ 0 ∷ 0 ∷ 0 ∷ 1 ∷ 0 ∷ [] })
unfolding alloc_descs alloc_rounds alloc_desc give_back free_desc find_desc
short_of_descs = refl

-- The bound lets index 8 through, which is outside the array.
free_desc_at_bound : (free_desc disk 8 ≡ fault) × (free_desc disk 9 ≡ panic)
unfolding free_desc
free_desc_at_bound = (refl, refl)

free_chain-fuel_example : free_chain 3 disk 0 ≢ out_of_fuel
unfolding taken
free_chain-fuel_example = free_chain-fuel 3 disk 0 (omega arith)

submit-walk_example :
    let e = submit places 7 40 true 1 2 4 disk in
    (get_or e.avail.ring 7 8 ≡ 1)
    × (e.avail.idx ≡ 0)
    × (walk 8 e.desc 1 ≡ make_desc 1016 16 1 2 ∷ make_desc 9200 512 1 4 ∷ make_desc 2024 1 2 0 ∷ [])
    × (get_or e.ops 1 (record { kind = 0; reserved = 0; sector = 0 }) ≡ request true 40)
    × (get_or e.info 1 no_info ≡ record { buf = some 7; status = 0xff })
submit-walk_example =
    submit-walk places 7 40 true 1 2 4 disk disk-IsTable
      (record {
        first = omega arith;
        second = omega arith;
        third = omega arith;
        ij = λ h. omega arith;
        ik = λ h. omega arith;
        jk = λ h. omega arith;
      })
      refl refl

disk-IsQuiet : IsQuiet disk
disk-IsQuiet = record { table = disk-IsTable; ring = refl; seen = refl; small = omega arith }

abbrev device : Disk → Disk
device d = answer d 1 1

rw-Settled_example :
    (f : Disk) × (virtio_disk_rw places (serve device father) 2 7 40 true disk ≡ ok f)
    × Settled disk f 7
unfolding frees
rw-Settled_example =
    rw-Settled places device father 2 7 40 true 1 2 4 1 (5 ∷ 6 ∷ 7 ∷ []) disk disk-IsQuiet refl
      (omega arith) refl (omega arith)

-- Two answers that the driver has not seen, for buffers 7 and 9.
abbrev answers : Disk
answers = record disk {
  used = record {
    ring =
        record { id = 5; len = 1 }
        ∷ record { id = 0; len = 0 }
        ∷ record { id = 0; len = 0 }
        ∷ record { id = 0; len = 0 }
        ∷ record { id = 0; len = 0 }
        ∷ record { id = 0; len = 0 }
        ∷ record { id = 0; len = 0 }
        ∷ record { id = 1; len = 1 }
        ∷ [];
    idx = 1;
  };
  info =
      no_info
      ∷ record { buf = some 7; status = 0 }
      ∷ no_info
      ∷ no_info
      ∷ no_info
      ∷ record { buf = some 9; status = 0 }
      ∷ no_info
      ∷ no_info
      ∷ [];
  pending = set (set (replicate 30 0) 7 1) 9 1;
}

abbrev buffers : ℕ → ℕ
buffers zero = 7
buffers (suc t) = 9

answers-Answers : Answers answers 2 buffers
answers-Answers = record {
  seen = omega arith;
  short = omega arith;
  count = omega arith;
  owned = λ t lt. owned t lt;
  inside = λ t lt. inside t;
}
  where
    owned : (t : ℕ) → t < 2 → owner answers ((65535 + t) % 2 ^ 16) ≡ some (buffers t)
    owned zero lt = refl
    owned (suc zero) lt = refl
    owned (suc (suc t)) lt = absurd (omega arith)

    inside : (t : ℕ) → buffers t < 30
    inside zero = omega arith
    inside (suc t) = omega arith

interrupt_handler-Drained_example :
    (d' : Disk) × (virtio_disk_interrupt_handler answers father ≡ ok (d', wakeup father))
    × Drained answers d' 2 buffers
interrupt_handler-Drained_example =
    interrupt_handler-Drained answers father 2 buffers answers-Answers

-- An error of the device stops the kernel.
status_not_zero :
    complete (record answers { info = replicate 8 (record { buf = some 7; status = 1 }) }) ≡ panic
unfolding complete
status_not_zero = refl
