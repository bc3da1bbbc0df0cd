-- ===== src/Disk/Asked.antt =====
-- driver/virtio.c: what the device finds of a request.
use os.Util.{
  ℕ, ◌+◌, ◌*◌, ◌%◌, ◌^◌, ◌≡◌, refl, ◌∙◌, ap, arith, Bool, none, some, [], ◌∷◌, get_or, length,
  get_or-set_self,
}
use os.Disk.{Disk, Places, Info, BlkReq, submit, request, queue_size}
use os.Disk.Taken.{IsTable}
use os.Disk.Chain.{Three, walk, header, bytes, status, Holds-submit, Holds-walk}

abbrev no_request : BlkReq
no_request = record { kind = 0; reserved = 0; sector = 0 }

abbrev no_info : Info
no_info = record { buf = none; status = 0 }

-- The ring names the request's first descriptor at the index that was the next one. From there the
-- flags lead through three descriptors: the request, which says the direction and the sector; the
-- 512 bytes of the buffer, which the device may write just for a read; and the status byte, which
-- it may write. The driver notes the buffer with the status 255.
pub submit-walk :
    (at : Places) (buf block_no : ℕ) (write : Bool) (i j k : ℕ) (d : Disk)
    → IsTable d
    → Three i j k
    → length d.ops ≡ 8
    → length d.avail.ring ≡ 8
    → let e = submit at buf block_no write i j k d in
      (get_or e.avail.ring (d.avail.idx % queue_size) 8 ≡ i)
      × (e.avail.idx ≡ (d.avail.idx + 1) % 2 ^ 16)
      × (walk 8 e.desc i ≡ header at i j ∷ bytes at buf write k ∷ status at i ∷ [])
      × (get_or e.ops i no_request ≡ request write block_no)
      × (get_or e.info i no_info ≡ record { buf = some buf; status = 0xff })
unfolding submit
submit-walk at buf block_no write i j k d t x ops ring = (
  get_or-set_self d.avail.ring (d.avail.idx % 8) i 8 (omega (arith, ring)),
  refl,
  Holds-walk at buf write i j k _ (Holds-submit at buf block_no write i j k d t x),
  get_or-set_self d.ops i (request write (block_no * 1)) no_request (omega (arith, ops, x.first))
      ∙ ap (request write) (omega arith),
  get_or-set_self d.info i (record { buf = some buf; status = 0xff }) no_info
      (omega (arith, t.info_len, x.first)),
)
