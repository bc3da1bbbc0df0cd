-- ===== src/Buffer.antt =====
-- driver/buffer.c: the cache of disk blocks. A `struct buffer *` is the index of the buffer. The
-- disk is its contents by block; a transfer has ended when `virtio_disk_rw` returns, as its wait
-- on `buf->disk` makes sure. The references of a buffer stay below 2 ^ 64. One hart runs, so a spin lock that a call takes is free.
pub mod Get
pub mod Room
mod Tests
use os.Util.{
  ℕ, zero, suc, ◌+◌, Bool, true, false, not, ◌&&◌, Option, none, some, List, [], ◌∷◌, Run, ok,
  panic, fault, ◌>>=◌, ◌==◌, if◌then◌else◌, get_or, set, replicate,
}
use os.Text.{Bytes}

abbrev pub buffer_num : ℕ
buffer_num = 30

pub record Buffer : Type 0 where
  pub valid : ℕ
  pub dev : ℕ
  pub block_no : ℕ
  pub refcnt : ℕ
  pub bytes : Bytes
  pub dirty : ℕ
  pub next : Option ℕ
  pub last : Option ℕ

pub record Cache : Type 0 where
  pub buf : List Buffer
  pub head : ℕ
  pub disk : ℕ → Bytes

unfoldable pub zero_block : Bytes
zero_block = replicate 512 0

-- a buffer of the zero-initialised array
abbrev pub zeroed : Buffer
zeroed = record {
  valid = 0;
  dev = 0;
  block_no = 0;
  refcnt = 0;
  bytes = zero_block;
  dirty = 0;
  next = none;
  last = none;
}

abbrev pub at : Cache → ℕ → Buffer
at c i = get_or c.buf i zeroed

unfoldable pub update : Cache → ℕ → Buffer → Cache
update c i b = record c { buf = set c.buf i b }

-- The loop of `Init_buffer`, from buffer i on.
unfoldable pub link_from : List Buffer → ℕ → ℕ → List Buffer
link_from bufs i zero = bufs
link_from bufs i (suc count) =
    let before = record (get_or bufs i zeroed) { next = some (suc i) } in
    let here = record (get_or bufs (suc i) zeroed) { last = some i; next = none } in
    link_from (set (set bufs i before) (suc i) here) (suc i) count

pub init_buffer : Cache → Cache
unfolding link_from
init_buffer c = record c {
  buf = link_from (set c.buf 0 (record (at c 0) { last = none })) 0 29;
  head = 0;
}

-- The first loop of `bget`, over `count` buffers.
unfoldable pub find_cached : List Buffer → ℕ → ℕ → ℕ → Option ℕ
find_cached bufs zero dev block_no = none
find_cached [] (suc count) dev block_no = none
find_cached (b ∷ bufs) (suc count) dev block_no =
    if (b.dev == dev) && (b.block_no == block_no)
    then some 0
    else elim (find_cached bufs count dev block_no) [ none ↦ none | some i ↦ some (suc i) ]

-- The second loop of `bget`, downwards.
unfoldable pub find_unused : List Buffer → ℕ → Option ℕ
find_unused bufs zero = none
find_unused bufs (suc i) = if (get_or bufs i zeroed).refcnt == 0 then some i else find_unused bufs i

-- The first loop stops before the last buffer.
unfoldable pub bget : Cache → ℕ → ℕ → Run (ℕ × Cache)
unfolding find_cached find_unused
bget c dev block_no = elim (find_cached c.buf 29 dev block_no) [
  | some i ↦ ok (i, update c i (record (at c i) { refcnt = (at c i).refcnt + 1 }))
  | none ↦ elim (find_unused c.buf buffer_num) [
    | none ↦ panic
    | some i ↦ ok (
      i,
      update c i (record (at c i) {
        valid = 0;
        dev = dev;
        block_no = block_no;
        refcnt = (at c i).refcnt + 1;
      }),
    )
  ]
]

-- `disk_rw(buf, READ)` and `virtio_disk_rw(buf, WRITE)`: sector `block_no * (512 / 512)`.
unfoldable pub disk_read : Cache → ℕ → Cache
disk_read c i = update c i (record (at c i) { bytes = c.disk (at c i).block_no })

unfoldable pub disk_write : Cache → ℕ → Cache
disk_write c i = record c {
  disk = λ n. if n == (at c i).block_no then (at c i).bytes else c.disk n;
}

-- A buffer that is new to its block is read from the disk.
unfoldable pub fill : ℕ × Cache → Run (ℕ × Cache)
unfolding disk_read
fill (i, c) =
    if (at c i).valid == 0
    then (let full = disk_read c i in
        ok (i, update full i (record (at full i) { valid = 1; dirty = 0 })))
    else ok (i, c)

unfoldable pub bread : Cache → ℕ → ℕ → Run (ℕ × Cache)
unfolding bget fill
bread c dev block_no = bget c dev block_no >>= fill

unfoldable pub bwrite : Cache → ℕ → Cache
bwrite c i = update c i (record (at c i) { dirty = 1 })

-- Only a buffer with no reference is moved in the list; `brelse` itself gives no reference back.
unfoldable pub unlink : Cache → ℕ → Run Cache
unlink c i = elim (at c i).last [
  | none ↦ fault
  | some temp ↦
      let c1 = update c temp (record (at c temp) { next = (at c i).next }) in
      let c2 = update c1 c1.head (record (at c1 c1.head) { last = some i }) in
      ok (update c2 i (record (at c2 i) { next = some c2.head; last = none }))
]

-- Dirty bytes are written back.
unfoldable pub write_back : Cache → ℕ → Cache
unfolding disk_write
write_back c i =
    if (at c i).dirty == 1
    then (let written = disk_write c i in update written i (record (at written i) { dirty = 0 }))
    else c

unfoldable pub brelse : Cache → ℕ → Run Cache
unfolding write_back unlink
brelse c i =
    let clean = write_back c i in if (at clean i).refcnt == 0 then unlink clean i else ok clean

pub bpin : Cache → ℕ → ℕ
bpin c i = (at c i).refcnt

pub bunpin : Cache → ℕ → ℕ
bunpin c i = (at c i).refcnt
