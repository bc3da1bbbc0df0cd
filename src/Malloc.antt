-- ===== src/Malloc.antt =====
-- mm/malloc.c: objects of ten sizes, carved from pages. A pointer is an address, and 0 is NULL. The
-- words of the pages are those of `Pool`; the descriptors, whose pages are never freed, are kept
-- beside them by their addresses. On this machine a descriptor has 32 bytes.
pub mod Carve
pub mod Linked
pub mod Take
pub mod Opened
pub mod Return
pub mod Unlink
mod Tests
use os.Util.{
  ℕ, zero, suc, ◌+◌, ◌-◌, ◌/◌, ◌%◌, ◌^◌, Bool, true, false, not, ◌&&◌, ◌||◌, Option, none, some,
  List, [], ◌∷◌, Run, ok, panic, out_of_fuel, ◌>>=◌, ◌>>◌, ensure, bit_and, ◌==◌, ltb, leb,
  if◌then◌else◌, get_or, set,
}
use os.Page.{Pool, page_size, page_alloc, page_free, store_word, u32}

pub record Bdesc : Type 0 where
  pub block : ℕ
  pub next : ℕ
  pub freeptr : ℕ
  pub blocnt : ℕ
  pub block_size : ℕ

pub record Bdir : Type 0 where
  pub size : ℕ
  pub list : ℕ

-- `dir` is `block_dir` up to its end mark, and `spare` is `free_block_desc`.
pub record Heap : Type 0 where
  pub pool : Pool
  pub desc : ℕ → Bdesc
  pub dir : List Bdir
  pub spare : ℕ

abbrev bdir : ℕ → Bdir
bdir size = record { size = size; list = 0 }

abbrev pub block_dir : List Bdir
block_dir =
    bdir 8
    ∷ bdir 16
    ∷ bdir 32
    ∷ bdir 64
    ∷ bdir 128
    ∷ bdir 256
    ∷ bdir 512
    ∷ bdir 1024
    ∷ bdir 2048
    ∷ bdir 4096
    ∷ []

abbrev pub no_bdir : Bdir
no_bdir = bdir 0

abbrev pub bdesc_size : ℕ
bdesc_size = 32

-- A write through a pointer to a descriptor.
unfoldable pub put_desc : (ℕ → Bdesc) → ℕ → Bdesc → ℕ → Bdesc
put_desc desc p b q = if q == p then b else desc q

-- The loop of `Init_block_desc` from the descriptor b on, with the last descriptor.
unfoldable pub link_descs : (ℕ → Bdesc) → ℕ → ℕ → (ℕ → Bdesc) × ℕ
link_descs desc b zero = (desc, b)
link_descs desc b (suc count) =
    link_descs (put_desc desc b (record (desc b) { next = b + bdesc_size })) (b + bdesc_size) count

unfoldable pub init_block_desc : Heap → Run Heap
unfolding put_desc link_descs
init_block_desc h = do
  (first, pool) ← page_alloc h.pool 1
  ensure (not (first == 0))
  let (desc, last) = link_descs h.desc first (page_size / bdesc_size - 1)
  ok (record h {
    pool = pool;
    desc = put_desc desc last (record (desc last) { next = h.spare });
    spare = first;
  })

-- The loop on `bdir`, with the index of the entry.
unfoldable pub find_bdir : List Bdir → ℕ → Option ℕ
find_bdir [] length = none
find_bdir (b ∷ dir) length =
    if leb length b.size
    then some 0
    else elim (find_bdir dir length) [ none ↦ none | some i ↦ some (suc i) ]

-- The loop on `bdesc`: the first descriptor with a free object, or NULL.
unfoldable pub find_open : ℕ → (ℕ → Bdesc) → ℕ → Run ℕ
find_open zero desc p = out_of_fuel
find_open (suc fuel) desc p = elim (p == 0) [
  | true ↦ ok 0
  | false ↦ elim ((desc p).freeptr == 0) [ true ↦ find_open fuel desc (desc p).next | false ↦ ok p ]
]

-- The loop that makes the list of the objects of a page, and the end of that list.
unfoldable pub carve : (ℕ → ℕ) → ℕ → ℕ → ℕ → ℕ → ℕ
carve word cp size zero = store_word word cp 0
carve word cp size (suc count) = carve (store_word word cp (cp + size)) (cp + size) size count

abbrev pub fresh_desc : ℕ → Bdir → Bdesc
fresh_desc cp entry = record {
  block = cp;
  next = entry.list;
  freeptr = cp;
  blocnt = 0;
  block_size = entry.size;
}

-- A descriptor with a new page, at the head of the list of entry i.
unfoldable pub open_page : Heap → ℕ → Run (ℕ × Heap)
unfolding put_desc carve
open_page h i = do
  let p = h.spare
  let entry = get_or h.dir i no_bdir
  (cp, pool) ← page_alloc h.pool 1
  ensure (not (cp == 0))
  let b = fresh_desc cp entry
  ok (
    p,
    record {
      pool = record pool { word = carve pool.word cp entry.size (page_size / entry.size - 1) };
      desc = put_desc h.desc p b;
      dir = set h.dir i (record entry { list = p });
      spare = (h.desc p).next;
    },
  )

unfoldable pub new_page : Heap → ℕ → Run (ℕ × Heap)
unfolding init_block_desc open_page
new_page h i = elim (h.spare == 0) [
  | true ↦ init_block_desc h >>= λ h'. open_page h' i
  | false ↦ open_page h i
]

-- The first free object of a descriptor.
unfoldable pub pop_object : Heap → ℕ → ℕ × Heap
unfolding put_desc
pop_object h p =
    let b = h.desc p in
    let rest = h.pool.word b.freeptr in
    let b' = record b { freeptr = rest; blocnt = (b.blocnt + 1) % 2 ^ 16 } in
    (b.freeptr, record h { desc = put_desc h.desc p b' })

unfoldable pub malloc_from : ℕ → Heap → ℕ → Run (ℕ × Heap)
unfolding find_open new_page pop_object
malloc_from fuel h i = find_open fuel h.desc (get_or h.dir i no_bdir).list >>= λ p. elim (p == 0) [
  | true ↦ new_page h i >>= λ (q, h'). ok (pop_object h' q)
  | false ↦ ok (pop_object h p)
]

unfoldable pub malloc : ℕ → Heap → ℕ → Run (ℕ × Heap)
unfolding malloc_from find_bdir
malloc fuel h length = elim (find_bdir h.dir length) [
  | none ↦ panic
  | some i ↦ malloc_from fuel h i
]

abbrev pub page_of : ℕ → ℕ
page_of obj = bit_and (u32 obj) 0xfffff000

-- The inner loop of `_free_`, with the descriptor before the one that is found.
pub find_block : ℕ → (ℕ → Bdesc) → ℕ → ℕ → ℕ → Run (Option (ℕ × ℕ))
find_block zero desc page prev p = out_of_fuel
find_block (suc fuel) desc page prev p = elim (p == 0) [
  | true ↦ ok none
  | false ↦ elim ((desc p).block == page) [
    | true ↦ ok (some (prev, p))
    | false ↦ find_block fuel desc page p (desc p).next
  ]
]

-- The outer loop, from entry i on. Smaller entries are passed over.
pub find_dir : ℕ → (ℕ → Bdesc) → List Bdir → ℕ → ℕ → ℕ → Run (Option (ℕ × ℕ × ℕ))
unfolding find_block
find_dir fuel desc [] i size page = ok none
find_dir fuel desc (b ∷ dir) i size page =
    let rest = find_dir fuel desc dir (suc i) size page in
    if ltb b.size size
    then rest
    else (find_block fuel desc page 0 b.list >>= λ found. elim found [
      | none ↦ rest
      | some (prev, p) ↦ ok (some (i, prev, p))
    ])

-- `prev->block` is a page and `bdesc` a descriptor, so the test for `prev` to be searched again
-- holds of every `prev` but NULL.
unfoldable pub must_search : (ℕ → Bdesc) → ℕ → ℕ → ℕ → Bool
must_search desc list prev p =
    (not (prev == 0) && not ((desc prev).block == p)) || ((prev == 0) && not (list == p))

-- The loop that assigns `prev->next` where it means to compare. What it assigns is not NULL, so it
-- ends in its first round, if it has one.
unfoldable pub search_again : (ℕ → Bdesc) → ℕ → ℕ → (ℕ → Bdesc) × ℕ
unfolding put_desc
search_again desc list p =
    if list == 0 then (desc, 0) else (put_desc desc list (record (desc list) { next = p }), list)

-- Takes the descriptor p out of the list of entry i, behind `prev`.
pub take_out : Heap → ℕ → ℕ → (ℕ → Bdesc) → ℕ → Run Heap
unfolding put_desc
take_out h i p desc prev =
    if prev == 0
    then (ensure ((get_or h.dir i no_bdir).list == p)
        >> ok (record h {
          desc = desc;
          dir = set h.dir i (record (get_or h.dir i no_bdir) { list = (desc p).next });
        }))
    else ok (record h { desc = put_desc desc prev (record (desc prev) { next = (desc p).next }) })

-- The same for the descriptor p before which the search of the page has found `prev`.
pub unlink_desc : Heap → ℕ → ℕ → ℕ → Run Heap
unfolding must_search search_again take_out
unlink_desc h i prev p =
    let list = (get_or h.dir i no_bdir).list in
    let again = search_again h.desc list p in
    if must_search h.desc list prev p
    then take_out h i p again.0 again.1
    else take_out h i p h.desc prev

-- The page and the descriptor of an entry whose objects are all free.
pub release_page : Heap → ℕ → ℕ → ℕ → Run Heap
unfolding unlink_desc
release_page h i prev p = do
  h' ← unlink_desc h i prev p
  pool ← page_free h'.pool (h'.desc p).block
  ok (record h' {
    pool = pool;
    desc = put_desc h'.desc p (record (h'.desc p) { next = h'.spare });
    spare = p;
  })

-- The object goes back to the list of its descriptor.
pub push_object : Heap → ℕ → ℕ → Heap
push_object h p obj =
    let b = h.desc p in
    let b' = record b { freeptr = obj; blocnt = (b.blocnt + 2 ^ 16 - 1) % 2 ^ 16 } in
    record h {
      pool = record h.pool { word = store_word h.pool.word obj b.freeptr };
      desc = put_desc h.desc p b';
    }

unfoldable pub free : ℕ → Heap → ℕ → ℕ → Run Heap
unfolding find_dir release_page push_object
free fuel h obj size = find_dir fuel h.desc h.dir 0 size (page_of obj) >>= λ found. elim found [
  | none ↦ panic
  | some (i, prev, p) ↦
      let h' = push_object h p obj in
      if (h'.desc p).blocnt == 0 then release_page h' i prev p else ok h'
]
