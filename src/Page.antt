-- ===== src/Page.antt =====
-- mm/page.c: the allocator of physical pages over an array of one-byte descriptors.
-- A pointer to descriptor i is the rest of the array from i on, or the index i. A read or write
-- outside the `num_pages` descriptors is a `fault`.
pub mod Blocks
pub mod Scan
pub mod Alloc
pub mod Free
mod Tests
use os.Util.{
  ℕ, zero, suc, ◌+◌, ◌-◌, ◌*◌, ◌/◌, ◌%◌, ◌^◌, Bool, true, false, Option, none, some, List, [], ◌∷◌,
  Run, ok, panic, fault, ◌>>=◌, map_run, bit_and, bit_or, ◌==◌, leb, if◌then◌else◌, get_or, set,
  replicate,
}

abbrev pub page_size : ℕ
page_size = 4096

abbrev pub page_taken : ℕ
page_taken = 1

abbrev pub page_last : ℕ
page_last = 2

abbrev pub u32 : ℕ → ℕ
u32 n = n % 2 ^ 32

-- The static variables of the file, the descriptors, and the 8-byte words of the pages.
pub record Pool : Type 0 where
  pub flags : List ℕ
  pub alloc_start : ℕ
  pub alloc_end : ℕ
  pub num_pages : ℕ
  pub word : ℕ → ℕ

abbrev pub is_free : ℕ → Bool
is_free flags = bit_and flags page_taken == 0

abbrev pub is_last : ℕ → Bool
is_last flags = if bit_and flags page_last == 0 then false else true

abbrev pub set_flag : List ℕ → ℕ → ℕ → List ℕ
set_flag flags page bits = set flags page (bit_or (get_or flags page 0) bits)

-- Up to the next multiple of the page size.
pub align_page : ℕ → ℕ
align_page address = bit_and (u32 (address + 4095)) 0xfffff000

-- HEAP_START and HEAP_SIZE come from the linker script.
pub init_page : (heap_start heap_size : ℕ) → (ℕ → ℕ) → Pool
init_page heap_start heap_size word =
    let num_pages = u32 (heap_size / page_size + 2 ^ 32 - 8) in
    let alloc_start = align_page (u32 (heap_start + 8 * page_size)) in
    record {
      flags = replicate num_pages 0;
      alloc_start = alloc_start;
      alloc_end = u32 (alloc_start + u32 (page_size * num_pages));
      num_pages = num_pages;
      word = word;
    }

-- The loop on j: are the next `count` pages free?
unfoldable pub run_free : List ℕ → ℕ → Run Bool
run_free pages zero = ok true
run_free [] (suc count) = fault
run_free (f ∷ pages) (suc count) = if is_free f then run_free pages count else ok false

-- The loop on i, with the rounds that its bound leaves.
unfoldable pub find_run : ℕ → List ℕ → ℕ → ℕ → Run (Option ℕ)
find_run zero pages i npages = ok none
find_run (suc rounds) [] i npages = fault
find_run (suc rounds) (f ∷ pages) i npages =
    let next = find_run rounds pages (suc i) npages in
    if is_free f
    then (run_free pages (npages - 1) >>= λ found. if found then ok (some i) else next)
    else next

-- The loop on k.
unfoldable pub mark_taken : List ℕ → ℕ → ℕ → List ℕ
mark_taken flags k zero = flags
mark_taken flags k (suc count) = mark_taken (set_flag flags k page_taken) (suc k) count

-- `page_k--` and the mark of the last page. With no page at index 0 it writes before the array.
unfoldable pub mark : List ℕ → ℕ → ℕ → Run (List ℕ)
unfolding mark_taken
mark flags i npages =
    if i + npages == 0
    then fault
    else ok (set_flag (mark_taken flags i npages) (i + npages - 1) page_last)

-- `i <= _num_pages - npages` is a comparison of unsigned numbers. The result 0 is NULL.
unfoldable pub page_alloc : Pool → ℕ → Run (ℕ × Pool)
unfolding mark
page_alloc p npages = do
  found ← find_run (u32 (p.num_pages + 2 ^ 32 - npages) + 1) p.flags 0 npages
  elim found [
    | none ↦ ok (0, p)
    | some i ↦ mark p.flags i npages >>= λ flags.
        ok (u32 (p.alloc_start + i * page_size), record p { flags = flags })
  ]

-- The `while` of `page_free`, from the descriptor of the block's first page.
pub clear_run : List ℕ → Run (List ℕ)
clear_run [] = fault
clear_run (f ∷ pages) =
    if is_free f
    then ok (f ∷ pages)
    else if is_last f
    then ok (0 ∷ pages)
    else map_run (λ fs. 0 ∷ fs) (clear_run pages)

pub clear_at : List ℕ → ℕ → Run (List ℕ)
unfolding clear_run
clear_at flags zero = clear_run flags
clear_at [] (suc page) = fault
clear_at (f ∷ flags) (suc page) = map_run (λ fs. f ∷ fs) (clear_at flags page)

unfoldable pub store_word : (ℕ → ℕ) → ℕ → ℕ → ℕ → ℕ
store_word word address v a = if a == address then v else word a

-- The word at p is cleared before p is compared with NULL: at NULL that is a fault.
pub page_free : Pool → ℕ → Run Pool
unfolding store_word clear_at
page_free p address =
    if address == 0
    then fault
    else let cleared = record p { word = store_word p.word address 0 } in
      if leb p.alloc_end (u32 address)
      then ok cleared
      else (clear_at p.flags (u32 (u32 address + 2 ^ 32 - p.alloc_start) / page_size) >>= λ flags.
          ok (record cleared { flags = flags }))
