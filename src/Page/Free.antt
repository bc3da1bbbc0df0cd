-- ===== src/Page/Free.antt =====
-- Freeing a block, and the pool that `Init_page` sets up.
use os.Util.{
  ℕ, zero, suc, ◌+◌, ◌-◌, ◌*◌, ◌/◌, ◌%◌, ◌^◌, ◌≤◌, ◌<◌, ◌≡◌, refl, ◌∙◌, ap, ◌≢◌, true, false, List,
  [], ◌∷◌, ok, arith, ◌==◌, leb, ◌&&◌, if◌then◌else◌, length, get_or, length-replicate, replicate,
  bit_and,
}
use os.Util.Bits.{bit_and-ones, bit_and-high}
use os.Page.{Pool, page_size, u32, page_free, init_page, align_page, store_word}
use os.Page.Blocks.{
  IsValid, blocks, AllFree, BlockAt, Outside, erase, length-erase, erase_lem, clear_at-BlockAt,
  block_at, erase-blocks,
}

BlockAt-inside : (flags : List ℕ) (i n : ℕ) → BlockAt flags i n → i + n < length flags
BlockAt-inside [] i n b = absurd b
BlockAt-inside (f ∷ flags) (suc i) n b = omega (arith, BlockAt-inside flags i n b)
BlockAt-inside (f ∷ flags) zero zero b = omega arith
BlockAt-inside (f ∷ flags) zero (suc n) b = omega (arith, BlockAt-inside flags zero n b.1)

-- `p'` is `p` with the block of pages [i, i + n] free, and the block's first word cleared.
pub record Freed (p : Pool) (i n : ℕ) (p' : Pool) : Type 0 where
  pub inside : i + n < p.num_pages
  pub block : BlockAt p.flags i n
  pub marks :
      (k : ℕ) → get_or p'.flags k 0 ≡ (if leb i k && leb k (i + n) then 0 else get_or p.flags k 0)
  pub same :
      p' ≡ record p { flags = p'.flags; word = store_word p.word (p.alloc_start + i * page_size) 0 }
  pub valid : IsValid p'

-- In a valid pool, freeing the address of a page at which a block begins frees exactly the pages
-- of that block, and keeps the invariant.
pub page_free-Freed :
    (p : Pool) (i : ℕ)
    → IsValid p
    → i < p.num_pages
    → get_or p.flags i 0 ≢ 0
    → Outside false p.flags i
    → (n : ℕ) × (p' : Pool) × (page_free p (p.alloc_start + i * page_size) ≡ ok p') × Freed p i n p'
unfolding page_free
page_free-Freed p i v lt taken start = (
  n,
  freed,
  rw (nonzero, below, index, clear_at-BlockAt p.flags i n b) refl,
  record {
    inside = omega (arith, v.counted, BlockAt-inside p.flags i n b);
    block = b;
    marks = erase_lem p.flags i n;
    same = refl;
    valid = record {
      counted = length-erase p.flags i n ∙ v.counted;
      shape = erase-blocks false p.flags i n b start v.shape;
      end = v.end;
      fits = v.fits;
      not_null = v.not_null;
    };
  },
)
  where
    found : (n : ℕ) × BlockAt p.flags i n
    found = block_at false p.flags i v.shape taken

    n : ℕ
    n = found.0

    b : BlockAt p.flags i n
    b = found.1

    freed : Pool
    freed = record p {
      flags = erase p.flags i n;
      word = store_word p.word (p.alloc_start + i * page_size) 0;
    }

    nonzero : (p.alloc_start + i * page_size == 0) ≡ false
    nonzero = ground (arith, v.not_null)

    below : leb p.alloc_end (u32 (p.alloc_start + i * page_size)) ≡ false
    below = ground (arith, v.end, v.fits)

    index : u32 (u32 (p.alloc_start + i * page_size) + 2 ^ 32 - p.alloc_start) / page_size ≡ i
    index = omega (arith, v.end, v.fits)

-- `_align_page` rounds up to a multiple of the page size, where that is no 32-bit overflow.
pub align_page_lem : (a : ℕ) → a + 4095 < 2 ^ 32 → align_page a ≡ (a + 4095) / page_size * page_size
unfolding align_page
align_page_lem a h = omega (
  arith,
  ap (λ (t : ℕ). bit_and t 0xfffff000) plain,
  bit_and-high 12 (a + 4095) 0xfffff,
  bit_and-ones 20 ((a + 4095) / 4096) 0xfffff refl,
)
  where
    plain : u32 (a + 4095) ≡ a + 4095
    plain = omega arith

blocks-free : (n : ℕ) → blocks false (replicate n 0) ≡ true
unfolding blocks
blocks-free zero = refl
blocks-free (suc n) = blocks-free n

AllFree-replicate : (n : ℕ) → AllFree (replicate n 0) 0 n
AllFree-replicate zero k a b = absurd (omega arith)
AllFree-replicate (suc n) zero a b = refl
AllFree-replicate (suc n) (suc k) a b = AllFree-replicate n k (omega arith) (omega arith)

-- For a page-aligned heap of at least nine pages and at most 128 MB below 2 ^ 32, `Init_page`
-- sets up a valid pool in which every page is free, all pages lie inside the heap, and the
-- descriptors lie before the first page.
pub init_page-IsValid :
    (heap_start heap_size : ℕ) (word : ℕ → ℕ)
    → heap_start % page_size ≡ 0
    → heap_start + heap_size < 2 ^ 32
    → 9 * page_size ≤ heap_size
    → heap_size ≤ 128 * 2 ^ 20
    → let p = init_page heap_start heap_size word in
      IsValid p
      × AllFree p.flags 0 p.num_pages
      × (0 < p.num_pages)
      × (p.alloc_end ≤ heap_start + heap_size)
      × (heap_start + p.num_pages ≤ p.alloc_start)
unfolding init_page
init_page-IsValid heap_start heap_size word aligned top low high = (
  record {
    counted = length-replicate _ 0;
    shape = blocks-free _;
    end = omega (arith, start, count);
    fits = omega (arith, start, count);
    not_null = omega (arith, start);
  },
  AllFree-replicate _,
  omega (arith, count),
  omega (arith, start, count),
  omega (arith, start, count),
)
  where
    count : u32 (heap_size / page_size + 2 ^ 32 - 8) ≡ heap_size / page_size - 8
    count = omega arith

    start : align_page (u32 (heap_start + 8 * page_size)) ≡ heap_start + 8 * page_size
    start = omega (arith, align_page_lem (u32 (heap_start + 8 * page_size)) (omega arith))
