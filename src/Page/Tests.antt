-- ===== src/Page/Tests.antt =====
-- Runs of the page allocator on a pool of six pages, and the theorems at them.
use os.Util.{ℕ, ◌+◌, ◌*◌, ◌≤◌, ◌<◌, ◌≡◌, refl, [], ◌∷◌, ok, fault, ◌⊎◌, arith}
use os.Page.{Pool, page_size, run_free, find_run, store_word, page_alloc, page_free, init_page}
use os.Page.Blocks.{IsValid, AllFree, blocks}
use os.Page.Alloc.{Allocated, page_alloc_lem, page_alloc-IsValid, page_free-page_alloc}
use os.Page.Free.{Freed, page_free-Freed, init_page-IsValid}

-- a block of two pages, three free pages, and a block of one
abbrev pool : Pool
pool = record {
  flags = 1 ∷ 3 ∷ 0 ∷ 0 ∷ 0 ∷ 3 ∷ [];
  alloc_start = 0x8000_9000;
  alloc_end = 0x8000_f000;
  num_pages = 6;
  word = λ _. 7;
}

abbrev grown : Pool
grown = record pool { flags = 1 ∷ 3 ∷ 1 ∷ 3 ∷ 0 ∷ 3 ∷ [] }

pool-IsValid : IsValid pool
unfolding blocks
pool-IsValid = record {
  counted = refl;
  shape = refl;
  end = refl;
  fits = omega arith;
  not_null = omega arith;
}

alloc_two : page_alloc pool 2 ≡ ok (0x8000_b000, grown)
unfolding page_alloc find_run run_free
alloc_two = refl

alloc_four : page_alloc pool 4 ≡ ok (0, pool)
unfolding page_alloc find_run run_free
alloc_four = refl

-- The bound of the search wraps for a request of more pages than there are.
alloc_seven : page_alloc pool 7 ≡ fault
unfolding page_alloc find_run run_free
alloc_seven = refl

free_null : page_free pool 0 ≡ fault
unfolding page_free
free_null = refl

page_alloc_lem_example :
    ((i : ℕ) × (address : ℕ) × (p' : Pool) × (page_alloc pool 2 ≡ ok (address, p'))
      × Allocated pool 2 i address p')
    ⊎ ((page_alloc pool 2 ≡ ok (0, pool)) × ((e : ℕ) → e + 2 ≤ 6 → ¬ AllFree pool.flags e 2))
page_alloc_lem_example = page_alloc_lem pool pool-IsValid 1 (omega arith)

page_alloc-IsValid_example : IsValid grown
page_alloc-IsValid_example = page_alloc-IsValid pool pool-IsValid 1 (omega arith) alloc_two

page_free-page_alloc_example :
    page_free grown 0x8000_b000 ≡ ok (record pool { word = store_word pool.word 0x8000_b000 0 })
page_free-page_alloc_example =
    page_free-page_alloc pool pool-IsValid 1 (omega arith) alloc_two (omega arith)

page_free-Freed_example :
    (n : ℕ) × (p' : Pool) × (page_free pool (0x8000_9000 + 5 * page_size) ≡ ok p')
    × Freed pool 5 n p'
page_free-Freed_example = page_free-Freed pool 5 pool-IsValid (omega arith) (omega arith) refl

init_page-IsValid_example :
    let p = init_page 0x8010_0000 0x7f0_0000 (λ _. 0) in
    IsValid p
    × AllFree p.flags 0 p.num_pages
    × (0 < p.num_pages)
    × (p.alloc_end ≤ 0x8010_0000 + 0x7f0_0000)
    × (0x8010_0000 + p.num_pages ≤ p.alloc_start)
init_page-IsValid_example =
    init_page-IsValid 0x8010_0000 0x7f0_0000 (λ _. 0) refl (omega arith) (omega arith) (omega arith)
