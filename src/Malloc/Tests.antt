-- ===== src/Malloc/Tests.antt =====
-- Runs of mm/malloc.c, and the theorems at concrete heaps.
use os.Util.{
  ℕ, ◌≡◌, refl, inl, inr, arith, [], ◌∷◌, ok, ◌>>=◌, map_run, ◌==◌, if◌then◌else◌, get_or, set,
}
use os.Page.{Pool, page_alloc, find_run, run_free, mark, mark_taken}
use os.Malloc.{Heap, Bdesc, block_dir, no_bdir, find_bdir, malloc, page_of, unlink_desc, free}
use os.Malloc.Linked.{Linked}
use os.Malloc.Take.{Fits}
use os.Malloc.Opened.{Opened, malloc-Opened}
use os.Malloc.Return.{Owner, free-malloc}
use os.Malloc.Unlink.{first_only, unlink_desc_lem}

-- Four pages, of which the first is taken.
abbrev pool : Pool
pool = record {
  flags = 3 ∷ 0 ∷ 0 ∷ 0 ∷ [];
  alloc_start = 0x8000_0000;
  alloc_end = 0x8000_4000;
  num_pages = 4;
  word = λ a. 0;
}

abbrev blank : Bdesc
blank = record { block = 0; next = 0; freeptr = 0; blocnt = 0; block_size = 0 }

abbrev spare_heap : Heap
spare_heap = record { pool = pool; desc = λ q. blank; dir = block_dir; spare = 0x8000_0020 }

-- The first call gets a page for descriptors, then one for objects.
first_object : map_run (λ r. r.0) (malloc 1 (record spare_heap { spare = 0 }) 4000) ≡ ok 0x8000_2000
unfolding malloc page_alloc find_run run_free mark mark_taken
first_object = refl

malloc-Opened_example :
    (h' : Heap) × (malloc 1 spare_heap 1500 ≡ ok (0x8000_1000, h'))
    × Fits block_dir 1500 8
    × Opened (record pool { flags = 3 ∷ 3 ∷ 0 ∷ 0 ∷ [] }) h' 8 0x8000_0020 0x8000_1000 2048 []
unfolding find_bdir page_alloc find_run run_free mark mark_taken
malloc-Opened_example =
    malloc-Opened 1 spare_heap 1500 8 0x8000_1000 (record pool { flags = 3 ∷ 3 ∷ 0 ∷ 0 ∷ [] }) []
      refl (omega arith) (omega arith) refl tt tt (omega arith) (omega arith) alloc (omega arith)
  where
    alloc : page_alloc pool 1 ≡ ok (0x8000_1000, record pool { flags = 3 ∷ 3 ∷ 0 ∷ 0 ∷ [] })
    alloc = refl

-- An object of 64 bytes is out, and its page has three more.
abbrev used : Bdesc
used = record { block = 0x8000_1000; next = 0; freeptr = 0x8000_1040; blocnt = 1; block_size = 64 }

abbrev used_heap : Heap
used_heap = record {
  pool = record pool { word = λ a. if a == 0x8000_1040 then 0x8000_1080 else 0 };
  desc = λ q. if q == 0x8000_0020 then used else blank;
  dir = set block_dir 3 (record { size = 64; list = 0x8000_0020 });
  spare = 0x8000_0040;
}

free-malloc_example : (malloc 1 used_heap 40 >>= λ (obj, h'). free 1 h' obj 0) ≡ ok used_heap
unfolding find_bdir
free-malloc_example =
    free-malloc 1 used_heap 40 3 0x8000_0020 [] [] refl (refl, omega arith, refl) tt (omega arith)
      (omega arith) (omega arith) owner (omega arith) (omega arith)
  where
    owner : Owner 1 used_heap.desc (page_of 0x8000_1040) 0x8000_0020 used_heap.dir
    owner = inr (
      [],
      omega arith,
      tt,
      refl,
      inr (
        [],
        omega arith,
        tt,
        refl,
        inr (
          [],
          omega arith,
          tt,
          refl,
          inl ([], [], omega arith, tt, (refl, omega arith, refl), refl),
        ),
      ),
    )

-- Three pages in a list; the last one goes.
abbrev linked : ℕ → Bdesc
linked q =
    if q == 100
    then record used { next = 200 }
    else if q == 200
    then record used { block = 0x8000_2000; next = 300 }
    else record used { block = 0x8000_3000; next = 0 }

abbrev linked_heap : Heap
linked_heap = record used_heap {
  desc = linked;
  dir = set block_dir 3 (record { size = 64; list = 100 });
}

unlink_desc_lem_example :
    (h' : Heap) × (unlink_desc linked_heap 3 200 300 ≡ ok h')
    × Linked h'.desc (get_or h'.dir 3 no_bdir).list (100 ∷ [])
unfolding first_only
unlink_desc_lem_example =
    unlink_desc_lem linked_heap 3 300 (100 ∷ 200 ∷ []) [] (omega arith)
      (refl, omega arith, (refl, omega arith, (refl, omega arith, refl))) (omega arith)
      ((omega arith, tt), ((omega arith, tt), tt))
