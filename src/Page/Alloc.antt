-- ===== src/Page/Alloc.antt =====
-- What `page_alloc` and `page_free` do to the array of descriptors.
use os.Util.{
  ℕ, zero, suc, ◌+◌, ◌-◌, ◌*◌, ◌/◌, ◌^◌, ◌≤◌, ◌<◌, ◌≡◌, refl, ◌∙◌, ap, ◌≢◌, false, none, some, List,
  [], ◌∷◌, ok, ◌⊎◌, inl, inr, arith, ◌==◌, leb, ◌&&◌, if◌then◌else◌, get_or,
}
use mathlib.Core.Path.{subst, subst₂}
use os.Page.{
  Pool, page_size, page_last, u32, set_flag, mark_taken, mark, find_run, page_alloc, page_free,
  store_word,
}
use os.Page.Blocks.{IsValid, paint, AllFree, paint-blocks, length-paint, paint_lem, clear_at-paint}
use os.Page.Scan.{find_run_lem, IsFirst, Search}

mark_taken-cons :
    (f : ℕ) (flags : List ℕ) (k c : ℕ) → mark_taken (f ∷ flags) (suc k) c ≡ f ∷ mark_taken flags k c
unfolding mark_taken
mark_taken-cons f flags k zero = refl
mark_taken-cons f flags k (suc c) = mark_taken-cons f (set_flag flags k 1) (suc k) c

-- The marks that `page_alloc` makes on free pages are those of one block.
mark-paint :
    (flags : List ℕ) (i n j : ℕ)
    → j ≡ i + n
    → AllFree flags i (suc n)
    → set_flag (mark_taken flags i (suc n)) j page_last ≡ paint flags i n
unfolding mark_taken paint
mark-paint [] i n j e free = cc (free i (omega arith) (omega arith))
mark-paint (f ∷ flags) zero zero zero e free = rw (free 0 (omega arith) (omega arith)) refl
mark-paint (f ∷ flags) zero zero (suc j) e free = absurd (omega arith)
mark-paint (f ∷ flags) zero (suc n) zero e free = absurd (omega arith)
mark-paint (f ∷ flags) zero (suc n) (suc j) e free =
    rw (free 0 (omega arith) (omega arith), mark_taken-cons)
      (ap (λ fs. 1 ∷ fs) (mark-paint flags 0 n j (omega arith) (tail free)))
  where
    tail : AllFree (f ∷ flags) 0 (suc (suc n)) → AllFree flags 0 (suc n)
    tail h k a b = h (suc k) (omega arith) (omega arith)
mark-paint (f ∷ flags) (suc i) n zero e free = absurd (omega arith)
mark-paint (f ∷ flags) (suc i) n (suc j) e free =
    rw mark_taken-cons (ap (λ fs. f ∷ fs) (mark-paint flags i n j (omega arith) (tail free)))
  where
    tail : AllFree (f ∷ flags) (suc i) (suc n) → AllFree flags i (suc n)
    tail h k a b = h (suc k) (omega arith) (omega arith)

mark_lem :
    (flags : List ℕ) (i n : ℕ)
    → AllFree flags i (suc n)
    → mark flags i (suc n) ≡ ok (paint flags i n)
unfolding mark
mark_lem flags i n free =
    rw nonzero (ap ok (mark-paint flags i n (i + suc n - 1) (omega arith) free))
  where
    nonzero : (i + suc n == 0) ≡ false
    nonzero = ground arith

-- `pages` contiguous pages of `p` from index `i` on have become a block, and nothing else changed.
pub record Allocated (p : Pool) (pages i address : ℕ) (p' : Pool) : Type 0 where
  pub inside : i + pages ≤ p.num_pages
  pub address_eq : address ≡ p.alloc_start + i * page_size
  pub first : IsFirst p.flags pages i
  pub marks :
      (k : ℕ)
      → get_or p'.flags k 3 ≡ (
          if leb i k && leb (k + 1) (i + pages)
          then (if k + 1 == i + pages then 3 else 1)
          else get_or p.flags k 3)
  pub same : p' ≡ record p { flags = p'.flags }

module _ (p : Pool) (v : IsValid p) (m : ℕ) (le : m < p.num_pages) where
  rounds : ℕ
  rounds = u32 (p.num_pages + 2 ^ 32 - suc m) + 1

  rounds_fit : rounds + m ≡ p.num_pages
  unfolding rounds
  rounds_fit = omega (arith, v.end, v.fits)

  search : Search rounds p.flags 0 (suc m)
  search = find_run_lem false rounds p.flags 0 m v.shape (omega (arith, rounds_fit, v.counted))

  in_range : (d : ℕ) → d < rounds → d + m < p.num_pages
  in_range d lt = omega (arith, rounds_fit)

  address_fits :
      (d : ℕ) → d < rounds → u32 (p.alloc_start + d * page_size) ≡ p.alloc_start + d * page_size
  address_fits d lt = omega (arith, rounds_fit, v.end, v.fits)

  found_at :
      (d : ℕ)
      → d < rounds
      → find_run rounds p.flags 0 (suc m) ≡ ok (some (0 + d))
      → AllFree p.flags d (suc m)
      → page_alloc p (suc m)
        ≡ ok (p.alloc_start + d * page_size, record p { flags = paint p.flags d m })
  unfolding page_alloc rounds
  found_at d lt found free =
      let plain : find_run rounds p.flags 0 (suc m) ≡ ok (some d) =
        found ∙ ap (λ (t : ℕ). ok (some t)) (omega arith) in
      rw (plain, mark_lem p.flags d m free, address_fits d lt) refl

  nothing_found : find_run rounds p.flags 0 (suc m) ≡ ok none → page_alloc p (suc m) ≡ ok (0, p)
  unfolding page_alloc rounds
  nothing_found e = rw e refl

  -- the two results of a call
  pub page_alloc-cases :
      ((i : ℕ) × (i + m < p.num_pages)
        × (page_alloc p (suc m)
            ≡ ok (p.alloc_start + i * page_size, record p { flags = paint p.flags i m }))
        × IsFirst p.flags (suc m) i)
      ⊎ ((page_alloc p (suc m) ≡ ok (0, p))
          × ((e : ℕ) → e + suc m ≤ p.num_pages → ¬ AllFree p.flags e (suc m)))
  page_alloc-cases = elim search [
    | inl (d, lt, found, first) ↦ inl (d, in_range d lt, found_at d lt found first.free, first)
    | inr (nothing, nowhere) ↦
        inr (nothing_found nothing, λ e fit. nowhere e (omega (arith, rounds_fit)))
  ]

  Allocated-paint :
      (i : ℕ)
      → i + m < p.num_pages
      → IsFirst p.flags (suc m) i
      → Allocated p
          (suc m)
          i
          (p.alloc_start + i * page_size)
          (record p { flags = paint p.flags i m })
  Allocated-paint i fit first = record {
    inside = omega arith;
    address_eq = refl;
    first = first;
    marks = λ k. ground (arith, paint_lem p.flags i m k, v.counted);
    same = refl;
  }

  painted-IsValid :
      (i : ℕ) → AllFree p.flags i (suc m) → IsValid (record p { flags = paint p.flags i m })
  painted-IsValid i free = record {
    counted = length-paint p.flags i m ∙ v.counted;
    shape = paint-blocks false p.flags i m free v.shape;
    end = v.end;
    fits = v.fits;
    not_null = v.not_null;
  }

  -- In a valid pool, a request for `suc m` pages, at most as many as there are, either returns
  -- the address of the first run of that many free pages and marks exactly those pages as one
  -- block, or returns NULL and changes nothing, and then no such run exists.
  pub page_alloc_lem :
      ((i : ℕ) × (address : ℕ) × (p' : Pool) × (page_alloc p (suc m) ≡ ok (address, p'))
        × Allocated p (suc m) i address p')
      ⊎ ((page_alloc p (suc m) ≡ ok (0, p))
          × ((e : ℕ) → e + suc m ≤ p.num_pages → ¬ AllFree p.flags e (suc m)))
  page_alloc_lem = elim page_alloc-cases [
    | inl (i, fit, e, first) ↦ inl (i, _, _, e, Allocated-paint i fit first)
    | inr (e, nowhere) ↦ inr (e, nowhere)
  ]

  -- In a valid pool, a request for `suc m` pages, at most as many as there are, leaves a valid pool
  -- where it returns, whether it finds pages or not.
  pub page_alloc-IsValid :
      {address : ℕ} {p' : Pool} → page_alloc p (suc m) ≡ ok (address, p') → IsValid p'
  page_alloc-IsValid h = elim page_alloc-cases [
    | inl (i, fit, e, first) ↦ subst IsValid (cc e) (painted-IsValid i first.free)
    | inr (e, nowhere) ↦ subst IsValid (cc e) v
  ]

  free_painted :
      (i : ℕ)
      → i + m < p.num_pages
      → AllFree p.flags i (suc m)
      → page_free (record p { flags = paint p.flags i m }) (p.alloc_start + i * page_size)
        ≡ ok (record p { word = store_word p.word (p.alloc_start + i * page_size) 0 })
  unfolding page_free
  free_painted i fit free = rw (nonzero, below, index, clear_at-paint p.flags i m free) refl
    where
      nonzero : (p.alloc_start + i * page_size == 0) ≡ false
      nonzero = ground (arith, v.not_null)

      below : leb p.alloc_end (u32 (p.alloc_start + i * page_size)) ≡ false
      below = ground (arith, v.end, v.fits)

      index : u32 (u32 (p.alloc_start + i * page_size) + 2 ^ 32 - p.alloc_start) / page_size ≡ i
      index = omega (arith, v.end, v.fits)

  -- In a valid pool, what a request for `suc m` pages, at most as many as there are, has returned,
  -- and is not NULL, can be freed: that gives the descriptors back as they were, and clears the first
  -- word of the block.
  pub page_free-page_alloc :
      {address : ℕ} {p' : Pool}
      → page_alloc p (suc m) ≡ ok (address, p')
      → address ≢ 0
      → page_free p' address ≡ ok (record p { word = store_word p.word address 0 })
  page_free-page_alloc {address} {p'} h ne = elim page_alloc-cases [
    | inl (i, fit, e, first) ↦
        subst₂ (λ a q. page_free q a ≡ ok (record p { word = store_word p.word a 0 })) (cc (e, h))
          (cc (e, h)) (free_painted i fit first.free)
    | inr (e, nowhere) ↦ absurd (ne (cc (e, h)))
  ]
