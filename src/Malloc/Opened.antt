-- ===== src/Malloc/Opened.antt =====
-- mm/malloc.c: the first object of a new page.
use os.Util.{
  ℕ, ◌+◌, ◌-◌, ◌*◌, ◌/◌, ◌%◌, ◌^◌, ◌≤◌, ◌<◌, ◌≡◌, refl, sym, ◌≢◌, ◌∙◌, ap, arith, ◌⊎◌, inl, inr,
  some, List, ◌∷◌, ok, length, get_or, set, get_or-set_self,
}
use mathlib.Core.Path.{subst}
use os.Page.{Pool, page_alloc, page_size}
use os.Malloc.{
  Heap, Bdesc, Bdir, put_desc, fresh_desc, find_bdir, pop_object, malloc, carve, no_bdir,
}
use os.Malloc.Carve.{Chain, objects, carve-Chain, carve_outside}
use os.Malloc.Linked.{Linked, All, Linked-put, put_desc_self}
use os.Malloc.Take.{Fits, find_bdir_lem, opened, malloc-open}

-- The state after the first object of the page cp is given: the others are free, in order; the
-- descriptor p heads the list of the entry, and words outside of the page are those of `pool`.
pub record Opened (pool : Pool) (h' : Heap) (i p cp size : ℕ) (full : List ℕ) : Type 0 where
  pub chain :
      Chain h'.pool.word (h'.desc p).freeptr (objects (cp + size) size (page_size / size - 1))
  pub block : (h'.desc p).block ≡ cp
  pub count : (h'.desc p).blocnt ≡ 1
  pub listed : Linked h'.desc (get_or h'.dir i no_bdir).list (p ∷ full)
  pub outside : (a : ℕ) → (a < cp) ⊎ (cp + page_size ≤ a) → h'.pool.word a ≡ pool.word a

objects_fit : (size : ℕ) → 0 < size → size ≤ 4096 → size * (4096 / size - 1) < 4096
objects_fit size pos le = grind arith

module _ (h : Heap) (i cp : ℕ) (pool : Pool) where
  entry : Bdir
  entry = get_or h.dir i no_bdir

  -- the new descriptor, with its first object given
  used_desc : Bdesc
  unfolding entry
  used_desc = record (fresh_desc cp entry) {
    freeptr = (opened h i cp pool).pool.word cp;
    blocnt = 1;
  }

  given : Heap
  unfolding used_desc
  given = let g = opened h i cp pool in record g { desc = put_desc g.desc h.spare used_desc }

  pop-given : pop_object (opened h i cp pool) h.spare ≡ (cp, given)
  unfolding pop_object entry given
  pop-given =
      ap
        (λ b. (
          b.freeptr,
          record (opened h i cp pool) {
            desc = put_desc (opened h i cp pool).desc h.spare (record b {
              freeptr = (opened h i cp pool).pool.word b.freeptr;
              blocnt = (b.blocnt + 1) % 2 ^ 16;
            });
          },
        ))
        (put_desc_self h.desc h.spare (fresh_desc cp entry))

  given-Opened :
      (full : List ℕ)
      → i < length h.dir
      → 0 < (get_or h.dir i no_bdir).size
      → (get_or h.dir i no_bdir).size ≤ 4096
      → cp ≢ 0
      → h.spare ≢ 0
      → Linked h.desc (get_or h.dir i no_bdir).list full
      → All (λ x. x ≢ h.spare) full
      → Opened pool given i h.spare cp (get_or h.dir i no_bdir).size full
  unfolding given entry objects
  given-Opened full lt pos le ne nz l all = record {
    chain =
        subst (λ b. Chain words b.freeptr (objects (cp + entry.size) entry.size count)) (sym here)
          ((carve-Chain pool.word cp entry.size count ne pos).2);
    block = ap (λ b. b.block) here;
    count = ap (λ b. b.blocnt) here;
    listed =
        subst (λ e. Linked desc e.list (h.spare ∷ full)) (sym now)
          (
            refl,
            nz,
            subst (λ b. Linked desc b.next full) (sym here)
                (Linked-put before h.spare used_desc entry.list full all
                  (Linked-put h.desc h.spare (fresh_desc cp entry) entry.list full all l)),
          );
    outside = λ a far. carve_outside pool.word cp entry.size count a (beyond a far);
  }
    where
      count : ℕ
      count = page_size / entry.size - 1

      words : ℕ → ℕ
      words = carve pool.word cp entry.size count

      before : ℕ → Bdesc
      before = put_desc h.desc h.spare (fresh_desc cp entry)

      desc : ℕ → Bdesc
      desc = put_desc before h.spare used_desc

      here : desc h.spare ≡ used_desc
      here = put_desc_self before h.spare used_desc

      now :
          get_or (set h.dir i (record entry { list = h.spare })) i no_bdir
          ≡ record entry { list = h.spare }
      now = get_or-set_self h.dir i (record entry { list = h.spare }) no_bdir lt

      beyond : (a : ℕ) → (a < cp) ⊎ (cp + page_size ≤ a) → (a < cp) ⊎ (cp + entry.size * count < a)
      beyond a (inl low) = inl low
      beyond a (inr high) = inr (omega (arith, objects_fit entry.size pos le))

-- If the entry that fits a request has a size of at most a page and no descriptor with a free
-- object, a spare descriptor is there, not in that list, and there is a free page, then `malloc` opens that page: it returns the
-- first object of the page, which is of the smallest size that is large enough, and the other
-- objects of the page are free. Words outside the page do not change.
pub malloc-Opened :
    (fuel : ℕ) (h : Heap) (size i cp : ℕ) (pool : Pool) (full : List ℕ)
    → find_bdir h.dir size ≡ some i
    → 0 < (get_or h.dir i no_bdir).size
    → (get_or h.dir i no_bdir).size ≤ page_size
    → Linked h.desc (get_or h.dir i no_bdir).list full
    → All (λ y. (h.desc y).freeptr ≡ 0) full
    → All (λ y. y ≢ h.spare) full
    → length full < fuel
    → h.spare ≢ 0
    → page_alloc h.pool 1 ≡ ok (cp, pool)
    → cp ≢ 0
    → (h' : Heap) × (malloc fuel h size ≡ ok (cp, h'))
      × Fits h.dir size i
      × Opened pool h' i h.spare cp (get_or h.dir i no_bdir).size full
malloc-Opened fuel h size i cp pool full e pos le l none_free new lt nz page ne =
    let fits = find_bdir_lem h.dir size e in
    (
      given h i cp pool,
      malloc-open fuel h size i cp pool full e l none_free lt nz page ne
          ∙ ap (λ r. ok r) (pop-given h i cp pool),
      fits,
      given-Opened h i cp pool full fits.inside pos le ne nz l new,
    )
