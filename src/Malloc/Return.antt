-- ===== src/Malloc/Return.antt =====
-- mm/malloc.c: an object that is given back.
use os.Util.{
  ℕ, zero, suc, ◌+◌, ◌-◌, ◌%◌, ◌^◌, ◌<◌, ◌≡◌, refl, sym, ◌≢◌, ◌∙◌, ap, ap₂, arith, ◌⊎◌, inl, inr,
  Bool-cases, none, some, List, [], ◌∷◌, ◌++◌, ok, panic, ◌>>=◌, ◌==◌, ==_iff, ==_ne, if◌then◌else◌,
  length, get_or,
}
use mathlib.Core.Path.{fun_ext}
use os.Page.{store_word}
use os.Malloc.{
  Heap, Bdesc, Bdir, put_desc, find_bdir, find_block, find_dir, page_of, pop_object, push_object,
  malloc, release_page, free, no_bdir,
}
use os.Malloc.Linked.{Linked, All, last_of, put_desc_self}
use os.Malloc.Take.{malloc-pop}

-- The search finds a descriptor behind those with other pages.
find_block-hit :
    (fuel : ℕ) (desc : ℕ → Bdesc) (page prev p : ℕ) (ys : List ℕ) (x : ℕ) (zs : List ℕ)
    → length ys < fuel
    → All (λ y. (desc y).block ≢ page) ys
    → Linked desc p (ys ++ x ∷ zs)
    → (desc x).block ≡ page
    → find_block fuel desc page prev p ≡ ok (some (last_of prev ys, x))
unfolding find_block
find_block-hit zero desc page prev p ys x zs lt all l e = absurd (omega arith)
find_block-hit (suc fuel) desc page prev p [] x zs lt all (at, nz, l) e =
    ground (arith, at, e, ap (λ (y : ℕ). (desc y).block) at)
find_block-hit (suc fuel) desc page prev p (y ∷ ys) x zs lt (ne, all) (at, nz, l) e = ground (
  arith,
  at,
  ne,
  ap (λ (y : ℕ). (desc y).block) at,
  ap (λ (q : ℕ). find_block fuel desc page q (desc q).next) at,
  find_block-hit fuel desc page y (desc y).next ys x zs (omega arith) all l e,
)

find_block-miss :
    (fuel : ℕ) (desc : ℕ → Bdesc) (page prev p : ℕ) (ys : List ℕ)
    → length ys < fuel
    → All (λ y. (desc y).block ≢ page) ys
    → Linked desc p ys
    → find_block fuel desc page prev p ≡ ok none
unfolding find_block
find_block-miss zero desc page prev p ys lt all l = absurd (omega arith)
find_block-miss (suc fuel) desc page prev p [] lt all at = ground (arith, at)
find_block-miss (suc fuel) desc page prev p (y ∷ ys) lt (ne, all) (at, nz, l) = ground (
  arith,
  at,
  ne,
  ap (λ (y : ℕ). (desc y).block) at,
  ap (λ (q : ℕ). find_block fuel desc page q (desc q).next) at,
  find_block-miss fuel desc page y (desc y).next ys (omega arith) all l,
)

-- The descriptor p is the first one in the lists of the directory that has the page.
abbrev pub Owner : ℕ → (ℕ → Bdesc) → ℕ → ℕ → List Bdir → Type 0
Owner fuel desc page p [] = ⊥
Owner fuel desc page p (b ∷ dir) =
    ((ys : List ℕ) × (zs : List ℕ) × (length ys < fuel)
      × All (λ y. (desc y).block ≢ page) ys
      × Linked desc b.list (ys ++ p ∷ zs)
      × ((desc p).block ≡ page))
    ⊎ ((ys : List ℕ) × (length ys < fuel)
        × All (λ y. (desc y).block ≢ page) ys
        × Linked desc b.list ys
        × Owner fuel desc page p dir)

-- No entry is smaller than the size 0.
find_dir-cons :
    (fuel : ℕ) (desc : ℕ → Bdesc) (page : ℕ) (b : Bdir) (dir : List Bdir) (i : ℕ)
    → find_dir fuel desc (b ∷ dir) i 0 page ≡ (
        find_block fuel desc page 0 b.list >>= λ found. elim found [
          | none ↦ find_dir fuel desc dir (suc i) 0 page
          | some (prev, q) ↦ ok (some (i, prev, q))
        ])
unfolding find_dir
find_dir-cons fuel desc page b dir i = ground arith

find_dir-Owner :
    (fuel : ℕ) (desc : ℕ → Bdesc) (page p : ℕ) (dir : List Bdir) (i : ℕ)
    → Owner fuel desc page p dir
    → (found : ℕ × ℕ) × (find_dir fuel desc dir i 0 page ≡ ok (some (found.0, found.1, p)))
unfolding find_dir
find_dir-Owner fuel desc page p [] i h = absurd h
find_dir-Owner fuel desc page p (b ∷ dir) i (inl (ys, zs, lt, all, l, e)) = (
  (i, last_of 0 ys),
  find_dir-cons fuel desc page b dir i
      ∙ ap
          (λ r. r >>= λ found. elim found [
            | none ↦ find_dir fuel desc dir (suc i) 0 page
            | some (prev, q) ↦ ok (some (i, prev, q))
          ])
          (find_block-hit fuel desc page 0 b.list ys p zs lt all l e),
)
find_dir-Owner fuel desc page p (b ∷ dir) i (inr (ys, lt, all, l, later)) =
    let (found, e) = find_dir-Owner fuel desc page p dir (suc i) later in
    (
      found,
      find_dir-cons fuel desc page b dir i
          ∙ ap
              (λ r. r >>= λ found. elim found [
                | none ↦ find_dir fuel desc dir (suc i) 0 page
                | some (prev, q) ↦ ok (some (i, prev, q))
              ])
              (find_block-miss fuel desc page 0 b.list ys lt all l)
          ∙ e,
    )

-- The searches read just `block` and `next`.
module _ (desc desc' : ℕ → Bdesc) (page : ℕ) (blocks : (q : ℕ) → (desc' q).block ≡ (desc q).block)
    (nexts : (q : ℕ) → (desc' q).next ≡ (desc q).next) where
  find_block-same :
      (fuel prev p : ℕ) → find_block fuel desc' page prev p ≡ find_block fuel desc page prev p
  unfolding find_block
  find_block-same zero prev p = refl
  find_block-same (suc fuel) prev p = ground (
    arith,
    blocks p,
    find_block-same fuel p (desc p).next,
    ap (λ (q : ℕ). find_block fuel desc' page p q) (nexts p),
  )

  find_dir-same :
      (fuel : ℕ) (dir : List Bdir) (i : ℕ)
      → find_dir fuel desc' dir i 0 page ≡ find_dir fuel desc dir i 0 page
  unfolding find_dir
  find_dir-same fuel [] i = refl
  find_dir-same fuel (b ∷ dir) i =
      find_dir-cons fuel desc' page b dir i
      ∙ ap
          (λ r. r >>= λ found. elim found [
            | none ↦ find_dir fuel desc' dir (suc i) 0 page
            | some (prev, q) ↦ ok (some (i, prev, q))
          ])
          (find_block-same fuel 0 b.list)
      ∙ ap
          (λ rest. find_block fuel desc page 0 b.list >>= λ found. elim found [
            | none ↦ rest
            | some (prev, q) ↦ ok (some (i, prev, q))
          ])
          (find_dir-same fuel dir (suc i))
      ∙ sym (find_dir-cons fuel desc page b dir i)

put_desc-keeps {ℓ} :
    {A : Type ℓ} (field : Bdesc → A) (desc : ℕ → Bdesc) (p : ℕ) (b : Bdesc) (q : ℕ)
    → field b ≡ field (desc p)
    → field (put_desc desc p b q) ≡ field (desc q)
unfolding put_desc
put_desc-keeps field desc p b q e = elim (Bool-cases (q == p)) [
  | inl here ↦
      ap (λ t. field (if t then b else desc q)) here
      ∙ e
      ∙ ap (λ r. field (desc r)) (sym ((==_iff q p).0 here))
  | inr there ↦ ap (λ t. field (if t then b else desc q)) there
]

-- Writing back what was there, behind another write.
put_desc_back :
    (desc : ℕ → Bdesc) (p : ℕ) (b : Bdesc) → put_desc (put_desc desc p b) p (desc p) ≡ desc
unfolding put_desc
put_desc_back desc p b = fun_ext λ q. elim (Bool-cases (q == p)) [
  | inl here ↦
      ap (λ t. if t then desc p else (if t then b else desc q)) here
      ∙ ap desc (sym ((==_iff q p).0 here))
  | inr there ↦ ap (λ t. if t then desc p else (if t then b else desc q)) there
]

store_word_same : (word : ℕ → ℕ) (a : ℕ) → store_word word a (word a) ≡ word
unfolding store_word
store_word_same word a = fun_ext λ q. elim (Bool-cases (q == a)) [
  | inl here ↦ ap (λ t. if t then word a else word q) here ∙ ap word (sym ((==_iff q a).0 here))
  | inr there ↦ ap (λ t. if t then word a else word q) there
]

-- Pushing what was popped restores the heap.
push-pop :
    (h : Heap) (p : ℕ)
    → (h.desc p).blocnt + 1 < 2 ^ 16
    → push_object (pop_object h p).1 p (pop_object h p).0 ≡ h
unfolding push_object pop_object
push-pop h p lt =
    ap
      (λ c. record h {
        pool = record h.pool { word = store_word h.pool.word (h.desc p).freeptr c.freeptr };
        desc =
            put_desc (put_desc h.desc p popped) p (record c {
              freeptr = (h.desc p).freeptr;
              blocnt = (c.blocnt + 2 ^ 16 - 1) % 2 ^ 16;
            });
      })
      (put_desc_self h.desc p popped)
    ∙ ap₂ (λ w d. record h { pool = record h.pool { word = w }; desc = d })
        (store_word_same h.pool.word (h.desc p).freeptr)
        (ap (λ n. put_desc (put_desc h.desc p popped) p (record (h.desc p) { blocnt = n }))
            (omega arith)
          ∙ put_desc_back h.desc p popped)
  where
    popped : Bdesc
    popped = record (h.desc p) {
      freeptr = h.pool.word (h.desc p).freeptr;
      blocnt = ((h.desc p).blocnt + 1) % 2 ^ 16;
    }

free_lem :
    (fuel : ℕ) (g h : Heap) (obj j prev p : ℕ)
    → find_dir fuel g.desc g.dir 0 0 (page_of obj) ≡ ok (some (j, prev, p))
    → push_object g p obj ≡ h
    → (h.desc p).blocnt ≢ 0
    → free fuel g obj 0 ≡ ok h
unfolding free
free_lem fuel g h obj j prev p found push used =
    ap
      (λ r. r >>= λ found. elim found [
        | none ↦ panic
        | some (i, prev, q) ↦
            if ((push_object g q obj).desc q).blocnt == 0
            then release_page (push_object g q obj) i prev q
            else ok (push_object g q obj)
      ])
      found
    ∙ ap (λ k. if (k.desc p).blocnt == 0 then release_page k j prev p else ok k) push
    ∙ ap (λ b. if b then release_page h j prev p else ok h) (==_ne (h.desc p).blocnt 0 used)

-- An object that `malloc` has taken from a descriptor in use, and whose page belongs to no other
-- descriptor before it, can be freed at once, and then the heap is as it was.
pub free-malloc :
    (fuel : ℕ) (h : Heap) (size i p : ℕ) (full rest : List ℕ)
    → find_bdir h.dir size ≡ some i
    → Linked h.desc (get_or h.dir i no_bdir).list (full ++ p ∷ rest)
    → All (λ y. (h.desc y).freeptr ≡ 0) full
    → (h.desc p).freeptr ≢ 0
    → p ≢ 0
    → length full < fuel
    → Owner fuel h.desc (page_of (h.desc p).freeptr) p h.dir
    → (h.desc p).blocnt ≢ 0
    → (h.desc p).blocnt + 1 < 2 ^ 16
    → (malloc fuel h size >>= λ (obj, h'). free fuel h' obj 0) ≡ ok h
unfolding pop_object
free-malloc fuel h size i p full rest e l all ne nz lt own used small =
    let g = (pop_object h p).1 in
    let x = (h.desc p).freeptr in
    let (found, hit) = find_dir-Owner fuel h.desc (page_of x) p h.dir 0 own in
    ap (λ r. r >>= λ (obj, h'). free fuel h' obj 0)
      (malloc-pop fuel h size i p full rest e l all ne nz lt)
    ∙ free_lem fuel g h x found.0 found.1 p
        (find_dir-same h.desc g.desc (page_of x)
            (λ q. put_desc-keeps (λ b. b.block) h.desc p _ q refl)
            (λ q. put_desc-keeps (λ b. b.next) h.desc p _ q refl) fuel h.dir 0
          ∙ hit)
        (push-pop h p small) used
