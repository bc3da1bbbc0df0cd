-- ===== src/Malloc/Take.antt =====
-- mm/malloc.c: what `_malloc_` returns, and what it leaves.
use os.Util.{
  ℕ, zero, suc, ◌-◌, ◌/◌, ◌≤◌, ◌<◌, ◌≡◌, ◌≢◌, ◌∙◌, ap, arith, true, false, not, inl, inr,
  Bool-cases, Option-cases, none, some, List, [], ◌∷◌, ◌++◌, ok, panic, ◌>>=◌, ensure, ◌==◌, ==_ne,
  leb, length, get_or, set,
}
use mathlib.Core.Path.{subst}
use os.Page.{Pool, page_alloc, page_size}
use os.Malloc.{
  Heap, Bdir, put_desc, fresh_desc, find_bdir, open_page, new_page, pop_object, init_block_desc,
  malloc_from, malloc, carve, no_bdir,
}
use os.Malloc.Linked.{Linked, All, find_open_lem, find_open-none}

-- The entry of the sizes for a request: the first that is large enough.
pub record Fits (dir : List Bdir) (size i : ℕ) : Type 0 where
  pub inside : i < length dir
  pub enough : size ≤ (get_or dir i no_bdir).size
  pub first : (j : ℕ) → j < i → (get_or dir j no_bdir).size < size

Fits-cons :
    (b : Bdir) (dir : List Bdir) (size i : ℕ)
    → b.size < size
    → Fits dir size i
    → Fits (b ∷ dir) size (suc i)
Fits-cons b dir size i small f = record {
  inside = omega (arith, f.inside);
  enough = f.enough;
  first = λ j lt. below j lt;
}
  where
    below : (j : ℕ) → j < suc i → (get_or (b ∷ dir) j no_bdir).size < size
    below zero lt = small
    below (suc j) lt = f.first j (omega arith)

Fits-here : (b : Bdir) (dir : List Bdir) (size : ℕ) → size ≤ b.size → Fits (b ∷ dir) size 0
Fits-here b dir size le = record {
  inside = omega arith;
  enough = le;
  first = λ j lt. absurd (omega (arith, lt));
}

pub find_bdir_lem :
    (dir : List Bdir) (size : ℕ) {i : ℕ} → find_bdir dir size ≡ some i → Fits dir size i
unfolding find_bdir
find_bdir_lem [] size h = cc
find_bdir_lem (b ∷ dir) size {i} h = elim (Bool-cases (leb size b.size)) [
  | inl fits ↦
      subst (Fits (b ∷ dir) size) {x = 0} (ground arith) (Fits-here b dir size (ground arith))
  | inr small ↦ elim (Option-cases (find_bdir dir size)) [
    | inl e ↦ ground arith
    | inr (j, e) ↦
        subst (Fits (b ∷ dir) size) {x = suc j} (ground arith)
          (Fits-cons b dir size j (ground arith) (find_bdir_lem dir size e))
  ]
]

-- `malloc` takes the first free object of the first descriptor that has one.
pub malloc-pop :
    (fuel : ℕ) (h : Heap) (size i p : ℕ) (full rest : List ℕ)
    → find_bdir h.dir size ≡ some i
    → Linked h.desc (get_or h.dir i no_bdir).list (full ++ p ∷ rest)
    → All (λ y. (h.desc y).freeptr ≡ 0) full
    → (h.desc p).freeptr ≢ 0
    → p ≢ 0
    → length full < fuel
    → malloc fuel h size ≡ ok (pop_object h p)
unfolding malloc malloc_from
malloc-pop fuel h size i p full rest e l all ne nz lt =
    ap (λ o. elim o [ none ↦ panic | some j ↦ malloc_from fuel h j ]) e
    ∙ ap
        (λ r. r >>= λ q. elim (q == 0) [
          | true ↦ new_page h i >>= λ (t, h'). ok (pop_object h' t)
          | false ↦ ok (pop_object h q)
        ])
        (find_open_lem fuel h.desc (get_or h.dir i no_bdir).list full p rest lt all l ne)
    ∙ ap
        (λ b. elim b [
          | true ↦ new_page h i >>= λ (t, h'). ok (pop_object h' t)
          | false ↦ ok (pop_object h p)
        ])
        (==_ne p 0 nz)

-- The state after a page has been opened for entry i.
abbrev pub opened : Heap → ℕ → ℕ → Pool → Heap
opened h i cp pool = record {
  pool = record pool {
    word =
        carve pool.word cp (get_or h.dir i no_bdir).size
          (page_size / (get_or h.dir i no_bdir).size - 1);
  };
  desc = put_desc h.desc h.spare (fresh_desc cp (get_or h.dir i no_bdir));
  dir = set h.dir i (record (get_or h.dir i no_bdir) { list = h.spare });
  spare = (h.desc h.spare).next;
}

open_page_lem :
    (h : Heap) (i cp : ℕ) (pool : Pool)
    → page_alloc h.pool 1 ≡ ok (cp, pool)
    → cp ≢ 0
    → open_page h i ≡ ok (h.spare, opened h i cp pool)
unfolding open_page
open_page_lem h i cp pool e ne =
    ap (λ r. r >>= λ a. ensure (not (a.0 == 0)) >>= λ done. ok (h.spare, opened h i a.0 a.1)) e
    ∙ ap (λ b. ensure (not b) >>= λ done. ok (h.spare, opened h i cp pool)) (==_ne cp 0 ne)

-- `malloc` opens a page if no descriptor of the entry has a free object.
pub malloc-open :
    (fuel : ℕ) (h : Heap) (size i cp : ℕ) (pool : Pool) (full : List ℕ)
    → find_bdir h.dir size ≡ some i
    → Linked h.desc (get_or h.dir i no_bdir).list full
    → All (λ y. (h.desc y).freeptr ≡ 0) full
    → length full < fuel
    → h.spare ≢ 0
    → page_alloc h.pool 1 ≡ ok (cp, pool)
    → cp ≢ 0
    → malloc fuel h size ≡ ok (pop_object (opened h i cp pool) h.spare)
unfolding malloc malloc_from new_page
malloc-open fuel h size i cp pool full e l all lt nz page ne =
    ap (λ o. elim o [ none ↦ panic | some j ↦ malloc_from fuel h j ]) e
    ∙ ap
        (λ r. r >>= λ q. elim (q == 0) [
          | true ↦ new_page h i >>= λ (t, h'). ok (pop_object h' t)
          | false ↦ ok (pop_object h q)
        ])
        (find_open-none fuel h.desc (get_or h.dir i no_bdir).list full lt all l)
    ∙ ap
        (λ b.
          (elim b [ true ↦ init_block_desc h >>= λ h'. open_page h' i | false ↦ open_page h i ])
          >>= λ (t, h'). ok (pop_object h' t))
        (==_ne h.spare 0 nz)
    ∙ ap (λ r. r >>= λ (t, h'). ok (pop_object h' t)) (open_page_lem h i cp pool page ne)
