-- ===== src/Malloc/Unlink.antt =====
-- mm/malloc.c: the descriptor of a page that is given back leaves its list.
use os.Util.{
  ℕ, ◌<◌, ◌≡◌, sym, ◌≢◌, ◌∙◌, ap, ap₂, true, not, ◌&&◌, ◌||◌, List, [], ◌∷◌, ◌++◌, ok, ◌>>◌, ensure,
  ◌==◌, ==_refl, ==_ne, if◌then◌else◌, length, get_or, set, get_or-set_self,
}
use mathlib.Core.Path.{subst}
use os.Malloc.{
  Heap, Bdesc, Bdir, put_desc, must_search, search_again, take_out, unlink_desc, no_bdir,
}
use os.Malloc.Linked.{Linked, All, last_of, Linked-put, put_desc_self, put_desc_other}

-- What is left of the descriptors before the one that goes: just the first.
unfoldable pub first_only : List ℕ → List ℕ
first_only [] = []
first_only (x ∷ mid) = x ∷ []

last-ne :
    (desc : ℕ → Bdesc) (q x : ℕ) (xs ys : List ℕ)
    → x ≢ 0
    → Linked desc q (xs ++ ys)
    → last_of x xs ≢ 0
last-ne desc q x [] ys nz l = nz
last-ne desc q x (y ∷ xs) ys nz (e, ny, l) = last-ne desc (desc y).next y xs ys ny l

Linked-after :
    (desc : ℕ → Bdesc) (q p : ℕ) (xs rest : List ℕ)
    → Linked desc q (xs ++ p ∷ rest)
    → Linked desc (desc p).next rest
Linked-after desc q p [] rest (e, nz, l) = l
Linked-after desc q p (x ∷ xs) rest (e, nz, l) = Linked-after desc (desc x).next p xs rest l

-- The first descriptor of the list goes as it should.
unlink-first :
    (h : Heap) (i p : ℕ) (rest : List ℕ)
    → i < length h.dir
    → Linked h.desc (get_or h.dir i no_bdir).list (p ∷ rest)
    → (h' : Heap) × (unlink_desc h i 0 p ≡ ok h')
      × Linked h'.desc (get_or h'.dir i no_bdir).list rest
unfolding unlink_desc must_search take_out
unlink-first h i p rest lt (e, nz, l) = (
  record h { dir = set h.dir i after },
  ap
        (λ b.
          if not b
          then take_out h i p (search_again h.desc list p).0 (search_again h.desc list p).1
          else take_out h i p h.desc 0)
        same
      ∙ ap (λ b. ensure b >> ok (record h { dir = set h.dir i after })) same,
  subst (λ b. Linked h.desc b.list rest) (sym (get_or-set_self h.dir i after no_bdir lt)) l,
)
  where
    list : ℕ
    list = (get_or h.dir i no_bdir).list

    same : (list == p) ≡ true
    same = ap (λ (q : ℕ). q == p) e ∙ ==_refl p

    after : Bdir
    after = record (get_or h.dir i no_bdir) { list = (h.desc p).next }

unlink-later :
    (h : Heap) (i x p : ℕ) (mid rest : List ℕ)
    → Linked h.desc (get_or h.dir i no_bdir).list (x ∷ (mid ++ p ∷ rest))
    → (h.desc (last_of x mid)).block ≢ p
    → All (λ y. y ≢ x) (p ∷ rest)
    → (h' : Heap) × (unlink_desc h i (last_of x mid) p ≡ ok h')
      × Linked h'.desc (get_or h'.dir i no_bdir).list (x ∷ rest)
unfolding unlink_desc must_search search_again take_out
unlink-later h i x p mid rest (e, nz, l) away (px, fresh) = (
  record h { desc = final },
  ap₂
        (λ a b.
          if (not a && not b) || (a && not (list == p))
          then take_out h i p (search_again h.desc list p).0 (search_again h.desc list p).1
          else take_out h i p h.desc (last_of x mid))
        (==_ne (last_of x mid) 0 (last-ne h.desc (h.desc x).next x mid (p ∷ rest) nz l))
        (==_ne (h.desc (last_of x mid)).block p away)
      ∙ ap (λ q. take_out h i p (search_again h.desc q p).0 (search_again h.desc q p).1) e
      ∙ ap
          (λ b.
            let s : (ℕ → Bdesc) × ℕ = if b then (h.desc, 0) else (wrong, x) in
            take_out h i p s.0 s.1)
          (==_ne x 0 nz)
      ∙ ap
          (λ b.
            if b
            then (ensure (list == p)
                >> ok (record h {
                  desc = wrong;
                  dir = set h.dir i (record (get_or h.dir i no_bdir) { list = (wrong p).next });
                }))
            else ok
                (record h { desc = put_desc wrong x (record (wrong x) { next = (wrong p).next }) }))
          (==_ne x 0 nz)
      ∙ ap (λ n. ok (record h { desc = put_desc wrong x (record (wrong x) { next = n }) })) follow,
  (
    e,
    nz,
    subst (λ b. Linked final b.next rest) (sym (put_desc_self wrong x last))
        (Linked-put wrong x last (h.desc p).next rest fresh (
          Linked-put h.desc x first (h.desc p).next rest fresh
            (Linked-after h.desc (h.desc x).next p mid rest l))),
  ),
)
  where
    list : ℕ
    list = (get_or h.dir i no_bdir).list

    first : Bdesc
    first = record (h.desc x) { next = p }

    wrong : ℕ → Bdesc
    wrong = put_desc h.desc x first

    last : Bdesc
    last = record (wrong x) { next = (h.desc p).next }

    follow : (wrong p).next ≡ (h.desc p).next
    follow = ap (λ b. b.next) (put_desc_other h.desc x first p px)

    final : ℕ → Bdesc
    final = put_desc wrong x last

-- Taking the descriptor p out of its list, where the descriptors before it do not come again behind
-- it and the page before it does not lie where p lies: if p is first, the list goes on as it was.
-- Otherwise the first descriptor is followed by those behind p, so that all others between the two
-- are lost.
pub unlink_desc_lem :
    (h : Heap) (i p : ℕ) (front rest : List ℕ)
    → i < length h.dir
    → Linked h.desc (get_or h.dir i no_bdir).list (front ++ p ∷ rest)
    → (h.desc (last_of 0 front)).block ≢ p
    → All (λ x. All (λ y. y ≢ x) (p ∷ rest)) front
    → (h' : Heap) × (unlink_desc h i (last_of 0 front) p ≡ ok h')
      × Linked h'.desc (get_or h'.dir i no_bdir).list (first_only front ++ rest)
unfolding first_only
unlink_desc_lem h i p [] rest lt l away fresh = unlink-first h i p rest lt l
unlink_desc_lem h i p (x ∷ mid) rest lt l away (fresh, all) =
    unlink-later h i x p mid rest l away fresh
