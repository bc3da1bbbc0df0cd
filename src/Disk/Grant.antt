-- ===== src/Disk/Grant.antt =====
-- driver/virtio.c: `alloc_descs` takes three descriptors, or gives back what it has taken.
use os.Util.{
  ℕ, suc, ◌<◌, ◌≡◌, refl, sym, ◌∙◌, ap, arith, none, some, List, [], ◌∷◌, ◌++◌, ok, ◌>>=◌, get_or,
  set, length, length-set, get_or-set_inside, get_elem?-eq-get_or, get_or_ext, set-set, set-get_or,
}
use os.Disk.{Disk, no_desc, free_desc, alloc_desc, give_back, alloc_rounds, alloc_descs}
use os.Disk.Taken.{
  IsTable, frees, grant, left, take, take-IsTable, alloc_desc-Taken, alloc_desc-none,
}

abbrev pub freed : Disk → ℕ → Disk
freed d i = record d { desc = set d.desc i no_desc; free = set d.free i 1 }

-- A descriptor that is taken can be freed.
pub free_desc_lem :
    (d : Disk) (i : ℕ) → IsTable d → i < 8 → get_or d.free i 0 ≡ 0 → free_desc d i ≡ ok (freed d i)
unfolding free_desc
free_desc_lem d i t lt e =
    ground (arith, get_elem?-eq-get_or d.free i 0 (omega (arith, t.free_len)), e)

pub freed-IsTable : (d : Disk) (i : ℕ) → IsTable d → i < 8 → IsTable (freed d i)
freed-IsTable d i t lt = record {
  free_len = omega (arith, length-set d.free i 1, t.free_len);
  desc_len = omega (arith, length-set d.desc i no_desc, t.desc_len);
  info_len = t.info_len;
  mark =
      λ n. ground (arith, get_or-set_inside d.free i n 1 0 (omega (arith, t.free_len)), t.mark n);
}

-- Giving back in the order of taking restores the marks.
restored_one : (d : Disk) (i : ℕ) → get_or d.free i 0 ≡ 1 → set (set d.free i 0) i 1 ≡ d.free
restored_one d i e = set-set d.free i 0 1 ∙ ap (λ m. set d.free i m) (sym e) ∙ set-get_or d.free i 0

restored_two :
    (d : Disk) (i j : ℕ)
    → IsTable d
    → i < 8
    → j < 8
    → get_or d.free i 0 ≡ 1
    → get_or d.free j 0 ≡ 1
    → set (set (set (set d.free i 0) j 0) i 1) j 1 ≡ d.free
restored_two d i j t li lj ei ej =
    get_or_ext 0 (set (set (set (set d.free i 0) j 0) i 1) j 1) d.free sizes λ n. ground (
      arith,
      get_or-set_inside (set (set (set d.free i 0) j 0) i 1) j n 1 0 (omega (arith, c, t.free_len)),
      get_or-set_inside (set (set d.free i 0) j 0) i n 1 0 (omega (arith, b, t.free_len)),
      get_or-set_inside (set d.free i 0) j n 0 0 (omega (arith, a, t.free_len)),
      get_or-set_inside d.free i n 0 0 (omega (arith, t.free_len)),
      λ (e : n ≡ i). ap (λ (x : ℕ). get_or d.free x 0) e,
      λ (e : n ≡ j). ap (λ (x : ℕ). get_or d.free x 0) e,
    )
  where
    a : length (set d.free i 0) ≡ length d.free
    a = length-set d.free i 0

    b : length (set (set d.free i 0) j 0) ≡ length d.free
    b = length-set (set d.free i 0) j 0 ∙ a

    c : length (set (set (set d.free i 0) j 0) i 1) ≡ length d.free
    c = length-set (set (set d.free i 0) j 0) i 1 ∙ b

    sizes : length (set (set (set (set d.free i 0) j 0) i 1) j 1) ≡ length d.free
    sizes = length-set (set (set (set d.free i 0) j 0) i 1) j 1 ∙ c

-- What `alloc_descs` leaves: the marks but for those that it sets, and a table in which the
-- descriptors that were taken before stay as they are.
pub record Granted (d d' : Disk) : Type 0 where
  pub done : alloc_descs d ≡ ok (grant (frees d.free 0), d')
  pub rest : frees d'.free 0 ≡ left (frees d.free 0)
  pub table : IsTable d'
  pub frame : d' ≡ record d { free = d'.free; desc = d'.desc }
  pub spared : (n : ℕ) → get_or d.free n 0 ≡ 0 → get_or d'.desc n no_desc ≡ get_or d.desc n no_desc

-- A round of the loop.
round_none :
    (r : ℕ) (d : Disk) (index : List ℕ)
    → alloc_desc d ≡ (none, d)
    → alloc_rounds (suc r) d index ≡ (give_back d index >>= λ d'. ok (none, d'))
unfolding alloc_rounds
round_none r d index e =
    ap
      (λ p. elim p.0 [
        | none ↦ give_back p.1 index >>= λ d''. ok (none, d'')
        | some i ↦ alloc_rounds r p.1 (index ++ i ∷ [])
      ])
      e

pub round_some :
    (r : ℕ) (d : Disk) (i : ℕ) (index : List ℕ)
    → alloc_desc d ≡ (some i, take d i)
    → alloc_rounds (suc r) d index ≡ alloc_rounds r (take d i) (index ++ i ∷ [])
unfolding alloc_rounds
round_some r d i index e =
    ap
      (λ p. elim p.0 [
        | none ↦ give_back p.1 index >>= λ d''. ok (none, d'')
        | some i ↦ alloc_rounds r p.1 (index ++ i ∷ [])
      ])
      e

give_back-cons :
    (d : Disk) (i : ℕ) (index : List ℕ)
    → free_desc d i ≡ ok (freed d i)
    → give_back d (i ∷ index) ≡ give_back (freed d i) index
unfolding give_back
give_back-cons d i index e = ap (λ r. r >>= λ d'. give_back d' index) e

-- The cases, by the number of the free descriptors.
Granted-none : (d : Disk) → IsTable d → frees d.free 0 ≡ [] → Granted d d
unfolding alloc_descs alloc_rounds give_back grant left
Granted-none d t e = record {
  done = round_none 2 d [] (alloc_desc-none d e) ∙ ap (λ fs. ok (grant fs, d)) (sym e);
  rest = rw e refl;
  table = t;
  frame = refl;
  spared = λ n z. refl;
}

Granted-one : (d : Disk) (i : ℕ) → IsTable d → frees d.free 0 ≡ i ∷ [] → (d' : Disk) × Granted d d'
unfolding alloc_descs alloc_rounds give_back grant left
Granted-one d i t e =
    let f = alloc_desc-Taken d i [] t e in
    let d1 = take d i in
    let t1 = take-IsTable d i t f.inside in
    let zero_i = get_or-set_inside d.free i i 0 0 (omega (arith, t.free_len, f.inside)) in
    let back = free_desc_lem d1 i t1 f.inside (ground (arith, zero_i)) in
    let same = restored_one d i f.marked in
    (
      freed d1 i,
      record {
        done =
            round_some 2 d i [] f.done
            ∙ round_none 1 d1 (i ∷ []) (alloc_desc-none d1 f.others)
            ∙ ap (λ r. r >>= λ b. ok (none, b)) (give_back-cons d1 i [] back)
            ∙ ap (λ fs. ok (grant fs, freed d1 i)) (sym e);
        rest = rw (same, e) refl;
        table = freed-IsTable d1 i t1 f.inside;
        frame = refl;
        spared = λ n z. ground (
          arith,
          f.marked,
          get_or-set_inside d.desc i n no_desc no_desc (omega (arith, t.desc_len, f.inside)),
          λ (q : n ≡ i). ap (λ (x : ℕ). get_or d.free x 0) q,
        );
      },
    )

Granted-two :
    (d : Disk) (i j : ℕ) → IsTable d → frees d.free 0 ≡ i ∷ j ∷ [] → (d' : Disk) × Granted d d'
unfolding alloc_descs alloc_rounds give_back grant left
Granted-two d i j t e =
    let f = alloc_desc-Taken d i (j ∷ []) t e in
    let d1 = take d i in
    let t1 = take-IsTable d i t f.inside in
    let g = alloc_desc-Taken d1 j [] t1 f.others in
    let d2 = take d1 j in
    let t2 = take-IsTable d1 j t1 g.inside in
    let read_i = get_or-set_inside d.free i i 0 0 (omega (arith, t.free_len, f.inside)) in
    let read_j = get_or-set_inside d.free i j 0 0 (omega (arith, t.free_len, f.inside)) in
    let marked_j : get_or d.free j 0 ≡ 1 = ground (arith, g.marked, read_j) in
    let i2 = get_or-set_inside d1.free j i 0 0 (omega (arith, t1.free_len, g.inside)) in
    let j2 = get_or-set_inside d1.free j j 0 0 (omega (arith, t1.free_len, g.inside)) in
    let d3 = freed d2 i in
    let t3 = freed-IsTable d2 i t2 f.inside in
    let j3 = get_or-set_inside d2.free i j 1 0 (omega (arith, t2.free_len, f.inside)) in
    let first = free_desc_lem d2 i t2 f.inside (ground (arith, i2, read_i)) in
    let second =
      free_desc_lem d3 j t3 g.inside
        (ground (arith, j3, j2, read_j, g.marked, read_i, ap (λ (x : ℕ). get_or d1.free x 0))) in
    let same = restored_two d i j t f.inside g.inside f.marked marked_j in
    (
      freed d3 j,
      record {
        done =
            round_some 2 d i [] f.done
            ∙ round_some 1 d1 j (i ∷ []) g.done
            ∙ round_none 0 d2 (i ∷ j ∷ []) (alloc_desc-none d2 g.others)
            ∙ ap (λ r. r >>= λ b. ok (none, b))
                (give_back-cons d2 i (j ∷ []) first ∙ give_back-cons d3 j [] second)
            ∙ ap (λ fs. ok (grant fs, freed d3 j)) (sym e);
        rest = rw (same, e) refl;
        table = freed-IsTable d3 j t3 g.inside;
        frame = refl;
        spared = λ n z. ground (
          arith,
          f.marked,
          marked_j,
          get_or-set_inside d.desc i n no_desc no_desc (omega (arith, t.desc_len, f.inside)),
          get_or-set_inside d3.desc j n no_desc no_desc (omega (arith, t3.desc_len, g.inside)),
          λ (q : n ≡ i). ap (λ (x : ℕ). get_or d.free x 0) q,
          λ (q : n ≡ j). ap (λ (x : ℕ). get_or d.free x 0) q,
        );
      },
    )

Granted-three :
    (d : Disk) (i j k : ℕ) (rest : List ℕ)
    → IsTable d
    → frees d.free 0 ≡ i ∷ j ∷ k ∷ rest
    → (d' : Disk) × Granted d d'
unfolding alloc_descs alloc_rounds grant left
Granted-three d i j k rest t e =
    let f = alloc_desc-Taken d i (j ∷ k ∷ rest) t e in
    let t1 = take-IsTable d i t f.inside in
    let g = alloc_desc-Taken (take d i) j (k ∷ rest) t1 f.others in
    let t2 = take-IsTable (take d i) j t1 g.inside in
    let h = alloc_desc-Taken (take (take d i) j) k rest t2 g.others in
    (
      take (take (take d i) j) k,
      record {
        done =
            round_some 2 d i [] f.done
            ∙ round_some 1 (take d i) j (i ∷ []) g.done
            ∙ round_some 0 (take (take d i) j) k (i ∷ j ∷ []) h.done
            ∙ ap (λ fs. ok (grant fs, take (take (take d i) j) k)) (sym e);
        rest = h.others ∙ ap left (sym e);
        table = take-IsTable (take (take d i) j) k t2 h.inside;
        frame = refl;
        spared = λ n z. refl;
      },
    )

-- `alloc_descs` ends without a fault. It gives the first three free descriptors and takes just
-- these, or, with fewer than three free ones, it gives none and leaves the marks of the free ones
-- as they were. Descriptors that were taken before keep their contents, and nothing else changes.
pub alloc_descs_lem : (d : Disk) → IsTable d → (d' : Disk) × Granted d d'
alloc_descs_lem d t = by_frees (frees d.free 0) refl
  where
    by_frees : (fs : List ℕ) → frees d.free 0 ≡ fs → (d' : Disk) × Granted d d'
    by_frees [] e = (d, Granted-none d t e)
    by_frees (i ∷ []) e = Granted-one d i t e
    by_frees (i ∷ j ∷ []) e = Granted-two d i j t e
    by_frees (i ∷ j ∷ k ∷ rest) e = Granted-three d i j k rest t e
