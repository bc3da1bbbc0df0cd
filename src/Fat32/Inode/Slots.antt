-- ===== src/Fat32/Inode/Slots.antt =====
-- The table of inodes: how `fat32_inode_get` chooses, and that no inode is in the table twice.
use os.Util.{
  ℕ, zero, suc, ◌+◌, ◌%◌, ◌≤◌, ◌<◌, ◌≡◌, refl, sym, ap, ◌∙◌, get_or-set_self, get_or-set_ne, ◌≢◌,
  ◌⊎◌, inl, inr, arith, Bool-cases, ltb, ◌==◌, ◌&&◌, ==_iff, Option, none, some, List, ok,
  >>=-eq-ok, ok-injective, get_or, set, length,
}
use mathlib.Core.Path.{subst}
use os.Text.{Bytes, strlen, strncpy}
use os.Fat32.Volume.{Inode, Fs, no_inode, nentry, inode_at, set_inode}
use os.Fat32.Inode.{present, empty, no_space, or_empty, find_slot, fat32_inode_get, fat32_inode_dup}

-- An inode in use is the one of a device and number.
pub record Holds (inode : Inode) (dev inum : ℕ) : Type 0 where
  pub used : 0 < inode.ref
  pub same_dev : inode.i_dev ≡ dev
  pub same_ino : inode.i_ino ≡ inum

-- No inode from a to b (b excluded) is the one.
abbrev pub NoneHolds : List Inode → (a b dev inum : ℕ) → Type 0
NoneHolds inodes a b dev inum =
    (i : ℕ) → a ≤ i → i < b → ¬ Holds (get_or inodes i no_inode) dev inum

NoneHolds-step :
    (inodes : List Inode) (a b dev inum : ℕ)
    → ¬ Holds (get_or inodes a no_inode) dev inum
    → NoneHolds inodes (a + 1) b dev inum
    → NoneHolds inodes a b dev inum
NoneHolds-step inodes a b dev inum here later i le lt = elim (Bool-cases (i == a)) [
  | inl same ↦
      subst (λ (t : ℕ). ¬ Holds (get_or inodes t no_inode) dev inum) (sym ((==_iff i a).0 same))
        here
  | inr other ↦ later i (ground arith) lt
]

-- What a search that has passed the inodes before `ip` remembers.
abbrev pub IsSeen : List Inode → Option ℕ → ℕ → Type 0
IsSeen inodes none ip = (i : ℕ) → i < ip → 0 < (get_or inodes i no_inode).ref
IsSeen inodes (some k) ip = (k < ip) × ((get_or inodes k no_inode).ref ≡ 0)

IsSeen-step :
    (inodes : List Inode) (seen : Option ℕ) (ip : ℕ)
    → IsSeen inodes seen ip
    → IsSeen inodes (or_empty (get_or inodes ip no_inode) ip seen) (ip + 1)
unfolding or_empty
IsSeen-step inodes (some k) ip (lt, z) = (omega arith, z)
IsSeen-step inodes none ip every = elim (Bool-cases ((get_or inodes ip no_inode).ref == 0)) [
  | inl z ↦ rw z (omega arith, (==_iff _ 0).0 z)
  | inr used ↦ rw used (λ i lt. elim (Bool-cases (i == ip)) [
    | inl same ↦
        subst (λ (t : ℕ). 0 < (get_or inodes t no_inode).ref) (sym ((==_iff i ip).0 same))
          (ground arith)
    | inr other ↦ every i (ground arith)
  ])
]

pub find_slot_lem :
    (inodes : List Inode) (count ip dev inum : ℕ) (seen : Option ℕ)
    → IsSeen inodes seen ip
    → ((i : ℕ) × (find_slot inodes count ip dev inum seen ≡ present i)
        × (i < ip + count)
        × Holds (get_or inodes i no_inode) dev inum)
      ⊎ (NoneHolds inodes ip (ip + count) dev inum
          × (((i : ℕ) × (find_slot inodes count ip dev inum seen ≡ empty i)
                × (i < ip + count)
                × ((get_or inodes i no_inode).ref ≡ 0))
              ⊎ ((find_slot inodes count ip dev inum seen ≡ no_space)
                  × ((i : ℕ) → i < ip + count → 0 < (get_or inodes i no_inode).ref))))
unfolding find_slot
find_slot_lem inodes zero ip dev inum none s =
    inr (λ i le lt. absurd (omega arith), inr (refl, λ i lt. s i (omega arith)))
find_slot_lem inodes zero ip dev inum (some k) s =
    inr (λ i le lt. absurd (omega arith), inl (k, refl, omega arith, s.1))
find_slot_lem inodes (suc count) ip dev inum seen s =
    let here = get_or inodes ip no_inode in
    elim (Bool-cases (ltb 0 here.ref && (here.i_dev == dev) && (here.i_ino == inum))) [
      | inl hit ↦ inl (
        ip,
        rw hit refl,
        omega arith,
        record { used = ground arith; same_dev = ground arith; same_ino = ground arith },
      )
      | inr miss ↦
          let away : ¬ Holds here dev inum = λ h. ground (arith, h.used, h.same_dev, h.same_ino) in
          elim (find_slot_lem inodes count (ip + 1) dev inum (or_empty here ip seen)
            (IsSeen-step inodes seen ip s)) [
              | inl (i, e, lt, h) ↦ inl (i, rw miss e, omega arith, h)
              | inr (nowhere, inl (i, e, lt, z)) ↦ inr (
                NoneHolds-step inodes ip (ip + suc count) dev inum away
                    (λ j le lt2. nowhere j le (omega arith)),
                inl (i, rw miss e, omega arith, z),
              )
              | inr (nowhere, inr (e, all)) ↦ inr (
                NoneHolds-step inodes ip (ip + suc count) dev inum away
                    (λ j le lt2. nowhere j le (omega arith)),
                inr (rw miss e, λ j lt. all j (omega arith)),
              )
            ]
    ]

-- The inodes in use of the table have different devices or numbers.
pub record IsUnique (inodes : List Inode) : Type 0 where
  pub unique :
      (i j dev inum : ℕ)
      → i < nentry
      → j < nentry
      → Holds (get_or inodes i no_inode) dev inum
      → Holds (get_or inodes j no_inode) dev inum
      → i ≡ j

-- The inode at i after one at ip is replaced.
place :
    (inodes : List Inode) (ip i : ℕ) (v : Inode)
    → ip < length inodes
    → ((i ≡ ip) × (get_or (set inodes ip v) i no_inode ≡ v))
      ⊎ ((i ≢ ip) × (get_or (set inodes ip v) i no_inode ≡ get_or inodes i no_inode))
place inodes ip i v lt = elim (Bool-cases (i == ip)) [
  | inl same ↦
      let e = (==_iff i ip).0 same in
      inl (
        e,
        ap (λ (t : ℕ). get_or (set inodes ip v) t no_inode) e
            ∙ get_or-set_self inodes ip v no_inode lt,
      )
  | inr other ↦
      let ne : ip ≢ i = λ e. ground arith in
      inr ((λ e. ne (sym e)), get_or-set_ne inodes ip i v no_inode ne)
]

Holds-set :
    (inodes : List Inode) (ip : ℕ) (v : Inode) (dev inum : ℕ)
    → ip < length inodes
    → Holds v dev inum
    → Holds (get_or (set inodes ip v) ip no_inode) dev inum
Holds-set inodes ip v dev inum lt =
    subst (λ (t : Inode). Holds t dev inum) (sym (get_or-set_self inodes ip v no_inode lt))

-- One inode is replaced by one that is the same, or by one that is nowhere else.
IsUnique-same :
    (inodes : List Inode) (ip : ℕ) (v : Inode)
    → IsUnique inodes
    → ip < length inodes
    → 0 < (get_or inodes ip no_inode).ref
    → v.i_dev ≡ (get_or inodes ip no_inode).i_dev
    → v.i_ino ≡ (get_or inodes ip no_inode).i_ino
    → IsUnique (set inodes ip v)
IsUnique-same inodes ip v u lt used d n = record {
  unique = λ i j dev inum li lj hi hj.
      u.unique i j dev inum li lj (back i dev inum hi) (back j dev inum hj);
}
  where
    back :
        (i dev inum : ℕ)
        → Holds (get_or (set inodes ip v) i no_inode) dev inum
        → Holds (get_or inodes i no_inode) dev inum
    back i dev inum h = elim (place inodes ip i v lt) [
      | inl (e, at_v) ↦
          let before = ap (λ (t : ℕ). get_or inodes t no_inode) e in
          record {
            used = omega (arith, used, ap (λ (t : Inode). t.ref) before);
            same_dev =
                ap (λ (t : Inode). t.i_dev) before
                ∙ sym d
                ∙ sym (ap (λ (t : Inode). t.i_dev) at_v)
                ∙ h.same_dev;
            same_ino =
                ap (λ (t : Inode). t.i_ino) before
                ∙ sym n
                ∙ sym (ap (λ (t : Inode). t.i_ino) at_v)
                ∙ h.same_ino;
          }
      | inr (ne, same) ↦ subst (λ (t : Inode). Holds t dev inum) same h
    ]

IsUnique-new :
    (inodes : List Inode) (ip : ℕ) (v : Inode)
    → IsUnique inodes
    → ip < length inodes
    → NoneHolds inodes 0 nentry v.i_dev v.i_ino
    → IsUnique (set inodes ip v)
IsUnique-new inodes ip v u lt nowhere = record {
  unique = λ i j dev inum li lj hi hj. elim (place inodes ip i v lt) [
    | inl (ei, at_i) ↦ elim (place inodes ip j v lt) [
      | inl (ej, at_j) ↦ ei ∙ sym ej
      | inr (nej, at_j) ↦ absurd (clash j lj at_i at_j hi hj)
    ]
    | inr (nei, at_i) ↦ elim (place inodes ip j v lt) [
      | inl (ej, at_j) ↦ absurd (clash i li at_j at_i hj hi)
      | inr (nej, at_j) ↦
          u.unique i j dev inum li lj (subst (λ (t : Inode). Holds t dev inum) at_i hi)
            (subst (λ (t : Inode). Holds t dev inum) at_j hj)
    ]
  ];
}
  where
    clash :
        {a b : Inode} {dev inum : ℕ} (k : ℕ)
        → k < nentry
        → a ≡ v
        → b ≡ get_or inodes k no_inode
        → Holds a dev inum
        → Holds b dev inum
        → ⊥
    clash k lk ea eb ha hb = nowhere k (omega arith) lk (record {
      used = omega (arith, hb.used, ap (λ (t : Inode). t.ref) eb);
      same_dev =
          sym (ap (λ (t : Inode). t.i_dev) eb)
          ∙ hb.same_dev
          ∙ sym ha.same_dev
          ∙ ap (λ (t : Inode). t.i_dev) ea;
      same_ino =
          sym (ap (λ (t : Inode). t.i_ino) eb)
          ∙ hb.same_ino
          ∙ sym ha.same_ino
          ∙ ap (λ (t : Inode). t.i_ino) ea;
    })

-- Where `fat32_inode_get` returns, the inode is one of the table, in use, and of the device and
-- number asked for, if the device fits eight bits; and if the inodes in use of the table had
-- different devices or numbers, they still have.
pub fat32_inode_get-IsUnique :
    (fs : Fs) (dev inum : ℕ) (name : Bytes) (parentoff : ℕ) {ip : ℕ} {fs' : Fs}
    → dev < 256
    → nentry ≤ length fs.inodes
    → IsUnique fs.inodes
    → fat32_inode_get fs dev inum name parentoff ≡ ok (ip, fs')
    → (ip < nentry) × Holds (inode_at fs' ip) dev inum × IsUnique fs'.inodes
unfolding fat32_inode_get fat32_inode_dup set_inode
fat32_inode_get-IsUnique fs dev inum name parentoff byte len u h =
    elim (find_slot_lem fs.inodes nentry 0 dev inum none (λ i lt. absurd (omega arith))) [
      | inl (i, e, lt, held) ↦ got (rw (e, fat32_inode_get) at h) (
        omega arith,
        Holds-set fs.inodes i (record (inode_at fs i) { ref = (inode_at fs i).ref + 1 }) dev inum
            (omega arith)
            (record { used = omega arith; same_dev = held.same_dev; same_ino = held.same_ino }),
        IsUnique-same fs.inodes i (record (inode_at fs i) { ref = (inode_at fs i).ref + 1 }) u
            (omega arith) held.used refl refl,
      )
      | inr (nowhere, inl (i, e, lt, z)) ↦
          let (total, e1, rest) = >>=-eq-ok (strlen name) _ (rw (e, fat32_inode_get) at h) in
          let (fname, e2, done) = >>=-eq-ok (strncpy (inode_at fs i).fname name total) _ rest in
          let same : dev % 256 ≡ dev = omega (arith, byte) in
          got done (
            omega arith,
            Holds-set fs.inodes i _ dev inum (omega arith)
                (record { used = omega arith; same_dev = same; same_ino = refl }),
            IsUnique-new fs.inodes i _ u (omega arith) (λ j le lj.
                subst (λ (d : ℕ). ¬ Holds (get_or fs.inodes j no_inode) d inum) (sym same)
                  (nowhere j le (omega arith))),
          )
      | inr (nowhere, inr (e, every)) ↦ cc (rw (e, fat32_inode_get) at h)
    ]
  where
    got :
        {p q : ℕ × Fs}
        → ok p ≡ ok q
        → (p.0 < nentry) × Holds (inode_at p.1 p.0) dev inum × IsUnique p.1.inodes
        → (q.0 < nentry) × Holds (inode_at q.1 q.0) dev inum × IsUnique q.1.inodes
    got e =
        subst
          (λ (t : ℕ × Fs). (t.0 < nentry) × Holds (inode_at t.1 t.0) dev inum × IsUnique t.1.inodes)
          (ok-injective e)
