-- ===== src/Buffer/Get.antt =====
-- `bget`, on each of its three branches.
use os.Util.{
  ℕ, zero, suc, ◌+◌, ◌≤◌, ◌<◌, ◌≡◌, refl, sym, ◌≢◌, ◌⊎◌, inl, inr, none, some, List, [], ◌∷◌, ok,
  panic, arith, ◌==◌, ◌&&◌, length, get_or, Bool-cases, ==_iff,
}
use mathlib.Core.Path.{subst}
use os.Buffer.{Buffer, Cache, zeroed, at, update, buffer_num, find_cached, find_unused, bget}

-- Buffer i holds the block, as far as its number says.
abbrev pub Matches : Buffer → ℕ → ℕ → Type 0
Matches b dev block_no = (b.dev ≡ dev) × (b.block_no ≡ block_no)

abbrev pub NoneBelow : List Buffer → ℕ → ℕ → ℕ → Type 0
NoneBelow bufs n dev block_no = (j : ℕ) → j < n → ¬ Matches (get_or bufs j zeroed) dev block_no

NoneBelow-cons :
    (b : Buffer) (bufs : List Buffer) (n dev block_no : ℕ)
    → ¬ Matches b dev block_no
    → NoneBelow bufs n dev block_no
    → NoneBelow (b ∷ bufs) (suc n) dev block_no
NoneBelow-cons b bufs n dev block_no h t zero lt m = h m
NoneBelow-cons b bufs n dev block_no h t (suc j) lt m = t j (omega arith) m

pub find_cached_lem :
    (bufs : List Buffer) (n dev block_no : ℕ)
    → n ≤ length bufs
    → ((i : ℕ) × (find_cached bufs n dev block_no ≡ some i)
        × (i < n)
        × Matches (get_or bufs i zeroed) dev block_no
        × NoneBelow bufs i dev block_no)
      ⊎ ((find_cached bufs n dev block_no ≡ none) × NoneBelow bufs n dev block_no)
unfolding find_cached
find_cached_lem bufs zero dev block_no le = inr (refl, λ j lt. absurd (omega arith))
find_cached_lem [] (suc n) dev block_no le = absurd (omega arith)
find_cached_lem (b ∷ bufs) (suc n) dev block_no le =
    elim (Bool-cases ((b.dev == dev) && (b.block_no == block_no))) [
      | inl hit ↦ inl (0, rw hit refl, omega arith, ground arith, λ j lt. absurd (omega arith))
      | inr miss ↦ elim (find_cached_lem bufs n dev block_no (omega arith)) [
        | inl (i, e, lt, m, first) ↦ inl (
          suc i,
          rw (miss, e) refl,
          omega arith,
          m,
          NoneBelow-cons b bufs i dev block_no (λ h. ground arith) first,
        )
        | inr (e, nowhere) ↦
            inr
              (rw (miss, e) refl, NoneBelow-cons b bufs n dev block_no (λ h. ground arith) nowhere)
      ]
    ]

abbrev pub AllUsed : List Buffer → ℕ → ℕ → Type 0
AllUsed bufs from to = (j : ℕ) → from ≤ j → j < to → (get_or bufs j zeroed).refcnt ≢ 0

AllUsed-suc :
    (bufs : List Buffer) (from n : ℕ)
    → (get_or bufs n zeroed).refcnt ≢ 0
    → AllUsed bufs from n
    → AllUsed bufs from (suc n)
AllUsed-suc bufs from n used every j a lt = elim (Bool-cases (j == n)) [
  | inl same ↦ subst (λ k. (get_or bufs k zeroed).refcnt ≢ 0) (sym ((==_iff j n).0 same)) used
  | inr other ↦ every j a (ground arith)
]

pub find_unused_lem :
    (bufs : List Buffer) (n : ℕ)
    → ((i : ℕ) × (find_unused bufs n ≡ some i)
        × (i < n)
        × ((get_or bufs i zeroed).refcnt ≡ 0)
        × AllUsed bufs (suc i) n)
      ⊎ ((find_unused bufs n ≡ none) × AllUsed bufs 0 n)
unfolding find_unused
find_unused_lem bufs zero = inr (refl, λ j a lt. absurd (omega arith))
find_unused_lem bufs (suc n) = elim (Bool-cases ((get_or bufs n zeroed).refcnt == 0)) [
  | inl unused ↦ inl (n, rw unused refl, omega arith, ground arith, λ j a lt. absurd (omega arith))
  | inr used ↦ elim (find_unused_lem bufs n) [
    | inl (i, e, lt, z, above) ↦
        inl (i, rw (used, e) refl, omega arith, z, AllUsed-suc bufs (suc i) n (ground arith) above)
    | inr (e, every) ↦ inr (rw (used, e) refl, AllUsed-suc bufs 0 n (ground arith) every)
  ]
]

-- The block is in one of the first 29 buffers: the first such one gets a reference.
pub record Hit (c : Cache) (dev block_no i : ℕ) : Type 0 where
  pub range : i < 29
  pub match : Matches (at c i) dev block_no
  pub first : NoneBelow c.buf i dev block_no
  pub result :
      bget c dev block_no ≡ ok (i, update c i (record (at c i) { refcnt = (at c i).refcnt + 1 }))

-- It is not: the last buffer without references is taken for it.
pub record Miss (c : Cache) (dev block_no i : ℕ) : Type 0 where
  pub absent : NoneBelow c.buf 29 dev block_no
  pub range : i < 30
  pub unused : (at c i).refcnt ≡ 0
  pub last : AllUsed c.buf (suc i) 30
  pub result :
      bget c dev block_no
      ≡ ok (
        i,
        update c i (record (at c i) {
          valid = 0;
          dev = dev;
          block_no = block_no;
          refcnt = (at c i).refcnt + 1;
        }),
      )

-- It is not, and every buffer is referred to: the kernel stops.
pub record Full (c : Cache) (dev block_no : ℕ) : Type 0 where
  pub absent : NoneBelow c.buf 29 dev block_no
  pub used : AllUsed c.buf 0 30
  pub result : bget c dev block_no ≡ panic

-- Every call of `bget` on a cache of 30 buffers does one of three things: it refers once more to
-- the first of buffers 0 to 28 that has the block, or takes the last buffer without references
-- for the block, or, where there is neither, panics.
pub bget_cases :
    (c : Cache) (dev block_no : ℕ)
    → length c.buf ≡ 30
    → ((i : ℕ) × Hit c dev block_no i) ⊎ ((i : ℕ) × Miss c dev block_no i) ⊎ Full c dev block_no
unfolding bget
bget_cases c dev block_no len = elim (find_cached_lem c.buf 29 dev block_no (omega arith)) [
  | inl (i, e, lt, m, first) ↦
      inl (i, record { range = lt; match = m; first = first; result = rw (e, bget) refl })
  | inr (e, absent) ↦ elim (find_unused_lem c.buf buffer_num) [
    | inl (i, e2, lt, z, last) ↦ inr (
        inl (
          i,
          record {
            absent = absent;
            range = lt;
            unused = z;
            last = last;
            result = rw (e, bget, e2) refl;
          },
        ))
    | inr (e2, used) ↦
        inr (inr (record { absent = absent; used = used; result = rw (e, bget, e2) refl }))
  ]
]
