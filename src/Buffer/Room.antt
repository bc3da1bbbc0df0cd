-- ===== src/Buffer/Room.antt =====
-- References to buffers over any sequence of calls.
use os.Util.{
  ℕ, ◌≤◌, ◌≡◌, refl, List, [], ◌∷◌, Run, ok, panic, ◌>>=◌, >>=-eq-ok, ok-injective, arith, ◌==◌,
  length, Bool-cases, Option-cases, inl, inr, get_or-set,
}
use mathlib.Core.Path.{subst}
use native.Mathlib.Nat.{le_trans}
use os.Buffer.Get.{AllUsed, NoneBelow, bget_cases}
use os.Buffer.{
  Buffer, Cache, zeroed, at, update, find_cached, find_unused, buffer_num, bget, fill, bread,
  bwrite, brelse, unlink, write_back, disk_write,
}

-- A call of a client of the cache.
pub data Op : Type 0 where
  read : ℕ → ℕ → Op
  write : ℕ → Op
  release : ℕ → Op

unfoldable pub step : Op → Cache → Run Cache
step (read dev block_no) c = bread c dev block_no >>= λ r. ok r.1
step (write i) c = ok (bwrite c i)
step (release i) c = brelse c i

unfoldable pub run : List Op → Cache → Run Cache
run [] c = ok c
run (o ∷ ops) c = step o c >>= run ops

-- No buffer has lost a reference.
pub record Keeps (c c' : Cache) : Type 0 where
  pub kept : (j : ℕ) → (at c j).refcnt ≤ (at c' j).refcnt

pub update-refcnt :
    (d : Cache) (i j : ℕ) (b : Buffer)
    → (at d i).refcnt ≤ b.refcnt
    → (at d j).refcnt ≤ (at (update d i b) j).refcnt
unfolding update
update-refcnt d i j b le = ground (arith, get_or-set d.buf i j b zeroed)

Keeps-update :
    {c d : Cache} (i : ℕ) (b : Buffer)
    → (at d i).refcnt ≤ b.refcnt
    → Keeps c d
    → Keeps c (update d i b)
Keeps-update {d = d} i b le k = record {
  kept = λ j. le_trans (k.kept j) (update-refcnt d i j b le);
}

Keeps-self : (c : Cache) → Keeps c c
Keeps-self c = record { kept = λ j. omega arith }

Keeps-trans : (c d e : Cache) → Keeps c d → Keeps d e → Keeps c e
Keeps-trans c d e p q = record { kept = λ j. le_trans (p.kept j) (q.kept j) }

-- One write of a buffer, after which the outcome is known.
Keeps-ok : {c d : Cache} {i : ℕ} {r : ℕ × Cache} → ok (i, d) ≡ ok r → Keeps c d → Keeps c r.1
Keeps-ok {c = c} e k = subst (λ (r : ℕ × Cache). Keeps c r.1) (ok-injective e) k

bget-Keeps :
    (c : Cache) (dev block_no : ℕ) {r : ℕ × Cache} → bget c dev block_no ≡ ok r → Keeps c r.1
unfolding bget
bget-Keeps c dev block_no h = elim (Option-cases (find_cached c.buf 29 dev block_no)) [
  | inr (i, e) ↦ Keeps-ok (rw (e, bget) at h) (Keeps-update _ _ (omega arith) (Keeps-self c))
  | inl e ↦ elim (Option-cases (find_unused c.buf buffer_num)) [
    | inr (i, e2) ↦ Keeps-ok (rw (e, bget, e2) at h) (Keeps-update _ _ (omega arith) (Keeps-self c))
    | inl e2 ↦ cc (rw (e, bget, e2) at h)
  ]
]

fill-Keeps : (i : ℕ) (c : Cache) {r : ℕ × Cache} → fill (i, c) ≡ ok r → Keeps c r.1
unfolding fill
fill-Keeps i c h = elim (Bool-cases ((at c i).valid == 0)) [
  | inr old ↦ Keeps-ok (rw (old, fill) at h) (Keeps-self c)
  | inl new ↦
      Keeps-ok (rw (new, fill) at h)
        (Keeps-update _ _ (omega arith) (Keeps-update _ _ (omega arith) (Keeps-self c)))
]

bread-Keeps :
    (c : Cache) (dev block_no : ℕ) {r : ℕ × Cache} → bread c dev block_no ≡ ok r → Keeps c r.1
unfolding bread
bread-Keeps c dev block_no h =
    let ((i, got), e, rest) = >>=-eq-ok (bget c dev block_no) fill h in
    Keeps-trans c got _ (bget-Keeps c dev block_no e) (fill-Keeps i got rest)

write_back-Keeps : (c : Cache) (i : ℕ) → Keeps c (write_back c i)
unfolding write_back disk_write
write_back-Keeps c i = elim (Bool-cases ((at c i).dirty == 1)) [
  | inl dirty ↦
      rw (dirty, write_back) (Keeps-update _ _ (omega arith) (record { kept = λ j. omega arith }))
  | inr clean ↦ rw (clean, write_back) (Keeps-self c)
]

unlink-Keeps : (c : Cache) (i : ℕ) {c' : Cache} → unlink c i ≡ ok c' → Keeps c c'
unfolding unlink
unlink-Keeps c i h = elim (Option-cases (at c i).last) [
  | inl e ↦ cc (rw (e, unlink) at h)
  | inr (temp, e) ↦ subst (Keeps c) (ok-injective (rw (e, unlink) at h)) (
      Keeps-update _ _ (omega arith)
        (Keeps-update _ _ (omega arith) (Keeps-update _ _ (omega arith) (Keeps-self c))))
]

brelse-Keeps : (c : Cache) (i : ℕ) {c' : Cache} → brelse c i ≡ ok c' → Keeps c c'
unfolding brelse
brelse-Keeps c i h = elim (Bool-cases ((at (write_back c i) i).refcnt == 0)) [
  | inl none_left ↦
      Keeps-trans c (write_back c i) _ (write_back-Keeps c i)
        (unlink-Keeps (write_back c i) i (rw (none_left, brelse) at h))
  | inr held ↦ subst (Keeps c) (ok-injective (rw (held, brelse) at h)) (write_back-Keeps c i)
]

step-Keeps : (o : Op) (c : Cache) {c' : Cache} → step o c ≡ ok c' → Keeps c c'
unfolding step bwrite
step-Keeps (read dev block_no) c h =
    let (r, e, rest) = >>=-eq-ok (bread c dev block_no) _ h in
    subst (Keeps c) (ok-injective rest) (bread-Keeps c dev block_no e)
step-Keeps (write i) c h =
    subst (Keeps c) (ok-injective h) (Keeps-update _ _ (omega arith) (Keeps-self c))
step-Keeps (release i) c h = brelse-Keeps c i h

run_kept : (ops : List Op) (c : Cache) {c' : Cache} → run ops c ≡ ok c' → Keeps c c'
unfolding run
run_kept [] c h = subst (Keeps c) (ok-injective h) (Keeps-self c)
run_kept (o ∷ ops) c h =
    let (d, e, rest) = >>=-eq-ok (step o c) (run ops) h in
    Keeps-trans c d _ (step-Keeps o c e) (run_kept ops d rest)

-- If all thirty buffers are referred to, then after any sequence of calls of the cache that ends
-- with its 30 buffers none of them has lost a reference, and reading a block that is in none of the
-- first 29 of them panics.
pub run-Keeps :
    (ops : List Op) (c : Cache) {c' : Cache} (dev block_no : ℕ)
    → run ops c ≡ ok c'
    → length c'.buf ≡ 30
    → AllUsed c.buf 0 30
    → NoneBelow c'.buf 29 dev block_no
    → Keeps c c' × (bread c' dev block_no ≡ panic)
unfolding bread
run-Keeps ops c {c'} dev block_no h len used absent =
    let keeps = run_kept ops c h in
    (
      keeps,
      elim (bget_cases c' dev block_no len) [
        | inl (i, hit) ↦ absurd (absent i hit.range hit.match)
        | inr (inl (i, miss)) ↦
            ground (arith, keeps.kept i, used i (omega arith) miss.range, miss.unused)
        | inr (inr full) ↦ rw (full.result, bread) refl
      ],
    )
