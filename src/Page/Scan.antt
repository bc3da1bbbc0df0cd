-- ===== src/Page/Scan.antt =====
-- The search of `page_alloc`: it decides whether a run of free pages exists, and finds the first.
use os.Util.{
  ℕ, zero, suc, ◌+◌, ◌-◌, ◌≤◌, ◌<◌, ◌≡◌, refl, ap, ◌∙◌, Bool, true, false, none, some, List, [],
  ◌∷◌, ok, ◌⊎◌, inl, inr, arith, ◌==◌, ◌%◌, length, bit_and,
}
use os.Util.Bits.{bit_and-ones}
use os.Page.{run_free, find_run, is_free, page_taken}
use os.Page.Blocks.{blocks, AllFree}

pub free_test : (f : ℕ) → (is_free f ≡ true) ⊎ (is_free f ≡ false)
free_test f = ground arith

-- The flags that a valid array holds are read right by the mask.
mask : (f : ℕ) → bit_and f page_taken ≡ f % 2
mask f = bit_and-ones 1 f 1 refl

AllFree-cons :
    (f : ℕ) (pages : List ℕ) (c : ℕ) → f ≡ 0 → AllFree pages 0 c → AllFree (f ∷ pages) 0 (suc c)
AllFree-cons f pages c e h zero a b = e
AllFree-cons f pages c e h (suc k) a b = h k (omega arith) (omega arith)

AllFree-tail :
    (f : ℕ) (pages : List ℕ) (i c : ℕ) → AllFree (f ∷ pages) (suc i) c → AllFree pages i c
AllFree-tail f pages i c h k a b = h (suc k) (omega arith) (omega arith)

AllFree-rest : (f : ℕ) (pages : List ℕ) (c : ℕ) → AllFree (f ∷ pages) 0 (suc c) → AllFree pages 0 c
AllFree-rest f pages c h k a b = h (suc k) (omega arith) (omega arith)

run_free_lem :
    (inside : Bool) (pages : List ℕ) (c : ℕ)
    → blocks inside pages ≡ true
    → c ≤ length pages
    → ((run_free pages c ≡ ok true) × AllFree pages 0 c)
      ⊎ ((run_free pages c ≡ ok false) × ¬ AllFree pages 0 c)
unfolding blocks run_free
run_free_lem inside pages zero h le = inl (refl, λ k a b. absurd (omega arith))
run_free_lem inside [] (suc c) h le = absurd (omega arith)
run_free_lem inside (f ∷ pages) (suc c) h le = elim (free_test f) [
  | inr taken ↦ inr (rw taken refl, λ all. ground (arith, mask f, all 0))
  | inl free ↦ elim (run_free_lem (f == 1) pages c (ground arith) (omega arith)) [
    | inl (e, all) ↦ inl (rw (free, e) refl, AllFree-cons f pages c (ground (arith, mask f)) all)
    | inr (e, some_taken) ↦ inr (rw (free, e) refl, λ all. some_taken (AllFree-rest f pages c all))
  ]
]

-- What the search returns over `rounds` starting points, its first one being page i.
pub record IsFirst (pages : List ℕ) (npages d : ℕ) : Type 0 where
  pub free : AllFree pages d npages
  pub least : (e : ℕ) → e < d → ¬ AllFree pages e npages

abbrev pub Search : ℕ → List ℕ → ℕ → ℕ → Type 0
Search rounds pages i npages =
    ((d : ℕ) × (d < rounds)
      × (find_run rounds pages i npages ≡ ok (some (i + d)))
      × IsFirst pages npages d)
    ⊎ ((find_run rounds pages i npages ≡ ok none)
        × ((e : ℕ) → e < rounds → ¬ AllFree pages e npages))

AllFree-shift :
    (f : ℕ) (pages : List ℕ) (i c : ℕ) → AllFree pages i c → AllFree (f ∷ pages) (suc i) c
AllFree-shift f pages i c h zero a b = absurd (omega arith)
AllFree-shift f pages i c h (suc k) a b = h k (omega arith) (omega arith)

not-AllFree-cons :
    (f : ℕ) (pages : List ℕ) (n r : ℕ)
    → ¬ AllFree (f ∷ pages) 0 n
    → ((e : ℕ) → e < r → ¬ AllFree pages e n)
    → (e : ℕ) → e < suc r
    → ¬ AllFree (f ∷ pages) e n
not-AllFree-cons f pages n r here later zero lt all = here all
not-AllFree-cons f pages n r here later (suc e) lt all =
    later e (omega arith) (AllFree-tail f pages e n all)

-- The page at the front starts no run, so the search goes on behind it.
Search-cons :
    (rounds : ℕ) (f : ℕ) (pages : List ℕ) (i m : ℕ)
    → find_run (suc rounds) (f ∷ pages) i (suc m) ≡ find_run rounds pages (suc i) (suc m)
    → ¬ AllFree (f ∷ pages) 0 (suc m)
    → Search rounds pages (suc i) (suc m)
    → Search (suc rounds) (f ∷ pages) i (suc m)
Search-cons rounds f pages i m e here (inl (d, lt, found, first)) = inl (
  suc d,
  omega arith,
  e ∙ found ∙ ap (λ (t : ℕ). ok (some t)) (omega arith),
  record {
    free = AllFree-shift f pages d (suc m) first.free;
    least = not-AllFree-cons f pages (suc m) d here first.least;
  },
)
Search-cons rounds f pages i m e here (inr (nothing, nowhere)) =
    inr (e ∙ nothing, not-AllFree-cons f pages (suc m) rounds here nowhere)

pub find_run_lem :
    (inside : Bool) (rounds : ℕ) (pages : List ℕ) (i m : ℕ)
    → blocks inside pages ≡ true
    → rounds + m ≤ length pages
    → Search rounds pages i (suc m)
unfolding find_run blocks
find_run_lem inside zero pages i m h le = inr (refl, λ e lt. absurd (omega arith))
find_run_lem inside (suc rounds) [] i m h le = absurd (omega arith)
find_run_lem inside (suc rounds) (f ∷ pages) i m h le =
    let later : Search rounds pages (suc i) (suc m) =
      find_run_lem (f == 1) rounds pages (suc i) m (ground arith) (omega arith) in
    elim (free_test f) [
      | inr taken ↦
          Search-cons rounds f pages i m (rw taken refl) (λ all. ground (arith, mask f, all 0))
            later
      | inl free ↦ elim (run_free_lem (f == 1) pages m (ground arith) (omega arith)) [
        | inl (e, all) ↦ inl (
          0,
          omega arith,
          rw (free, sub-one_of_suc m, e) (ap (λ (t : ℕ). ok (some t)) (omega arith)),
          record {
            free = AllFree-cons f pages m (ground (arith, mask f)) all;
            least = λ k lt. absurd (omega arith);
          },
        )
        | inr (e, some_taken) ↦
            Search-cons rounds f pages i m (rw (free, sub-one_of_suc m, e) refl)
              (λ all. some_taken (AllFree-rest f pages m all)) later
      ]
    ]
  where
    sub-one_of_suc : (k : ℕ) → suc k - 1 ≡ k
    sub-one_of_suc k = omega arith
