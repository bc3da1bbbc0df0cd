-- ===== src/Fat32/Dir/Room.antt =====
-- The place that `fat32_dir_fcb_insert_offset` gives to new entries.
use os.Util.{
  ℕ, suc, ◌+◌, ◌-◌, ◌%◌, ◌^◌, ◌≤◌, ◌<◌, ◌≡◌, refl, sym, ap, ◌∙◌, ◌⊎◌, inl, inr, arith, Bool-cases,
  ◌==◌, if◌then◌else◌, ==_iff, true, List, [], ◌∷◌, get_or, length,
}
use mathlib.Core.Path.{subst}
use os.Fat32.Layout.{name0_free}
use os.Fat32.Dir.{finish, go_on, Window, insert_entries}

-- The entries of a directory from a to b (b excluded) are free; b0 are their first bytes.
abbrev pub AllFree : List ℕ → (a b : ℕ) → Type 0
AllFree firsts a b = (i : ℕ) → a ≤ i → i < b → name0_free (get_or firsts i 1) ≡ true

-- The variables after `idx` entries: the last `free_cnt` of them are free, from `final` on.
pub record IsWindow (firsts : List ℕ) (req : ℕ) (w : Window) : Type 0 where
  pub short : (w.free_cnt < req) × (req < 256)
  pub inside : w.free_cnt ≤ w.idx
  pub start : 0 < w.free_cnt → w.final + w.free_cnt ≡ w.idx
  pub free : AllFree firsts (w.idx - w.free_cnt) w.idx

AllFree-suc :
    (firsts : List ℕ) (a n : ℕ)
    → AllFree firsts a n
    → name0_free (get_or firsts n 1) ≡ true
    → AllFree firsts a (n + 1)
AllFree-suc firsts a n before here i le lt = elim (Bool-cases (i == n)) [
  | inl same ↦
      subst (λ (t : ℕ). name0_free (get_or firsts t 1) ≡ true) (sym ((==_iff i n).0 same)) here
  | inr other ↦ before i le (ground arith)
]

-- Where the free entries that end with a free entry `idx` begin.
window_start :
    {firsts : List ℕ} {req : ℕ} (w : Window)
    → IsWindow firsts req w
    → (if w.free_cnt == 0 then w.idx else w.final) + w.free_cnt ≡ w.idx
window_start w v = elim (Bool-cases (w.free_cnt == 0)) [
  | inl z ↦ ground arith
  | inr some_free ↦ ground (arith, v.start (ground arith))
]

-- The loop over the entries of a sector, which are those from number `w.idx` on of the directory,
-- for a request of less than 256 entries, after a search that has counted the last free entries
-- rightly: either it gives a place f, and the `req` entries from f on, up to this sector's, are
-- free; or it ends with the sector and has still counted rightly.
pub insert_entries_lem :
    (base req : ℕ) (all rest : List ℕ) (w : Window)
    → IsWindow all req w
    → ((k : ℕ) → k < length rest → get_or rest k 1 ≡ get_or all (w.idx + k) 1)
    → ((f : ℕ) × (insert_entries base req rest w ≡ finish f)
        × (f + req ≤ w.idx + length rest)
        × AllFree all f (f + req))
      ⊎ ((w' : Window) × (insert_entries base req rest w ≡ go_on w')
          × (w'.idx ≡ w.idx + length rest)
          × IsWindow all req w')
unfolding insert_entries
insert_entries_lem base req all [] w v slice = inr (w, refl, omega arith, v)
insert_entries_lem base req all (b ∷ rest) w v slice =
    let here : b ≡ get_or all w.idx 1 =
      slice 0 (omega arith) ∙ ap (λ (t : ℕ). get_or all t 1) (omega arith) in
    let short = v.short in
    let inside = v.inside in
    let start = window_start w v in
    let later : (k : ℕ) → k < length rest → get_or rest k 1 ≡ get_or all (w.idx + 1 + k) 1 =
      λ k lt. slice (suc k) (omega arith) ∙ ap (λ (t : ℕ). get_or all t 1) (omega arith) in
    elim (Bool-cases (name0_free b)) [
      | inr used ↦
          let w1 : Window = record { free_cnt = 0; final = base; idx = w.idx + 1 } in
          let v1 : IsWindow all req w1 = record {
            short = (omega arith, short.1);
            inside = omega arith;
            start = λ pos. absurd (omega arith);
            free = λ i le lt. absurd (omega arith);
          } in
          elim (insert_entries_lem base req all rest w1 v1 later) [
            | inl (f, e, le, free) ↦ inl (f, rw used e, omega arith, free)
            | inr (w', e, at_end, v') ↦ inr (w', rw used e, omega arith, v')
          ]
      | inl free ↦
          let free_here = ap (λ (t : ℕ). name0_free t) (sym here) ∙ free in
          let final = if w.free_cnt == 0 then w.idx else w.final in
          let grown = AllFree-suc all (w.idx - w.free_cnt) w.idx v.free free_here in
          elim (Bool-cases (((w.free_cnt + 1) % 2 ^ 8) == req)) [
            | inl full ↦
                let total : w.free_cnt + 1 ≡ req = ground (arith, short) in
                inl (
                  final,
                  rw (free, full) refl,
                  omega (arith, total, start),
                  λ i le lt. grown i (omega (arith, start)) (omega (arith, total, start)),
                )
            | inr more ↦
                let small : w.free_cnt + 1 < req = ground (arith, short) in
                let w1 : Window = record {
                  free_cnt = (w.free_cnt + 1) % 2 ^ 8;
                  final = final;
                  idx = w.idx + 1;
                } in
                let v1 : IsWindow all req w1 = record {
                  short = (omega (arith, small, short.1), short.1);
                  inside = omega (arith, small, short.1);
                  start = λ pos. omega (arith, small, short.1, start);
                  free = λ i le lt. grown i (omega (arith, small, short.1, inside)) lt;
                } in
                elim (insert_entries_lem base req all rest w1 v1 later) [
                  | inl (f, e, le, free_run) ↦ inl (f, rw (free, more) e, omega arith, free_run)
                  | inr (w', e, at_end, v') ↦ inr (w', rw (free, more) e, omega arith, v')
                ]
          ]
    ]
