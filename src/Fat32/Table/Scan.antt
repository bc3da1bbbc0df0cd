-- ===== src/Fat32/Table/Scan.antt =====
-- What `fat32_fat_alloc` finds in a sector of the table.
use os.Util.{
  ℕ, zero, suc, ◌+◌, ◌*◌, ◌≤◌, ◌<◌, ◌≡◌, refl, sym, ◌≢◌, ◌⊎◌, inl, inr, arith, Bool-cases, ltb,
  ◌==◌, ==_iff,
}
use mathlib.Core.Path.{subst}
use os.Text.{Bytes}
use os.Fat32.Layout.{dword}
use os.Fat32.Table.{found, past_end, next_sector, scan_sector}

-- No entry from a to b (b excluded) of the sector is free.
abbrev pub NoneFree : Bytes → ℕ → ℕ → Type 0
NoneFree bytes a b = (i : ℕ) → a ≤ i → i < b → dword bytes (i * 4) ≢ 0

NoneFree-step :
    (bytes : Bytes) (s b : ℕ)
    → dword bytes (s * 4) ≢ 0
    → NoneFree bytes (s + 1) b
    → NoneFree bytes s b
NoneFree-step bytes s b here later i a lt = elim (Bool-cases (i == s)) [
  | inl same ↦ subst (λ (t : ℕ). dword bytes (t * 4) ≢ 0) (sym ((==_iff i s).0 same)) here
  | inr other ↦ later i (ground arith) lt
]

-- The scan of `count` entries of a sector from entry s on, with the cluster number c for that entry,
-- ends in one of three ways. It finds the first free entry e, and gives it the number n with
-- n - c = e - s; or it stops past the last cluster, having seen no free entry; or it has seen none
-- in the whole sector and goes on with number c + count.
pub scan_sector_lem :
    (bytes : Bytes) (max count s c : ℕ)
    → ((e : ℕ) × (n : ℕ) × (scan_sector bytes max count s c ≡ found n)
        × (s ≤ e)
        × (e < s + count)
        × (n + s ≡ c + e)
        × (dword bytes (e * 4) ≡ 0)
        × NoneFree bytes s e)
      ⊎ ((e : ℕ) × (scan_sector bytes max count s c ≡ past_end)
          × (s < e)
          × (e ≤ s + count)
          × (max + s < c + e)
          × NoneFree bytes s e)
      ⊎ ((n : ℕ) × (scan_sector bytes max count s c ≡ next_sector n)
          × (n ≡ c + count)
          × NoneFree bytes s (s + count))
unfolding scan_sector
scan_sector_lem bytes max zero s c =
    inr (inr (c, refl, omega arith, λ i a lt. absurd (omega arith)))
scan_sector_lem bytes max (suc count) s c = elim (Bool-cases (dword bytes (s * 4) == 0)) [
  | inl free ↦ inl (
    s,
    c,
    rw free refl,
    omega arith,
    omega arith,
    omega arith,
    (==_iff _ 0).0 free,
    λ i a lt. absurd (omega arith),
  )
  | inr taken ↦
      let used : dword bytes (s * 4) ≢ 0 = λ z. ground arith in
      elim (Bool-cases (ltb max (c + 1))) [
        | inl past ↦ inr (
            inl (
              s + 1,
              rw (taken, past) refl,
              omega arith,
              omega arith,
              ground arith,
              NoneFree-step bytes s (s + 1) used (λ i a lt. absurd (omega arith)),
            ))
        | inr inside ↦ elim (scan_sector_lem bytes max count (s + 1) (c + 1)) [
          | inl (e, n, r, le, lt, eq, free, none) ↦ inl (
            e,
            n,
            rw (taken, inside) r,
            omega arith,
            omega arith,
            omega arith,
            free,
            NoneFree-step bytes s e used none,
          )
          | inr (inl (e, r, lt, le, gt, none)) ↦ inr (
              inl (
                e,
                rw (taken, inside) r,
                omega arith,
                omega arith,
                omega arith,
                NoneFree-step bytes s e used none,
              ))
          | inr (inr (n, r, eq, none)) ↦ inr (
              inr (
                n,
                rw (taken, inside) r,
                omega arith,
                NoneFree-step bytes s (s + suc count) used (λ i a lt. none i a (omega arith)),
              ))
        ]
      ]
]
