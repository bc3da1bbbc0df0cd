-- ===== src/Fat32/Layout/Entry.antt =====
-- Reading back what was written to a sector: fields of four bytes, and entries of the table.
use os.Util.{
  ℕ, ◌+◌, ◌*◌, ◌/◌, ◌%◌, ◌^◌, ◌≤◌, ◌<◌, ◌≡◌, refl, ap, ap₂, ◌∙◌, ◌⊎◌, arith, bit_and, bit_or,
  length, get_or, set, length-set, get_or-set, ◌==◌, if◌then◌else◌,
}
use os.Util.Bits.{bit_and-ones, bit_and-high, bit_or-disjoint}
use os.Text.{Bytes}
use os.Fat32.Layout.{
  Superblock, word, dword, set_word, set_dword, this_fat_ent_offset, fat_valid_mask,
  fat32_clus_entry_val, set_fat32_clus_entry_val,
}

pub length-set_dword : (bytes : Bytes) (i v : ℕ) → length (set_dword bytes i v) ≡ length bytes
unfolding set_dword set_word
length-set_dword bytes i v = omega (
  arith,
  length-set bytes i (v % 256),
  length-set (set bytes i (v % 256)) (i + 1) (v / 256 % 256),
  length-set (set (set bytes i (v % 256)) (i + 1) (v / 256 % 256)) (i + 2) (v / 2 ^ 16 % 256),
  length-set (set (set (set bytes i (v % 256)) (i + 1) (v / 256 % 256)) (i + 2) (v / 2 ^ 16 % 256))
      (i + 2 + 1) (v / 2 ^ 16 / 256 % 256),
)

-- The byte at j after a write of four bytes at i.
pub get_or-set_dword :
    (bytes : Bytes) (i v j : ℕ)
    → i + 4 ≤ length bytes
    → get_or (set_dword bytes i v) j 0 ≡ (
        if j == i + 3
        then v / 2 ^ 16 / 256 % 256
        else if j == i + 2
        then v / 2 ^ 16 % 256
        else if j == i + 1
        then v / 256 % 256
        else if j == i
        then v % 256
        else get_or bytes j 0)
unfolding set_dword set_word
get_or-set_dword bytes i v j fits =
    let b1 = set bytes i (v % 256) in
    let b2 = set b1 (i + 1) (v / 256 % 256) in
    let b3 = set b2 (i + 2) (v / 2 ^ 16 % 256) in
    ground (
      arith,
      length-set bytes i (v % 256),
      length-set b1 (i + 1) (v / 256 % 256),
      length-set b2 (i + 2) (v / 2 ^ 16 % 256),
      get_or-set bytes i j (v % 256) 0,
      get_or-set b1 (i + 1) j (v / 256 % 256) 0,
      get_or-set b2 (i + 2) j (v / 2 ^ 16 % 256) 0,
      get_or-set b3 (i + 2 + 1) j (v / 2 ^ 16 / 256 % 256) 0,
    )

pub dword-set_dword :
    (bytes : Bytes) (i v : ℕ)
    → i + 4 ≤ length bytes
    → v < 2 ^ 32
    → dword (set_dword bytes i v) i ≡ v
unfolding dword word
dword-set_dword bytes i v fits lt = ground (
  arith,
  get_or-set_dword bytes i v i fits,
  get_or-set_dword bytes i v (i + 1) fits,
  get_or-set_dword bytes i v (i + 2) fits,
  get_or-set_dword bytes i v (i + 2 + 1) fits,
)

pub dword-set_dword_ne :
    (bytes : Bytes) (i j v : ℕ)
    → i + 4 ≤ length bytes
    → (j + 4 ≤ i) ⊎ (i + 4 ≤ j)
    → dword (set_dword bytes i v) j ≡ dword bytes j
unfolding dword word
dword-set_dword_ne bytes i j v fits apart = ground (
  arith,
  get_or-set_dword bytes i v j fits,
  get_or-set_dword bytes i v (j + 1) fits,
  get_or-set_dword bytes i v (j + 2) fits,
  get_or-set_dword bytes i v (j + 2 + 1) fits,
)

-- The word that the two writes of an entry leave: the upper four bits of the old, the rest of v.
new_entry :
    (old v : ℕ)
    → bit_or (bit_and old 0xf0000000) (bit_and v fat_valid_mask)
      ≡ old / 2 ^ 28 % 16 * 2 ^ 28 + v % 2 ^ 28
new_entry old v = bit_ands ∙ bit_or-disjoint 28 (old / 2 ^ 28 % 16) (v % 2 ^ 28) (omega arith)
  where
    bit_ands :
        bit_or (bit_and old 0xf0000000) (bit_and v fat_valid_mask)
        ≡ bit_or (old / 2 ^ 28 % 16 * 2 ^ 28) (v % 2 ^ 28)
    bit_ands =
        ap₂ bit_or
          (bit_and-high 28 old 15
            ∙ ap (λ (t : ℕ). t * 2 ^ 28) (bit_and-ones 4 (old / 2 ^ 28) 15 refl))
          (bit_and-ones 28 v fat_valid_mask refl)

pub dword-set_entry :
    (sb : Superblock) (bytes : Bytes) (n v : ℕ)
    → this_fat_ent_offset sb n + 4 ≤ length bytes
    → dword (set_fat32_clus_entry_val sb bytes n v) (this_fat_ent_offset sb n)
      ≡ dword bytes (this_fat_ent_offset sb n) / 2 ^ 28 % 16 * 2 ^ 28 + v % 2 ^ 28
unfolding set_fat32_clus_entry_val
dword-set_entry sb bytes n v fits =
    let i = this_fat_ent_offset sb n in
    let kept = bit_and (dword bytes i) 0xf0000000 in
    let cleared = set_dword bytes i kept in
    let whole = new_entry (dword bytes i) v in
    let upper = new_entry (dword bytes i) 0 in
    let small = kept_lt (dword bytes i) in
    let same = dword-set_dword bytes i kept fits small in
    dword-set_dword cleared i (bit_or (dword cleared i) (bit_and v fat_valid_mask))
      (omega (arith, fits, length-set_dword bytes i kept))
      (omega (arith, whole, ap (λ (t : ℕ). bit_or t (bit_and v fat_valid_mask)) same))
    ∙ ap (λ (t : ℕ). bit_or t (bit_and v fat_valid_mask)) same
    ∙ whole
  where
    kept_lt : (a : ℕ) → bit_and a 0xf0000000 < 2 ^ 32
    kept_lt a = omega (arith, bit_and-high 28 a 15, bit_and-ones 4 (a / 2 ^ 28) 15 refl)

dword-set_entry_ne :
    (sb : Superblock) (bytes : Bytes) (n v j : ℕ)
    → this_fat_ent_offset sb n + 4 ≤ length bytes
    → (j + 4 ≤ this_fat_ent_offset sb n) ⊎ (this_fat_ent_offset sb n + 4 ≤ j)
    → dword (set_fat32_clus_entry_val sb bytes n v) j ≡ dword bytes j
unfolding set_fat32_clus_entry_val
dword-set_entry_ne sb bytes n v j fits apart =
    let i = this_fat_ent_offset sb n in
    let kept = bit_and (dword bytes i) 0xf0000000 in
    dword-set_dword_ne (set_dword bytes i kept) i j _
      (omega (arith, fits, length-set_dword bytes i kept)) apart
    ∙ dword-set_dword_ne bytes i j kept fits apart

length-set_entry :
    (sb : Superblock) (bytes : Bytes) (n v : ℕ)
    → length (set_fat32_clus_entry_val sb bytes n v) ≡ length bytes
unfolding set_fat32_clus_entry_val
length-set_entry sb bytes n v =
    length-set_dword _ (this_fat_ent_offset sb n) _
    ∙ length-set_dword bytes (this_fat_ent_offset sb n) _

-- After entry n of the table is set in a sector that holds all of it, its value is the lower 28
-- bits of v, its upper four bits are the old ones, an entry m whose place in the sector is apart
-- from it has its old value, and the sector is as long as before.
pub entry_val-set_entry_val :
    (sb : Superblock) (bytes : Bytes) (n v m : ℕ)
    → this_fat_ent_offset sb n + 4 ≤ length bytes
    → (this_fat_ent_offset sb m + 4 ≤ this_fat_ent_offset sb n)
      ⊎ (this_fat_ent_offset sb n + 4 ≤ this_fat_ent_offset sb m)
    → let changed = set_fat32_clus_entry_val sb bytes n v in
      let i = this_fat_ent_offset sb n in
      (fat32_clus_entry_val sb changed n ≡ v % 2 ^ 28)
      × (dword changed i / 2 ^ 28 ≡ dword bytes i / 2 ^ 28 % 16)
      × (fat32_clus_entry_val sb changed m ≡ fat32_clus_entry_val sb bytes m)
      × (length changed ≡ length bytes)
unfolding fat32_clus_entry_val
entry_val-set_entry_val sb bytes n v m fits apart =
    let changed = set_fat32_clus_entry_val sb bytes n v in
    let e = dword-set_entry sb bytes n v fits in
    (
      omega (
        arith,
        e,
        bit_and-ones 28 (dword changed (this_fat_ent_offset sb n)) fat_valid_mask refl,
      ),
      omega (arith, e),
      ap (λ (t : ℕ). bit_and t fat_valid_mask)
          (dword-set_entry_ne sb bytes n v (this_fat_ent_offset sb m) fits apart),
      length-set_entry sb bytes n v,
    )
