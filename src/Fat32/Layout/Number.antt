-- ===== src/Fat32/Layout/Number.antt =====
-- The number of an inode and the place of its entry.
use os.Util.{ℕ, ◌+◌, ◌-◌, ◌*◌, ◌/◌, ◌%◌, ◌^◌, ◌≤◌, ◌<◌, ◌≡◌, ap, arith}
use os.Fat32.Layout.{
  Superblock, sub_u32, inum_transfer, first_data_sector, sector_to_fatinum, fatinum_to_sector,
  fatinum_to_offset,
}

sector_to_fatinum_lem :
    (sb : Superblock) (s offset : ℕ)
    → sb.sector_size ≡ 512
    → first_data_sector sb ≤ s
    → s < 2 ^ 32
    → offset < 16
    → (s - first_data_sector sb) * 16 + 16 < 2 ^ 32
    → sector_to_fatinum sb s offset ≡ (s - first_data_sector sb) * 16 + offset + 1
unfolding sector_to_fatinum
sector_to_fatinum_lem sb s offset size le lt small fits =
    omega (arith, ap (λ (t : ℕ). sub_u32 s (first_data_sector sb) * (t / 32)) size)

-- On a volume with sectors of 512 bytes, the inode number of entry `offset` (less than 16) of a data
-- sector s is not the root's 0, and the sector and the offset are found again from it, as long as
-- the number fits 32 bits.
pub fatinum-sector_to_fatinum :
    (sb : Superblock) (s offset : ℕ)
    → sb.sector_size ≡ 512
    → first_data_sector sb ≤ s
    → s < 2 ^ 32
    → offset < 16
    → (s - first_data_sector sb) * 16 + 16 < 2 ^ 32
    → (0 < sector_to_fatinum sb s offset)
      × (fatinum_to_sector sb (sector_to_fatinum sb s offset) ≡ s)
      × (fatinum_to_offset sb (sector_to_fatinum sb s offset) ≡ offset)
unfolding fatinum_to_sector fatinum_to_offset
fatinum-sector_to_fatinum sb s offset size le lt small fits =
    let e = sector_to_fatinum_lem sb s offset size le lt small fits in
    let there = ap (λ (t : ℕ). inum_transfer (sector_to_fatinum sb s offset) / (t / 32)) size in
    let rest = ap (λ (t : ℕ). inum_transfer (sector_to_fatinum sb s offset) % (t / 32)) size in
    (omega (arith, e), ground (arith, e, there), ground (arith, e, rest))
