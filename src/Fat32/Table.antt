-- ===== src/Fat32/Table.antt =====
-- The allocation table: chains of clusters, and the allocation of a cluster. `ASSERT` panics.
pub mod Scan
use os.Util.{
  ℕ, zero, suc, ◌+◌, ◌-◌, ◌*◌, ◌/◌, ◌%◌, ◌^◌, Bool, true, false, not, ◌&&◌, ◌||◌, List, [], ◌∷◌,
  Run, ok, panic, out_of_fuel, ensure, ◌>>=◌, ◌>>◌, ◌==◌, ltb, leb, if◌then◌else◌, get_or,
  replicate,
}
use os.Text.{Bytes}
use os.Fat32.Layout.{
  Superblock, w32, iseof, eoc, dword, set_dword, this_fat_ent_sec_num, fat32_clus_entry_val,
  set_fat32_clus_entry_val, fat_cluster_max, first_sector_of_cluster, name0_free_all,
}
use os.Fat32.Volume.{Inode, Fs, inode_at, set_inode, read_sector, edit_sector}

unfoldable pub fat32_next_cluster : Fs → ℕ → Run (ℕ × Fs)
fat32_next_cluster fs cluster_cur =
    ensure (leb 2 cluster_cur && ltb cluster_cur (fat_cluster_max fs.sb))
    >> (read_sector fs fs.sb.s_dev (this_fat_ent_sec_num fs.sb cluster_cur) >>= λ got.
        ok (fat32_clus_entry_val fs.sb got.0 cluster_cur, got.1))

unfoldable pub fat32_fat_set : Fs → ℕ → ℕ → Run Fs
fat32_fat_set fs cluster value =
    edit_sector fs fs.sb.s_dev (this_fat_ent_sec_num fs.sb cluster)
      (λ sector. set_fat32_clus_entry_val fs.sb sector cluster value)

-- The variables of the loop of `fat32_fat_travel`.
pub record Travel : Type 0 where
  pub iter_n : ℕ
  pub cnt : ℕ
  pub prev : ℕ

pub travel_loop : (fuel : ℕ) → Fs → (num : ℕ) → Travel → Run (Travel × Fs)
travel_loop zero fs num t = out_of_fuel
travel_loop (suc fuel) fs num t =
    if iseof t.iter_n
    then ok (t, fs)
    else if ltb (t.cnt + 1) num || (num == 0)
    then (fat32_next_cluster fs t.iter_n >>= λ got.
        travel_loop fuel got.1 num (record { iter_n = got.0; cnt = t.cnt + 1; prev = t.iter_n }))
    else ok (record t { cnt = t.cnt + 1 }, fs)

-- A chain that does not come back to a cluster has fewer clusters than `fat_cluster_max`.
unfoldable pub fat32_fat_travel : Fs → (ip num : ℕ) → Run (ℕ × Fs)
unfolding travel_loop
fat32_fat_travel fs ip num =
    travel_loop (fat_cluster_max fs.sb + 1) fs num
      (record { iter_n = (inode_at fs ip).cluster_start; cnt = 0; prev = 0 })
    >>= λ got.
        let t = got.0 in
        if num == 0
        then ok (t.cnt, set_inode got.1 ip (record (inode_at got.1 ip) { cluster_end = t.prev }))
        else if ltb t.cnt num
        then ok (t.prev, got.1)
        else ok (t.iter_n, got.1)

-- How the inner loop of `fat32_fat_alloc` leaves a sector: with a free entry, past the last cluster,
-- or at the end of the sector, with the number c that it has counted to.
pub data FatScan : Type 0 where
  found : ℕ → FatScan
  past_end : FatScan
  next_sector : ℕ → FatScan

-- `count` entries are left, from entry s on.
unfoldable pub scan_sector : (sector : Bytes) (max : ℕ) (count s c : ℕ) → FatScan
scan_sector sector max zero s c = next_sector c
scan_sector sector max (suc count) s c =
    if dword sector (s * 4) == 0
    then found c
    else if ltb max (c + 1)
    then past_end
    else scan_sector sector max count (s + 1) (c + 1)

-- The outer loop; every round counts c up by the entries of a sector, or ends.
unfoldable pub fat_alloc_loop : (fuel : ℕ) → Fs → (c sec : ℕ) → Run (ℕ × Fs)
fat_alloc_loop zero fs c sec = out_of_fuel
fat_alloc_loop (suc fuel) fs c sec =
    if ltb c (fat_cluster_max fs.sb)
    then (read_sector fs fs.sb.s_dev sec >>= λ got.
        elim (scan_sector got.0 (fat_cluster_max fs.sb) (fs.sb.sector_size / 4) 0 c) [
          | found n ↦ fat32_fat_set got.1 n eoc >>= λ done. ok (n, done)
          | past_end ↦ ok (0, got.1)
          | next_sector n ↦ fat_alloc_loop fuel got.1 n (sec + 1)
        ])
    else ok (0, fs)

-- c starts at 3, the entries of the first sector at 0.
unfoldable pub fat32_fat_alloc : Fs → Run (ℕ × Fs)
fat32_fat_alloc fs = fat_alloc_loop (fat_cluster_max fs.sb) fs 3 fs.sb.fatbase

-- The loop of `fat32_zero_cluster`, with `count` sectors left from sector s on.
unfoldable pub zero_sectors : Fs → (first s count : ℕ) → Run Fs
zero_sectors fs first s zero = ok fs
zero_sectors fs first s (suc count) =
    edit_sector fs fs.sb.s_dev (w32 (first + s)) (λ _. replicate 512 0) >>= λ done.
    zero_sectors done first (s + 1) count

unfoldable pub fat32_zero_cluster : Fs → ℕ → Run Fs
fat32_zero_cluster fs c_num =
    zero_sectors fs (first_sector_of_cluster fs.sb c_num) 0 fs.sb.sectors_per_block

-- `Free_Count` and `Nxt_Free` of a `fsinfo_t`.
unfoldable pub set_fsinfo : Superblock → Bytes → Bytes
set_fsinfo sb sector = set_dword (set_dword sector 488 sb.free_count) 492 sb.nxt_free

-- The two ways to mark a cluster: the next free one, or the first free entry of the table.
unfoldable pub take_cluster : Fs → (dev free_num : ℕ) → Run Fs
take_cluster fs dev free_num =
    read_sector fs dev (first_sector_of_cluster fs.sb fs.sb.nxt_free) >>= λ got.
    if name0_free_all (get_or got.0 0 0) && ltb free_num (fat_cluster_max fs.sb - 1)
    then (fat32_fat_set got.1 free_num eoc >>= λ done.
        ok (record done { sb = record done.sb { nxt_free = w32 (done.sb.nxt_free + 1) } }))
    else (fat32_fat_alloc got.1 >>= λ new.
        if new.0 == 0
        then panic
        else ok (record new.1 { sb = record new.1.sb { nxt_free = w32 (new.0 + 1) } }))

-- The cluster that is returned is the one that `nxt_free` named before, in both ways.
unfoldable pub fat32_cluster_alloc : Fs → (dev : ℕ) → Run (ℕ × Fs)
fat32_cluster_alloc fs dev =
    if fs.sb.free_count == 0
    then panic
    else (let free_num = fs.sb.nxt_free in
        let counted = record fs { sb = record fs.sb { free_count = fs.sb.free_count - 1 } } in
        do
          taken ← take_cluster counted dev free_num
          info ← edit_sector taken dev 1 (λ sector. set_fsinfo taken.sb sector)
          backup ← edit_sector info dev 7 (λ sector. set_fsinfo info.sb sector)
          zeroed ← fat32_zero_cluster backup free_num
          ok (free_num, zeroed))
