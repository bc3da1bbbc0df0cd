-- ===== src/Fat32/Remove.antt =====
-- Deleting an inode: its chain, its directory entries, and its slot in the table.
use os.Util.{
  ℕ, zero, suc, ◌+◌, ◌-◌, ◌*◌, not, ◌&&◌, Run, ok, out_of_fuel, ensure, ◌>>=◌, ◌==◌, ltb,
  if◌then◌else◌,
}
use os.Text.{strlen}
use os.Fat32.Layout.{iseof, eoc, fat_cluster_max, ceil_divide}
use os.Fat32.Volume.{Fs, imode_none, inode_at, set_inode}
use os.Fat32.Table.{fat32_next_cluster, fat32_fat_set}
use os.Fat32.Inode.{fat32_inode_update, fat32_inode_unlock}
use os.Fat32.Data.{fat32_inode_write}

-- The bytes to write are prepared, but `fat32_inode_write` does not copy them. The name is shorter
-- than its 255 bytes, so the entries fit `fcb_char`.
pub fat32_inode_delete : Fs → (dp ip : ℕ) → Run Fs
fat32_inode_delete fs dp ip = do
  str_len ← strlen (inode_at fs ip).fname
  let off = (inode_at fs ip).parent_off
  let long_dir_len = ceil_divide str_len 13
  _ ← ensure (ltb 0 off)
  _ ← ensure (ltb long_dir_len off)
  wrote ← fat32_inode_write fs dp ((off - long_dir_len) * 32) ((long_dir_len + 1) * 32)
  _ ← ensure (wrote.0 == ((long_dir_len + 1) * 32))
  ok wrote.1

-- Every entry of the chain becomes an end of chain, not a free entry.
pub cut_chain : (fuel : ℕ) → Fs → ℕ → Run Fs
cut_chain zero fs iter_n = out_of_fuel
cut_chain (suc fuel) fs iter_n =
    if iseof iter_n
    then ok fs
    else (fat32_next_cluster fs iter_n >>= λ next.
        fat32_fat_set next.1 iter_n eoc >>= λ done. cut_chain fuel done next.0)

pub fat32_inode_trunc : Fs → ℕ → Run Fs
unfolding cut_chain fat32_inode_delete
fat32_inode_trunc fs ip = do
  cut ← cut_chain (fat_cluster_max fs.sb + 1) fs (inode_at fs ip).cluster_start
  gone ← fat32_inode_delete cut (inode_at cut ip).parent ip
  let cleared = record (inode_at gone ip) {
    cluster_start = 0;
    cluster_end = 0;
    parent_off = 0;
    cluster_cnt = 0;
    file_size = 0;
    i_rdev = 0;
    i_mode = imode_none;
    i_size = 0;
  }
  fat32_inode_update (set_inode gone ip cleared) ip

-- The last reference of an inode without links removes it from the disk.
pub drop_inode : Fs → ℕ → Run Fs
unfolding fat32_inode_trunc
drop_inode fs ip = do
  cut ← fat32_inode_trunc fs ip
  updated ← fat32_inode_update (set_inode cut ip (record (inode_at cut ip) { attr = 0 })) ip
  ok (set_inode updated ip (record (inode_at updated ip) { valid = 0 }))

-- `ref` is a signed count that goes below zero without a reference; the model keeps it from that.
pub fat32_inode_put : Fs → ℕ → Run Fs
unfolding drop_inode
fat32_inode_put fs ip =
    let inode = inode_at fs ip in
    (if (inode.ref == 1) && not (inode.valid == 0) && (inode.i_nlink == 0)
      then drop_inode fs ip
      else ok fs)
    >>= λ done.
        ok (set_inode done ip (record (inode_at done ip) { ref = (inode_at done ip).ref - 1 }))

pub fat32_inode_unlock_put : Fs → ℕ → Run Fs
unfolding fat32_inode_put
fat32_inode_unlock_put fs ip = fat32_inode_unlock fs ip >>= λ done. fat32_inode_put done ip
