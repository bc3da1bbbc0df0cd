-- ===== src/Fat32/Data.antt =====
-- Reading and writing the bytes of a file or directory along its chain of clusters.
use os.Util.{
  ℕ, zero, suc, ◌+◌, ◌-◌, ◌*◌, ◌^◌, min, not, ◌&&◌, ◌||◌, [], ◌++◌, Run, ok, out_of_fuel, ◌>>=◌,
  ◌==◌, ltb, if◌then◌else◌, take, drop,
}
use os.Text.{Bytes}
use os.Fat32.Layout.{
  w32, iseof, logistic_c_num, logistic_s_num, logistic_s_offset, first_sector_of_cluster, data_sec,
  fat_cluster_max, ceil_divide,
}
use os.Fat32.Volume.{Fs, t_file, rootdev, inode_at, set_inode, read_sector, edit_sector}
use os.Fat32.Table.{fat32_fat_travel, fat32_next_cluster, fat32_cluster_alloc, fat32_fat_set}
use os.Fat32.Inode.{fat32_inode_update}

-- The variables of the loops: the bytes copied to `dst`, `tot`, and the place in the next sector.
pub record Reading : Type 0 where
  pub copied : Bytes
  pub tot : ℕ
  pub offset : ℕ

-- The inner loop of `fat32_inode_read`, with `count` sectors of the cluster left from s on.
pub read_sectors : Fs → (dev first s count n : ℕ) → Reading → Run (Reading × Fs)
read_sectors fs dev first s zero n r = ok (r, fs)
read_sectors fs dev first s (suc count) n r =
    if ltb r.tot n
    then (read_sector fs dev (w32 (first + s)) >>= λ got.
        let m = min (512 - r.offset) (n - r.tot) in
        read_sectors got.1 dev first (s + 1) count n (record {
          copied = r.copied ++ take m (drop r.offset got.0);
          tot = r.tot + m;
          offset = 0;
        }))
    else ok (r, fs)

-- The outer loop, over the clusters from `iter_n` on.
pub read_clusters : (fuel : ℕ) → Fs → (dev iter_n s n : ℕ) → Reading → Run (Reading × Fs)
unfolding read_sectors
read_clusters zero fs dev iter_n s n r = out_of_fuel
read_clusters (suc fuel) fs dev iter_n s n r =
    if not (iseof iter_n) && ltb r.tot n
    then (read_sectors fs dev (first_sector_of_cluster fs.sb iter_n) s (fs.sb.sectors_per_block - s)
          n r
        >>= λ got.
            if got.0.tot == n
            then ok got
            else (fat32_next_cluster got.1 iter_n >>= λ next.
                read_clusters fuel next.1 dev next.0 0 n got.0))
    else ok (r, fs)

-- The bytes copied are the result; the call returns their number. The file system has one
-- superblock, which `i_sb` of every inode names.
pub fat32_inode_read : Fs → (ip off n : ℕ) → Run (Bytes × Fs)
unfolding read_clusters
fat32_inode_read fs ip off n =
    let size = (inode_at fs ip).i_size in
    if ltb size off || ltb (w32 (off + n)) off
    then ok ([], fs)
    else (let len = if ltb size (w32 (off + n)) then size - off else n in
        fat32_fat_travel fs ip (logistic_c_num fs.sb off + 1) >>= λ target.
        read_clusters (fat_cluster_max fs.sb + 1) target.1 (inode_at fs ip).i_dev target.0
          (logistic_s_num fs.sb off) len
          (record { copied = []; tot = 0; offset = logistic_s_offset fs.sb off })
        >>= λ r. ok (r.0.copied, r.1))

-- `tot` and the place in the next sector.
pub record Writing : Type 0 where
  pub tot : ℕ
  pub offset : ℕ

-- The inner loop of `fat32_inode_write`. The copy into the buffer is commented out in the source, so
-- the data stays as it is, and only the buffer is marked.
pub write_sectors : Fs → (dev first s count n : ℕ) → Writing → Run (Writing × Fs)
write_sectors fs dev first s zero n w = ok (w, fs)
write_sectors fs dev first s (suc count) n w =
    if ltb w.tot n
    then (edit_sector fs dev (w32 (first + s)) (λ sector. sector) >>= λ done.
        write_sectors done dev first (s + 1) count n
          (record { tot = w.tot + min (512 - w.offset) (n - w.tot); offset = 0 }))
    else ok (w, fs)

-- A cluster is allocated, linked after `last`, and counted.
pub add_cluster : Fs → (ip last : ℕ) → Run (ℕ × Fs)
add_cluster fs ip last = do
  new ← fat32_cluster_alloc fs rootdev
  linked ← fat32_fat_set new.1 last new.0
  let inode = inode_at linked ip
  ok (
    new.0,
    set_inode linked ip (record inode { cluster_cnt = inode.cluster_cnt + 1; cluster_end = new.0 }),
  )

-- The outer loop; the file grows at the end of its chain.
pub write_clusters : (fuel : ℕ) → Fs → (ip iter_n s n : ℕ) → Writing → Run (Writing × Fs)
unfolding write_sectors add_cluster
write_clusters zero fs ip iter_n s n w = out_of_fuel
write_clusters (suc fuel) fs ip iter_n s n w =
    if not (iseof iter_n) && ltb w.tot n
    then (write_sectors fs (inode_at fs ip).i_dev (first_sector_of_cluster fs.sb iter_n) s
          (fs.sb.sectors_per_block - s) n w
        >>= λ got.
            if got.0.tot == n
            then ok got
            else (fat32_next_cluster got.1 iter_n >>= λ next.
                (if iseof next.0 then add_cluster next.1 ip iter_n else ok next) >>= λ to.
                write_clusters fuel to.1 ip to.0 0 n got.0))
    else ok (w, fs)

-- The size after a write that ends past it.
pub grow : Fs → (ip off tot : ℕ) → Fs
grow fs ip off tot =
    let inode = inode_at fs ip in
    set_inode fs ip (record inode {
      i_size =
          if inode.i_type == t_file
          then w32 (off + tot)
          else w32 (ceil_divide (w32 (off + tot)) fs.sb.cluster_size * fs.sb.cluster_size);
    })

-- `2 ^ 32 - 1` is the error -1 of the `uint32_t` result.
pub fat32_inode_write : Fs → (ip off n : ℕ) → Run (ℕ × Fs)
unfolding write_clusters add_cluster grow
fat32_inode_write fs ip off n =
    let inode = inode_at fs ip in
    let size = inode.i_size in
    if ltb size off
      || ltb (w32 (off + n)) off
      || ltb (w32 (data_sec fs.sb * fs.sb.sector_size)) (w32 (off + n))
    then ok (2 ^ 32 - 1, fs)
    else (do
      target ← fat32_fat_travel fs ip (logistic_c_num fs.sb off + 1)
      begin ←
          (if ltb inode.cluster_cnt (logistic_c_num fs.sb off + 1)
            then add_cluster target.1 ip target.0
            else ok target)
      written ←
          write_clusters (fat_cluster_max fs.sb + 1) begin.1 ip begin.0 (logistic_s_num fs.sb off) n
            (record { tot = 0; offset = logistic_s_offset fs.sb off })
      let sized =
          if ltb size (w32 (off + n)) then grow written.1 ip off written.0.tot else written.1
      updated ← fat32_inode_update sized ip
      ok (written.0.tot, updated))
