-- ===== src/Fat32/Volume.antt =====
-- The state of the file system: the cache of blocks, `fat32_sb`, and the inodes. The table of 50
-- inodes is followed by the root's, which `fat32_root_inode_init` allocates apart.
use os.Util.{ℕ, List, Run, ok, ◌>>=◌, get_or, set, replicate}
use os.Text.{Bytes}
use os.Buffer.{Cache, at, update, bread, bwrite, brelse}
use os.Fat32.Layout.{Superblock}

-- `struct inode` with its `struct fat32_inode_info`.
pub record Inode : Type 0 where
  pub i_dev : ℕ
  pub i_ino : ℕ
  pub i_mode : ℕ
  pub fs_type : ℕ
  pub ref : ℕ
  pub valid : ℕ
  pub i_nlink : ℕ
  pub i_rdev : ℕ
  pub i_size : ℕ
  pub i_type : ℕ
  pub parent : ℕ
  pub fname : Bytes
  pub attr : ℕ
  pub crt_time_tenth : ℕ
  pub crt_time : ℕ
  pub crt_date : ℕ
  pub lst_acc_date : ℕ
  pub cluster_start : ℕ
  pub wrt_time : ℕ
  pub wrt_date : ℕ
  pub file_size : ℕ
  pub cluster_end : ℕ
  pub cluster_cnt : ℕ
  pub parent_off : ℕ

pub record Fs : Type 0 where
  pub cache : Cache
  pub sb : Superblock
  pub inodes : List Inode

abbrev pub nentry : ℕ
nentry = 50

abbrev pub root : ℕ
root = 50

abbrev pub imode_none : ℕ
imode_none = 0

abbrev pub t_dir : ℕ
t_dir = 1

abbrev pub t_file : ℕ
t_file = 2

abbrev pub t_device : ℕ
t_device = 3

abbrev pub rootdev : ℕ
rootdev = 1

-- `FAT32` of `fs_t`
abbrev pub fat32 : ℕ
fat32 = 1

-- an inode of the cleared table
abbrev pub no_inode : Inode
no_inode = record {
  i_dev = 0;
  i_ino = 0;
  i_mode = 0;
  fs_type = 0;
  ref = 0;
  valid = 0;
  i_nlink = 0;
  i_rdev = 0;
  i_size = 0;
  i_type = 0;
  parent = 0;
  fname = replicate 255 0;
  attr = 0;
  crt_time_tenth = 0;
  crt_time = 0;
  crt_date = 0;
  lst_acc_date = 0;
  cluster_start = 0;
  wrt_time = 0;
  wrt_date = 0;
  file_size = 0;
  cluster_end = 0;
  cluster_cnt = 0;
  parent_off = 0;
}

abbrev pub inode_at : Fs → ℕ → Inode
inode_at fs ip = get_or fs.inodes ip no_inode

unfoldable pub set_inode : Fs → ℕ → Inode → Fs
set_inode fs ip inode = record fs { inodes = set fs.inodes ip inode }

-- `bread` and `brelse` of a buffer, for code between the two.
unfoldable pub open_sector : Fs → (dev sector : ℕ) → Run (ℕ × Fs)
open_sector fs dev sector =
    bread fs.cache dev sector >>= λ got. ok (got.0, record fs { cache = got.1 })

unfoldable pub close_sector : Fs → ℕ → Run Fs
close_sector fs bp = brelse fs.cache bp >>= λ cache. ok (record fs { cache = cache })

abbrev pub sector_of : Fs → ℕ → Bytes
sector_of fs bp = (at fs.cache bp).bytes

-- `bread`, a use of the data, `brelse`.
unfoldable pub read_sector : Fs → (dev sector : ℕ) → Run (Bytes × Fs)
read_sector fs dev sector = bread fs.cache dev sector >>= λ got.
    brelse got.1 got.0 >>= λ cache. ok ((at got.1 got.0).bytes, record fs { cache = cache })

-- `bread`, a change of the data, `bwrite`, `brelse`.
unfoldable pub edit_sector : Fs → (dev sector : ℕ) → (Bytes → Bytes) → Run Fs
edit_sector fs dev sector change = bread fs.cache dev sector >>= λ got.
    let changed = record (at got.1 got.0) { bytes = change (at got.1 got.0).bytes } in
    brelse (bwrite (update got.1 got.0 changed) got.0) got.0 >>= λ cache.
    ok (record fs { cache = cache })

-- The table of inodes after `inode_table_init`.
pub inode_table_init : List Inode
inode_table_init = replicate nentry no_inode
