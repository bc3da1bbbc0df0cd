-- ===== src/Fat32/Mount.antt =====
-- fs/fat32_disk.c, and the root's inode: mounting a volume. The printing of the fields is left out.
use os.Util.{ℕ, ◌*◌, ◌%◌, ◌^◌, Run, ok, ensure, ◌>>=◌, ◌==◌, get_or, replicate, ◌∷◌}
use os.Text.{Bytes}
use os.Fat32.Layout.{Superblock, w32, word, dword, attr_directory}
use os.Fat32.Volume.{Inode, Fs, no_inode, fat32, root, t_dir, inode_at, set_inode, read_sector}
use os.Fat32.Table.{fat32_fat_travel}

pub fat32_boot_sector_parser : Superblock → Bytes → Superblock
fat32_boot_sector_parser sb bpb = record sb {
  sector_size = word bpb 11;
  n_sectors = dword bpb 32;
  sectors_per_block = get_or bpb 13 0;
  fatbase = word bpb 14;
  n_fats = get_or bpb 16 0;
  n_sectors_fat = dword bpb 36;
  root_cluster_s = dword bpb 44;
  cluster_size = w32 (word bpb 11 * get_or bpb 13 0);
  s_blocksize = w32 (word bpb 11 * get_or bpb 13 0);
}

pub fat32_fsinfo_parser : Superblock → Bytes → Superblock
fat32_fsinfo_parser sb fsinfo = record sb {
  free_count = dword fsinfo 488;
  nxt_free = dword fsinfo 492;
}

-- The parent of the root is itself; its name is "/".
abbrev pub root_inode : ℕ → Inode
root_inode dev = record no_inode {
  i_dev = dev % 2 ^ 8;
  fs_type = fat32;
  valid = 1;
  i_nlink = 1;
  parent = root;
  cluster_start = 2;
  fname = 0x2f ∷ replicate 254 0;
}

pub fat32_root_inode_init : Fs → Run Fs
fat32_root_inode_init fs = do
  let started = set_inode fs root (root_inode fs.sb.s_dev)
  counted ← fat32_fat_travel started root 0
  let inode = inode_at counted.1 root
  let full = set_inode counted.1 root (record inode {
    cluster_cnt = counted.0;
    i_size = w32 (counted.0 * fs.sb.cluster_size);
    file_size = 0;
    i_type = t_dir;
    attr = attr_directory;
  })
  _ ← ensure ((inode_at full root).cluster_start == 2)
  ok full

pub fat32_fs_mount : Fs → (dev : ℕ) → Run Fs
unfolding fat32_boot_sector_parser fat32_fsinfo_parser fat32_root_inode_init
fat32_fs_mount fs dev = do
  boot ← read_sector fs dev 0
  let sb = fat32_boot_sector_parser (record fs.sb { s_dev = dev }) boot.0
  info ← read_sector (record boot.1 { sb = sb }) dev 1
  fat32_root_inode_init (record info.1 { sb = fat32_fsinfo_parser sb info.0 })
