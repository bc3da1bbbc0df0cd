-- ===== src/Fat32/Inode.antt =====
-- The table of inodes in memory, and an inode's entry on the disk. An inode pointer is its index.
pub mod Slots
use os.Util.{
  ℕ, zero, suc, ◌+◌, ◌-◌, ◌*◌, ◌/◌, ◌%◌, ◌^◌, Bool, true, false, not, ◌&&◌, ◌||◌, Option, none,
  some, List, [], ◌∷◌, Run, ok, panic, fault, ensure, ◌>>=◌, ◌>>◌, ◌==◌, ltb, leb, if◌then◌else◌,
  get_or, set, bit_and, bit_or,
}
use os.Util.Int.{ℤ, pos, negsuc}
use os.Text.{Bytes, strlen, strncpy, strncmp}
use os.Fat32.Layout.{
  Superblock, w32, word, dword, set_word, set_dword, dir_bool, dir_first_clus, dir_first_high,
  dir_first_low, fatinum_to_sector, fatinum_to_offset,
}
use os.Fat32.Volume.{
  Inode, Fs, no_inode, fat32, nentry, t_dir, t_file, t_device, inode_at, set_inode, open_sector,
  close_sector, sector_of, read_sector, edit_sector,
}
use os.Fat32.Table.{fat32_fat_travel}

pub fat32_inode_dup : Fs → ℕ → Fs
fat32_inode_dup fs ip = set_inode fs ip (record (inode_at fs ip) { ref = (inode_at fs ip).ref + 1 })

-- The loop of `fat32_inode_get` over `count` inodes from ip on: the inode of the number, or the
-- first empty one.
pub data Slot : Type 0 where
  present : ℕ → Slot
  empty : ℕ → Slot
  no_space : Slot

-- Remember an empty slot.
unfoldable pub or_empty : Inode → ℕ → Option ℕ → Option ℕ
or_empty here ip none = if here.ref == 0 then some ip else none
or_empty here ip (some i) = some i

unfoldable pub find_slot : List Inode → (count ip dev inum : ℕ) → Option ℕ → Slot
unfolding or_empty
find_slot inodes zero ip dev inum seen = elim seen [ none ↦ no_space | some i ↦ empty i ]
find_slot inodes (suc count) ip dev inum seen =
    let here = get_or inodes ip no_inode in
    let rest = find_slot inodes count (ip + 1) dev inum (or_empty here ip seen) in
    if ltb 0 here.ref && (here.i_dev == dev) && (here.i_ino == inum) then present ip else rest

-- The device of an inode has eight bits.
unfoldable pub fat32_inode_get : Fs → (dev inum : ℕ) (name : Bytes) (parentoff : ℕ) → Run (ℕ × Fs)
unfolding find_slot fat32_inode_dup
fat32_inode_get fs dev inum name parentoff = elim (find_slot fs.inodes nentry 0 dev inum none) [
  | present ip ↦ ok (ip, fat32_inode_dup fs ip)
  | no_space ↦ panic
  | empty ip ↦ do
    total ← strlen name
    fname ← strncpy (inode_at fs ip).fname name total
    ok (
      ip,
      set_inode fs ip (record (inode_at fs ip) {
        i_dev = dev % 2 ^ 8;
        i_ino = inum;
        fs_type = fat32;
        ref = 1;
        valid = 0;
        parent_off = parentoff;
        fname = fname;
      }),
    )
]

-- The fields that come before the chain is counted; e is the first byte of the entry.
pub load_start : Bytes → ℕ → Inode → Inode
load_start sector e inode = record inode {
  attr = get_or sector (e + 11) 0;
  cluster_start = dir_first_clus (word sector (e + 20)) (word sector (e + 26));
}

-- The type of an inode, by its device number and attribute.
pub inode_type : (rdev attr : ℕ) → ℕ
inode_type rdev attr = if rdev == 0 then (if dir_bool attr then t_dir else t_file) else t_device

pub inode_size : Superblock → Inode → ℕ
inode_size sb inode =
    if inode.i_type == t_file
    then inode.file_size
    else if inode.i_type == t_dir
    then w32 (inode.cluster_cnt * sb.cluster_size)
    else 0

-- The fields that come after it.
pub load_rest : Superblock → Bytes → ℕ → Inode → Inode
unfolding inode_type inode_size
load_rest sb sector e inode =
    let loaded = record inode {
      crt_time_tenth = get_or sector (e + 13) 0;
      crt_time = word sector (e + 14);
      crt_date = word sector (e + 16);
      lst_acc_date = word sector (e + 18);
      wrt_time = word sector (e + 22);
      file_size = dword sector (e + 28);
      i_rdev = get_or sector (e + 12) 0;
      i_type = inode_type (get_or sector (e + 12) 0) inode.attr;
      i_mode = bit_and (get_or sector (e + 11) 0) 1;
    } in
    record loaded { i_size = inode_size sb loaded; valid = 1 }

-- The chain is counted unless it starts at 0.
pub count_chain : Fs → ℕ → Run Fs
count_chain fs ip =
    if (inode_at fs ip).cluster_start == 0
    then ok fs
    else (fat32_fat_travel fs ip 0 >>= λ got.
        ok (set_inode got.1 ip (record (inode_at got.1 ip) { cluster_cnt = got.0 })))

-- `strncmp` of the name with "/", up to `PATH_LONG_MAX` characters.
abbrev pub fat32_namecmp : Bytes → Bytes → Run ℤ
fat32_namecmp s t = strncmp s t 260

abbrev pub is_zero : ℤ → Bool
is_zero (pos zero) = true
is_zero (pos (suc n)) = false
is_zero (negsuc n) = false

pub fat32_inode_lock : Fs → ℕ → Run Fs
unfolding load_start load_rest count_chain
fat32_inode_lock fs ip =
    let inode = inode_at fs ip in
    let e = fatinum_to_offset fs.sb inode.i_ino * 32 in
    ensure (leb 1 inode.ref)
    >> (if inode.valid == 0
        then (do
          got ← open_sector fs inode.i_dev (fatinum_to_sector fs.sb inode.i_ino)
          let started = set_inode got.1 ip (load_start (sector_of got.1 got.0) e inode)
          order ← fat32_namecmp inode.fname (0x2f ∷ 0 ∷ [])
          _ ← ensure (
              not (
                ((inode_at started ip).cluster_start == fs.sb.root_cluster_s)
                && not (is_zero order)))
          counted ← count_chain started ip
          let rest = load_rest fs.sb (sector_of counted got.0) e (inode_at counted ip)
          let loaded = record rest { fs_type = fat32 }
          closed ← close_sector counted got.0
          _ ← ensure (not (loaded.attr == 0))
          ok (set_inode closed ip loaded))
        else ok fs)

-- The result is -1, where the buffer is not released, or 1.
pub fat32_inode_load_from_disk : Fs → ℕ → Run (ℤ × Fs)
unfolding load_start load_rest count_chain
fat32_inode_load_from_disk fs ip =
    let inode = inode_at fs ip in
    let e = fatinum_to_offset fs.sb inode.i_ino * 32 in
    if inode.valid == 0
    then (do
      got ← open_sector fs inode.i_dev (fatinum_to_sector fs.sb inode.i_ino)
      let started = set_inode got.1 ip (load_start (sector_of got.1 got.0) e inode)
      order ← fat32_namecmp inode.fname (0x2f ∷ 0 ∷ [])
      (if (((inode_at started ip).cluster_start == fs.sb.root_cluster_s) && is_zero order)
          then ok (negsuc 0, started)
          else (do
            counted ← count_chain started ip
            let loaded = load_rest fs.sb (sector_of counted got.0) e (inode_at counted ip)
            closed ← close_sector counted got.0
            _ ← ensure (not (loaded.attr == 0))
            ok (pos 1, set_inode closed ip loaded))))
    else ok (pos 1, fs)

pub fat32_inode_unlock : Fs → ℕ → Run Fs
fat32_inode_unlock fs ip = ensure (leb 1 (inode_at fs ip).ref) >> ok fs

-- The entry of an inode in its sector; e is its first byte.
pub set_entry : Inode → ℕ → Bytes → Bytes
set_entry inode e sector =
    let b1 = set sector (e + 11) inode.attr in
    let b2 = set_word b1 (e + 18) inode.lst_acc_date in
    let b3 = set_word b2 (e + 24) inode.wrt_date in
    let b4 = set_word b3 (e + 22) inode.wrt_time in
    let b5 = set_word b4 (e + 20) (dir_first_high inode.cluster_start) in
    let b6 = set_word b5 (e + 26) (dir_first_low inode.cluster_start) in
    let size = if (inode.i_type == t_dir) || (inode.i_type == t_device) then 0 else inode.i_size in
    let b7 = set_dword b6 (e + 28) size in
    let b8 = set b7 (e + 11) (bit_or (get_or b7 (e + 11) 0) inode.i_mode % 2 ^ 8) in
    set b8 (e + 12) (if inode.i_type == t_device then inode.i_dev else 0)

-- The root has no entry.
pub fat32_inode_update : Fs → ℕ → Run Fs
unfolding set_entry
fat32_inode_update fs ip =
    let inode = inode_at fs ip in
    let sector = fatinum_to_sector fs.sb inode.i_ino in
    if inode.i_ino == 0
    then (read_sector fs inode.i_dev sector >>= λ got. ok got.1)
    else edit_sector fs inode.i_dev sector
        (set_entry inode (fatinum_to_offset fs.sb inode.i_ino * 32))
