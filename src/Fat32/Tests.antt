-- ===== src/Fat32/Tests.antt =====
-- Runs of the FAT32 code on small values, and the theorems at them.
use os.Util.{
  inl, ℕ, ◌+◌, ◌*◌, ◌/◌, ◌%◌, ◌^◌, ◌≤◌, ◌<◌, ◌≡◌, refl, ◌⊎◌, [], ◌∷◌, ◌++◌, replicate, length, Run,
  ok, panic, fault, out_of_fuel, arith, get_or, ap, get_or-replicate,
}
use os.Buffer.{
  zeroed, update, bread, bget, fill, brelse, bwrite, write_back, unlink, disk_read, disk_write,
  find_cached, find_unused,
}
use os.Text.{Bytes, strlen, strncpy}
use os.Text.Compare.{cstr}
use os.Fat32.Layout.{
  Superblock, first_data_sector, root_dir_sectors, sector_to_fatinum, fatinum_to_sector,
  fatinum_to_offset, dword, word, set_dword, set_word, first_sector_of_cluster, fat_cluster_max,
  data_sec, set_fat32_clus_entry_val, fat32_clus_entry_val,
}
use os.Fat32.Layout.Number.{fatinum-sector_to_fatinum}
use os.Fat32.Layout.Entry.{entry_val-set_entry_val}
use os.Fat32.Name.{fat32_filter_longname}
use os.Fat32.Create.{long_entry, name_words}
use os.Fat32.Create.Names.{filter_longname-long_entry}
use os.Fat32.Table.{
  found, past_end, next_sector, scan_sector, fat32_cluster_alloc, take_cluster, fat32_fat_set,
  fat32_zero_cluster, zero_sectors, set_fsinfo,
}
use os.Fat32.Table.Scan.{NoneFree, scan_sector_lem}
use os.Fat32.Volume.{Fs, Inode, nentry, no_inode, inode_at, set_inode, read_sector, edit_sector}
use os.Fat32.Inode.{fat32_inode_get, find_slot, or_empty}
use os.Fat32.Inode.Slots.{Holds, IsUnique, fat32_inode_get-IsUnique}
use os.Fat32.Dir.{finish, go_on, Window, insert_entries}
use os.Fat32.Dir.Room.{AllFree, IsWindow, insert_entries_lem}

-- 32 reserved sectors, two tables of 100, and clusters of two sectors
abbrev volume : Superblock
volume = record {
  s_dev = 1;
  s_blocksize = 1024;
  sectors_per_block = 2;
  cluster_size = 1024;
  n_sectors = 20232;
  sector_size = 512;
  fatbase = 32;
  n_fats = 2;
  n_sectors_fat = 100;
  root_cluster_s = 2;
  free_count = 9000;
  nxt_free = 5;
}

fatinum-sector_to_fatinum_example :
    (0 < sector_to_fatinum volume 236 3)
    × (fatinum_to_sector volume (sector_to_fatinum volume 236 3) ≡ 236)
    × (fatinum_to_offset volume (sector_to_fatinum volume 236 3) ≡ 3)
unfolding first_data_sector root_dir_sectors
fatinum-sector_to_fatinum_example =
    fatinum-sector_to_fatinum volume 236 3 refl (omega arith) (omega arith) (omega arith)
      (omega arith)

abbrev table : Bytes
table = replicate 512 0xf0

entry_val-set_entry_val_example :
    let changed = set_fat32_clus_entry_val volume table 5 0xffffffff in
    (fat32_clus_entry_val volume changed 5 ≡ 0xfffffff)
    × (dword changed 20 / 2 ^ 28 ≡ dword table 20 / 2 ^ 28 % 16)
    × (fat32_clus_entry_val volume changed 4 ≡ fat32_clus_entry_val volume table 4)
    × (length changed ≡ 512)
entry_val-set_entry_val_example =
    entry_val-set_entry_val volume table 5 0xffffffff 4 (omega arith) (inl (omega arith))

-- "notes.txt"
abbrev notes : Bytes
notes = 110 ∷ 111 ∷ 116 ∷ 101 ∷ 115 ∷ 46 ∷ 116 ∷ 120 ∷ 116 ∷ []

filter_longname-long_entry_example :
    fat32_filter_longname (long_entry 0x41 7 (name_words 13 (cstr notes []))) ≡ notes ++ (0 ∷ [])
filter_longname-long_entry_example =
    filter_longname-long_entry 0x41 7 notes [] (omega arith) (omega arith)

-- entries 0 to 2 in use, entry 3 free
abbrev entries : Bytes
entries = replicate 12 0xff ++ replicate 500 0

scan_three : scan_sector entries 1000 128 0 3 ≡ found 6
unfolding scan_sector dword word
scan_three = refl

scan_sector_lem_example :
    ((e : ℕ) × (n : ℕ) × (scan_sector entries 1000 128 0 3 ≡ found n)
      × (0 ≤ e)
      × (e < 0 + 128)
      × (n + 0 ≡ 3 + e)
      × (dword entries (e * 4) ≡ 0)
      × NoneFree entries 0 e)
    ⊎ ((e : ℕ) × (scan_sector entries 1000 128 0 3 ≡ past_end)
        × (0 < e)
        × (e ≤ 0 + 128)
        × (1000 + 0 < 3 + e)
        × NoneFree entries 0 e)
    ⊎ ((n : ℕ) × (scan_sector entries 1000 128 0 3 ≡ next_sector n)
        × (n ≡ 3 + 128)
        × NoneFree entries 0 (0 + 128))
scan_sector_lem_example = scan_sector_lem entries 1000 128 0 3

-- the place of two entries in a sector whose first, third and fourth entries are free
abbrev start : Window
start = record { free_cnt = 0; final = 0; idx = 0 }

start-IsWindow : IsWindow (0xe5 ∷ 65 ∷ 0 ∷ 0 ∷ []) 2 start
start-IsWindow = record {
  short = (omega arith, omega arith);
  inside = omega arith;
  start = λ pos. absurd (omega arith);
  free = λ i le lt. absurd (omega arith);
}

insert_two : insert_entries 32 2 (0xe5 ∷ 65 ∷ 0 ∷ 0 ∷ []) start ≡ finish 2
unfolding insert_entries
insert_two = refl

insert_entries_lem_example :
    ((f : ℕ) × (insert_entries 32 2 (0xe5 ∷ 65 ∷ 0 ∷ 0 ∷ []) start ≡ finish f)
      × (f + 2 ≤ 0 + 4)
      × AllFree (0xe5 ∷ 65 ∷ 0 ∷ 0 ∷ []) f (f + 2))
    ⊎ ((w' : Window) × (insert_entries 32 2 (0xe5 ∷ 65 ∷ 0 ∷ 0 ∷ []) start ≡ go_on w')
        × (w'.idx ≡ 0 + 4)
        × IsWindow (0xe5 ∷ 65 ∷ 0 ∷ 0 ∷ []) 2 w')
insert_entries_lem_example =
    insert_entries_lem 32 2 (0xe5 ∷ 65 ∷ 0 ∷ 0 ∷ []) (0xe5 ∷ 65 ∷ 0 ∷ 0 ∷ []) start start-IsWindow
      (λ k lt. ap (λ (t : ℕ). get_or (0xe5 ∷ 65 ∷ 0 ∷ 0 ∷ []) t 1) (omega arith))

abbrev empty_fs : Fs
empty_fs = record {
  cache = record { buf = []; head = 0; disk = λ n. [] };
  sb = volume;
  inodes = replicate 51 no_inode;
}

no_inodes : IsUnique empty_fs.inodes
no_inodes = record {
  unique = λ i j dev inum li lj hi hj.
      absurd (omega (arith, ap (λ (t : Inode). t.ref) (get_or-replicate 51 no_inode i), hi.used));
}

abbrev got_inode : Inode
got_inode = record no_inode {
  i_dev = 1;
  i_ino = 9;
  fs_type = 1;
  ref = 1;
  parent_off = 4;
  fname = notes ++ replicate 246 0;
}

got_notes : fat32_inode_get empty_fs 1 9 (cstr notes []) 4 ≡ ok (0, set_inode empty_fs 0 got_inode)
unfolding fat32_inode_get find_slot or_empty set_inode strlen strncpy
got_notes = refl

fat32_inode_get-IsUnique_example :
    (0 < nentry)
    × Holds (inode_at (set_inode empty_fs 0 got_inode) 0) 1 9
    × IsUnique (set_inode empty_fs 0 got_inode).inodes
fat32_inode_get-IsUnique_example =
    fat32_inode_get-IsUnique empty_fs 1 9 (cstr notes []) 4 (omega arith) (omega arith) no_inodes
      got_notes

-- one reserved sector, a table of one, clusters of one sector, and a disk that is clear
abbrev small_fs : Fs
small_fs = record {
  cache = record { buf = replicate 30 zeroed; head = 0; disk = λ n. replicate 512 0 };
  sb = record volume {
    sectors_per_block = 1;
    n_sectors = 40;
    fatbase = 8;
    n_fats = 1;
    n_sectors_fat = 1;
    free_count = 3;
    nxt_free = 5;
  };
  inodes = [];
}

-- the state that a run ends in
abbrev state_of : Run (ℕ × Fs) → Fs
state_of (ok r) = r.1
state_of panic = small_fs
state_of fault = small_fs
state_of out_of_fuel = small_fs

alloc_five : fat32_cluster_alloc small_fs 1 ≡ ok (5, state_of (fat32_cluster_alloc small_fs 1))
unfolding fat32_cluster_alloc take_cluster fat32_fat_set fat32_zero_cluster zero_sectors set_fsinfo
    set_fat32_clus_entry_val set_dword set_word dword word first_sector_of_cluster first_data_sector
    root_dir_sectors fat_cluster_max data_sec read_sector edit_sector bread bget fill brelse bwrite
    write_back unlink disk_read disk_write update find_cached find_unused
alloc_five = refl
