-- ===== src/Files/Tests.antt =====
-- A table of files and some paths, and the theorems at them.
use os.Util.{
  ℕ, ◌≤◌, ◌≡◌, refl, false, some, List, [], ◌∷◌, ◌++◌, replicate, ok, ◌>>=◌, arith, length,
  get_or-replicate,
}
use os.Text.{Bytes}
use os.Fat32.Layout.{Superblock}
use os.Fat32.Volume.{Fs, fat32, no_inode, inode_table_init}
use os.Files.{Vfs, File, fd_none, no_file, file_at, set_file, filealloc, generic_fileclose}
use os.Fat32.Inode.{fat32_inode_dup}
use os.Files.Path.{
  skepelem, skip_leading, take_element, skip_slashes, namex_loop, start_of, inode_namex,
}
use os.Files.Path.Elements.{Taken, Parts, walk_along, has_end, skepelem_lem, inode_namex-walk_along}
use os.Files.Table.{filealloc-fileclose}

abbrev volume : Superblock
volume = record {
  s_dev = 1;
  s_blocksize = 512;
  sectors_per_block = 1;
  cluster_size = 512;
  n_sectors = 1000;
  sector_size = 512;
  fatbase = 32;
  n_fats = 2;
  n_sectors_fat = 8;
  root_cluster_s = 2;
  free_count = 900;
  nxt_free = 3;
}

abbrev fs : Fs
fs = record {
  cache = record { buf = []; head = 0; disk = λ block. [] };
  sb = volume;
  inodes = inode_table_init;
}

abbrev empty_table : Vfs
empty_table = record { fs = fs; file = replicate 100 no_file; cwd = 50; ofile = [] }

-- "./ab//c"
abbrev path : Bytes
path = 46 ∷ 47 ∷ 97 ∷ 98 ∷ 47 ∷ 47 ∷ 99 ∷ 0 ∷ []

skepelem_test : skepelem path ≡ ok (some (99 ∷ 0 ∷ [], 97 ∷ 98 ∷ 0 ∷ []))
unfolding skepelem skip_leading take_element skip_slashes
skepelem_test = refl

skepelem_lem_example : Taken path (skepelem path)
unfolding has_end
skepelem_lem_example = skepelem_lem path refl

inode_namex-walk_along_example :
    (parts : List (Bytes × Bytes)) × Parts path parts
    × (length parts ≤ 8)
    × (namex_loop 9 false fs 50 path [] ≡ walk_along false fs 50 parts [])
    × (inode_namex empty_table path false [] ≡ (
        start_of empty_table path >>= λ start.
        walk_along false (fat32_inode_dup fs start) start parts []))
unfolding has_end
inode_namex-walk_along_example =
    inode_namex-walk_along empty_table path [] false 9 fs 50 refl (omega arith)

mounted : Vfs
mounted = record empty_table {
  fs = record fs { inodes = replicate 50 no_inode ++ record no_inode { fs_type = 1 } ∷ [] };
}

none_typed : (f : ℕ) → (file_at mounted f).f_count ≡ 0 → (file_at mounted f).f_type ≡ fd_none
unfolding mounted
none_typed f h = rw (get_or-replicate {A = File} 100 no_file f) refl

filealloc-fileclose_example :
    (f : ℕ) × (v1 : Vfs) × (filealloc mounted ≡ ok (some f, v1))
    × (f ≤ 7)
    × ((file_at v1 f).f_count ≡ 1)
    × ((file_at v1 f).f_op ≡ fat32)
    × (generic_fileclose v1 f
        ≡ ok (set_file mounted f (record (file_at mounted f) { f_op = fat32 })))
unfolding mounted
filealloc-fileclose_example = filealloc-fileclose mounted 7 refl refl (omega arith) refl none_typed
