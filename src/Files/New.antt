-- ===== src/Files/New.antt =====
-- The creation of a file by its path: `fat32_inode_create` and `fat32_inode_dirlink` of
-- fs/fat32_inode.c. The arrays that each call of `fat32_fcb_init` leaves uninitialised are given by
-- `junk`, for the first to the third call.
use os.Util.{
  ℕ, ◌*◌, ◌%◌, ◌^◌, Option, none, some, [], ◌∷◌, Run, ok, fault, ensure, ◌>>=◌, ◌==◌, if◌then◌else◌,
  bit_or,
}
use os.Util.Int.{ℤ, negsuc}
use os.Text.{Bytes}
use os.Fat32.Layout.{attr_directory}
use os.Fat32.Volume.{Fs, t_dir, inode_at, set_inode}
use os.Fat32.Inode.{fat32_inode_lock, fat32_inode_update}
use os.Fat32.Data.{fat32_inode_write}
use os.Fat32.Remove.{fat32_inode_put, fat32_inode_unlock_put}
use os.Fat32.Dir.{fat32_inode_dirlookup}
use os.Fat32.Create.{fat32_fcb_init, fat32_inode_alloc}
use os.Files.{Vfs}
use os.Files.Path.{name_to_i_parent}

-- For a name that is not there the code goes on with NULL.
unfoldable pub fat32_inode_dirlink : Fs → (dp : ℕ) (name : Bytes) → Run (ℤ × Fs)
fat32_inode_dirlink fs dp name = fat32_inode_dirlookup fs dp name >>= λ looked. elim looked.0 [
  | none ↦ fault
  | some (ip, off) ↦ fat32_inode_put looked.1 ip >>= λ left. ok (negsuc 0, left)
]

abbrev pub mkrdev : (major minor : ℕ) → ℕ
mkrdev major minor = bit_or (major * 2 ^ 8) minor % 2 ^ 32

-- One of the entries . and .. of a new directory.
unfoldable pub write_dot : Fs → (ip : ℕ) (name : Bytes) (off : ℕ) (junk : Bytes × Bytes) → Run Fs
write_dot fs ip name off junk = do
  fcb ← fat32_fcb_init fs ip name attr_directory junk.0 junk.1
  wrote ← fat32_inode_write fcb.2 ip off 32
  _ ← ensure (wrote.0 == 32)
  ok wrote.1

unfoldable pub write_dots : Fs → (ip type : ℕ) (junk : ℕ → Bytes × Bytes) → Run Fs
write_dots fs ip type junk =
    if type == t_dir
    then (write_dot fs ip (46 ∷ 0 ∷ []) 0 (junk 1) >>= λ first.
        write_dot first ip (46 ∷ 46 ∷ 0 ∷ []) 32 (junk 2))
    else ok fs

-- The part of `fat32_inode_create` for a name that is not there yet.
unfoldable pub create_in :
    Fs
    → (dp : ℕ) (name : Bytes) (type major minor : ℕ) (junk : ℕ → Bytes × Bytes)
    → Run (Option ℕ × Fs)
create_in fs dp name type major minor junk = do
  made ← fat32_inode_alloc fs dp name type (junk 0).0 (junk 0).1
  let ip = made.0
  locked ← fat32_inode_lock made.1 ip
  let inode = inode_at locked ip
  let typed =
      set_inode locked ip (record inode { i_nlink = 1; i_rdev = mkrdev major minor; i_type = type })
  updated ← fat32_inode_update typed ip
  dotted ← write_dots updated ip type junk
  kept ← (if type == t_dir then fat32_inode_update dotted dp else ok dotted)
  left ← fat32_inode_unlock_put kept dp
  ok (some ip, left)

-- A name that is there already: its inode is locked, let go, and returned.
unfoldable pub reuse : Fs → (dp ip : ℕ) → Run (Option ℕ × Fs)
reuse fs dp ip = do
  left ← fat32_inode_unlock_put fs dp
  locked ← fat32_inode_lock left ip
  released ← fat32_inode_unlock_put locked ip
  ok (some ip, released)

unfoldable pub fat32_inode_create :
    Vfs → (path : Bytes) (type major minor : ℕ) (junk : ℕ → Bytes × Bytes) → Run (Option ℕ × Fs)
fat32_inode_create v path type major minor junk =
    name_to_i_parent v path [] >>= λ (parent, name, fs). elim parent [
      | none ↦ ok (none, fs)
      | some dp ↦ fat32_inode_lock fs dp >>= λ locked.
          fat32_inode_dirlookup locked dp name >>= λ looked. elim looked.0 [
            | none ↦ create_in looked.1 dp name type major minor junk
            | some (ip, off) ↦ reuse looked.1 dp ip
          ]
    ]
