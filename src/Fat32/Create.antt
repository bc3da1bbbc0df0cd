-- ===== src/Fat32/Create.antt =====
-- The entries of a new file or directory, and its inode. `junk` is what the local arrays `file_name`
-- (255 bytes) and `file_ext` (4 bytes) of `fat32_fcb_init` happen to hold.
pub mod Names
use os.Util.{
  ℕ, zero, suc, ◌+◌, ◌-◌, ◌*◌, ◌/◌, ◌%◌, ◌^◌, Bool, true, false, not, ◌&&◌, ◌||◌, List, [], ◌∷◌,
  ◌++◌, Run, ok, ensure, ◌>>=◌, ◌==◌, ltb, if◌then◌else◌, get_or, set, take, drop, replicate,
  length, bit_or, bit_and,
}
use os.Util.Int.{ℤ, pos, negsuc}
use os.Text.{Bytes, strlen, strncpy, str_split, upper_loop}
use os.Fat32.Layout.{
  w32, first_sector_of_cluster, sector_to_fatinum, dir_bool, attr_long_name, attr_directory,
  attr_archive, set_word, dir_first_high, dir_first_low, ceil_divide, logistic_c_num,
  logistic_c_offset,
}
use os.Fat32.Volume.{Inode, Fs, fat32, t_dir, inode_at, set_inode}
use os.Fat32.Table.{fat32_cluster_alloc, fat32_fat_travel}
use os.Fat32.Name.{Entries, stack_push, chk_sum}
use os.Fat32.Inode.{fat32_inode_get, fat32_namecmp, is_zero}
use os.Fat32.Data.{fat32_inode_write}
use os.Fat32.Dir.{fat32_find_same_name_cnt, fat32_dir_fcb_insert_offset}

-- The characters of one long entry: up to the end of the string, which is one of them, and 0xffff
-- after it.
pub name_words : ℕ → Bytes → List ℕ
name_words zero s = []
name_words (suc n) [] = 0xffff ∷ name_words n []
name_words (suc n) (c ∷ s) =
    if c == 0 then c ∷ replicate n 0xffff else bit_and c 0xff ∷ name_words n s

pub two_bytes : List ℕ → Bytes
two_bytes [] = []
two_bytes (x ∷ chars) = (x % 256) ∷ (x / 256) ∷ two_bytes chars

pub long_entry : (order checksum : ℕ) → List ℕ → Bytes
unfolding two_bytes
long_entry order checksum chars =
    (order ∷ [])
    ++ two_bytes (take 5 chars)
    ++ (attr_long_name ∷ 0 ∷ checksum ∷ [])
    ++ two_bytes (take 6 (drop 5 chars))
    ++ (0 ∷ 0 ∷ [])
    ++ two_bytes (drop 11 chars)

-- The loop over the long entries, `count` of them left from number i on.
pub push_long :
    (long_name : Bytes) (name_len checksum : ℕ) (count i char_idx : ℕ) → Entries → Run Entries
unfolding long_entry name_words
push_long long_name name_len checksum zero i char_idx stack = ok stack
push_long long_name name_len checksum (suc count) i char_idx stack =
    if char_idx == name_len
    then ok stack
    else (let order = if count == 0 then bit_or i 0x40 else i in
        stack_push stack (long_entry order checksum (name_words 13 (drop char_idx long_name)))
        >>= λ pushed. push_long long_name name_len checksum count (i + 1) (char_idx + 13) pushed)

-- The entries in the order that they are popped.
pub concat : Entries → Bytes
concat [] = []
concat (e ∷ stack) = e ++ concat stack

abbrev pub is_error : ℤ → Bool
is_error (pos n) = false
is_error (negsuc n) = true

-- The extension of a short name, at byte 8; `dirent` is the entry so far.
pub set_extension : (dirent file_ext : Bytes) → Run Bytes
set_extension dirent file_ext = do
  upper ← upper_loop file_ext
  ext ← strncpy (drop 8 dirent) upper 3
  len ← strlen upper
  let full = take 8 dirent ++ ext
  let two = if len == 2 then set full 10 0x20 else full
  ok (if len == 1 then set (set two 10 0x20) 9 0x20 else two)

-- The entry and `file_name` of a file, before it is upper-cased.
pub split_name : (dirent long_name junk_name junk_ext : Bytes) → Run (Bytes × Bytes)
unfolding set_extension
split_name dirent long_name junk_name junk_ext =
    str_split long_name 0x2e junk_name junk_ext >>= λ split.
    if is_error split.0
    then (strncpy split.1 long_name 8 >>= λ file_name.
        ok (set (set (set dirent 8 0x20) 9 0x20) 10 0x20, file_name))
    else (set_extension dirent split.2 >>= λ named. ok (named, split.1))

-- The short name of a long one ends in a tilde and a number.
pub number_name : Fs → (ip : ℕ) (long_name file_name dirent : Bytes) → Run (Bytes × Fs)
number_name fs ip long_name file_name dirent = do
  len ← strlen long_name
  (if ltb 8 len
      then (fat32_find_same_name_cnt fs ip file_name >>= λ counted.
          ok (set (set dirent 6 0x7e) 7 ((counted.0 + 0x31) % 2 ^ 8), counted.2))
      else ok (dirent, fs))

-- The short entry but for its cluster.
pub short_name :
    Fs
    → (ip : ℕ) (long_name : Bytes) (attr : ℕ) (dirent junk_name junk_ext : Bytes) → Run (Bytes × Fs)
unfolding split_name number_name
short_name fs ip long_name attr dirent junk_name junk_ext =
    if dir_bool attr
    then (do
      file_name ← strncpy junk_name long_name 11
      upper ← upper_loop file_name
      named ← strncpy dirent upper 8
      len ← strlen long_name
      numbered ← number_name fs ip long_name upper named
      ok (
        (if ltb 8 len then set (set (set numbered.0 8 0x20) 9 0x20) 10 0x20 else numbered.0),
        numbered.1,
      ))
    else (do
      split ← split_name dirent long_name junk_name junk_ext
      upper ← upper_loop split.1
      named ← strncpy split.0 upper 8
      number_name fs ip long_name upper named)

abbrev pub set_cluster : Bytes → ℕ → Bytes
set_cluster dirent c = set_word (set_word dirent 20 (dir_first_high c)) 26 (dir_first_low c)

-- The bytes written to `fcb_char`, and the number of entries.
pub fat32_fcb_init :
    Fs
    → (ip_parent : ℕ) (long_name : Bytes) (attr : ℕ) (junk_name junk_ext : Bytes)
    → Run (Bytes × ℕ × Fs)
unfolding short_name push_long concat
fat32_fcb_init fs ip_parent long_name attr junk_name junk_ext = do
  let dirent = set (replicate 32 0) 11 attr
  dot ← fat32_namecmp long_name (0x2e ∷ 0 ∷ [])
  dot_dot ← fat32_namecmp long_name (0x2e ∷ 0x2e ∷ 0 ∷ [])
  name_len ← strlen long_name
  (if is_zero dot || is_zero dot_dot
      then (do
        named ← strncpy dirent long_name name_len
        ok (set_cluster named (inode_at fs ip_parent).cluster_start, 1, fs))
      else (do
        short ← short_name fs ip_parent long_name attr dirent junk_name junk_ext
        first_c ← fat32_cluster_alloc short.1 (inode_at fs ip_parent).i_dev
        let dirent_s = set_cluster short.0 first_c.0
        let ord_max = ceil_divide name_len 13
        stack ← push_long long_name name_len (chk_sum dirent_s) ord_max 1 0 []
        ok (concat stack ++ dirent_s, length stack + 1, first_c.1)))

-- The inode of the new entry, which ends at number `last` of the directory.
pub new_inode : Fs → (dp : ℕ) (name : Bytes) (type last : ℕ) → Run (ℕ × Fs)
new_inode fs dp name type last = do
  let off = w32 (last * 32)
  target ← fat32_fat_travel fs dp (logistic_c_num fs.sb off + 1)
  let c_offset = logistic_c_offset fs.sb off
  let sector_num = w32 (first_sector_of_cluster fs.sb target.0 + c_offset / fs.sb.sector_size)
  let sector_offset = c_offset % fs.sb.sector_size / 32
  got ←
      fat32_inode_get target.1 (inode_at fs dp).i_dev
        (sector_to_fatinum fs.sb sector_num sector_offset) name last
  ok (
    got.0,
    set_inode got.1 got.0 (record (inode_at got.1 got.0) {
      i_nlink = 1;
      ref = 1;
      parent = dp;
      i_type = type;
      fs_type = fat32;
    }),
  )

pub fat32_inode_alloc :
    Fs → (dp : ℕ) (name : Bytes) (type : ℕ) (junk_name junk_ext : Bytes) → Run (ℕ × Fs)
unfolding fat32_fcb_init new_inode
fat32_inode_alloc fs dp name type junk_name junk_ext = do
  let attr = if type == t_dir then attr_directory else attr_archive
  fcb ← fat32_fcb_init fs dp name attr junk_name junk_ext
  offset ← fat32_dir_fcb_insert_offset fcb.2 dp (fcb.1 % 2 ^ 8)
  wrote ← fat32_inode_write offset.1 dp (w32 (offset.0 * 32)) (fcb.1 * 32)
  _ ← ensure (wrote.0 == (fcb.1 * 32))
  new_inode wrote.1 dp name type (offset.0 + fcb.1 - 1)
