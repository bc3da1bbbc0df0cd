-- ===== src/Fat32/Layout.antt =====
-- The macros of include/fs/fat32_disk.h: the geometry of a volume, and the fields in the bytes of a
-- sector. All the numbers are `uint32_t`. A buffer has 512 bytes, so the sector size is at most that.
pub mod Entry
pub mod Number
use os.Util.{
  ℕ, ◌+◌, ◌-◌, ◌*◌, ◌/◌, ◌%◌, ◌^◌, Bool, true, false, not, ◌||◌, ◌==◌, leb, if◌then◌else◌, get_or,
  set, bit_and, bit_or,
}
use os.Text.{Bytes}

abbrev pub w32 : ℕ → ℕ
w32 n = n % 2 ^ 32

-- a - b, wrapped
abbrev pub sub_u32 : ℕ → ℕ → ℕ
sub_u32 a b = (a + 2 ^ 32 - b) % 2 ^ 32

-- The fields of `struct _superblock` that the file system uses.
pub record Superblock : Type 0 where
  pub s_dev : ℕ
  pub s_blocksize : ℕ
  pub sectors_per_block : ℕ
  pub cluster_size : ℕ
  pub n_sectors : ℕ
  pub sector_size : ℕ
  pub fatbase : ℕ
  pub n_fats : ℕ
  pub n_sectors_fat : ℕ
  pub root_cluster_s : ℕ
  pub free_count : ℕ
  pub nxt_free : ℕ

unfoldable pub root_dir_sectors : Superblock → ℕ
root_dir_sectors sb = w32 (0 * 32 + sub_u32 sb.sector_size 1) / sb.sector_size

unfoldable pub first_data_sector : Superblock → ℕ
first_data_sector sb = w32 (sb.fatbase + w32 (sb.n_fats * sb.n_sectors_fat) + root_dir_sectors sb)

unfoldable pub first_sector_of_cluster : Superblock → ℕ → ℕ
first_sector_of_cluster sb n = w32 (sub_u32 n 2 * sb.sectors_per_block + first_data_sector sb)

unfoldable pub data_sec : Superblock → ℕ
data_sec sb = sub_u32 sb.n_sectors (first_data_sector sb)

unfoldable pub fat_cluster_max : Superblock → ℕ
fat_cluster_max sb = w32 (data_sec sb / sb.sectors_per_block + 1)

abbrev pub fcb_per_block : Superblock → ℕ
fcb_per_block sb = sb.sector_size / 32

abbrev pub this_fat_ent_sec_num : Superblock → ℕ → ℕ
this_fat_ent_sec_num sb n = w32 (sb.fatbase + w32 (n * 4) / sb.sector_size)

abbrev pub this_fat_ent_offset : Superblock → ℕ → ℕ
this_fat_ent_offset sb n = w32 (n * 4) % sb.sector_size

abbrev pub fat_valid_mask : ℕ
fat_valid_mask = 0x0fffffff

abbrev pub eoc : ℕ
eoc = 0xffffffff

abbrev pub iseof : ℕ → Bool
iseof content = leb 0x0ffffff8 content

-- Little-endian fields of two and four bytes.
unfoldable pub word : Bytes → ℕ → ℕ
word sector i = get_or sector i 0 + get_or sector (i + 1) 0 * 256

unfoldable pub dword : Bytes → ℕ → ℕ
dword sector i = word sector i + word sector (i + 2) * 2 ^ 16

unfoldable pub set_word : Bytes → ℕ → ℕ → Bytes
set_word sector i v = set (set sector i (v % 256)) (i + 1) (v / 256 % 256)

unfoldable pub set_dword : Bytes → ℕ → ℕ → Bytes
set_dword sector i v = set_word (set_word sector i v) (i + 2) (v / 2 ^ 16)

unfoldable pub fat32_clus_entry_val : Superblock → Bytes → ℕ → ℕ
fat32_clus_entry_val sb sector n = bit_and (dword sector (this_fat_ent_offset sb n)) fat_valid_mask

-- The entry is written twice: cleared but for its upper four bits, and then filled.
unfoldable pub set_fat32_clus_entry_val : Superblock → Bytes → ℕ → ℕ → Bytes
set_fat32_clus_entry_val sb sector n value =
    let i = this_fat_ent_offset sb n in
    let cleared = set_dword sector i (bit_and (dword sector i) 0xf0000000) in
    set_dword cleared i (bit_or (dword cleared i) (bit_and value fat_valid_mask))

abbrev pub name0_free_only : ℕ → Bool
name0_free_only x = x == 0xe5

abbrev pub name0_free_all : ℕ → Bool
name0_free_all x = x == 0

abbrev pub name0_free : ℕ → Bool
name0_free x = name0_free_only x || name0_free_all x

abbrev pub attr_directory : ℕ
attr_directory = 0x10

abbrev pub attr_archive : ℕ
attr_archive = 0x20

abbrev pub attr_long_name : ℕ
attr_long_name = 0x0f

abbrev pub dir_bool : ℕ → Bool
dir_bool attr = not (bit_and attr attr_directory == 0)

-- The exclusive or with the mark of a long name is 0.
abbrev pub long_name_bool : ℕ → Bool
long_name_bool attr = attr == attr_long_name

abbrev pub dir_first_clus : ℕ → ℕ → ℕ
dir_first_clus high low = bit_or (high * 2 ^ 16) low

abbrev pub dir_first_high : ℕ → ℕ
dir_first_high x = x / 2 ^ 16

abbrev pub dir_first_low : ℕ → ℕ
dir_first_low x = bit_and x 0xffff

-- Inode numbers: 0 is the root, entry `offset` of sector s counts from 1.
unfoldable pub sector_to_fatinum : Superblock → ℕ → ℕ → ℕ
sector_to_fatinum sb s offset =
    w32 (sub_u32 s (first_data_sector sb) * fcb_per_block sb + offset + 1)

abbrev pub inum_transfer : ℕ → ℕ
inum_transfer ino = if ino == 0 then 0 else ino - 1

unfoldable pub fatinum_to_sector : Superblock → ℕ → ℕ
fatinum_to_sector sb ino = w32 (inum_transfer ino / fcb_per_block sb + first_data_sector sb)

unfoldable pub fatinum_to_offset : Superblock → ℕ → ℕ
fatinum_to_offset sb ino = inum_transfer ino % fcb_per_block sb

-- The cluster, the sector in it, and the byte in that, of an offset into a file.
abbrev pub logistic_c_num : Superblock → ℕ → ℕ
logistic_c_num sb off = off / w32 (sb.sectors_per_block * sb.sector_size)

abbrev pub logistic_c_offset : Superblock → ℕ → ℕ
logistic_c_offset sb off = off % w32 (sb.sectors_per_block * sb.sector_size)

abbrev pub logistic_s_num : Superblock → ℕ → ℕ
logistic_s_num sb off = logistic_c_offset sb off / sb.sector_size

abbrev pub logistic_s_offset : Superblock → ℕ → ℕ
logistic_s_offset sb off = logistic_c_offset sb off % sb.sector_size

abbrev pub ceil_divide : ℕ → ℕ → ℕ
ceil_divide x y = (x + y - 1) / y
