-- ===== src/Files.antt =====
-- The file layer: fs/ops.c, fs/fat32_file.c and fs/fd.c. A file is named by its index in the table
-- of files. The table of devices is never filled by the code, so each device is one without
-- functions. Counts of bytes to read or write are not negative.
pub mod Path
pub mod Table
pub mod New
mod Tests
use os.Util.{
  ℕ, zero, suc, ◌+◌, ◌-◌, ◌%◌, ◌^◌, Bool, true, false, not, ◌&&◌, ◌||◌, Option, none, some, List,
  [], ◌∷◌, ◌++◌, Run, ok, panic, fault, out_of_fuel, ensure, ◌>>=◌, ◌>>◌, ◌==◌, ltb, leb,
  if◌then◌else◌, get_or, set, length, bit_and,
}
use os.Util.Int.{ℤ, pos, negsuc}
use os.Text.{Bytes}
use os.Tasks.{Reg}
use os.Fat32.Layout.{w32}
use os.Fat32.Volume.{Fs, fat32, inode_at}
use os.Fat32.Data.{fat32_inode_read, fat32_inode_write}
use os.Fat32.Inode.{fat32_inode_lock, fat32_inode_unlock}
use os.Fat32.Remove.{fat32_inode_put}

pub data FileType : Type 0 where
  fd_none : FileType
  fd_pipe : FileType
  fd_inode : FileType
  fd_device : FileType

-- `f_op` is the file system whose operations the file has, or 0 for NULL.
pub record File : Type 0 where
  pub f_type : FileType
  pub f_pos : ℕ
  pub f_flags : ℕ
  pub f_count : ℕ
  pub f_inode : ℕ
  pub f_op : ℕ

-- The file system, the table of files, and the working directory and the open files of the task
-- that runs.
pub record Vfs : Type 0 where
  pub fs : Fs
  pub file : List File
  pub cwd : ℕ
  pub ofile : List (Option ℕ)

abbrev pub nfile : ℕ
nfile = 100

abbrev pub nofile : ℕ
nofile = 128

-- what lies beyond the table
abbrev pub no_file : File
no_file = record { f_type = fd_none; f_pos = 0; f_flags = 0; f_count = 0; f_inode = 0; f_op = 0 }

abbrev pub file_at : Vfs → ℕ → File
file_at v f = get_or v.file f no_file

abbrev pub set_file : Vfs → ℕ → File → Vfs
set_file v f file = record v { file = set v.file f file }

-- The loop of `filealloc` over `count` files from f on.
unfoldable pub find_unused_file : List File → (count f : ℕ) → Option ℕ
find_unused_file files zero f = none
find_unused_file files (suc count) f =
    let rest = find_unused_file files count (f + 1) in
    if (get_or files f no_file).f_count == 0 then some f else rest

unfoldable pub filealloc : Vfs → Run (Option ℕ × Vfs)
filealloc v = elim (find_unused_file v.file nfile 0) [
  | none ↦ ok (none, v)
  | some f ↦
      let file = file_at v f in
      let fs_type = (inode_at v.fs v.cwd).fs_type in
      ensure (fs_type == fat32)
      >> ok (some f, set_file v f (record file { f_count = 1; f_op = fs_type }))
]

abbrev pub has_inode : FileType → Bool
has_inode fd_none = false
has_inode fd_pipe = false
has_inode fd_inode = true
has_inode fd_device = true

abbrev pub closed : File → File
closed file = record file { f_count = 0; f_type = fd_none }

unfoldable pub generic_fileclose : Vfs → (f : ℕ) → Run Vfs
generic_fileclose v f =
    let file = file_at v f in
    if ltb file.f_count 1
    then panic
    else if ltb 0 (file.f_count - 1)
    then ok (set_file v f (record file { f_count = file.f_count - 1 }))
    else if has_inode file.f_type
    then (fat32_inode_put v.fs file.f_inode >>= λ fs.
        let done = set_file v f (closed file) in ok (record done { fs = fs }))
    else ok (set_file v f (closed file))

-- `f_count` is 16 bits wide.
unfoldable pub fat32_filedup : Vfs → (f : ℕ) → Run Vfs
fat32_filedup v f =
    let file = file_at v f in
    if ltb file.f_count 1
    then panic
    else ok (set_file v f (record file { f_count = (file.f_count + 1) % 2 ^ 16 }))

abbrev pub o_wronly : ℕ
o_wronly = 1

abbrev pub f_readable : File → Bool
f_readable file = not (bit_and file.f_flags o_wronly == o_wronly)

abbrev pub f_writeable : File → Bool
f_writeable file = ltb 0 file.f_flags

abbrev pub moved_by : ℕ → File → File
moved_by r file = record file { f_pos = w32 (file.f_pos + r) }

-- The result, the bytes that are put at the address, and the state.
unfoldable pub fat32_fileread : Vfs → (f n : ℕ) → Run (ℤ × Bytes × Vfs)
fat32_fileread v f n =
    let file = file_at v f in
    let size = (inode_at v.fs file.f_inode).i_size in
    if not (f_readable file) then ok (negsuc 0, [], v) else elim file.f_type [
      | fd_none ↦ panic
      | fd_pipe ↦ panic
      | fd_device ↦ ok (negsuc 0, [], v)
      | fd_inode ↦ fat32_inode_lock v.fs file.f_inode >>= λ fs.
          fat32_inode_read fs file.f_inode file.f_pos (if ltb size n then size else n) >>= λ got.
          fat32_inode_unlock got.1 file.f_inode >>= λ fs.
          let read = set_file v f (moved_by (length got.0) file) in
          ok (pos (length got.0), got.0, record read { fs = fs })
    ]

-- A round of the loop of `fat32_filewrite` writes all of the n bytes, or ends the loop. As an `int`
-- the result of `fat32_inode_write` is positive below 2 ^ 31.
unfoldable pub write_round : Vfs → (f n : ℕ) → Run (ℕ × Vfs)
write_round v f n =
    let file = file_at v f in
    fat32_inode_lock v.fs file.f_inode >>= λ fs.
    fat32_inode_write fs file.f_inode file.f_pos n >>= λ wrote.
    fat32_inode_unlock wrote.1 file.f_inode >>= λ fs.
    let written =
      if ltb 0 wrote.0 && ltb wrote.0 (2 ^ 31) then set_file v f (moved_by wrote.0 file) else v in
    ok (wrote.0, record written { fs = fs })

unfoldable pub fat32_filewrite : Vfs → (f n : ℕ) → Run (ℤ × Vfs)
fat32_filewrite v f n =
    let file = file_at v f in
    if not (f_writeable file) then ok (negsuc 0, v) else elim file.f_type [
      | fd_none ↦ panic
      | fd_pipe ↦ panic
      | fd_device ↦ ok (negsuc 0, v)
      | fd_inode ↦
          if n == 0
          then ok (pos 0, v)
          else (write_round v f n >>= λ wrote.
              ok ((if wrote.0 == n then pos n else negsuc 0), wrote.1))
    ]

-- The n-th argument of a system call.
unfoldable pub argraw : Reg → ℕ → Run ℕ
argraw context n =
    if n == 0
    then ok context.a0
    else if n == 1
    then ok context.a1
    else if n == 2
    then ok context.a2
    else if n == 3
    then ok context.a3
    else if n == 4
    then ok context.a4
    else if n == 5
    then ok context.a5
    else panic

-- An `int`: its lower 32 bits, with the sign.
abbrev pub to_int : ℕ → ℤ
to_int x = if ltb (x % 2 ^ 32) (2 ^ 31) then pos (x % 2 ^ 32) else negsuc (2 ^ 32 - x % 2 ^ 32 - 1)

abbrev pub is_negative : ℤ → Bool
is_negative (pos n) = false
is_negative (negsuc n) = true

-- The argument, and the result of the call.
unfoldable pub argint : Reg → ℕ → Run (ℤ × ℤ)
argint context n =
    argraw context n >>= λ x. ok (to_int x, if is_negative (to_int x) then negsuc 0 else pos 0)

-- The descriptor and its file; `none` is the result -1.
unfoldable pub argfd : Vfs → Reg → ℕ → Run (Option (ℕ × ℕ))
argfd v context n = argint context n >>= λ (fd, done). elim fd [
  | negsuc m ↦ ok none
  | pos m ↦
      if leb nofile m
      then ok none
      else elim (get_or v.ofile m none) [ none ↦ ok none | some f ↦ ok (some (m, f)) ]
]
