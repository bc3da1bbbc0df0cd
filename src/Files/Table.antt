-- ===== src/Files/Table.antt =====
-- The counts of the table of files.
use os.Util.{
  ℕ, zero, suc, ◌+◌, ◌-◌, ◌%◌, ◌^◌, ◌≤◌, ◌<◌, ◌≡◌, refl, sym, ap, ◌∙◌, arith, true, false,
  Bool-cases, inl, inr, ◌⊎◌, none, some, List, ok, ◌>>=◌, ◌==◌, ==_iff, ltb, get_or, length,
  set-get_or, set-set, get_or-set_self,
}
use os.Fat32.Volume.{fat32, inode_at}
use os.Files.{
  FileType, fd_none, File, Vfs, no_file, file_at, set_file, has_inode, closed, find_unused_file,
  filealloc, generic_fileclose, fat32_filedup,
}

-- The files from a to b (b excluded) are in use.
abbrev pub AllUsed : List File → (a b : ℕ) → Type 0
AllUsed files a b = (i : ℕ) → a ≤ i → i < b → ((get_or files i no_file).f_count == 0) ≡ false

AllUsed-step :
    (files : List File) (a b : ℕ)
    → ((get_or files a no_file).f_count == 0) ≡ false
    → AllUsed files (a + 1) b
    → AllUsed files a b
AllUsed-step files a b here later i le lt = elim (Bool-cases (i == a)) [
  | inl same ↦ ap (λ (t : ℕ). (get_or files t no_file).f_count == 0) ((==_iff i a).0 same) ∙ here
  | inr other ↦ later i (ground (arith, other)) lt
]

find_unused_file_lem :
    (files : List File) (count i : ℕ)
    → ((find_unused_file files count i ≡ none) × AllUsed files i (i + count))
      ⊎ ((f : ℕ) × (find_unused_file files count i ≡ some f)
          × (i ≤ f)
          × (f < i + count)
          × ((get_or files f no_file).f_count ≡ 0)
          × AllUsed files i f)
unfolding find_unused_file
find_unused_file_lem files zero i = inl (refl, λ j le lt. absurd (omega arith))
find_unused_file_lem files (suc count) i =
    elim (Bool-cases ((get_or files i no_file).f_count == 0)) [
      | inl free ↦ inr (
        i,
        rw (free, find_unused_file) refl,
        omega arith,
        omega arith,
        (==_iff _ 0).0 free,
        λ j le lt. absurd (omega arith),
      )
      | inr used ↦ elim (find_unused_file_lem files count (i + 1)) [
        | inl (e, all) ↦ inl (
          rw (used, find_unused_file) e,
          AllUsed-step files i _ used (λ j a b. all j a (omega arith)),
        )
        | inr (f, e, le, lt, zeroth, all) ↦ inr (
          f,
          rw (used, find_unused_file) e,
          omega arith,
          omega arith,
          zeroth,
          AllUsed-step files i f used all,
        )
      ]
    ]

-- A file with another reference only loses one.
close-shared :
    (v : Vfs) (f : ℕ) (file : File)
    → file_at v f ≡ file
    → 2 ≤ file.f_count
    → generic_fileclose v f ≡ ok (set_file v f (record file { f_count = file.f_count - 1 }))
unfolding generic_fileclose
close-shared v f file at shared =
    let used : ltb (file_at v f).f_count 1 ≡ false =
      ground (arith, ap (λ (x : File). x.f_count) at, shared) in
    let more : ltb 0 ((file_at v f).f_count - 1) ≡ true =
      ground (arith, ap (λ (x : File). x.f_count) at, shared) in
    rw (used, more, generic_fileclose)
      (ap (λ (x : File). ok (set_file v f (record x { f_count = x.f_count - 1 }))) at)

-- A reference to a file that `fat32_filedup` has added, and that fits in 16 bits, is taken back by
-- `generic_fileclose`: all files and inodes are as before.
pub filedup-fileclose :
    (v : Vfs) (f : ℕ)
    → f < length v.file
    → 1 ≤ (file_at v f).f_count
    → (file_at v f).f_count + 1 < 2 ^ 16
    → (fat32_filedup v f >>= λ v1. generic_fileclose v1 f) ≡ ok v
unfolding fat32_filedup
filedup-fileclose v f inside used fits =
    let file = file_at v f in
    let file1 : File = record file { f_count = (file.f_count + 1) % 2 ^ 16 } in
    let v1 = set_file v f file1 in
    let open_file : ltb file.f_count 1 ≡ false = ground arith in
    let at1 : file_at v1 f ≡ file1 = get_or-set_self v.file f file1 no_file inside in
    let back : (file.f_count + 1) % 2 ^ 16 - 1 ≡ file.f_count = omega arith in
    rw (open_file, fat32_filedup) (close-shared v1 f file1 at1 (omega arith))
    ∙ ap (λ (c : ℕ). ok (set_file v1 f (record file { f_count = c }))) back
    ∙ ap (λ l. ok (record v { file = l }))
        (set-set v.file f file1 file ∙ set-get_or v.file f no_file)

-- The last reference to a file without an inode.
close-last :
    (v : Vfs) (f : ℕ) (file : File)
    → file_at v f ≡ file
    → file.f_count ≡ 1
    → has_inode file.f_type ≡ false
    → generic_fileclose v f ≡ ok (set_file v f (closed file))
unfolding generic_fileclose
close-last v f file at last bare =
    let used : ltb (file_at v f).f_count 1 ≡ false =
      ground (arith, ap (λ (x : File). x.f_count) at, last) in
    let more : ltb 0 ((file_at v f).f_count - 1) ≡ false =
      ground (arith, ap (λ (x : File). x.f_count) at, last) in
    let no_inode : has_inode (file_at v f).f_type ≡ false =
      ap (λ (x : File). has_inode x.f_type) at ∙ bare in
    rw (used, more, no_inode, generic_fileclose)
      (ap (λ (x : File). ok (set_file v f (closed x))) at)

-- What `filealloc` gives: the first file without references, now with one and with the operations of
-- the file system, or nothing.
pub filealloc_lem :
    (v : Vfs)
    → (inode_at v.fs v.cwd).fs_type ≡ fat32
    → ((filealloc v ≡ ok (none, v)) × AllUsed v.file 0 100)
      ⊎ ((f : ℕ) × (filealloc v
            ≡ ok (some f, set_file v f (record (file_at v f) { f_count = 1; f_op = fat32 })))
          × (f < 100)
          × ((file_at v f).f_count ≡ 0)
          × AllUsed v.file 0 f)
unfolding filealloc
filealloc_lem v mounted = elim (find_unused_file_lem v.file 100 0) [
  | inl (e, all) ↦ inl (rw (e, filealloc) refl, all)
  | inr (f, e, le, lt, zeroth, all) ↦ inr (f, rw (e, filealloc) (rw mounted refl), lt, zeroth, all)
]

-- While the working directory is of a FAT32 volume, and files without references have no type, as
-- `generic_fileclose` leaves them, in a table of 100 files with one that has no references:
-- `filealloc` finds a file no later than that one, and gives it one reference and the operations of
-- FAT32. Closing it again takes the reference back and leaves the operations: nothing else differs
-- from the state before.
pub filealloc-fileclose :
    (v : Vfs) (free : ℕ)
    → (inode_at v.fs v.cwd).fs_type ≡ fat32
    → length v.file ≡ 100
    → free < 100
    → (file_at v free).f_count ≡ 0
    → ((f : ℕ) → (file_at v f).f_count ≡ 0 → (file_at v f).f_type ≡ fd_none)
    → (f : ℕ) × (v1 : Vfs) × (filealloc v ≡ ok (some f, v1))
      × (f ≤ free)
      × ((file_at v1 f).f_count ≡ 1)
      × ((file_at v1 f).f_op ≡ fat32)
      × (generic_fileclose v1 f ≡ ok (set_file v f (record (file_at v f) { f_op = fat32 })))
filealloc-fileclose v free mounted len below unused typed = elim (filealloc_lem v mounted) [
  | inl (e, all) ↦ absurd (ground (arith, all free (omega arith) below, unused))
  | inr (f, e, lt, zeroth, all) ↦
      let file = file_at v f in
      let file1 : File = record file { f_count = 1; f_op = fat32 } in
      let v1 = set_file v f file1 in
      let at1 : file_at v1 f ≡ file1 =
        get_or-set_self v.file f file1 no_file (omega (arith, len)) in
      let first : f ≤ free = elim (Bool-cases (ltb free f)) [
        | inl before ↦
            absurd (ground (arith, all free (omega arith) (ground (arith, before)), unused))
        | inr after ↦ ground (arith, after)
      ] in
      (
        f,
        v1,
        e,
        first,
        ap (λ (x : File). x.f_count) at1,
        ap (λ (x : File). x.f_op) at1,
        close-last v1 f file1 at1 refl (ap has_inode (typed f zeroth))
            ∙ ap
                (λ (c : ℕ).
                  ok (set_file v1 f (record file { f_count = c; f_type = fd_none; f_op = fat32 })))
                (sym zeroth)
            ∙ ap (λ (t : FileType). ok (set_file v1 f (record file { f_type = t; f_op = fat32 })))
                (sym (typed f zeroth))
            ∙ ap (λ l. ok (record v { file = l }))
                (set-set v.file f file1 (record file { f_op = fat32 })),
      )
]
