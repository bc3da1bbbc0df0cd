-- ===== src/Files/Path.antt =====
-- Paths, fs/ops.c. A path is the bytes from the pointer on; running past them is a fault. The buffer
-- for an element has 255 bytes, and its content is the element with its end. The root is that of the
-- mounted volume, and every inode has operations.
pub mod Elements
use os.Util.{
  ℕ, zero, suc, ◌+◌, ◌-◌, Bool, true, false, not, ◌&&◌, ◌||◌, Option, none, some, List, [], ◌∷◌,
  ◌++◌, Run, ok, panic, fault, out_of_fuel, ◌>>=◌, ◌==◌, ltb, leb, if◌then◌else◌, get_or, length,
}
use os.Util.Int.{ℤ, pos, negsuc}
use os.Text.{Bytes, strncmp}
use os.Fat32.Layout.{dir_bool}
use os.Fat32.Volume.{Fs, root, inode_at}
use os.Fat32.Dir.{fat32_inode_dirlookup}
use os.Fat32.Inode.{fat32_inode_dup, fat32_inode_lock, fat32_inode_unlock, is_zero}
use os.Fat32.Remove.{fat32_inode_put, fat32_inode_unlock_put}
use os.Files.{Vfs, nofile, file_at}

-- 47 is a slash and 46 a dot.
unfoldable pub skip_leading : Bytes → Run Bytes
skip_leading [] = fault
skip_leading (c ∷ path) =
    let rest = skip_leading path in if (c == 47) || (c == 46) then rest else ok (c ∷ path)

-- The element, and what follows it.
unfoldable pub take_element : Bytes → Run (Bytes × Bytes)
take_element [] = fault
take_element (c ∷ path) =
    let rest = take_element path in
    if (c == 47) || (c == 0)
    then ok ([], c ∷ path)
    else (rest >>= λ (element, after). ok (c ∷ element, after))

unfoldable pub skip_slashes : Bytes → Run Bytes
skip_slashes [] = fault
skip_slashes (c ∷ path) = let rest = skip_slashes path in if c == 47 then rest else ok (c ∷ path)

abbrev pub name_long_max : ℕ
name_long_max = 255

-- An element of 255 characters or more is written past the end of its buffer.
abbrev pub store_name : Bytes → Run Bytes
store_name element = if leb name_long_max (length element) then fault else ok (element ++ 0 ∷ [])

-- The rest of the path and the element; `none` is NULL.
unfoldable pub skepelem : Bytes → Run (Option (Bytes × Bytes))
skepelem path = skip_leading path >>= λ start.
    if get_or start 0 0 == 0
    then ok none
    else (take_element start >>= λ (element, after).
        store_name element >>= λ name. skip_slashes after >>= λ rest. ok (some (rest, name)))

-- The inode, if there is one, with the element that was stored last.
abbrev pub Found : Type 0
Found = Option ℕ × Bytes × Fs

unfoldable pub enter : Fs → (ip : ℕ) (name : Bytes) → Run (Option ℕ × Fs)
enter fs ip name = fat32_inode_dirlookup fs ip name >>= λ looked.
    fat32_inode_unlock_put looked.1 ip >>= λ left. elim looked.0 [
      | none ↦ ok (none, left)
      | some (next, off) ↦ ok (some next, left)
    ]

-- The code after the loop of `inode_namex`.
abbrev pub arrive : (parent : Bool) → Fs → (ip : ℕ) → Bytes → Run Found
arrive true fs ip name = fat32_inode_put fs ip >>= λ left. ok (none, name, left)
arrive false fs ip name = ok (some ip, name, fs)

-- One round of the loop of `inode_namex` from the inode ip, with `next` for the rounds after it.
unfoldable pub walk_round :
    (parent : Bool) → Fs → (ip : ℕ) → (rest name : Bytes) → (next : Fs → ℕ → Run Found) → Run Found
walk_round parent fs ip rest name next = fat32_inode_lock fs ip >>= λ locked.
    if not (dir_bool (inode_at locked ip).attr)
    then (fat32_inode_unlock_put locked ip >>= λ left. ok (none, name, left))
    else if parent && (get_or rest 0 0 == 0)
    then (fat32_inode_unlock locked ip >>= λ left. ok (some ip, name, left))
    else (enter locked ip name >>= λ entered. elim entered.0 [
      | none ↦ ok (none, name, entered.1)
      | some ip' ↦ next entered.1 ip'
    ])

unfoldable pub namex_loop :
    (fuel : ℕ) → (parent : Bool) → Fs → (ip : ℕ) → (path name : Bytes) → Run Found
namex_loop zero parent fs ip path name = out_of_fuel
namex_loop (suc fuel) parent fs ip path name = skepelem path >>= λ e. elim e [
  | none ↦ arrive parent fs ip name
  | some (rest, element) ↦
      walk_round parent fs ip rest element (λ fs' ip'. namex_loop fuel parent fs' ip' rest element)
]

-- Where a path starts, which is at the parent of the working directory for one that `strncmp` finds
-- to begin with two dots.
unfoldable pub start_of : Vfs → Bytes → Run ℕ
start_of v path =
    if get_or path 0 0 == 47
    then ok root
    else (strncmp path (46 ∷ 46 ∷ 0 ∷ []) 2 >>= λ order.
        ok (if is_zero order then (inode_at v.fs v.cwd).parent else v.cwd))

-- The loop has a round for each byte of the path.
unfoldable pub inode_namex : Vfs → (path : Bytes) → (parent : Bool) → (name : Bytes) → Run Found
inode_namex v path parent name = start_of v path >>= λ ip.
    namex_loop (length path + 1) parent (fat32_inode_dup v.fs ip) ip path name

unfoldable pub name_to_i : Vfs → Bytes → Run Found
name_to_i v path = inode_namex v path false []

unfoldable pub name_to_i_parent : Vfs → (path name : Bytes) → Run Found
name_to_i_parent v path name = inode_namex v path true name

abbrev pub by_path : Vfs → Bytes → Option Bytes → Run Found
by_path v path none = name_to_i v path
by_path v path (some name) = name_to_i_parent v path name

-- `AT_FDCWD`
abbrev pub at_fdcwd : ℤ
at_fdcwd = negsuc 99

-- The working directory as the call leaves it: where the path is not found from a directory's
-- descriptor, it stays that directory.
abbrev pub settle_cwd : Vfs → (dir : ℕ) → Found → Option ℕ × Bytes × Vfs
settle_cwd v dir (none, name, fs) = (none, name, record v { fs = fs; cwd = dir })
settle_cwd v dir (some ip, name, fs) = (some ip, name, record v { fs = fs })

abbrev pub is_at_fdcwd : ℤ → Bool
is_at_fdcwd (pos n) = false
is_at_fdcwd (negsuc n) = n == 99

abbrev pub dir_file : Vfs → ℤ → Option ℕ
dir_file v (negsuc n) = none
dir_file v (pos n) = if leb nofile n then none else get_or v.ofile n none

unfoldable pub find_inode :
    Vfs → (path : Bytes) → (dirfd : ℤ) → (name : Option Bytes) → Run (Option ℕ × Bytes × Vfs)
find_inode v path dirfd name =
    if (get_or path 0 0 == 47) || is_at_fdcwd dirfd
    then (by_path v path name >>= λ (ip, last, fs). ok (ip, last, record v { fs = fs }))
    else elim (dir_file v dirfd) [
      | none ↦ ok (none, [], v)
      | some f ↦
          let dir = (file_at v f).f_inode in
          by_path (record v { cwd = dir }) path name >>= λ found. ok (settle_cwd v dir found)
    ]
