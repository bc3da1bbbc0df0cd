-- ===== src/Fat32/Dir.antt =====
-- Directories: looking a name up, finding room for entries, building the entries of a new file.
pub mod Room
use os.Util.{
  ℕ, zero, suc, ◌+◌, ◌-◌, ◌*◌, ◌/◌, ◌%◌, ◌^◌, Bool, true, false, not, ◌&&◌, ◌||◌, Option, none,
  some, List, [], ◌∷◌, ◌++◌, Run, ok, panic, fault, out_of_fuel, ensure, ◌>>=◌, ◌==◌, ltb, leb,
  if◌then◌else◌, get_or, set, take, drop, replicate, length, bit_and, bit_or,
}
use os.Util.Int.{ℤ, pos, negsuc}
use os.Text.{Bytes, strlen, strncpy, strncmp, str_split, upper_loop}
use os.Fat32.Layout.{
  Superblock, w32, iseof, first_sector_of_cluster, fat_cluster_max, fcb_per_block,
  sector_to_fatinum, name0_free_all, name0_free, dir_bool, long_name_bool, attr_long_name,
  attr_directory, attr_archive, set_word, dir_first_high, dir_first_low, ceil_divide,
  logistic_c_num, logistic_c_offset,
}
use os.Fat32.Volume.{Inode, Fs, t_dir, inode_at, set_inode, read_sector}
use os.Fat32.Table.{fat32_next_cluster, fat32_cluster_alloc, fat32_fat_travel}
use os.Fat32.Name.{
  Entries, stack_push, chk_sum, Popped, fat32_longname_popstack, fat32_short_name_parser,
}
use os.Fat32.Inode.{fat32_inode_get, fat32_namecmp, is_zero}
use os.Fat32.Data.{fat32_inode_write}

abbrev pub name0 : Bytes → ℕ
name0 e = get_or e 0 0

abbrev pub attr_of : Bytes → ℕ
attr_of e = get_or e 11 0

-- The entries of a sector.
pub fcbs : Bytes → ℕ → List Bytes
fcbs sector zero = []
fcbs sector (suc count) = take 32 sector ∷ fcbs (drop 32 sector) count

-- What the loops over a directory give: a result that ends them, or their variables for the next
-- sector.
pub data Walk {ℓ κ} (A : Type ℓ) (V : Type κ) : Type (ℓ ⊔ κ) where
  finish : A → Walk A V
  go_on : V → Walk A V

-- The loops over the sectors of a cluster and over the clusters of a chain, with `body` for the
-- code of a sector, which is given the number of the sector and its data.
module _ {A V : Type 0} (body : ℕ → Bytes → V → Run (Walk A V)) where
  pub over_sectors : Fs → (dev first s count : ℕ) → V → Run (Walk A V × Fs)
  over_sectors fs dev first s zero v = ok (go_on v, fs)
  over_sectors fs dev first s (suc count) v = read_sector fs dev (w32 (first + s)) >>= λ got.
      body (w32 (first + s)) got.0 v >>= λ r. elim r [
        | finish a ↦ ok (finish a, got.1)
        | go_on v' ↦ over_sectors got.1 dev first (s + 1) count v'
      ]

  pub over_clusters : (fuel : ℕ) → Fs → (dev iter_n : ℕ) → V → Run (Walk A V × Fs)
  unfolding over_sectors
  over_clusters zero fs dev iter_n v = out_of_fuel
  over_clusters (suc fuel) fs dev iter_n v =
      if iseof iter_n
      then ok (go_on v, fs)
      else (over_sectors fs dev (first_sector_of_cluster fs.sb iter_n) 0 fs.sb.sectors_per_block v
          >>= λ got. elim got.0 [
            | finish a ↦ ok got
            | go_on v' ↦
                fat32_next_cluster got.1 iter_n >>= λ next. over_clusters fuel next.1 dev next.0 v'
          ])

  pub over_directory : Fs → (ip : ℕ) → V → Run (Walk A V × Fs)
  unfolding over_clusters
  over_directory fs ip v =
      over_clusters (fat_cluster_max fs.sb + 1) fs (inode_at fs ip).i_dev
        (inode_at fs ip).cluster_start v

-- The variables of `fat32_inode_dirlookup`: the entries' number and the stack.
pub record Lookup : Type 0 where
  pub off : ℕ
  pub fcb_stack : Entries

-- A matching entry: its inode number and its number in the directory; or none.
abbrev pub Match : Type 0
Match = Option (ℕ × ℕ)

-- The loops over the entries of a sector, `idx` done so far. `pushing` is the inner loop, which
-- does not look for the end of the directory; where it ends with the sector, `off` counts once more.
pub lookup_entries :
    Superblock
    → (sector : ℕ) → Bytes
    → (pushing : Bool) (idx : ℕ) → List Bytes
    → Lookup
    → Run (Walk Match Lookup)
lookup_entries sb sector name pushing idx [] v =
    ok (go_on (record v { off = v.off + (if pushing then 1 else 0) }))
lookup_entries sb sector name pushing idx (e ∷ entries) v =
    if not pushing && name0_free_all (name0 e)
    then ok (finish none)
    else if long_name_bool (attr_of e)
    then (stack_push v.fcb_stack e >>= λ stack.
        lookup_entries sb sector name true (idx + 1) entries
          (record { off = v.off + 1; fcb_stack = stack }))
    else if name0_free (name0 e)
    then lookup_entries sb sector name false (idx + 1) entries (record v { off = v.off + 1 })
    else (do
      popped ← fat32_longname_popstack v.fcb_stack (take 11 e)
      let name_buf = if popped.long_valid then popped.name else fat32_short_name_parser e
      order ← fat32_namecmp name name_buf
      (if is_zero order
          then ok (finish (some (sector_to_fatinum sb sector idx, v.off)))
          else lookup_entries sb sector name false (idx + 1) entries
              (record { off = v.off + 1; fcb_stack = popped.stack })))

-- The inode, and the number of its entry, which the call stores at `poff`.
pub fat32_inode_dirlookup : Fs → (ip : ℕ) (name : Bytes) → Run (Match × Fs)
unfolding lookup_entries over_directory fcbs
fat32_inode_dirlookup fs ip name = do
  _ ← ensure (dir_bool (inode_at fs ip).attr)
  found ←
      over_directory
        (λ sector bytes v.
          lookup_entries fs.sb sector name false 0 (fcbs bytes (fcb_per_block fs.sb)) v)
        fs ip (record { off = 0; fcb_stack = [] })
  elim found.0 [
    | go_on v ↦ ok (none, found.1)
    | finish m ↦ elim m [
      | none ↦ ok (none, found.1)
      | some (inum, off) ↦ fat32_inode_get found.1 (inode_at fs ip).i_dev inum name off >>= λ got.
          ok (
            some (got.0, off),
            set_inode got.1 got.0 (record (inode_at got.1 got.0) { parent = ip; i_nlink = 1 }),
          )
    ]
  ]

-- The entries of a sector in `fat32_find_same_name_cnt`.
pub count_entries : (name : Bytes) → List Bytes → ℕ → Run (Walk ℕ ℕ)
count_entries name [] total = ok (go_on total)
count_entries name (e ∷ entries) total = do
  same ←
      (if not (long_name_bool (attr_of e)) && not (name0_free (name0 e))
        then (strncmp (take 11 e) name 6 >>= λ order. ok (is_zero order && (get_or e 6 0 == 0x7e)))
        else ok false)
  let total' = if same then total + 1 else total
  (if name0_free_all (name0 e) then ok (finish total') else count_entries name entries total')

-- The count, and the name, which is upper-cased in place.
pub fat32_find_same_name_cnt : Fs → (ip : ℕ) (name : Bytes) → Run (ℕ × Bytes × Fs)
unfolding count_entries over_directory fcbs
fat32_find_same_name_cnt fs ip name = do
  _ ← ensure (dir_bool (inode_at fs ip).attr)
  upper ← upper_loop name
  counted ←
      over_directory
        (λ sector bytes total. count_entries upper (fcbs bytes (fcb_per_block fs.sb)) total) fs ip 0
  elim counted.0 [
    | finish total ↦ ok (total, upper, counted.1)
    | go_on total ↦ ok (total, upper, counted.1)
  ]

-- The variables of `fat32_dir_fcb_insert_offset`.
pub record Window : Type 0 where
  pub free_cnt : ℕ
  pub final : ℕ
  pub idx : ℕ

-- Its loop over the entries of a sector, of which only the first byte counts.
unfoldable pub insert_entries : (base req : ℕ) → List ℕ → Window → Walk ℕ Window
insert_entries base req [] w = go_on w
insert_entries base req (b ∷ firsts) w =
    if not (name0_free b)
    then insert_entries base req firsts (record { free_cnt = 0; final = base; idx = w.idx + 1 })
    else (let final = if w.free_cnt == 0 then w.idx else w.final in
        let free_cnt = (w.free_cnt + 1) % 2 ^ 8 in
        let rest =
          insert_entries base req firsts
            (record { free_cnt = free_cnt; final = final; idx = w.idx + 1 }) in
        if free_cnt == req then finish final else rest)

pub first_bytes : List Bytes → List ℕ
first_bytes [] = []
first_bytes (e ∷ entries) = name0 e ∷ first_bytes entries

pub fat32_dir_fcb_insert_offset : Fs → (ip fcb_cnt_req : ℕ) → Run (ℕ × Fs)
unfolding insert_entries first_bytes over_directory fcbs
fat32_dir_fcb_insert_offset fs ip fcb_cnt_req = do
  let base = w32 ((inode_at fs ip).cluster_cnt * fs.sb.cluster_size / 32)
  found ←
      over_directory
        (λ sector bytes w.
          ok (insert_entries base fcb_cnt_req (first_bytes (fcbs bytes (fcb_per_block fs.sb))) w))
        fs ip (record { free_cnt = 0; final = 0; idx = 0 })
  elim found.0 [ finish final ↦ ok (final, found.1) | go_on w ↦ ok (w.final, found.1) ]

-- The loop of `fat32_isdirempty` over the entries of a sector.
pub only_dots : List Bytes → Run (Walk Bool (Unit {0}))
only_dots [] = ok (go_on tt)
only_dots (e ∷ entries) = if name0_free (name0 e) then only_dots entries else (do
  dot ← fat32_namecmp (take 11 e) (0x2e ∷ 0 ∷ [])
  dot_dot ← fat32_namecmp (take 11 e) (0x2e ∷ 0x2e ∷ 0 ∷ [])
  (if not (is_zero dot) && not (is_zero dot_dot) then ok (finish false) else only_dots entries))

pub fat32_isdirempty : Fs → (ip : ℕ) → Run (Bool × Fs)
unfolding only_dots over_directory fcbs
fat32_isdirempty fs ip = do
  found ← over_directory (λ sector bytes v. only_dots (fcbs bytes (fcb_per_block fs.sb))) fs ip tt
  elim found.0 [ finish empty ↦ ok (empty, found.1) | go_on v ↦ ok (true, found.1) ]
