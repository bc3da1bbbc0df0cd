-- ===== src/Fat32/Name.antt =====
-- Directory entries of 32 bytes, the stack of long entries (fs/fat32_stack.c), and the names that
-- they spell. A `dirent_s_t` or `dirent_l_t` is the list of its bytes: the two share the attribute at
-- byte 11; a long entry has its order at 0, its checksum at 13, and characters at 1, 14 and 28.
use os.Util.{
  ℕ, ◌+◌, ◌/◌, ◌%◌, Bool, false, not, ◌&&◌, List, [], ◌∷◌, ◌++◌, Run, ok, panic, fault, ◌==◌, ltb,
  if◌then◌else◌, get_or, length, take, drop, ◌^◌, bit_and,
}
use os.Text.{Bytes}
use os.Fat32.Layout.{word}

abbrev pub capacity : ℕ
capacity = 30

-- `Stack_t`, its top first; `top` is one less than the length.
abbrev pub Entries : Type 0
Entries = List Bytes

abbrev pub stack_is_empty : Entries → Bool
stack_is_empty stack = length stack == 0

abbrev pub stack_is_full : Entries → Bool
stack_is_full stack = length stack == capacity

pub stack_push : Entries → Bytes → Run Entries
stack_push stack item = if stack_is_full stack then panic else ok (item ∷ stack)

pub stack_pop : Entries → Run (Bytes × Entries)
stack_pop [] = panic
stack_pop (item ∷ stack) = ok (item, stack)

pub stack_peek : Entries → Run Bytes
stack_peek [] = panic
stack_peek (item ∷ stack) = ok item

-- The loop of `ChkSum`, over the bytes that are left.
pub sum_from : ℕ → Bytes → ℕ
sum_from sum [] = sum
sum_from sum (c ∷ name) =
    sum_from (((if bit_and sum 1 == 0 then 0 else 0x80) + sum / 2 + c) % 2 ^ 8) name

-- Of the 11 bytes of a short name.
pub chk_sum : Bytes → ℕ
unfolding sum_from
chk_sum fcb_name = sum_from 0 (take 11 fcb_name)

-- The 13 characters of a long entry.
unfoldable pub long_chars : Bytes → List ℕ
long_chars e =
    word e 1
    ∷ word e 3
    ∷ word e 5
    ∷ word e 7
    ∷ word e 9
    ∷ word e 14
    ∷ word e 16
    ∷ word e 18
    ∷ word e 20
    ∷ word e 22
    ∷ word e 24
    ∷ word e 28
    ∷ word e 30
    ∷ []

abbrev pub long_name_char_valid : ℕ → Bool
long_name_char_valid x = not (x == 0) && not (x == 0xffff)

-- Characters up to the first that is not valid, which is written too.
unfoldable pub filter_chars : List ℕ → Bytes
filter_chars [] = []
filter_chars (x ∷ chars) =
    let c = bit_and x 0xff in if long_name_char_valid x then c ∷ filter_chars chars else c ∷ []

-- The bytes written to `ret_name`; their number is the result of the call.
unfoldable pub fat32_filter_longname : Bytes → Bytes
unfolding filter_chars long_chars
fat32_filter_longname e = filter_chars (long_chars e)

-- Whether the name is valid, the bytes of `name_buf`, and the stack.
pub record Popped : Type 0 where
  pub long_valid : Bool
  pub name : Bytes
  pub stack : Entries

-- The loop of `fat32_longname_popstack`. `name_buf` has 255 bytes.
pub pop_loop : Entries → (cnt : ℕ) → (fcb_s_name name : Bytes) → Run Popped
unfolding chk_sum fat32_filter_longname
pop_loop [] cnt fcb_s_name name = ok (record { long_valid = false; name = name; stack = [] })
pop_loop (e ∷ stack) cnt fcb_s_name name =
    let rest = pop_loop stack ((cnt + 1) % 2 ^ 8) fcb_s_name (name ++ fat32_filter_longname e) in
    let invalid = ok (record { long_valid = false; name = name; stack = stack }) in
    if not (stack_is_empty stack) && not (cnt == get_or e 0 0)
    then invalid
    else if not (get_or e 13 0 == chk_sum fcb_s_name)
    then invalid
    else if ltb 255 (length name + length (fat32_filter_longname e))
    then fault
    else if stack_is_empty stack
    then (if ltb 254 (length name + length (fat32_filter_longname e))
        then fault
        else ok (record {
          long_valid = not (bit_and (get_or e 0 0) 0x40 == 0);
          name = name ++ fat32_filter_longname e ++ (0 ∷ []);
          stack = [];
        }))
    else rest

pub fat32_longname_popstack : Entries → Bytes → Run Popped
unfolding pop_loop
fat32_longname_popstack stack fcb_s_name = pop_loop stack 1 fcb_s_name []

-- The characters of a field but its spaces.
pub no_spaces : Bytes → Bytes
no_spaces [] = []
no_spaces (c ∷ s) = if c == 0x20 then no_spaces s else c ∷ no_spaces s

-- The bytes written to `name_buf`, from the 8 bytes of the name and the 3 of the extension.
pub fat32_short_name_parser : Bytes → Bytes
unfolding no_spaces
fat32_short_name_parser e =
    no_spaces (take 8 e)
    ++ (if get_or e 8 0 == 0x20 then [] else 0x2e ∷ no_spaces (take 3 (drop 8 e)))
    ++ (0 ∷ [])
