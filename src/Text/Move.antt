-- ===== src/Text/Move.antt =====
-- `memmove` copies as if through a buffer of its own, however its areas overlap.
use os.Util.{ℕ, zero, suc, ◌+◌, ◌-◌, ◌≤◌, ◌≡◌, ◌⊎◌, arith, ltb, leb, ◌&&◌, if◌then◌else◌}
use os.Text.{Memory, store, copy_up, copy_down, memmove}

-- The memory with `n` bytes from `src` at `dst`.
abbrev pub moved : Memory → ℕ → ℕ → ℕ → Memory
moved mem dst src n a = if leb dst a && ltb a (dst + n) then mem (src + (a - dst)) else mem a

-- Upwards is right where the destination does not start inside the source.
copy_up_lem :
    (mem : Memory) (d s n a : ℕ) → (d ≤ s) ⊎ (s + n ≤ d) → copy_up mem d s n a ≡ moved mem d s n a
unfolding copy_up store
copy_up_lem mem d s zero a h = ground arith
copy_up_lem mem d s (suc n) a h =
    ground (arith, copy_up_lem (store mem d (mem s)) (suc d) (suc s) n a)

copy_down_lem :
    (mem : Memory) (d s n a : ℕ) → s ≤ d → copy_down mem (d + n) (s + n) n a ≡ moved mem d s n a
unfolding copy_down store
copy_down_lem mem d s zero a h = ground arith
copy_down_lem mem d s (suc n) a h =
    rw (last d, last s) (ground (arith, copy_down_lem (store mem (d + n) (mem (s + n))) d s n a h))
  where
    last : (t : ℕ) → t + suc n - 1 ≡ t + n
    last t = omega arith

-- After `memmove` the destination holds what the source held before, and every other byte is as
-- it was, however the two areas overlap.
pub memmove_lem : (mem : Memory) (dst src n a : ℕ) → memmove mem dst src n a ≡ moved mem dst src n a
unfolding memmove
memmove_lem mem dst src n a =
    ground (arith, copy_up_lem mem dst src n a, copy_down_lem mem dst src n a)
