-- ===== src/Text/Case.antt =====
-- The character table, and `str_toupper`.
use os.Util.{
  ℕ, ◌-◌, ◌<◌, ◌≡◌, refl, true, ◌&&◌, none, some, [], ◌∷◌, map, ok, ◌==◌, leb, if◌then◌else◌,
  ==_iff, ==_ne,
}
use os.Util.Bits.{all_below, all_below_sound}
use os.Text.{Bytes, toupper, upper_loop, str_toupper}
use os.Text.Compare.{NoZero, cstr}

-- The ASCII rule that the table stands for.
abbrev pub upper : ℕ → ℕ
upper c = if leb 97 c && leb c 122 then c - 32 else c

upper_table : all_below 256 (λ c. toupper c == upper c) ≡ true
unfolding all_below toupper
upper_table = refl

-- `toupper`, by way of the table `_ctype`, maps a byte as ASCII does: a to z are upper-cased, any
-- other byte is left alone.
pub toupper_lem : (c : ℕ) → c < 256 → toupper c ≡ upper c
toupper_lem c h = (==_iff _ _).0 (all_below_sound 256 _ c upper_table h)

abbrev pub AllBytes : Bytes → Type 0
AllBytes [] = Unit
AllBytes (c ∷ s) = (c < 256) × AllBytes s

upper_loop_lem :
    (s rest : Bytes)
    → NoZero s
    → AllBytes s
    → upper_loop (cstr s rest) ≡ ok (cstr (map upper s) rest)
unfolding upper_loop
upper_loop_lem [] rest h b = refl
upper_loop_lem (c ∷ s) rest h b =
    rw (==_ne c 0 h.0, upper_loop_lem s rest h.1 b.1, toupper_lem c b.0) refl

-- `str_toupper` upper-cases exactly the characters of a string, up to its end, and leaves a NULL
-- pointer alone.
pub str_toupper_lem :
    (s rest : Bytes)
    → NoZero s
    → AllBytes s
    → (str_toupper (some (cstr s rest)) ≡ ok (some (cstr (map upper s) rest)))
      × (str_toupper none ≡ ok none)
unfolding str_toupper
str_toupper_lem s rest h b = (rw (upper_loop_lem s rest h b) refl, refl)
