-- ===== src/Print/Tests.antt =====
-- Lines as the kernel prints them.
use os.Util.{
  ℕ, ◌-◌, ◌^◌, ◌≡◌, refl, arith, none, some, List, [], ◌∷◌, ok, map_run, drop, get_or, length,
  replicate, length-replicate,
}
use os.Print.{
  Arg, register, string, vsnprintf, vprintf, print_chars, print_char, convert, plain, put_d, put_s,
  put_dec, put_all, va_arg, count_digits,
}
use os.Print.Forget.{no_c}
use os.Print.Measure.{vsnprintf-measure}
use os.Print.Whole.{vprintf_lem}

-- "a%d %s"
abbrev line : List ℕ
line = 97 ∷ 37 ∷ 100 ∷ 32 ∷ 37 ∷ 115 ∷ []

-- 2 ^ 64 - 42 and "ok"
abbrev values : List Arg
values = register (2 ^ 64 - 42) ∷ string (111 ∷ 107 ∷ []) ∷ []

-- "a-42 ok"
line_test :
    vsnprintf (some (replicate 9 1)) 9 line values
    ≡ ok (some (97 ∷ 45 ∷ 52 ∷ 50 ∷ 32 ∷ 111 ∷ 107 ∷ 0 ∷ 1 ∷ []), 7)
unfolding vsnprintf print_chars print_char convert plain put_d put_s put_dec put_all va_arg
    count_digits
line_test = refl

vsnprintf-measure_example :
    map_run (λ (written, res). res) (vsnprintf (some (replicate 9 1)) 9 line values)
    ≡ map_run (λ (written, res). res) (vsnprintf none 0 line values)
unfolding no_c
vsnprintf-measure_example = vsnprintf-measure (some (replicate 9 1)) 9 0 line values refl

vprintf_lem_example :
    (text : List ℕ) × (vprintf (replicate 1000 1) line values ≡ ok (text, 7))
    × (length text ≡ 1000)
    × (drop 8 text ≡ drop 8 (replicate 1000 1))
    × (get_or text 7 1 ≡ 0)
unfolding vsnprintf print_chars print_char convert plain put_d put_s put_dec put_all va_arg
    count_digits no_c
vprintf_lem_example =
    vprintf_lem (replicate 1000 1) line values none 7 (length-replicate {A = ℕ} 1000 1) refl refl
      (omega arith)
