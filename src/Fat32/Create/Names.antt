-- ===== src/Fat32/Create/Names.antt =====
-- The long entries that `fat32_fcb_init` builds, as `fat32_filter_longname` reads them.
use os.Util.{
  ℕ, zero, suc, ◌+◌, ◌*◌, ◌/◌, ◌%◌, ◌<◌, ◌≡◌, refl, sym, ap, ◌∙◌, Bool-cases, inl, inr, List, [],
  ◌∷◌, ◌++◌, arith, ◌==◌, length, get_or, take, bit_and, length-replicate,
}
use os.Util.Bits.{bit_and-ones}
use os.Text.{Bytes}
use os.Text.Compare.{NoZero, cstr}
use os.Text.Case.{AllBytes}
use os.Fat32.Layout.{word}
use os.Fat32.Name.{long_chars, filter_chars, fat32_filter_longname}
use os.Fat32.Create.{name_words, two_bytes, long_entry}

tabulate : (ℕ → ℕ) → ℕ → List ℕ
tabulate f zero = []
tabulate f (suc n) = f 0 ∷ tabulate (λ i. f (suc i)) n

tabulate-get_or : (n : ℕ) (xs : List ℕ) → length xs ≡ n → tabulate (λ i. get_or xs i 0) n ≡ xs
unfolding tabulate
tabulate-get_or zero [] h = refl
tabulate-get_or zero (x ∷ xs) h = absurd (omega arith)
tabulate-get_or (suc n) [] h = absurd (omega arith)
tabulate-get_or (suc n) (x ∷ xs) h = ap (λ t. x ∷ t) (tabulate-get_or n xs (omega arith))

pair_lem : (x : ℕ) → x % 256 + x / 256 * 256 ≡ x
pair_lem x = omega arith

long_chars-tabulate :
    (order checksum : ℕ) (f : ℕ → ℕ)
    → long_chars (long_entry order checksum (tabulate f 13)) ≡ tabulate f 13
unfolding long_chars long_entry two_bytes tabulate word
long_chars-tabulate order checksum f = simp pair_lem refl

pub length-name_words : (n : ℕ) (s : Bytes) → length (name_words n s) ≡ n
unfolding name_words
length-name_words zero s = refl
length-name_words (suc n) [] = ap suc (length-name_words n [])
length-name_words (suc n) (c ∷ s) = elim (Bool-cases (c == 0)) [
  | inl end ↦ rw end (ap suc (length-replicate n 0xffff))
  | inr more ↦ rw more (ap suc (length-name_words n s))
]

low_byte : (c : ℕ) → c < 256 → bit_and c 0xff ≡ c
low_byte c lt = omega (arith, bit_and-ones 8 c 255 refl)

filter_chars-name_words :
    (n : ℕ) (s rest : Bytes)
    → NoZero s
    → AllBytes s
    → filter_chars (name_words n (cstr s rest)) ≡ take n (s ++ (0 ∷ []))
unfolding filter_chars name_words
filter_chars-name_words zero s rest h b = refl
filter_chars-name_words (suc zero) [] rest h b = refl
filter_chars-name_words (suc (suc n)) [] rest h b = refl
filter_chars-name_words (suc n) (c ∷ s) rest h b = ground (
  arith,
  low_byte c b.0,
  ap (λ (t : ℕ). bit_and t 0xff) (low_byte c b.0),
  filter_chars-name_words n s rest h.1 b.1,
)

-- A long entry gives back what was put into it: for the rest s of a name, with characters from 1
-- to 255 and a zero after them, the entry built from it reads as its first 13 characters, or, where
-- it has fewer, as all of them and the zero, whatever the order and the checksum of the entry.
pub filter_longname-long_entry :
    (order checksum : ℕ) (s rest : Bytes)
    → NoZero s
    → AllBytes s
    → fat32_filter_longname (long_entry order checksum (name_words 13 (cstr s rest)))
      ≡ take 13 (s ++ (0 ∷ []))
unfolding fat32_filter_longname
filter_longname-long_entry order checksum s rest h b =
    let chars = name_words 13 (cstr s rest) in
    let whole = tabulate-get_or 13 chars (length-name_words 13 (cstr s rest)) in
    ap (λ xs. filter_chars (long_chars (long_entry order checksum xs))) (sym whole)
    ∙ ap filter_chars (long_chars-tabulate order checksum (λ i. get_or chars i 0) ∙ whole)
    ∙ filter_chars-name_words 13 s rest h b
