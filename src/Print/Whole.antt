-- ===== src/Print/Whole.antt =====
-- `_vprintf`: both passes together.
use os.Util.{
  ℕ, ◌+◌, ◌-◌, ◌^◌, ◌<◌, ◌≡◌, refl, ap, ◌∙◌, arith, true, false, Option, none, some, List, Run, ok,
  panic, fault, out_of_fuel, ◌>>=◌, map_run, ltb, leb, if◌then◌else◌, get_or, drop, length,
  ok-injective,
}
use mathlib.Core.Path.{subst}
use os.Print.{Arg, vsnprintf, second_pass, vprintf, buf_size}
use os.Print.Bounds.{vsnprintf-Ended}
use os.Print.Forget.{no_c}
use os.Print.Measure.{vsnprintf-measure}

map_run-eq-ok {κ ℓ} :
    {X : Type κ} {Y : Type ℓ} (f : X → Y) (r : Run X) {y : Y}
    → map_run f r ≡ ok y
    → (x : X) × (r ≡ ok x) × (f x ≡ y)
map_run-eq-ok f (ok x) h = (x, refl, ok-injective h)
map_run-eq-ok f panic h = cc
map_run-eq-ok f fault h = cc
map_run-eq-ok f out_of_fuel h = cc

second_pass_lem :
    (buf s : List ℕ) (args : List Arg) (res : ℕ) (text : List ℕ) (written : Option (List ℕ))
    (again : ℕ)
    → res + 1 < 1000
    → vsnprintf (some buf) (res + 1) s args ≡ ok (written, again)
    → written ≡ some text
    → second_pass buf s args res ≡ ok (text, res)
unfolding second_pass
second_pass_lem buf s args res text written again short e there =
    let room : leb buf_size (res + 1) ≡ false = ground (arith, short) in
    rw (room, e, there, second_pass) refl

-- Where the first pass over a format without `%c` comes to a length below 999, `_vprintf` with a
-- buffer of 1000 bytes returns that length, and the buffer still has 1000 bytes: a zero is behind the
-- first `res` of them, and all after that are as before.
pub vprintf_lem :
    (buf s : List ℕ) (args : List Arg) (counted : Option (List ℕ)) (res : ℕ)
    → length buf ≡ 1000
    → no_c false s ≡ true
    → vsnprintf none (2 ^ 64 - 1) s args ≡ ok (counted, res)
    → res + 1 < 1000
    → (text : List ℕ) × (vprintf buf s args ≡ ok (text, res))
      × (length text ≡ 1000)
      × (drop (res + 1) text ≡ drop (res + 1) buf)
      × (get_or text res 1 ≡ 0)
unfolding vprintf
vprintf_lem buf s args counted res len plain pass short =
    let same =
      vsnprintf-measure (some buf) (res + 1) (2 ^ 64 - 1) s args plain
      ∙ ap (map_run (λ (written, res). res)) pass in
    let ((written, again), e, count) =
      map_run-eq-ok (λ (written, res). res) (vsnprintf (some buf) (res + 1) s args) same in
    let (text, there, (len', rest, end)) =
      vsnprintf-Ended buf (res + 1) s args written again (omega arith) (omega (arith, len, short))
        e in
    let inside : ltb res (res + 1) ≡ true = ground arith in
    let end' : get_or text (if ltb res (res + 1) then res else res + 1 - 1) 1 ≡ 0 =
      subst (λ (r : ℕ). get_or text (if ltb r (res + 1) then r else res + 1 - 1) 1 ≡ 0) count end in
    (
      text,
      ap (λ r. r >>= λ (counted, res). second_pass buf s args res) pass
          ∙ second_pass_lem buf s args res text written again (omega (arith, short)) e there,
      len' ∙ len,
      rest,
      rw inside at end',
    )
