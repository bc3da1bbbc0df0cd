-- ===== src/Calendar/Days.antt =====
-- The calendar, by counting days, and `mktime` against it.
use os.Util.{
  ℕ, zero, suc, ◌+◌, ◌-◌, ◌*◌, ◌/◌, ◌%◌, ◌^◌, ◌≤◌, ◌<◌, ◌≡◌, refl, ap, ◌∙◌, Bool, true, false, not,
  ◌&&◌, ◌||◌, ok, fault, ◌==◌, ltb, leb, if◌then◌else◌, get_or, arith, ==_iff, Bool-cases, inl, inr,
}
use os.Util.Bits.{all_below, all_below_sound}
use os.Calendar.{Tm, day, hour, minute, month, kernel_mktime, mktime}

pub is_leap : ℕ → Bool
is_leap year = ((year % 4) == 0) && (not ((year % 100) == 0) || ((year % 400) == 0))

pub days_of_month : (leap : Bool) (mon : ℕ) → ℕ
days_of_month leap mon =
    if mon == 1
    then (if leap then 29 else 28)
    else if (mon == 3) || (mon == 5) || (mon == 8) || (mon == 10)
    then 30
    else 31

pub days_before_month : (leap : Bool) (mon : ℕ) → ℕ
days_before_month leap zero = 0
days_before_month leap (suc mon) = days_before_month leap mon + days_of_month leap mon

-- From the beginning of 1970 to that of 1970 + n.
pub days_before_year : ℕ → ℕ
days_before_year zero = 0
days_before_year (suc n) = days_before_year n + (if is_leap (1970 + n) then 366 else 365)

pub seconds : Tm → ℕ
seconds tm =
    day
      * (days_before_year (tm.tm_year - 1970)
          + days_before_month (is_leap tm.tm_year) tm.tm_mon
          + (tm.tm_mday - 1))
    + hour * tm.tm_hour
    + minute * tm.tm_min
    + tm.tm_sec

year_test : ℕ → Bool
year_test n =
    (days_before_year n == (365 * n + (n + 1) / 4))
    && (if is_leap (1970 + n) then ((n + 2) % 4) == 0 else not (((n + 2) % 4) == 0))

year_table : all_below 69 year_test ≡ true
unfolding all_below year_test days_before_year is_leap
year_table = refl

year_lem :
    (n : ℕ)
    → n < 69
    → (days_before_year n ≡ 365 * n + (n + 1) / 4)
      × ((if is_leap (1970 + n) then ((n + 2) % 4) == 0 else not (((n + 2) % 4) == 0)) ≡ true)
unfolding year_test
year_lem n lt =
    let checked = all_below_sound 69 year_test n year_table lt in
    (ground (arith, checked), ground (arith, checked))

month_test : Bool → ℕ → Bool
month_test leap mon =
    (day * days_before_month leap mon + (if ltb 1 mon && not leap then day else 0))
    == get_or month mon 0

month_table : (leap : Bool) → all_below 12 (month_test leap) ≡ true
unfolding all_below month_test days_before_month days_of_month
month_table true = refl
month_table false = refl

month_lem :
    (leap : Bool) (mon : ℕ)
    → mon < 12
    → day * days_before_month leap mon + (if ltb 1 mon && not leap then day else 0)
      ≡ get_or month mon 0
unfolding month_test
month_lem leap mon lt =
    (==_iff _ _).0 (all_below_sound 12 (month_test leap) mon (month_table leap) lt)

-- The seconds before the month, as the source computes them.
adjust_lem :
    (year mon whole : ℕ)
    → 1970 ≤ year
    → year < 2039
    → mon < 12
    → (if ltb 1 mon && not (((year - 1970 + 2) % 4) == 0)
        then whole + get_or month mon 0 - day
        else whole + get_or month mon 0)
      ≡ whole + day * days_before_month (is_leap year) mon
adjust_lem year mon whole from to lt =
    let n = year - 1970 in
    let leap = (year_lem n (omega arith)).1 in
    let same : is_leap (1970 + n) ≡ is_leap year = ap is_leap (omega arith) in
    let months = month_lem (is_leap year) mon lt in
    elim (Bool-cases (is_leap year)) [
      | inl long ↦
          let here = same ∙ long in
          ground (
            arith,
            rw here at leap,
            months,
            long,
            ap (λ (t : Bool). if ltb 1 mon && not t then day else 0) long,
          )
      | inr short ↦
          let here = same ∙ short in
          ground (
            arith,
            rw here at leap,
            months,
            short,
            ap (λ (t : Bool). if ltb 1 mon && not t then day else 0) short,
          )
    ]

-- For a date from 1970 to 2038, with a month from 0 to 11, a day from 1 to 31, and an hour and a
-- minute below 24 and 60, `mktime` returns the seconds that the calendar counts, with its leap years
-- and months; from 2039 on the seconds of the whole years overflow an `int`.
pub mktime-seconds :
    (tm : Tm)
    → 1970 ≤ tm.tm_year
    → tm.tm_mon < 12
    → 1 ≤ tm.tm_mday
    → tm.tm_mday ≤ 31
    → tm.tm_hour < 24
    → tm.tm_min < 60
    → mktime tm ≡ (if ltb tm.tm_year 2039 then ok (seconds tm) else fault)
unfolding mktime kernel_mktime seconds
mktime-seconds tm from mon mday last hours minutes =
    let a : leb 12 tm.tm_mon ≡ false = ground arith in
    let b : leb (2 ^ 31) (day * (tm.tm_mday - 1)) ≡ false = ground arith in
    let c : leb (2 ^ 31) (hour * tm.tm_hour) ≡ false = ground arith in
    let d : leb (2 ^ 31) (minute * tm.tm_min) ≡ false = ground arith in
    let n = tm.tm_year - 1970 in
    let whole = 31536000 * n + day * ((n + 1) / 4) in
    elim (Bool-cases (ltb tm.tm_year 2039)) [
      | inl early ↦
          let to : tm.tm_year < 2039 = ground arith in
          let years = (year_lem n (omega arith)).0 in
          let fits : leb (2 ^ 31) whole ≡ false = ground arith in
          rw (early, fits, a, b, c, d)
            (ap ok (omega (arith, years, adjust_lem tm.tm_year tm.tm_mon whole from to mon)))
      | inr late ↦ let over : leb (2 ^ 31) whole ≡ true = ground arith in rw (late, over, a) refl
    ]
