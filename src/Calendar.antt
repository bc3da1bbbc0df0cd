-- ===== src/Calendar.antt =====
-- timer/time.c: the seconds from the beginning of 1970 to a date, without time zones.
pub mod Days
mod Tests
use os.Util.{
  ℕ, zero, suc, ◌+◌, ◌-◌, ◌*◌, ◌/◌, ◌%◌, ◌^◌, ◌≤◌, ◌<◌, ◌≡◌, refl, ap, ◌∙◌, Bool, true, false, not,
  ◌&&◌, ◌||◌, List, [], ◌∷◌, Run, ok, fault, ◌==◌, ltb, leb, if◌then◌else◌, get_or, arith, ==_iff,
  Bool-cases, inl, inr,
}

abbrev pub minute : ℕ
minute = 60

abbrev pub hour : ℕ
hour = 60 * minute

abbrev pub day : ℕ
day = 24 * hour

abbrev pub year_length : ℕ
year_length = 365 * day

-- The seconds of the months before each month, in a leap year.
abbrev pub month : List ℕ
month =
    0
    ∷ day * 31
    ∷ day * (31 + 29)
    ∷ day * (31 + 29 + 31)
    ∷ day * (31 + 29 + 31 + 30)
    ∷ day * (31 + 29 + 31 + 30 + 31)
    ∷ day * (31 + 29 + 31 + 30 + 31 + 30)
    ∷ day * (31 + 29 + 31 + 30 + 31 + 30 + 31)
    ∷ day * (31 + 29 + 31 + 30 + 31 + 30 + 31 + 31)
    ∷ day * (31 + 29 + 31 + 30 + 31 + 30 + 31 + 31 + 30)
    ∷ day * (31 + 29 + 31 + 30 + 31 + 30 + 31 + 31 + 30 + 31)
    ∷ day * (31 + 29 + 31 + 30 + 31 + 30 + 31 + 31 + 30 + 31 + 30)
    ∷ []

-- `struct tm`: the year in full, the month from 0, the day from 1.
pub record Tm : Type 0 where
  pub tm_sec : ℕ
  pub tm_min : ℕ
  pub tm_hour : ℕ
  pub tm_mday : ℕ
  pub tm_mon : ℕ
  pub tm_year : ℕ

-- For dates from 1970 on. The seconds of the whole years, those of the days of the month, the hours
-- and the minutes are each computed as an `int`, which must not overflow; the sum is a `time_t` of
-- 64 bits. A month from 12 on is read past the array.
unfoldable pub kernel_mktime : Tm → Run ℕ
kernel_mktime tm =
    let year = tm.tm_year - 1970 in
    let whole = year_length * year + day * ((year + 1) / 4) in
    let months = whole + get_or month tm.tm_mon 0 in
    let adjusted =
      if ltb 1 tm.tm_mon && not (((year + 2) % 4) == 0) then months - day else months in
    let days = day * (tm.tm_mday - 1) in
    let hours = hour * tm.tm_hour in
    let minutes = minute * tm.tm_min in
    if leb 12 tm.tm_mon
      || leb (2 ^ 31) whole
      || leb (2 ^ 31) days
      || leb (2 ^ 31) hours
      || leb (2 ^ 31) minutes
    then fault
    else ok (adjusted + days + hours + minutes + tm.tm_sec)

unfoldable pub mktime : Tm → Run ℕ
mktime tp = kernel_mktime tp
