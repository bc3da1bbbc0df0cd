-- ===== src/Calendar/Tests.antt =====
-- A date, and the theorem at it.
use os.Util.{◌≡◌, ok, arith}
use os.Calendar.{Tm, mktime}
use os.Calendar.Days.{seconds, mktime-seconds}

-- noon of 1 March 2023
abbrev spring : Tm
spring = record { tm_sec = 0; tm_min = 0; tm_hour = 12; tm_mday = 1; tm_mon = 2; tm_year = 2023 }

mktime-seconds_example : mktime spring ≡ ok (seconds spring)
mktime-seconds_example =
    mktime-seconds spring (omega arith) (omega arith) (omega arith) (omega arith) (omega arith)
      (omega arith)
