-- ===== src/Shell/Clock.antt =====
-- The time: 3_Kernel/3_drivers/rtc.c reads the clock chip, and `toUtcMinus3` of
-- 4_Userland/shellCodeModule/2_libraries/shellFunctions.c shifts it.
pub mod Shift
use g21_tp2_so_1c.Base.{ℕ, ◌+◌, ◌-◌, ◌*◌, ◌/◌, ◌%◌, Bool, ◌||◌, ltb, ◌==◌, if◌then◌else◌}

-- A byte of two decimal digits of four bits each.
abbrev pub bcd_decimal : ℕ → ℕ
bcd_decimal bcd = (bcd / 16 * 10 + bcd % 16) % 256

-- Bytes; the year has two digits.
pub record Time : Type 0 where
  pub seconds : ℕ
  pub minutes : ℕ
  pub hour : ℕ
  pub day : ℕ
  pub month : ℕ
  pub year : ℕ

-- The last day of a month, as the code has it.
abbrev pub last_day : ℕ → ℕ → ℕ
last_day month year =
    if month == 2
    then if year % 4 == 0 then 29 else 28
    else if month == 4 || (month == 6 || (month == 9 || month == 11))
    then 30
    else 31

abbrev pub month_back : Time → Time
month_back t =
    let m = (t.month + 255) % 256 in
    let moved =
      if m == 0
      then record t { month = 12; year = (t.year + 255) % 256 }
      else record t { month = m } in
    record moved { day = last_day moved.month moved.year }

-- The day before; day 0 stands for the last of the month before.
abbrev pub day_back : Time → Time
day_back t = let d = (t.day + 255) % 256 in if d == 0 then month_back t else record t { day = d }

unfoldable pub to_utc_minus3 : Time → Time
to_utc_minus3 t =
    if ltb t.hour 3
    then day_back (record t { hour = t.hour + 21 })
    else record t { hour = t.hour - 3 }
