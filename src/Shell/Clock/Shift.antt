-- ===== src/Shell/Clock/Shift.antt =====
-- shellFunctions.c: the shifted time against the calendar.
use g21_tp2_so_1c.Base.{
  ℕ, ◌+◌, ◌-◌, ◌%◌, ◌≤◌, ◌<◌, ltb, ◌==◌, if◌then◌else◌, ◌≡◌, arith, dec_lt, ◌⊎◌, refl, subst, sym,
}
use g21_tp2_so_1c.Shell.Clock.{Time, to_utc_minus3, last_day}

-- The days of a month from 1 to 12, by the calendar of the years 2000 to 2099.
abbrev pub days_of : ℕ → ℕ → ℕ
days_of month year =
    if month == 2
    then if year % 4 == 0 then 29 else 28
    else if ltb month 8
    then if month % 2 == 1 then 31 else 30
    else if month % 2 == 0
    then 31
    else 30

pub record IsDate (t : Time) : Type 0 where
  pub hours : t.hour < 24
  pub months : (1 ≤ t.month) × (t.month ≤ 12)
  pub days : (1 ≤ t.day) × (t.day ≤ days_of t.month t.year)
  pub years : t.year < 100

abbrev next_day : Time → Time
next_day t =
    if t.day == days_of t.month t.year
    then if t.month == 12
      then record t { day = 1; month = 1; year = t.year + 1 }
      else record t { day = 1; month = t.month + 1 }
    else record t { day = t.day + 1 }

-- Three hours later.
abbrev pub three_later : Time → Time
three_later t =
    if ltb t.hour 21
    then record t { hour = t.hour + 3 }
    else next_day (record t { hour = t.hour - 21 })

-- A byte that is counted down.
byte_back : (n : ℕ) → 1 ≤ n → n ≤ 31 → (n + 255) % 256 ≡ n - 1
byte_back n lo hi = omega arith

days-le : (t : Time) → IsDate t → t.day ≤ 31
days-le t v = ground arith

-- The shift of a date, where no byte wraps but the year.
abbrev month_before : Time → Time
month_before t =
    let m = t.month - 1 in
    let moved =
      if m == 0
      then record t { month = 12; year = (t.year + 255) % 256 }
      else record t { month = m } in
    record moved { day = last_day moved.month moved.year }

abbrev day_before : Time → Time
day_before t = if t.day - 1 == 0 then month_before t else record t { day = t.day - 1 }

abbrev earlier : Time → Time
earlier t =
    if ltb t.hour 3
    then day_before (record t { hour = t.hour + 21 })
    else record t { hour = t.hour - 3 }

to_utc_minus3-earlier : (t : Time) → IsDate t → to_utc_minus3 t ≡ earlier t
unfolding to_utc_minus3
to_utc_minus3-earlier t v =
    rw
      (
        byte_back t.day v.days.0 (days-le t v),
        byte_back t.month v.months.0 (omega (arith, v.months)),
      )
      refl

earlier-IsDate :
    (t : Time)
    → IsDate t
    → (0 < t.year) ⊎ ((1 < t.month) ⊎ ((1 < t.day) ⊎ (3 ≤ t.hour)))
    → IsDate (earlier t) × (three_later (earlier t) ≡ t)
earlier-IsDate t v n = elim (dec_lt t.hour 3) [
  | no late ↦ ground arith
  | yes early ↦ elim (dec_lt 1 t.day) [
    | yes later ↦ ground arith
    | no first ↦ elim (dec_lt 1 t.month) [ yes within ↦ ground arith | no start ↦ ground arith ]
  ]
]

-- The shifted time of a date is a date, and three hours before it, unless the first three hours of the
-- year 2000 are shifted.
pub three_later-to_utc_minus3 :
    (t : Time)
    → IsDate t
    → (0 < t.year) ⊎ ((1 < t.month) ⊎ ((1 < t.day) ⊎ (3 ≤ t.hour)))
    → IsDate (to_utc_minus3 t) × (three_later (to_utc_minus3 t) ≡ t)
three_later-to_utc_minus3 t v n =
    subst (λ (u : Time). IsDate u × (three_later u ≡ t)) (sym (to_utc_minus3-earlier t v))
      (earlier-IsDate t v n)
