-- ===== src/Tests/Calendar.antt =====
-- Promised days read in April 2026.
use recoup_ai.Base.{true, ℕ, ◌+◌, ◌≤◌, ◌<◌, ◌≡◌, ◌≢◌, refl, false, some, arith}
use recoup_ai.Ledger.Clock.{day_weekday}
use recoup_ai.Ledger.Promises.{
  CalendarDate, IsDate, days_in_month, next_weekday, next_weekday_lem, next_day_of_month,
  month_after,
}

-- From a Monday to the coming Friday.
next_weekday_lem_example :
    (day_weekday (next_weekday 739712 4 false) ≡ 4)
    × (next_weekday 739712 4 false ≤ 739712 + 7)
    × (false ≡ false → 739712 < next_weekday 739712 4 false)
    × (739712 ≤ next_weekday 739712 4 false)
    × (false ≡ true → day_weekday 739712 ≡ 4 → next_weekday 739712 4 false ≡ 739712)
    × ((day : ℕ) → 739712 < day → day < next_weekday 739712 4 false → day_weekday day ≢ 4)
next_weekday_lem_example = next_weekday_lem 739712 4 false (omega arith)

abbrev april_20 : CalendarDate
april_20 = record { year = 2026; month = 4; day = 20 }

abbrev may_5 : CalendarDate
may_5 = record { year = 2026; month = 5; day = 5 }

april_20-IsDate : IsDate april_20
unfolding days_in_month
april_20-IsDate = record {
  month_from = omega arith;
  month_to = omega arith;
  day_from = omega arith;
  day_to = omega arith;
}

the_fifth : next_day_of_month april_20 5 ≡ some may_5
unfolding next_day_of_month month_after days_in_month
the_fifth = refl
