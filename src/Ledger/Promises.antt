-- ===== src/Ledger/Promises.antt =====
-- src/recoup/ledger/clock.py: the days that a payer's promise can name: weekdays, as day numbers,
-- and days of the month, as calendar dates (`datetime.date`, `calendar.monthrange`).
use recoup_ai.Base.{
  leb, ltb, ◌||◌, Option, none, some, refl, ℕ, ◌+◌, ◌-◌, ◌*◌, ◌%◌, ◌≤◌, ◌<◌, ◌≡◌, ◌≢◌, Bool, true,
  false, not, ◌&&◌, arith, ◌==◌, if◌then◌else◌, ◌⊎◌, inl, inr,
}
use recoup_ai.Ledger.Clock.{day_weekday}

-- `(target - from_day.weekday()) % 7`, which Python takes to be at least 0, for a target below 7.
unfoldable pub weekday_delta : ℕ → ℕ → ℕ
weekday_delta from_day target = (target + 7 - day_weekday from_day) % 7

-- `_next_weekday`
unfoldable pub next_weekday : ℕ → ℕ → Bool → ℕ
unfolding weekday_delta
next_weekday from_day target allow_today =
    let delta = weekday_delta from_day target in
    from_day + (if (delta == 0) && not allow_today then 7 else delta)

-- The next weekday is the first day of that weekday after the given day, or from it on where
-- today counts: that day itself, if it is of that weekday. It is at most a week away.
pub next_weekday_lem :
    (from_day target : ℕ) (allow_today : Bool)
    → target < 7
    → (day_weekday (next_weekday from_day target allow_today) ≡ target)
      × (next_weekday from_day target allow_today ≤ from_day + 7)
      × (allow_today ≡ false → from_day < next_weekday from_day target allow_today)
      × (from_day ≤ next_weekday from_day target allow_today)
      × (allow_today ≡ true
          → day_weekday from_day ≡ target
          → next_weekday from_day target allow_today ≡ from_day)
      × ((day : ℕ)
          → from_day < day
          → day < next_weekday from_day target allow_today
          → day_weekday day ≢ target)
unfolding next_weekday weekday_delta
next_weekday_lem from_day target allow_today h = (
  ground arith,
  ground arith,
  λ e. ground arith,
  ground arith,
  λ e q. ground arith,
  λ day p q e. ground arith,
)

pub record CalendarDate : Type 0 where
  pub year : ℕ
  pub month : ℕ
  pub day : ℕ

unfoldable pub is_leap : ℕ → Bool
is_leap y = ((y % 4) == 0) && (not ((y % 100) == 0) || ((y % 400) == 0))

-- `monthrange(year, month)[1]`, for a month from 1 to 12
unfoldable pub days_in_month : ℕ → ℕ → ℕ
unfolding is_leap
days_in_month y m =
    if m == 2
    then (if is_leap y then 29 else 28)
    else if (m == 4) || ((m == 6) || ((m == 9) || (m == 11)))
    then 30
    else 31

pub record IsDate (d : CalendarDate) : Type 0 where
  pub month_from : 1 ≤ d.month
  pub month_to : d.month ≤ 12
  pub day_from : 1 ≤ d.day
  pub day_to : d.day ≤ days_in_month d.year d.month

unfoldable pub month_after : CalendarDate → CalendarDate
month_after d =
    if d.month == 12
    then record d { year = d.year + 1; month = 1 }
    else record d { month = d.month + 1 }

-- `_next_day_of_month`; `date.replace` raises for a day that the month lacks.
unfoldable pub next_day_of_month : CalendarDate → ℕ → Option CalendarDate
unfolding days_in_month month_after
next_day_of_month from_day n =
    if not (leb 1 n && leb n 31)
    then none
    else if ltb from_day.day n
    then (if leb n (days_in_month from_day.year from_day.month)
        then some (record from_day { day = n })
        else none)
    else if ltb (days_in_month (month_after from_day).year (month_after from_day).month) n
    then none
    else some (record (month_after from_day) { day = n })

-- `_end_of_month`
unfoldable pub end_of_month : CalendarDate → CalendarDate
end_of_month d = record d { day = days_in_month d.year d.month }

-- Days counted as if every month had 31, in which order dates stand.
abbrev pub date_index : CalendarDate → ℕ
date_index d = (d.year * 12 + d.month) * 31 + d.day

month_after_lem :
    (d : CalendarDate)
    → IsDate d
    → (1 ≤ (month_after d).month)
      × ((month_after d).month ≤ 12)
      × ((month_after d).year * 12 + (month_after d).month ≡ d.year * 12 + d.month + 1)
unfolding month_after
month_after_lem d h = ground (arith, h.month_from, h.month_to)

days_in_month_le : (y m : ℕ) → days_in_month y m ≤ 31
unfolding days_in_month
days_in_month_le y m = ground arith

-- The two ways in which a day of the month is reached: this month or the next.
reached :
    (d e : CalendarDate) (n : ℕ)
    → next_day_of_month d n ≡ some e
    → ((1 ≤ n) × (d.day < n) × (n ≤ days_in_month d.year d.month) × (e ≡ record d { day = n }))
      ⊎ ((1 ≤ n)
          × (n ≤ d.day)
          × (n ≤ days_in_month (month_after d).year (month_after d).month)
          × (e ≡ record (month_after d) { day = n }))
unfolding next_day_of_month
reached d e n q = ground (arith, q)

-- Read on a real date, a day of the month that can be a promise is a real date of that number, later
-- than the day it is read on and not beyond the next month.
pub next_day_of_month_lem :
    (d e : CalendarDate) (n : ℕ)
    → IsDate d
    → next_day_of_month d n ≡ some e
    → IsDate e
      × (e.day ≡ n)
      × (date_index d < date_index e)
      × (e.year * 12 + e.month ≤ d.year * 12 + d.month + 1)
next_day_of_month_lem d e n h q = elim (reached d e n q) [
  | inl (p, f, l, u) ↦ rw u (
    record { month_from = h.month_from; month_to = h.month_to; day_from = p; day_to = l },
    refl,
    omega (arith, f),
    omega arith,
  )
  | inr (p, f, l, u) ↦
      let (from, to, next) = month_after_lem d h in
      rw u (
        record { month_from = from; month_to = to; day_from = p; day_to = l },
        refl,
        omega (arith, p, next, h.day_to, days_in_month_le d.year d.month),
        omega (arith, next),
      )
]

-- Read on a real date, the end of the month is a real date, not before the day it is read on.
pub end_of_month_lem :
    (d : CalendarDate)
    → IsDate d
    → IsDate (end_of_month d) × (date_index d ≤ date_index (end_of_month d))
unfolding end_of_month
end_of_month_lem d h = (
  record {
    month_from = h.month_from;
    month_to = h.month_to;
    day_from = omega (arith, h.day_from, h.day_to);
    day_to = omega arith;
  },
  omega (arith, h.day_to),
)
