-- ===== src/Ledger/Clock.antt =====
-- src/recoup/ledger/clock.py: virtual time. A virtual date is a day number (`date.toordinal`).
use recoup_ai.Base.Errors.{Error, Result, ok, ◌>>◌, raise_if}
use recoup_ai.Base.{refl, false, ltb, ◌<◌, ℕ, ◌+◌, ◌-◌, ◌*◌, ◌/◌, ◌%◌, ◌≤◌, ◌≡◌, Bool, arith, leb}

abbrev pub hours_per_tick : ℕ
hours_per_tick = 6

abbrev pub ticks_per_day : ℕ
ticks_per_day = 24 / hours_per_tick

abbrev pub epoch_hour : ℕ
epoch_hour = 8

abbrev pub default_horizon : ℕ
default_horizon = 112

-- `VIRTUAL_EPOCH`: 6 April 2026, as its day number.
abbrev pub virtual_epoch : ℕ
virtual_epoch = 739712

abbrev pub hours_since_epoch : ℕ → ℕ
hours_since_epoch tick = epoch_hour + hours_per_tick * tick

unfoldable pub virtual_date : ℕ → ℕ
virtual_date tick = virtual_epoch + hours_since_epoch tick / 24

-- `date.max.toordinal()`, the last day of year 9999.
abbrev pub last_date : ℕ
last_date = 3652059

-- `virtual_date`, where the sum may be no date; `virtual_date` above is for a tick whose date exists.
unfoldable pub date_of : ℕ → Result ℕ
unfolding virtual_date
date_of tick = do
  raise_if (ltb last_date (virtual_date tick)) Error.overflow_error
  ok (virtual_date tick)

pub date_of_lem :
    (tick horizon : ℕ)
    → tick < horizon
    → virtual_date horizon ≤ last_date
    → date_of tick ≡ ok (virtual_date tick)
unfolding date_of virtual_date
date_of_lem tick horizon h d =
    let none_raised : ltb last_date (virtual_date tick) ≡ false = ground (arith, h, d) in
    rw none_raised refl

unfoldable pub hour_of_day : ℕ → ℕ
hour_of_day tick = hours_since_epoch tick % 24

-- `date.weekday`: Monday is 0, and day number 1 is a Monday.
abbrev pub day_weekday : ℕ → ℕ
day_weekday day = (day + 6) % 7

unfoldable pub weekday : ℕ → ℕ
unfolding virtual_date
weekday tick = day_weekday (virtual_date tick)

-- `max(0, 4 * offset - 1)`, for a date on or after the epoch: ℕ stops at 0 as `max` does.
unfoldable pub first_tick_on : ℕ → ℕ
first_tick_on day = ticks_per_day * (day - virtual_epoch) - 1

-- For a date on or after the epoch, as every caller's is.
unfoldable pub last_tick_on : ℕ → ℕ
last_tick_on day = ticks_per_day * (day - virtual_epoch) + 2

unfoldable pub ticks_for_days : ℕ → ℕ
ticks_for_days days = days * ticks_per_day

-- The dataclass `VirtualClock`.
pub record VirtualClock : Type 0 where
  pub tick : ℕ
  pub horizon : ℕ

abbrev pub clock_exhausted : VirtualClock → Bool
clock_exhausted c = leb c.horizon c.tick

abbrev pub advance : VirtualClock → VirtualClock
advance c = record c { tick = c.tick + 1 }

-- The ticks that fall on a day on or after the epoch are exactly those from its first to its
-- last; the first day has no tick at 02:00.
pub tick_on_day :
    (tick day : ℕ)
    → virtual_epoch ≤ day
    → (virtual_date tick ≡ day → (first_tick_on day ≤ tick) × (tick ≤ last_tick_on day))
      × ((first_tick_on day ≤ tick) → (tick ≤ last_tick_on day) → virtual_date tick ≡ day)
unfolding virtual_date first_tick_on last_tick_on
tick_on_day tick day h = (λ e. omega arith, λ p q. omega arith)

-- Every tick falls at 02:00, 08:00, 14:00 or 20:00, as its position in the day says.
pub hour_of_day-tick : (tick : ℕ) → hour_of_day tick ≡ (8 + 6 * (tick % 4)) % 24
unfolding hour_of_day
hour_of_day-tick tick = omega arith
