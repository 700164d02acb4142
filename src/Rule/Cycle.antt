-- ===== src/Rule/Cycle.antt =====
-- GetTransferDurationStart and GetTransferDurationEnd of model/rule.go. Go's calendar and
-- strings.ToLower are parameters; `now` is what time.Now() returns. A time before Go's zero time, which
-- a negative or overflowing interval may lead to, reads as the zero time.
use nezha_diff.Base.{
  ℕ, zero, suc, ◌+◌, ◌-◌, ◌*◌, ◌/◌, ◌%◌, ◌^◌, Option, none, some, String, string_eq, ◌==◌,
  if◌then◌else◌, ltb,
}
use nezha_diff.Outcome.{Outcome, ok, panic}
use nezha_diff.Int.{ℤ, pos, negsuc}
use nezha_diff.Rule.{Rule}

pub record Calendar : Type 0 where
  pub add_date : ℕ → ℤ → ℤ → ℤ → ℕ
  pub to_lower : String → String

abbrev pub second : ℕ
second = 10 ^ 9

-- The int64 with the last 64 bits of a number: int(x), and a product that wraps around.
unfoldable pub int_of : ℕ → ℤ
int_of n = let m = n % 2 ^ 64 in if ltb m (2 ^ 63) then pos m else negsuc (2 ^ 64 - 1 - m)

-- for time.Now().After(nextTime); `none` stands for a loop that is still running after `fuel` turns.
unfoldable pub advance : (ℕ → ℕ) → ℕ → ℕ → ℕ → ℕ → Option (ℕ × ℕ)
advance next_of now zero start_time next_time = none
advance next_of now (suc fuel) start_time next_time =
    let rest = advance next_of now fuel next_time (next_of next_time) in
    if ltb next_time now then rest else some (start_time, next_time)

-- The start in seconds: a quotient that is rounded towards zero, also before the first cycle.
unfoldable pub hour_start : ℕ → ℕ → ℕ → ℕ
hour_start interval first now =
    if ltb now first
    then first - (first - now) / interval * interval
    else first + (now - first) / interval * interval

-- The start and the end for an interval in seconds. A negative interval has the start of its absolute
-- value, since both the quotient and the product change their signs.
unfoldable pub hour_cycle : ℤ → ℕ → ℕ → Outcome (Option (ℕ × ℕ))
hour_cycle (pos zero) first now = panic
hour_cycle (pos (suc k)) first now =
    let start = hour_start (suc k) first now in
    ok (
      some (start * second, (if ltb (start + suc k) (2 ^ 63) then (start + suc k) * second else 0)))
hour_cycle (negsuc k) first now =
    let start = hour_start (suc k) first now in ok (some (start * second, (start - suc k) * second))

module _ {F : Type 0} where
  -- The step of a unit of the calendar; hours have none.
  unfoldable pub calendar_step : Calendar → Rule F → Option (ℕ → ℕ)
  calendar_step cal u =
      let unit = cal.to_lower u.cycle_unit in
      if unit == "year"
      then some (λ t. cal.add_date t (int_of u.cycle_interval) (pos 0) (pos 0))
      else if unit == "month"
      then some (λ t. cal.add_date t (pos 0) (int_of u.cycle_interval) (pos 0))
      else if unit == "week"
      then some (λ t. cal.add_date t (pos 0) (pos 0) (int_of (7 * u.cycle_interval)))
      else if unit == "day"
      then some (λ t. cal.add_date t (pos 0) (pos 0) (int_of u.cycle_interval))
      else none

  -- The start and the end of the cycle that `now` lies in; the loops of the two functions are alike.
  unfoldable pub transfer_duration : Calendar → Rule F → ℕ → Outcome (Option (ℕ × ℕ))
  transfer_duration cal u now = elim u.cycle_start [
    | none ↦ panic
    | some first ↦ elim (calendar_step cal u) [
      | some next_of ↦ ok (advance next_of now (suc now) first (next_of first))
      | none ↦ hour_cycle (int_of (3600 * u.cycle_interval)) (first / second) (now / second)
    ]
  ]
