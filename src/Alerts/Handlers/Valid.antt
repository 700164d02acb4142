-- ===== src/Alerts/Handlers/Valid.antt =====
-- The rules that validateRule of cmd/dashboard/controller/alertrule.go accepts, and their cycles.
use nezha_diff.Base.{
  ℕ, suc, ◌+◌, ◌-◌, ◌≤◌, refl, ◌<◌, ◌*◌, ◌/◌, ◌^◌, ◌≡◌, ap, String, ◌⊎◌, true, false, none, some,
  List, [], ◌∷◌, arith, nat_eq, ◌==◌, string_eq, length, All, Option-cases, Bool-cases, inl, inr,
}
use nezha_diff.Outcome.{ok}
use nezha_diff.GoMap.{GoMap, keys}
use nezha_diff.Common.{User, check_permission}
use nezha_diff.ServerClass.{Server, server_common}
use nezha_diff.Rule.{Rule, AlertRule, is_transfer_duration_rule}
use nezha_diff.Rule.Cycle.{Calendar, calendar_step, transfer_duration, hour_cycle, int_of, second}
use nezha_diff.Int.{pos}
use nezha_diff.Rule.Cycles.{transfer_duration_until, int_of-small, int_of-positive}
use nezha_diff.Rule.Snapshot.{ended}
use nezha_diff.Check.Verdict.{HasWindow}
use nezha_diff.Alerts.Handlers.{validate_window, validate_rules, validate_rule, alert_common}

-- The times up to here, more than ten thousand million years, are far from the end of Go's times.
abbrev pub far : ℕ
far = 2 ^ 59 * second

-- AddDate with at least one year, month or day, and fewer than 2 ^ 35, leads to a later time.
abbrev pub IsForward : Calendar → Type 0
IsForward cal =
    (t years months days : ℕ)
    → t < far
    → 0 < years + months + days
    → years + months + days < 2 ^ 35
    → t < cal.add_date t (pos years) (pos months) (pos days)

hour_cycle_total :
    (k first now : ℕ) → (cycle : ℕ × ℕ) × (ended (hour_cycle (pos (suc k)) first now) ≡ ok cycle)
unfolding hour_cycle
hour_cycle_total k first now = (_, refl)

module _ {F : Type 0} where
  -- What the validation at a time leaves of a rule: a window, and for a cycle an interval and a start
  -- that is not in the future.
  abbrev pub IsValid : ℕ → Rule F → Type 0
  IsValid now u =
      ((is_transfer_duration_rule u ≡ false) × (2 < u.duration))
      ⊎ ((is_transfer_duration_rule u ≡ true)
          × (0 < u.cycle_interval)
          × ((first : ℕ) × (u.cycle_start ≡ some first) × (first ≤ now)))

  -- The numbers of a rule do not overflow.
  abbrev pub Fits : Rule F → Type 0
  Fits u = (u.duration < 2 ^ 63) × (u.cycle_interval < 2 ^ 32)

  validate_window-IsValid : (now : ℕ) (u : Rule F) → validate_window now u ≡ none → IsValid now u
  unfolding validate_window
  validate_window-IsValid now u h = elim (Bool-cases (is_transfer_duration_rule u)) [
    | inl t ↦ elim (Option-cases u.cycle_start) [
      | inl e ↦ absurd (ground (arith, h, t, e))
      | inr (first, e) ↦ inr (t, ground (arith, h, t, e), (first, e, ground (arith, h, t, e)))
    ]
    | inr f ↦ inl (f, ground (arith, h, f))
  ]

  validate_rules-IsValid :
      (auth : User) (servers : GoMap ℕ (Server F)) (now : ℕ) (rules : List (Rule F))
      → validate_rules auth servers now rules ≡ none
      → All (IsValid now) rules
  unfolding validate_rules
  validate_rules-IsValid auth servers now [] h = tt
  validate_rules-IsValid auth servers now (u ∷ us) h =
      elim (Bool-cases (check_permission (some auth) (keys u.ignore) servers)) [
        | inl t ↦ elim (Option-cases (validate_window now u)) [
          | inl e ↦ (
            validate_window-IsValid now u e,
            validate_rules-IsValid auth servers now us (ground (arith, h, t, e)),
          )
          | inr (x, e) ↦ absurd (ground (arith, h, t, e))
        ]
        | inr f ↦ absurd (ground (arith, h, f))
      ]

  pub validate_rule-IsValid :
      (auth : User) (servers : GoMap ℕ (Server F)) (now : ℕ) (rules : List (Rule F))
      (r : AlertRule F)
      → r.rules ≡ rules
      → validate_rule auth servers now r ≡ none
      → (0 < length rules) × All (IsValid now) rules
  unfolding validate_rule
  validate_rule-IsValid auth servers now [] r e h = absurd (ground (arith, h, e))
  validate_rule-IsValid auth servers now (u ∷ us) r e h =
      (omega arith, validate_rules-IsValid auth servers now (u ∷ us) (ground (arith, h, e)))

  pub IsValid-HasWindow :
      (now : ℕ) (rules : List (Rule F))
      → All Fits rules
      → All (IsValid now) rules
      → All HasWindow rules
  IsValid-HasWindow now [] fits h = tt
  IsValid-HasWindow now (u ∷ us) fits h = (
    elim h.0 [ inl v ↦ (fits.0.0, inr (inr (omega (arith, v.1)))) | inr v ↦ (fits.0.0, inl v.0) ],
    IsValid-HasWindow now us fits.1 h.1,
  )

  -- The step of the calendar leads to a later time.
  abbrev Steps : Calendar → Rule F → Type 0
  Steps cal u =
      (next_of : ℕ → ℕ) × (calendar_step cal u ≡ some next_of) × ((t : ℕ) → t < far → t < next_of t)

  calendar_step-cases :
      (cal : Calendar) (u : Rule F)
      → IsForward cal
      → 0 < u.cycle_interval
      → u.cycle_interval < 2 ^ 32
      → (calendar_step cal u ≡ none) ⊎ Steps cal u
  unfolding calendar_step
  calendar_step-cases cal u ahead some_units few =
      let unit : String = cal.to_lower u.cycle_unit in
      let n : ℕ = u.cycle_interval in
      let one : int_of n ≡ pos n = int_of-small n (omega (arith, few)) in
      let seven : int_of (7 * n) ≡ pos (7 * n) = int_of-small (7 * n) (omega (arith, few)) in
      elim (Bool-cases (unit == "year")) [
        | inl y ↦ inr (
          λ t. cal.add_date t (pos n) (pos 0) (pos 0),
          rw (y, one),
          λ t near. ahead t n 0 0 near (omega (arith, some_units)) (omega (arith, few)),
        )
        | inr y ↦ elim (Bool-cases (unit == "month")) [
          | inl m ↦ inr (
            λ t. cal.add_date t (pos 0) (pos n) (pos 0),
            rw (y, m, one),
            λ t near. ahead t 0 n 0 near (omega (arith, some_units)) (omega (arith, few)),
          )
          | inr m ↦ elim (Bool-cases (unit == "week")) [
            | inl w ↦ inr (
              λ t. cal.add_date t (pos 0) (pos 0) (pos (7 * n)),
              rw (y, m, w, seven),
              λ t near. ahead t 0 0 (7 * n) near (omega (arith, some_units)) (omega (arith, few)),
            )
            | inr w ↦ elim (Bool-cases (unit == "day")) [
              | inl d ↦ inr (
                λ t. cal.add_date t (pos 0) (pos 0) (pos n),
                rw (y, m, w, d, one),
                λ t near. ahead t 0 0 n near (omega (arith, some_units)) (omega (arith, few)),
              )
              | inr d ↦ inl (rw (y, m, w, d))
            ]
          ]
        ]
      ]

  transfer_duration_hours_total :
      (cal : Calendar) (u : Rule F) (now first : ℕ)
      → u.cycle_start ≡ some first
      → calendar_step cal u ≡ none
      → 0 < u.cycle_interval
      → u.cycle_interval < 2 ^ 32
      → (cycle : ℕ × ℕ) × (ended (transfer_duration cal u now) ≡ ok cycle)
  unfolding transfer_duration
  transfer_duration_hours_total cal u now first e s p few =
      let k : ℕ = 3600 * u.cycle_interval - 1 in
      let int =
        int_of-positive (3600 * u.cycle_interval) k (omega (arith, p)) (omega (arith, few)) in
      let (cycle, c) = hour_cycle_total k (first / second) (now / second) in
      (cycle, ground (arith, e, s, int, c))

  -- The cycle of a valid rule is found.
  pub transfer_duration_total :
      (cal : Calendar) (u : Rule F) (now first : ℕ)
      → IsForward cal
      → now < far
      → u.cycle_start ≡ some first
      → first ≤ now
      → 0 < u.cycle_interval
      → u.cycle_interval < 2 ^ 32
      → (cycle : ℕ × ℕ) × (ended (transfer_duration cal u now) ≡ ok cycle)
  transfer_duration_total cal u now first ahead near e past p few =
      elim (calendar_step-cases cal u ahead p few) [
        | inl s ↦ transfer_duration_hours_total cal u now first e s p few
        | inr (next_of, s, up) ↦
            let (a, q) =
              transfer_duration_until cal u now first next_of e s past
                (λ t h. up t (omega (arith, near, h))) in
            ((a, next_of a), ap ended q)
      ]
