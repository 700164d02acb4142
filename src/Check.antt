-- ===== src/Check.antt =====
-- `Check` of model/alertrule.go. `points` holds one row for each tick, and a row one bit for each
-- rule: did the server pass it. An index out of range and a division by zero are panics.
pub mod Verdict
use Prim.Native.Nat.{max}
use mathlib.Core.List.{reverse, foldr}
use nezha_diff.Base.{
  ℕ, zero, suc, ◌+◌, ◌-◌, ◌*◌, ◌/◌, ◌^◌, Bool, true, false, ◌||◌, Option, none, some, List, [], ◌∷◌,
  leb, ltb, nat_beq, if◌then◌else◌, length, drop, get_elem?,
}
use nezha_diff.Outcome.{Outcome, ok, panic, ◌>>=◌}
use nezha_diff.Rule.{Rule, AlertRule, is_transfer_duration_rule, is_offline_rule}

abbrev pub Points : Type 0
Points = List (List Bool)

abbrev pub index {ℓ} : {A : Type ℓ} → List A → ℕ → Outcome A
index xs i = elim (get_elem? xs i) [ none ↦ panic | some x ↦ ok x ]

-- int(rule.Duration) is negative from 2 ^ 63 on.
abbrev pub is_negative : ℕ → Bool
is_negative duration = leb (2 ^ 63) duration

unfoldable pub bound_check : ℕ → ℕ → Bool → Bool
bound_check len duration passed =
    if passed then true else if is_negative duration then false else ltb len duration

-- The row of the last tick, if there is one.
unfoldable pub last_row : Points → Option (List Bool)
last_row [] = none
last_row (row ∷ []) = some row
last_row (row ∷ row' ∷ rows) = last_row (row' ∷ rows)

-- len(points) > 0 && points[len(points)-1][ruleIndex]
unfoldable pub check_cycle : Points → ℕ → Outcome Bool
check_cycle points i = elim (last_row points) [ none ↦ ok false | some row ↦ index row i ]

-- The backward loop of an offline rule: the number of ticks read, and whether one was passed.
unfoldable pub scan_offline : Points → ℕ → ℕ → Outcome (ℕ × Bool)
scan_offline [] i fail = ok (fail, false)
scan_offline (row ∷ rows) i fail = do
  passed ← index row i
  let rest = scan_offline rows i (fail + 1)
  if passed then ok (fail + 1, true) else rest

unfoldable pub count_fails : Points → ℕ → ℕ → Outcome ℕ
count_fails [] i fail = ok fail
count_fails (row ∷ rows) i fail = do
  passed ← index row i
  count_fails rows i (if passed then fail else fail + 1)

-- The last 70 % test of a regular rule over `total` ticks.
unfoldable pub judge_regular : ℕ → ℕ → Outcome (ℕ × Bool)
judge_regular total fail =
    if nat_beq total 0 then panic else ok (total, leb (fail * 100 / total) 70)

unfoldable pub slices_max : List ℕ → Outcome ℕ
slices_max [] = panic
slices_max (d ∷ ds) = ok (foldr max d ds)

-- One turn of the loop over the rules: durations[ruleIndex], and the new hasPassedRule.
module _ {F : Type 0} where
  -- With a negative duration the loop of a regular rule starts behind the last tick, unless the
  -- start wraps around to a negative index.
  unfoldable pub check_rule : Rule F → ℕ → Points → Bool → Outcome (ℕ × Bool)
  check_rule rule i points passed =
      if is_transfer_duration_rule rule
      then (if passed then ok (1, true) else (do last ← check_cycle points i; ok (1, last)))
      else if bound_check (length points) rule.duration passed
      then ok (0, true)
      else if is_offline_rule rule
      then (if is_negative rule.duration
          then panic
          else scan_offline (reverse (drop (length points - rule.duration) points)) i 0)
      else if is_negative rule.duration
      then (if leb rule.duration (2 ^ 63 + length points) then panic else ok (0, true))
      else (do
        fail ← count_fails (drop (length points - rule.duration) points) i 0
        judge_regular rule.duration fail)

  unfoldable pub check_rules : List (Rule F) → ℕ → Points → Bool → Outcome (List ℕ × Bool)
  check_rules [] i points passed = ok ([], passed)
  check_rules (rule ∷ rules) i points passed = do
    r ← check_rule rule i points passed
    rest ← check_rules rules (suc i) points r.1
    ok (r.0 ∷ rest.0, rest.1)

  -- slices.Max panics on an empty slice.
  unfoldable pub check : AlertRule F → Points → Outcome (ℕ × Bool)
  check r points = do
    result ← check_rules r.rules 0 points false
    longest ← slices_max result.0
    ok (longest, result.1)
