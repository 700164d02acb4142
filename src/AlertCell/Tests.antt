-- ===== src/AlertCell/Tests.antt =====
-- Alerts on load with a short and a long window: the theorems about `Check` and `checkStatus` at
-- these alerts, with ℕ for float64.
use nezha_diff.Base.{
  if◌then◌else◌, ◌++◌, ℕ, ◌+◌, ◌≡◌, ◌≢◌, refl, true, false, inr, none, some, List, [], ◌∷◌, arith,
  if◌then◌else◌,
}
use nezha_diff.Outcome.{ok}
use nezha_diff.Text.{has_suffix}
use nezha_diff.Rule.{Rule, AlertRule, is_transfer_duration_rule, is_offline_rule}
use nezha_diff.Check.{check}
use nezha_diff.Check.Verdict.{any_passes, check_lem, window, rule_passes}
use nezha_diff.AlertCell.{Effect, Cell, rule_check_fail, rule_check_pass, run, fresh}
use nezha_diff.AlertCell.Alternation.{incidents, recoveries, run_alternates}
use nezha_diff.AlertCell.Starved.{IsRegular, run_starved}
use nezha_diff.AlertCell.Single.{run_single}

abbrev pub load_rule : ℕ → Rule ℕ
load_rule ticks = record {
  type = "load1";
  min = 0;
  max = 8;
  cycle_start = none;
  cycle_interval = 0;
  cycle_unit = "";
  duration = ticks;
  cover = 0;
  ignore = [];
  next_transfer_at = [];
  last_cycle_status = [];
}

abbrev pub load_alert : List (Rule ℕ) → AlertRule ℕ
load_alert rules = record {
  id = 4;
  user_id = 1;
  name = "load";
  enable = some true;
  trigger_mode = 1;
  notification_group_id = 9;
  rules = rules;
  fail_trigger_tasks = 11 ∷ [];
  recover_trigger_tasks = 12 ∷ [];
}

load_rule-IsRegular : IsRegular (load_rule 3) × IsRegular (load_rule 10)
unfolding is_transfer_duration_rule is_offline_rule has_suffix
load_rule-IsRegular = (
  record { no_cycle = refl; no_offline = refl; some_tick = omega arith; fits = omega arith },
  record { no_cycle = refl; no_offline = refl; some_tick = omega arith; fits = omega arith },
)

check_lem_example :
    (longest : ℕ) × (check (load_alert (load_rule 3 ∷ [])) ((false ∷ []) ∷ [])
      ≡ ok (longest, any_passes (load_rule 3 ∷ []) 0 ((false ∷ []) ∷ [])))
check_lem_example =
    check_lem (load_alert (load_rule 3 ∷ [])) ((false ∷ []) ∷ []) (omega arith)
      ((omega arith, inr (inr (omega arith))), tt) (refl, tt)

run_alternates_example :
    (before : Cell) × (cell : Cell) × (sent : List Effect) × (effects : List Effect) × (run
        (load_alert (load_rule 1 ∷ []))
        5
        ((false ∷ []) ∷ [])
        fresh
      ≡ ok (before, sent))
    × (run (load_alert (load_rule 1 ∷ [])) 5 ((false ∷ []) ∷ (true ∷ []) ∷ []) fresh
        ≡ ok (cell, effects))
    × (incidents effects
        ≡ recoveries effects
          + (if any_passes (load_rule 1 ∷ []) 0 (before.store ++ (true ∷ []) ∷ []) then 0 else 1))
run_alternates_example =
    run_alternates (load_alert (load_rule 1 ∷ [])) 5
      (record { some_rule = omega arith; windows = ((omega arith, inr (inr (omega arith))), tt) })
      ((false ∷ []) ∷ []) (true ∷ []) (omega arith) (refl, tt) refl

run_starved_example :
    (cell : Cell) × (run
        (load_alert (load_rule 3 ∷ load_rule 10 ∷ []))
        5
        ((false ∷ false ∷ []) ∷ (false ∷ false ∷ []) ∷ [])
        fresh
      ≡ ok (cell, []))
    × (cell.prev_state ≢ rule_check_fail)
run_starved_example =
    run_starved (load_alert (load_rule 3 ∷ load_rule 10 ∷ [])) 5 (load_rule 3) (load_rule 10) refl
      load_rule-IsRegular.0 load_rule-IsRegular.1 (omega arith)
      ((false ∷ false ∷ []) ∷ (false ∷ false ∷ []) ∷ []) (refl, (refl, tt))

run_single_example :
    (effects : List Effect) × (run
        (load_alert (load_rule 3 ∷ []))
        5
        ((false ∷ []) ∷ (true ∷ []) ∷ [])
        fresh
      ≡ ok (
        record {
          store = window 3 ((false ∷ []) ∷ (true ∷ []) ∷ []);
          prev_state =
              if rule_passes (load_rule 3) 0 ((false ∷ []) ∷ (true ∷ []) ∷ [])
              then rule_check_pass
              else rule_check_fail;
        },
        effects,
      ))
run_single_example =
    run_single (load_alert (load_rule 3 ∷ [])) 5 (load_rule 3) refl load_rule-IsRegular.0
      ((false ∷ []) ∷ []) (true ∷ []) (refl, tt) refl
