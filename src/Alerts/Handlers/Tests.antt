-- ===== src/Alerts/Handlers/Tests.antt =====
-- A form with a rule on the load and a daily cycle, served by both handlers.
use nezha_diff.Base.{ℕ, ◌≡◌, refl, none, some, true, false, [], ◌∷◌, nat_eq, arith}
use nezha_diff.Samples.{whole}
use nezha_diff.GoMap.{GoMap, lookup}
use nezha_diff.Common.{has_permission, check_permission}
use nezha_diff.ServerClass.{Server}
use nezha_diff.ServerClass.Tests.{web}
use nezha_diff.Crons.Tests.{owner}
use nezha_diff.Rule.{is_transfer_duration_rule}
use nezha_diff.Rule.Tests.{cal, daily}
use nezha_diff.AlertCell.Tests.{load_rule, load_alert}
use nezha_diff.Alerts.{Alerts}
use nezha_diff.Alerts.Handlers.{
  AlertRuleForm, short_duration, fill_alert, zero_alert, validate_window, validate_rules,
  validate_rule, create_alert_rule, update_alert_rule,
}
use nezha_diff.Alerts.Handlers.Accepted.{IsServed, handlers-IsServed}

abbrev form : AlertRuleForm ℕ
form = record {
  name = "traffic";
  rules = load_rule 3 ∷ record daily { ignore = (3, true) ∷ [] } ∷ [];
  fail_trigger_tasks = [];
  recover_trigger_tasks = [];
  notification_group_id = 2;
  trigger_mode = 1;
  enable = true;
}

abbrev servers : GoMap ℕ (Server ℕ)
servers = (3, record web { user_id = 1 }) ∷ []

abbrev before : Alerts ℕ
before = record {
  alerts = load_alert (load_rule 3 ∷ []) ∷ [];
  stores = record { store = (4, []) ∷ []; prev_state = (4, []) ∷ []; cycle_stats = [] };
}

form_is_valid : validate_rule owner servers 9 (fill_alert form (load_alert [])) ≡ none
unfolding validate_rule validate_rules validate_window fill_alert check_permission has_permission
    lookup is_transfer_duration_rule nezha_diff.Text.has_suffix
form_is_valid = refl

two_ticks_are_too_few : validate_window {F = ℕ} 9 (load_rule 2) ≡ some short_duration
unfolding validate_window is_transfer_duration_rule nezha_diff.Text.has_suffix
two_ticks_are_too_few = refl

handlers-IsServed_example :
    IsServed
      (create_alert_rule owner servers cal 9 12 form (some 5) before)
      (record (fill_alert form (record zero_alert { user_id = 1 })) { id = 5 })
      before
      ((true ∷ false ∷ []) ∷ [])
    × IsServed
        (update_alert_rule owner servers cal 9 12 form (some (load_alert [])) true before)
        (fill_alert form (load_alert []))
        before
        ((true ∷ false ∷ []) ∷ [])
unfolding has_permission
handlers-IsServed_example =
    handlers-IsServed owner servers cal 9 12 5 form (load_alert []) before
      ((true ∷ false ∷ []) ∷ []) (λ t y m d near p q. omega (arith, p)) (omega arith) (omega arith)
      form_is_valid refl ((omega arith, omega arith), ((omega arith, omega arith), tt)) (refl, tt)
