-- ===== src/Alerts/Handlers.antt =====
-- The handlers of cmd/dashboard/controller/alertrule.go. Of the context they take the user; the rows
-- that the database finds, the number that `DB.Create` gives and the success of `DB.Save` and
-- `DB.Delete` are arguments. `now` is the time of the validation, `later` that of the refresh. A
-- reply of `none` is an error. No entry of the form's list of rules is null.
mod Valid
pub mod Accepted
mod Tests
use nezha_diff.Base.{
  ℕ, Bool, true, false, not, Option, none, some, String, List, [], ◌∷◌, nat_eq, ltb, if◌then◌else◌,
}
use nezha_diff.Outcome.{Outcome, ok, ◌>>=◌}
use nezha_diff.GoMap.{GoMap, keys}
use nezha_diff.Float64.{Float64}
use nezha_diff.Common.{User, CommonInterface, has_permission, check_permission}
use nezha_diff.ServerClass.{Server, server_common}
use nezha_diff.Crons.Handlers.{get_uid}
use nezha_diff.Rule.{Rule, AlertRule, is_transfer_duration_rule}
use nezha_diff.Rule.Cycle.{Calendar}
use nezha_diff.Alerts.{Alerts, on_refresh_or_add_alert, on_delete_alert}

pub record AlertRuleForm (F : Type 0) : Type 0 where
  pub name : String
  pub rules : List (Rule F)
  pub fail_trigger_tasks : List ℕ
  pub recover_trigger_tasks : List ℕ
  pub notification_group_id : ℕ
  pub trigger_mode : ℕ
  pub enable : Bool

pub data RuleError : Type 0 where
  permission_denied : RuleError
  short_duration : RuleError
  short_interval : RuleError
  no_start : RuleError
  future_start : RuleError
  no_rules : RuleError

module _ {F : Type 0} where
  instance abbrev pub alert_common : CommonInterface (AlertRule F)
  alert_common = record { get_id = λ r. r.id; get_user_id = λ r. r.user_id }

  -- The assignments of a form to an alert.
  unfoldable pub fill_alert : AlertRuleForm F → AlertRule F → AlertRule F
  fill_alert arf r = record r {
    name = arf.name;
    rules = arf.rules;
    fail_trigger_tasks = arf.fail_trigger_tasks;
    recover_trigger_tasks = arf.recover_trigger_tasks;
    notification_group_id = arf.notification_group_id;
    trigger_mode = arf.trigger_mode;
    enable = some arf.enable;
  }

  unfoldable pub zero_alert : AlertRule F
  zero_alert = record {
    id = 0;
    user_id = 0;
    name = "";
    enable = none;
    trigger_mode = 0;
    notification_group_id = 0;
    rules = [];
    fail_trigger_tasks = [];
    recover_trigger_tasks = [];
  }

  -- The tests of one rule behind that of the permission.
  unfoldable pub validate_window : ℕ → Rule F → Option RuleError
  validate_window now rule =
      if not (is_transfer_duration_rule rule)
      then (if ltb rule.duration 3 then some short_duration else none)
      else if ltb rule.cycle_interval 1
      then some short_interval
      else elim rule.cycle_start [
        | none ↦ some no_start
        | some start ↦ if ltb now start then some future_start else none
      ]

  -- The loop of `validateRule`.
  unfoldable pub validate_rules : User → GoMap ℕ (Server F) → ℕ → List (Rule F) → Option RuleError
  validate_rules auth servers now [] = none
  validate_rules auth servers now (rule ∷ rules) =
      let rest = validate_rules auth servers now rules in
      if not (check_permission (some auth) (keys rule.ignore) servers)
      then some permission_denied
      else elim (validate_window now rule) [ none ↦ rest | some e ↦ some e ]

  unfoldable pub validate_rule : User → GoMap ℕ (Server F) → ℕ → AlertRule F → Option RuleError
  validate_rule auth servers now r = elim r.rules [
    | [] ↦ some no_rules
    | rule ∷ rules ↦ validate_rules auth servers now (rule ∷ rules)
  ]

  -- The rows are those that the database has under the numbers.
  abbrev pub all_permitted : User → List (AlertRule F) → Bool
  all_permitted auth [] = true
  all_permitted auth (r ∷ rs) =
      if has_permission (some auth) r then all_permitted auth rs else false

  unfoldable pub batch_delete_alert_rule :
      User → List ℕ → Option (List (AlertRule F)) → Bool → Alerts F → Option (Unit {0}) × Alerts F
  batch_delete_alert_rule auth ids found deleted a = elim found [
    | none ↦ (none, a)
    | some rows ↦
        if not (all_permitted auth rows)
        then (none, a)
        else if deleted
        then (some tt, on_delete_alert ids a)
        else (none, a)
  ]

module _ {F : Type 0} ⦃fl : Float64 F⦄ where
  unfoldable pub create_alert_rule :
      User
      → GoMap ℕ (Server F)
      → Calendar
      → ℕ
      → ℕ
      → AlertRuleForm F
      → Option ℕ
      → Alerts F
      → Outcome (Option ℕ × Alerts F)
  create_alert_rule auth servers cal now later arf created a =
      let r = fill_alert arf (record zero_alert { user_id = get_uid auth }) in
      elim (validate_rule auth servers now r) [
        | some e ↦ ok (none, a)
        | none ↦ elim created [
          | none ↦ ok (none, a)
          | some id ↦
              on_refresh_or_add_alert cal later (record r { id = id }) a >>= λ b. ok (some id, b)
        ]
      ]

  unfoldable pub update_alert_rule :
      User
      → GoMap ℕ (Server F)
      → Calendar
      → ℕ
      → ℕ
      → AlertRuleForm F
      → Option (AlertRule F)
      → Bool
      → Alerts F
      → Outcome (Option ℕ × Alerts F)
  update_alert_rule auth servers cal now later arf found saved a = elim found [
    | none ↦ ok (none, a)
    | some row ↦
        if not (has_permission (some auth) row)
        then ok (none, a)
        else elim (validate_rule auth servers now (fill_alert arf row)) [
          | some e ↦ ok (none, a)
          | none ↦
              if saved
              then (on_refresh_or_add_alert cal later (fill_alert arf row) a >>= λ b.
                  ok (some row.id, b))
              else ok (none, a)
        ]
  ]
