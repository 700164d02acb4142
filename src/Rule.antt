-- ===== src/Rule.antt =====
-- model/rule.go and model/alertrule.go: the records of an alert rule.
pub mod Cycle
pub mod Cycles
pub mod Snapshot
pub mod Readings
pub mod Tests
use nezha_diff.Base.{ℕ, Bool, false, Option, String, List, ◌==◌, string_eq}
use nezha_diff.Text.{has_suffix}
use nezha_diff.GoMap.{GoMap}

-- `F` stands for float64. A time is a number of nanoseconds since Go's zero time.
pub record Rule (F : Type 0) : Type 0 where
  pub type : String
  pub min : F
  pub max : F
  pub cycle_start : Option ℕ
  pub cycle_interval : ℕ
  pub cycle_unit : String
  pub duration : ℕ
  pub cover : ℕ
  pub ignore : GoMap ℕ Bool
  pub next_transfer_at : GoMap ℕ ℕ
  pub last_cycle_status : GoMap ℕ Bool

pub record AlertRule (F : Type 0) : Type 0 where
  pub id : ℕ
  pub user_id : ℕ
  pub name : String
  pub enable : Option Bool
  pub trigger_mode : ℕ
  pub notification_group_id : ℕ
  pub rules : List (Rule F)
  pub fail_trigger_tasks : List ℕ
  pub recover_trigger_tasks : List ℕ

abbrev pub mode_always_trigger : ℕ
mode_always_trigger = 0

abbrev pub mode_onetime_trigger : ℕ
mode_onetime_trigger = 1

module _ {F : Type 0} where
  -- AlertRule.Enabled
  unfoldable pub is_enabled : AlertRule F → Bool
  is_enabled r = elim r.enable [ Option.none ↦ false | Option.some b ↦ b ]

  unfoldable pub is_transfer_duration_rule : Rule F → Bool
  unfolding has_suffix
  is_transfer_duration_rule u = has_suffix u.type "_cycle"

  unfoldable pub is_offline_rule : Rule F → Bool
  is_offline_rule u = u.type == "offline"
