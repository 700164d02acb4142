-- ===== src/AlertCell.antt =====
-- The body of the inner loop of `checkStatus` in service/singleton/alertsentinel.go: one alert, one
-- server, one tick. `row` is what `alert.Snapshot` returned; the notifications that the body sends
-- are values.
pub mod Single
pub mod Starved
pub mod Alternation
pub mod Tests
use nezha_diff.Base.{
  ℕ, ◌-◌, Bool, true, false, not, ◌&&◌, ◌||◌, List, [], ◌∷◌, ◌++◌, ltb, nat_beq, if◌then◌else◌,
  length, drop,
}
use nezha_diff.Outcome.{Outcome, ok, ◌>>=◌}
use nezha_diff.MuteLabel.{MuteLabel, server_incident, server_incident_resolved}
use nezha_diff.Rule.{AlertRule, mode_always_trigger}
use nezha_diff.Check.{Points, check}

-- _RuleCheckNoData, _RuleCheckFail, _RuleCheckPass
abbrev pub rule_check_no_data : ℕ
rule_check_no_data = 0

abbrev pub rule_check_fail : ℕ
rule_check_fail = 1

abbrev pub rule_check_pass : ℕ
rule_check_pass = 2

-- What a tick sends: trigger tasks for a server, a notification to a group under a mute label, and
-- the removal of a mute label.
pub data Effect : Type 0 where
  send_trigger_tasks : List ℕ → ℕ → Effect
  send_notification un_mute : ℕ → MuteLabel → Effect

-- alertsStore and alertsPrevState at one alert and one server.
pub record Cell : Type 0 where
  pub store : Points
  pub prev_state : ℕ

module _ {F : Type 0} where
  unfoldable pub incident : AlertRule F → ℕ → List Effect
  incident alert sid =
      send_trigger_tasks alert.fail_trigger_tasks sid
      ∷ send_notification alert.notification_group_id (server_incident sid alert.id)
      ∷ un_mute alert.notification_group_id (server_incident_resolved sid alert.id)
      ∷ []

  unfoldable pub resolved : AlertRule F → ℕ → List Effect
  resolved alert sid =
      send_trigger_tasks alert.recover_trigger_tasks sid
      ∷ send_notification alert.notification_group_id (server_incident_resolved sid alert.id)
      ∷ un_mute alert.notification_group_id (server_incident sid alert.id)
      ∷ []

  -- The new alertsPrevState, and what is sent.
  unfoldable pub react : AlertRule F → ℕ → Bool → ℕ → ℕ × List Effect
  react alert sid passed prev =
      if not passed
      then (if nat_beq alert.trigger_mode mode_always_trigger || not (nat_beq prev rule_check_fail)
          then (rule_check_fail, incident alert sid)
          else (prev, []))
      else (rule_check_pass, (if nat_beq prev rule_check_fail then resolved alert sid else []))

unfoldable pub trim : ℕ → Points → Points
trim longest points =
    if ltb 0 longest && ltb longest (length points)
    then drop (length points - longest) points
    else points

module _ {F : Type 0} where
  unfoldable pub check_server : AlertRule F → ℕ → List Bool → Cell → Outcome (Cell × List Effect)
  check_server alert sid row cell = do
    let points = cell.store ++ row ∷ []
    result ← check alert points
    let (prev, effects) = react alert sid result.1 cell.prev_state
    ok (record { store = trim result.0 points; prev_state = prev }, effects)

  -- One tick after another.
  unfoldable pub run : AlertRule F → ℕ → Points → Cell → Outcome (Cell × List Effect)
  run alert sid [] cell = ok (cell, [])
  run alert sid (row ∷ rows) cell = do
    first ← check_server alert sid row cell
    rest ← run alert sid rows first.0
    ok (rest.0, first.1 ++ rest.1)

-- A server that has not been checked yet.
abbrev pub fresh : Cell
fresh = record { store = []; prev_state = rule_check_no_data }
