-- ===== src/Alerts.antt =====
-- service/singleton/alertsentinel.go: the alerts with their three stores, and the tick that checks
-- every alert at every server. `F` stands for float64. A write into a nil map is `panic`. The ticks
-- are passed by hand: each takes the servers, the users, the time and the sums of the database.
pub mod Handlers
pub mod Keys
pub mod Ticks
mod Tests
use nezha_diff.Base.{
  ℕ, Bool, true, false, not, ◌&&◌, ◌||◌, Option, none, some, List, [], ◌∷◌, ◌++◌, map, nat_eq,
  nat_beq, ltb, keep, if◌then◌else◌,
}
use nezha_diff.Outcome.{Outcome, ok, panic, ◌>>=◌}
use nezha_diff.GoMap.{GoMap, contains, lookup, insert, remove, values}
use nezha_diff.Float64.{Float64}
use nezha_diff.Common.{UserInfo, is_admin, role_member}
use nezha_diff.ServerClass.{Server}
use nezha_diff.Rule.{Rule, AlertRule, is_enabled, is_transfer_duration_rule}
use nezha_diff.Rule.Cycle.{Calendar, transfer_duration}
use nezha_diff.Rule.Snapshot.{
  CycleTransferStats, Transfers, ended, is_skipped, snapshot_at, time_of,
}
use nezha_diff.Check.{Points}
use nezha_diff.AlertCell.{Cell, Effect, check_server}

-- alertsStore, alertsPrevState and AlertsCycleTransferStatsStore
pub record Stores : Type 0 where
  pub store : GoMap ℕ (GoMap ℕ Points)
  pub prev_state : GoMap ℕ (GoMap ℕ ℕ)
  pub cycle_stats : GoMap ℕ CycleTransferStats

pub record Alerts (F : Type 0) : Type 0 where
  pub alerts : List (AlertRule F)
  pub stores : Stores

-- What a tick reads.
pub record Tick (F : Type 0) : Type 0 where
  pub servers : GoMap ℕ (Server F)
  pub users : GoMap ℕ UserInfo
  pub now : ℕ
  pub calendar : Calendar
  pub transfers : Transfers

-- A dereference.
abbrev pub deref {ℓ} : {A : Type ℓ} → Option A → Outcome A
deref none = panic
deref (some a) = ok a

-- m[k], with the zero value for a missing key.
abbrev pub or_zero {ℓ} : {A : Type ℓ} → A → Option A → A
or_zero zero_value none = zero_value
or_zero zero_value (some a) = a

-- Empty stores for an alert.
abbrev pub open_stores : ℕ → Stores → Stores
open_stores id s = record s { store = insert id [] s.store; prev_state = insert id [] s.prev_state }

unfoldable pub role_of : GoMap ℕ UserInfo → ℕ → ℕ
role_of users id = elim (lookup id users) [ none ↦ role_member | some u ↦ u.role ]

abbrev pub keep_stats :
    ℕ → Option CycleTransferStats → GoMap ℕ CycleTransferStats → GoMap ℕ CycleTransferStats
keep_stats id none m = m
keep_stats id (some stats) m = insert id stats m

-- What a rule is read against where there are no statistics; such a rule does not touch them.
abbrev pub blank : CycleTransferStats
blank = record {
  name = "";
  from = 0;
  to = 0;
  max = 0;
  min = 0;
  server_name = [];
  transfer = [];
  next_update = [];
}

module _ {F : Type 0} where
  -- The loop over the alerts in `OnRefreshOrAddAlert`, and the append if none had the number.
  unfoldable pub replace_alert : AlertRule F → List (AlertRule F) → List (AlertRule F)
  replace_alert alert = map (λ old. if nat_beq old.id alert.id then alert else old)

  unfoldable pub put_alert : AlertRule F → List (AlertRule F) → List (AlertRule F)
  put_alert alert alerts =
      if contains (map (λ a. a.id) alerts) alert.id
      then replace_alert alert alerts
      else alerts ++ alert ∷ []

  unfoldable pub delete_alert : ℕ → Alerts F → Alerts F
  delete_alert id a = record {
    alerts = keep (λ alert. not (nat_beq alert.id id)) a.alerts;
    stores = record {
      store = remove id a.stores.store;
      prev_state = remove id a.stores.prev_state;
      cycle_stats = remove id a.stores.cycle_stats;
    };
  }

  unfoldable pub on_delete_alert : List ℕ → Alerts F → Alerts F
  on_delete_alert [] a = a
  on_delete_alert (id ∷ ids) a = on_delete_alert ids (delete_alert id a)

module _ {F : Type 0} ⦃fl : Float64 F⦄ where
  unfoldable pub new_stats : AlertRule F → Rule F → ℕ × ℕ → CycleTransferStats
  new_stats alert rule cycle = record {
    name = alert.name;
    from = cycle.0;
    to = cycle.1;
    max = fl.to_uint rule.max;
    min = fl.to_uint rule.min;
    server_name = [];
    transfer = [];
    next_update = [];
  }

  -- The loop of `addCycleTransferStatsInfo`: the first rule of a cycle makes the statistics.
  unfoldable pub add_cycle_stats :
      Calendar
      → ℕ
      → AlertRule F
      → List (Rule F)
      → GoMap ℕ CycleTransferStats
      → Outcome (GoMap ℕ CycleTransferStats)
  add_cycle_stats cal now alert [] stats = ok stats
  add_cycle_stats cal now alert (rule ∷ rules) stats =
      let others = add_cycle_stats cal now alert rules in
      if not (is_transfer_duration_rule rule) then others stats else elim (lookup alert.id stats) [
        | some _ ↦ others stats
        | none ↦
            (ended (transfer_duration cal rule now) >>= λ cycle.
            others (insert alert.id (new_stats alert rule cycle) stats))
      ]

  unfoldable pub add_cycle_transfer_stats_info :
      Calendar → ℕ → AlertRule F → Stores → Outcome Stores
  add_cycle_transfer_stats_info cal now alert s =
      if not (is_enabled alert)
      then ok s
      else (add_cycle_stats cal now alert alert.rules s.cycle_stats >>= λ stats.
          ok (record s { cycle_stats = stats }))

  -- `AlertSentinelStart`, up to the first tick; the alerts are what `DB.Find` read.
  unfoldable pub start_each : Calendar → ℕ → List (AlertRule F) → Stores → Outcome Stores
  start_each cal now [] s = ok s
  start_each cal now (alert ∷ alerts) s =
      add_cycle_transfer_stats_info cal now alert (open_stores alert.id s) >>= λ t.
      start_each cal now alerts t

  unfoldable pub alert_sentinel_start : Calendar → ℕ → List (AlertRule F) → Outcome (Alerts F)
  alert_sentinel_start cal now rows =
      start_each cal now rows (record { store = []; prev_state = []; cycle_stats = [] }) >>= λ s.
      ok (record { alerts = rows; stores = s })

  unfoldable pub on_refresh_or_add_alert :
      Calendar → ℕ → AlertRule F → Alerts F → Outcome (Alerts F)
  on_refresh_or_add_alert cal now alert a =
      add_cycle_transfer_stats_info cal now alert (record {
        store = insert alert.id [] (remove alert.id a.stores.store);
        prev_state = insert alert.id [] (remove alert.id a.stores.prev_state);
        cycle_stats = remove alert.id a.stores.cycle_stats;
      })
      >>= λ s. ok (record { alerts = put_alert alert a.alerts; stores = s })

  -- Rule.Snapshot with a pointer to the statistics that may be nil: only a cycle that is due
  -- dereferences it.
  unfoldable pub rule_snapshot :
      Tick F
      → Server F
      → Rule F
      → Option CycleTransferStats
      → Outcome ((Rule F × Option CycleTransferStats) × Bool)
  rule_snapshot tick server u (some stats) =
      snapshot_at tick.calendar u stats server tick.now tick.transfers >>= λ out.
      ok ((out.0.0, some (out.0.1)), out.1)
  rule_snapshot tick server u none =
      if is_transfer_duration_rule u
        && not (is_skipped u server)
        && not (ltb tick.now (time_of (lookup server.id u.next_transfer_at)))
      then panic
      else (snapshot_at tick.calendar u blank server tick.now tick.transfers >>= λ out.
          ok ((out.0.0, none), out.1))

  -- AlertRule.Snapshot
  unfoldable pub alert_snapshot :
      Tick F
      → Server F
      → List (Rule F)
      → Option CycleTransferStats
      → Outcome ((List (Rule F) × Option CycleTransferStats) × List Bool)
  alert_snapshot tick server [] stats = ok (([], stats), [])
  alert_snapshot tick server (u ∷ us) stats = rule_snapshot tick server u stats >>= λ here.
      alert_snapshot tick server us (here.0.1) >>= λ others.
      ok ((here.0.0 ∷ others.0.0, others.0.1), here.1 ∷ others.1)

  -- The body of the inner loop of `checkStatus`, behind the test of the owner.
  unfoldable pub check_pair :
      Tick F → AlertRule F → Server F → Stores → Outcome ((AlertRule F × Stores) × List Effect)
  check_pair tick alert server s = do
    snap ← alert_snapshot tick server alert.rules (lookup alert.id s.cycle_stats)
    points ← deref (lookup alert.id s.store)
    states ← deref (lookup alert.id s.prev_state)
    let noted = record alert { rules = snap.0.0 }
    out ← check_server noted server.id (snap.1) (record {
      store = or_zero [] (lookup server.id points);
      prev_state = or_zero 0 (lookup server.id states);
    })
    ok (
      (
        noted,
        record {
          store = insert alert.id (insert server.id ((out.0).store) points) s.store;
          prev_state = insert alert.id (insert server.id ((out.0).prev_state) states) s.prev_state;
          cycle_stats = keep_stats alert.id (snap.0.1) s.cycle_stats;
        },
      ),
      out.1,
    )

  unfoldable pub check_servers :
      Tick F
      → List (Server F)
      → AlertRule F
      → Stores
      → Outcome ((AlertRule F × Stores) × List Effect)
  check_servers tick [] alert s = ok ((alert, s), [])
  check_servers tick (server ∷ servers) alert s =
      if not (nat_beq alert.user_id server.user_id)
        && not (is_admin (role_of tick.users alert.user_id))
      then check_servers tick servers alert s
      else (check_pair tick alert server s >>= λ here.
          check_servers tick servers (here.0.0) (here.0.1) >>= λ others.
          ok (others.0, here.1 ++ others.1))

  unfoldable pub check_alerts :
      Tick F → List (AlertRule F) → Stores → Outcome ((List (AlertRule F) × Stores) × List Effect)
  check_alerts tick [] s = ok (([], s), [])
  check_alerts tick (alert ∷ alerts) s =
      (if is_enabled alert
        then check_servers tick (values tick.servers) alert s
        else ok ((alert, s), []))
      >>= λ here. check_alerts tick alerts (here.0.1) >>= λ others.
          ok ((here.0.0 ∷ others.0.0, others.0.1), here.1 ++ others.1)

  unfoldable pub check_status : Tick F → Alerts F → Outcome (Alerts F × List Effect)
  check_status tick a = check_alerts tick a.alerts a.stores >>= λ out.
      ok (record { alerts = out.0.0; stores = out.0.1 }, out.1)
