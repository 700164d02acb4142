-- ===== src/Alerts/Tests.antt =====
-- The sentinel with one alert on load and one server, over a start, a tick and a refresh.
use nezha_diff.Base.{ℕ, ◌≡◌, refl, true, List, [], ◌∷◌, nat_eq}
use nezha_diff.Outcome.{ok}
use nezha_diff.GoMap.{lookup, insert}
use nezha_diff.Samples.{whole}
use nezha_diff.Rule.{AlertRule}
use nezha_diff.Rule.Tests.{cal, db}
use nezha_diff.ServerClass.Tests.{web}
use nezha_diff.AlertCell.{Effect}
use nezha_diff.AlertCell.Tests.{load_rule, load_alert}
use nezha_diff.Alerts.{Alerts, Tick, alert_sentinel_start, check_status, on_refresh_or_add_alert}
use nezha_diff.Alerts.Keys.{IsKeyed}
use nezha_diff.Alerts.Ticks.{started, ticked, Reach-IsKeyed}

abbrev rows : List (AlertRule ℕ)
rows = load_alert (load_rule 3 ∷ []) ∷ []

abbrev tick : Tick ℕ
tick = record { servers = (3, web) ∷ []; users = []; now = 5; calendar = cal; transfers = db }

abbrev at_start : Alerts ℕ
at_start = record {
  alerts = rows;
  stores = record { store = (4, []) ∷ []; prev_state = (4, []) ∷ []; cycle_stats = [] };
}

abbrev after_tick : Alerts ℕ
after_tick = record {
  alerts = rows;
  stores = record {
    store = (4, (3, (true ∷ []) ∷ []) ∷ []) ∷ [];
    prev_state = (4, (3, 2) ∷ []) ∷ [];
    cycle_stats = [];
  };
}

start_runs : alert_sentinel_start cal 0 rows ≡ ok at_start
unfolding alert_sentinel_start nezha_diff.Alerts.start_each
    nezha_diff.Alerts.add_cycle_transfer_stats_info nezha_diff.Rule.is_enabled
    nezha_diff.Alerts.add_cycle_stats nezha_diff.Rule.is_transfer_duration_rule insert
    nezha_diff.Text.has_suffix
start_runs = refl

tick_runs : check_status tick at_start ≡ ok (after_tick, [])
unfolding check_status nezha_diff.Alerts.check_alerts nezha_diff.Rule.is_enabled
    nezha_diff.Alerts.check_servers nezha_diff.Alerts.check_pair nezha_diff.Alerts.alert_snapshot
    nezha_diff.Alerts.rule_snapshot lookup nezha_diff.Rule.is_transfer_duration_rule
    nezha_diff.Rule.Snapshot.snapshot_at nezha_diff.Rule.Snapshot.snapshot
    nezha_diff.Rule.Snapshot.is_skipped nezha_diff.Rule.Snapshot.source
    nezha_diff.AlertCell.check_server nezha_diff.Check.check nezha_diff.Check.check_rules
    nezha_diff.Check.check_rule nezha_diff.Check.bound_check nezha_diff.AlertCell.react
    nezha_diff.AlertCell.trim nezha_diff.Check.count_fails nezha_diff.Check.judge_regular
    nezha_diff.Check.slices_max insert nezha_diff.Rule.Snapshot.out_of_range
    nezha_diff.Rule.Snapshot.passes nezha_diff.Rule.is_offline_rule nezha_diff.Text.has_suffix
tick_runs = refl

Reach-IsKeyed_example : IsKeyed after_tick
Reach-IsKeyed_example =
    Reach-IsKeyed cal after_tick
      (ticked tick at_start after_tick [] (started 0 rows at_start start_runs) tick_runs)
