-- ===== src/Rule/Tests.antt =====
-- Rules on transfers and speeds: the theorems about model/rule.go at these rules.
use nezha_diff.Base.{
  ℕ, ◌+◌, ◌-◌, ◌*◌, ◌^◌, ◌≤◌, ◌<◌, ◌≡◌, refl, true, some, [], ◌∷◌, ◌⊎◌, arith, nat_eq, string_eq,
}
use nezha_diff.Samples.{whole}
use nezha_diff.Outcome.{ok, panic}
use nezha_diff.GoMap.{lookup, insert}
use nezha_diff.Text.{has_suffix}
use nezha_diff.ServerClass.Tests.{web}
use nezha_diff.Int.{pos, pos_part, neg_part}
use nezha_diff.Rule.{Rule, is_transfer_duration_rule}
use nezha_diff.Rule.Cycle.{Calendar, second, calendar_step, transfer_duration}
use nezha_diff.Rule.Cycles.{transfer_duration_calendar, transfer_duration_hours}
use nezha_diff.Rule.Snapshot.{
  CycleTransferStats, Transfers, snapshot, is_skipped, source, out_of_range, update_cycle, passes,
  cycle_source, sub_uint_checked,
}
use nezha_diff.Rule.Readings.{snapshot_repeats}

-- A calendar of thirty-day months.
abbrev pub cal : Calendar
cal = record {
  add_date = λ t y m d.
      (t + (pos_part y * 360 + pos_part m * 30 + pos_part d) * 86400 * second)
      - (neg_part y * 360 + neg_part m * 30 + neg_part d) * 86400 * second;
  to_lower = λ s. s;
}

abbrev pub daily : Rule ℕ
daily = record {
  type = "transfer_in_cycle";
  min = 0;
  max = 100;
  cycle_start = some 0;
  cycle_interval = 1;
  cycle_unit = "day";
  duration = 0;
  cover = 0;
  ignore = [];
  next_transfer_at = [];
  last_cycle_status = [];
}

abbrev hourly : Rule ℕ
hourly = record daily { cycle_unit = "hour" }

abbrev speed : Rule ℕ
speed = record daily { type = "net_all_speed" }

abbrev stats : CycleTransferStats
stats = record {
  name = "month";
  from = 0;
  to = 0;
  max = 100;
  min = 0;
  server_name = [];
  transfer = [];
  next_update = [];
}

abbrev pub db : Transfers
db = record { sum_in = λ t i. 20; sum_out = λ t i. 0; sum_all = λ t i. 20 }

transfer_duration_calendar_example :
    (a : ℕ) × (transfer_duration cal daily 500
      ≡ ok (some (a, cal.add_date a (pos 0) (pos 0) (pos 1))))
    × (500 ≤ cal.add_date a (pos 0) (pos 0) (pos 1))
    × ((a ≡ 0) ⊎ (a < 500))
unfolding calendar_step nezha_diff.Rule.Cycle.int_of
transfer_duration_calendar_example =
    transfer_duration_calendar cal daily 500 0 (λ t. cal.add_date t (pos 0) (pos 0) (pos 1)) refl
      refl (λ t. omega arith)

transfer_duration_hours_example :
    (a : ℕ) × (transfer_duration cal hourly (7201 * second) ≡ ok (some (a, a + 3600 * 1 * second)))
    × (a ≤ 7201 * second)
    × (7201 * second < a + 3600 * 1 * second)
unfolding calendar_step
transfer_duration_hours_example =
    transfer_duration_hours cal hourly (7201 * second) 0 refl refl (omega arith) (omega arith)
      (omega arith) (omega arith)

-- An interval that validateRule accepts: its seconds are 0 in 64 bits.
hours_overflow :
    transfer_duration cal (record hourly { cycle_interval = 2 ^ 60 }) (7201 * second) ≡ panic
unfolding transfer_duration calendar_step nezha_diff.Rule.Cycle.int_of
    nezha_diff.Rule.Cycle.hour_cycle
hours_overflow = refl

-- The rule after it has judged the server at 500, with 25 of 100 used.
abbrev pub daily_checked : Rule ℕ
daily_checked = record daily {
  next_transfer_at = (3, 500 + 180 * 10 ^ 9) ∷ [];
  last_cycle_status = (3, true) ∷ [];
}

abbrev stats_checked : CycleTransferStats
stats_checked = record stats {
  from = 0;
  to = 1000;
  server_name = (3, "web") ∷ [];
  transfer = (3, 25) ∷ [];
  next_update = (3, 500 + 180 * 10 ^ 9) ∷ [];
}

snapshot_repeats_example :
    snapshot daily_checked stats_checked (record web { last_active = 9 }) 600 (ok (0, 1000)) db
    ≡ ok ((daily_checked, stats_checked), true)
unfolding snapshot is_skipped source cycle_source sub_uint_checked update_cycle out_of_range passes
    is_transfer_duration_rule has_suffix lookup insert nezha_diff.Rule.Snapshot.add_duration
    nezha_diff.Rule.Cycle.int_of
snapshot_repeats_example =
    snapshot_repeats daily daily_checked stats stats_checked web (record web { last_active = 9 })
      500 600 (ok (0, 1000)) (ok (0, 1000)) db db true refl refl refl refl refl refl
