-- ===== src/Agent/Tests.antt =====
-- A server that reports twice within a boot, and then boots again.
use nezha_diff.Base.{ℕ, ◌+◌, ◌≡◌, refl, List, [], ◌∷◌, arith, nat_eq}
use nezha_diff.Host.{state_pb, host_pb, pb_to_state, pb_to_host}
use nezha_diff.Host.Messages.{PbState, PbHost}
use nezha_diff.Host.Tests.{warm, small_host}
use nezha_diff.Rule.Snapshot.{sub_uint_checked}
use nezha_diff.ServerClass.{Server}
use nezha_diff.ServerClass.Tests.{web}
use nezha_diff.Agent.{record_server, on_state, on_host}
use nezha_diff.Agent.Traffic.{
  Event, state_report, host_report, full_hour, waiting, sum_in, sum_out, follow, follow_all, meter,
  boot_after, earned, passed_over, open_in, open_out, traffic_balance,
}

abbrev counters : ℕ → ℕ → PbState ℕ
counters i o = state_pb (record warm { net_in_transfer = i; net_out_transfer = o })

abbrev newborn : Server ℕ
newborn = record web { prev_transfer_in_snapshot = 0; prev_transfer_out_snapshot = 0 }

abbrev rebooted : PbHost
rebooted = host_pb (record small_host { boot_time = 2 })

abbrev day : List (Event ℕ)
day =
    state_report 5 (counters 10 20)
    ∷ state_report 6 (counters 17 24)
    ∷ full_hour 6
    ∷ state_report 7 (counters 18 30)
    ∷ host_report 8 rebooted
    ∷ state_report 9 (counters 3 4)
    ∷ state_report 10 (counters 5 4)
    ∷ []

day_rows :
    (follow_all day newborn).0
    ≡ record { server_id = 3; in' = 7; out' = 4; created_at = 6 }
      ∷ record { server_id = 3; in' = 1; out' = 6; created_at = 8 }
      ∷ []
unfolding follow_all follow on_state on_host record_server sub_uint_checked pb_to_state pb_to_host
    state_pb host_pb
day_rows = refl

traffic_balance_example :
    (sum_in ((follow_all day newborn).0)
        + open_in ((follow_all day newborn).1)
        + (passed_over 1 waiting day).0
      ≡ open_in newborn + (earned 1 waiting day).0)
    × (sum_out ((follow_all day newborn).0)
          + open_out ((follow_all day newborn).1)
          + (passed_over 1 waiting day).1
        ≡ open_out newborn + (earned 1 waiting day).1)
unfolding meter boot_after state_pb host_pb
traffic_balance_example =
    traffic_balance day 1 waiting newborn
      (
        (omega arith, omega arith, omega arith),
        (
          (omega arith, omega arith, omega arith),
          (
            tt,
            (
              (omega arith, omega arith, omega arith),
              (
                tt,
                (
                  (omega arith, omega arith, omega arith),
                  ((omega arith, omega arith, omega arith), tt),
                ),
              ),
            ),
          ),
        ),
      )
      (refl, refl, refl)

-- A full hour between the report of the new boot and the first report of the state: the whole
-- counter of the boot before is recorded once more.
twice_counted :
    sum_in (
      (follow_all
        (state_report 5 (counters 10 20) ∷ host_report 8 rebooted ∷ full_hour 9 ∷ [])
        newborn).0)
    ≡ 10
unfolding follow_all follow on_state on_host record_server sub_uint_checked pb_to_state pb_to_host
    state_pb host_pb sum_in
twice_counted = refl

-- While one counter is zero, the traffic of the other is not recorded.
never_counted :
    sum_in (
      (follow_all
        (state_report 5 (counters 10 0) ∷ state_report 6 (counters 90 0) ∷ full_hour 9 ∷ [])
        newborn).0)
    ≡ 0
unfolding follow_all follow on_state on_host record_server sub_uint_checked pb_to_state pb_to_host
    state_pb host_pb sum_in
never_counted = refl
