-- ===== src/Agent.antt =====
-- service/rpc/nezha.go: what an agent's reports of its state and of its host do to the registry of
-- servers, and the hourly record of the traffic of service/singleton/singleton.go. `F` stands for
-- float64. A server's number is what `Auth.Check` returned; `none` is the error for a number that
-- no server has. `hour` is the present hour, `now` the present time.
pub mod Traffic
pub mod Frame
mod Tests
use nezha_diff.Base.{
  ℕ, Bool, true, false, not, ◌&&◌, ◌||◌, Option, none, some, List, [], ◌∷◌, ◌++◌, map, nat_eq,
  nat_beq, ltb, if◌then◌else◌,
}
use nezha_diff.GoMap.{lookup, insert}
use nezha_diff.Host.{pb_to_state, pb_to_host}
use nezha_diff.Host.Messages.{PbState, PbHost}
use nezha_diff.Rule.Snapshot.{sub_uint_checked}
use nezha_diff.ServerClass.{Server, ServerClass}

-- model.Transfer
pub record Transfer : Type 0 where
  pub server_id : ℕ
  pub in' : ℕ
  pub out' : ℕ
  pub created_at : ℕ

module _ {F : Type 0} where
  -- The loop of `RecordTransferHourlyUsage` at one server: the row, if there is one, and the server.
  unfoldable pub record_server : ℕ → Server F → List Transfer × Server F
  record_server hour server =
      let in' = sub_uint_checked server.state.net_in_transfer server.prev_transfer_in_snapshot in
      let out' = sub_uint_checked server.state.net_out_transfer server.prev_transfer_out_snapshot in
      if nat_beq in' 0 && nat_beq out' 0 then ([], server) else (
        record { server_id = server.id; in' = in'; out' = out'; created_at = hour } ∷ [],
        record server {
          prev_transfer_in_snapshot = server.state.net_in_transfer;
          prev_transfer_out_snapshot = server.state.net_out_transfer;
        },
      )

  -- The body of the loop of `ReportSystemState`, at the server.
  unfoldable pub on_state : ℕ → PbState F → Server F → Server F
  on_state now state server =
      let reported = record server { last_active = now; state = pb_to_state state } in
      if nat_beq server.prev_transfer_in_snapshot 0 || nat_beq server.prev_transfer_out_snapshot 0
      then record reported {
        prev_transfer_in_snapshot = state.net_in_transfer;
        prev_transfer_out_snapshot = state.net_out_transfer;
      }
      else reported

  -- `onReportSystemInfo` at the server: a host that has booted since closes the record of before.
  unfoldable pub on_host : ℕ → PbHost → Server F → List Transfer × Server F
  on_host hour r server =
      let host = pb_to_host r in
      let recorded = record_server hour server in
      if not (nat_beq server.last_active 0) && ltb server.host.boot_time host.boot_time
      then (
        recorded.0,
        record (recorded.1) {
          prev_transfer_in_snapshot = 0;
          prev_transfer_out_snapshot = 0;
          host = host;
        },
      )
      else ([], record server { host = host })

  -- A pointer is shared by the map and the sorted lists: a write through it shows in all of them.
  abbrev pub write_at : ℕ → Server F → List (Server F) → List (Server F)
  write_at id new = map (λ s. if nat_beq s.id id then new else s)

  unfoldable pub write : ℕ → Server F → ServerClass F → ServerClass F
  write id new c = record c {
    list = insert id new c.list;
    sorted_list = write_at id new c.sorted_list;
    sorted_list_for_guest = write_at id new c.sorted_list_for_guest;
  }

  unfoldable pub report_system_state : ServerClass F → ℕ → ℕ → PbState F → Option (ServerClass F)
  report_system_state c client now state = elim (lookup client c.list) [
    | none ↦ none
    | some server ↦ some (write client (on_state now state server) c)
  ]

  unfoldable pub on_report_system_info :
      ServerClass F → ℕ → ℕ → PbHost → Option (List Transfer × ServerClass F)
  on_report_system_info c client hour r = elim (lookup client c.list) [
    | none ↦ none
    | some server ↦ let result = on_host hour r server in some (result.0, write client (result.1) c)
  ]

  -- `RecordTransferHourlyUsage()`, over the registry.
  unfoldable pub record_each :
      ℕ → List (ℕ × Server F) → ServerClass F → List Transfer × ServerClass F
  record_each hour [] c = ([], c)
  record_each hour ((id, server) ∷ rest) c =
      let here = record_server hour server in
      let others = record_each hour rest (write id (here.1) c) in (here.0 ++ others.0, others.1)

  unfoldable pub record_transfer_hourly_usage : ℕ → ServerClass F → List Transfer × ServerClass F
  record_transfer_hourly_usage hour c = record_each hour c.list c
