-- ===== src/Rule/Snapshot.antt =====
-- Rule.Snapshot of model/rule.go: how a rule reads a server. `F` stands for float64. The sums that the
-- database gives of the table of transfers are functions of the start of the cycle and the server.
use nezha_diff.Base.{
  ℕ, suc, ◌+◌, ◌-◌, ◌*◌, ◌/◌, ◌^◌, Bool, true, false, not, ◌&&◌, ◌||◌, Option, none, some, String,
  List, [], ◌∷◌, nat_eq, string_eq, ◌==◌, nat_beq, if◌then◌else◌, ltb,
}
use nezha_diff.Word.{add_uint}
use nezha_diff.Float64.{Float64}
use nezha_diff.Outcome.{Outcome, ok, panic, ◌>>=◌}
use nezha_diff.GoMap.{GoMap, lookup, insert}
use nezha_diff.Host.{SensorTemperature}
use nezha_diff.ServerClass.{Server}
use nezha_diff.Rule.{Rule, is_transfer_duration_rule}
use nezha_diff.Rule.Cycle.{Calendar, int_of, transfer_duration}
use nezha_diff.Int.{ℤ, pos, negsuc}

abbrev pub rule_cover_all : ℕ
rule_cover_all = 0

abbrev pub rule_cover_ignore_all : ℕ
rule_cover_ignore_all = 1

-- What the table of transfers sums up for a server since a time.
pub record Transfers : Type 0 where
  pub sum_in : ℕ → ℕ → ℕ
  pub sum_out : ℕ → ℕ → ℕ
  pub sum_all : ℕ → ℕ → ℕ

-- utils.SubUintChecked
unfoldable pub sub_uint_checked : ℕ → ℕ → ℕ
sub_uint_checked a b = if ltb a b then 0 else a - b

-- A flag of a map; a missing key reads as false.
abbrev pub flag_of : Option Bool → Bool
flag_of none = false
flag_of (some b) = b

abbrev pub time_of : Option ℕ → ℕ
time_of none = 0
time_of (some t) = t

-- model.CycleTransferStats
pub record CycleTransferStats : Type 0 where
  pub name : String
  pub from : ℕ
  pub to : ℕ
  pub max : ℕ
  pub min : ℕ
  pub server_name : GoMap ℕ String
  pub transfer : GoMap ℕ ℕ
  pub next_update : GoMap ℕ ℕ

-- Time.Unix, of a time after 1970.
abbrev pub unix : ℕ → ℕ
unix t = t / 10 ^ 9 - 62135596800

-- A cycle whose loop does not end gives no result, which is `panic` here.
abbrev pub ended : {A : Type 0} → Outcome (Option A) → Outcome A
ended (ok (some a)) = ok a
ended (ok none) = panic
ended panic = panic

-- now.Add(d)
unfoldable pub add_duration : ℕ → ℤ → ℕ
add_duration now (pos d) = now + d
add_duration now (negsuc d) = now - suc d

module _ {F : Type 0} ⦃fl : Float64 F⦄ where
  unfoldable pub percentage : ℕ → ℕ → F
  percentage used total =
      if nat_beq total 0
      then fl.of_uint 0
      else fl.div (fl.mul (fl.of_uint used) (fl.of_uint 100)) (fl.of_uint total)

  -- slices.Max, which panics on an empty slice.
  unfoldable pub slices_max_float : List F → Outcome F
  slices_max_float [] = panic
  slices_max_float (x ∷ []) = ok x
  slices_max_float (x ∷ y ∷ xs) = slices_max_float (fl.max x y ∷ xs)

  -- The temperatures that are not 0.
  unfoldable pub temperatures_of : List (SensorTemperature F) → List F
  temperatures_of [] = []
  temperatures_of (t ∷ rest) =
      let others = temperatures_of rest in
      if not (fl.eq t.temperature (fl.of_uint 0)) then t.temperature ∷ others else others

  -- What a cycle has used so far, with the sum that the database has of it.
  unfoldable pub cycle_source : Rule F → Outcome (ℕ × ℕ) → (ℕ → ℕ → ℕ) → ℕ → ℕ → Outcome F
  cycle_source u cycle stored sid current =
      if nat_beq u.cycle_interval 0
      then ok (fl.of_uint current)
      else (cycle >>= λ c. ok (fl.add (fl.of_uint current) (fl.of_uint (stored c.0 sid))))

  -- What the rule measures. The temperatures of a reported state are nil where there are none.
  unfoldable pub source : Rule F → Server F → Outcome (ℕ × ℕ) → Transfers → Outcome F
  source u server cycle db =
      let state = server.state in
      let in' = sub_uint_checked state.net_in_transfer server.prev_transfer_in_snapshot in
      let out' = sub_uint_checked state.net_out_transfer server.prev_transfer_out_snapshot in
      if u.type == "cpu"
      then ok state.cpu
      else if u.type == "gpu_max"
      then slices_max_float state.gpu
      else if u.type == "memory"
      then ok (percentage state.mem_used server.host.mem_total)
      else if u.type == "swap"
      then ok (percentage state.swap_used server.host.swap_total)
      else if u.type == "disk"
      then ok (percentage state.disk_used server.host.disk_total)
      else if u.type == "net_in_speed"
      then ok (fl.of_uint state.net_in_speed)
      else if u.type == "net_out_speed"
      then ok (fl.of_uint state.net_out_speed)
      else if u.type == "net_all_speed"
      then ok (fl.of_uint (add_uint state.net_out_speed state.net_out_speed))
      else if u.type == "transfer_in"
      then ok (fl.of_uint state.net_in_transfer)
      else if u.type == "transfer_out"
      then ok (fl.of_uint state.net_out_transfer)
      else if u.type == "transfer_all"
      then ok (fl.of_uint (add_uint state.net_out_transfer state.net_in_transfer))
      else if u.type == "offline"
      then ok (
          if nat_beq server.last_active 0
          then fl.of_uint 0
          else fl.of_uint (unix server.last_active))
      else if u.type == "transfer_in_cycle"
      then cycle_source u cycle db.sum_in server.id in'
      else if u.type == "transfer_out_cycle"
      then cycle_source u cycle db.sum_out server.id out'
      else if u.type == "transfer_all_cycle"
      then cycle_source u cycle db.sum_all server.id (add_uint out' in')
      else if u.type == "load1"
      then ok state.load1
      else if u.type == "load5"
      then ok state.load5
      else if u.type == "load15"
      then ok state.load15
      else if u.type == "tcp_conn_count"
      then ok (fl.of_uint state.tcp_conn_count)
      else if u.type == "udp_conn_count"
      then ok (fl.of_uint state.udp_conn_count)
      else if u.type == "process_count"
      then ok (fl.of_uint state.process_count)
      else if u.type == "temperature_max"
      then elim state.temperatures [
        | [] ↦ ok (fl.of_uint 0)
        | _ ∷ _ ↦ slices_max_float (temperatures_of state.temperatures)
      ]
      else ok (fl.of_uint 0)

  -- (u.Max > 0 && src > u.Max) || (u.Min > 0 && src < u.Min)
  unfoldable pub out_of_range : Rule F → F → Bool
  out_of_range u src =
      (fl.lt (fl.of_uint 0) u.max && fl.lt u.max src)
      || (fl.lt (fl.of_uint 0) u.min && fl.lt src u.min)

  unfoldable pub update_cycle :
      Rule F → Server F → ℕ → F → ℕ × ℕ → CycleTransferStats → Rule F × CycleTransferStats
  update_cycle u server now src cycle stats =
      let seconds =
        fl.max (fl.mul (fl.of_uint 1800) (fl.div (fl.sub u.max src) u.max)) (fl.of_uint 180) in
      let next = add_duration now (int_of (10 ^ 9 * fl.to_uint seconds)) in
      (
        record u {
          next_transfer_at = insert server.id next u.next_transfer_at;
          last_cycle_status = insert server.id (not (out_of_range u src)) u.last_cycle_status;
        },
        record stats {
          server_name = insert server.id server.name stats.server_name;
          transfer = insert server.id (fl.to_uint src) stats.transfer;
          next_update = insert server.id next stats.next_update;
          from = cycle.0;
          to = cycle.1;
        },
      )

  unfoldable pub is_skipped : Rule F → Server F → Bool
  is_skipped u server =
      (nat_beq u.cover rule_cover_all && flag_of (lookup server.id u.ignore))
      || (nat_beq u.cover rule_cover_ignore_all && not (flag_of (lookup server.id u.ignore)))

  unfoldable pub passes : Rule F → ℕ → F → Bool
  passes u now src = not (
      (u.type == "offline" && fl.lt (fl.of_uint 6) (fl.sub (fl.of_uint (unix now)) src))
      || out_of_range u src)

  -- `cycle` is what GetTransferDurationStart and GetTransferDurationEnd give.
  unfoldable pub snapshot :
      Rule F
      → CycleTransferStats
      → Server F
      → ℕ
      → Outcome (ℕ × ℕ)
      → Transfers
      → Outcome ((Rule F × CycleTransferStats) × Bool)
  snapshot u stats server now cycle db =
      if is_skipped u server
      then ok ((u, stats), true)
      else if is_transfer_duration_rule u && ltb now (time_of (lookup server.id u.next_transfer_at))
      then ok ((u, stats), flag_of (lookup server.id u.last_cycle_status))
      else (source u server cycle db >>= λ src.
          (if is_transfer_duration_rule u
            then (cycle >>= λ c. ok (update_cycle u server now src c stats))
            else ok (u, stats))
          >>= λ updated. ok (updated, passes u now src))

  -- The call, with the cycle that `now` lies in.
  unfoldable pub snapshot_at :
      Calendar
      → Rule F
      → CycleTransferStats
      → Server F
      → ℕ
      → Transfers
      → Outcome ((Rule F × CycleTransferStats) × Bool)
  snapshot_at cal u stats server now db =
      snapshot u stats server now (ended (transfer_duration cal u now)) db
