-- ===== src/Agent/Traffic.antt =====
-- The traffic of one server, as the reports of its agent and the hourly record count it.
use nezha_diff.Base.{
  ℕ, ◌+◌, ◌-◌, ◌≤◌, ◌≡◌, List, [], ◌∷◌, ◌++◌, arith, nat_beq, ltb, if◌then◌else◌, Bool-cases, inl,
  inr,
}
use nezha_diff.Host.{pb_to_state, pb_to_host}
use nezha_diff.Host.Messages.{PbState, PbHost}
use nezha_diff.Rule.Snapshot.{sub_uint_checked}
use nezha_diff.ServerClass.{Server}
use nezha_diff.Agent.{Transfer, record_server, on_state, on_host}

-- What happens to a server: a report of its state or of its host, and the full hour.
pub data Event (F : Type 0) : Type 0 where
  state_report : ℕ → PbState F → Event F
  host_report : ℕ → PbHost → Event F
  full_hour : ℕ → Event F

-- The two counters that the agent last reported since the host booted, if it has reported.
pub data Meter : Type 0 where
  waiting : Meter
  counting : ℕ → ℕ → Meter

unfoldable pub sum_in : List Transfer → ℕ
sum_in [] = 0
sum_in (t ∷ ts) = t.in' + sum_in ts

unfoldable pub sum_out : List Transfer → ℕ
sum_out [] = 0
sum_out (t ∷ ts) = t.out' + sum_out ts

sum_in-append : (ts us : List Transfer) → sum_in (ts ++ us) ≡ sum_in ts + sum_in us
unfolding sum_in
sum_in-append [] us = omega arith
sum_in-append (t ∷ ts) us = omega (arith, sum_in-append ts us)

sum_out-append : (ts us : List Transfer) → sum_out (ts ++ us) ≡ sum_out ts + sum_out us
unfolding sum_out
sum_out-append [] us = omega arith
sum_out-append (t ∷ ts) us = omega (arith, sum_out-append ts us)

module _ {F : Type 0} where
  unfoldable pub follow : Event F → Server F → List Transfer × Server F
  follow (state_report now state) server = ([], on_state now state server)
  follow (host_report hour host) server = on_host hour host server
  follow (full_hour hour) server = record_server hour server

  unfoldable pub follow_all : List (Event F) → Server F → List Transfer × Server F
  follow_all [] server = ([], server)
  follow_all (event ∷ events) server =
      let here = follow event server in
      let later = follow_all events (here.1) in (here.0 ++ later.0, later.1)

  -- The counters after an event; `boot` is the time at which the host had booted before it.
  unfoldable pub meter : ℕ → Event F → Meter → Meter
  meter boot (state_report now state) m = counting state.net_in_transfer state.net_out_transfer
  meter boot (host_report hour host) m = if ltb boot host.boot_time then waiting else m
  meter boot (full_hour hour) m = m

  unfoldable pub boot_after : Event F → ℕ → ℕ
  boot_after (state_report now state) boot = boot
  boot_after (host_report hour host) boot = host.boot_time
  boot_after (full_hour hour) boot = boot

  -- How much a report adds to the counters; they start from 0 at each boot.
  unfoldable pub gain_in : Meter → Event F → ℕ
  gain_in (counting i o) (state_report now state) = state.net_in_transfer - i
  gain_in waiting (state_report now state) = state.net_in_transfer
  gain_in _ _ = 0

  unfoldable pub gain_out : Meter → Event F → ℕ
  gain_out (counting i o) (state_report now state) = state.net_out_transfer - o
  gain_out waiting (state_report now state) = state.net_out_transfer
  gain_out _ _ = 0

  -- What the first report after a boot brings.
  unfoldable pub first_in : Meter → Event F → ℕ
  first_in waiting (state_report now state) = state.net_in_transfer
  first_in _ _ = 0

  unfoldable pub first_out : Meter → Event F → ℕ
  first_out waiting (state_report now state) = state.net_out_transfer
  first_out _ _ = 0

  unfoldable pub earned : ℕ → Meter → List (Event F) → ℕ × ℕ
  earned boot m [] = (0, 0)
  earned boot m (event ∷ events) =
      let later = earned (boot_after event boot) (meter boot event m) events in
      (gain_in m event + later.0, gain_out m event + later.1)

  unfoldable pub passed_over : ℕ → Meter → List (Event F) → ℕ × ℕ
  passed_over boot m [] = (0, 0)
  passed_over boot m (event ∷ events) =
      let later = passed_over (boot_after event boot) (meter boot event m) events in
      (first_in m event + later.0, first_out m event + later.1)

  -- A report has counters above zero, which grow until the host boots again; after a boot the next
  -- event is a report of the state.
  abbrev pub IsOrderlyEvent : Meter → Event F → Type 0
  IsOrderlyEvent waiting (state_report now state) =
      (1 ≤ now) × (1 ≤ state.net_in_transfer) × (1 ≤ state.net_out_transfer)
  IsOrderlyEvent (counting i o) (state_report now state) =
      (1 ≤ now) × (i ≤ state.net_in_transfer) × (o ≤ state.net_out_transfer)
  IsOrderlyEvent waiting (host_report hour host) = 1 ≤ 0
  IsOrderlyEvent (counting i o) (host_report hour host) = Unit
  IsOrderlyEvent waiting (full_hour hour) = 1 ≤ 0
  IsOrderlyEvent (counting i o) (full_hour hour) = Unit

  abbrev pub IsOrderly : ℕ → Meter → List (Event F) → Type 0
  IsOrderly boot m [] = Unit
  IsOrderly boot m (event ∷ events) =
      IsOrderlyEvent m event × IsOrderly (boot_after event boot) (meter boot event m) events

  -- What the server keeps agrees with the meter.
  abbrev pub Agrees : ℕ → Meter → Server F → Type 0
  Agrees boot waiting s =
      (s.host.boot_time ≡ boot)
      × (s.prev_transfer_in_snapshot ≡ 0)
      × (s.prev_transfer_out_snapshot ≡ 0)
  Agrees boot (counting i o) s =
      (s.host.boot_time ≡ boot)
      × (1 ≤ s.last_active)
      × (s.state.net_in_transfer ≡ i)
      × (s.state.net_out_transfer ≡ o)
      × (1 ≤ s.prev_transfer_in_snapshot)
      × (1 ≤ s.prev_transfer_out_snapshot)
      × (s.prev_transfer_in_snapshot ≤ i)
      × (s.prev_transfer_out_snapshot ≤ o)

  -- What the server has reported and no row counts yet.
  unfoldable pub open_in : Server F → ℕ
  open_in s =
      if nat_beq s.prev_transfer_in_snapshot 0
      then 0
      else s.state.net_in_transfer - s.prev_transfer_in_snapshot

  unfoldable pub open_out : Server F → ℕ
  open_out s =
      if nat_beq s.prev_transfer_out_snapshot 0
      then 0
      else s.state.net_out_transfer - s.prev_transfer_out_snapshot

  follow-Agrees :
      (boot : ℕ) (m : Meter) (event : Event F) (s : Server F)
      → IsOrderlyEvent m event
      → Agrees boot m s
      → Agrees (boot_after event boot) (meter boot event m) ((follow event s).1)
  unfolding follow on_state on_host record_server sub_uint_checked meter boot_after pb_to_state
      pb_to_host
  follow-Agrees boot waiting (state_report now state) s h a = ground arith
  follow-Agrees boot (counting i o) (state_report now state) s h a = ground arith
  follow-Agrees boot waiting (host_report hour host) s h a = absurd (omega arith)
  follow-Agrees boot (counting i o) (host_report hour host) s h a =
      elim (Bool-cases (ltb boot host.boot_time)) [
        | inl e ↦ rw e (ground arith)
        | inr e ↦ rw e (ground arith)
      ]
  follow-Agrees boot waiting (full_hour hour) s h a = absurd (omega arith)
  follow-Agrees boot (counting i o) (full_hour hour) s h a = ground arith

  follow-balance :
      (boot : ℕ) (m : Meter) (event : Event F) (s : Server F)
      → IsOrderlyEvent m event
      → Agrees boot m s
      → (sum_in ((follow event s).0) + open_in ((follow event s).1) + first_in m event
          ≡ open_in s + gain_in m event)
        × (sum_out ((follow event s).0) + open_out ((follow event s).1) + first_out m event
            ≡ open_out s + gain_out m event)
  unfolding follow on_state on_host record_server sub_uint_checked sum_in sum_out open_in open_out
      gain_in gain_out first_in first_out pb_to_state pb_to_host
  follow-balance boot waiting (state_report now state) s h a = (ground arith, ground arith)
  follow-balance boot (counting i o) (state_report now state) s h a = (ground arith, ground arith)
  follow-balance boot waiting (host_report hour host) s h a = absurd (omega arith)
  follow-balance boot (counting i o) (host_report hour host) s h a = (ground arith, ground arith)
  follow-balance boot waiting (full_hour hour) s h a = absurd (omega arith)
  follow-balance boot (counting i o) (full_hour hour) s h a = (ground arith, ground arith)

  -- Over orderly reports, what the counters gain from 0 at each boot is counted once, but for what
  -- the first report after a boot brings: the rows of the record, what is still open, and the
  -- counters of these first reports, which no row has, add up to what was open before and what the
  -- counters gained.
  pub traffic_balance :
      (events : List (Event F)) (boot : ℕ) (m : Meter) (s : Server F)
      → IsOrderly boot m events
      → Agrees boot m s
      → (sum_in ((follow_all events s).0)
            + open_in ((follow_all events s).1)
            + (passed_over boot m events).0
          ≡ open_in s + (earned boot m events).0)
        × (sum_out ((follow_all events s).0)
              + open_out ((follow_all events s).1)
              + (passed_over boot m events).1
            ≡ open_out s + (earned boot m events).1)
  unfolding follow_all earned passed_over
  traffic_balance [] boot m s h a =
      (omega (arith, sum_in-append [] []), omega (arith, sum_out-append [] []))
  traffic_balance (event ∷ events) boot m s h a =
      let here = follow event s in
      let later =
        traffic_balance events (boot_after event boot) (meter boot event m) (here.1) h.1
          (follow-Agrees boot m event s h.0 a) in
      let now = follow-balance boot m event s h.0 a in
      (
        omega (arith, now.0, later.0, sum_in-append (here.0) ((follow_all events (here.1)).0)),
        omega (arith, now.1, later.1, sum_out-append (here.0) ((follow_all events (here.1)).0)),
      )
