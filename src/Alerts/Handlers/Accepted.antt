-- ===== src/Alerts/Handlers/Accepted.antt =====
-- What validateRule of cmd/dashboard/controller/alertrule.go promises to the sentinel.
use nezha_diff.Base.{
  ℕ, ◌<◌, ◌≤◌, ◌≡◌, refl, true, Option, none, some, List, [], ◌∷◌, arith, nat_eq, string_eq, length,
  All, Option-cases, Bool-cases, inl, inr,
}
use nezha_diff.Outcome.{Outcome, ok}
use nezha_diff.GoMap.{GoMap, lookup, insert, remove}
use nezha_diff.Float64.{Float64}
use nezha_diff.Crons.Handlers.{get_uid}
use nezha_diff.Common.{User, has_permission}
use nezha_diff.ServerClass.{Server, server_common}
use nezha_diff.Rule.{Rule, AlertRule, is_enabled}
use nezha_diff.Rule.Cycle.{Calendar}
use nezha_diff.Rule.Snapshot.{CycleTransferStats}
use nezha_diff.Check.{Points, check}
use nezha_diff.Check.Verdict.{any_passes, check_lem}
use nezha_diff.Alerts.{
  Stores, Alerts, new_stats, add_cycle_stats, add_cycle_transfer_stats_info, put_alert,
  on_refresh_or_add_alert,
}
use nezha_diff.Alerts.Handlers.{
  AlertRuleForm, validate_rule, fill_alert, zero_alert, alert_common, create_alert_rule,
  update_alert_rule,
}
use nezha_diff.Alerts.Handlers.Valid.{
  IsForward, far, Fits, IsValid, validate_rule-IsValid, IsValid-HasWindow, transfer_duration_total,
}

module _ {F : Type 0} ⦃fl : Float64 F⦄ (cal : Calendar) (now later : ℕ) (ahead : IsForward cal)
    (order : now ≤ later) (near : later < far) where
  add_cycle_stats_total :
      (alert : AlertRule F) (rules : List (Rule F)) (stats : GoMap ℕ CycleTransferStats)
      → All Fits rules
      → All (IsValid now) rules
      → (out : GoMap ℕ CycleTransferStats) × (add_cycle_stats cal later alert rules stats ≡ ok out)
  unfolding add_cycle_stats
  add_cycle_stats_total alert [] stats f v = (stats, refl)
  add_cycle_stats_total alert (u ∷ us) stats f v = elim (v.0) [
    | inl (g, _) ↦ let (out, e) = add_cycle_stats_total alert us stats f.1 v.1 in (out, rw (g, e))
    | inr (t, p, (first, s, past)) ↦ elim (Option-cases (lookup alert.id stats)) [
      | inr (old, l) ↦
          let (out, e) = add_cycle_stats_total alert us stats f.1 v.1 in (out, rw (t, l, e))
      | inl l ↦
          let (cycle, c) =
            transfer_duration_total cal u later first ahead near s (omega (arith, past, order)) p
              (f.0.1) in
          let (out, e) =
            add_cycle_stats_total alert us (insert alert.id (new_stats alert u cycle) stats) f.1
              v.1 in
          (out, rw (t, l, c, e))
    ]
  ]

  add_cycle_transfer_stats_info_total :
      (alert : AlertRule F) (s : Stores)
      → All Fits alert.rules
      → All (IsValid now) alert.rules
      → (out : Stores) × (add_cycle_transfer_stats_info cal later alert s ≡ ok out)
  unfolding add_cycle_transfer_stats_info
  add_cycle_transfer_stats_info_total alert s f v =
      let (stats, e) = add_cycle_stats_total alert alert.rules s.cycle_stats f v in
      elim (Bool-cases (is_enabled alert)) [
        | inl t ↦ (record s { cycle_stats = stats }, rw (t, e))
        | inr g ↦ (s, rw g)
      ]

  on_refresh_total :
      (alert : AlertRule F) (a : Alerts F)
      → All Fits alert.rules
      → All (IsValid now) alert.rules
      → (b : Alerts F) × (on_refresh_or_add_alert cal later alert a ≡ ok b)
        × (b.alerts ≡ put_alert alert a.alerts)
  unfolding on_refresh_or_add_alert
  on_refresh_total alert a f v =
      let (s, e) =
        add_cycle_transfer_stats_info_total alert
          (record {
            store = insert alert.id [] (remove alert.id a.stores.store);
            prev_state = insert alert.id [] (remove alert.id a.stores.prev_state);
            cycle_stats = remove alert.id a.stores.cycle_stats;
          })
          f v in
      (record { alerts = put_alert alert a.alerts; stores = s }, rw e, refl)

module _ {F : Type 0} ⦃fl : Float64 F⦄ where
  -- The handler replies with the alert's number, the sentinel holds the alert, and `Check` of the
  -- alert returns the verdict of its rules.
  abbrev pub IsServed : Outcome (Option ℕ × Alerts F) → AlertRule F → Alerts F → Points → Type 0
  IsServed reply r a points =
      (b : Alerts F) × (reply ≡ ok (some r.id, b))
      × (b.alerts ≡ put_alert r a.alerts)
      × ((longest : ℕ) × (check r points ≡ ok (longest, any_passes r.rules 0 points)))

  check_valid :
      (auth : User) (servers : GoMap ℕ (Server F)) (now : ℕ) (r : AlertRule F) (points : Points)
      → validate_rule auth servers now r ≡ none
      → All Fits r.rules
      → All (λ row. length row ≡ length r.rules) points
      → (longest : ℕ) × (check r points ≡ ok (longest, any_passes r.rules 0 points))
  check_valid auth servers now r points h fits w =
      let (some_rule, v) = validate_rule-IsValid auth servers now r.rules r refl h in
      check_lem r points some_rule (IsValid-HasWindow now r.rules fits v) w

  update_accepted :
      (auth : User) (servers : GoMap ℕ (Server F)) (cal : Calendar) (now later : ℕ)
      (arf : AlertRuleForm F) (row : AlertRule F) (a b : Alerts F)
      → validate_rule auth servers now (fill_alert arf row) ≡ none
      → has_permission (some auth) row ≡ true
      → on_refresh_or_add_alert cal later (fill_alert arf row) a ≡ ok b
      → update_alert_rule auth servers cal now later arf (some row) true a ≡ ok (some row.id, b)
  unfolding update_alert_rule
  update_accepted auth servers cal now later arf row a b h permitted e = rw (permitted, h, e)

  -- A form that validateRule accepts is served by both handlers, if the user may change the alert: the
  -- sentinel takes the alert without a panic or an endless loop, and every later `Check` of it returns
  -- its verdict. The conditions are that a step of the calendar of fewer than 2 ^ 35 units leads to a
  -- later time, that each duration fits an int and each interval is below 2 ^ 32, that the refresh is
  -- not before the validation and is within 2 ^ 59 seconds, that the database does not fail, and that
  -- each row of ticks has a bit for each rule.
  pub handlers-IsServed :
      (auth : User) (servers : GoMap ℕ (Server F)) (cal : Calendar) (now later id : ℕ)
      (arf : AlertRuleForm F) (row : AlertRule F) (a : Alerts F) (points : Points)
      → IsForward cal
      → now ≤ later
      → later < far
      → validate_rule auth servers now (fill_alert arf row) ≡ none
      → has_permission (some auth) row ≡ true
      → All Fits arf.rules
      → All (λ bits. length bits ≡ length arf.rules) points
      → IsServed
          (create_alert_rule auth servers cal now later arf (some id) a)
          (record (fill_alert arf (record zero_alert { user_id = auth.id })) { id = id })
          a
          points
        × IsServed
            (update_alert_rule auth servers cal now later arf (some row) true a)
            (fill_alert arf row)
            a
            points
  unfolding create_alert_rule fill_alert zero_alert validate_rule get_uid
  handlers-IsServed auth servers cal now later id arf row a points ahead order near h permitted fits
        w =
      let fresh : AlertRule F = record (fill_alert arf (record zero_alert { user_id = auth.id })) {
        id = id;
      } in
      let (some_rule, v) =
        validate_rule-IsValid auth servers now arf.rules (fill_alert arf row) refl h in
      let (b, p, q) = on_refresh_total cal now later ahead order near fresh a fits v in
      let (c, s, t) =
        on_refresh_total cal now later ahead order near (fill_alert arf row) a fits v in
      (
        (b, ground (arith, h, p), q, check_valid auth servers now fresh points h fits w),
        (
          c,
          update_accepted auth servers cal now later arf row a c h permitted s,
          t,
          check_valid auth servers now (fill_alert arf row) points h fits w,
        ),
      )
