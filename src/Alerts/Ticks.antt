-- ===== src/Alerts/Ticks.antt =====
-- The ticks of service/singleton/alertsentinel.go and the entries of the three stores.
use nezha_diff.Base.{
  ℕ, ◌≡◌, refl, ap, subst, sym, ◌∙◌, Bool, not, ◌&&◌, Option, none, some, List, [], ◌∷◌, ◌++◌,
  arith, nat_eq, nat_beq, if◌then◌else◌, Option-cases, Bool-cases, inl, inr, ltb,
}
use nezha_diff.Outcome.{ok, ◌>>=◌, ok-of->>=, ok-injective}
use nezha_diff.GoMap.{lookup, insert, has, values, contains, has-insert}
use nezha_diff.Float64.{Float64}
use nezha_diff.Common.{is_admin}
use nezha_diff.ServerClass.{Server}
use nezha_diff.Rule.{Rule, AlertRule, is_enabled, is_transfer_duration_rule}
use nezha_diff.Rule.Cycle.{Calendar}
use nezha_diff.Rule.Snapshot.{CycleTransferStats, is_skipped, snapshot_at, time_of}
use nezha_diff.AlertCell.{Effect, check_server}
use nezha_diff.Alerts.{
  Stores, Alerts, Tick, deref, or_zero, rule_snapshot, alert_snapshot, role_of, keep_stats,
  check_pair, check_servers, check_alerts, check_status, blank, alert_sentinel_start,
  on_refresh_or_add_alert, on_delete_alert,
}
use nezha_diff.Alerts.Keys.{is_some, ids, IsKeyed, start-IsKeyed, refresh-IsKeyed, delete-IsKeyed}

-- Two states of the stores have entries for the same numbers.
abbrev SameKeys : Stores → Stores → Type 0
SameKeys s t =
    (j : ℕ)
    → (has j t.store ≡ has j s.store)
      × (has j t.prev_state ≡ has j s.prev_state)
      × (has j t.cycle_stats ≡ has j s.cycle_stats)

SameKeys-trans : (s t u : Stores) → SameKeys s t → SameKeys t u → SameKeys s u
SameKeys-trans s t u p q j = ((q j).0 ∙ (p j).0, (q j).1 ∙ (p j).1, (q j).2 ∙ (p j).2)

deref-some {ℓ} : {A : Type ℓ} (x : Option A) (a : A) → deref x ≡ ok a → x ≡ some a
deref-some none a h = cc
deref-some (some b) a h = cc

keep_stats-has :
    (s : Stores) (id : ℕ) (stats : Option CycleTransferStats) (j : ℕ)
    → is_some stats ≡ is_some (lookup id s.cycle_stats)
    → has j (keep_stats id stats s.cycle_stats) ≡ has j s.cycle_stats
keep_stats-has s id none j h = refl
keep_stats-has s id (some stats) j h = elim (Option-cases (lookup id s.cycle_stats)) [
  | inl e ↦ absurd (ground (arith, h, e))
  | inr (old, e) ↦ has-insert id j stats old s.cycle_stats e
]

module _ {F : Type 0} ⦃fl : Float64 F⦄ where
  rule_snapshot-some :
      (tick : Tick F) (server : Server F) (u : Rule F) (stats : Option CycleTransferStats)
      (out : (Rule F × Option CycleTransferStats) × Bool)
      → rule_snapshot tick server u stats ≡ ok out
      → is_some (out.0.1) ≡ is_some stats
  unfolding rule_snapshot
  rule_snapshot-some tick server u (some stats) out h =
      let (got, made, first) =
        ok-of->>= {B = (Rule F × Option CycleTransferStats) × Bool}
          (snapshot_at tick.calendar u stats server tick.now tick.transfers)
          (λ got. ok ((got.0.0, some (got.0.1)), got.1)) h in
      ap (λ x. is_some (x.0.1)) (sym (ok-injective made))
  rule_snapshot-some tick server u none out h =
      elim (Bool-cases (
        is_transfer_duration_rule u
        && not (is_skipped u server)
        && not (ltb tick.now (time_of (lookup server.id u.next_transfer_at))))) [
          | inl due ↦ absurd (ground (arith, h, due))
          | inr quiet ↦
              let (got, made, first) =
                ok-of->>= {B = (Rule F × Option CycleTransferStats) × Bool} {value = out}
                  (snapshot_at tick.calendar u blank server tick.now tick.transfers)
                  (λ got. ok ((got.0.0, none), got.1)) (ground (arith, h, quiet)) in
              ap (λ x. is_some (x.0.1)) (sym (ok-injective made))
        ]

  alert_snapshot-some :
      (tick : Tick F) (server : Server F) (us : List (Rule F)) (stats : Option CycleTransferStats)
      (out : (List (Rule F) × Option CycleTransferStats) × List Bool)
      → alert_snapshot tick server us stats ≡ ok out
      → is_some (out.0.1) ≡ is_some stats
  unfolding alert_snapshot
  alert_snapshot-some tick server [] stats out h = ap (λ x. is_some (x.0.1)) (sym (ok-injective h))
  alert_snapshot-some tick server (u ∷ us) stats out h =
      let (here, rest, first) =
        ok-of->>= (rule_snapshot tick server u stats)
          (λ here. alert_snapshot tick server us (here.0.1) >>= λ others.
            ok ((here.0.0 ∷ others.0.0, others.0.1), here.1 ∷ others.1))
          h in
      let (others, made, second) =
        ok-of->>= (alert_snapshot tick server us (here.0.1))
          (λ others. ok ((here.0.0 ∷ others.0.0, others.0.1), here.1 ∷ others.1)) rest in
      ap (λ x. is_some (x.0.1)) (sym (ok-injective made))
      ∙ alert_snapshot-some tick server us (here.0.1) others second
      ∙ rule_snapshot-some tick server u stats here first

  -- A check of an alert at a server keeps the alert's number, and the entries.
  check_pair-SameKeys :
      (tick : Tick F) (alert : AlertRule F) (server : Server F) (s : Stores)
      (out : (AlertRule F × Stores) × List Effect)
      → check_pair tick alert server s ≡ ok out
      → (out.0.0.id ≡ alert.id) × SameKeys s (out.0.1)
  unfolding check_pair
  check_pair-SameKeys tick alert server s out h =
      let (snap, rest, first) =
        ok-of->>= (alert_snapshot tick server alert.rules (lookup alert.id s.cycle_stats)) _ h in
      let (points, rest2, second) = ok-of->>= (deref (lookup alert.id s.store)) _ rest in
      let (states, rest3, third) = ok-of->>= (deref (lookup alert.id s.prev_state)) _ rest2 in
      let (result, made, fourth) =
        ok-of->>=
          (check_server (record alert { rules = snap.0.0 }) server.id (snap.1)
            (record {
              store = or_zero [] (lookup server.id points);
              prev_state = or_zero 0 (lookup server.id states);
            }))
          _ rest3 in
      let same = ok-injective made in
      (
        ap (λ x. x.0.0.id) (sym same),
        λ j. (
          ap (λ x. has j x.0.1.store) (sym same)
              ∙ has-insert alert.id j (insert server.id ((result.0).store) points) points s.store
                  (deref-some (lookup alert.id s.store) points second),
          ap (λ x. has j x.0.1.prev_state) (sym same)
              ∙ has-insert alert.id j (insert server.id ((result.0).prev_state) states) states
                  s.prev_state (deref-some (lookup alert.id s.prev_state) states third),
          ap (λ x. has j x.0.1.cycle_stats) (sym same)
              ∙ keep_stats-has s alert.id (snap.0.1) j (
                  alert_snapshot-some tick server alert.rules (lookup alert.id s.cycle_stats) snap
                    first),
        ),
      )

  check_servers-SameKeys :
      (tick : Tick F) (servers : List (Server F)) (alert : AlertRule F) (s : Stores)
      (out : (AlertRule F × Stores) × List Effect)
      → check_servers tick servers alert s ≡ ok out
      → (out.0.0.id ≡ alert.id) × SameKeys s (out.0.1)
  unfolding check_servers
  check_servers-SameKeys tick [] alert s out h =
      let same = ok-injective h in
      (
        ap (λ x. x.0.0.id) (sym same),
        λ j. (
          ap (λ x. has j x.0.1.store) (sym same),
          ap (λ x. has j x.0.1.prev_state) (sym same),
          ap (λ x. has j x.0.1.cycle_stats) (sym same),
        ),
      )
  check_servers-SameKeys tick (server ∷ servers) alert s out h =
      elim (Bool-cases (
        not (nat_beq alert.user_id server.user_id)
        && not (is_admin (role_of tick.users alert.user_id)))) [
          | inl foreign ↦
              check_servers-SameKeys tick servers alert s out (ground (arith, h, foreign))
          | inr own ↦
              let (here, rest, first) =
                ok-of->>= {B = (AlertRule F × Stores) × List Effect} {value = out}
                  (check_pair tick alert server s)
                  (λ here. check_servers tick servers (here.0.0) (here.0.1) >>= λ others.
                    ok (others.0, here.1 ++ others.1))
                  (ground (arith, h, own)) in
              let (others, made, second) =
                ok-of->>= {B = (AlertRule F × Stores) × List Effect}
                  (check_servers tick servers (here.0.0) (here.0.1))
                  (λ others. ok (others.0, here.1 ++ others.1)) rest in
              let now = check_pair-SameKeys tick alert server s here first in
              let later = check_servers-SameKeys tick servers (here.0.0) (here.0.1) others second in
              subst (λ x. (x.0.0.id ≡ alert.id) × SameKeys s (x.0.1)) (ok-injective made)
                (later.0 ∙ now.0, SameKeys-trans s (here.0.1) (others.0.1) now.1 later.1)
        ]

  check_alert-SameKeys :
      (tick : Tick F) (alert : AlertRule F) (s : Stores)
      (out : (AlertRule F × Stores) × List Effect)
      → (if is_enabled alert
          then check_servers tick (values tick.servers) alert s
          else ok ((alert, s), []))
        ≡ ok out
      → (out.0.0.id ≡ alert.id) × SameKeys s (out.0.1)
  check_alert-SameKeys tick alert s out h = elim (Bool-cases (is_enabled alert)) [
    | inl on ↦ check_servers-SameKeys tick (values tick.servers) alert s out (ground (arith, h, on))
    | inr off ↦
        let same : ((alert, s), []) ≡ out = ok-injective (ground (arith, h, off)) in
        subst (λ x. (x.0.0.id ≡ alert.id) × SameKeys s (x.0.1)) same (refl, λ j. (refl, refl, refl))
  ]

  check_alerts-SameKeys :
      (tick : Tick F) (alerts : List (AlertRule F)) (s : Stores)
      (out : (List (AlertRule F) × Stores) × List Effect)
      → check_alerts tick alerts s ≡ ok out
      → (ids (out.0.0) ≡ ids alerts) × SameKeys s (out.0.1)
  unfolding check_alerts
  check_alerts-SameKeys tick [] s out h =
      let same : (([], s), []) ≡ out = ok-injective h in
      subst (λ x. (ids (x.0.0) ≡ []) × SameKeys s (x.0.1)) same (refl, λ j. (refl, refl, refl))
  check_alerts-SameKeys tick (alert ∷ alerts) s out h =
      let (here, rest, first) =
        ok-of->>=
          (if is_enabled alert
            then check_servers tick (values tick.servers) alert s
            else ok ((alert, s), []))
          (λ here. check_alerts tick alerts (here.0.1) >>= λ others.
            ok ((here.0.0 ∷ others.0.0, others.0.1), here.1 ++ others.1))
          h in
      let (others, made, second) =
        ok-of->>= {B = (List (AlertRule F) × Stores) × List Effect}
          (check_alerts tick alerts (here.0.1))
          (λ others. ok ((here.0.0 ∷ others.0.0, others.0.1), here.1 ++ others.1)) rest in
      let now = check_alert-SameKeys tick alert s here first in
      let later = check_alerts-SameKeys tick alerts (here.0.1) others second in
      subst (λ x. (ids (x.0.0) ≡ ids (alert ∷ alerts)) × SameKeys s (x.0.1)) (ok-injective made)
        (
          ap (λ i. i ∷ ids (others.0.0)) now.0 ∙ ap (λ is. alert.id ∷ is) later.0,
          SameKeys-trans s (here.0.1) (others.0.1) now.1 later.1,
        )

  tick-IsKeyed :
      (tick : Tick F) (a b : Alerts F) (effects : List Effect)
      → check_status tick a ≡ ok (b, effects)
      → IsKeyed a
      → IsKeyed b
  unfolding check_status
  tick-IsKeyed tick a b effects h v =
      let (out, made, first) =
        ok-of->>= {B = Alerts F × List Effect} (check_alerts tick a.alerts a.stores)
          (λ out. ok (record { alerts = out.0.0; stores = out.0.1 }, out.1)) h in
      let (same_ids, keys) = check_alerts-SameKeys tick a.alerts a.stores out first in
      let same : record { alerts = out.0.0; stores = out.0.1 } ≡ b =
        ap (λ x. x.0) (ok-injective made) in
      subst IsKeyed same (record {
        store = λ id. (keys id).0 ∙ v.store id ∙ ap (λ is. contains is id) (sym same_ids);
        prev_state = λ id. (keys id).1 ∙ v.prev_state id ∙ ap (λ is. contains is id) (sym same_ids);
        stats = λ id k. ap (λ is. contains is id) same_ids ∙ v.stats id (sym ((keys id).2) ∙ k);
      })

  -- What happens to the sentinel after its start: a refresh or addition, a deletion, a tick.
  pub data Reach (cal : Calendar) : Alerts F → Type 0 where
    started :
        (now : ℕ) (rows : List (AlertRule F)) (a : Alerts F)
        → alert_sentinel_start cal now rows ≡ ok a
        → Reach cal a
    refreshed :
        (now : ℕ) (alert : AlertRule F) (a b : Alerts F)
        → Reach cal a
        → on_refresh_or_add_alert cal now alert a ≡ ok b
        → Reach cal b
    deleted : (gone : List ℕ) (a : Alerts F) → Reach cal a → Reach cal (on_delete_alert gone a)
    ticked :
        (tick : Tick F) (a b : Alerts F) (effects : List Effect)
        → Reach cal a
        → check_status tick a ≡ ok (b, effects)
        → Reach cal b

  -- In every state that the sentinel reaches, alertsStore and alertsPrevState have an entry for
  -- exactly the present alerts, and statistics are kept of present alerts only.
  pub Reach-IsKeyed : (cal : Calendar) (a : Alerts F) → Reach cal a → IsKeyed a
  Reach-IsKeyed cal c (started now rows a h) = start-IsKeyed cal now rows a h
  Reach-IsKeyed cal c (refreshed now alert a b r h) =
      refresh-IsKeyed cal now alert a b h (Reach-IsKeyed cal a r)
  Reach-IsKeyed cal c (deleted gone a r) = delete-IsKeyed gone a (Reach-IsKeyed cal a r)
  Reach-IsKeyed cal c (ticked tick a b effects r h) =
      tick-IsKeyed tick a b effects h (Reach-IsKeyed cal a r)
