-- ===== src/Alerts/Keys.antt =====
-- Which alerts the three stores of service/singleton/alertsentinel.go have an entry for.
use nezha_diff.Base.{
  ℕ, ◌≡◌, refl, ap, subst, sym, ◌∙◌, Bool, true, false, not, ◌&&◌, ◌||◌, Option, none, some, List,
  [], ◌∷◌, ◌++◌, map, arith, nat_eq, nat_beq, nat_beq_iff, keep, Option-cases, Bool-cases, inl, inr,
}
use nezha_diff.Outcome.{ok, ok-of->>=, ok-injective}
use nezha_diff.GoMap.{GoMap, contains, lookup, insert, remove, has, lookup-insert, lookup-remove}
use nezha_diff.Float64.{Float64}
use nezha_diff.Rule.{Rule, AlertRule, is_enabled, is_transfer_duration_rule}
use nezha_diff.Rule.Cycle.{Calendar, transfer_duration}
use nezha_diff.Rule.Snapshot.{CycleTransferStats, ended}
use nezha_diff.Alerts.{
  Stores, Alerts, new_stats, add_cycle_stats, add_cycle_transfer_stats_info, open_stores,
  start_each, alert_sentinel_start, replace_alert, put_alert, on_refresh_or_add_alert, delete_alert,
  on_delete_alert,
}

abbrev pub is_some {ℓ} : {A : Type ℓ} → Option A → Bool
is_some none = false
is_some (some a) = true

has-insert_any {ℓ} :
    {V : Type ℓ} (k j : ℕ) (v : V) (m : GoMap ℕ V) → has j (insert k v m) ≡ nat_beq k j || has j m
has-insert_any k j v m = ground (arith, lookup-insert k j v m)

has-remove {ℓ} :
    {V : Type ℓ} (k j : ℕ) (m : GoMap ℕ V) → has j (remove k m) ≡ not (nat_beq k j) && has j m
has-remove k j m = ground (arith, lookup-remove k j m)

contains-append : (xs ys : List ℕ) (j : ℕ) → contains (xs ++ ys) j ≡ contains xs j || contains ys j
unfolding contains
contains-append [] ys j = refl
contains-append (x ∷ xs) ys j = ground (arith, contains-append xs ys j)

module _ {F : Type 0} where
  abbrev pub ids : List (AlertRule F) → List ℕ
  ids = map (λ alert. alert.id)

  -- The two maps of the checks have an entry for exactly the alerts, and statistics are kept of
  -- alerts only.
  pub record IsKeyed (a : Alerts F) : Type 0 where
    pub store : (id : ℕ) → has id a.stores.store ≡ contains (ids a.alerts) id
    pub prev_state : (id : ℕ) → has id a.stores.prev_state ≡ contains (ids a.alerts) id
    pub stats : (id : ℕ) → has id a.stores.cycle_stats ≡ true → contains (ids a.alerts) id ≡ true

  ids-append : (xs ys : List (AlertRule F)) → ids (xs ++ ys) ≡ ids xs ++ ids ys
  ids-append [] ys = refl
  ids-append (x ∷ xs) ys = ap (λ t. x.id ∷ t) (ids-append xs ys)

  contains-replace_alert :
      (alert : AlertRule F) (alerts : List (AlertRule F)) (j : ℕ)
      → contains (ids (replace_alert alert alerts)) j ≡ contains (ids alerts) j
  unfolding replace_alert contains
  contains-replace_alert alert [] j = refl
  contains-replace_alert alert (x ∷ xs) j =
      ground (arith, contains-replace_alert alert xs j, nat_beq_iff x.id alert.id)

  contains-put_alert :
      (alert : AlertRule F) (alerts : List (AlertRule F)) (j : ℕ)
      → contains (ids (put_alert alert alerts)) j ≡ nat_beq alert.id j || contains (ids alerts) j
  unfolding put_alert contains
  contains-put_alert alert alerts j = ground (
    arith,
    contains-replace_alert alert alerts j,
    contains-append (ids alerts) (alert.id ∷ []) j,
    ids-append alerts (alert ∷ []),
    nat_beq_iff alert.id j,
  )

  contains-keep :
      (id : ℕ) (alerts : List (AlertRule F)) (j : ℕ)
      → contains (ids (keep (λ alert. not (nat_beq alert.id id)) alerts)) j
        ≡ not (nat_beq id j) && contains (ids alerts) j
  unfolding contains
  contains-keep id [] j = ground arith
  contains-keep id (x ∷ xs) j =
      ground
        (arith, contains-keep id xs j, nat_beq_iff x.id id, nat_beq_iff x.id j, nat_beq_iff id j)

  delete_alert-IsKeyed : (id : ℕ) (a : Alerts F) → IsKeyed a → IsKeyed (delete_alert id a)
  unfolding delete_alert
  delete_alert-IsKeyed id a v = record {
    store =
        λ j. ground (arith, has-remove id j a.stores.store, contains-keep id a.alerts j, v.store j);
    prev_state = λ j.
        ground
          (arith, has-remove id j a.stores.prev_state, contains-keep id a.alerts j, v.prev_state j);
    stats = λ j k.
        ground
          (arith, has-remove id j a.stores.cycle_stats, contains-keep id a.alerts j, v.stats j);
  }

  pub delete-IsKeyed : (gone : List ℕ) (a : Alerts F) → IsKeyed a → IsKeyed (on_delete_alert gone a)
  unfolding on_delete_alert
  delete-IsKeyed [] a v = v
  delete-IsKeyed (id ∷ rest) a v =
      delete-IsKeyed rest (delete_alert id a) (delete_alert-IsKeyed id a v)

module _ {F : Type 0} ⦃fl : Float64 F⦄ where
  -- Statistics are added for the alert alone.
  add_cycle_stats-has :
      (cal : Calendar) (now : ℕ) (alert : AlertRule F) (rules : List (Rule F))
      (stats out : GoMap ℕ CycleTransferStats) (j : ℕ)
      → add_cycle_stats cal now alert rules stats ≡ ok out
      → has j out ≡ true
      → nat_beq alert.id j || has j stats ≡ true
  unfolding add_cycle_stats
  add_cycle_stats-has cal now alert [] stats out j h t = ground (arith, ok-injective h)
  add_cycle_stats-has cal now alert (rule ∷ rules) stats out j h t =
      elim (Bool-cases (is_transfer_duration_rule rule)) [
        | inr off ↦ add_cycle_stats-has cal now alert rules stats out j (ground (arith, h, off)) t
        | inl cyclic ↦ elim (Option-cases (lookup alert.id stats)) [
          | inr (old, e) ↦
              add_cycle_stats-has cal now alert rules stats out j (ground (arith, h, cyclic, e)) t
          | inl e ↦
              let (cycle, made, here) =
                ok-of->>= (ended (transfer_duration cal rule now))
                  (λ cycle.
                    add_cycle_stats cal now alert rules
                      (insert alert.id (new_stats alert rule cycle) stats))
                  (ground (arith, h, cyclic, e)) in
              let rest =
                add_cycle_stats-has cal now alert rules
                  (insert alert.id (new_stats alert rule cycle) stats) out j made t in
              ground (arith, rest, has-insert_any alert.id j (new_stats alert rule cycle) stats)
        ]
      ]

  -- What `addCycleTransferStatsInfo` changes.
  add_info-Keyed :
      (cal : Calendar) (now : ℕ) (alert : AlertRule F) (s out : Stores)
      → add_cycle_transfer_stats_info cal now alert s ≡ ok out
      → (out.store ≡ s.store)
        × (out.prev_state ≡ s.prev_state)
        × ((j : ℕ)
            → has j out.cycle_stats ≡ true
            → nat_beq alert.id j || has j s.cycle_stats ≡ true)
  unfolding add_cycle_transfer_stats_info
  add_info-Keyed cal now alert s out h = elim (Bool-cases (is_enabled alert)) [
    | inr off ↦
        let same : s ≡ out = ok-injective (ground (arith, h, off)) in
        (
          ap (λ t. t.store) (sym same),
          ap (λ t. t.prev_state) (sym same),
          λ j t. ground (arith, same),
        )
    | inl enabled ↦
        let (stats, made, first) =
          ok-of->>= (add_cycle_stats cal now alert alert.rules s.cycle_stats)
            (λ stats. ok (record s { cycle_stats = stats })) (ground (arith, h, enabled)) in
        let same : record s { cycle_stats = stats } ≡ out = ok-injective made in
        (
          ap (λ t. t.store) (sym same),
          ap (λ t. t.prev_state) (sym same),
          λ j t.
              add_cycle_stats-has cal now alert alert.rules s.cycle_stats stats j first
                (ap (λ u. has j u.cycle_stats) same ∙ t),
        )
  ]

  open_each-Keyed :
      (cal : Calendar) (now : ℕ) (alerts : List (AlertRule F)) (s out : Stores)
      → start_each cal now alerts s ≡ ok out
      → (j : ℕ)
      → (has j out.store ≡ contains (ids alerts) j || has j s.store)
        × (has j out.prev_state ≡ contains (ids alerts) j || has j s.prev_state)
        × (has j out.cycle_stats ≡ true → contains (ids alerts) j || has j s.cycle_stats ≡ true)
  unfolding start_each contains
  open_each-Keyed cal now [] s out h j =
      let same : s ≡ out = ok-injective h in
      (
        ap (λ t. has j t.store) (sym same),
        ap (λ t. has j t.prev_state) (sym same),
        λ t. ap (λ u. has j u.cycle_stats) same ∙ t,
      )
  open_each-Keyed cal now (alert ∷ alerts) s out h j =
      let (t, rest, first) =
        ok-of->>= (add_cycle_transfer_stats_info cal now alert (open_stores alert.id s))
          (λ t. start_each cal now alerts t) h in
      let here = add_info-Keyed cal now alert (open_stores alert.id s) t first in
      let later = open_each-Keyed cal now alerts t out rest j in
      let store : has j t.store ≡ nat_beq alert.id j || has j s.store =
        ap (λ m. has j m) here.0 ∙ has-insert_any alert.id j [] s.store in
      let prev : has j t.prev_state ≡ nat_beq alert.id j || has j s.prev_state =
        ap (λ m. has j m) here.1 ∙ has-insert_any alert.id j [] s.prev_state in
      (
        ground (arith, later.0, store),
        ground (arith, later.1, prev),
        λ k. ground (arith, later.2 k, here.2 j),
      )

  -- The sentinel starts with stores for exactly its alerts.
  pub start-IsKeyed :
      (cal : Calendar) (now : ℕ) (rows : List (AlertRule F)) (a : Alerts F)
      → alert_sentinel_start cal now rows ≡ ok a
      → IsKeyed a
  unfolding alert_sentinel_start lookup
  start-IsKeyed cal now rows a h =
      let nothing : Stores = record { store = []; prev_state = []; cycle_stats = [] } in
      let (s, made, first) =
        ok-of->>= (start_each cal now rows nothing) (λ s. ok (record { alerts = rows; stores = s }))
          h in
      let keyed = open_each-Keyed cal now rows nothing s first in
      subst IsKeyed (ok-injective made) (record {
        store = λ id. ground (arith, (keyed id).0);
        prev_state = λ id. ground (arith, (keyed id).1);
        stats = λ id k. ground (arith, (keyed id).2 k);
      })

  pub refresh-IsKeyed :
      (cal : Calendar) (now : ℕ) (alert : AlertRule F) (a b : Alerts F)
      → on_refresh_or_add_alert cal now alert a ≡ ok b
      → IsKeyed a
      → IsKeyed b
  unfolding on_refresh_or_add_alert
  refresh-IsKeyed cal now alert a b h v =
      let cleared : Stores = record {
        store = insert alert.id [] (remove alert.id a.stores.store);
        prev_state = insert alert.id [] (remove alert.id a.stores.prev_state);
        cycle_stats = remove alert.id a.stores.cycle_stats;
      } in
      let (s, made, first) =
        ok-of->>= (add_cycle_transfer_stats_info cal now alert cleared)
          (λ s. ok (record { alerts = put_alert alert a.alerts; stores = s })) h in
      let here = add_info-Keyed cal now alert cleared s first in
      subst IsKeyed (ok-injective made) (record {
        store = λ id.
            ap (λ m. has id m) here.0
            ∙ ground (
              arith,
              has-insert_any alert.id id [] (remove alert.id a.stores.store),
              has-remove alert.id id a.stores.store,
              contains-put_alert alert a.alerts id,
              v.store id,
            );
        prev_state = λ id.
            ap (λ m. has id m) here.1
            ∙ ground (
              arith,
              has-insert_any alert.id id [] (remove alert.id a.stores.prev_state),
              has-remove alert.id id a.stores.prev_state,
              contains-put_alert alert a.alerts id,
              v.prev_state id,
            );
        stats = λ id k. ground (
          arith,
          here.2 id k,
          has-remove alert.id id a.stores.cycle_stats,
          contains-put_alert alert a.alerts id,
          v.stats id,
        );
      })
