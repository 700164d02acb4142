-- ===== src/Sentinel/Stats.antt =====
-- LoadStats and refreshMonthlyServiceStatus of service/singleton/servicesentinel.go: the keys that the
-- maps of the monitor share, and the loops of the two.
use nezha_diff.Base.{
  ℕ, ◌≡◌, refl, subst, ◌∙◌, true, false, some, List, [], ◌∷◌, arith, nat_eq, nat_beq, nat_beq_iff,
  Bool-cases, inl, inr, get_or, get_or-set,
}
use nezha_diff.Float64.{Float64}
use nezha_diff.Outcome.{ok}
use nezha_diff.GoMap.{GoMap, has-some, has-insert, lookup, insert, has, contains, lookup-insert}
use nezha_diff.Sentinel.{
  Service, TodayStats, ResponseItem, ServiceSentinel, refresh_item, refresh_items, fill_current,
}
use nezha_diff.Sentinel.Days.{IsAhead, refresh_item-IsAhead}

module _ {F : Type 0} where
  -- The tables of the monitor agree on the services, and the totals of each are ahead of its sums.
  pub record IsWellAhead (ahead : ℕ → ℕ × ℕ) (ss : ServiceSentinel F) : Type 0 where
    pub service_month : (k : ℕ) → has k ss.services ≡ true → has k ss.monthly_status ≡ true
    pub service_current :
        (k : ℕ) → has k ss.services ≡ true → has k ss.service_current_status_data ≡ true
    pub month_today :
        (k : ℕ) → has k ss.monthly_status ≡ true → has k ss.service_status_today ≡ true
    pub stored_month :
        (k : ℕ) → has k ss.service_response_data_store ≡ true → has k ss.monthly_status ≡ true
    pub tallied :
        (k : ℕ) (item : ResponseItem F)
        → lookup k ss.monthly_status ≡ some item
        → IsAhead (ahead k).0 (ahead k).1 item

  -- The tables agree, and the totals are the sums.
  abbrev pub IsWell : ServiceSentinel F → Type 0
  IsWell = IsWellAhead (λ _. (0, 0))

  -- A row shows its service and today's counters.
  abbrev pub Fresh : GoMap ℕ (Service F) → GoMap ℕ (TodayStats F) → ℕ → ResponseItem F → Type 0
  Fresh services today k item =
      (s : Service F) (v : TodayStats F)
      → lookup k services ≡ some s
      → lookup k today ≡ some v
      → (item.service ≡ s) × (get_or item.up 29 0 ≡ v.up) × (get_or item.down 29 0 ≡ v.down)

module _ {F : Type 0} ⦃fl : Float64 F⦄ where
  refresh_item-Fresh :
      (services : GoMap ℕ (Service F)) (today : GoMap ℕ (TodayStats F)) (k : ℕ) (s : Service F)
      (v : TodayStats F) (item : ResponseItem F)
      → lookup k services ≡ some s
      → lookup k today ≡ some v
      → {u d : ℕ} → IsAhead u d item
      → Fresh services today k (refresh_item s v item)
  unfolding refresh_item
  refresh_item-Fresh services today k s v item e f h s' v' e' f' = (
    cc,
    get_or-set item.up 29 v.up 0 (omega (arith, h.ups)) ∙ cc,
    get_or-set item.down 29 v.down 0 (omega (arith, h.downs)) ∙ cc,
  )

  abbrev pub Led : (ℕ → ℕ × ℕ) → ℕ → ResponseItem F → Type 0
  Led ahead k item = IsAhead (ahead k).0 (ahead k).1 item

module _ {F : Type 0} ⦃fl : Float64 F⦄ (ahead : ℕ → ℕ × ℕ) where
  refreshed-good :
      (ks : List ℕ) (services : GoMap ℕ (Service F)) (today : GoMap ℕ (TodayStats F))
      (monthly : GoMap ℕ (ResponseItem F)) (k : ℕ) (item : ResponseItem F) (s : Service F)
      (v : TodayStats F)
      → lookup k monthly ≡ some item
      → lookup k services ≡ some s
      → lookup k today ≡ some v
      → ((j : ℕ) (i : ResponseItem F)
          → lookup j monthly ≡ some i
          → Led ahead j i × (contains (k ∷ ks) j ≡ false → Fresh services today j i))
      → (j : ℕ) (i : ResponseItem F) → lookup j (insert k (refresh_item s v item) monthly) ≡ some i
      → Led ahead j i × (contains ks j ≡ false → Fresh services today j i)
  unfolding contains
  refreshed-good ks services today monthly k item s v e es ev hi j i h =
      elim (Bool-cases (nat_beq k j)) [
        | inl t ↦
            let same : refresh_item s v item ≡ i =
              ground (arith, h, t, lookup-insert k j (refresh_item s v item) monthly) in
            let good = refresh_item-IsAhead (ahead k).0 (ahead k).1 s v item (hi k item e).0 in
            let fresh = refresh_item-Fresh services today k s v item es ev (hi k item e).0 in
            (
              subst (λ x. Led ahead x i) ((nat_beq_iff k j).0 t) (subst (Led ahead k) same good),
              λ _.
                  subst (λ x. Fresh services today x i) ((nat_beq_iff k j).0 t)
                    (subst (λ x. Fresh services today k x) same fresh),
            )
        | inr f ↦
            let old : lookup j monthly ≡ some i =
              ground (arith, h, f, lookup-insert k j (refresh_item s v item) monthly) in
            ((hi j i old).0, λ c. (hi j i old).1 (ground (arith, c, f)))
      ]

  refresh_items_cons :
      (k : ℕ) (ks : List ℕ) (services : GoMap ℕ (Service F)) (today : GoMap ℕ (TodayStats F))
      (monthly : GoMap ℕ (ResponseItem F)) (item : ResponseItem F) (s : Service F)
      (v : TodayStats F)
      → lookup k monthly ≡ some item
      → lookup k services ≡ some s
      → lookup k today ≡ some v
      → refresh_items (k ∷ ks) services today monthly
        ≡ refresh_items ks services today (insert k (refresh_item s v item) monthly)
  unfolding refresh_items
  refresh_items_cons k ks services today monthly item s v e es ev = ground (arith, e, es, ev)

  pub refresh_items_total :
      (ks : List ℕ) (services : GoMap ℕ (Service F)) (today : GoMap ℕ (TodayStats F))
      (monthly : GoMap ℕ (ResponseItem F))
      → ((k : ℕ) → contains ks k ≡ true → has k services ≡ true)
      → ((k : ℕ) → contains ks k ≡ true → has k today ≡ true)
      → ((k : ℕ) → contains ks k ≡ true → has k monthly ≡ true)
      → ((k : ℕ) (item : ResponseItem F)
          → lookup k monthly ≡ some item
          → Led ahead k item × (contains ks k ≡ false → Fresh services today k item))
      → (m : GoMap ℕ (ResponseItem F)) × (refresh_items ks services today monthly ≡ ok m)
        × ((k : ℕ) → has k m ≡ has k monthly)
        × ((k : ℕ) (item : ResponseItem F)
            → lookup k m ≡ some item
            → Led ahead k item × Fresh services today k item)
  unfolding refresh_items contains
  refresh_items_total [] services today monthly hs ht hm hi =
      (monthly, refl, λ k. refl, λ k item e. ((hi k item e).0, (hi k item e).1 refl))
  refresh_items_total (k ∷ ks) services today monthly hs ht hm hi =
      let (item, e) = has-some k monthly (hm k (ground (arith, nat_beq_iff k k))) in
      let (s, es) = has-some k services (hs k (ground (arith, nat_beq_iff k k))) in
      let (v, ev) = has-some k today (ht k (ground (arith, nat_beq_iff k k))) in
      let (m, p, same, good) =
        refresh_items_total ks services today (insert k (refresh_item s v item) monthly)
          (λ j h. hs j (ground (arith, h))) (λ j h. ht j (ground (arith, h)))
          (λ j h. has-insert k j (refresh_item s v item) item monthly e ∙ hm j (ground (arith, h)))
          (refreshed-good ks services today monthly k item s v e es ev hi) in
      (
        m,
        refresh_items_cons k ks services today monthly item s v e es ev ∙ p,
        λ j. same j ∙ has-insert k j (refresh_item s v item) item monthly e,
        good,
      )

  filled-good :
      (services : GoMap ℕ (Service F)) (today : GoMap ℕ (TodayStats F))
      (monthly : GoMap ℕ (ResponseItem F)) (k : ℕ) (item : ResponseItem F) (up down : ℕ)
      → lookup k monthly ≡ some item
      → ((j : ℕ) (i : ResponseItem F)
          → lookup j monthly ≡ some i
          → Led ahead j i × Fresh services today j i)
      → (j : ℕ) (i : ResponseItem F)
      → lookup j (insert k (record item { current_up = up; current_down = down }) monthly) ≡ some i
      → Led ahead j i × Fresh services today j i
  filled-good services today monthly k item up down e hi j i h =
      let new = record item { current_up = up; current_down = down } in
      elim (Bool-cases (nat_beq k j)) [
        | inl t ↦
            let same : new ≡ i = ground (arith, h, t, lookup-insert k j new monthly) in
            let old = hi k item e in
            let good : Led ahead k new = record {
              ups = old.0.ups;
              downs = old.0.downs;
              total_ups = old.0.total_ups;
              total_downs = old.0.total_downs;
            } in
            (
              subst (λ x. Led ahead x i) ((nat_beq_iff k j).0 t) (subst (Led ahead k) same good),
              subst (λ x. Fresh services today x i) ((nat_beq_iff k j).0 t)
                  (subst (λ x. Fresh services today k x) same (old.1)),
            )
        | inr f ↦ hi j i (ground (arith, h, f, lookup-insert k j new monthly))
      ]

  fill_current_cons :
      (k : ℕ) (v : TodayStats F) (store : GoMap ℕ (TodayStats F))
      (monthly : GoMap ℕ (ResponseItem F)) (item : ResponseItem F)
      → lookup k monthly ≡ some item
      → fill_current ((k, v) ∷ store) monthly
        ≡ fill_current store
            (insert k (record item { current_up = v.up; current_down = v.down }) monthly)
  unfolding fill_current
  fill_current_cons k v store monthly item e = ground (arith, e)

  pub fill_current_total :
      (services : GoMap ℕ (Service F)) (today store : GoMap ℕ (TodayStats F))
      (monthly : GoMap ℕ (ResponseItem F))
      → ((k : ℕ) → has k store ≡ true → has k monthly ≡ true)
      → ((k : ℕ) (item : ResponseItem F)
          → lookup k monthly ≡ some item
          → Led ahead k item × Fresh services today k item)
      → (m : GoMap ℕ (ResponseItem F)) × (fill_current store monthly ≡ ok m)
        × ((k : ℕ) → has k m ≡ has k monthly)
        × ((k : ℕ) (item : ResponseItem F)
            → lookup k m ≡ some item
            → Led ahead k item × Fresh services today k item)
  unfolding fill_current lookup
  fill_current_total services today [] monthly hm hi = (monthly, refl, λ k. refl, hi)
  fill_current_total services today ((k, v) ∷ store) monthly hm hi =
      let (item, e) = has-some k monthly (hm k (ground (arith, nat_beq_iff k k))) in
      let new = record item { current_up = v.up; current_down = v.down } in
      let (m, p, same, good) =
        fill_current_total services today store (insert k new monthly)
          (λ j h. has-insert k j new item monthly e ∙ hm j (ground (arith, h)))
          (filled-good services today monthly k item v.up v.down e hi) in
      (
        m,
        fill_current_cons k v store monthly item e ∙ p,
        λ j. same j ∙ has-insert k j new item monthly e,
        good,
      )
