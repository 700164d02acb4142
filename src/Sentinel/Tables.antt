-- ===== src/Sentinel/Tables.antt =====
-- The calls of service/singleton/servicesentinel.go on the tables of the monitor.
use nezha_diff.Base.{
  ℕ, ◌≡◌, refl, sym, subst, ◌∙◌, true, some, List, [], ◌∷◌, ◌⊎◌, inl, inr, arith, nat_eq, nat_beq,
  nat_beq_iff, Bool-cases,
}
use nezha_diff.Float64.{Float64}
use nezha_diff.Outcome.{ok}
use nezha_diff.GoMap.{
  GoMap, lookup, insert, has, has-some, has-insert, keys, contains, contains-keys, lookup-insert,
}
use nezha_diff.Sentinel.{
  TodayStats, ResponseItem, ServiceSentinel, zero_stats, load_stats, roll_item, roll_items,
  refresh_monthly_service_status,
}
use nezha_diff.Sentinel.Days.{roll_item-IsAhead}
use nezha_diff.Sentinel.Stats.{IsWellAhead, Led, Fresh, refresh_items_total, fill_current_total}

-- `ahead` says for each service how far its totals are ahead of the sums of its thirty days; it is 0
-- for a monitor that started without results of the day.
module _ {F : Type 0} ⦃fl : Float64 F⦄ (ahead : ℕ → ℕ × ℕ) where
  -- LoadStats returns, changes only the thirty days, keeps the tables in agreement and the leads of
  -- the totals over the sums of the thirty days, and leaves every service with today's counters in
  -- the last slot; the tables are in agreement before.
  pub load_stats_total :
      (ss : ServiceSentinel F)
      → IsWellAhead ahead ss
      → (m : GoMap ℕ (ResponseItem F)) × (load_stats ss ≡ ok (record ss { monthly_status = m }))
        × IsWellAhead ahead (record ss { monthly_status = m })
        × ((k : ℕ) → has k m ≡ has k ss.monthly_status)
        × ((k : ℕ) (item : ResponseItem F)
            → lookup k m ≡ some item
            → Fresh ss.services ss.service_status_today k item)
  unfolding load_stats
  load_stats_total ss w =
      let known : (k : ℕ) → contains (keys ss.services) k ≡ true → has k ss.services ≡ true =
        λ k h. sym (contains-keys k ss.services) ∙ h in
      let (a, p, sa, ga) =
        refresh_items_total ahead (keys ss.services) ss.services ss.service_status_today
          ss.monthly_status known (λ k h. w.month_today k (w.service_month k (known k h)))
          (λ k h. w.service_month k (known k h))
          (λ k item e. (
            w.tallied k item e,
            λ h s v es ev. absurd (ground (arith, h, es, contains-keys k ss.services)),
          )) in
      let (b, q, sb, gb) =
        fill_current_total ahead ss.services ss.service_status_today ss.service_response_data_store
          a (λ k h. sa k ∙ w.stored_month k h) ga in
      (
        b,
        ground (arith, p, q),
        record {
          service_month = λ k h. sb k ∙ sa k ∙ w.service_month k h;
          service_current = w.service_current;
          month_today = λ k h. w.month_today k (sym (sa k) ∙ sym (sb k) ∙ h);
          stored_month = λ k h. sb k ∙ sa k ∙ w.stored_month k h;
          tallied = λ k item e. (gb k item e).0;
        },
        λ k. sb k ∙ sa k,
        λ k item e. (gb k item e).1,
      )

  -- One service is moved by a day.
  abbrev rolled : ServiceSentinel F → ℕ → ResponseItem F → ServiceSentinel F
  rolled ss k item = record ss {
    monthly_status = insert k (roll_item item) ss.monthly_status;
    service_response_data_store = insert k zero_stats ss.service_response_data_store;
    service_status_today = insert k zero_stats ss.service_status_today;
  }

  rolled-IsWellAhead :
      (ss : ServiceSentinel F) (k : ℕ) (item : ResponseItem F) (v : TodayStats F)
      → IsWellAhead ahead ss
      → lookup k ss.monthly_status ≡ some item
      → lookup k ss.service_status_today ≡ some v
      → IsWellAhead ahead (rolled ss k item)
  rolled-IsWellAhead ss k item v w e ev = record {
    service_month =
        λ j h. has-insert k j (roll_item item) item ss.monthly_status e ∙ w.service_month j h;
    service_current = w.service_current;
    month_today = λ j h.
        has-insert k j zero_stats v ss.service_status_today ev
        ∙ w.month_today j (sym (has-insert k j (roll_item item) item ss.monthly_status e) ∙ h);
    stored_month = λ j h.
        has-insert k j (roll_item item) item ss.monthly_status e
        ∙ ground (
          arith,
          h,
          lookup-insert k j zero_stats ss.service_response_data_store,
          nat_beq_iff k j,
          e,
          w.stored_month j,
        );
    tallied = λ j i h. elim (Bool-cases (nat_beq k j)) [
      | inl t ↦
          let same : roll_item item ≡ i =
            ground (arith, h, t, lookup-insert k j (roll_item item) ss.monthly_status) in
          subst (λ x. Led ahead x i) ((nat_beq_iff k j).0 t)
            (subst (Led ahead k) same
              (roll_item-IsAhead (ahead k).0 (ahead k).1 item (w.tallied k item e)))
      | inr f ↦
          w.tallied j i (ground (arith, h, f, lookup-insert k j (roll_item item) ss.monthly_status))
    ];
  }

  roll_items_cons :
      (k : ℕ) (ks : List ℕ) (ss : ServiceSentinel F) (item : ResponseItem F) (v : TodayStats F)
      → lookup k ss.monthly_status ≡ some item
      → lookup k ss.service_status_today ≡ some v
      → roll_items (k ∷ ks) ss ≡ roll_items ks (rolled ss k item)
  unfolding roll_items
  roll_items_cons k ks ss item v e ev = ground (arith, e, ev)

  rolled_today :
      (ks : List ℕ) (k j : ℕ) (today : GoMap ℕ (TodayStats F))
      → (contains (k ∷ ks) j ≡ true) ⊎ (lookup j today ≡ some zero_stats)
      → (contains ks j ≡ true) ⊎ (lookup j (insert k zero_stats today) ≡ some zero_stats)
  unfolding contains
  rolled_today ks k j today c = elim (Bool-cases (nat_beq k j)) [
    | inl t ↦ inr (ground (arith, t, lookup-insert k j zero_stats today))
    | inr f ↦ elim c [
      | inl h ↦ inl (ground (arith, f, h))
      | inr h ↦ inr (ground (arith, f, h, lookup-insert k j zero_stats today))
    ]
  ]

  roll_items_total :
      (ks : List ℕ) (ss : ServiceSentinel F)
      → IsWellAhead ahead ss
      → ((k : ℕ) → contains ks k ≡ true → has k ss.monthly_status ≡ true)
      → (d : ServiceSentinel F) × (roll_items ks ss ≡ ok d)
        × IsWellAhead ahead d
        × ((k : ℕ) → has k d.monthly_status ≡ has k ss.monthly_status)
        × ((k : ℕ)
            → (contains ks k ≡ true) ⊎ (lookup k ss.service_status_today ≡ some zero_stats)
            → lookup k d.service_status_today ≡ some zero_stats)
  unfolding roll_items contains
  roll_items_total [] ss w h = (ss, refl, w, λ k. refl, λ k c. ground (arith, c))
  roll_items_total (k ∷ ks) ss w h =
      let here = h k (ground (arith, nat_beq_iff k k)) in
      let (item, e) = has-some k ss.monthly_status here in
      let (v, ev) = has-some k ss.service_status_today (w.month_today k here) in
      let same : (j : ℕ)
          → has j (insert k (roll_item item) ss.monthly_status) ≡ has j ss.monthly_status =
        λ j. has-insert k j (roll_item item) item ss.monthly_status e in
      let (d, p, wd, sd, z) =
        roll_items_total ks (rolled ss k item) (rolled-IsWellAhead ss k item v w e ev)
          (λ j c. same j ∙ h j (ground (arith, c))) in
      (
        d,
        roll_items_cons k ks ss item v e ev ∙ p,
        wd,
        λ j. sd j ∙ same j,
        λ j c. z j (rolled_today ks k j ss.service_status_today c),
      )

  -- The day turns over: refreshMonthlyServiceStatus returns, the tables stay in agreement and the
  -- totals keep their leads over the sums of the thirty days, and every service with thirty days
  -- starts the new day at zero; the tables are in agreement before.
  pub refresh_monthly_total :
      (ss : ServiceSentinel F)
      → IsWellAhead ahead ss
      → (d : ServiceSentinel F) × (refresh_monthly_service_status ss ≡ ok d)
        × IsWellAhead ahead d
        × ((k : ℕ) → has k d.monthly_status ≡ has k ss.monthly_status)
        × ((k : ℕ)
            → has k ss.monthly_status ≡ true
            → lookup k d.service_status_today ≡ some zero_stats)
  unfolding refresh_monthly_service_status
  refresh_monthly_total ss w =
      let (m, p, wm, sm, fresh) = load_stats_total ss w in
      let (d, q, wd, sd, z) =
        roll_items_total (keys m) (record ss { monthly_status = m }) wm
          (λ k h. sym (contains-keys k m) ∙ h) in
      (
        d,
        ground (arith, p, q),
        wd,
        λ k. sd k ∙ sm k,
        λ k h. z k (inl (contains-keys k m ∙ sm k ∙ h)),
      )
