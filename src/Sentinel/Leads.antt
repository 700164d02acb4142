-- ===== src/Sentinel/Leads.antt =====
-- The rows of the database in the totals of the monitor that service/singleton/servicesentinel.go
-- starts.
use nezha_diff.Base.{
  ℕ, ◌+◌, ◌-◌, ◌/◌, ◌%◌, ◌<◌, ◌≡◌, refl, sym, subst, ◌∙◌, true, false, none, some, List, [], ◌∷◌,
  arith, nat_eq, nat_beq, nat_beq_iff, if◌then◌else◌, ltb, get_or, set, length-set, Bool-cases, inl,
  inr,
}
use nezha_diff.Word.{word, add_uint}
use nezha_diff.Float64.{Float64}
use nezha_diff.Outcome.{ok}
use nezha_diff.GoMap.{
  GoMap, lookup, insert, has, has-some, has-insert, every-insert, every_other-insert, lookup-insert,
}
use nezha_diff.Sentinel.{
  Service, TodayStats, ResponseItem, ServiceSentinel, zero_stats, new_item, new_task_status,
}
use nezha_diff.Sentinel.Days.{sum, sum-set, IsTallied, new_item-IsTallied}
use nezha_diff.Sentinel.Stats.{IsWellAhead, IsWell, Led}
use nezha_diff.Sentinel.Registry.{insert-keys}
use nezha_diff.Sentinel.Start.{
  HistoryRow, load_service, load_services, or_zero, history_item, today_item, add_history,
  add_histories, add_today, add_todays,
}

-- A slot and the total take the same number, past the wrap-around.
add_wrap :
    (total s s' old new : ℕ)
    → total ≡ s % word
    → s' + old ≡ s + add_uint old new
    → add_uint total new ≡ s' % word
add_wrap total s s' old new e h = omega arith

module _ {F : Type 0} where
  -- What the rows add for a service.
  abbrev pub up_of : List (HistoryRow F) → ℕ → ℕ
  up_of [] k = 0
  up_of (mh ∷ mhs) k = (if nat_beq mh.service_id k then mh.up else 0) + up_of mhs k

  abbrev pub down_of : List (HistoryRow F) → ℕ → ℕ
  down_of [] k = 0
  down_of (mh ∷ mhs) k = (if nat_beq mh.service_id k then mh.down else 0) + down_of mhs k

  -- The rows are of known services.
  abbrev pub AllKnown : List (HistoryRow F) → GoMap ℕ (Service F) → Type 0
  AllKnown [] services = Unit
  AllKnown (mh ∷ mhs) services = (has mh.service_id services ≡ true) × AllKnown mhs services

module _ {F : Type 0} ⦃fl : Float64 F⦄ where
  load_service-IsWell :
      (s : Service F) (ss : ServiceSentinel F) → IsWell ss → IsWell (load_service s ss)
  unfolding load_service
  load_service-IsWell s ss w = record {
    service_month = λ j h.
        insert-keys s.id j s (new_item s) ss.services ss.monthly_status (w.service_month j) h;
    service_current = λ j h.
        insert-keys s.id j s (new_task_status none) ss.services ss.service_current_status_data
          (w.service_current j) h;
    month_today = λ j h.
        insert-keys s.id j (new_item s) zero_stats ss.monthly_status ss.service_status_today
          (w.month_today j) h;
    stored_month = λ j h. ground (
      arith,
      h,
      w.stored_month j,
      lookup-insert s.id j (new_item s) ss.monthly_status,
      nat_beq_iff s.id j,
    );
    tallied =
        every-insert (λ k item. IsTallied item) s.id (new_item s) ss.monthly_status w.tallied
          (new_item-IsTallied s);
  }

  pub load_services-IsWell :
      (l : List (Service F)) (ss : ServiceSentinel F) → IsWell ss → IsWell (load_services l ss)
  unfolding load_services
  load_services-IsWell [] ss w = w
  load_services-IsWell (s ∷ l) ss w =
      load_services-IsWell l (load_service s ss) (load_service-IsWell s ss w)

  history_item-IsTallied :
      (mh : HistoryRow F) (day count : ℕ) (item : ResponseItem F)
      → day < 30
      → IsTallied item
      → IsTallied (history_item mh day count item)
  unfolding history_item
  history_item-IsTallied mh day count item h t = record {
    ups = omega (arith, t.ups, length-set item.up day (add_uint (get_or item.up day 0) mh.up));
    downs =
        omega
          (arith, t.downs, length-set item.down day (add_uint (get_or item.down day 0) mh.down));
    total_ups =
        add_wrap item.total_up (sum item.up + 0)
          (sum (set item.up day (add_uint (get_or item.up day 0) mh.up)) + 0) (get_or item.up day 0)
          mh.up t.total_ups
          (omega (
            arith,
            sum-set item.up day (add_uint (get_or item.up day 0) mh.up) (omega (arith, t.ups)),
          ));
    total_downs =
        add_wrap item.total_down (sum item.down + 0)
          (sum (set item.down day (add_uint (get_or item.down day 0) mh.down)) + 0)
          (get_or item.down day 0) mh.down t.total_downs
          (omega (
            arith,
            sum-set item.down day (add_uint (get_or item.down day 0) mh.down)
                (omega (arith, t.downs)),
          ));
  }

  -- The rows of the past days keep the rows tallied.
  pub add_histories_total :
      (mhs : List (HistoryRow F)) (services : GoMap ℕ (Service F))
      (monthly : GoMap ℕ (ResponseItem F)) (counts : GoMap ℕ ℕ)
      → AllKnown mhs services
      → ((k : ℕ) → has k services ≡ true → has k monthly ≡ true)
      → ((k : ℕ) (item : ResponseItem F) → lookup k monthly ≡ some item → IsTallied item)
      → (out : GoMap ℕ (ResponseItem F) × GoMap ℕ ℕ) × (add_histories mhs (monthly, counts)
          ≡ ok out)
        × ((k : ℕ) → has k out.0 ≡ has k monthly)
        × ((k : ℕ) (item : ResponseItem F) → lookup k out.0 ≡ some item → IsTallied item)
  unfolding add_histories add_history
  add_histories_total [] services monthly counts a h t = ((monthly, counts), refl, λ k. refl, t)
  add_histories_total (mh ∷ mhs) services monthly counts a h t =
      elim (Bool-cases (ltb 28 (mh.hours / 24))) [
        | inl old ↦
            let (out, p, s, w) = add_histories_total mhs services monthly counts a.1 h t in
            (out, ground (arith, old, p), s, w)
        | inr new ↦
            let day = 28 - mh.hours / 24 in
            let (item, e) = has-some mh.service_id monthly (h mh.service_id a.0) in
            let count = or_zero (lookup day counts) in
            let now = history_item mh day count item in
            let same : (k : ℕ) → has k (insert mh.service_id now monthly) ≡ has k monthly =
              λ k. has-insert mh.service_id k now item monthly e in
            let (out, p, s, w) =
              add_histories_total mhs services (insert mh.service_id now monthly)
                (insert day (count + 1) counts) a.1 (λ k g. same k ∙ h k g)
                (every-insert (λ k i. IsTallied i) mh.service_id now monthly t
                  (history_item-IsTallied mh day count item (omega arith)
                    (t mh.service_id item e))) in
            (out, ground (arith, new, e, p), λ k. s k ∙ same k, w)
      ]

  -- Leads that are equal for every service are as good.
  pub relead :
      (a b : ℕ → ℕ × ℕ) (ss : ServiceSentinel F)
      → ((k : ℕ) → (a k).0 ≡ (b k).0)
      → ((k : ℕ) → (a k).1 ≡ (b k).1)
      → IsWellAhead a ss
      → IsWellAhead b ss
  relead a b ss p q w = record {
    service_month = w.service_month;
    service_current = w.service_current;
    month_today = w.month_today;
    stored_month = w.stored_month;
    tallied = λ k item e.
        let t = w.tallied k item e in
        record {
          ups = t.ups;
          downs = t.downs;
          total_ups = omega (arith, t.total_ups, p k);
          total_downs = omega (arith, t.total_downs, q k);
        };
  }

  -- The leads after one more row of today.
  abbrev pub with_row : HistoryRow F → (ℕ → ℕ × ℕ) → ℕ → ℕ × ℕ
  with_row mh lead k = (
    (lead k).0 + (if nat_beq mh.service_id k then mh.up else 0),
    (lead k).1 + (if nat_beq mh.service_id k then mh.down else 0),
  )

  other-Led :
      (mh : HistoryRow F) (lead : ℕ → ℕ × ℕ) (k : ℕ) (item : ResponseItem F)
      → nat_beq mh.service_id k ≡ false
      → Led lead k item
      → Led (with_row mh lead) k item
  other-Led mh lead k item f t = record {
    ups = t.ups;
    downs = t.downs;
    total_ups = ground (arith, t.total_ups, f);
    total_downs = ground (arith, t.total_downs, f);
  }

  today_item-Led :
      (mh : HistoryRow F) (lead : ℕ → ℕ × ℕ) (item : ResponseItem F)
      → Led lead mh.service_id item
      → Led (with_row mh lead) mh.service_id (today_item mh item)
  unfolding today_item
  today_item-Led mh lead item t = record {
    ups = t.ups;
    downs = t.downs;
    total_ups = ground (arith, t.total_ups, nat_beq_iff mh.service_id mh.service_id);
    total_downs = ground (arith, t.total_downs, nat_beq_iff mh.service_id mh.service_id);
  }

  add_today_total :
      (mh : HistoryRow F) (lead : ℕ → ℕ × ℕ) (ss : ServiceSentinel F)
      → has mh.service_id ss.services ≡ true
      → IsWellAhead lead ss
      → (d : ServiceSentinel F) × (add_today mh ss ≡ ok d)
        × IsWellAhead (with_row mh lead) d
        × (d.services ≡ ss.services)
  unfolding add_today
  add_today_total mh lead ss h w =
      let id = mh.service_id in
      let month = w.service_month id h in
      let (v, ev) = has-some id ss.service_status_today (w.month_today id month) in
      let (item, e) = has-some id ss.monthly_status month in
      let v' : TodayStats F = record v {
        up = add_uint v.up mh.up;
        down = add_uint v.down mh.down;
      } in
      let now = today_item mh item in
      let same : (k : ℕ) → has k (insert id now ss.monthly_status) ≡ has k ss.monthly_status =
        λ k. has-insert id k now item ss.monthly_status e in
      (
        record ss {
          service_status_today = insert id v' ss.service_status_today;
          monthly_status = insert id now ss.monthly_status;
        },
        ground (arith, ev, e),
        record {
          service_month = λ k g. same k ∙ w.service_month k g;
          service_current = w.service_current;
          month_today = λ k g.
              has-insert id k v' v ss.service_status_today ev ∙ w.month_today k (sym (same k) ∙ g);
          stored_month = λ k g. same k ∙ w.stored_month k g;
          tallied =
              every_other-insert (Led (with_row mh lead)) id now ss.monthly_status
                (λ k i f l. other-Led mh lead k i f (w.tallied k i l))
                (today_item-Led mh lead item (w.tallied id item e));
        },
        refl,
      )

  pub add_todays_total :
      (mhs : List (HistoryRow F)) (lead : ℕ → ℕ × ℕ) (ss : ServiceSentinel F)
      → AllKnown mhs ss.services
      → IsWellAhead lead ss
      → (d : ServiceSentinel F) × (add_todays mhs ss ≡ ok d)
        × IsWellAhead (λ k. ((lead k).0 + up_of mhs k, (lead k).1 + down_of mhs k)) d
        × (d.services ≡ ss.services)
  unfolding add_todays
  add_todays_total [] lead ss a w =
      (ss, refl, relead lead _ ss (λ k. omega arith) (λ k. omega arith) w, refl)
  add_todays_total (mh ∷ mhs) lead ss a w =
      let (c, p, wc, sc) = add_today_total mh lead ss a.0 w in
      let (d, q, wd, sd) =
        add_todays_total mhs (with_row mh lead) c (subst (AllKnown mhs) (sym sc) a.1) wc in
      (d, ground (arith, p, q), relead _ _ d (λ k. omega arith) (λ k. omega arith) wd, sd ∙ sc)
