-- ===== src/Sentinel/Started.antt =====
-- The monitor that NewServiceSentinel of service/singleton/servicesentinel.go starts.
use nezha_diff.Base.{
  ℕ, ◌+◌, ◌%◌, ◌≡◌, refl, sym, subst, ◌∙◌, true, ◌||◌, Option, some, List, [], ◌∷◌, map, arith,
  nat_eq, nat_beq_iff, get_or,
}
use nezha_diff.Word.{word}
use nezha_diff.Float64.{Float64}
use nezha_diff.Outcome.{ok}
use nezha_diff.GoMap.{GoMap, lookup, insert, has, has-some, has-insert, contains, lookup-insert}
use nezha_diff.Sentinel.{Service, TodayStats, ResponseItem, ServiceSentinel, load_stats}
use nezha_diff.Sentinel.Days.{sum}
use nezha_diff.Sentinel.Stats.{IsWellAhead, IsWell, Fresh}
use nezha_diff.Sentinel.Today.{
  AllCount, load_services-AllCount, counted_todays, set_delays-AllCount,
}
use nezha_diff.Sentinel.Tables.{load_stats_total}
use nezha_diff.Sentinel.Start.{
  HistoryRow, Delays, schedule, load_service, load_services, or_float, sum_delays, set_delays,
  empty_sentinel, load_service_history, new_service_sentinel,
}
use nezha_diff.Sentinel.Leads.{
  up_of, down_of, AllKnown, load_services-IsWell, add_histories_total, relead, add_todays_total,
}

no_entry {ℓ} : (V : Type ℓ) (k : ℕ) → has {V = V} k [] ≡ true → ⊥
unfolding lookup
no_entry V k h = cc h

module _ {F : Type 0} ⦃fl : Float64 F⦄ where
  sum_delays-known :
      (mhs : List (HistoryRow F)) (services : GoMap ℕ (Service F)) (d : Delays F)
      → AllKnown mhs services
      → ((k : ℕ) → has k d.total_delay ≡ true → has k services ≡ true)
      → (k : ℕ) → has k (sum_delays mhs d).total_delay ≡ true
      → has k services ≡ true
  unfolding sum_delays
  sum_delays-known [] services d a h = h
  sum_delays-known (mh ∷ mhs) services d a h =
      let total = fl.add (or_float (lookup mh.service_id d.total_delay)) mh.avg_delay in
      sum_delays-known mhs services _ a.1 (λ k g. ground (
        arith,
        g,
        a.0,
        h k,
        lookup-insert mh.service_id k total d.total_delay,
        nat_beq_iff mh.service_id k,
      ))

  set_delays_total :
      (totals counts : GoMap ℕ F) (today : GoMap ℕ (TodayStats F))
      → ((k : ℕ) → has k totals ≡ true → has k today ≡ true)
      → (t : GoMap ℕ (TodayStats F)) × (set_delays totals counts today ≡ ok t)
        × ((k : ℕ) → has k t ≡ has k today)
  unfolding set_delays lookup
  set_delays_total [] counts today h = (today, refl, λ k. refl)
  set_delays_total ((k, total) ∷ rest) counts today h =
      let (v, e) = has-some k today (h k (ground (arith, nat_beq_iff k k))) in
      let v' : TodayStats F = record v { delay = fl.div total (or_float (lookup k counts)) } in
      let same : (j : ℕ) → has j (insert k v' today) ≡ has j today =
        λ j. has-insert k j v' v today e in
      let (t, p, s) =
        set_delays_total rest counts (insert k v' today)
          (λ j g. same j ∙ h j (ground (arith, g))) in
      (t, ground (arith, e, p), λ j. s j ∙ same j)

  -- The rows are of services that the list has.
  abbrev pub AllListed : List (HistoryRow F) → List (Service F) → Type 0
  AllListed [] services = Unit
  AllListed (mh ∷ mhs) services =
      (contains (map (λ s. s.id) services) mh.service_id ≡ true) × AllListed mhs services

  load_services-has :
      (l : List (Service F)) (ss : ServiceSentinel F) (k : ℕ)
      → (contains (map (λ s. s.id) l) k || has k ss.services) ≡ true
      → has k (load_services l ss).services ≡ true
  unfolding load_services load_service contains
  load_services-has [] ss k h = h
  load_services-has (s ∷ l) ss k h =
      load_services-has l (load_service s ss) k
        (ground (arith, h, lookup-insert s.id k s ss.services, nat_beq_iff s.id k))

  AllListed-AllKnown :
      (mhs : List (HistoryRow F)) (l : List (Service F)) (ss : ServiceSentinel F)
      → AllListed mhs l
      → AllKnown mhs (load_services l ss).services
  AllListed-AllKnown [] l ss a = tt
  AllListed-AllKnown (mh ∷ mhs) l ss a =
      (load_services-has l ss mh.service_id (ground (arith, a.0)), AllListed-AllKnown mhs l ss a.1)

  empty_sentinel-IsWell :
      (l : List (Service F)) → IsWell (record (empty_sentinel {F = F}) { service_list = l })
  unfolding lookup
  empty_sentinel-IsWell l = record {
    service_month = λ k h. h;
    service_current = λ k h. h;
    month_today = λ k h. h;
    stored_month = λ k h. h;
    tallied = λ k item h. cc h;
  }

  load_service_history_total :
      (l : List (Service F)) (past : List (HistoryRow F))
      → AllListed past l
      → (d : ServiceSentinel F) × (load_service_history l past ≡ ok d)
        × IsWell d
        × (d.services ≡ (load_services l (record empty_sentinel { service_list = l })).services)
        × (d.service_status_today
            ≡ (load_services l (record empty_sentinel { service_list = l })).service_status_today)
  unfolding load_service_history
  load_service_history_total l past a =
      let start = record (empty_sentinel {F = F}) { service_list = l } in
      let loaded = load_services l start in
      let w = load_services-IsWell l start (empty_sentinel-IsWell l) in
      let (out, p, s, t) =
        add_histories_total past loaded.services loaded.monthly_status []
          (AllListed-AllKnown past l start a) w.service_month w.tallied in
      (
        record loaded { monthly_status = out.0 },
        ground (arith, p),
        record {
          service_month = λ k h. s k ∙ w.service_month k h;
          service_current = w.service_current;
          month_today = λ k h. w.month_today k (sym (s k) ∙ h);
          stored_month = λ k h. s k ∙ w.stored_month k h;
          tallied = t;
        },
        refl,
        refl,
      )

  nothing-AllCount :
      (count : ℕ → ℕ × ℕ) → AllCount count (empty_sentinel {F = F}).service_status_today
  unfolding lookup
  nothing-AllCount count k v l = cc l

  -- NewServiceSentinel returns a monitor whose tables agree, and in which the totals of each service
  -- are ahead of the sums of its thirty days by the results of today, which the counters of today
  -- hold; the scheduler takes every entry, and the rows of the database are of services that it has.
  start_leads :
      (rows : List (Service F × Option ℕ)) (past today : List (HistoryRow F)) (daily : ℕ)
      (services : List (Service F))
      → schedule rows ≡ some services
      → AllListed past services
      → AllListed today services
      → (ss : ServiceSentinel F) × (new_service_sentinel rows past today (some daily)
          ≡ ok (some ss))
        × IsWellAhead (λ k. (up_of today k, down_of today k)) ss
        × AllCount (λ k. (up_of today k, down_of today k)) ss.service_status_today
  unfolding new_service_sentinel
  start_leads rows past today daily services h a b =
      let start = record (empty_sentinel {F = F}) { service_list = services } in
      let (c, p, wc, sc, tc) = load_service_history_total services past a in
      let known = subst (AllKnown today) (sym sc) (AllListed-AllKnown today services start b) in
      let (d, q, wd, sd) = add_todays_total today (λ _. (0, 0)) c known wc in
      let delays = sum_delays today (record { total_delay = []; total_delay_count = [] }) in
      let counted = counted_todays today c d q (
        subst (AllCount (λ _. (0, 0))) (sym tc)
          (load_services-AllCount services start (nothing-AllCount (λ _. (0, 0))))) in
      let (t, r, s) =
        set_delays_total delays.total_delay delays.total_delay_count d.service_status_today (λ k g.
          wd.month_today k (
            wd.service_month k (
              subst (λ m. has k m ≡ true) (sym sd)
                (sum_delays-known today c.services
                  (record { total_delay = []; total_delay_count = [] }) known
                  (λ j e. absurd (no_entry F j e)) k g)))) in
      (
        record d { service_status_today = t },
        ground (arith, h, p, q, r),
        relead (λ k. (0 + up_of today k, 0 + down_of today k)) _
            (record d { service_status_today = t }) (λ k. omega arith) (λ k. omega arith)
            (record {
              service_month = wd.service_month;
              service_current = wd.service_current;
              month_today = λ k g. s k ∙ wd.month_today k g;
              stored_month = wd.stored_month;
              tallied = wd.tallied;
            }),
        set_delays-AllCount (λ k. (up_of today k, down_of today k)) delays.total_delay
            delays.total_delay_count d.service_status_today t r counted,
      )

  slot_of_today :
      (count : ℕ → ℕ × ℕ) (ss : ServiceSentinel F) (k : ℕ) (s : Service F) (item : ResponseItem F)
      → IsWellAhead count ss
      → AllCount count ss.service_status_today
      → lookup k ss.services ≡ some s
      → Fresh ss.services ss.service_status_today k item
      → (get_or item.up 29 0 ≡ (count k).0 % word) × (get_or item.down 29 0 ≡ (count k).1 % word)
  slot_of_today count ss k s item w a e f =
      let (v, l) =
        has-some k ss.service_status_today
          (w.month_today k (w.service_month k (ground (arith, e)))) in
      let (same, up, down) = f s v e l in (up ∙ (a k v l).0, down ∙ (a k v l).1)

  -- LoadStats after NewServiceSentinel counts the results of today twice: both return, the slot of
  -- today then holds these results for each service, and the totals are the sums of the thirty days,
  -- this slot among them, and the results of today again; the scheduler takes every entry, and the
  -- rows of the database are of services that it has.
  pub start-load_stats :
      (rows : List (Service F × Option ℕ)) (past today : List (HistoryRow F)) (daily : ℕ)
      (services : List (Service F))
      → schedule rows ≡ some services
      → AllListed past services
      → AllListed today services
      → (ss : ServiceSentinel F) × (m : GoMap ℕ (ResponseItem F)) × (new_service_sentinel rows past
            today
            (some daily)
          ≡ ok (some ss))
        × (load_stats ss ≡ ok (record ss { monthly_status = m }))
        × ((k : ℕ) (item : ResponseItem F)
            → lookup k m ≡ some item
            → (item.total_up ≡ (sum item.up + up_of today k) % word)
              × (item.total_down ≡ (sum item.down + down_of today k) % word))
        × ((k : ℕ) (s : Service F) (item : ResponseItem F)
            → lookup k ss.services ≡ some s
            → lookup k m ≡ some item
            → (get_or item.up 29 0 ≡ up_of today k % word)
              × (get_or item.down 29 0 ≡ down_of today k % word))
  start-load_stats rows past today daily services h listed b =
      let (ss, p, w, a) = start_leads rows past today daily services h listed b in
      let (m, q, wm, s, f) = load_stats_total (λ k. (up_of today k, down_of today k)) ss w in
      (
        ss,
        m,
        p,
        q,
        λ k item e. ((wm.tallied k item e).total_ups, (wm.tallied k item e).total_downs),
        λ k service item e l.
            slot_of_today (λ j. (up_of today j, down_of today j)) ss k service item w a e
              (f k item l),
      )
