-- ===== src/Sentinel/Today.antt =====
-- The counters of today in the monitor that NewServiceSentinel of
-- service/singleton/servicesentinel.go starts.
use nezha_diff.Base.{
  ℕ, ◌+◌, ◌%◌, ◌≡◌, refl, subst, List, some, [], ◌∷◌, arith, nat_eq, nat_beq_iff, Option-cases, inl,
  inr,
}
use nezha_diff.Word.{word, add_uint}
use nezha_diff.Float64.{Float64}
use nezha_diff.Outcome.{ok, ok-of->>=, ok-injective}
use nezha_diff.GoMap.{GoMap, lookup, insert, every-insert, every_other-insert}
use nezha_diff.Sentinel.{Service, TodayStats, ServiceSentinel, zero_stats}
use nezha_diff.Sentinel.Start.{
  HistoryRow, load_service, load_services, or_float, set_delays, add_today, add_todays,
}
use nezha_diff.Sentinel.Leads.{up_of, down_of, with_row}

module _ {F : Type 0} where
  -- The counters of a service, as far as they have been added up.
  abbrev pub CountsTo : (ℕ → ℕ × ℕ) → ℕ → TodayStats F → Type 0
  CountsTo count k v = (v.up ≡ (count k).0 % word) × (v.down ≡ (count k).1 % word)

  abbrev pub AllCount : (ℕ → ℕ × ℕ) → GoMap ℕ (TodayStats F) → Type 0
  AllCount count today = (k : ℕ) (v : TodayStats F) → lookup k today ≡ some v → CountsTo count k v

module _ {F : Type 0} ⦃fl : Float64 F⦄ where
  pub load_services-AllCount :
      (l : List (Service F)) (ss : ServiceSentinel F)
      → AllCount (λ _. (0, 0)) ss.service_status_today
      → AllCount (λ _. (0, 0)) (load_services l ss).service_status_today
  unfolding load_services load_service zero_stats
  load_services-AllCount [] ss a = a
  load_services-AllCount (s ∷ l) ss a =
      load_services-AllCount l (load_service s ss) (
        every-insert (CountsTo (λ _. (0, 0))) s.id zero_stats ss.service_status_today a
          (refl, refl))

  pub set_delays-AllCount :
      (count : ℕ → ℕ × ℕ) (totals counts : GoMap ℕ F) (today t : GoMap ℕ (TodayStats F))
      → set_delays totals counts today ≡ ok t
      → AllCount count today
      → AllCount count t
  unfolding set_delays
  set_delays-AllCount count [] counts today t h a = subst (AllCount count) (ok-injective h) a
  set_delays-AllCount count ((k, total) ∷ rest) counts today t h a =
      elim (Option-cases (lookup k today)) [
        | inl e ↦ absurd (ground (arith, h, e))
        | inr (v, e) ↦
            let v' : TodayStats F = record v {
              delay = fl.div total (or_float (lookup k counts));
            } in
            set_delays-AllCount count rest counts (insert k v' today) t (ground (arith, h, e))
              (every-insert (CountsTo count) k v' today a (a k v e))
      ]

  add_today-AllCount :
      (mh : HistoryRow F) (count : ℕ → ℕ × ℕ) (ss d : ServiceSentinel F)
      → add_today mh ss ≡ ok d
      → AllCount count ss.service_status_today
      → AllCount (with_row mh count) d.service_status_today
  unfolding add_today
  add_today-AllCount mh count ss d h a =
      elim (Option-cases (lookup mh.service_id ss.service_status_today)) [
        | inl e ↦ absurd (ground (arith, h, e))
        | inr (old, e) ↦ elim (Option-cases (lookup mh.service_id ss.monthly_status)) [
          | inl f ↦ absurd (ground (arith, h, e, f))
          | inr (item, f) ↦
              let new : TodayStats F = record old {
                up = add_uint old.up mh.up;
                down = add_uint old.down mh.down;
              } in
              let today : insert mh.service_id new ss.service_status_today
                  ≡ d.service_status_today =
                ground (arith, h, e, f) in
              subst (AllCount (with_row mh count)) today (
                every_other-insert (CountsTo (with_row mh count)) mh.service_id new
                  ss.service_status_today
                  (λ k v other l.
                    (ground (arith, other, (a k v l).0), ground (arith, other, (a k v l).1)))
                  (
                    ground
                        (arith, (a mh.service_id old e).0, nat_beq_iff mh.service_id mh.service_id),
                    ground
                        (arith, (a mh.service_id old e).1, nat_beq_iff mh.service_id mh.service_id),
                  ))
        ]
      ]

  add_todays-AllCount :
      (mhs : List (HistoryRow F)) (count : ℕ → ℕ × ℕ) (ss d : ServiceSentinel F)
      → add_todays mhs ss ≡ ok d
      → AllCount count ss.service_status_today
      → AllCount
          (λ k. ((count k).0 + up_of mhs k, (count k).1 + down_of mhs k))
          d.service_status_today
  unfolding add_todays
  add_todays-AllCount [] count ss d h a k v l =
      let (up, down) =
        subst (λ (x : ServiceSentinel F). AllCount count x.service_status_today) (ok-injective h) a
          k v l in
      (ground (arith, up), ground (arith, down))
  add_todays-AllCount (mh ∷ mhs) count ss d h a k v l =
      let (c, rest, first) = ok-of->>= {value = d} (add_today mh ss) (add_todays mhs) h in
      let (up, down) =
        add_todays-AllCount mhs (with_row mh count) c d rest
          (add_today-AllCount mh count ss c first a) k v l in
      (ground (arith, up), ground (arith, down))

  pub counted_todays :
      (mhs : List (HistoryRow F)) (ss d : ServiceSentinel F)
      → add_todays mhs ss ≡ ok d
      → AllCount (λ _. (0, 0)) ss.service_status_today
      → AllCount (λ k. (up_of mhs k, down_of mhs k)) d.service_status_today
  counted_todays mhs ss d h a k v l =
      let (up, down) = add_todays-AllCount mhs (λ _. (0, 0)) ss d h a k v l in
      (ground (arith, up), ground (arith, down))
