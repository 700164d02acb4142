-- ===== src/Sentinel/Running.antt =====
-- The worker of service/singleton/servicesentinel.go over reports: the state that it
-- needs, and its first half.
use nezha_diff.Base.{
  ℕ, ◌≤◌, ◌<◌, ◌≡◌, refl, ◌∙◌, true, some, String, List, [], ◌∷◌, ◌++◌, arith, nat_eq, string_eq,
  nat_beq_iff, length, length-append,
}
use nezha_diff.Float64.{Float64}
use nezha_diff.Outcome.{ok, is_ok, is_ok->>=}
use nezha_diff.GoMap.{GoMap, lookup, insert, has, has-some, has-insert, lookup-insert}
use nezha_diff.ServerClass.{Server}
use nezha_diff.Text.{split_bar}
use nezha_diff.Sentinel.{
  TaskResult, ReportData, TodayStats, TaskStatus, Service, ServiceSentinel, zero_stats,
}
use nezha_diff.Sentinel.Stats.{IsWellAhead}
use nezha_diff.Sentinel.Report.{
  Env, Effect, record_ping, tally_today, append_current, count_results, up_percent, persist,
  get_status_code, delay_check, notify_status, trigger_status, notify_check,
}
use nezha_diff.Sentinel.Worker.{measure}

module _ {F : Type 0} where
  -- The tables agree, every window has room, and every certificate that was kept has its two parts.
  pub record IsRunning (ss : ServiceSentinel F) : Type 0 where
    pub lead : ℕ → ℕ × ℕ
    pub well : IsWellAhead lead ss
    pub window :
        (k : ℕ) (status : TaskStatus F)
        → lookup k ss.service_current_status_data ≡ some status
        → length status.result < 30
    pub certificate :
        (k : ℕ) (t : String) → lookup k ss.tls_cert_cache ≡ some t → 2 ≤ length (split_bar t)

  -- A state with the same tables but a new status of one service that has room.
  pub with_status :
      (ss : ServiceSentinel F) (k : ℕ) (status : TaskStatus F)
      → IsRunning ss
      → has k ss.service_current_status_data ≡ true
      → length status.result < 30
      → IsRunning (record ss {
        service_current_status_data = insert k status ss.service_current_status_data;
      })
  with_status ss k status v h room =
      let (old, e) = has-some k ss.service_current_status_data h in
      record {
        lead = v.lead;
        well = record {
          service_month = v.well.service_month;
          service_current = λ j c.
              has-insert k j status old ss.service_current_status_data e
              ∙ v.well.service_current j c;
          month_today = v.well.month_today;
          stored_month = v.well.stored_month;
          tallied = v.well.tallied;
        };
        window = λ j s c. ground (
          arith,
          c,
          room,
          lookup-insert k j status ss.service_current_status_data,
          nat_beq_iff k j,
          v.window j s,
        );
        certificate = v.certificate;
      }

module _ {F : Type 0} ⦃fl : Float64 F⦄ where
  persist-room :
      (now : ℕ) (mh : TaskResult F) (rd : TodayStats F) (status : TaskStatus F)
      → length status.result < 30
      → length ((persist now mh rd (append_current now mh status)).0.result) < 30
  unfolding persist append_current
  persist-room now mh rd status h = ground (arith, h, length-append status.result (mh ∷ []))

  pub measure_total :
      {G : Type 0} (env : Env G) (r : ReportData F) (ss : ServiceSentinel F)
      → IsRunning ss
      → has r.result.id ss.services ≡ true
      → (out : ServiceSentinel F × (ℕ × List (Effect F))) × (measure env r ss ≡ ok out)
        × IsRunning out.0
        × (out.0.services ≡ ss.services)
  unfolding measure
  measure_total env r ss v h =
      let mh = r.result in
      let month = v.well.service_month mh.id h in
      let (today, et) = has-some mh.id ss.service_status_today (v.well.month_today mh.id month) in
      let (status, es) =
        has-some mh.id ss.service_current_status_data (v.well.service_current mh.id h) in
      let appended = append_current env.now mh status in
      let rd = count_results appended.result zero_stats in
      let saved = persist env.now mh rd appended in
      let pinged = record_ping env r ss.service_response_ping in
      let running =
        with_status ss mh.id saved.0 v (v.well.service_current mh.id h)
          (persist-room env.now mh rd status (v.window mh.id status es)) in
      (
        (
          record ss {
            service_response_ping = pinged.0;
            service_status_today = insert mh.id (tally_today mh today) ss.service_status_today;
            service_response_data_store = insert mh.id rd ss.service_response_data_store;
            service_current_status_data = insert mh.id saved.0 ss.service_current_status_data;
          },
          (get_status_code (up_percent rd), pinged.1 ++ saved.1),
        ),
        ground (arith, et, es),
        record {
          lead = v.lead;
          well = record {
            service_month = v.well.service_month;
            service_current = running.well.service_current;
            month_today = λ j c.
                has-insert mh.id j (tally_today mh today) today ss.service_status_today et
                ∙ v.well.month_today j c;
            stored_month = λ j c. ground (
              arith,
              c,
              lookup-insert mh.id j rd ss.service_response_data_store,
              month,
              nat_beq_iff mh.id j,
              v.well.stored_month j,
            );
            tallied = v.well.tallied;
          };
          window = running.window;
          certificate = v.certificate;
        },
        refl,
      )

  pub is_ok-delay_check :
      {G : Type 0} (r : ReportData F) (m : GoMap ℕ (Server G)) (ss : Service F) (mh : TaskResult F)
      → has r.reporter m ≡ true
      → is_ok (delay_check r m ss mh) ≡ true
  unfolding delay_check
  is_ok-delay_check r m ss mh h = ground (arith, h)

  pub is_ok-notify_check :
      {G : Type 0} (r : ReportData F) (m : GoMap ℕ (Server G)) (ss : Service F) (mh : TaskResult F)
      (last_status state_code : ℕ)
      → has r.reporter m ≡ true
      → is_ok (notify_check r m ss mh last_status state_code) ≡ true
  unfolding notify_check notify_status trigger_status
  is_ok-notify_check r m ss mh last_status state_code h =
      is_ok->>= (notify_status r m ss mh last_status state_code) _ (ground (arith, h)) (λ a.
        is_ok->>= (trigger_status r m ss last_status state_code) _ (ground (arith, h)) (λ b. refl))
