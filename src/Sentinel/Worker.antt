-- ===== src/Sentinel/Worker.antt =====
-- One turn of `worker` in service/singleton/servicesentinel.go: from a report to the next state of the
-- monitor and the calls that leave it.
use nezha_diff.Base.{
  ℕ, Bool, not, ◌&&◌, ◌||◌, none, some, String, List, [], ◌∷◌, ◌++◌, nat_eq, string_eq, ◌==◌,
  nat_beq, if◌then◌else◌, ltb, length,
}
use Prim.Native.String as Str
use nezha_diff.Float64.{Float64}
use nezha_diff.Outcome.{Outcome, ok, ◌>>=◌}
use nezha_diff.GoMap.{lookup, insert}
use nezha_diff.MuteLabel.{service_tls}
use nezha_diff.Text.{has_prefix, has_suffix, split_bar}
use nezha_diff.Sentinel.{TaskResult, ReportData, Service, ServiceSentinel, zero_stats, deref}
use nezha_diff.Sentinel.Report.{
  Env, tls_failed, tls_expires, tls_changed, Effect, unmute_notification, send_notification,
  get_status_code, status_down, at, text_or_empty, record_ping, tally_today, append_current,
  count_results, up_percent, persist, delay_check, notify_check,
}

module _ {F : Type 0} ⦃fl : Float64 F⦄ where
  -- The counters: the ping store, today's counters, the window, and the status of the window.
  unfoldable pub measure :
      {G : Type 0}
      → Env G
      → ReportData F
      → ServiceSentinel F
      → Outcome (ServiceSentinel F × (ℕ × List (Effect F)))
  measure env r ss =
      let mh = r.result in
      let pinged = record_ping env r ss.service_response_ping in
      deref mh.id ss.service_status_today >>= λ today.
      deref mh.id ss.service_current_status_data >>= λ status.
      (let appended = append_current env.now mh status in
        let rd = count_results appended.result zero_stats in
        let saved = persist env.now mh rd appended in
        ok (
          record ss {
            service_response_ping = pinged.0;
            service_status_today = insert mh.id (tally_today mh today) ss.service_status_today;
            service_response_data_store = insert mh.id rd ss.service_response_data_store;
            service_current_status_data = insert mh.id saved.0 ss.service_current_status_data;
          },
          (get_status_code (up_percent rd), pinged.1 ++ saved.1),
        ))

  -- The alerts on the delay and on the status.
  unfoldable pub alert :
      {G : Type 0}
      → Env G
      → ReportData F
      → Service F
      → ℕ
      → ServiceSentinel F
      → Outcome (ServiceSentinel F × List (Effect F))
  alert env r cs state_code ss =
      let mh = r.result in
      (if fl.lt (fl.of_uint 0) mh.delay then delay_check r env.servers cs mh else ok [])
      >>= λ delayed. deref mh.id ss.service_current_status_data >>= λ status.
          (if nat_beq state_code status_down || not (nat_beq state_code status.last_status)
            then (notify_check r env.servers cs mh status.last_status state_code >>= λ notified.
                ok (
                  record ss {
                    service_current_status_data =
                        insert mh.id (record status { last_status = state_code })
                          ss.service_current_status_data;
                  },
                  delayed ++ notified,
                ))
            else ok (ss, delayed))

  -- What the certificates say: the last one that was seen, and the one that is reported.
  unfoldable pub certificate_notices :
      {G : Type 0}
      → Env G
      → Service F
      → TaskResult F
      → Bool
      → String
      → String
      → ℕ
      → ℕ
      → List (Effect F)
  certificate_notices env cs mh changed old_issuer new_issuer expires_old expires_new =
      let group = cs.notification_group_id in
      if cs.notify
      then (if ltb expires_new env.week_later
          then send_notification group (tls_expires cs.name (env.format_time expires_new))
              (some (service_tls mh.id (Str.◌++◌ "expire_" (env.format_time expires_new))))
            ∷ []
          else [])
        ++ (if changed
            then send_notification group
                (tls_changed cs.name old_issuer (env.format_time expires_old) new_issuer
                  (env.format_time expires_new))
                none
              ∷ []
            else [])
      else []

  unfoldable pub check_certificate :
      {G : Type 0}
      → Env G
      → Service F
      → TaskResult F
      → List String
      → ServiceSentinel F
      → Outcome (ServiceSentinel F × List (Effect F))
  check_certificate env cs mh new_cert ss =
      let cached = text_or_empty (lookup mh.id ss.tls_cert_cache) in
      let cached_now = if cached == "" then mh.text else cached in
      let old_cert = split_bar cached_now in
      at old_cert 0 >>= λ old_issuer. at old_cert 1 >>= λ old_expiry.
      at new_cert 0 >>= λ new_issuer. at new_cert 1 >>= λ new_expiry.
      (let expires_old = env.parse_time old_expiry in
        let expires_new = env.parse_time new_expiry in
        let changed = not (old_issuer == new_issuer) && not (nat_beq expires_new expires_old) in
        ok (
          record ss {
            tls_cert_cache =
                insert mh.id (if changed then mh.text else cached_now) ss.tls_cert_cache;
          },
          certificate_notices env cs mh changed old_issuer new_issuer expires_old expires_new,
        ))

  unfoldable pub check_tls :
      {G : Type 0}
      → Env G
      → Service F
      → TaskResult F
      → ServiceSentinel F
      → Outcome (ServiceSentinel F × List (Effect F))
  check_tls env cs mh ss =
      let label = service_tls mh.id "network" in
      let new_cert = split_bar mh.text in
      if has_prefix mh.text "SSL证书错误："
      then (if not (has_suffix mh.text "timeout")
            && not (has_suffix mh.text "EOF")
            && not (has_suffix mh.text "timed out")
            && cs.notify
          then ok (
            ss,
            send_notification cs.notification_group_id (tls_failed cs.name mh.text) (some label)
                ∷ [],
          )
          else ok (ss, []))
      else if ltb 1 (length new_cert)
      then (check_certificate env cs mh new_cert ss >>= λ checked.
          ok (checked.0, unmute_notification cs.notification_group_id label ∷ checked.1))
      else ok (ss, unmute_notification cs.notification_group_id label ∷ [])

  unfoldable pub process :
      {G : Type 0}
      → Env G
      → ReportData F
      → Service F
      → ServiceSentinel F
      → Outcome (ServiceSentinel F × List (Effect F))
  process env r cs ss = do
    measured ← measure env r ss
    alerted ← alert env r cs measured.1.0 measured.0
    checked ← check_tls env cs r.result alerted.0
    ok (checked.0, measured.1.1 ++ (alerted.1 ++ checked.1))

  -- A report on a service that is not there is dropped.
  unfoldable pub work :
      {G : Type 0}
      → Env G
      → ServiceSentinel F
      → ReportData F
      → Outcome (ServiceSentinel F × List (Effect F))
  work env ss r = elim (lookup r.result.id ss.services) [
    | none ↦ ok (ss, [])
    | some cs ↦ if nat_beq cs.id 0 then ok (ss, []) else process env r cs ss
  ]
