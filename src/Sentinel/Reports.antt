-- ===== src/Sentinel/Reports.antt =====
-- Whole reports through the worker of service/singleton/servicesentinel.go.
use nezha_diff.Base.{
  ℕ, zero, suc, ◌≤◌, ◌<◌, ◌≡◌, refl, subst, ◌∙◌, Bool, true, false, not, ◌&&◌, ◌||◌, Option, none,
  some, String, List, [], ◌∷◌, ◌++◌, inl, inr, arith, nat_eq, string_eq, nat_beq, ◌==◌,
  if◌then◌else◌, ltb, length, get_elem?, Bool-cases, Option-cases,
}
use nezha_diff.Float64.{Float64}
use nezha_diff.Outcome.{Outcome, ok, is_ok-value}
use nezha_diff.GoMap.{GoMap, lookup, insert, has, has-some, lookup-insert}
use nezha_diff.ServerClass.{Server}
use nezha_diff.MuteLabel.{service_tls}
use nezha_diff.Text.{split_bar, has_prefix, has_suffix}
use nezha_diff.Sentinel.{TaskResult, ReportData, Service, ServiceSentinel}
use nezha_diff.Sentinel.Report.{
  Env, Effect, delay_check, notify_check, text_or_empty, status_down, unmute_notification,
  send_notification, tls_failed,
}
use nezha_diff.Sentinel.Worker.{
  alert, certificate_notices, check_certificate, check_tls, process, work,
}
use nezha_diff.Sentinel.Running.{
  IsRunning, with_status, is_ok-delay_check, is_ok-notify_check, measure_total,
}

get_elem?-some :
    {A : Type 0} (xs : List A) (i : ℕ) → i < length xs → (x : A) × (get_elem? xs i ≡ some x)
get_elem?-some [] i h = absurd (omega arith)
get_elem?-some (x ∷ xs) zero h = (x, refl)
get_elem?-some (x ∷ xs) (suc i) h = get_elem?-some xs i (omega arith)

chosen-two :
    (b : Bool) (s t : String)
    → 2 ≤ length (split_bar s)
    → 2 ≤ length (split_bar t)
    → 2 ≤ length (split_bar (if b then s else t))
chosen-two true s t h k = h
chosen-two false s t h k = k

cached_choice-two :
    (o : Option String) (new : String)
    → 2 ≤ length (split_bar new)
    → ((t : String) → o ≡ some t → 2 ≤ length (split_bar t))
    → 2 ≤ length (split_bar (if text_or_empty o == "" then new else text_or_empty o))
cached_choice-two none new two h = two
cached_choice-two (some t) new two h = chosen-two (t == "") new t two (h t refl)

module _ {F : Type 0} ⦃fl : Float64 F⦄ where
  -- What one stage of the worker leaves: a running monitor with the same services.
  abbrev pub Stage : ServiceSentinel F → Outcome (ServiceSentinel F × List (Effect F)) → Type 0
  Stage ss o =
      (out : ServiceSentinel F × List (Effect F)) × (o ≡ ok out)
      × IsRunning out.0
      × (out.0.services ≡ ss.services)

  delayed_total :
      {G : Type 0} (b : Bool) (r : ReportData F) (m : GoMap ℕ (Server G)) (cs : Service F)
      (mh : TaskResult F)
      → has r.reporter m ≡ true
      → (es : List (Effect F)) × ((if b then delay_check r m cs mh else ok []) ≡ ok es)
  delayed_total true r m cs mh h =
      is_ok-value (delay_check r m cs mh) (is_ok-delay_check r m cs mh h)
  delayed_total false r m cs mh h = ([], refl)

  alert_total :
      {G : Type 0} (env : Env G) (r : ReportData F) (cs : Service F) (code : ℕ)
      (ss : ServiceSentinel F)
      → IsRunning ss
      → has r.result.id ss.services ≡ true
      → has r.reporter env.servers ≡ true
      → Stage ss (alert env r cs code ss)
  unfolding alert
  alert_total env r cs code ss v h k =
      let mh = r.result in
      let has_status = v.well.service_current mh.id h in
      let (es, p) = delayed_total (fl.lt (fl.of_uint 0) mh.delay) r env.servers cs mh k in
      let (status, e) = has-some mh.id ss.service_current_status_data has_status in
      let (ns, q) =
        is_ok-value (notify_check r env.servers cs mh status.last_status code)
          (is_ok-notify_check r env.servers cs mh status.last_status code k) in
      elim (Bool-cases (nat_beq code status_down || not (nat_beq code status.last_status))) [
        | inl t ↦ (
          (
            record ss {
              service_current_status_data =
                  insert mh.id (record status { last_status = code })
                    ss.service_current_status_data;
            },
            es ++ ns,
          ),
          ground (arith, p, e, q, t),
          with_status ss mh.id (record status { last_status = code }) v has_status
              (v.window mh.id status e),
          refl,
        )
        | inr f ↦ ((ss, es), ground (arith, p, e, f), v, refl)
      ]

  -- A certificate with two parts is kept.
  with_certificate :
      (ss : ServiceSentinel F) (k : ℕ) (t : String)
      → IsRunning ss
      → 2 ≤ length (split_bar t)
      → IsRunning (record ss { tls_cert_cache = insert k t ss.tls_cert_cache })
  with_certificate ss k t v two = record {
    lead = v.lead;
    well = record {
      service_month = v.well.service_month;
      service_current = v.well.service_current;
      month_today = v.well.month_today;
      stored_month = v.well.stored_month;
      tallied = v.well.tallied;
    };
    window = v.window;
    certificate = λ j s c. elim (Bool-cases (nat_beq k j)) [
      | inl e ↦
          subst (λ x. 2 ≤ length (split_bar x))
            (ground (arith, c, e, lookup-insert k j t ss.tls_cert_cache)) two
      | inr f ↦ v.certificate j s (ground (arith, c, f, lookup-insert k j t ss.tls_cert_cache))
    ];
  }

  cached-two :
      (ss : ServiceSentinel F) (k : ℕ) (new : String)
      → IsRunning ss
      → 2 ≤ length (split_bar new)
      → 2
        ≤ length (
            split_bar (
              if text_or_empty (lookup k ss.tls_cert_cache) == ""
              then new
              else text_or_empty (lookup k ss.tls_cert_cache)))
  cached-two ss k new v two =
      cached_choice-two (lookup k ss.tls_cert_cache) new two (v.certificate k)

  check_certificate_total :
      {G : Type 0} (env : Env G) (cs : Service F) (mh : TaskResult F) (ss : ServiceSentinel F)
      → IsRunning ss
      → 2 ≤ length (split_bar mh.text)
      → Stage ss (check_certificate env cs mh (split_bar mh.text) ss)
  unfolding check_certificate
  check_certificate_total env cs mh ss v two =
      let cached = text_or_empty (lookup mh.id ss.tls_cert_cache) in
      let cached_now = if cached == "" then mh.text else cached in
      let old_two = cached-two ss mh.id mh.text v two in
      let (oi, p) = get_elem?-some (split_bar cached_now) 0 (omega arith) in
      let (oe, q) = get_elem?-some (split_bar cached_now) 1 (omega arith) in
      let (ni, s) = get_elem?-some (split_bar mh.text) 0 (omega arith) in
      let (ne, t) = get_elem?-some (split_bar mh.text) 1 (omega arith) in
      let changed = not (oi == ni) && not (nat_beq (env.parse_time ne) (env.parse_time oe)) in
      (
        (
          record ss {
            tls_cert_cache =
                insert mh.id (if changed then mh.text else cached_now) ss.tls_cert_cache;
          },
          certificate_notices env cs mh changed oi ni (env.parse_time oe) (env.parse_time ne),
        ),
        ground (arith, p, q, s, t),
        with_certificate ss mh.id (if changed then mh.text else cached_now) v
            (chosen-two changed mh.text cached_now two old_two),
        refl,
      )

  check_tls_total :
      {G : Type 0} (env : Env G) (cs : Service F) (mh : TaskResult F) (ss : ServiceSentinel F)
      → IsRunning ss
      → Stage ss (check_tls env cs mh ss)
  unfolding check_tls
  check_tls_total env cs mh ss v = elim (Bool-cases (has_prefix mh.text "SSL证书错误：")) [
    | inl a ↦
        elim (Bool-cases (
          not (has_suffix mh.text "timeout")
          && not (has_suffix mh.text "EOF")
          && not (has_suffix mh.text "timed out")
          && cs.notify)) [
            | inl b ↦ (
              (
                ss,
                send_notification cs.notification_group_id (tls_failed cs.name mh.text)
                      (some (service_tls mh.id "network"))
                    ∷ [],
              ),
              ground (arith, a, b),
              v,
              refl,
            )
            | inr b ↦ ((ss, []), ground (arith, a, b), v, refl)
          ]
    | inr a ↦ elim (Bool-cases (ltb 1 (length (split_bar mh.text)))) [
      | inl b ↦
          let (out, p, w, e) = check_certificate_total env cs mh ss v (ground (arith, b)) in
          (
            (
              out.0,
              unmute_notification cs.notification_group_id (service_tls mh.id "network") ∷ out.1,
            ),
            ground (arith, a, b, p),
            w,
            e,
          )
      | inr b ↦ (
        (ss, unmute_notification cs.notification_group_id (service_tls mh.id "network") ∷ []),
        ground (arith, a, b),
        v,
        refl,
      )
    ]
  ]

  process_total :
      {G : Type 0} (env : Env G) (r : ReportData F) (cs : Service F) (ss : ServiceSentinel F)
      → IsRunning ss
      → has r.result.id ss.services ≡ true
      → has r.reporter env.servers ≡ true
      → Stage ss (process env r cs ss)
  unfolding process
  process_total env r cs ss v h k =
      let (a, p, va, sa) = measure_total env r ss v h in
      let (b, q, vb, sb) = alert_total env r cs a.1.0 a.0 va (ground (arith, sa, h)) k in
      let (c, s, vc, sc) = check_tls_total env cs r.result b.0 vb in
      ((c.0, a.1.1 ++ (b.1 ++ c.1)), ground (arith, p, q, s), vc, sc ∙ sb ∙ sa)

  -- A report is taken without a panic, the services stay, and the monitor is still running; it is
  -- running before, and the reporter is a known server.
  pub work_total :
      {G : Type 0} (env : Env G) (ss : ServiceSentinel F) (r : ReportData F)
      → IsRunning ss
      → has r.reporter env.servers ≡ true
      → Stage ss (work env ss r)
  unfolding work
  work_total env ss r v k = elim (Option-cases (lookup r.result.id ss.services)) [
    | inl e ↦ ((ss, []), ground (arith, e), v, refl)
    | inr (cs, e) ↦ elim (Bool-cases (nat_beq cs.id 0)) [
      | inl z ↦ ((ss, []), ground (arith, e, z), v, refl)
      | inr z ↦
          let (out, p, w, s) = process_total env r cs ss v (ground (arith, e)) k in
          (out, ground (arith, e, z, p), w, s)
    ]
  ]
