-- ===== src/Sentinel/Start.antt =====
-- The start of the service monitor: NewServiceSentinel and loadServiceHistory of
-- service/singleton/servicesentinel.go. The rows of the database and the answers of the scheduler are
-- arguments.
use nezha_diff.Base.{
  ℕ, ◌+◌, ◌-◌, ◌/◌, Option, none, some, List, [], ◌∷◌, nat_eq, if◌then◌else◌, ltb, get_or, set,
}
use nezha_diff.Word.{add_uint}
use nezha_diff.Float64.{Float64}
use nezha_diff.Outcome.{Outcome, ok, ◌>>=◌}
use nezha_diff.GoMap.{GoMap, lookup, insert}
use nezha_diff.Sentinel.{
  Service, TodayStats, ResponseItem, ServiceSentinel, zero_stats, new_item, new_task_status,
  cron_spec, deref,
}
use nezha_diff.Sentinel.Report.{running_mean}

-- A row of service_histories without a server; `hours` is how many hours before today it was written,
-- rounded down, and is not read of the rows of today.
pub record HistoryRow (F : Type 0) : Type 0 where
  pub service_id : ℕ
  pub hours : ℕ
  pub avg_delay : F
  pub up : ℕ
  pub down : ℕ

-- totalDelay and totalDelayCount, whose counts are floating-point numbers.
pub record Delays (F : Type 0) : Type 0 where
  pub total_delay : GoMap ℕ F
  pub total_delay_count : GoMap ℕ F

abbrev pub or_zero : Option ℕ → ℕ
or_zero none = 0
or_zero (some n) = n

module _ {F : Type 0} ⦃fl : Float64 F⦄ where
  -- The entry that the scheduler gives each service; it may refuse.
  unfoldable pub schedule : List (Service F × Option ℕ) → Option (List (Service F))
  schedule [] = some []
  schedule ((s, none) ∷ rows) = none
  schedule ((s, some job) ∷ rows) = elim (schedule rows) [
    | none ↦ none
    | some rest ↦ some (record (cron_spec s) { cron_job_id = job } ∷ rest)
  ]

  unfoldable pub load_service : Service F → ServiceSentinel F → ServiceSentinel F
  load_service s ss = record ss {
    services = insert s.id s ss.services;
    service_current_status_data = insert s.id (new_task_status none) ss.service_current_status_data;
    service_status_today = insert s.id zero_stats ss.service_status_today;
    monthly_status = insert s.id (new_item s) ss.monthly_status;
  }

  unfoldable pub load_services : List (Service F) → ServiceSentinel F → ServiceSentinel F
  load_services [] ss = ss
  load_services (s ∷ rest) ss = load_services rest (load_service s ss)

  unfoldable pub history_item : HistoryRow F → ℕ → ℕ → ResponseItem F → ResponseItem F
  history_item mh day count item = record item {
    delay =
        set item.delay day
          (running_mean (get_or item.delay day (fl.of_uint 0)) count (count + 1) mh.avg_delay);
    up = set item.up day (add_uint (get_or item.up day 0) mh.up);
    total_up = add_uint item.total_up mh.up;
    down = set item.down day (add_uint (get_or item.down day 0) mh.down);
    total_down = add_uint item.total_down mh.down;
  }

  -- One row of the past days; the counts of samples are by day, for all services together.
  unfoldable pub add_history :
      HistoryRow F
      → GoMap ℕ (ResponseItem F) × GoMap ℕ ℕ
      → Outcome (GoMap ℕ (ResponseItem F) × GoMap ℕ ℕ)
  add_history mh (monthly, delay_count) =
      if ltb 28 (mh.hours / 24)
      then ok (monthly, delay_count)
      else (deref mh.service_id monthly >>= λ item.
          (let day = 28 - mh.hours / 24 in
            let count = or_zero (lookup day delay_count) in
            ok (
              insert mh.service_id (history_item mh day count item) monthly,
              insert day (count + 1) delay_count,
            )))

  unfoldable pub add_histories :
      List (HistoryRow F)
      → GoMap ℕ (ResponseItem F) × GoMap ℕ ℕ
      → Outcome (GoMap ℕ (ResponseItem F) × GoMap ℕ ℕ)
  add_histories [] state = ok state
  add_histories (mh ∷ mhs) state = add_history mh state >>= add_histories mhs

  unfoldable pub today_item : HistoryRow F → ResponseItem F → ResponseItem F
  today_item mh item = record item {
    total_up = add_uint item.total_up mh.up;
    total_down = add_uint item.total_down mh.down;
  }

  -- One row of today: the counters of today, and the totals of the thirty days.
  unfoldable pub add_today : HistoryRow F → ServiceSentinel F → Outcome (ServiceSentinel F)
  add_today mh ss = do
    v ← deref mh.service_id ss.service_status_today
    item ← deref mh.service_id ss.monthly_status
    ok (record ss {
      service_status_today =
          insert mh.service_id
            (record v { up = add_uint v.up mh.up; down = add_uint v.down mh.down })
            ss.service_status_today;
      monthly_status = insert mh.service_id (today_item mh item) ss.monthly_status;
    })

  unfoldable pub add_todays : List (HistoryRow F) → ServiceSentinel F → Outcome (ServiceSentinel F)
  add_todays [] ss = ok ss
  add_todays (mh ∷ mhs) ss = add_today mh ss >>= add_todays mhs

  abbrev pub or_float : Option F → F
  or_float none = fl.of_uint 0
  or_float (some x) = x

  unfoldable pub sum_delays : List (HistoryRow F) → Delays F → Delays F
  sum_delays [] d = d
  sum_delays (mh ∷ mhs) d = sum_delays mhs (record {
    total_delay =
        insert mh.service_id (fl.add (or_float (lookup mh.service_id d.total_delay)) mh.avg_delay)
          d.total_delay;
    total_delay_count =
        insert mh.service_id
          (fl.add (or_float (lookup mh.service_id d.total_delay_count)) (fl.of_uint 1))
          d.total_delay_count;
  })

  -- The average delays of today.
  unfoldable pub set_delays :
      GoMap ℕ F → GoMap ℕ F → GoMap ℕ (TodayStats F) → Outcome (GoMap ℕ (TodayStats F))
  set_delays [] counts today = ok today
  set_delays ((k, total) ∷ rest) counts today = deref k today >>= λ v.
      set_delays rest counts
        (insert k (record v { delay = fl.div total (or_float (lookup k counts)) }) today)

  abbrev pub empty_sentinel : ServiceSentinel F
  empty_sentinel = record {
    service_status_today = [];
    service_current_status_data = [];
    service_response_data_store = [];
    service_response_ping = [];
    tls_cert_cache = [];
    services = [];
    service_list = [];
    monthly_status = [];
  }

  unfoldable pub load_service_history :
      List (Service F) → List (HistoryRow F) → Outcome (ServiceSentinel F)
  load_service_history services mhs =
      let loaded = load_services services (record empty_sentinel { service_list = services }) in
      add_histories mhs (loaded.monthly_status, []) >>= λ months.
      ok (record loaded { monthly_status = months.0 })

  -- `daily`: the scheduler takes the turn of the day. An error is `none`.
  unfoldable pub new_service_sentinel :
      List (Service F × Option ℕ)
      → List (HistoryRow F)
      → List (HistoryRow F)
      → Option ℕ
      → Outcome (Option (ServiceSentinel F))
  new_service_sentinel rows past today daily = elim (schedule rows) [
    | none ↦ ok none
    | some services ↦ load_service_history services past >>= λ loaded.
        add_todays today loaded >>= λ counted.
        (let delays = sum_delays today (record { total_delay = []; total_delay_count = [] }) in
          set_delays delays.total_delay delays.total_delay_count counted.service_status_today
          >>= λ averaged. ok (elim daily [
            | none ↦ none
            | some _ ↦ some (record counted { service_status_today = averaged })
          ]))
  ]
