-- ===== src/Sentinel/Tests.antt =====
-- One service, number 5, and one agent, number 3: the theorems about
-- service/singleton/servicesentinel.go at this state. The floating-point numbers are natural numbers.
use nezha_diff.Base.{
  get_or, ℕ, ◌%◌, ◌+◌, ◌<◌, ◌≡◌, refl, true, false, none, some, [], ◌∷◌, arith, nat_eq, nat_beq,
  Bool-cases, inl, inr, subst, length, if◌then◌else◌,
}
use nezha_diff.Samples.{whole}
use nezha_diff.Outcome.{ok}
use nezha_diff.GoMap.{GoMap, lookup, has, contains}
use nezha_diff.ServerClass.Tests.{web}
use nezha_diff.Sentinel.{
  TaskResult, TaskStatus, Service, ResponseItem, ServiceSentinel, zero_stats, load_stats,
  refresh_monthly_service_status, update, cron_spec, delete, new_item, new_task_status,
}
use nezha_diff.Sentinel.Start.{HistoryRow, schedule, new_service_sentinel}
use nezha_diff.Sentinel.Started.{start-load_stats}
use nezha_diff.Sentinel.Leads.{up_of, down_of}
use nezha_diff.Word.{word}
use nezha_diff.Sentinel.Days.{sum, IsTallied, new_item-IsTallied}
use nezha_diff.Sentinel.Stats.{IsWell, IsWellAhead, Fresh}
use nezha_diff.Sentinel.Tables.{load_stats_total, refresh_monthly_total}
use nezha_diff.Sentinel.Registry.{update_registers, delete_registered}
use nezha_diff.Sentinel.Report.{Env, count_results, up_percent, get_status_code, status_down}
use nezha_diff.Sentinel.Worker.{work}
use nezha_diff.Sentinel.Running.{IsRunning}
use nezha_diff.Sentinel.Reports.{Stage, work_total}
use nezha_diff.Sentinel.Status.{status_of_window}

abbrev pub site : Service ℕ
site = record {
  id = 5;
  user_id = 1;
  name = "site";
  type = 3;
  target = "example.org:443";
  duration = 30;
  notify = true;
  notification_group_id = 2;
  cover = 0;
  enable_trigger_task = false;
  enable_show_in_service = true;
  fail_trigger_tasks = [];
  recover_trigger_tasks = [];
  min_latency = 1;
  max_latency = 100;
  latency_notify = true;
  skip_servers = [];
  cron_job_id = 8;
}

abbrev pub no_service : ServiceSentinel ℕ
no_service = record {
  service_status_today = [];
  service_current_status_data = [];
  service_response_data_store = [];
  service_response_ping = [];
  tls_cert_cache = [];
  services = [];
  service_list = [];
  monthly_status = [];
}

no_service-IsWell : IsWell no_service
unfolding lookup
no_service-IsWell = record {
  service_month = λ k h. h;
  service_current = λ k h. h;
  month_today = λ k h. h;
  stored_month = λ k h. h;
  tallied = λ k item h. cc h;
}

abbrev pub one_service : ServiceSentinel ℕ
one_service = record {
  service_status_today = (5, record { up = 4; down = 1; delay = 20 }) ∷ [];
  service_current_status_data = (5, new_task_status none) ∷ [];
  service_response_data_store = [];
  service_response_ping = [];
  tls_cert_cache = [];
  services = (5, site) ∷ [];
  service_list = [];
  monthly_status = (5, new_item site) ∷ [];
}

one_service-IsWell : IsWell one_service
unfolding lookup
one_service-IsWell = record {
  service_month = λ k h. ground (arith, h);
  service_current = λ k h. ground (arith, h);
  month_today = λ k h. ground (arith, h);
  stored_month = λ k h. ground (arith, h);
  tallied = λ k item h. elim (Bool-cases (nat_beq 5 k)) [
    | inl e ↦ subst IsTallied (ground (arith, h, e)) (new_item-IsTallied site)
    | inr e ↦ absurd (ground (arith, h, e))
  ];
}

one_service-IsRunning : IsRunning one_service
unfolding lookup new_task_status
one_service-IsRunning = record {
  lead = λ _. (0, 0);
  well = one_service-IsWell;
  window = λ k status h. elim (Bool-cases (nat_beq 5 k)) [
    | inl e ↦
        let same : new_task_status {F = ℕ} none ≡ status = ground (arith, h, e) in
        subst (λ (x : TaskStatus ℕ). length x.result < 30) same (omega arith)
    | inr e ↦ absurd (ground (arith, h, e))
  ];
  certificate = λ k t h. cc h;
}

load_stats_total_example :
    (m : GoMap ℕ (ResponseItem ℕ)) × (load_stats one_service
      ≡ ok (record one_service { monthly_status = m }))
    × IsWell (record one_service { monthly_status = m })
    × ((k : ℕ) → has k m ≡ has k one_service.monthly_status)
    × ((k : ℕ) (item : ResponseItem ℕ)
        → lookup k m ≡ some item
        → Fresh one_service.services one_service.service_status_today k item)
load_stats_total_example = load_stats_total (λ _. (0, 0)) one_service one_service-IsWell

refresh_monthly_total_example :
    (d : ServiceSentinel ℕ) × (refresh_monthly_service_status one_service ≡ ok d)
    × IsWell d
    × ((k : ℕ) → has k d.monthly_status ≡ has k one_service.monthly_status)
    × ((k : ℕ)
        → has k one_service.monthly_status ≡ true
        → lookup k d.service_status_today ≡ some zero_stats)
refresh_monthly_total_example = refresh_monthly_total (λ _. (0, 0)) one_service one_service-IsWell

update_registers_example :
    (d : ServiceSentinel ℕ) × (update no_service site (some 8) ≡ some (d, none))
    × IsWellAhead (λ k. if nat_beq 5 k then (0, 0) else (2, 0)) d
    × ((k : ℕ)
        → lookup k d.services
          ≡ (if nat_beq 5 k then some (record (cron_spec site) { cron_job_id = 8 }) else none))
unfolding lookup
update_registers_example =
    update_registers (λ k. (2, 0)) no_service site 8
      (record {
        service_month = λ k h. h;
        service_current = λ k h. h;
        month_today = λ k h. h;
        stored_month = λ k h. h;
        tallied = λ k item h. cc h;
      })

delete_registered_example :
    (d : ServiceSentinel ℕ) × (delete one_service (5 ∷ []) ≡ ok (d, site.cron_job_id ∷ []))
    × IsWell d
    × ((k : ℕ)
        → lookup k d.services
          ≡ (if contains (5 ∷ []) k then none else lookup k one_service.services))
unfolding lookup contains
delete_registered_example =
    delete_registered (λ _. (0, 0)) one_service (5 ∷ []) one_service-IsWell (refl, refl, tt)

-- A slow answer from the agent, with a certificate.
abbrev answer : TaskResult ℕ
answer = record {
  id = 5;
  type = 3;
  delay = 250;
  text = "CA|2030-01-01 00:00:00 +0000 UTC";
  successful = true;
}

abbrev failure : TaskResult ℕ
failure = record { id = 5; type = 3; delay = 0; text = "timeout"; successful = false }

abbrev env : Env ℕ
env = record {
  now = 1000;
  week_later = 2000;
  avg_ping_count = 2;
  servers = (3, web) ∷ [];
  parse_time = λ t. 1500;
  format_time = λ n. "soon";
}

work_total_example :
    Stage one_service (work env one_service (record { result = answer; reporter = 3 }))
unfolding lookup
work_total_example =
    work_total env one_service (record { result = answer; reporter = 3 }) one_service-IsRunning refl

-- One success of two.
status_of_window_example :
    get_status_code (up_percent (count_results (answer ∷ failure ∷ []) zero_stats)) ≡ status_down
status_of_window_example = status_of_window (answer ∷ failure ∷ []) (omega arith) (omega arith)

abbrev row : HistoryRow ℕ
row = record { service_id = 5; hours = 30; avg_delay = 20; up = 4; down = 1 }

abbrev loaded_site : Service ℕ
loaded_site = record (cron_spec site) { cron_job_id = 9 }

start-load_stats_example :
    (ss : ServiceSentinel ℕ) × (m : GoMap ℕ (ResponseItem ℕ)) × (new_service_sentinel
        ((site, some 9) ∷ [])
        (row ∷ [])
        (row ∷ [])
        (some 1)
      ≡ ok (some ss))
    × (load_stats ss ≡ ok (record ss { monthly_status = m }))
    × ((k : ℕ) (item : ResponseItem ℕ)
        → lookup k m ≡ some item
        → (item.total_up ≡ (sum item.up + up_of (row ∷ []) k) % word)
          × (item.total_down ≡ (sum item.down + down_of (row ∷ []) k) % word))
    × ((k : ℕ) (s : Service ℕ) (item : ResponseItem ℕ)
        → lookup k ss.services ≡ some s
        → lookup k m ≡ some item
        → (get_or item.up 29 0 ≡ up_of (row ∷ []) k % word)
          × (get_or item.down 29 0 ≡ down_of (row ∷ []) k % word))
unfolding schedule contains cron_spec
start-load_stats_example =
    start-load_stats ((site, some 9) ∷ []) (row ∷ []) (row ∷ []) 1 (loaded_site ∷ []) refl
      (refl, tt) (refl, tt)
