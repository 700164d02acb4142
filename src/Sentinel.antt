-- ===== src/Sentinel.antt =====
-- service/singleton/servicesentinel.go: the state of the service monitor, and the statistics of the
-- last thirty days. `F` stands for float32. A nil entry of a map that the code dereferences is
-- `panic`.
pub mod Days
pub mod Stats
pub mod Tables
pub mod Registry
pub mod Report
pub mod Worker
pub mod Running
pub mod Reports
pub mod Status
pub mod Start
pub mod Leads
pub mod Today
pub mod Started
mod Tests
use nezha_diff.Base.{
  ℕ, zero, suc, ◌+◌, Bool, true, false, Option, none, some, String, List, [], ◌∷◌, nat_eq, nat_beq,
  if◌then◌else◌, ltb, replicate, get_or, set,
}
use nezha_diff.Word.{add_uint, sub_uint}
use nezha_diff.Float64.{Float64}
use nezha_diff.Outcome.{Outcome, ok, panic, ◌>>=◌}
use nezha_diff.GoMap.{GoMap, lookup, insert, remove, keys, values}
use nezha_diff.Sort.{sort_func, by_key}

-- pb.TaskResult
pub record TaskResult (F : Type 0) : Type 0 where
  pub id : ℕ
  pub type : ℕ
  pub delay : F
  pub text : String
  pub successful : Bool

pub record ReportData (F : Type 0) : Type 0 where
  pub result : TaskResult F
  pub reporter : ℕ

-- _TodayStatsOfService, which serviceResponseData is a name for.
pub record TodayStats (F : Type 0) : Type 0 where
  pub up : ℕ
  pub down : ℕ
  pub delay : F

-- serviceTaskStatus; `t` is in nanoseconds, and 0 is the zero time.
pub record TaskStatus (F : Type 0) : Type 0 where
  pub last_status : ℕ
  pub t : ℕ
  pub result : List (TaskResult F)

pub record PingStore (F : Type 0) : Type 0 where
  pub count : ℕ
  pub ping : F

-- model.Service
pub record Service (F : Type 0) : Type 0 where
  pub id : ℕ
  pub user_id : ℕ
  pub name : String
  pub type : ℕ
  pub target : String
  pub duration : ℕ
  pub notify : Bool
  pub notification_group_id : ℕ
  pub cover : ℕ
  pub enable_trigger_task : Bool
  pub enable_show_in_service : Bool
  pub fail_trigger_tasks : List ℕ
  pub recover_trigger_tasks : List ℕ
  pub min_latency : F
  pub max_latency : F
  pub latency_notify : Bool
  pub skip_servers : GoMap ℕ Bool
  pub cron_job_id : ℕ

-- serviceResponseItem, with the arrays of thirty days as lists.
pub record ResponseItem (F : Type 0) : Type 0 where
  pub service : Service F
  pub current_up : ℕ
  pub current_down : ℕ
  pub total_up : ℕ
  pub total_down : ℕ
  pub delay : List F
  pub up : List ℕ
  pub down : List ℕ

pub record ServiceSentinel (F : Type 0) : Type 0 where
  pub service_status_today : GoMap ℕ (TodayStats F)
  pub service_current_status_data : GoMap ℕ (TaskStatus F)
  pub service_response_data_store : GoMap ℕ (TodayStats F)
  pub service_response_ping : GoMap ℕ (GoMap ℕ (PingStore F))
  pub tls_cert_cache : GoMap ℕ String
  pub services : GoMap ℕ (Service F)
  pub service_list : List (Service F)
  pub monthly_status : GoMap ℕ (ResponseItem F)

-- Array reads and moves of the thirty days: for i := range 29 { a[i] = a[i+1] }; a[29] = z.
unfoldable pub shift {ℓ} : {A : Type ℓ} → A → List A → List A
shift z [] = []
shift z (x ∷ []) = z ∷ []
shift z (x ∷ y ∷ xs) = y ∷ shift z (y ∷ xs)

-- m[k], where nil is dereferenced
abbrev pub deref {ℓ} : {V : Type ℓ} → ℕ → GoMap ℕ V → Outcome V
deref k m = elim (lookup k m) [ none ↦ panic | some v ↦ ok v ]

module _ {F : Type 0} ⦃fl : Float64 F⦄ where
  unfoldable pub zero_stats : TodayStats F
  zero_stats = record { up = 0; down = 0; delay = fl.of_uint 0 }

  -- A service that is new to the monitor.
  unfoldable pub new_item : Service F → ResponseItem F
  new_item s = record {
    service = s;
    current_up = 0;
    current_down = 0;
    total_up = 0;
    total_down = 0;
    delay = replicate 30 (fl.of_uint 0);
    up = replicate 30 0;
    down = replicate 30 0;
  }

  -- The body of the first loop of LoadStats: today's slot is replaced in the arrays and in the totals.
  unfoldable pub refresh_item : Service F → TodayStats F → ResponseItem F → ResponseItem F
  refresh_item s v item = record item {
    service = s;
    total_up = add_uint (sub_uint item.total_up (get_or item.up 29 0)) v.up;
    total_down = add_uint (sub_uint item.total_down (get_or item.down 29 0)) v.down;
    up = set item.up 29 v.up;
    down = set item.down 29 v.down;
    delay = set item.delay 29 v.delay;
  }

  unfoldable pub refresh_items :
      List ℕ
      → GoMap ℕ (Service F)
      → GoMap ℕ (TodayStats F)
      → GoMap ℕ (ResponseItem F)
      → Outcome (GoMap ℕ (ResponseItem F))
  refresh_items [] services today monthly = ok monthly
  refresh_items (k ∷ ks) services today monthly = do
    item ← deref k monthly
    s ← deref k services
    v ← deref k today
    refresh_items ks services today (insert k (refresh_item s v item) monthly)

  unfoldable pub fill_current :
      GoMap ℕ (TodayStats F) → GoMap ℕ (ResponseItem F) → Outcome (GoMap ℕ (ResponseItem F))
  fill_current [] monthly = ok monthly
  fill_current ((k, v) ∷ store) monthly = do
    item ← deref k monthly
    fill_current store (insert k (record item { current_up = v.up; current_down = v.down }) monthly)

  unfoldable pub load_stats : ServiceSentinel F → Outcome (ServiceSentinel F)
  load_stats ss = do
    refreshed ←
        refresh_items (keys ss.services) ss.services ss.service_status_today ss.monthly_status
    filled ← fill_current ss.service_response_data_store refreshed
    ok (record ss { monthly_status = filled })

  -- One service of refreshMonthlyServiceStatus: the oldest day leaves the totals and the arrays.
  unfoldable pub roll_item : ResponseItem F → ResponseItem F
  roll_item v = record v {
    total_up = sub_uint v.total_up (get_or v.up 0 0);
    total_down = sub_uint v.total_down (get_or v.down 0 0);
    up = shift 0 v.up;
    down = shift 0 v.down;
    delay = shift (fl.of_uint 0) v.delay;
  }

  unfoldable pub roll_items : List ℕ → ServiceSentinel F → Outcome (ServiceSentinel F)
  roll_items [] ss = ok ss
  roll_items (k ∷ ks) ss = do
    item ← deref k ss.monthly_status
    v ← deref k ss.service_status_today
    roll_items ks (record ss {
      monthly_status = insert k (roll_item item) ss.monthly_status;
      service_response_data_store = insert k zero_stats ss.service_response_data_store;
      service_status_today = insert k zero_stats ss.service_status_today;
    })

  unfoldable pub refresh_monthly_service_status : ServiceSentinel F → Outcome (ServiceSentinel F)
  refresh_monthly_service_status ss = do
    loaded ← load_stats ss
    roll_items (keys loaded.monthly_status) loaded

  unfoldable pub update_service_list : ServiceSentinel F → ServiceSentinel F
  update_service_list ss = record ss {
    service_list = sort_func (by_key (λ s. s.id)) (values ss.services);
  }

  -- CronSpec sets an interval that is missing, besides the text that it returns.
  unfoldable pub cron_spec : Service F → Service F
  cron_spec m = record m { duration = if nat_beq m.duration 0 then 30 else m.duration }

  unfoldable pub new_task_status : Option (TaskStatus F) → TaskStatus F
  new_task_status none = record { last_status = 0; t = 0; result = [] }
  new_task_status (some status) = record status { result = [] }

  -- `job` is the entry that the scheduler gave the service, or nothing if it refused the interval;
  -- the second part of the result is the entry that is removed from the scheduler.
  unfoldable pub update :
      ServiceSentinel F → Service F → Option ℕ → Option (ServiceSentinel F × Option ℕ)
  update ss m none = none
  update ss m (some job) =
      let s = record (cron_spec m) { cron_job_id = job } in
      some (elim (lookup m.id ss.services) [
        | some old ↦ (record ss { services = insert m.id s ss.services }, some old.cron_job_id)
        | none ↦ (
          record ss {
            monthly_status = insert m.id (new_item s) ss.monthly_status;
            service_current_status_data =
                insert m.id (new_task_status (lookup m.id ss.service_current_status_data))
                  ss.service_current_status_data;
            service_status_today = insert m.id zero_stats ss.service_status_today;
            services = insert m.id s ss.services;
          },
          none,
        )
      ])

  -- ss.services[id].CronJobID dereferences nil for an unknown service. The number is the job that the
  -- scheduler is told to remove.
  unfoldable pub delete_one : ServiceSentinel F → ℕ → Outcome (ServiceSentinel F × ℕ)
  delete_one ss id = do
    s ← deref id ss.services
    ok (
      record ss {
        service_current_status_data = remove id ss.service_current_status_data;
        service_response_data_store = remove id ss.service_response_data_store;
        tls_cert_cache = remove id ss.tls_cert_cache;
        service_status_today = remove id ss.service_status_today;
        services = remove id ss.services;
        monthly_status = remove id ss.monthly_status;
      },
      s.cron_job_id,
    )

  -- The jobs that are removed, in their order.
  unfoldable pub delete : ServiceSentinel F → List ℕ → Outcome (ServiceSentinel F × List ℕ)
  delete ss [] = ok (ss, [])
  delete ss (id ∷ ids) = do
    one ← delete_one ss id
    rest ← delete one.0 ids
    ok (rest.0, one.1 ∷ rest.1)
