-- ===== src/Crons.antt =====
-- service/singleton/crontask.go, model/cron.go and the handlers of cmd/dashboard/controller/cron.go:
-- the scheduled and triggered tasks. The scheduler of robfig/cron is a parameter with what its
-- documentation says of AddFunc and Remove. What the handlers get of the request and of the
-- database is an argument; `none` stands for an error of the database.
pub mod Targets
pub mod Jobs
pub mod Handlers
pub mod Wiring
pub mod Tests
use nezha_diff.Base.{
  ℕ, ◌≡◌, Bool, true, false, not, ◌&&◌, ◌||◌, Option, none, some, String, List, [], ◌∷◌, ◌++◌,
  nat_eq, nat_beq, if◌then◌else◌,
}
use nezha_diff.Outcome.{Outcome, ok, panic, ◌>>=◌}
use nezha_diff.GoMap.{GoMap, lookup, insert, remove, values}
use nezha_diff.Sort.{sort_func, by_key}
use nezha_diff.Common.{CommonInterface, User, has_permission, check_permission}
use nezha_diff.ServerClass.{Server, ServerClass, server_common}

abbrev pub cron_cover_ignore_all : ℕ
cron_cover_ignore_all = 0

abbrev pub cron_cover_all : ℕ
cron_cover_all = 1

abbrev pub cron_cover_alert_trigger : ℕ
cron_cover_alert_trigger = 2

abbrev pub cron_type_cron_task : ℕ
cron_type_cron_task = 0

abbrev pub cron_type_trigger_task : ℕ
cron_type_trigger_task = 1

-- model.Cron
pub record Cron : Type 0 where
  pub id : ℕ
  pub user_id : ℕ
  pub name : String
  pub task_type : ℕ
  pub scheduler : String
  pub command : String
  pub servers : List ℕ
  pub push_successful : Bool
  pub notification_group_id : ℕ
  pub last_executed_at : ℕ
  pub last_result : Bool
  pub cover : ℕ
  pub cron_job_id : ℕ

-- model.CronForm
pub record CronForm : Type 0 where
  pub task_type : ℕ
  pub name : String
  pub scheduler : String
  pub command : String
  pub servers : List ℕ
  pub cover : ℕ
  pub push_successful : Bool
  pub notification_group_id : ℕ

instance abbrev pub cron_common : CommonInterface Cron
cron_common = record { get_id = λ c. c.id; get_user_id = λ c. c.user_id }

-- What a run of a task does: a command sent to the agent of a server, or a notification that the
-- server is offline.
pub data TaskEffect : Type 0 where
  send_task : ℕ → Cron → TaskEffect
  notify_offline : ℕ → Cron → TaskEffect

-- cron.Cron: AddFunc fails on a schedule that it cannot read, and numbers its entries from 1.
pub record Scheduler (S : Type 0) : Type 0 where
  pub add_func : String → S → Option (ℕ × S)
  pub remove_job : ℕ → S → S
  pub has_job : ℕ → S → Bool
  pub add-fresh :
      (spec : String) (s t : S) (job : ℕ)
      → add_func spec s ≡ some (job, t)
      → (has_job job s ≡ false) × (nat_beq job 0 ≡ false)
  pub has-add :
      (spec : String) (s t : S) (job j : ℕ)
      → add_func spec s ≡ some (job, t)
      → has_job j t ≡ nat_beq job j || has_job j s
  pub has-remove :
      (job j : ℕ) (s : S) → has_job j (remove_job job s) ≡ not (nat_beq job j) && has_job j s

pub record CronClass (S : Type 0) : Type 0 where
  pub list : GoMap ℕ Cron
  pub sorted_list : List Cron
  pub cron : S

-- crIgnoreMap
unfoldable pub ignore_map : List ℕ → GoMap ℕ Bool
ignore_map [] = []
ignore_map (server ∷ servers) = insert server true (ignore_map servers)

abbrev pub flag : Option Bool → Bool
flag none = false
flag (some b) = b

module _ {F : Type 0} where
  -- A server with a stream gets the task; for one without, a notification is sent.
  unfoldable pub run_at : Cron → Server F → TaskEffect
  run_at cr s = elim s.task_stream [ some _ ↦ send_task s.id cr | none ↦ notify_offline s.id cr ]

  -- The loop of `CronTrigger` over the servers.
  unfoldable pub trigger_each : Cron → List (Server F) → List TaskEffect
  trigger_each cr [] = []
  trigger_each cr (s ∷ ss) =
      let rest = trigger_each cr ss in
      let ignored = flag (lookup s.id (ignore_map cr.servers)) in
      if nat_beq cr.cover cron_cover_all && ignored
      then rest
      else if nat_beq cr.cover cron_cover_ignore_all && not ignored
      then rest
      else run_at cr s ∷ rest

  -- `trigger_server` is the variadic argument.
  unfoldable pub cron_trigger : GoMap ℕ (Server F) → Cron → List ℕ → List TaskEffect
  cron_trigger servers cr trigger_server =
      if nat_beq cr.cover cron_cover_alert_trigger
      then elim trigger_server [
        | [] ↦ []
        | id ∷ _ ↦ elim (lookup id servers) [ none ↦ [] | some s ↦ run_at cr s ∷ [] ]
      ]
      else trigger_each cr (values servers)

  unfoldable pub send_trigger_tasks :
      GoMap ℕ (Server F) → GoMap ℕ Cron → List ℕ → ℕ → List TaskEffect
  send_trigger_tasks servers list [] trigger_server = []
  send_trigger_tasks servers list (id ∷ ids) trigger_server =
      let rest = send_trigger_tasks servers list ids trigger_server in
      elim (lookup id list) [
        | none ↦ rest
        | some cr ↦ cron_trigger servers cr (trigger_server ∷ []) ++ rest
      ]

  unfoldable pub manual_trigger : GoMap ℕ (Server F) → Cron → List TaskEffect
  manual_trigger servers cr = cron_trigger servers cr []

abbrev pub failures : Option (List ℕ) → List ℕ
failures none = []
failures (some ids) = ids

module _ {S : Type 0} ⦃sched : Scheduler S⦄ where
  unfoldable pub sort_list : CronClass S → CronClass S
  sort_list c = record c { sorted_list = sort_func (by_key (λ cr. cr.id)) (values c.list) }

  -- The job of the task of a number, if it has one, leaves the scheduler.
  unfoldable pub drop_job : ℕ → CronClass S → S
  drop_job id c = elim (lookup id c.list) [
    | none ↦ c.cron
    | some old ↦
        if not (nat_beq old.cron_job_id 0) then sched.remove_job old.cron_job_id c.cron else c.cron
  ]

  unfoldable pub update : CronClass S → Cron → CronClass S
  update c cr =
      sort_list (record c { list = insert cr.id cr (remove cr.id c.list); cron = drop_job cr.id c })

  unfoldable pub delete_one : CronClass S → ℕ → CronClass S
  delete_one c id = record c { list = remove id c.list; cron = drop_job id c }

  unfoldable pub delete_each : CronClass S → List ℕ → CronClass S
  delete_each c [] = c
  delete_each c (id ∷ ids) = delete_each (delete_one c id) ids

  unfoldable pub delete : CronClass S → List ℕ → CronClass S
  delete c ids = sort_list (delete_each c ids)

  abbrev pub enlist : Cron → CronClass S → CronClass S
  enlist cr c = record c { list = insert cr.id cr c.list; sorted_list = c.sorted_list ++ cr ∷ [] }

  -- The loop of `NewCronClass`: the tasks that register, and the numbers of those that do not, by
  -- group of notifications.
  unfoldable pub register_each :
      List Cron → CronClass S → GoMap ℕ (List ℕ) → CronClass S × GoMap ℕ (List ℕ)
  register_each [] c failed = (c, failed)
  register_each (cr ∷ crs) c failed =
      if nat_beq cr.task_type cron_type_trigger_task
      then register_each crs (enlist cr c) failed
      else elim (sched.add_func cr.scheduler c.cron) [
        | some (job, t) ↦
            register_each crs (enlist (record cr { cron_job_id = job }) (record c { cron = t }))
              failed
        | none ↦
            register_each crs (record c { sorted_list = c.sorted_list ++ cr ∷ [] })
              (insert cr.notification_group_id
                (failures (lookup cr.notification_group_id failed) ++ cr.id ∷ []) failed)
      ]

  unfoldable pub new_cron_class : S → List Cron → CronClass S × GoMap ℕ (List ℕ)
  new_cron_class empty rows =
      register_each rows (record { list = []; sorted_list = []; cron = empty }) []
