-- ===== src/Crons/Handlers.antt =====
-- The handlers of cmd/dashboard/controller/cron.go. Of the context they take the user; the row that
-- `DB.First` finds, the number that `DB.Create` gives and the success of `DB.Save` and `DB.Delete`
-- are arguments. A reply of `none` is an error.
use nezha_diff.Base.{
  ℕ, Bool, false, not, ◌&&◌, Option, none, some, List, [], nat_eq, nat_beq, if◌then◌else◌,
}
use nezha_diff.GoMap.{GoMap, lookup}
use nezha_diff.Common.{User, has_permission, check_permission}
use nezha_diff.ServerClass.{Server, server_common}
use nezha_diff.Crons.{
  Cron, CronForm, Scheduler, CronClass, TaskEffect, cron_common, cron_type_cron_task,
  cron_cover_alert_trigger, update, delete, manual_trigger,
}

-- getUid: the routes of the handlers have a user.
unfoldable pub get_uid : User → ℕ
get_uid user = user.id

-- The assignments of a form to a task.
unfoldable pub fill_cron : CronForm → Cron → Cron
fill_cron cf cr = record cr {
  task_type = cf.task_type;
  name = cf.name;
  scheduler = cf.scheduler;
  command = cf.command;
  servers = cf.servers;
  push_successful = cf.push_successful;
  notification_group_id = cf.notification_group_id;
  cover = cf.cover;
}

abbrev pub zero_cron : Cron
zero_cron = record {
  id = 0;
  user_id = 0;
  name = "";
  task_type = 0;
  scheduler = "";
  command = "";
  servers = [];
  push_successful = false;
  notification_group_id = 0;
  last_executed_at = 0;
  last_result = false;
  cover = 0;
  cron_job_id = 0;
}

-- Scheduled tasks cannot be triggered by alerts.
unfoldable pub is_misfit : CronForm → Bool
is_misfit cf = nat_beq cf.task_type cron_type_cron_task && nat_beq cf.cover cron_cover_alert_trigger

module _ {S : Type 0} ⦃sched : Scheduler S⦄ where
  -- if cf.TaskType == model.CronTypeCronTask { cr.CronJobID, err = AddFunc(...) }
  unfoldable pub register : Cron → CronClass S → Option (Cron × CronClass S)
  register cr c =
      if nat_beq cr.task_type cron_type_cron_task
      then elim (sched.add_func cr.scheduler c.cron) [
        | none ↦ none
        | some (job, t) ↦ some (record cr { cron_job_id = job }, record c { cron = t })
      ]
      else some (cr, c)

  unfoldable pub batch_delete_cron :
      User → List ℕ → Bool → CronClass S → Option (Unit {0}) × CronClass S
  batch_delete_cron auth ids deleted c =
      if not (check_permission (some auth) ids c.list)
      then (none, c)
      else if deleted
      then (some tt, delete c ids)
      else (none, c)

module _ {F S : Type 0} ⦃sched : Scheduler S⦄ where
  unfoldable pub create_cron :
      User → GoMap ℕ (Server F) → CronForm → Option ℕ → CronClass S → Option ℕ × CronClass S
  create_cron auth servers cf created c =
      if not (check_permission (some auth) cf.servers servers)
      then (none, c)
      else if is_misfit cf
      then (none, c)
      else elim (register (fill_cron cf (record zero_cron { user_id = get_uid auth })) c) [
        | none ↦ (none, c)
        | some (cr, d) ↦ elim created [
          | none ↦ (none, d)
          | some id ↦ (some id, update d (record cr { id = id }))
        ]
      ]

  -- The row that is read has no CronJobID, since the database does not keep it.
  unfoldable pub update_cron :
      User
      → GoMap ℕ (Server F)
      → CronForm
      → Option Cron
      → Bool
      → CronClass S
      → Option (Unit {0}) × CronClass S
  update_cron auth servers cf found saved c =
      if not (check_permission (some auth) cf.servers servers) then (none, c) else elim found [
        | none ↦ (none, c)
        | some row ↦
            if not (has_permission (some auth) row)
            then (none, c)
            else if is_misfit cf
            then (none, c)
            else elim (register (fill_cron cf (record row { cron_job_id = 0 })) c) [
              | none ↦ (none, c)
              | some (cr, d) ↦ if saved then (some tt, update d cr) else (none, d)
            ]
      ]

  unfoldable pub manual_trigger_cron :
      User → GoMap ℕ (Server F) → ℕ → CronClass S → Option (List TaskEffect)
  manual_trigger_cron auth servers id c = elim (lookup id c.list) [
    | none ↦ none
    | some cr ↦
        if not (has_permission (some auth) cr) then none else some (manual_trigger servers cr)
  ]
