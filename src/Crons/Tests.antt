-- ===== src/Crons/Tests.antt =====
-- A scheduler that numbers its jobs from 1, two servers, and a task that runs at one of them.
use nezha_diff.Base.{
  ℕ, ◌+◌, ◌≡◌, refl, Bool, false, not, ◌&&◌, ◌||◌, Option, none, some, String, List, [], ◌∷◌, arith,
  string_eq, nat_eq, nat_beq, nat_beq_iff, leb, keep, ◌==◌, if◌then◌else◌,
}
use nezha_diff.GoMap.{GoMap, lookup, contains, values}
use nezha_diff.ServerClass.{Server}
use nezha_diff.ServerClass.Tests.{web}
use nezha_diff.Common.{User}
use nezha_diff.Crons.{
  Cron, CronForm, CronClass, Scheduler, cron_trigger, run_at, trigger_each, ignore_map, send_task,
}
use nezha_diff.Crons.Handlers.{zero_cron}

abbrev pub Jobs : Type 0
Jobs = ℕ × List ℕ

unfoldable pub has_job_of : ℕ → Jobs → Bool
has_job_of j s = leb j (s.0) && contains (s.1) j

abbrev add_job : String → Jobs → Option (ℕ × Jobs)
add_job spec s = if spec == "" then none else some (s.0 + 1, (s.0 + 1, (s.0 + 1) ∷ s.1))

abbrev drop_job_of : ℕ → Jobs → Jobs
drop_job_of job s = (s.0, keep (λ j. not (nat_beq job j)) (s.1))

contains-keep_job :
    (job j : ℕ) (js : List ℕ)
    → contains (keep (λ i. not (nat_beq job i)) js) j ≡ not (nat_beq job j) && contains js j
unfolding contains
contains-keep_job job j [] = ground arith
contains-keep_job job j (i ∷ js) =
    ground
      (arith, contains-keep_job job j js, nat_beq_iff job i, nat_beq_iff job j, nat_beq_iff i j)

pub add-fresh_job :
    (spec : String) (s t : Jobs) (job : ℕ)
    → add_job spec s ≡ some (job, t)
    → (has_job_of job s ≡ false) × (nat_beq job 0 ≡ false)
unfolding has_job_of
add-fresh_job spec s t job h = ground arith

pub has-add_job :
    (spec : String) (s t : Jobs) (job j : ℕ)
    → add_job spec s ≡ some (job, t)
    → has_job_of j t ≡ nat_beq job j || has_job_of j s
unfolding has_job_of contains
has-add_job spec s t job j h = ground (arith, nat_beq_iff job j)

pub has-remove_job :
    (job j : ℕ) (s : Jobs)
    → has_job_of j (drop_job_of job s) ≡ not (nat_beq job j) && has_job_of j s
unfolding has_job_of
has-remove_job job j s = ground (arith, contains-keep_job job j (s.1))

instance abbrev pub counter : Scheduler Jobs
counter = record {
  add_func = add_job;
  remove_job = drop_job_of;
  has_job = has_job_of;
  add-fresh = add-fresh_job;
  has-add = has-add_job;
  has-remove = has-remove_job;
}

abbrev no_tasks : CronClass Jobs
no_tasks = record { list = []; sorted_list = []; cron = (0, []) }

abbrev pub owner : User
owner = record {
  id = 1;
  username = "u";
  password = "";
  role = 1;
  agent_secret = "s";
  reject_password = false;
}

abbrev nightly : CronForm
nightly = record {
  task_type = 0;
  name = "nightly";
  scheduler = "0 0 3 * * *";
  command = "backup";
  servers = 3 ∷ [];
  cover = 0;
  push_successful = false;
  notification_group_id = 0;
}

abbrev two_servers : GoMap ℕ (Server ℕ)
two_servers = (3, web) ∷ (4, record web { id = 4 }) ∷ []

abbrev task : Cron
task = record zero_cron { id = 5; user_id = 1; servers = 3 ∷ [] }

one_server : cron_trigger two_servers task [] ≡ send_task 3 task ∷ []
unfolding cron_trigger trigger_each ignore_map run_at lookup nezha_diff.GoMap.insert
one_server = refl

-- A task of user 9 that covers all servers reaches the server of user 1.
abbrev foreign_task : Cron
foreign_task = record task { user_id = 9; cover = 1; servers = [] }

foreign_server : cron_trigger ((3, web) ∷ []) foreign_task [] ≡ send_task 3 foreign_task ∷ []
unfolding cron_trigger trigger_each ignore_map run_at lookup
foreign_server = refl
