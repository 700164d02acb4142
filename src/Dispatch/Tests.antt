-- ===== src/Dispatch/Tests.antt =====
-- A monitor of user 1 for all servers but number 4.
use nezha_diff.Base.{ℕ, ◌≡◌, refl, true, false, ◌&&◌, some, [], ◌∷◌, nat_eq}
use nezha_diff.GoMap.{GoMap, lookup, contains}
use nezha_diff.Sentinel.{Service}
use nezha_diff.ServerClass.{Server}
use nezha_diff.ServerClass.Tests.{web}
use nezha_diff.Dispatch.{dispatch_one, dispatch_range, can_send_task_to_server}
use nezha_diff.Dispatch.Targets.{is_open, is_covered, contains-dispatch_one}

abbrev ping : Service ℕ
ping = record {
  id = 2;
  user_id = 1;
  name = "ping";
  type = 2;
  target = "1.1.1.1";
  duration = 30;
  notify = false;
  notification_group_id = 0;
  cover = 0;
  enable_trigger_task = false;
  enable_show_in_service = true;
  fail_trigger_tasks = [];
  recover_trigger_tasks = [];
  min_latency = 0;
  max_latency = 0;
  latency_notify = false;
  skip_servers = (4, true) ∷ [];
  cron_job_id = 1;
}

abbrev servers : GoMap ℕ (Server ℕ)
servers = (3, web) ∷ (4, record web { id = 4 }) ∷ (5, record web { id = 5; user_id = 9 }) ∷ []

ping_goes_to_web : dispatch_one [] servers (some ping) ≡ 3 ∷ []
unfolding dispatch_one dispatch_range can_send_task_to_server lookup nezha_diff.Alerts.role_of
    nezha_diff.Common.is_admin
ping_goes_to_web = refl

contains-dispatch_one_example :
    contains (dispatch_one [] servers (some ping)) 3
    ≡ is_covered ping 3 && is_open [] ping (lookup 3 servers)
unfolding lookup
contains-dispatch_one_example =
    contains-dispatch_one [] servers ping 3 (refl, tt) (refl, (refl, (refl, tt)))
