-- ===== src/Crons/Wiring.antt =====
-- The jobs of the scheduler over the handlers of cmd/dashboard/controller/cron.go.
use nezha_diff.Base.{Option, nat_eq}
use nezha_diff.GoMap.{GoMap}
use nezha_diff.ServerClass.{server_common}
use nezha_diff.Crons.{Cron, Scheduler, CronClass, cron_common}
use nezha_diff.Crons.Jobs.{IsWired}

module _ {S : Type 0} ⦃sched : Scheduler S⦄ where
  abbrev WiredPair : Cron × CronClass S → Type 0
  WiredPair x = IsWired (x.0.cron_job_id) (x.1)
