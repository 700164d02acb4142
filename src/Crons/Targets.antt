-- ===== src/Crons/Targets.antt =====
-- The servers that a task of service/singleton/crontask.go runs at.
use nezha_diff.Base.{
  ℕ, ◌≡◌, refl, Bool, true, not, none, some, List, [], ◌∷◌, map, arith, nat_eq, nat_beq, keep,
  if◌then◌else◌,
}
use nezha_diff.GoMap.{GoMap, lookup, values, contains, lookup-insert}
use nezha_diff.ServerClass.{Server, server_common}
use nezha_diff.Crons.{
  Cron, ignore_map, flag, run_at, trigger_each, cron_trigger, cron_cover_all, cron_cover_ignore_all,
  cron_cover_alert_trigger,
}

-- Which servers a task covers, by its list of servers: all others, or those alone.
unfoldable pub covers : Cron → ℕ → Bool
covers cr id =
    if nat_beq cr.cover cron_cover_all
    then not (contains cr.servers id)
    else if nat_beq cr.cover cron_cover_ignore_all
    then contains cr.servers id
    else true

ignore_map-contains :
    (servers : List ℕ) (id : ℕ) → flag (lookup id (ignore_map servers)) ≡ contains servers id
unfolding ignore_map contains lookup
ignore_map-contains [] id = refl
ignore_map-contains (s ∷ ss) id =
    ground (arith, lookup-insert s id true (ignore_map ss), ignore_map-contains ss id)

module _ {F : Type 0} where
  trigger_each-keep :
      (cr : Cron) (ss : List (Server F))
      → trigger_each cr ss ≡ map (run_at cr) (keep (λ s. covers cr s.id) ss)
  unfolding trigger_each covers
  trigger_each-keep cr [] = refl
  trigger_each-keep cr (s ∷ ss) =
      ground (arith, trigger_each-keep cr ss, ignore_map-contains cr.servers s.id)

  -- A task runs at exactly the servers that it covers, in their order, whoever owns them. One that
  -- alerts trigger runs at the server of the alert alone, if that is known, and never by itself.
  pub cron_trigger_lem :
      (servers : GoMap ℕ (Server F)) (cr : Cron) (trigger_server : List ℕ)
      → cron_trigger servers cr trigger_server ≡ (
          if nat_beq cr.cover cron_cover_alert_trigger
          then elim trigger_server [
            | [] ↦ []
            | id ∷ _ ↦ elim (lookup id servers) [ none ↦ [] | some s ↦ run_at cr s ∷ [] ]
          ]
          else map (run_at cr) (keep (λ s. covers cr s.id) (values servers)))
  unfolding cron_trigger
  cron_trigger_lem servers cr trigger_server = rw (trigger_each-keep cr (values servers)) refl
