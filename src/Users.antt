-- ===== src/Users.antt =====
-- service/singleton/user.go: the users, the secrets of their agents, and what is deleted along with a
-- user. The secrets that `MustGenerateRandomString` makes and the answers of the database are
-- arguments. `F` stands for float64, `S` for the scheduler.
pub mod Secrets
pub mod Auth
mod Tests
use nezha_diff.Base.{
  ℕ, Bool, true, false, not, ◌&&◌, Option, none, some, String, List, [], ◌∷◌, string_eq, nat_eq,
  ◌==◌, if◌then◌else◌,
}
use nezha_diff.Outcome.{Outcome, ok, panic, ◌>>=◌}
use nezha_diff.GoMap.{GoMap, lookup, insert, remove}
use nezha_diff.Common.{User, UserInfo, find_by_user_id, role_admin}
use nezha_diff.Crons
use nezha_diff.ServerClass
use nezha_diff.Rule.Snapshot.{CycleTransferStats}
use nezha_diff.ServerClass.{Server, ServerClass, server_common}
use nezha_diff.Crons.{Cron, CronClass, Scheduler, cron_common}

-- UserInfoMap and AgentSecretToUserId
pub record UserTables : Type 0 where
  pub user_info_map : GoMap ℕ UserInfo
  pub agent_secret_to_user_id : GoMap String ℕ

abbrev pub put_user : ℕ → ℕ → String → UserTables → UserTables
put_user id role secret t = record {
  user_info_map = insert id (record { role = role; agent_secret = secret }) t.user_info_map;
  agent_secret_to_user_id = insert secret id t.agent_secret_to_user_id;
}

-- The loop of `initUser`: a user without a secret gets one, which is saved.
unfoldable pub init_each : (ℕ → String) → (ℕ → Bool) → List User → UserTables → Outcome UserTables
init_each generate save [] t = ok t
init_each generate save (u ∷ us) t =
    let secret = if u.agent_secret == "" then generate u.id else u.agent_secret in
    let rest = init_each generate save us (put_user u.id u.role secret t) in
    if u.agent_secret == "" && not (save u.id) then panic else rest

-- User 0 with the secret of the configuration comes first.
unfoldable pub init_user : String → (ℕ → String) → (ℕ → Bool) → List User → Outcome UserTables
init_user agent_secret_key generate save users = init_each generate save users (
    put_user 0 role_admin agent_secret_key
      (record { user_info_map = []; agent_secret_to_user_id = [] }))

unfoldable pub on_user_update : Option User → UserTables → UserTables
on_user_update none t = t
on_user_update (some u) t = put_user u.id u.role u.agent_secret t

-- A missing user reads as the zero value.
abbrev pub secret_of : Option UserInfo → String
secret_of none = ""
secret_of (some info) = info.agent_secret

unfoldable pub drop_user : ℕ → UserTables → UserTables
drop_user uid t = record {
  user_info_map = remove uid t.user_info_map;
  agent_secret_to_user_id =
      remove (secret_of (lookup uid t.user_info_map)) t.agent_secret_to_user_id;
}

-- What `OnUserDelete` changes.
pub record World (F S : Type 0) : Type 0 where
  pub tables : UserTables
  pub servers : ServerClass F
  pub crons : CronClass S
  pub alert_ids : List ℕ
  pub cycle_stats : GoMap ℕ CycleTransferStats

-- The statistics of the alerts lose a server.
unfoldable pub forget_server : ℕ → List ℕ → GoMap ℕ CycleTransferStats → GoMap ℕ CycleTransferStats
forget_server sid [] m = m
forget_server sid (alert ∷ alerts) m = elim (lookup alert m) [
  | none ↦ forget_server sid alerts m
  | some stats ↦ forget_server sid alerts (
      insert alert
        (record stats {
          server_name = remove sid stats.server_name;
          transfer = remove sid stats.transfer;
          next_update = remove sid stats.next_update;
        })
        m)
]

unfoldable pub forget_servers :
    List ℕ → List ℕ → GoMap ℕ CycleTransferStats → GoMap ℕ CycleTransferStats
forget_servers [] alerts m = m
forget_servers (sid ∷ sids) alerts m = forget_servers sids alerts (forget_server sid alerts m)

-- if len(crons) > 0 and if len(servers) > 0
unfoldable pub delete_crons :
    {S : Type 0} ⦃sched : Scheduler S⦄ → List ℕ → CronClass S → CronClass S
delete_crons [] c = c
delete_crons (id ∷ ids) c = Crons.delete c (id ∷ ids)

unfoldable pub delete_servers : {F : Type 0} → List ℕ → ServerClass F → Outcome (ServerClass F)
delete_servers [] c = ok c
delete_servers (id ∷ ids) c = ServerClass.delete c (id ∷ ids)

module _ {F S : Type 0} ⦃sched : Scheduler S⦄ where
  -- One turn of the loop, behind the transaction.
  unfoldable pub delete_user : List (Server F) → List Cron → ℕ → World F S → Outcome (World F S)
  delete_user slist clist uid w = do
    let crons = find_by_user_id clist uid
    let sids = find_by_user_id slist uid
    servers ← delete_servers sids w.servers
    ok (record w {
      crons = delete_crons crons w.crons;
      servers = servers;
      cycle_stats = forget_servers sids w.alert_ids w.cycle_stats;
      tables = drop_user uid w.tables;
    })

  -- The lists are those of before the loop; `commit` says which transactions succeed. The result is
  -- false for an error.
  unfoldable pub delete_users :
      List (Server F) → List Cron → (ℕ → Bool) → List ℕ → World F S → Outcome (Bool × World F S)
  delete_users slist clist commit [] w = ok (true, w)
  delete_users slist clist commit (uid ∷ uids) w =
      let rest = delete_user slist clist uid w >>= λ v. delete_users slist clist commit uids v in
      if commit uid then rest else ok (false, w)

  unfoldable pub on_user_delete : (ℕ → Bool) → List ℕ → World F S → Outcome (Bool × World F S)
  on_user_delete commit [] w = ok (false, w)
  on_user_delete commit (uid ∷ uids) w =
      delete_users w.servers.sorted_list w.crons.sorted_list commit (uid ∷ uids) w
