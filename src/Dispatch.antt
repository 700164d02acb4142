-- ===== src/Dispatch.antt =====
-- `DispatchTask`, `DispatchKeepalive` and `canSendTaskToServer` of cmd/dashboard/rpc/rpc.go: which
-- agents are asked to run a service monitor. The result names the servers to whose streams the task
-- is sent; what the sending returns is not read by the code. `F` stands for float32 and float64.
pub mod Targets
mod Tests
use nezha_diff.Base.{
  ℕ, Bool, true, false, not, ◌&&◌, ◌||◌, Option, none, some, List, [], ◌∷◌, ◌++◌, nat_eq, nat_beq,
  if◌then◌else◌,
}
use nezha_diff.GoMap.{GoMap, lookup}
use nezha_diff.Common.{UserInfo, is_admin}
use nezha_diff.ServerClass.{Server}
use nezha_diff.Sentinel.{Service}
use nezha_diff.Alerts.{role_of}

abbrev pub service_cover_all : ℕ
service_cover_all = 0

abbrev pub service_cover_ignore_all : ℕ
service_cover_ignore_all = 1

-- A flag of a map; a missing key reads as false.
abbrev pub is_set : Option Bool → Bool
is_set none = false
is_set (some b) = b

module _ {F : Type 0} where
  unfoldable pub can_send_task_to_server : GoMap ℕ UserInfo → Service F → Server F → Bool
  can_send_task_to_server users task server =
      nat_beq task.user_id server.user_id || is_admin (role_of users task.user_id)

  abbrev pub has_stream : Server F → Bool
  has_stream server = elim server.task_stream [ none ↦ false | some _ ↦ true ]

  -- The loop over the servers that the task names.
  unfoldable pub dispatch_named :
      GoMap ℕ UserInfo → GoMap ℕ (Server F) → Service F → GoMap ℕ Bool → List ℕ
  dispatch_named users servers task [] = []
  dispatch_named users servers task ((id, enabled) ∷ named) =
      let rest = dispatch_named users servers task named in
      if not enabled then rest else elim (lookup id servers) [
        | none ↦ rest
        | some server ↦
            if not (has_stream server)
            then rest
            else if can_send_task_to_server users task server
            then id ∷ rest
            else rest
      ]

  -- The loop over the registry.
  unfoldable pub dispatch_range : GoMap ℕ UserInfo → Service F → GoMap ℕ (Server F) → List ℕ
  dispatch_range users task [] = []
  dispatch_range users task ((id, server) ∷ servers) =
      let rest = dispatch_range users task servers in
      if not (has_stream server) || is_set (lookup id task.skip_servers)
      then rest
      else if can_send_task_to_server users task server
      then id ∷ rest
      else rest

  -- One turn of the loop of `DispatchTask`.
  unfoldable pub dispatch_one : GoMap ℕ UserInfo → GoMap ℕ (Server F) → Option (Service F) → List ℕ
  dispatch_one users servers none = []
  dispatch_one users servers (some task) =
      if nat_beq task.cover service_cover_ignore_all
      then dispatch_named users servers task task.skip_servers
      else if nat_beq task.cover service_cover_all
      then dispatch_range users task servers
      else []

  -- The tasks of the bus, in their order.
  unfoldable pub dispatch_task :
      GoMap ℕ UserInfo → GoMap ℕ (Server F) → List (Option (Service F)) → List (List ℕ)
  dispatch_task users servers [] = []
  dispatch_task users servers (task ∷ bus) =
      dispatch_one users servers task ∷ dispatch_task users servers bus

  -- The servers of the sorted list that `DispatchKeepalive` writes to.
  unfoldable pub dispatch_keepalive : List (Server F) → List ℕ
  dispatch_keepalive [] = []
  dispatch_keepalive (s ∷ ss) =
      let rest = dispatch_keepalive ss in if has_stream s then s.id ∷ rest else rest
