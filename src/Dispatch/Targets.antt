-- ===== src/Dispatch/Targets.antt =====
-- The agents that cmd/dashboard/rpc/rpc.go sends a service monitor to.
use nezha_diff.Base.{
  ℕ, ◌≡◌, refl, Bool, false, not, ◌&&◌, ◌||◌, Option, none, some, [], ◌∷◌, arith, nat_eq, nat_beq,
  nat_beq_iff, Option-cases, Bool-cases, inl, inr,
}
use nezha_diff.GoMap.{GoMap, lookup, contains, Distinct}
use nezha_diff.Common.{UserInfo, is_admin}
use nezha_diff.Alerts.{role_of}
use nezha_diff.ServerClass.{Server}
use nezha_diff.Sentinel.{Service}
use nezha_diff.Dispatch.{
  service_cover_all, service_cover_ignore_all, is_set, can_send_task_to_server, has_stream,
  dispatch_named, dispatch_range, dispatch_one,
}

module _ {F : Type 0} where
  -- The owner of the task is a user with the role of an administrator.
  abbrev pub is_owned_by_admin : GoMap ℕ UserInfo → Service F → Bool
  is_owned_by_admin users task = elim (lookup task.user_id users) [
    | none ↦ false
    | some u ↦ nat_beq u.role 0
  ]

  -- A server that is registered and connected, and that belongs to the owner of the task, unless
  -- this is an administrator.
  abbrev pub is_open : GoMap ℕ UserInfo → Service F → Option (Server F) → Bool
  is_open users task none = false
  is_open users task (some s) =
      has_stream s && (nat_beq s.user_id task.user_id || is_owned_by_admin users task)

  can_send_task_to_server_lem :
      (users : GoMap ℕ UserInfo) (task : Service F) (s : Server F)
      → can_send_task_to_server users task s
        ≡ nat_beq s.user_id task.user_id || is_owned_by_admin users task
  unfolding can_send_task_to_server role_of is_admin
  can_send_task_to_server_lem users task s = elim (Option-cases (lookup task.user_id users)) [
    | inl e ↦
        ground (arith, e, nat_beq_iff s.user_id task.user_id, nat_beq_iff task.user_id s.user_id)
    | inr (u, e) ↦
        ground (arith, e, nat_beq_iff s.user_id task.user_id, nat_beq_iff task.user_id s.user_id)
  ]

  -- The servers that the task is for: those that it names, or all but those.
  abbrev pub is_covered : Service F → ℕ → Bool
  is_covered task id =
      (nat_beq task.cover service_cover_ignore_all && is_set (lookup id task.skip_servers))
      || (nat_beq task.cover service_cover_all && not (is_set (lookup id task.skip_servers)))

  contains-named :
      (users : GoMap ℕ UserInfo) (servers : GoMap ℕ (Server F)) (task : Service F)
      (named : GoMap ℕ Bool) (id : ℕ)
      → Distinct named
      → contains (dispatch_named users servers task named) id
        ≡ is_set (lookup id named) && is_open users task (lookup id servers)
  unfolding dispatch_named contains lookup
  contains-named users servers task [] id d = refl
  contains-named users servers task ((k, enabled) ∷ named) id d = elim (Bool-cases (nat_beq k id)) [
    | inl same ↦ elim (Option-cases (lookup k servers)) [
      | inl e ↦
          ground
            (arith, contains-named users servers task named id d.1, same, d.0, nat_beq_iff k id, e)
      | inr (s, e) ↦ ground (
        arith,
        contains-named users servers task named id d.1,
        same,
        d.0,
        nat_beq_iff k id,
        e,
        can_send_task_to_server_lem users task s,
      )
    ]
    | inr other ↦ ground (arith, contains-named users servers task named id d.1, other)
  ]

  contains-range :
      (users : GoMap ℕ UserInfo) (task : Service F) (servers : GoMap ℕ (Server F)) (id : ℕ)
      → Distinct servers
      → contains (dispatch_range users task servers) id
        ≡ not (is_set (lookup id task.skip_servers)) && is_open users task (lookup id servers)
  unfolding dispatch_range contains lookup
  contains-range users task [] id d = ground arith
  contains-range users task ((k, s) ∷ servers) id d = elim (Bool-cases (nat_beq k id)) [
    | inl same ↦ ground (
      arith,
      contains-range users task servers id d.1,
      same,
      d.0,
      nat_beq_iff k id,
      can_send_task_to_server_lem users task s,
    )
    | inr other ↦ ground (arith, contains-range users task servers id d.1, other)
  ]

  -- A service monitor goes to exactly the servers that it covers, that are registered and connected,
  -- and that belong to its owner, unless the owner is an administrator.
  pub contains-dispatch_one :
      (users : GoMap ℕ UserInfo) (servers : GoMap ℕ (Server F)) (task : Service F) (id : ℕ)
      → Distinct task.skip_servers
      → Distinct servers
      → contains (dispatch_one users servers (some task)) id
        ≡ is_covered task id && is_open users task (lookup id servers)
  unfolding dispatch_one contains
  contains-dispatch_one users servers task id d e = ground (
    arith,
    contains-named users servers task task.skip_servers id d,
    contains-range users task servers id e,
  )
