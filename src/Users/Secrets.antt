-- ===== src/Users/Secrets.antt =====
-- The secrets of the agents in service/singleton/user.go.
use text.Mathlib.TextEquality.{eq_iff}
use nezha_diff.Base.{
  ℕ, ◌≡◌, refl, ap, subst, sym, ◌∙◌, Bool, true, ◌||◌, none, some, String, List, [], ◌∷◌, arith,
  string_eq, nat_eq, nat_beq, nat_beq_iff, if◌then◌else◌, Bool-cases, inl, inr,
}
use nezha_diff.Outcome.{ok, ok-of->>=, ok-injective}
use nezha_diff.GoMap.{lookup, contains, lookup-remove}
use nezha_diff.Common.{UserInfo, find_by_user_id}
use nezha_diff.ServerClass.{Server, server_common}
use nezha_diff.Crons.{Cron, Scheduler, cron_common}
use nezha_diff.Users.{
  UserTables, World, drop_user, secret_of, delete_user, delete_users, delete_servers,
  on_user_delete,
}

-- Each secret in the table is the present one of a present user.
abbrev pub AreHeld : UserTables → Type 0
AreHeld t =
    (s : String) (uid : ℕ)
    → lookup s t.agent_secret_to_user_id ≡ some uid
    → (info : UserInfo) × (lookup uid t.user_info_map ≡ some info) × (info.agent_secret ≡ s)

drop_user-AreHeld : (uid : ℕ) (t : UserTables) → AreHeld t → AreHeld (drop_user uid t)
unfolding drop_user
drop_user-AreHeld uid t h s u l =
    let secret = secret_of (lookup uid t.user_info_map) in
    let (info, e, same) =
      h s u (ground (arith, l, lookup-remove secret s t.agent_secret_to_user_id)) in
    (
      info,
      ground (
        arith,
        e,
        same,
        l,
        lookup-remove secret s t.agent_secret_to_user_id,
        lookup-remove uid u t.user_info_map,
        nat_beq_iff uid u,
        eq_iff secret s,
      ),
      same,
    )

lookup-drop_user :
    (uid : ℕ) (uids : List ℕ) (t : UserTables) (j : ℕ)
    → (if contains uids j then none else lookup j ((drop_user uid t).user_info_map))
      ≡ (if nat_beq uid j || contains uids j then none else lookup j t.user_info_map)
unfolding drop_user
lookup-drop_user uid uids t j = ground (arith, lookup-remove uid j t.user_info_map)

-- What a turn leaves of the users.
delete_user-tables :
    {F S : Type 0} ⦃sched : Scheduler S⦄ (slist : List (Server F)) (clist : List Cron) (uid : ℕ)
    (w v : World F S)
    → delete_user slist clist uid w ≡ ok v
    → v.tables ≡ drop_user uid w.tables
unfolding delete_user
delete_user-tables slist clist uid w v h =
    let sids = find_by_user_id slist uid in
    let (servers, made, first) = ok-of->>= (delete_servers sids w.servers) _ h in
    ap (λ x. x.tables) (sym (ok-injective made))

-- Users outside the list keep their entry, those of the list lose it.
abbrev pub Left : List ℕ → UserTables → UserTables → Type 0
Left uids t u =
    AreHeld u
    × ((j : ℕ)
        → lookup j u.user_info_map ≡ (if contains uids j then none else lookup j t.user_info_map))

delete_users-Left :
    {F S : Type 0} ⦃sched : Scheduler S⦄ (slist : List (Server F)) (clist : List Cron)
    (commit : ℕ → Bool) (uids : List ℕ) (w v : World F S)
    → delete_users slist clist commit uids w ≡ ok (true, v)
    → AreHeld w.tables
    → Left uids w.tables v.tables
unfolding delete_users contains
delete_users-Left slist clist commit [] w v h held =
    let same : w ≡ v = ap (λ x. x.1) (ok-injective h) in
    subst (λ x. Left [] w.tables x.tables) same (held, λ j. refl)
delete_users-Left slist clist commit (uid ∷ uids) w v h held = elim (Bool-cases (commit uid)) [
  | inr failed ↦ absurd (ground (arith, h, failed))
  | inl done ↦
      let (next, rest, first) =
        ok-of->>= (delete_user slist clist uid w) (λ x. delete_users slist clist commit uids x)
          (ground (arith, h, done)) in
      let dropped = delete_user-tables slist clist uid w next first in
      let later =
        delete_users-Left slist clist commit uids next v rest
          (subst AreHeld (sym dropped) (drop_user-AreHeld uid w.tables held)) in
      (
        later.0,
        λ j.
            later.1 j
            ∙ ap (λ t. if contains uids j then none else lookup j t.user_info_map) dropped
            ∙ lookup-drop_user uid uids w.tables j,
      )
]

-- Deleting users shuts their agents out: if each secret of the table is its user's present one and
-- the deletion succeeds, then this holds afterwards, the users of the request have no entry, and
-- every other user has the entry of before.
pub on_user_delete-Left :
    {F S : Type 0} ⦃sched : Scheduler S⦄ (commit : ℕ → Bool) (uids : List ℕ) (w v : World F S)
    → on_user_delete commit uids w ≡ ok (true, v)
    → AreHeld w.tables
    → Left uids w.tables v.tables
unfolding on_user_delete
on_user_delete-Left commit [] w v h held = absurd (ground (arith, h))
on_user_delete-Left commit (uid ∷ uids) w v h held =
    delete_users-Left w.servers.sorted_list w.crons.sorted_list commit (uid ∷ uids) w v h held
