-- ===== src/Users/Tests.antt =====
-- One user with one agent, who is checked and deleted.
use nezha_diff.Base.{
  ℕ, refl, true, not, none, some, [], ◌∷◌, arith, string_eq, nat_eq, ◌==◌, Bool-cases, inl, inr,
}
use text.Mathlib.TextEquality.{eq_iff}
use nezha_diff.GoMap.{lookup, insert, remove}
use nezha_diff.Common.{UserInfo}
use nezha_diff.ServerClass.{update, sort_list}
use nezha_diff.ServerClass.Tests.{web, one, one-IsIndexed}
use nezha_diff.Crons.Tests.{counter, Jobs}
use nezha_diff.Users.{
  UserTables, World, init_user, drop_user, on_user_delete, delete_users, delete_user,
}
use nezha_diff.Users.Secrets.{AreHeld, Left, on_user_delete-Left}
use nezha_diff.Users.Auth.{
  Metadata, Checked, Tools, unblock_agent, check, check_uuid, IsAnswered, check-IsAnswered,
}

abbrev tables : UserTables
tables = record {
  user_info_map = (1, record { role = 1; agent_secret = "s" }) ∷ [];
  agent_secret_to_user_id = ("s", 1) ∷ [];
}

tables-AreHeld : AreHeld tables
unfolding lookup
tables-AreHeld s uid l = elim (Bool-cases ("s" == s)) [
  | inl same ↦
      (record { role = 1; agent_secret = "s" }, ground (arith, l, same), (eq_iff "s" s).0 same)
  | inr other ↦ absurd (ground (arith, l, other))
]

abbrev world_before : World ℕ Jobs
world_before = record {
  tables = tables;
  servers = record { list = []; uuid_to_id = []; sorted_list = []; sorted_list_for_guest = [] };
  crons = record { list = []; sorted_list = []; cron = (0, []) };
  alert_ids = [];
  cycle_stats = [];
}

abbrev world_after : World ℕ Jobs
world_after = record world_before {
  tables = record { user_info_map = []; agent_secret_to_user_id = [] };
}

on_user_delete-Left_example : Left (1 ∷ []) world_before.tables world_after.tables
unfolding on_user_delete delete_users delete_user drop_user lookup remove
    nezha_diff.Users.delete_crons nezha_diff.Users.delete_servers nezha_diff.Users.forget_servers
    nezha_diff.Common.find_by_user_id
on_user_delete-Left_example =
    on_user_delete-Left (λ uid. true) (1 ∷ []) world_before world_after refl tables-AreHeld

abbrev tools : Tools ℕ
tools = record {
  trim_space = λ s. s;
  is_uuid = λ u. not (u == "");
  zero_server = web;
  pet_name = "calm-crab";
  created = none;
}

abbrev metadata : Metadata
metadata = record { client_secret = some ("s" ∷ []); client_uuid = some ("u-3" ∷ []) }

abbrev answer : Checked ℕ
answer = record { client = some 3; servers = one; calls = unblock_agent ∷ [] }

check-IsAnswered_example : IsAnswered tools metadata tables answer
unfolding check check_uuid lookup update sort_list insert
check-IsAnswered_example =
    check-IsAnswered tools metadata tables one answer refl one-IsIndexed refl (λ id h. cc h)
