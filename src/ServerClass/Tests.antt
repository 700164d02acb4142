-- ===== src/ServerClass/Tests.antt =====
-- One server, number 3: the theorems about service/singleton/server.go at this state.
use mathlib.Core.Bool.{false≢true}
use text.Mathlib.TextEquality.{eq_iff}
use nezha_diff.Base.{ℕ, ◌≡◌, refl, false, none, some, [], ◌∷◌, nat_eq, if◌then◌else◌}
use nezha_diff.Host.Tests.{warm, small_host}
use nezha_diff.Int.{pos}
use nezha_diff.Outcome.{ok, panic}
use nezha_diff.GoMap.{lookup, insert, contains}
use nezha_diff.Common.{User, role_member, check_permission}
use nezha_diff.ServerClass.{Server, ServerClass, server_common, sort_list, update, delete}
use nezha_diff.ServerClass.Index.{IsIndexed, update_new-IsIndexed, delete_total, delete_unknown}

abbrev pub web : Server ℕ
web = record {
  id = 3;
  user_id = 1;
  name = "web";
  uuid = "u-3";
  display_index = pos 0;
  hide_for_guest = false;
  enable_ddns = false;
  ddns_profiles = [];
  host = small_host;
  state = warm;
  geo_ip = none;
  last_active = 1;
  task_stream = some 1;
  config_cache = some [];
  prev_transfer_in_snapshot = 2;
  prev_transfer_out_snapshot = 3;
}

abbrev empty : ServerClass ℕ
empty = record { list = []; uuid_to_id = []; sorted_list = []; sorted_list_for_guest = [] }

abbrev pub one : ServerClass ℕ
one = update empty web "u-3"

empty-IsIndexed : IsIndexed empty
unfolding lookup
empty-IsIndexed = record { by_id = λ id u h. cc h; by_uuid = λ u id h. cc h }

pub one-IsIndexed : IsIndexed one
unfolding lookup
one-IsIndexed =
    update_new-IsIndexed empty web empty-IsIndexed (λ e. false≢true ((eq_iff "u-3" "").1 e)) refl
      refl

update_new-IsIndexed_example : IsIndexed one
unfolding lookup
update_new-IsIndexed_example =
    update_new-IsIndexed empty web empty-IsIndexed (λ e. false≢true ((eq_iff "u-3" "").1 e)) refl
      refl

delete_total_example :
    (d : ServerClass ℕ) × (delete one (3 ∷ []) ≡ ok d)
    × IsIndexed d
    × ((id : ℕ) → lookup id d.list ≡ (if contains (3 ∷ []) id then none else lookup id one.list))
unfolding update insert lookup sort_list contains
delete_total_example = delete_total one (3 ∷ []) one-IsIndexed (refl, refl, tt)

abbrev owner : User
owner = record {
  id = 1;
  username = "ann";
  password = "";
  role = role_member;
  agent_secret = "";
  reject_password = false;
}

delete_unknown_example :
    (delete one (3 ∷ 8 ∷ []) ≡ panic)
    × (check_permission (some owner) (3 ∷ 8 ∷ []) one.list
        ≡ check_permission (some owner) (3 ∷ []) one.list)
unfolding update insert lookup sort_list contains
delete_unknown_example = delete_unknown (some owner) one (3 ∷ 8 ∷ []) 8 refl refl

-- The owner of the server, who is no administrator.
