-- ===== src/ServerClass.antt =====
-- service/singleton/server.go and the records of model/server.go and model/host.go. `F` stands for
-- float64; a time is a number of nanoseconds since Go's zero time. Dynamic DNS, which `Update`
-- starts in the background, is not part of the state.
pub mod Index
pub mod Order
pub mod Tests
use nezha_diff.Base.{
  ℕ, Bool, true, false, not, Option, none, some, String, List, [], ◌∷◌, nat_eq, string_eq, nat_beq,
  if◌then◌else◌, ltb, keep, ◌==◌, ◌&&◌, ◌||◌,
}
use nezha_diff.Int.{ℤ, pos_part, neg_part, ltb_ℤ}
use nezha_diff.Outcome.{Outcome, ok, panic, ◌>>=◌}
use nezha_diff.Common.{CommonInterface}
use nezha_diff.GoMap.{GoMap, lookup, insert, remove, values}
use nezha_diff.Sort.{sort_func}
use nezha_diff.Host.{HostState, Host, GeoIp}

-- What an agent answers to a request for its configuration: the text, or an error.
pub data ConfigReply : Type 0 where
  config failure : String → ConfigReply

-- `task_stream` is nil or a stream, which a number stands for; `config_cache` is the content of the
-- channel of capacity 1, which a server that was made without `InitServer` does not have.
pub record Server (F : Type 0) : Type 0 where
  pub id : ℕ
  pub user_id : ℕ
  pub name : String
  pub uuid : String
  pub display_index : ℤ
  pub hide_for_guest : Bool
  pub enable_ddns : Bool
  pub ddns_profiles : List ℕ
  pub host : Host
  pub state : HostState F
  pub geo_ip : Option GeoIp
  pub last_active : ℕ
  pub task_stream : Option ℕ
  pub config_cache : Option (List ConfigReply)
  pub prev_transfer_in_snapshot : ℕ
  pub prev_transfer_out_snapshot : ℕ

instance abbrev pub server_common : {F : Type 0} → CommonInterface (Server F)
server_common = record { get_id = λ s. s.id; get_user_id = λ s. s.user_id }

pub record ServerClass (F : Type 0) : Type 0 where
  pub list : GoMap ℕ (Server F)
  pub uuid_to_id : GoMap String ℕ
  pub sorted_list : List (Server F)
  pub sorted_list_for_guest : List (Server F)

module _ {F : Type 0} where
  -- A larger DisplayIndex comes first; equals go by ID.
  abbrev pub before : Server F → Server F → Bool
  before a b =
      if ltb_ℤ b.display_index a.display_index
      then true
      else if ltb_ℤ a.display_index b.display_index
      then false
      else ltb a.id b.id

  unfoldable pub sort_list : ServerClass F → ServerClass F
  sort_list c =
      let sorted = sort_func before (values c.list) in
      record c {
        sorted_list = sorted;
        sorted_list_for_guest = keep (λ s. not s.hide_for_guest) sorted;
      }

  unfoldable pub update : ServerClass F → Server F → String → ServerClass F
  update c s uuid = sort_list (record c {
    list = insert s.id s c.list;
    uuid_to_id = if uuid == "" then c.uuid_to_id else insert uuid s.id c.uuid_to_id;
  })

  -- c.list[id].UUID dereferences nil for an unknown number.
  unfoldable pub delete_one : ServerClass F → ℕ → Outcome (ServerClass F)
  delete_one c id = elim (lookup id c.list) [
    | none ↦ panic
    | some s ↦ ok (record c { list = remove id c.list; uuid_to_id = remove s.uuid c.uuid_to_id })
  ]

  unfoldable pub delete_each : ServerClass F → List ℕ → Outcome (ServerClass F)
  delete_each c [] = ok c
  delete_each c (id ∷ ids) = delete_one c id >>= λ d. delete_each d ids

  unfoldable pub delete : ServerClass F → List ℕ → Outcome (ServerClass F)
  delete c ids = do d ← delete_each c ids; ok (sort_list d)

  unfoldable pub uuid_to_id_of : ServerClass F → String → Option ℕ
  uuid_to_id_of c uuid = lookup uuid c.uuid_to_id

  -- The rows are the servers of the database after InitServer.
  unfoldable pub load : List (Server F) → ServerClass F → ServerClass F
  load [] c = c
  load (s ∷ ss) c =
      load ss
        (record c { list = insert s.id s c.list; uuid_to_id = insert s.uuid s.id c.uuid_to_id })

  unfoldable pub new_server_class : List (Server F) → ServerClass F
  new_server_class servers = sort_list (
      load servers
        (record { list = []; uuid_to_id = []; sorted_list = []; sorted_list_for_guest = [] }))
