-- ===== src/NatClass.antt =====
-- service/singleton/nat.go and model/nat.go: the NAT profiles, by domain, and the domain of each.
pub mod Pairs
mod Tests
use nezha_diff.Base.{
  ℕ, Bool, true, false, not, ◌&&◌, Option, none, some, String, List, [], ◌∷◌, nat_eq, string_eq,
  ◌==◌, if◌then◌else◌,
}
use nezha_diff.GoMap.{GoMap, lookup, insert, remove, values}
use nezha_diff.Sort.{sort_func, by_key}

pub record Nat : Type 0 where
  pub id : ℕ
  pub user_id : ℕ
  pub enabled : Bool
  pub name : String
  pub server_id : ℕ
  pub host : String
  pub domain : String

pub record NatClass : Type 0 where
  pub list : GoMap String Nat
  pub sorted_list : List Nat
  pub id_to_domain : GoMap ℕ String

unfoldable pub sort_list : NatClass → NatClass
sort_list c = record c { sorted_list = sort_func (by_key (λ n. n.id)) (values c.list) }

unfoldable pub load_profiles : List Nat → NatClass → NatClass
load_profiles [] c = c
load_profiles (n ∷ ns) c = load_profiles ns (record c {
  list = insert n.domain n c.list;
  id_to_domain = insert n.id n.domain c.id_to_domain;
})

unfoldable pub new_nat_class : List Nat → NatClass
new_nat_class profiles =
    load_profiles profiles (record { list = []; sorted_list = profiles; id_to_domain = [] })

-- The list without the profile's domain of before, if it has another one now.
unfoldable pub leave_domain : NatClass → Nat → GoMap String Nat
leave_domain c n = elim (lookup n.id c.id_to_domain) [
  | none ↦ c.list
  | some old_domain ↦ if not (old_domain == n.domain) then remove old_domain c.list else c.list
]

unfoldable pub update : NatClass → Nat → NatClass
update c n = sort_list (record c {
  list = insert n.domain n (leave_domain c n);
  id_to_domain = insert n.id n.domain c.id_to_domain;
})

unfoldable pub delete_one : NatClass → ℕ → NatClass
delete_one c id = elim (lookup id c.id_to_domain) [
  | none ↦ c
  | some domain ↦ record c { list = remove domain c.list; id_to_domain = remove id c.id_to_domain }
]

unfoldable pub delete_each : NatClass → List ℕ → NatClass
delete_each c [] = c
delete_each c (id ∷ ids) = delete_each (delete_one c id) ids

unfoldable pub delete : NatClass → List ℕ → NatClass
delete c ids = sort_list (delete_each c ids)

unfoldable pub get_nat_config_by_domain : NatClass → String → Option Nat
get_nat_config_by_domain c domain = lookup domain c.list

-- A missing key reads as the empty string.
unfoldable pub get_domain : NatClass → ℕ → String
get_domain c id = elim (lookup id c.id_to_domain) [ none ↦ "" | some d ↦ d ]
