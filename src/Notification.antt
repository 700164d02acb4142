-- ===== src/Notification.antt =====
-- service/singleton/notification.go: the notifications, the groups and the two indexes between
-- them. A method returns the new state; a write into a nil map is `panic`.
mod Index
mod Members
pub mod Groups
pub mod Removal
pub mod Invariant
pub mod Faults
pub mod Requests
mod Tests
use nezha_diff.Base.{ℕ, Bool, Option, none, some, String, List, [], ◌∷◌, ◌++◌, nat_eq}
use nezha_diff.Outcome.{Outcome, ok, panic, ◌>>=◌}
use nezha_diff.GoMap.{GoMap, lookup, insert, remove, remove_all, values, keys}
use nezha_diff.Sort.{sort_func, by_key}

-- model.Notification, with the embedded Common.
pub record Notification : Type 0 where
  pub id : ℕ
  pub user_id : ℕ
  pub name : String
  pub url : String
  pub request_method : ℕ
  pub request_type : ℕ
  pub request_header : String
  pub request_body : String
  pub verify_tls : Option Bool

-- model.NotificationGroup
pub record NotificationGroup : Type 0 where
  pub id : ℕ
  pub user_id : ℕ
  pub name : String

-- A group maps a notification's number to a pointer, which is nil if the number is unknown.
abbrev pub Members : Type 0
Members = GoMap ℕ (Option Notification)

abbrev pub GroupSet : Type 0
GroupSet = GoMap ℕ (Unit {0})

pub record NotificationClass : Type 0 where
  pub list : GoMap ℕ Notification
  pub sorted_list : List Notification
  pub group_to_id_list : GoMap ℕ Members
  pub id_to_group_list : GoMap ℕ GroupSet
  pub group_list : GoMap ℕ String

abbrev pub or_nil {ℓ} : {A : Type ℓ} → Option (List A) → List A
or_nil none = []
or_nil (some xs) = xs

abbrev pub or_empty {ℓ κ} : {K : Type ℓ} {V : Type κ} → Option (GoMap K V) → GoMap K V
or_empty none = []
or_empty (some m) = m

unfoldable pub sort_list : NotificationClass → NotificationClass
sort_list c = record c { sorted_list = sort_func (by_key (λ n. n.id)) (values c.list) }

-- for gid := range gids { c.groupToIDList[gid][n.ID] = n }
unfoldable pub assign_groups : Notification → List ℕ → GoMap ℕ Members → Outcome (GoMap ℕ Members)
assign_groups n [] groups = ok groups
assign_groups n (gid ∷ gids) groups = elim (lookup gid groups) [
  | none ↦ panic
  | some members ↦ assign_groups n gids (insert gid (insert n.id (some n) members) groups)
]

-- The groups that `Update` writes to.
unfoldable pub update_targets : NotificationClass → ℕ → List ℕ
update_targets c nid = elim (lookup nid c.list) [
  | none ↦ []
  | some old ↦ keys (or_empty (lookup nid c.id_to_group_list))
]

unfoldable pub update : NotificationClass → Notification → Outcome NotificationClass
update c n = do
  groups ← assign_groups n (update_targets c n.id) c.group_to_id_list
  ok (sort_list (record c { list = insert n.id n c.list; group_to_id_list = groups }))

-- c.idToGroupList[nid][gid] = struct{}{}, after a nil inner map has been made
abbrev pub link : ℕ → ℕ → GoMap ℕ GroupSet → GoMap ℕ GroupSet
link nid gid links = insert nid (insert gid tt (or_empty (lookup nid links))) links

-- c.groupToIDList[gid][nid] = c.list[nid]
abbrev pub join : ℕ → ℕ → GoMap ℕ Notification → GoMap ℕ Members → GoMap ℕ Members
join gid nid list groups =
    insert gid (insert nid (lookup nid list) (or_empty (lookup gid groups))) groups

-- Both loops of `UpdateGroup` over the new members.
unfoldable pub add_members : ℕ → List ℕ → NotificationClass → NotificationClass
add_members gid [] c = c
add_members gid (nid ∷ nids) c = add_members gid nids (record c {
  group_to_id_list = join gid nid c.list c.group_to_id_list;
  id_to_group_list = link nid gid c.id_to_group_list;
})

-- delete(m[k], j): nothing where `m[k]` is nil.
unfoldable pub remove_inner {ℓ} : {V : Type ℓ} → ℕ → ℕ → GoMap ℕ (GoMap ℕ V) → GoMap ℕ (GoMap ℕ V)
remove_inner k j m = elim (lookup k m) [ none ↦ m | some inner ↦ insert k (remove j inner) m ]

-- if len(m[k]) == 0 { delete(m, k) }
unfoldable pub drop_if_empty : ℕ → GoMap ℕ GroupSet → GoMap ℕ GroupSet
drop_if_empty k m = elim (or_empty (lookup k m)) [ [] ↦ remove k m | _ ∷ _ ↦ m ]

-- The body of the last loop of `UpdateGroup`: which index it deletes from is as in the source.
unfoldable pub drop_old : ℕ → ℕ → NotificationClass → NotificationClass
drop_old gid old_id c = elim (lookup old_id (or_empty (lookup gid c.group_to_id_list))) [
  | some _ ↦ c
  | none ↦ record c {
    group_to_id_list = remove_inner old_id gid c.group_to_id_list;
    id_to_group_list = drop_if_empty old_id c.id_to_group_list;
  }
]

unfoldable pub drop_old_members : ℕ → List ℕ → NotificationClass → NotificationClass
drop_old_members gid [] c = c
drop_old_members gid (old_id ∷ old_ids) c = drop_old_members gid old_ids (drop_old gid old_id c)

unfoldable pub update_group : NotificationClass → NotificationGroup → List ℕ → NotificationClass
update_group c ng ngn =
    let named = record c { group_list = insert ng.id ng.name c.group_list } in
    let filled =
      add_members ng.id ngn
        (record named { group_to_id_list = insert ng.id [] c.group_to_id_list }) in
    elim (lookup ng.id c.group_list) [
      | none ↦ filled
      | some _ ↦ drop_old_members ng.id (keys (or_empty (lookup ng.id c.group_to_id_list))) filled
    ]

-- for gid := range gids { delete(c.groupToIDList[gid], id); delete(c.idToGroupList, id) }
unfoldable pub unlink : ℕ → List ℕ → NotificationClass → NotificationClass
unlink id [] c = c
unlink id (gid ∷ gids) c = unlink id gids (record c {
  group_to_id_list = remove_inner gid id c.group_to_id_list;
  id_to_group_list = remove id c.id_to_group_list;
})

unfoldable pub delete_one : NotificationClass → ℕ → NotificationClass
delete_one c id =
    unlink id (keys (or_empty (lookup id c.id_to_group_list)))
      (record c { list = remove id c.list })

unfoldable pub delete_each : NotificationClass → List ℕ → NotificationClass
delete_each c [] = c
delete_each c (id ∷ ids) = delete_each (delete_one c id) ids

unfoldable pub delete : NotificationClass → List ℕ → NotificationClass
delete c ids = sort_list (delete_each c ids)

unfoldable pub delete_group : NotificationClass → List ℕ → NotificationClass
delete_group c gids = record c {
  group_list = remove_all gids c.group_list;
  group_to_id_list = remove_all gids c.group_to_id_list;
}

-- A missing key reads as the empty string.
unfoldable pub get_group_name : NotificationClass → ℕ → String
get_group_name c gid = elim (lookup gid c.group_list) [ none ↦ "" | some name ↦ name ]

-- groupNotifications: the rows of the join table, by group.
unfoldable pub group_rows : List (ℕ × ℕ) → GoMap ℕ (List ℕ) → GoMap ℕ (List ℕ)
group_rows [] m = m
group_rows ((gid, nid) ∷ rows) m =
    group_rows rows (insert gid (or_nil (lookup gid m) ++ nid ∷ []) m)

unfoldable pub index_notifications : List Notification → GoMap ℕ Notification → GoMap ℕ Notification
index_notifications [] m = m
index_notifications (n ∷ ns) m = index_notifications ns (insert n.id n m)

unfoldable pub index_groups : List NotificationGroup → GoMap ℕ String → GoMap ℕ String
index_groups [] m = m
index_groups (g ∷ gs) m = index_groups gs (insert g.id g.name m)

-- for _, nid := range nids: a number that is no notification's is passed over.
abbrev pub load_member : ℕ → NotificationClass → Option Notification → NotificationClass
load_member gid c none = c
load_member gid c (some n) = record c {
  group_to_id_list =
      insert gid (insert n.id (some n) (or_empty (lookup gid c.group_to_id_list)))
        c.group_to_id_list;
  id_to_group_list = link n.id gid c.id_to_group_list;
}

unfoldable pub load_members : ℕ → List ℕ → NotificationClass → NotificationClass
load_members gid [] c = c
load_members gid (nid ∷ nids) c = load_members gid nids (load_member gid c (lookup nid c.list))

unfoldable pub load_groups : GoMap ℕ (List ℕ) → NotificationClass → NotificationClass
load_groups [] c = c
load_groups ((gid, nids) ∷ rows) c =
    load_groups rows
      (load_members gid nids (record c { group_to_id_list = insert gid [] c.group_to_id_list }))

-- The three tables are what `DB.Find` read.
unfoldable pub new_notification_class :
    List (ℕ × ℕ) → List Notification → List NotificationGroup → NotificationClass
new_notification_class ngn sorted_list groups = load_groups (group_rows ngn []) (record {
  list = index_notifications sorted_list [];
  sorted_list = sorted_list;
  group_to_id_list = [];
  id_to_group_list = [];
  group_list = index_groups groups [];
})

-- The calls that the handlers make, in any order.
pub data Call : Type 0 where
  updates : Notification → Call
  updates_group : NotificationGroup → List ℕ → Call
  deletes deletes_group : List ℕ → Call

unfoldable pub step : NotificationClass → Call → Outcome NotificationClass
step c (updates n) = update c n
step c (updates_group ng ngn) = ok (update_group c ng ngn)
step c (deletes ids) = ok (delete c ids)
step c (deletes_group gids) = ok (delete_group c gids)

unfoldable pub run : NotificationClass → List Call → Outcome NotificationClass
run c [] = ok c
run c (x ∷ xs) = step c x >>= λ d. run d xs
