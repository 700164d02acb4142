-- ===== src/Notification/Requests.antt =====
-- The handlers of cmd/dashboard/controller/notification_group.go that change groups. Of the context
-- they take the user; what the queries find, the number that a new group gets and the success of a
-- transaction are arguments. A reply of `none` is an error.
mod Members
mod Tests
use nezha_diff.Base.{
  ℕ, Bool, true, false, not, Option, none, some, String, List, [], ◌∷◌, nat_eq, nat_beq, keep,
  length, if◌then◌else◌,
}
use nezha_diff.GoMap.{contains}
use nezha_diff.Common.{User, CommonInterface, has_permission, check_permission}
use nezha_diff.Crons.Handlers.{get_uid}
use nezha_diff.Notification.{
  Notification, NotificationGroup, NotificationClass, update_group, delete_group,
}

pub record NotificationGroupForm : Type 0 where
  pub name : String
  pub notifications : List ℕ

instance abbrev pub notification_common : CommonInterface Notification
notification_common = record { get_id = λ n. n.id; get_user_id = λ n. n.user_id }

instance abbrev pub notification_group_common : CommonInterface NotificationGroup
notification_group_common = record { get_id = λ g. g.id; get_user_id = λ g. g.user_id }

-- slices.Compact: the first of each run of equal entries.
abbrev pub compact_from : ℕ → List ℕ → List ℕ
compact_from last [] = []
compact_from last (n ∷ ns) =
    let rest = compact_from n ns in if nat_beq last n then rest else n ∷ rest

unfoldable pub compact : List ℕ → List ℕ
compact [] = []
compact (n ∷ ns) = n ∷ compact_from n ns

-- The count of the query `id in (?)` over the table, whose numbers are `known`.
unfoldable pub count_in : List ℕ → List ℕ → ℕ
count_in ids known = length (keep (contains ids) known)

unfoldable pub create_notification_group :
    User
    → NotificationGroupForm
    → Option (List ℕ)
    → Option ℕ
    → NotificationClass
    → Option ℕ × NotificationClass
create_notification_group auth ngf found created c =
    let members : List ℕ = compact ngf.notifications in
    if not (check_permission (some auth) members c.list) then (none, c) else elim found [
      | none ↦ (none, c)
      | some known ↦
          if not (nat_beq (count_in members known) (length members))
          then (none, c)
          else elim created [
            | none ↦ (none, c)
            | some id ↦ (
              some id,
              update_group c (record { id = id; user_id = get_uid auth; name = ngf.name }) members,
            )
          ]
    ]

-- The first test reads the list as it came, before `Compact`.
unfoldable pub update_notification_group :
    User
    → NotificationGroupForm
    → Option NotificationGroup
    → Option (List ℕ)
    → Bool
    → NotificationClass
    → Option (Unit {0}) × NotificationClass
update_notification_group auth ngf row found saved c =
    let members : List ℕ = compact ngf.notifications in
    if not (check_permission (some auth) ngf.notifications c.list) then (none, c) else elim row [
      | none ↦ (none, c)
      | some ng ↦ if not (has_permission (some auth) ng) then (none, c) else elim found [
        | none ↦ (none, c)
        | some known ↦
            if not (nat_beq (count_in members known) (length members))
            then (none, c)
            else if saved
            then (some tt, update_group c (record ng { name = ngf.name }) members)
            else (none, c)
      ]
    ]

-- for _, n := range ng { if !n.HasPermission(c) { ... } }
abbrev pub groups_permitted : User → List NotificationGroup → Bool
groups_permitted auth [] = true
groups_permitted auth (ng ∷ ngs) =
    if has_permission (some auth) ng then groups_permitted auth ngs else false

unfoldable pub batch_delete_notification_group :
    User
    → List ℕ
    → Option (List NotificationGroup)
    → Bool
    → NotificationClass
    → Option (Unit {0}) × NotificationClass
batch_delete_notification_group auth ids found deleted c = elim found [
  | none ↦ (none, c)
  | some rows ↦
      if not (groups_permitted auth rows)
      then (none, c)
      else if deleted
      then (some tt, delete_group c ids)
      else (none, c)
]
