-- ===== src/Notification/Requests/Tests.antt =====
-- Requests for a group of two notifications.
use nezha_diff.Base.{ℕ, ◌≡◌, refl, none, some, List, [], ◌∷◌, nat_eq, inl}
use nezha_diff.GoMap.{contains, lookup}
use nezha_diff.Common.{check_permission, has_permission}
use nezha_diff.Crons.Tests.{owner}
use nezha_diff.Notification.{Notification, NotificationGroup, NotificationClass, update_group}
use nezha_diff.Notification.Requests.{
  NotificationGroupForm, compact, count_in, create_notification_group,
}
use nezha_diff.Notification.Requests.Members.{HasMembers, requests-HasMembers}

abbrev nothing : NotificationClass
nothing = record {
  list = [];
  sorted_list = [];
  group_to_id_list = [];
  id_to_group_list = [];
  group_list = [];
}

abbrev named : List ℕ → NotificationGroupForm
named members = record { name = "g"; notifications = members }

repeats_in_a_row : compact (1 ∷ 1 ∷ 2 ∷ []) ≡ 1 ∷ 2 ∷ []
unfolding compact
repeats_in_a_row = refl

-- A number that comes again later stays in the list, and the group is refused.
repeats_apart :
    create_notification_group owner (named (1 ∷ 2 ∷ 1 ∷ [])) (some (1 ∷ 2 ∷ [])) (some 7) nothing
    ≡ (none, nothing)
unfolding create_notification_group compact count_in contains check_permission lookup
repeats_apart = refl

abbrev mail : Notification
mail = record {
  id = 8;
  user_id = 1;
  name = "mail";
  url = "";
  request_method = 1;
  request_type = 1;
  request_header = "";
  request_body = "";
  verify_tls = none;
}

abbrev with_mail : NotificationClass
with_mail = record nothing { list = (8, mail) ∷ []; sorted_list = mail ∷ [] }

abbrev ops : NotificationGroup
ops = record { id = 5; user_id = 1; name = "g" }

group_is_made :
    create_notification_group owner (named (8 ∷ 8 ∷ [])) (some (8 ∷ [])) (some 5) with_mail
    ≡ (some 5, update_group with_mail ops (8 ∷ []))
unfolding create_notification_group compact count_in contains check_permission has_permission lookup
    nezha_diff.Crons.Handlers.get_uid
group_is_made = refl

requests-HasMembers_example :
    HasMembers owner (named (8 ∷ 8 ∷ [])) 5 with_mail (update_group with_mail ops (8 ∷ [])) 8
unfolding lookup
requests-HasMembers_example =
    requests-HasMembers owner (named (8 ∷ 8 ∷ [])) ops (8 ∷ []) 5 with_mail
      (update_group with_mail ops (8 ∷ [])) 8 (inl group_is_made)
