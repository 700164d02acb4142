-- ===== src/Notification/Tests.antt =====
-- Notification 7 in group 1: the theorems about service/singleton/notification.go at this state.
use nezha_diff.Base.{◌≡◌, refl, true, false, none, [], ◌∷◌, arith, nat_eq}
use nezha_diff.Outcome.{ok, panic}
use nezha_diff.GoMap.{lookup, insert, contains}
use nezha_diff.Notification.{
  Notification, NotificationGroup, NotificationClass, updates_group, delete, delete_group, update,
  update_group, new_notification_class, load_groups, load_members, group_rows, index_notifications,
  index_groups, run, step,
}
use nezha_diff.Notification.Members.{is_member}
use nezha_diff.Notification.Invariant.{run-delete}
use nezha_diff.Notification.Faults.{update-delete_group, update-update_group}

abbrev mail : Notification
mail = record {
  id = 7;
  user_id = 1;
  name = "mail";
  url = "https://example.org";
  request_method = 1;
  request_type = 1;
  request_header = "";
  request_body = "";
  verify_tls = none;
}

abbrev ops : NotificationGroup
ops = record { id = 1; user_id = 1; name = "ops" }

abbrev loaded : NotificationClass
loaded = new_notification_class ((1, 7) ∷ []) (mail ∷ []) (ops ∷ [])

run-delete_example :
    (lookup 7 (delete (update_group loaded ops []) (7 ∷ [])).list ≡ none)
    × (is_member (delete (update_group loaded ops []) (7 ∷ [])) 1 7 ≡ false)
unfolding run step contains
run-delete_example =
    run-delete ((1, 7) ∷ []) (mail ∷ []) (ops ∷ []) (updates_group ops [] ∷ [])
      (update_group loaded ops []) (7 ∷ []) 1 7 refl refl

update-delete_group_example : update (delete_group loaded (1 ∷ [])) mail ≡ panic
unfolding new_notification_class load_groups load_members group_rows index_notifications
    index_groups lookup insert contains
update-delete_group_example = update-delete_group loaded mail mail (1 ∷ []) 1 refl refl refl

update-update_group_example :
    (d : NotificationClass) × (is_member (update_group loaded ops []) 1 7 ≡ false)
    × (update (update_group loaded ops []) mail ≡ ok d)
    × (is_member d 1 7 ≡ true)
unfolding new_notification_class load_groups load_members group_rows index_notifications
    index_groups lookup insert contains
update-update_group_example =
    update-update_group loaded ops [] mail mail refl refl (λ g h. ground arith) refl
