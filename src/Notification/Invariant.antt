-- ===== src/Notification/Invariant.antt =====
-- The index between groups and notifications of service/singleton/notification.go, over any
-- sequence of calls after the tables have been loaded.
use nezha_diff.Base.{ℕ, ◌≡◌, true, false, Option, none, some, [], ◌∷◌, arith, nat_eq, List}
use nezha_diff.Outcome.{ok, ok-of->>=}
use nezha_diff.GoMap.{GoMap, lookup, contains}
use nezha_diff.Notification.{
  Notification, NotificationGroup, NotificationClass, Call, updates, updates_group, deletes,
  deletes_group, delete, load_member, load_members, load_groups, group_rows, new_notification_class,
  step, run,
}
use nezha_diff.Notification.Index.{has_pair-put, has_pair-insert_nil}
use nezha_diff.Notification.Members.{is_member, IsIndexed}
use nezha_diff.Outcome.{ok-injective}
use mathlib.Core.Path.{subst}
use nezha_diff.Notification.Groups.{update-IsIndexed, update_group-IsIndexed}
use nezha_diff.Notification.Removal.{delete-IsIndexed, delete_group-IsIndexed, delete_lem}

load_member-IsIndexed :
    (gid : ℕ) (c : NotificationClass) (o : Option Notification)
    → IsIndexed c
    → IsIndexed (load_member gid c o)
load_member-IsIndexed gid c none v = v
load_member-IsIndexed gid c (some n) v = record {
  known = λ g m q. ground (
    arith,
    has_pair-put gid n.id g m (some n) c.group_to_id_list,
    has_pair-put n.id gid m g tt c.id_to_group_list,
    v.known g m,
  );
}

load_members-IsIndexed :
    (gid : ℕ) (nids : List ℕ) (c : NotificationClass)
    → IsIndexed c
    → IsIndexed (load_members gid nids c)
unfolding load_members
load_members-IsIndexed gid [] c v = v
load_members-IsIndexed gid (nid ∷ nids) c v =
    load_members-IsIndexed gid nids _ (load_member-IsIndexed gid c (lookup nid c.list) v)

load_groups-IsIndexed :
    (rows : GoMap ℕ (List ℕ)) (c : NotificationClass) → IsIndexed c → IsIndexed (load_groups rows c)
unfolding load_groups
load_groups-IsIndexed [] c v = v
load_groups-IsIndexed ((gid, nids) ∷ rows) c v = load_groups-IsIndexed rows _ (
    load_members-IsIndexed gid nids _ (record {
      known = λ g m q. ground (arith, has_pair-insert_nil gid g m c.group_to_id_list, v.known g m);
    }))

pub new_notification_class-IsIndexed :
    (ngn : List (ℕ × ℕ)) (ns : List Notification) (gs : List NotificationGroup)
    → IsIndexed (new_notification_class ngn ns gs)
unfolding new_notification_class lookup
new_notification_class-IsIndexed ngn ns gs =
    load_groups-IsIndexed (group_rows ngn []) _ (record { known = λ g m q. cc q })

step-IsIndexed : (c d : NotificationClass) (x : Call) → step c x ≡ ok d → IsIndexed c → IsIndexed d
unfolding step
step-IsIndexed c d (updates n) h v = update-IsIndexed c d n h v
step-IsIndexed c d (updates_group ng ngn) h v =
    subst IsIndexed (ok-injective h) (update_group-IsIndexed c ng ngn v)
step-IsIndexed c d (deletes ids) h v = subst IsIndexed (ok-injective h) (delete-IsIndexed c ids v)
step-IsIndexed c d (deletes_group gids) h v =
    subst IsIndexed (ok-injective h) (delete_group-IsIndexed c gids v)

pub run-IsIndexed :
    (c d : NotificationClass) (xs : List Call) → run c xs ≡ ok d → IsIndexed c → IsIndexed d
unfolding run
run-IsIndexed c d [] h v = subst IsIndexed (ok-injective h) v
run-IsIndexed c d (x ∷ xs) h v =
    let (e, q, p) = ok-of->>= (step c x) (λ e. run e xs) h in
    run-IsIndexed e d xs q (step-IsIndexed c e x p v)

-- After any calls since the tables were loaded, `Delete` takes the listed notifications out of the
-- list and out of every group.
pub run-delete :
    (ngn : List (ℕ × ℕ)) (ns : List Notification) (gs : List NotificationGroup) (xs : List Call)
    (c : NotificationClass) (ids : List ℕ) (gid nid : ℕ)
    → run (new_notification_class ngn ns gs) xs ≡ ok c
    → contains ids nid ≡ true
    → (lookup nid (delete c ids).list ≡ none) × (is_member (delete c ids) gid nid ≡ false)
run-delete ngn ns gs xs c ids gid nid h k = ground (
  arith,
  delete_lem c ids gid nid (run-IsIndexed _ c xs h (new_notification_class-IsIndexed ngn ns gs)),
)
