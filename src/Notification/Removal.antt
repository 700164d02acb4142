-- ===== src/Notification/Removal.antt =====
-- `Delete` and `DeleteGroup` of service/singleton/notification.go.
use nezha_diff.Base.{
  ℕ, ◌≡◌, refl, false, none, [], ◌∷◌, arith, nat_eq, nat_beq, nat_beq_iff, if◌then◌else◌, List,
}
use nezha_diff.GoMap.{lookup, remove, contains, keys, contains-keys, lookup-remove}
use nezha_diff.Notification.{
  NotificationClass, or_empty, sort_list, delete_one, delete_each, delete, delete_group,
}
use nezha_diff.Notification.Index.{has_pair-remove_all}
use nezha_diff.Notification.Members.{
  is_member, IsIndexed, is_member-unlink, is_linked-unlink, list-unlink,
}

is_member-delete_one :
    (c : NotificationClass) (id g n : ℕ)
    → IsIndexed c
    → is_member (delete_one c id) g n ≡ (if nat_beq id n then false else is_member c g n)
unfolding delete_one
is_member-delete_one c id g n v =
    let links = or_empty (lookup id c.id_to_group_list) in
    ground (
      arith,
      is_member-unlink id (keys links) (record c { list = remove id c.list }) g n,
      contains-keys g links,
      nat_beq_iff id n,
      v.known g n,
    )

delete_one-IsIndexed : (c : NotificationClass) (id : ℕ) → IsIndexed c → IsIndexed (delete_one c id)
unfolding delete_one
delete_one-IsIndexed c id v = record {
  known = λ g n q.
      let links = or_empty (lookup id c.id_to_group_list) in
      ground (
        arith,
        is_member-delete_one c id g n v,
        is_linked-unlink id (keys links) (record c { list = remove id c.list }) g n,
        v.known g n,
      );
}

lookup-delete_one :
    (c : NotificationClass) (id n : ℕ)
    → lookup n (delete_one c id).list ≡ (if nat_beq id n then none else lookup n c.list)
unfolding delete_one
lookup-delete_one c id n = ground (
  arith,
  list-unlink id (keys (or_empty (lookup id c.id_to_group_list)))
      (record c { list = remove id c.list }),
  lookup-remove id n c.list,
)

delete_each-IsIndexed :
    (c : NotificationClass) (ids : List ℕ) → IsIndexed c → IsIndexed (delete_each c ids)
unfolding delete_each
delete_each-IsIndexed c [] v = v
delete_each-IsIndexed c (id ∷ ids) v =
    delete_each-IsIndexed (delete_one c id) ids (delete_one-IsIndexed c id v)

delete_each_lem :
    (c : NotificationClass) (ids : List ℕ) (g n : ℕ)
    → IsIndexed c
    → (lookup n (delete_each c ids).list ≡ (if contains ids n then none else lookup n c.list))
      × (is_member (delete_each c ids) g n ≡ (if contains ids n then false else is_member c g n))
unfolding delete_each contains
delete_each_lem c [] g n v = (refl, refl)
delete_each_lem c (id ∷ ids) g n v = ground (
  arith,
  delete_each_lem (delete_one c id) ids g n (delete_one-IsIndexed c id v),
  lookup-delete_one c id n,
  is_member-delete_one c id g n v,
)

-- From an indexed state `Delete` takes the listed notifications out of the list and out of every
-- group, and leaves the others in place.
pub delete_lem :
    (c : NotificationClass) (ids : List ℕ) (g n : ℕ)
    → IsIndexed c
    → (lookup n (delete c ids).list ≡ (if contains ids n then none else lookup n c.list))
      × (is_member (delete c ids) g n ≡ (if contains ids n then false else is_member c g n))
unfolding delete sort_list
delete_lem c ids g n v = delete_each_lem c ids g n v

pub delete-IsIndexed :
    (c : NotificationClass) (ids : List ℕ) → IsIndexed c → IsIndexed (delete c ids)
unfolding delete sort_list
delete-IsIndexed c ids v = record { known = (delete_each-IsIndexed c ids v).known }

pub delete_group-IsIndexed :
    (c : NotificationClass) (gids : List ℕ) → IsIndexed c → IsIndexed (delete_group c gids)
unfolding delete_group
delete_group-IsIndexed c gids v = record {
  known = λ g n q. ground (arith, has_pair-remove_all gids g n c.group_to_id_list, v.known g n);
}
