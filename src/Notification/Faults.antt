-- ===== src/Notification/Faults.antt =====
-- When `Update` of service/singleton/notification.go panics, and what the links that `UpdateGroup`
-- and `DeleteGroup` leave behind do to it.
use nezha_diff.Base.{
  ℕ, ◌≡◌, refl, true, false, none, some, [], ◌∷◌, arith, nat_eq, nat_beq_iff, List, Option-cases,
  inl, inr,
}
use nezha_diff.Outcome.{ok, panic}
use nezha_diff.GoMap.{
  GoMap, lookup, insert, remove, remove_all, contains, has, keys, contains-keys, lookup-insert,
  lookup-remove_all,
}
use nezha_diff.Notification.{
  Notification, NotificationGroup, NotificationClass, Members, or_empty, sort_list, assign_groups,
  update_targets, update, add_members, drop_old_members, update_group, delete_group,
}
use nezha_diff.Notification.Members.{is_member, is_linked}
use nezha_diff.Notification.Groups.{update_targets-is_linked}
use nezha_diff.Notification.{drop_old, remove_inner}
use nezha_diff.Notification.Groups.{
  update_targets-is_linked, update_group_exact, is_linked-update_group, is_member-update,
}

assign_groups_panic :
    (n : Notification) (gids : List ℕ) (groups : GoMap ℕ Members) (g : ℕ)
    → contains gids g ≡ true
    → has g groups ≡ false
    → assign_groups n gids groups ≡ panic
unfolding assign_groups contains
assign_groups_panic n [] groups g h k = cc
assign_groups_panic n (gid ∷ gids) groups g h k = ground (
  arith,
  assign_groups_panic n gids
      (insert gid (insert n.id (some n) (or_empty (lookup gid groups))) groups) g,
  lookup-insert gid g (insert n.id (some n) (or_empty (lookup gid groups))) groups,
  nat_beq_iff gid g,
)

-- A notification that stays linked to a deleted group can no longer be edited: `Update` writes into
-- a nil map.
pub update-delete_group :
    (c : NotificationClass) (n old : Notification) (gids : List ℕ) (gid : ℕ)
    → lookup n.id c.list ≡ some old
    → is_linked c n.id gid ≡ true
    → contains gids gid ≡ true
    → update (delete_group c gids) n ≡ panic
unfolding update delete_group update_targets
update-delete_group c n old gids gid h k q =
    let links = or_empty (lookup n.id c.id_to_group_list) in
    ground (
      arith,
      assign_groups_panic n (keys links) (remove_all gids c.group_to_id_list) gid,
      contains-keys gid links,
      lookup-remove_all gids gid c.group_to_id_list,
    )

has-insert {ℓ} :
    {V : Type ℓ} (k g : ℕ) (v : V) (m : GoMap ℕ V) → has g m ≡ true → has g (insert k v m) ≡ true
has-insert k g v m h = ground (arith, lookup-insert k g v m)

-- A group that exists for every link: then `Update` returns.
assign_groups_total :
    (n : Notification) (gids : List ℕ) (groups : GoMap ℕ Members)
    → ((g : ℕ) → contains gids g ≡ true → has g groups ≡ true)
    → (after : GoMap ℕ Members) × (assign_groups n gids groups ≡ ok after)
unfolding assign_groups contains
assign_groups_total n [] groups h = (groups, refl)
assign_groups_total n (gid ∷ gids) groups h = elim (Option-cases (lookup gid groups)) [
  | inl e ↦ absurd (none_here e)
  | inr (members, e) ↦
      rw (e, assign_groups)
        (assign_groups_total n gids (insert gid (insert n.id (some n) members) groups)
          (λ g k. has-insert gid g _ groups (h g (ground arith))))
]
  where
    none_here : lookup gid groups ≡ none → ⊥
    none_here e = ground (arith, h gid (ground (arith, nat_beq_iff gid gid)))

update_total :
    (c : NotificationClass) (n : Notification)
    → ((g : ℕ) → is_linked c n.id g ≡ true → has g c.group_to_id_list ≡ true)
    → (d : NotificationClass) × (update c n ≡ ok d)
unfolding update
update_total c n h =
    let (groups, e) =
      assign_groups_total n (update_targets c n.id) c.group_to_id_list
        (λ g k. h g (update_targets-is_linked c n.id g k)) in
    (sort_list (record c { list = insert n.id n c.list; group_to_id_list = groups }), rw e)

list-add_members :
    (gid : ℕ) (nids : List ℕ) (c : NotificationClass) → (add_members gid nids c).list ≡ c.list
unfolding add_members
list-add_members gid [] c = refl
list-add_members gid (nid ∷ nids) c = list-add_members gid nids _

has-add_members :
    (gid : ℕ) (nids : List ℕ) (c : NotificationClass) (g : ℕ)
    → has g c.group_to_id_list ≡ true
    → has g (add_members gid nids c).group_to_id_list ≡ true
unfolding add_members
has-add_members gid [] c g h = h
has-add_members gid (nid ∷ nids) c g h =
    has-add_members gid nids _ g (has-insert gid g _ c.group_to_id_list h)

list-drop_old_members :
    (gid : ℕ) (old : List ℕ) (c : NotificationClass) → (drop_old_members gid old c).list ≡ c.list
unfolding drop_old_members drop_old
list-drop_old_members gid [] c = refl
list-drop_old_members gid (o ∷ old) c =
    ground (arith, list-drop_old_members gid old (drop_old gid o c))

has-drop_old :
    (gid o : ℕ) (c : NotificationClass) (g : ℕ)
    → has g c.group_to_id_list ≡ true
    → has g (drop_old gid o c).group_to_id_list ≡ true
unfolding drop_old remove_inner
has-drop_old gid o c g h =
    ground (
      arith,
      has-insert o g (remove gid (or_empty (lookup o c.group_to_id_list))) c.group_to_id_list,
    )

has-drop_old_members :
    (gid : ℕ) (old : List ℕ) (c : NotificationClass) (g : ℕ)
    → has g c.group_to_id_list ≡ true
    → has g (drop_old_members gid old c).group_to_id_list ≡ true
unfolding drop_old_members
has-drop_old_members gid [] c g h = h
has-drop_old_members gid (o ∷ old) c g h =
    has-drop_old_members gid old (drop_old gid o c) g (has-drop_old gid o c g h)

update_group_keeps :
    (c : NotificationClass) (ng : NotificationGroup) (ngn : List ℕ) (g : ℕ)
    → ((update_group c ng ngn).list ≡ c.list)
      × (has g c.group_to_id_list ≡ true → has g (update_group c ng ngn).group_to_id_list ≡ true)
unfolding update_group
update_group_keeps c ng ngn g =
    let start = record c {
      group_list = insert ng.id ng.name c.group_list;
      group_to_id_list = insert ng.id [] c.group_to_id_list;
    } in
    let filled = add_members ng.id ngn start in
    let old = keys (or_empty (lookup ng.id c.group_to_id_list)) in
    ground (
      arith,
      list-add_members ng.id ngn start,
      list-drop_old_members ng.id old filled,
      has-insert ng.id g [] c.group_to_id_list,
      has-add_members ng.id ngn start g,
      has-drop_old_members ng.id old filled g,
    )

is_linked-update_targets :
    (c : NotificationClass) (nid g : ℕ) (old : Notification)
    → lookup nid c.list ≡ some old
    → is_linked c nid g ≡ true
    → contains (update_targets c nid) g ≡ true
unfolding update_targets
is_linked-update_targets c nid g old h k =
    ground (arith, contains-keys g (or_empty (lookup nid c.id_to_group_list)))

-- A notification that an edit takes out of a group stays linked to it, and the next `Update` of the
-- notification puts it back.
pub update-update_group :
    (c : NotificationClass) (ng : NotificationGroup) (ngn : List ℕ) (n old : Notification)
    → lookup n.id c.list ≡ some old
    → is_linked c n.id ng.id ≡ true
    → ((g : ℕ) → is_linked c n.id g ≡ true → has g c.group_to_id_list ≡ true)
    → contains ngn n.id ≡ false
    → (d : NotificationClass) × (is_member (update_group c ng ngn) ng.id n.id ≡ false)
      × (update (update_group c ng ngn) n ≡ ok d)
      × (is_member d ng.id n.id ≡ true)
update-update_group c ng ngn n old h k live q =
    let e = update_group c ng ngn in
    let (d, p) = update_total e n live_after in
    (
      d,
      ground (arith, update_group_exact c ng ngn n.id),
      p,
      ground (
        arith,
        is_member-update e d n ng.id n.id p,
        is_linked-update_targets e n.id ng.id old,
        update_group_keeps c ng ngn ng.id,
        is_linked-update_group c ng ngn ng.id n.id,
        nat_beq_iff n.id n.id,
      ),
    )
  where
    live_after :
        (g : ℕ)
        → is_linked (update_group c ng ngn) n.id g ≡ true
        → has g (update_group c ng ngn).group_to_id_list ≡ true
    live_after g l =
        (update_group_keeps c ng ngn g).1
          (live g (ground (arith, is_linked-update_group c ng ngn g n.id)))
