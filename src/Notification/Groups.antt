-- ===== src/Notification/Groups.antt =====
-- What each operation of service/singleton/notification.go does to the groups.
use nezha_diff.Base.{
  ℕ, ◌≡◌, true, false, ◌&&◌, some, [], ◌∷◌, arith, nat_eq, nat_beq, nat_beq_iff, if◌then◌else◌,
  List,
}
use nezha_diff.Outcome.{ok, ok-of->>=}
use nezha_diff.GoMap.{GoMap, lookup, insert, contains, keys, contains-keys}
use nezha_diff.Notification.{
  Notification, NotificationGroup, NotificationClass, Members, or_empty, sort_list, assign_groups,
  update_targets, update, add_members, update_group,
}
use nezha_diff.Notification.Index.{has_pair, has_pair-put, has_pair-insert_nil}
use nezha_diff.Notification.Members.{
  is_member, is_linked, IsIndexed, is_member-add_members, is_linked-add_members,
  is_linked-drop_old_members, drop_old_members-is_member, is_member-drop_old_members_self,
}

assign_groups-is_member :
    (n : Notification) (gids : List ℕ) (groups after : GoMap ℕ Members) (g m : ℕ)
    → assign_groups n gids groups ≡ ok after
    → has_pair g m after ≡ (if contains gids g && nat_beq n.id m then true else has_pair g m groups)
unfolding assign_groups contains
assign_groups-is_member n [] groups after g m h = ground arith
assign_groups-is_member n (gid ∷ gids) groups after g m h = ground (
  arith,
  assign_groups-is_member n gids
      (insert gid (insert n.id (some n) (or_empty (lookup gid groups))) groups) after g m,
  has_pair-put gid n.id g m (some n) groups,
)

-- `Update` adds the notification to every group that it is linked to, and to no other.
pub is_member-update :
    (c d : NotificationClass) (n : Notification) (g m : ℕ)
    → update c n ≡ ok d
    → is_member d g m
      ≡ (if contains (update_targets c n.id) g && nat_beq n.id m then true else is_member c g m)
unfolding update sort_list
is_member-update c d n g m h =
    let (groups, k, e) =
      ok-of->>= (assign_groups n (update_targets c n.id) c.group_to_id_list) _ h in
    ground
      (arith, assign_groups-is_member n (update_targets c n.id) c.group_to_id_list groups g m e)

pub is_linked-update :
    (c d : NotificationClass) (n : Notification)
    → update c n ≡ ok d
    → d.id_to_group_list ≡ c.id_to_group_list
unfolding update sort_list
is_linked-update c d n h = ground arith

pub update_targets-is_linked :
    (c : NotificationClass) (nid g : ℕ)
    → contains (update_targets c nid) g ≡ true
    → is_linked c nid g ≡ true
unfolding update_targets contains
update_targets-is_linked c nid g h =
    ground (arith, contains-keys g (or_empty (lookup nid c.id_to_group_list)))

pub update-IsIndexed :
    (c d : NotificationClass) (n : Notification) → update c n ≡ ok d → IsIndexed c → IsIndexed d
update-IsIndexed c d n h v = record {
  known = λ g m q. ground (
    arith,
    is_member-update c d n g m h,
    is_linked-update c d n h,
    update_targets-is_linked c n.id g,
    nat_beq_iff n.id m,
    v.known g m,
  );
}

-- The members of an edited group are exactly the numbers that were passed.
pub update_group_exact :
    (c : NotificationClass) (ng : NotificationGroup) (ngn : List ℕ) (nid : ℕ)
    → is_member (update_group c ng ngn) ng.id nid ≡ contains ngn nid
unfolding update_group
update_group_exact c ng ngn nid =
    let start = record c {
      group_list = insert ng.id ng.name c.group_list;
      group_to_id_list = insert ng.id [] c.group_to_id_list;
    } in
    ground (
      arith,
      is_member-add_members ng.id ngn start ng.id nid,
      is_member-drop_old_members_self ng.id (keys (or_empty (lookup ng.id c.group_to_id_list)))
          (add_members ng.id ngn start) nid,
      has_pair-insert_nil ng.id ng.id nid c.group_to_id_list,
      nat_beq_iff ng.id ng.id,
    )

-- It unlinks nobody.
pub is_linked-update_group :
    (c : NotificationClass) (ng : NotificationGroup) (ngn : List ℕ) (g nid : ℕ)
    → is_linked (update_group c ng ngn) nid g
      ≡ (if nat_beq ng.id g && contains ngn nid then true else is_linked c nid g)
unfolding update_group
is_linked-update_group c ng ngn g nid =
    let start = record c {
      group_list = insert ng.id ng.name c.group_list;
      group_to_id_list = insert ng.id [] c.group_to_id_list;
    } in
    ground (
      arith,
      is_linked-add_members ng.id ngn start g nid,
      is_linked-drop_old_members ng.id (keys (or_empty (lookup ng.id c.group_to_id_list)))
          (add_members ng.id ngn start) g nid,
    )

-- Into the other groups it puts nobody.
update_group-is_member :
    (c : NotificationClass) (ng : NotificationGroup) (ngn : List ℕ) (g nid : ℕ)
    → nat_beq ng.id g ≡ false
    → is_member (update_group c ng ngn) g nid ≡ true
    → is_member c g nid ≡ true
unfolding update_group
update_group-is_member c ng ngn g nid h q =
    let start = record c {
      group_list = insert ng.id ng.name c.group_list;
      group_to_id_list = insert ng.id [] c.group_to_id_list;
    } in
    ground (
      arith,
      is_member-add_members ng.id ngn start g nid,
      drop_old_members-is_member ng.id (keys (or_empty (lookup ng.id c.group_to_id_list)))
          (add_members ng.id ngn start) g nid,
      has_pair-insert_nil ng.id g nid c.group_to_id_list,
    )

pub update_group-IsIndexed :
    (c : NotificationClass) (ng : NotificationGroup) (ngn : List ℕ)
    → IsIndexed c
    → IsIndexed (update_group c ng ngn)
update_group-IsIndexed c ng ngn v = record {
  known = λ g m q. ground (
    arith,
    update_group_exact c ng ngn m,
    update_group-is_member c ng ngn g m,
    is_linked-update_group c ng ngn g m,
    nat_beq_iff ng.id g,
    v.known g m,
  );
}
