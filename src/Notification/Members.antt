-- ===== src/Notification/Members.antt =====
-- Who is in which group before and after each loop of service/singleton/notification.go.
use nezha_diff.Base.{
  ℕ, ◌≡◌, refl, Bool, true, false, ◌&&◌, not, [], ◌∷◌, arith, nat_eq, nat_beq, nat_beq_iff,
  if◌then◌else◌, List,
}
use nezha_diff.GoMap.{lookup, remove, contains}
use nezha_diff.Notification.{
  NotificationClass, link, join, add_members, drop_old, drop_old_members, remove_inner, unlink,
}
use nezha_diff.Notification.Index.{
  has_pair, has_pair-put, has_pair-remove, has_pair-remove_inner, has_pair-drop_if_empty,
}

-- `nid` is a key of `c.groupToIDList[gid]`.
abbrev pub is_member : NotificationClass → ℕ → ℕ → Bool
is_member c gid nid = has_pair gid nid c.group_to_id_list

-- `gid` is a key of `c.idToGroupList[nid]`.
abbrev pub is_linked : NotificationClass → ℕ → ℕ → Bool
is_linked c nid gid = has_pair nid gid c.id_to_group_list

-- Every member of a group knows the group, so that `Delete` finds it.
pub record IsIndexed (c : NotificationClass) : Type 0 where
  pub known : (gid nid : ℕ) → is_member c gid nid ≡ true → is_linked c nid gid ≡ true

pub is_member-add_members :
    (gid : ℕ) (nids : List ℕ) (c : NotificationClass) (g n : ℕ)
    → is_member (add_members gid nids c) g n
      ≡ (if nat_beq gid g && contains nids n then true else is_member c g n)
unfolding add_members contains
is_member-add_members gid [] c g n = ground arith
is_member-add_members gid (nid ∷ nids) c g n = ground (
  arith,
  is_member-add_members gid nids
      (record c {
        group_to_id_list = join gid nid c.list c.group_to_id_list;
        id_to_group_list = link nid gid c.id_to_group_list;
      })
      g n,
  has_pair-put gid nid g n (lookup nid c.list) c.group_to_id_list,
)

pub is_linked-add_members :
    (gid : ℕ) (nids : List ℕ) (c : NotificationClass) (g n : ℕ)
    → is_linked (add_members gid nids c) n g
      ≡ (if nat_beq gid g && contains nids n then true else is_linked c n g)
unfolding add_members contains
is_linked-add_members gid [] c g n = ground arith
is_linked-add_members gid (nid ∷ nids) c g n = ground (
  arith,
  is_linked-add_members gid nids
      (record c {
        group_to_id_list = join gid nid c.list c.group_to_id_list;
        id_to_group_list = link nid gid c.id_to_group_list;
      })
      g n,
  has_pair-put nid gid n g tt c.id_to_group_list,
)

pub is_linked-drop_old_members :
    (gid : ℕ) (old : List ℕ) (c : NotificationClass) (g n : ℕ)
    → is_linked (drop_old_members gid old c) n g ≡ is_linked c n g
unfolding drop_old_members drop_old
is_linked-drop_old_members gid [] c g n = refl
is_linked-drop_old_members gid (o ∷ old) c g n = ground (
  arith,
  is_linked-drop_old_members gid old (drop_old gid o c) g n,
  has_pair-drop_if_empty o n g c.id_to_group_list,
)

is_member-drop_old :
    (gid o : ℕ) (c : NotificationClass) (g n : ℕ)
    → is_member (drop_old gid o c) g n
      ≡ (if not (is_member c gid o) && nat_beq o g && nat_beq gid n then false else is_member c g n)
unfolding drop_old
is_member-drop_old gid o c g n = ground (arith, has_pair-remove_inner o gid g n c.group_to_id_list)

-- The clean-up takes nothing into any group, and out of the edited group it takes nothing.
pub drop_old_members-is_member :
    (gid : ℕ) (old : List ℕ) (c : NotificationClass) (g n : ℕ)
    → is_member (drop_old_members gid old c) g n ≡ true
    → is_member c g n ≡ true
unfolding drop_old_members
drop_old_members-is_member gid [] c g n h = h
drop_old_members-is_member gid (o ∷ old) c g n h = ground (
  arith,
  drop_old_members-is_member gid old (drop_old gid o c) g n,
  is_member-drop_old gid o c g n,
)

pub is_member-drop_old_members_self :
    (gid : ℕ) (old : List ℕ) (c : NotificationClass) (n : ℕ)
    → is_member (drop_old_members gid old c) gid n ≡ is_member c gid n
unfolding drop_old_members
is_member-drop_old_members_self gid [] c n = refl
is_member-drop_old_members_self gid (o ∷ old) c n = ground (
  arith,
  is_member-drop_old_members_self gid old (drop_old gid o c) n,
  is_member-drop_old gid o c gid n,
  nat_beq_iff o gid,
  nat_beq_iff gid n,
)

pub is_member-unlink :
    (id : ℕ) (gids : List ℕ) (c : NotificationClass) (g n : ℕ)
    → is_member (unlink id gids c) g n
      ≡ (if contains gids g && nat_beq id n then false else is_member c g n)
unfolding unlink contains
is_member-unlink id [] c g n = refl
is_member-unlink id (gid ∷ gids) c g n = ground (
  arith,
  is_member-unlink id gids
      (record c {
        group_to_id_list = remove_inner gid id c.group_to_id_list;
        id_to_group_list = remove id c.id_to_group_list;
      })
      g n,
  has_pair-remove_inner gid id g n c.group_to_id_list,
)

pub is_linked-unlink :
    (id : ℕ) (gids : List ℕ) (c : NotificationClass) (g n : ℕ)
    → nat_beq id n ≡ false
    → is_linked (unlink id gids c) n g ≡ is_linked c n g
unfolding unlink
is_linked-unlink id [] c g n h = refl
is_linked-unlink id (gid ∷ gids) c g n h = ground (
  arith,
  is_linked-unlink id gids
      (record c {
        group_to_id_list = remove_inner gid id c.group_to_id_list;
        id_to_group_list = remove id c.id_to_group_list;
      })
      g n,
  has_pair-remove id n g c.id_to_group_list,
)

pub list-unlink :
    (id : ℕ) (gids : List ℕ) (c : NotificationClass) → (unlink id gids c).list ≡ c.list
unfolding unlink
list-unlink id [] c = refl
list-unlink id (gid ∷ gids) c = list-unlink id gids _
