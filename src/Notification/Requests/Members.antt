-- ===== src/Notification/Requests/Members.antt =====
-- The members of a group that a request has made or changed.
use nezha_diff.Base.{
  ℕ, ◌≡◌, refl, sym, subst, ◌∙◌, ◌⊎◌, Bool, true, not, ◌||◌, Option, none, some, List, [], ◌∷◌,
  arith, nat_eq, nat_beq_iff, Option-cases, Bool-cases, inl, inr,
}
use nezha_diff.GoMap.{contains, lookup}
use nezha_diff.Common.{User, has_permission, check_permission, check_permission_sound}
use nezha_diff.Crons.Handlers.{get_uid}
use nezha_diff.Notification.{Notification, NotificationGroup, NotificationClass, update_group}
use nezha_diff.Notification.Members.{is_member}
use nezha_diff.Notification.Groups.{update_group_exact}
use nezha_diff.Notification.Requests.{
  NotificationGroupForm, notification_common, notification_group_common, compact_from, compact,
  create_notification_group, update_notification_group,
}

contains-compact_from :
    (last : ℕ) (ns : List ℕ) (n : ℕ)
    → contains (last ∷ compact_from last ns) n ≡ contains (last ∷ ns) n
unfolding contains
contains-compact_from last [] n = refl
contains-compact_from last (m ∷ ns) n =
    ground (arith, contains-compact_from m ns n, nat_beq_iff last m)

contains-compact : (ns : List ℕ) (n : ℕ) → contains (compact ns) n ≡ contains ns n
unfolding compact
contains-compact [] n = refl
contains-compact (m ∷ ns) n = contains-compact_from m ns n

-- What a granted request has tested and done.
create_granted :
    (auth : User) (ngf : NotificationGroupForm) (known : List ℕ) (gid : ℕ) (c d : NotificationClass)
    → create_notification_group auth ngf (some known) (some gid) c ≡ (some gid, d)
    → (check_permission (some auth) (compact ngf.notifications) c.list ≡ true)
      × (d
          ≡ update_group c
              (record { id = gid; user_id = get_uid auth; name = ngf.name })
              (compact ngf.notifications))
unfolding create_notification_group
create_granted auth ngf known gid c d h = ground (arith, h)

update_granted :
    (auth : User) (ngf : NotificationGroupForm) (row : NotificationGroup) (known : List ℕ)
    (c d : NotificationClass)
    → update_notification_group auth ngf (some row) (some known) true c ≡ (some tt, d)
    → (check_permission (some auth) ngf.notifications c.list ≡ true)
      × (d ≡ update_group c (record row { name = ngf.name }) (compact ngf.notifications))
unfolding update_notification_group
update_granted auth ngf row known c d h = ground (arith, h)

-- A notification that the user may change, or a number that the registry does not know.
abbrev pub may_name : User → Option Notification → Bool
may_name auth none = true
may_name auth (some n) = has_permission (some auth) n

-- The members are those of the form, and each that the registry knows is one that the user may change.
abbrev pub HasMembers :
    User → NotificationGroupForm → ℕ → NotificationClass → NotificationClass → ℕ → Type 0
HasMembers auth ngf gid c d nid =
    (is_member d gid nid ≡ contains ngf.notifications nid)
    × ((not (is_member d gid nid) || may_name auth (lookup nid c.list)) ≡ true)

permitted-name :
    (auth : User) (ns : List ℕ) (c : NotificationClass) (nid : ℕ)
    → check_permission (some auth) ns c.list ≡ true
    → contains ns nid ≡ true
    → may_name auth (lookup nid c.list) ≡ true
permitted-name auth ns c nid p t = elim (Option-cases (lookup nid c.list)) [
  | inl e ↦ ground (arith, e)
  | inr (n, e) ↦ ground (arith, e, check_permission_sound (some auth) ns c.list nid n p t e)
]

updated-HasMembers :
    (auth : User) (ngf : NotificationGroupForm) (ng : NotificationGroup) (c : NotificationClass)
    (nid : ℕ)
    → (contains ngf.notifications nid ≡ true → may_name auth (lookup nid c.list) ≡ true)
    → HasMembers auth ngf ng.id c (update_group c ng (compact ngf.notifications)) nid
updated-HasMembers auth ngf ng c nid p =
    let same =
      update_group_exact c ng (compact ngf.notifications) nid
      ∙ contains-compact ngf.notifications nid in
    (
      same,
      elim (Bool-cases (contains ngf.notifications nid)) [
        | inl t ↦ ground (arith, same, t, p t)
        | inr f ↦ ground (arith, same, f)
      ],
    )

-- A group that a request has made or changed has exactly the notifications of the form, whatever
-- repeats in the form, and a member that the registry knows is one that the user may change. The
-- request was granted and the database did not fail.
pub requests-HasMembers :
    (auth : User) (ngf : NotificationGroupForm) (row : NotificationGroup) (known : List ℕ) (gid : ℕ)
    (c d : NotificationClass) (nid : ℕ)
    → (create_notification_group auth ngf (some known) (some gid) c ≡ (some gid, d))
      ⊎ ((row.id ≡ gid)
          × (update_notification_group auth ngf (some row) (some known) true c ≡ (some tt, d)))
    → HasMembers auth ngf gid c d nid
requests-HasMembers auth ngf row known gid c d nid granted = elim granted [
  | inl h ↦
      let (p, e) = create_granted auth ngf known gid c d h in
      subst (λ x. HasMembers auth ngf gid c x nid) (sym e)
        (updated-HasMembers auth ngf (record { id = gid; user_id = get_uid auth; name = ngf.name })
          c nid
          (λ t.
            permitted-name auth (compact ngf.notifications) c nid p
              (contains-compact ngf.notifications nid ∙ t)))
  | inr (same, h) ↦
      let (p, e) = update_granted auth ngf row known c d h in
      subst (λ x. HasMembers auth ngf gid c x nid) (sym e)
        (subst
          (λ g.
            HasMembers auth ngf g c
              (update_group c (record row { name = ngf.name }) (compact ngf.notifications)) nid)
          same
          (updated-HasMembers auth ngf (record row { name = ngf.name }) c nid
            (λ t. permitted-name auth ngf.notifications c nid p t)))
]
