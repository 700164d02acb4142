-- ===== src/Notification/Index.antt =====
-- The two-level maps of service/singleton/notification.go, read by a pair of keys.
use nezha_diff.Base.{
  ℕ, ◌≡◌, Bool, true, false, ◌&&◌, [], arith, nat_eq, nat_beq, nat_beq_iff, if◌then◌else◌, List,
}
use nezha_diff.GoMap.{
  GoMap, lookup, insert, remove, remove_all, contains, has, lookup-insert, lookup-remove,
  lookup-remove_all,
}
use nezha_diff.Notification.{GroupSet, or_empty, remove_inner, drop_if_empty}

module _ {ℓ} {V : Type ℓ} where
  -- `_, ok := m[k][j]`
  abbrev pub has_pair : ℕ → ℕ → GoMap ℕ (GoMap ℕ V) → Bool
  has_pair k j m = has j (or_empty (lookup k m))

  pub has_pair-put :
      (k j k' j' : ℕ) (v : V) (m : GoMap ℕ (GoMap ℕ V))
      → has_pair k' j' (insert k (insert j v (or_empty (lookup k m))) m)
        ≡ (if nat_beq k k' && nat_beq j j' then true else has_pair k' j' m)
  has_pair-put k j k' j' v m = ground (
    arith,
    nat_beq_iff k k',
    lookup-insert k k' (insert j v (or_empty (lookup k m))) m,
    lookup-insert j j' v (or_empty (lookup k m)),
  )

  pub has_pair-insert_nil :
      (k k' j' : ℕ) (m : GoMap ℕ (GoMap ℕ V))
      → has_pair k' j' (insert k [] m) ≡ (if nat_beq k k' then false else has_pair k' j' m)
  unfolding lookup
  has_pair-insert_nil k k' j' m = ground (arith, lookup-insert k k' [] m)

  pub has_pair-remove :
      (k k' j' : ℕ) (m : GoMap ℕ (GoMap ℕ V))
      → has_pair k' j' (remove k m) ≡ (if nat_beq k k' then false else has_pair k' j' m)
  unfolding lookup
  has_pair-remove k k' j' m = ground (arith, lookup-remove k k' m)

  pub has_pair-remove_all :
      (ks : List ℕ) (k' j' : ℕ) (m : GoMap ℕ (GoMap ℕ V))
      → has_pair k' j' (remove_all ks m) ≡ (if contains ks k' then false else has_pair k' j' m)
  unfolding lookup
  has_pair-remove_all ks k' j' m = ground (arith, lookup-remove_all ks k' m)

  pub has_pair-remove_inner :
      (k j k' j' : ℕ) (m : GoMap ℕ (GoMap ℕ V))
      → has_pair k' j' (remove_inner k j m)
        ≡ (if nat_beq k k' && nat_beq j j' then false else has_pair k' j' m)
  unfolding remove_inner lookup
  has_pair-remove_inner k j k' j' m = ground (
    arith,
    nat_beq_iff k k',
    lookup-insert k k' (remove j (or_empty (lookup k m))) m,
    lookup-remove j j' (or_empty (lookup k m)),
  )

pub has_pair-drop_if_empty :
    (k k' j' : ℕ) (m : GoMap ℕ GroupSet) → has_pair k' j' (drop_if_empty k m) ≡ has_pair k' j' m
unfolding drop_if_empty lookup
has_pair-drop_if_empty k k' j' m = ground (arith, nat_beq_iff k k', lookup-remove k k' m)
