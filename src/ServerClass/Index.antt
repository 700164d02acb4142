-- ===== src/ServerClass/Index.antt =====
-- The index from UUIDs to numbers of service/singleton/server.go, and which deletions panic.
use text.Mathlib.TextEquality.{eq_iff}
use nezha_diff.Base.{
  ℕ, ◌≡◌, ◌≢◌, refl, true, false, inl, inr, Option, none, some, String, List, [], ◌∷◌, arith,
  nat_eq, string_eq, nat_beq, nat_beq_iff, not, keep, if◌then◌else◌, Option-cases,
}
use nezha_diff.Outcome.{ok, panic}
use nezha_diff.GoMap.{GoMap, lookup, remove, contains, has, lookup-insert, lookup-remove}
use nezha_diff.Common.{User, check_permission}
use nezha_diff.ServerClass.{
  server_common, Server, ServerClass, sort_list, update, delete_one, delete_each, delete,
}

module _ {F : Type 0} where
  -- The UUID of the server with a number.
  abbrev pub uuid_at : ℕ → GoMap ℕ (Server F) → Option String
  uuid_at id list = elim (lookup id list) [ none ↦ none | some s ↦ some s.uuid ]

  -- Numbers and UUIDs determine one another.
  pub record IsIndexed (c : ServerClass F) : Type 0 where
    pub by_id : (id : ℕ) (u : String) → uuid_at id c.list ≡ some u → lookup u c.uuid_to_id ≡ some id
    pub by_uuid :
        (u : String) (id : ℕ) → lookup u c.uuid_to_id ≡ some id → uuid_at id c.list ≡ some u

  -- A new agent: number and UUID are both unknown, and the UUID is not empty.
  pub update_new-IsIndexed :
      (c : ServerClass F) (s : Server F)
      → IsIndexed c
      → s.uuid ≢ ""
      → lookup s.id c.list ≡ none
      → lookup s.uuid c.uuid_to_id ≡ none
      → IsIndexed (update c s s.uuid)
  unfolding update sort_list
  update_new-IsIndexed c s v ne free_id free_uuid = record {
    by_id = λ id u h. ground (
      arith,
      lookup-insert s.id id s c.list,
      lookup-insert s.uuid u s.id c.uuid_to_id,
      nat_beq_iff s.id id,
      eq_iff s.uuid u,
      eq_iff s.uuid "",
      v.by_id id u,
    );
    by_uuid = λ u id h. ground (
      arith,
      lookup-insert s.id id s c.list,
      lookup-insert s.uuid u s.id c.uuid_to_id,
      nat_beq_iff s.id id,
      eq_iff s.uuid u,
      eq_iff s.uuid "",
      v.by_uuid u id,
    );
  }

  -- An edit: the number is known and the UUID stays.
  pub update_edit-IsIndexed :
      (c : ServerClass F) (s : Server F)
      → IsIndexed c
      → uuid_at s.id c.list ≡ some s.uuid
      → IsIndexed (update c s "")
  unfolding update sort_list
  update_edit-IsIndexed c s v e = record {
    by_id = λ id u h.
        ground
          (arith, lookup-insert s.id id s c.list, nat_beq_iff s.id id, eq_iff "" "", v.by_id id u);
    by_uuid = λ u id h.
        ground (
          arith,
          lookup-insert s.id id s c.list,
          nat_beq_iff s.id id,
          eq_iff "" "",
          v.by_uuid u id,
        );
  }

  abbrev removed : ServerClass F → ℕ → Server F → ServerClass F
  removed c id s = record c { list = remove id c.list; uuid_to_id = remove s.uuid c.uuid_to_id }

  removed-IsIndexed :
      (c : ServerClass F) (id : ℕ) (s : Server F)
      → lookup id c.list ≡ some s
      → IsIndexed c
      → IsIndexed (removed c id s)
  removed-IsIndexed c id s e v = record {
    by_id = λ j u h. ground (
      arith,
      lookup-remove id j c.list,
      lookup-remove s.uuid u c.uuid_to_id,
      nat_beq_iff id j,
      eq_iff s.uuid u,
      v.by_id j u,
      v.by_id id u,
    );
    by_uuid = λ u j h. ground (
      arith,
      lookup-remove id j c.list,
      lookup-remove s.uuid u c.uuid_to_id,
      nat_beq_iff id j,
      eq_iff s.uuid u,
      v.by_uuid u j,
    );
  }

  -- The numbers are known, and none stands twice.
  abbrev pub Deletable : ServerClass F → List ℕ → Type 0
  Deletable c [] = Unit
  Deletable c (id ∷ ids) = (has id c.list ≡ true) × (contains ids id ≡ false) × Deletable c ids

  Deletable-removed :
      (c : ServerClass F) (id : ℕ) (s : Server F) (ids : List ℕ)
      → contains ids id ≡ false
      → Deletable c ids
      → Deletable (removed c id s) ids
  unfolding contains
  Deletable-removed c id s [] h k = tt
  Deletable-removed c id s (j ∷ ids) h k = (
    ground (arith, lookup-remove id j c.list, nat_beq_iff id j, nat_beq_iff j id, k.0),
    k.1,
    Deletable-removed c id s ids (ground (arith, h)) k.2,
  )

  delete_each_total :
      (c : ServerClass F) (ids : List ℕ)
      → IsIndexed c
      → Deletable c ids
      → (d : ServerClass F) × (delete_each c ids ≡ ok d)
        × IsIndexed d
        × ((id : ℕ) → lookup id d.list ≡ (if contains ids id then none else lookup id c.list))
  unfolding delete_each delete_one contains
  delete_each_total c [] v h = (c, refl, v, λ id. refl)
  delete_each_total c (i ∷ ids) v h = elim (Option-cases (lookup i c.list)) [
    | inl e ↦ absurd (ground (arith, h.0, e))
    | inr (s, e) ↦
        let (d, p, w, l) =
          delete_each_total (removed c i s) ids (removed-IsIndexed c i s e v)
            (Deletable-removed c i s ids h.1 h.2) in
        (d, ground (arith, e, p), w, λ id. ground (arith, l id, lookup-remove i id c.list))
  ]

  -- Known numbers, each named once, are deleted, the others stay, and numbers and UUIDs go on
  -- determining one another.
  pub delete_total :
      (c : ServerClass F) (ids : List ℕ)
      → IsIndexed c
      → Deletable c ids
      → (d : ServerClass F) × (delete c ids ≡ ok d)
        × IsIndexed d
        × ((id : ℕ) → lookup id d.list ≡ (if contains ids id then none else lookup id c.list))
  unfolding delete sort_list
  delete_total c ids v h =
      let (d, p, w, l) = delete_each_total c ids v h in
      (sort_list d, rw p, record { by_id = w.by_id; by_uuid = w.by_uuid }, l)

  delete_each_panic :
      (c : ServerClass F) (ids : List ℕ) (id : ℕ)
      → contains ids id ≡ true
      → lookup id c.list ≡ none
      → delete_each c ids ≡ panic
  unfolding delete_each delete_one contains
  delete_each_panic c [] id h k = cc
  delete_each_panic c (i ∷ ids) id h k = elim (Option-cases (lookup i c.list)) [
    | inl e ↦ ground (arith, e)
    | inr (s, e) ↦ ground (
      arith,
      e,
      delete_each_panic (removed c i s) ids id,
      lookup-remove i id c.list,
      nat_beq_iff i id,
    )
  ]

  check_permission-keep :
      (auth : Option User) (list : GoMap ℕ (Server F)) (ids : List ℕ) (id : ℕ)
      → lookup id list ≡ none
      → check_permission auth ids list
        ≡ check_permission auth (keep (λ k. not (nat_beq k id)) ids) list
  unfolding check_permission
  check_permission-keep auth list [] id e = refl
  check_permission-keep auth list (k ∷ ids) id e =
      ground (arith, e, check_permission-keep auth list ids id e, nat_beq_iff k id)

  -- Deleting an unknown number panics, with whatever else the call lists; the check of permissions
  -- that comes before it in `batchDeleteServer` says of the list what it says without the number.
  pub delete_unknown :
      (auth : Option User) (c : ServerClass F) (ids : List ℕ) (id : ℕ)
      → lookup id c.list ≡ none
      → contains ids id ≡ true
      → (delete c ids ≡ panic)
        × (check_permission auth ids c.list
            ≡ check_permission auth (keep (λ k. not (nat_beq k id)) ids) c.list)
  unfolding delete
  delete_unknown auth c ids id k h =
      (rw (delete_each_panic c ids id h k), check_permission-keep auth c.list ids id k)
