-- ===== src/NatClass/Pairs.antt =====
-- The domains and the numbers of the profiles of service/singleton/nat.go.
use text.Mathlib.TextEquality.{eq_iff}
use nezha_diff.Base.{
  ℕ, ◌≡◌, refl, not, Option, none, some, String, List, [], ◌∷◌, arith, nat_eq, string_eq, nat_beq,
  nat_beq_iff, ◌==◌, ◌&&◌, if◌then◌else◌, Option-cases, inl, inr, ◌∙◌, sym, subst,
}
use nezha_diff.GoMap.{GoMap, lookup, insert, remove, contains, lookup-insert, lookup-remove}
use nezha_diff.NatClass.{
  Nat, NatClass, sort_list, leave_domain, update, delete_one, delete_each, delete,
  get_nat_config_by_domain,
}

-- The number of the profile that serves a domain.
abbrev pub owner_at : String → GoMap String Nat → Option ℕ
owner_at d list = elim (lookup d list) [ none ↦ none | some n ↦ some n.id ]

-- Numbers and domains determine one another.
pub record IsPaired (c : NatClass) : Type 0 where
  pub by_id :
      (id : ℕ) (d : String) → lookup id c.id_to_domain ≡ some d → owner_at d c.list ≡ some id
  pub by_domain :
      (d : String) (id : ℕ) → owner_at d c.list ≡ some id → lookup id c.id_to_domain ≡ some d

owner_at-leave_domain :
    (c : NatClass) (n : Nat) (d : String)
    → IsPaired c
    → owner_at d (leave_domain c n) ≡ elim (lookup n.id c.id_to_domain) [
      | none ↦ owner_at d c.list
      | some old ↦ if not (old == n.domain) && (old == d) then none else owner_at d c.list
    ]
unfolding leave_domain
owner_at-leave_domain c n d v = elim (Option-cases (lookup n.id c.id_to_domain)) [
  | inl e ↦ ground (arith, e)
  | inr (old, e) ↦ ground (arith, e, lookup-remove old d c.list)
]

-- What the list serves after Update.
owner_at-update :
    (c : NatClass) (n : Nat) (d : String)
    → owner_at d (insert n.domain n (leave_domain c n))
      ≡ (if n.domain == d then some n.id else owner_at d (leave_domain c n))
owner_at-update c n d = ground (arith, lookup-insert n.domain d n (leave_domain c n))

-- Update keeps numbers and domains determining one another, and the profile then serves its domain;
-- they do before, and the domain is free or the profile's own.
pub update-IsPaired :
    (c : NatClass) (n : Nat)
    → IsPaired c
    → ((id : ℕ) → owner_at n.domain c.list ≡ some id → id ≡ n.id)
    → IsPaired (update c n) × (get_nat_config_by_domain (update c n) n.domain ≡ some n)
unfolding update sort_list get_nat_config_by_domain
update-IsPaired c n v free = (
  record {
    by_id = λ id d h. owner_at-update c n d ∙ elim (Option-cases (lookup n.id c.id_to_domain)) [
      | inl e ↦ ground (
        arith,
        h,
        e,
        owner_at-leave_domain c n d v,
        lookup-insert n.id id n.domain c.id_to_domain,
        nat_beq_iff n.id id,
        eq_iff n.domain d,
        v.by_id id d,
        free id,
      )
      | inr (old, e) ↦ ground (
        arith,
        h,
        e,
        owner_at-leave_domain c n d v,
        lookup-insert n.id id n.domain c.id_to_domain,
        nat_beq_iff n.id id,
        eq_iff n.domain d,
        eq_iff old d,
        eq_iff old n.domain,
        v.by_id id d,
        v.by_id n.id old,
        free id,
      )
    ];
    by_domain = λ d id h. elim (Option-cases (lookup n.id c.id_to_domain)) [
      | inl e ↦ ground (
        arith,
        h,
        e,
        owner_at-update c n d,
        owner_at-leave_domain c n d v,
        lookup-insert n.id id n.domain c.id_to_domain,
        nat_beq_iff n.id id,
        eq_iff n.domain d,
        v.by_domain d id,
      )
      | inr (old, e) ↦ ground (
        arith,
        h,
        e,
        owner_at-update c n d,
        owner_at-leave_domain c n d v,
        lookup-insert n.id id n.domain c.id_to_domain,
        nat_beq_iff n.id id,
        eq_iff n.domain d,
        eq_iff old d,
        eq_iff old n.domain,
        v.by_domain d id,
      )
    ];
  },
  ground (arith, lookup-insert n.domain n.domain n (leave_domain c n), eq_iff n.domain n.domain),
)

abbrev removed : NatClass → ℕ → String → NatClass
removed c id domain = record c {
  list = remove domain c.list;
  id_to_domain = remove id c.id_to_domain;
}

removed-IsPaired :
    (c : NatClass) (id : ℕ) (domain : String)
    → lookup id c.id_to_domain ≡ some domain
    → IsPaired c
    → IsPaired (removed c id domain)
removed-IsPaired c id domain e v = record {
  by_id = λ j d h. ground (
    arith,
    h,
    e,
    lookup-remove id j c.id_to_domain,
    lookup-remove domain d c.list,
    nat_beq_iff id j,
    eq_iff domain d,
    v.by_id j d,
    v.by_id id domain,
  );
  by_domain = λ d j h. ground (
    arith,
    h,
    e,
    lookup-remove id j c.id_to_domain,
    lookup-remove domain d c.list,
    nat_beq_iff id j,
    eq_iff domain d,
    v.by_domain d j,
  );
}

delete_one_lem :
    (c : NatClass) (id : ℕ)
    → IsPaired c
    → IsPaired (delete_one c id)
      × ((j : ℕ)
          → lookup j (delete_one c id).id_to_domain
            ≡ (if nat_beq id j then none else lookup j c.id_to_domain))
unfolding delete_one
delete_one_lem c id v = elim (Option-cases (lookup id c.id_to_domain)) [
  | inl e ↦
      let same : delete_one c id ≡ c = ground (arith, e) in
      (subst IsPaired (sym same) v, λ j. ground (arith, e, nat_beq_iff id j))
  | inr (domain, e) ↦
      let same : delete_one c id ≡ removed c id domain = ground (arith, e) in
      (
        subst IsPaired (sym same) (removed-IsPaired c id domain e v),
        λ j. ground (arith, e, lookup-remove id j c.id_to_domain),
      )
]

-- Delete takes out the profiles that it lists and no other, and keeps numbers and domains determining
-- one another; they do before.
pub delete-IsPaired :
    (c : NatClass) (ids : List ℕ)
    → IsPaired c
    → IsPaired (delete c ids)
      × ((id : ℕ)
          → lookup id (delete c ids).id_to_domain
            ≡ (if contains ids id then none else lookup id c.id_to_domain))
unfolding delete sort_list delete_each contains
delete-IsPaired c [] v = (record { by_id = v.by_id; by_domain = v.by_domain }, λ id. refl)
delete-IsPaired c (i ∷ ids) v =
    let (w, l) = delete_one_lem c i v in
    let (u, k) = delete-IsPaired (delete_one c i) ids w in (u, λ id. k id ∙ ground (arith, l id))
