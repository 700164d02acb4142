-- ===== src/Ddns/Profiles.antt =====
-- What the handlers of cmd/dashboard/controller/ddns.go let into the list of profiles.
use nezha_diff.Base.{
  ℕ, ◌≤◌, ◌≡◌, Bool, ◌||◌, Option, none, some, String, List, [], ◌∷◌, arith, nat_eq, nat_beq_iff,
  ltb, Option-cases, Bool-cases, inl, inr,
}
use nezha_diff.GoMap.{lookup, remove, lookup-insert, lookup-remove}
use nezha_diff.Common.{User}
use nezha_diff.Crons.Handlers.{get_uid}
use nezha_diff.Ddns.{
  DdnsProfile, DdnsClass, DdnsForm, ddns_common, sort_list, update, delete_each, delete, fill_ddns,
  to_ascii_all, zero_profile, create_ddns, update_ddns, batch_delete_ddns,
}

-- Every profile stands under its number, and is tried between once and ten times.
abbrev pub AreBounded : DdnsClass → Type 0
AreBounded c =
    (k : ℕ) (p : DdnsProfile)
    → lookup k c.list ≡ some p
    → (p.id ≡ k) × (1 ≤ p.max_retries) × (p.max_retries ≤ 10)

update-AreBounded :
    (c : DdnsClass) (p : DdnsProfile)
    → 1 ≤ p.max_retries
    → p.max_retries ≤ 10
    → AreBounded c
    → AreBounded (update c p)
unfolding update sort_list
update-AreBounded c p low high b k q l =
    ground (arith, b k q, lookup-insert p.id k p c.list, nat_beq_iff p.id k)

delete_each-AreBounded :
    (c : DdnsClass) (ids : List ℕ) → AreBounded c → AreBounded (delete_each c ids)
unfolding delete_each
delete_each-AreBounded c [] b = b
delete_each-AreBounded c (id ∷ ids) b =
    delete_each-AreBounded (record c { list = remove id c.list }) ids
      (λ k p l. b k p (ground (arith, l, lookup-remove id k c.list)))

created-AreBounded :
    (auth : User) (to_ascii : String → Option String) (df : DdnsForm) (made : Option ℕ)
    (c : DdnsClass)
    → AreBounded c
    → AreBounded ((create_ddns auth to_ascii df made c).1)
unfolding create_ddns fill_ddns
created-AreBounded auth to_ascii df made c b =
    elim (Bool-cases (ltb df.max_retries 1 || ltb 10 df.max_retries)) [
      | inl bad ↦ rw bad b
      | inr good ↦ elim (Option-cases (to_ascii_all to_ascii df.domains)) [
        | inl e ↦ ground (arith, b, e, good)
        | inr (ds, e) ↦ elim (Option-cases made) [
          | inl m ↦ ground (arith, b, e, m, good)
          | inr (id, m) ↦
              let p : DdnsProfile =
                record (fill_ddns df (record zero_profile { user_id = get_uid auth })) {
                  id = id;
                  domains = ds;
                } in
              let bounded = update-AreBounded c p (ground (arith, good)) (ground (arith, good)) b in
              ground (arith, bounded, e, m, good)
        ]
      ]
    ]

updated-AreBounded :
    (auth : User) (to_ascii : String → Option String) (df : DdnsForm) (found : Option DdnsProfile)
    (saved : Bool) (c : DdnsClass)
    → AreBounded c
    → AreBounded ((update_ddns auth to_ascii df found saved c).1)
unfolding update_ddns fill_ddns
updated-AreBounded auth to_ascii df none saved c b = ground (arith, b)
updated-AreBounded auth to_ascii df (some row) saved c b =
    elim (Bool-cases (ltb df.max_retries 1 || ltb 10 df.max_retries)) [
      | inl bad ↦ rw bad b
      | inr good ↦ elim (Option-cases (to_ascii_all to_ascii df.domains)) [
        | inl e ↦ ground (arith, b, e, good)
        | inr (ds, e) ↦
            let p : DdnsProfile = record (fill_ddns df row) { domains = ds } in
            let bounded = update-AreBounded c p (ground (arith, good)) (ground (arith, good)) b in
            ground (arith, bounded, e, good)
      ]
    ]

-- Whatever is requested of the three handlers, and whatever the database answers, each profile in
-- the list keeps standing under its number with one to ten attempts.
pub ddns_handlers-AreBounded :
    (auth : User) (to_ascii : String → Option String) (df : DdnsForm) (made : Option ℕ)
    (found : Option DdnsProfile) (ids : List ℕ) (stored : Bool) (c : DdnsClass)
    → AreBounded c
    → AreBounded ((create_ddns auth to_ascii df made c).1)
      × AreBounded ((update_ddns auth to_ascii df found stored c).1)
      × AreBounded ((batch_delete_ddns auth ids stored c).1)
unfolding batch_delete_ddns delete sort_list
ddns_handlers-AreBounded auth to_ascii df made found ids stored c b =
    let swept = delete_each-AreBounded c ids b in
    (
      created-AreBounded auth to_ascii df made c b,
      updated-AreBounded auth to_ascii df found stored c b,
      ground (arith, b, swept),
    )
