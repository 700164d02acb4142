-- ===== src/NatClass/Tests.antt =====
-- Two profiles: the theorems about service/singleton/nat.go at this state.
use text.Mathlib.TextEquality.{eq_iff}
use nezha_diff.Base.{
  ℕ, ◌≡◌, true, some, none, [], ◌∷◌, arith, nat_eq, string_eq, nat_beq_iff, if◌then◌else◌,
}
use nezha_diff.GoMap.{lookup, contains}
use nezha_diff.NatClass.{Nat, NatClass, update, delete, get_nat_config_by_domain}
use nezha_diff.NatClass.Pairs.{IsPaired, update-IsPaired, delete-IsPaired}

abbrev home : Nat
home = record {
  id = 1;
  user_id = 1;
  enabled = true;
  name = "home";
  server_id = 3;
  host = "127.0.0.1:80";
  domain = "a.test";
}

abbrev moved : Nat
moved = record home { domain = "b.test" }

abbrev one : NatClass
one = record {
  list = ("a.test", home) ∷ [];
  sorted_list = home ∷ [];
  id_to_domain = (1, "a.test") ∷ [];
}

one-IsPaired : IsPaired one
unfolding lookup
one-IsPaired = record {
  by_id = λ id d h. ground (arith, h, nat_beq_iff 1 id, eq_iff "a.test" d);
  by_domain = λ d id h. ground (arith, h, nat_beq_iff 1 id, eq_iff "a.test" d);
}

update-IsPaired_example :
    IsPaired (update one moved)
    × (get_nat_config_by_domain (update one moved) "b.test" ≡ some moved)
unfolding lookup
update-IsPaired_example = update-IsPaired one moved one-IsPaired (λ id h. cc h)

delete-IsPaired_example :
    IsPaired (delete one (1 ∷ 7 ∷ []))
    × ((id : ℕ)
        → lookup id (delete one (1 ∷ 7 ∷ [])).id_to_domain
          ≡ (if contains (1 ∷ 7 ∷ []) id then none else lookup id one.id_to_domain))
delete-IsPaired_example = delete-IsPaired one (1 ∷ 7 ∷ []) one-IsPaired
