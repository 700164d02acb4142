-- ===== src/Mute/Heard.antt =====
-- That no label of service/singleton/notification.go is muted for ever.
use text.Mathlib.TextEquality.{eq_iff}
use nezha_diff.Base.{
  ℕ, ◌+◌, ◌≤◌, ◌≡◌, ◌⊎◌, subst, sym, ◌∙◌, Bool, true, false, Option, none, some, String, List, [],
  ◌∷◌, arith, string_eq, ◌==◌, if◌then◌else◌, Bool-cases, inl, inr,
}
use nezha_diff.Mute.{one_day, Cache, pass_label}
use nezha_diff.Mute.History.{
  Request, send, un_mute, IsTimed, Unknown, Known, pass-Unknown, pass-Known, Known-same,
  get-pass_other, Unknown-pass_other,
}

-- The last time at which a label's request passed lies within a day.
abbrev pub IsRecent : Option ℕ → ℕ → Type 0
IsRecent none now = 1 ≤ 0
IsRecent (some last) now = now ≤ last + one_day

-- The last time, after one more request.
abbrev pub last_after : String → Option ℕ → ℕ → String → Bool → Option ℕ
last_after key last now other passed =
    if other == key then (if passed then some now else last) else last

module _ {C : Type 0} ⦃cache : Cache C⦄ where
  -- Each request of the label passes, or one has passed within the last day.
  abbrev pub IsHeard : String → Option ℕ → List Request → C → Type 0
  IsHeard key last [] c = Unit
  IsHeard key last (send now other ∷ rs) c =
      (((other == key) ≡ false) ⊎ ((pass_label now other c).1 ≡ true) ⊎ IsRecent last now)
      × IsHeard key (last_after key last now other ((pass_label now other c).1)) rs
          ((pass_label now other c).0)
  IsHeard key last (un_mute now other ∷ rs) c =
      IsHeard key (if other == key then none else last) rs (cache.delete other c)

  abbrev Stands : String → Option ℕ → ℕ → C → Type 0
  Stands key none now c = Unknown key c
  Stands key (some last) now c = (last ≤ now) × Known key last c

  Stands-IsHeard :
      (key : String) (rs : List Request) (last : Option ℕ) (now : ℕ) (c : C)
      → IsTimed now rs
      → Stands key last now c
      → IsHeard key last rs c
  Stands-IsHeard key [] last now c timed s = tt
  Stands-IsHeard key (send t other ∷ rs) none now c timed u = elim (Bool-cases (other == key)) [
    | inr ne ↦ (
      inl ne,
      (let rest : IsHeard key none rs ((pass_label t other c).0) =
            Stands-IsHeard key rs none t ((pass_label t other c).0) timed.1
              (Unknown-pass_other key other t c ne u) in
          rw ne rest),
    )
    | inl eq ↦
        let same : key ≡ other = sym ((eq_iff other key).0 eq) in
        let (passed, known) = pass-Unknown other t c (subst (λ x. Unknown x c) same u) in
        let rest : IsHeard key (some t) rs ((pass_label t other c).0) =
          Stands-IsHeard key rs (some t) t ((pass_label t other c).0) timed.1
            (omega arith, subst (λ x. Known x t ((pass_label t other c).0)) (sym same) known) in
        (inr (inl passed), rw (eq, passed) rest)
  ]
  Stands-IsHeard key (send t other ∷ rs) (some last) now c timed s =
      elim (Bool-cases (other == key)) [
        | inr ne ↦ (
          inl ne,
          (let rest : IsHeard key (some last) rs ((pass_label t other c).0) =
                Stands-IsHeard key rs (some last) t ((pass_label t other c).0) timed.1 (
                  omega (arith, timed.0, s.0),
                  Known-same key last ((pass_label t other c).0) c
                      (λ later. get-pass_other t later other key c ne) s.1,
                ) in
              rw ne rest),
        )
        | inl eq ↦
            let same : key ≡ other = sym ((eq_iff other key).0 eq) in
            elim (pass-Known other last t c (omega (arith, timed.0, s.0))
              (subst (λ x. Known x last c) same s.1)) [
                | inl (passed, gap, known) ↦
                    let rest : IsHeard key (some t) rs ((pass_label t other c).0) =
                      Stands-IsHeard key rs (some t) t ((pass_label t other c).0) timed.1 (
                        omega arith,
                        subst (λ x. Known x t ((pass_label t other c).0)) (sym same) known,
                      ) in
                    (inr (inl passed), rw (eq, passed) rest)
                | inr (muted, day, known) ↦
                    let rest : IsHeard key (some last) rs ((pass_label t other c).0) =
                      Stands-IsHeard key rs (some last) t ((pass_label t other c).0) timed.1 (
                        omega (arith, timed.0, s.0),
                        subst (λ x. Known x last ((pass_label t other c).0)) (sym same) known,
                      ) in
                    (inr (inr day), rw (eq, muted) rest)
              ]
      ]
  Stands-IsHeard key (un_mute t other ∷ rs) none now c timed u = elim (Bool-cases (other == key)) [
    | inl eq ↦
        let same : other ≡ key = (eq_iff other key).0 eq in
        let rest : IsHeard key none rs (cache.delete other c) =
          Stands-IsHeard key rs none t (cache.delete other c) timed.1 (
            subst (λ x. Unknown x (cache.delete other c)) same
              (λ later. cache.get-delete later other c)) in
        rw eq rest
    | inr ne ↦
        let rest : IsHeard key none rs (cache.delete other c) =
          Stands-IsHeard key rs none t (cache.delete other c) timed.1
            (λ later. cache.get-delete_other later other key c ne ∙ u later) in
        rw ne rest
  ]
  Stands-IsHeard key (un_mute t other ∷ rs) (some last) now c timed s =
      elim (Bool-cases (other == key)) [
        | inl eq ↦
            let same : other ≡ key = (eq_iff other key).0 eq in
            let rest : IsHeard key none rs (cache.delete other c) =
              Stands-IsHeard key rs none t (cache.delete other c) timed.1 (
                subst (λ x. Unknown x (cache.delete other c)) same
                  (λ later. cache.get-delete later other c)) in
            rw eq rest
        | inr ne ↦
            let rest : IsHeard key (some last) rs (cache.delete other c) =
              Stands-IsHeard key rs (some last) t (cache.delete other c) timed.1 (
                omega (arith, timed.0, s.0),
                Known-same key last (cache.delete other c) c
                    (λ later. cache.get-delete_other later other key c ne) s.1,
              ) in
            rw ne rest
      ]

  -- No label is muted for ever: from an empty cache on, in any order of requests and removals, a
  -- request passes unless one of its label has passed within the last day.
  pub requests-IsHeard :
      (key : String) (rs : List Request) (now : ℕ) (c : C)
      → IsTimed now rs
      → ((later : ℕ) → cache.get later key c ≡ none)
      → IsHeard key none rs c
  requests-IsHeard key rs now c timed u = Stands-IsHeard key rs none now c timed u
