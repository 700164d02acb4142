-- ===== src/Mute/History.antt =====
-- When the repetitions of a notification pass, over a history of requests to send.
use text.Mathlib.TextEquality.{eq_iff}
use nezha_diff.Base.{
  ℕ, ◌+◌, ◌*◌, ◌≤◌, ◌<◌, ◌≡◌, ◌⊎◌, refl, ap, subst, sym, ◌∙◌, Bool, true, false, none, some, String,
  List, [], ◌∷◌, arith, string_eq, ◌==◌, ltb, if◌then◌else◌, Option-cases, Bool-cases, inl, inr,
}
use nezha_diff.Mute.{
  minute, one_day, first_notification_delay, NotificationHistory, Cache, longer, first_history,
  next_history, pass_label,
}

-- A call under a full label, or the removal of one.
pub data Request : Type 0 where
  send un_mute : ℕ → String → Request

abbrev pub time_of : Request → ℕ
time_of (send now key) = now
time_of (un_mute now key) = now

-- Times do not run backwards.
abbrev pub IsTimed : ℕ → List Request → Type 0
IsTimed now [] = Unit
IsTimed now (r ∷ rs) = (now ≤ time_of r) × IsTimed (time_of r) rs

-- Each time is more than `gap` behind the one before it.
abbrev pub SpacedFrom : ℕ → ℕ → List ℕ → Type 0
SpacedFrom gap last [] = Unit
SpacedFrom gap last (t ∷ ts) = (last + gap < t) × SpacedFrom gap t ts

abbrev pub IsSpaced : ℕ → List ℕ → Type 0
IsSpaced gap [] = Unit
IsSpaced gap (t ∷ ts) = SpacedFrom gap t ts

-- Whether a history removes a label.
unfoldable pub un_mutes : String → List Request → Bool
un_mutes key [] = false
un_mutes key (send now other ∷ rs) = un_mutes key rs
un_mutes key (un_mute now other ∷ rs) = if other == key then true else un_mutes key rs

longer_bounds :
    (d : ℕ)
    → first_notification_delay ≤ d
    → (first_notification_delay ≤ longer d) × (longer d ≤ one_day)
unfolding longer
longer_bounds d h = ground arith

module _ {C : Type 0} ⦃cache : Cache C⦄ where
  -- The times at which a label's requests pass.
  unfoldable pub passing : String → List Request → C → List ℕ
  passing key [] c = []
  passing key (send now other ∷ rs) c =
      let here = pass_label now other c in
      let rest = passing key rs (here.0) in
      if other == key then (if here.1 then now ∷ rest else rest) else rest
  passing key (un_mute now other ∷ rs) c = passing key rs (cache.delete other c)

  -- What the cache says of a label from a time on: nothing, or the last request that passed.
  abbrev pub Unknown : String → C → Type 0
  Unknown key c = (later : ℕ) → cache.get later key c ≡ none

  abbrev pub Known : String → ℕ → C → Type 0
  Known key last c =
      (d : ℕ) × (first_notification_delay ≤ d)
      × (d ≤ one_day)
      × ((later : ℕ)
          → last ≤ later
          → cache.get later key c ≡ (
              if ltb (last + (d + 10 * minute)) later
              then none
              else some (record { duration = d; until = last + d })))

  Known-set :
      (key : String) (now d : ℕ) (c : C)
      → first_notification_delay ≤ d
      → d ≤ one_day
      → Known key now
          (cache.set now key (record { duration = d; until = now + d }) (d + 10 * minute) c)
  Known-set key now d c low high =
      (d, low, high, λ later h. cache.get-set later now (d + 10 * minute) key _ c h)

  pass-none :
      (now : ℕ) (key : String) (c : C)
      → cache.get now key c ≡ none
      → pass_label now key c
        ≡ (cache.set now key (first_history now) (first_notification_delay + 10 * minute) c, true)
  unfolding pass_label
  pass-none now key c e = ground (arith, e)

  pass-due :
      (now : ℕ) (key : String) (c : C) (h : NotificationHistory)
      → cache.get now key c ≡ some h
      → ltb h.until now ≡ true
      → pass_label now key c
        ≡ (cache.set now key (next_history now h) (longer h.duration + 10 * minute) c, true)
  unfolding pass_label
  pass-due now key c h e due = ground (arith, e, due)

  pass-muted :
      (now : ℕ) (key : String) (c : C) (h : NotificationHistory)
      → cache.get now key c ≡ some h
      → ltb h.until now ≡ false
      → pass_label now key c ≡ (c, false)
  unfolding pass_label
  pass-muted now key c h e due = ground (arith, e, due)

  -- A request for one label does not change what the cache says of another.
  pub get-pass_other :
      (now later : ℕ) (other key : String) (c : C)
      → (other == key) ≡ false
      → cache.get later key ((pass_label now other c).0) ≡ cache.get later key c
  unfolding pass_label
  get-pass_other now later other key c ne = elim (Option-cases (cache.get now other c)) [
    | inl e ↦
        ap (λ r. cache.get later key (r.0)) (pass-none now other c e)
        ∙ cache.get-set_other later now (first_notification_delay + 10 * minute) other key
            (first_history now) c ne
    | inr (h, e) ↦ elim (Bool-cases (ltb h.until now)) [
      | inl due ↦
          ap (λ r. cache.get later key (r.0)) (pass-due now other c h e due)
          ∙ cache.get-set_other later now (longer h.duration + 10 * minute) other key
              (next_history now h) c ne
      | inr early ↦ ap (λ r. cache.get later key (r.0)) (pass-muted now other c h e early)
    ]
  ]

  pub pass-Unknown :
      (key : String) (now : ℕ) (c : C)
      → Unknown key c
      → ((pass_label now key c).1 ≡ true) × Known key now ((pass_label now key c).0)
  pass-Unknown key now c u =
      subst (λ r. (r.1 ≡ true) × Known key now (r.0)) (sym (pass-none now key c (u now)))
        (refl, Known-set key now first_notification_delay c (omega arith) (omega arith))

  -- A later request passes behind the delay, and it is muted within a day only.
  abbrev pub Judged : String → ℕ → ℕ → C × Bool → Type 0
  Judged key last now r =
      ((r.1 ≡ true) × (last + first_notification_delay < now) × Known key now (r.0))
      ⊎ ((r.1 ≡ false) × (now ≤ last + one_day) × Known key last (r.0))

  pub pass-Known :
      (key : String) (last now : ℕ) (c : C)
      → last ≤ now
      → Known key last c
      → Judged key last now (pass_label now key c)
  pass-Known key last now c le (d, low, high, seen) =
      elim (Bool-cases (ltb (last + (d + 10 * minute)) now)) [
        | inl old ↦
            let gone : cache.get now key c ≡ none = ground (arith, seen now le, old) in
            subst (Judged key last now) (sym (pass-none now key c gone)) (
              inl (
                refl,
                ground (arith, old),
                Known-set key now first_notification_delay c (omega arith) (omega arith),
              ))
        | inr new ↦
            let found : cache.get now key c ≡ some (record { duration = d; until = last + d }) =
              ground (arith, seen now le, new) in
            elim (Bool-cases (ltb (last + d) now)) [
              | inl due ↦
                  let (low', high') = longer_bounds d low in
                  subst (Judged key last now) (sym (pass-due now key c _ found due))
                    (inl (refl, ground (arith, due), Known-set key now (longer d) c low' high'))
              | inr early ↦
                  subst (Judged key last now) (sym (pass-muted now key c _ found early))
                    (inr (refl, ground (arith, early), (d, low, high, seen)))
            ]
      ]

  pub Known-same :
      (key : String) (last : ℕ) (b c : C)
      → ((later : ℕ) → cache.get later key b ≡ cache.get later key c)
      → Known key last c
      → Known key last b
  Known-same key last b c same (d, low, high, seen) =
      (d, low, high, λ later h. same later ∙ seen later h)

  -- As long as the label is not removed.
  spaced_from :
      (key : String) (rs : List Request) (now last : ℕ) (c : C)
      → IsTimed now rs
      → un_mutes key rs ≡ false
      → last ≤ now
      → Known key last c
      → SpacedFrom first_notification_delay last (passing key rs c)
  unfolding passing un_mutes
  spaced_from key [] now last c timed kept le k = tt
  spaced_from key (send t other ∷ rs) now last c timed kept le k =
      elim (Bool-cases (other == key)) [
        | inr ne ↦
            let rest =
              spaced_from key rs t last ((pass_label t other c).0) timed.1 kept
                (omega (arith, timed.0))
                (Known-same key last ((pass_label t other c).0) c
                  (λ later. get-pass_other t later other key c ne) k) in
            rw ne rest
        | inl eq ↦
            let same : key ≡ other = sym ((eq_iff other key).0 eq) in
            elim (pass-Known other last t c (omega (arith, timed.0))
              (subst (λ x. Known x last c) same k)) [
                | inl (passed, gap, known) ↦
                    let rest =
                      spaced_from key rs t t ((pass_label t other c).0) timed.1 kept (omega arith)
                        (subst (λ x. Known x t ((pass_label t other c).0)) (sym same) known) in
                    rw (eq, passed) (gap, rest)
                | inr (muted, day, known) ↦
                    let rest =
                      spaced_from key rs t last ((pass_label t other c).0) timed.1 kept
                        (omega (arith, timed.0))
                        (subst (λ x. Known x last ((pass_label t other c).0)) (sym same) known) in
                    rw (eq, muted) rest
              ]
      ]
  spaced_from key (un_mute t other ∷ rs) now last c timed kept le k =
      elim (Bool-cases (other == key)) [
        | inl eq ↦ absurd (ground (arith, kept, eq))
        | inr ne ↦
            spaced_from key rs t last (cache.delete other c) timed.1 (ground (arith, kept, ne))
              (omega (arith, timed.0))
              (Known-same key last (cache.delete other c) c
                (λ later. cache.get-delete_other later other key c ne) k)
      ]

  pub Unknown-pass_other :
      (key other : String) (now : ℕ) (c : C)
      → (other == key) ≡ false
      → Unknown key c
      → Unknown key ((pass_label now other c).0)
  Unknown-pass_other key other now c ne u later = get-pass_other now later other key c ne ∙ u later

  -- Repetitions are held back: from an empty cache on, and while its label is not removed, the
  -- requests of a label that pass are more than a quarter of an hour apart.
  pub requests-IsSpaced :
      (key : String) (rs : List Request) (now : ℕ) (c : C)
      → IsTimed now rs
      → un_mutes key rs ≡ false
      → ((later : ℕ) → cache.get later key c ≡ none)
      → IsSpaced first_notification_delay (passing key rs c)
  unfolding passing un_mutes
  requests-IsSpaced key [] now c timed kept u = tt
  requests-IsSpaced key (send t other ∷ rs) now c timed kept u = elim (Bool-cases (other == key)) [
    | inr ne ↦
        let rest =
          requests-IsSpaced key rs t ((pass_label t other c).0) timed.1 kept
            (Unknown-pass_other key other t c ne u) in
        rw ne rest
    | inl eq ↦
        let same : other ≡ key = (eq_iff other key).0 eq in
        let (passed, known) = pass-Unknown key t c u in
        let rest =
          spaced_from key rs t t ((pass_label t key c).0) timed.1 kept (omega arith) known in
        subst (λ x. IsSpaced first_notification_delay (passing key (send t x ∷ rs) c)) (sym same)
          (ground (arith, passed, rest, eq_iff key key))
  ]
  requests-IsSpaced key (un_mute t other ∷ rs) now c timed kept u =
      elim (Bool-cases (other == key)) [
        | inl eq ↦ absurd (ground (arith, kept, eq))
        | inr ne ↦
            requests-IsSpaced key rs t (cache.delete other c) timed.1 (ground (arith, kept, ne))
              (λ later. cache.get-delete_other later other key c ne ∙ u later)
      ]
