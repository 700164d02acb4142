-- ===== src/AlertCell/Single.antt =====
-- Alerts with one regular rule: `checkStatus` of service/singleton/alertsentinel.go forgets old
-- ticks, and loses nothing by it.
use nezha_diff.Base.{
  ℕ, zero, suc, ◌+◌, ◌-◌, ◌≤◌, ◌<◌, ◌≡◌, refl, ap, ◌∙◌, sym, Bool, List, [], ◌∷◌, ◌++◌, arith,
  nat_beq_iff, ltb, if◌then◌else◌, length, drop, All, length-append, length-drop,
}
use mathlib.Core.List.{append_assoc}
use nezha_diff.Outcome.{ok}
use nezha_diff.Rule.{Rule, AlertRule}
use nezha_diff.Check.{Points, slices_max, check_rules, check}
use nezha_diff.Check.Verdict.{fails, window, rule_passes, Covers, Covers-wide}
use nezha_diff.AlertCell.Alternation.{All-drop, All-append_last}
use nezha_diff.AlertCell.Starved.{IsRegular, check_rule-regular}
use nezha_diff.AlertCell.{
  Effect, Cell, rule_check_fail, rule_check_pass, react, trim, check_server, run, fresh,
}

drop-drop {ℓ} : {A : Type ℓ} (m n k : ℕ) (xs : List A) → n + m ≡ k → drop m (drop n xs) ≡ drop k xs
drop-drop m zero k xs e = ap (λ j. drop j xs) (omega (arith, e))
drop-drop zero (suc n) zero [] e = refl
drop-drop zero (suc n) (suc k) [] e = refl
drop-drop (suc m) (suc n) zero [] e = refl
drop-drop (suc m) (suc n) (suc k) [] e = refl
drop-drop m (suc n) zero (x ∷ xs) e = absurd (omega arith)
drop-drop m (suc n) (suc k) (x ∷ xs) e = drop-drop m n k xs (omega arith)

drop_none {ℓ} : {A : Type ℓ} (k : ℕ) (xs : List A) → k ≡ 0 → drop k xs ≡ xs
drop_none k xs e = ap (λ j. drop j xs) e

drop-append {ℓ} :
    {A : Type ℓ} (n : ℕ) (xs ys : List A) → n ≤ length xs → drop n (xs ++ ys) ≡ drop n xs ++ ys
drop-append zero xs ys h = refl
drop-append (suc n) [] ys h = absurd (omega arith)
drop-append (suc n) (x ∷ xs) ys h = drop-append n xs ys (omega arith)

-- A window of a window with one more entry.
window-append {ℓ} :
    {A : Type ℓ} (d : ℕ) (xs : List A) (x : A)
    → 0 < d
    → window d (window d xs ++ x ∷ []) ≡ window d (xs ++ x ∷ [])
window-append d xs x h =
    let n = length xs - d in
    let last = x ∷ [] in
    let joined : drop n xs ++ last ≡ drop n (xs ++ last) =
      sym (drop-append n xs last (omega arith)) in
    ap (λ l. drop (length l - d) l) joined
    ∙ drop-drop (length (drop n (xs ++ last)) - d) n (length (xs ++ last) - d) (xs ++ last)
        (omega (arith, length-drop n (xs ++ last), length-append xs last))

module _ {F : Type 0} where
  check-one :
      (alert : AlertRule F) (rule : Rule F) (points : Points)
      → alert.rules ≡ rule ∷ []
      → IsRegular rule
      → Covers 0 points
      → check alert points
        ≡ ok (
          (if ltb (length points) rule.duration then 0 else rule.duration),
          rule_passes rule 0 points,
        )
  unfolding check check_rules slices_max rule_passes
  check-one alert rule points e h c =
      ground (arith, e, check_rule-regular rule 0 points h c, h.no_cycle, h.no_offline)

trim-window :
    (d : ℕ) (points : Points)
    → 0 < d
    → trim (if ltb (length points) d then 0 else d) points ≡ window d points
unfolding trim
trim-window d points h = ground (arith, drop_none (length points - d) points)

module _ {F : Type 0} (alert : AlertRule F) (sid : ℕ) (rule : Rule F)
    (one : alert.rules ≡ rule ∷ []) (regular : IsRegular rule) where
  -- What the window of the past tells about the next tick is what the whole past tells.
  rule_passes-window :
      (past : Points) (row : List Bool)
      → rule_passes rule 0 (window rule.duration past ++ row ∷ [])
        ≡ rule_passes rule 0 (past ++ row ∷ [])
  unfolding rule_passes
  rule_passes-window past row =
      let d = rule.duration in
      let late = window d past in
      ground (
        arith,
        regular.no_cycle,
        regular.no_offline,
        ap (fails 0) (window-append d past row regular.some_tick),
        length-append past (row ∷ []),
        length-append late (row ∷ []),
        length-drop (length past - d) past,
      )

  abbrev verdict : Points → ℕ
  verdict points = if rule_passes rule 0 points then rule_check_pass else rule_check_fail

  react_verdict :
      (passed : Bool) (prev : ℕ)
      → (react alert sid passed prev).0 ≡ (if passed then rule_check_pass else rule_check_fail)
  unfolding react
  react_verdict passed prev = ground (arith, nat_beq_iff prev rule_check_fail)

  single_step :
      (past : Points) (row : List Bool) (cell : Cell)
      → All (λ r. length r ≡ 1) past
      → length row ≡ 1
      → cell.store ≡ window rule.duration past
      → (effects : List Effect) × (check_server alert sid row cell
          ≡ ok (
            record {
              store = window rule.duration (past ++ row ∷ []);
              prev_state = verdict (past ++ row ∷ []);
            },
            effects,
          ))
  unfolding check_server
  single_step past row cell ws w e =
      let d = rule.duration in
      let P = λ (r : List Bool). length r ≡ 1 in
      let points = window d past ++ row ∷ [] in
      let wide = All-append_last P (window d past) row (All-drop P (length past - d) past ws) w in
      let passed = rule_passes rule 0 points in
      (
        (react alert sid passed cell.prev_state).1,
        rw e (
            rw (check-one alert rule points one regular (Covers-wide 0 1 points (omega arith) wide))
              (ground (
                arith,
                trim-window d points regular.some_tick,
                window-append d past row regular.some_tick,
                rule_passes-window past row,
                react_verdict passed cell.prev_state,
              ))),
      )

  single_run :
      (rows past : Points) (row : List Bool) (cell : Cell)
      → All (λ r. length r ≡ 1) rows
      → All (λ r. length r ≡ 1) past
      → length row ≡ 1
      → cell.store ≡ window rule.duration past
      → (effects : List Effect) × (run alert sid (rows ++ row ∷ []) cell
          ≡ ok (
            record {
              store = window rule.duration (past ++ (rows ++ row ∷ []));
              prev_state = verdict (past ++ (rows ++ row ∷ []));
            },
            effects,
          ))
  unfolding run
  single_run [] past row cell ws vs w e =
      let (effects, p) = single_step past row cell vs w e in (effects ++ [], rw p)
  single_run (r ∷ rows) past row cell ws vs w e =
      let (first, p) = single_step past r cell vs ws.0 e in
      let mid : Cell = record {
        store = window rule.duration (past ++ r ∷ []);
        prev_state = verdict (past ++ r ∷ []);
      } in
      let (rest, q) =
        single_run rows (past ++ r ∷ []) row mid ws.1
          (All-append_last (λ (l : List Bool). length l ≡ 1) past r vs ws.0) w refl in
      (first ++ rest, rw (p, q, append_assoc past (r ∷ []) (rows ++ row ∷ [])))

  -- An alert with one regular rule: after every non-empty history of ticks, the store is the rule's
  -- window of the history, and the state is the verdict on the whole history.
  pub run_single :
      (rows : Points) (row : List Bool)
      → All (λ r. length r ≡ 1) rows
      → length row ≡ 1
      → (effects : List Effect) × (run alert sid (rows ++ row ∷ []) fresh
          ≡ ok (
            record {
              store = window rule.duration (rows ++ row ∷ []);
              prev_state =
                  if rule_passes rule 0 (rows ++ row ∷ [])
                  then rule_check_pass
                  else rule_check_fail;
            },
            effects,
          ))
  run_single rows row ws w =
      single_run rows [] row fresh ws tt w (sym (drop_none (0 - rule.duration) [] (omega arith)))
