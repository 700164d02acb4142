-- ===== src/AlertCell/Starved.antt =====
-- Alerts with two regular rules: what `checkStatus` of service/singleton/alertsentinel.go keeps of
-- the ticks is what `Check` of model/alertrule.go says that it read.
use nezha_diff.Base.{
  ℕ, ◌+◌, ◌-◌, ◌*◌, ◌^◌, ◌≤◌, ◌<◌, ◌≡◌, ◌≢◌, refl, Bool, true, false, List, [], ◌∷◌, ◌++◌, arith,
  ltb, if◌then◌else◌, length, drop, All, length-append, length-drop,
}
use nezha_diff.Outcome.{ok}
use nezha_diff.Rule.{Rule, AlertRule, is_transfer_duration_rule, is_offline_rule}
use nezha_diff.Check.{Points, bound_check, slices_max, check_rule, check_rules, check}
use nezha_diff.Check.Verdict.{
  fails, count_fails_lem, judge_regular_lem, Covers, Covers-wide, Covers-drop,
}
use nezha_diff.AlertCell.Alternation.{All-drop, All-append_last, trim-drop}
use nezha_diff.AlertCell.{
  Cell, rule_check_fail, rule_check_pass, react, trim, check_server, run, fresh,
}

module _ {F : Type 0} where
  -- A rule on load, memory, speed and the like, with a window that an int holds.
  pub record IsRegular (rule : Rule F) : Type 0 where
    pub no_cycle : is_transfer_duration_rule rule ≡ false
    pub no_offline : is_offline_rule rule ≡ false
    pub some_tick : 0 < rule.duration
    pub fits : rule.duration < 2 ^ 63

  -- A regular rule reports its window if there are enough ticks, and nothing before.
  pub check_rule-regular :
      (rule : Rule F) (i : ℕ) (points : Points)
      → IsRegular rule
      → Covers i points
      → check_rule rule i points false ≡ (
          if ltb (length points) rule.duration
          then ok (0, true)
          else ok (
            rule.duration,
            ltb (fails i (drop (length points - rule.duration) points) * 100) (71 * rule.duration),
          ))
  unfolding check_rule bound_check
  check_rule-regular rule i points h c =
      let late = drop (length points - rule.duration) points in
      ground (
        arith,
        h.no_cycle,
        h.no_offline,
        h.some_tick,
        h.fits,
        count_fails_lem i 0 late (Covers-drop i (length points - rule.duration) points c),
        judge_regular_lem rule.duration (fails i late),
      )

  check_rule-passed :
      (rule : Rule F) (i : ℕ) (points : Points)
      → IsRegular rule
      → check_rule rule i points true ≡ ok (0, true)
  unfolding check_rule bound_check
  check_rule-passed rule i points h = ground (arith, h.no_cycle)

  -- Two regular rules, of which the second asks for more ticks than are at hand.
  check-two :
      (alert : AlertRule F) (a b : Rule F) (points : Points)
      → alert.rules ≡ a ∷ b ∷ []
      → IsRegular a
      → IsRegular b
      → Covers 0 points
      → Covers 1 points
      → length points < b.duration
      → check alert points ≡ ok ((if ltb (length points) a.duration then 0 else a.duration), true)
  unfolding check check_rules slices_max
  check-two alert a b points e ha hb c0 c1 short = ground (
    arith,
    e,
    check_rule-regular a 0 points ha c0,
    check_rule-regular b 1 points hb c1,
    check_rule-passed b 1 points hb,
  )

  react_quiet :
      (alert : AlertRule F) (sid prev : ℕ)
      → prev ≢ rule_check_fail
      → react alert sid true prev ≡ (rule_check_pass, [])
  unfolding react
  react_quiet alert sid prev h = ground arith

trim-length :
    (d : ℕ) (points : Points)
    → 0 < d
    → length points ≤ d + 1
    → length (trim (if ltb (length points) d then 0 else d) points) ≤ d
unfolding trim
trim-length d points pos h = ground (arith, length-drop (length points - d) points)

module _ {F : Type 0} (alert : AlertRule F) (sid : ℕ) (a b : Rule F)
    (two : alert.rules ≡ a ∷ b ∷ []) (ha : IsRegular a) (hb : IsRegular b)
    (gap : a.duration + 1 < b.duration) where
  starved_step :
      (row : List Bool) (cell : Cell)
      → length row ≡ 2
      → All (λ r. length r ≡ 2) cell.store
      → length cell.store ≤ a.duration
      → cell.prev_state ≢ rule_check_fail
      → (store : Points) × (check_server alert sid row cell
          ≡ ok (record { store = store; prev_state = rule_check_pass }, []))
        × (length store ≤ a.duration)
        × All (λ r. length r ≡ 2) store
  unfolding check_server
  starved_step row cell e w l q =
      let points = cell.store ++ row ∷ [] in
      let P = λ (r : List Bool). length r ≡ 2 in
      let wide = All-append_last P cell.store row w e in
      let short : length points ≤ a.duration + 1 =
        omega (arith, length-append cell.store (row ∷ [])) in
      let longest : ℕ = if ltb (length points) a.duration then 0 else a.duration in
      let (k, t) = trim-drop longest points in
      (
        trim longest points,
        ground (
          arith,
          check-two alert a b points two ha hb (Covers-wide 0 2 points (omega arith) wide)
              (Covers-wide 1 2 points (omega arith) wide) (omega arith),
          react_quiet alert sid cell.prev_state q,
        ),
        trim-length a.duration points ha.some_tick short,
        rw t (All-drop P k points wide),
      )

  starved_run :
      (rows : Points) (cell : Cell)
      → All (λ r. length r ≡ 2) rows
      → All (λ r. length r ≡ 2) cell.store
      → length cell.store ≤ a.duration
      → cell.prev_state ≢ rule_check_fail
      → (cell' : Cell) × (run alert sid rows cell ≡ ok (cell', []))
        × (cell'.prev_state ≢ rule_check_fail)
  unfolding run
  starved_run [] cell ws w l q = (cell, refl, q)
  starved_run (row ∷ rows) cell ws w l q =
      let (store, p, l', w') = starved_step row cell ws.0 w l q in
      let (cell', r, q') =
        starved_run rows (record { store = store; prev_state = rule_check_pass }) ws.1 w' l'
          (omega arith) in
      (cell', rw (p, r), q')

  -- An alert whose second regular rule asks for at least two ticks more than the first never goes
  -- off: whatever the ticks are, also if both rules fail at every one of them, nothing is sent. The
  -- first rule's window is all that is kept, so the second never has its ticks.
  pub run_starved :
      (rows : Points)
      → All (λ r. length r ≡ 2) rows
      → (cell : Cell) × (run alert sid rows fresh ≡ ok (cell, []))
        × (cell.prev_state ≢ rule_check_fail)
  run_starved rows w = starved_run rows fresh w tt (omega arith) (omega arith)
