-- ===== src/Check/Verdict.antt =====
-- The verdict of `Check` of model/alertrule.go against a reading of each rule by itself.
use mathlib.Core.List.{reverse, reverse-cons}
use native.Mathlib.Nat.{div-lt_iff_lt-mul}
use nezha_diff.Base.{
  ℕ, zero, suc, ◌+◌, ◌-◌, ◌*◌, ◌/◌, ◌^◌, ◌<◌, ◌≡◌, refl, ◌↔◌, ◌⊎◌, Bool, true, false, ◌||◌, none,
  some, List, [], ◌∷◌, ◌++◌, arith, ltb, if◌then◌else◌, length, drop, get_elem?, All,
}
use nezha_diff.Outcome.{ok}
use nezha_diff.Rule.{Rule, AlertRule, is_transfer_duration_rule, is_offline_rule}
use nezha_diff.Check.{
  Points, index, bound_check, last_row, check_cycle, scan_offline, count_fails, judge_regular,
  slices_max, check_rule, check_rules, check,
}

-- The bit of rule `i` in a row.
abbrev pub bit : ℕ → List Bool → Bool
bit i row = elim (get_elem? row i) [ none ↦ false | some b ↦ b ]

-- Every row has a bit for rule `i`.
abbrev pub Covers : ℕ → Points → Type 0
Covers i = All (λ row. i < length row)

pub last_bit : ℕ → Points → Bool
last_bit i [] = false
last_bit i (row ∷ []) = bit i row
last_bit i (row ∷ row' ∷ rows) = last_bit i (row' ∷ rows)

pub any_bit : ℕ → Points → Bool
any_bit i [] = false
any_bit i (row ∷ rows) = bit i row || any_bit i rows

pub fails : ℕ → Points → ℕ
fails i [] = 0
fails i (row ∷ rows) = (if bit i row then 0 else 1) + fails i rows

-- The last `d` ticks.
abbrev pub window {ℓ} : {A : Type ℓ} → ℕ → List A → List A
window d xs = drop (length xs - d) xs

-- What each rule asks of its own column: a traffic rule, that the last tick passed; any other, that
-- there are too few ticks, or an offline rule, that some tick of the window passed; a regular rule,
-- that less than 71 of 100 ticks of the window failed.
module _ {F : Type 0} where
  unfoldable pub rule_passes : Rule F → ℕ → Points → Bool
  rule_passes rule i points =
      if is_transfer_duration_rule rule
      then last_bit i points
      else if ltb (length points) rule.duration
      then true
      else if is_offline_rule rule
      then any_bit i (window rule.duration points)
      else ltb (fails i (window rule.duration points) * 100) (71 * rule.duration)

  unfoldable pub any_passes : List (Rule F) → ℕ → Points → Bool
  any_passes [] i points = false
  any_passes (rule ∷ rules) i points = rule_passes rule i points || any_passes rules (suc i) points

  -- No division by zero, and no negative duration.
  abbrev pub HasWindow : Rule F → Type 0
  HasWindow rule =
      (rule.duration < 2 ^ 63)
      × ((is_transfer_duration_rule rule ≡ true)
          ⊎ ((is_offline_rule rule ≡ true) ⊎ (0 < rule.duration)))

get_elem?-bit : (i : ℕ) (row : List Bool) → i < length row → get_elem? row i ≡ some (bit i row)
get_elem?-bit i [] h = absurd (omega arith)
get_elem?-bit zero (b ∷ row) h = refl
get_elem?-bit (suc i) (b ∷ row) h = get_elem?-bit i row (omega arith)

index-bit : (i : ℕ) (row : List Bool) → i < length row → index row i ≡ ok (bit i row)
index-bit i row h = ground (arith, get_elem?-bit i row)

check_cycle_lem :
    (i : ℕ) (points : Points) → Covers i points → check_cycle points i ≡ ok (last_bit i points)
unfolding check_cycle last_row last_bit
check_cycle_lem i [] c = refl
check_cycle_lem i (row ∷ []) c = index-bit i row c.0
check_cycle_lem i (row ∷ row' ∷ rows) c = check_cycle_lem i (row' ∷ rows) c.1

scan_offline_lem :
    (i fail : ℕ) (rows : Points)
    → Covers i rows
    → (n : ℕ) × (scan_offline rows i fail ≡ ok (n, any_bit i rows))
unfolding scan_offline any_bit
scan_offline_lem i fail [] c = (fail, refl)
scan_offline_lem i fail (row ∷ rows) c =
    let (n, e) = scan_offline_lem i (fail + 1) rows c.1 in
    ((if bit i row then fail + 1 else n), ground (arith, e, index-bit i row c.0))

pub count_fails_lem :
    (i fail : ℕ) (rows : Points)
    → Covers i rows
    → count_fails rows i fail ≡ ok (fail + fails i rows)
unfolding count_fails fails
count_fails_lem i fail [] c = ground arith
count_fails_lem i fail (row ∷ rows) c =
    ground (
      arith,
      index-bit i row c.0,
      count_fails_lem i (if bit i row then fail else fail + 1) rows c.1,
    )

pub Covers-drop : (i n : ℕ) (rows : Points) → Covers i rows → Covers i (drop n rows)
Covers-drop i zero rows c = c
Covers-drop i (suc n) [] c = c
Covers-drop i (suc n) (row ∷ rows) c = Covers-drop i n rows c.1

Covers-append : (i : ℕ) (xs ys : Points) → Covers i xs → Covers i ys → Covers i (xs ++ ys)
Covers-append i [] ys c d = d
Covers-append i (x ∷ xs) ys c d = (c.0, Covers-append i xs ys c.1 d)

Covers-reverse : (i : ℕ) (rows : Points) → Covers i rows → Covers i (reverse rows)
Covers-reverse i [] c = tt
Covers-reverse i (row ∷ rows) c =
    rw (reverse-cons row rows)
      (Covers-append i (reverse rows) (row ∷ []) (Covers-reverse i rows c.1) (c.0, tt))

any_bit-append : (i : ℕ) (xs ys : Points) → any_bit i (xs ++ ys) ≡ (any_bit i xs || any_bit i ys)
unfolding any_bit
any_bit-append i [] ys = refl
any_bit-append i (x ∷ xs) ys = ground (arith, any_bit-append i xs ys)

any_bit-reverse : (i : ℕ) (rows : Points) → any_bit i (reverse rows) ≡ any_bit i rows
unfolding any_bit
any_bit-reverse i [] = refl
any_bit-reverse i (row ∷ rows) =
    rw (reverse-cons row rows)
      (ground (arith, any_bit-append i (reverse rows) (row ∷ []), any_bit-reverse i rows))

pub judge_regular_lem : (d n : ℕ) → 0 < d → judge_regular d n ≡ ok (d, ltb (n * 100) (71 * d))
unfolding judge_regular
judge_regular_lem d n h =
    let bound : (n * 100 / d < 71) ↔ (n * 100 < 71 * d) = div-lt_iff_lt-mul h in
    ground (arith, bound.0, bound.1)

-- Rows of a width that covers every rule.
pub Covers-wide :
    (i n : ℕ) (points : Points) → i < n → All (λ row. length row ≡ n) points → Covers i points
Covers-wide i n [] h w = tt
Covers-wide i n (row ∷ rows) h w = (omega arith, Covers-wide i n rows h w.1)

slices_max_total : (ds : List ℕ) → 0 < length ds → (m : ℕ) × (slices_max ds ≡ ok m)
unfolding slices_max
slices_max_total [] h = absurd (omega arith)
slices_max_total (d ∷ ds) h = (_, refl)

module _ {F : Type 0} where
  check_rule_lem :
      (rule : Rule F) (i : ℕ) (points : Points) (passed : Bool)
      → HasWindow rule
      → Covers i points
      → (n : ℕ) × (check_rule rule i points passed ≡ ok (n, (passed || rule_passes rule i points)))
  unfolding check_rule rule_passes bound_check
  check_rule_lem rule i points passed h c =
      let d = rule.duration in
      let late = drop (length points - d) points in
      let covers = Covers-drop i (length points - d) points c in
      let (n, scanned) = scan_offline_lem i 0 (reverse late) (Covers-reverse i late covers) in
      (
        (if is_transfer_duration_rule rule
            then 1
            else if bound_check (length points) d passed
            then 0
            else if is_offline_rule rule
            then n
            else d),
        ground (
          arith,
          scanned,
          any_bit-reverse i late,
          check_cycle_lem i points c,
          count_fails_lem i 0 late covers,
          judge_regular_lem d (fails i late),
        ),
      )

  check_rules_lem :
      (rules : List (Rule F)) (i n : ℕ) (points : Points) (passed : Bool)
      → i + length rules ≡ n
      → All HasWindow rules
      → All (λ row. length row ≡ n) points
      → (ds : List ℕ) × (check_rules rules i points passed
          ≡ ok (ds, (passed || any_passes rules i points)))
        × (length ds ≡ length rules)
  unfolding check_rules any_passes
  check_rules_lem [] i n points passed e h w = ([], ground arith, refl)
  check_rules_lem (rule ∷ rules) i n points passed e h w =
      let (d, p) =
        check_rule_lem rule i points passed h.0 (Covers-wide i n points (omega arith) w) in
      let (ds, q, l) =
        check_rules_lem rules (suc i) n points (passed || rule_passes rule i points) (omega arith)
          h.1 w in
      (d ∷ ds, ground (arith, p, q), omega arith)

  -- `Check` returns, and the alert passes exactly if one of its rules passes by itself: an alarm is
  -- raised only when every rule fails. The conditions are that there is a rule, that each rule's
  -- duration fits an int and is not zero for a regular rule, and that each row has a bit for each rule.
  pub check_lem :
      (r : AlertRule F) (points : Points)
      → 0 < length r.rules
      → All HasWindow r.rules
      → All (λ row. length row ≡ length r.rules) points
      → (longest : ℕ) × (check r points ≡ ok (longest, any_passes r.rules 0 points))
  unfolding check
  check_lem r points some_rule h w =
      let (ds, p, l) = check_rules_lem r.rules 0 (length r.rules) points false (omega arith) h w in
      let (m, q) = slices_max_total ds (omega arith) in (m, ground (arith, p, q))
