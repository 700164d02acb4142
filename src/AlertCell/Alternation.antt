-- ===== src/AlertCell/Alternation.antt =====
-- Incidents and recoveries over a history of ticks of `checkStatus` in
-- service/singleton/alertsentinel.go.
use nezha_diff.Base.{
  ℕ, zero, suc, ◌+◌, ◌<◌, ◌≡◌, ◌≢◌, refl, ap, sym, subst, ◌∙◌, nat_beq_iff, Bool, List, [], ◌∷◌,
  ◌++◌, arith, nat_beq, if◌then◌else◌, length, drop, All, ◌-◌, ltb, ◌&&◌,
}
use nezha_diff.Outcome.{ok, ◌>>=◌, ok-of->>=, ok-injective}
use nezha_diff.MuteLabel.{server_incident, server_incident_resolved}
use nezha_diff.Rule.{AlertRule, mode_always_trigger}
use nezha_diff.Check.{Points}
use nezha_diff.Check.Verdict.{HasWindow, any_passes, check_lem}
use nezha_diff.AlertCell.{
  Effect, send_notification, Cell, rule_check_fail, incident, resolved, react, trim, check_server,
  run, fresh,
}

pub incidents : List Effect → ℕ
incidents [] = 0
incidents (send_notification _ (server_incident _ _) ∷ es) = suc (incidents es)
incidents (_ ∷ es) = incidents es

pub recoveries : List Effect → ℕ
recoveries [] = 0
recoveries (send_notification _ (server_incident_resolved _ _) ∷ es) = suc (recoveries es)
recoveries (_ ∷ es) = recoveries es

-- One incident is open after a failed check.
abbrev pub open_incidents : ℕ → ℕ
open_incidents prev = if nat_beq prev rule_check_fail then 1 else 0

incidents-append : (xs ys : List Effect) → incidents (xs ++ ys) ≡ incidents xs + incidents ys
unfolding incidents
incidents-append [] ys = ground arith
incidents-append (send_notification g (server_incident a b) ∷ xs) ys =
    ground (arith, incidents-append xs ys)
incidents-append (_ ∷ xs) ys = incidents-append xs ys

recoveries-append : (xs ys : List Effect) → recoveries (xs ++ ys) ≡ recoveries xs + recoveries ys
unfolding recoveries
recoveries-append [] ys = ground arith
recoveries-append (send_notification g (server_incident_resolved a b) ∷ xs) ys =
    ground (arith, recoveries-append xs ys)
recoveries-append (_ ∷ xs) ys = recoveries-append xs ys

module _ {F : Type 0} where
  react_balance :
      (alert : AlertRule F) (sid : ℕ) (passed : Bool) (prev : ℕ)
      → alert.trigger_mode ≢ mode_always_trigger
      → incidents (react alert sid passed prev).1 + open_incidents prev
        ≡ recoveries (react alert sid passed prev).1
          + open_incidents (react alert sid passed prev).0
  unfolding react incident resolved incidents recoveries
  react_balance alert sid passed prev h = ground arith

  -- After a reaction an incident is open exactly if the check failed.
  react_open :
      (alert : AlertRule F) (sid : ℕ) (passed : Bool) (prev : ℕ)
      → alert.trigger_mode ≢ mode_always_trigger
      → open_incidents (react alert sid passed prev).0 ≡ (if passed then 0 else 1)
  unfolding react
  react_open alert sid passed prev h = ground (arith, nat_beq_iff prev rule_check_fail)

  -- The rules can be checked against rows of `n` bits.
  pub record IsCheckable (alert : AlertRule F) : Type 0 where
    pub some_rule : 0 < length alert.rules
    pub windows : All HasWindow alert.rules

  abbrev pub IsWide : AlertRule F → Points → Type 0
  IsWide alert = All (λ row. length row ≡ length alert.rules)

pub All-append_last {ℓ κ} :
    {A : Type ℓ} (P : A → Type κ) (xs : List A) (x : A) → All P xs → P x → All P (xs ++ x ∷ [])
All-append_last P [] x h p = (p, tt)
All-append_last P (y ∷ ys) x h p = (h.0, All-append_last P ys x h.1 p)

pub All-drop {ℓ κ} :
    {A : Type ℓ} (P : A → Type κ) (n : ℕ) (xs : List A) → All P xs → All P (drop n xs)
All-drop P zero xs h = h
All-drop P (suc n) [] h = h
All-drop P (suc n) (x ∷ xs) h = All-drop P n xs h.1

-- Trimming drops a prefix.
pub trim-drop : (longest : ℕ) (points : Points) → (k : ℕ) × (trim longest points ≡ drop k points)
unfolding trim
trim-drop longest points = (
  (if ltb 0 longest && ltb longest (length points) then length points - longest else 0),
  ground arith,
)

module _ {F : Type 0} (alert : AlertRule F) (sid : ℕ) (c : IsCheckable alert) where
  -- A tick returns, and keeps the rows wide.
  pub check_server_total :
      (row : List Bool) (cell : Cell)
      → length row ≡ length alert.rules
      → IsWide alert cell.store
      → (cell' : Cell) × (passed : Bool) × (check_server alert sid row cell
          ≡ ok (cell', (react alert sid passed cell.prev_state).1))
        × (cell'.prev_state ≡ (react alert sid passed cell.prev_state).0)
        × IsWide alert cell'.store
        × (passed ≡ any_passes alert.rules 0 (cell.store ++ row ∷ []))
  unfolding check_server
  check_server_total row cell e w =
      let points = cell.store ++ row ∷ [] in
      let P = λ (r : List Bool). length r ≡ length alert.rules in
      let wide = All-append_last P cell.store row w e in
      let (longest, p) = check_lem alert points c.some_rule c.windows wide in
      let passed = any_passes alert.rules 0 points in
      let (k, q) = trim-drop longest points in
      (
        record {
          store = trim longest points;
          prev_state = (react alert sid passed cell.prev_state).0;
        },
        passed,
        rw p,
        refl,
        rw q (All-drop P k points wide),
        refl,
      )

  run_balance :
      (rows : Points) (cell : Cell)
      → alert.trigger_mode ≢ mode_always_trigger
      → IsWide alert rows
      → IsWide alert cell.store
      → (cell' : Cell) × (effects : List Effect) × (run alert sid rows cell ≡ ok (cell', effects))
        × (incidents effects + open_incidents cell.prev_state
            ≡ recoveries effects + open_incidents cell'.prev_state)
        × IsWide alert cell'.store
  unfolding run incidents recoveries
  run_balance [] cell h w v = (cell, [], refl, ground arith, v)
  run_balance (row ∷ rows) cell h w v =
      let (mid, passed, p, q, u, _) = check_server_total row cell w.0 v in
      let (cell', effects, r, b, wide) = run_balance rows mid h w.1 u in
      let first = (react alert sid passed cell.prev_state).1 in
      (
        cell',
        first ++ effects,
        rw (p, r),
        ground (
          arith,
          b,
          q,
          react_balance alert sid passed cell.prev_state h,
          incidents-append first effects,
          recoveries-append first effects,
        ),
        wide,
      )

  run_step :
      (row : List Bool) (rows : Points) (cell last : Cell) (first : Cell × List Effect)
      (es : List Effect)
      → check_server alert sid row cell ≡ ok first
      → run alert sid rows first.0 ≡ ok (last, es)
      → run alert sid (row ∷ rows) cell ≡ ok (last, first.1 ++ es)
  unfolding run
  run_step row rows cell last first es p q = rw (p, q) refl

  run-last :
      (rows : Points) (row : List Bool) (cell before after : Cell) (sent es : List Effect)
      → run alert sid rows cell ≡ ok (before, sent)
      → check_server alert sid row before ≡ ok (after, es)
      → (effects : List Effect) × (run alert sid (rows ++ row ∷ []) cell ≡ ok (after, effects))
  unfolding run
  run-last [] row cell before after sent es h k =
      let same : cell ≡ before = cc h in
      (es ++ [], rw (subst (λ x. check_server alert sid row x ≡ ok (after, es)) (sym same) k) refl)
  run-last (r ∷ rows) row cell before after sent es h k =
      let (first, rest, p) =
        ok-of->>= {value = (before, sent)} (check_server alert sid r cell)
          (λ first. run alert sid rows first.0 >>= λ rest. ok (rest.0, first.1 ++ rest.1)) h in
      let (out, done, q) =
        ok-of->>= {value = (before, sent)} (run alert sid rows first.0)
          (λ rest. ok (rest.0, first.1 ++ rest.1)) rest in
      let last : out.0 ≡ before = ap (λ x. x.0) (ok-injective done) in
      let (effects, e) =
        run-last rows row first.0 before after out.1 es (q ∙ ap (λ x. ok (x, out.1)) last) k in
      (first.1 ++ effects, run_step r (rows ++ row ∷ []) cell after first effects p e)

  -- In one-time mode, over every history of ticks: the incidents sent are the recoveries sent, and one
  -- more exactly if the check of the last tick failed, that is, if every rule failed over the ticks
  -- that were kept and this one.
  pub run_alternates :
      (rows : Points) (row : List Bool)
      → alert.trigger_mode ≢ mode_always_trigger
      → IsWide alert rows
      → length row ≡ length alert.rules
      → (before : Cell) × (cell : Cell) × (sent : List Effect) × (effects : List Effect) × (run
            alert sid rows fresh
          ≡ ok (before, sent))
        × (run alert sid (rows ++ row ∷ []) fresh ≡ ok (cell, effects))
        × (incidents effects
            ≡ recoveries effects
              + (if any_passes alert.rules 0 (before.store ++ row ∷ []) then 0 else 1))
  run_alternates rows row h w e =
      let (before, sent, p, _, u) = run_balance rows fresh h w tt in
      let (after, passed, k, prev, _, same) = check_server_total row before e u in
      let (late, q) =
        run-last rows row fresh before after sent (react alert sid passed before.prev_state).1 p
          k in
      let (cell, effects, r, b, _) =
        run_balance (rows ++ row ∷ []) fresh h
          (All-append_last (λ (bits : List Bool). length bits ≡ length alert.rules) rows row w e)
          tt in
      let one : (after, late) ≡ (cell, effects) = ok-injective (sym q ∙ r) in
      let end : cell.prev_state ≡ (react alert sid passed before.prev_state).0 =
        sym (ap (λ x. (x.0).prev_state) one) ∙ prev in
      (
        before,
        cell,
        sent,
        effects,
        p,
        r,
        ground (arith, b, end, same, react_open alert sid passed before.prev_state h),
      )
