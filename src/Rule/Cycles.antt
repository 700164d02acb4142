-- ===== src/Rule/Cycles.antt =====
-- The cycles of a transfer rule of model/rule.go.
use native.Mathlib.Nat.{div-add-mod', mod-lt}
use nezha_diff.Base.{
  ℕ, zero, suc, ◌+◌, ◌-◌, ◌*◌, ◌/◌, ◌≤◌, ◌<◌, ◌^◌, ◌∙◌, ap, true, ◌≡◌, refl, ◌⊎◌, inl, inr, none,
  some, arith, ltb, Bool-cases,
}
use nezha_diff.Outcome.{ok}
use nezha_diff.Int.{pos}
use nezha_diff.Rule.{Rule}
use nezha_diff.Rule.Cycle.{
  Calendar, second, advance, calendar_step, hour_start, hour_cycle, int_of, transfer_duration,
}

-- The loop ends after at most as many turns as there are nanoseconds to go; it steps from the first
-- start and from times before now only.
advance_total :
    (next_of : ℕ → ℕ) (limit now fuel start_time : ℕ)
    → ((t : ℕ) → t ≤ limit → t < next_of t)
    → start_time ≤ limit
    → now ≤ limit
    → now < fuel + next_of start_time
    → 0 < fuel
    → (a : ℕ) × (advance next_of now fuel start_time (next_of start_time) ≡ some (a, next_of a))
      × (now ≤ next_of a)
      × ((a ≡ start_time) ⊎ (a < now))
unfolding advance
advance_total next_of limit now zero start_time up s l h p = absurd (omega arith)
advance_total next_of limit now (suc fuel) start_time up s l h p =
    let next = next_of start_time in
    elim (Bool-cases (ltb next now)) [
      | inl t ↦
          let (a, e, b, c) =
            advance_total next_of limit now fuel next up (ground (arith, t, l)) l
              (ground (arith, h, t, l, up next)) (ground (arith, h, t)) in
          (a, ground (arith, t, e), b, inr (ground (arith, c, t)))
      | inr f ↦ (start_time, ground (arith, f), ground (arith, f), inl refl)
    ]

hour_start_lem :
    (interval first now : ℕ)
    → 0 < interval
    → first ≤ now
    → (hour_start interval first now ≤ now) × (now < hour_start interval first now + interval)
unfolding hour_start
hour_start_lem interval first now p h =
    let d = div-add-mod' (now - first) interval in
    let m = mod-lt (now - first) p in (ground (arith, h, d, m), ground (arith, h, d, m))

same_end : (start interval : ℕ) → (start + interval) * second ≡ start * second + interval * second
same_end start interval = omega arith

pub int_of-small : (n : ℕ) → n < 2 ^ 63 → int_of n ≡ pos n
unfolding int_of
int_of-small n h = ground (arith, h)

pub int_of-positive : (n k : ℕ) → n ≡ suc k → n < 2 ^ 63 → int_of n ≡ pos (suc k)
int_of-positive n k e h = int_of-small n h ∙ ap pos e

hour_cycle_fits :
    (k first now : ℕ)
    → hour_start (suc k) first now + suc k < 2 ^ 63
    → hour_cycle (pos (suc k)) first now
      ≡ ok (
          some (
            hour_start (suc k) first now * second,
            (hour_start (suc k) first now + suc k) * second,
          ))
unfolding hour_cycle
hour_cycle_fits k first now h =
    let t : ltb (hour_start (suc k) first now + suc k) (2 ^ 63) ≡ true = ground (arith, h) in
    rw t refl

module _ {F : Type 0} where
  -- A cycle by the calendar: the start and the end are found, one step apart; the end is not before
  -- now, and the start is before now or is the first start. The rule has a first start, and a step
  -- of the calendar leads to a later time.
  pub transfer_duration_calendar :
      (cal : Calendar) (u : Rule F) (now first : ℕ) (next_of : ℕ → ℕ)
      → u.cycle_start ≡ some first
      → calendar_step cal u ≡ some next_of
      → ((t : ℕ) → t < next_of t)
      → (a : ℕ) × (transfer_duration cal u now ≡ ok (some (a, next_of a)))
        × (now ≤ next_of a)
        × ((a ≡ first) ⊎ (a < now))
  unfolding transfer_duration
  transfer_duration_calendar cal u now first next_of e s up =
      let (a, p, b, c) =
        advance_total next_of (first + now) now (suc now) first (λ t _. up t) (omega arith)
          (omega arith) (omega (arith, up first)) (omega arith) in
      (a, ground (arith, e, s, p), b, c)

  -- The same for a first start that is not after now, where a step of the calendar leads to a later
  -- time from times up to now.
  pub transfer_duration_until :
      (cal : Calendar) (u : Rule F) (now first : ℕ) (next_of : ℕ → ℕ)
      → u.cycle_start ≡ some first
      → calendar_step cal u ≡ some next_of
      → first ≤ now
      → ((t : ℕ) → t ≤ now → t < next_of t)
      → (a : ℕ) × (transfer_duration cal u now ≡ ok (some (a, next_of a)))
  unfolding transfer_duration
  transfer_duration_until cal u now first next_of e s h up =
      let (a, p, b, c) =
        advance_total next_of now now (suc now) first up h (omega arith) (omega (arith, up first h))
          (omega arith) in
      (a, ground (arith, e, s, p))

  -- A cycle of hours that has begun: `now` lies in it, and it is as long as the rule says. The rule
  -- has a first start, not after now to the second, a unit that is none of the calendar, and an
  -- interval that is not 0 and below 2 ^ 51; now is less than 2 ^ 59 seconds after the zero time.
  pub transfer_duration_hours :
      (cal : Calendar) (u : Rule F) (now first : ℕ)
      → u.cycle_start ≡ some first
      → calendar_step cal u ≡ none
      → 0 < u.cycle_interval
      → u.cycle_interval < 2 ^ 51
      → now / second < 2 ^ 59
      → first / second ≤ now / second
      → (a : ℕ) × (transfer_duration cal u now
          ≡ ok (some (a, a + 3600 * u.cycle_interval * second)))
        × (a ≤ now)
        × (now < a + 3600 * u.cycle_interval * second)
  unfolding transfer_duration
  transfer_duration_hours cal u now first e s p small near h =
      let interval = 3600 * u.cycle_interval in
      let k = interval - 1 in
      let start = hour_start (suc k) (first / second) (now / second) in
      let (low, high) = hour_start_lem (suc k) (first / second) (now / second) (omega arith) h in
      let int = int_of-positive interval k (omega (arith, p)) (omega (arith, small)) in
      let fits =
        hour_cycle_fits k (first / second) (now / second) (omega (arith, low, near, small)) in
      let split = div-add-mod' now second in
      let rest = mod-lt now {m = second} (omega arith) in
      let long : interval ≡ suc k = omega (arith, p) in
      (
        start * second,
        ground (arith, e, s, int, fits, same_end start (suc k), long),
        omega (arith, low, split),
        omega (arith, high, split, rest, long),
      )
