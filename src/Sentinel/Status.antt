-- ===== src/Sentinel/Status.antt =====
-- The status of a window in service/singleton/servicesentinel.go: the counters of the window, the
-- percentage and GetStatusCode; and the alerts that need the reporter.
use nezha_diff.Base.{
  ℕ, ◌+◌, ◌*◌, ◌/◌, ◌%◌, ◌≤◌, ◌<◌, ◌≡◌, ◌≢◌, true, not, ◌&&◌, none, List, [], ◌∷◌, arith, nat_eq,
  nat_beq, nat_beq_iff, if◌then◌else◌, ltb, leb, ◌∙◌, ◌↔◌, length, keep,
}
use native.Mathlib.Nat.{le-div_iff_mul-le}
use nezha_diff.Word.{word}
use nezha_diff.Float64.{Float64}
use nezha_diff.Outcome.{panic}
use nezha_diff.GoMap.{GoMap, lookup}
use nezha_diff.ServerClass.{Server}
use nezha_diff.Sentinel.{TaskResult, ReportData, TodayStats, Service, zero_stats}
use nezha_diff.Sentinel.Report.{
  count_result, count_results, up_percent, get_status_code, status_no_data, status_good,
  status_down, status_low_availability, notify_status, notify_check,
}

module _ {F : Type 0} where
  -- The results of real tasks that succeeded, and those that failed.
  abbrev pub ups : List (TaskResult F) → ℕ
  ups rs = length (keep (λ c. ltb 0 c.id && c.successful) rs)

  abbrev pub downs : List (TaskResult F) → ℕ
  downs rs = length (keep (λ c. ltb 0 c.id && not c.successful) rs)

  parts-length : (rs : List (TaskResult F)) → ups rs + downs rs ≤ length rs
  parts-length [] = omega arith
  parts-length (c ∷ rs) = ground (arith, parts-length rs)

code_of_quotient :
    (q u t : ℕ)
    → (1 ≤ q) ↔ (1 * t ≤ u * 100)
    → (81 ≤ q) ↔ (81 * t ≤ u * 100)
    → (96 ≤ q) ↔ (96 * t ≤ u * 100)
    → t ≤ 30
    → 0 < t
    → u ≤ t
    → get_status_code q ≡ (
        if nat_beq u 0
        then status_no_data
        else if leb (96 * t) (100 * u)
        then status_good
        else if leb (81 * t) (100 * u)
        then status_low_availability
        else status_down)
unfolding get_status_code
code_of_quotient q u t a b c h p k = ground (arith, a, b, c, h, p, k)

module _ {F : Type 0} ⦃fl : Float64 F⦄ where
  count_result_lem :
      (c : TaskResult F) (rd : TodayStats F)
      → rd.up + rd.down + 1 < word
      → ((count_result c rd).up ≡ rd.up + (if ltb 0 c.id && c.successful then 1 else 0))
        × ((count_result c rd).down ≡ rd.down + (if ltb 0 c.id && not c.successful then 1 else 0))
  unfolding count_result
  count_result_lem c rd h = ground arith

  -- The counters of a window count its results, as long as they fit uint64.
  count_results_lem :
      (rs : List (TaskResult F)) (rd : TodayStats F)
      → rd.up + rd.down + length rs < word
      → (((count_results rs rd).up) ≡ rd.up + ups rs)
        × (((count_results rs rd).down) ≡ rd.down + downs rs)
  unfolding count_results count_result
  count_results_lem [] rd h = (omega arith, omega arith)
  count_results_lem (c ∷ rs) rd h =
      let now = count_result_lem c rd (omega arith) in
      let rest = count_results_lem rs (count_result c rd) (ground (arith, h, now.0, now.1)) in
      (ground (arith, now.0, rest.0), ground (arith, now.1, rest.1))

  percent_lem :
      (rd : TodayStats F) (u d : ℕ)
      → rd.up ≡ u
      → rd.down ≡ d
      → u + d ≤ 30
      → 0 < u + d
      → up_percent rd ≡ u * 100 / (u + d)
  unfolding up_percent
  percent_lem rd u d e f h k =
      let small : rd.up * 100 % word ≡ u * 100 = omega arith in
      let total : (rd.down + rd.up) % word ≡ u + d = omega arith in
      rw (small, total) (ground (arith, k))

  status_code_lem :
      (rd : TodayStats F) (u d : ℕ)
      → rd.up ≡ u
      → rd.down ≡ d
      → u + d ≤ 30
      → 0 < u + d
      → get_status_code (up_percent rd) ≡ (
          if nat_beq u 0
          then status_no_data
          else if leb (96 * (u + d)) (100 * u)
          then status_good
          else if leb (81 * (u + d)) (100 * u)
          then status_low_availability
          else status_down)
  status_code_lem rd u d e f h k =
      let percent : up_percent rd ≡ u * 100 / (u + d) = percent_lem rd u d e f h k in
      rw percent (
        code_of_quotient (u * 100 / (u + d)) u (u + d)
          (le-div_iff_mul-le {k = u + d} {x = 1} {y = u * 100} k)
          (le-div_iff_mul-le {k = u + d} {x = 81} {y = u * 100} k)
          (le-div_iff_mul-le {k = u + d} {x = 96} {y = u * 100} k) h k (omega arith))

  -- The status of a window of at most thirty results, one of them counted: no data if none
  -- succeeded, good from 96 per cent on, low from 81 per cent on, and down below.
  pub status_of_window :
      (rs : List (TaskResult F))
      → length rs ≤ 30
      → 0 < ups rs + downs rs
      → get_status_code (up_percent (count_results rs zero_stats)) ≡ (
          if nat_beq (ups rs) 0
          then status_no_data
          else if leb (96 * (ups rs + downs rs)) (100 * ups rs)
          then status_good
          else if leb (81 * (ups rs + downs rs)) (100 * ups rs)
          then status_low_availability
          else status_down)
  unfolding zero_stats
  status_of_window rs h k =
      let counted = count_results_lem rs zero_stats (omega arith) in
      status_code_lem (count_results rs zero_stats) (ups rs) (downs rs) (omega (arith, counted.0))
        (omega (arith, counted.1)) (omega (arith, parts-length rs)) k

  -- A window of at most thirty results without a success, one of them a failure that counts, has the
  -- status no data, not down.
  pub outage-not-down :
      (rs : List (TaskResult F))
      → length rs ≤ 30
      → ups rs ≡ 0
      → 0 < downs rs
      → get_status_code (up_percent (count_results rs zero_stats)) ≡ status_no_data
  outage-not-down rs h z k = status_of_window rs h (omega arith) ∙ ground (arith, z)

  -- A reporter that is no server any more makes a notification of a change of status panic.
  pub notify_check_unknown :
      {G : Type 0} (r : ReportData F) (m : GoMap ℕ (Server G)) (ss : Service F) (mh : TaskResult F)
      (last_status state_code : ℕ)
      → lookup r.reporter m ≡ none
      → ss.notify ≡ true
      → last_status ≢ 0
      → notify_check r m ss mh last_status state_code ≡ panic
  unfolding notify_check notify_status
  notify_check_unknown r m ss mh last_status state_code e n l =
      ground (arith, e, n, l, nat_beq_iff last_status 0)
