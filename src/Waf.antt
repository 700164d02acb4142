-- ===== src/Waf.antt =====
-- model/waf.go: the test of a blocked address. The two queries of the table nz_waf and the parsing of
-- an address are arguments; each may fail.
pub mod Blocking
mod Tests
use nezha_diff.Base.{
  ℕ, ◌+◌, ◌-◌, ◌^◌, ◌%◌, Bool, true, false, Option, none, some, String, string_eq, ◌==◌,
  if◌then◌else◌, ltb,
}
use nezha_diff.Word.{word}

-- The result of CheckIP: nil, the error that says that the address is blocked, or another error.
pub data Answer : Type 0 where
  allowed blocked failed : Answer

-- `latest`: the newest block of an address, if it has a row. `total`: the sum of its counts.
pub record BlockTable (B : Type 0) : Type 0 where
  pub parse : String → Option B
  pub latest : B → Option (Option ℕ)
  pub total : B → Option ℕ

-- x to the y plus z in unlimited numbers; too large a number is the greatest uint64.
unfoldable pub pow_add : ℕ → ℕ → ℕ → ℕ
pow_add x y z =
    let result = x ^ y + z in
    if ltb result word
    then (if ltb result ((z + 3) % word) then (z + 3) % word else result)
    else 2 ^ 64 - 1

unfoldable pub check_ip : {B : Type 0} → BlockTable B → ℕ → String → Answer
check_ip t now ip = if ip == "" then allowed else elim (t.parse ip) [
  | none ↦ failed
  | some b ↦ elim (t.latest b) [
    | none ↦ failed
    | some none ↦ allowed
    | some (some block_timestamp) ↦ elim (t.total b) [
      | none ↦ failed
      | some count ↦ if ltb now (pow_add count 4 block_timestamp) then blocked else allowed
    ]
  ]
]
