-- ===== src/Waf/Blocking.antt =====
-- How long model/waf.go blocks an address.
use nezha_diff.Base.{ℕ, ◌+◌, ◌^◌, ◌<◌, ◌≡◌, ◌≢◌, ◌⊎◌, ◌↔◌, some, String, string_eq, arith}
use text.Mathlib.TextEquality.{eq_iff}
use nezha_diff.Word.{word}
use nezha_diff.Waf.{blocked, BlockTable, pow_add, check_ip}

-- When a known address is blocked: for three seconds after its newest block at least, and until the
-- fourth power of its count has passed; the newest block and now are times before the end of uint64.
pub check_ip_blocks :
    {B : Type 0} (t : BlockTable B) (now : ℕ) (ip : String) (b : B) (block_timestamp count : ℕ)
    → ip ≢ ""
    → t.parse ip ≡ some b
    → t.latest b ≡ some (some block_timestamp)
    → t.total b ≡ some count
    → block_timestamp + 3 < word
    → now + 1 < word
    → (check_ip t now ip ≡ blocked)
      ↔ ((now < block_timestamp + 3) ⊎ (now < block_timestamp + count ^ 4))
unfolding check_ip pow_add
check_ip_blocks t now ip b block_timestamp count n p l c h k =
    ground (arith, n, p, l, c, h, k, eq_iff ip "")
