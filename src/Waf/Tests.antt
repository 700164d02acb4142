-- ===== src/Waf/Tests.antt =====
-- An address with two blocks, the newest at 1000: the theorem about model/waf.go at this table.
use nezha_diff.Base.{ℕ, ◌+◌, ◌^◌, ◌≡◌, ◌<◌, ◌⊎◌, ◌↔◌, refl, some, arith}
use nezha_diff.Waf.{BlockTable, check_ip, blocked}
use nezha_diff.Waf.Blocking.{check_ip_blocks}

abbrev table : BlockTable ℕ
table = record { parse = λ ip. some 7; latest = λ b. some (some 1000); total = λ b. some 2 }

check_ip_blocks_example :
    (check_ip table 1010 "10.0.0.1" ≡ blocked) ↔ ((1010 < 1000 + 3) ⊎ (1010 < 1000 + 2 ^ 4))
check_ip_blocks_example =
    check_ip_blocks table 1010 "10.0.0.1" 7 1000 2 (λ e. cc e) refl refl refl (omega arith)
      (omega arith)
