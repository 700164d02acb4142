-- ===== src/Word.antt =====
-- uint64 arithmetic, with its wrap-around.
use nezha_diff.Base.{ℕ, ◌+◌, ◌-◌, ◌%◌, ◌^◌}

abbrev pub word : ℕ
word = 2 ^ 64

abbrev pub add_uint : ℕ → ℕ → ℕ
add_uint a b = (a + b) % word

abbrev pub sub_uint : ℕ → ℕ → ℕ
sub_uint a b = (a + word - b % word) % word
