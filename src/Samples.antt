-- ===== src/Samples.antt =====
-- Natural numbers in the place of floating-point numbers, for the tests.
use nezha_diff.Base.{ℕ, ◌+◌, ◌-◌, ◌*◌, ◌/◌, nat_beq, ltb, if◌then◌else◌}
use nezha_diff.Float64.{Float64}

instance abbrev pub whole : Float64 ℕ
whole = record {
  of_uint = λ n. n;
  to_uint = λ n. n;
  add = λ a b. a + b;
  sub = λ a b. a - b;
  mul = λ a b. a * b;
  div = λ a b. a / b;
  lt = λ a b. ltb a b;
  eq = λ a b. nat_beq a b;
  max = λ a b. if ltb a b then b else a;
}
