-- ===== src/Models/Whole.antt =====
-- Numbers in the place of floats, for the tests: a quotient is never 0, and the cosine is 0 or 1, so
-- that a window has weight.
use wire_bonding_ultra.Prelude.{ℕ, ◌+◌, ◌-◌, ◌*◌, ◌/◌, ◌%◌, ltb, leb, ◌==◌}
use wire_bonding_ultra.Models.Arithmetic.{Arithmetic, ℤ}

abbrev pub whole : Arithmetic {0}
whole = record {
  F = ℕ;
  of_nat = λ n. n;
  of_int32 = λ n. n;
  asdu_room = 64;
  literal = λ m k. m;
  pi = 3;
  twelve_deg = 5;
  add = λ a b. a + b;
  sub = λ a b. a - b;
  mul = λ a b. a * b;
  div = λ a b. a / b + 1;
  neg = λ a. 0;
  abs = λ a. a;
  less = ltb;
  at_most = leb;
  is_zero = λ a. a == 0;
  sqrt = λ a. a;
  hypot = λ a b. a + b;
  atan2 = λ a b. a;
  cos = λ a. (a + 1) % 2;
  sin = λ a. 1;
  exp = λ a. 1;
  round = λ a. a;
  to_int = ℤ.pos;
}
