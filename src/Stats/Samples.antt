-- ===== src/Stats/Samples.antt =====
-- Whole numbers for the reals of core/src/stats.rs, and a counter for its generator.
use redsuite.Prelude.{ℕ, pos, ◌+◌, ◌-◌, ◌*◌, ◌/◌, ◌%◌, arith, ltb}
use redsuite.Stats.{Floats, Rng}

abbrev pub whole : Floats
whole = record {
  F = ℕ;
  of_nat = λ n. n;
  add = ◌+◌;
  sub = ◌-◌;
  mul = ◌*◌;
  div = λ a b. a / (b + 1);
  lt = ltb;
  sqrt = λ a. a;
  to_u32 = λ a. a;
  to_i32 = λ a. pos a;
  ceil_95 = λ n. (n * 95 + 99) / 100;
}

abbrev pub counter : Rng whole
counter = record {
  Seed = ℕ;
  below = λ n s. (s % n, s + 1);
  below_real = λ x s. (s % (x + 1), s + 1);
  below_lt = λ n s h. omega arith;
}
