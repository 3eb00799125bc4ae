-- ===== src/Go/Float.antt =====
-- The double type float64, of which the program uses conversions, the four operations and an
-- order. It is a parameter of the model: `Floats` names these operations, and what is relied on.
use metrics_server.Prelude.{◌+◌, ℕ, ◌-◌, ◌*◌, ◌/◌, ◌^◌, ◌<◌, Bool, arith, ltb, min}
use metrics_server.Prelude.Int.{ℤ, pos, pos_part, IsInt64}
use metrics_server.Go.Time.{Duration, max_duration}

pub record Floats (F : Type 0) : Type 0 where
  -- the constant m * 10^-k
  pub constant : ℕ → ℕ → F
  -- float64(n) of a uint64, and float64(d) of an int64
  pub of_uint64 : ℕ → F
  pub of_int64 : ℤ → F
  -- d.Seconds()
  pub seconds : Duration → F
  pub add : F → F → F
  pub sub : F → F → F
  pub mul : F → F → F
  pub div : F → F → F
  pub lt : F → F → Bool
  -- uint64(f) and int64(f)
  pub to_uint64 : F → ℕ
  pub to_int64 : F → ℤ
  pub to_uint64-lt : (x : F) → to_uint64 x < 2 ^ 64
  pub to_int64-IsInt64 : (x : F) → IsInt64 (to_int64 x)

-- Fractions with a natural numerator, to run the model with: a negative number is taken as 0.
pub record Fraction : Type 0 where
  pub num : ℕ
  pub den : ℕ

abbrev pub saturate_uint64 : ℕ → ℕ
saturate_uint64 n = min n (2 ^ 64 - 1)

abbrev pub saturate_int64 : ℕ → ℤ
saturate_int64 n = pos (min n max_duration)

pub saturate_uint64-lt : (x : Fraction) → saturate_uint64 (x.num / x.den) < 2 ^ 64
saturate_uint64-lt x = omega arith

pub saturate_int64-IsInt64 : (x : Fraction) → IsInt64 (saturate_int64 (x.num / x.den))
saturate_int64-IsInt64 x = omega arith

abbrev pub fractions : Floats Fraction
fractions = record {
  constant = λ m k. record { num = m; den = 10 ^ k };
  of_uint64 = λ n. record { num = n; den = 1 };
  of_int64 = λ d. record { num = pos_part d; den = 1 };
  seconds = λ d. record { num = pos_part d; den = 10 ^ 9 };
  add = λ x y. record { num = x.num * y.den + y.num * x.den; den = x.den * y.den };
  sub = λ x y. record { num = x.num * y.den - y.num * x.den; den = x.den * y.den };
  mul = λ x y. record { num = x.num * y.num; den = x.den * y.den };
  div = λ x y. record { num = x.num * y.den; den = x.den * y.num };
  lt = λ x y. ltb (x.num * y.den) (y.num * x.den);
  to_uint64 = λ x. saturate_uint64 (x.num / x.den);
  to_int64 = λ x. saturate_int64 (x.num / x.den);
  to_uint64-lt = saturate_uint64-lt;
  to_int64-IsInt64 = saturate_int64-IsInt64;
}
