-- ===== src/Float.antt =====
-- What the program uses of `f32` and `f64`. The arithmetic is the language's, and is abstract here: no
-- property rests on a rounding.
use secure_vector_search.Prelude.{ℕ, ℤ, Bool}

pub record Float : Type 1 where
  pub F32 : Type 0
  pub F64 : Type 0
  -- `decimal n k` is the literal n / 10^k.
  pub decimal : ℕ → ℕ → F64
  -- `n as f64`
  pub of_u64 : ℕ → F64
  -- `x as u64`, which saturates
  pub to_u64 : F64 → ℕ
  pub sub : F64 → F64 → F64
  pub mul : F64 → F64 → F64
  pub div : F64 → F64 → F64
  pub powf : F64 → F64 → F64
  pub lt : F64 → F64 → Bool
  -- `x as f64`
  pub of_f32 : F32 → F64
  -- `x.round() as i64`
  pub round_i64 : F64 → ℤ
