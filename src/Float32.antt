-- ===== src/Float32.antt =====
-- What the program uses of `f32` beside Float. The arithmetic is the language's, and is abstract: no
-- property rests on a rounding.
use secure_vector_search.Prelude.{ℕ, ◌^◌, ◌<◌, ◌≡◌, ◌⊎◌, Bool, true}

pub record Float32 : Type 1 where
  pub F32 : Type 0
  pub zero32 : F32
  pub add : F32 → F32 → F32
  pub sub : F32 → F32 → F32
  pub mul : F32 → F32 → F32
  pub div : F32 → F32 → F32
  pub neg : F32 → F32
  pub sqrt : F32 → F32
  -- `n as f32`
  pub of_usize : ℕ → F32
  -- `<=`, `<` and `==`, which are false at a NaN
  pub le : F32 → F32 → Bool
  pub lt : F32 → F32 → Bool
  pub eq : F32 → F32 → Bool
  -- `a.total_cmp(&b)` is not `Greater`
  pub total_le : F32 → F32 → Bool
  -- The bits that `to_le_bytes` writes and `from_le_bytes` reads.
  pub to_bits : F32 → ℕ
  pub from_bits : ℕ → F32

-- What the standard library documents of the total order and of the bits.
pub record IsFloat32 (fl : Float32) : Type 0 where
  pub total_le_total : (a b : fl.F32) → (fl.total_le a b ≡ true) ⊎ (fl.total_le b a ≡ true)
  pub total_le_trans :
      (a b c : fl.F32) → fl.total_le a b ≡ true → fl.total_le b c ≡ true → fl.total_le a c ≡ true
  pub to_bits-lt : (a : fl.F32) → fl.to_bits a < 2 ^ 32
  pub from-to_bits : (a : fl.F32) → fl.from_bits (fl.to_bits a) ≡ a
