-- ===== src/Rng.antt =====
-- What the program uses of the crate rand: a generator is a state with its next draws. The crate
-- is not part of the repository, so the generator is a parameter.
use secure_vector_search.Prelude.{ℕ, zero, suc, List}

pub record Rng : Type 1 where
  pub State : Type 0
  -- A fresh generator from its 32-byte seed.
  pub from_seed : List ℕ → State
  pub next_u64 : State → ℕ × State
  pub next_u32 : State → ℕ × State
  -- `random::<[u8; 32]>()`
  pub random_seed : State → List ℕ × State

module _ (g : Rng) where
  open g use {State, next_u64}

  -- The state after `n` draws of 64 bits.
  unfoldable pub skip_u64 : ℕ → State → State
  skip_u64 zero s = s
  skip_u64 (suc n) s = skip_u64 n (next_u64 s).1
