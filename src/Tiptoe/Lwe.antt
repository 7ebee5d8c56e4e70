-- ===== src/Tiptoe/Lwe.antt =====
-- scorer-tiptoe/src/pir/lwe.rs: Regev encryption modulo 2^64, with a plaintext modulus 2^log2_p.
pub mod Round
pub mod Decrypt
mod Tests
use secure_vector_search.Prelude.{
  ℕ, ◌+◌, ◌-◌, ◌*◌, ◌/◌, ◌%◌, ◌^◌, min, ◌==◌, Bool, List, [], ◌∷◌, ◌++◌, length, get_elem?, Option,
  some, none, ◌>>=◌, assert, ◌>>◌, for_loop, collect, slice, u64, wrapping_add64, wrapping_sub64,
  wrapping_mul64,
}

-- The standard deviation is used by the sampler alone.
pub record Params : Type 0 where
  pub n : ℕ
  pub log2_p : ℕ

unfoldable pub plaintext_modulus : Params → ℕ
plaintext_modulus params = 2 ^ params.log2_p

unfoldable pub delta : Params → ℕ
delta params = 2 ^ (64 - params.log2_p)

unfoldable pub round : Params → ℕ → ℕ
round params x =
    let v = wrapping_add64 x (delta params / 2) / delta params in v % plaintext_modulus params

-- One term of `row.iter().zip(secret)`.
unfoldable pub dot_step : List ℕ → List ℕ → ℕ → ℕ → Option ℕ
dot_step row secret j acc = do
  a ← get_elem? row j
  s ← get_elem? secret j
  some (wrapping_add64 acc (wrapping_mul64 a s))

unfoldable pub wrapping_dot : List ℕ → List ℕ → Option ℕ
wrapping_dot row secret = for_loop (min (length row) (length secret)) (dot_step row secret) 0

unfoldable pub a_s_entry : List ℕ → List ℕ → ℕ → Option ℕ
a_s_entry a secret i = do
  row ← slice a (i * length secret) ((i + 1) * length secret)
  wrapping_dot row secret

unfoldable pub compute_a_s : List ℕ → List ℕ → ℕ → Option (List ℕ)
compute_a_s a secret m = do assert (length a == m * length secret); collect m (a_s_entry a secret)

-- `noise` is what `sample_gauss` drew, entry by entry, as a `u64`.
unfoldable pub encrypt_message : Params → List ℕ → List ℕ → List ℕ → ℕ → Option ℕ
encrypt_message params msg noise a_s i = do
  c ← get_elem? a_s i
  e ← get_elem? noise i
  x ← get_elem? msg i
  let m_red = x % plaintext_modulus params
  some (wrapping_add64 (wrapping_add64 c e) (wrapping_mul64 (delta params) m_red))

unfoldable pub encrypt_vec : Params → List ℕ → List ℕ → List ℕ → List ℕ → Option (List ℕ)
encrypt_vec params secret msg a noise = do
  assert (length a == length msg * length secret)
  a_s ← compute_a_s a secret (length msg)
  collect (length msg) (encrypt_message params msg noise a_s)

unfoldable pub decrypt_entry : Params → List ℕ → List ℕ → ℕ → Option ℕ
decrypt_entry params ct a_s i = do
  c ← get_elem? ct i
  h ← get_elem? a_s i
  some (round params (wrapping_sub64 c h))

unfoldable pub decrypt_vec : Params → List ℕ → List ℕ → Option (List ℕ)
decrypt_vec params ct a_s = do
  assert (length ct == length a_s)
  collect (length ct) (decrypt_entry params ct a_s)
