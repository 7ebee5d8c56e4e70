-- ===== src/Tiptoe/SimplePir.antt =====
-- scorer-tiptoe/src/pir/simplepir.rs: the preprocessing of the server, its answer, and the recovery
-- by the client.
pub mod Hint
pub mod Recover
pub mod Stream
pub mod Encrypt
pub mod Session
mod Tests
use secure_vector_search.Prelude.{
  ℕ, ◌+◌, ◌-◌, ◌*◌, ◌/◌, min, ◌==◌, not, ltb, Bool, List, [], ◌∷◌, ◌++◌, length, get_elem?, set,
  replicate, Option, some, none, ◌>>=◌, assert, ◌>>◌, for_loop, collect, collect_flat, slice,
  wrapping_add64, wrapping_mul64,
}
use Prim.Native.Nat.{max}
use secure_vector_search.Rng.{Rng}
use secure_vector_search.Tiptoe.Lwe.{
  encrypt_message, Params, wrapping_dot, compute_a_s, decrypt_vec,
}

abbrev pub div_ceil : ℕ → ℕ → ℕ
div_ceil a b = (a + b - 1) / b

pub record PirSetup : Type 0 where
  pub seed : List ℕ
  pub hint : List ℕ
  pub r : ℕ
  pub c : ℕ
  pub n : ℕ

-- `y_row[kk] += m_val * x_row[kk]`, wrapping.
unfoldable pub add_cell : ℕ → List ℕ → ℕ → List ℕ → Option (List ℕ)
add_cell m_val x_row kk y_row = do
  y ← get_elem? y_row kk
  x ← get_elem? x_row kk
  some (set y_row kk (wrapping_add64 y (wrapping_mul64 m_val x)))

unfoldable pub add_row : List ℕ → List ℕ → ℕ → ℕ → List ℕ → Option (List ℕ)
add_row m_row x k j y_row = do
  m_val ← get_elem? m_row j
  x_row ← slice x (j * k) ((j + 1) * k)
  for_loop k (add_cell m_val x_row) y_row

unfoldable pub mat_mul_row : List ℕ → ℕ → List ℕ → ℕ → ℕ → Option (List ℕ)
mat_mul_row m c x k i = do
  m_row ← slice m (i * c) ((i + 1) * c)
  for_loop c (add_row m_row x k) (replicate k 0)

-- The last assertion is that of `par_chunks_mut(k)`.
unfoldable pub mat_mul_u64 : List ℕ → ℕ → ℕ → List ℕ → ℕ → Option (List ℕ)
mat_mul_u64 m r c x k = do
  assert (length m == r * c)
  assert (length x == c * k)
  assert (not (k == 0))
  collect_flat r (mat_mul_row m c x k)

unfoldable pub answer_row : List ℕ → ℕ → List ℕ → ℕ → Option ℕ
answer_row m_db c ct i = do row ← slice m_db (i * c) ((i + 1) * c); wrapping_dot row ct

unfoldable pub server_answer : List ℕ → ℕ → ℕ → List ℕ → Option (List ℕ)
server_answer m_db r c ct = do
  assert (length m_db == r * c)
  assert (length ct == c)
  collect r (answer_row m_db c ct)

unfoldable pub client_recover : Params → List ℕ → PirSetup → List ℕ → Option (List ℕ)
client_recover params ans setup secret = do
  assert (length ans == setup.r)
  assert (length secret == setup.n)
  h_s ← compute_a_s setup.hint secret setup.r
  decrypt_vec params ans h_s

module _ (g : Rng) where
  open g use {State, from_seed, next_u64}

  abbrev pub expand_step : ℕ → List ℕ × State → Option (List ℕ × State)
  expand_step i (a, s) = some (a ++ (next_u64 s).0 ∷ [], (next_u64 s).1)

  unfoldable pub expand_a : List ℕ → ℕ → ℕ → Option (List ℕ)
  expand_a seed c n = do (a, _) ← for_loop (c * n) expand_step ([], from_seed seed); some a

  unfoldable pub preprocess : List ℕ → ℕ → ℕ → List ℕ → Params → Option PirSetup
  preprocess m_db r c seed params = do
    assert (length m_db == r * c)
    a ← expand_a seed c params.n
    hint ← mat_mul_u64 m_db r c a params.n
    some (record { seed = seed; hint = hint; r = r; c = c; n = params.n })

  -- `set_word_pos` seeks in the stream of the generator, by words of 32 bits.
  module _ (set_word_pos : State → ℕ → State) where
    unfoldable pub mask_row : ℕ → List ℕ → ℕ → List ℕ × State → Option (List ℕ × State)
    mask_row n secret i (out, s) = do
      (row_buf, s') ← for_loop n expand_step ([], s)
      acc ← wrapping_dot row_buf secret
      some (out ++ acc ∷ [], s')

    -- One worker's rows of A · s.
    unfoldable pub mask_chunk : PirSetup → List ℕ → ℕ → ℕ → Option (List ℕ)
    mask_chunk setup secret chunk_rows chunk_idx = do
      let start = chunk_idx * chunk_rows
      let chunk_rng = set_word_pos (from_seed setup.seed) (start * setup.n * 2)
      (out_chunk, _) ←
          for_loop (min chunk_rows (setup.c - start)) (mask_row setup.n secret) ([], chunk_rng)
      some out_chunk

    -- `threads` is rayon's number of threads, at least one, and `noise` what `sample_gauss` draws.
    unfoldable pub encrypt_lhe : ℕ → PirSetup → List ℕ → List ℕ → Params → List ℕ → Option (List ℕ)
    encrypt_lhe threads setup secret query params noise = do
      assert (length query == setup.c)
      assert (length secret == setup.n)
      let chunk_rows = max (div_ceil setup.c (max threads 1)) 1
      a_s ← collect_flat (div_ceil setup.c chunk_rows) (mask_chunk setup secret chunk_rows)
      collect setup.c (encrypt_message params query noise a_s)
