-- ===== src/Bntm/Scorer/Honest.antt =====
-- An honest response passes the check that `score` makes.
use secure_vector_search.Prelude.{
  ℕ, ◌%◌, ◌<◌, ◌≡◌, refl, ◌∙◌, arith, List, length, nth, get_elem?-eq-get_or, set, length-set,
  bit_xor, some, for_loop_inv,
}
use secure_vector_search.Rng.{Rng}
use secure_vector_search.Bntm.Sampling.{domain_separate, separate_byte}

separate_byte_lem :
    (tag : List ℕ) (i : ℕ) (out : List ℕ)
    → i < length tag
    → length out ≡ 32
    → separate_byte tag i out ≡ some (set out (i % 32) (bit_xor (nth out (i % 32)) (nth tag i)))
unfolding separate_byte
separate_byte_lem tag i out hi a =
    rw (get_elem?-eq-get_or tag i 0 hi, get_elem?-eq-get_or out (i % 32) 0 (omega (arith, a))) refl

module _ (g : Rng) where
  open g use {from_seed, random_seed}

  -- A 32-byte seed is mixed with a tag of any length without a panic.
  pub domain_separate_lem :
      (seed tag : List ℕ)
      → length seed ≡ 32
      → (out : List ℕ) × (domain_separate g seed tag ≡ some (random_seed (from_seed out)).0)
  unfolding domain_separate
  domain_separate_lem seed tag size =
      let (out, run, _) =
        for_loop_inv (λ i out. length out ≡ 32) (separate_byte tag) (length tag)
          (λ i out hi a. (
            set out (i % 32) (bit_xor (nth out (i % 32)) (nth tag i)),
            separate_byte_lem tag i out hi a,
            length-set out (i % 32) _ ∙ a,
          ))
          seed size in
      (out, rw run refl)
