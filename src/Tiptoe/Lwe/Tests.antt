-- ===== src/Tiptoe/Lwe/Tests.antt =====
-- A small instance: two messages, a secret of three entries, and noise of either sign.
use secure_vector_search.Prelude.{
  ℕ, zero, suc, ◌-◌, ◌^◌, ◌%◌, ◌≡◌, ◌<◌, refl, arith, inl, inr, nth, List, [], ◌∷◌, some, tabulate,
}
use secure_vector_search.Tiptoe.Lwe.{
  Params, delta, plaintext_modulus, compute_a_s, encrypt_vec, decrypt_vec,
}
use secure_vector_search.Tiptoe.Lwe.Round.{IsValid, IsSmall}
use secure_vector_search.Tiptoe.Lwe.Decrypt.{decrypt-encrypt}

abbrev tiny : Params
tiny = record { n = 3; log2_p = 17 }

abbrev public_matrix : List ℕ
public_matrix = 5 ∷ (2 ^ 64 - 1) ∷ 7 ∷ (2 ^ 63) ∷ 11 ∷ 13 ∷ []

abbrev ternary : List ℕ
ternary = 2 ∷ 0 ∷ 1 ∷ []

abbrev messages : List ℕ
messages = 9 ∷ 131073 ∷ []

abbrev noises : List ℕ
noises = 81920 ∷ (2 ^ 64 - 81920) ∷ []

tiny-IsValid : IsValid tiny
tiny-IsValid = (omega arith, omega arith)

noises-AreSmall : (i : ℕ) → i < 2 → IsSmall (delta tiny) (nth noises i)
unfolding delta
noises-AreSmall zero h = inl (omega arith)
noises-AreSmall (suc zero) h = inr (omega arith, omega arith)
noises-AreSmall (suc (suc i)) h = absurd (omega arith)

decrypt-encrypt_example :
    (a_s ct : List ℕ) × (compute_a_s public_matrix ternary 2 ≡ some a_s)
    × (encrypt_vec tiny ternary messages public_matrix noises ≡ some ct)
    × (decrypt_vec tiny ct a_s ≡ some (tabulate 2 (λ i. nth messages i % plaintext_modulus tiny)))
decrypt-encrypt_example =
    decrypt-encrypt tiny public_matrix ternary messages noises tiny-IsValid refl refl
      noises-AreSmall
