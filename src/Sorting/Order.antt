-- ===== src/Sorting/Order.antt =====
-- What does not depend on the order of a list: its length, a test of all elements, and the result of
-- a flat map up to the order.
use mathlib.Core.List.{Perm, Permᴰ, Perm-prop, append_assoc, perm_append_comm}
use mathlib.Core.List.Perm
use mathlib.Core.Logic.{∥∥₁_elim}
use mathlib.Core.Bool.{Bool-set}
use native.Mathlib.Nat.{ℕ_set}
use secure_vector_search.Prelude.{
  suc, ◌≡◌, refl, ap, ◌∙◌, Bool, true, false, ◌&&◌, List, [], ◌++◌, length, all, concat_map,
}

and_swap : (a b c : Bool) → (a && (b && c)) ≡ (b && (a && c))
and_swap true true c = refl
and_swap true false c = refl
and_swap false true c = refl
and_swap false false c = refl

module _ {A : Type 0} where
  pub length-Perm : {xs ys : List A} → Perm xs ys → length xs ≡ length ys
  length-Perm {xs} {ys} p = ∥∥₁_elim p (ℕ_set (length xs) (length ys)) go
    where
      go : {us vs : List A} → Permᴰ us vs → length us ≡ length vs
      go Permᴰ.nil = refl
      go (Permᴰ.cons e d) = ap suc (go d)
      go (Permᴰ.swap e e') = refl
      go (Permᴰ.trans d d') = go d ∙ go d'

  pub all-Perm : (t : A → Bool) {xs ys : List A} → Perm xs ys → all t xs ≡ all t ys
  all-Perm t {xs} {ys} p = ∥∥₁_elim p (Bool-set (all t xs) (all t ys)) go
    where
      go : {us vs : List A} → Permᴰ us vs → all t us ≡ all t vs
      go Permᴰ.nil = refl
      go (Permᴰ.cons {a = a} e d) = rw (← e) (ap (λ (b : Bool). t a && b) (go d))
      go (Permᴰ.swap {a = a} {b = b} {l = l} e e') = rw (← e, ← e') (and_swap (t a) (t b) (all t l))
      go (Permᴰ.trans d d') = go d ∙ go d'

  pub concat_map-Perm :
      {B : Type 0} (f : A → List B) {xs ys : List A}
      → Perm xs ys
      → Perm (concat_map f xs) (concat_map f ys)
  concat_map-Perm {B} f {xs} {ys} p =
      ∥∥₁_elim p (Perm-prop {l₁ = concat_map f xs} {l₂ = concat_map f ys}) go
    where
      exchange : (us vs ws : List B) → Perm (us ++ (vs ++ ws)) (vs ++ (us ++ ws))
      exchange us vs ws =
          rw (← append_assoc us vs ws, ← append_assoc vs us ws)
            (Perm.append_right ws (perm_append_comm us vs))

      go : {us vs : List A} → Permᴰ us vs → Perm (concat_map f us) (concat_map f vs)
      go Permᴰ.nil = Perm.refl []
      go (Permᴰ.cons {a = a} e d) = rw (← e) (Perm.append_left (f a) (go d))
      go (Permᴰ.swap {a = a} {b = b} {l = l} e e') =
          rw (← e, ← e') (exchange (f a) (f b) (concat_map f l))
      go (Permᴰ.trans d d') = Perm.trans (go d) (go d')
