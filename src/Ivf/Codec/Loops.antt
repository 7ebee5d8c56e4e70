-- ===== src/Ivf/Codec/Loops.antt =====
-- What the loops of the file format write, and that they read it back, whatever follows.
use secure_vector_search.Prelude.{
  ℕ, zero, suc, ◌≤◌, ◌≡◌, refl, ap, sym, ◌∙◌, arith, leb, true, Bool-cases, inl, inr, List, [], ◌∷◌,
  concat_map, ◌++◌, length, take, drop, length-append, Result, ok, err, and_then,
}
use mathlib.Core.List.{append_assoc, append-nil}
use secure_vector_search.Core.Cache.{read_exact}
use secure_vector_search.Ivf.Codec.{write_each, read_each, Read}

-- The file in memory.
abbrev pub append_to : List ℕ → List ℕ → Result (Unit {0}) (List ℕ)
append_to bytes file = ok (file ++ bytes)

module _ {ℓ} {A : Type ℓ} where
  -- `write` appends what `enc` says.
  abbrev pub Appends : (A → List ℕ → Result (Unit {0}) (List ℕ)) → (A → List ℕ) → Type ℓ
  Appends write enc = (x : A) (file : List ℕ) → write x file ≡ ok (file ++ enc x)

  pub write_each-Appends :
      (write : A → List ℕ → Result (Unit {0}) (List ℕ)) (enc : A → List ℕ)
      → Appends write enc
      → (xs : List A) (file : List ℕ) → write_each write xs file ≡ ok (file ++ concat_map enc xs)
  unfolding write_each
  write_each-Appends write enc h [] file = rw (append-nil file) refl
  write_each-Appends write enc h (x ∷ xs) file = rw (h x file) (
      write_each-Appends write enc h xs (file ++ enc x)
      ∙ ap ok (append_assoc file (enc x) (concat_map enc xs)))

  -- `read` reads `x` back from what `enc` writes, and leaves the rest.
  abbrev pub Reads : Read A → (A → List ℕ) → A → Type ℓ
  Reads read enc x = (rest : List ℕ) → read (enc x ++ rest) ≡ ok (x, rest)

  abbrev pub AllRead : Read A → (A → List ℕ) → List A → Type ℓ
  AllRead read enc [] = Unit
  AllRead read enc (x ∷ xs) = Reads read enc x × AllRead read enc xs

  pub read_each-Reads :
      (read : Read A) (enc : A → List ℕ) (xs : List A)
      → AllRead read enc xs
      → (rest : List ℕ) → read_each read (length xs) (concat_map enc xs ++ rest) ≡ ok (xs, rest)
  unfolding read_each
  read_each-Reads read enc [] h rest = refl
  read_each-Reads read enc (x ∷ xs) h rest =
      rw
        (
          append_assoc (enc x) (concat_map enc xs) rest,
          h.0 (concat_map enc xs ++ rest),
          read_each-Reads read enc xs h.1 rest,
        )
        refl

  -- What a reader returns does not change when more bytes follow.
  abbrev pub IsMonotone : Read A → Type ℓ
  IsMonotone read =
      (front more : List ℕ) (x : A) (rest : List ℕ)
      → read front ≡ ok (x, rest)
      → read (front ++ more) ≡ ok (x, rest ++ more)

pub take-append_prefix : (xs ys : List ℕ) (n : ℕ) → n ≤ length xs → take n (xs ++ ys) ≡ take n xs
take-append_prefix xs ys zero h = refl
take-append_prefix [] ys (suc n) h = absurd (omega arith)
take-append_prefix (x ∷ xs) ys (suc n) h =
    ap (λ (zs : List ℕ). x ∷ zs) (take-append_prefix xs ys n (omega arith))

pub drop-append_prefix :
    (xs ys : List ℕ) (n : ℕ) → n ≤ length xs → drop n (xs ++ ys) ≡ drop n xs ++ ys
drop-append_prefix xs ys zero h = refl
drop-append_prefix [] ys (suc n) h = absurd (omega arith)
drop-append_prefix (x ∷ xs) ys (suc n) h = drop-append_prefix xs ys n (omega arith)

take_all : (xs : List ℕ) → take (length xs) xs ≡ xs
take_all [] = refl
take_all (x ∷ xs) = ap (λ (zs : List ℕ). x ∷ zs) (take_all xs)

drop_all : (xs : List ℕ) → drop (length xs) xs ≡ []
drop_all [] = refl
drop_all (x ∷ xs) = drop_all xs

-- A read of exactly the bytes that stand in front.
pub read_exact-append :
    (n : ℕ) (bytes rest : List ℕ)
    → length bytes ≡ n
    → read_exact n (bytes ++ rest) ≡ ok (bytes, rest)
read_exact-append n bytes rest e =
    let enough : leb n (length (bytes ++ rest)) ≡ true = ground (arith, length-append bytes rest) in
    rw
      (
        enough,
        sym e,
        take-append_prefix bytes rest (length bytes) (omega arith),
        drop-append_prefix bytes rest (length bytes) (omega arith),
        take_all bytes,
        drop_all bytes,
      )
      refl

pub read_exact-IsMonotone : (n : ℕ) → IsMonotone (read_exact n)
read_exact-IsMonotone n front more x rest e = elim (Bool-cases (leb n (length front))) [
  | inl enough ↦
      let enough' : leb n (length (front ++ more)) ≡ true =
        ground (arith, length-append front more) in
      let fits : n ≤ length front = ground arith in
      let e' : ◌≡◌ {A = Result (Unit {0}) (List ℕ × List ℕ)} (ok (take n front, drop n front))
          (ok (x, rest)) =
        rw enough at e in
      rw (enough', take-append_prefix front more n fits, drop-append_prefix front more n fits) (cc)
  | inr short ↦ absurd (ground (arith, e))
]

pub and_then-eq-ok {ℓ κ μ} :
    {E : Type ℓ} {A : Type κ} {B : Type μ} (r : Result E A) (f : A → Result E B) (b : B)
    → and_then r f ≡ ok b
    → (a : A) × (r ≡ ok a) × (f a ≡ ok b)
and_then-eq-ok (ok a) f b h = (a, refl, h)
and_then-eq-ok (err e) f b h = cc

pub and_then-IsMonotone {ℓ κ} :
    {A : Type ℓ} {B : Type κ} (read : Read A) (next : A → Read B)
    → IsMonotone read
    → ((x : A) → IsMonotone (next x))
    → IsMonotone (λ file. and_then (read file) (λ (x, rest). next x rest))
and_then-IsMonotone {B = B} read next h k front more y rest e =
    let ((x, mid), e1, e2) =
      and_then-eq-ok {B = B × List ℕ} (read front) (λ (x, r). next x r) (y, rest) e in
    rw (h front more x mid e1) (k x mid more y rest e2)

pub pure-IsMonotone {ℓ} : {A : Type ℓ} (x : A) → IsMonotone (λ file. ok (x, file))
pure-IsMonotone x front more y rest e = cc

pub read_each-IsMonotone {ℓ} :
    {A : Type ℓ} (read : Read A) (n : ℕ) → IsMonotone read → IsMonotone (read_each read n)
unfolding read_each
read_each-IsMonotone {A = A} read zero h = pure-IsMonotone {A = List A} []
read_each-IsMonotone read (suc n) h =
    and_then-IsMonotone read
      (λ x file1. and_then (read_each read n file1) (λ (xs, file2). ok (x ∷ xs, file2))) h
      (λ x.
        and_then-IsMonotone (read_each read n) (λ xs file2. ok (x ∷ xs, file2))
          (read_each-IsMonotone read n h) (λ xs. pure-IsMonotone (x ∷ xs)))
