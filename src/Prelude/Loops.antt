-- ===== src/Prelude/Loops.antt =====
-- Code that may panic, counted loops, and the collecting of a range.
--
-- `none` is a panic: an index or a slice out of range. `for_loop n body s` is
-- `for i in 0..n { body }` over the loop's variables `s`, and `collect n f` is
-- `(0..n).map(f).collect()`; rayon's parallel forms give the same list.
use Prim.Native.Nat.{ℕ, zero, suc, ◌+◌, ◌-◌, ◌*◌, ◌≤◌, ◌<◌}
use mathlib.Core.Path.{◌≡◌, refl, ap, sym, ◌∙◌}
use mathlib.Core.Logic.{inl, inr}
use mathlib.Core.Bool.{Bool, true, false, ◌&&◌}
use mathlib.Core.List.{List, [], ◌∷◌, ◌++◌, map}
use mathlib.Core.Option.{Option, none, some}
use native.Mathlib.Omega.{arith}
use secure_vector_search.Prelude.Tests.{ltb, leb, if◌then◌else◌, Bool-cases}
use secure_vector_search.Prelude.Lists.{
  length, get_or, take, drop, length-append, length-take, length-drop, get_or-append_left,
  get_or-append_last, get_or-drop, get_or-take, get_or_ext,
}

infixl 5 ◌>>=◌ ◌>>◌
abbrev pub ◌>>=◌ {ℓ κ} : {A : Type ℓ} {B : Type κ} → Option A → (A → Option B) → Option B
none >>= f = none
some a >>= f = f a

abbrev pub ◌>>◌ {ℓ} : {B : Type ℓ} → Option (Unit {0}) → Option B → Option B
m >> k = m >>= λ _. k

abbrev pub assert : Bool → Option (Unit {0})
assert true = some tt
assert false = none

unfoldable pub for_loop {ℓ} : {S : Type ℓ} → ℕ → (ℕ → S → Option S) → S → Option S
for_loop zero body s = some s
for_loop (suc n) body s = for_loop n body s >>= body n

unfoldable pub collect {ℓ} : {A : Type ℓ} → ℕ → (ℕ → Option A) → Option (List A)
collect zero f = some []
collect (suc n) f = do xs ← collect n f; x ← f n; some (xs ++ x ∷ [])

-- `&xs[lo..hi]`
abbrev pub slice {ℓ} : {A : Type ℓ} → List A → ℕ → ℕ → Option (List A)
slice xs lo hi =
    if leb lo hi && leb hi (length xs) then some (take (hi - lo) (drop lo xs)) else none

module _ {ℓ} {A : Type ℓ} where
  unfoldable pub tabulate : ℕ → (ℕ → A) → List A
  tabulate zero f = []
  tabulate (suc n) f = tabulate n f ++ f n ∷ []

  pub length-tabulate : (n : ℕ) (f : ℕ → A) → length (tabulate n f) ≡ n
  unfolding tabulate
  length-tabulate zero f = refl
  length-tabulate (suc n) f =
      omega (arith, length-append (tabulate n f) (f n ∷ []), length-tabulate n f)

  pub get_or-tabulate :
      (n : ℕ) (f : ℕ → A) (i : ℕ) (d : A) → i < n → get_or (tabulate n f) i d ≡ f i
  unfolding tabulate
  get_or-tabulate zero f i d h = absurd (omega arith)
  get_or-tabulate (suc n) f i d h = elim (Bool-cases (ltb i n)) [
    | inl e ↦
        get_or-append_left (tabulate n f) (f n ∷ []) i d (ground (arith, length-tabulate n f))
        ∙ get_or-tabulate n f i d (ground arith)
    | inr e ↦
        let last : i ≡ n = ground arith in
        get_or-append_last (tabulate n f) (f n) d i (last ∙ omega (arith, length-tabulate n f))
        ∙ ap f (omega arith)
  ]

  pub tabulate_congr :
      (n : ℕ) (f g : ℕ → A) → ((i : ℕ) → i < n → f i ≡ g i) → tabulate n f ≡ tabulate n g
  unfolding tabulate
  tabulate_congr zero f g h = refl
  tabulate_congr (suc n) f g h =
      rw (tabulate_congr n f g (λ i l. h i (omega arith)), h n (omega arith))

  -- If no element panics, `collect` gives their list.
  pub collect-tabulate :
      (n : ℕ) (f : ℕ → Option A) (g : ℕ → A)
      → ((i : ℕ) → i < n → f i ≡ some (g i))
      → collect n f ≡ some (tabulate n g)
  unfolding collect tabulate
  collect-tabulate zero f g h = refl
  collect-tabulate (suc n) f g h =
      rw (collect-tabulate n f g (λ i l. h i (omega arith)), h n (omega arith))

  pub tabulate-get_or : (xs : List A) (d : A) → tabulate (length xs) (λ i. get_or xs i d) ≡ xs
  tabulate-get_or xs d =
      get_or_ext d (tabulate (length xs) (λ i. get_or xs i d)) xs
        (length-tabulate (length xs) (λ i. get_or xs i d))
        (λ i h.
          get_or-tabulate (length xs) (λ j. get_or xs j d) i d
            (omega (arith, length-tabulate (length xs) (λ j. get_or xs j d))))

-- The loop rule: an invariant that every round keeps, and that no round panics under.
unfoldable pub for_loop_inv {ℓ κ} :
    {S : Type ℓ} (P : ℕ → S → Type κ) (body : ℕ → S → Option S) (n : ℕ)
    → ((i : ℕ) (s : S) → i < n → P i s → (t : S) × (body i s ≡ some t) × P (suc i) t)
    → (s : S) → P 0 s
    → (t : S) × (for_loop n body s ≡ some t) × P n t
unfolding for_loop
for_loop_inv P body zero keep s h = (s, refl, h)
for_loop_inv P body (suc n) keep s h =
    let (t, e, p) = for_loop_inv P body n (λ i u l. keep i u (omega arith)) s h in
    let (u, e', p') = keep n t (omega arith) p in (u, rw (e, e'), p')

-- A slice of `n` elements from `lo`, in range.
pub slice_lem {ℓ} :
    {A : Type ℓ} (xs : List A) (lo hi n : ℕ)
    → lo + n ≡ hi
    → hi ≤ length xs
    → slice xs lo hi ≡ some (take n (drop lo xs))
slice_lem xs lo hi n e h =
    let en : hi - lo ≡ n = omega arith in
    let t : (leb lo hi && leb hi (length xs)) ≡ true = ground arith in rw (t, en)

pub get_or-take-drop {ℓ} :
    {A : Type ℓ} (xs : List A) (lo n i : ℕ) (d : A)
    → i < n
    → get_or (take n (drop lo xs)) i d ≡ get_or xs (lo + i) d
get_or-take-drop xs lo n i d h = get_or-take n (drop lo xs) i d h ∙ get_or-drop lo xs i d

pub length-take-drop {ℓ} :
    {A : Type ℓ} (xs : List A) (lo n : ℕ) → lo + n ≤ length xs → length (take n (drop lo xs)) ≡ n
length-take-drop xs lo n h = omega (arith, length-take n (drop lo xs), length-drop lo xs)

-- `(0..m).flat_map(f).collect()`
unfoldable pub collect_flat {ℓ} : {A : Type ℓ} → ℕ → (ℕ → Option (List A)) → Option (List A)
collect_flat zero f = some []
collect_flat (suc m) f = do xs ← collect_flat m f; ys ← f m; some (xs ++ ys)

module _ {ℓ} {A : Type ℓ} where
  -- The row-major list of an `m` by `n` table.
  unfoldable pub grid : ℕ → ℕ → (ℕ → ℕ → A) → List A
  grid zero n f = []
  grid (suc m) n f = grid m n f ++ tabulate n (f m)

  pub collect_flat-grid :
      (m n : ℕ) (g : ℕ → Option (List A)) (f : ℕ → ℕ → A)
      → ((i : ℕ) → i < m → g i ≡ some (tabulate n (f i)))
      → collect_flat m g ≡ some (grid m n f)
  unfolding collect_flat grid
  collect_flat-grid zero n g f h = refl
  collect_flat-grid (suc m) n g f h =
      rw (collect_flat-grid m n g f (λ i l. h i (omega arith)), h m (omega arith))

  pub length-grid : (m n : ℕ) (f : ℕ → ℕ → A) → length (grid m n f) ≡ m * n
  unfolding grid
  length-grid zero n f = omega arith
  length-grid (suc m) n f = omega (
    arith,
    length-append (grid m n f) (tabulate n (f m)),
    length-grid m n f,
    length-tabulate n (f m),
  )

  pub get_or-append_right :
      (xs ys : List A) (i : ℕ) (d : A) → get_or (xs ++ ys) (length xs + i) d ≡ get_or ys i d
  get_or-append_right [] ys i d = ap (λ (k : ℕ). get_or ys k d) {x = 0 + i} {y = i} (omega arith)
  get_or-append_right (x ∷ xs) ys i d =
      ap (λ (k : ℕ). get_or (x ∷ (xs ++ ys)) k d) {x = suc (length xs) + i}
        {y = suc (length xs + i)} (omega arith)
      ∙ get_or-append_right xs ys i d

  pub get_or-grid :
      (m n : ℕ) (f : ℕ → ℕ → A) (i j : ℕ) (d : A)
      → i < m
      → j < n
      → get_or (grid m n f) (i * n + j) d ≡ f i j
  unfolding grid
  get_or-grid zero n f i j d hi hj = absurd (omega arith)
  get_or-grid (suc m) n f i j d hi hj = elim (Bool-cases (ltb i m)) [
    | inl e ↦
        get_or-append_left (grid m n f) (tabulate n (f m)) (i * n + j) d
          (omega (arith, length-grid m n f, inside (ground arith)))
        ∙ get_or-grid m n f i j d (ground arith) hj
    | inr e ↦
        let last : i ≡ m = ground arith in
        ap (λ (k : ℕ). get_or (grid m n f ++ tabulate n (f m)) k d)
          (omega (arith, length-grid m n f, ap (λ (k : ℕ). k * n) last))
        ∙ get_or-append_right (grid m n f) (tabulate n (f m)) j d
        ∙ get_or-tabulate n (f m) j d hj
        ∙ ap (λ (k : ℕ). f k j) (sym last)
  ]
    where
      inside : i < m → i * n + j < m * n
      inside h = grind arith

pub bind_assoc {ℓ κ μ} :
    {A : Type ℓ} {B : Type κ} {C : Type μ} (o : Option A) (f : A → Option B) (h : B → Option C)
    → (o >>= λ a. f a >>= h) ≡ (o >>= f >>= h)
bind_assoc none f h = refl
bind_assoc (some a) f h = refl

pub map-append {ℓ κ} :
    {A : Type ℓ} {B : Type κ} (h : A → B) (xs ys : List A) → map h (xs ++ ys) ≡ map h xs ++ map h ys
map-append h [] ys = refl
map-append h (x ∷ xs) ys = rw (map-append h xs ys) refl

pub map-tabulate {ℓ κ} :
    {A : Type ℓ} {B : Type κ} (n : ℕ) (f : ℕ → A) (h : A → B)
    → map h (tabulate n f) ≡ tabulate n (λ i. h (f i))
unfolding tabulate
map-tabulate zero f h = refl
map-tabulate (suc n) f h = rw (map-append h (tabulate n f) (f n ∷ []), map-tabulate n f h) refl
