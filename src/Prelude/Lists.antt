-- ===== src/Prelude/Lists.antt =====
-- C arrays as lists, indexed by native numbers.
use Prim.Native.Nat.{ℕ, zero, suc, ◌+◌, ◌<◌}
use mathlib.Core.Path.{◌≡◌, refl, ap}
use mathlib.Core.Logic.{◌≢◌, ◌⊎◌, inl, inr}
use mathlib.Core.List.{List, [], ◌∷◌, ◌++◌, map}
use mathlib.Core.Option.{Option, none, some}
use native.Mathlib.Omega.{arith}

module _ {ℓ} {A : Type ℓ} where
  abbrev pub length : List A → ℕ
  length [] = 0
  length (x ∷ xs) = suc (length xs)

  -- `none` is a read out of range.
  abbrev pub get_elem? : List A → ℕ → Option A
  get_elem? [] i = none
  get_elem? (x ∷ xs) zero = some x
  get_elem? (x ∷ xs) (suc i) = get_elem? xs i

  abbrev pub set : List A → ℕ → A → List A
  set [] i v = []
  set (x ∷ xs) zero v = v ∷ xs
  set (x ∷ xs) (suc i) v = x ∷ set xs i v

  -- `calloc`: `n` equal entries.
  abbrev pub replicate : ℕ → A → List A
  replicate zero a = []
  replicate (suc n) a = a ∷ replicate n a

  pub length-set : (xs : List A) (i : ℕ) (v : A) → length (set xs i v) ≡ length xs
  length-set [] i v = refl
  length-set (x ∷ xs) zero v = refl
  length-set (x ∷ xs) (suc i) v = ap suc (length-set xs i v)

  pub get_elem?-middle :
      (xs ys : List A) (y : A) (i : ℕ) → length xs ≡ i → get_elem? (xs ++ y ∷ ys) i ≡ some y
  get_elem?-middle [] ys y zero h = refl
  get_elem?-middle [] ys y (suc i) h = absurd (omega (arith, h))
  get_elem?-middle (x ∷ xs) ys y zero h = absurd (omega (arith, h))
  get_elem?-middle (x ∷ xs) ys y (suc i) h = get_elem?-middle xs ys y i (omega (arith, h))

  pub set-middle :
      (xs ys : List A) (y z : A) (i : ℕ) → length xs ≡ i → set (xs ++ y ∷ ys) i z ≡ xs ++ z ∷ ys
  set-middle [] ys y z zero h = refl
  set-middle [] ys y z (suc i) h = absurd (omega (arith, h))
  set-middle (x ∷ xs) ys y z zero h = absurd (omega (arith, h))
  set-middle (x ∷ xs) ys y z (suc i) h =
      ap (λ zs. x ∷ zs) (set-middle xs ys y z i (omega (arith, h)))

  pub set-set : (xs : List A) (i : ℕ) (v w : A) → set (set xs i v) i w ≡ set xs i w
  set-set [] i v w = refl
  set-set (x ∷ xs) zero v w = refl
  set-set (x ∷ xs) (suc i) v w = ap (λ ys. x ∷ ys) (set-set xs i v w)

  pub length-append : (xs ys : List A) → length (xs ++ ys) ≡ length xs + length ys
  length-append [] ys = omega arith
  length-append (x ∷ xs) ys = omega (arith, length-append xs ys)

  pub length-replicate : (n : ℕ) (a : A) → length (replicate n a) ≡ n
  length-replicate zero a = refl
  length-replicate (suc n) a = ap suc (length-replicate n a)

  pub get_elem?-set_self :
      (xs : List A) (i : ℕ) (v : A) → i < length xs → get_elem? (set xs i v) i ≡ some v
  get_elem?-set_self [] i v h = absurd (omega arith)
  get_elem?-set_self (x ∷ xs) zero v h = refl
  get_elem?-set_self (x ∷ xs) (suc i) v h = get_elem?-set_self xs i v (omega arith)

  pub get_elem?-set_ne :
      (xs : List A) (i j : ℕ) (v : A) → i ≢ j → get_elem? (set xs i v) j ≡ get_elem? xs j
  get_elem?-set_ne [] i j v ne = refl
  get_elem?-set_ne (x ∷ xs) zero zero v ne = absurd (ne refl)
  get_elem?-set_ne (x ∷ xs) zero (suc j) v ne = refl
  get_elem?-set_ne (x ∷ xs) (suc i) zero v ne = refl
  get_elem?-set_ne (x ∷ xs) (suc i) (suc j) v ne = get_elem?-set_ne xs i j v (λ e. ne (ap suc e))

  -- What is read after a write is what was written or what was there.
  pub get_elem?-set_cases :
      (xs : List A) (i j : ℕ) (v a : A)
      → get_elem? (set xs i v) j ≡ some a
      → ((i ≡ j) × (v ≡ a)) ⊎ (get_elem? xs j ≡ some a)
  get_elem?-set_cases [] i j v a e = inr e
  get_elem?-set_cases (x ∷ xs) zero zero v a e = inl (refl, cc)
  get_elem?-set_cases (x ∷ xs) zero (suc j) v a e = inr e
  get_elem?-set_cases (x ∷ xs) (suc i) zero v a e = inr e
  get_elem?-set_cases (x ∷ xs) (suc i) (suc j) v a e = elim (get_elem?-set_cases xs i j v a e) [
    | inl (p, q) ↦ inl (ap suc p, q)
    | inr p ↦ inr p
  ]

  -- A write of what is there changes nothing.
  pub set-get_elem? : (xs : List A) (i : ℕ) (a : A) → get_elem? xs i ≡ some a → set xs i a ≡ xs
  set-get_elem? [] i a e = refl
  set-get_elem? (x ∷ xs) zero a e = cc
  set-get_elem? (x ∷ xs) (suc i) a e = ap (◌∷◌ x) (set-get_elem? xs i a e)

  -- A read is in range exactly when it returns an entry.
  pub get_elem?-some : (xs : List A) (i : ℕ) → i < length xs → (a : A) × (get_elem? xs i ≡ some a)
  get_elem?-some [] i h = absurd (omega arith)
  get_elem?-some (x ∷ xs) zero h = (x, refl)
  get_elem?-some (x ∷ xs) (suc i) h = get_elem?-some xs i (omega arith)

  pub lt_of_get_elem? : (xs : List A) (i : ℕ) (a : A) → get_elem? xs i ≡ some a → i < length xs
  lt_of_get_elem? [] i a e = cc
  lt_of_get_elem? (x ∷ xs) zero a e = omega arith
  lt_of_get_elem? (x ∷ xs) (suc i) a e = omega (arith, lt_of_get_elem? xs i a e)

-- An array whose entries are the images of another's is its image.
pub get_elem?-map {ℓ} :
    {A : Type ℓ} (f : A → A) (xs ys : List A)
    → length ys ≡ length xs
    → ((i : ℕ) (a : A) → get_elem? xs i ≡ some a → get_elem? ys i ≡ some (f a))
    → ys ≡ map f xs
get_elem?-map f [] [] h k = refl
get_elem?-map f [] (y ∷ ys) h k = absurd (omega arith)
get_elem?-map f (x ∷ xs) [] h k = absurd (omega arith)
get_elem?-map f (x ∷ xs) (y ∷ ys) h k =
    let rest = get_elem?-map f xs ys (omega arith) (λ i a e. k (suc i) a e) in
    let head : some y ≡ some (f x) = k 0 x refl in cc

-- Every number of the list is below the bound.
abbrev pub AllBelow : ℕ → List ℕ → Type 0
AllBelow n [] = Unit {0}
AllBelow n (x ∷ xs) = (x < n) × AllBelow n xs

pub AllBelow-get_elem? :
    (n : ℕ) (xs : List ℕ) (i v : ℕ) → AllBelow n xs → get_elem? xs i ≡ some v → v < n
AllBelow-get_elem? n [] i v h e = cc
AllBelow-get_elem? n (x ∷ xs) zero v h e = let same : x ≡ v = cc in omega (arith, h.0, same)
AllBelow-get_elem? n (x ∷ xs) (suc i) v h e = AllBelow-get_elem? n xs i v h.1 e

pub set-AllBelow : (n : ℕ) (xs : List ℕ) (i v : ℕ) → AllBelow n xs → v < n → AllBelow n (set xs i v)
set-AllBelow n [] i v h k = tt
set-AllBelow n (x ∷ xs) zero v h k = (k, h.1)
set-AllBelow n (x ∷ xs) (suc i) v h k = (h.0, set-AllBelow n xs i v h.1 k)

pub replicate-AllBelow : (n m v : ℕ) → v < n → AllBelow n (replicate m v)
replicate-AllBelow n zero v h = tt
replicate-AllBelow n (suc m) v h = (h, replicate-AllBelow n m v h)
