-- ===== src/Vec.antt =====
-- The growing array `conts/vec.h`, which is not part of this repository: a parameter of the
-- components that use it. `items` is what a `foreach` visits, in its order; `at` is the pointer
-- that `vec_at` returns, read through, and `put` is a write through it.
use gran.Prelude.{ℕ, ◌≡◌, refl, Option, List, [], ◌∷◌, ◌++◌, length, get_elem?, set}

pub record VecOps (A : Type 0) : Type 1 where
  pub Vec : Type 0
  pub create : ℕ → Vec
  pub append : Vec → A → Vec
  pub items : Vec → List A
  pub len : Vec → ℕ
  pub at : Vec → ℕ → Option A
  pub put : Vec → ℕ → A → Vec
  pub items-create : (n : ℕ) → items (create n) ≡ []
  pub items-append : (v : Vec) (a : A) → items (append v a) ≡ items v ++ a ∷ []
  pub len-items : (v : Vec) → len v ≡ length (items v)
  pub at-items : (v : Vec) (i : ℕ) → at v i ≡ get_elem? (items v) i
  pub items-put : (v : Vec) (i : ℕ) (a : A) → items (put v i a) ≡ set (items v) i a

-- A list meets the interface.
abbrev pub list_vec : (A : Type 0) → VecOps A
list_vec A = record {
  Vec = List A;
  create = λ n. [];
  append = λ v a. v ++ a ∷ [];
  items = λ v. v;
  len = length;
  at = get_elem?;
  put = set;
  items-create = λ n. refl;
  items-append = λ v a. refl;
  len-items = λ v. refl;
  at-items = λ v i. refl;
  items-put = λ v i a. refl;
}
