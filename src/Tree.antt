-- ===== src/Tree.antt =====
-- The ordered set `conts/sptree.h`, which is not part of this repository: a parameter of the
-- components that use it. `insert` and `find` give the element behind the pointer that they return, and
-- `none` for NULL; `remove` is `remove_found` with `free_found`. `cmp` is the
-- comparison `SPTREE_CMP`: less than, equal to or greater than 0.
use Prim.Native.Nat.{Ordering}
use mathlib.Core.List.{Perm}
use gran.Prelude.{◌≡◌, ◌⊎◌, Option, none, some, List, [], ◌∷◌}

pub record TreeOps (A : Type 0) (cmp : A → A → Ordering) : Type 1 where
  pub Tree : Type 0
  pub create : Tree
  pub insert : Tree → A → Option A × Tree
  pub find : Tree → A → Option A
  pub remove : Tree → A → Tree
  pub items : Tree → List A
  pub items-create : items create ≡ []
  pub items-insert_some :
      (t t' : Tree) (a b : A) → insert t a ≡ (some b, t') → Perm (items t') (a ∷ items t)
  pub items-insert_none : (t t' : Tree) (a : A) → insert t a ≡ (none, t') → items t' ≡ items t
  pub find-eq :
      (t : Tree) (a b : A) → find t a ≡ some b → (cmp a b ≡ Ordering.eq) ⊎ (cmp b a ≡ Ordering.eq)
  pub items-remove :
      (t : Tree) (a b : A) → find t a ≡ some b → Perm (items t) (b ∷ items (remove t b))
