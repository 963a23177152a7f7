-- ===== src/Alloc/Spec.antt =====
-- src/mem/ideal_alloc.c: an abstract account of the regions of one space, and the comparison of regions.
use mathlib.Core.List.{Perm}
use Prim.Native.Nat.{Ordering}
use gran.Prelude.{ℕ, ◌≡◌, ◌≤◌, ◌⊎◌, inl, inr, List, ◌∷◌, arith}
use gran.Alloc.{
  AllocIfRet, alloc_if_ok, alloc_if_err_range, alloc_if_new, alloc_if_rm, alloc_if_q, Region,
  region_cmp,
}

pub data AllocOp : Type 0 where
  op_new op_rm op_q : AllocOp

abbrev pub op_code : AllocOp → ℕ
op_code op_new = alloc_if_new
op_code op_rm = alloc_if_rm
op_code op_q = alloc_if_q

-- One of the two ranges lies inside the other.
abbrev pub IsNested : ℕ → ℕ → Region → Type 0
IsNested start end r = ((start ≤ r.start) × (r.end ≤ end)) ⊎ ((r.start ≤ start) × (end ≤ r.end))

-- The abstract allocator: what the answer to a request may be, and the regions of the space before and after
-- it. A new region is added or refused; a region nested with the given range is taken out, or the answer is an error; a
-- query gives a region that has the address in it, if its start is not after its end.
pub data Answers : AllocOp → ℕ → ℕ → List Region → AllocIfRet → ℕ → ℕ → List Region → Type 0 where
  allocated :
      (start end : ℕ) (before after : List Region)
      → Perm after (record { start = start; end = end } ∷ before)
      → Answers op_new start end before alloc_if_ok start end after
  not_allocated :
      (start end : ℕ) (before after : List Region)
      → after ≡ before
      → Answers op_new start end before alloc_if_err_range 0 0 after
  freed :
      (start end : ℕ) (r : Region) (before after : List Region)
      → IsNested start end r
      → Perm before (r ∷ after)
      → Answers op_rm start end before alloc_if_ok 0 0 after
  not_freed :
      (start end : ℕ) (before : List Region)
      → Answers op_rm start end before alloc_if_err_range 0 0 before
  found :
      (addr end : ℕ) (r : Region) (before others : List Region)
      → (r.start ≤ r.end → (r.start ≤ addr) × (addr ≤ r.end))
      → Perm before (r ∷ others)
      → Answers op_q addr end before alloc_if_ok r.start r.end before
  not_found :
      (addr end : ℕ) (before : List Region)
      → Answers op_q addr end before alloc_if_err_range 0 0 before

region_cmp-nested :
    (a b : Region) → region_cmp a b ≡ Ordering.eq → (a.start ≤ b.start) × (b.end ≤ a.end)
unfolding region_cmp
region_cmp-nested a b h = ground arith

pub hit-IsNested :
    (a r : Region)
    → (region_cmp a r ≡ Ordering.eq) ⊎ (region_cmp r a ≡ Ordering.eq)
    → IsNested a.start a.end r
hit-IsNested a r (inl h) = inl (region_cmp-nested a r h)
hit-IsNested a r (inr h) = inr (region_cmp-nested r a h)

pub nested_address :
    (addr : ℕ) (r : Region)
    → IsNested addr addr r
    → r.start ≤ r.end
    → (r.start ≤ addr) × (addr ≤ r.end)
nested_address addr r (inl (h, k)) l = (omega arith, omega arith)
nested_address addr r (inr h) l = h
