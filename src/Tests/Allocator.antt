-- ===== src/Tests/Allocator.antt =====
-- The allocator at a concrete input, with its trees and its vector as lists.
use Prim.Native.Nat.{Ordering}
use mathlib.Core.List.{Perm}
use mathlib.Core.List.Perm
use gran.Prelude.{
  ℕ, ◌≡◌, inl, inr, Bool, true, false, Option, none, some, List, [], ◌∷◌, ◌++◌, arith, refl, sym,
  ap, ap₂, ◌∙◌, if◌then◌else◌, replicate, Bool-cases, some_inj, none≢some, subst,
}
use gran.Packet.{Packet, store_le, load_le}
use gran.Component.{ok, send}
use gran.Reg.{empty_reg}
use gran.Vec.{list_vec}
use gran.Tree.{TreeOps}
use gran.Alloc.{Region, region_cmp, is_same, Alloc, alloc_clock}
use gran.Alloc.Spec.{op_q}
use gran.Alloc.Answer.{Serves, alloc_clock-Serves}
use gran.Tests.Setup.{mailbox, letter}

abbrev is_eq : Ordering → Bool
is_eq Ordering.eq = true
is_eq Ordering.lt = false
is_eq Ordering.gt = false

is_eq-true : (o : Ordering) → is_eq o ≡ true → o ≡ Ordering.eq
is_eq-true Ordering.eq h = refl
is_eq-true Ordering.lt h = cc
is_eq-true Ordering.gt h = cc

abbrev find_first : List Region → Region → Option Region
find_first [] a = none
find_first (r ∷ rs) a = if is_eq (region_cmp r a) then some r else find_first rs a

abbrev erase_first : List Region → Region → List Region
erase_first [] a = []
erase_first (r ∷ rs) a = if is_same r a then rs else r ∷ erase_first rs a

is_same_refl : (a : Region) → is_same a a ≡ true
is_same_refl a = ground arith

is_same-eq : (a b : Region) → is_same a b ≡ true → a ≡ b
is_same-eq a b h =
    let s : a.start ≡ b.start = ground arith in
    let e : a.end ≡ b.end = ground arith in ap₂ region s e
  where
    region : ℕ → ℕ → Region
    region x y = record { start = x; end = y }

find_first-eq :
    (rs : List Region) (a b : Region) → find_first rs a ≡ some b → region_cmp b a ≡ Ordering.eq
find_first-eq [] a b h = cc
find_first-eq (r ∷ rs) a b h = elim (Bool-cases (is_eq (region_cmp r a))) [
  | inl hit ↦
      let same : r ≡ b = some_inj (rw hit at h) in
      ap (λ (t : Region). region_cmp t a) (sym same) ∙ is_eq-true (region_cmp r a) hit
  | inr miss ↦ find_first-eq rs a b (rw miss at h)
]

find_first-Perm :
    (rs : List Region) (a b : Region) → find_first rs a ≡ some b → Perm rs (b ∷ erase_first rs b)
find_first-Perm [] a b h = cc
find_first-Perm (r ∷ rs) a b h = elim (Bool-cases (is_same r b)) [
  | inl here ↦ rw (here, is_same-eq r b here) (Perm.refl (b ∷ rs))
  | inr elsewhere ↦ elim (Bool-cases (is_eq (region_cmp r a))) [
    | inl hit ↦
        let same : r ≡ b = some_inj (rw hit at h) in
        let is : is_same r b ≡ true =
          ap (λ (t : Region). is_same r t) (sym same) ∙ is_same_refl r in
        cc
    | inr miss ↦ rw elsewhere (
        Perm.trans (Perm.cons r (find_first-Perm rs a b (rw miss at h)))
          (Perm.swap b r (erase_first rs b)))
  ]
]

inserted_one :
    (t t' : List Region) (a b : Region)
    → ◌≡◌ {A = Option Region × List Region} (some a, a ∷ t) (some b, t')
    → Perm t' (a ∷ t)
inserted_one t t' a b h =
    subst (λ (l : List Region). Perm l (a ∷ t)) (ap (λ o. o.1) h) (Perm.refl (a ∷ t))

abbrev list_tree : TreeOps Region region_cmp
list_tree = record {
  Tree = List Region;
  create = [];
  insert = λ t a. (some a, a ∷ t);
  find = find_first;
  remove = erase_first;
  items = λ t. t;
  items-create = refl;
  items-insert_some = λ t t' a b h. inserted_one t t' a b h;
  items-insert_none = λ t t' a h. absurd (none≢some (sym (ap (λ o. o.0) h)));
  find-eq = λ t a b h. inr (find_first-eq t a b h);
  items-remove = find_first-Perm;
}

-- A query for the address 5000 in the space 0, which has one region.
abbrev a_region : Region
a_region = record { start = 4096; end = 8191 }

abbrev a_query : Packet
a_query = record (letter 128) {
  from = 64;
  payload = store_le 8 0 ++ store_le 8 5000 ++ replicate 48 0;
}

abbrev an_alloc : Alloc list_tree (list_vec (List Region))
an_alloc = record {
  spaces = (a_region ∷ []) ∷ [];
  max_spaces = 1;
  in_reg = record { pkt = a_query; busy = true };
  out_reg = empty_reg;
  send_to = some 3;
}

alloc_clock-Serves_example :
    Serves list_tree
      (list_vec (List Region))
      mailbox
      an_alloc
      op_q
      5000
      0
      0
      (a_region ∷ [])
      9
      []
      (alloc_clock list_tree (list_vec (List Region)) mailbox 9 an_alloc [])
unfolding store_le load_le send
alloc_clock-Serves_example =
    alloc_clock-Serves list_tree (list_vec (List Region)) mailbox 9 an_alloc op_q 5000 0 0
      (a_region ∷ []) [] refl refl refl refl refl refl refl (omega arith) refl
      (λ pkt. ((ok, pkt ∷ []), refl))
