-- ===== src/Prelude/Order.antt =====
-- `std::cmp::Ordering` and the trait `Ord`, with the laws that the standard library asks of it.
use Prim.Native.Nat.{ℕ, compare, Ordering}
use Prim.Native.Nat.Ordering.{lt, eq, gt}
use mathlib.Core.Path.{◌≡◌, refl}
use mathlib.Core.Logic.{◌↔◌, ◌⊎◌, inl, inr}
use mathlib.Core.Bool.{Bool, true, false, ◌&&◌, ◌||◌}
use mathlib.Core.List.{List, [], ◌∷◌}
use native.Mathlib.Omega.{arith}
use exokephalos.Prelude.Lists.{In}

-- `Ordering::reverse`, `Ordering::then_with` and tests on an `Ordering`.
abbrev pub flip : Ordering → Ordering
flip lt = gt
flip eq = eq
flip gt = lt

abbrev pub then_with : Ordering → Ordering → Ordering
then_with eq second = second
then_with lt second = lt
then_with gt second = gt

abbrev pub is_eq : Ordering → Bool
is_eq eq = true
is_eq lt = false
is_eq gt = false

abbrev pub is_gt : Ordering → Bool
is_gt gt = true
is_gt lt = false
is_gt eq = false

pub Ordering-cases : (o : Ordering) → (o ≡ lt) ⊎ ((o ≡ eq) ⊎ (o ≡ gt))
Ordering-cases lt = inl refl
Ordering-cases eq = inr (inl refl)
Ordering-cases gt = inr (inr refl)

pub record IsTotal {ℓ} {K : Type ℓ} (order : K → K → Ordering) : Type ℓ where
  pub eq_of_order : (a b : K) → order a b ≡ eq → a ≡ b
  pub order_self : (a : K) → order a a ≡ eq
  pub order_flip : (a b : K) → order b a ≡ flip (order a b)
  pub order_trans : (a b c : K) → order a b ≡ lt → order b c ≡ lt → order a c ≡ lt

pub record Ord {ℓ} (K : Type ℓ) : Type ℓ where
  pub order : K → K → Ordering
  pub total : IsTotal order
  pub open total use *

pub nat-IsTotal : IsTotal compare
nat-IsTotal = ground arith

instance abbrev pub nat_ord : Ord ℕ
nat_ord = record { order = compare; total = nat-IsTotal }

module _ {ℓ} {K : Type ℓ} ⦃o : Ord K⦄ where
  -- `a == b` of a type whose `Eq` and `Ord` agree.
  abbrev pub same : K → K → Bool
  same a b = is_eq (o.order a b)

  pub same_iff : (a b : K) → (same a b ≡ true) ↔ (a ≡ b)
  same_iff a b = ground (arith, o.eq_of_order a b, o.order_self a)

  -- `Vec::contains`, and `BTreeSet::contains` as a scan.
  abbrev pub contains : List K → K → Bool
  contains [] a = false
  contains (x ∷ xs) a = same a x || contains xs a

  -- `BTreeSet::is_subset`, and `all` of its tests in `query`.
  abbrev pub contains_all : List K → List K → Bool
  contains_all [] xs = true
  contains_all (a ∷ wanted) xs = contains xs a && contains_all wanted xs

module _ {K : Type 0} ⦃o : Ord K⦄ where
  pub contains_iff : (xs : List K) (a : K) → (contains xs a ≡ true) ↔ In a xs
  contains_iff [] a = (λ h. cc, λ h. absurd h)
  contains_iff (x ∷ xs) a = ground (arith, contains_iff xs a, same_iff a x)

-- Sequences compare lexicographically, a proper prefix first.
module _ {ℓ} {K : Type ℓ} ⦃o : Ord K⦄ where
  unfoldable pub compare_lists : List K → List K → Ordering
  compare_lists [] [] = eq
  compare_lists [] (y ∷ ys) = lt
  compare_lists (x ∷ xs) [] = gt
  compare_lists (x ∷ xs) (y ∷ ys) = then_with (o.order x y) (compare_lists xs ys)

  lists_eq : (xs ys : List K) → compare_lists xs ys ≡ eq → xs ≡ ys
  unfolding compare_lists
  lists_eq [] [] h = refl
  lists_eq [] (y ∷ ys) h = cc
  lists_eq (x ∷ xs) [] h = cc
  lists_eq (x ∷ xs) (y ∷ ys) h = ground (arith, lists_eq xs ys, o.eq_of_order x y)

  lists_self : (xs : List K) → compare_lists xs xs ≡ eq
  unfolding compare_lists
  lists_self [] = refl
  lists_self (x ∷ xs) = ground (arith, lists_self xs, o.order_self x)

  lists_flip : (xs ys : List K) → compare_lists ys xs ≡ flip (compare_lists xs ys)
  unfolding compare_lists
  lists_flip [] [] = refl
  lists_flip [] (y ∷ ys) = refl
  lists_flip (x ∷ xs) [] = refl
  lists_flip (x ∷ xs) (y ∷ ys) = ground (arith, lists_flip xs ys, o.order_flip x y)

  lists_trans :
      (xs ys zs : List K)
      → compare_lists xs ys ≡ lt
      → compare_lists ys zs ≡ lt
      → compare_lists xs zs ≡ lt
  unfolding compare_lists
  lists_trans [] (y ∷ ys) (z ∷ zs) h k = refl
  lists_trans (x ∷ xs) (y ∷ ys) (z ∷ zs) h k = ground (
    arith,
    lists_trans xs ys zs,
    o.order_trans x y z,
    o.eq_of_order x y,
    o.eq_of_order y z,
    o.order_self x,
  )
  lists_trans [] [] zs h k = cc
  lists_trans [] (y ∷ ys) [] h k = cc
  lists_trans (x ∷ xs) [] zs h k = cc
  lists_trans (x ∷ xs) (y ∷ ys) [] h k = cc

  pub lists-IsTotal : IsTotal {K = List K} compare_lists
  lists-IsTotal = record {
    eq_of_order = lists_eq;
    order_self = lists_self;
    order_flip = lists_flip;
    order_trans = lists_trans;
  }

  instance abbrev pub list_ord : Ord (List K)
  list_ord = record { order = compare_lists; total = lists-IsTotal }

-- Tuples compare lexicographically too.
module _ {ℓ κ} {A : Type ℓ} {B : Type κ} ⦃a : Ord A⦄ ⦃b : Ord B⦄ where
  abbrev pub compare_pairs : A × B → A × B → Ordering
  compare_pairs x y = then_with (a.order x.0 y.0) (b.order x.1 y.1)

  pub pairs-IsTotal : IsTotal {K = A × B} compare_pairs
  pairs-IsTotal = record {
    eq_of_order = λ x y. ground (arith, a.eq_of_order x.0 y.0, b.eq_of_order x.1 y.1);
    order_self = λ x. ground (arith, a.order_self x.0, b.order_self x.1);
    order_flip = λ x y. ground (arith, a.order_flip x.0 y.0, b.order_flip x.1 y.1);
    order_trans = λ x y z. ground (
      arith,
      a.order_trans x.0 y.0 z.0,
      b.order_trans x.1 y.1 z.1,
      a.eq_of_order x.0 y.0,
      a.eq_of_order y.0 z.0,
      a.order_self x.0,
    );
  }

  instance abbrev pub pair_ord : Ord (A × B)
  pair_ord = record { order = compare_pairs; total = pairs-IsTotal }
