-- ===== src/Prelude/Sort.antt =====
-- `slice::sort_by`: the stable sort, as insertion.
use Prim.Native.Nat.{Ordering}
use Prim.Native.Nat.Ordering.{gt}
use mathlib.Core.Path.{◌≡◌, refl}
use mathlib.Core.Logic.{◌↔◌, ◌⊎◌, inl}
use mathlib.Core.Bool.{false}
use mathlib.Core.Option.{some}
use mathlib.Core.List.{List, [], ◌∷◌}
use native.Mathlib.Omega.{arith}
use exokephalos.Prelude.Lists.{In, last?}
use exokephalos.Prelude.Order.{flip, is_gt}

-- What `sort_by` asks of its comparison.
pub record IsPreorder {ℓ} {A : Type ℓ} (cmp : A → A → Ordering) : Type ℓ where
  pub cmp_flip : (a b : A) → cmp b a ≡ flip (cmp a b)
  pub cmp_trans :
      (a b c : A) → is_gt (cmp a b) ≡ false → is_gt (cmp b c) ≡ false → is_gt (cmp a c) ≡ false

module _ {ℓ} {A : Type ℓ} (cmp : A → A → Ordering) where
  -- `x` goes in front of the first element that is not below it.
  unfoldable pub place : A → List A → List A
  place x [] = x ∷ []
  place x (y ∷ ys) = elim (cmp x y) [ gt ↦ y ∷ place x ys | _ ↦ x ∷ y ∷ ys ]

  unfoldable pub sort_by : List A → List A
  unfolding place
  sort_by [] = []
  sort_by (x ∷ xs) = place x (sort_by xs)

  abbrev pub AllAbove : A → List A → Type 0
  AllAbove x [] = Unit
  AllAbove x (y ∷ ys) = (is_gt (cmp x y) ≡ false) × AllAbove x ys

  -- Each element is at most all that follow it.
  abbrev pub IsSorted : List A → Type 0
  IsSorted [] = Unit
  IsSorted (x ∷ xs) = AllAbove x xs × IsSorted xs

module _ {A : Type 0} (cmp : A → A → Ordering) where
  In-place : (a x : A) (ys : List A) → In a (place cmp x ys) ↔ ((a ≡ x) ⊎ In a ys)
  unfolding place
  In-place a x [] = ground arith
  In-place a x (y ∷ ys) = ground (arith, In-place a x ys)

  pub In-sort_by : (a : A) (xs : List A) → In a (sort_by cmp xs) ↔ In a xs
  unfolding sort_by
  In-sort_by a [] = ground arith
  In-sort_by a (x ∷ xs) = ground (arith, In-sort_by a xs, In-place a x (sort_by cmp xs))

module _ {ℓ} {A : Type ℓ} (cmp : A → A → Ordering) (p : IsPreorder cmp) where
  AllAbove-place :
      (w x : A) (ys : List A)
      → is_gt (cmp w x) ≡ false
      → AllAbove cmp w ys
      → AllAbove cmp w (place cmp x ys)
  unfolding place
  AllAbove-place w x [] h a = (h, tt)
  AllAbove-place w x (y ∷ ys) h a = ground (arith, AllAbove-place w x ys h)

  AllAbove-trans :
      (w x : A) (ys : List A) → is_gt (cmp w x) ≡ false → AllAbove cmp x ys → AllAbove cmp w ys
  AllAbove-trans w x [] h a = tt
  AllAbove-trans w x (y ∷ ys) h a = (p.cmp_trans w x y h a.0, AllAbove-trans w x ys h a.1)

  place-IsSorted : (x : A) (ys : List A) → IsSorted cmp ys → IsSorted cmp (place cmp x ys)
  unfolding place
  place-IsSorted x [] s = (tt, tt)
  place-IsSorted x (y ∷ ys) s =
      ground
        (arith, place-IsSorted x ys, AllAbove-place y x ys, AllAbove-trans x y ys, p.cmp_flip x y)

  pub sort_by-IsSorted : (xs : List A) → IsSorted cmp (sort_by cmp xs)
  unfolding sort_by
  sort_by-IsSorted [] = tt
  sort_by-IsSorted (x ∷ xs) = place-IsSorted x (sort_by cmp xs) (sort_by-IsSorted xs)

module _ {A : Type 0} (cmp : A → A → Ordering) (p : IsPreorder cmp) where
  AllAbove-In : (x a : A) (ys : List A) → AllAbove cmp x ys → In a ys → is_gt (cmp x a) ≡ false
  AllAbove-In x a [] h m = absurd m
  AllAbove-In x a (y ∷ ys) h m = ground (arith, AllAbove-In x a ys)

  cmp_self : (a : A) → is_gt (cmp a a) ≡ false
  cmp_self a = ground (arith, p.cmp_flip a a)

  last_is_greatest :
      (xs : List A) (a m : A)
      → IsSorted cmp xs
      → last? xs ≡ some m
      → In a xs
      → is_gt (cmp a m) ≡ false
  last_is_greatest [] a m s h i = absurd i
  last_is_greatest (x ∷ []) a m s h i = ground (arith, cmp_self x)
  last_is_greatest (x ∷ y ∷ xs) a m s h i = ground (
    arith,
    last_is_greatest (y ∷ xs) a m s.1 h,
    last_is_greatest (y ∷ xs) y m s.1 h (inl refl),
    p.cmp_trans x y m,
  )

  -- No element is above the last one of the sorted list.
  pub sort_by_greatest :
      (xs : List A) (a m : A) → last? (sort_by cmp xs) ≡ some m → In a xs → is_gt (cmp a m) ≡ false
  sort_by_greatest xs a m h i =
      last_is_greatest (sort_by cmp xs) a m (sort_by-IsSorted cmp p xs) h
        ((In-sort_by cmp a xs).1 i)
