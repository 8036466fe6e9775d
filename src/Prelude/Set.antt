-- ===== src/Prelude/Set.antt =====
-- `BTreeSet`: its elements in ascending order.
use Prim.Native.Nat.Ordering.{lt, eq, gt}
use mathlib.Core.Path.{◌≡◌, refl, ap, ap₂, ◌∙◌}
use mathlib.Core.Logic.{◌≢◌, ◌↔◌, ◌⊎◌, inl, inr}
use mathlib.Core.Bool.{◌||◌}
use mathlib.Core.List.{List, [], ◌∷◌}
use native.Mathlib.Omega.{arith}
use exokephalos.Prelude.Lists.{In}
use exokephalos.Prelude.Order.{Ord, same, same_iff, contains}
use exokephalos.Prelude.Tests.{if◌then◌else◌}

abbrev pub BTreeSet {ℓ} : Type ℓ → Type ℓ
BTreeSet K = List K

module _ {ℓ} {K : Type ℓ} ⦃o : Ord K⦄ where
  unfoldable pub insert : K → BTreeSet K → BTreeSet K
  insert k [] = k ∷ []
  insert k (j ∷ s) = elim (o.order k j) [ lt ↦ k ∷ j ∷ s | eq ↦ k ∷ s | gt ↦ j ∷ insert k s ]

  unfoldable pub remove : K → BTreeSet K → BTreeSet K
  remove k [] = []
  remove k (j ∷ s) = let rest = remove k s in if same j k then rest else j ∷ rest

  -- `Extend` and `FromIterator`
  unfoldable pub extend : BTreeSet K → List K → BTreeSet K
  extend s [] = s
  extend s (k ∷ ks) = extend (insert k s) ks

  abbrev pub collect : List K → BTreeSet K
  collect ks = extend [] ks

  -- Two insertions commute, so a set forgets the order in which it was filled.
  pub insert_comm : (j k : K) (s : BTreeSet K) → insert j (insert k s) ≡ insert k (insert j s)
  unfolding insert
  insert_comm j k [] = ground (arith, o.order_flip j k, o.eq_of_order j k)
  insert_comm j k (i ∷ s) = ground (
    arith,
    insert_comm j k s,
    o.order_flip j k,
    o.eq_of_order j k,
    o.order_flip i j,
    o.order_flip i k,
    o.eq_of_order j i,
    o.eq_of_order k i,
    o.order_trans j i k,
    o.order_trans k i j,
    o.order_self j,
    o.order_self k,
  )

  pub extend-insert :
      (k : K) (s : BTreeSet K) (ks : List K) → extend (insert k s) ks ≡ insert k (extend s ks)
  unfolding extend
  extend-insert k s [] = refl
  extend-insert k s (j ∷ ks) =
      ap (λ t. extend t ks) (insert_comm j k s) ∙ extend-insert k (insert j s) ks

module _ {K : Type 0} ⦃o : Ord K⦄ where
  pub In-insert : (a k : K) (s : BTreeSet K) → In a (insert k s) ↔ ((a ≡ k) ⊎ In a s)
  unfolding insert
  In-insert a k [] = ground arith
  In-insert a k (j ∷ s) = ground (arith, In-insert a k s, o.eq_of_order k j)

  pub In-remove : (a k : K) (s : BTreeSet K) → In a (remove k s) ↔ (In a s × (a ≢ k))
  unfolding remove
  In-remove a k [] = (λ h. absurd h, λ h. absurd h.0)
  In-remove a k (j ∷ s) = ground (arith, In-remove a k s, same_iff j k)

  pub In-extend : (a : K) (s : BTreeSet K) (ks : List K) → In a (extend s ks) ↔ (In a s ⊎ In a ks)
  unfolding extend
  In-extend a s [] = ground arith
  In-extend a s (k ∷ ks) = ground (arith, In-extend a (insert k s) ks, In-insert a k s)

module _ {K : Type 0} ⦃o : Ord K⦄ where
  pub contains-insert :
      (k a : K) (s : BTreeSet K) → contains (insert k s) a ≡ (same a k || contains s a)
  unfolding insert
  contains-insert k a [] = refl
  contains-insert k a (j ∷ s) =
      ground (arith, contains-insert k a s, o.eq_of_order k j, same_iff a k, same_iff a j)

  -- Every element is above `k`.
  abbrev pub Above : K → BTreeSet K → Type 0
  Above k [] = Unit
  Above k (j ∷ s) = (o.order k j ≡ lt) × Above k s

  abbrev pub IsAscending : BTreeSet K → Type 0
  IsAscending [] = Unit
  IsAscending (k ∷ s) = Above k s × IsAscending s

  Above-insert : (j k : K) (s : BTreeSet K) → o.order j k ≡ lt → Above j s → Above j (insert k s)
  unfolding insert
  Above-insert j k [] h a = (h, tt)
  Above-insert j k (i ∷ s) h a = ground (arith, Above-insert j k s h)

  Above-trans : (j k : K) (s : BTreeSet K) → o.order j k ≡ lt → Above k s → Above j s
  Above-trans j k [] h a = tt
  Above-trans j k (i ∷ s) h a = (o.order_trans j k i h a.0, Above-trans j k s h a.1)

  pub insert-IsAscending : (k : K) (s : BTreeSet K) → IsAscending s → IsAscending (insert k s)
  unfolding insert
  insert-IsAscending k [] a = (tt, tt)
  insert-IsAscending k (j ∷ s) a = ground (
    arith,
    insert-IsAscending k s,
    Above-insert j k s,
    Above-trans k j s,
    o.order_flip k j,
    o.eq_of_order k j,
  )

  Above-remove : (j k : K) (s : BTreeSet K) → Above j s → Above j (remove k s)
  unfolding remove
  Above-remove j k [] a = tt
  Above-remove j k (i ∷ s) a = ground (arith, Above-remove j k s)

  pub remove-IsAscending : (k : K) (s : BTreeSet K) → IsAscending s → IsAscending (remove k s)
  unfolding remove
  remove-IsAscending k [] a = tt
  remove-IsAscending k (j ∷ s) a = ground (arith, remove-IsAscending k s, Above-remove j k s)

  pub extend-IsAscending :
      (s : BTreeSet K) (ks : List K) → IsAscending s → IsAscending (extend s ks)
  unfolding extend
  extend-IsAscending s [] a = a
  extend-IsAscending s (k ∷ ks) a = extend-IsAscending (insert k s) ks (insert-IsAscending k s a)

  In-Above : (k a : K) (s : BTreeSet K) → Above k s → In a s → o.order k a ≡ lt
  In-Above k a [] h m = absurd m
  In-Above k a (j ∷ s) h m = ground (arith, In-Above k a s)

  not-In-Above : (k : K) (s : BTreeSet K) → Above k s → ¬ In k s
  not-In-Above k s h m = ground (arith, In-Above k k s h m, o.order_self k)

  Above-head :
      (x y : K) (s t : BTreeSet K) → Above x s → Above y t → In x (y ∷ t) → In y (x ∷ s) → x ≡ y
  Above-head x y s t a b m n = ground (arith, In-Above x y s a, In-Above y x t b, o.order_flip x y)

  -- Sets with the same elements are equal.
  pub set_ext :
      (s t : BTreeSet K) → IsAscending s → IsAscending t → ((a : K) → In a s ↔ In a t) → s ≡ t
  set_ext [] [] a b h = refl
  set_ext [] (y ∷ t) a b h = absurd ((h y).1 (inl refl))
  set_ext (x ∷ s) [] a b h = absurd ((h x).0 (inl refl))
  set_ext (x ∷ s) (y ∷ t) a b h =
      let e = Above-head x y s t a.0 b.0 ((h x).0 (inl refl)) ((h y).1 (inl refl)) in
      ap₂ ◌∷◌ e (set_ext s t a.1 b.1 (λ k. tails k e))
    where
      tails : (k : K) → x ≡ y → In k s ↔ In k t
      tails k e = (
        λ m. ground (arith, (h k).0 (inr m), In-Above x k s a.0 m, o.order_self x, e),
        λ m. ground (arith, (h k).1 (inr m), In-Above y k t b.0 m, o.order_self y, e),
      )
