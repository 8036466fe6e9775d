-- ===== src/Prelude/Map.antt =====
-- `BTreeMap`: its entries in the order of the keys, as iteration shows them.
use Prim.Native.Nat.Ordering.{lt, eq, gt}
use mathlib.Core.Path.{◌≡◌, refl}
use mathlib.Core.Logic.{◌⊎◌, inl, inr}
use mathlib.Core.Option.{Option, none, some}
use mathlib.Core.List.{List, [], ◌∷◌}
use native.Mathlib.Omega.{arith}
use exokephalos.Prelude.Lists.{In}
use exokephalos.Prelude.Order.{Ord, same, same_iff}
use exokephalos.Prelude.Tests.{if◌then◌else◌}

abbrev pub BTreeMap {ℓ κ} : Type ℓ → Type κ → Type (ℓ ⊔ κ)
BTreeMap K V = List (K × V)

module _ {ℓ κ} {K : Type ℓ} {V : Type κ} where
  abbrev pub keys : BTreeMap K V → List K
  keys [] = []
  keys ((k, v) ∷ m) = k ∷ keys m

  abbrev pub values : BTreeMap K V → List V
  values [] = []
  values ((k, v) ∷ m) = v ∷ values m

module _ {ℓ κ} {K : Type ℓ} {V : Type κ} ⦃o : Ord K⦄ where
  unfoldable pub get : K → BTreeMap K V → Option V
  get k [] = none
  get k ((j, v) ∷ m) = if same j k then some v else get k m

  unfoldable pub insert : K → V → BTreeMap K V → BTreeMap K V
  insert k v [] = (k, v) ∷ []
  insert k v ((j, w) ∷ m) = elim (o.order k j) [
    | lt ↦ (k, v) ∷ (j, w) ∷ m
    | eq ↦ (k, v) ∷ m
    | gt ↦ (j, w) ∷ insert k v m
  ]

  unfoldable pub remove : K → BTreeMap K V → BTreeMap K V
  remove k [] = []
  remove k ((j, v) ∷ m) = let rest = remove k m in if same j k then rest else (j, v) ∷ rest

  pub get-insert :
      (k j : K) (v : V) (m : BTreeMap K V)
      → get j (insert k v m) ≡ (if same k j then some v else get j m)
  unfolding get insert
  get-insert k j v [] = refl
  get-insert k j v ((i, w) ∷ m) =
      ground
        (arith, get-insert k j v m, o.eq_of_order k i, same_iff k j, same_iff i j, o.order_self k)

  pub get-remove :
      (k j : K) (m : BTreeMap K V) → get j (remove k m) ≡ (if same k j then none else get j m)
  unfolding get remove
  get-remove k j [] = ground arith
  get-remove k j ((i, w) ∷ m) =
      ground (arith, get-remove k j m, same_iff k j, same_iff i j, same_iff i k)

  -- Every key of the map is above `k`.
  abbrev pub Above : K → BTreeMap K V → Type ℓ
  Above k [] = Unit
  Above k ((j, v) ∷ m) = (o.order k j ≡ lt) × Above k m

  -- The keys ascend, each once.
  abbrev pub IsAscending : BTreeMap K V → Type ℓ
  IsAscending [] = Unit
  IsAscending ((k, v) ∷ m) = Above k m × IsAscending m

  Above-insert :
      (j k : K) (v : V) (m : BTreeMap K V) → o.order j k ≡ lt → Above j m → Above j (insert k v m)
  unfolding insert
  Above-insert j k v [] h a = (h, tt)
  Above-insert j k v ((i, w) ∷ m) h a = ground (arith, Above-insert j k v m h)

  Above-trans : (j k : K) (m : BTreeMap K V) → o.order j k ≡ lt → Above k m → Above j m
  Above-trans j k [] h a = tt
  Above-trans j k ((i, w) ∷ m) h a = (o.order_trans j k i h a.0, Above-trans j k m h a.1)

  pub insert-IsAscending :
      (k : K) (v : V) (m : BTreeMap K V) → IsAscending m → IsAscending (insert k v m)
  unfolding insert
  insert-IsAscending k v [] a = (tt, tt)
  insert-IsAscending k v ((j, w) ∷ m) a = ground (
    arith,
    insert-IsAscending k v m,
    Above-insert j k v m,
    Above-trans k j m,
    o.order_flip k j,
    o.eq_of_order k j,
  )

  pub get-Above : (k : K) (m : BTreeMap K V) → Above k m → get k m ≡ none
  unfolding get
  get-Above k [] a = refl
  get-Above k ((j, v) ∷ m) a = ground (arith, get-Above k m, o.order_flip k j)

  Above-remove : (j k : K) (m : BTreeMap K V) → Above j m → Above j (remove k m)
  unfolding remove
  Above-remove j k [] a = tt
  Above-remove j k ((i, w) ∷ m) a = ground (arith, Above-remove j k m)

  pub remove-IsAscending : (k : K) (m : BTreeMap K V) → IsAscending m → IsAscending (remove k m)
  unfolding remove
  remove-IsAscending k [] a = tt
  remove-IsAscending k ((j, v) ∷ m) a = ground (arith, remove-IsAscending k m, Above-remove j k m)

module _ {K V : Type 0} ⦃o : Ord K⦄ where
  pub get-In : (k : K) (v : V) (m : BTreeMap K V) → get k m ≡ some v → In (k, v) m
  unfolding get
  get-In k v [] h = cc
  get-In k v ((j, w) ∷ m) h = ground (arith, get-In k v m, same_iff j k)

  pub In-remove_entry : (k : K) (e : K × V) (m : BTreeMap K V) → In e (remove k m) → In e m
  unfolding remove
  In-remove_entry k e [] h = h
  In-remove_entry k e ((j, w) ∷ m) h = ground (arith, In-remove_entry k e m)

  pub In-insert_entry :
      (k : K) (v : V) (e : K × V) (m : BTreeMap K V) → In e (insert k v m) → (e ≡ (k, v)) ⊎ In e m
  unfolding insert
  In-insert_entry k v e [] h = ground arith
  In-insert_entry k v e ((j, w) ∷ m) h = ground (arith, In-insert_entry k v e m)

  pub In-get : (k : K) (v : V) (m : BTreeMap K V) → IsAscending m → In (k, v) m → get k m ≡ some v
  unfolding get
  In-get k v [] a h = absurd h
  In-get k v ((j, w) ∷ m) a h = ground (arith, In-get k v m a.1, same_iff j k, get-Above j m a.0)

  pub In-values : (v : V) (m : BTreeMap K V) → In v (values m) → (k : K) × In (k, v) m
  In-values v [] h = absurd h
  In-values v ((j, w) ∷ m) (inl e) = (j, inl (ground arith))
  In-values v ((j, w) ∷ m) (inr h) = let (k, i) = In-values v m h in (k, inr i)

  pub In-Above : (j : K) (e : K × V) (m : BTreeMap K V) → Above j m → In e m → o.order j e.0 ≡ lt
  In-Above j e [] a h = absurd h
  In-Above j e ((i, w) ∷ m) a h = ground (arith, In-Above j e m)
