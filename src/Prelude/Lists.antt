-- ===== src/Prelude/Lists.antt =====
-- Lists measured and indexed by native numbers, and Boolean tests over lists.
use Prim.Native.Nat.{ℕ, zero, suc, ◌+◌}
use mathlib.Core.Path.{◌≡◌, refl, ap}
use mathlib.Core.Logic.{◌⊎◌, inr, ◌↔◌}
use mathlib.Core.Bool.{Bool, true, false, ◌&&◌, ◌||◌}
use mathlib.Core.List.{List, [], ◌∷◌, ◌++◌, map, reverse, reverse_aux}
use mathlib.Core.Option.{Option, none, some}
use native.Mathlib.Omega.{arith}
use exokephalos.Prelude.Tests.{if◌then◌else◌}

module _ {ℓ} {A : Type ℓ} where
  abbrev pub length : List A → ℕ
  length [] = 0
  length (x ∷ xs) = suc (length xs)

  abbrev pub get_elem? : List A → ℕ → Option A
  get_elem? [] i = none
  get_elem? (x ∷ xs) zero = some x
  get_elem? (x ∷ xs) (suc i) = get_elem? xs i

  abbrev pub get_or : List A → ℕ → A → A
  get_or [] i d = d
  get_or (x ∷ xs) zero d = x
  get_or (x ∷ xs) (suc i) d = get_or xs i d

  abbrev pub take : ℕ → List A → List A
  take zero xs = []
  take (suc n) [] = []
  take (suc n) (x ∷ xs) = x ∷ take n xs

  abbrev pub replicate : ℕ → A → List A
  replicate zero a = []
  replicate (suc n) a = a ∷ replicate n a

  -- `Iterator::all` and `Iterator::any`
  abbrev pub all : (A → Bool) → List A → Bool
  all p [] = true
  all p (x ∷ xs) = p x && all p xs

  abbrev pub any : (A → Bool) → List A → Bool
  any p [] = false
  any p (x ∷ xs) = p x || any p xs

  -- `Iterator::filter`
  abbrev pub keep : (A → Bool) → List A → List A
  keep p [] = []
  keep p (x ∷ xs) = let rest = keep p xs in if p x then x ∷ rest else rest

  abbrev pub is_empty : List A → Bool
  is_empty [] = true
  is_empty (x ∷ xs) = false

  abbrev pub last? : List A → Option A
  last? [] = none
  last? (x ∷ []) = some x
  last? (x ∷ y ∷ xs) = last? (y ∷ xs)

  abbrev pub find : (A → Bool) → List A → Option A
  find p [] = none
  find p (x ∷ xs) = if p x then some x else find p xs

  pub append_nil : (xs : List A) → xs ++ [] ≡ xs
  append_nil [] = refl
  append_nil (x ∷ xs) = ap (λ ys. x ∷ ys) (append_nil xs)

  pub length-append : (xs ys : List A) → length (xs ++ ys) ≡ length xs + length ys
  length-append [] ys = omega arith
  length-append (x ∷ xs) ys = omega (arith, length-append xs ys)

  pub all-append : (p : A → Bool) (xs ys : List A) → all p (xs ++ ys) ≡ (all p xs && all p ys)
  all-append p [] ys = refl
  all-append p (x ∷ xs) ys = ground (arith, all-append p xs ys)

  pub all-replicate : (p : A → Bool) (n : ℕ) (a : A) → p a ≡ true → all p (replicate n a) ≡ true
  all-replicate p zero a h = refl
  all-replicate p (suc n) a h = ground (arith, all-replicate p n a h)

  pub length-replicate : (n : ℕ) (a : A) → length (replicate n a) ≡ n
  length-replicate zero a = refl
  length-replicate (suc n) a = ap suc (length-replicate n a)

  reverse_aux-length : (xs ys : List A) → length (reverse_aux xs ys) ≡ length xs + length ys
  reverse_aux-length [] ys = omega arith
  reverse_aux-length (x ∷ xs) ys = omega (arith, reverse_aux-length xs (x ∷ ys))

  pub length-reverse : (xs : List A) → length (reverse xs) ≡ length xs
  length-reverse xs = omega (arith, reverse_aux-length xs [])

  reverse_aux-all :
      (p : A → Bool) (xs ys : List A) → all p (reverse_aux xs ys) ≡ (all p xs && all p ys)
  reverse_aux-all p [] ys = refl
  reverse_aux-all p (x ∷ xs) ys = ground (arith, reverse_aux-all p xs (x ∷ ys))

  pub all-reverse : (p : A → Bool) (xs : List A) → all p (reverse xs) ≡ all p xs
  all-reverse p xs = ground (arith, reverse_aux-all p xs [])

module _ {ℓ κ} {A : Type ℓ} {B : Type κ} where
  pub length-map : (f : A → B) (xs : List A) → length (map f xs) ≡ length xs
  length-map f [] = refl
  length-map f (x ∷ xs) = ap suc (length-map f xs)

-- Membership by recursion, which the tactics read as a sum of equations.
module _ {A : Type 0} where
  abbrev pub In : A → List A → Type 0
  In a [] = ⊥
  In a (x ∷ xs) = (a ≡ x) ⊎ In a xs

  pub In-keep : (p : A → Bool) (a : A) (xs : List A) → In a (keep p xs) ↔ (In a xs × (p a ≡ true))
  In-keep p a [] = (λ h. absurd h, λ h. absurd h.0)
  In-keep p a (x ∷ xs) = ground (arith, In-keep p a xs)

  pub In-append : (a : A) (xs ys : List A) → In a (xs ++ ys) ↔ (In a xs ⊎ In a ys)
  In-append a [] ys = ground arith
  In-append a (x ∷ xs) ys = ground (arith, In-append a xs ys)

  pub all-In : (p : A → Bool) (a : A) (xs : List A) → all p xs ≡ true → In a xs → p a ≡ true
  all-In p a [] h m = absurd m
  all-In p a (x ∷ xs) h m = ground (arith, all-In p a xs)

  -- The last element of a list is one of its elements, and there is one unless it is empty.
  pub In-last? : (xs : List A) (a : A) → last? xs ≡ some a → In a xs
  In-last? [] a h = cc
  In-last? (x ∷ []) a h = ground arith
  In-last? (x ∷ y ∷ xs) a h = inr (In-last? (y ∷ xs) a h)

  pub last?-some : (x : A) (xs : List A) → (a : A) × (last? (x ∷ xs) ≡ some a)
  last?-some x [] = (x, refl)
  last?-some x (y ∷ xs) = last?-some y xs
