-- ===== src/Prelude/Effect.antt =====
-- Methods that change a state and may fail: what was changed before an error stays changed.
use mathlib.Core.Path.{refl}
use mathlib.Core.Logic.{inl, inr}
use mathlib.Core.List.{List, [], ◌∷◌}
use exokephalos.Prelude.Lists.{In}
use exokephalos.Prelude.Result.{Result, ok, err}

abbrev pub Effect {ℓ} : Type ℓ → Type ℓ → Type ℓ → Type ℓ
Effect S E A = S → Result E A × S

module _ {ℓ} {S E A : Type ℓ} where
  abbrev pub return : A → Effect S E A
  return a s = (ok a, s)

  abbrev pub fail : E → Effect S E A
  fail e s = (err e, s)

  abbrev pub lift : Result E A → Effect S E A
  lift r s = (r, s)

  abbrev pub gets : (S → A) → Effect S E A
  gets f s = (ok (f s), s)

module _ {ℓ} {S E A B : Type ℓ} where
  abbrev pub continue : Result E A → (A → Effect S E B) → Effect S E B
  continue (ok a) f s = f a s
  continue (err e) f s = (err e, s)

  infixl 5 ◌>>=◌ ◌>>◌
  unfoldable pub ◌>>=◌ : Effect S E A → (A → Effect S E B) → Effect S E B
  ◌>>=◌ m f s = continue (m s).0 f (m s).1

  abbrev pub ◌>>◌ : Effect S E A → Effect S E B → Effect S E B
  m >> n = m >>= λ _. n

module _ {S E : Type 0} where
  abbrev pub modify : (S → S) → Effect S E (Unit {0})
  modify f s = (ok tt, f s)

  -- `for x in xs { f(x)?; }`
  unfoldable pub for_each :
      {A : Type 0} → List A → (A → Effect S E (Unit {0})) → Effect S E (Unit {0})
  for_each [] f s = (ok tt, s)
  for_each (x ∷ xs) f s = (f x >> for_each xs f) s

-- `m` keeps `P`, whether it returns or fails.
pub record Keeps {ℓ} {S E A : Type ℓ} (P : S → Type ℓ) (m : Effect S E A) : Type ℓ where
  pub at : (s : S) → P s → P (m s).1

module _ {ℓ} {S E A B : Type ℓ} {P : S → Type ℓ} where
  Keeps-continue :
      (f : A → Effect S E B) (next : (a : A) → Keeps P (f a)) (r : Result E A) (s : S)
      → P s
      → P (continue r f s).1
  Keeps-continue f next (ok a) s held = (next a).at s held
  Keeps-continue f next (err e) s held = held

  pub Keeps-bind :
      (m : Effect S E A) (f : A → Effect S E B) (first : Keeps P m) (next : (a : A) → Keeps P (f a))
      → Keeps P (m >>= f)
  unfolding ◌>>=◌
  Keeps-bind m f first next = record {
    at = λ s held. Keeps-continue f next (m s).0 (m s).1 (first.at s held);
  }

module _ {S E : Type 0} {P : S → Type 0} where
  pub Keeps-for_each :
      {A : Type 0} (xs : List A) (f : A → Effect S E (Unit {0}))
      → ((a : A) → In a xs → Keeps P (f a))
      → Keeps P (for_each xs f)
  unfolding for_each
  Keeps-for_each [] f k = record { at = λ s h. h }
  Keeps-for_each (x ∷ xs) f k = record {
    at =
        (Keeps-bind (f x) (λ _. for_each xs f) (k x (inl refl))
          (λ _. Keeps-for_each xs f (λ a m. k a (inr m)))).at;
  }
