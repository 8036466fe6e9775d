-- ===== src/Keymap/Parser/Ends.antt =====
-- The parser of keymap.rs ends: each form takes at least one byte.
use exokephalos.Prelude.{
  ℕ, zero, suc, ◌+◌, ◌*◌, ◌≤◌, ◌<◌, ◌≡◌, refl, inl, inr, ◌⊎◌, Bool, true, false, not, ◌&&◌, Option,
  none, some, [], ◌∷◌, arith, length, ◌==◌, Bool-cases, Option-cases,
}
use exokephalos.Prelude.Result.{Result, Result-cases}
use exokephalos.Prelude.Text.{Text}
use exokephalos.Keymap.Parser.{
  Form, Forms, ParseError, Parsed, parsed, failed, out_of_fuel, skip_space, space, atom_bytes,
  atom_form, string_bytes, string_form, add_form, and_then, list_form, form, form_at, values,
  values_at, forms_from, parse_all,
}

space_shorter : (comment : Bool) (s : Text) → length (skip_space comment s) ≤ length s
unfolding skip_space
space_shorter comment [] = omega arith
space_shorter true (c ∷ s) = omega (arith, space_shorter (not (c == 10)) s)
space_shorter false (c ∷ s) = ground (arith, space_shorter (c == b';') s)

atom_shorter : (s : Text) → length (atom_bytes s).0 + length (atom_bytes s).1 ≤ length s
unfolding atom_bytes
atom_shorter [] = omega arith
atom_shorter (c ∷ s) = ground (arith, atom_shorter s)

-- What is left is shorter, or there is an error; it is not the fuel that ended.
abbrev Ends : {A : Type 0} → ℕ → Parsed A → Type 0
Ends n (parsed a rest) = length rest < n
Ends n (failed e) = Unit
Ends n out_of_fuel = ⊥

Ends-mono : {A : Type 0} (m n : ℕ) (p : Parsed A) → Ends m p → m ≤ n → Ends n p
Ends-mono m n (parsed a rest) e l = omega (arith, e, l)
Ends-mono m n (failed x) e l = tt
Ends-mono m n out_of_fuel e l = absurd e

string_shorter :
    (escaped : Bool) (s raw rest : Text)
    → string_bytes escaped s ≡ some (raw, rest)
    → length rest < length s
unfolding string_bytes
string_shorter escaped [] raw rest e = cc
string_shorter escaped (c ∷ s) raw rest e =
    elim (Option-cases (string_bytes (c == b'\\' && not escaped) s)) [
      | inl none_left ↦ elim (Bool-cases (c == b'"' && not escaped)) [
        | inl quote ↦ ground (arith, quote, e)
        | inr plain ↦ absurd (ground (arith, plain, none_left, e))
      ]
      | inr ((raw', rest'), found) ↦
          let shorter = string_shorter (c == b'\\' && not escaped) s raw' rest' found in
          elim (Bool-cases (c == b'"' && not escaped)) [
            | inl quote ↦ ground (arith, quote, e)
            | inr plain ↦ ground (arith, plain, found, e, shorter)
          ]
    ]

module _ (from_str : Text → Result Text Text) where
  string_Ends :
      (s : Text) (o : Option (Text × Text))
      → ((raw rest : Text) → o ≡ some (raw, rest) → length rest < length s)
      → Ends (length s) (string_form from_str o)
  string_Ends s none h = tt
  string_Ends s (some (raw, rest)) h = elim (Result-cases (from_str (b'"' ∷ raw))) [
    | inl (value, e) ↦ rw e (h raw rest refl)
    | inr (x, e) ↦ rw e tt
  ]

  atom_Ends : (n : ℕ) (p : Text × Text) → length p.0 + length p.1 ≤ n → Ends n (atom_form p)
  atom_Ends n ([], rest) l = tt
  atom_Ends n (c ∷ a, rest) l = omega (arith, l)

  list_Ends : (n : ℕ) (p : Parsed Forms) → Ends n p → Ends n (list_form from_str p)
  list_Ends n (parsed fs rest) e = e
  list_Ends n (failed x) e = tt
  list_Ends n out_of_fuel e = e

  form_at-Ends :
      (values : Text → Parsed Forms) (s : Text)
      → ((t : Text) → suc (length t) ≡ length s → Ends (length t) (values t))
      → Ends (length s) (form_at from_str values s)
  unfolding form_at
  form_at-Ends values [] h = tt
  form_at-Ends values (c ∷ s) h = elim (Bool-cases (c == b'(')) [
    | inl e ↦ rw e (
        Ends-mono (length s) (suc (length s)) (list_form from_str (values s))
          (list_Ends (length s) (values s) (h s refl)) (omega arith))
    | inr e ↦ elim (Bool-cases (c == b'"')) [
      | inl q ↦
          rw (e, q)
            (Ends-mono (length s) (suc (length s)) (string_form from_str (string_bytes false s))
              (string_Ends s (string_bytes false s) (string_shorter false s)) (omega arith))
      | inr q ↦ elim (Bool-cases (c == b')')) [
        | inl p ↦ rw (e, q, p) tt
        | inr p ↦
            rw (e, q, p) (atom_Ends (suc (length s)) (atom_bytes (c ∷ s)) (atom_shorter (c ∷ s)))
      ]
    ]
  ]

  add_Ends : (n : ℕ) (f : Form) (p : Parsed Forms) → Ends n p → Ends n (add_form from_str f p)
  add_Ends n f (parsed fs rest) e = e
  add_Ends n f (failed x) e = tt
  add_Ends n f out_of_fuel e = e

  and_then-Ends :
      (n : ℕ) (p : Parsed Form) (next : Text → Parsed Forms)
      → Ends n p
      → ((t : Text) → length t < n → Ends n (next t))
      → Ends n (and_then from_str p next)
  and_then-Ends n (parsed f rest) next e h = add_Ends n f (next rest) (h rest e)
  and_then-Ends n (failed x) next e h = tt
  and_then-Ends n out_of_fuel next e h = e

  values_at-Ends :
      (form : Text → Parsed Form) (values : Text → Parsed Forms) (s : Text)
      → Ends (length s) (form s)
      → ((t : Text) → length t < length s → Ends (length t) (values t))
      → Ends (length s) (values_at from_str form values s)
  unfolding values_at
  values_at-Ends form values [] f h = tt
  values_at-Ends form values (c ∷ s) f h = elim (Bool-cases (c == b')')) [
    | inl e ↦ rw e (omega arith)
    | inr e ↦ rw e (
        and_then-Ends (suc (length s)) (form (c ∷ s)) values f
          (λ t l. Ends-mono (length t) (suc (length s)) (values t) (h t l) (omega (arith, l))))
  ]

  mutual
    unfolding form values space

    form-Ends : (fuel : ℕ) (s : Text) → 2 * length s < fuel → Ends (length s) (form from_str fuel s)
    form-Ends zero s l = absurd (omega (arith, l))
    form-Ends (suc fuel) s l =
        let left = space_shorter false s in
        Ends-mono (length (skip_space false s)) (length s) (form from_str (suc fuel) s)
          (form_at-Ends (values from_str fuel) (skip_space false s)
            (λ t e. values-Ends fuel t (omega (arith, l, left, e))))
          left

    values-Ends :
        (fuel : ℕ) (s : Text) → 2 * length s + 1 < fuel → Ends (length s) (values from_str fuel s)
    values-Ends zero s l = absurd (omega (arith, l))
    values-Ends (suc fuel) s l =
        let left = space_shorter false s in
        Ends-mono (length (skip_space false s)) (length s) (values from_str (suc fuel) s)
          (values_at-Ends (form from_str fuel) (values from_str fuel) (skip_space false s)
            (form-Ends fuel (skip_space false s) (omega (arith, l, left)))
            (λ t e. values-Ends fuel t (omega (arith, l, left, e))))
          left

  forms_from-Ends :
      (fuel : ℕ) (s : Text) → length s < fuel → Ends (suc (length s)) (forms_from from_str fuel s)
  unfolding forms_from space
  forms_from-Ends fuel [] l = omega arith
  forms_from-Ends zero (c ∷ s) l = absurd (omega (arith, l))
  forms_from-Ends (suc fuel) (c ∷ s) l =
      let first = form-Ends (2 * length (c ∷ s) + 2) (c ∷ s) (omega arith) in
      Ends-mono (length (c ∷ s)) (suc (length (c ∷ s))) _
        (and_then-Ends (length (c ∷ s)) (form from_str (2 * length (c ∷ s) + 2) (c ∷ s))
          (λ rest. forms_from from_str fuel (skip_space false rest)) first
          (λ t k.
            let left = space_shorter false t in
            Ends-mono (suc (length (skip_space false t))) (length (c ∷ s)) _
              (forms_from-Ends fuel (skip_space false t) (omega (arith, l, k, left)))
              (omega (arith, k, left))))
        (omega arith)

  abbrev AtEnd : Parsed Forms → Type 0
  AtEnd (parsed fs rest) = rest ≡ []
  AtEnd (failed x) = Unit
  AtEnd out_of_fuel = Unit

  and_then-AtEnd :
      (p : Parsed Form) (next : Text → Parsed Forms)
      → ((t : Text) → AtEnd (next t))
      → AtEnd (and_then from_str p next)
  and_then-AtEnd (parsed f rest) next h = added (next rest) (h rest)
    where
      added : (q : Parsed Forms) → AtEnd q → AtEnd (add_form from_str f q)
      added (parsed fs rest) e = e
      added (failed x) e = tt
      added out_of_fuel e = tt
  and_then-AtEnd (failed x) next h = tt
  and_then-AtEnd out_of_fuel next h = tt

  forms_from-AtEnd : (fuel : ℕ) (s : Text) → AtEnd (forms_from from_str fuel s)
  unfolding forms_from
  forms_from-AtEnd fuel [] = refl
  forms_from-AtEnd zero (c ∷ s) = tt
  forms_from-AtEnd (suc fuel) (c ∷ s) =
      and_then-AtEnd (form from_str (2 * length (c ∷ s) + 2) (c ∷ s))
        (λ rest. forms_from from_str fuel (space rest)) (λ t. forms_from-AtEnd fuel (space t))

  Parsed-cases :
      (n : ℕ) (p : Parsed Forms)
      → Ends n p
      → AtEnd p
      → ((forms : Forms) × (p ≡ parsed forms [])) ⊎ ((e : ParseError) × (p ≡ failed e))
  Parsed-cases n (parsed fs rest) e h = inl (fs, rw h refl)
  Parsed-cases n (failed x) e h = inr (x, refl)
  Parsed-cases n out_of_fuel e h = absurd e

  -- The parser ends on every text: it gives forms or an error of the source, and never runs out of
  -- the fuel that stands for its loops and calls. What it gives, it gives having read the whole text.
  pub parse_all_ends :
      (source : Text)
      → ((forms : Forms) × (parse_all from_str source ≡ parsed forms []))
        ⊎ ((e : ParseError) × (parse_all from_str source ≡ failed e))
  unfolding parse_all space
  parse_all_ends source =
      let left = space_shorter false source in
      Parsed-cases (suc (length (skip_space false source))) (parse_all from_str source)
        (forms_from-Ends (suc (length source)) (skip_space false source) (omega (arith, left)))
        (forms_from-AtEnd (suc (length source)) (skip_space false source))
