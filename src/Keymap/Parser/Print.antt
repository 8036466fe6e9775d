-- ===== src/Keymap/Parser/Print.antt =====
-- A printer for the forms of keymap.rs, as an independent description of their grammar.
use exokephalos.Prelude.{
  ℕ, zero, suc, ◌+◌, ◌*◌, ◌<◌, ◌≡◌, refl, ap, sym, subst, true, false, not, some, [], ◌∷◌, ◌++◌,
  arith, length, length-append, all, is_empty, ◌==◌,
}
use mathlib.Core.List.{append_assoc}
use exokephalos.Prelude.Result.{Result, ok}
use exokephalos.Prelude.Text.{Text}
use exokephalos.Prelude.White.{is_ascii_whitespace}
use exokephalos.Keymap.Parser.{
  Form, atom, string, list, Forms, nil, cons, Parsed, parsed, skip_space, space, ends_atom,
  atom_bytes, string_bytes, and_then, form, form_at, values, values_at, forms_from, parse_all,
}

-- The inside of a JSON string: a backslash takes the byte after it along, and no other byte is a quote.
pub data Escaped : Text → Type 0 where
  end : Escaped []
  plain :
      {c : ℕ} {s : Text} → (c == b'"') ≡ false → (c == b'\\') ≡ false → Escaped s → Escaped (c ∷ s)
  pair : {b : ℕ} {c : ℕ} {s : Text} → b ≡ b'\\' → Escaped s → Escaped (b ∷ c ∷ s)

-- Such a text ends at the quote that is put after it, whatever follows.
string_bytes-Escaped :
    (e t : Text) → Escaped e → string_bytes false (e ++ b'"' ∷ t) ≡ some (e ++ b'"' ∷ [], t)
unfolding string_bytes
string_bytes-Escaped [] t end = refl
string_bytes-Escaped (c ∷ s) t (plain quote back h) =
    ground (arith, quote, back, string_bytes-Escaped s t h)
string_bytes-Escaped (b ∷ c ∷ s) t (pair back h) = ground (arith, back, string_bytes-Escaped s t h)

module _ (from_str : Text → Result Text Text) (escape : Text → Text) where
  unfoldable mutual
    pub print_form : Form → Text
    print_form (atom a) = a
    print_form (string s) = b'"' ∷ escape s ++ b'"' ∷ []
    print_form (list fs) = b'(' ∷ print_forms fs ++ b')' ∷ []

    -- Each form with a space after it.
    pub print_forms : Forms → Text
    print_forms nil = []
    print_forms (cons f fs) = print_form f ++ 32 ∷ print_forms fs

  -- The text is escaped as JSON has it, and decoded to itself.
  pub record IsQuoted (s : Text) : Type 0 where
    pub escaped : Escaped (escape s)
    pub reads : from_str (b'"' ∷ escape s ++ b'"' ∷ []) ≡ ok s

  -- An atom has no delimiter in it and does not begin with a quote.
  pub record IsAtom (a : Text) : Type 0 where
    pub full : is_empty a ≡ false
    pub bare : all (λ c. not (ends_atom c)) a ≡ true
    pub unquoted : (head : ℕ) (rest : Text) → a ≡ head ∷ rest → (head == b'"') ≡ false

  abbrev mutual
    pub CanPrint : Form → Type 0
    CanPrint (atom a) = IsAtom a
    CanPrint (string s) = IsQuoted s
    CanPrint (list fs) = CanPrintAll fs

    pub CanPrintAll : Forms → Type 0
    CanPrintAll nil = Unit
    CanPrintAll (cons f fs) = CanPrint f × CanPrintAll fs

  -- A byte that begins a form.
  record Begins (c : ℕ) : Type 0 where
    dark : is_ascii_whitespace c ≡ false
    no_comment : (c == b';') ≡ false
    no_close : (c == b')') ≡ false

  print_head : (f : Form) → CanPrint f → (c : ℕ) × (s : Text) × (print_form f ≡ c ∷ s) × Begins c
  unfolding print_form
  print_head (atom []) h = absurd (ground (arith, h.full))
  print_head (atom (c ∷ a)) h = (
    c,
    a,
    refl,
    record {
      dark = ground (arith, h.bare);
      no_comment = ground (arith, h.bare);
      no_close = ground (arith, h.bare);
    },
  )
  print_head (string s) h = (
    b'"',
    escape s ++ b'"' ∷ [],
    refl,
    record { dark = refl; no_comment = refl; no_close = refl },
  )
  print_head (list fs) h = (
    b'(',
    print_forms fs ++ b')' ∷ [],
    refl,
    record { dark = refl; no_comment = refl; no_close = refl },
  )

  skip-Begins : (c : ℕ) (s : Text) → Begins c → skip_space false (c ∷ s) ≡ c ∷ s
  unfolding skip_space
  skip-Begins c s h = ground (arith, h.dark, h.no_comment)

  skip_form :
      (f : Form) (t : Text) → CanPrint f → skip_space false (print_form f ++ t) ≡ print_form f ++ t
  skip_form f t h = let (c, s, e, b) = print_head f h in rw e (skip-Begins c (s ++ t) b)

  skip_forms :
      (fs : Forms) (t : Text)
      → CanPrintAll fs
      → skip_space false (print_forms fs ++ b')' ∷ t) ≡ print_forms fs ++ b')' ∷ t
  unfolding print_forms skip_space
  skip_forms nil t h = refl
  skip_forms (cons f fs) t h =
      rw (append_assoc (print_form f) (32 ∷ print_forms fs) (b')' ∷ t))
        (skip_form f (32 ∷ print_forms fs ++ b')' ∷ t) h.0)

  atom_bytes_lem :
      (a t : Text) → all (λ c. not (ends_atom c)) a ≡ true → atom_bytes (a ++ 32 ∷ t) ≡ (a, 32 ∷ t)
  unfolding atom_bytes
  atom_bytes_lem [] t h = refl
  atom_bytes_lem (c ∷ a) t h = ground (arith, atom_bytes_lem a t)

  form_at_atom :
      (next : Text → Parsed Forms) (a t : Text)
      → IsAtom a
      → form_at from_str next (a ++ 32 ∷ t) ≡ parsed (atom a) (32 ∷ t)
  unfolding form_at
  form_at_atom next [] t h = absurd (ground (arith, h.full))
  form_at_atom next (c ∷ a) t h =
      let bytes = atom_bytes_lem (c ∷ a) t h.bare in
      ground (arith, h.bare, h.unquoted c a refl, bytes)

  form_at_string :
      (next : Text → Parsed Forms) (s t : Text)
      → IsQuoted s
      → form_at from_str next (print_form (string s) ++ t) ≡ parsed (string s) t
  unfolding form_at print_form
  form_at_string next s t h =
      rw
        (
          append_assoc (escape s) (b'"' ∷ []) t,
          string_bytes-Escaped (escape s) t h.escaped,
          h.reads,
        )
        refl

  values_at_form :
      (first : Text → Parsed Form) (next : Text → Parsed Forms) (f : Form) (t : Text)
      → CanPrint f
      → values_at from_str first next (print_form f ++ t)
        ≡ and_then from_str (first (print_form f ++ t)) next
  unfolding values_at
  values_at_form first next f t h = let (c, s, e, b) = print_head f h in rw (e, b.no_close) refl

  list_at :
      (fs : Forms) (fuel : ℕ) (inside t : Text)
      → values from_str fuel inside ≡ parsed fs t
      → form from_str (suc fuel) (b'(' ∷ inside) ≡ parsed (list fs) t
  unfolding form form_at space skip_space
  list_at fs fuel inside t e = rw e refl

  -- Reading on fuel what was printed, with a space after a form and a parenthesis after a list.
  mutual
    unfolding form values print_form print_forms space

    form_print :
        (f : Form) (fuel : ℕ) (t : Text)
        → CanPrint f
        → 2 * length (print_form f ++ 32 ∷ t) < fuel
        → form from_str fuel (print_form f ++ 32 ∷ t) ≡ parsed f (32 ∷ t)
    form_print f zero t h l = absurd (omega (arith, l))
    form_print (atom a) (suc fuel) t h l =
        rw (skip_form (atom a) (32 ∷ t) h) (form_at_atom (values from_str fuel) a t h)
    form_print (string s) (suc fuel) t h l = form_at_string (values from_str fuel) s (32 ∷ t) h
    form_print (list fs) (suc fuel) t h l =
        let inside = print_forms fs ++ b')' ∷ 32 ∷ t in
        let shape : print_form (list fs) ++ 32 ∷ t ≡ b'(' ∷ inside =
          ap (λ x. b'(' ∷ x) (append_assoc (print_forms fs) (b')' ∷ []) (32 ∷ t)) in
        let read : values from_str fuel inside ≡ parsed fs (32 ∷ t) =
          values_print fs fuel inside (32 ∷ t) h (skip_forms fs (32 ∷ t) h)
            (omega (arith, l, ap (length {A = ℕ}) shape)) in
        subst (λ u. form from_str (suc fuel) u ≡ parsed (list fs) (32 ∷ t)) (sym shape)
          (list_at fs fuel inside (32 ∷ t) read)

    values_print :
        (fs : Forms) (fuel : ℕ) (u t : Text)
        → CanPrintAll fs
        → space u ≡ print_forms fs ++ b')' ∷ t
        → 2 * length (print_forms fs ++ b')' ∷ t) + 1 < fuel
        → values from_str fuel u ≡ parsed fs t
    values_print fs zero u t h e l = absurd (omega (arith, l))
    values_print nil (suc fuel) u t h e l = rw (e, values_at) refl
    values_print (cons f fs) (suc fuel) u t h e l =
        let rest = print_forms fs ++ b')' ∷ t in
        let shape : print_forms (cons f fs) ++ b')' ∷ t ≡ print_form f ++ 32 ∷ rest =
          append_assoc (print_form f) (32 ∷ print_forms fs) (b')' ∷ t) in
        let first : form from_str fuel (print_form f ++ 32 ∷ rest) ≡ parsed f (32 ∷ rest) =
          form_print f fuel rest h.0 (omega (arith, l, ap (length {A = ℕ}) shape)) in
        let others : values from_str fuel (32 ∷ rest) ≡ parsed fs t =
          values_print fs fuel (32 ∷ rest) t h.1 (skip_forms fs t h.1) (
            omega
              (arith, l, ap (length {A = ℕ}) shape, length-append (print_form f) (32 ∷ rest))) in
        rw
          (
            e,
            shape,
            values_at_form (form from_str fuel) (values from_str fuel) f (32 ∷ rest) h.0,
            first,
            others,
          )
          refl

  skip_tail : (fs : Forms) → CanPrintAll fs → skip_space false (print_forms fs) ≡ print_forms fs
  unfolding print_forms skip_space
  skip_tail nil h = refl
  skip_tail (cons f fs) h = skip_form f (32 ∷ print_forms fs) h.0

  forms_from_step :
      (s : Text) (fuel : ℕ)
      → is_empty s ≡ false
      → forms_from from_str (suc fuel) s
        ≡ and_then from_str
            (form from_str (2 * length s + 2) s)
            (λ rest. forms_from from_str fuel (space rest))
  unfolding forms_from
  forms_from_step [] fuel h = cc
  forms_from_step (c ∷ s) fuel h = refl

  forms_from_end : (fuel : ℕ) → forms_from from_str fuel [] ≡ parsed nil []
  unfolding forms_from
  forms_from_end zero = refl
  forms_from_end (suc fuel) = refl

  print_full : (f : Form) (t : Text) → CanPrint f → is_empty (print_form f ++ t) ≡ false
  print_full f t h = let (c, s, e, b) = print_head f h in rw e refl

  forms_from_print :
      (fs : Forms) (fuel : ℕ)
      → CanPrintAll fs
      → length (print_forms fs) < fuel
      → forms_from from_str fuel (print_forms fs) ≡ parsed fs []
  unfolding print_forms space
  forms_from_print fs zero h l = absurd (omega (arith, l))
  forms_from_print nil (suc fuel) h l = forms_from_end (suc fuel)
  forms_from_print (cons f fs) (suc fuel) h l =
      let s = print_form f ++ 32 ∷ print_forms fs in
      let first : form from_str (2 * length s + 2) s ≡ parsed f (32 ∷ print_forms fs) =
        form_print f (2 * length s + 2) (print_forms fs) h.0 (omega arith) in
      let others : forms_from from_str fuel (print_forms fs) ≡ parsed fs [] =
        forms_from_print fs fuel h.1
          (omega (arith, l, length-append (print_form f) (32 ∷ print_forms fs))) in
      rw
        (
          forms_from_step s fuel (print_full f (32 ∷ print_forms fs) h.0),
          first,
          skip_tail fs h.1,
          others,
        )
        refl

  -- Parsing gives back the forms that were printed, nested however deep, where no atom is empty, has a
  -- delimiter in it or begins with a quote, and where each string is escaped as in JSON, with no quote
  -- but behind a backslash that takes it along, and `serde_json` decodes it to the string again.
  pub parse_all-print_forms :
      (fs : Forms) → CanPrintAll fs → parse_all from_str (print_forms fs) ≡ parsed fs []
  unfolding parse_all space
  parse_all-print_forms fs h =
      rw (skip_tail fs h) (forms_from_print fs (suc (length (print_forms fs))) h (omega arith))
