-- ===== src/Keymap/Bindings.antt =====
-- Which keys the bindings of keymap.rs hold.
use exokephalos.Prelude.{
  ◌≡◌, ◌↔◌, refl, subst, inl, inr, ◌⊎◌, none, some, [], arith, Bool-cases, Option-cases,
}
use exokephalos.Prelude.Map.{get, insert, get-insert, IsAscending, insert-IsAscending}
use exokephalos.Prelude.Order.{same, same_iff}
use exokephalos.Prelude.Result.{Result, Result-cases, ok}
use exokephalos.Prelude.Text.{Text, text, text_ord}
use exokephalos.Keymap.Parser.{Form, list, Forms, nil, cons, parsed, parse_all}
use exokephalos.Keymap.{ActionCall, KeyMap, read_binding, bind_all, from_root, from_source, is_atom}

abbrev pub InForms : Form → Forms → Type 0
InForms f nil = ⊥
InForms f (cons g gs) = (f ≡ g) ⊎ InForms f gs

-- Some form of the list binds the key to the call.
abbrev pub Bound : Forms → Text → ActionCall → Type 0
Bound forms key call = (f : Form) × InForms f forms × (read_binding f ≡ ok (key, call))

bind_step :
    (f : Form) (fs : Forms) (m t : KeyMap)
    → bind_all (cons f fs) m ≡ ok t
    → (key : Text) × (call : ActionCall) × (read_binding f ≡ ok (key, call))
      × (get key m ≡ none)
      × (bind_all fs (insert key call m) ≡ ok t)
unfolding bind_all
bind_step f fs m t e = elim (Result-cases (read_binding f)) [
  | inr (x, b) ↦ absurd (ground (arith, b, e))
  | inl ((key, call), b) ↦ elim (Option-cases (get key m)) [
    | inr (old, g) ↦ absurd (ground (arith, b, g, e))
    | inl g ↦ (key, call, b, g, ground (arith, b, g, e))
  ]
]

end_of : (m t : KeyMap) → bind_all nil m ≡ ok t → m ≡ t
unfolding bind_all
end_of m t e = cc

-- All that was bound before stays, and what is new is bound by a form; each form's key is new.
bind_all_lem :
    (fs : Forms) (m t : KeyMap) (key : Text) (call : ActionCall)
    → bind_all fs m ≡ ok t
    → (get key t ≡ some call) ↔ ((get key m ≡ some call) ⊎ Bound fs key call)
bind_all_lem nil m t key call e = nothing_new
  where
    nothing_new : (get key t ≡ some call) ↔ ((get key m ≡ some call) ⊎ Bound nil key call)
    nothing_new =
        let same_map : m ≡ t = end_of m t e in
        (
          λ h. inl (rw same_map h),
          λ h. elim h [ inl k ↦ rw same_map at k | inr (f, i, r) ↦ absurd i ],
        )
bind_all_lem (cons f fs) m t key call e =
    let (k, c, b, g, e') = bind_step f fs m t e in
    let ih = bind_all_lem fs (insert k c m) t key call e' in
    let at_key = get-insert k key c m in
    (
      λ h. elim (ih.0 h) [
        | inr (f', i, r) ↦ inr (f', inr i, r)
        | inl found ↦ elim (Bool-cases (same k key)) [
          | inl here ↦
              let same_key : k ≡ key = (same_iff k key).0 here in
              let same_call : c ≡ call = ground (arith, at_key, here, found) in
              inr (f, inl refl, ground (arith, b, same_key, same_call))
          | inr other ↦ inl (ground (arith, at_key, other, found))
        ]
      ],
      λ h. elim h [
        | inl old ↦ ih.1 (inl (ground (arith, at_key, old, g, same_iff k key)))
        | inr (f', inl same_form, r) ↦
            let pair : (k ≡ key) × (c ≡ call) = ground (arith, b, r, same_form) in
            ih.1 (inl (ground (arith, at_key, pair, same_iff k key)))
        | inr (f', inr i, r) ↦ ih.1 (inr (f', i, r))
      ],
    )

bind_all-IsAscending :
    (fs : Forms) (m t : KeyMap) → IsAscending m → bind_all fs m ≡ ok t → IsAscending t
bind_all-IsAscending nil m t a e = subst (λ u. IsAscending u) (end_of m t e) a
bind_all-IsAscending (cons f fs) m t a e =
    let (k, c, b, g, e') = bind_step f fs m t e in
    bind_all-IsAscending fs (insert k c m) t (insert-IsAscending k c m a) e'

root_lem :
    (root : Forms) (t : KeyMap)
    → from_root root ≡ ok t
    → (head : Form) × (forms : Forms) × (root ≡ cons head forms) × (bind_all forms [] ≡ ok t)
root_lem nil t e = cc
root_lem (cons head forms) t e = elim (Bool-cases (is_atom head (text "keys"))) [
  | inl keys ↦ (head, forms, refl, ground (arith, keys, e))
  | inr other ↦ absurd (ground (arith, other, e))
]

nothing : (key : Text) (call : ActionCall) → get key [] ≡ some call → ⊥
unfolding get
nothing key call h = cc

-- A keymap that loads binds a key to a call exactly if one of its `(bind key action)` forms does, and
-- lists its keys in order, each once: no binding is lost to another one.
pub from_source_exact :
    (from_str : Text → Result Text Text) (content rest : Text) (root : Forms) (t : KeyMap)
    → parse_all from_str content ≡ parsed (cons (list root) nil) rest
    → from_source from_str content ≡ ok t
    → IsAscending t
      × ((head : Form) × (forms : Forms) × (root ≡ cons head forms)
          × ((key : Text) (call : ActionCall) → (get key t ≡ some call) ↔ Bound forms key call))
unfolding from_source
from_source_exact from_str content rest root t p e =
    let loaded : from_root root ≡ ok t = rw p at e in
    let (head, forms, shape, bound) = root_lem root t loaded in
    (
      bind_all-IsAscending forms [] t tt bound,
      (
        head,
        forms,
        shape,
        λ key call.
            let lem = bind_all_lem forms [] t key call bound in
            (
              λ h. elim (lem.0 h) [ inl k ↦ absurd (nothing key call k) | inr b ↦ b ],
              λ h. lem.1 (inr h),
            ),
      ),
    )
