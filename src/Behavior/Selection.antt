-- ===== src/Behavior/Selection.antt =====
-- What a query of behavior.rs answers, and in which order, described without the tests of the code.
use Prim.Native.Nat.{Ordering}
use Prim.Native.Nat.Ordering.{lt, gt}
use exokephalos.Prelude.{
  ℕ, ◌≤◌, ◌≡◌, ◌≢◌, refl, sym, ap, subst, ◌∙◌, ◌⊎◌, inl, inr, true, false, Option, none, some, List,
  [], ◌∷◌, ◌++◌, arith, In, length, Bool-cases, Option-cases, if◌then◌else◌,
}
use exokephalos.Prelude.Order.{nat_ord, is_gt, flip}
use exokephalos.Prelude.Result.{ok}
use exokephalos.Prelude.Sort.{IsSorted, AllAbove}
use exokephalos.Prelude.Text.{Text, text, text_ord}
use exokephalos.Behavior.Matching.{IsSelected, is_selected_iff, some_eq}
use exokephalos.Behavior.Queries.{
  query_parts, answer_sound, answer_complete, answer-IsSorted, answer_short, ranking,
  validated_limit, fields-IsPreorder,
}
use exokephalos.Behavior.Types.{ViewDescriptor, SubviewDescriptor, Query, WorkspaceBehavior}
use exokephalos.Behavior.{
  Rendering, query, find_view, find_subview, or_created, view_field, compare_fields, sort_field,
  is_descending, compare_notes, index_item, field, limit_of,
}
use exokephalos.Domain.{Note}

reached :
    {A : Type 0} (cmp : A → A → Ordering) (x y : A) (between after : List A)
    → AllAbove cmp x (between ++ y ∷ after)
    → is_gt (cmp x y) ≡ false
reached cmp x y [] after (h, k) = h
reached cmp x y (z ∷ between) after (h, k) = reached cmp x y between after k

in_order :
    {A : Type 0} (cmp : A → A → Ordering) (x y : A) (before between after : List A)
    → IsSorted cmp (before ++ x ∷ between ++ y ∷ after)
    → is_gt (cmp x y) ≡ false
in_order cmp x y [] between after (above, rest) = reached cmp x y between after above
in_order cmp x y (z ∷ before) between after (above, rest) =
    in_order cmp x y before between after rest

module _ (r : Rendering) where
  -- By which field the notes are ordered.
  pub data SortKey (view : Option ViewDescriptor) (subview : Option SubviewDescriptor) (name : Text)
      : Type 0 where
    by_subview :
        (s : SubviewDescriptor)
        → subview ≡ some s
        → s.sort_field ≡ some name
        → SortKey view subview name
    by_view :
        (v : ViewDescriptor)
        → ((s : SubviewDescriptor) → subview ≡ some s → s.sort_field ≡ none)
        → view ≡ some v
        → v.sort_field ≡ some name
        → SortKey view subview name
    by_creation :
        ((s : SubviewDescriptor) → subview ≡ some s → s.sort_field ≡ none)
        → ((v : ViewDescriptor) → view ≡ some v → v.sort_field ≡ none)
        → name ≡ text "created"
        → SortKey view subview name

  view_key :
      (view : Option ViewDescriptor) (subview : Option SubviewDescriptor)
      → ((s : SubviewDescriptor) → subview ≡ some s → s.sort_field ≡ none)
      → SortKey view subview (or_created r (view_field r view))
  view_key none subview without = by_creation without (λ v e. absurd (ground (arith, e))) refl
  view_key (some v) subview without = elim (Option-cases v.sort_field) [
    | inl e ↦
        by_creation without (λ w f. subst (λ x. x.sort_field ≡ none) (some_eq f) e)
          (ap (or_created r) e)
    | inr (name, e) ↦ by_view v without refl (e ∙ ap (λ x. some x) (sym (ap (or_created r) e)))
  ]

  sort_field-SortKey :
      (view : Option ViewDescriptor) (subview : Option SubviewDescriptor)
      → SortKey view subview (sort_field r view subview)
  sort_field-SortKey view none = view_key view none (λ s e. absurd (ground (arith, e)))
  sort_field-SortKey view (some s) = elim (Option-cases s.sort_field) [
    | inr (name, e) ↦ by_subview s refl (rw e refl)
    | inl e ↦
        subst (SortKey view (some s)) (rw e refl)
          (view_key view (some s) (λ t f. subst (λ x. x.sort_field ≡ none) (some_eq f) e))
  ]

  -- `a` may stand before `b` by a field, read in lower case, and by the identifier among equals.
  abbrev pub InOrder : Text → Note → Note → Type 0
  InOrder name a b =
      (text_ord.order (r.to_lowercase (field r a name)) (r.to_lowercase (field r b name)) ≡ lt)
      ⊎ ((r.to_lowercase (field r a name) ≡ r.to_lowercase (field r b name))
          × (text_ord.order a.id b.id ≢ gt))

  abbrev pub Directed : Option ViewDescriptor → Text → Note → Note → Type 0
  Directed none name a b = InOrder name a b
  Directed (some v) name a b = if v.descending then InOrder name b a else InOrder name a b

  -- `a` may stand before `b` in what is found.
  abbrev pub Precedes : Option ViewDescriptor → Text → Note → Note → Type 0
  Precedes view name a b =
      ((index_item a ≡ true) × (index_item b ≡ false))
      ⊎ ((index_item a ≡ index_item b) × Directed view name a b)

  fields-InOrder :
      (name : Text) (a b : Note) → is_gt (compare_fields r name a b) ≡ false → InOrder name a b
  fields-InOrder name a b h =
      let x = r.to_lowercase (field r a name) in
      let y = r.to_lowercase (field r b name) in ground (arith, h, text_ord.eq_of_order x y)

  directed :
      (view : Option ViewDescriptor) (name : Text) (a b : Note)
      → is_gt (
          if is_descending r view
          then flip (compare_fields r name a b)
          else compare_fields r name a b)
        ≡ false
      → Directed view name a b
  directed none name a b h = fields-InOrder name a b h
  directed (some v) name a b h = elim (Bool-cases v.descending) [
    | inl e ↦
        subst (λ d. if d then InOrder name b a else InOrder name a b) (sym e)
          (fields-InOrder name b a (ground (arith, h, e, (fields-IsPreorder r name).cmp_flip a b)))
    | inr e ↦
        subst (λ d. if d then InOrder name b a else InOrder name a b) (sym e)
          (fields-InOrder name a b (ground (arith, h, e)))
  ]

  compare_notes-Precedes :
      (view : Option ViewDescriptor) (name : Text) (a b : Note)
      → is_gt (compare_notes r name (is_descending r view) a b) ≡ false
      → Precedes view name a b
  unfolding compare_notes
  compare_notes-Precedes view name a b h =
      let directed = directed view name a b in
      elim (Bool-cases (index_item a)) [
        | inl x ↦ elim (Bool-cases (index_item b)) [
          | inl y ↦ inr (x ∙ sym y, directed (rw (x, y) at h))
          | inr y ↦ inl (x, y)
        ]
        | inr x ↦ elim (Bool-cases (index_item b)) [
          | inl y ↦ absurd (ground (arith, rw (x, y) at h))
          | inr y ↦ inr (x ∙ sym y, directed (rw (x, y) at h))
        ]
      ]

  limits :
      (limit : Option ℕ) (most n : ℕ)
      → n ≤ limit_of r limit most
      → (n ≤ most) × ((m : ℕ) → limit ≡ some m → n ≤ m)
  limits none most n h = (h, λ m e. absurd (ground (arith, e)))
  limits (some k) most n h =
      (ground (arith, h), λ m e. subst (λ x. n ≤ x) (some_eq e) (ground (arith, h)))

  full_or_found :
      {P : Type 0} (limit : Option ℕ) (most n : ℕ)
      → (n ≡ limit_of r limit most) ⊎ P
      → P ⊎ ((n ≡ most) ⊎ (limit ≡ some n))
  full_or_found limit most n (inr p) = inl p
  full_or_found none most n (inl e) = inr (inl e)
  full_or_found (some k) most n (inl e) = ground (arith, e)

  -- Of two notes in this order in a list, the first may stand before the second.
  abbrev pub InSequence : Option ViewDescriptor → Text → List Note → Type 0
  InSequence view name found =
      (x y : Note) (before between after : List Note)
      → found ≡ before ++ x ∷ between ++ y ∷ after
      → Precedes view name x y

  -- A query that returns, with the view and the subview that its names find, finds exactly what it
  -- asks for, up to its limit and in its order: what is found was given, satisfies the predicates of the view and of the subview, contains the title in
  -- its own, both in lower case, and has every tag asked for; a given note of this kind is found, or
  -- as many notes are found as the behaviour or the query allows; of two notes found the one that
  -- stands first is an index note and the other is not, or both are or are not and the first is in
  -- the order of the sort field and the direction of the view; no more are found than 500, than the
  -- behaviour allows and than the query allows.
  pub query_lem :
      (b : WorkspaceBehavior) (notes found : List Note) (q : Query) (view : Option ViewDescriptor)
      (subview : Option SubviewDescriptor)
      → find_view r b q.view ≡ ok view
      → find_subview r view q.subview ≡ ok subview
      → query r b notes q ≡ ok found
      → ((note : Note) → In note found → In note notes × IsSelected r view subview q note)
        × ((note : Note)
            → In note notes
            → IsSelected r view subview q note
            → In note found ⊎ ((length found ≡ b.query_limit) ⊎ (q.limit ≡ some (length found))))
        × ((name : Text) × SortKey view subview name × InSequence view name found)
        × (length found ≤ 500)
        × (length found ≤ b.query_limit)
        × ((n : ℕ) → q.limit ≡ some n → length found ≤ n)
  query_lem b notes found q view subview v s ran =
      let (valid, found_eq) = query_parts r b notes found q view subview v s ran in
      let most : b.query_limit ≤ 500 = validated_limit r b valid in
      let short : length found ≤ limit_of r q.limit b.query_limit =
        subst (λ l. length l ≤ limit_of r q.limit b.query_limit) found_eq
          (answer_short r b notes q view subview) in
      let (short_of_behavior, short_of_query) = limits q.limit b.query_limit (length found) short in
      (
        λ note i.
            let (given, selected) =
              answer_sound r b notes q view subview note (subst (In note) (sym found_eq) i) in
            (given, (is_selected_iff r view subview q note).0 selected),
        λ note given selected.
            subst (λ l. In note l ⊎ ((length l ≡ b.query_limit) ⊎ (q.limit ≡ some (length l))))
              found_eq
              (full_or_found q.limit b.query_limit _ (
                answer_complete r b notes q view subview note given
                  ((is_selected_iff r view subview q note).1 selected))),
        (
          sort_field r view subview,
          sort_field-SortKey view subview,
          λ x y before between after e.
              compare_notes-Precedes view (sort_field r view subview) x y (
                in_order (ranking r view subview) x y before between after (
                  subst (IsSorted (ranking r view subview)) (found_eq ∙ e)
                    (answer-IsSorted r b notes q view subview))),
        ),
        omega (arith, most, short_of_behavior),
        short_of_behavior,
        short_of_query,
      )
