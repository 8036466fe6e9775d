-- ===== src/Behavior/Matching.antt =====
-- Which notes a query of behavior.rs asks for, described without the tests of the code.
use exokephalos.Prelude.{
  ℕ, ◌≡◌, ◌↔◌, refl, sym, ap, subst, ◌⊎◌, inl, inr, Bool, true, false, not, ◌||◌, Option, none,
  some, List, [], ◌∷◌, ◌++◌, arith, In, all, Bool-cases,
}
use exokephalos.Prelude.Order.{nat_ord, same_iff, contains, contains_iff}
use exokephalos.Prelude.Text.{Text, text, text_ord, starts_with}
use exokephalos.Behavior.Types.{
  Predicate, always, field_equals, has_tag, negation, all_of, any_of, Predicates, nothing, also,
  ViewDescriptor, SubviewDescriptor, Query,
}
use exokephalos.Behavior.{
  Rendering, matches, all_match, any_match, in_view, in_subview, has_title, is_selected, field,
  tags,
}
use exokephalos.Domain.{Note}
use exokephalos.Workspace.{contains_text}

starts_iff : (p s : Text) → (starts_with p s ≡ true) ↔ ((b : Text) × (s ≡ p ++ b))
starts_iff [] s = (λ h. (s, refl), λ h. refl)
starts_iff (c ∷ p) [] = (λ h. absurd (ground (arith, h)), λ (b, e). absurd (ground (arith, e)))
starts_iff (c ∷ p) (d ∷ s) = (
  λ h. let (b, e) = (starts_iff p s).0 (ground (arith, h)) in (b, cons_eq (ground (arith, h)) e),
  λ (b, e). ground (arith, head_eq e, (starts_iff p s).1 (b, tail_eq e)),
)
  where
    cons_eq : {c d : ℕ} {s t : Text} → c ≡ d → s ≡ t → (d ∷ s) ≡ (c ∷ t)
    cons_eq e f = cc

    head_eq : {c d : ℕ} {s t : Text} → (d ∷ s) ≡ (c ∷ t) → c ≡ d
    head_eq e = cc

    tail_eq : {c d : ℕ} {s t : Text} → (d ∷ s) ≡ (c ∷ t) → s ≡ t
    tail_eq e = cc

contains_text_iff :
    (p s : Text) → (contains_text p s ≡ true) ↔ ((a : Text) × (b : Text) × (s ≡ a ++ p ++ b))
unfolding contains_text
contains_text_iff p [] =
    (λ h. let (b, e) = (starts_iff p []).0 h in ([], b, e), λ (a, b, e). at_end a b e)
  where
    at_end : (a b : Text) → [] ≡ a ++ p ++ b → starts_with p [] ≡ true
    at_end [] b e = (starts_iff p []).1 (b, e)
    at_end (c ∷ a) b e = absurd (ground (arith, e))
contains_text_iff p (c ∷ s) = (
  λ h. elim (Bool-cases (starts_with p (c ∷ s))) [
    | inl here ↦ let (b, e) = (starts_iff p (c ∷ s)).0 here in ([], b, e)
    | inr not_here ↦
        let (a, b, e) = (contains_text_iff p s).0 (ground (arith, h, not_here)) in
        (c ∷ a, b, ap (λ t. c ∷ t) e)
  ],
  λ (a, b, e). later (λ x h. (contains_text_iff p s).1 h) a b e,
)
  where
    tail_eq : {c d : ℕ} {s t : Text} → (d ∷ s) ≡ (c ∷ t) → s ≡ t
    tail_eq e = cc

    later :
        (Unit {0} → ((a : Text) × (b : Text) × (s ≡ a ++ p ++ b)) → contains_text p s ≡ true)
        → (a b : Text) → (c ∷ s) ≡ a ++ p ++ b
        → starts_with p (c ∷ s) || contains_text p s ≡ true
    later rest [] b e = rw ((starts_iff p (c ∷ s)).1 (b, e)) refl
    later rest (x ∷ a) b e = ground (arith, rest tt (a, b, tail_eq e))

pub some_eq : {A : Type 0} {a b : A} → some a ≡ some b → a ≡ b
some_eq e = cc

not_holds : (b : Bool) → ¬ (b ≡ true) → not b ≡ true
not_holds true h = absurd (h refl)
not_holds false h = refl

module _ (r : Rendering) where
  -- When a predicate holds of a note.
  abbrev mutual
    pub Holds : Predicate → Note → Type 0
    Holds always note = Unit
    Holds (field_equals name value) note = field r note name ≡ value
    Holds (has_tag tag) note = In tag (tags r note)
    Holds (negation p) note = ¬ Holds p note
    Holds (all_of ps) note = HoldAll ps note
    Holds (any_of ps) note = HoldAny ps note

    pub HoldAll : Predicates → Note → Type 0
    HoldAll nothing note = Unit
    HoldAll (also p ps) note = Holds p note × HoldAll ps note

    pub HoldAny : Predicates → Note → Type 0
    HoldAny nothing note = ⊥
    HoldAny (also p ps) note = Holds p note ⊎ HoldAny ps note

  mutual
    unfolding matches

    matches_iff : (p : Predicate) (note : Note) → (matches r p note ≡ true) ↔ Holds p note
    matches_iff always note = (λ h. tt, λ h. refl)
    matches_iff (field_equals name value) note = same_iff (field r note name) value
    matches_iff (has_tag tag) note = contains_iff (tags r note) tag
    matches_iff (negation p) note =
        let (to, from) = matches_iff p note in
        (
          λ h. λ k. absurd (ground (arith, h, from k)),
          λ h. not_holds (matches r p note) (λ e. h (to e)),
        )
    matches_iff (all_of ps) note = all_match_iff ps note
    matches_iff (any_of ps) note = any_match_iff ps note

    all_match_iff : (ps : Predicates) (note : Note) → (all_match r ps note ≡ true) ↔ HoldAll ps note
    all_match_iff nothing note = (λ h. tt, λ h. refl)
    all_match_iff (also p ps) note = ground (arith, matches_iff p note, all_match_iff ps note)

    any_match_iff : (ps : Predicates) (note : Note) → (any_match r ps note ≡ true) ↔ HoldAny ps note
    any_match_iff nothing note = (λ h. absurd (ground (arith, h)), λ h. absurd h)
    any_match_iff (also p ps) note = ground (arith, matches_iff p note, any_match_iff ps note)

  -- What a query asks of a note.
  pub record IsSelected (view : Option ViewDescriptor) (subview : Option SubviewDescriptor)
      (q : Query) (note : Note) : Type 0 where
    pub of_view : (v : ViewDescriptor) → view ≡ some v → Holds v.predicate note
    pub of_subview : (s : SubviewDescriptor) → subview ≡ some s → Holds s.predicate note
    pub titled :
        (t : Text)
        → q.title ≡ some t
        → (a : Text) × (b : Text) × (r.to_lowercase (field r note (text "title"))
            ≡ a ++ r.to_lowercase t ++ b)
    pub tagged : (t : Text) → In t q.tags → In t (tags r note)

  in_view_iff :
      (view : Option ViewDescriptor) (note : Note)
      → (in_view r view note ≡ true)
        ↔ ((v : ViewDescriptor) → view ≡ some v → Holds v.predicate note)
  in_view_iff none note = (λ h. λ v e. absurd (ground (arith, e)), λ h. refl)
  in_view_iff (some w) note = (
    λ h.
        λ v e. subst (λ x. Holds x.predicate note) (some_eq e) ((matches_iff w.predicate note).0 h),
    λ h. (matches_iff w.predicate note).1 (h w refl),
  )

  in_subview_iff :
      (view : Option SubviewDescriptor) (note : Note)
      → (in_subview r view note ≡ true)
        ↔ ((v : SubviewDescriptor) → view ≡ some v → Holds v.predicate note)
  in_subview_iff none note = (λ h. λ v e. absurd (ground (arith, e)), λ h. refl)
  in_subview_iff (some w) note = (
    λ h.
        λ v e. subst (λ x. Holds x.predicate note) (some_eq e) ((matches_iff w.predicate note).0 h),
    λ h. (matches_iff w.predicate note).1 (h w refl),
  )

  has_title_iff :
      (title : Option Text) (note : Note)
      → (has_title r title note ≡ true) ↔ (
          (t : Text)
          → title ≡ some t
          → (a : Text) × (b : Text) × (r.to_lowercase (field r note (text "title"))
              ≡ a ++ r.to_lowercase t ++ b))
  has_title_iff none note = (λ h. λ v e. absurd (ground (arith, e)), λ h. refl)
  has_title_iff (some w) note =
      let (to, from) =
        contains_text_iff (r.to_lowercase w) (r.to_lowercase (field r note (text "title"))) in
      (
        λ h. λ t e.
            subst
              (λ x.
                (a : Text) × (b : Text) × (r.to_lowercase (field r note (text "title"))
                  ≡ a ++ r.to_lowercase x ++ b))
              (some_eq e) (to h),
        λ h. from (h w refl),
      )

  all_tags_iff :
      (asked found : List Text)
      → (all (contains found) asked ≡ true) ↔ ((t : Text) → In t asked → In t found)
  all_tags_iff [] found = (λ h. λ t i. absurd i, λ h. refl)
  all_tags_iff (x ∷ asked) found =
      let (to, from) = all_tags_iff asked found in
      let (here, back) = contains_iff found x in
      (
        λ h. λ t i. elim i [
          | inl e ↦ subst (λ y. In y found) (sym e) (here (ground (arith, h)))
          | inr j ↦ to (ground (arith, h)) t j
        ],
        λ h. rw (back (h x (inl refl)), from (λ t i. h t (inr i))) refl,
      )

  pub is_selected_iff :
      (view : Option ViewDescriptor) (subview : Option SubviewDescriptor) (q : Query) (note : Note)
      → (is_selected r view subview q note ≡ true) ↔ IsSelected view subview q note
  is_selected_iff view subview q note =
      let (v_to, v_from) = in_view_iff view note in
      let (s_to, s_from) = in_subview_iff subview note in
      let (t_to, t_from) = has_title_iff q.title note in
      let (g_to, g_from) = all_tags_iff q.tags (tags r note) in
      (
        λ h. record {
          of_view = v_to (ground (arith, h));
          of_subview = s_to (ground (arith, h));
          titled = t_to (ground (arith, h));
          tagged = g_to (ground (arith, h));
        },
        λ h. rw (v_from h.of_view, s_from h.of_subview, t_from h.titled, g_from h.tagged) refl,
      )
