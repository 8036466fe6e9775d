-- ===== src/Behavior/Tags.antt =====
-- What the effects of an action do to the tags of a note.
use exokephalos.Prelude.{◌≡◌, ◌≢◌, refl, ◌∙◌, ap, Option, none, some, List, [], ◌∷◌, arith}
use exokephalos.Prelude.Map.{get, get-insert}
use exokephalos.Prelude.Order.{same_iff, compare_lists}
use exokephalos.Prelude.Set
use exokephalos.Prelude.Set.{
  BTreeSet, collect, extend, IsAscending, In-extend, extend-IsAscending, insert-IsAscending,
  remove-IsAscending, set_ext,
}
use exokephalos.Prelude.Text.{Text, text, text_ord}
use exokephalos.Behavior.Types.{add_tag, remove_tag}
use exokephalos.Behavior.{Rendering, strings, string_values, tags, tags_of, set_tags, apply}
use exokephalos.Domain.{
  FrontmatterValue, null, bool, integer, float, string, sequence, mapping, Note,
}

collect_lem : (s : BTreeSet Text) → IsAscending s → collect s ≡ s
collect_lem s a =
    set_ext (collect s) s (extend-IsAscending [] s tt) a (λ k. ground (arith, In-extend k [] s))

strings-string_values : (s : List Text) → strings (string_values s) ≡ s
strings-string_values [] = refl
strings-string_values (x ∷ s) = ap (◌∷◌ x) (strings-string_values s)

module _ (r : Rendering) where
  tags_of-IsAscending : (v : Option FrontmatterValue) → IsAscending (tags_of r v)
  tags_of-IsAscending none = tt
  tags_of-IsAscending (some null) = tt
  tags_of-IsAscending (some (bool b)) = tt
  tags_of-IsAscending (some (integer n)) = tt
  tags_of-IsAscending (some (float bits)) = tt
  tags_of-IsAscending (some (string s)) = extend-IsAscending [] _ tt
  tags_of-IsAscending (some (sequence vs)) = extend-IsAscending [] (strings vs) tt
  tags_of-IsAscending (some (mapping fs)) = tt

  tags-set_tags :
      (note : Note) (values : BTreeSet Text)
      → IsAscending values
      → tags r (set_tags r note values) ≡ values
  unfolding tags set_tags compare_lists
  tags-set_tags note values a =
      ap (tags_of r)
        (get-insert (text "tags") (text "tags") (sequence (string_values values)) note.frontmatter)
      ∙ ap collect (strings-string_values values)
      ∙ collect_lem values a

  tags-IsAscending : (note : Note) → IsAscending (tags r note)
  unfolding tags
  tags-IsAscending note = tags_of-IsAscending (get (text "tags") note.frontmatter)

  other_field :
      (note : Note) (values : BTreeSet Text) (name : Text)
      → name ≢ text "tags"
      → get name (set_tags r note values).frontmatter ≡ get name note.frontmatter
  unfolding set_tags
  other_field note values name other = ground (
    arith,
    get-insert (text "tags") name (sequence (string_values values)) note.frontmatter,
    same_iff (text "tags") name,
    other,
  )

  set_tags_body : (note : Note) (values : BTreeSet Text) → (set_tags r note values).body ≡ note.body
  unfolding set_tags
  set_tags_body note values = refl

  -- Adding a tag adds it to the set of tags and nothing else, removing a tag removes it and nothing
  -- else, in whichever way the note had written its tags; neither touches another field, or the body.
  pub tag_effects :
      (note : Note) (tag now name : Text)
      → name ≢ text "tags"
      → (tags r (apply r (add_tag tag) now note) ≡ Set.insert tag (tags r note))
        × (tags r (apply r (remove_tag tag) now note) ≡ Set.remove tag (tags r note))
        × (get name (apply r (add_tag tag) now note).frontmatter ≡ get name note.frontmatter)
        × (get name (apply r (remove_tag tag) now note).frontmatter ≡ get name note.frontmatter)
        × ((apply r (add_tag tag) now note).body ≡ note.body)
        × ((apply r (remove_tag tag) now note).body ≡ note.body)
  unfolding apply
  tag_effects note tag now name other =
      let values = tags r note in
      (
        tags-set_tags note (Set.insert tag values)
            (insert-IsAscending tag values (tags-IsAscending note)),
        tags-set_tags note (Set.remove tag values)
            (remove-IsAscending tag values (tags-IsAscending note)),
        other_field note (Set.insert tag values) name other,
        other_field note (Set.remove tag values) name other,
        set_tags_body note (Set.insert tag values),
        set_tags_body note (Set.remove tag values),
      )
