-- ===== src/Behavior.antt =====
-- crates/xo-core/src/behavior.rs: the queries and actions that a workspace declares. Lower case,
-- trimming and the printing of numbers and of JSON are the parameter `Rendering`.
pub mod Examples
pub mod Grants
pub mod Matching
mod Notes
pub mod Queries
pub mod Selection
pub mod Tags
pub mod Types
unfoldable pub use Notes.*
use Prim.Native.Nat.{Ordering}
use exokephalos.Prelude.{
  ℕ, min, Bool, true, false, not, ◌&&◌, ◌||◌, Option, none, some, List, [], ◌∷◌, ◌++◌, map,
  is_empty, all, any, keep, find, take, ◌==◌, leb, if◌then◌else◌,
}
use exokephalos.Prelude.Int.{ℤ}
use exokephalos.Prelude.Map.{BTreeMap, get, insert}
use exokephalos.Prelude.Order.{same, contains, then_with, flip, nat_ord}
use exokephalos.Prelude.Paths.{split_at}
use exokephalos.Prelude.Result.{Result, ok, err, ensure, ok_or, try_for_each, ◌>>=◌, ◌>>◌}
use exokephalos.Prelude.Set
use exokephalos.Prelude.Set.{BTreeSet, collect}
use exokephalos.Prelude.Sort.{sort_by}
use exokephalos.Prelude.Text.{Text, text, text_ord}
use exokephalos.Behavior.Types.{
  Capability, mutate_note, capability_ord, BehaviorError, unsupported_schema, duplicate,
  unknown_view, unknown_subview, unknown_action, action_unavailable, capability_denied,
  invalid_query_limit, Predicate, always, field_equals, has_tag, negation, all_of, any_of,
  Predicates, nothing, also, ActionEffect, add_tag, remove_tag, set_field, set_field_now,
  append_body, ActionPlugin, required_capabilities, SubviewDescriptor, ViewDescriptor,
  ActionDescriptor, Query, WorkspaceBehavior, behavior_schema, default_query_limit,
}
use exokephalos.Domain.{
  FrontmatterValue, null, bool, integer, float, string, sequence, mapping, Values, nil, cons, Note,
}
use exokephalos.Workspace.{contains_text}

-- `unique`
unfoldable pub unique_from : Text → List Text → BTreeSet Text → Result BehaviorError (Unit {0})
unique_from kind [] seen = ok tt
unique_from kind (value ∷ rest) seen =
    let others = unique_from kind rest (Set.insert value seen) in
    if is_empty value || contains seen value then err (duplicate kind value) else others

abbrev pub unique : Text → List Text → Result BehaviorError (Unit {0})
unique kind values = unique_from kind values []

module _ (r : Rendering) where
  abbrev pub is_always : Predicate → Bool
  is_always always = true
  is_always p = false

  -- Whether an action may be used on a note, or on none.
  abbrev pub is_available : Option ActionPlugin → Predicate → Option Note → Bool
  is_available plugin p (some note) = matches r p note
  is_available none p none = false
  is_available (some plugin) p none = is_always p

  abbrev pub plugin_capabilities : Option ActionPlugin → BTreeSet Capability
  plugin_capabilities none = []
  plugin_capabilities (some plugin) = required_capabilities plugin

  abbrev pub required : ActionDescriptor → BTreeSet Capability
  required a =
      if is_empty a.effects
      then plugin_capabilities a.plugin
      else Set.insert mutate_note (plugin_capabilities a.plugin)

  abbrev pub is_granted : Option (BTreeSet Capability) → Capability → Bool
  is_granted none c = false
  is_granted (some grants) c = contains grants c

  -- `WorkspaceBehavior::action`
  unfoldable pub action :
      WorkspaceBehavior → Option Note → Text → Result BehaviorError ActionDescriptor
  action b note id = do
    a ← ok_or (unknown_action id) (find (λ a. same a.id id) b.actions)
    ensure (is_available a.plugin a.predicate note) (action_unavailable id)
    try_for_each (λ c. ensure (is_granted (get id b.capability_grants) c) (capability_denied id c))
        (required a)
    ok a

  unfoldable pub apply_action : WorkspaceBehavior → Note → Text → Text → Result BehaviorError Note
  apply_action b note id now = do a ← action b (some note) id; ok (apply_all r a.effects now note)

  -- `WorkspaceBehavior::validate`
  unfoldable pub validate : WorkspaceBehavior → Result BehaviorError (Unit {0})
  validate b = do
    ensure (b.schema == behavior_schema) (unsupported_schema b.schema)
    ensure (leb 1 b.query_limit && leb b.query_limit default_query_limit) invalid_query_limit
    unique (text "view") (map (λ v. v.id) b.views)
    unique (text "action") (map (λ a. a.id) b.actions)
    unique (text "template") (map (λ t. t.id) b.templates)
    try_for_each (λ v. unique (text "subview") (map (λ s. s.id) v.subviews)) b.views
    ensure (same b.default_view (text "all") || any (λ v. same v.id b.default_view) b.views)
        (unknown_view b.default_view)

  abbrev pub find_view : WorkspaceBehavior → Text → Result BehaviorError (Option ViewDescriptor)
  find_view b view =
      if is_empty view || same view (text "all")
      then ok none
      else (do v ← ok_or (unknown_view view) (find (λ v. same v.id view) b.views); ok (some v))

  abbrev pub find_subview :
      Option ViewDescriptor → Option Text → Result BehaviorError (Option SubviewDescriptor)
  find_subview view none = ok none
  find_subview none (some id) = err (unknown_subview id)
  find_subview (some v) (some id) = do
    s ← ok_or (unknown_subview id) (find (λ s. same s.id id) v.subviews)
    ok (some s)

  abbrev pub in_view : Option ViewDescriptor → Note → Bool
  in_view none note = true
  in_view (some v) note = matches r v.predicate note

  abbrev pub in_subview : Option SubviewDescriptor → Note → Bool
  in_subview none note = true
  in_subview (some s) note = matches r s.predicate note

  abbrev pub has_title : Option Text → Note → Bool
  has_title none note = true
  has_title (some title) note =
      contains_text (r.to_lowercase title) (r.to_lowercase (field r note (text "title")))

  abbrev pub is_selected : Option ViewDescriptor → Option SubviewDescriptor → Query → Note → Bool
  is_selected view subview q note =
      in_view view note
      && (in_subview subview note
          && (has_title q.title note && all (contains (tags r note)) q.tags))

  abbrev pub or_created : Option Text → Text
  or_created none = text "created"
  or_created (some name) = name

  abbrev pub view_field : Option ViewDescriptor → Option Text
  view_field none = none
  view_field (some v) = v.sort_field

  abbrev pub sort_field : Option ViewDescriptor → Option SubviewDescriptor → Text
  sort_field view none = or_created (view_field view)
  sort_field view (some s) = elim s.sort_field [
    | some name ↦ name
    | none ↦ or_created (view_field view)
  ]

  abbrev pub is_descending : Option ViewDescriptor → Bool
  is_descending none = false
  is_descending (some v) = v.descending

  abbrev pub bit : Bool → ℕ
  bit true = 1
  bit false = 0

  abbrev pub compare_fields : Text → Note → Note → Ordering
  compare_fields name a b =
      then_with (text_ord.order (r.to_lowercase (field r a name)) (r.to_lowercase (field r b name)))
        (text_ord.order a.id b.id)

  -- Index notes first.
  unfoldable pub compare_notes : Text → Bool → Note → Note → Ordering
  compare_notes name descending a b =
      let order = compare_fields name a b in
      then_with (nat_ord.order (bit (index_item b)) (bit (index_item a)))
        (if descending then flip order else order)

  abbrev pub limit_of : Option ℕ → ℕ → ℕ
  limit_of none most = most
  limit_of (some n) most = min n most

  -- `WorkspaceBehavior::query`
  unfoldable pub query : WorkspaceBehavior → List Note → Query → Result BehaviorError (List Note)
  query b notes q = do
    validate b
    view ← find_view b q.view
    subview ← find_subview view q.subview
    ok (
        take (limit_of q.limit b.query_limit) (
          sort_by (compare_notes (sort_field view subview) (is_descending view))
            (keep (is_selected view subview q) notes)))
