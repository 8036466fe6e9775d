-- ===== src/Behavior/Types.antt =====
-- The descriptors of behavior.rs: views, actions and what they are allowed to do.
use Prim.Native.Nat.{Ordering}
use exokephalos.Prelude.{ℕ, zero, suc, ◌≡◌, refl, Bool, Option, List, [], ◌∷◌, arith, ap}
use exokephalos.Prelude.Map.{BTreeMap}
use exokephalos.Prelude.Order.{Ord, IsTotal, nat_ord}
use exokephalos.Prelude.Set.{BTreeSet, collect}
use exokephalos.Prelude.Text.{Text}
use exokephalos.Domain.{FrontmatterValue}

pub data Capability : Type 0 where
  create_note mutate_note network read_secret : Capability

pub data BehaviorError : Type 0 where
  unsupported_schema : ℕ → BehaviorError
  duplicate : Text → Text → BehaviorError
  unknown_view : Text → BehaviorError
  unknown_subview : Text → BehaviorError
  unknown_action : Text → BehaviorError
  action_unavailable : Text → BehaviorError
  capability_denied : Text → Capability → BehaviorError
  invalid_query_limit : BehaviorError

mutual
  pub data Predicate : Type 0 where
    always : Predicate
    field_equals : Text → Text → Predicate
    has_tag : Text → Predicate
    negation : Predicate → Predicate
    all_of : Predicates → Predicate
    any_of : Predicates → Predicate

  pub data Predicates : Type 0 where
    nothing : Predicates
    also : Predicate → Predicates → Predicates

pub data ActionEffect : Type 0 where
  add_tag : Text → ActionEffect
  remove_tag : Text → ActionEffect
  set_field : Text → FrontmatterValue → ActionEffect
  set_field_now : Text → ActionEffect
  append_body : Text → ActionEffect

-- The derived order of capabilities is that of their declaration.
abbrev pub rank : Capability → ℕ
rank create_note = 0
rank mutate_note = 1
rank network = 2
rank read_secret = 3

abbrev of_rank : ℕ → Capability
of_rank zero = create_note
of_rank (suc zero) = mutate_note
of_rank (suc (suc zero)) = network
of_rank (suc (suc (suc n))) = read_secret

of_rank-rank : (c : Capability) → of_rank (rank c) ≡ c
of_rank-rank create_note = refl
of_rank-rank mutate_note = refl
of_rank-rank network = refl
of_rank-rank read_secret = refl

abbrev pub compare_capabilities : Capability → Capability → Ordering
compare_capabilities a b = nat_ord.order (rank a) (rank b)

pub capabilities-IsTotal : IsTotal compare_capabilities
capabilities-IsTotal = record {
  eq_of_order = λ a b e.
      ground (
        arith,
        ap of_rank (nat_ord.eq_of_order (rank a) (rank b) e),
        of_rank-rank a,
        of_rank-rank b,
      );
  order_self = λ a. nat_ord.order_self (rank a);
  order_flip = λ a b. nat_ord.order_flip (rank a) (rank b);
  order_trans = λ a b c. nat_ord.order_trans (rank a) (rank b) (rank c);
}

instance abbrev pub capability_ord : Ord Capability
capability_ord = record { order = compare_capabilities; total = capabilities-IsTotal }

pub data ActionPlugin : Type 0 where
  capture_url : ActionPlugin
  tag_picker : ActionPlugin
  steel : Text → Text → Text → BTreeSet Capability → ActionPlugin

abbrev pub required_capabilities : ActionPlugin → BTreeSet Capability
required_capabilities capture_url = collect (create_note ∷ network ∷ [])
required_capabilities tag_picker = collect (mutate_note ∷ [])
required_capabilities (steel path entrypoint prompt capabilities) = capabilities

pub record SubviewDescriptor : Type 0 where
  pub id : Text
  pub name : Text
  pub sort_field : Option Text
  pub predicate : Predicate

pub record ViewDescriptor : Type 0 where
  pub id : Text
  pub name : Text
  pub key : Option Text
  pub show_tags : Bool
  pub title_field : Text
  pub subtitle_field : Option Text
  pub sort_field : Option Text
  pub descending : Bool
  pub preview : Option Text
  pub predicate : Predicate
  pub subviews : List SubviewDescriptor

pub record ActionDescriptor : Type 0 where
  pub id : Text
  pub description : Text
  pub predicate : Predicate
  pub effects : List ActionEffect
  pub plugin : Option ActionPlugin

pub record TemplateDescriptor : Type 0 where
  pub id : Text
  pub path : Text
  pub content : Text

pub record Query : Type 0 where
  pub view : Text
  pub subview : Option Text
  pub title : Option Text
  pub tags : BTreeSet Text
  pub limit : Option ℕ

pub record WorkspaceBehavior : Type 0 where
  pub schema : ℕ
  pub default_view : Text
  pub views : List ViewDescriptor
  pub actions : List ActionDescriptor
  pub templates : List TemplateDescriptor
  pub capability_grants : BTreeMap Text (BTreeSet Capability)
  pub query_limit : ℕ

abbrev pub behavior_schema : ℕ
behavior_schema = 1

abbrev pub default_query_limit : ℕ
default_query_limit = 500
