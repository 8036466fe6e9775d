-- ===== src/Behavior/Queries.antt =====
-- What `query` of behavior.rs finds, and in which order.
use Prim.Native.Nat.{Ordering}
use exokephalos.Prelude.{
  ℕ, zero, suc, ◌≤◌, ◌≡◌, refl, ap, ◌⊎◌, inl, inr, Bool, true, false, Option, List, [], ◌∷◌, arith,
  In, In-keep, keep, take, length,
}
use exokephalos.Prelude.Order.{nat_ord, flip, then_with}
use exokephalos.Prelude.Result.{ok, Result-cases}
use exokephalos.Prelude.Sort.{IsPreorder, sort_by, IsSorted, AllAbove, In-sort_by, sort_by-IsSorted}
use exokephalos.Prelude.Text.{Text, text_ord}
use exokephalos.Behavior.Types.{ViewDescriptor, SubviewDescriptor, Query, WorkspaceBehavior}
use exokephalos.Behavior.{
  Rendering, query, validate, find_view, find_subview, is_selected, sort_field, is_descending,
  compare_notes, compare_fields, index_item, bit, field, limit_of,
}
use exokephalos.Domain.{Note}

In-take : {A : Type 0} (n : ℕ) (a : A) (xs : List A) → In a (take n xs) → In a xs
In-take zero a xs m = absurd m
In-take (suc n) a [] m = m
In-take (suc n) a (x ∷ xs) m = ground (arith, In-take n a xs)

length-take_bound : {A : Type 0} (n : ℕ) (xs : List A) → length (take n xs) ≤ n
length-take_bound zero xs = ground arith
length-take_bound (suc n) [] = ground arith
length-take_bound (suc n) (x ∷ xs) = ground (arith, length-take_bound n xs)

cut_or_all :
    {A : Type 0} (n : ℕ) (a : A) (xs : List A)
    → In a xs
    → (length (take n xs) ≡ n) ⊎ In a (take n xs)
cut_or_all zero a xs m = inl refl
cut_or_all (suc n) a [] m = absurd m
cut_or_all (suc n) a (x ∷ xs) m = ground (arith, cut_or_all n a xs)

module _ {A : Type 0} (cmp : A → A → Ordering) where
  AllAbove-take : (n : ℕ) (x : A) (xs : List A) → AllAbove cmp x xs → AllAbove cmp x (take n xs)
  AllAbove-take zero x xs a = tt
  AllAbove-take (suc n) x [] a = a
  AllAbove-take (suc n) x (y ∷ xs) a = (a.0, AllAbove-take n x xs a.1)

  IsSorted-take : (n : ℕ) (xs : List A) → IsSorted cmp xs → IsSorted cmp (take n xs)
  IsSorted-take zero xs s = tt
  IsSorted-take (suc n) [] s = s
  IsSorted-take (suc n) (x ∷ xs) s = (AllAbove-take n x xs s.0, IsSorted-take n xs s.1)

module _ {A : Type 0} (cmp : A → A → Ordering) (p : IsPreorder cmp) where
  flipped-IsPreorder : IsPreorder (λ (a b : A). flip (cmp a b))
  flipped-IsPreorder = record {
    cmp_flip = λ a b. ap flip (p.cmp_flip a b);
    cmp_trans = λ a b c ab bc.
        ground (arith, ab, bc, p.cmp_flip a b, p.cmp_flip b c, p.cmp_flip a c, p.cmp_trans c b a);
  }

  -- Greater ranks first, and the comparison among equal ranks.
  ranked-IsPreorder :
      (f : A → ℕ) → IsPreorder (λ (a b : A). then_with (nat_ord.order (f b) (f a)) (cmp a b))
  ranked-IsPreorder f = record {
    cmp_flip = λ a b. ground (arith, nat_ord.order_flip (f b) (f a), p.cmp_flip a b);
    cmp_trans = λ a b c. ground (
      arith,
      nat_ord.order_trans (f c) (f b) (f a),
      nat_ord.eq_of_order (f b) (f a),
      nat_ord.eq_of_order (f c) (f b),
      nat_ord.order_self (f a),
      p.cmp_trans a b c,
    );
  }

module _ (r : Rendering) where
  pub fields-IsPreorder : (name : Text) → IsPreorder (compare_fields r name)
  fields-IsPreorder name = record {
    cmp_flip = λ a b. ground (
      arith,
      text_ord.order_flip (r.to_lowercase (field r a name)) (r.to_lowercase (field r b name)),
      text_ord.order_flip a.id b.id,
    );
    cmp_trans = λ a b c.
        let f : Note → Text = λ n. r.to_lowercase (field r n name) in
        ground (
          arith,
          text_ord.order_trans (f a) (f b) (f c),
          text_ord.eq_of_order (f a) (f b),
          text_ord.eq_of_order (f b) (f c),
          text_ord.order_self (f a),
          text_ord.order_trans a.id b.id c.id,
          text_ord.eq_of_order a.id b.id,
          text_ord.eq_of_order b.id c.id,
          text_ord.order_self a.id,
        );
  }

  notes-IsPreorder :
      (name : Text) (descending : Bool) → IsPreorder (compare_notes r name descending)
  unfolding compare_notes
  notes-IsPreorder name true =
      ranked-IsPreorder (λ a b. flip (compare_fields r name a b))
        (flipped-IsPreorder (compare_fields r name) (fields-IsPreorder name))
        (λ n. bit r (index_item n))
  notes-IsPreorder name false =
      ranked-IsPreorder (compare_fields r name) (fields-IsPreorder name) (λ n. bit r (index_item n))

  pub validated_limit : (b : WorkspaceBehavior) → validate r b ≡ ok tt → b.query_limit ≤ 500
  unfolding validate
  validated_limit b v = ground (arith, v)

  abbrev pub ranking : Option ViewDescriptor → Option SubviewDescriptor → Note → Note → Ordering
  ranking view subview = compare_notes r (sort_field r view subview) (is_descending r view)

  -- A query that returns did not fail, and returns the first notes of the sorted selection.
  pub query_parts :
      (b : WorkspaceBehavior) (notes found : List Note) (q : Query) (view : Option ViewDescriptor)
      (subview : Option SubviewDescriptor)
      → find_view r b q.view ≡ ok view
      → find_subview r view q.subview ≡ ok subview
      → query r b notes q ≡ ok found
      → (validate r b ≡ ok tt)
        × (take
              (limit_of r q.limit b.query_limit)
              (sort_by (ranking view subview) (keep (is_selected r view subview q) notes))
            ≡ found)
  unfolding query
  query_parts b notes found q view subview v s ran = elim (Result-cases (validate r b)) [
    | inr (e, failed) ↦ ground (arith, failed)
    | inl (u, valid) ↦ (valid, ground (arith, valid, v, s, ran))
  ]

  module _ (b : WorkspaceBehavior) (notes : List Note) (q : Query) (view : Option ViewDescriptor)
      (subview : Option SubviewDescriptor) where
    abbrev pub answer : List Note
    answer =
        take (limit_of r q.limit b.query_limit)
          (sort_by (ranking view subview) (keep (is_selected r view subview q) notes))

    pub answer_sound :
        (note : Note) → In note answer → In note notes × (is_selected r view subview q note ≡ true)
    answer_sound note i =
        let kept = keep (is_selected r view subview q) notes in
        (In-keep (is_selected r view subview q) note notes).0 (
          (In-sort_by (ranking view subview) note kept).0 (
            In-take (limit_of r q.limit b.query_limit) note (sort_by (ranking view subview) kept)
              i))

    pub answer_complete :
        (note : Note)
        → In note notes
        → is_selected r view subview q note ≡ true
        → (length answer ≡ limit_of r q.limit b.query_limit) ⊎ In note answer
    answer_complete note i selected =
        let kept = keep (is_selected r view subview q) notes in
        cut_or_all (limit_of r q.limit b.query_limit) note (sort_by (ranking view subview) kept) (
          (In-sort_by (ranking view subview) note kept).1
            ((In-keep (is_selected r view subview q) note notes).1 (i, selected)))

    pub answer-IsSorted : IsSorted (ranking view subview) answer
    answer-IsSorted = IsSorted-take (ranking view subview) (limit_of r q.limit b.query_limit) _ (
        sort_by-IsSorted (ranking view subview)
          (notes-IsPreorder (sort_field r view subview) (is_descending r view))
          (keep (is_selected r view subview q) notes))

    pub answer_short : length answer ≤ limit_of r q.limit b.query_limit
    answer_short = length-take_bound (limit_of r q.limit b.query_limit) _
