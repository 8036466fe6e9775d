-- ===== src/Resolution/Ancestor.antt =====
-- `is_ancestor` of resolution.rs and the predecessor links.
pub mod Fuel
use exokephalos.Prelude.{
  ℕ, zero, suc, ◌+◌, ◌≤◌, ◌<◌, ◌≡◌, ◌≢◌, refl, ◌↔◌, ◌⊎◌, inl, inr, Bool, true, false, Option, none,
  some, List, [], ◌∷◌, subst, arith, In, length, Option-cases, Bool-cases,
}
use exokephalos.Prelude.Map.{get}
use exokephalos.Prelude.Order.{same, same_iff, contains, contains_iff}
use exokephalos.Prelude.Set.{BTreeSet, insert, In-insert}
use exokephalos.Prelude.Text.{text_ord}
use exokephalos.Domain.{RevisionId, NoteRevision}
use exokephalos.Resolution.{
  Revisions, Round, found, more, push_predecessors, visit, search, edges, is_ancestor,
}
use exokephalos.Resolution.Ancestor.Fuel.{Round-cases, search_ends}

-- The revisions that predecessor links lead to from `d`, with `d` itself.
pub data Walk (revisions : Revisions) (d : RevisionId) : RevisionId → Type 0 where
  here : Walk revisions d d
  step :
      {c : RevisionId} (r : NoteRevision) (p : RevisionId)
      → Walk revisions d c
      → get c revisions ≡ some r
      → In p r.predecessors
      → Walk revisions d p

-- `a` is a predecessor of `d`, or of a predecessor of `d`, and so on.
abbrev pub Precedes : Revisions → RevisionId → RevisionId → Type 0
Precedes revisions a d =
    (c : RevisionId) × (r : NoteRevision) × Walk revisions d c
    × (get c revisions ≡ some r)
    × In a r.predecessors

-- What a stack may hold: all that `P` holds of.
abbrev AllOf : (RevisionId → Type 0) → List RevisionId → Type 0
AllOf P [] = Unit
AllOf P (x ∷ xs) = P x × AllOf P xs

push_none :
    (target : RevisionId) (ps pending : List RevisionId)
    → push_predecessors target ps pending ≡ none
    → In target ps
unfolding push_predecessors
push_none target [] pending h = cc
push_none target (p ∷ ps) pending h =
    ground (arith, push_none target ps (p ∷ pending), same_iff p target)

push_AllOf :
    (P : RevisionId → Type 0) (target : RevisionId) (ps pending pending' : List RevisionId)
    → push_predecessors target ps pending ≡ some pending'
    → ((p : RevisionId) → In p ps → P p)
    → AllOf P pending
    → AllOf P pending'
unfolding push_predecessors
push_AllOf P target [] pending pending' h all rest = subst (AllOf P) (ground arith) rest
push_AllOf P target (p ∷ ps) pending pending' h all rest = elim (Bool-cases (same p target)) [
  | inl e ↦ absurd (ground arith)
  | inr e ↦
      push_AllOf P target ps (p ∷ pending) pending' (ground arith) (λ q m. all q (inr m))
        (all p (inl refl), rest)
]

-- No pushed revision is the target, and all are on the new stack above the old ones.
push_some :
    (target q : RevisionId) (ps pending pending' : List RevisionId)
    → push_predecessors target ps pending ≡ some pending'
    → (In q pending' ↔ (In q ps ⊎ In q pending)) × ¬ In target ps
unfolding push_predecessors
push_some target q [] pending pending' h = ground arith
push_some target q (p ∷ ps) pending pending' h =
    ground (arith, push_some target q ps (p ∷ pending) pending', same_iff p target)

module _ (revisions : Revisions) (target d : RevisionId) where
  visit_sound :
      (c : RevisionId) (pending : List RevisionId) (visited : BTreeSet RevisionId)
      → visit revisions target c pending visited ≡ found
      → Walk revisions d c
      → Precedes revisions target d
  unfolding visit
  visit_sound c pending visited h w = elim (Option-cases (get c revisions)) [
    | inl e ↦ absurd (ground arith)
    | inr (r, e) ↦ (c, r, w, e, push_none target r.predecessors pending (ground arith))
  ]

  visit_walks :
      (c : RevisionId) (pending pending' : List RevisionId) (visited visited' : BTreeSet RevisionId)
      → visit revisions target c pending visited ≡ more pending' visited'
      → AllOf (Walk revisions d) (c ∷ pending)
      → AllOf (Walk revisions d) pending'
  unfolding visit
  visit_walks c pending pending' visited visited' h w = elim (Bool-cases (contains visited c)) [
    | inl old ↦ subst (AllOf (Walk revisions d)) (ground arith) w.1
    | inr new ↦ elim (Option-cases (get c revisions)) [
      | inl e ↦ subst (AllOf (Walk revisions d)) (ground arith) w.1
      | inr (r, e) ↦
          push_AllOf (Walk revisions d) target r.predecessors pending pending' (ground arith)
            (λ p m. step r p w.0 e m) w.1
    ]
  ]

  search_sound :
      (fuel : ℕ) (pending : List RevisionId) (visited : BTreeSet RevisionId)
      → search fuel revisions target pending visited ≡ some true
      → AllOf (Walk revisions d) pending
      → Precedes revisions target d
  unfolding search
  search_sound zero [] visited h w = absurd (ground arith)
  search_sound (suc fuel) [] visited h w = absurd (ground arith)
  search_sound zero (c ∷ pending) visited h w = absurd (ground arith)
  search_sound (suc fuel) (c ∷ pending) visited h w =
      elim (Round-cases (visit revisions target c pending visited)) [
        | inl e ↦ visit_sound c pending visited e w.0
        | inr (pending', visited', e) ↦
            search_sound fuel pending' visited' (rw (e, search) at h)
              (visit_walks c pending pending' visited visited' e w)
      ]

  -- What holds of a search that has not found the target: `d` is on its way, and the predecessors
  -- of what was visited are visited or on the stack, and none is the target.
  record Open (pending : List RevisionId) (visited : BTreeSet RevisionId) : Type 0 where
    start : In d visited ⊎ In d pending
    closed :
        (c p : RevisionId) (r : NoteRevision)
        → In c visited
        → get c revisions ≡ some r
        → In p r.predecessors
        → (p ≢ target) × (In p visited ⊎ In p pending)

  visit-Open :
      (c : RevisionId) (pending pending' : List RevisionId) (visited visited' : BTreeSet RevisionId)
      → visit revisions target c pending visited ≡ more pending' visited'
      → Open (c ∷ pending) visited
      → Open pending' visited'
  unfolding visit
  visit-Open c pending pending' visited visited' h o = elim (Bool-cases (contains visited c)) [
    | inl old ↦
        let seen = (contains_iff visited c).0 old in
        record {
          start = ground (arith, o.start, seen);
          closed = λ x p r m e i. ground (arith, o.closed x p r, seen);
        }
    | inr new ↦ elim (Option-cases (get c revisions)) [
      | inl e ↦ record {
        start = ground (arith, o.start, In-insert d c visited);
        closed = λ x p q m f i.
            ground (arith, o.closed x p q, In-insert x c visited, In-insert p c visited);
      }
      | inr (r, e) ↦ record {
        start = ground (
          arith,
          o.start,
          In-insert d c visited,
          push_some target d r.predecessors pending pending',
        );
        closed = λ x p q m f i. ground (
          arith,
          o.closed x p q,
          In-insert x c visited,
          In-insert p c visited,
          push_some target p r.predecessors pending pending',
        );
      }
    ]
  ]

  search-Open :
      (fuel : ℕ) (pending : List RevisionId) (visited : BTreeSet RevisionId)
      → search fuel revisions target pending visited ≡ some false
      → Open pending visited
      → (final : BTreeSet RevisionId) × Open [] final
  unfolding search
  search-Open zero [] visited h o = (visited, o)
  search-Open (suc fuel) [] visited h o = (visited, o)
  search-Open zero (c ∷ pending) visited h o = absurd (ground arith)
  search-Open (suc fuel) (c ∷ pending) visited h o =
      elim (Round-cases (visit revisions target c pending visited)) [
        | inl e ↦ absurd (let k = rw (e, search) at h in ground arith)
        | inr (pending', visited', e) ↦
            search-Open fuel pending' visited' (rw (e, search) at h)
              (visit-Open c pending pending' visited visited' e o)
      ]

  walk_visited :
      (final : BTreeSet RevisionId) (c : RevisionId)
      → Open [] final
      → Walk revisions d c
      → In c final
  walk_visited final c o here = ground (arith, o.start)
  walk_visited final c o (step {c = b} r p w e m) =
      ground (arith, o.closed b p r (walk_visited final b o w) e m)

-- `is_ancestor` answers true exactly if predecessor links lead from the descendant to the possible
-- ancestor in one step or more, whatever the links are, cycles and missing revisions included.
pub is_ancestor_iff :
    (possible_ancestor descendant : RevisionId) (revisions : Revisions)
    → (is_ancestor possible_ancestor descendant revisions ≡ true)
      ↔ Precedes revisions possible_ancestor descendant
unfolding is_ancestor
is_ancestor_iff a d revisions = (
  λ h. elim (search_ends revisions a d) [
    | inl e ↦ search_sound revisions a d (suc (edges revisions)) (d ∷ []) [] e (here, tt)
    | inr e ↦ absurd (ground arith)
  ],
  λ (c, r, w, e, m). elim (search_ends revisions a d) [
    | inl f ↦ rw (f, is_ancestor)
    | inr f ↦
        let (final, o) =
          search-Open revisions a d (suc (edges revisions)) (d ∷ []) [] f
            (record { start = inr (inl refl); closed = λ x p q i. absurd i }) in
        absurd ((o.closed c a r (walk_visited revisions a d final c o w) e m).0 refl)
  ],
)
