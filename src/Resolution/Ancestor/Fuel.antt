-- ===== src/Resolution/Ancestor/Fuel.antt =====
-- The fuel of the search of `is_ancestor` in resolution.rs.
use exokephalos.Prelude.{
  ℕ, zero, suc, ◌+◌, ◌≤◌, ◌≡◌, refl, ◌⊎◌, inl, inr, Bool, true, false, some, List, [], ◌∷◌, arith,
  length, Option-cases, Bool-cases, if◌then◌else◌,
}
use exokephalos.Prelude.Map.{get}
use exokephalos.Prelude.Order.{same_iff, contains}
use exokephalos.Prelude.Set.{BTreeSet, insert, contains-insert}
use exokephalos.Prelude.Text.{text_ord}
use exokephalos.Domain.{RevisionId, NoteRevision}
use exokephalos.Resolution.{Revisions, Round, found, more, push_predecessors, visit, search, edges}

pub Round-cases :
    (r : Round)
    → (r ≡ found)
      ⊎ ((pending : List RevisionId) × (visited : BTreeSet RevisionId) × (r ≡ more pending visited))
Round-cases found = inl refl
Round-cases (more pending visited) = inr (pending, visited, refl)

-- The predecessors of the revisions that have not been visited.
abbrev unpushed : BTreeSet RevisionId → Revisions → ℕ
unpushed visited [] = 0
unpushed visited ((i, r) ∷ rest) =
    (if contains visited i then 0 else length r.predecessors) + unpushed visited rest

unpushed-insert :
    (c : RevisionId) (visited : BTreeSet RevisionId) (m : Revisions)
    → unpushed (insert c visited) m ≤ unpushed visited m
unpushed-insert c visited [] = omega arith
unpushed-insert c visited ((i, r) ∷ m) =
    ground (arith, unpushed-insert c visited m, contains-insert c i visited)

unpushed-found :
    (c : RevisionId) (visited : BTreeSet RevisionId) (m : Revisions) (r : NoteRevision)
    → contains visited c ≡ false
    → get c m ≡ some r
    → unpushed (insert c visited) m + length r.predecessors ≤ unpushed visited m
unfolding get
unpushed-found c visited [] r new h = absurd (ground arith)
unpushed-found c visited ((i, q) ∷ m) r new h = ground (
  arith,
  unpushed-found c visited m r new,
  unpushed-insert c visited m,
  contains-insert c i visited,
  same_iff i c,
)

unpushed-nil : (m : Revisions) → unpushed [] m ≡ edges m
unpushed-nil [] = refl
unpushed-nil ((i, r) ∷ m) = omega (arith, unpushed-nil m)

push_length :
    (target : RevisionId) (ps pending pending' : List RevisionId)
    → push_predecessors target ps pending ≡ some pending'
    → length pending' ≡ length ps + length pending
unfolding push_predecessors
push_length target [] pending pending' h = ground arith
push_length target (p ∷ ps) pending pending' h =
    ground (arith, push_length target ps (p ∷ pending) pending')

module _ (revisions : Revisions) (target : RevisionId) where
  visit_lowers :
      (c : RevisionId) (pending pending' : List RevisionId) (visited visited' : BTreeSet RevisionId)
      → visit revisions target c pending visited ≡ more pending' visited'
      → length pending' + unpushed visited' revisions ≤ length pending + unpushed visited revisions
  unfolding visit
  visit_lowers c pending pending' visited visited' h = elim (Option-cases (get c revisions)) [
    | inl e ↦ ground (arith, unpushed-insert c visited revisions)
    | inr (r, e) ↦ ground (
      arith,
      unpushed-found c visited revisions r,
      push_length target r.predecessors pending pending',
    )
  ]

  search_returns :
      (fuel : ℕ) (pending : List RevisionId) (visited : BTreeSet RevisionId)
      → length pending + unpushed visited revisions ≤ fuel
      → (b : Bool) × (search fuel revisions target pending visited ≡ some b)
  unfolding search
  search_returns zero [] visited h = (false, refl)
  search_returns (suc fuel) [] visited h = (false, refl)
  search_returns zero (c ∷ pending) visited h = absurd (omega arith)
  search_returns (suc fuel) (c ∷ pending) visited h =
      elim (Round-cases (visit revisions target c pending visited)) [
        | inl e ↦ (true, rw (e, search))
        | inr (pending', visited', e) ↦
            let lower = visit_lowers c pending pending' visited visited' e in
            let (b, ends) = search_returns fuel pending' visited' (omega arith) in
            (b, rw (e, search) ends)
      ]

  -- One round for the start and one for each predecessor link are enough.
  pub search_ends :
      (d : RevisionId)
      → (search (suc (edges revisions)) revisions target (d ∷ []) [] ≡ some true)
        ⊎ (search (suc (edges revisions)) revisions target (d ∷ []) [] ≡ some false)
  search_ends d =
      let (b, e) =
        search_returns (suc (edges revisions)) (d ∷ []) []
          (omega (arith, unpushed-nil revisions)) in
      ground (arith, e, Bool-cases b)
