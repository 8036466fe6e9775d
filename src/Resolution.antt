-- ===== src/Resolution.antt =====
-- crates/xo-core/src/resolution.rs: which of the heads that authors assert for a note wins, and
-- which revisions are concurrent with it.
pub mod Ancestor
pub mod Winner
pub mod Outcome
pub mod Graph
pub mod History
pub mod Supersede
mod Examples
pub mod Converge
use Prim.Native.Nat.{Ordering}
use exokephalos.Prelude.{
  ℕ, zero, suc, ◌+◌, Bool, true, false, not, ◌&&◌, Option, none, some, List, [], ◌∷◌, length, last?,
  is_empty, if◌then◌else◌,
}
use exokephalos.Prelude.Map.{BTreeMap, get}
use exokephalos.Prelude.Order.{then_with, same, contains}
use exokephalos.Prelude.Result.{Result, ok, err, ◌>>=◌, ◌>>◌, ensure, ok_or}
use exokephalos.Prelude.Set.{BTreeSet, insert, collect}
use exokephalos.Prelude.Sort.{sort_by}
use exokephalos.Prelude.Text.{Text, text_ord}
use exokephalos.Hlc.{compare_hlc}
use exokephalos.Domain.{
  RevisionId, NoteRevision, Head, Conflict, DomainError, Encoding, revision_id,
}

abbrev pub Revisions : Type 0
Revisions = BTreeMap RevisionId NoteRevision

pub record ResolvedNote : Type 0 where
  pub winning_revision : RevisionId
  pub visible : Option NoteRevision
  pub conflict : Option Conflict

pub data RevisionGraphError : Type 0 where
  identity_mismatch : RevisionId → RevisionGraphError
  missing_predecessor : RevisionId → RevisionId → RevisionGraphError
  cross_note_predecessor : RevisionId → RevisionGraphError

-- `revision.id().ok().as_ref() == Some(revision_id)`
abbrev pub is_identity : Result DomainError RevisionId → RevisionId → Bool
is_identity (ok i) revision = same i revision
is_identity (err e) revision = false

module _ (revisions : Revisions) (revision : RevisionId) (r : NoteRevision) where
  unfoldable pub validate_predecessors : List RevisionId → Result RevisionGraphError (Unit {0})
  validate_predecessors [] = ok tt
  validate_predecessors (p ∷ ps) = do
    predecessor ← ok_or (missing_predecessor revision p) (get p revisions)
    ensure (same predecessor.note_id r.note_id) (cross_note_predecessor revision)
    validate_predecessors ps

module _ (e : Encoding) (revisions : Revisions) where
  unfoldable pub validate_entries : Revisions → Result RevisionGraphError (Unit {0})
  unfolding validate_predecessors
  validate_entries [] = ok tt
  validate_entries ((revision, r) ∷ rest) = do
    ensure (is_identity (revision_id e r) revision) (identity_mismatch revision)
    validate_predecessors revisions revision r r.predecessors
    validate_entries rest

  unfoldable pub validate_revision_graph : Result RevisionGraphError (Unit {0})
  unfolding validate_entries
  validate_revision_graph = validate_entries revisions

-- The inner loop of `is_ancestor`: `none` where it returns true, else the stack, its top first.
unfoldable pub push_predecessors :
    RevisionId → List RevisionId → List RevisionId → Option (List RevisionId)
push_predecessors target [] pending = some pending
push_predecessors target (p ∷ ps) pending =
    if same p target then none else push_predecessors target ps (p ∷ pending)

pub data Round : Type 0 where
  found : Round
  more : List RevisionId → BTreeSet RevisionId → Round

-- One round of the outer loop, after `current` left the stack.
unfoldable pub visit :
    Revisions → RevisionId → RevisionId → List RevisionId → BTreeSet RevisionId → Round
unfolding push_predecessors
visit revisions target current pending visited =
    if contains visited current then more pending visited else elim (get current revisions) [
      | none ↦ more pending (insert current visited)
      | some r ↦ elim (push_predecessors target r.predecessors pending) [
        | none ↦ found
        | some pending' ↦ more pending' (insert current visited)
      ]
    ]

-- The outer loop on fuel; `none` where the fuel runs out.
unfoldable pub search :
    ℕ → Revisions → RevisionId → List RevisionId → BTreeSet RevisionId → Option Bool
unfolding visit
search fuel revisions target [] visited = some false
search zero revisions target (current ∷ pending) visited = none
search (suc fuel) revisions target (current ∷ pending) visited =
    elim (visit revisions target current pending visited) [
      | found ↦ some true
      | more pending' visited' ↦ search fuel revisions target pending' visited'
    ]

-- The predecessors that the revisions list, all told: no more than these are ever pushed.
abbrev pub edges : Revisions → ℕ
edges [] = 0
edges ((i, r) ∷ rest) = length r.predecessors + edges rest

unfoldable pub is_ancestor : RevisionId → RevisionId → Revisions → Bool
unfolding search
is_ancestor possible_ancestor descendant revisions =
    elim (search (suc (edges revisions)) revisions possible_ancestor (descendant ∷ []) []) [
      | some b ↦ b
      | none ↦ false
    ]

abbrev pub Candidate : Type 0
Candidate = RevisionId × NoteRevision

-- A head counts if its revision is there and belongs to the note that the head names.
abbrev pub accept : Head → Option NoteRevision → List Candidate → List Candidate
accept head none rest = rest
accept head (some r) rest =
    if same head.note_id r.note_id then (head.revision_id, r) ∷ rest else rest

unfoldable pub candidates : Revisions → List Head → List Candidate
candidates revisions [] = []
candidates revisions (head ∷ heads) =
    accept head (get head.revision_id revisions) (candidates revisions heads)

abbrev pub compare_candidates : Candidate → Candidate → Ordering
compare_candidates a b = then_with (compare_hlc a.1.hlc b.1.hlc) (text_ord.order a.0 b.0)

unfoldable pub concurrent_ids : Revisions → RevisionId → List Candidate → List RevisionId
concurrent_ids revisions winning [] = []
concurrent_ids revisions winning ((i, r) ∷ rest) =
    let ids = concurrent_ids revisions winning rest in
    if not (same i winning) && not (is_ancestor i winning revisions) then i ∷ ids else ids

unfoldable pub resolved : Revisions → List Candidate → Option Candidate → Option ResolvedNote
unfolding concurrent_ids
resolved revisions sorted none = none
resolved revisions sorted (some (winning_id, winning)) =
    let concurrent_revisions = collect (concurrent_ids revisions winning_id sorted) in
    some (record {
      winning_revision = winning_id;
      visible = if not winning.deleted then some winning else none;
      conflict =
          if not (is_empty concurrent_revisions)
          then some (record {
            note_id = winning.note_id;
            winning_revision = winning_id;
            concurrent_revisions = concurrent_revisions;
          })
          else none;
    })

unfoldable pub resolve_heads : Revisions → List Head → Option ResolvedNote
unfolding candidates resolved
resolve_heads revisions heads =
    let sorted = sort_by compare_candidates (candidates revisions heads) in
    resolved revisions sorted (last? sorted)
