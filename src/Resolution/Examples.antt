-- ===== src/Resolution/Examples.antt =====
-- Concurrent and successive heads, as in the source's tests, and the theorems at these inputs.
use exokephalos.Prelude.{
  ℕ, ◌≡◌, ◌≢◌, refl, sym, ap, subst, ◌↔◌, inl, inr, true, false, some, none, List, [], ◌∷◌, arith,
  In, if◌then◌else◌,
}
use Prim.Native.Nat.Ordering.{lt}
use exokephalos.Prelude.Map
use exokephalos.Prelude.Map.{get}
use exokephalos.Prelude.Order.{compare_lists}
use exokephalos.Prelude.Result.{ok}
use exokephalos.Prelude.Set.{insert, extend}
use exokephalos.Prelude.Sort.{sort_by}
use exokephalos.Prelude.Text.{Text, text, text_ord}
use exokephalos.Hlc.{compare_hlc}
use exokephalos.Id
use exokephalos.Domain.{
  RevisionId, NoteRevision, Head, validate_revision, canonical_bytes, revision_id, validate_schema,
  validate_relative_path, is_invalid_path, validate_value,
}
use exokephalos.Prelude.Paths.{components}
use exokephalos.Domain.Examples.{sample_encoding, base, deletion}
use exokephalos.Resolution.{
  Revisions, ResolvedNote, candidates, is_ancestor, resolve_heads, validate_revision_graph,
}
use exokephalos.Resolution.Ancestor.{Precedes, is_ancestor_iff}
use exokephalos.Resolution.Converge.{
  SameHeads, winner_is_greatest, conflict_is_exact, resolution_converges,
}
use exokephalos.Resolution.Outcome.{reported, Wins}
use exokephalos.Resolution.Supersede.{
  Replaces, predecessors_of, commit_supersedes, late_commit_is_hidden,
}
use exokephalos.Resolution.Winner.{Asserts, candidates_complete}

abbrev base_id : RevisionId
base_id = b'h' ∷ 0 ∷ text "body"

abbrev deletion_id : RevisionId
deletion_id = b'h' ∷ 1 ∷ text "body"

-- A second author's edit, made without knowledge of the deletion.
abbrev edit : NoteRevision
edit = record base {
  body = text "edited";
  hlc = record { physical_ms = 100; logical = 1; actor_id = text "device-b" };
  author_id = text "device-b";
  predecessors = base_id ∷ [];
}

abbrev edit_id : RevisionId
edit_id = b'h' ∷ 1 ∷ text "edited"

abbrev graph : Revisions
graph = (base_id, base) ∷ (deletion_id, deletion) ∷ (edit_id, edit) ∷ []

abbrev head_of : Text → RevisionId → Head
head_of author i = record { note_id = text "note002"; author_id = author; revision_id = i }

abbrev heads : List Head
heads = head_of (text "device-a") deletion_id ∷ head_of (text "device-b") edit_id ∷ []

abbrev outcome : ResolvedNote
outcome = record {
  winning_revision = edit_id;
  visible = some edit;
  conflict = some (record {
    note_id = text "note002";
    winning_revision = edit_id;
    concurrent_revisions = deletion_id ∷ [];
  });
}

concurrent_delete_and_edit : resolve_heads graph heads ≡ some outcome
unfolding resolve_heads sort_by get is_ancestor insert extend compare_hlc compare_lists
concurrent_delete_and_edit = refl

graph_valid : validate_revision_graph sample_encoding graph ≡ ok tt
unfolding validate_revision_graph revision_id canonical_bytes validate_revision validate_schema
    validate_relative_path is_invalid_path components validate_value get Id.is_valid compare_lists
graph_valid = refl

predecessor_is_ancestor : is_ancestor base_id edit_id graph ≡ true
unfolding is_ancestor get insert compare_lists
predecessor_is_ancestor = refl

-- A cycle of predecessors does not stop the search.
abbrev cycle : Revisions
cycle =
    (text "x", record base { predecessors = text "y" ∷ [] })
    ∷ (text "y", record base { predecessors = text "x" ∷ [] })
    ∷ []

cycle_ends : is_ancestor (text "z") (text "x") cycle ≡ false
unfolding is_ancestor get insert compare_lists
cycle_ends = refl

is_ancestor_iff_example :
    (is_ancestor base_id edit_id graph ≡ true) ↔ Precedes graph base_id edit_id
is_ancestor_iff_example = is_ancestor_iff base_id edit_id graph

winner_is_greatest_example :
    (r : NoteRevision) × Wins graph heads edit_id r
    × (some edit ≡ (if r.deleted then none else some r))
winner_is_greatest_example = winner_is_greatest graph heads outcome concurrent_delete_and_edit

conflict_is_exact_example : In deletion_id (reported outcome.conflict) ↔ (
    (q : NoteRevision) × Asserts graph heads deletion_id q
    × (deletion_id ≢ edit_id)
    × ¬ Precedes graph deletion_id edit_id)
conflict_is_exact_example =
    conflict_is_exact graph heads outcome deletion_id concurrent_delete_and_edit

abbrev swapped : List Head
swapped =
    head_of (text "device-b") edit_id
    ∷ head_of (text "device-a") deletion_id
    ∷ head_of (text "device-b") edit_id
    ∷ []

same_heads : SameHeads heads swapped
same_heads h = ground arith

resolution_converges_example : resolve_heads graph heads ≡ resolve_heads graph swapped
resolution_converges_example = resolution_converges graph heads swapped same_heads

-- The deletion won over the original, whose head another author still asserts.
abbrev late : List Head
late = head_of (text "device-b") base_id ∷ head_of (text "device-a") deletion_id ∷ []

abbrev deleted_outcome : ResolvedNote
deleted_outcome = record { winning_revision = deletion_id; visible = none; conflict = none }

deletion_wins : resolve_heads graph late ≡ some deleted_outcome
unfolding resolve_heads sort_by get is_ancestor insert extend compare_hlc compare_lists
deletion_wins = refl

-- A third revision on top of both, with a later and with an earlier timestamp.
abbrev merged_at : ℕ → NoteRevision
merged_at logical = record base {
  body = text "merged";
  hlc = record { physical_ms = 100; logical = logical; actor_id = text "device-a" };
  predecessors = deletion_id ∷ edit_id ∷ [];
}

abbrev merged_id : RevisionId
merged_id = text "merged"

abbrev merged_heads : List Head
merged_heads = head_of (text "device-a") merged_id ∷ head_of (text "device-b") edit_id ∷ []

abbrev merged_graph : ℕ → Revisions
merged_graph logical = Map.insert merged_id (merged_at logical) graph

not_yet : get merged_id graph ≡ none
unfolding get compare_lists
not_yet = refl

merged_Replaces :
    (logical : ℕ) → Replaces graph merged_id (merged_at logical) not_yet heads merged_heads
merged_Replaces logical = record {
  head = head_of (text "device-a") merged_id;
  in_heads = inl refl;
  names = refl;
  of_note = refl;
  others = λ g m. ground arith;
}

names_both :
    (p : RevisionId)
    → In p (predecessors_of edit_id outcome.conflict)
    → In p (merged_at 3).predecessors
unfolding predecessors_of extend insert compare_lists
names_both p m = m

merged_is_later :
    (j : RevisionId) (q : NoteRevision)
    → Asserts graph heads j q
    → compare_hlc q.hlc (merged_at 3).hlc ≡ lt
unfolding candidates get compare_hlc compare_lists
merged_is_later j q a =
    let listed : In (j, q) ((deletion_id, deletion) ∷ (edit_id, edit) ∷ []) =
      candidates_complete graph heads j q a in
    let earlier : (r : NoteRevision)
        → q ≡ r
        → compare_hlc r.hlc (merged_at 3).hlc ≡ lt
        → compare_hlc q.hlc (merged_at 3).hlc ≡ lt =
      λ r e h. subst (λ (t : NoteRevision). compare_hlc t.hlc (merged_at 3).hlc ≡ lt) (sym e) h in
    elim listed [
      | inl e ↦ earlier deletion (ap (λ (c : RevisionId × NoteRevision). c.1) e) refl
      | inr (inl e) ↦ earlier edit (ap (λ (c : RevisionId × NoteRevision). c.1) e) refl
      | inr (inr no_more) ↦ absurd no_more
    ]

commit_supersedes_example :
    resolve_heads (merged_graph 3) merged_heads
    ≡ some (record { winning_revision = merged_id; visible = some (merged_at 3); conflict = none })
commit_supersedes_example =
    commit_supersedes graph merged_id (merged_at 3) not_yet heads merged_heads (merged_Replaces 3)
      outcome concurrent_delete_and_edit names_both merged_is_later

late_commit_is_hidden_example :
    (res : ResolvedNote) × (resolve_heads (merged_graph 0) merged_heads ≡ some res)
    × (res.winning_revision ≡ edit_id)
    × (res.visible ≡ some edit)
unfolding get compare_hlc compare_lists
late_commit_is_hidden_example =
    late_commit_is_hidden graph merged_id (merged_at 0) not_yet heads merged_heads
      (merged_Replaces 0) outcome concurrent_delete_and_edit edit refl
      (head_of (text "device-b") edit_id, inr (inl refl), refl, refl) refl
