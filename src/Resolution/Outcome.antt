-- ===== src/Resolution/Outcome.antt =====
-- What `resolve_heads` returns.
use exokephalos.Prelude.{
  ◌≡◌, ◌≢◌, subst, ◌↔◌, inl, inr, false, Option, none, some, List, [], arith, In, In-last?, last?,
  last?-some, is_empty, if◌then◌else◌, not, Option-cases, List-cases,
}
use exokephalos.Prelude.Order.{is_gt}
use exokephalos.Prelude.Set.{BTreeSet, collect, In-extend, IsAscending, extend-IsAscending}
use exokephalos.Prelude.Sort.{sort_by, In-sort_by, sort_by_greatest}
use exokephalos.Prelude.Text.{text_ord}
use exokephalos.Domain.{RevisionId, NoteRevision, Head, Conflict}
use exokephalos.Resolution.{
  Revisions, ResolvedNote, Candidate, candidates, compare_candidates, concurrent_ids, resolve_heads,
}
use exokephalos.Resolution.Ancestor.{Precedes}
use exokephalos.Resolution.Winner.{
  Asserts, candidates_sound, candidates_complete, candidates-IsPreorder, concurrent_iff,
}

-- The revisions that a conflict lists; none without a conflict.
abbrev pub reported : Option Conflict → BTreeSet RevisionId
reported none = []
reported (some c) = c.concurrent_revisions

module _ (revisions : Revisions) (heads : List Head) where
  abbrev sorted : List Candidate
  sorted = sort_by compare_candidates (candidates revisions heads)

  -- `w` is the greatest candidate.
  abbrev pub Wins : RevisionId → NoteRevision → Type 0
  Wins w r =
      Asserts revisions heads w r
      × ((i : RevisionId) (q : NoteRevision)
          → Asserts revisions heads i q
          → is_gt (compare_candidates (i, q) (w, r)) ≡ false)

  last-Wins : (w : Candidate) → last? sorted ≡ some w → Wins w.0 w.1
  last-Wins w e = (
    candidates_sound revisions heads w.0 w.1
        ((In-sort_by compare_candidates w (candidates revisions heads)).0 (In-last? sorted w e)),
    λ i q a.
        sort_by_greatest compare_candidates candidates-IsPreorder (candidates revisions heads)
          (i, q) w e (candidates_complete revisions heads i q a),
  )

  -- The whole answer in terms of the winner.
  abbrev pub answer : RevisionId → NoteRevision → BTreeSet RevisionId → ResolvedNote
  answer w r concurrent = record {
    winning_revision = w;
    visible = if not r.deleted then some r else none;
    conflict =
        if not (is_empty concurrent)
        then some (record {
          note_id = r.note_id;
          winning_revision = w;
          concurrent_revisions = concurrent;
        })
        else none;
  }

  abbrev Concurrent : RevisionId → BTreeSet RevisionId → Type 0
  Concurrent w concurrent =
      IsAscending concurrent
      × ((x : RevisionId)
          → In x concurrent ↔ (
              (q : NoteRevision) × Asserts revisions heads x q
              × (x ≢ w)
              × ¬ Precedes revisions x w))

  Concurrent-exact : (w : RevisionId) → Concurrent w (collect (concurrent_ids revisions w sorted))
  Concurrent-exact w = (
    extend-IsAscending [] (concurrent_ids revisions w sorted) tt,
    λ x. (
      λ m.
          let here : In x (concurrent_ids revisions w sorted) =
            ground (arith, (In-extend x [] (concurrent_ids revisions w sorted)).0 m) in
          let (q, k, n, a) = (concurrent_iff revisions w x sorted).0 here in
          (
            q,
            candidates_sound revisions heads x q
                ((In-sort_by compare_candidates (x, q) (candidates revisions heads)).0 k),
            n,
            a,
          ),
      λ (q, a, n, p). (In-extend x [] (concurrent_ids revisions w sorted)).1 (
          inr (
            (concurrent_iff revisions w x sorted).1 (
              q,
              (In-sort_by compare_candidates (x, q) (candidates revisions heads)).1
                  (candidates_complete revisions heads x q a),
              n,
              p,
            ))),
    ),
  )

  -- A resolution is the answer at the greatest candidate and the set of its concurrent revisions.
  pub resolve_shape :
      (res : ResolvedNote)
      → resolve_heads revisions heads ≡ some res
      → (w : RevisionId) × (r : NoteRevision) × (concurrent : BTreeSet RevisionId) × Wins w r
        × Concurrent w concurrent
        × (res ≡ answer w r concurrent)
  unfolding resolve_heads
  resolve_shape res h = elim (Option-cases (last? sorted)) [
    | inl e ↦ absurd (ground arith)
    | inr (w, e) ↦ (
      w.0,
      w.1,
      collect (concurrent_ids revisions w.0 sorted),
      last-Wins w e,
      Concurrent-exact w.0,
      ground arith,
    )
  ]

  -- Nothing is resolved exactly if no head asserts a stored revision of its note.
  pub resolve_none :
      (resolve_heads revisions heads ≡ none)
      ↔ ((i : RevisionId) (r : NoteRevision) → ¬ Asserts revisions heads i r)
  unfolding resolve_heads
  resolve_none = (
    λ h i r a. elim (List-cases sorted) [
      | inl e ↦ absurd (
          subst (In (i, r)) e (
            (In-sort_by compare_candidates (i, r) (candidates revisions heads)).1
              (candidates_complete revisions heads i r a)))
      | inr (x, xs, e) ↦ let (w, l) = last?-some x xs in absurd (ground arith)
    ],
    λ all. elim (Option-cases (last? sorted)) [
      | inl e ↦ ground arith
      | inr (w, e) ↦ absurd (all w.0 w.1 (last-Wins w e).0)
    ],
  )
