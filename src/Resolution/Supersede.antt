-- ===== src/Resolution/Supersede.antt =====
-- Resolution in resolution.rs after a revision is committed on top of what was resolved, as
-- `commit_item` of central.rs and `commit` of session.rs do it.
use Prim.Native.Nat.Ordering.{lt}
use exokephalos.Prelude.{
  ◌≡◌, refl, sym, subst, ◌⊎◌, inl, inr, Option, none, some, List, [], ◌∷◌, arith, In, Option-cases,
  List-cases, Bool-cases, if◌then◌else◌,
}
use exokephalos.Prelude.Map.{get, insert, get-insert}
use exokephalos.Prelude.Order.{same, same_iff}
use exokephalos.Prelude.Set
use exokephalos.Prelude.Set.{BTreeSet, In-extend, In-insert}
use exokephalos.Prelude.Text.{text_ord}
use exokephalos.Hlc.{compare_hlc}
use exokephalos.Hlc.Order.{hlc_ord}
use exokephalos.Domain.{RevisionId, NoteRevision, Head, Conflict}
use exokephalos.Resolution.{Revisions, ResolvedNote, is_ancestor, resolve_heads}
use exokephalos.Resolution.Ancestor.{Walk, here, step, Precedes, is_ancestor_iff}
use exokephalos.Resolution.Converge.{winner_is_greatest, conflict_is_exact}
use exokephalos.Resolution.Outcome.{reported, resolve_shape, resolve_none}
use exokephalos.Resolution.Winner.{Asserts, candidates_antisym}

-- `BTreeSet::from([winner])`, extended by the conflict's revisions.
unfoldable pub predecessors_of : RevisionId → Option Conflict → BTreeSet RevisionId
predecessors_of winner conflict = Set.extend (winner ∷ []) (reported conflict)

In-predecessors_of :
    (p winner : RevisionId) (conflict : Option Conflict)
    → (p ≡ winner) ⊎ In p (reported conflict)
    → In p (predecessors_of winner conflict)
unfolding predecessors_of
In-predecessors_of p winner conflict h =
    (In-extend p (winner ∷ []) (reported conflict)).1 (ground arith)

module _ (revisions : Revisions) (i : RevisionId) (r : NoteRevision)
    (fresh : get i revisions ≡ none) where
  abbrev revisions' : Revisions
  revisions' = insert i r revisions

  kept : (j : RevisionId) (q : NoteRevision) → get j revisions ≡ some q → get j revisions' ≡ some q
  kept j q e = ground (arith, get-insert i j r revisions, same_iff i j)

  kept_walk : (d c : RevisionId) → Walk revisions d c → Walk revisions' d c
  kept_walk d c here = here
  kept_walk d c (step q p w e m) = step q p (kept_walk d _ w) (kept _ q e) m

  kept_Precedes : (a d : RevisionId) → Precedes revisions a d → Precedes revisions' a d
  kept_Precedes a d (c, q, w, e, m) = (c, q, kept_walk d c w, kept c q e, m)

  lift_walk : (p c : RevisionId) → In p r.predecessors → Walk revisions p c → Walk revisions' i c
  lift_walk p c m here = step r p here (ground (arith, get-insert i i r revisions, same_iff i i)) m
  lift_walk p c m (step q a w e n) = step q a (lift_walk p _ m w) (kept _ q e) n

  -- What precedes a predecessor of the new revision precedes the new revision.
  lift_Precedes :
      (a p : RevisionId) → In p r.predecessors → Precedes revisions a p → Precedes revisions' a i
  lift_Precedes a p m (c, q, w, e, n) = (c, q, lift_walk p c m w, kept c q e, n)

  stored : get i revisions' ≡ some r
  stored = ground (arith, get-insert i i r revisions, same_iff i i)

  -- The heads after the commit: the new one, and some of the old ones.
  pub record Replaces (heads heads' : List Head) : Type 0 where
    pub head : Head
    pub in_heads : In head heads'
    pub names : head.revision_id ≡ i
    pub of_note : head.note_id ≡ r.note_id
    pub others : (g : Head) → In g heads' → (g.revision_id ≡ i) ⊎ In g heads

  module _ (heads heads' : List Head) (replaces : Replaces heads heads') where
    old_or_new :
        (j : RevisionId) (q : NoteRevision)
        → Asserts revisions' heads' j q
        → ((j ≡ i) × (q ≡ r)) ⊎ Asserts revisions heads j q
    old_or_new j q (g, m, e, n, s) = elim (Bool-cases (same i j)) [
      | inl same_id ↦ inl (ground (arith, get-insert i j r revisions, same_iff i j))
      | inr other ↦ elim (replaces.others g m) [
        | inl new ↦ absurd (ground (arith, same_iff i j))
        | inr old ↦ inr (g, old, e, n, ground (arith, get-insert i j r revisions))
      ]
    ]

    new_Asserts : Asserts revisions' heads' i r
    new_Asserts = (replaces.head, replaces.in_heads, replaces.names, replaces.of_note, stored)

    module _ (res : ResolvedNote) (resolves : resolve_heads revisions heads ≡ some res) where
      -- Whatever head was asserted is the winner, precedes it or was reported.
      accounted :
          (j : RevisionId) (q : NoteRevision)
          → Asserts revisions heads j q
          → (j ≡ res.winning_revision)
            ⊎ Precedes revisions j res.winning_revision
            ⊎ In j (reported res.conflict)
      accounted j q a = elim (Bool-cases (same j res.winning_revision)) [
        | inl e ↦ inl ((same_iff j res.winning_revision).0 e)
        | inr other ↦ elim (Bool-cases (is_ancestor j res.winning_revision revisions)) [
          | inl e ↦ inr (inl ((is_ancestor_iff j res.winning_revision revisions).0 e))
          | inr apart ↦ inr (
              inr (
                (conflict_is_exact revisions heads res j resolves).1 (
                  q,
                  a,
                  λ e. ground (arith, same_iff j res.winning_revision),
                  λ p. ground (arith, (is_ancestor_iff j res.winning_revision revisions).1 p),
                )))
        ]
      ]

      now-Precedes :
          (j : RevisionId) (q : NoteRevision)
          → ((p : RevisionId)
              → In p (predecessors_of res.winning_revision res.conflict)
              → In p r.predecessors)
          → Asserts revisions heads j q
          → Precedes revisions' j i
      now-Precedes j q preds a =
          let winner = preds res.winning_revision (
            In-predecessors_of res.winning_revision res.winning_revision res.conflict (inl refl)) in
          elim (accounted j q a) [
            | inl e ↦ (i, r, here, stored, subst (λ t. In t r.predecessors) (sym e) winner)
            | inr (inl p) ↦ lift_Precedes j res.winning_revision winner p
            | inr (inr m) ↦ (
              i,
              r,
              here,
              stored,
              preds j (In-predecessors_of j res.winning_revision res.conflict (inr m)),
            )
          ]

      -- Commit a revision that names the winner and all that was reported as its predecessors, with
      -- a timestamp later than those of all asserted revisions. Then it is the winner, it is shown
      -- unless it is a deletion, and no conflict is left.
      pub commit_supersedes :
          ((p : RevisionId)
            → In p (predecessors_of res.winning_revision res.conflict)
            → In p r.predecessors)
          → ((j : RevisionId) (q : NoteRevision)
              → Asserts revisions heads j q
              → compare_hlc q.hlc r.hlc ≡ lt)
          → resolve_heads revisions' heads'
            ≡ some (record {
              winning_revision = i;
              visible = if r.deleted then none else some r;
              conflict = none;
            })
      commit_supersedes preds later = elim (Option-cases (resolve_heads revisions' heads')) [
        | inl e ↦ absurd ((resolve_none revisions' heads').0 e i r new_Asserts)
        | inr (res', e) ↦
            let (w, q, concurrent, wins, exact, shape) = resolve_shape revisions' heads' res' e in
            elim (old_or_new w q wins.0) [
              | inr old ↦ absurd (
                  ground
                    (arith, wins.1 i r new_Asserts, hlc_ord.order_flip q.hlc r.hlc, later w q old))
              | inl (same_id, same_revision) ↦
                  let nothing : concurrent ≡ [] = elim (List-cases concurrent) [
                    | inl empty ↦ empty
                    | inr (x, xs, full) ↦
                        let (p, a, n, apart) = (exact.1 x).0 (subst (In x) (sym full) (inl refl)) in
                        elim (old_or_new x p a) [
                          | inl (x_new, p_new) ↦ absurd (n (ground arith))
                          | inr old ↦ absurd (
                              apart (
                                subst (Precedes revisions' x) (sym same_id)
                                  (now-Precedes x p preds old)))
                        ]
                  ] in
                  ground (arith, e, shape, nothing)
            ]
      ]

      -- Let the winner's timestamp be later than the new revision's, as happens when it was made by a
      -- clock that is ahead, and let some head of its note assert it after the commit too, as the head
      -- of another author does. Then the commit changes nothing that is shown: the same revision wins
      -- and is visible as before.
      pub late_commit_is_hidden :
          (w : NoteRevision)
          → get res.winning_revision revisions ≡ some w
          → ((head : Head) × In head heads'
              × (head.revision_id ≡ res.winning_revision)
              × (head.note_id ≡ w.note_id))
          → compare_hlc r.hlc w.hlc ≡ lt
          → (res' : ResolvedNote) × (resolve_heads revisions' heads' ≡ some res')
            × (res'.winning_revision ≡ res.winning_revision)
            × (res'.visible ≡ res.visible)
      late_commit_is_hidden w found still ahead =
          let (w0, wins, shown) = winner_is_greatest revisions heads res resolves in
          let same_winner : w0 ≡ w = ground (arith, found, wins.0.4) in
          let (g, m, e, n) = still in
          let asserted : Asserts revisions' heads' res.winning_revision w =
            (g, m, e, n, kept res.winning_revision w found) in
          elim (Option-cases (resolve_heads revisions' heads')) [
            | inl none_left ↦ absurd ((resolve_none revisions' heads').0 none_left i r new_Asserts)
            | inr (res', resolves') ↦
                let (q, wins', shown') = winner_is_greatest revisions' heads' res' resolves' in
                let above = wins'.1 res.winning_revision w asserted in
                elim (old_or_new res'.winning_revision q wins'.0) [
                  | inl (new_id, new_revision) ↦
                      absurd (ground (arith, above, hlc_ord.order_flip r.hlc w.hlc))
                  | inr old ↦
                      let below = wins.1 res'.winning_revision q old in
                      let same_id : res'.winning_revision ≡ res.winning_revision =
                        candidates_antisym (res'.winning_revision, q) (res.winning_revision, w0)
                          below (ground arith) in
                      let same_shown : q ≡ w = ground (arith, old.4, found) in
                      (res', resolves', same_id, ground arith)
                ]
          ]
