-- ===== src/Resolution/Converge.antt =====
-- `resolve_heads` of resolution.rs: the winner, the conflict, and the order of the heads.
use exokephalos.Prelude.{
  ◌≡◌, ◌≢◌, refl, sym, ◌∙◌, ap, subst, ◌↔◌, inl, inr, none, some, List, [], ◌∷◌, arith, In,
  if◌then◌else◌, Option-cases,
}
use exokephalos.Prelude.Map.{get}
use exokephalos.Prelude.Set.{BTreeSet, set_ext}
use exokephalos.Prelude.Text.{text_ord}
use exokephalos.Domain.{RevisionId, NoteRevision, Head}
use exokephalos.Resolution.{Revisions, ResolvedNote, resolve_heads}
use exokephalos.Resolution.Ancestor.{Precedes}
use exokephalos.Resolution.Winner.{Asserts, candidates_antisym}
use exokephalos.Resolution.Outcome.{reported, Wins, answer, resolve_shape, resolve_none}

reported-answer :
    (revisions : Revisions) (heads : List Head) (w : RevisionId) (r : NoteRevision)
    (concurrent : BTreeSet RevisionId)
    → reported (answer revisions heads w r concurrent).conflict ≡ concurrent
reported-answer revisions heads w r [] = refl
reported-answer revisions heads w r (x ∷ xs) = refl

-- The winning revision is stored, is asserted by a head of its own note, is at least every other
-- revision so asserted, by timestamp and then by identifier, and is shown exactly unless it is a
-- deletion.
pub winner_is_greatest :
    (revisions : Revisions) (heads : List Head) (res : ResolvedNote)
    → resolve_heads revisions heads ≡ some res
    → (r : NoteRevision) × Wins revisions heads res.winning_revision r
      × (res.visible ≡ (if r.deleted then none else some r))
winner_is_greatest revisions heads res h =
    let (w, r, concurrent, wins, exact, e) = resolve_shape revisions heads res h in
    (
      r,
      subst (λ (t : ResolvedNote). Wins revisions heads t.winning_revision r) (sym e) wins,
      ground arith,
    )

-- The conflict of a resolution lists exactly the other asserted revisions that do not precede the
-- winner through predecessor links, so that an edit is lost from view only if the winner builds on
-- it.
pub conflict_is_exact :
    (revisions : Revisions) (heads : List Head) (res : ResolvedNote) (x : RevisionId)
    → resolve_heads revisions heads ≡ some res
    → In x (reported res.conflict) ↔ (
        (q : NoteRevision) × Asserts revisions heads x q
        × (x ≢ res.winning_revision)
        × ¬ Precedes revisions x res.winning_revision)
conflict_is_exact revisions heads res x h =
    let (w, r, concurrent, wins, exact, e) = resolve_shape revisions heads res h in
    subst
      (λ (t : ResolvedNote). In x (reported t.conflict) ↔ (
        (q : NoteRevision) × Asserts revisions heads x q
        × (x ≢ t.winning_revision)
        × ¬ Precedes revisions x t.winning_revision))
      (sym e)
      (subst
        (λ s.
          In x s
          ↔ ((q : NoteRevision) × Asserts revisions heads x q × (x ≢ w) × ¬ Precedes revisions x w))
        (sym (reported-answer revisions heads w r concurrent)) (exact.1 x))

-- Two lists hold the same heads.
abbrev pub SameHeads : List Head → List Head → Type 0
SameHeads hs ks = (h : Head) → In h hs ↔ In h ks

module _ (revisions : Revisions) (hs ks : List Head) (same_heads : SameHeads hs ks) where
  Asserts-same :
      (i : RevisionId) (r : NoteRevision) → Asserts revisions hs i r ↔ Asserts revisions ks i r
  Asserts-same i r = (
    λ (h, m, a, b, c). (h, (same_heads h).0 m, a, b, c),
    λ (h, m, a, b, c). (h, (same_heads h).1 m, a, b, c),
  )

  winners_agree :
      (w v : RevisionId) (r q : NoteRevision)
      → Wins revisions hs w r
      → Wins revisions ks v q
      → (w ≡ v) × (r ≡ q)
  winners_agree w v r q a b =
      let e : w ≡ v =
        candidates_antisym (w, r) (v, q) (b.1 w r ((Asserts-same w r).0 a.0))
          (a.1 v q ((Asserts-same v q).1 b.0)) in
      (e, some_agree (a.0.4) (b.0.4) e)
    where
      some_agree : get w revisions ≡ some r → get v revisions ≡ some q → w ≡ v → r ≡ q
      some_agree p o e = ground arith

-- The resolution depends on the set of heads alone: neither their order nor repetitions matter.
pub resolution_converges :
    (revisions : Revisions) (hs ks : List Head)
    → SameHeads hs ks
    → resolve_heads revisions hs ≡ resolve_heads revisions ks
resolution_converges revisions hs ks s = elim (Option-cases (resolve_heads revisions hs)) [
  | inl e ↦
      e
      ∙ sym (
          (resolve_none revisions ks).1 (λ i r a.
            (resolve_none revisions hs).0 e i r ((Asserts-same revisions hs ks s i r).1 a)))
  | inr (res, e) ↦ elim (Option-cases (resolve_heads revisions ks)) [
    | inl f ↦
        e
        ∙ absurd (
            let (w, r, c, wins, exact, g) = resolve_shape revisions hs res e in
            (resolve_none revisions ks).0 f w r ((Asserts-same revisions hs ks s w r).0 wins.0))
    | inr (res', f) ↦ e ∙ ap some (agree res res' e f) ∙ sym f
  ]
]
  where
    agree :
        (res res' : ResolvedNote)
        → resolve_heads revisions hs ≡ some res
        → resolve_heads revisions ks ≡ some res'
        → res ≡ res'
    agree res res' e f =
        let (w, r, c, wins, exact, g) = resolve_shape revisions hs res e in
        let (v, q, d, wins', exact', g') = resolve_shape revisions ks res' f in
        let (i, j) = winners_agree revisions hs ks s w v r q wins wins' in
        let same_set : c ≡ d = set_ext c d exact.0 exact'.0 (λ x. (
          λ m.
              let (z, a, n, p) = (exact.1 x).0 m in
              (exact'.1 x).1 (
                z,
                (Asserts-same revisions hs ks s x z).0 a,
                subst (λ y. x ≢ y) i n,
                subst (λ y. ¬ Precedes revisions x y) i p,
              ),
          λ m.
              let (z, a, n, p) = (exact'.1 x).0 m in
              (exact.1 x).1 (
                z,
                (Asserts-same revisions hs ks s x z).1 a,
                subst (λ y. x ≢ y) (sym i) n,
                subst (λ y. ¬ Precedes revisions x y) (sym i) p,
              ),
        )) in
        cc (g, g', i, j, same_set)
