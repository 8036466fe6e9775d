-- ===== src/Resolution/Winner.antt =====
-- The candidates of a resolution, their order, and the greatest of them.
use exokephalos.Prelude.{
  ◌≡◌, ◌≢◌, refl, ◌↔◌, ◌⊎◌, inl, inr, false, Option, none, some, List, [], ◌∷◌, subst, arith, In,
}
use exokephalos.Prelude.Map.{get}
use exokephalos.Prelude.Order.{is_gt, same_iff}
use exokephalos.Prelude.Sort.{IsPreorder}
use exokephalos.Prelude.Text.{text_ord}
use exokephalos.Hlc.Order.{hlc_ord}
use exokephalos.Domain.{RevisionId, NoteRevision, Head}
use exokephalos.Resolution.{
  Revisions, Candidate, accept, candidates, compare_candidates, concurrent_ids,
}
use exokephalos.Resolution.Ancestor.{Precedes, is_ancestor_iff}

-- Some head asserts the stored revision `r` under the identifier `i` for the note of `r`.
abbrev pub Asserts : Revisions → List Head → RevisionId → NoteRevision → Type 0
Asserts revisions heads i r =
    (h : Head) × In h heads
    × (h.revision_id ≡ i)
    × (h.note_id ≡ r.note_id)
    × (get i revisions ≡ some r)

In-accept :
    (h : Head) (o : Option NoteRevision) (rest : List Candidate) (i : RevisionId) (r : NoteRevision)
    → In (i, r) (accept h o rest)
      ↔ ((h.revision_id ≡ i) × (h.note_id ≡ r.note_id) × (o ≡ some r) ⊎ In (i, r) rest)
In-accept h none rest i r = ground arith
In-accept h (some q) rest i r = ground (arith, same_iff h.note_id q.note_id)

pub candidates_sound :
    (revisions : Revisions) (heads : List Head) (i : RevisionId) (r : NoteRevision)
    → In (i, r) (candidates revisions heads)
    → Asserts revisions heads i r
unfolding candidates
candidates_sound revisions [] i r m = absurd m
candidates_sound revisions (h ∷ heads) i r m =
    elim ((In-accept h (get h.revision_id revisions) (candidates revisions heads) i r).0 m) [
      | inl (a, b, c) ↦ (h, inl refl, a, b, subst (λ k. get k revisions ≡ some r) a c)
      | inr n ↦
          let (h', k, a, b, c) = candidates_sound revisions heads i r n in (h', inr k, a, b, c)
    ]

pub candidates_complete :
    (revisions : Revisions) (heads : List Head) (i : RevisionId) (r : NoteRevision)
    → Asserts revisions heads i r
    → In (i, r) (candidates revisions heads)
unfolding candidates
candidates_complete revisions [] i r (h, m, a, b, c) = absurd m
candidates_complete revisions (g ∷ heads) i r (h, inl e, a, b, c) =
    (In-accept g (get g.revision_id revisions) (candidates revisions heads) i r).1
      (inl (ground arith, ground arith, ground arith))
candidates_complete revisions (g ∷ heads) i r (h, inr m, a, b, c) =
    (In-accept g (get g.revision_id revisions) (candidates revisions heads) i r).1
      (inr (candidates_complete revisions heads i r (h, m, a, b, c)))

pub candidates-IsPreorder : IsPreorder compare_candidates
candidates-IsPreorder = record {
  cmp_flip = λ a b. ground (arith, hlc_ord.order_flip a.1.hlc b.1.hlc, text_ord.order_flip a.0 b.0);
  cmp_trans = λ a b c. ground (
    arith,
    hlc_ord.order_trans a.1.hlc b.1.hlc c.1.hlc,
    hlc_ord.eq_of_order a.1.hlc b.1.hlc,
    hlc_ord.eq_of_order b.1.hlc c.1.hlc,
    hlc_ord.order_self a.1.hlc,
    text_ord.order_trans a.0 b.0 c.0,
    text_ord.eq_of_order a.0 b.0,
    text_ord.eq_of_order b.0 c.0,
    text_ord.order_self a.0,
  );
}

-- Two candidates neither of which is above the other are the same revision.
pub candidates_antisym :
    (a b : Candidate)
    → is_gt (compare_candidates a b) ≡ false
    → is_gt (compare_candidates b a) ≡ false
    → a.0 ≡ b.0
candidates_antisym a b h k = ground (
  arith,
  hlc_ord.order_flip a.1.hlc b.1.hlc,
  text_ord.order_flip a.0 b.0,
  text_ord.eq_of_order a.0 b.0,
)

pub concurrent_iff :
    (revisions : Revisions) (winning x : RevisionId) (cs : List Candidate)
    → In x (concurrent_ids revisions winning cs)
      ↔ ((q : NoteRevision) × In (x, q) cs × (x ≢ winning) × ¬ Precedes revisions x winning)
unfolding concurrent_ids
concurrent_iff revisions winning x [] = (λ m. absurd m, λ (q, m, n, a). absurd m)
concurrent_iff revisions winning x ((i, r) ∷ cs) = (
  λ m. elim (split m) [
    | inl (e, n, a) ↦ (r, inl (ground arith), n, a)
    | inr m' ↦ let (q, k, n, a) = (concurrent_iff revisions winning x cs).0 m' in (q, inr k, n, a)
  ],
  λ (q, m, n, a). elim m [
    | inl e ↦ ground (arith, same_iff i winning, is_ancestor_iff i winning revisions)
    | inr k ↦ let m' = (concurrent_iff revisions winning x cs).1 (q, k, n, a) in ground arith
  ],
)
  where
    split :
        In x (concurrent_ids revisions winning ((i, r) ∷ cs))
        → ((x ≡ i) × (x ≢ winning) × ¬ Precedes revisions x winning)
          ⊎ In x (concurrent_ids revisions winning cs)
    split m = ground (arith, same_iff i winning, is_ancestor_iff i winning revisions)
