-- ===== src/Resolution/History.antt =====
-- Resolution in resolution.rs after `revise` of domain.rs.
use exokephalos.Prelude.{◌≡◌, inl, some, List, In, subst, sym, arith}
use exokephalos.Prelude.Map.{get}
use exokephalos.Prelude.Result.{ok}
use exokephalos.Prelude.Text.{text_ord}
use exokephalos.Domain.{RevisionId, NoteRevision, Head, Encoding, revision_id}
use exokephalos.Domain.Chain.{Follows}
use exokephalos.Resolution.{Revisions, ResolvedNote, resolve_heads}
use exokephalos.Resolution.Ancestor.{Precedes, here}
use exokephalos.Resolution.Converge.{conflict_is_exact}
use exokephalos.Resolution.Outcome.{reported}

Follows-Precedes :
    (e : Encoding) (revisions : Revisions) (r r' : NoteRevision) (i i' : RevisionId)
    → Follows e r r'
    → revision_id e r ≡ ok i
    → get i' revisions ≡ some r'
    → Precedes revisions i i'
Follows-Precedes e revisions r r' i i' f id_eq stored =
    (i', r', here, stored, subst (In i) (sym f.link) (inl (ground (arith, f.parent_id))))

-- When the winner was made by revising a revision, that revision is never reported as a conflict,
-- even while some author's head still asserts it.
pub revised_is_no_conflict :
    (e : Encoding) (revisions : Revisions) (heads : List Head) (res : ResolvedNote)
    (r r' : NoteRevision) (i : RevisionId)
    → resolve_heads revisions heads ≡ some res
    → Follows e r r'
    → revision_id e r ≡ ok i
    → get res.winning_revision revisions ≡ some r'
    → ¬ In i (reported res.conflict)
revised_is_no_conflict e revisions heads res r r' i h f id_eq stored m =
    let (q, a, n, p) = (conflict_is_exact revisions heads res i h).0 m in
    p (Follows-Precedes e revisions r r' i res.winning_revision f id_eq stored)
