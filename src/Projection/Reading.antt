-- ===== src/Projection/Reading.antt =====
-- `file_hash` of projection.rs: it reads, and either fails or tells what is on disk.
use exokephalos.Prelude.{◌≡◌, ◌⊎◌, inl, inr, arith, Option-cases}
use exokephalos.Prelude.Effect.{◌>>=◌}
use exokephalos.Prelude.Result.{ok, err}
use exokephalos.Prelude.Text.{Text}
use exokephalos.Projection.Disk.{State, Faults, reading, ProjectionError}
use exokephalos.Projection.Expected.{hash_at, file_hash}

pub file_hash_lem :
    (faults : Faults) (hash : Text → Text) (path : Text) (s : State)
    → ((file_hash faults hash path s).1 ≡ s)
      × (((file_hash faults hash path s).0 ≡ ok (hash_at hash path s))
          ⊎ ((e : ProjectionError) × ((file_hash faults hash path s).0 ≡ err e)))
unfolding file_hash ◌>>=◌
file_hash_lem faults hash path s = elim (Option-cases (faults reading path)) [
  | inl e ↦ (ground arith, inl (ground arith))
  | inr (m, e) ↦ (ground arith, inr (m, ground arith))
]
