-- ===== src/Projection/Frame.antt =====
-- The steps of projection.rs and the files and entries that are not theirs.
use exokephalos.Prelude.{◌≡◌, ◌≢◌, refl, arith}
use exokephalos.Prelude.Effect.{◌>>=◌}
use exokephalos.Prelude.Map.{get, get-insert, get-remove}
use exokephalos.Prelude.Order.{same_iff}
use exokephalos.Prelude.Result.{Result, ok, err}
use exokephalos.Prelude.Text.{Text, text_ord}
use exokephalos.Projection.Disk.{
  Step, Location, location_ord, location, State, Faults, ProjectionError,
}
use exokephalos.Projection.Expected.{persist, record_write, record_deletion, forget_write}
use exokephalos.Projection.{or_forget, write_content, remove_file}

-- The files and the manifest are as they were.
pub record SameDisk (s t : State) : Type 0 where
  pub files_eq : t.files ≡ s.files
  pub manifest_eq : t.manifest ≡ s.manifest

module _ (faults : Faults) where
  persist-SameDisk : (s : State) → SameDisk s (persist faults s).1
  unfolding persist ◌>>=◌
  persist-SameDisk s = record { files_eq = ground arith; manifest_eq = ground arith }

  pub record_write-SameDisk :
      (path h : Text) (s : State) → SameDisk s (record_write faults path h s).1
  unfolding record_write persist ◌>>=◌
  record_write-SameDisk path h s = record { files_eq = ground arith; manifest_eq = ground arith }

  pub record_deletion-SameDisk :
      (path : Text) (s : State) → SameDisk s (record_deletion faults path s).1
  unfolding record_deletion record_write persist ◌>>=◌
  record_deletion-SameDisk path s = record { files_eq = ground arith; manifest_eq = ground arith }

  pub forget_write-SameDisk : (path : Text) (s : State) → SameDisk s (forget_write faults path s).1
  unfolding forget_write persist ◌>>=◌
  forget_write-SameDisk path s = record { files_eq = ground arith; manifest_eq = ground arith }

module _ (faults : Faults) (hash : Text → Text) where
  -- What holds of files and manifest after `m` holds after `or_forget path m` too.
  pub or_forget-SameDisk :
      (path : Text) (m : Step (Unit {0})) (s : State)
      → SameDisk (m s).1 (or_forget faults hash path m s).1
  unfolding or_forget ◌>>=◌
  or_forget-SameDisk path m s = go (m s).0 (m s).1 refl refl
    where
      go :
          (r : Result ProjectionError (Unit {0})) (s' : State)
          → (m s).0 ≡ r
          → (m s).1 ≡ s'
          → SameDisk (m s).1 (or_forget faults hash path m s).1
      go (ok u) s' e f = record { files_eq = ground arith; manifest_eq = ground arith }
      go (err d) s' e f = record {
        files_eq = ground (arith, (forget_write-SameDisk faults path s').files_eq);
        manifest_eq = ground (arith, (forget_write-SameDisk faults path s').manifest_eq);
      }

  -- A removal or a write touches the file at its own path alone, and no manifest.
  pub remove_file_frame :
      (path : Text) (l : Location) (s : State)
      → ((remove_file faults hash path s).1.manifest ≡ s.manifest)
        × (location path ≢ l → get l (remove_file faults hash path s).1.files ≡ get l s.files)
  unfolding remove_file ◌>>=◌
  remove_file_frame path l s = (
    ground arith,
    λ n. ground (arith, get-remove (location path) l s.files, same_iff (location path) l),
  )

  pub write_content_frame :
      (path bytes : Text) (l : Location) (s : State)
      → ((write_content faults hash path bytes s).1.manifest ≡ s.manifest)
        × (location path ≢ l
            → get l (write_content faults hash path bytes s).1.files ≡ get l s.files)
  unfolding write_content ◌>>=◌
  write_content_frame path bytes l s = (
    ground arith,
    λ n. ground (arith, get-insert (location path) l bytes s.files, same_iff (location path) l),
  )
