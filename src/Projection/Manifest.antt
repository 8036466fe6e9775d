-- ===== src/Projection/Manifest.antt =====
-- What the steps of projection.rs do to the manifest: they take an entry out or put one in.
use exokephalos.Prelude.{sym, subst, inl, inr, Option, none, some, [], arith, Bool-cases}
use exokephalos.Prelude.Effect.{◌>>=◌, Keeps, Keeps-bind}
use exokephalos.Prelude.Map.{BTreeMap, insert, remove}
use exokephalos.Prelude.Order.{same}
use exokephalos.Prelude.Text.{Text, text_ord}
use exokephalos.Projection.Disk.{Step, location_ord, State, Faults, MaterializedEntry, DesiredFile}
use exokephalos.Projection.Expected.{file_hash}
use exokephalos.Projection.Frame.{
  SameDisk, record_write-SameDisk, record_deletion-SameDisk, or_forget-SameDisk, remove_file_frame,
  write_content_frame,
}
use exokephalos.Projection.Reading.{file_hash_lem}
use exokephalos.Projection.{
  or_forget, write_content, remove_file, drop_obsolete, remove_one, write_desired, materialize_at,
  materialize_desired,
}

module _ (faults : Faults) (hash : Text → Text) (P : BTreeMap Text MaterializedEntry → Type 0) where
  abbrev pub Says : State → Type 0
  Says s = P s.manifest

  SameDisk-Keeps : {A : Type 0} (m : Step A) → ((s : State) → SameDisk s (m s).1) → Keeps Says m
  SameDisk-Keeps m same = record { at = λ s h. subst P (sym (same s).manifest_eq) h }

  or_forget-Keeps :
      (path : Text) (m : Step (Unit {0})) → Keeps Says m → Keeps Says (or_forget faults hash path m)
  or_forget-Keeps path m k = record {
    at = λ s h. subst P (sym (or_forget-SameDisk faults hash path m s).manifest_eq) (k.at s h);
  }

  remove_file-Keeps : (path : Text) → Keeps Says (remove_file faults hash path)
  remove_file-Keeps path = record {
    at = λ s h. subst P (sym (remove_file_frame faults hash path [] s).0) h;
  }

  write_content-Keeps : (path bytes : Text) → Keeps Says (write_content faults hash path bytes)
  write_content-Keeps path bytes = record {
    at = λ s h. subst P (sym (write_content_frame faults hash path bytes [] s).0) h;
  }

  file_hash-Keeps : (path : Text) → Keeps Says (file_hash faults hash path)
  file_hash-Keeps path = record {
    at = λ s h. subst Says (sym (file_hash_lem faults hash path s).0) h;
  }

  drop_obsolete-Keeps :
      (id path : Text) (entry : MaterializedEntry) (o : Option Text)
      → ((m : BTreeMap Text MaterializedEntry) → P m → P (remove id m))
      → Keeps Says (drop_obsolete faults hash id path entry o)
  unfolding drop_obsolete
  drop_obsolete-Keeps id path entry none k = record { at = λ s h. k s.manifest h }
  drop_obsolete-Keeps id path entry (some h) k = elim (Bool-cases (same h entry.hash)) [
    | inr e ↦ rw e (record { at = λ s p. p })
    | inl e ↦ rw e (
        Keeps-bind _ _ (SameDisk-Keeps _ (record_deletion-SameDisk faults path)) (λ _.
          Keeps-bind _ _ (or_forget-Keeps path _ (remove_file-Keeps path)) (λ _.
            Keeps-bind _ _ (record { at = λ s p. k s.manifest p })
              (λ _. record { at = λ s p. p }))))
  ]

  pub remove_one-Says :
      (root id : Text) (entry : MaterializedEntry)
      → ((m : BTreeMap Text MaterializedEntry) → P m → P (remove id m))
      → Keeps Says (remove_one faults hash root (id, entry))
  unfolding remove_one
  remove_one-Says root id entry k =
      Keeps-bind _ _ (record { at = λ s h. h })
        (λ path. Keeps-bind _ _ (file_hash-Keeps path) (λ o. drop_obsolete-Keeps id path entry o k))

  write_desired-Keeps :
      (destination desired_hash : Text) (file : DesiredFile)
      → Keeps Says (write_desired faults hash destination file desired_hash)
  unfolding write_desired
  write_desired-Keeps destination desired_hash file =
      Keeps-bind _ _ (SameDisk-Keeps _ (record_write-SameDisk faults destination desired_hash))
        (λ _.
          Keeps-bind _ _ (record { at = λ s h. h })
            (λ _.
              Keeps-bind _ _ (record { at = λ s h. h })
                (λ _.
                  Keeps-bind _ _
                    (or_forget-Keeps destination _ (write_content-Keeps destination file.bytes))
                    (λ _. record { at = λ s h. h }))))

  materialize_at-Keeps :
      (destination : Text) (file : DesiredFile) (actual : Option Text)
      (prior : Option MaterializedEntry)
      → ((m : BTreeMap Text MaterializedEntry) (e : MaterializedEntry)
          → P m
          → P (insert file.id e m))
      → Keeps Says (materialize_at faults hash destination file actual prior)
  unfolding materialize_at ◌>>=◌
  materialize_at-Keeps destination file actual prior k = record {
    at = λ s h.
        let entry : MaterializedEntry = record { path = file.path; hash = hash file.bytes } in
        let wrote = write_desired faults hash destination file (hash file.bytes) s in
        ground (
          arith,
          k s.manifest entry,
          k wrote.1.manifest entry,
          (write_desired-Keeps destination (hash file.bytes) file).at s h,
        );
  }

  pub materialize_desired-Says :
      (root : Text) (file : DesiredFile)
      → ((m : BTreeMap Text MaterializedEntry) (e : MaterializedEntry)
          → P m
          → P (insert file.id e m))
      → Keeps Says (materialize_desired faults hash root file)
  unfolding materialize_desired
  materialize_desired-Says root file k =
      Keeps-bind _ _ (record { at = λ s h. h })
        (λ path. Keeps-bind _ _ (file_hash-Keeps path) (λ actual.
          Keeps-bind _ _ (record { at = λ s h. h })
            (λ prior. materialize_at-Keeps path file actual prior k)))
