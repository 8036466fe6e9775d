-- ===== src/Projection/Preserve.antt =====
-- The steps of projection.rs, one by one, on a file that was edited since it was materialized.
use exokephalos.Prelude.{
  ◌≡◌, ◌≢◌, refl, ◌∙◌, ap, inl, inr, true, Option, none, some, arith, Bool-cases,
}
use exokephalos.Prelude.Effect.{◌>>=◌, Keeps, Keeps-bind}
use exokephalos.Prelude.Map.{get}
use exokephalos.Prelude.Order.{same, same_iff}
use exokephalos.Prelude.Text.{Text, text_ord}
use exokephalos.Projection.Disk.{
  Step, Location, location_ord, location, join, State, Faults, MaterializedEntry, DesiredFile,
  making_directory, Operation, at_fault,
}
use exokephalos.Projection.Expected.{hash_at}
use exokephalos.Projection.Frame.{
  SameDisk, record_write-SameDisk, record_deletion-SameDisk, or_forget-SameDisk, remove_file_frame,
  write_content_frame,
}
use exokephalos.Projection.Reading.{file_hash_lem}
use exokephalos.Projection.{
  or_forget, write_content, remove_file, safe_join, drop_obsolete, remove_one, write_desired,
  materialize_at,
}

module _ (faults : Faults) (hash : Text → Text) (l : Location) (b : Text) where
  -- The file at `l` holds `b`.
  abbrev pub Holds : State → Type 0
  Holds s = get l s.files ≡ some b

  -- A step that leaves the files alone, and the failure of an operation before it has an effect.
  SameDisk-Keeps : (m : Step (Unit {0})) → ((s : State) → SameDisk s (m s).1) → Keeps Holds m
  SameDisk-Keeps m same = record { at = λ s h. ground (arith, (same s).files_eq) }

  or_forget-Keeps :
      (path : Text) (m : Step (Unit {0}))
      → Keeps Holds m
      → Keeps Holds (or_forget faults hash path m)
  or_forget-Keeps path m k = record {
    at = λ s h. ground (arith, (or_forget-SameDisk faults hash path m s).files_eq, k.at s h);
  }

  at_fault-Keeps :
      (operation : Operation) (path : Text) → Keeps Holds (at_fault faults operation path)
  at_fault-Keeps operation path = record { at = λ s h. h }

  remove_file-Keeps : (path : Text) → location path ≢ l → Keeps Holds (remove_file faults hash path)
  remove_file-Keeps path n = record { at = λ s h. (remove_file_frame faults hash path l s).1 n ∙ h }

  write_content-Keeps :
      (path bytes : Text) → location path ≢ l → Keeps Holds (write_content faults hash path bytes)
  write_content-Keeps path bytes n = record {
    at = λ s h. (write_content_frame faults hash path bytes l s).1 n ∙ h;
  }

  removal-Keeps :
      (id path : Text) (entry : MaterializedEntry) (h : Text)
      → location path ≢ l
      → same h entry.hash ≡ true
      → Keeps Holds (drop_obsolete faults hash id path entry (some h))
  unfolding drop_obsolete
  removal-Keeps id path entry h n e = rw e (
      Keeps-bind _ _ (SameDisk-Keeps _ (record_deletion-SameDisk faults path)) (λ _.
        Keeps-bind _ _ (or_forget-Keeps path _ (remove_file-Keeps path n))
          (λ _. Keeps-bind _ _ (record { at = λ s k. k }) (λ _. record { at = λ s k. k }))))

  drop_obsolete_keeps :
      (id path : Text) (entry : MaterializedEntry) (o : Option Text) (s : State)
      → (location path ≡ l → o ≡ some (hash b))
      → (location path ≡ l → entry.hash ≢ hash b)
      → Holds s
      → Holds (drop_obsolete faults hash id path entry o s).1
  unfolding drop_obsolete
  drop_obsolete_keeps id path entry none s seen edited k = k
  drop_obsolete_keeps id path entry (some h) s seen edited k =
      elim (Bool-cases (same h entry.hash)) [
        | inr e ↦ rw e k
        | inl e ↦
            (removal-Keeps id path entry h
                (λ at_l. edited at_l (ground (arith, seen at_l, same_iff h entry.hash))) e).at
              s k
      ]

  pub hash_at-Holds :
      (path : Text) (s : State) → Holds s → location path ≡ l → hash_at hash path s ≡ some (hash b)
  hash_at-Holds path s h e = ground (arith, ap (λ k. get k s.files) e)

  -- No entry of the manifest promises the file that is at `l` now.
  abbrev pub Edited : Text → MaterializedEntry → Type 0
  Edited root entry = location (join root entry.path) ≡ l → entry.hash ≢ hash b

  pub remove_one-Keeps :
      (root id : Text) (entry : MaterializedEntry)
      → Edited root entry
      → Keeps Holds (remove_one faults hash root (id, entry))
  unfolding remove_one ◌>>=◌ safe_join
  remove_one-Keeps root id entry edited = record {
    at = λ s h.
        let path = join root entry.path in
        ground (
          arith,
          file_hash_lem faults hash path s,
          drop_obsolete_keeps id path entry (hash_at hash path s) s (hash_at-Holds path s h) edited
              h,
        );
  }

  write_desired-Keeps :
      (destination desired_hash : Text) (file : DesiredFile)
      → location destination ≢ l
      → Keeps Holds (write_desired faults hash destination file desired_hash)
  unfolding write_desired
  write_desired-Keeps destination desired_hash file n =
      Keeps-bind _ _ (SameDisk-Keeps _ (record_write-SameDisk faults destination desired_hash))
        (λ _.
          Keeps-bind _ _ (record { at = λ s h. h })
            (λ _. Keeps-bind _ _ (at_fault-Keeps making_directory destination) (λ _.
              Keeps-bind _ _
                (or_forget-Keeps destination _ (write_content-Keeps destination file.bytes n))
                (λ _. record { at = λ s h. h }))))

  pub materialize_at_keeps :
      (destination : Text) (file : DesiredFile) (actual : Option Text)
      (prior : Option MaterializedEntry) (s : State)
      → (location destination ≡ l → actual ≡ some (hash b))
      → ((entry : MaterializedEntry)
          → prior ≡ some entry
          → entry.path ≡ file.path
          → location destination ≡ l
          → entry.hash ≢ hash b)
      → Holds s
      → Holds (materialize_at faults hash destination file actual prior s).1
  unfolding materialize_at ◌>>=◌
  materialize_at_keeps destination file actual none s seen edited h = ground (
    arith,
    (λ (n : location destination ≢ l).
        (write_desired-Keeps destination (hash file.bytes) file n).at s h),
  )
  materialize_at_keeps destination file none (some entry) s seen edited h = ground (
    arith,
    (λ (n : location destination ≢ l).
        (write_desired-Keeps destination (hash file.bytes) file n).at s h),
  )
  materialize_at_keeps destination file (some actual) (some entry) s seen edited h = ground (
    arith,
    edited entry refl,
    same_iff entry.path file.path,
    same_iff actual entry.hash,
    (λ (n : location destination ≢ l).
        (write_desired-Keeps destination (hash file.bytes) file n).at s h),
  )
