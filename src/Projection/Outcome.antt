-- ===== src/Projection/Outcome.antt =====
-- What projection.rs has done once a file is materialized, and what its watcher then makes of it.
use exokephalos.Prelude.{
  ◌≡◌, ◌≢◌, refl, ap, ◌↔◌, ◌⊎◌, inl, inr, Bool, true, false, ◌||◌, Option, none, some, [], arith,
  is_empty, Bool-cases,
}
use exokephalos.Prelude.Effect.{◌>>=◌}
use exokephalos.Prelude.Map.{get, insert, get-insert, get-remove}
use exokephalos.Prelude.Order.{same, same_iff}
use exokephalos.Prelude.Result.{ok}
use exokephalos.Prelude.Text.{Text, text_ord}
use exokephalos.Domain.{is_invalid_path}
use exokephalos.Projection.Disk.{
  Location, location_ord, location, join, path_key, State, Faults, MaterializedEntry, DesiredFile,
  reading, saving_expected, making_directory, writing, Operation,
}
use exokephalos.Projection.Expected.{
  persist, record_write, forget_write, hash_at, file_hash, consume_if_expected,
}
use exokephalos.Projection.{
  or_forget, write_content, safe_join, is_unedited, is_hash, is_missing, write_desired,
  materialize_at, materialize_desired,
}

module _ (faults : Faults) (hash : Text → Text) where
  forget_write-expected :
      (path : Text) (s : State) → get (path_key path) (forget_write faults path s).1.expected ≡ none
  unfolding forget_write persist ◌>>=◌
  forget_write-expected path s = ground (
    arith,
    get-remove (path_key path) (path_key path) s.expected,
    same_iff (path_key path) (path_key path),
  )

  -- An expectation is used up by the first look at its path, whatever that look finds and whether
  -- or not it fails: a second look at once never finds the path expected.
  pub consume_if_expected_once :
      (path : Text) (s : State)
      → (consume_if_expected faults hash path (consume_if_expected faults hash path s).1).0
        ≢ ok true
  unfolding consume_if_expected file_hash ◌>>=◌
  consume_if_expected_once path s = ground (arith, forget_write-expected path s)

  -- No operation fails.
  abbrev pub AllWell : Type 0
  AllWell = (operation : Operation) (path : Text) → faults operation path ≡ none

  write_desired_lem :
      (destination h : Text) (file : DesiredFile) (s : State)
      → AllWell
      → is_empty (location destination) ≡ false
      → ((write_desired faults hash destination file h s).0 ≡ ok tt)
        × ((write_desired faults hash destination file h s).1.files
            ≡ insert (location destination) file.bytes s.files)
        × ((write_desired faults hash destination file h s).1.expected
            ≡ insert (path_key destination) h s.expected)
        × ((write_desired faults hash destination file h s).1.manifest ≡ s.manifest)
  unfolding write_desired record_write persist or_forget write_content ◌>>=◌
  write_desired_lem destination h file s well e =
      let start = well saving_expected [] in
      let made = well making_directory destination in
      let wrote = well writing destination in
      (
        ground (arith, start, made, wrote),
        ground (arith, start, made, wrote),
        ground (arith, start, made, wrote),
        ground (arith, start, made, wrote),
      )

  abbrev can_write : Option Text → Option MaterializedEntry → DesiredFile → Bool
  can_write actual prior file =
      is_missing actual || (is_hash actual (hash file.bytes) || is_unedited prior file.path actual)

  abbrev Writable : Option Text → Option MaterializedEntry → DesiredFile → Type 0
  Writable actual prior file =
      (actual ≡ none)
      ⊎ (actual ≡ some (hash file.bytes))
      ⊎ ((entry : MaterializedEntry) × (prior ≡ some entry)
          × (entry.path ≡ file.path)
          × (actual ≡ some entry.hash))

  -- Nothing lies at the destination, or the wanted content, or what was last written there for
  -- this record.
  abbrev pub MayWrite : Text → DesiredFile → State → Type 0
  MayWrite destination file s = Writable (hash_at hash destination s) (get file.id s.manifest) file

  is_hash_iff : (actual : Option Text) (h : Text) → (is_hash actual h ≡ true) ↔ (actual ≡ some h)
  is_hash_iff none h = (λ e. cc, λ e. cc)
  is_hash_iff (some a) h = ground (arith, same_iff a h)

  can_write_iff :
      (actual : Option Text) (prior : Option MaterializedEntry) (file : DesiredFile)
      → (can_write actual prior file ≡ true) ↔ Writable actual prior file
  can_write_iff none prior file = (λ e. inl refl, λ w. refl)
  can_write_iff (some a) none file = (
    λ e. ground (arith, same_iff a (hash file.bytes)),
    λ w. ground (arith, w, same_iff a (hash file.bytes)),
  )
  can_write_iff (some a) (some entry) file = (
    λ e. elim (Bool-cases (same a (hash file.bytes))) [
      | inl h ↦ inr (inl (ap some ((same_iff a (hash file.bytes)).0 h)))
      | inr h ↦ inr (
          inr (
            entry,
            refl,
            ground (arith, same_iff entry.path file.path),
            ground (arith, same_iff a entry.hash),
          ))
    ],
    λ w. ground (
      arith,
      w,
      same_iff a (hash file.bytes),
      same_iff entry.path file.path,
      same_iff a entry.hash,
    ),
  )

  -- Without a failure, and at a destination that has a name, one of two things happens: the wanted
  -- content is on disk afterwards and the manifest says so, or nothing is touched.
  abbrev Materialized : Text → DesiredFile → State → State → Type 0
  Materialized destination file s t =
      (hash_at hash destination t ≡ some (hash file.bytes))
      × (get file.id t.manifest ≡ some (record { path = file.path; hash = hash file.bytes }))

  materialize_at_writes :
      (destination : Text) (file : DesiredFile) (s : State) (actual : Option Text)
      (prior : Option MaterializedEntry)
      → AllWell
      → is_empty (location destination) ≡ false
      → hash_at hash destination s ≡ actual
      → can_write actual prior file ≡ true
      → ((materialize_at faults hash destination file actual prior s).0 ≡ ok tt)
        × Materialized destination file s
            (materialize_at faults hash destination file actual prior s).1
  unfolding materialize_at ◌>>=◌
  materialize_at_writes destination file s actual prior well e seen w =
      let at : Location = location destination in
      let (ran, files_eq, _, manifest_eq) =
        write_desired_lem destination (hash file.bytes) file s well e in
      let wrote = (write_desired faults hash destination file (hash file.bytes) s).1 in
      let entry : MaterializedEntry = record { path = file.path; hash = hash file.bytes } in
      ground (
        arith,
        w,
        ran,
        ap (get at) files_eq,
        get-insert at at file.bytes s.files,
        same_iff at at,
        get-insert file.id file.id entry s.manifest,
        get-insert file.id file.id entry wrote.manifest,
        same_iff file.id file.id,
        is_hash_iff actual (hash file.bytes),
        seen,
      )

  materialize_at_declines :
      (destination : Text) (file : DesiredFile) (s : State) (actual : Option Text)
      (prior : Option MaterializedEntry)
      → can_write actual prior file ≡ false
      → ((materialize_at faults hash destination file actual prior s).0 ≡ ok tt)
        × ((materialize_at faults hash destination file actual prior s).1.files ≡ s.files)
        × ((materialize_at faults hash destination file actual prior s).1.manifest ≡ s.manifest)
  unfolding materialize_at
  materialize_at_declines destination file s actual prior w = rw w (refl, refl, refl)

  -- Materialize a file whose path passes the check and names a file, while no operation fails. This
  -- always returns. Either nothing lay at its place, or already the wanted content, or what the
  -- manifest has for this record at this path, and then the content there has the hash of the
  -- wanted bytes afterwards, and the manifest has the path with that hash. Or something else lay
  -- there, and then both the files and the manifest are as they were.
  pub materialize_desired_lem :
      (root : Text) (file : DesiredFile) (s : State)
      → AllWell
      → is_invalid_path file.path ≡ false
      → is_empty (location (join root file.path)) ≡ false
      → ((materialize_desired faults hash root file s).0 ≡ ok tt)
        × ((MayWrite (join root file.path) file s
              × (hash_at hash (join root file.path) (materialize_desired faults hash root file s).1
                  ≡ some (hash file.bytes))
              × (get file.id (materialize_desired faults hash root file s).1.manifest
                  ≡ some (record { path = file.path; hash = hash file.bytes })))
            ⊎ ((¬ MayWrite (join root file.path) file s)
                × ((materialize_desired faults hash root file s).1.files ≡ s.files)
                × ((materialize_desired faults hash root file s).1.manifest ≡ s.manifest)))
  unfolding materialize_desired safe_join file_hash ◌>>=◌
  materialize_desired_lem root file s well valid named =
      let to = join root file.path in
      let actual = hash_at hash to s in
      let prior = get file.id s.manifest in
      elim (Bool-cases (can_write actual prior file)) [
        | inl w ↦
            let (ran, done) = materialize_at_writes to file s actual prior well named refl w in
            rw (valid, well reading to)
              (ran, inl ((can_write_iff actual prior file).0 w, done.0, done.1))
        | inr w ↦
            let (ran, files_eq, manifest_eq) = materialize_at_declines to file s actual prior w in
            rw (valid, well reading to)
              (
                ran,
                inr (
                  λ m. absurd (ground (arith, (can_write_iff actual prior file).1 m, w)),
                  files_eq,
                  manifest_eq,
                ),
              )
      ]

  -- While no operation fails, the first look of the watcher at a file just written finds it
  -- expected, and the second does not.
  pub own_write_is_expected :
      (destination : Text) (file : DesiredFile) (s : State)
      → AllWell
      → is_empty (location destination) ≡ false
      → ((consume_if_expected faults hash destination
            (write_desired faults hash destination file (hash file.bytes) s).1).0
          ≡ ok true)
        × ((consume_if_expected faults hash destination
              (consume_if_expected faults hash destination
                (write_desired faults hash destination file (hash file.bytes) s).1).1).0
            ≡ ok false)
  unfolding consume_if_expected file_hash forget_write persist ◌>>=◌
  own_write_is_expected destination file s well named =
      let (ran, files_eq, expected_eq, _) =
        write_desired_lem destination (hash file.bytes) file s well named in
      let wrote = (write_desired faults hash destination file (hash file.bytes) s).1 in
      ground (
        arith,
        well reading destination,
        well saving_expected [],
        ap (get (location destination)) files_eq,
        get-insert (location destination) (location destination) file.bytes s.files,
        same_iff (location destination) (location destination),
        ap (get (path_key destination)) expected_eq,
        get-insert (path_key destination) (path_key destination) (hash file.bytes) s.expected,
        same_iff (path_key destination) (path_key destination),
        same_iff (hash file.bytes) (hash file.bytes),
        get-remove (path_key destination) (path_key destination) wrote.expected,
      )
