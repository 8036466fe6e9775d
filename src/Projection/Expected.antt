-- ===== src/Projection/Expected.antt =====
-- `ExpectedWrites` of projection.rs: the writes that the watcher of the file system must not take
-- for edits. The lock is never poisoned, since no holder panics.
use exokephalos.Prelude.{Bool, false, Option, none, some, [], if◌then◌else◌}
use exokephalos.Prelude.Effect.{return, gets, modify, ◌>>=◌, ◌>>◌}
use exokephalos.Prelude.Map.{get, insert, remove}
use exokephalos.Prelude.Order.{same}
use exokephalos.Prelude.Result.{ok}
use exokephalos.Prelude.Text.{Text, text_ord}
use exokephalos.Projection.Disk.{
  Step, location_ord, location, path_key, reading, saving_expected, State, Faults, at_fault,
  deleted_hash,
}

module _ (faults : Faults) where
  -- `ExpectedWrites::persist`, which does nothing without a state path.
  unfoldable pub persist : Step (Unit {0})
  persist s =
      if s.durable
      then (do
        at_fault faults saving_expected []
        modify (λ s. record s { saved_expected = s.expected }))
          s
      else (ok tt, s)

  -- `ExpectedWrites::record`
  unfoldable pub record_write : Text → Text → Step (Unit {0})
  record_write path h = do
    modify (λ s. record s { expected = insert (path_key path) h s.expected })
    persist

  unfoldable pub record_deletion : Text → Step (Unit {0})
  record_deletion path = record_write path deleted_hash

  -- `ExpectedWrites::remove`
  unfoldable pub forget_write : Text → Step (Unit {0})
  forget_write path s = elim (get (path_key path) s.expected) [
    | none ↦ (ok tt, s)
    | some h ↦ persist (record s { expected = remove (path_key path) s.expected })
  ]

-- Whether the file on disk is the one that the entry promises.
abbrev pub matches : Option Text → Text → Bool
matches none expected = same expected deleted_hash
matches (some actual) expected = same actual expected

abbrev pub matches_entry : Option Text → Option Text → Bool
matches_entry none actual = false
matches_entry (some expected) actual = matches actual expected

-- The hash of the file that lies at a path.
abbrev pub hash_at : (Text → Text) → Text → State → Option Text
hash_at hash path s = elim (get (location path) s.files) [ none ↦ none | some b ↦ some (hash b) ]

module _ (faults : Faults) (hash : Text → Text) where
  -- A missing file is no error; any other failure to read is.
  unfoldable pub file_hash : Text → Step (Option Text)
  file_hash path = do at_fault faults reading path; gets (hash_at hash path)

  -- `ExpectedWrites::consume_if_expected`
  unfoldable pub consume_if_expected : Text → Step Bool
  consume_if_expected path = do
    actual ← file_hash path
    matched ← gets (λ s. matches_entry (get (path_key path) s.expected) actual)
    forget_write faults path
    return matched
