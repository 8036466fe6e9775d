-- ===== src/Projection/Edits.antt =====
-- `reconcile_files` of projection.rs as a whole, on a file that was edited since it was written.
use exokephalos.Prelude.{
  ◌≡◌, ◌≢◌, refl, sym, ◌∙◌, ap, subst, inl, inr, ◌||◌, some, List, [], ◌∷◌, arith, In, Bool-cases,
}
use exokephalos.Prelude.Effect.{◌>>=◌, for_each, Keeps-for_each}
use exokephalos.Prelude.Map.{
  BTreeMap, get, insert, remove, values, get-insert, get-remove, IsAscending, Above, In-Above,
  get-In, In-insert_entry, insert-IsAscending,
}
use exokephalos.Prelude.Order.{same_iff, contains}
use exokephalos.Prelude.Set
use exokephalos.Prelude.Result.{ok, Result-cases}
use exokephalos.Prelude.Set.{BTreeSet}
use exokephalos.Prelude.Text.{Text, text, text_ord}
use exokephalos.Projection.Disk.{
  Location, location_ord, location, join, State, Faults, MaterializedEntry, DesiredFile,
}
use exokephalos.Projection.Expected.{hash_at}
use exokephalos.Projection.Manifest.{remove_one-Says, materialize_desired-Says}
use exokephalos.Projection.Preserve.{
  Holds, Edited, hash_at-Holds, remove_one-Keeps, materialize_at_keeps,
}
use exokephalos.Projection.Reading.{file_hash_lem}
use exokephalos.Projection.{
  safe_join, obsolete, remove_one, remove_obsolete, materialize_desired, unique_desired,
  reconcile_files, is_present, diagnose,
}

In-obsolete :
    (desired : BTreeMap Text DesiredFile) (m : BTreeMap Text MaterializedEntry)
    (e : Text × MaterializedEntry)
    → In e (obsolete desired m)
    → In e m
In-obsolete desired [] e h = h
In-obsolete desired ((id, entry) ∷ m) e h = ground (arith, In-obsolete desired m e)

-- Every record is filed under its identity.
abbrev IsFiled : BTreeMap Text DesiredFile → Type 0
IsFiled m = (k : Text) (f : DesiredFile) → In (k, f) m → f.id ≡ k

-- What `unique_desired` hands on, and what it leaves alone.
record Unique (m : BTreeMap Text DesiredFile) (s t : State) : Type 0 where
  pub ascends : IsAscending m
  pub filed : IsFiled m
  pub files_eq : t.files ≡ s.files
  pub saved_eq : t.saved_manifest ≡ s.saved_manifest

IsFiled-insert :
    (file : DesiredFile) (m : BTreeMap Text DesiredFile)
    → IsFiled m
    → IsFiled (insert file.id file m)
IsFiled-insert file m filed k f i =
    ground (arith, filed k f, In-insert_entry file.id file (k, f) m i)

unique_desired_lem :
    (files : List DesiredFile) (result : BTreeMap Text DesiredFile) (paths : BTreeSet Text)
    (s : State)
    → IsAscending result
    → IsFiled result
    → (m : BTreeMap Text DesiredFile) × ((unique_desired files result paths s).0 ≡ ok m)
      × Unique m s (unique_desired files result paths s).1
unfolding unique_desired
unique_desired_lem [] result paths s a filed =
    (result, refl, record { ascends = a; filed = filed; files_eq = refl; saved_eq = refl })
unique_desired_lem (file ∷ files) result paths s a filed =
    elim (Bool-cases (is_present (get file.id result) || contains paths file.path)) [
      | inl e ↦
          let noted =
            (diagnose file.path (text "projection-path-conflict")
              (text "multiple records resolve to this identity or path") s).1 in
          let (m, q, u) = unique_desired_lem files result paths noted a filed in
          rw (e, unique_desired)
            (
              m,
              q,
              record {
                ascends = u.ascends;
                filed = u.filed;
                files_eq = u.files_eq;
                saved_eq = u.saved_eq;
              },
            )
      | inr e ↦
          rw (e, unique_desired)
            (unique_desired_lem files (insert file.id file result) (Set.insert file.path paths) s
              (insert-IsAscending file.id file result a) (IsFiled-insert file result filed))
    ]

module _ (faults : Faults) (hash : Text → Text) (l : Location) (b root : Text) where
  -- No entry of the manifest promises what is at `l`.
  abbrev NonePromises : BTreeMap Text MaterializedEntry → Type 0
  NonePromises m =
      (k : Text) (e : MaterializedEntry) → get k m ≡ some e → Edited faults hash l b root e

  NonePromises-remove :
      (k : Text) (m : BTreeMap Text MaterializedEntry) → NonePromises m → NonePromises (remove k m)
  NonePromises-remove k m p j e h = p j e (ground (arith, get-remove k j m))

  remove_obsolete-Holds :
      (desired : BTreeMap Text DesiredFile) (s : State)
      → ((e : Text × MaterializedEntry) → In e s.manifest → Edited faults hash l b root e.1)
      → Holds faults hash l b s
      → Holds faults hash l b (remove_obsolete faults hash root desired s).1
  unfolding remove_obsolete
  remove_obsolete-Holds desired s edited h =
      (Keeps-for_each (obsolete desired s.manifest) (remove_one faults hash root) (λ (id, entry) m.
          remove_one-Keeps faults hash l b root id entry
            (edited (id, entry) (In-obsolete desired s.manifest (id, entry) m)))).at
        s h

  remove_obsolete-NonePromises :
      (desired : BTreeMap Text DesiredFile) (s : State)
      → NonePromises s.manifest
      → NonePromises (remove_obsolete faults hash root desired s).1.manifest
  unfolding remove_obsolete
  remove_obsolete-NonePromises desired s p =
      (Keeps-for_each (obsolete desired s.manifest) (remove_one faults hash root) (λ (id, entry) m.
          remove_one-Says faults hash NonePromises root id entry (NonePromises-remove id))).at
        s p

  materialize_desired-Holds :
      (file : DesiredFile) (s : State)
      → ((e : MaterializedEntry)
          → get file.id s.manifest ≡ some e
          → e.path ≡ file.path
          → Edited faults hash l b root e)
      → Holds faults hash l b s
      → Holds faults hash l b (materialize_desired faults hash root file s).1
  unfolding materialize_desired ◌>>=◌ safe_join
  materialize_desired-Holds file s edited h =
      let path = join root file.path in
      ground (
        arith,
        file_hash_lem faults hash path s,
        materialize_at_keeps faults hash l b path file (hash_at hash path s)
            (get file.id s.manifest) s (hash_at-Holds faults hash l b path s h)
            (λ e found same_path at_l.
              edited e found same_path (ap (λ p. location (join root p)) same_path ∙ at_l))
            h,
      )

  abbrev Pending : BTreeMap Text DesiredFile → BTreeMap Text MaterializedEntry → Type 0
  Pending todo m =
      (k : Text) (f : DesiredFile)
      → In (k, f) todo
      → (e : MaterializedEntry) → get k m ≡ some e
      → e.path ≡ f.path
      → Edited faults hash l b root e

  Pending-materialize :
      (k : Text) (file : DesiredFile) (todo : BTreeMap Text DesiredFile) (s : State)
      → file.id ≡ k
      → Above k todo
      → Pending todo s.manifest
      → Pending todo (materialize_desired faults hash root file s).1.manifest
  Pending-materialize k file todo s filed above p j f i =
      (materialize_desired-Says faults hash
          (λ m.
            (e : MaterializedEntry)
            → get j m ≡ some e
            → e.path ≡ f.path
            → Edited faults hash l b root e)
          root file
          (λ m e q d got. q d (
            ground (
              arith,
              get-insert file.id j e m,
              same_iff file.id j,
              In-Above k (j, f) todo above i,
              text_ord.order_self k,
            )))).at
        s (p j f i)

  materialize_all-Holds :
      (todo : BTreeMap Text DesiredFile) (s : State)
      → IsAscending todo
      → IsFiled todo
      → Pending todo s.manifest
      → Holds faults hash l b s
      → Holds faults hash l b (for_each (values todo) (materialize_desired faults hash root) s).1
  unfolding for_each ◌>>=◌
  materialize_all-Holds [] s a filed p h = h
  materialize_all-Holds ((k, file) ∷ todo) s a filed p h =
      let done = materialize_desired faults hash root file s in
      let id_eq = filed k file (inl refl) in
      let held : Holds faults hash l b done.1 =
        materialize_desired-Holds file s
          (λ e got. p k file (inl refl) e (ap (λ i. get i s.manifest) (sym id_eq) ∙ got)) h in
      elim (Result-cases done.0) [
        | inl (u, e) ↦ ground (
          arith,
          materialize_all-Holds todo done.1 a.1 (λ j f i. filed j f (inr i))
              (Pending-materialize k file todo s id_eq a.0 (λ j f i. p j f (inr i))) held,
        )
        | inr (d, e) ↦ ground (arith, held)
      ]

-- Take a file whose content is promised by no entry of the saved manifest at its place, because it
-- was edited or never written from here. Reconciling leaves it as it is, whatever records there
-- are, whichever operations fail, and whether the whole succeeds or not.
pub local_edit_survives :
    (faults : Faults) (hash : Text → Text) (root : Text) (desired : List DesiredFile) (s : State)
    (l : Location) (b : Text)
    → get l s.files ≡ some b
    → ((e : Text × MaterializedEntry)
        → In e s.saved_manifest
        → location (join root e.1.path) ≡ l
        → e.1.hash ≢ hash b)
    → get l (reconcile_files faults hash root desired s).1.files ≡ some b
unfolding reconcile_files ◌>>=◌
local_edit_survives faults hash root desired s l b h edited =
    let start = record s {
      report = record { materialized = []; removed = []; diagnostics = [] };
    } in
    let (m, found, u) = unique_desired_lem desired [] [] start tt (λ k f i. absurd i) in
    let s1 = (unique_desired desired [] [] start).1 in
    let s2 = record s1 { manifest = s1.saved_manifest } in
    let s3 = (remove_obsolete faults hash root m s2).1 in
    let promises : (e : Text × MaterializedEntry)
        → In e s2.manifest
        → Edited faults hash l b root e.1 =
      λ e i. edited e (subst (In e) u.saved_eq i) in
    let kept : Holds faults hash l b s3 =
      remove_obsolete-Holds faults hash l b root m s2 promises (ap (get l) u.files_eq ∙ h) in
    let none_promises : NonePromises faults hash l b root s3.manifest =
      remove_obsolete-NonePromises faults hash l b root m s2
        (λ k e got. promises (k, e) (get-In k e s2.manifest got)) in
    ground (
      arith,
      found,
      ap (get l) u.files_eq ∙ h,
      kept,
      materialize_all-Holds faults hash l b root m s3 u.ascends u.filed
          (λ k f i e got same_path. none_promises k e got) kept,
    )
