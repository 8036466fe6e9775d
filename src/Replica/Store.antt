-- ===== src/Replica/Store.antt =====
-- The replica of central_replica.rs against the interface of the repository, and its writes.
use exokephalos.Prelude.{
  ◌≡◌, refl, sym, ◌∙◌, ap, subst, inl, inr, Bool, true, false, Option, none, some, [], ◌∷◌, ◌++◌,
  arith, if◌then◌else◌, Option-cases, In, ◌↔◌,
}
use exokephalos.Prelude.Effect.{◌>>=◌}
use exokephalos.Prelude.Order.{same}
use exokephalos.Prelude.Result.{ok, Result-cases}
use exokephalos.Prelude.Text.{Text, text_ord}
use exokephalos.Domain.{ActorId}
use exokephalos.Replica.{
  Value, bytes, str, uint, object, Automerge, DiskFaults, StoreError, content_changed, Replica,
  as_bytes, store_put, store_get, flush, persistent_put, put_record, get_record,
  get_authored_record, replica_workspace,
}
use exokephalos.Workspace.{Codec}
use exokephalos.Workspace.Laws.{IsStore, Wrote, is_record_key, authored}

-- What is relied on in a document: a key has the value that was last put under it,
-- and the keys that are listed are those that have one.
pub record IsDocument {D : Type 0} (doc : Automerge D) : Type 0 where
  pub view : D → Text → Option Value
  pub doc_get_eq : (key : Text) (d : D) → doc.get key d ≡ ok (view d key)
  pub doc_put_eq :
      (key : Text) (v : Value) (d e : D) (j : Text)
      → doc.put key v d ≡ ok e
      → view e j ≡ (if same key j then some v else view d j)
  pub doc_keys_iff :
      (key : Text) (d : D) → In key (doc.keys d) ↔ ((v : Value) × (view d key ≡ some v))
  pub doc_commit_eq : (d : D) (j : Text) → view (doc.commit d) j ≡ view d j

abbrev pub bytes_of : Option Value → Option Text
bytes_of (some (bytes b)) = some b
bytes_of v = none

abbrev pub IsBytes : Option Value → Type 0
IsBytes none = Unit
IsBytes (some (bytes b)) = Unit
IsBytes (some v) = ⊥

as_bytes_lem : (key : Text) (v : Option Value) → IsBytes v → as_bytes key v ≡ ok (bytes_of v)
as_bytes_lem key none h = refl
as_bytes_lem key (some (bytes b)) h = refl
as_bytes_lem key (some (str s)) h = absurd h
as_bytes_lem key (some (uint n)) h = absurd h
as_bytes_lem key (some object) h = absurd h

module _ {D : Type 0} (doc : Automerge D) (is_doc : IsDocument doc) (display : StoreError → Text)
    (faults : DiskFaults) (hash : Text → Text) (actor : ActorId) (codec : Codec) where
  -- All records of the document are bytes.
  abbrev pub IsSound : Replica D → Type 0
  IsSound s = (key : Text) → is_record_key key ≡ true → IsBytes (is_doc.view s.document key)

  abbrev pub contents : Replica D → Text → Option Text
  contents s key = bytes_of (is_doc.view s.document key)

  get_record_lem :
      (key : Text) (s : Replica D)
      → IsSound s
      → is_record_key key ≡ true
      → get_record doc display faults hash actor codec key s ≡ (ok (contents s key), s)
  unfolding get_record store_get
  get_record_lem key s sound k =
      rw
        (
          get_record,
          store_get,
          is_doc.doc_get_eq key s.document,
          as_bytes_lem key (is_doc.view s.document key) (sound key k),
        )
        refl

  -- A write that succeeds put the value into the document, saved that document, and told so.
  pub put_record_lem :
      (key value h : Text) (s : Replica D)
      → (put_record doc display faults hash actor codec key value s).0 ≡ ok h
      → (d : D) × (doc.put key (bytes value) s.document ≡ ok d)
        × (h ≡ hash value)
        × ((put_record doc display faults hash actor codec key value s).1 ≡ record s {
          document = doc.commit d;
          saved = some (doc.save (doc.commit d));
          events = s.events ++ content_changed ∷ [];
        })
  unfolding put_record persistent_put store_put flush ◌>>=◌
  put_record_lem key value h s done = elim (Result-cases (doc.put key (bytes value) s.document)) [
    | inr (e, failed) ↦ ground (arith, failed, done)
    | inl (d, put) ↦ elim (Option-cases faults.writing) [
      | inr (e, failed) ↦ ground (arith, put, failed, done)
      | inl well ↦ elim (Option-cases faults.syncing) [
        | inr (e, failed) ↦ ground (arith, put, well, failed, done)
        | inl synced ↦ (
          d,
          put,
          ground (arith, put, well, synced, done),
          rw (put_record, persistent_put, store_put, flush, put, well, synced) refl,
        )
      ]
    ]
  ]

  view_after :
      (key value h : Text) (s : Replica D) (j : Text)
      → (put_record doc display faults hash actor codec key value s).0 ≡ ok h
      → is_doc.view (put_record doc display faults hash actor codec key value s).1.document j
        ≡ (if same key j then some (bytes value) else is_doc.view s.document j)
  view_after key value h s j done =
      let (d, put, _, after) = put_record_lem key value h s done in
      ap (λ t. is_doc.view t.document j) after
      ∙ is_doc.doc_commit_eq d j
      ∙ is_doc.doc_put_eq key (bytes value) s.document d j put

  bytes_of_if :
      (b : Bool) (value : Text) (v : Option Value)
      → bytes_of (if b then some (bytes value) else v) ≡ (if b then some value else bytes_of v)
  bytes_of_if true value v = refl
  bytes_of_if false value v = refl

  IsBytes-if :
      (b : Bool) (value : Text) (v : Option Value)
      → IsBytes v
      → IsBytes (if b then some (bytes value) else v)
  IsBytes-if true value v h = tt
  IsBytes-if false value v h = h

  put_record-Wrote :
      (key value h : Text) (s : Replica D)
      → IsSound s
      → (put_record doc display faults hash actor codec key value s).0 ≡ ok h
      → Wrote contents IsSound key value s
          (put_record doc display faults hash actor codec key value s).1
  put_record-Wrote key value h s sound done = record {
    sound = λ j k.
        subst IsBytes (sym (view_after key value h s j done))
          (IsBytes-if (same key j) value (is_doc.view s.document j) (sound j k));
    contents_eq = λ j.
        ap bytes_of (view_after key value h s j done)
        ∙ bytes_of_if (same key j) value (is_doc.view s.document j);
  }

  get_authored_lem :
      (key : Text) (s : Replica D)
      → IsSound s
      → is_record_key key ≡ true
      → get_authored_record doc display faults hash actor codec key s
        ≡ (ok (authored actor codec key (contents s key)), s)
  unfolding get_authored_record ◌>>=◌
  get_authored_lem key s sound k = rw (get_authored_record, get_record_lem key s sound k) refl

  -- On a document whose records are bytes, and with the keys of records, the replica implements the
  -- interface of the repository, whatever the writes to disk do: what it holds under a key are the
  -- bytes of the document, a read does not fail, changes nothing and returns them, the authored read
  -- with the author that the record names and else the replica's own, and after a write that returned
  -- without an error the key holds the value, every other key what it held, and all records are bytes
  -- still.
  pub replica_workspace-IsStore :
      (store : IsStore (replica_workspace doc display faults hash actor codec) codec)
      × ((s : Replica D) (key : Text)
          → store.contents s key ≡ bytes_of (is_doc.view s.document key))
      × ((s : Replica D)
          → store.IsSound s
            ↔ ((key : Text) → is_record_key key ≡ true → IsBytes (is_doc.view s.document key)))
  replica_workspace-IsStore = (
    record {
      contents = contents;
      IsSound = IsSound;
      get_eq = get_record_lem;
      get_authored_eq = get_authored_lem;
      put_eq = λ key value h s sound k done. put_record-Wrote key value h s sound done;
      put_blob_eq = λ key value h s sound k done. put_record-Wrote key value h s sound done;
    },
    λ s key. refl,
    λ s. (λ h. h, λ h. h),
  )
