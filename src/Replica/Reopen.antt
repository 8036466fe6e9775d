-- ===== src/Replica/Reopen.antt =====
-- `open_or_create` of automerge_store.rs against the writes of central_replica.rs: what a replica has
-- when it is opened on the file that an earlier one left.
use exokephalos.Prelude.{
  ℕ, ◌≡◌, refl, sym, ◌∙◌, ap, subst, inl, inr, true, false, Option, none, some, List, [], ◌∷◌, ◌++◌,
  arith, In, if◌then◌else◌, Bool-cases,
}
use exokephalos.Prelude.Effect.{◌>>=◌}
use exokephalos.Prelude.Order.{same, same_iff}
use exokephalos.Prelude.Result.{Result, ok, err, Result-cases}
use exokephalos.Prelude.Text.{Text, text_ord}
use exokephalos.Domain.{ActorId}
use exokephalos.Replica.Open.{
  AutomergeFiles, create, load, open_or_create, workspace_id_key, schema_key,
}
use exokephalos.Replica.Store.{IsDocument}
use exokephalos.Replica.{
  Value, ReplicaEvent, bytes, str, uint, Automerge, StoreError, Replica, DiskFaults, store_put,
  persistent_put, flush, put_record, content_changed,
}
use exokephalos.Workspace.Laws.{is_record_key}
use exokephalos.Workspace.{Codec}

-- What is relied on in Automerge's files: loading what was saved gives a document with the same
-- values, and the actor changes none of them.
pub record IsDurable {D : Type 0} (doc : Automerge D) (is_doc : IsDocument doc)
    (files : AutomergeFiles D) : Type 0 where
  pub load_eq :
      (d : D)
      → (e : D) × (files.load_document (doc.save d) ≡ ok e)
        × ((key : Text) → is_doc.view e key ≡ is_doc.view d key)
  pub actor_eq :
      (actor : List ℕ) (d : D) (key : Text)
      → is_doc.view (files.set_actor actor d) key ≡ is_doc.view d key

-- No write to disk fails.
abbrev pub sound_disk : DiskFaults
sound_disk = record { writing = none; syncing = none }

ok_eq : {E A : Type 0} {a b : A} → ◌≡◌ {A = Result E A} (ok a) (ok b) → a ≡ b
ok_eq e = cc

err_ok : {E A : Type 0} {e : E} {a : A} → ◌≡◌ {A = Result E A} (err e) (ok a) → ⊥
err_ok h = cc

disagree : true ≡ false → ⊥
disagree h = cc

keys_differ : same schema_key workspace_id_key ≡ false
unfolding exokephalos.Prelude.Order.compare_lists
keys_differ = refl

-- The key of a record is none of the store's own.
not_own :
    (key own : Text) → is_record_key key ≡ true → is_record_key own ≡ false → same key own ≡ false
not_own key own k o = elim (Bool-cases (same key own)) [
  | inr e ↦ e
  | inl e ↦
      absurd (disagree (sym (subst (λ j. is_record_key j ≡ true) ((same_iff key own).0 e) k) ∙ o))
]

module _ {D : Type 0} (doc : Automerge D) (is_doc : IsDocument doc) (files : AutomergeFiles D)
    (durable : IsDurable doc is_doc files) where
  -- The document is on disk and names its workspace and its schema.
  pub record IsStored (workspace_id : Text) (s : Replica D) : Type 0 where
    pub on_disk : s.saved ≡ some (doc.save s.document)
    pub named : is_doc.view s.document workspace_id_key ≡ some (str workspace_id)
    pub versioned : is_doc.view s.document schema_key ≡ some (uint 1)

  committed :
      (key : Text) (v : Value) (d e : D)
      → doc.put key v d ≡ ok e
      → (j : Text) → is_doc.view (doc.commit e) j ≡ (if same key j then some v else is_doc.view d j)
  committed key v d e put j = is_doc.doc_commit_eq e j ∙ is_doc.doc_put_eq key v d e j put

  written-IsStored :
      (workspace_id key value : Text) (s : Replica D) (d : D) (events : List ReplicaEvent)
      → is_record_key key ≡ true
      → doc.put key (bytes value) s.document ≡ ok d
      → IsStored workspace_id s
      → IsStored workspace_id (record s {
        document = doc.commit d;
        saved = some (doc.save (doc.commit d));
        events = events;
      })
  written-IsStored workspace_id key value s d events k put stored =
      let values = committed key (bytes value) s.document d put in
      record {
        on_disk = refl;
        named =
            values workspace_id_key
            ∙ ap (λ b. if b then some (bytes value) else is_doc.view s.document workspace_id_key)
                (not_own key workspace_id_key k refl)
            ∙ stored.named;
        versioned =
            values schema_key
            ∙ ap (λ b. if b then some (bytes value) else is_doc.view s.document schema_key)
                (not_own key schema_key k refl)
            ∙ stored.versioned;
      }

  load_lem :
      (workspace_id : Text) (actor : List ℕ) (d : D)
      → is_doc.view d workspace_id_key ≡ some (str workspace_id)
      → is_doc.view d schema_key ≡ some (uint 1)
      → (e : D) × (load doc files (doc.save d) actor ≡ ok (e, workspace_id))
        × ((key : Text) → is_doc.view e key ≡ is_doc.view d key)
  unfolding load
  load_lem workspace_id actor d named versioned =
      let (l, loaded, same_values) = durable.load_eq d in
      let values : (key : Text) → is_doc.view (files.set_actor actor l) key ≡ is_doc.view d key =
        λ key. durable.actor_eq actor l key ∙ same_values key in
      (
        files.set_actor actor l,
        rw
            (
              load,
              loaded,
              is_doc.doc_get_eq workspace_id_key (files.set_actor actor l),
              is_doc.doc_get_eq schema_key (files.set_actor actor l),
              values workspace_id_key,
              values schema_key,
              named,
              versioned,
            )
            refl,
        values,
      )

  -- Opening the file of a stored replica.
  pub reopen_lem :
      (workspace_id : Text) (actor : List ℕ) (s : Replica D)
      → IsStored workspace_id s
      → (t : Replica D) × (open_or_create doc files none sound_disk workspace_id actor s.saved
          ≡ (ok t, some (doc.save t.document)))
        × ((key : Text) → is_doc.view t.document key ≡ is_doc.view s.document key)
  unfolding open_or_create flush
  reopen_lem workspace_id actor s stored =
      let (e, loaded, values) =
        load_lem workspace_id actor s.document stored.named stored.versioned in
      (
        record { document = e; saved = some (doc.save e); events = []; connected_clients = [] },
        rw
            (
              open_or_create,
              flush,
              stored.on_disk,
              loaded,
              (same_iff workspace_id workspace_id).1 refl,
            )
            refl,
        values,
      )

  create_lem :
      (workspace_id : Text) (actor : List ℕ) (d : D)
      → create doc files workspace_id actor ≡ ok d
      → (is_doc.view d workspace_id_key ≡ some (str workspace_id))
        × (is_doc.view d schema_key ≡ some (uint 1))
  unfolding create
  create_lem workspace_id actor d created =
      elim (Result-cases
        (doc.put workspace_id_key (str workspace_id) (files.new_with_actor actor))) [
          | inr (e, failed) ↦ absurd (ground (arith, rw failed at created))
          | inl (n, put_name) ↦ elim (Result-cases (doc.put schema_key (uint 1) n)) [
            | inr (e, failed) ↦ absurd (ground (arith, rw (put_name, failed) at created))
            | inl (m, put_schema) ↦
                let at_end : doc.commit m ≡ d = ok_eq (rw (put_name, put_schema) at created) in
                let values : (key : Text) → is_doc.view (doc.commit m) key ≡ _ =
                  committed schema_key (uint 1) n m put_schema in
                subst
                  (λ e.
                    (is_doc.view e workspace_id_key ≡ some (str workspace_id))
                    × (is_doc.view e schema_key ≡ some (uint 1)))
                  at_end
                  (
                    values workspace_id_key
                        ∙ ap (λ b. if b then some (uint 1) else is_doc.view n workspace_id_key)
                            keys_differ
                        ∙ is_doc.doc_put_eq workspace_id_key (str workspace_id)
                            (files.new_with_actor actor) n workspace_id_key put_name
                        ∙ ap
                            (λ b.
                              if b
                              then some (str workspace_id)
                              else is_doc.view (files.new_with_actor actor) workspace_id_key)
                            ((same_iff workspace_id_key workspace_id_key).1 refl),
                    values schema_key
                        ∙ ap (λ b. if b then some (uint 1) else is_doc.view n schema_key)
                            ((same_iff schema_key schema_key).1 refl),
                  )
          ]
        ]

  -- A replica that is created is stored.
  pub created-IsStored :
      (workspace_id : Text) (actor : List ℕ) (s : Replica D) (file : Option Text)
      → open_or_create doc files none sound_disk workspace_id actor none ≡ (ok s, file)
      → IsStored workspace_id s
  unfolding open_or_create flush
  created-IsStored workspace_id actor s file ran =
      elim (Result-cases (create doc files workspace_id actor)) [
        | inr (e, failed) ↦ absurd (err_ok (ap (λ x. x.0) (rw failed at ran)))
        | inl (d, created) ↦
            let (named, versioned) = create_lem workspace_id actor d created in
            subst (IsStored workspace_id)
              (ok_eq
                (ap (λ x. x.0) (rw (created, (same_iff workspace_id workspace_id).1 refl) at ran)))
              (record { on_disk = refl; named = named; versioned = versioned })
      ]

  module _ (display : StoreError → Text) (hash : Text → Text) (actor : ActorId)
      (codec : Codec) where
    put_record-IsStored :
        (workspace_id key value : Text) (s : Replica D)
        → is_record_key key ≡ true
        → IsStored workspace_id s
        → IsStored workspace_id (put_record doc display sound_disk hash actor codec key value s).1
    unfolding put_record persistent_put store_put flush ◌>>=◌
    put_record-IsStored workspace_id key value s k stored =
        elim (Result-cases (doc.put key (bytes value) s.document)) [
          | inr (e, failed) ↦
              subst (IsStored workspace_id)
                (rw (put_record, persistent_put, store_put, failed) refl) stored
          | inl (d, put) ↦
              subst (IsStored workspace_id)
                (rw (put_record, persistent_put, store_put, flush, put) refl)
                (written-IsStored workspace_id key value s d (s.events ++ content_changed ∷ []) k
                  put stored)
        ]

    -- The replica after these writes, each of which may return or fail.
    unfoldable pub after_writes : List (Text × Text) → Replica D → Replica D
    after_writes [] s = s
    after_writes ((key, value) ∷ writes) s =
        after_writes writes (put_record doc display sound_disk hash actor codec key value s).1

    pub after_writes-IsStored :
        (workspace_id : Text) (writes : List (Text × Text)) (s : Replica D)
        → ((key value : Text) → In (key, value) writes → is_record_key key ≡ true)
        → IsStored workspace_id s
        → IsStored workspace_id (after_writes writes s)
    unfolding after_writes
    after_writes-IsStored workspace_id [] s k stored = stored
    after_writes-IsStored workspace_id ((key, value) ∷ writes) s k stored =
        after_writes-IsStored workspace_id writes _ (λ j v i. k j v (inr i))
          (put_record-IsStored workspace_id key value s (k key value (inl refl)) stored)
