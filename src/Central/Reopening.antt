-- ===== src/Central/Reopening.antt =====
-- `open` of central.rs over the writes of central_replica.rs: a server that starts again in the state
-- directory that it left.
use exokephalos.Prelude.{
  ℕ, ◌+◌, ◌*◌, ◌≤◌, ◌≡◌, In, ◌∙◌, subst, refl, ap, sym, inl, inr, Bool, true, false, not, ◌&&◌,
  Option, none, some, List, [], ◌∷◌, ◌++◌, arith, all, all-append, Bool-cases, leb, length,
  length-append, take, ltb, is_empty, if◌then◌else◌,
}
use exokephalos.Prelude.Effect.{continue, ◌>>=◌}
use exokephalos.Prelude.Order.{same, same_iff}
use exokephalos.Prelude.Result.{Result, Result-cases, ok, err, map_err}
use exokephalos.Prelude.Text.{Text, text, text_ord}
use exokephalos.Prelude.White.{is_dark, trim_line}
use exokephalos.Central.{CentralWorkspace}
use exokephalos.Central.Identity.{
  load_or_create_hex, fresh_value, fresh_line, fresh_is_accepted, no_faults, StateDir, File,
  IdentityError, opening, server_actor, open_workspace,
}
use exokephalos.Central.Hex.{decode_hex, AreBytes, length-encode_hex, decode_hex-encode_hex}
use exokephalos.CentralSync.{is_identifier_byte}
use exokephalos.Domain.{ActorId}
use exokephalos.Replica.Open.{AutomergeFiles, OpenError, open_or_create}
use exokephalos.Replica.Reopen.{
  IsDurable, sound_disk, created-IsStored, after_writes-IsStored, after_writes, reopen_lem,
}
use exokephalos.Replica.Store.{IsDocument}
use exokephalos.Replica.{Automerge, Replica, StoreError}
use exokephalos.Workspace.{Codec}
use exokephalos.Workspace.Laws.{is_record_key}
use exokephalos.Hlc

starts_again :
    (prefix : Text) (random later : List ℕ)
    → AreBytes random
    → all is_identifier_byte prefix ≡ true
    → all is_dark prefix ≡ true
    → length prefix + 1 + 2 * length random ≤ 128
    → let value = fresh_value prefix random in
      (load_or_create_hex no_faults random prefix none ≡ (ok value, some (value ++ 10 ∷ [])))
      × (load_or_create_hex no_faults later prefix (some (value ++ 10 ∷ []))
          ≡ (ok value, some (value ++ 10 ∷ [])))
unfolding load_or_create_hex
starts_again prefix random later bytes named dark short =
    let line =
      trim_line (fresh_value prefix random) (fresh_line prefix random bytes named dark).1 in
    (refl, rw (line, fresh_is_accepted prefix random bytes named dark short) refl)

decoded_actor :
    (random : List ℕ) → AreBytes random → decode_hex (fresh_value (text "actor") random) ≡ ok random
unfolding fresh_value exokephalos.Prelude.Order.compare_lists
decoded_actor random bytes = decode_hex-encode_hex random bytes

long_actor :
    (random : List ℕ)
    → length random ≡ 32
    → let value = fresh_value (text "actor") random in
      server_actor value ≡ ok (text "server-" ++ take 16 value)
unfolding fresh_value exokephalos.Prelude.Order.compare_lists
long_actor random l = ground (arith, length-encode_hex random)

err_ok : {E A : Type 0} {e : E} {a : A} → ◌≡◌ {A = Result E A} (err e) (ok a) → ⊥
err_ok h = cc

started_eq : {E A : Type 0} {a b : A} → ◌≡◌ {A = Result E A} (ok a) (ok b) → a ≡ b
started_eq e = cc

-- An empty state directory.
abbrev pub no_files : StateDir
no_files = record { workspace_file = none; actor_file = none; document_file = none }

module _ {D : Type 0} (doc : Automerge D) (is_doc : IsDocument doc) (files : AutomergeFiles D)
    (durable : IsDurable doc is_doc files) where
  abbrev pub workspace_of : Text → ActorId → Replica D → CentralWorkspace (Replica D)
  workspace_of workspace_id actor replica = record {
    workspace_id = workspace_id;
    replica = replica;
    clock = Hlc.new actor;
    clients = [];
    notifications = [];
  }

  module _ (random_id random_actor : List ℕ) (bytes_id : AreBytes random_id)
      (bytes_actor : AreBytes random_actor) (l : length random_id ≡ 16)
      (m : length random_actor ≡ 32) where
    abbrev pub wid : Text
    wid = fresh_value (text "workspace") random_id

    abbrev pub hex_text : Text
    hex_text = fresh_value (text "actor") random_actor

    abbrev pub actor_id : ActorId
    actor_id = text "server-" ++ take 16 hex_text

    -- What a start has after its document was opened.
    abbrev pub after_opening :
        Result OpenError (Replica D) × File
        → Result IdentityError (CentralWorkspace (Replica D)) × StateDir
    after_opening (r, file) =
        continue (map_err opening r) (λ r s. (ok (workspace_of wid actor_id r), s))
          (record {
            workspace_file = some (wid ++ 10 ∷ []);
            actor_file = some (hex_text ++ 10 ∷ []);
            document_file = file;
          })

    not_started :
        (e : OpenError) (file : File) (w : CentralWorkspace (Replica D)) (dir : StateDir)
        → after_opening (err e, file) ≡ (ok w, dir)
        → ⊥
    not_started e file w dir h = err_ok (ap (λ x. x.0) h)

    -- The names of a first start, and of a later one.
    pub first_start :
        open_workspace doc files no_faults no_faults none sound_disk random_id random_actor no_files
        ≡ after_opening (open_or_create doc files none sound_disk wid random_actor none)
    unfolding open_workspace ◌>>=◌ is_identifier_byte
    first_start =
        rw
          (
            (starts_again (text "workspace") random_id random_id bytes_id refl refl
                (omega (arith, l))).0,
            (starts_again (text "actor") random_actor random_actor bytes_actor refl refl
                (omega (arith, m))).0,
            decoded_actor random_actor bytes_actor,
            long_actor random_actor m,
          )
          refl

    later_start :
        (later_id later_actor : List ℕ) (file : File)
        → open_workspace doc files no_faults no_faults none sound_disk later_id later_actor
            (record {
              workspace_file = some (wid ++ 10 ∷ []);
              actor_file = some (hex_text ++ 10 ∷ []);
              document_file = file;
            })
          ≡ after_opening (open_or_create doc files none sound_disk wid random_actor file)
    unfolding open_workspace ◌>>=◌ is_identifier_byte
    later_start later_id later_actor file =
        rw
          (
            (starts_again (text "workspace") random_id later_id bytes_id refl refl
                (omega (arith, l))).1,
            (starts_again (text "actor") random_actor later_actor bytes_actor refl refl
                (omega (arith, m))).1,
            decoded_actor random_actor bytes_actor,
            long_actor random_actor m,
          )
          refl

    module _ (display : StoreError → Text) (hash : Text → Text) (device : ActorId)
        (codec : Codec) where
      -- The start after these writes, in the directory as they left it.
      abbrev pub Reopens :
          List ℕ → List ℕ → List (Text × Text) → CentralWorkspace (Replica D) → StateDir → Type 0
      Reopens later_id later_actor writes w dir =
          let before =
            after_writes doc is_doc files durable display hash device codec writes w.replica in
          (again : Replica D) × (open_workspace doc files no_faults no_faults none sound_disk
              later_id later_actor (record dir { document_file = before.saved })
            ≡ (
              ok (record {
                workspace_id = w.workspace_id;
                replica = again;
                clock = w.clock;
                clients = [];
                notifications = [];
              }),
              record dir { document_file = some (doc.save again.document) },
            ))
          × ((key : Text) → is_doc.view again.document key ≡ is_doc.view before.document key)

      reopened :
          (later_id later_actor : List ℕ) (writes : List (Text × Text)) (r : Replica D)
          (file : File)
          → ((key value : Text) → In (key, value) writes → is_record_key key ≡ true)
          → open_or_create doc files none sound_disk wid random_actor none ≡ (ok r, file)
          → Reopens later_id later_actor writes (workspace_of wid actor_id r) (record {
            workspace_file = some (wid ++ 10 ∷ []);
            actor_file = some (hex_text ++ 10 ∷ []);
            document_file = file;
          })
      reopened later_id later_actor writes r file keys created =
          let before = after_writes doc is_doc files durable display hash device codec writes r in
          let (again, ran, values) = reopen_lem doc is_doc files durable wid random_actor before (
            after_writes-IsStored doc is_doc files durable display hash device codec wid writes r
              keys (created-IsStored doc is_doc files durable wid random_actor r file created)) in
          (again, later_start later_id later_actor before.saved ∙ ap after_opening ran, values)

      -- A server that started in an empty state directory on a disk that works, with 16 and 32 random
      -- bytes, then wrote any records, each of which Automerge may have refused, and starts again
      -- with whatever random bytes: it does start, with the same workspace identifier and the clock
      -- of the same actor; its document has under every key what the document had before, the writes
      -- included; the files of the names are as they were, and the document's file is what saving the
      -- document gives. Automerge is relied on for this: what is loaded has the values of what was
      -- saved.
      pub reopening_keeps_workspace :
          (later_id later_actor : List ℕ) (writes : List (Text × Text))
          (w : CentralWorkspace (Replica D)) (dir : StateDir)
          → ((key value : Text) → In (key, value) writes → is_record_key key ≡ true)
          → open_workspace doc files no_faults no_faults none sound_disk random_id random_actor
              no_files
            ≡ (ok w, dir)
          → Reopens later_id later_actor writes w dir
      reopening_keeps_workspace later_id later_actor writes w dir keys started =
          let opened = open_or_create doc files none sound_disk wid random_actor none in
          let both : after_opening opened ≡ (ok w, dir) = sym first_start ∙ started in
          elim (Result-cases opened.0) [
            | inr (e, failed) ↦ absurd (
                not_started e opened.1 w dir
                  (sym (ap (λ x. after_opening (x, opened.1)) failed) ∙ both))
            | inl (r, created) ↦
                let reached = sym (ap (λ x. after_opening (x, opened.1)) created) ∙ both in
                subst (λ x. Reopens later_id later_actor writes x dir)
                  (started_eq (ap (λ x. x.0) reached))
                  (subst (Reopens later_id later_actor writes (workspace_of wid actor_id r))
                    (ap (λ x. x.1) reached)
                    (reopened later_id later_actor writes r opened.1 keys
                      (ap (λ x. (x, opened.1)) created)))
          ]
