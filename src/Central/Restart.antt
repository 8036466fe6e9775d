-- ===== src/Central/Restart.antt =====
-- A server with 16 and 32 random bytes that writes two records and starts again.
use exokephalos.Hlc
use exokephalos.Prelude.{
  ℕ, List, ap, none, sym, ◌++◌, take, ◌≡◌, refl, ◌∙◌, subst, inl, inr, true, some, [], ◌∷◌, arith,
  In, replicate,
}
use exokephalos.Prelude.Map.{insert}
use exokephalos.Prelude.Order.{compare_lists}
use exokephalos.Prelude.Result.{ok}
use exokephalos.Prelude.Text.{Text, text, text_ord}
use exokephalos.Central.{CentralWorkspace}
use exokephalos.Central.Identity.{StateDir, open_workspace, no_faults, fresh_value}
use exokephalos.Central.Reopening.{
  Reopens, reopening_keeps_workspace, first_start, after_opening, no_files,
}
use exokephalos.Records.Examples.{sample}
use exokephalos.Replica.Examples.{
  Document, map_document, map_document-IsDocument, map_files, map_files-IsDurable, file_of,
}
use exokephalos.Replica.Open.{create, open_or_create, workspace_id_key, schema_key}
use exokephalos.Replica.Reopen.{sound_disk}
use exokephalos.Replica.{Replica, str, uint, flush}
use exokephalos.Workspace.Laws.{is_record_key}

abbrev id_bytes : List ℕ
id_bytes = replicate 16 10

abbrev actor_bytes : List ℕ
actor_bytes = replicate 32 171

abbrev server_id : Text
server_id = fresh_value (text "workspace") id_bytes

abbrev actor_text : Text
actor_text = fresh_value (text "actor") actor_bytes

abbrev made : Document
made = (schema_key, uint 1) ∷ (workspace_id_key, str server_id) ∷ []

abbrev first_server : CentralWorkspace (Replica Document)
first_server = record {
  workspace_id = server_id;
  replica = record {
    document = made;
    saved = some (file_of made);
    events = [];
    connected_clients = [];
  };
  clock = Hlc.new (text "server-" ++ take 16 actor_text);
  clients = [];
  notifications = [];
}

abbrev first_files : StateDir
first_files = record {
  workspace_file = some (server_id ++ 10 ∷ []);
  actor_file = some (actor_text ++ 10 ∷ []);
  document_file = some (file_of made);
}

abbrev two_writes : List (Text × Text)
two_writes = (text "note/a", text "x") ∷ (text "note/b", text "y") ∷ []

two_writes-are_records : (key value : Text) → In (key, value) two_writes → is_record_key key ≡ true
two_writes-are_records key value (inl e) =
    subst (λ k. is_record_key k ≡ true) (sym (ap (λ p. p.0) e)) refl
two_writes-are_records key value (inr (inl e)) =
    subst (λ k. is_record_key k ≡ true) (sym (ap (λ p. p.0) e)) refl
two_writes-are_records key value (inr (inr i)) = absurd i

document_made :
    open_or_create map_document map_files none sound_disk server_id actor_bytes none
    ≡ (ok first_server.replica, some (file_of made))
unfolding open_or_create create flush insert compare_lists fresh_value
    exokephalos.Central.Hex.encode_hex
document_made = refl

started :
    open_workspace map_document map_files no_faults no_faults none sound_disk id_bytes actor_bytes
      no_files
    ≡ (ok first_server, first_files)
started =
    first_start map_document map_document-IsDocument map_files map_files-IsDurable id_bytes
      actor_bytes (omega arith) (omega arith) refl refl
    ∙ ap
        (after_opening map_document map_document-IsDocument map_files map_files-IsDurable id_bytes
          actor_bytes (omega arith) (omega arith) refl refl)
        document_made

reopening_keeps_workspace_example :
    Reopens map_document map_document-IsDocument map_files map_files-IsDurable id_bytes actor_bytes
      (omega arith)
      (omega arith)
      refl
      refl
      (λ e. [])
      (λ value. value)
      (text "server-abababababababab")
      sample
      []
      (1 ∷ [])
      two_writes
      first_server
      first_files
reopening_keeps_workspace_example =
    reopening_keeps_workspace map_document map_document-IsDocument map_files map_files-IsDurable
      id_bytes actor_bytes (omega arith) (omega arith) refl refl (λ e. []) (λ value. value)
      (text "server-abababababababab") sample [] (1 ∷ []) two_writes first_server first_files
      two_writes-are_records started
