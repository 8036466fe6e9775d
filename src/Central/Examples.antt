-- ===== src/Central/Examples.antt =====
-- Instances of what is proved of central.rs.
use exokephalos.Prelude.{◌≡◌, ◌↔◌, refl, inl, true, false, none, some, [], ◌∷◌, In, if◌then◌else◌}
use exokephalos.Prelude.Effect.{◌>>=◌}
use exokephalos.Prelude.Map.{get}
use exokephalos.Prelude.Order.{compare_lists}
use exokephalos.Prelude.Result.{ok}
use exokephalos.Prelude.Text.{Text, text, text_ord}
use exokephalos.Central.{
  CentralWorkspace, document_changed, client_ids, add_client, remove_client, create_item,
  revision_of,
}
use exokephalos.Central.Items.{create_item_stores}
use exokephalos.Central.Presence.{opened, joins, leaves, Counts, presence_is_exact}
use exokephalos.Central.Session.Clients.{session_is_counted}
use exokephalos.Central.Session.{
  SyncStore, Serving, serve_socket, text_hello, is_open, incoming, close,
}
use exokephalos.CentralSync.{Json, decode, new_client_hello}
use exokephalos.Domain.{Note, NoteRevision, string, validate_value}
use exokephalos.Hlc.{next, timestamp}
use exokephalos.Id
use exokephalos.Markdown.Examples.{ascii, ascii-IsUtf8}
use exokephalos.Records.Examples.{sample, Store, store_of, store_of-IsStore}
use exokephalos.Records.{load_note, load_group, decode_all, get_revision}
use exokephalos.Records.Decode.{resolve_group}
use exokephalos.Resolution.{
  validate_revision_graph, validate_entries, resolve_heads, candidates, resolved,
}
use exokephalos.Prelude.Sort.{sort_by}
use exokephalos.Workspace.{Codec}

abbrev empty_server : CentralWorkspace Store
empty_server = record {
  workspace_id = text "workspace-1";
  replica = [];
  clock = record { physical_ms = 0; logical = 0; actor_id = text "device-a" };
  clients = [];
  notifications = [];
}

abbrev laptop : Text
laptop = text "laptop"

presence_is_exact_example :
    Counts
      (laptop ∷ [])
      (remove_client laptop (add_client laptop (add_client laptop empty_server))).clients
    × ((client : Text)
        → In client
            (client_ids (remove_client laptop (add_client laptop (add_client laptop empty_server))))
          ↔ In client (laptop ∷ []))
unfolding compare_lists
presence_is_exact_example =
    presence_is_exact empty_server (laptop ∷ [])
      (remove_client laptop (add_client laptop (add_client laptop empty_server)))
      (leaves laptop (joins laptop (joins laptop (opened refl))) (inl refl))

abbrev json : Json
json = record { to_string = λ m. ok (text "message"); from_str = λ s. ok (new_client_hello laptop) }

abbrev sync : SyncStore Store (Unit {0})
sync = record {
  new_state = tt;
  generate = λ t w. (none, tt, w);
  receive = λ bytes t w. (ok true, tt, w);
}

abbrev served : Serving Store (Unit {0})
served = record { central = empty_server; sync_state = tt; sent = [] }

session_is_counted_example :
    Counts
      (if is_open json sync
          (λ sent frame. none)
          (serve_socket json sync
            (λ sent frame. none)
            (text_hello (text "hello"))
            (incoming close ∷ [])
            served).0
        then laptop ∷ []
        else [])
      (serve_socket json sync
        (λ sent frame. none)
        (text_hello (text "hello"))
        (incoming close ∷ [])
        served).1.central.clients
unfolding decode exokephalos.CentralSync.validate_message exokephalos.CentralSync.validate_version
    exokephalos.CentralSync.validate_client_id exokephalos.CentralSync.is_identifier
    exokephalos.CentralSync.is_identifier_byte get
session_is_counted_example =
    session_is_counted json sync (λ sent frame. none) (text "hello") laptop 1 (incoming close ∷ [])
      [] served refl (record { ascending = tt; counts = λ j. refl })

abbrev new_note : Note
new_note = record {
  id = text "note002";
  frontmatter = (text "title", string (text "A")) ∷ [];
  body = text "body";
  path = [];
}

abbrev created : NoteRevision
created =
    revision_of (store_of sample) sample ascii (ok 7) new_note
      (record { physical_ms = 7; logical = 0; actor_id = text "device-a" }) [] false

abbrev knows_created : Codec
knows_created = record sample { read_revision = λ bytes. ok created }

create_item_stores_example :
    ((create_item (store_of knows_created) knows_created ascii (ok 7) new_note empty_server).0
      ≡ ok true)
    × ((get_revision
          (store_of knows_created)
          knows_created
          (text "note002")
          (text "hrevision")
          (create_item
            (store_of knows_created)
            knows_created
            ascii
            (ok 7)
            new_note
            empty_server).1.replica).0
        ≡ ok (some created))
    × ((create_item
          (store_of knows_created)
          knows_created
          ascii
          (ok 7)
          new_note
          empty_server).1.clock
        ≡ record { physical_ms = 7; logical = 0; actor_id = text "device-a" })
    × ((create_item
          (store_of knows_created)
          knows_created
          ascii
          (ok 7)
          new_note
          empty_server).1.notifications
        ≡ document_changed ∷ [])
unfolding load_note load_group decode_all resolve_group validate_revision_graph validate_entries
    resolve_heads candidates sort_by resolved next timestamp Id.is_valid validate_value ◌>>=◌
create_item_stores_example =
    create_item_stores (store_of knows_created) knows_created ascii (ok 7)
      (store_of-IsStore knows_created) new_note 7 (text "revision") (text "head") empty_server refl
      refl tt (λ key value s. refl, λ key value s. refl) ascii-IsUtf8 refl refl refl refl refl
      (refl, refl) refl refl
