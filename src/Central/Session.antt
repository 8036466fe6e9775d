-- ===== src/Central/Session.antt =====
-- `serve_socket` of central.rs: one client's connection from its hello to its end. What the socket,
-- the notifications and the timer bring is a list of events; the failures of sending are a
-- parameter, and so is the synchronization of the replica.
pub mod Clients
use exokephalos.Prelude.{
  ℕ, Bool, true, false, Option, none, some, List, [], ◌∷◌, ◌++◌, length, ltb, if◌then◌else◌,
}
use exokephalos.Prelude.Effect.{Effect, return, fail, lift, gets, modify, ◌>>=◌, ◌>>◌}
use exokephalos.Prelude.Result.{Result, ok, err, map_err}
use exokephalos.Prelude.Text.{Text}
use exokephalos.Central.{
  CentralWorkspace, WorkspaceNotification, document_changed, presence_changed, client_ids,
  add_client, remove_client,
}
use exokephalos.CentralSync.{
  SyncProtocolError, ControlMessage, client_hello, server_hello, presence, error, new_server_hello,
  Json, encode, decode, max_control_message_bytes,
}

-- What `receiver.next()` gives.
pub data Incoming : Type 0 where
  binary ping : Text → Incoming
  close disconnected other_frame : Incoming
  failed : Text → Incoming

-- What a round of `select!` waits for.
pub data Event : Type 0 where
  incoming : Incoming → Event
  notified : WorkspaceNotification → Event
  lagged channel_closed keepalive : Event

-- The frames that are sent.
pub data Frame : Type 0 where
  text_frame binary_frame pong_frame : Text → Frame
  ping_frame : Frame

-- The first message within ten seconds.
pub data Hello : Type 0 where
  timed_out no_hello other_hello : Hello
  broken_hello text_hello : Text → Hello

pub data SessionError : Type 0 where
  hello_timed_out disconnected_before_hello not_a_text_frame hello_too_large : SessionError
  not_a_client_hello : SessionError
  protocol : SyncProtocolError → SessionError
  socket replica_failed : Text → SessionError

-- `generate_sync_message` and `receive_sync_message` of the replica, with the state of one peer.
pub record SyncStore (W S : Type 0) : Type 0 where
  pub new_state : S
  pub generate : S → W → Option Text × S × W
  pub receive : Text → S → W → Result Text Bool × S × W

pub record Serving (W S : Type 0) : Type 0 where
  pub central : CentralWorkspace W
  pub sync_state : S
  pub sent : List Frame

module _ {W S : Type 0} (json : Json) (store : SyncStore W S)
    (send_fault : List Frame → Frame → Option Text) where
  abbrev pub send : Frame → Effect (Serving W S) SessionError (Unit {0})
  send frame s = elim (send_fault s.sent frame) [
    | some e ↦ (err (socket e), s)
    | none ↦ (ok tt, record s { sent = s.sent ++ frame ∷ [] })
  ]

  abbrev pub generate_message : Effect (Serving W S) SessionError (Option Text)
  generate_message s =
      let (message, t, w) = store.generate s.sync_state s.central.replica in
      (ok message, record s { sync_state = t; central = record s.central { replica = w } })

  abbrev pub send_some : Option Text → Effect (Serving W S) SessionError (Unit {0})
  send_some none = return tt
  send_some (some message) = send (binary_frame message)

  -- `if let Some(message) = generate_sync_message(...) { send }`
  unfoldable pub send_sync : Effect (Serving W S) SessionError (Unit {0})
  send_sync = do message ← generate_message; send_some message

  unfoldable pub receive_message : Text → Effect (Serving W S) SessionError Bool
  receive_message bytes s =
      let (changed, t, w) = store.receive bytes s.sync_state s.central.replica in
      (
        map_err replica_failed changed,
        record s { sync_state = t; central = record s.central { replica = w } },
      )

  abbrev pub announce_change : Bool → Effect (Serving W S) SessionError (Unit {0})
  announce_change false = return tt
  announce_change true = modify (λ s. record s {
    central = record s.central { notifications = s.central.notifications ++ document_changed ∷ [] };
  })

  unfoldable pub send_clients : Effect (Serving W S) SessionError (Unit {0})
  send_clients = do
    clients ← gets (λ s. client_ids s.central)
    encoded ← lift (map_err protocol (encode json (presence clients)))
    send (text_frame encoded)

  -- One round of the loop: whether the session goes on.
  unfoldable pub serve_event : Event → Effect (Serving W S) SessionError Bool
  serve_event (incoming (binary bytes)) = do
    changed ← receive_message bytes
    announce_change changed
    send_sync
    return true
  serve_event (incoming (ping bytes)) = do send (pong_frame bytes); return true
  serve_event (incoming close) = return false
  serve_event (incoming disconnected) = return false
  serve_event (incoming other_frame) = return true
  serve_event (incoming (failed e)) = fail (socket e)
  serve_event (notified document_changed) = do send_sync; return true
  serve_event (notified presence_changed) = do send_clients; return true
  serve_event lagged = return true
  serve_event channel_closed = return false
  serve_event keepalive = do send ping_frame; return true

  abbrev pub more_if :
      Bool → Effect (Serving W S) SessionError Bool → Effect (Serving W S) SessionError Bool
  more_if true m = m
  more_if false m = return false

  -- The loop; true where the session is still open after the events.
  unfoldable pub serve_loop : List Event → Effect (Serving W S) SessionError Bool
  serve_loop [] = return true
  serve_loop (event ∷ events) = do on ← serve_event event; more_if on (serve_loop events)

  unfoldable pub serve_client : List Event → Effect (Serving W S) SessionError Bool
  serve_client events = do
    workspace_id ← gets (λ s. s.central.workspace_id)
    clients ← gets (λ s. client_ids s.central)
    encoded ← lift (map_err protocol (encode json (new_server_hello workspace_id clients)))
    send (text_frame encoded)
    modify (λ s. record s { sync_state = store.new_state })
    send_sync
    serve_loop events

  abbrev pub is_open : Result SessionError Bool → Bool
  is_open (ok b) = b
  is_open (err e) = false

  -- The client is removed however its session ends.
  abbrev pub finish :
      Text → Result SessionError Bool × Serving W S → Result SessionError Bool × Serving W S
  finish client_id (r, s) =
      (r, if is_open r then s else record s { central = remove_client client_id s.central })

  abbrev pub serve_hello : ControlMessage → List Event → Effect (Serving W S) SessionError Bool
  serve_hello (client_hello version client_id) events s =
      finish client_id (serve_client events (record s { central = add_client client_id s.central }))
  serve_hello (server_hello version id clients) events s = fail not_a_client_hello s
  serve_hello (presence clients) events s = fail not_a_client_hello s
  serve_hello (error code message) events s = fail not_a_client_hello s

  unfoldable pub serve_socket : Hello → List Event → Effect (Serving W S) SessionError Bool
  serve_socket timed_out events = fail hello_timed_out
  serve_socket no_hello events = fail disconnected_before_hello
  serve_socket (broken_hello e) events = fail (socket e)
  serve_socket other_hello events = fail not_a_text_frame
  serve_socket (text_hello encoded) events =
      if ltb max_control_message_bytes (length encoded)
      then fail hello_too_large
      else do message ← lift (map_err protocol (decode json encoded)); serve_hello message events
