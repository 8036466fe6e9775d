-- ===== src/Central/Session/Clients.antt =====
-- The connected clients of central.rs around one session of `serve_socket`.
use exokephalos.Prelude.{
  ℕ, ◌≡◌, refl, subst, sym, inl, inr, Bool, true, false, Option, List, [], ◌∷◌, arith, ltb,
  if◌then◌else◌, length, Bool-cases,
}
use exokephalos.Prelude.Effect.{Effect, Keeps, Keeps-bind, ◌>>=◌}
use exokephalos.Prelude.Order.{same_iff}
use exokephalos.Prelude.Map.{BTreeMap}
use exokephalos.Prelude.Result.{Result, ok}
use exokephalos.Prelude.Text.{Text, text_ord}
use exokephalos.Central.{document_changed, presence_changed, add_client, remove_client}
use exokephalos.Central.Presence.{Counts, joins-Counts, leaves-Counts, without}
use exokephalos.Central.Session.{
  binary, ping, close, disconnected, other_frame, failed, Event, incoming, notified, lagged,
  channel_closed, keepalive, text_hello, SessionError, SyncStore, Serving, send, send_sync,
  receive_message, announce_change, send_clients, serve_event, more_if, serve_loop, serve_client,
  is_open, finish, serve_socket, Frame, text_frame, pong_frame, ping_frame,
}
use exokephalos.CentralSync.{client_hello, Json, decode, max_control_message_bytes}

module _ {W S : Type 0} (json : Json) (store : SyncStore W S)
    (send_fault : List Frame → Frame → Option Text) (clients : BTreeMap Text ℕ) where
  abbrev Same : Serving W S → Type 0
  Same s = s.central.clients ≡ clients

  Same-send : (frame : Frame) → Keeps Same (send json store send_fault frame)
  Same-send frame = record { at = λ s h. ground arith }

  Same-send_sync : Keeps Same (send_sync json store send_fault)
  unfolding send_sync ◌>>=◌
  Same-send_sync = record { at = λ s h. ground arith }

  Same-announce_change : (b : Bool) → Keeps Same (announce_change json store send_fault b)
  Same-announce_change true = record { at = λ s h. h }
  Same-announce_change false = record { at = λ s h. h }

  Same-receive_message : (bytes : Text) → Keeps Same (receive_message json store send_fault bytes)
  unfolding receive_message
  Same-receive_message bytes = record { at = λ s h. h }

  Same-send_clients : Keeps Same (send_clients json store send_fault)
  unfolding send_clients ◌>>=◌
  Same-send_clients = record { at = λ s h. ground arith }

  Same-serve_event : (e : Event) → Keeps Same (serve_event json store send_fault e)
  unfolding serve_event
  Same-serve_event (incoming (binary bytes)) =
      Keeps-bind _ _ (Same-receive_message bytes) (λ changed.
        Keeps-bind _ _ (Same-announce_change changed)
          (λ u. Keeps-bind _ _ Same-send_sync (λ v. record { at = λ s h. h })))
  Same-serve_event (incoming (ping bytes)) =
      Keeps-bind _ _ (Same-send (pong_frame bytes)) (λ u. record { at = λ s h. h })
  Same-serve_event (incoming close) = record { at = λ s h. h }
  Same-serve_event (incoming disconnected) = record { at = λ s h. h }
  Same-serve_event (incoming other_frame) = record { at = λ s h. h }
  Same-serve_event (incoming (failed e)) = record { at = λ s h. h }
  Same-serve_event (notified document_changed) =
      Keeps-bind _ _ Same-send_sync (λ u. record { at = λ s h. h })
  Same-serve_event (notified presence_changed) =
      Keeps-bind _ _ Same-send_clients (λ u. record { at = λ s h. h })
  Same-serve_event lagged = record { at = λ s h. h }
  Same-serve_event channel_closed = record { at = λ s h. h }
  Same-serve_event keepalive = Keeps-bind _ _ (Same-send ping_frame) (λ u. record { at = λ s h. h })

  Same-more_if :
      (b : Bool) (m : Effect (Serving W S) SessionError Bool)
      → Keeps Same m
      → Keeps Same (more_if json store send_fault b m)
  Same-more_if true m k = k
  Same-more_if false m k = record { at = λ s h. h }

  Same-serve_loop : (es : List Event) → Keeps Same (serve_loop json store send_fault es)
  unfolding serve_loop
  Same-serve_loop [] = record { at = λ s h. h }
  Same-serve_loop (e ∷ es) =
      Keeps-bind _ _ (Same-serve_event e) (λ b. Same-more_if b _ (Same-serve_loop es))

  Same-serve_client : (es : List Event) → Keeps Same (serve_client json store send_fault es)
  unfolding serve_client
  Same-serve_client es =
      Keeps-bind _ _ (record { at = λ s h. h })
        (λ id.
          Keeps-bind _ _ (record { at = λ s h. h })
            (λ cs.
              Keeps-bind _ _ (record { at = λ s h. h })
                (λ encoded. Keeps-bind _ _ (Same-send (text_frame encoded)) (λ u.
                  Keeps-bind _ _ (record { at = λ s h. h })
                    (λ v. Keeps-bind _ _ Same-send_sync (λ w. Same-serve_loop es))))))

module _ {W S : Type 0} (json : Json) (store : SyncStore W S)
    (send_fault : List Frame → Frame → Option Text) where
  finish-Counts :
      (client_id : Text) (sessions : List Text) (r : Result SessionError Bool) (s : Serving W S)
      → Counts (client_id ∷ sessions) s.central.clients
      → Counts
          (if is_open json store send_fault r then client_id ∷ sessions else sessions)
          (finish json store send_fault client_id (r, s)).1.central.clients
  finish-Counts client_id sessions r s c = elim (Bool-cases (is_open json store send_fault r)) [
    | inl e ↦ rw e c
    | inr e ↦
        let gone : without client_id (client_id ∷ sessions) ≡ sessions =
          ground (arith, same_iff client_id client_id) in
        rw e (
          subst (λ xs. Counts xs (remove_client client_id s.central).clients) gone
            (leaves-Counts client_id (client_id ∷ sessions) s.central (inl refl) c))
  ]

  -- The clients after a session, where `sessions` are those that were open before it: while it is
  -- open it counts for its client, and once it has ended it does not, whichever way it ended.
  pub session_is_counted :
      (encoded client_id : Text) (version : ℕ) (events : List Event) (sessions : List Text)
      (s : Serving W S)
      → decode json encoded ≡ ok (client_hello version client_id)
      → Counts sessions s.central.clients
      → Counts
          (if is_open json store send_fault
              (serve_socket json store send_fault (text_hello encoded) events s).0
            then client_id ∷ sessions
            else sessions)
          (serve_socket json store send_fault (text_hello encoded) events s).1.central.clients
  unfolding serve_socket ◌>>=◌
  session_is_counted encoded client_id version events sessions s hello c =
      let start : Serving W S = record s { central = add_client client_id s.central } in
      let out = serve_client json store send_fault events start in
      let kept : out.1.central.clients ≡ start.central.clients =
        (Same-serve_client json store send_fault start.central.clients events).at start refl in
      let counted : Counts (client_id ∷ sessions) out.1.central.clients =
        subst (Counts (client_id ∷ sessions)) (sym kept)
          (joins-Counts client_id sessions s.central c) in
      elim (Bool-cases (ltb max_control_message_bytes (length encoded))) [
        | inl long ↦ rw long c
        | inr fits ↦ rw (fits, hello, ◌>>=◌) (finish-Counts client_id sessions out.0 out.1 counted)
      ]
