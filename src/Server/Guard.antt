-- ===== src/Server/Guard.antt =====
-- Who can change what of the server of crates/xo-syncd/src/server.rs.
use exokephalos.Prelude.{◌≡◌, refl, ap, inl, inr, ◌⊎◌, arith}
use exokephalos.Prelude.Effect.{Effect, ◌>>=◌}
use exokephalos.Prelude.Result.{Result-cases, ok}
use exokephalos.Prelude.Text.{Text, text_ord}
use exokephalos.Auth.{read_permission, write_permission, sync_permission}
use exokephalos.Central.{CentralWorkspace}
use exokephalos.Markdown.{Unicode}
use exokephalos.Server.{
  Server, Site, websocket_upgrade, sync_request, with_permission, serve_route, handle,
  item_permission,
}
use exokephalos.Server.Checks.{
  Access, Guards, authorize_token, authorize_request, subject_of, api_keys_list, api_keys_create,
  api_keys_remove,
}
use exokephalos.Server.Http.{
  Method, get_method, post_method, patch_method, delete_method, head_method, other_method, Request,
  Response, request_token,
}
use exokephalos.Server.Items.{item_request, create_captured_item, create_typed_item}
use exokephalos.Server.Notes.{Moment, ItemCodecs}
use exokephalos.Server.Keys.{list-keeps, create-keeps, remove-keeps}
use exokephalos.Server.Route.{
  Routed, health, description, auth_configuration, sync, list_keys, create_keys, create_items,
  webhook_at, remove_key_at, typed_item_at, item_at, no_api, no_health_method, asset, asset_head,
  no_method, route_of,
}
use exokephalos.Workspace.{Workspace, Codec}

module _ {W Jwk Jwks Patch : Type 0} (workspace : Workspace W) (codec : Codec) (unicode : Unicode)
    (codecs : ItemCodecs Patch) (moment : Moment) (guards : Guards Jwk Jwks) (site : Site) where
  -- The token of a request is accepted for a permission.
  abbrev pub Allowed : Request → Text → Access Jwks → Type 0
  Allowed request permission a = (authorize_request guards request permission a).0 ≡ ok tt

  -- The keys after such a check.
  abbrev pub checked : Request → Text → Access Jwks → Access Jwks
  checked request permission a = (authorize_request guards request permission a).1

  -- What may have changed by a request on this route, and with which permission.
  pub record Guarded (request : Request) (route : Routed) (s t : Server W Jwks) : Type 0 where
    pub central :
        (t.central ≡ s.central)
        ⊎ ((source : Text) × (route ≡ webhook_at source))
        ⊎ Allowed request write_permission s.access
        ⊎ (Allowed request read_permission s.access
            × ((id : Text) × (route ≡ item_at id)
                × (request.method ≡ get_method)
                × (t.central
                    ≡ (item_request workspace codec unicode codecs moment id request s.central).1)))
    pub sockets :
        (t.sockets ≡ s.sockets)
        ⊎ (Allowed request sync_permission s.access
            × Allowed request read_permission (checked request sync_permission s.access)
            × Allowed request write_permission
                (checked request read_permission (checked request sync_permission s.access)))
    pub api_keys :
        (t.access.api_keys ≡ s.access.api_keys)
        ⊎ ((subject : Text) × ((subject_of guards
                (request_token request)
                read_permission
                s.access).0
              ≡ ok subject))

  unchanged : (request : Request) (route : Routed) (s : Server W Jwks) → Guarded request route s s
  unchanged request route s = record { central = inl refl; sockets = inl refl; api_keys = inl refl }

  with_permission-cases :
      (permission : Text) (request : Request)
      (handler : Effect (CentralWorkspace W) Response Response) (s : Server W Jwks)
      → let t =
          (with_permission workspace codec unicode codecs moment guards site permission request
            handler s).1 in
        ((t.central ≡ s.central)
          ⊎ (Allowed request permission s.access × (t.central ≡ (handler s.central).1)))
        × (t.sockets ≡ s.sockets)
        × (t.access.api_keys ≡ s.access.api_keys)
  unfolding with_permission authorize_request authorize_token ◌>>=◌
  with_permission-cases permission request handler s =
      elim (Result-cases (authorize_request guards request permission s.access).0) [
        | inl (u, e) ↦ (inr (e, rw e refl), rw e refl, rw e refl)
        | inr (x, e) ↦ (inl (rw e refl), rw e refl, rw e refl)
      ]

  upgrade-keeps :
      (request : Request) (s : Server W Jwks)
      → ((websocket_upgrade site request s).1.central ≡ s.central)
        × ((websocket_upgrade site request s).1.access ≡ s.access)
  unfolding websocket_upgrade ◌>>=◌
  upgrade-keeps request s = ground arith

  sync-Guarded :
      (request : Request) (s : Server W Jwks)
      → Guarded request sync s
          (sync_request workspace codec unicode codecs moment guards site request s).1
  unfolding sync_request authorize_request authorize_token ◌>>=◌
  sync-Guarded request s =
      let a1 = checked request sync_permission s.access in
      let a2 = checked request read_permission a1 in
      let a3 = checked request write_permission a2 in
      elim (Result-cases (authorize_request guards request sync_permission s.access).0) [
        | inr (x, e) ↦ rw e (record { central = inl refl; sockets = inl refl; api_keys = inl refl })
        | inl (u, e) ↦ elim (Result-cases (authorize_request guards request read_permission a1).0) [
          | inr (x, f) ↦
              rw (e, f) (record { central = inl refl; sockets = inl refl; api_keys = inl refl })
          | inl (u2, f) ↦
              elim (Result-cases (authorize_request guards request write_permission a2).0) [
                | inr (x, g) ↦
                    rw (e, f, g)
                      (record { central = inl refl; sockets = inl refl; api_keys = inl refl })
                | inl (u3, g) ↦
                    let (c, a) = upgrade-keeps request (record s { access = a3 }) in
                    rw (e, f, g)
                      (record {
                        central = inl c;
                        sockets = inr (e, f, g);
                        api_keys = inl (ap (λ t. t.api_keys) a);
                      })
              ]
        ]
      ]

  keys-Guarded :
      (request : Request) (route : Routed) (s : Server W Jwks)
      (handler : Effect (Access Jwks) Response Response)
      → ((handler s.access).1.api_keys ≡ s.access.api_keys)
        ⊎ ((subject : Text) × ((subject_of guards
                (request_token request)
                read_permission
                s.access).0
              ≡ ok subject))
      → Guarded request route s (record s { access = (handler s.access).1 })
  keys-Guarded request route s handler h = record {
    central = inl refl;
    sockets = inl refl;
    api_keys = h;
  }

  handler-Guarded :
      (permission : Text) (request : Request) (route : Routed)
      (handler : Effect (CentralWorkspace W) Response Response) (s : Server W Jwks)
      → let t =
          (with_permission workspace codec unicode codecs moment guards site permission request
            handler s).1 in
        ((Allowed request permission s.access × (t.central ≡ (handler s.central).1))
          → (Allowed request write_permission s.access)
            ⊎ (Allowed request read_permission s.access
                × ((id : Text) × (route ≡ item_at id)
                    × (request.method ≡ get_method)
                    × (t.central
                        ≡ (item_request workspace codec unicode codecs moment id request
                            s.central).1))))
        → Guarded request route s t
  handler-Guarded permission request route handler s h =
      let (c, o, k) = with_permission-cases permission request handler s in
      record {
        central = elim c [ inl e ↦ inl e | inr allowed ↦ inr (inr (h allowed)) ];
        sockets = inl o;
        api_keys = inl k;
      }

  item-Guarded :
      (method : Method) (id : Text) (request : Request) (s : Server W Jwks)
      → request.method ≡ method
      → Guarded request
          (item_at id)
          s
          (with_permission workspace codec unicode codecs moment guards site
            (item_permission method)
            request
            (item_request workspace codec unicode codecs moment id request)
            s).1
  item-Guarded get_method id request s m =
      handler-Guarded read_permission request (item_at id)
        (item_request workspace codec unicode codecs moment id request) s
        (λ (a, c). inr (a, (id, refl, m, c)))
  item-Guarded post_method id request s m =
      handler-Guarded write_permission request (item_at id)
        (item_request workspace codec unicode codecs moment id request) s (λ (a, c). inl a)
  item-Guarded patch_method id request s m =
      handler-Guarded write_permission request (item_at id)
        (item_request workspace codec unicode codecs moment id request) s (λ (a, c). inl a)
  item-Guarded delete_method id request s m =
      handler-Guarded write_permission request (item_at id)
        (item_request workspace codec unicode codecs moment id request) s (λ (a, c). inl a)
  item-Guarded head_method id request s m =
      handler-Guarded write_permission request (item_at id)
        (item_request workspace codec unicode codecs moment id request) s (λ (a, c). inl a)
  item-Guarded other_method id request s m =
      handler-Guarded write_permission request (item_at id)
        (item_request workspace codec unicode codecs moment id request) s (λ (a, c). inl a)

  route-Guarded :
      (route : Routed) (request : Request) (s : Server W Jwks)
      → Guarded request route s
          (serve_route workspace codec unicode codecs moment guards site route request s).1
  unfolding serve_route
  route-Guarded health request s = unchanged request health s
  route-Guarded description request s = unchanged request description s
  route-Guarded auth_configuration request s = unchanged request auth_configuration s
  route-Guarded sync request s = sync-Guarded request s
  route-Guarded list_keys request s =
      keys-Guarded request list_keys s (api_keys_list guards request)
        (inl (list-keeps guards request s.access))
  route-Guarded create_keys request s =
      keys-Guarded request create_keys s (api_keys_create guards request)
        (create-keeps guards request s.access)
  route-Guarded create_items request s =
      handler-Guarded write_permission request create_items
        (create_captured_item workspace codec unicode codecs moment request) s (λ (a, c). inl a)
  route-Guarded (webhook_at source) request s = record {
    central = inr (inl (source, refl));
    sockets = inl refl;
    api_keys = inl refl;
  }
  route-Guarded (remove_key_at id) request s =
      keys-Guarded request (remove_key_at id) s (api_keys_remove guards id request)
        (remove-keeps guards id request s.access)
  route-Guarded (typed_item_at item_type) request s =
      handler-Guarded write_permission request (typed_item_at item_type)
        (create_typed_item workspace codec unicode codecs moment item_type request) s
        (λ (a, c). inl a)
  route-Guarded (item_at id) request s = item-Guarded request.method id request s refl
  route-Guarded no_api request s = unchanged request no_api s
  route-Guarded no_health_method request s = unchanged request no_health_method s
  route-Guarded asset request s = unchanged request asset s
  route-Guarded asset_head request s = unchanged request asset_head s
  route-Guarded no_method request s = unchanged request no_method s

  -- After any request, the workspace is as it was, or the request is a webhook, or its token is accepted
  -- for writing, or it is accepted for reading and the request is a GET of an item, which leaves the
  -- workspace as reading that item does. A synchronization session was started only where the token is
  -- accepted for synchronization, for reading and for writing, one check after the other. The API keys
  -- changed only for a caller whose own token the issuer signed for reading; for the rest an API key
  -- counts as well.
  pub handle-Guarded :
      (request : Request) (s : Server W Jwks)
      → Guarded request
          (route_of request.method request.path)
          s
          (handle workspace codec unicode codecs moment guards site request s).1
  unfolding handle
  handle-Guarded request s = route-Guarded (route_of request.method request.path) request s
