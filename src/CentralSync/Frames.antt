-- ===== src/CentralSync/Frames.antt =====
-- The frames of central_sync.rs: their form, and encoding and decoding together.
use exokephalos.Prelude.{ℕ, ◌≤◌, ◌≡◌, refl, ◌↔◌, inl, inr, true, List, [], ◌∷◌, arith, length, all}
use exokephalos.Prelude.Result.{ok, try_for_each, Result-cases}
use exokephalos.Prelude.Text.{Text}
use exokephalos.CentralSync.{
  ControlMessage, client_hello, server_hello, presence, error, sync_protocol_version,
  max_control_message_bytes, max_sync_message_bytes, is_identifier_byte, is_identifier,
  validate_version, validate_client_id, validate_workspace_id, validate_message,
  validate_sync_message, Json, encode, decode,
}

-- From one byte to `limit`, all of them letters, digits, `.`, `_` or `-`.
pub record IsIdentifier (limit : ℕ) (value : Text) : Type 0 where
  pub nonempty : 1 ≤ length value
  pub short : length value ≤ limit
  pub bytes : all is_identifier_byte value ≡ true

abbrev pub AreClients : List Text → Type 0
AreClients [] = Unit
AreClients (c ∷ cs) = IsIdentifier 64 c × AreClients cs

-- What a frame may hold.
abbrev pub IsWellFormed : ControlMessage → Type 0
IsWellFormed (client_hello version client) =
    (version ≡ sync_protocol_version) × IsIdentifier 64 client
IsWellFormed (server_hello version workspace clients) =
    (version ≡ sync_protocol_version) × IsIdentifier 128 workspace × AreClients clients
IsWellFormed (presence clients) = AreClients clients
IsWellFormed (error code message) =
    IsIdentifier 64 code × (1 ≤ length message) × (length message ≤ 1024)

is_identifier_iff :
    (limit : ℕ) (value : Text) → (is_identifier limit value ≡ true) ↔ IsIdentifier limit value
unfolding is_identifier
is_identifier_iff limit [] = (λ h. cc, λ h. absurd (let k = h.nonempty in omega arith))
is_identifier_iff limit (c ∷ value) = (
  λ h. record { nonempty = omega arith; short = ground arith; bytes = ground arith },
  λ h. ground (arith, h.short, h.bytes),
)

clients_iff : (cs : List Text) → (try_for_each validate_client_id cs ≡ ok tt) ↔ AreClients cs
unfolding validate_client_id
clients_iff [] = (λ h. tt, λ h. refl)
clients_iff (c ∷ cs) = (
  λ h. ((is_identifier_iff 64 c).0 (ground arith), (clients_iff cs).0 (ground arith)),
  λ h. ground (arith, (is_identifier_iff 64 c).1 h.0, (clients_iff cs).1 h.1),
)

-- A frame passes validation exactly if its version is the current one, its identifiers are from one
-- byte to the limit of the alphabet, and an error's text has from 1 to 1024 bytes.
pub validate_message_iff :
    (message : ControlMessage) → (validate_message message ≡ ok tt) ↔ IsWellFormed message
unfolding validate_message validate_version validate_client_id validate_workspace_id
validate_message_iff (client_hello version client) = (
  λ h. (ground arith, (is_identifier_iff 64 client).0 (ground arith)),
  λ h. ground (arith, h.0, (is_identifier_iff 64 client).1 h.1),
)
validate_message_iff (server_hello version workspace clients) = (
  λ h. (
    ground arith,
    (is_identifier_iff 128 workspace).0 (ground arith),
    (clients_iff clients).0 (ground arith),
  ),
  λ h. ground (arith, h.0, (is_identifier_iff 128 workspace).1 h.1, (clients_iff clients).1 h.2),
)
validate_message_iff (presence clients) = clients_iff clients
validate_message_iff (error code []) =
    (λ h. absurd (ground arith), λ h. absurd (omega (arith, h.1)))
validate_message_iff (error code (c ∷ message)) = (
  λ h. ((is_identifier_iff 64 code).0 (ground arith), omega arith, ground arith),
  λ h. ground (arith, (is_identifier_iff 64 code).1 h.0, h.2),
)

-- A binary frame passes exactly if it has from one byte to 8 MiB.
pub validate_sync_message_iff :
    (bytes : List ℕ)
    → (validate_sync_message bytes ≡ ok tt)
      ↔ ((1 ≤ length bytes) × (length bytes ≤ max_sync_message_bytes))
unfolding validate_sync_message
validate_sync_message_iff [] = (λ h. absurd (ground arith), λ h. absurd (omega arith))
validate_sync_message_iff (b ∷ bytes) = ground arith

module _ (j : Json) where
  -- What decodes is well formed, and was not longer than the limit.
  pub decode_sound :
      (encoded : Text) (message : ControlMessage)
      → decode j encoded ≡ ok message
      → IsWellFormed message × (length encoded ≤ max_control_message_bytes)
  unfolding decode
  decode_sound encoded message h = elim (Result-cases (j.from_str encoded)) [
    | inr (e, f) ↦ absurd (ground arith)
    | inl (m, f) ↦ (
      (validate_message_iff message).0 (ground (arith, Result-cases (validate_message m))),
      ground arith,
    )
  ]

  -- What was encoded decodes to the message that was sent, where the JSON printer and parser agree.
  pub decode-encode :
      ((m : ControlMessage) (s : Text) → j.to_string m ≡ ok s → j.from_str s ≡ ok m)
      → (message : ControlMessage) (encoded : Text) → encode j message ≡ ok encoded
      → decode j encoded ≡ ok message
  unfolding encode decode
  decode-encode agree message encoded h = elim (Result-cases (j.to_string message)) [
    | inr (e, f) ↦ absurd (ground arith)
    | inl (s, f) ↦ ground (arith, f, agree message s f)
  ]
