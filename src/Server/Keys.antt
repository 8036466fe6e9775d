-- ===== src/Server/Keys.antt =====
-- What the handlers of API keys in crates/xo-syncd/src/server.rs change.
use exokephalos.Prelude.{◌≡◌, refl, inl, inr, ◌⊎◌, ◌&&◌, Bool-cases, all, length, ◌==◌}
use exokephalos.Prelude.Effect.{◌>>=◌}
use exokephalos.Prelude.Result.{Result-cases, ok}
use exokephalos.Prelude.Text.{Text, text_ord}
use exokephalos.Auth.{read_permission}
use exokephalos.Server.Checks.{
  Access, Guards, subject_of, api_keys_list, api_keys_create, api_keys_remove, is_hex_digit,
}
use exokephalos.Server.Http.{Request, request_token}

module _ {Jwk Jwks : Type 0} (guards : Guards Jwk Jwks) where
  -- A caller is known by a token that the issuer signed.
  abbrev pub Known : Request → Access Jwks → Type 0
  Known request a =
      (subject : Text) × ((subject_of guards (request_token request) read_permission a).0
        ≡ ok subject)

  pub list-keeps :
      (request : Request) (a : Access Jwks)
      → (api_keys_list guards request a).1.api_keys ≡ a.api_keys
  unfolding api_keys_list subject_of ◌>>=◌
  list-keeps request a =
      elim (Result-cases (subject_of guards (request_token request) read_permission a).0) [
        | inl (subject, e) ↦ rw e refl
        | inr (x, e) ↦ rw e refl
      ]

  pub create-keeps :
      (request : Request) (a : Access Jwks)
      → ((api_keys_create guards request a).1.api_keys ≡ a.api_keys) ⊎ Known request a
  unfolding api_keys_create subject_of ◌>>=◌
  create-keeps request a =
      elim (Result-cases (subject_of guards (request_token request) read_permission a).0) [
        | inl known ↦ inr known
        | inr (x, e) ↦ inl (rw e refl)
      ]

  pub remove-keeps :
      (id : Text) (request : Request) (a : Access Jwks)
      → ((api_keys_remove guards id request a).1.api_keys ≡ a.api_keys) ⊎ Known request a
  unfolding api_keys_remove subject_of ◌>>=◌
  remove-keeps id request a = elim (Bool-cases (length id == 16 && all is_hex_digit id)) [
    | inr c ↦ inl (rw c refl)
    | inl c ↦ elim (Result-cases (subject_of guards (request_token request) read_permission a).0) [
      | inl known ↦ inr known
      | inr (x, e) ↦ inl (rw (c, e) refl)
    ]
  ]
