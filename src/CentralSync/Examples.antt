-- ===== src/CentralSync/Examples.antt =====
-- Frames on the wire and the theorems at them. The printer of the examples writes the client's
-- identifier alone, and its parser reads it back.
use exokephalos.Prelude.{◌≡◌, refl, [], ◌∷◌, arith}
use exokephalos.Prelude.Result.{Result, ok, err}
use exokephalos.Prelude.Text.{Text, text}
use exokephalos.CentralSync.{
  ControlMessage, client_hello, server_hello, presence, error, new_client_hello, invalid_client_id,
  empty_sync_message, is_identifier_byte, validate_version, validate_client_id, validate_message,
  validate_sync_message, parse_client_id, Json, encode, decode,
}
use exokephalos.CentralSync.Frames.{decode-encode}

abbrev print : ControlMessage → Result Text Text
print (client_hello version client) = ok (version ∷ client)
print (server_hello version workspace clients) = err (text "not printed")
print (presence clients) = err (text "not printed")
print (error code message) = err (text "not printed")

abbrev read : Text → Result Text ControlMessage
read [] = err (text "end of input")
read (version ∷ client) = ok (client_hello version client)

abbrev hello_json : Json
hello_json = record { to_string = print; from_str = read }

hello_json_agrees : (m : ControlMessage) (s : Text) → print m ≡ ok s → read s ≡ ok m
hello_json_agrees (client_hello version client) s h = ground arith
hello_json_agrees (server_hello version workspace clients) s h = cc
hello_json_agrees (presence clients) s h = cc
hello_json_agrees (error code message) s h = cc

hello_encodes :
    encode hello_json (new_client_hello (text "clever-browser")) ≡ ok (1 ∷ text "clever-browser")
unfolding encode validate_message validate_version validate_client_id is_identifier_byte
hello_encodes = refl

hello_decodes :
    decode hello_json (1 ∷ text "clever-browser") ≡ ok (new_client_hello (text "clever-browser"))
unfolding decode validate_message validate_version validate_client_id is_identifier_byte
hello_decodes = refl

spaces_refused : parse_client_id (text "contains spaces") ≡ err invalid_client_id
unfolding parse_client_id is_identifier_byte
spaces_refused = refl

nothing_refused : validate_sync_message [] ≡ err empty_sync_message
unfolding validate_sync_message
nothing_refused = refl

decode-encode_example :
    decode hello_json (1 ∷ text "clever-browser") ≡ ok (new_client_hello (text "clever-browser"))
decode-encode_example =
    decode-encode hello_json hello_json_agrees (new_client_hello (text "clever-browser"))
      (1 ∷ text "clever-browser") hello_encodes
