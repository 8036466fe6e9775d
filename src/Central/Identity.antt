-- ===== src/Central/Identity.antt =====
-- `load_or_create_hex` and `open` of central.rs: the names that a server keeps in its state
-- directory. Random bytes, the failures of the disk and Automerge are parameters;
-- making the directory is left out.
use exokephalos.Prelude.{
  ℕ, ◌+◌, ◌*◌, ◌≤◌, ◌≡◌, refl, inl, inr, true, false, Option, none, some, List, [], ◌∷◌, ◌++◌,
  arith, all, all-append, Bool-cases, length, length-append, take, ltb, is_empty, if◌then◌else◌,
}
use exokephalos.Prelude.Effect.{Effect, return, lift, ◌>>=◌}
use exokephalos.Prelude.Order.{same}
use exokephalos.Prelude.Result.{Result, ok, err, map_err}
use exokephalos.Prelude.Text.{Text, text, text_ord}
use exokephalos.Prelude.White.{trim, is_dark}
use exokephalos.Central.{CentralWorkspace}
use exokephalos.Central.Hex.{
  HexError, encode_hex, decode_hex, AreBytes, encode_hex-AreIdentifierBytes, length-encode_hex,
  decode_hex-encode_hex,
}
use exokephalos.CentralSync.{
  SyncProtocolError, new_server_hello, validate_message, validate_version, validate_workspace_id,
  is_identifier, is_identifier_byte,
}
use exokephalos.Domain.{ActorId}
use exokephalos.Replica.Open.{AutomergeFiles, OpenError, open_or_create}
use exokephalos.Replica.{Automerge, Replica, DiskFaults}
use exokephalos.Hlc

pub data IdentityError : Type 0 where
  reading writing : Text → IdentityError
  opening : OpenError → IdentityError
  hex : HexError → IdentityError
  protocol : SyncProtocolError → IdentityError
  short_actor : IdentityError

-- A file, if it is there.
abbrev pub File : Type 0
File = Option Text

-- With which message reading fails, if it does; with which message writing fails, and what it leaves.
pub record FileFaults : Type 0 where
  pub read_fault : Option Text
  pub write_fault : Option (Text × File)

abbrev pub checked :
    {E A : Type 0} → (E → IdentityError) → Text → Result E A → Result IdentityError Text
checked f value (ok a) = ok value
checked f value (err e) = err (f e)

-- What was read must be hexadecimal for an actor and a workspace identifier else.
unfoldable pub check_value : Text → Text → Result IdentityError Text
check_value prefix value =
    if same prefix (text "actor")
    then checked hex value (decode_hex value)
    else checked protocol value (validate_message (new_server_hello value []))

-- The value that is made from random bytes.
unfoldable pub fresh_value : Text → List ℕ → Text
fresh_value prefix random =
    if same prefix (text "actor")
    then encode_hex random
    else prefix ++ text "-" ++ encode_hex random

abbrev pub write_line : Option (Text × File) → Text → Effect File IdentityError Text
write_line (some (e, left)) value file = (err (writing e), left)
write_line none value file = (ok value, some (value ++ 10 ∷ []))

abbrev pub read_or_create :
    Option Text → Option (Text × File) → Text → List ℕ → File → Result IdentityError Text × File
read_or_create (some e) write_fault prefix random file = (err (reading e), file)
read_or_create none write_fault prefix random (some value) =
    (check_value prefix (trim value), some value)
read_or_create none write_fault prefix random none =
    write_line write_fault (fresh_value prefix random) none

unfoldable pub load_or_create_hex : FileFaults → List ℕ → Text → Effect File IdentityError Text
load_or_create_hex faults random prefix file =
    read_or_create faults.read_fault faults.write_fault prefix random file

abbrev pub no_faults : FileFaults
no_faults = record { read_fault = none; write_fault = none }

pub fresh_line :
    (prefix : Text) (random : List ℕ)
    → AreBytes random
    → all is_identifier_byte prefix ≡ true
    → all is_dark prefix ≡ true
    → (all is_identifier_byte (fresh_value prefix random) ≡ true)
      × (all is_dark (fresh_value prefix random) ≡ true)
unfolding fresh_value is_identifier_byte
fresh_line prefix random bytes named dark =
    let (a, b) = encode_hex-AreIdentifierBytes random bytes in
    elim (Bool-cases (same prefix (text "actor"))) [
      | inl e ↦ rw e (a, b)
      | inr e ↦ rw e (
        rw
            (
              all-append is_identifier_byte (prefix ++ text "-") (encode_hex random),
              all-append is_identifier_byte prefix (text "-"),
              named,
              a,
            )
            refl,
        rw
            (
              all-append is_dark (prefix ++ text "-") (encode_hex random),
              all-append is_dark prefix (text "-"),
              dark,
              b,
            )
            refl,
      )
    ]

identifier_lem :
    (value : Text)
    → all is_identifier_byte value ≡ true
    → is_empty value ≡ false
    → length value ≤ 128
    → validate_message (new_server_hello value []) ≡ ok tt
unfolding validate_message validate_version validate_workspace_id is_identifier
identifier_lem value named full short = ground (arith, named, full, short)

pub fresh_is_accepted :
    (prefix : Text) (random : List ℕ)
    → AreBytes random
    → all is_identifier_byte prefix ≡ true
    → all is_dark prefix ≡ true
    → length prefix + 1 + 2 * length random ≤ 128
    → check_value prefix (fresh_value prefix random) ≡ ok (fresh_value prefix random)
unfolding check_value fresh_value
fresh_is_accepted prefix random bytes named dark short =
    elim (Bool-cases (same prefix (text "actor"))) [
      | inl e ↦ rw (e, decode_hex-encode_hex random bytes) refl
      | inr e ↦
          let value = prefix ++ text "-" ++ encode_hex random in
          let named_value : all is_identifier_byte value ≡ true =
            rw (e, fresh_value) at ((fresh_line prefix random bytes named dark).0) in
          let long : length value ≡ length prefix + 1 + 2 * length random = omega (
            arith,
            length-append (prefix ++ text "-") (encode_hex random),
            length-append prefix (text "-"),
            length-encode_hex random,
          ) in
          let full : is_empty value ≡ false = not_empty value (omega (arith, long)) in
          rw (e, identifier_lem value named_value full (omega (arith, long))) refl
    ]
  where
    not_empty : (v : Text) → 1 ≤ length v → is_empty v ≡ false
    not_empty [] h = absurd (omega arith)
    not_empty (c ∷ v) h = refl

-- The files that `CentralWorkspace::open` reads and writes: the two names, and the replica's document.
pub record StateDir : Type 0 where
  pub workspace_file : File
  pub actor_file : File
  pub document_file : File

abbrev pub on_workspace_file : Effect File IdentityError Text → Effect StateDir IdentityError Text
on_workspace_file m s = let (r, f) = m s.workspace_file in (r, record s { workspace_file = f })

abbrev pub on_actor_file : Effect File IdentityError Text → Effect StateDir IdentityError Text
on_actor_file m s = let (r, f) = m s.actor_file in (r, record s { actor_file = f })

abbrev pub on_document_file :
    {D : Type 0} → Effect File OpenError (Replica D) → Effect StateDir IdentityError (Replica D)
on_document_file m s =
    let (r, f) = m s.document_file in (map_err opening r, record s { document_file = f })

-- `format!("server-{}", &actor_hex[..16])`, which stops with a panic where there are fewer bytes;
-- the text is hexadecimal here.
abbrev pub server_actor : Text → Result IdentityError ActorId
server_actor actor_hex =
    if ltb (length actor_hex) 16 then err short_actor else ok (text "server-" ++ take 16 actor_hex)

module _ {D : Type 0} (doc : Automerge D) (files : AutomergeFiles D)
    (id_faults actor_faults : FileFaults) (document_fault : Option Text) (disk : DiskFaults) where
  -- `CentralWorkspace::open`
  unfoldable pub open_workspace :
      List ℕ → List ℕ → Effect StateDir IdentityError (CentralWorkspace (Replica D))
  open_workspace random_id random_actor = do
    workspace_id ← on_workspace_file (load_or_create_hex id_faults random_id (text "workspace"))
    actor_hex ← on_actor_file (load_or_create_hex actor_faults random_actor (text "actor"))
    automerge_actor ← lift (map_err hex (decode_hex actor_hex))
    actor ← lift (server_actor actor_hex)
    replica ←
        on_document_file (open_or_create doc files document_fault disk workspace_id automerge_actor)
    return (record {
      workspace_id = workspace_id;
      replica = replica;
      clock = Hlc.new actor;
      clients = [];
      notifications = [];
    })
