-- ===== src/ApiKeys.antt =====
-- crates/xo-syncd/src/api_keys.rs: the keys that let programs use the server. The hash `sha2`, the
-- encoder `serde_json`, random bytes, the time and the failures of the disk are parameters; the
-- lock is never poisoned.
pub mod Grants
pub mod Removal
mod Examples
use exokephalos.Prelude.{
  ℕ, Bool, true, false, not, ◌&&◌, ◌||◌, Option, none, some, List, [], ◌∷◌, ◌++◌, any, keep,
  is_empty, length, map, take, ltb, ◌==◌, if◌then◌else◌,
}
use exokephalos.Prelude.Effect.{Effect, return, lift, modify, ◌>>=◌, ◌>>◌}
use exokephalos.Prelude.Int.{ℤ}
use exokephalos.Prelude.Order.{same, contains}
use exokephalos.Prelude.Result.{Result, ok, err, ensure, map_err}
use exokephalos.Prelude.Set.{BTreeSet}
use exokephalos.Prelude.Text.{Text, text, text_ord}
use exokephalos.Prelude.White.{trim}
use exokephalos.Central.Hex.{encode_hex}

pub record ApiKeyMetadata : Type 0 where
  pub id : Text
  pub label : Text
  pub permissions : BTreeSet Text
  pub created_at : ℤ

pub record StoredKey : Type 0 where
  pub metadata : ApiKeyMetadata
  pub owner : Text
  pub hash : Text

pub record CreatedApiKey : Type 0 where
  pub metadata : ApiKeyMetadata
  pub token : Text

-- `ApiKeys`: the keys in memory and the file.
pub record ApiKeys : Type 0 where
  pub keys : List StoredKey
  pub file : Option Text

pub data ApiKeyError : Type 0 where
  invalid_label no_permission : ApiKeyError
  encoding saving decoding : Text → ApiKeyError

-- `serde_json` at the list of keys, and the bytes of SHA-256.
pub record KeyCodec : Type 0 where
  pub to_vec_pretty : List StoredKey → Result Text Text
  pub from_slice : Text → Result Text (List StoredKey)
  pub sha256 : Text → List ℕ

abbrev pub hex : List ℕ → Text
hex = encode_hex

abbrev pub decoded : Option Text → Result Text (List StoredKey) → Result ApiKeyError ApiKeys
decoded file (ok keys) = ok (record { keys = keys; file = file })
decoded file (err e) = err (decoding e)

module _ (codec : KeyCodec) where
  abbrev pub digest : Text → Text
  digest token = hex (codec.sha256 token)

  abbrev pub open_file : Option Text → Result ApiKeyError ApiKeys
  open_file none = ok (record { keys = []; file = none })
  open_file (some content) = decoded (some content) (codec.from_slice content)

  abbrev pub grants : Text → Text → StoredKey → Bool
  grants hash permission key = same key.hash hash && contains key.metadata.permissions permission

  unfoldable pub authorize : ApiKeys → Text → Text → Bool
  authorize s token permission = any (grants (digest token) permission) s.keys

-- `ApiKeys::list`
unfoldable pub list_keys : ApiKeys → Text → List ApiKeyMetadata
list_keys s owner = map (λ k. k.metadata) (keep (λ k. same k.owner owner) s.keys)

abbrev pub token_of : List ℕ → Text
token_of random = text "xok_" ++ hex random

abbrev pub metadata_of : Text → BTreeSet Text → List ℕ → ℤ → ApiKeyMetadata
metadata_of label permissions random now = record {
  id = hex (take 8 random);
  label = trim label;
  permissions = permissions;
  created_at = now;
}

abbrev pub is_other : Text → Text → StoredKey → Bool
is_other owner id key = not (same key.metadata.id id) || not (same key.owner owner)

module _ (codec : KeyCodec) (save_fault : Option Text) where
  -- The file is replaced by renaming a new one, or stays as it was.
  unfoldable pub save : Effect ApiKeys ApiKeyError (Unit {0})
  save = do
    encoded ← (λ s. (map_err encoding (codec.to_vec_pretty s.keys), s))
    elim save_fault [
      | some e ↦ lift (err (saving e))
      | none ↦ modify (λ s. record s { file = some encoded })
    ]

  unfoldable pub create :
      List ℕ → ℤ → Text → Text → BTreeSet Text → Effect ApiKeys ApiKeyError CreatedApiKey
  create random now owner label permissions = do
    lift (ensure (not (is_empty (trim label) || ltb 120 (length label))) invalid_label)
    lift (ensure (not (is_empty permissions)) no_permission)
    let token : Text = token_of random
    let metadata : ApiKeyMetadata = metadata_of label permissions random now
    modify (λ s. record s {
      keys =
          s.keys ++ (record { metadata = metadata; owner = owner; hash = digest codec token }) ∷ [];
    })
    save
    return (record { metadata = metadata; token = token })

  unfoldable pub remove : Text → Text → Effect ApiKeys ApiKeyError Bool
  remove owner id s =
      let kept = keep (is_other owner id) s.keys in
      if length kept == length s.keys
      then (ok false, record s { keys = kept })
      else (save >> return true) (record s { keys = kept })
