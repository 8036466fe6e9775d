-- ===== src/ApiKeys/Examples.antt =====
-- A store of keys with a toy hash and a toy encoder, and what is proved of api_keys.rs at it.
use exokephalos.Prelude.{
  ◌≡◌, ◌↔◌, In, inl, refl, ◌⊎◌, Bool, true, false, ◌&&◌, ◌||◌, none, some, [], ◌∷◌, ◌++◌, any, keep,
  map, if◌then◌else◌, length,
}
use exokephalos.Prelude.Effect.{◌>>=◌}
use exokephalos.Prelude.Int.{pos}
use exokephalos.Prelude.Order.{same, contains, compare_lists}
use exokephalos.Prelude.Result.{ok, err}
use exokephalos.Prelude.Text.{Text, text, text_ord}
use exokephalos.Prelude.White.{trim}
use exokephalos.ApiKeys.{
  ApiKeys, CreatedApiKey, StoredKey, KeyCodec, saving, digest, grants, authorize, list_keys, create,
  remove, save, is_other, open_file,
}
use exokephalos.ApiKeys.Removal.{Named, remove-grants, failed_removal_returns}
use exokephalos.ApiKeys.Grants.{create_grants}

abbrev toy : KeyCodec
toy = record {
  to_vec_pretty = λ keys. ok (length keys ∷ []);
  from_slice = λ bytes. ok [];
  sha256 = λ token. length token ∷ [];
}

abbrev key : StoredKey
key = record {
  metadata = record {
    id = text "k1";
    label = text "ci";
    permissions = text "xo:read" ∷ [];
    created_at = pos 1;
  };
  owner = text "ann";
  hash = text "0a";
}

abbrev one_key : ApiKeys
one_key = record { keys = key ∷ []; file = some (1 ∷ []) }

abbrev made : CreatedApiKey
made = record {
  metadata = record {
    id = text "ab";
    label = text "ci";
    permissions = text "xo:write" ∷ [];
    created_at = pos 5;
  };
  token = text "xok_ab";
}

abbrev after_create : ApiKeys
after_create =
    (create toy none (171 ∷ []) (pos 5) (text "ann") (text " ci ") (text "xo:write" ∷ []) one_key).1

create_grants_example :
    ((token permission : Text)
      → authorize toy after_create token permission ≡ (
          authorize toy one_key token permission
          || same (digest toy (text "xok_ab")) (digest toy token)
            && contains (text "xo:write" ∷ []) permission))
    × ((other : Text)
        → list_keys after_create other ≡ (
            if same (text "ann") other
            then list_keys one_key other ++ made.metadata ∷ []
            else list_keys one_key other))
    × ((encoded : Text) × (toy.to_vec_pretty after_create.keys ≡ ok encoded)
        × (after_create.file ≡ some encoded))
unfolding create save trim exokephalos.Central.Hex.encode_hex ◌>>=◌
create_grants_example =
    create_grants toy (171 ∷ []) (pos 5) (text "ann") (text " ci ") (text "xo:write" ∷ []) one_key
      made refl

abbrev after_remove : ApiKeys
after_remove = (remove toy none (text "ann") (text "k1") one_key).1

remove-grants_example :
    (◌≡◌ {A = Bool} true true
      ↔ ((k : StoredKey) × In k one_key.keys × Named (text "ann") (text "k1") k))
    × ((token permission : Text)
        → authorize toy after_remove token permission
          ≡ any
              (λ k.
                grants toy (digest toy token) permission k && is_other (text "ann") (text "k1") k)
              (key ∷ []))
    × ((k : StoredKey)
        → In k after_remove.keys ↔ (In k one_key.keys × ¬ Named (text "ann") (text "k1") k))
    × ((other : Text)
        → list_keys after_remove other
          ≡ map
              (λ k. k.metadata)
              (keep
                (λ k. same k.owner other)
                (keep (is_other (text "ann") (text "k1")) (key ∷ []))))
    × (◌≡◌ {A = Bool} true false × (after_remove ≡ one_key)
        ⊎ ◌≡◌ {A = Bool} true true
          × ((encoded : Text) × (toy.to_vec_pretty after_remove.keys ≡ ok encoded)
              × (after_remove.file ≡ some encoded)))
unfolding remove save compare_lists ◌>>=◌
remove-grants_example = remove-grants toy (text "ann") (text "k1") true one_key refl

-- The codec at the moment when the file holds the one key.
abbrev saved_codec : KeyCodec
saved_codec = record toy { from_slice = λ bytes. ok (key ∷ []) }

failed_removal_returns_example :
    ((remove saved_codec (some (text "full")) (text "ann") (text "k1") one_key).0
      ≡ err (saving (text "full")))
    × ((j : StoredKey)
        → In j (remove saved_codec (some (text "full")) (text "ann") (text "k1") one_key).1.keys
          ↔ (In j one_key.keys × ¬ Named (text "ann") (text "k1") j))
    × (open_file saved_codec
          (remove saved_codec (some (text "full")) (text "ann") (text "k1") one_key).1.file
        ≡ ok one_key)
    × ((token permission : Text)
        → digest saved_codec token ≡ key.hash
        → In permission key.metadata.permissions
        → authorize saved_codec one_key token permission ≡ true)
unfolding compare_lists
failed_removal_returns_example =
    failed_removal_returns saved_codec (text "full") (text "ann") (text "k1") (0 ∷ []) (1 ∷ [])
      one_key key (inl refl) (refl, refl) refl refl refl
