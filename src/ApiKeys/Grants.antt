-- ===== src/ApiKeys/Grants.antt =====
-- What the keys of api_keys.rs allow before and after each operation, and what the file keeps.
use exokephalos.Prelude.{
  ℕ, ◌≡◌, refl, ap, inl, inr, Bool, false, ◌&&◌, ◌||◌, Option, none, some, List, [], ◌∷◌, ◌++◌,
  arith, append_nil, any, keep, map, length, Bool-cases, is_empty, if◌then◌else◌, ltb,
}
use exokephalos.Prelude.Effect.{◌>>=◌}
use exokephalos.Prelude.Int.{ℤ}
use exokephalos.Prelude.Order.{same, contains}
use exokephalos.Prelude.Result.{Result, ok, err, Result-cases}
use exokephalos.Prelude.Set.{BTreeSet}
use exokephalos.Prelude.Text.{Text, text_ord}
use exokephalos.Prelude.White.{trim}
use exokephalos.ApiKeys.{
  StoredKey, CreatedApiKey, ApiKeys, ApiKeyError, KeyCodec, digest, grants, authorize, list_keys,
  save, token_of, metadata_of, create,
}

any_append :
    {A : Type 0} (p : A → Bool) (xs ys : List A) → any p (xs ++ ys) ≡ (any p xs || any p ys)
any_append p [] ys = refl
any_append p (x ∷ xs) ys = ground (arith, any_append p xs ys)

keep_append :
    {A : Type 0} (p : A → Bool) (xs ys : List A) → keep p (xs ++ ys) ≡ keep p xs ++ keep p ys
keep_append p [] ys = refl
keep_append p (x ∷ xs) ys = ground (arith, keep_append p xs ys)

map_snoc :
    (xs : List StoredKey) (k : StoredKey)
    → map (λ k. k.metadata) (xs ++ k ∷ []) ≡ map (λ k. k.metadata) xs ++ k.metadata ∷ []
map_snoc [] k = refl
map_snoc (x ∷ xs) k = ap (λ ys. x.metadata ∷ ys) (map_snoc xs k)

module _ (codec : KeyCodec) (random : List ℕ) (now : ℤ) (owner label : Text)
    (permissions : BTreeSet Text) where
  abbrev new_key : StoredKey
  new_key = record {
    metadata = metadata_of label permissions random now;
    owner = owner;
    hash = digest codec (token_of random);
  }

  abbrev answer : CreatedApiKey
  answer = record { metadata = new_key.metadata; token = token_of random }

  -- What the tests in front of a creation ask for.
  abbrev IsAllowed : Type 0
  IsAllowed =
      ((is_empty (trim label) || ltb 120 (length label)) ≡ false) × (is_empty permissions ≡ false)

  create_allowed :
      (fault : Option Text) (s : ApiKeys) (made : CreatedApiKey)
      → (create codec fault random now owner label permissions s).0 ≡ ok made
      → IsAllowed
  unfolding create ◌>>=◌
  create_allowed fault s made e =
      elim (Bool-cases (is_empty (trim label) || ltb 120 (length label))) [
        | inl bad ↦ absurd (refused_cc (rw (bad, create, ◌>>=◌) at e))
        | inr good ↦ elim (Bool-cases (is_empty permissions)) [
          | inl bad ↦ absurd (refused_cc (rw (good, bad, create, ◌>>=◌) at e))
          | inr some_left ↦ (good, some_left)
        ]
      ]
    where
      refused_cc :
          {x : ApiKeyError} → ◌≡◌ {A = Result ApiKeyError CreatedApiKey} (err x) (ok made) → ⊥
      refused_cc h = cc

  create_shape :
      (s : ApiKeys) (made : CreatedApiKey)
      → (create codec none random now owner label permissions s).0 ≡ ok made
      → (encoded : Text) × (codec.to_vec_pretty (s.keys ++ new_key ∷ []) ≡ ok encoded)
        × (create codec none random now owner label permissions s
            ≡ (ok answer, record { keys = s.keys ++ new_key ∷ []; file = some encoded }))
  unfolding create save ◌>>=◌
  create_shape s made e =
      let (good, some_left) = create_allowed none s made e in
      elim (Result-cases (codec.to_vec_pretty (s.keys ++ new_key ∷ []))) [
        | inl (encoded, w) ↦ (encoded, w, rw (good, some_left, w) refl)
        | inr (x, w) ↦ absurd (ground (arith, good, some_left, w, e))
      ]

module _ (codec : KeyCodec) where
  -- A key that was created is the one grant that is new: a token is accepted for a permission
  -- afterwards exactly if it was before, or has the hash of the new token and the permission is one
  -- of the new key's; the key is listed last among its owner's keys and no other owner sees it. The
  -- file holds the new list.
  pub create_grants :
      (random : List ℕ) (now : ℤ) (owner label : Text) (permissions : BTreeSet Text) (s : ApiKeys)
      (made : CreatedApiKey)
      → (create codec none random now owner label permissions s).0 ≡ ok made
      → let t = (create codec none random now owner label permissions s).1 in
        ((token permission : Text)
          → authorize codec t token permission ≡ (
              authorize codec s token permission
              || same (digest codec made.token) (digest codec token)
                && contains permissions permission))
        × ((other : Text)
            → list_keys t other ≡ (
                if same owner other
                then list_keys s other ++ made.metadata ∷ []
                else list_keys s other))
        × ((encoded : Text) × (codec.to_vec_pretty t.keys ≡ ok encoded) × (t.file ≡ some encoded))
  unfolding create save authorize list_keys ◌>>=◌
  create_grants random now owner label permissions s made e =
      let (encoded, written, shape) =
        create_shape codec random now owner label permissions s made e in
      let key = new_key codec random now owner label permissions in
      let same_made : answer codec random now owner label permissions ≡ made =
        ground (arith, shape, e) in
      rw shape (
        λ token permission.
            rw
              (
                ← same_made,
                any_append (grants codec (digest codec token) permission) s.keys (key ∷ []),
              )
              (ground arith),
        λ other.
            rw (← same_made, keep_append (λ k. same k.owner other) s.keys (key ∷ []))
              (elim (Bool-cases (same owner other)) [
                | inl own ↦ rw own (map_snoc (keep (λ k. same k.owner other) s.keys) key)
                | inr foreign ↦
                    rw (foreign, append_nil (keep (λ k. same k.owner other) s.keys)) refl
              ]),
        (encoded, written, refl),
      )
