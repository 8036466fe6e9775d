-- ===== src/ApiKeys/Removal.antt =====
-- What `remove` of api_keys.rs does to the keys, to what they allow and to the file.
use exokephalos.Prelude.{
  ◌≤◌, ◌≡◌, ◌↔◌, refl, sym, subst, In, In-keep, inl, inr, ◌⊎◌, Bool, true, false, ◌&&◌, none, some,
  List, [], ◌∷◌, arith, any, keep, map, length, Bool-cases, ◌==◌, ==_iff,
}
use exokephalos.Prelude.Effect.{◌>>=◌}
use exokephalos.Prelude.Order.{same, same_iff, contains, contains_iff}
use exokephalos.Prelude.Result.{ok, err, Result-cases}
use exokephalos.Prelude.Text.{Text, text_ord}
use exokephalos.ApiKeys.{
  StoredKey, ApiKeys, saving, KeyCodec, digest, grants, authorize, list_keys, save, is_other,
  remove, open_file,
}

any-keep :
    {A : Type 0} (p q : A → Bool) (xs : List A) → any p (keep q xs) ≡ any (λ x. p x && q x) xs
any-keep p q [] = refl
any-keep p q (x ∷ xs) = ground (arith, any-keep p q xs)

keep_shorter : {A : Type 0} (p : A → Bool) (xs : List A) → length (keep p xs) ≤ length xs
keep_shorter p [] = omega arith
keep_shorter p (x ∷ xs) = ground (arith, keep_shorter p xs)

-- A list that filtering does not shorten is kept as it is.
keep_all :
    {A : Type 0} (p : A → Bool) (xs : List A) → length (keep p xs) ≡ length xs → keep p xs ≡ xs
keep_all p [] e = refl
keep_all p (x ∷ xs) e = ground (arith, keep_all p xs, keep_shorter p xs)

-- The key is the owner's and has the identifier.
abbrev pub Named : Text → Text → StoredKey → Type 0
Named owner id k = (k.metadata.id ≡ id) × (k.owner ≡ owner)

named_lem : (owner id : Text) (k : StoredKey) → is_other owner id k ≡ false → Named owner id k
named_lem owner id k h = ground (arith, h, same_iff k.metadata.id id, same_iff k.owner owner)

not_other : (owner id : Text) (k : StoredKey) → Named owner id k → is_other owner id k ≡ false
not_other owner id k n = ground (arith, n.0, n.1, same_iff k.metadata.id id, same_iff k.owner owner)

In-kept :
    (owner id : Text) (k : StoredKey) (keys : List StoredKey)
    → In k (keep (is_other owner id) keys) ↔ (In k keys × ¬ Named owner id k)
In-kept owner id k keys = (
  λ m.
      let (i, other) = (In-keep (is_other owner id) k keys).0 m in
      (i, λ n. absurd (ground (arith, other, not_other owner id k n))),
  λ (i, unnamed). (In-keep (is_other owner id) k keys).1 (
    i,
    elim (Bool-cases (is_other owner id k)) [
      | inl other ↦ other
      | inr named ↦ absurd (unnamed (named_lem owner id k named))
    ],
  ),
)

any-In :
    (p : StoredKey → Bool) (k : StoredKey) (keys : List StoredKey)
    → In k keys
    → p k ≡ true
    → any p keys ≡ true
any-In p k [] m h = absurd m
any-In p k (j ∷ keys) (inl e) h = rw (← e, h) refl
any-In p k (j ∷ keys) (inr m) h = ground (arith, any-In p k keys m h)

granted :
    (hash permission : Text) (k : StoredKey)
    → hash ≡ k.hash
    → In permission k.metadata.permissions
    → (same k.hash hash && contains k.metadata.permissions permission) ≡ true
granted hash permission k hashed allowed = ground (
  arith,
  hashed,
  (contains_iff k.metadata.permissions permission).1 allowed,
  same_iff k.hash hash,
)

-- Whether the owner has a key of this identifier is what `remove` answers.
has-Named :
    (owner id : Text) (keys : List StoredKey)
    → (length (keep (is_other owner id) keys) == length keys) ≡ false
    → (k : StoredKey) × In k keys × Named owner id k
has-Named owner id [] h = absurd (ground (arith, h))
has-Named owner id (k ∷ keys) h = elim (Bool-cases (is_other owner id k)) [
  | inr named ↦ (k, inl refl, named_lem owner id k named)
  | inl other ↦ let (j, m, n) = has-Named owner id keys (ground (arith, h, other)) in (j, inr m, n)
]

shorter_without :
    (owner id : Text) (keys : List StoredKey) (k : StoredKey)
    → In k keys
    → Named owner id k
    → (length (keep (is_other owner id) keys) == length keys) ≡ false
shorter_without owner id keys k m n =
    elim (Bool-cases (length (keep (is_other owner id) keys) == length keys)) [
      | inr fewer ↦ fewer
      | inl all_kept ↦
          let same_keys =
            keep_all (is_other owner id) keys
              ((==_iff (length (keep (is_other owner id) keys)) (length keys)).0 all_kept) in
          let other = ((In-keep (is_other owner id) k keys).0 (subst (In k) (sym same_keys) m)).1 in
          absurd (ground (arith, other, not_other owner id k n))
    ]

module _ (codec : KeyCodec) where
  -- A removal that returns an answer, with a file that can be written, answers true exactly if the
  -- owner has a key of this identifier; otherwise nothing changes. Afterwards a token is accepted for a permission exactly if some key that is not one of
  -- these has the token's hash and that permission; the owner's other keys and all keys of others are
  -- listed as before; and where the answer is true, the file holds the keys that are left.
  pub remove-grants :
      (owner id : Text) (found : Bool) (s : ApiKeys)
      → (remove codec none owner id s).0 ≡ ok found
      → let t = (remove codec none owner id s).1 in
        ((found ≡ true) ↔ ((k : StoredKey) × In k s.keys × Named owner id k))
        × ((token permission : Text)
            → authorize codec t token permission
              ≡ any
                  (λ k. grants codec (digest codec token) permission k && is_other owner id k)
                  s.keys)
        × ((k : StoredKey) → In k t.keys ↔ (In k s.keys × ¬ Named owner id k))
        × ((other : Text)
            → list_keys t other
              ≡ map
                  (λ k. k.metadata)
                  (keep (λ k. same k.owner other) (keep (is_other owner id) s.keys)))
        × ((found ≡ false) × (t ≡ s)
            ⊎ (found ≡ true)
              × ((encoded : Text) × (codec.to_vec_pretty t.keys ≡ ok encoded)
                  × (t.file ≡ some encoded)))
  unfolding remove save authorize list_keys ◌>>=◌
  remove-grants owner id found s e =
      let kept = keep (is_other owner id) s.keys in
      let left : (k : StoredKey) → In k kept ↔ (In k s.keys × ¬ Named owner id k) =
        λ k. In-kept owner id k s.keys in
      elim (Bool-cases (length kept == length s.keys)) [
        | inl all_kept ↦
            let same_keys : kept ≡ s.keys =
              keep_all (is_other owner id) s.keys
                ((==_iff (length kept) (length s.keys)).0 all_kept) in
            let answer : found ≡ false = ground (arith, e, all_kept) in
            rw all_kept (
              (
                λ yes. absurd (ground (arith, yes, answer)),
                λ (k, m, n).
                    absurd (ground (arith, all_kept, shorter_without owner id s.keys k m n)),
              ),
              λ token permission.
                  any-keep (grants codec (digest codec token) permission) (is_other owner id)
                    s.keys,
              left,
              λ other. refl,
              inl (answer, rw same_keys refl),
            )
        | inr fewer ↦ elim (Result-cases (codec.to_vec_pretty kept)) [
          | inl (encoded, w) ↦
              let answer : found ≡ true = ground (arith, e, fewer, w) in
              rw (fewer, w)
                (
                  (λ yes. has-Named owner id s.keys fewer, λ h. answer),
                  λ token permission.
                      any-keep (grants codec (digest codec token) permission) (is_other owner id)
                        s.keys,
                  left,
                  λ other. refl,
                  inr (answer, (encoded, w, refl)),
                )
          | inr (x, w) ↦ absurd (ground (arith, fewer, w, e))
        ]
      ]

  -- Let the file hold the keys that are in memory, and let it fail to be written, though the keys that
  -- would be left can be encoded. Then the removal of a key that is there is answered with that error
  -- and the key is gone from memory; but the server that is started next reads the file with the key
  -- in it, and accepts the key's token for each of its permissions again.
  pub failed_removal_returns :
      (fault owner id encoded content : Text) (s : ApiKeys) (k : StoredKey)
      → In k s.keys
      → Named owner id k
      → s.file ≡ some content
      → codec.from_slice content ≡ ok s.keys
      → codec.to_vec_pretty (keep (is_other owner id) s.keys) ≡ ok encoded
      → let t = (remove codec (some fault) owner id s).1 in
        ((remove codec (some fault) owner id s).0 ≡ err (saving fault))
        × ((j : StoredKey) → In j t.keys ↔ (In j s.keys × ¬ Named owner id j))
        × (open_file codec t.file ≡ ok s)
        × ((token permission : Text)
            → digest codec token ≡ k.hash
            → In permission k.metadata.permissions
            → authorize codec s token permission ≡ true)
  unfolding remove save authorize ◌>>=◌
  failed_removal_returns fault owner id encoded content s k m n file decodes w =
      let fewer = shorter_without owner id s.keys k m n in
      rw (fewer, w)
        (
          refl,
          λ j. In-kept owner id j s.keys,
          rw (file, decodes) (ground (arith, file)),
          λ token permission hashed allowed.
              any-In (grants codec (digest codec token) permission) k s.keys m
                (granted (digest codec token) permission k hashed allowed),
        )
