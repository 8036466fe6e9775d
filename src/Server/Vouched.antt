-- ===== src/Server/Vouched.antt =====
-- The loop in `api_keys_create` of crates/xo-syncd/src/server.rs that checks the wanted permissions.
use exokephalos.Prelude.{◌≡◌, refl, inl, inr, ◌⊎◌, some, List, [], ◌∷◌, arith, In}
use exokephalos.Prelude.Effect.{Effect, for_each, ◌>>=◌}
use exokephalos.Prelude.Result.{Result-cases, ok}
use exokephalos.Prelude.Text.{Text, text_ord}
use exokephalos.Auth.{authorize_subject, OidcVerifier, oidc, verify}
use exokephalos.Auth.Sound.{Vouches, verify_keys, verify_sound}
use exokephalos.Server.Checks.{Access, Guards, subject_of, check_permission}

-- Where a loop came to its end, each round did, from a state with what the rounds keep.
for_each-ok :
    {S E A : Type 0} (P : S → Type 0) (xs : List A) (f : A → Effect S E (Unit {0})) (s t : S)
    → ((x : A) (u : S) → P u → P (f x u).1)
    → P s
    → for_each xs f s ≡ (ok tt, t)
    → (x : A) → In x xs
    → (u : S) × P u × ((f x u).0 ≡ ok tt)
unfolding for_each ◌>>=◌
for_each-ok P [] f s t keeps held e x m = absurd m
for_each-ok P (y ∷ ys) f s t keeps held e x m = elim (Result-cases (f y s).0) [
  | inr (x', g) ↦ absurd (ground (arith, g, e))
  | inl (u, g) ↦ elim m [
    | inl here ↦ (s, held, rw here g)
    | inr later ↦
        for_each-ok P ys f (f y s).1 t keeps (keeps y s held) (ground (arith, g, e)) x later
  ]
]

module _ {Jwk Jwks : Type 0} (guards : Guards Jwk Jwks) where
  -- The keys of the issuer that a request may have been checked with.
  abbrev pub Source : OidcVerifier → Access Jwks → Jwks → Type 0
  Source verifier a keys = (keys ≡ a.keys) ⊎ (guards.reader.fetch verifier.jwks_uri ≡ ok keys)

  module _ (verifier : OidcVerifier) (is_oidc : guards.auth ≡ oidc verifier) (token : Text) where
    pub subject-keeps :
        (a u : Access Jwks) (permission : Text)
        → Source verifier a u.keys
        → Source verifier a (subject_of guards (some token) permission u).1.keys
    unfolding subject_of authorize_subject
    subject-keeps a u permission h =
        rw is_oidc (elim (verify_keys guards.reader verifier token permission u.keys) [
          | inl same_keys ↦ rw same_keys h
          | inr fetched ↦ inr fetched
        ])

    subject-Vouches :
        (a u : Access Jwks) (permission subject : Text)
        → Source verifier a u.keys
        → (subject_of guards (some token) permission u).0 ≡ ok subject
        → (keys : Jwks) × Source verifier a keys
          × Vouches guards.reader verifier token permission subject keys
    unfolding subject_of authorize_subject
    subject-Vouches a u permission subject h e =
        let v = verify guards.reader verifier token permission u.keys in
        let run : authorize_subject guards.reader guards.auth (some token) permission u.keys ≡ v =
          rw is_oidc refl in
        let passed : v.0 ≡ ok subject = ground (arith, run, e) in
        (
          v.1,
          elim (verify_keys guards.reader verifier token permission u.keys) [
            | inl same_keys ↦ rw same_keys h
            | inr fetched ↦ inr fetched
          ],
          (verify_sound guards.reader verifier token permission subject u.keys v.1
              (λ i. (passed i, v.1))).0,
        )

    pub check-keeps :
        (a u : Access Jwks) (permission : Text)
        → Source verifier a u.keys
        → Source verifier a (check_permission guards (some token) permission u).1.keys
    unfolding ◌>>=◌
    check-keeps a u permission h =
        elim (Result-cases (subject_of guards (some token) permission u).0) [
          | inl (subject, f) ↦ rw f (subject-keeps a u permission h)
          | inr (x, f) ↦ rw f (subject-keeps a u permission h)
        ]

    check-Vouches :
        (a u : Access Jwks) (permission : Text)
        → Source verifier a u.keys
        → (check_permission guards (some token) permission u).0 ≡ ok tt
        → (subject : Text) × (keys : Jwks) × Source verifier a keys
          × Vouches guards.reader verifier token permission subject keys
    unfolding ◌>>=◌
    check-Vouches a u permission h e =
        elim (Result-cases (subject_of guards (some token) permission u).0) [
          | inr (x, f) ↦ absurd (ground (arith, f, e))
          | inl (subject, f) ↦
              let (keys, source, vouches) = subject-Vouches a u permission subject h f in
              (subject, keys, source, vouches)
        ]

    pub loop-Vouches :
        (a s t : Access Jwks) (permissions : List Text)
        → Source verifier a s.keys
        → for_each permissions (check_permission guards (some token)) s ≡ (ok tt, t)
        → (permission : Text) → In permission permissions
        → (subject : Text) × (keys : Jwks) × Source verifier a keys
          × Vouches guards.reader verifier token permission subject keys
    loop-Vouches a s t permissions h e permission m =
        let (u, held, passed) =
          for_each-ok (λ u. Source verifier a u.keys) permissions
            (check_permission guards (some token)) s t (λ x u. check-keeps a u x) h e permission
            m in
        check-Vouches a u permission held passed
