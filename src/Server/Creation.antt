-- ===== src/Server/Creation.antt =====
-- Which API keys `api_keys_create` of crates/xo-syncd/src/server.rs makes for whom.
use exokephalos.Prelude.{
  ◌≡◌, refl, ap, ◌∙◌, inl, inr, ◌⊎◌, true, Option, none, some, List, arith, Bool-cases, In, all,
  all-In, subst,
}
use exokephalos.Prelude.Effect.{for_each, Keeps-for_each, ◌>>=◌}
use exokephalos.Prelude.Order.{contains, contains_iff}
use exokephalos.Prelude.Result.{Result-cases, ok}
use exokephalos.Prelude.Set.{BTreeSet}
use exokephalos.Prelude.Text.{Text, text_ord}
use exokephalos.ApiKeys.{create}
use exokephalos.Auth.{
  Authenticator, authorize_subject, read_permission, OidcVerifier, oidc, unsafe_disabled,
}
use exokephalos.Auth.Sound.{Vouches}
use exokephalos.Server.Checks.{
  Access, Guards, subject_of, api_keys_create, has_api_keys, known_permissions, check_permission,
  create_key, parse_json,
}
use exokephalos.Server.Http.{Request, request_token}
use exokephalos.Server.Vouched.{Source, subject-keeps, loop-Vouches}

module _ {Jwk Jwks : Type 0} (guards : Guards Jwk Jwks) where
  Auth-cases :
      (auth : Authenticator) → has_api_keys auth ≡ true → (v : OidcVerifier) × (auth ≡ oidc v)
  Auth-cases unsafe_disabled h = absurd (ground (arith, h))
  Auth-cases (oidc v) h = (v, refl)

  known_token :
      (verifier : OidcVerifier) (token : Option Text) (permission subject : Text) (a : Access Jwks)
      → guards.auth ≡ oidc verifier
      → (subject_of guards token permission a).0 ≡ ok subject
      → (t : Text) × (token ≡ some t)
  unfolding subject_of authorize_subject
  known_token verifier none permission subject a o e = absurd (ground (arith, o, e))
  known_token verifier (some t) permission subject a o e = (t, refl)

  check-api_keys :
      (token : Option Text) (permission : Text) (u : Access Jwks)
      → (check_permission guards token permission u).1.api_keys ≡ u.api_keys
  unfolding subject_of ◌>>=◌
  check-api_keys token permission u = elim (Result-cases (subject_of guards token permission u).0) [
    | inl (subject, f) ↦ rw f refl
    | inr (x, f) ↦ rw f refl
  ]

  subject-api_keys :
      (token : Option Text) (a : Access Jwks)
      → (subject_of guards token read_permission a).1.api_keys ≡ a.api_keys
  unfolding subject_of
  subject-api_keys token a = refl

  loop-api_keys :
      (token : Option Text) (permissions : List Text) (a s : Access Jwks)
      → s.api_keys ≡ a.api_keys
      → (for_each permissions (check_permission guards token) s).1.api_keys ≡ a.api_keys
  loop-api_keys token permissions a s h =
      (Keeps-for_each {P = λ u. u.api_keys ≡ a.api_keys} permissions (check_permission guards token)
          (λ p m. record { at = λ u k. check-api_keys token p u ∙ k })).at
        s h

  created_vouched :
      (verifier : OidcVerifier) (issuer : guards.auth ≡ oidc verifier) (sent : Option Text)
      (token : Text) (q : sent ≡ some token) (a : Access Jwks) (permissions : List Text)
      (l : (for_each permissions
          (check_permission guards sent)
          (subject_of guards sent read_permission a).1).0
        ≡ ok tt)
      (permission : Text)
      → In permission permissions
      → (owner : Text) × (keys : Jwks) × Source guards verifier a keys
        × Vouches guards.reader verifier token permission owner keys
  created_vouched verifier issuer sent token q a permissions l permission m =
      let s1 = (subject_of guards (some token) read_permission a).1 in
      let loop = for_each permissions (check_permission guards (some token)) s1 in
      let ends : loop.0 ≡ ok tt =
        subst
          (λ t.
            (for_each permissions (check_permission guards t)
              (subject_of guards t read_permission a).1).0
            ≡ ok tt)
          q l in
      loop-Vouches guards verifier issuer token a s1 loop.1 permissions
        (subject-keeps guards verifier issuer token a a read_permission (inl refl))
        (λ i. (ends i, loop.1)) permission m

  -- What a creation that changes the keys has come through.
  pub record Created (request : Request) (a t : Access Jwks) : Type 0 where
    pub verifier : OidcVerifier
    pub token : Text
    pub subject : Text
    pub label : Text
    pub permissions : BTreeSet Text
    pub issuer : guards.auth ≡ oidc verifier
    pub sent : request_token request ≡ some token
    pub known : (subject_of guards (some token) read_permission a).0 ≡ ok subject
    pub asked :
        parse_json guards.json.error_json guards.json.read_create_key request
        ≡ ok (label, permissions)
    pub made :
        t.api_keys
        ≡ (create guards.key_codec guards.save_fault guards.random guards.now subject label
            permissions a.api_keys).1
    pub vouched :
        (permission : Text)
        → In permission permissions
        → In permission known_permissions
          × ((owner : Text) × (keys : Jwks) × Source guards verifier a keys
              × Vouches guards.reader verifier token permission owner keys)

  -- The creation after all checks have passed.
  passed-Created :
      (request : Request) (a t : Access Jwks) (subject label : Text) (permissions : BTreeSet Text)
      → let sent = request_token request in
        let s1 = (subject_of guards sent read_permission a).1 in
        let loop = for_each permissions (check_permission guards sent) s1 in
        (subject_of guards sent read_permission a).0 ≡ ok subject
        → parse_json guards.json.error_json guards.json.read_create_key request
          ≡ ok (label, permissions)
        → all (λ permission. contains known_permissions permission) permissions ≡ true
        → loop.0 ≡ ok tt
        → has_api_keys guards.auth ≡ true
        → t.api_keys
          ≡ (create guards.key_codec guards.save_fault guards.random guards.now subject label
              permissions loop.1.api_keys).1
        → Created request a t
  passed-Created request a t subject label permissions e p k l o made =
      let sent = request_token request in
      let s1 = (subject_of guards sent read_permission a).1 in
      let (verifier, issuer) = Auth-cases guards.auth o in
      let (token, q) = known_token verifier sent read_permission subject a issuer e in
      record {
        verifier = verifier;
        token = token;
        subject = subject;
        label = label;
        permissions = permissions;
        issuer = issuer;
        sent = q;
        known = subst (λ t. (subject_of guards t read_permission a).0 ≡ ok subject) q e;
        asked = p;
        made =
            made
            ∙ ap
                (λ t.
                  (create guards.key_codec guards.save_fault guards.random guards.now subject label
                    permissions t).1)
                (loop-api_keys sent permissions a s1 (subject-api_keys sent a));
        vouched = λ permission m. (
          (contains_iff known_permissions permission).0 (
              all-In (λ permission. contains known_permissions permission) permission permissions k
                m),
          created_vouched verifier issuer sent token q a permissions l permission m,
        );
      }

  -- A request to create an API key changes the store of keys only by creating one for the caller with
  -- the label and the permissions that it asks for, and only where each of these is one of the three
  -- permissions of the server and the caller's own token carries it: signed by a key of the issuer,
  -- either one at hand or one that the issuer gave during the request. An API key cannot create others
  -- and never gets more than the token that creates it.
  pub api_keys_create-Created :
      (request : Request) (a : Access Jwks)
      → let t = (api_keys_create guards request a).1 in
        (t.api_keys ≡ a.api_keys) ⊎ Created request a t
  unfolding api_keys_create create_key ◌>>=◌
  api_keys_create-Created request a =
      let sent = request_token request in
      let s1 = (subject_of guards sent read_permission a).1 in
      let loop =
        λ (permissions : List Text). for_each permissions (check_permission guards sent) s1 in
      elim (Result-cases (subject_of guards sent read_permission a).0) [
        | inr (x, e) ↦ inl (rw e (subject-api_keys sent a))
        | inl (subject, e) ↦
            elim (Result-cases
              (parse_json guards.json.error_json guards.json.read_create_key request)) [
                | inr (x, p) ↦ inl (rw (e, p) (subject-api_keys sent a))
                | inl ((label, permissions), p) ↦
                    elim (Bool-cases
                      (all (λ permission. contains known_permissions permission) permissions)) [
                        | inr k ↦ inl (rw (e, p, k) (subject-api_keys sent a))
                        | inl k ↦ elim (Result-cases (loop permissions).0) [
                          | inr (x, l) ↦ inl (
                              rw (e, p, k, l)
                                (loop-api_keys sent permissions a s1 (subject-api_keys sent a)))
                          | inl (u, l) ↦ elim (Bool-cases (has_api_keys guards.auth)) [
                            | inr o ↦ inl (
                                rw (e, p, k, l, o)
                                  (loop-api_keys sent permissions a s1 (subject-api_keys sent a)))
                            | inl o ↦ inr (
                                passed-Created request a (api_keys_create guards request a).1
                                  subject label permissions e p k l o (rw (e, p, k, l, o) refl))
                          ]
                        ]
                      ]
              ]
      ]
