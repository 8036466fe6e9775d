-- ===== src/Central/Presence.antt =====
-- The connected clients of central.rs over any interleaving of sessions that come and go.
use exokephalos.Prelude.{
  ℕ, zero, suc, ◌+◌, ◌-◌, ◌≡◌, subst, sym, ◌↔◌, inl, inr, refl, Option, none, some, List, [], ◌∷◌,
  arith, In, ◌==◌, if◌then◌else◌, Bool-cases, Option-cases,
}
use exokephalos.Prelude.Map.{
  BTreeMap, get, keys, get-insert, get-remove, IsAscending, insert-IsAscending, remove-IsAscending,
}
use exokephalos.Prelude.Order.{same, same_iff}
use exokephalos.Prelude.Text.{Text, text_ord}
use exokephalos.Central.{CentralWorkspace, client_ids, add_client, remove_client, count_of}

-- How many sessions of a client there are.
abbrev pub count : Text → List Text → ℕ
count client [] = 0
count client (c ∷ sessions) = let n = count client sessions in if same c client then suc n else n

-- One session of the client less.
abbrev pub without : Text → List Text → List Text
without client [] = []
without client (c ∷ sessions) =
    let rest = without client sessions in if same c client then sessions else c ∷ rest

module _ {W : Type 0} (start : CentralWorkspace W) where
  -- The states that sessions lead to, one call at a time, with the clients of the open sessions.
  pub data Reach : List Text → CentralWorkspace W → Type 0 where
    opened : start.clients ≡ [] → Reach [] start
    joins :
        (client : Text) {sessions : List Text} {s : CentralWorkspace W}
        → Reach sessions s
        → Reach (client ∷ sessions) (add_client client s)
    leaves :
        (client : Text) {sessions : List Text} {s : CentralWorkspace W}
        → Reach sessions s
        → In client sessions
        → Reach (without client sessions) (remove_client client s)

-- The number of a client's sessions, if it has any.
abbrev pub presence_of : ℕ → Option ℕ
presence_of zero = none
presence_of (suc n) = some (suc n)

count-In :
    (client : Text) (sessions : List Text)
    → In client sessions
    → (n : ℕ) × (count client sessions ≡ suc n)
count-In client [] m = absurd m
count-In client (c ∷ sessions) (inl e) = (count client sessions, ground (arith, same_iff c client))
count-In client (c ∷ sessions) (inr m) =
    let (n, e) = count-In client sessions m in
    elim (Bool-cases (same c client)) [
      | inl s ↦ (count client sessions, ground arith)
      | inr s ↦ (n, ground arith)
    ]

count-without :
    (client j : Text) (sessions : List Text)
    → count j (without client sessions)
      ≡ (if same client j then count j sessions - 1 else count j sessions)
count-without client j [] = ground arith
count-without client j (c ∷ sessions) =
    ground
      (arith, count-without client j sessions, same_iff c client, same_iff c j, same_iff client j)

get-add_client :
    {W : Type 0} (client j : Text) (s : CentralWorkspace W)
    → get j (add_client client s).clients
      ≡ (if same client j then some (count_of (get client s.clients) + 1) else get j s.clients)
unfolding add_client
get-add_client client j s = get-insert client j (count_of (get client s.clients) + 1) s.clients

get-remove_client :
    {W : Type 0} (client j : Text) (s : CentralWorkspace W) (n : ℕ)
    → get client s.clients ≡ some (suc n)
    → get j (remove_client client s).clients
      ≡ (if same client j then presence_of n else get j s.clients)
unfolding remove_client
get-remove_client client j s zero e = rw e (get-remove client j s.clients)
get-remove_client client j s (suc n) e = ground (arith, e, get-insert client j (suc n) s.clients)

remove_client-IsAscending :
    {W : Type 0} (client : Text) (s : CentralWorkspace W)
    → IsAscending s.clients
    → IsAscending (remove_client client s).clients
unfolding remove_client
remove_client-IsAscending client s a = elim (Option-cases (get client s.clients)) [
  | inl e ↦ rw e a
  | inr (n, e) ↦ elim (Bool-cases (n - 1 == 0)) [
    | inl z ↦ rw (e, z) (remove-IsAscending client s.clients a)
    | inr z ↦ rw (e, z) (insert-IsAscending client (n - 1) s.clients a)
  ]
]

-- A map from clients to the numbers of their sessions.
pub record Counts (sessions : List Text) (clients : BTreeMap Text ℕ) : Type 0 where
  pub ascending : IsAscending clients
  pub counts : (j : Text) → get j clients ≡ presence_of (count j sessions)

presence_suc : (n : ℕ) → presence_of (count_of (presence_of n) + 1) ≡ presence_of (suc n)
presence_suc zero = refl
presence_suc (suc n) = ground arith

pub joins-Counts :
    {W : Type 0} (client : Text) (sessions : List Text) (s : CentralWorkspace W)
    → Counts sessions s.clients
    → Counts (client ∷ sessions) (add_client client s).clients
unfolding add_client
joins-Counts client sessions s c = record {
  ascending = insert-IsAscending client (count_of (get client s.clients) + 1) s.clients c.ascending;
  counts = λ j. ground (
    arith,
    get-add_client client j s,
    c.counts client,
    c.counts j,
    presence_suc (count client sessions),
    same_iff client j,
  );
}

pub leaves-Counts :
    {W : Type 0} (client : Text) (sessions : List Text) (s : CentralWorkspace W)
    → In client sessions
    → Counts sessions s.clients
    → Counts (without client sessions) (remove_client client s).clients
leaves-Counts client sessions s m c =
    let (n, e) = count-In client sessions m in
    record {
      ascending = remove_client-IsAscending client s c.ascending;
      counts = λ j. ground (
        arith,
        get-remove_client client j s n (ground (arith, c.counts client)),
        c.counts j,
        count-without client j sessions,
        same_iff client j,
      );
    }

In-keys : (j : Text) (m : BTreeMap Text ℕ) → In j (keys m) ↔ ((n : ℕ) × (get j m ≡ some n))
unfolding get
In-keys j [] = (λ h. absurd h, λ h. cc)
In-keys j ((i, n) ∷ m) = elim (Bool-cases (same i j)) [
  | inl e ↦ (λ h. (n, ground arith), λ h. inl (ground (arith, same_iff i j)))
  | inr e ↦ (
    λ h. let (k, q) = (In-keys j m).0 (ground (arith, same_iff i j)) in (k, ground arith),
    λ (k, h). inr ((In-keys j m).1 (k, ground arith)),
  )
]

count_zero :
    (j : Text) (sessions : List Text)
    → In j sessions ↔ ((n : ℕ) × (presence_of (count j sessions) ≡ some n))
count_zero j sessions =
    (λ m. let (n, e) = count-In j sessions m in (suc n, rw e refl), λ h. back sessions h)
  where
    back : (xs : List Text) → ((n : ℕ) × (presence_of (count j xs) ≡ some n)) → In j xs
    back [] (n, h) = absurd (cc)
    back (c ∷ xs) (n, h) = elim (Bool-cases (same c j)) [
      | inl e ↦ inl (ground (arith, same_iff c j))
      | inr e ↦ inr (back xs (n, ground arith))
    ]

module _ {W : Type 0} (start : CentralWorkspace W) where
  presence-Counts :
      (sessions : List Text) (s : CentralWorkspace W)
      → Reach start sessions s
      → Counts sessions s.clients
  unfolding get
  presence-Counts sessions s (opened e) = rw e (record { ascending = tt; counts = λ j. refl })
  presence-Counts sessions s (joins client r) = joins-Counts client _ _ (presence-Counts _ _ r)
  presence-Counts sessions s (leaves client r m) =
      leaves-Counts client _ _ m (presence-Counts _ _ r)

  -- However sessions join and leave, in whatever order, the server holds for each client the exact
  -- number of its open sessions and no entry for a client without one; so the clients that it
  -- announces are exactly those with an open session.
  pub presence_is_exact :
      (sessions : List Text) (s : CentralWorkspace W)
      → Reach start sessions s
      → Counts sessions s.clients
        × ((client : Text) → In client (client_ids s) ↔ In client sessions)
  unfolding client_ids
  presence_is_exact sessions s r =
      let c = presence-Counts sessions s r in
      (
        c,
        λ client. (
          λ m. (count_zero client sessions).1 (
              subst (λ o. (n : ℕ) × (o ≡ some n)) (c.counts client)
                ((In-keys client s.clients).0 m)),
          λ m. (In-keys client s.clients).1 (
              subst (λ o. (n : ℕ) × (o ≡ some n)) (sym (c.counts client))
                ((count_zero client sessions).0 m)),
        ),
      )
