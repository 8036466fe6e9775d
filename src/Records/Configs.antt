-- ===== src/Records/Configs.antt =====
-- `list_configs` of records.rs and the comparison of configurations.
use exokephalos.Prelude.{
  ◌≡◌, refl, sym, ap, subst, ◌⊎◌, inl, inr, Bool, true, false, ◌&&◌, some, List, [], ◌∷◌, arith, In,
  if◌then◌else◌, Bool-cases, Option-cases,
}
use exokephalos.Prelude.Effect.{◌>>=◌}
use exokephalos.Prelude.Map.{BTreeMap, get, values, get-insert, get-In}
use exokephalos.Prelude.Order.{same, same_iff, is_gt, then_with}
use exokephalos.Prelude.Result.{ok}
use exokephalos.Prelude.Text.{Text, text_ord}
use exokephalos.Hlc.{compare_hlc}
use exokephalos.Hlc.Order.{hlc_ord}
use exokephalos.Records.Keys.{config_prefix}
use exokephalos.Records.Listing.{list_configs, collect_configs, read_config, replaces, take_winner}
use exokephalos.Records.{ProjectedConfig}
use exokephalos.Workspace.{Workspace, AuthoredValue, Codec}

-- The comparison of `list_configs`: by timestamp, then by identifier.
abbrev pub is_later : ProjectedConfig → ProjectedConfig → Bool
is_later a b =
    is_gt (
      then_with (compare_hlc a.config.hlc b.config.hlc)
        (text_ord.order a.revision_id b.revision_id))

is_later_self : (a : ProjectedConfig) → is_later a a ≡ false
is_later_self a = ground (arith, hlc_ord.order_self a.config.hlc, text_ord.order_self a.revision_id)

is_later_trans :
    (a b c : ProjectedConfig) → is_later a b ≡ false → is_later b c ≡ false → is_later a c ≡ false
is_later_trans a b c = ground (
  arith,
  hlc_ord.order_trans a.config.hlc b.config.hlc c.config.hlc,
  hlc_ord.eq_of_order a.config.hlc b.config.hlc,
  hlc_ord.eq_of_order b.config.hlc c.config.hlc,
  hlc_ord.order_self a.config.hlc,
  text_ord.order_trans a.revision_id b.revision_id c.revision_id,
  text_ord.eq_of_order a.revision_id b.revision_id,
  text_ord.eq_of_order b.revision_id c.revision_id,
  text_ord.order_self a.revision_id,
)

is_later_asym : (a b : ProjectedConfig) → is_later a b ≡ true → is_later b a ≡ false
is_later_asym a b h = ground (
  arith,
  h,
  hlc_ord.order_flip a.config.hlc b.config.hlc,
  text_ord.order_flip a.revision_id b.revision_id,
)

abbrev Winners : Type 0
Winners = BTreeMap Text ProjectedConfig

-- The loop of `list_configs` on the configurations that were read.
abbrev pub take_all : List ProjectedConfig → Winners → Winners
take_all [] winners = winners
take_all (c ∷ cs) winners = take_all cs (take_winner c winners)

-- A path has a configuration, and no candidate among those given is later.
abbrev Covers : ProjectedConfig → Winners → Type 0
Covers c winners =
    (w : ProjectedConfig) × (get c.config.path winners ≡ some w) × (is_later c w ≡ false)

get-take_winner :
    (p : Text) (d : ProjectedConfig) (winners : Winners)
    → get p (take_winner d winners) ≡ (
        if same d.config.path p && replaces d (get d.config.path winners)
        then some d
        else get p winners)
unfolding take_winner
get-take_winner p d winners = elim (Bool-cases (replaces d (get d.config.path winners))) [
  | inl e ↦ ground (arith, e, get-insert d.config.path p d winners)
  | inr e ↦ ground (arith, e)
]

take_winner-Covers :
    (c d : ProjectedConfig) (winners : Winners)
    → Covers c winners
    → Covers c (take_winner d winners)
take_winner-Covers c d winners (w, found, low) =
    let p = c.config.path in
    elim (Bool-cases (same d.config.path p && replaces d (get d.config.path winners))) [
      | inr e ↦ (w, ground (arith, get-take_winner p d winners, e, found), low)
      | inl e ↦
          let path_eq : d.config.path ≡ p = ground (arith, e, same_iff d.config.path p) in
          let above : is_later d w ≡ true =
            ground (arith, e, ap (λ k. get k winners) path_eq, found) in
          (
            d,
            ground (arith, get-take_winner p d winners, e),
            is_later_trans c w d low (is_later_asym d w above),
          )
    ]

take_winner_own : (d : ProjectedConfig) (winners : Winners) → Covers d (take_winner d winners)
take_winner_own d winners =
    let p = d.config.path in
    elim (Option-cases (get p winners)) [
      | inl e ↦ (d, ground (arith, get-take_winner p d winners, e, same_iff p p), is_later_self d)
      | inr (w, e) ↦ elim (Bool-cases (is_later d w)) [
        | inl l ↦
            (d, ground (arith, get-take_winner p d winners, e, l, same_iff p p), is_later_self d)
        | inr l ↦ (w, ground (arith, get-take_winner p d winners, e, l, same_iff p p), l)
      ]
    ]

take_all_keeps :
    (cs : List ProjectedConfig) (c : ProjectedConfig) (winners : Winners)
    → Covers c winners
    → Covers c (take_all cs winners)
take_all_keeps [] c winners h = h
take_all_keeps (d ∷ cs) c winners h =
    take_all_keeps cs c (take_winner d winners) (take_winner-Covers c d winners h)

take_all-Covers :
    (cs : List ProjectedConfig) (c : ProjectedConfig) (winners : Winners)
    → In c cs
    → Covers c (take_all cs winners)
take_all-Covers [] c winners i = absurd i
take_all-Covers (d ∷ cs) c winners (inl e) =
    take_all_keeps cs c (take_winner d winners)
      (subst (λ x. Covers x (take_winner d winners)) (sym e) (take_winner_own d winners))
take_all-Covers (d ∷ cs) c winners (inr i) = take_all-Covers cs c (take_winner d winners) i

values-In : (k : Text) (w : ProjectedConfig) (m : Winners) → In (k, w) m → In w (values m)
values-In k w [] i = i
values-In k w ((j, v) ∷ m) i = ground (arith, i, values-In k w m)

-- A winner was there before or is one of those given.
take_all_from :
    (cs : List ProjectedConfig) (p : Text) (w : ProjectedConfig) (winners : Winners)
    → get p (take_all cs winners) ≡ some w
    → (get p winners ≡ some w) ⊎ (In w cs × (w.config.path ≡ p))
take_all_from [] p w winners h = inl h
take_all_from (d ∷ cs) p w winners h = ground (
  arith,
  take_all_from cs p w (take_winner d winners) h,
  get-take_winner p d winners,
  same_iff d.config.path p,
)

take_all-In :
    (cs : List ProjectedConfig) (p : Text) (w : ProjectedConfig)
    → get p (take_all cs []) ≡ some w
    → In w cs × (w.config.path ≡ p)
unfolding get
take_all-In cs p w h = ground (arith, take_all_from cs p w [] h)

module _ {W : Type 0} (workspace : Workspace W) (codec : Codec) where
  -- Reading the stored entries one after the other gives these configurations.
  pub data Reads : W → List AuthoredValue → List ProjectedConfig → W → Type 0 where
    done : {s : W} → Reads s [] [] s
    next :
        {s t u : W} {entry : AuthoredValue} {entries : List AuthoredValue} {c : ProjectedConfig}
        {cs : List ProjectedConfig}
        → read_config workspace codec entry s ≡ (ok c, t)
        → Reads t entries cs u
        → Reads s (entry ∷ entries) (c ∷ cs) u

  collect_configs_lem :
      (s t : W) (entries : List AuthoredValue) (cs : List ProjectedConfig) (winners : Winners)
      → Reads s entries cs t
      → collect_configs workspace codec entries winners s ≡ (ok (take_all cs winners), t)
  unfolding collect_configs ◌>>=◌
  collect_configs_lem s t entries cs winners done = refl
  collect_configs_lem s t entries cs winners (next e rest) =
      rw e (collect_configs_lem _ t _ _ _ rest)

  -- When all stored configurations can be read, the listing succeeds, and for each of them it has a
  -- configuration of the same path that was stored too and is at least as late, by timestamp and
  -- then by identifier.
  pub list_configs_latest :
      (s s1 t : W) (entries : List AuthoredValue) (cs : List ProjectedConfig) (c : ProjectedConfig)
      → workspace.list_authored_records config_prefix s ≡ (ok entries, s1)
      → Reads s1 entries cs t
      → In c cs
      → (listed : List ProjectedConfig) × (list_configs workspace codec s ≡ (ok listed, t))
        × (w : ProjectedConfig) × In w listed
        × In w cs
        × (w.config.path ≡ c.config.path)
        × (is_later c w ≡ false)
  unfolding list_configs ◌>>=◌
  list_configs_latest s s1 t entries cs c listing reads i =
      let winners = take_all cs [] in
      let p = c.config.path in
      let (w, found, low) = take_all-Covers cs c [] i in
      let stored = take_all-In cs p w found in
      (
        values winners,
        rw (listing, collect_configs_lem s1 t entries cs [] reads) refl,
        w,
        values-In p w winners (get-In p w winners found),
        stored.0,
        stored.1,
        low,
      )
