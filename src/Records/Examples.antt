-- ===== src/Records/Examples.antt =====
-- A workspace that is a map, an encoder that knows one revision, one head and one asset, and the
-- theorems on the repository at them.
use exokephalos.Prelude.{◌≡◌, refl, inl, false, some, List, [], ◌∷◌, arith, keep, map, In}
use exokephalos.Prelude.Effect.{◌>>=◌}
use exokephalos.Prelude.Map.{get-insert, BTreeMap, get, insert}
use exokephalos.Prelude.Order.{compare_lists}
use exokephalos.Prelude.Paths.{components}
use exokephalos.Prelude.Result.{ok, err}
use exokephalos.Prelude.Text.{Text, text, text_ord, starts_with}
use exokephalos.Domain.{
  Head, AssetRecord, ConfigRevision, empty_field, validate_asset, validate_revision,
  validate_schema, validate_relative_path, is_invalid_path, validate_value, validate_config,
  config_id, config_canonical_bytes,
}
use exokephalos.Domain.Examples.{base, at_time}
use exokephalos.Id
use exokephalos.Records.Assets.{refused_asset_breaks_stored}
use exokephalos.Records.Commit.{commit_revision_lem}
use exokephalos.Records.Configs.{Reads, done, next, is_later, list_configs_latest}
use exokephalos.Records.Decode.{no_records}
use exokephalos.Records.Isolation.{gather_lem, own_records}
use exokephalos.Records.Keys.{domain, blob_mismatch, head_key, verify_author}
use exokephalos.Records.Listing.{list_configs, read_config}
use exokephalos.Records.Snapshot.{gather, group_of}
use exokephalos.Records.{ProjectedConfig, commit_revision, get_revision, put_asset, get_asset}
use exokephalos.Workspace.{Workspace, AuthoredValue, Codec}
use exokephalos.Workspace.Laws.{IsStore, AcceptsWrites, authored}

abbrev pub asset : AssetRecord
asset = record {
  schema = 1;
  id = text "logo";
  blob_hash = text "hpng";
  mime = text "image/png";
  size = 3;
  materialized_path = text "assets/logo.png";
}

abbrev pub head : Head
head = record {
  note_id = text "note002";
  author_id = text "device-a";
  revision_id = text "hrevision";
}

abbrev pub sample : Codec
sample = record {
  encoding = record {
    revision_bytes = λ r. ok (text "revision");
    config_bytes = λ r. ok r.path;
    hash = λ bytes. b'h' ∷ bytes;
  };
  write_head = λ h. ok (text "head");
  write_asset = λ a. ok (text "asset");
  write_tombstone = λ t. ok (text "tombstone");
  read_revision = λ bytes. ok base;
  read_head = λ bytes. ok head;
  read_asset = λ bytes. ok asset;
  read_config = λ bytes. err (text "no configuration");
  read_tombstone = λ bytes. err (text "no tombstone");
}

abbrev pub Store : Type 0
Store = BTreeMap Text Text

abbrev below : Text → Store → Store
below prefix s = keep (λ e. starts_with prefix e.0) s

abbrev pub store_of : Codec → Workspace Store
store_of codec = record {
  record_actor_id = text "device-a";
  put_record = λ key value s. (ok (b'h' ∷ value), insert key value s);
  put_blob_record = λ key value s. (ok (b'h' ∷ value), insert key value s);
  get_record = λ key s. (ok (get key s), s);
  get_authored_record = λ key s. (ok (authored (text "device-a") codec key (get key s)), s);
  list_records = λ prefix s. (ok (below prefix s), s);
  list_authored_records = λ prefix s. (
    ok (map (λ e. record { key = e.0; value = e.1; author = text "device-a" }) (below prefix s)),
    s,
  );
}

abbrev map_store : Workspace Store
map_store = store_of sample

abbrev pub store_of-IsStore : (codec : Codec) → IsStore (store_of codec) codec
store_of-IsStore codec = record {
  contents = λ s key. get key s;
  IsSound = λ s. Unit;
  get_eq = λ key s sound k. refl;
  get_authored_eq = λ key s sound k. refl;
  put_eq =
      λ key value h s sound k e. record { sound = tt; contents_eq = λ j. get-insert key j value s };
  put_blob_eq =
      λ key value h s sound k e. record { sound = tt; contents_eq = λ j. get-insert key j value s };
}

abbrev accepts : AcceptsWrites map_store sample
accepts = (λ key value s. refl, λ key value s. refl)

commit_revision_lem_example :
    ((commit_revision map_store sample base []).0 ≡ ok (text "hrevision"))
    × (get
          (head_key (text "note002") (text "device-a"))
          (commit_revision map_store sample base []).1
        ≡ some (text "head"))
    × ((get_revision map_store sample
          (text "note002")
          (text "hrevision")
          (commit_revision map_store sample base []).1).0
        ≡ ok (some base))
unfolding validate_revision validate_schema validate_relative_path is_invalid_path components
    validate_value Id.is_valid compare_lists
commit_revision_lem_example =
    commit_revision_lem map_store sample (store_of-IsStore sample) base (text "revision")
      (text "head") [] tt accepts refl refl (refl, refl) refl refl

abbrev with_asset : Store
with_asset = (text "asset-blob/logo", text "png") ∷ (text "asset/logo", text "asset") ∷ []

refused_asset_breaks_stored_example :
    ((put_asset map_store sample
        (text "logo")
        []
        (text "assets/logo.png")
        (text "gif")
        with_asset).0
      ≡ err (domain (empty_field (text "mime"))))
    × ((get_asset map_store sample
          (text "logo")
          (put_asset map_store sample
            (text "logo")
            []
            (text "assets/logo.png")
            (text "gif")
            with_asset).1).0
        ≡ err (blob_mismatch (text "logo")))
unfolding validate_asset validate_schema validate_relative_path is_invalid_path components
    compare_lists get
refused_asset_breaks_stored_example =
    refused_asset_breaks_stored map_store sample (store_of-IsStore sample) (text "logo") asset []
      (text "assets/logo.png") (text "gif") (empty_field (text "mime")) with_asset tt accepts
      (text "asset", refl, refl, refl, refl) refl (λ e. ground (arith, e))

abbrev bad : AuthoredValue
bad = record {
  key = text "note/note002/revision/other";
  value = text "revision";
  author = text "device-a";
}

abbrev good : AuthoredValue
good = record {
  key = text "note/note002/head/device-a";
  value = text "head";
  author = text "device-a";
}

gather_lem_example :
    group_of (get (text "note002") (gather sample (λ e. []) (bad ∷ good ∷ []) [] []).0)
    ≡ own_records sample (text "note002") (bad ∷ good ∷ []) no_records
unfolding get
gather_lem_example = gather_lem sample (λ e. []) (bad ∷ good ∷ []) [] [] (text "note002")

abbrev config : ConfigRevision
config = record {
  schema = 1;
  path = text "xo.scm";
  blob_hash = text "h(all)";
  size = 5;
  hlc = at_time 3;
  author_id = text "device-a";
  predecessors = [];
}

abbrev with_config : Codec
with_config = record sample { read_config = λ bytes. ok config }

abbrev configs : Store
configs =
    (text "config-blob/hxo.scm", text "(all)") ∷ (text "config/xo.scm/hxo.scm", text "config") ∷ []

abbrev config_entry : AuthoredValue
config_entry = record {
  key = text "config/xo.scm/hxo.scm";
  value = text "config";
  author = text "device-a";
}

abbrev projected : ProjectedConfig
projected = record { revision_id = text "hxo.scm"; config = config; bytes = text "(all)" }

config_reads : Reads map_store with_config configs (config_entry ∷ []) (projected ∷ []) configs
unfolding read_config get validate_config config_id config_canonical_bytes validate_schema
    validate_relative_path is_invalid_path components compare_lists verify_author ◌>>=◌
config_reads = next refl done

list_configs_latest_example :
    (listed : List ProjectedConfig) × (list_configs map_store with_config configs
      ≡ (ok listed, configs))
    × (w : ProjectedConfig) × In w listed
    × In w (projected ∷ [])
    × (w.config.path ≡ text "xo.scm")
    × (is_later projected w ≡ false)
list_configs_latest_example =
    list_configs_latest map_store with_config configs configs configs (config_entry ∷ [])
      (projected ∷ []) projected refl config_reads (inl refl)
