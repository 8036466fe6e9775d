-- ===== src/Records/Listing.antt =====
-- The operations of records.rs on assets, configurations and tombstones, and their listings.
use Prim.Native.Nat.{Ordering}
use exokephalos.Prelude.{
  Bool, true, not, ◌&&◌, Option, none, some, List, [], ◌∷◌, is_empty, length, ◌==◌, if◌then◌else◌,
}
use exokephalos.Prelude.Effect.{Effect, return, lift, ◌>>=◌, ◌>>◌}
use exokephalos.Prelude.Map.{BTreeMap, get, insert, values}
use exokephalos.Prelude.Order.{same, then_with, is_gt, nat_ord}
use exokephalos.Prelude.Paths.{split_at}
use exokephalos.Prelude.Result.{Result, ok, err, ensure, map_err}
use exokephalos.Prelude.Set.{BTreeSet}
use exokephalos.Prelude.Sort.{sort_by}
use exokephalos.Prelude.Text.{Text, text, text_ord}
use exokephalos.Domain.{
  RevisionId, AssetId, ConfigRevision, Tombstone, current_schema, validate_config,
  validate_tombstone, config_id,
}
use exokephalos.Hlc.{Hlc, compare_hlc}
use exokephalos.Records.Keys.{
  RecordError, domain, encoding, decoding, key_mismatch, missing_content, content_mismatch,
  asset_prefix, config_prefix, tombstone_prefix, config_key, config_blob_key, tombstone_key,
  verify_author,
}
use exokephalos.Records.{ProjectedAsset, ProjectedConfig, via, ensure_local_author, get_asset}
use exokephalos.Workspace.{Workspace, AuthoredValue, Codec}

abbrev pub asset_of_parts : List Text → Option AssetId
asset_of_parts (p ∷ id ∷ []) = if same p (text "asset") && not (is_empty id) then some id else none
asset_of_parts parts = none

abbrev pub compare_assets : ProjectedAsset → ProjectedAsset → Ordering
compare_assets a b = text_ord.order a.asset.id b.asset.id

-- Whether a configuration is later than the one taken for its path so far.
abbrev pub replaces : ProjectedConfig → Option ProjectedConfig → Bool
replaces candidate none = true
replaces candidate (some current) = is_gt (
    then_with (compare_hlc candidate.config.hlc current.config.hlc)
      (text_ord.order candidate.revision_id current.revision_id))

unfoldable pub take_winner :
    ProjectedConfig → BTreeMap Text ProjectedConfig → BTreeMap Text ProjectedConfig
take_winner candidate winners =
    if replaces candidate (get candidate.config.path winners)
    then insert candidate.config.path candidate winners
    else winners

-- The derived order: field by field.
abbrev pub compare_tombstones : Tombstone → Tombstone → Ordering
compare_tombstones a b = then_with (nat_ord.order a.schema b.schema) (
    then_with (text_ord.order a.target_id b.target_id) (
      then_with (text_ord.order a.author_id b.author_id)
        (then_with (text_ord.order a.revision_id b.revision_id) (compare_hlc a.hlc b.hlc))))

module _ {W : Type 0} (workspace : Workspace W) (codec : Codec) where
  abbrev pub keep_asset : Option ProjectedAsset → List ProjectedAsset → List ProjectedAsset
  keep_asset none assets = assets
  keep_asset (some a) assets = a ∷ assets

  unfoldable pub collect_assets : List (Text × Text) → Effect W RecordError (List ProjectedAsset)
  collect_assets [] = return []
  collect_assets ((key, value) ∷ rest) = elim (asset_of_parts (split_at b'/' key)) [
    | none ↦ collect_assets rest
    | some id ↦ do
      asset ← get_asset workspace codec id
      assets ← collect_assets rest
      return (keep_asset asset assets)
  ]

  unfoldable pub list_assets : Effect W RecordError (List ProjectedAsset)
  list_assets = do
    records ← via (workspace.list_records asset_prefix)
    assets ← collect_assets records
    return (sort_by compare_assets assets)

  unfoldable pub put_config :
      Text → Text → Hlc → BTreeSet RevisionId → Effect W RecordError ProjectedConfig
  put_config path bytes hlc predecessors = do
    ensure_local_author workspace codec hlc.actor_id
    let config : ConfigRevision = record {
      schema = current_schema;
      path = path;
      blob_hash = codec.encoding.hash bytes;
      size = length bytes;
      hlc = hlc;
      author_id = hlc.actor_id;
      predecessors = predecessors;
    }
    id ← lift (map_err domain (config_id codec.encoding config))
    stored_hash ← via (workspace.put_blob_record (config_blob_key id) bytes)
    lift (ensure (same stored_hash config.blob_hash) (content_mismatch config.path))
    encoded ← lift (map_err encoding (codec.encoding.config_bytes config))
    h ← via (workspace.put_record (config_key config id) encoded)
    return (record { revision_id = id; config = config; bytes = bytes })

  abbrev pub check_content :
      RevisionId → ConfigRevision → Option Text → Result RecordError ProjectedConfig
  check_content id config none = err (missing_content config.path)
  check_content id config (some bytes) =
      if length bytes == config.size && same (codec.encoding.hash bytes) config.blob_hash
      then ok (record { revision_id = id; config = config; bytes = bytes })
      else err (content_mismatch config.path)

  unfoldable pub read_config : AuthoredValue → Effect W RecordError ProjectedConfig
  read_config entry = do
    config ← lift (map_err decoding (codec.read_config entry.value))
    lift (map_err domain (validate_config config))
    id ← lift (map_err domain (config_id codec.encoding config))
    lift (ensure (same entry.key (config_key config id)) (key_mismatch entry.key))
    lift (verify_author entry.key config.author_id entry.author)
    blob ← via (workspace.get_record (config_blob_key id))
    lift (check_content id config blob)

  unfoldable pub collect_configs :
      List AuthoredValue
      → BTreeMap Text ProjectedConfig
      → Effect W RecordError (BTreeMap Text ProjectedConfig)
  collect_configs [] winners = return winners
  collect_configs (entry ∷ rest) winners = do
    candidate ← read_config entry
    collect_configs rest (take_winner candidate winners)

  unfoldable pub list_configs : Effect W RecordError (List ProjectedConfig)
  list_configs = do
    entries ← via (workspace.list_authored_records config_prefix)
    winners ← collect_configs entries []
    return (values winners)

  unfoldable pub put_tombstone : Tombstone → Effect W RecordError (Unit {0})
  put_tombstone r = do
    lift (map_err domain (validate_tombstone r))
    ensure_local_author workspace codec r.author_id
    encoded ← lift (map_err encoding (codec.write_tombstone r))
    h ← via (workspace.put_record (tombstone_key r) encoded)
    return tt

  unfoldable pub read_tombstones : List AuthoredValue → Effect W RecordError (List Tombstone)
  read_tombstones [] = return []
  read_tombstones (entry ∷ rest) = do
    r ← lift (map_err decoding (codec.read_tombstone entry.value))
    lift (map_err domain (validate_tombstone r))
    lift (verify_author entry.key r.author_id entry.author)
    records ← read_tombstones rest
    return (r ∷ records)

  unfoldable pub list_tombstones : Effect W RecordError (List Tombstone)
  list_tombstones = do
    entries ← via (workspace.list_authored_records tombstone_prefix)
    records ← read_tombstones entries
    return (sort_by compare_tombstones records)
