-- ===== src/Records/Assets.antt =====
-- `put_asset` and `get_asset` of records.rs together.
use exokephalos.Prelude.{◌≡◌, ◌≢◌, refl, ◌∙◌, ap, false, some, arith, length, ==_iff}
use exokephalos.Prelude.Effect.{◌>>=◌}
use exokephalos.Prelude.Order.{same, same_iff, compare_lists}
use exokephalos.Prelude.Result.{ok, err}
use exokephalos.Prelude.Text.{Text, text_ord}
use exokephalos.Domain.{AssetId, AssetRecord, DomainError, current_schema, validate_asset}
use exokephalos.Records.Keys.{domain, blob_mismatch, asset_key, asset_blob_key}
use exokephalos.Records.{put_asset, get_asset, check_blob}
use exokephalos.Workspace.{Workspace, Codec}
use exokephalos.Workspace.Laws.{IsStore, Wrote, AcceptsWrites}

keys_differ : (id : AssetId) → same (asset_key id) (asset_blob_key id) ≡ false
unfolding compare_lists
keys_differ id = refl

blob_keys_differ : (id : AssetId) → same (asset_blob_key id) (asset_key id) ≡ false
unfolding compare_lists
blob_keys_differ id = refl

module _ {W : Type 0} (w : Workspace W) (codec : Codec) (store : IsStore w codec) where
  -- The record that `put_asset` makes.
  abbrev pub made : AssetId → Text → Text → Text → AssetRecord
  made id mime path bytes = record {
    schema = current_schema;
    id = id;
    blob_hash = codec.encoding.hash bytes;
    mime = mime;
    size = length bytes;
    materialized_path = path;
  }

  -- The record of an asset is stored and well formed.
  abbrev pub Listed : AssetId → AssetRecord → W → Type 0
  Listed id asset s =
      (value : Text) × (store.contents s (asset_key id) ≡ some value)
      × (codec.read_asset value ≡ ok asset)
      × (validate_asset asset ≡ ok tt)
      × (asset.id ≡ id)

  get_asset_lem :
      (id : AssetId) (asset : AssetRecord) (s : W)
      → store.IsSound s
      → Listed id asset s
      → (get_asset w codec id s).0
        ≡ check_blob w codec id asset (store.contents s (asset_blob_key id))
  unfolding get_asset ◌>>=◌
  get_asset_lem id asset s sound (value, found, read, valid, own) = ground (
    arith,
    store.get_eq (asset_key id) s sound refl,
    store.get_eq (asset_blob_key id) s sound refl,
    same_iff asset.id id,
    found,
    read,
    valid,
    own,
  )

  -- The state between the two writes of `put_asset`.
  abbrev with_blob : AssetId → Text → W → W
  with_blob id bytes s = (w.put_blob_record (asset_blob_key id) bytes s).1

  with_blob_lem :
      (id : AssetId) (bytes : Text) (s : W)
      → store.IsSound s
      → AcceptsWrites w codec
      → Wrote store.contents store.IsSound (asset_blob_key id) bytes s (with_blob id bytes s)
  with_blob_lem id bytes s sound accepts =
      store.put_blob_eq (asset_blob_key id) bytes (codec.encoding.hash bytes) s sound refl
        (accepts.1 (asset_blob_key id) bytes s)

  put_asset_lem :
      (id : AssetId) (mime path bytes encoded : Text) (s : W)
      → store.IsSound s
      → AcceptsWrites w codec
      → validate_asset (made id mime path bytes) ≡ ok tt
      → codec.write_asset (made id mime path bytes) ≡ ok encoded
      → ((put_asset w codec id mime path bytes s).0 ≡ ok (made id mime path bytes))
        × Wrote store.contents store.IsSound
            (asset_key id)
            encoded
            (with_blob id bytes s)
            (put_asset w codec id mime path bytes s).1
  unfolding put_asset ◌>>=◌
  put_asset_lem id mime path bytes encoded s sound accepts valid written =
      let put_blob = accepts.1 (asset_blob_key id) bytes s in
      let t = with_blob id bytes s in
      let put = accepts.0 (asset_key id) encoded t in
      (
        rw (put_blob, valid, written, put) refl,
        rw (put_blob, valid, written, put)
            (store.put_eq (asset_key id) encoded (codec.encoding.hash encoded) t
              (with_blob_lem id bytes s sound accepts).sound refl put),
      )

  -- Put an asset whose record is valid on a workspace that accepts writes, where the encoder reads
  -- back what it wrote. Then the asset is found under its identifier with the same bytes.
  pub get_asset-put_asset :
      (id : AssetId) (mime path bytes encoded : Text) (s : W)
      → store.IsSound s
      → AcceptsWrites w codec
      → validate_asset (made id mime path bytes) ≡ ok tt
      → codec.write_asset (made id mime path bytes) ≡ ok encoded
      → codec.read_asset encoded ≡ ok (made id mime path bytes)
      → ((put_asset w codec id mime path bytes s).0 ≡ ok (made id mime path bytes))
        × ((get_asset w codec id (put_asset w codec id mime path bytes s).1).0
            ≡ ok (some (record { asset = made id mime path bytes; bytes = bytes })))
  get_asset-put_asset id mime path bytes encoded s sound accepts valid written read =
      let asset = made id mime path bytes in
      let (put, wrote) = put_asset_lem id mime path bytes encoded s sound accepts valid written in
      let wrote_blob = with_blob_lem id bytes s sound accepts in
      let t = (put_asset w codec id mime path bytes s).1 in
      let key = asset_key id in
      let blob_key = asset_blob_key id in
      let found : store.contents t key ≡ some encoded =
        ground (arith, wrote.contents_eq key, same_iff key key) in
      let blob : store.contents t blob_key ≡ some bytes = ground (
        arith,
        wrote.contents_eq blob_key,
        keys_differ id,
        wrote_blob.contents_eq blob_key,
        same_iff blob_key blob_key,
      ) in
      (
        put,
        get_asset_lem id asset t wrote.sound (encoded, found, read, valid, refl)
            ∙ ap (check_blob w codec id asset) blob
            ∙ ground (
              arith,
              ==_iff (length bytes) (length bytes),
              same_iff (codec.encoding.hash bytes) (codec.encoding.hash bytes),
            ),
      )

  -- Take a stored asset with a valid record, and put other bytes under its identifier with a media
  -- type or path that makes a record that is refused. The call returns an error, and yet the stored
  -- asset is lost: reading it fails from then on, since its bytes were replaced before the check.
  pub refused_asset_breaks_stored :
      (id : AssetId) (asset : AssetRecord) (mime path bytes : Text) (e : DomainError) (s : W)
      → store.IsSound s
      → AcceptsWrites w codec
      → Listed id asset s
      → validate_asset (made id mime path bytes) ≡ err e
      → codec.encoding.hash bytes ≢ asset.blob_hash
      → ((put_asset w codec id mime path bytes s).0 ≡ err (domain e))
        × ((get_asset w codec id (put_asset w codec id mime path bytes s).1).0
            ≡ err (blob_mismatch id))
  unfolding put_asset ◌>>=◌
  refused_asset_breaks_stored id asset mime path bytes e s sound accepts
        (value, found, read, valid, own) invalid other =
      let key = asset_key id in
      let blob_key = asset_blob_key id in
      let wrote = with_blob_lem id bytes s sound accepts in
      let t = with_blob id bytes s in
      let still : store.contents t key ≡ some value =
        ground (arith, wrote.contents_eq key, blob_keys_differ id, found) in
      let blob : store.contents t blob_key ≡ some bytes =
        ground (arith, wrote.contents_eq blob_key, same_iff blob_key blob_key) in
      let reading =
        get_asset_lem id asset t wrote.sound (value, still, read, valid, own)
        ∙ ap (check_blob w codec id asset) blob in
      ground (
        arith,
        accepts.1 blob_key bytes s,
        invalid,
        reading,
        same_iff (codec.encoding.hash bytes) asset.blob_hash,
        other,
      )
