-- ===== src/Workspace/Laws.antt =====
-- What records.rs relies on in a workspace, as laws of the interface of record_workspace.rs.
use exokephalos.Prelude.{◌≡◌, Bool, true, not, Option, none, some, if◌then◌else◌}
use exokephalos.Prelude.Order.{same}
use exokephalos.Prelude.Result.{ok}
use exokephalos.Prelude.Text.{Text, text, text_ord, starts_with}
use exokephalos.Domain.{ActorId}
use exokephalos.Workspace.{Workspace, AuthoredValue, Codec, record_author}

abbrev pub or_else : ActorId → Option ActorId → ActorId
or_else actor none = actor
or_else actor (some a) = a

abbrev pub authored : ActorId → Codec → Text → Option Text → Option AuthoredValue
authored actor codec key none = none
authored actor codec key (some value) =
    some
      (record { key = key; value = value; author = or_else actor (record_author codec key value) })

-- The keys that records may have; those that begin with `$xo.` are the store's own.
abbrev pub is_record_key : Text → Bool
is_record_key key = not (starts_with (text "$xo.") key)

-- After a write, the key has the value and every other key what it had.
pub record Wrote {W : Type 0} (contents : W → Text → Option Text) (IsSound : W → Type 0)
    (key value : Text) (s t : W) : Type 0 where
  pub sound : IsSound t
  pub contents_eq : (j : Text) → contents t j ≡ (if same key j then some value else contents s j)

-- `contents` is what the workspace holds; reading changes nothing and does not fail, and what was
-- put is what is read, with the author that the record names. All this is asked of sound states,
-- and of the keys of records.
pub record IsStore {W : Type 0} (w : Workspace W) (codec : Codec) : Type 1 where
  pub contents : W → Text → Option Text
  pub IsSound : W → Type 0
  pub get_eq :
      (key : Text) (s : W)
      → IsSound s
      → is_record_key key ≡ true
      → w.get_record key s ≡ (ok (contents s key), s)
  pub get_authored_eq :
      (key : Text) (s : W)
      → IsSound s
      → is_record_key key ≡ true
      → w.get_authored_record key s
        ≡ (ok (authored w.record_actor_id codec key (contents s key)), s)
  pub put_eq :
      (key value h : Text) (s : W)
      → IsSound s
      → is_record_key key ≡ true
      → (w.put_record key value s).0 ≡ ok h
      → Wrote contents IsSound key value s (w.put_record key value s).1
  pub put_blob_eq :
      (key value h : Text) (s : W)
      → IsSound s
      → is_record_key key ≡ true
      → (w.put_blob_record key value s).0 ≡ ok h
      → Wrote contents IsSound key value s (w.put_blob_record key value s).1

-- No write fails.
abbrev pub AcceptsWrites : {W : Type 0} → Workspace W → Codec → Type 0
AcceptsWrites {W = W} w codec =
    ((key value : Text) (s : W) → (w.put_record key value s).0 ≡ ok (codec.encoding.hash value))
    × ((key value : Text) (s : W)
        → (w.put_blob_record key value s).0 ≡ ok (codec.encoding.hash value))
