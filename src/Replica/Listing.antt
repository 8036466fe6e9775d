-- ===== src/Replica/Listing.antt =====
-- The listings of central_replica.rs: what they show of a document.
use exokephalos.Prelude.{
  ◌≡◌, refl, sym, ◌∙◌, ap, subst, inl, inr, Bool, true, false, ◌&&◌, map, Option, none, some, [],
  ◌∷◌, arith, if◌then◌else◌, Option-cases, Bool-cases, List, In,
}
use exokephalos.Prelude.Effect.{◌>>=◌}
use exokephalos.Prelude.Map.{BTreeMap, get, insert, get-insert, insert-IsAscending, IsAscending}
use exokephalos.Prelude.Order.{same, same_iff, contains, contains_iff}
use exokephalos.Prelude.Result.{ok}
use exokephalos.Prelude.Text.{Text, text_ord, starts_with}
use exokephalos.Domain.{ActorId}
use exokephalos.Replica.Store.{IsDocument, bytes_of, IsBytes, IsSound, contents}
use exokephalos.Replica.{
  Value, bytes, str, uint, object, Automerge, StoreError, Replica, DiskFaults, store_get,
  is_scanned, scan_keys, scan, list_authored_records, list_records,
}
use exokephalos.Workspace.Laws.{is_record_key, or_else}
use exokephalos.Workspace.{Codec, AuthoredValue, record_author}

abbrev pub with_author : ActorId → Codec → Text × Text → AuthoredValue
with_author actor codec e = record {
  key = e.0;
  value = e.1;
  author = or_else actor (record_author codec e.0 e.1);
}

module _ {D : Type 0} (doc : Automerge D) (is_doc : IsDocument doc) (display : StoreError → Text)
    (faults : DiskFaults) (hash : Text → Text) (actor : ActorId) (codec : Codec) where
  -- What a listing under a prefix shows of a key.
  abbrev pub listed : Text → Replica D → Text → Option Text
  listed prefix s key =
      if is_record_key key && starts_with prefix key
      then contents doc is_doc display faults hash actor codec s key
      else none

  bytes_there :
      (key : Text) (v : Value) (w : Option Value)
      → IsBytes w
      → w ≡ some v
      → (b : Text) × (w ≡ some (bytes b))
  bytes_there key (bytes b) w h e = (b, e)
  bytes_there key (str x) w h e = absurd (subst IsBytes e h)
  bytes_there key (uint n) w h e = absurd (subst IsBytes e h)
  bytes_there key object w h e = absurd (subst IsBytes e h)

  -- What a scan has of a key after the keys in `seen`.
  abbrev so_far : Text → Replica D → List Text → Text → Option Text
  so_far prefix s seen key = if contains seen key then listed prefix s key else none

  so_far_skipped :
      (prefix : Text) (s : Replica D) (x : Text) (seen : List Text) (key : Text)
      → is_scanned doc prefix x ≡ false
      → so_far prefix s (x ∷ seen) key ≡ so_far prefix s seen key
  so_far_skipped prefix s x seen key skipped = elim (Bool-cases (same key x)) [
    | inr other ↦ rw other refl
    | inl e ↦
        subst (λ k. so_far prefix s (x ∷ seen) k ≡ so_far prefix s seen k)
          (sym ((same_iff key x).0 e)) (ground (arith, skipped))
  ]

  so_far_taken :
      (prefix : Text) (s : Replica D) (x b : Text) (seen : List Text) (key : Text)
      → is_scanned doc prefix x ≡ true
      → contents doc is_doc display faults hash actor codec s x ≡ some b
      → so_far prefix s (x ∷ seen) key ≡ (if same x key then some b else so_far prefix s seen key)
  so_far_taken prefix s x b seen key taken held = elim (Bool-cases (same x key)) [
    | inr other ↦ ground (arith, other, same_iff key x, same_iff x key)
    | inl e ↦
        subst
          (λ k.
            so_far prefix s (x ∷ seen) k ≡ (if same x k then some b else so_far prefix s seen k))
          ((same_iff x key).0 e) (ground (arith, taken, held, (same_iff x x).1 refl))
  ]

  and_left : (a b : Bool) → a && b ≡ true → a ≡ true
  and_left true b h = refl
  and_left false b h = h

  store_get_lem :
      (key b : Text) (d : D)
      → is_doc.view d key ≡ some (bytes b)
      → store_get doc key d ≡ ok (some b)
  unfolding store_get
  store_get_lem key b d e = rw (store_get, is_doc.doc_get_eq key d, e) refl

  scan_taken :
      (prefix x b : Text) (d : D) (seen : List Text) (m : BTreeMap Text Text)
      → is_scanned doc prefix x ≡ true
      → store_get doc x d ≡ ok (some b)
      → scan_keys doc prefix d seen ≡ ok m
      → scan_keys doc prefix d (x ∷ seen) ≡ ok (insert x b m)
  unfolding scan_keys
  scan_taken prefix x b d seen m taken got ran = rw (taken, got, ran) refl

  scan_keys_lem :
      (prefix : Text) (s : Replica D) (seen : List Text)
      → IsSound doc is_doc display faults hash actor codec s
      → ((key : Text) → In key seen → (v : Value) × (is_doc.view s.document key ≡ some v))
      → (m : BTreeMap Text Text) × (scan_keys doc prefix s.document seen ≡ ok m)
        × IsAscending m
        × ((key : Text) → get key m ≡ so_far prefix s seen key)
  unfolding scan_keys get
  scan_keys_lem prefix s [] sound there = ([], refl, tt, λ key. refl)
  scan_keys_lem prefix s (x ∷ seen) sound there =
      let (m, ran, ascends, holds) =
        scan_keys_lem prefix s seen sound (λ key i. there key (inr i)) in
      elim (Bool-cases (is_scanned doc prefix x)) [
        | inr skipped ↦ (
          m,
          rw skipped ran,
          ascends,
          λ key. holds key ∙ sym (so_far_skipped prefix s x seen key skipped),
        )
        | inl taken ↦
            let (v, has) = there x (inl refl) in
            let (b, found_bytes) =
              bytes_there x v (is_doc.view s.document x)
                (sound x (and_left (is_record_key x) _ taken)) has in
            (
              insert x b m,
              scan_taken prefix x b s.document seen m taken
                  (store_get_lem x b s.document found_bytes) ran,
              insert-IsAscending x b m ascends,
              λ key.
                  get-insert x key b m
                  ∙ ap (λ t. if same x key then some b else t) (holds key)
                  ∙ sym (so_far_taken prefix s x b seen key taken (ap bytes_of found_bytes)),
            )
      ]

  -- All keys of the document are seen.
  so_far_all :
      (prefix : Text) (s : Replica D) (key : Text)
      → so_far prefix s (doc.keys s.document) key ≡ listed prefix s key
  so_far_all prefix s key =
      let (to, from) = is_doc.doc_keys_iff key s.document in
      elim (Bool-cases (contains (doc.keys s.document) key)) [
        | inl e ↦ rw e refl
        | inr e ↦ elim (Option-cases (is_doc.view s.document key)) [
          | inl absent ↦ rw (e, absent) (sym (if_none (is_scanned doc prefix key)))
          | inr (v, has) ↦
              absurd (ground (arith, e, (contains_iff (doc.keys s.document) key).1 (from (v, has))))
        ]
      ]
    where
      if_none : (b : Bool) → ◌≡◌ {A = Option Text} (if b then none else none) none
      if_none true = refl
      if_none false = refl

  scan_lem :
      (prefix : Text) (s : Replica D)
      → IsSound doc is_doc display faults hash actor codec s
      → (m : BTreeMap Text Text) × (scan doc prefix s.document ≡ ok m)
        × IsAscending m
        × ((key : Text) → get key m ≡ listed prefix s key)
  unfolding scan
  scan_lem prefix s sound =
      let (m, ran, ascends, holds) =
        scan_keys_lem prefix s (doc.keys s.document) sound
          (λ key i. (is_doc.doc_keys_iff key s.document).0 i) in
      (m, ran, ascends, λ key. holds key ∙ so_far_all prefix s key)

  without_author :
      (m : List (Text × Text))
      → map (λ (e : AuthoredValue). (e.key, e.value)) (map (with_author actor codec) m) ≡ m
  without_author [] = refl
  without_author (e ∷ m) = ap (λ l. e ∷ l) (without_author m)

  -- On a document whose records are bytes, listing under a prefix does not fail and changes nothing:
  -- it returns, in ascending order of the keys and each once, exactly the keys of records that begin
  -- with the prefix and hold something, with what they hold; the authored listing returns the same
  -- entries with the author that each record names, and else the replica's own.
  pub list_records_lem :
      (prefix : Text) (s : Replica D)
      → IsSound doc is_doc display faults hash actor codec s
      → (m : BTreeMap Text Text) × (list_records doc display faults hash actor codec prefix s
          ≡ (ok m, s))
        × (list_authored_records doc display faults hash actor codec prefix s
            ≡ (ok (map (with_author actor codec) m), s))
        × IsAscending m
        × ((key : Text)
            → get key m ≡ (
                if is_record_key key && starts_with prefix key
                then bytes_of (is_doc.view s.document key)
                else none))
  unfolding list_records list_authored_records ◌>>=◌
  list_records_lem prefix s sound =
      let (m, ran, ascends, holds) = scan_lem prefix s sound in
      (
        m,
        rw (list_records, list_authored_records, ran, without_author m) refl,
        rw (list_authored_records, ran) refl,
        ascends,
        holds,
      )
