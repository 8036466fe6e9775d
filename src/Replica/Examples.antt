-- ===== src/Replica/Examples.antt =====
-- A document that is a map, and the theorems on the replica at it.
use exokephalos.Prelude.{
  ℕ, zero, suc, List, ap, ◌≡◌, refl, sym, subst, ◌↔◌, inl, inr, true, ◌&&◌, map, In, Bool-cases,
  none, some, [], ◌∷◌, arith, if◌then◌else◌,
}
use exokephalos.Prelude.Effect.{◌>>=◌}
use exokephalos.Prelude.Map.{BTreeMap, get, insert, get-insert, keys, IsAscending}
use exokephalos.Prelude.Order.{same, same_iff, compare_lists}
use exokephalos.Prelude.Result.{Result, ok}
use exokephalos.Prelude.Text.{Text, text, text_ord, starts_with}
use exokephalos.Records.Examples.{sample}
use exokephalos.Replica.Listing.{list_records_lem, with_author}
use exokephalos.Replica.Open.{AutomergeFiles}
use exokephalos.Replica.Reopen.{IsDurable}
use exokephalos.Replica.Store.{
  IsDocument, bytes_of, IsBytes, put_record_lem, replica_workspace-IsStore,
}
use exokephalos.Replica.{
  Value, bytes, str, uint, object, Automerge, DiskFaults, Replica, content_changed, put_record,
  persistent_put, store_put, flush, replica_workspace, scan, scan_keys, store_get, list_records,
  list_authored_records,
}
use exokephalos.Workspace.Laws.{IsStore, is_record_key}

abbrev pub Document : Type 0
Document = BTreeMap Text Value

-- The file of a document: its texts one after the other, each ended by a zero.
abbrev pub add_text : Text → Text → Text
add_text [] rest = 0 ∷ rest
add_text (c ∷ s) rest = suc c ∷ add_text s rest

abbrev pub onto_first : ℕ → List Text → List Text
onto_first c [] = (c ∷ []) ∷ []
onto_first c (s ∷ rest) = (c ∷ s) ∷ rest

abbrev pub split_texts : Text → List Text
split_texts [] = []
split_texts (zero ∷ s) = [] ∷ split_texts s
split_texts (suc c ∷ s) = onto_first c (split_texts s)

split_texts-add_text : (s rest : Text) → split_texts (add_text s rest) ≡ s ∷ split_texts rest
split_texts-add_text [] rest = refl
split_texts-add_text (c ∷ s) rest = rw (split_texts-add_text s rest) refl

abbrev pub value_text : Value → Text
value_text (bytes b) = 0 ∷ b
value_text (str s) = 1 ∷ s
value_text (uint n) = 2 ∷ n ∷ []
value_text object = 3 ∷ []

abbrev pub value_of : Text → Value
value_of (zero ∷ b) = bytes b
value_of (suc zero ∷ s) = str s
value_of (suc (suc zero) ∷ n ∷ s) = uint n
value_of s = object

value_of-value_text : (v : Value) → value_of (value_text v) ≡ v
value_of-value_text (bytes b) = refl
value_of-value_text (str s) = refl
value_of-value_text (uint n) = refl
value_of-value_text object = refl

abbrev pub file_of : Document → Text
file_of [] = []
file_of ((key, v) ∷ d) = add_text key (add_text (value_text v) (file_of d))

abbrev pub entries : List Text → Document
entries [] = []
entries (key ∷ []) = []
entries (key ∷ v ∷ rest) = (key, value_of v) ∷ entries rest

entries-file_of : (d : Document) → entries (split_texts (file_of d)) ≡ d
entries-file_of [] = refl
entries-file_of ((key, v) ∷ d) =
    rw
      (
        split_texts-add_text key (add_text (value_text v) (file_of d)),
        split_texts-add_text (value_text v) (file_of d),
        value_of-value_text v,
        entries-file_of d,
      )
      refl

abbrev pub map_document : Automerge Document
map_document = record {
  put = λ key v d. ok (insert key v d);
  commit = λ d. d;
  get = λ key d. ok (get key d);
  keys = λ d. keys d;
  save = file_of;
}

pub get_put :
    {E : Type 0} (key : Text) (v : Value) (d e : Document) (j : Text) (r : Result E Document)
    → r ≡ ok (insert key v d)
    → r ≡ ok e
    → get j e ≡ (if same key j then some v else get j d)
get_put key v d e j r put done = ground (arith, put, done, get-insert key j v d)

pub keys_iff : (key : Text) (d : Document) → In key (keys d) ↔ ((v : Value) × (get key d ≡ some v))
unfolding get
keys_iff key [] = (λ h. absurd h, λ (v, e). absurd (ground (arith, e)))
keys_iff key ((j, w) ∷ d) =
    let (to, from) = keys_iff key d in
    elim (Bool-cases (same j key)) [
      | inl e ↦ (λ h. (w, rw e refl), λ h. inl (sym ((same_iff j key).0 e)))
      | inr e ↦ (
        λ h. elim h [
          | inl here ↦ absurd (ground (arith, e, (same_iff j key).1 (sym here)))
          | inr there ↦ let (v, f) = to there in (v, rw e f)
        ],
        λ (v, f). inr (from (v, (rw e at f))),
      )
    ]

abbrev pub map_document-IsDocument : IsDocument map_document
map_document-IsDocument = record {
  view = λ d key. get key d;
  doc_get_eq = λ key d. refl;
  doc_put_eq = λ key v d e j done. get_put key v d e j _ refl done;
  doc_keys_iff = keys_iff;
  doc_commit_eq = λ d j. refl;
}

abbrev pub map_files : AutomergeFiles Document
map_files = record {
  new_with_actor = λ actor. [];
  load_document = λ content. ok (entries (split_texts content));
  set_actor = λ actor d. d;
}

pub map_files-IsDurable : IsDurable map_document map_document-IsDocument map_files
map_files-IsDurable = record {
  load_eq = λ d. (d, ap (λ e. ok e) (entries-file_of d), λ key. refl);
  actor_eq = λ actor d key. refl;
}

abbrev empty : Replica Document
empty = record { document = []; saved = none; events = []; connected_clients = [] }

abbrev no_faults : DiskFaults
no_faults = record { writing = none; syncing = none }

abbrev disk_full : DiskFaults
disk_full = record { writing = some (text "disk full"); syncing = none }

abbrev hash : Text → Text
hash content = b'h' ∷ content

-- The records of a scan, without the store's own.
scan_test :
    scan map_document
      (text "note/")
      ((text "$xo.schema", str (text "1")) ∷ (text "note/a", bytes (text "x")) ∷ [])
    ≡ ok ((text "note/a", text "x") ∷ [])
unfolding scan scan_keys store_get get insert compare_lists
scan_test = refl

put_record_lem_example :
    (d : Document) × (map_document.put (text "note/a") (bytes (text "x")) [] ≡ ok d)
    × (text "hx" ≡ hash (text "x"))
    × ((put_record map_document
          (λ e. [])
          no_faults
          hash
          (text "device-a")
          sample
          (text "note/a")
          (text "x")
          empty).1
        ≡ record empty { document = d; saved = some (file_of d); events = content_changed ∷ [] })
unfolding put_record persistent_put store_put flush ◌>>=◌
put_record_lem_example =
    put_record_lem map_document map_document-IsDocument (λ e. []) no_faults hash (text "device-a")
      sample (text "note/a") (text "x") (text "hx") empty refl

replica_workspace-IsStore_example :
    (store : IsStore
      (replica_workspace map_document (λ e. []) disk_full hash (text "device-a") sample)
      sample)
    × ((s : Replica Document) (key : Text) → store.contents s key ≡ bytes_of (get key s.document))
    × ((s : Replica Document)
        → store.IsSound s
          ↔ ((key : Text) → is_record_key key ≡ true → IsBytes (get key s.document)))
replica_workspace-IsStore_example =
    replica_workspace-IsStore map_document map_document-IsDocument (λ e. []) disk_full hash
      (text "device-a") sample

-- The store's own schema, a note's record and an asset.
abbrev two_records : Replica Document
two_records = record empty {
  document =
      (text "$xo.schema", uint 1)
      ∷ (text "blob/b", bytes (text "y"))
      ∷ (text "note/a", bytes (text "x"))
      ∷ [];
}

two_records-IsSound :
    (key : Text) → is_record_key key ≡ true → IsBytes (get key two_records.document)
unfolding get
two_records-IsSound key k = elim (Bool-cases (same (text "$xo.schema") key)) [
  | inl e ↦
      absurd
        (own (subst (λ j. is_record_key j ≡ true) (sym ((same_iff (text "$xo.schema") key).0 e)) k))
  | inr e ↦ elim (Bool-cases (same (text "blob/b") key)) [
    | inl f ↦ rw (e, f) tt
    | inr f ↦ elim (Bool-cases (same (text "note/a") key)) [
      | inl g ↦ rw (e, f, g) tt
      | inr g ↦ rw (e, f, g) tt
    ]
  ]
]
  where
    own : is_record_key (text "$xo.schema") ≡ true → ⊥
    own h = ground (arith, h)

list_records_lem_example :
    (m : BTreeMap Text Text) × (list_records map_document
        (λ e. [])
        no_faults
        hash
        (text "device-a")
        sample
        (text "note/")
        two_records
      ≡ (ok m, two_records))
    × (list_authored_records map_document
          (λ e. [])
          no_faults
          hash
          (text "device-a")
          sample
          (text "note/")
          two_records
        ≡ (ok (map (with_author (text "device-a") sample) m), two_records))
    × IsAscending m
    × ((key : Text)
        → get key m ≡ (
            if is_record_key key && starts_with (text "note/") key
            then bytes_of (get key two_records.document)
            else none))
list_records_lem_example =
    list_records_lem map_document map_document-IsDocument (λ e. []) no_faults hash (text "device-a")
      sample (text "note/") two_records two_records-IsSound
