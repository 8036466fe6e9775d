-- ===== src/Records/Isolation.antt =====
-- The records of one note in the first loop of `snapshot` of records.rs.
use exokephalos.Prelude.{
  ◌≡◌, refl, sym, ◌∙◌, ap, inl, inr, Bool, false, Option, none, some, List, [], ◌∷◌, Bool-cases,
  Option-cases, if◌then◌else◌,
}
use exokephalos.Prelude.Map.{get, insert, get-insert}
use exokephalos.Prelude.Order.{same, same_iff}
use exokephalos.Prelude.Result.{Result, ok, err, Result-cases}
use exokephalos.Prelude.Text.{Text, text_ord}
use exokephalos.Domain.{NoteId}
use exokephalos.Projection.Disk.{Diagnostic}
use exokephalos.Records.Decode.{NoteRecords, decode_record}
use exokephalos.Records.Keys.{RecordError, note_id_from_key}
use exokephalos.Records.Snapshot.{Groups, group_of, gather}
use exokephalos.Workspace.{AuthoredValue, Codec}

-- The group with a record's content, or as it was if the record is bad.
abbrev pub accepted : Result RecordError NoteRecords → NoteRecords → NoteRecords
accepted (ok group') group = group'
accepted (err e) group = group

abbrev pub is_of : Option NoteId → NoteId → Bool
is_of none id = false
is_of (some n) id = same n id

insert_own :
    (f : NoteId → NoteRecords → NoteRecords) (n id : NoteId) (groups : Groups)
    → group_of (get id (insert n (f n (group_of (get n groups))) groups))
      ≡ (if same n id then f id (group_of (get id groups)) else group_of (get id groups))
insert_own f n id groups = elim (Bool-cases (same n id)) [
  | inl s ↦
      rw (get-insert n id (f n (group_of (get n groups))) groups, s)
        (ap (λ k. f k (group_of (get k groups))) ((same_iff n id).0 s))
  | inr s ↦ rw (get-insert n id (f n (group_of (get n groups))) groups, s) refl
]

module _ (codec : Codec) where
  -- The records of one note: those of its own entries that decode, in the order of the entries.
  abbrev pub own_records : NoteId → List AuthoredValue → NoteRecords → NoteRecords
  own_records id [] group = group
  own_records id (entry ∷ entries) group = own_records id entries (
      if is_of (note_id_from_key entry.key) id
      then accepted (decode_record codec entry.key entry.value entry.author id group) group
      else group)

  module _ (display : RecordError → Text) where
    -- In a snapshot, a note has exactly the records of its own entries that decode: no record of
    -- another note, no bad record and no bad key has a part in them.
    pub gather_lem :
        (entries : List AuthoredValue) (groups : Groups) (diagnostics : List Diagnostic)
        (id : NoteId)
        → group_of (get id (gather codec display entries groups diagnostics).0)
          ≡ own_records id entries (group_of (get id groups))
    unfolding gather
    gather_lem [] groups diagnostics id = refl
    gather_lem (entry ∷ entries) groups diagnostics id =
        elim (Option-cases (note_id_from_key entry.key)) [
          | inl e ↦ rw (gather, e) (gather_lem entries groups _ id)
          | inr (n, e) ↦
              let taken : NoteId → NoteRecords → NoteRecords =
                λ k g. accepted (decode_record codec entry.key entry.value entry.author k g) g in
              let own = insert_own taken n id groups in
              elim (Result-cases (
                decode_record codec entry.key entry.value entry.author n
                  (group_of (get n groups)))) [
                    | inl (g, d) ↦
                        rw (gather, e, d)
                          (gather_lem entries (insert n g groups) diagnostics id
                            ∙ ap (own_records id entries) (
                                ap
                                  (λ r. group_of (
                                    get id
                                      (insert n (accepted r (group_of (get n groups))) groups)))
                                  (sym d)
                                ∙ own))
                    | inr (x, d) ↦
                        rw (gather, e, d)
                          (gather_lem entries (insert n (group_of (get n groups)) groups) _ id
                            ∙ ap (own_records id entries) (
                                ap
                                  (λ r. group_of (
                                    get id
                                      (insert n (accepted r (group_of (get n groups))) groups)))
                                  (sym d)
                                ∙ own))
                  ]
        ]
