-- ===== src/Records/Commit.antt =====
-- What a commit of records.rs leaves in the workspace, and what a refused head leaves.
use exokephalos.Prelude.{
  ◌≡◌, ◌≢◌, refl, ap, ◌⊎◌, inl, inr, true, false, none, some, [], ◌∷◌, ◌++◌, arith, is_empty,
  Bool-cases,
}
use exokephalos.Prelude.Effect.{◌>>=◌}
use exokephalos.Prelude.Order.{same, same_iff}
use exokephalos.Prelude.Result.{ok, err, Result-cases}
use exokephalos.Prelude.Text.{Text, text, text_ord, starts_with}
use exokephalos.Domain.{
  NoteRevision, Head, validate_revision, validate_head, canonical_bytes, revision_id,
}
use exokephalos.Records.Keys.{
  RecordError, domain, missing_revision, author_mismatch, revision_key, head_key, verify_author,
}
use exokephalos.Records.{put_revision, set_head, commit_revision, get_revision, ensure_local_author}
use exokephalos.Workspace.{Workspace, Codec, record_author, contains_text}
use exokephalos.Workspace.Laws.{IsStore, Wrote, AcceptsWrites, authored}

starts_with_append : (p s : Text) → starts_with p (p ++ s) ≡ true
starts_with_append [] s = refl
starts_with_append (c ∷ p) s = ground (arith, starts_with_append p s)

contains_text-append : (p a s : Text) → contains_text p (a ++ p ++ s) ≡ true
unfolding contains_text
contains_text-append [] [] [] = refl
contains_text-append [] [] (c ∷ s) = refl
contains_text-append (c ∷ p) [] s = ground (arith, starts_with_append p s)
contains_text-append p (c ∷ a) s = ground (arith, contains_text-append p a s)

append_cancel : (xs p q a b : Text) → xs ++ p ++ a ≡ xs ++ q ++ b → p ++ a ≡ q ++ b
append_cancel [] p q a b e = e
append_cancel (x ∷ xs) p q a b e = append_cancel xs p q a b (ground arith)

keys_differ :
    (note_id id author : Text) → same (head_key note_id author) (revision_key note_id id) ≡ false
keys_differ note_id id author =
    elim (Bool-cases (same (head_key note_id author) (revision_key note_id id))) [
      | inr e ↦ e
      | inl e ↦
          let heads_meet : text "/head/" ++ author ≡ text "/revision/" ++ id =
            append_cancel (text "note/" ++ note_id) (text "/head/") (text "/revision/") author id
              ((same_iff (head_key note_id author) (revision_key note_id id)).0 e) in
          absurd (ground arith)
    ]

module _ {W : Type 0} (w : Workspace W) (codec : Codec) (store : IsStore w codec) where
  -- The revision can be read back as it was written.
  abbrev pub ReadsBack : NoteRevision → Text → Type 0
  ReadsBack r bytes =
      (codec.encoding.revision_bytes r ≡ ok bytes) × (codec.read_revision bytes ≡ ok r)

  revision_author :
      (r : NoteRevision) (id bytes : Text)
      → codec.read_revision bytes ≡ ok r
      → record_author codec (revision_key r.note_id id) bytes ≡ some r.author_id
  unfolding record_author
  revision_author r id bytes read =
      rw
        (
          record_author,
          contains_text-append (text "/revision/") (text "note/" ++ r.note_id) id,
          read,
        )
        refl

  put_revision_lem :
      (r : NoteRevision) (bytes : Text) (s : W)
      → store.IsSound s
      → AcceptsWrites w codec
      → r.author_id ≡ w.record_actor_id
      → validate_revision r ≡ ok tt
      → codec.encoding.revision_bytes r ≡ ok bytes
      → ((put_revision w codec r s).0 ≡ ok (codec.encoding.hash bytes))
        × Wrote store.contents store.IsSound
            (revision_key r.note_id (codec.encoding.hash bytes))
            bytes
            s
            (put_revision w codec r s).1
  unfolding put_revision ensure_local_author verify_author revision_id canonical_bytes ◌>>=◌
  put_revision_lem r bytes s sound accepts local valid written =
      let id = codec.encoding.hash bytes in
      let key = revision_key r.note_id id in
      let own = (same_iff r.author_id w.record_actor_id).1 local in
      let put = accepts.0 key bytes s in
      (
        rw (own, valid, written, put) refl,
        rw (own, valid, written, put) (store.put_eq key bytes id s sound refl put),
      )

  set_head_lem :
      (h : Head) (value bytes : Text) (s : W)
      → store.IsSound s
      → AcceptsWrites w codec
      → h.author_id ≡ w.record_actor_id
      → validate_head h ≡ ok tt
      → codec.write_head h ≡ ok bytes
      → store.contents s (revision_key h.note_id h.revision_id) ≡ some value
      → ((set_head w codec h s).0 ≡ ok tt)
        × Wrote store.contents store.IsSound
            (head_key h.note_id h.author_id)
            bytes
            s
            (set_head w codec h s).1
  unfolding set_head ◌>>=◌
  set_head_lem h value bytes s sound accepts local valid written found =
      let key = head_key h.note_id h.author_id in
      let own = (same_iff h.author_id w.record_actor_id).1 local in
      let put = accepts.0 key bytes s in
      let read = store.get_eq (revision_key h.note_id h.revision_id) s sound refl in
      (
        rw (valid, own, read, found, written, put) refl,
        rw (valid, own, read, found, written, put)
            (store.put_eq key bytes (codec.encoding.hash bytes) s sound refl put),
      )

  get_revision_lem :
      (r : NoteRevision) (bytes : Text) (s : W)
      → store.IsSound s
      → validate_revision r ≡ ok tt
      → ReadsBack r bytes
      → store.contents s (revision_key r.note_id (codec.encoding.hash bytes)) ≡ some bytes
      → (get_revision w codec r.note_id (codec.encoding.hash bytes) s).0 ≡ ok (some r)
  unfolding get_revision revision_id canonical_bytes verify_author ◌>>=◌
  get_revision_lem r bytes s sound valid reads found =
      let id = codec.encoding.hash bytes in
      let key = revision_key r.note_id id in
      ground (
        arith,
        store.get_authored_eq key s sound refl,
        ap (authored w.record_actor_id codec key) found,
        revision_author r id bytes reads.1,
        reads.0,
        reads.1,
        same_iff r.note_id r.note_id,
        same_iff id id,
        same_iff r.author_id r.author_id,
      )

  valid_head :
      (r : NoteRevision) (id : Text)
      → validate_revision r ≡ ok tt
      → is_empty id ≡ false
      → validate_head (record { note_id = r.note_id; author_id = r.author_id; revision_id = id })
        ≡ ok tt
  unfolding validate_revision validate_head
  valid_head r id valid named = ground (arith, valid, named)

  -- Commit a valid revision of one's own on a workspace that accepts writes, where the encoder reads
  -- back what it wrote and identifiers are not empty. Then the commit returns the revision's
  -- identifier, the head of this author is the record that names it, and the revision is found
  -- under it, as it was.
  pub commit_revision_lem :
      (r : NoteRevision) (bytes head : Text) (s : W)
      → store.IsSound s
      → AcceptsWrites w codec
      → r.author_id ≡ w.record_actor_id
      → validate_revision r ≡ ok tt
      → ReadsBack r bytes
      → is_empty (codec.encoding.hash bytes) ≡ false
      → codec.write_head (record {
        note_id = r.note_id;
        author_id = r.author_id;
        revision_id = codec.encoding.hash bytes;
      })
        ≡ ok head
      → ((commit_revision w codec r s).0 ≡ ok (codec.encoding.hash bytes))
        × (store.contents (commit_revision w codec r s).1 (head_key r.note_id r.author_id)
            ≡ some head)
        × ((get_revision w codec r.note_id
              (codec.encoding.hash bytes)
              (commit_revision w codec r s).1).0
            ≡ ok (some r))
  unfolding commit_revision ◌>>=◌
  commit_revision_lem r bytes head s sound accepts local valid reads named written =
      let id = codec.encoding.hash bytes in
      let h : Head = record { note_id = r.note_id; author_id = r.author_id; revision_id = id } in
      let key = revision_key r.note_id id in
      let head_at = head_key r.note_id r.author_id in
      let (put, wrote) = put_revision_lem r bytes s sound accepts local valid reads.0 in
      let s1 = (put_revision w codec r s).1 in
      let stored : store.contents s1 key ≡ some bytes =
        ground (arith, wrote.contents_eq key, same_iff key key) in
      let (set, wrote_head) =
        set_head_lem h bytes head s1 wrote.sound accepts local (valid_head r id valid named) written
          stored in
      let s2 = (set_head w codec h s1).1 in
      let kept : store.contents s2 key ≡ some bytes =
        ground (arith, wrote_head.contents_eq key, keys_differ r.note_id id r.author_id, stored) in
      ground (
        arith,
        put,
        set,
        wrote_head.contents_eq head_at,
        same_iff head_at head_at,
        get_revision_lem r bytes s2 wrote_head.sound valid reads kept,
      )

  -- A head that is not valid, is another author's, or names a revision that is not stored, is
  -- refused with an error, and the workspace is as it was.
  pub set_head_refuses :
      (h : Head) (s : W)
      → store.IsSound s
      → (validate_head h ≢ ok tt)
        ⊎ (h.author_id ≢ w.record_actor_id)
        ⊎ (store.contents s (revision_key h.note_id h.revision_id) ≡ none)
      → (e : RecordError) × (set_head w codec h s ≡ (err e, s))
  unfolding set_head ◌>>=◌
  set_head_refuses h s sound refused = elim (Result-cases (validate_head h)) [
    | inr (e, invalid) ↦ (domain e, rw invalid refl)
    | inl (u, valid) ↦ elim (Bool-cases (same h.author_id w.record_actor_id)) [
      | inr other ↦ (author_mismatch (head_key h.note_id h.author_id), rw (valid, other) refl)
      | inl own ↦
          let missing : store.contents s (revision_key h.note_id h.revision_id) ≡ none =
            ground (arith, refused, valid, same_iff h.author_id w.record_actor_id) in
          (
            missing_revision h.revision_id,
            rw
                (
                  valid,
                  own,
                  store.get_eq (revision_key h.note_id h.revision_id) s sound refl,
                  missing,
                )
                refl,
          )
    ]
  ]
