-- ===== src/Central/Items.antt =====
-- The operations on items of central.rs, over the repository and the rules of domain.rs.
use exokephalos.Prelude.{
  ℕ, ◌≡◌, refl, sym, ◌∙◌, Bool, true, false, none, some, List, [], ◌∷◌, ◌++◌, arith, is_empty,
}
use exokephalos.Prelude.Effect.{◌>>=◌}
use exokephalos.Prelude.Map.{values}
use exokephalos.Prelude.Order.{same_iff}
use exokephalos.Prelude.Result.{Result, ok, try_for_each}
use exokephalos.Prelude.Text.{Text, text_ord}
use exokephalos.Central.{CentralWorkspace, document_changed, revision_of, commit_note, create_item}
use exokephalos.Domain.{Note, validate_revision, validate_value, validate_schema}
use exokephalos.Hlc.{Hlc, HlcClock, next, timestamp}
use exokephalos.Id
use exokephalos.Markdown.{Unicode}
use exokephalos.Markdown.Path.{IsUtf8, canonical_note_path-IsAccepted}
use exokephalos.Records.Commit.{ReadsBack, commit_revision_lem}
use exokephalos.Records.{load_note, get_revision}
use exokephalos.Workspace.{Workspace, Codec}
use exokephalos.Workspace.Laws.{IsStore, AcceptsWrites}

next_actor : (c : HlcClock) (ms : ℕ) → (next c ms).1.actor_id ≡ c.actor_id
unfolding next timestamp
next_actor c ms = ground arith

module _ {W : Type 0} (workspace : Workspace W) (codec : Codec) (unicode : Unicode)
    (now : Result Text ℕ) where
  valid_commit :
      (note : Note) (hlc : Hlc) (deleted : Bool) (predecessors : List Text)
      → IsUtf8 unicode
      → unicode.is_alphanumeric b'/' ≡ false
      → Id.is_valid note.id ≡ true
      → is_empty workspace.record_actor_id ≡ false
      → hlc.actor_id ≡ workspace.record_actor_id
      → try_for_each validate_value (values note.frontmatter) ≡ ok tt
      → validate_revision (revision_of workspace codec unicode now note hlc predecessors deleted)
        ≡ ok tt
  unfolding validate_revision validate_schema
  valid_commit note hlc deleted predecessors utf8 plain valid named own finite =
      let (path, outside) =
        canonical_note_path-IsAccepted unicode note.id note.frontmatter utf8 plain valid in
      let issued = (same_iff workspace.record_actor_id hlc.actor_id).1 (sym own) in
      ground (arith, path, outside, issued)

  -- An item that is not there yet is created, on a workspace that accepts writes, for a note with
  -- a valid identifier and finite numbers, whatever its title: the answer is true, the revision can
  -- be read back with the next timestamp of the clock and with no predecessors, the clock has moved
  -- on and one notification is sent.
  pub create_item_stores :
      (store : IsStore workspace codec) (note : Note) (ms : ℕ) (bytes head : Text)
      (s : CentralWorkspace W)
      → load_note workspace codec note.id s.replica ≡ (ok none, s.replica)
      → now ≡ ok ms
      → store.IsSound s.replica
      → AcceptsWrites workspace codec
      → IsUtf8 unicode
      → unicode.is_alphanumeric b'/' ≡ false
      → Id.is_valid note.id ≡ true
      → is_empty workspace.record_actor_id ≡ false
      → s.clock.actor_id ≡ workspace.record_actor_id
      → try_for_each validate_value (values note.frontmatter) ≡ ok tt
      → ReadsBack workspace codec store
          (revision_of workspace codec unicode now note (next s.clock ms).1 [] false)
          bytes
      → is_empty (codec.encoding.hash bytes) ≡ false
      → codec.write_head (record {
        note_id = note.id;
        author_id = workspace.record_actor_id;
        revision_id = codec.encoding.hash bytes;
      })
        ≡ ok head
      → ((create_item workspace codec unicode now note s).0 ≡ ok true)
        × ((get_revision workspace codec note.id
              (codec.encoding.hash bytes)
              (create_item workspace codec unicode now note s).1.replica).0
            ≡ ok (some (revision_of workspace codec unicode now note (next s.clock ms).1 [] false)))
        × ((create_item workspace codec unicode now note s).1.clock ≡ (next s.clock ms).0)
        × ((create_item workspace codec unicode now note s).1.notifications
            ≡ s.notifications ++ document_changed ∷ [])
  unfolding create_item commit_note ◌>>=◌
  create_item_stores store note ms bytes head s load clock sound accepts utf8 plain valid named own
        finite reads id written =
      let r = revision_of workspace codec unicode now note (next s.clock ms).1 [] false in
      let ok_to_store =
        valid_commit note (next s.clock ms).1 false [] utf8 plain valid named
          (next_actor s.clock ms ∙ own) finite in
      let (answer, heads, back) =
        commit_revision_lem workspace codec store r bytes head s.replica sound accepts refl
          ok_to_store reads id written in
      (
        rw (load, clock, answer) refl,
        rw (load, clock, answer) back,
        rw (load, clock, answer) refl,
        rw (load, clock, answer) refl,
      )
