-- ===== src/Domain/Valid.antt =====
-- The validation of a revision in domain.rs, field by field.
use exokephalos.Prelude.{◌≡◌, ◌≢◌, refl, ◌↔◌, true, false, List, [], ◌∷◌, arith, is_empty}
use exokephalos.Prelude.Map.{values}
use exokephalos.Prelude.Order.{same_iff}
use exokephalos.Prelude.Paths.{components, first_is}
use exokephalos.Prelude.Result.{Result, ok, err, ◌>>◌, try_for_each}
use exokephalos.Prelude.Text.{Text, text, text_ord}
use exokephalos.Id
use exokephalos.Domain.{
  FrontmatterValue, Values, Fields, null, bool, integer, float, string, sequence, mapping, nil,
  cons, end, field, DomainError, is_finite, validate_value, validate_values, validate_fields,
  NoteRevision, current_schema, validate_schema, validate_relative_path, validate_revision,
}

both_ok :
    {A B : Type 0} (m n : Result DomainError (Unit {0}))
    → (m ≡ ok tt) ↔ A
    → (n ≡ ok tt) ↔ B
    → ((m >> n) ≡ ok tt) ↔ (A × B)
both_ok (ok _) n a b = (λ h. (a.0 refl, b.0 h), λ h. b.1 h.1)
both_ok (err e) n a b = (λ h. cc, λ h. absurd (ground (arith, a.1 h.0)))

-- No number in the value, at any depth, is infinite or not a number.
abbrev mutual
  pub IsFinite : FrontmatterValue → Type 0
  IsFinite null = Unit
  IsFinite (bool b) = Unit
  IsFinite (integer n) = Unit
  IsFinite (float bits) = is_finite bits ≡ true
  IsFinite (string s) = Unit
  IsFinite (sequence vs) = AreFinite vs
  IsFinite (mapping fs) = FieldsFinite fs

  pub AreFinite : Values → Type 0
  AreFinite nil = Unit
  AreFinite (cons v vs) = IsFinite v × AreFinite vs

  pub FieldsFinite : Fields → Type 0
  FieldsFinite end = Unit
  FieldsFinite (field k v fs) = IsFinite v × FieldsFinite fs

mutual
  unfolding validate_value

  value_iff : (v : FrontmatterValue) → (validate_value v ≡ ok tt) ↔ IsFinite v
  value_iff null = (λ h. tt, λ h. refl)
  value_iff (bool b) = (λ h. tt, λ h. refl)
  value_iff (integer n) = (λ h. tt, λ h. refl)
  value_iff (float bits) = ground arith
  value_iff (string s) = (λ h. tt, λ h. refl)
  value_iff (sequence vs) = values_iff vs
  value_iff (mapping fs) = fields_iff fs

  values_iff : (vs : Values) → (validate_values vs ≡ ok tt) ↔ AreFinite vs
  values_iff nil = (λ h. tt, λ h. refl)
  values_iff (cons v vs) =
      both_ok (validate_value v) (validate_values vs) (value_iff v) (values_iff vs)

  fields_iff : (fs : Fields) → (validate_fields fs ≡ ok tt) ↔ FieldsFinite fs
  fields_iff end = (λ h. tt, λ h. refl)
  fields_iff (field k v fs) =
      both_ok (validate_value v) (validate_fields fs) (value_iff v) (fields_iff fs)

abbrev pub AllFinite : List FrontmatterValue → Type 0
AllFinite [] = Unit
AllFinite (v ∷ vs) = IsFinite v × AllFinite vs

frontmatter_iff :
    (vs : List FrontmatterValue) → (try_for_each validate_value vs ≡ ok tt) ↔ AllFinite vs
frontmatter_iff [] = (λ h. tt, λ h. refl)
frontmatter_iff (v ∷ vs) =
    both_ok (validate_value v) (try_for_each validate_value vs) (value_iff v) (frontmatter_iff vs)

-- A revision that may be stored.
pub record IsValid (r : NoteRevision) : Type 0 where
  pub schema : r.schema ≡ current_schema
  pub note_id : Id.is_valid r.note_id ≡ true
  pub author : r.author_id ≢ []
  pub signed : r.author_id ≡ r.hlc.actor_id
  pub path : validate_relative_path r.materialized_path ≡ ok tt
  pub no_asset : first_is (text "assets") (components r.materialized_path) ≡ false
  pub finite : AllFinite (values r.frontmatter)

is_empty_iff : (s : Text) → (is_empty s ≡ false) ↔ (s ≢ [])
is_empty_iff [] = (λ h. cc, λ h. absurd (h refl))
is_empty_iff (c ∷ s) = (λ h e. cc, λ h. refl)

-- A revision passes validation exactly if its schema is the current one, its note identifier has
-- the current format, it has an author, who issued its timestamp, its path is an accepted relative
-- path outside `assets`, and no number in its frontmatter is infinite or not a number.
pub validate_revision_iff : (r : NoteRevision) → (validate_revision r ≡ ok tt) ↔ IsValid r
unfolding validate_revision validate_schema
validate_revision_iff r = (
  λ h. record {
    schema = ground arith;
    note_id = ground arith;
    author = (is_empty_iff r.author_id).0 (ground arith);
    signed = (same_iff r.author_id r.hlc.actor_id).0 (ground arith);
    path = ground arith;
    no_asset = ground arith;
    finite = (frontmatter_iff (values r.frontmatter)).0 (ground arith);
  },
  λ v. ground (
    arith,
    v.schema,
    v.note_id,
    (is_empty_iff r.author_id).1 v.author,
    (same_iff r.author_id r.hlc.actor_id).1 v.signed,
    v.path,
    v.no_asset,
    (frontmatter_iff (values r.frontmatter)).1 v.finite,
  ),
)
