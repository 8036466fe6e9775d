-- ===== src/Server/Origin.antt =====
-- crates/xo-syncd/src/llm.rs: the description of the server for language models, which names the
-- address that a request was sent to. The document itself is an argument.
use exokephalos.Prelude.{
  ℕ, zero, suc, ◌-◌, ◌≡◌, refl, ◌⊎◌, inl, inr, Bool, true, not, ◌&&◌, ◌||◌, Option, none, some, [],
  ◌∷◌, ◌++◌, arith, all, length, leb, ◌==◌, is_empty, if◌then◌else◌, Bool-cases,
}
use exokephalos.Prelude.Order.{same, same_iff}
use exokephalos.Prelude.Paths.{split_at}
use exokephalos.Prelude.Text.{Text, text, text_ord, starts_with}
use exokephalos.Server.Http.{Request, Response, success, first_part}

abbrev pub is_alphanumeric : ℕ → Bool
is_alphanumeric c = leb b'0' c && leb c b'9' || leb b'a' c && leb c b'z' || leb b'A' c && leb c b'Z'

abbrev pub is_host_byte : ℕ → Bool
is_host_byte c = is_alphanumeric c || c == b'.' || c == b'-' || c == b':' || c == b'[' || c == b']'

abbrev pub is_host : Text → Bool
is_host value = not (is_empty value) && all is_host_byte value

abbrev pub is_scheme : Text → Bool
is_scheme value = same value (text "http") || same value (text "https")

abbrev pub filter : (Text → Bool) → Option Text → Option Text
filter p none = none
filter p (some value) = if p value then some value else none

abbrev pub or_default : Text → Option Text → Text
or_default value none = value
or_default value (some other) = other

abbrev pub or_other : Option Text → Option Text → Option Text
or_other none other = other
or_other (some value) other = some value

abbrev pub first_of : Option Text → Option Text
first_of none = none
first_of (some value) = first_part (split_at b',' value)

unfoldable pub first_header_value : Request → Text → Option Text
first_header_value request name = first_of (request.header name)

abbrev pub scheme_of : Request → Text
scheme_of request =
    or_default (text "http")
      (filter is_scheme (first_header_value request (text "x-forwarded-proto")))

abbrev pub host_of : Request → Text
host_of request = or_default (text "localhost") (
    or_other (filter is_host (first_header_value request (text "x-forwarded-host")))
      (filter is_host (first_header_value request (text "host"))))

unfoldable pub request_origin : Request → Text
request_origin request = scheme_of request ++ text "://" ++ host_of request

-- `str::replace`; the first argument counts the bytes of a place found that are still to be passed.
unfoldable pub replace_from : ℕ → Text → Text → Text → Text
replace_from skip pattern with_text [] = []
replace_from (suc skip) pattern with_text (c ∷ s) = replace_from skip pattern with_text s
replace_from zero pattern with_text (c ∷ s) =
    let found = starts_with pattern (c ∷ s) in
    let rest = replace_from (if found then length pattern - 1 else 0) pattern with_text s in
    if found then with_text ++ rest else c ∷ rest

abbrev pub replace : Text → Text → Text → Text
replace s pattern with_text = replace_from 0 pattern with_text s

unfoldable pub serve_document : Text → Request → Response
serve_document document request = record {
  status = success;
  headers =
      (text "content-type", text "text/plain; charset=utf-8")
      ∷ (text "cache-control", text "no-cache")
      ∷ (text "x-content-type-options", text "nosniff")
      ∷ [];
  body = replace document (text "{{BASE_URL}}") (request_origin request);
}

filtered_host :
    (o : Option Text) → is_host (or_default (text "localhost") (filter is_host o)) ≡ true
filtered_host none = refl
filtered_host (some value) = elim (Bool-cases (is_host value)) [
  | inl h ↦ rw h h
  | inr h ↦ rw h refl
]

other_host :
    (o p : Option Text)
    → is_host (or_default (text "localhost") (or_other (filter is_host o) (filter is_host p)))
      ≡ true
other_host none p = filtered_host p
other_host (some value) p = elim (Bool-cases (is_host value)) [
  | inl h ↦ rw h h
  | inr h ↦ rw h (filtered_host p)
]

filtered_scheme :
    (o : Option Text)
    → (or_default (text "http") (filter is_scheme o) ≡ text "http")
      ⊎ (or_default (text "http") (filter is_scheme o) ≡ text "https")
filtered_scheme none = inl refl
filtered_scheme (some value) = elim (Bool-cases (same value (text "http"))) [
  | inl h ↦ inl (ground (arith, h, same_iff value (text "http")))
  | inr h ↦ elim (Bool-cases (same value (text "https"))) [
    | inl k ↦ inr (ground (arith, h, k, same_iff value (text "https")))
    | inr k ↦ inl (rw (h, k) refl)
  ]
]

-- Whatever headers a request has, the origin that goes into the document is `http` or `https`, then
-- `://`, then a host of at least one byte, all of them letters, digits or one of `.`, `-`, `:`, `[` and
-- `]`: no header brings a quote, a space or a line of its own into the document.
pub request_origin_lem :
    (request : Request)
    → (scheme host : Text) × (request_origin request ≡ scheme ++ text "://" ++ host)
      × ((scheme ≡ text "http") ⊎ (scheme ≡ text "https"))
      × (is_host host ≡ true)
unfolding request_origin
request_origin_lem request = (
  scheme_of request,
  host_of request,
  refl,
  filtered_scheme (first_header_value request (text "x-forwarded-proto")),
  other_host (first_header_value request (text "x-forwarded-host"))
      (first_header_value request (text "host")),
)
