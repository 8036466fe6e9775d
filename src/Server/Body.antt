-- ===== src/Server/Body.antt =====
-- What `read_body_limited` of server.rs accepts.
use exokephalos.Prelude.{
  ◌+◌, ◌≤◌, ◌≡◌, refl, ap, inl, inr, ◌↔◌, false, Option, none, some, List, [], ◌∷◌, ◌++◌, arith,
  append_nil, subst, length, length-append, Bool-cases, Option-cases, ltb,
}
use exokephalos.Prelude.Result.{ok}
use exokephalos.Prelude.Text.{Text}
use exokephalos.Server.Http.{
  BodyFrame, broken, trailers, chunk, Incoming, max_api_body_size, is_above, read_frames,
  read_body_limited,
}
use mathlib.Core.List.{append_assoc}

abbrev pub after : Text → Option Text → Option Text
after bytes none = none
after bytes (some rest) = some (bytes ++ rest)

-- The bytes that were sent, where no frame is broken.
abbrev pub content_of : List BodyFrame → Option Text
content_of [] = some []
content_of (broken ∷ frames) = none
content_of (trailers ∷ frames) = content_of frames
content_of (chunk bytes ∷ frames) = after bytes (content_of frames)

module _ (error_json : Text → Text) where
  read_frames-all :
      (frames : List BodyFrame) (acc rest : Text)
      → content_of frames ≡ some rest
      → length (acc ++ rest) ≤ max_api_body_size
      → read_frames error_json acc frames ≡ ok (acc ++ rest)
  unfolding read_frames
  read_frames-all [] acc [] e small = rw (append_nil acc) refl
  read_frames-all [] acc (c ∷ rest) e small = absurd (ground (arith, e))
  read_frames-all (broken ∷ frames) acc rest e small = absurd (ground (arith, e))
  read_frames-all (trailers ∷ frames) acc rest e small = read_frames-all frames acc rest e small
  read_frames-all (chunk bytes ∷ frames) acc rest e small =
      elim (Option-cases (content_of frames)) [
        | inl n ↦ absurd (ground (arith, n, e))
        | inr (more, m) ↦
            let parts : rest ≡ bytes ++ more = ground (arith, m, e) in
            let joined : acc ++ rest ≡ (acc ++ bytes) ++ more =
              rw (parts, append_assoc acc bytes more) refl in
            let ih =
              read_frames-all frames (acc ++ bytes) more m
                (subst (λ t. length t ≤ max_api_body_size) joined small) in
            rw joined (
              ground (
                arith,
                ih,
                ap length joined,
                small,
                length-append acc bytes,
                length-append (acc ++ bytes) more,
              ))
      ]

  read_frames-only :
      (frames : List BodyFrame) (acc bytes : Text)
      → length acc ≤ max_api_body_size
      → read_frames error_json acc frames ≡ ok bytes
      → (rest : Text) × (content_of frames ≡ some rest)
        × (bytes ≡ acc ++ rest)
        × (length bytes ≤ max_api_body_size)
  unfolding read_frames
  read_frames-only [] acc bytes small e =
      ([], refl, rw (append_nil acc) (ground (arith, e)), ground (arith, e, small))
  read_frames-only (broken ∷ frames) acc bytes small e = absurd (ground (arith, e))
  read_frames-only (trailers ∷ frames) acc bytes small e = read_frames-only frames acc bytes small e
  read_frames-only (chunk more ∷ frames) acc bytes small e =
      elim (Bool-cases (ltb max_api_body_size (length acc + length more))) [
        | inl big ↦ absurd (ground (arith, big, e))
        | inr fits ↦
            let (rest, c, b, l) =
              read_frames-only frames (acc ++ more) bytes
                (ground (arith, fits, length-append acc more)) (ground (arith, fits, e)) in
            (more ++ rest, rw c refl, rw (b, append_assoc acc more rest) refl, l)
      ]

  -- A body is read exactly when no announced size is above one mebibyte, no frame is broken and the
  -- bytes of all frames together are no more than that; then it is these bytes in order.
  pub read_body_limited_iff :
      (body : Incoming) (bytes : Text)
      → (read_body_limited error_json body ≡ ok bytes) ↔ (
          (is_above body.upper ≡ false)
          × (content_of body.frames ≡ some bytes)
          × (length bytes ≤ max_api_body_size))
  unfolding read_body_limited
  read_body_limited_iff body bytes = elim (Bool-cases (is_above body.upper)) [
    | inl big ↦ (λ e. absurd (ground (arith, big, e)), λ (a, c, l). absurd (ground (arith, big, a)))
    | inr fits ↦ (
      λ e.
          let (rest, c, b, l) =
            read_frames-only body.frames [] bytes (omega arith) (ground (arith, fits, e)) in
          (fits, rw b c, l),
      λ (a, c, l). rw a (read_frames-all body.frames [] bytes c l),
    )
  ]
