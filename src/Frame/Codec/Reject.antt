-- ===== src/Frame/Codec/Reject.antt =====
-- rifts-core/src/frame_codec.rs: what a successful decoding says of the buffer, and the refusals.
use rifts.Prelude.{
  ℕ, ◌+◌, ◌^◌, ◌<◌, ◌≤◌, ◌%◌, ◌≡◌, ap, List, [], ◌∷◌, ◌++◌, length, All, take, drop, arith,
  Option-cases, some, none, inl, inr, sym, ◌↔◌, ◌≢◌, take-append-drop, length-take_le,
}
use rifts.Prelude.Int.{as_i64, as_u64-as_i64}
use rifts.Prelude.Bytes.{IsByte, from_be_bytes, rewritten, eight_bytes-lt, four_bytes-lt}
use rifts.Errors.{ok}
use rifts.Frame.Types.{FrameType, EncodingFormat, from_tag, codec_from_tag, tags_exact}
use rifts.Frame.Envelope.{Frame}
use rifts.Frame.Codec.{
  unwrap_or_default, encode_frame, decode_binary_frame, decode_body, decoded, byte_at, slice,
}

abbrev declared_len : List ℕ → ℕ
declared_len buf = from_be_bytes (slice 20 4 buf)

decode_body-inv :
    (t : FrameType) (c : EncodingFormat) (buf : List ℕ) (max : ℕ) (f : Frame)
    → decode_body t c buf max ≡ ok f
    → (declared_len buf ≤ max)
      × (24 + declared_len buf ≤ length buf)
      × (f
          ≡ decoded t c
              (from_be_bytes (slice 2 2 buf))
              (from_be_bytes (slice 4 8 buf))
              (as_i64 (from_be_bytes (slice 12 8 buf)))
              (slice 24 (declared_len buf) buf))
unfolding decode_body
decode_body-inv t c buf max f h = ground arith

decode_binary_frame-inv :
    (buf : List ℕ) (max : ℕ) (f : Frame)
    → decode_binary_frame buf max ≡ ok f
    → (t : FrameType) × (c : EncodingFormat) × (24 ≤ length buf)
      × (from_tag (byte_at 0 buf) ≡ some t)
      × (codec_from_tag (byte_at 1 buf) ≡ some c)
      × (decode_body t c buf max ≡ ok f)
unfolding decode_binary_frame
decode_binary_frame-inv buf max f h = elim (Option-cases (from_tag (byte_at 0 buf))) [
  | inl e ↦ absurd (ground arith)
  | inr (t, et) ↦ elim (Option-cases (codec_from_tag (byte_at 1 buf))) [
    | inl e ↦ absurd (ground arith)
    | inr (c, ec) ↦ (t, c, ground arith, et, ec, ground arith)
  ]
]

module _ (b0 b1 b2 b3 b4 b5 b6 b7 b8 b9 b10 b11 b12 b13 b14 b15 b16 b17 b18 b19 b20 b21 b22 b23 : ℕ)
    (p : List ℕ) where
  abbrev header : List ℕ
  header =
      b0 ∷ b1 ∷ b2 ∷ b3 ∷ b4 ∷ b5 ∷ b6 ∷ b7 ∷ b8 ∷ b9 ∷ b10 ∷ b11 ∷ b12 ∷ b13 ∷ b14 ∷ b15 ∷ b16
      ∷ b17 ∷ b18 ∷ b19 ∷ b20 ∷ b21 ∷ b22 ∷ b23 ∷ []

  abbrev whole : List ℕ
  whole =
      b0 ∷ b1 ∷ b2 ∷ b3 ∷ b4 ∷ b5 ∷ b6 ∷ b7 ∷ b8 ∷ b9 ∷ b10 ∷ b11 ∷ b12 ∷ b13 ∷ b14 ∷ b15 ∷ b16
      ∷ b17 ∷ b18 ∷ b19 ∷ b20 ∷ b21 ∷ b22 ∷ b23 ∷ p

  header-rewritten :
      (t : FrameType) (c : EncodingFormat)
      → All IsByte header
      → from_tag b0 ≡ some t
      → codec_from_tag b1 ≡ some c
      → declared_len whole ≤ length p
      → (encode_frame (
            decoded t c
              (from_be_bytes (slice 2 2 whole))
              (from_be_bytes (slice 4 8 whole))
              (as_i64 (from_be_bytes (slice 12 8 whole)))
              (slice 24 (declared_len whole) whole))
          ≡ ok (header ++ take (declared_len whole) p))
  unfolding encode_frame
  header-rewritten t c small et ec room =
      let time_fits : from_be_bytes (b12 ∷ b13 ∷ b14 ∷ b15 ∷ b16 ∷ b17 ∷ b18 ∷ b19 ∷ []) < 2 ^ 64 =
        eight_bytes-lt b12 b13 b14 b15 b16 b17 b18 b19 (omega arith) in
      let len_kept : length (take (declared_len whole) p) % 2 ^ 32 ≡ declared_len whole = omega (
        arith,
        length-take_le (declared_len whole) p room,
        four_bytes-lt b20 b21 b22 b23 (omega arith),
      ) in
      rw (
        as_u64-as_i64 _ time_fits,
        len_kept,
        rewritten (b2 ∷ b3 ∷ []) (omega arith),
        rewritten (b4 ∷ b5 ∷ b6 ∷ b7 ∷ b8 ∷ b9 ∷ b10 ∷ b11 ∷ []) (omega arith),
        rewritten (b12 ∷ b13 ∷ b14 ∷ b15 ∷ b16 ∷ b17 ∷ b18 ∷ b19 ∷ []) (omega arith),
        rewritten (b20 ∷ b21 ∷ b22 ∷ b23 ∷ []) (omega arith),
        ← (tags_exact b0 t c).0.0 et,
        ← (tags_exact b1 t c).1.0 ec,
      )

-- A buffer that decodes begins with the encoding of the frame that it decodes to, byte for byte, so
-- only canonical encodings are accepted; and the payload is within the limit that was given.
pub encode-decode :
    (buf : List ℕ) (max : ℕ) (f : Frame)
    → All IsByte buf
    → decode_binary_frame buf max ≡ ok f
    → (bytes rest : List ℕ) × (encode_frame f ≡ ok bytes)
      × (buf ≡ bytes ++ rest)
      × (length (unwrap_or_default f.payload) ≤ max)
encode-decode
      (b0 ∷ b1 ∷ b2 ∷ b3 ∷ b4 ∷ b5 ∷ b6 ∷ b7 ∷ b8 ∷ b9 ∷ b10 ∷ b11 ∷ b12 ∷ b13 ∷ b14 ∷ b15 ∷ b16
        ∷ b17 ∷ b18 ∷ b19 ∷ b20 ∷ b21 ∷ b22 ∷ b23 ∷ p)
      max f small h =
    let buf =
      b0 ∷ b1 ∷ b2 ∷ b3 ∷ b4 ∷ b5 ∷ b6 ∷ b7 ∷ b8 ∷ b9 ∷ b10 ∷ b11 ∷ b12 ∷ b13 ∷ b14 ∷ b15 ∷ b16
      ∷ b17 ∷ b18 ∷ b19 ∷ b20 ∷ b21 ∷ b22 ∷ b23 ∷ p in
    let (t, c, long, et, ec, hb) = decode_binary_frame-inv buf max f h in
    let (within, enough, shape) = decode_body-inv t c buf max f hb in
    let room : declared_len buf ≤ length p = omega arith in
    (
      header b0 b1 b2 b3 b4 b5 b6 b7 b8 b9 b10 b11 b12 b13 b14 b15 b16 b17 b18 b19 b20 b21 b22 b23 p
          ++ take (declared_len buf) p,
      drop (declared_len buf) p,
      rw shape (
          header-rewritten b0 b1 b2 b3 b4 b5 b6 b7 b8 b9 b10 b11 b12 b13 b14 b15 b16 b17 b18 b19 b20
            b21 b22 b23 p t c (omega arith) et ec room),
      sym (
          ap
            (λ q.
              header b0 b1 b2 b3 b4 b5 b6 b7 b8 b9 b10 b11 b12 b13 b14 b15 b16 b17 b18 b19 b20 b21
                b22 b23 p
              ++ q)
            (take-append-drop (declared_len buf) p)),
      rw (shape, length-take_le (declared_len buf) p room) within,
    )
encode-decode buf max f small h =
    let (t, c, long, et, ec, hb) = decode_binary_frame-inv buf max f h in absurd (omega arith)

decodes :
    (t : FrameType) (c : EncodingFormat) (buf : List ℕ) (max : ℕ)
    → 24 ≤ length buf
    → from_tag (byte_at 0 buf) ≡ some t
    → codec_from_tag (byte_at 1 buf) ≡ some c
    → declared_len buf ≤ max
    → 24 + declared_len buf ≤ length buf
    → decode_binary_frame buf max
      ≡ ok (
          decoded t c
            (from_be_bytes (slice 2 2 buf))
            (from_be_bytes (slice 4 8 buf))
            (as_i64 (from_be_bytes (slice 12 8 buf)))
            (slice 24 (declared_len buf) buf))
unfolding decode_binary_frame decode_body
decodes t c buf max long known named within enough = ground arith

-- Decoding succeeds exactly when the buffer holds a header, both tags are known, and the declared
-- payload length is within the limit and within the buffer.
pub decodes_exactly :
    (buf : List ℕ) (max : ℕ)
    → ((f : Frame) × (decode_binary_frame buf max ≡ ok f)) ↔ (
        (24 ≤ length buf)
        × (from_tag (byte_at 0 buf) ≢ none)
        × (codec_from_tag (byte_at 1 buf) ≢ none)
        × (declared_len buf ≤ max)
        × (24 + declared_len buf ≤ length buf))
decodes_exactly buf max = (needs, suffices)
  where
    needs :
        ((f : Frame) × (decode_binary_frame buf max ≡ ok f))
        → (24 ≤ length buf)
          × (from_tag (byte_at 0 buf) ≢ none)
          × (codec_from_tag (byte_at 1 buf) ≢ none)
          × (declared_len buf ≤ max)
          × (24 + declared_len buf ≤ length buf)
    needs (f, h) =
        let (t, c, long, et, ec, hb) = decode_binary_frame-inv buf max f h in
        let (within, enough, shape) = decode_body-inv t c buf max f hb in
        (long, λ e. cc, λ e. cc, within, enough)

    suffices :
        (24 ≤ length buf)
          × (from_tag (byte_at 0 buf) ≢ none)
          × (codec_from_tag (byte_at 1 buf) ≢ none)
          × (declared_len buf ≤ max)
          × (24 + declared_len buf ≤ length buf)
        → (f : Frame) × (decode_binary_frame buf max ≡ ok f)
    suffices (long, et, ec, within, enough) = elim (Option-cases (from_tag (byte_at 0 buf))) [
      | inl e ↦ absurd (et e)
      | inr (t, known) ↦ elim (Option-cases (codec_from_tag (byte_at 1 buf))) [
        | inl e ↦ absurd (ec e)
        | inr (c, named) ↦ (_, decodes t c buf max long known named within enough)
      ]
    ]
