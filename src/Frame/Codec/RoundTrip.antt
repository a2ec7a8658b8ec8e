-- ===== src/Frame/Codec/RoundTrip.antt =====
-- rifts-core/src/frame_codec.rs: decoding what `encode_frame` wrote.
use rifts.Prelude.{
  ℕ, none, some, ◌+◌, ◌^◌, ◌<◌, ◌≤◌, ◌%◌, ◌≡◌, refl, ap, List, [], ◌∷◌, ◌++◌, length, All, take,
  arith,
}
use rifts.Prelude.Int.{IsI64, as_u64, as_u64-lt, as_i64-as_u64}
use rifts.Prelude.Bytes.{
  IsByte, All-append, to_be_bytes-IsByte, to_be_bytes, from_be_bytes-to_be_bytes,
}
use rifts.Errors.{ok, ◌>>=◌}
use rifts.Frame.Types.{tag, codec_tag, tag-lt, codec_tag-lt, from_tag-tag, codec_from_tag-codec_tag}
use rifts.Frame.Flags.{IsU16}
use rifts.Frame.Envelope.{Frame}
use rifts.Frame.Codec.{unwrap_or_default, encode_frame, decode_binary_frame, decode_body, decoded}

-- The numeric fields hold values of their Rust types.
pub record IsWireSized (f : Frame) : Type 0 where
  pub flags_fit : IsU16 f.flags.bits
  pub frame_id_fits : f.frame_id < 2 ^ 64
  pub timestamp_fits : IsI64 f.timestamp

-- What survives the wire: the type, the codec, the flags, the id, the time and the payload.
abbrev pub on_wire : Frame → Frame
on_wire f = record {
  version = 0x0100;
  frame_type = f.frame_type;
  codec = f.codec;
  flags = f.flags;
  session_id = none;
  stream_id = none;
  frame_id = f.frame_id;
  topic = none;
  event = none;
  message_id = none;
  correlation_id = none;
  trace_id = none;
  timestamp = f.timestamp;
  ttl_ms = none;
  priority = none;
  payload = some (unwrap_or_default f.payload);
}

take-length : (xs : List ℕ) → take (length xs) xs ≡ xs
take-length [] = refl
take-length (x ∷ xs) = ap (◌∷◌ x) (take-length xs)

decode_body-encoded :
    (f : Frame) (max : ℕ) (payload : List ℕ)
    → IsWireSized f
    → length payload ≤ max
    → length payload < 2 ^ 32
    → decode_body f.frame_type f.codec
        ((tag f.frame_type ∷ codec_tag f.codec ∷ [])
          ++ (to_be_bytes 2 f.flags.bits
              ++ (to_be_bytes 8 f.frame_id
                  ++ (to_be_bytes 8 (as_u64 f.timestamp)
                      ++ (to_be_bytes 4 (length payload % 2 ^ 32) ++ payload)))))
        max
      ≡ ok (decoded f.frame_type f.codec f.flags.bits f.frame_id f.timestamp payload)
unfolding decode_body to_be_bytes
decode_body-encoded f max payload w fits small = ground (
  arith,
  from_be_bytes-to_be_bytes 2 f.flags.bits (omega arith),
  from_be_bytes-to_be_bytes 8 f.frame_id (omega arith),
  from_be_bytes-to_be_bytes 8 (as_u64 f.timestamp) (omega (arith, as_u64-lt f.timestamp)),
  as_i64-as_u64 f.timestamp w.timestamp_fits,
  from_be_bytes-to_be_bytes 4 (length payload % 2 ^ 32) (omega arith),
  take-length payload,
)

-- Decoding what `encode_frame` wrote gives back the frame's type, codec, flags, id, time and
-- payload (an absent payload reads as an empty one), with version 0x0100 and every other field
-- absent: for a frame whose numbers fit their types, and a payload within the decoder's limit and
-- shorter than 2 ^ 32 bytes.
pub decode-encode :
    (f : Frame) (max : ℕ)
    → IsWireSized f
    → length (unwrap_or_default f.payload) ≤ max
    → length (unwrap_or_default f.payload) < 2 ^ 32
    → (encode_frame f >>= λ bytes. decode_binary_frame bytes max) ≡ ok (on_wire f)
unfolding encode_frame decode_binary_frame to_be_bytes
decode-encode f max w fits small = ground (
  arith,
  from_tag-tag f.frame_type,
  codec_from_tag-codec_tag f.codec,
  decode_body-encoded f max (unwrap_or_default f.payload) w fits small,
)

header_IsByte :
    (f : Frame) (n : ℕ) (payload : List ℕ)
    → All IsByte payload
    → All IsByte (
        (tag f.frame_type ∷ codec_tag f.codec ∷ [])
        ++ (to_be_bytes 2 f.flags.bits
            ++ (to_be_bytes 8 f.frame_id
                ++ (to_be_bytes 8 (as_u64 f.timestamp) ++ (to_be_bytes 4 n ++ payload)))))
header_IsByte f n payload p = (tag-lt f.frame_type, (codec_tag-lt f.codec, fields))
  where
    join : (w v : ℕ) (bytes : List ℕ) → All IsByte bytes → All IsByte (to_be_bytes w v ++ bytes)
    join w v bytes h = All-append IsByte (to_be_bytes w v) bytes (to_be_bytes-IsByte w v) h

    fields : All IsByte (
        to_be_bytes 2 f.flags.bits
        ++ (to_be_bytes 8 f.frame_id
            ++ (to_be_bytes 8 (as_u64 f.timestamp) ++ (to_be_bytes 4 n ++ payload))))
    fields =
        join 2 f.flags.bits _
          (join 8 f.frame_id _ (join 8 (as_u64 f.timestamp) _ (join 4 n payload p)))

-- The encoding never fails; it is 24 bytes and the payload, and all of it are bytes if the payload
-- is.
pub encode_frame_size :
    (f : Frame)
    → All IsByte (unwrap_or_default f.payload)
    → (bytes : List ℕ) × (encode_frame f ≡ ok bytes)
      × (length bytes ≡ 24 + length (unwrap_or_default f.payload))
      × All IsByte bytes
unfolding encode_frame to_be_bytes
encode_frame_size f p = (_, refl, omega arith, header_IsByte f _ (unwrap_or_default f.payload) p)
