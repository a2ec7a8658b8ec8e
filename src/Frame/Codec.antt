-- ===== src/Frame/Codec.antt =====
-- rifts-core/src/frame_codec.rs: the binary wire format. Bytes are numbers below 256; `usize` is 64
-- bits wide, and `buf[i..j]` is `slice`, which every read here makes within the buffer.
pub mod RoundTrip
pub mod Reject
use rifts.Prelude.{
  ℕ, ◌+◌, ◌-◌, ◌*◌, ◌%◌, ◌^◌, ◌<◌, String, Bool, true, false, Option, none, some, List, [], ◌∷◌,
  ◌++◌, ltb, length, take, drop, if◌then◌else◌,
}
use rifts.Prelude.Int.{ℤ, as_u64, as_i64}
use rifts.Prelude.Bytes.{to_be_bytes, from_be_bytes}
use rifts.Errors.{
  Message, text, nat, FrameReject, frame_invalid, payload_too_large, RiftError, in_frame, Result,
  ok, err, ◌>>=◌,
}
use rifts.Frame.Types.{FrameType, EncodingFormat, tag, from_tag, codec_tag, codec_from_tag}
use rifts.Frame.Flags.{FrameFlags, from_bits}
use rifts.Frame.Envelope.{Frame}

abbrev pub unwrap_or_default : Option (List ℕ) → List ℕ
unwrap_or_default none = []
unwrap_or_default (some bytes) = bytes

-- `payload.len() as u32` keeps the low 32 bits.
unfoldable pub encode_frame : Frame → Result (List ℕ)
encode_frame f =
    let payload = unwrap_or_default f.payload in
    ok (
      (tag f.frame_type ∷ codec_tag f.codec ∷ [])
      ++ (to_be_bytes 2 f.flags.bits
          ++ (to_be_bytes 8 f.frame_id
              ++ (to_be_bytes 8 (as_u64 f.timestamp)
                  ++ (to_be_bytes 4 (length payload % 2 ^ 32) ++ payload)))))

abbrev pub default_max_binary_payload : ℕ
default_max_binary_payload = 16 * 1024 * 1024

abbrev pub byte_at : ℕ → List ℕ → ℕ
byte_at i buf = elim (drop i buf) [ [] ↦ 0 | b ∷ _ ↦ b ]

-- `buf[from..from + count]`.
abbrev pub slice : (from count : ℕ) → List ℕ → List ℕ
slice from count buf = take count (drop from buf)

abbrev pub or_invalid {ℓ} : {A : Type ℓ} → Option A → String → Result A
or_invalid (some a) _ = ok a
or_invalid none why = err (in_frame (frame_invalid (text why ∷ [])))

-- The frame that the decoder builds from the header and the payload.
abbrev pub decoded : FrameType → EncodingFormat → (flags frame_id : ℕ) → ℤ → List ℕ → Frame
decoded frame_type codec flags frame_id timestamp payload = record {
  version = 0x0100;
  frame_id = frame_id;
  frame_type = frame_type;
  flags = from_bits flags;
  codec = codec;
  session_id = none;
  stream_id = none;
  topic = none;
  event = none;
  message_id = none;
  correlation_id = none;
  trace_id = none;
  timestamp = timestamp;
  ttl_ms = none;
  priority = none;
  payload = some payload;
}

-- The part of the decoder behind the tags: the lengths, then the payload.
unfoldable pub decode_body : FrameType → EncodingFormat → List ℕ → ℕ → Result Frame
decode_body frame_type codec buf max_payload_len =
    let payload_len = from_be_bytes (slice 20 4 buf) in
    if ltb max_payload_len payload_len
    then err (in_frame (payload_too_large payload_len max_payload_len))
    else if ltb (length buf) (24 + payload_len)
    then err (
        in_frame (
          frame_invalid (
            text "payload truncated: want "
            ∷ nat payload_len
            ∷ text ", have "
            ∷ nat (length buf - 24)
            ∷ [])))
    else ok (
        decoded frame_type codec (from_be_bytes (slice 2 2 buf)) (from_be_bytes (slice 4 8 buf))
          (as_i64 (from_be_bytes (slice 12 8 buf))) (slice 24 payload_len buf))

unfoldable pub decode_binary_frame : List ℕ → ℕ → Result Frame
decode_binary_frame buf max_payload_len =
    if ltb (length buf) 24
    then err (in_frame (frame_invalid (text "binary frame too short: " ∷ nat (length buf) ∷ [])))
    else do
      frame_type ← or_invalid (from_tag (byte_at 0 buf)) "unknown frame type tag"
      codec ← or_invalid (codec_from_tag (byte_at 1 buf)) "unknown codec tag"
      decode_body frame_type codec buf max_payload_len
