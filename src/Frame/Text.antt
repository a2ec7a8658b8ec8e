-- ===== src/Frame/Text.antt =====
-- rifts-core/src/frame_codec.rs, `decode_text_frame`: a frame as a JSON object. JSON is a library and so
-- a parameter; the printing of a payload, which the source replaces by no bytes where it fails, is the
-- total `to_string`. Casts `as u16` and `as u32` keep the low bits.
pub mod Fields
pub mod Accepts
use rifts.Prelude.{
  ℕ, ◌%◌, ◌^◌, ◌≡◌, ◌⊎◌, ◌↔◌, String, Option, none, some, List, [], ◌∷◌, if◌then◌else◌, ◌==◌,
  string_eq, arith,
}
use rifts.Prelude.Int.{ℤ, pos}
use rifts.Prelude.Map.{Map, lookup}
use rifts.Errors.{Result, ok, err, in_frame, FrameReject, Message, text}
use rifts.Json.{Json, Parsed, broken, parsed}
use rifts.Frame.Types.{
  FrameType, control, frame_data, ack, flow, frame_error, EncodingFormat, json, cbor,
}
use rifts.Frame.Flags.{from_bits}
use rifts.Frame.Envelope.{Frame}
use rifts.Frame.Codec.{decode_binary_frame}

abbrev pub value_or {ℓ} : {A : Type ℓ} → A → Option A → A
value_or d none = d
value_or d (some a) = a

abbrev pub chain {ℓ κ} : {A : Type ℓ} {B : Type κ} → Option A → (A → Option B) → Option B
chain none f = none
chain (some a) f = f a

-- The match on the text of `type`; a frame without one is a Data frame.
unfoldable pub type_named : Option String → Result FrameType
type_named none = ok frame_data
type_named (some s) =
    if s == "control"
    then ok control
    else if s == "data"
    then ok frame_data
    else if s == "ack"
    then ok ack
    else if s == "flow"
    then ok flow
    else if s == "error"
    then ok frame_error
    else err (in_frame (FrameReject.frame_invalid (text "unknown type: " ∷ text s ∷ [])))

-- The match on the text of `codec`.
unfoldable pub codec_or_json : Option String → EncodingFormat
codec_or_json none = json
codec_or_json (some s) = if s == "json" then json else if s == "cbor" then cbor else json

module _ {V : Type 0} (j : Json V) where
  abbrev pub text_of : Map String V → String → Option String
  text_of obj key = chain (lookup key obj) j.as_str

  abbrev pub number_of : Map String V → String → Option ℕ
  number_of obj key = chain (lookup key obj) j.as_u64

  abbrev pub frame_of : Map String V → FrameType → Frame
  frame_of obj frame_type = record {
    version = 0x0100;
    frame_id = value_or 0 (number_of obj "frame_id");
    frame_type = frame_type;
    flags = from_bits (value_or 0 (number_of obj "flags") % 2 ^ 16);
    codec = codec_or_json (text_of obj "codec");
    session_id = text_of obj "session_id";
    stream_id = text_of obj "stream_id";
    topic = text_of obj "topic";
    event = text_of obj "event";
    message_id = text_of obj "message_id";
    correlation_id = text_of obj "correlation_id";
    trace_id = text_of obj "trace_id";
    timestamp = value_or (pos 0) (chain (lookup "timestamp" obj) j.as_i64);
    ttl_ms = chain (number_of obj "ttl_ms") (λ n. some (n % 2 ^ 32));
    priority = none;
    payload = chain (lookup "payload" obj) (λ v. some (j.to_string v));
  }

  abbrev pub read_fields : Map String V → Result Frame
  read_fields obj = elim (type_named (text_of obj "type")) [
    | err e ↦ err e
    | ok frame_type ↦ ok (frame_of obj frame_type)
  ]

  abbrev pub read_envelope : Option (Map String V) → Result Frame
  read_envelope none = err (in_frame (FrameReject.frame_invalid (text "expected object" ∷ [])))
  read_envelope (some obj) = read_fields obj

  abbrev pub read_text : Parsed V → Result Frame
  read_text (broken m) = err (in_frame (FrameReject.frame_invalid (text "json envelope: " ∷ m)))
  read_text (parsed v) = read_envelope (j.as_object v)

  unfoldable pub decode_text_frame : List ℕ → Result Frame
  decode_text_frame buf = read_text (j.from_slice buf)
