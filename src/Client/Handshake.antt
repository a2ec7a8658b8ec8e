-- ===== src/Client/Handshake.antt =====
-- rifts-client/src/connection.rs, `parse_handshake` and `await_handshake`, and the `Welcome` and `Ready`
-- of rifts-core/src/protocol/hello.rs.
pub mod Agreed
use rifts.Prelude.{
  ℕ, ◌%◌, ◌^◌, String, Option, none, some, List, [], ◌∷◌, ◌||◌, if◌then◌else◌, ◌==◌, string_eq,
}
use rifts.Prelude.Int.{ℤ, pos}
use rifts.Json.{Json}
use rifts.Frame.Types.{EncodingFormat, json, cbor, FrameType, control}
use rifts.Frame.Envelope.{Frame}
use rifts.Connection.HelloPayload.{and_then, or_else, recognised}

pub record Welcome : Type 0 where
  pub session_id : String
  pub epoch : ℕ
  pub negotiated_codec : EncodingFormat
  pub negotiated_compression : Option String
  pub server_time : ℤ
  pub resume_window_ms : ℕ
  pub features : List String

pub record Ready : Type 0 where
  pub session_id : String
  pub epoch : ℕ
  pub ping_interval_ms : ℕ
  pub pong_timeout_ms : ℕ
  pub max_missed_pongs : ℕ
  pub idle_timeout_ms : ℕ
  pub jitter_ms : ℕ
  pub max_payload_bytes : ℕ
  pub max_topics_per_connection : ℕ
  pub max_send_queue_bytes : ℕ
  pub server_time : ℤ

abbrev pub codec_read : Option String → EncodingFormat
codec_read none = json
codec_read (some s) = if s == "cbor" || s == "Cbor" then cbor else json

module _ {V : Type 0} (j : Json V) where
  abbrev pub text_in : V → String → Option String
  text_in obj key = and_then (j.get obj key) j.as_str

  abbrev pub u32_in : V → String → (default : ℕ) → ℕ
  u32_in obj key default = or_else default (and_then (j.get obj key) j.as_u64) % 2 ^ 32

  abbrev pub i64_in : V → String → ℤ
  i64_in obj key = or_else (pos 0) (and_then (j.get obj key) j.as_i64)

  unfoldable pub parse_welcome : V → Welcome
  parse_welcome obj = record {
    session_id = or_else "" (text_in obj "session_id");
    epoch = u32_in obj "epoch" 0;
    negotiated_codec = codec_read (text_in obj "negotiated_codec");
    negotiated_compression = text_in obj "negotiated_compression";
    server_time = i64_in obj "server_time";
    resume_window_ms = u32_in obj "resume_window_ms" 0;
    features = recognised j.as_str (or_else [] (and_then (j.get obj "features") j.as_array));
  }

  unfoldable pub parse_ready : V → Ready
  parse_ready obj = record {
    session_id = or_else "" (text_in obj "session_id");
    epoch = u32_in obj "epoch" 0;
    ping_interval_ms = u32_in obj "ping_interval_ms" 25_000;
    pong_timeout_ms = u32_in obj "pong_timeout_ms" 10_000;
    max_missed_pongs = u32_in obj "max_missed_pongs" 2;
    idle_timeout_ms = u32_in obj "idle_timeout_ms" 300_000;
    jitter_ms = u32_in obj "jitter_ms" 2_500;
    max_payload_bytes = u32_in obj "max_payload_bytes" 65_536;
    max_topics_per_connection = u32_in obj "max_topics_per_connection" 128;
    max_send_queue_bytes = u32_in obj "max_send_queue_bytes" 1_048_576;
    server_time = i64_in obj "server_time";
  }

  -- What the client has so far, and one more value.
  unfoldable pub parse_handshake : V → Option Welcome × Option Ready → Option Welcome × Option Ready
  unfolding parse_welcome parse_ready
  parse_handshake obj (w, r) =
      let kind = or_else "" (text_in obj "type") in
      if kind == "welcome"
      then (some (parse_welcome obj), r)
      else if kind == "ready"
      then (w, some (parse_ready obj))
      else (w, r)

  abbrev pub both : Option Welcome × Option Ready → Option (Welcome × Ready)
  both (some w, some r) = some (w, r)
  both (some w, none) = none
  both (none, r) = none

  -- The loop over the values of the control frames that come in.
  unfoldable pub await_handshake : List V → Option Welcome × Option Ready → Option (Welcome × Ready)
  unfolding parse_handshake
  await_handshake [] got = none
  await_handshake (obj ∷ rest) got =
      let got = parse_handshake obj got in
      let later = await_handshake rest got in
      elim (both got) [ some pair ↦ some pair | none ↦ later ]
