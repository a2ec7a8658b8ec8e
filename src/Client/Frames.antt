-- ===== src/Client/Frames.antt =====
-- rifts-client/src/frame_builder.rs: the frames that a client sends. `now` is the result of `now_ms()`;
-- `serde_json::to_vec` of a value prints what `to_string` prints and does not fail.
use rifts.Prelude.{ℕ, ◌+◌, ◌%◌, ◌^◌, String, Option, none, some, List, [], ◌∷◌, map}
use rifts.Prelude.Int.{ℤ, pos}
use rifts.Prelude.Map.{Map}
use rifts.Json.{Json}
use rifts.Frame.Types.{
  FrameType, control, frame_data, ack, flow, EncodingFormat, json, codec_name, Priority,
}
use rifts.Frame.Envelope.{Frame, default_frame}

-- `FrameIdCounter::next`: the counter, and the id one above it. The sum that `fetch_add` stores wraps.
unfoldable pub next_frame_id : (counter : ℕ) → ℕ × ℕ
next_frame_id counter = let id = (counter + 1) % 2 ^ 64 in (id, id)

abbrev pub wire_version : ℕ
wire_version = 0x100

module _ {V : Type 0} (j : Json V) (now : ℤ) where
  abbrev pub built : FrameType → (id : ℕ) → Map String V → Frame
  built kind id body = record default_frame {
    version = wire_version;
    frame_id = id;
    frame_type = kind;
    codec = json;
    timestamp = now;
    payload = some (j.to_string (j.object body));
  }

  abbrev pub text_or_null : Option String → V
  text_or_null none = j.null
  text_or_null (some s) = j.string s

  abbrev pub number_or_null : Option ℕ → V
  number_or_null none = j.null
  number_or_null (some n) = j.number (pos n)

  abbrev pub int_or_null : Option ℤ → V
  int_or_null none = j.null
  int_or_null (some z) = j.number z

  -- `sdk_version` is the version of the crate.
  unfoldable pub hello_body :
      (client_id : String)
      → (session_id : Option String) → (epoch : ℕ) → List EncodingFormat
      → (token : String) → (last_offsets : Map String ℤ) → (features : List String)
      → (sdk_version : String) → Map String V
  unfolding codec_name
  hello_body client_id session_id epoch codecs token last_offsets features sdk_version =
      ("protocol", j.string "rift")
      ∷ ("version", j.number (pos wire_version))
      ∷ ("client_id", j.string client_id)
      ∷ ("session_id", text_or_null session_id)
      ∷ ("epoch", j.number (pos epoch))
      ∷ ("codecs", j.array (map (λ c. j.string (codec_name c)) codecs))
      ∷ ("auth_modes", j.array (j.string "bearer" ∷ []))
      ∷ ("token", j.string token)
      ∷ ("last_offsets", j.object (map (λ (k, z). (k, j.number z)) last_offsets))
      ∷ (
        "sdk",
        j.object (("name", j.string "rifts-client") ∷ ("version", j.string sdk_version) ∷ []),
      )
      ∷ ("features", j.array (map j.string features))
      ∷ []

  unfoldable pub hello_frame :
      (id : ℕ)
      → (client_id : String) → (session_id : Option String) → (epoch : ℕ) → List EncodingFormat
      → (token : String) → (last_offsets : Map String ℤ) → (features : List String)
      → (sdk_version : String) → Frame
  unfolding hello_body
  hello_frame id client_id session_id epoch codecs token last_offsets features sdk_version =
      built control id
        (hello_body client_id session_id epoch codecs token last_offsets features sdk_version)

  abbrev pub data_frame :
      (id : ℕ)
      → (topic : String) → (event message_id correlation_id : Option String) → Map String V
      → Frame
  data_frame id topic event message_id correlation_id body = record (built frame_data id body) {
    topic = some topic;
    event = event;
    message_id = message_id;
    correlation_id = correlation_id;
  }

  unfoldable pub event_frame :
      (id : ℕ)
      → (topic event message_id schema : String) → (payload : V)
      → (dedupe_key ordering_key : Option String) → (ttl_ms : Option ℕ) → Option Priority
      → Frame
  event_frame id topic event message_id schema payload dedupe_key ordering_key ttl_ms priority =
      record (data_frame id topic (some event) (some message_id) none (
        ("class", j.string "event")
        ∷ ("event", j.string event)
        ∷ ("message_id", j.string message_id)
        ∷ ("schema", j.string schema)
        ∷ ("payload", payload)
        ∷ ("dedupe_key", text_or_null dedupe_key)
        ∷ ("ordering_key", text_or_null ordering_key)
        ∷ ("ttl_ms", number_or_null ttl_ms)
        ∷ [])) { priority = priority; ttl_ms = ttl_ms }

  unfoldable pub command_frame :
      (id : ℕ)
      → (topic command correlation_id : String) → (timeout_ms : ℕ) → (schema : String)
      → (payload : V) → (idempotency_key : Option String) → Option Priority
      → Frame
  command_frame id topic command correlation_id timeout_ms schema payload idempotency_key priority =
      record (data_frame id topic none none (some correlation_id) (
        ("class", j.string "command")
        ∷ ("command", j.string command)
        ∷ ("correlation_id", j.string correlation_id)
        ∷ ("timeout_ms", j.number (pos timeout_ms))
        ∷ ("idempotency_key", text_or_null idempotency_key)
        ∷ ("schema", j.string schema)
        ∷ ("payload", payload)
        ∷ [])) { priority = priority }

  unfoldable pub state_frame :
      (id : ℕ)
      → (topic state_key : String) → (value : V) → (name : Option String) → (ttl_ms : Option ℕ)
      → (subject : Option String) → Frame
  state_frame id topic state_key value name ttl_ms subject = data_frame id topic none none none (
      ("class", j.string "state")
      ∷ ("state_key", j.string state_key)
      ∷ ("name", text_or_null name)
      ∷ ("value", value)
      ∷ ("ttl_ms", number_or_null ttl_ms)
      ∷ ("subject", text_or_null subject)
      ∷ ("updated_at", j.number now)
      ∷ [])

  unfoldable pub datagram_frame :
      (id : ℕ) → (topic schema : String) → (event : Option String) → (payload : V) → Frame
  datagram_frame id topic schema event payload = data_frame id topic none none none (
      ("class", j.string "datagram")
      ∷ ("schema", j.string schema)
      ∷ ("event", text_or_null event)
      ∷ ("payload", payload)
      ∷ [])

  -- `final_segment` is given as the value that `json!` makes of it.
  unfoldable pub stream_frame :
      (id : ℕ)
      → (topic stream_id : String) → (seq : ℕ) → (schema : String) → (payload : V)
      → (final_segment : V) → Frame
  stream_frame id topic stream_id seq schema payload final_segment =
      data_frame id topic none none none (
        ("class", j.string "stream")
        ∷ ("stream_id", j.string stream_id)
        ∷ ("seq", j.number (pos seq))
        ∷ ("final_segment", final_segment)
        ∷ ("schema", j.string schema)
        ∷ ("payload", payload)
        ∷ [])

  abbrev pub subscribe_body : (topic mode : String) → (from_offset : Option ℤ) → Map String V
  subscribe_body topic mode from_offset =
      ("type", j.string "subscribe")
      ∷ ("topic", j.string topic)
      ∷ ("mode", j.string mode)
      ∷ ("from_offset", int_or_null from_offset)
      ∷ ("filter", j.null)
      ∷ []

  unfoldable pub subscribe_frame :
      (id : ℕ) → (topic mode : String) → (from_offset : Option ℤ) → Frame
  subscribe_frame id topic mode from_offset =
      built control id (subscribe_body topic mode from_offset)

  abbrev pub unsubscribe_body : (topic : String) → Map String V
  unsubscribe_body topic = ("type", j.string "unsubscribe") ∷ ("topic", j.string topic) ∷ []

  unfoldable pub unsubscribe_frame : (id : ℕ) → (topic : String) → Frame
  unsubscribe_frame id topic = built control id (unsubscribe_body topic)

  unfoldable pub ack_frame : (id : ℕ) → (message_id status : String) → Frame
  ack_frame id message_id status =
      built ack id (("message_id", j.string message_id) ∷ ("status", j.string status) ∷ [])

  unfoldable pub ping_frame : (id : ℕ) → Frame
  ping_frame id = built flow id (("type", j.string "ping") ∷ ("timestamp", j.number now) ∷ [])
