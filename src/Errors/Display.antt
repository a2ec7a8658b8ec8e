-- ===== src/Errors/Display.antt =====
-- rifts-core/src/error.rs: what the `#[error(..)]` attributes of each error display.
use rifts.Prelude.{String, [], ◌∷◌}
use rifts.Errors.{
  text, nat, int, Message, StorageError, FrameReject, SessionReject, TopicReject, MessageReject,
  AuthReject, SystemReject, ConfigError, RiftError, in_frame, in_session, in_topic, in_message,
  in_auth, in_system, in_storage, in_config, io_error, serde_json, cbor, cbor_de, web_socket, other,
}

abbrev about : String → String → Message
about prefix s = text prefix ∷ text s ∷ []

abbrev told : String → Message → Message
told prefix m = text prefix ∷ m

unfoldable display_frame : FrameReject → Message
display_frame (FrameReject.protocol_version_unsupported client server) =
    text "protocol version unsupported: client=" ∷ nat client ∷ text ", server=" ∷ nat server ∷ []
display_frame (FrameReject.frame_invalid m) = told "frame is malformed: " m
display_frame (FrameReject.codec_unsupported m) = told "codec unsupported: " m
display_frame (FrameReject.payload_too_large actual max) =
    text "payload too large: " ∷ nat actual ∷ text " > " ∷ nat max ∷ []
display_frame (FrameReject.required_field_missing field) = about "required field missing: " field
display_frame (FrameReject.schema_mismatch m) = told "schema mismatch: " m
display_frame (FrameReject.order_violation m) = told "order violation: " m

unfoldable display_session : SessionReject → Message
display_session (SessionReject.not_found id) = about "session not found: " id
display_session SessionReject.expired = text "session expired" ∷ []
display_session SessionReject.closed = text "session closed by peer" ∷ []
display_session (SessionReject.conflict incoming current) =
    text "session epoch conflict: incoming=" ∷ nat incoming ∷ text ", current=" ∷ nat current ∷ []
display_session (SessionReject.resume_rejected m) = told "resume rejected: " m
display_session (SessionReject.replay_offset_expired topic requested) =
    text "replay offset expired: topic=" ∷ text topic ∷ text ", requested=" ∷ int requested ∷ []
display_session (SessionReject.snapshot_required topic) =
    about "snapshot required for topic: " topic
display_session SessionReject.idle_timeout = text "connection idle timeout" ∷ []

unfoldable display_topic : TopicReject → Message
display_topic (TopicReject.not_found t) = about "topic not found: " t
display_topic (TopicReject.closed t) = about "topic closed: " t
display_topic (TopicReject.overloaded t) = about "topic overloaded: " t
display_topic (TopicReject.subscriber_limit t) = about "topic subscriber limit reached: " t
display_topic (TopicReject.publisher_limit t) = about "topic publisher limit reached: " t
display_topic (TopicReject.forbidden t) = about "topic forbidden: " t
display_topic (TopicReject.rate_limited t) = about "topic rate limited: " t
display_topic (TopicReject.invalid_name m) = told "invalid topic name: " m

unfoldable display_message : MessageReject → Message
display_message (MessageReject.duplicate id) = about "duplicate message: id=" id
display_message MessageReject.expired = text "message expired" ∷ []
display_message (MessageReject.rejected m) = told "message rejected: " m
display_message (MessageReject.too_large actual max) =
    text "message too large: " ∷ nat actual ∷ text " > " ∷ nat max ∷ []
display_message (MessageReject.ack_timeout m) = told "ack timeout: id=" m
display_message (MessageReject.delivery_failed m) = told "delivery failed: " m

unfoldable display_auth : AuthReject → Message
display_auth AuthReject.required = text "authentication required" ∷ []
display_auth (AuthReject.invalid m) = told "authentication invalid: " m
display_auth AuthReject.expired = text "authentication expired" ∷ []
display_auth AuthReject.revoked = text "authentication revoked" ∷ []
display_auth (AuthReject.denied m) = told "permission denied: " m

unfoldable display_system : SystemReject → Message
display_system SystemReject.overloaded = text "system overloaded" ∷ []
display_system SystemReject.maintenance = text "system maintenance" ∷ []
display_system (SystemReject.shard_moved m) = told "shard moved: topic=" m
display_system (SystemReject.region_unavailable m) = told "region unavailable: " m
display_system (SystemReject.internal m) = told "internal error: " m

unfoldable display_storage : StorageError → Message
display_storage (StorageError.io m) = told "storage engine I/O failure: " m
display_storage (StorageError.key_not_found m) = told "storage key not found: " m
display_storage (StorageError.serialization m) = told "storage serialization failure: " m
display_storage (StorageError.engine m) = told "storage engine error: " m
display_storage (StorageError.capacity_exceeded m) = told "storage capacity exceeded: " m
display_storage (StorageError.permission_denied m) = told "storage permission denied: " m

-- `to_string` of the joined error, and of its transparent layers.
unfoldable pub display : RiftError → Message
unfolding display_frame display_session display_topic display_message display_auth display_system
    display_storage
display (in_frame e) = display_frame e
display (in_session e) = display_session e
display (in_topic e) = display_topic e
display (in_message e) = display_message e
display (in_auth e) = display_auth e
display (in_system e) = display_system e
display (in_storage e) = display_storage e
display (in_config (ConfigError.invalid_value field m)) =
    text "config error: invalid value for " ∷ text field ∷ text ": " ∷ m
display (io_error m) = told "io error: " m
display (serde_json m) = told "serde_json error: " m
display (cbor m) = told "ciborium error: " m
display (cbor_de m) = told "ciborium de error: " m
display (web_socket m) = told "websocket error: " m
display (other m) = told "other: " m
