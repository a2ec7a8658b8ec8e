-- ===== src/Protocol/ErrorCode.antt =====
-- rifts-core/src/protocol/error_code.rs: the machine-readable error codes, and `rift_error_to_code`
-- of rifts-broker/src/connection/control.rs, which names the code of an error for the peer.
use rifts.Prelude.{
  String, ◌≡◌, refl, ap, Bool, true, false, arith, List, [], ◌∷◌, Option, none, some, ◌==◌,
  string_eq, ◌↔◌, ◌⊎◌, inl, inr, if◌then◌else◌,
}
use rifts.Errors.{
  RiftError, in_frame, in_session, in_topic, in_message, in_auth, in_system, FrameReject,
  SessionReject, TopicReject, MessageReject, AuthReject, SystemReject, Message,
}

pub data ErrorCode : Type 0 where
  protocol_version_unsupported protocol_frame_invalid protocol_codec_unsupported
        protocol_payload_too_large protocol_required_field_missing protocol_schema_mismatch
        protocol_order_violation auth_required auth_invalid auth_expired auth_revoked
        permission_denied topic_forbidden session_not_found session_expired session_conflict
        resume_rejected replay_offset_expired snapshot_required topic_not_found topic_closed
        topic_overloaded topic_subscriber_limit topic_publisher_limit topic_rate_limited
        message_duplicate message_expired message_rejected message_too_large message_ack_timeout
        message_delivery_failed system_overloaded system_maintenance system_shard_moved
        system_region_unavailable system_internal :
      ErrorCode

unfoldable pub as_str : ErrorCode → String
as_str protocol_version_unsupported = "RIFT_PROTOCOL_VERSION_UNSUPPORTED"
as_str protocol_frame_invalid = "RIFT_PROTOCOL_FRAME_INVALID"
as_str protocol_codec_unsupported = "RIFT_PROTOCOL_CODEC_UNSUPPORTED"
as_str protocol_payload_too_large = "RIFT_PROTOCOL_PAYLOAD_TOO_LARGE"
as_str protocol_required_field_missing = "RIFT_PROTOCOL_REQUIRED_FIELD_MISSING"
as_str protocol_schema_mismatch = "RIFT_PROTOCOL_SCHEMA_MISMATCH"
as_str protocol_order_violation = "RIFT_PROTOCOL_ORDER_VIOLATION"
as_str auth_required = "RIFT_AUTH_REQUIRED"
as_str auth_invalid = "RIFT_AUTH_INVALID"
as_str auth_expired = "RIFT_AUTH_EXPIRED"
as_str auth_revoked = "RIFT_AUTH_REVOKED"
as_str permission_denied = "RIFT_PERMISSION_DENIED"
as_str topic_forbidden = "RIFT_TOPIC_FORBIDDEN"
as_str session_not_found = "RIFT_SESSION_NOT_FOUND"
as_str session_expired = "RIFT_SESSION_EXPIRED"
as_str session_conflict = "RIFT_SESSION_CONFLICT"
as_str resume_rejected = "RIFT_RESUME_REJECTED"
as_str replay_offset_expired = "RIFT_REPLAY_OFFSET_EXPIRED"
as_str snapshot_required = "RIFT_SNAPSHOT_REQUIRED"
as_str topic_not_found = "RIFT_TOPIC_NOT_FOUND"
as_str topic_closed = "RIFT_TOPIC_CLOSED"
as_str topic_overloaded = "RIFT_TOPIC_OVERLOADED"
as_str topic_subscriber_limit = "RIFT_TOPIC_SUBSCRIBER_LIMIT"
as_str topic_publisher_limit = "RIFT_TOPIC_PUBLISHER_LIMIT"
as_str topic_rate_limited = "RIFT_TOPIC_RATE_LIMITED"
as_str message_duplicate = "RIFT_MESSAGE_DUPLICATE"
as_str message_expired = "RIFT_MESSAGE_EXPIRED"
as_str message_rejected = "RIFT_MESSAGE_REJECTED"
as_str message_too_large = "RIFT_MESSAGE_TOO_LARGE"
as_str message_ack_timeout = "RIFT_MESSAGE_ACK_TIMEOUT"
as_str message_delivery_failed = "RIFT_MESSAGE_DELIVERY_FAILED"
as_str system_overloaded = "RIFT_SYSTEM_OVERLOADED"
as_str system_maintenance = "RIFT_SYSTEM_MAINTENANCE"
as_str system_shard_moved = "RIFT_SYSTEM_SHARD_MOVED"
as_str system_region_unavailable = "RIFT_SYSTEM_REGION_UNAVAILABLE"
as_str system_internal = "RIFT_SYSTEM_INTERNAL"

unfoldable pub is_retryable : ErrorCode → Bool
is_retryable system_overloaded = true
is_retryable system_shard_moved = true
is_retryable system_region_unavailable = true
is_retryable topic_overloaded = true
is_retryable topic_rate_limited = true
is_retryable replay_offset_expired = true
is_retryable message_delivery_failed = true
is_retryable message_ack_timeout = true
is_retryable _ = false

frame_code : FrameReject → ErrorCode
frame_code (FrameReject.protocol_version_unsupported _ _) = protocol_version_unsupported
frame_code (FrameReject.frame_invalid _) = protocol_frame_invalid
frame_code (FrameReject.codec_unsupported _) = protocol_codec_unsupported
frame_code (FrameReject.payload_too_large _ _) = protocol_payload_too_large
frame_code (FrameReject.required_field_missing _) = protocol_required_field_missing
frame_code (FrameReject.schema_mismatch _) = protocol_schema_mismatch
frame_code (FrameReject.order_violation _) = protocol_order_violation

session_code : SessionReject → ErrorCode
session_code (SessionReject.not_found _) = session_not_found
session_code SessionReject.expired = session_expired
session_code SessionReject.closed = session_expired
session_code (SessionReject.conflict _ _) = session_conflict
session_code (SessionReject.resume_rejected _) = resume_rejected
session_code (SessionReject.replay_offset_expired _ _) = replay_offset_expired
session_code (SessionReject.snapshot_required _) = snapshot_required
session_code SessionReject.idle_timeout = session_expired

topic_code : TopicReject → ErrorCode
topic_code (TopicReject.not_found _) = topic_not_found
topic_code (TopicReject.closed _) = topic_closed
topic_code (TopicReject.overloaded _) = topic_overloaded
topic_code (TopicReject.subscriber_limit _) = topic_subscriber_limit
topic_code (TopicReject.publisher_limit _) = topic_publisher_limit
topic_code (TopicReject.forbidden _) = topic_forbidden
topic_code (TopicReject.rate_limited _) = topic_rate_limited
topic_code (TopicReject.invalid_name _) = protocol_frame_invalid

auth_code : AuthReject → ErrorCode
auth_code AuthReject.required = auth_required
auth_code (AuthReject.invalid _) = auth_invalid
auth_code AuthReject.expired = auth_expired
auth_code AuthReject.revoked = auth_revoked
auth_code (AuthReject.denied _) = permission_denied

message_code : MessageReject → ErrorCode
message_code (MessageReject.duplicate _) = message_duplicate
message_code MessageReject.expired = message_expired
message_code (MessageReject.rejected _) = message_rejected
message_code (MessageReject.too_large _ _) = message_too_large
message_code (MessageReject.ack_timeout _) = message_ack_timeout
message_code (MessageReject.delivery_failed _) = message_delivery_failed

system_code : SystemReject → ErrorCode
system_code SystemReject.overloaded = system_overloaded
system_code SystemReject.maintenance = system_maintenance
system_code (SystemReject.shard_moved _) = system_shard_moved
system_code (SystemReject.region_unavailable _) = system_region_unavailable
system_code (SystemReject.internal _) = system_internal

unfoldable pub code_of : RiftError → ErrorCode
unfolding frame_code session_code topic_code auth_code message_code system_code
code_of (in_frame e) = frame_code e
code_of (in_session e) = session_code e
code_of (in_topic e) = topic_code e
code_of (in_auth e) = auth_code e
code_of (in_message e) = message_code e
code_of (in_system e) = system_code e
code_of _ = system_internal

unfoldable pub rift_error_to_code : RiftError → String
unfolding code_of as_str
rift_error_to_code e = as_str (code_of e)

abbrev all_codes : List ErrorCode
all_codes =
    protocol_version_unsupported ∷ protocol_frame_invalid ∷ protocol_codec_unsupported
    ∷ protocol_payload_too_large ∷ protocol_required_field_missing ∷ protocol_schema_mismatch
    ∷ protocol_order_violation ∷ auth_required ∷ auth_invalid ∷ auth_expired ∷ auth_revoked
    ∷ permission_denied ∷ topic_forbidden ∷ session_not_found ∷ session_expired ∷ session_conflict
    ∷ resume_rejected ∷ replay_offset_expired ∷ snapshot_required ∷ topic_not_found ∷ topic_closed
    ∷ topic_overloaded ∷ topic_subscriber_limit ∷ topic_publisher_limit ∷ topic_rate_limited
    ∷ message_duplicate ∷ message_expired ∷ message_rejected ∷ message_too_large
    ∷ message_ack_timeout ∷ message_delivery_failed ∷ system_overloaded ∷ system_maintenance
    ∷ system_shard_moved ∷ system_region_unavailable ∷ system_internal ∷ []

-- The first code of the list with the given name.
named : String → List ErrorCode → Option ErrorCode
named s [] = none
named s (c ∷ cs) = if as_str c == s then some c else named s cs

named-as_str : (c : ErrorCode) → named (as_str c) all_codes ≡ some c
unfolding named as_str
named-as_str protocol_version_unsupported = refl
named-as_str _ = refl

-- No two error codes have the same name on the wire.
pub as_str-injective : (a b : ErrorCode) → as_str a ≡ as_str b → a ≡ b
as_str-injective a b h =
    ground (arith, named-as_str a, named-as_str b, ap (λ s. named s all_codes) h)

-- The code sent for a rejected frame or rejected credentials is never one that may be retried, and
-- neither is the one for an error outside the six rejections; the code for a system rejection may
-- be retried unless it is maintenance or an internal error.
pub code_of_retry :
    (f : FrameReject) (a : AuthReject) (s : SystemReject)
    → (is_retryable (code_of (in_frame f)) ≡ false)
      × (is_retryable (code_of (in_auth a)) ≡ false)
      × ((is_retryable (code_of (in_system s)) ≡ false)
          ↔ ((s ≡ SystemReject.maintenance) ⊎ ((m : Message) × (s ≡ SystemReject.internal m))))
unfolding is_retryable code_of
code_of_retry f a s = (ground arith, ground arith, (system s, λ h. ground arith))
  where
    system :
        (s : SystemReject)
        → is_retryable (code_of (in_system s)) ≡ false
        → (s ≡ SystemReject.maintenance) ⊎ ((m : Message) × (s ≡ SystemReject.internal m))
    system SystemReject.maintenance h = inl refl
    system (SystemReject.internal m) h = inr (m, refl)
    system SystemReject.overloaded h = cc
    system (SystemReject.shard_moved m) h = cc
    system (SystemReject.region_unavailable m) h = cc
