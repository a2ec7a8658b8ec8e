-- ===== src/Message.antt =====
-- rifts-core/src/message: the messages that topics carry. `V` is the type of JSON values. What serde
-- derives for a type, and its errors as `RiftError`, is a parameter `Serde` of that type.
use rifts.Prelude.{ℕ, ◌==◌, Bool, if◌then◌else◌, String, string_eq, Option, List, [], ◌∷◌}
use rifts.Prelude.Int.{ℤ}
use rifts.Errors.{Result, ok, err, in_message, MessageReject, text, ◌>>=◌}

pub data MessageClass : Type 0 where
  event command reply state datagram stream snapshot system : MessageClass

unfoldable pub as_str : MessageClass → String
as_str event = "event"
as_str command = "command"
as_str reply = "reply"
as_str state = "state"
as_str datagram = "datagram"
as_str stream = "stream"
as_str snapshot = "snapshot"
as_str system = "system"

pub data DeliveryMode : Type 0 where
  at_most_once at_least_once exactly_once_effect latest_only best_effort durable_ordered :
      DeliveryMode

pub data SubscribeResult : Type 0 where
  accepted denied not_found gone replay_required snapshot_required rate_limited overloaded
        invalid_filter :
      SubscribeResult

pub data ReplyStatus : Type 0 where
  reply_ok reply_error timeout rejected : ReplyStatus

pub record ReplyError : Type 0 where
  pub code : String
  pub message : String

pub record Event (V : Type 0) : Type 0 where
  pub event_name : String
  pub message_id : String
  pub schema : String
  pub payload : V
  pub dedupe_key : Option String
  pub ordering_key : Option String
  pub ttl_ms : Option ℕ

pub record Command (V : Type 0) : Type 0 where
  pub command_name : String
  pub correlation_id : String
  pub timeout_ms : ℕ
  pub idempotency_key : Option String
  pub payload : V
  pub schema : String

pub record Reply (V : Type 0) : Type 0 where
  pub correlation_id : String
  pub status : ReplyStatus
  pub payload : Option V
  pub error : Option ReplyError
  pub server_time : ℤ

pub record State (V : Type 0) : Type 0 where
  pub state_key : String
  pub state_name : Option String
  pub value : V
  pub ttl_ms : Option ℕ
  pub subject : Option String
  pub updated_at : ℤ

pub record Presence (V : Type 0) : Type 0 where
  pub subject : String
  pub status : String
  pub session_id : Option String
  pub connection_id : Option String
  pub ttl_ms : Option ℕ
  pub metadata : Option V
  pub updated_at : ℤ

pub record Snapshot (V : Type 0) : Type 0 where
  pub topic : String
  pub snapshot_id : String
  pub base_offset : ℤ
  pub schema : String
  pub payload : V
  pub created_at : ℤ
  pub expires_at : Option ℤ
  pub checksum : Option String

pub record StreamSegment (V : Type 0) : Type 0 where
  pub stream_id : String
  pub seq : ℕ
  pub final_segment : Bool
  pub schema : String
  pub payload : V

pub record Datagram (V : Type 0) : Type 0 where
  pub schema : String
  pub event_name : Option String
  pub payload : V

pub data Message (V : Type 0) : Type 0 where
  of_event : Event V → Message V
  of_command : Command V → Message V
  of_reply : Reply V → Message V
  of_state : State V → Message V
  of_datagram : Datagram V → Message V
  of_stream : StreamSegment V → Message V
  of_snapshot : Snapshot V → Message V
  of_system : (event_name : String) (payload : V) → Message V

unfoldable pub class : {V : Type 0} → Message V → MessageClass
class (of_event _) = event
class (of_command _) = command
class (of_reply _) = reply
class (of_state _) = state
class (of_datagram _) = datagram
class (of_stream _) = stream
class (of_snapshot _) = snapshot
class (of_system _ _) = system

pub record Serde (A : Type 0) : Type 0 where
  pub to_vec : A → Result (List ℕ)
  pub from_slice : List ℕ → Result A

abbrev pub no_correlation : {A : Type 0} → Result A
no_correlation =
    err (in_message (MessageReject.rejected (text "command requires correlation_id" ∷ [])))

module _ {V : Type 0} (s : Serde (Command V)) where
  unfoldable pub encode_command : Command V → Result (List ℕ)
  encode_command c = if c.correlation_id == "" then no_correlation else s.to_vec c

  unfoldable pub decode_command : List ℕ → Result (Command V)
  decode_command bytes = do
    c ← s.from_slice bytes
    if c.correlation_id == "" then no_correlation else ok c

-- `encode_event_body`, `encode_reply`, `encode_state` and the others are `to_vec`, and `decode_reply` and
-- the others `from_slice`.
unfoldable pub decode_event_body : {V : Type 0} → Serde (Event V) → List ℕ → Result (Event V)
decode_event_body s [] = err (in_message (MessageReject.rejected (text "empty event payload" ∷ [])))
decode_event_body s (b ∷ bytes) = s.from_slice (b ∷ bytes)
