-- ===== src/Client/Dispatch.antt =====
-- rifts-client/src/connection.rs, `reader_task`, `dispatch_text_envelope` and `dispatch_frame`: what a
-- client makes of what it receives. A pending command is its correlation id; `answered` are the replies
-- handed to waiting commands. What serde derives to read a message from a value is a parameter, and so are
-- the text of a frame that `format!` gives and the bytes of a text.
pub mod Replies
use rifts.Prelude.{
  ℕ, String, Bool, true, false, ◌||◌, Option, none, some, List, [], ◌∷◌, ◌++◌, ◌==◌, string_eq,
  if◌then◌else◌, is_some,
}
use rifts.Prelude.Int.{ℤ, pos}
use rifts.Prelude.Map.{Map, lookup, remove, contains_key}
use rifts.Errors.{Result, ok, err, Message, text}
use rifts.Errors.Display.{display}
use rifts.Json.{Json, Parsed, broken, parsed}
use rifts.Ack.{
  AckStatus, received, accepted, persisted, delivered, processed, rejected, expired, duplicate,
  failed,
}
use rifts.Frame.Types.{FrameType, control, frame_data, ack, flow, frame_error}
use rifts.Frame.Envelope.{Frame}
use rifts.Frame.Codec.{decode_binary_frame, default_max_binary_payload}
use rifts.Frame.Text.{decode_text_frame}
use rifts.Message.{Event, Reply, State, Datagram, StreamSegment, Snapshot}
use rifts.Connection.HelloPayload.{or_else, and_then}
use rifts.Client.Heartbeat.{HeartbeatState, reset_missed}
use rifts.Client.Events.{
  ClientEvent, event_received, reply_received, state_received, datagram_received, stream_received,
  snapshot_received, system_received, ack_received, pong_received, client_error,
}

pub record Derived (V : Type 0) : Type 0 where
  pub event_from : V → Option (Event V)
  pub reply_from : V → Option (Reply V)
  pub state_from : V → Option (State V)
  pub datagram_from : V → Option (Datagram V)
  pub segment_from : V → Option (StreamSegment V)
  pub snapshot_from : V → Option (Snapshot V)
  pub frame_text : Frame → Message
  pub text_bytes : String → List ℕ

pub record Reader (V : Type 0) : Type 0 where
  pub pending : Map String (Unit {0})
  pub answered : List (Reply V)
  pub heartbeat : HeartbeatState
  pub told : List (ClientEvent V)

-- A message of the socket.
pub data WsMessage : Type 0 where
  binary : List ℕ → WsMessage
  text_message : String → WsMessage
  close ping_or_pong : WsMessage

-- What the socket gives next.
pub data Next : Type 0 where
  message : WsMessage → Next
  read_error : Message → Next
  ended : Next

unfoldable pub status_of : String → AckStatus
status_of s =
    if s == "received"
    then received
    else if s == "accepted"
    then accepted
    else if s == "persisted"
    then persisted
    else if s == "delivered"
    then delivered
    else if s == "processed"
    then processed
    else if s == "rejected"
    then rejected
    else if s == "expired"
    then expired
    else if s == "duplicate"
    then duplicate
    else if s == "failed"
    then failed
    else received

-- The kinds that are handled elsewhere.
abbrev pub is_answer : String → Bool
is_answer kind =
    kind == "welcome" || (kind == "ready" || (kind == "subscribe_ack" || kind == "unsubscribe_ack"))

abbrev pub value_in : {V : Type 0} → Parsed V → Option V
value_in (broken m) = none
value_in (parsed v) = some v

abbrev pub or_other : {A : Type 0} → Option A → Option A → Option A
or_other none other = other
or_other (some a) other = some a

module _ {V : Type 0} (j : Json V) (d : Derived V) where
  abbrev pub text_field : V → String → Option String
  text_field obj key = and_then (j.get obj key) j.as_str

  abbrev pub tell : ClientEvent V → Reader V → Reader V
  tell e r = record r { told = r.told ++ e ∷ [] }

  abbrev pub tell_some : {A : Type 0} → (A → ClientEvent V) → Option A → Reader V → Reader V
  tell_some event none r = r
  tell_some event (some a) r = tell (event a) r

  -- A pong resets the count of the heartbeat.
  abbrev pub pong : V → Reader V → Reader V
  pong obj r =
      tell (pong_received (or_else (pos 0) (and_then (j.get obj "timestamp") j.as_i64)))
        (record r { heartbeat = reset_missed r.heartbeat })

  abbrev pub resolve : Reply V → Reader V → Reader V
  resolve reply r =
      if contains_key reply.correlation_id r.pending
      then record r {
        pending = remove reply.correlation_id r.pending;
        answered = r.answered ++ reply ∷ [];
      }
      else r

  abbrev pub on_reply : Option (Reply V) → Reader V → Reader V
  on_reply none r = r
  on_reply (some reply) r = tell (reply_received reply) (resolve reply r)

  -- The match on the class of a message.
  unfoldable pub on_class :
      (class : Option String) → (topic : Option String) → V → Reader V → Reader V
  on_class none topic obj r = r
  on_class (some class) topic obj r =
      let at = or_else "" topic in
      if class == "event"
      then tell_some (event_received at) (d.event_from obj) r
      else if class == "reply"
      then on_reply (d.reply_from obj) r
      else if class == "state"
      then tell_some (state_received at) (d.state_from obj) r
      else if class == "datagram"
      then tell_some (datagram_received at) (d.datagram_from obj) r
      else if class == "stream"
      then tell_some (stream_received at) (d.segment_from obj) r
      else if class == "snapshot"
      then tell_some (snapshot_received at) (d.snapshot_from obj) r
      else if class == "system"
      then tell
          (system_received (or_else "" (text_field obj "event"))
            (or_else j.null (j.get obj "payload")))
          r
      else r

  abbrev pub on_flow : V → Reader V → Reader V
  on_flow obj r = if or_else "" (text_field obj "type") == "pong" then pong obj r else r

  abbrev pub on_ack : V → Reader V → Reader V
  on_ack obj r =
      tell
        (ack_received (or_else "" (text_field obj "message_id"))
          (status_of (or_else "received" (text_field obj "status"))))
        r

  -- The value of a payload that there is and that parses.
  abbrev pub payload_value : Frame → Option V
  payload_value frame = and_then frame.payload (λ bytes. value_in (j.from_slice bytes))

  abbrev pub with_value : Option V → (V → Reader V → Reader V) → Reader V → Reader V
  with_value none f r = r
  with_value (some obj) f r = f obj r

  abbrev pub on_message : Frame → V → Reader V → Reader V
  on_message frame obj r =
      on_class (text_field obj "class") (or_other frame.topic (text_field obj "topic")) obj r

  unfoldable pub dispatch_frame : Frame → Reader V → Reader V
  unfolding on_class
  dispatch_frame frame r = elim frame.frame_type [
    | flow ↦ with_value (payload_value frame) on_flow r
    | ack ↦ with_value (payload_value frame) on_ack r
    | frame_data ↦ with_value (payload_value frame) (on_message frame) r
    | control ↦ with_value (payload_value frame) (on_message frame) r
    | frame_error ↦ tell (client_error (d.frame_text frame)) r
  ]

  abbrev pub on_decoded : Result Frame → Reader V → Reader V
  on_decoded (ok frame) r = dispatch_frame frame r
  on_decoded (err e) r = r

  unfoldable pub dispatch_text_envelope : V → Reader V → Reader V
  unfolding dispatch_frame
  dispatch_text_envelope obj r =
      let kind = or_else "" (text_field obj "type") in
      if kind == "pong"
      then pong obj r
      else if is_answer kind
      then r
      else on_decoded (decode_text_frame j (j.to_string obj)) r

  abbrev pub on_fallback : Result Frame → Reader V → Reader V
  on_fallback (ok frame) r = dispatch_frame frame r
  on_fallback (err e) r = tell (client_error (text "text decode: " ∷ display e)) r

  abbrev pub on_text : String → Parsed V → Reader V → Reader V
  on_text s (parsed obj) r = dispatch_text_envelope obj r
  on_text s (broken m) r = on_fallback (decode_text_frame j (d.text_bytes s)) r

  abbrev pub on_ws_message : WsMessage → Reader V → Reader V
  on_ws_message (binary bytes) r =
      on_decoded (decode_binary_frame bytes default_max_binary_payload) r
  on_ws_message (text_message s) r = on_text s (j.from_str s) r
  on_ws_message close r = r
  on_ws_message ping_or_pong r = r

  -- The loop over what the socket gives; the Boolean is whether the connection was found lost.
  unfoldable pub reader_task : List Next → Reader V → Reader V × Bool
  unfolding dispatch_frame dispatch_text_envelope
  reader_task [] r = (r, false)
  reader_task (read_error m ∷ rest) r = (tell (client_error (text "ws read: " ∷ m)) r, true)
  reader_task (ended ∷ rest) r = (r, true)
  reader_task (message close ∷ rest) r = (r, true)
  reader_task (message (binary bytes) ∷ rest) r = reader_task rest (on_ws_message (binary bytes) r)
  reader_task (message (text_message s) ∷ rest) r =
      reader_task rest (on_ws_message (text_message s) r)
  reader_task (message ping_or_pong ∷ rest) r = reader_task rest r
