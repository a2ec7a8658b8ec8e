-- ===== src/Connection/Control.antt =====
-- rifts-broker/src/connection/control.rs, `handle_control` and the frames it sends. The state is that
-- of one connection after its handshake: what it shares with the others (broker, acknowledgements,
-- metrics), its session, and its own queue and sets.
use rifts.Prelude.{
  ℕ, String, Bool, Option, none, some, List, [], ◌∷◌, ◌++◌, if◌then◌else◌, ◌==◌, string_eq, nat_eq,
}
use rifts.Prelude.Int.{ℤ, pos}
use rifts.Prelude.Reap.{member}
use rifts.Errors.{Result, ok, err, RiftError, in_frame, in_system, FrameReject, SystemReject, text}
use rifts.Errors.Display.{display}
use rifts.Json.{Json, Parsed, broken, parsed}
use rifts.Metrics.{Metrics}
use rifts.Ack.{AckManager}
use rifts.Frame.Types.{EncodingFormat, json, control, frame_error}
use rifts.Frame.Envelope.{Frame, default_frame}
use rifts.Protocol.ErrorCode.{rift_error_to_code}
use rifts.Session.Lifecycle.{Session}
use rifts.Broker.Memory.{Broker, subscribe_to, unsubscribe_from}
use rifts.Connection.HelloPayload.{and_then, or_else, invalid}
use rifts.Connection.Outbound.{Outbound, Sent, sent, channel_full, channel_closed, try_send}

-- `handed` holds what the sinks of other connections were given.
pub record Conn : Type 0 where
  pub broker : Broker
  pub acks : AckManager
  pub metrics : Metrics
  pub session : Session
  pub out : Outbound
  pub published_topics : List String
  pub subscription_sinks : List ℕ
  pub codec : EncodingFormat
  pub max_bytes : ℕ
  pub sink_id : ℕ
  pub handed : List (ℕ × List ℕ)

pub data SubscribeIntent : Type 0 where
  live passive ephemeral latest snapshot_then_live : SubscribeIntent
  replay : (from : ℤ) → SubscribeIntent

-- `HashSet::insert`.
abbrev pub add_number : ℕ → List ℕ → List ℕ
add_number x xs = if member x xs then xs else xs ++ x ∷ []

abbrev pub after_send : Conn → Outbound × Sent → Conn × Result (Unit {0})
after_send c (o, sent) = (record c { out = o }, ok tt)
after_send c (o, channel_full) = (record c { out = o }, err (in_system SystemReject.overloaded))
after_send c (o, channel_closed) = (record c { out = o }, err (in_system SystemReject.overloaded))

-- `try_send`, any failure of which is an overload.
unfoldable pub send : Conn → Frame → Conn × Result (Unit {0})
unfolding try_send
send c f = after_send c (try_send c.out f)

abbrev pub control_reply : Conn → Frame → Option (List ℕ) → Frame
control_reply c frame payload = record default_frame {
  frame_type = control;
  codec = c.codec;
  correlation_id = frame.correlation_id;
  payload = payload;
}

abbrev pub or_missing {ℓ} : {A : Type ℓ} → String → Option A → Result A
or_missing field none = err (in_frame (FrameReject.required_field_missing field))
or_missing field (some a) = ok a

module _ {V : Type 0} (j : Json V) where
  unfoldable pub send_error_frame : Conn → (original : Frame) → RiftError → Conn × Result (Unit {0})
  unfolding send display rift_error_to_code
  send_error_frame c original e = send c (record default_frame {
    frame_type = frame_error;
    codec = json;
    correlation_id = original.correlation_id;
    payload = some (
        j.to_string (
          j.object (
            ("code", j.string (rift_error_to_code e))
            ∷ ("message", j.string (j.format (display e)))
            ∷ (
              "correlation_id",
              elim original.correlation_id [ none ↦ j.null | some id ↦ j.string id ],
            )
            ∷ [])));
  })

  abbrev pub field_text : V → String → Option String
  field_text v key = and_then (j.get v key) j.as_str

  unfoldable pub read_intent : V → String → Result SubscribeIntent
  read_intent v s =
      if s == "live"
      then ok live
      else if s == "passive"
      then ok passive
      else if s == "ephemeral"
      then ok ephemeral
      else if s == "latest"
      then ok latest
      else if s == "snapshot_then_live"
      then ok snapshot_then_live
      else if s == "replay"
      then ok (replay (or_else (pos 0) (and_then (j.get v "from_offset") j.as_i64)))
      else invalid (text "unknown subscribe intent: " ∷ text s ∷ [])

  -- From the broker's answer on.
  abbrev pub subscribed :
      Conn → Frame → (topic : String) → (sink : ℕ) → Broker × Result ℕ → Conn × Result (Unit {0})
  subscribed c frame topic sink (b, err e) = (record c { broker = b }, err e)
  subscribed c frame topic sink (b, ok id) =
      send (record c { broker = b; subscription_sinks = add_number sink c.subscription_sinks })
        (control_reply c frame (
          some (
            j.to_string (
              j.object (
                ("type", j.string "subscribe_ack")
                ∷ ("topic", j.string topic)
                ∷ ("subscription_id", j.number (pos id))
                ∷ ("result", j.string "accepted")
                ∷ [])))))

  -- The broker in memory does the same for every intent.
  abbrev pub subscribe_on :
      Conn
      → Frame
      → (sink : ℕ) → (topic : String) → Result SubscribeIntent
      → Conn × Result (Unit {0})
  subscribe_on c frame sink topic (err e) = (c, err e)
  subscribe_on c frame sink topic (ok intent) =
      subscribed c frame topic sink (subscribe_to c.broker topic sink)

  abbrev pub handle_subscribe : Conn → Frame → (sink : ℕ) → V → Conn × Result (Unit {0})
  handle_subscribe c frame sink v = elim (or_missing "topic" (field_text v "topic")) [
    | err e ↦ (c, err e)
    | ok topic ↦
        subscribe_on c frame sink topic (read_intent v (or_else "live" (field_text v "intent")))
  ]

  abbrev pub unsubscribed : Conn → Frame → (id : ℕ) → Broker × Bool → Conn × Result (Unit {0})
  unsubscribed c frame id (b, removed) =
      send (record c { broker = b })
        (control_reply c frame (
          some (
            j.to_string (
              j.object (
                ("type", j.string "unsubscribe_ack")
                ∷ ("subscription_id", j.number (pos id))
                ∷ ("result", j.string (if removed then "removed" else "not_found"))
                ∷ [])))))

  abbrev pub handle_unsubscribe : Conn → Frame → V → Conn × Result (Unit {0})
  handle_unsubscribe c frame v =
      elim (or_missing "subscription_id" (and_then (j.get v "subscription_id") j.as_u64)) [
        | err e ↦ (c, err e)
        | ok id ↦ unsubscribed c frame id (unsubscribe_from c.broker id)
      ]

  abbrev pub handle_value : Conn → Frame → (sink : ℕ) → V → Conn × Result (Unit {0})
  handle_value c frame sink v =
      let kind = or_else "" (field_text v "type") in
      if kind == "ping"
      then send c (control_reply c frame none)
      else if kind == "subscribe"
      then handle_subscribe c frame sink v
      else if kind == "unsubscribe"
      then handle_unsubscribe c frame v
      else (c, ok tt)

  abbrev pub handle_parsed : Conn → Frame → (sink : ℕ) → Parsed V → Conn × Result (Unit {0})
  handle_parsed c frame sink (broken m) = (c, invalid (text "invalid control body: " ∷ m))
  handle_parsed c frame sink (parsed v) = handle_value c frame sink v

  abbrev pub body_of : Frame → String
  body_of frame = or_else "{}" (and_then frame.payload j.from_utf8)

  -- `sink` is the id that `new_sink_id` would give.
  unfoldable pub handle_control : Conn → Frame → (sink : ℕ) → Conn × Result (Unit {0})
  unfolding send read_intent subscribe_to unsubscribe_from
  handle_control c frame sink = handle_parsed c frame sink (j.from_str (body_of frame))
