-- ===== src/Connection/Reader.antt =====
-- rifts-broker/src/connection/reader.rs, `reader_task`: what a connection does with each frame, and
-- the end of `Connection::run` of connection/mod.rs. A broker calls the sinks of a topic in their order;
-- those of this connection put the message in its queue, the others are noted in `handed`.
pub mod Steps
pub mod Controls
pub mod Leaks
pub mod Delivered
use rifts.Prelude.{
  ℕ, String, Bool, true, false, ◌&&◌, Option, none, some, List, [], ◌∷◌, ◌++◌, if◌then◌else◌, ◌==◌,
  string_eq, nat_eq,
}
use rifts.Prelude.Int.{ℤ, pos, ltb_ℤ, i64_sub}
use rifts.Prelude.Reap.{member}
use rifts.Errors.{Result, ok, err, RiftError, in_session, SessionReject}
use rifts.Errors.Display.{display}
use rifts.Json.{Json}
use rifts.Metrics.{Metrics, inc}
use rifts.Ack.{
  Ack, AckStatus, persisted, duplicate, failed, as_str, new_ack, with_offset, with_reason, complete,
  forget,
}
use rifts.Frame.Types.{EncodingFormat, control, frame_data, ack, flow, frame_error}
use rifts.Frame.Envelope.{Frame, default_frame, requires_ack}
use rifts.Session.Lifecycle.{touch}
use rifts.Session.Auth.{add_to_set}
use rifts.Broker.Memory.{
  Broker, Clock, Published, PublishOutcome, publish, drop_connection, release_publisher,
}
use rifts.Connection.HelloPayload.{or_else}
use rifts.Connection.Outbound.{deliver_to}
use rifts.Connection.Control.{Conn, send, send_error_frame, handle_control}
use rifts.Connection.Greeting.{count_close}

-- What the clock and the generators of ids give while one frame is handled.
pub record Moment : Type 0 where
  pub at_touch : ℤ
  pub at_check : ℤ
  pub clock : Clock
  pub at_ack : ℤ
  pub ack_id : String
  pub sink : ℕ

-- One call of `read_frame` with its time limit.
pub data Read : Type 0 where
  received : Frame → Moment → Read
  read_failed : RiftError → Read
  elapsed : Read

-- The calls of `deliver` on the sinks of a topic, whose results the publisher does not see.
unfoldable pub hand_out : List ℕ → List ℕ → Conn → Conn
unfolding deliver_to
hand_out bytes [] c = c
hand_out bytes (sink ∷ sinks) c = hand_out bytes sinks (
    if member sink c.subscription_sinks
    then record c { out = (deliver_to c.out c.max_bytes c.codec bytes).0 }
    else record c { handed = c.handed ++ (sink, bytes) ∷ [] })

abbrev pub is_expired : (now : ℤ) → (timestamp : ℤ) → Option ℕ → Bool
is_expired now timestamp none = false
is_expired now timestamp (some ttl) =
    ltb_ℤ (pos 0) timestamp && ltb_ℤ (pos ttl) (i64_sub now timestamp)

abbrev pub note_topic : Option String → List String → List String
note_topic none topics = topics
note_topic (some t) topics = add_to_set t topics

module _ {V : Type 0} (j : Json V) where
  abbrev pub or_null : {A : Type 0} → (A → V) → Option A → V
  or_null f none = j.null
  or_null f (some a) = f a

  unfoldable pub send_ack_frame : Conn → Ack → Conn × Result (Unit {0})
  unfolding send as_str
  send_ack_frame c a = send c (record default_frame {
    frame_type = ack;
    codec = c.codec;
    payload = some (
        j.to_string (
          j.object (
            ("ack_id", j.string a.ack_id)
            ∷ ("message_id", j.string a.message_id)
            ∷ ("status", j.string (as_str a.status))
            ∷ ("offset", or_null j.number a.offset)
            ∷ ("reason", or_null j.string a.reason)
            ∷ ("server_time", j.number a.server_time)
            ∷ [])));
  })

  -- The acknowledgement of a publish, by its outcome.
  abbrev pub ack_of : Moment → (message_id : String) → Result PublishOutcome → Ack
  ack_of t message_id (ok o) =
      with_offset
        (new_ack t.at_ack t.ack_id message_id (if o.duplicate then duplicate else persisted))
        o.offset
  ack_of t message_id (err e) =
      with_reason (new_ack t.at_ack t.ack_id message_id failed) (j.format (display e))

  abbrev pub note_publish : Frame → Result PublishOutcome → Conn → Conn
  note_publish frame (ok o) c = record c {
    published_topics = note_topic frame.topic c.published_topics;
  }
  note_publish frame (err e) c = c

  abbrev pub acknowledge : Frame → Moment → Result PublishOutcome → Conn → Conn
  acknowledge frame t outcome c =
      if requires_ack frame
      then (send_ack_frame c (ack_of t (or_else "" frame.message_id) outcome)).0
      else c

  abbrev pub after_publish : Frame → Moment → Published → Conn → Conn
  after_publish frame t p c =
      acknowledge frame t p.outcome
        (note_publish frame p.outcome (hand_out p.bytes p.sinks (record c { broker = p.broker })))

  unfoldable pub handle_data : Conn → Frame → Moment → Conn
  unfolding publish requires_ack display hand_out
  handle_data c frame t =
      if is_expired t.at_check frame.timestamp frame.ttl_ms
      then (record c {
        metrics = record c.metrics {
          messages_expired_total = inc c.metrics.messages_expired_total;
        };
      })
      else after_publish frame t (publish c.broker t.clock frame) c

  abbrev pub after_control : Frame → Conn × Result (Unit {0}) → Conn
  after_control frame (c, ok _) = c
  after_control frame (c, err e) = (send_error_frame j c frame e).0

  -- The match on the type of a frame.
  unfoldable pub dispatch : Conn → Frame → Moment → Conn
  unfolding handle_control send_error_frame complete handle_data
  dispatch c frame t = elim frame.frame_type [
    | control ↦ after_control frame (handle_control j c frame t.sink)
    | frame_data ↦ handle_data c frame t
    | ack ↦ record c { acks = (complete c.acks c.session.id (or_else "" frame.message_id)).0 }
    | flow ↦ c
    | frame_error ↦ c
  ]

  abbrev pub count_in : Conn → Moment → Conn
  count_in c t = record c {
    metrics = record c.metrics { messages_in_total = inc c.metrics.messages_in_total };
    session = touch t.at_touch c.session;
  }

  abbrev pub read_end : RiftError → Result (Unit {0})
  read_end (in_session SessionReject.expired) = ok tt
  read_end e = err e

  -- The loop, over what it reads; without an end it is still reading.
  unfoldable pub reader_task : List Read → Conn → Conn × Option (Result (Unit {0}))
  unfolding dispatch touch
  reader_task [] c = (c, none)
  reader_task (received frame t ∷ reads) c = reader_task reads (dispatch (count_in c t) frame t)
  reader_task (read_failed e ∷ reads) c = (c, some (read_end e))
  reader_task (elapsed ∷ reads) c = (
    record c {
      metrics = record c.metrics { connection_close_total = inc c.metrics.connection_close_total };
    },
    some (err (in_session SessionReject.idle_timeout)),
  )

-- The end of `run`, once the reader has stopped.
abbrev pub drop_sinks : List ℕ → Broker → Broker
drop_sinks [] b = b
drop_sinks (sink ∷ sinks) b = drop_sinks sinks (drop_connection b sink).0

abbrev pub release_topics : List String → Broker → Broker
release_topics [] b = b
release_topics (t ∷ ts) b = release_topics ts (release_publisher b t)

unfoldable pub teardown : Conn → Conn
unfolding drop_connection release_publisher forget
teardown c = record c {
  broker =
      release_topics c.published_topics
        (drop_sinks c.subscription_sinks (drop_connection c.broker c.sink_id).0);
  acks = forget c.acks c.session.id;
  published_topics = [];
  subscription_sinks = [];
  metrics = count_close c.metrics;
}
