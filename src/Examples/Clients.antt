-- ===== src/Examples/Clients.antt =====
-- Inputs for rifts-client/src.
use rifts.Prelude.{ℕ, ◌≡◌, refl, String, none, some, List, [], ◌∷◌, string_eq, arith}
use rifts.Prelude.Int.{ℤ, pos, as_i64}
use rifts.Prelude.Bytes.{from_be_bytes}
use rifts.Prelude.Map.{Map, lookup}
use rifts.Errors.{ok, in_frame, FrameReject}
use rifts.Json.{Json, parsed}
use rifts.Config.{default_config}
use rifts.Frame.Types.{json, cbor, frame_data, from_tag, codec_from_tag}
use rifts.Frame.Envelope.{Frame, default_frame}
use rifts.Topic.Policy.{default_profile}
use rifts.Session.Lifecycle.{Session, active}
use rifts.Broker.Memory.{Broker, Clock, publish, refused}
use rifts.Frame.Codec.{decode_binary_frame, decode_body}
use rifts.Connection.HelloPayload.{decode_hello_payload}
use rifts.Connection.Handshake.{welcome_body, ready_body}
use rifts.Connection.Control.{Conn}
use rifts.Connection.Reader.{Moment}
use rifts.Client.Frames.{hello_frame, hello_body, unsubscribe_body}
use rifts.Client.Handshake.{await_handshake}
use rifts.Client.Handshake.Agreed.{welcome_of, ready_of, handshake_agreed}
use rifts.Client.Hellos.{hello_meant, decode_hello_payload-hello_frame}
use rifts.Client.Served.{binary_never_published}
use rifts.Examples.Trees.{Tree, null, trees, trees-IsJson}

abbrev session : Session
session = record {
  id = "s1";
  client_id = "ann";
  epoch = 2;
  state = active;
  created_at = pos 5;
  last_active = 5;
}

abbrev plain : Json Tree
plain = trees (parsed null)

handshake_agreed_example :
    await_handshake plain
      (plain.object (welcome_body plain (pos 7) session cbor (some "resumed") default_config)
        ∷ plain.object (ready_body plain (pos 8) session default_config)
        ∷ [])
      (none, none)
    ≡ some (welcome_of (pos 7) session cbor default_config, ready_of (pos 8) session default_config)
handshake_agreed_example =
    handshake_agreed plain (trees-IsJson (parsed null)) (pos 7) (pos 8) session cbor
      (some "resumed") default_config (omega arith) (omega arith) (omega arith) (omega arith)

abbrev offsets : Map String ℤ
offsets = ("orders", pos 4) ∷ ("bills", pos 9) ∷ []

abbrev hello_tree : Tree
hello_tree = plain.object (
    hello_body plain (pos 3) "ann" (some "s1") 2 (cbor ∷ json ∷ []) "secret" offsets ("resume" ∷ [])
      "1")

abbrev hearing : Json Tree
hearing = trees (parsed hello_tree)

decode_hello_payload-hello_frame_example :
    decode_hello_payload hearing
      (hello_frame hearing
        (pos 3)
        1
        "ann"
        (some "s1")
        2
        (cbor ∷ json ∷ [])
        "secret"
        offsets
        ("resume" ∷ [])
        "1").payload
    ≡ ok (hello_meant "ann" (some "s1") 2 (cbor ∷ json ∷ []) offsets, some "secret")
unfolding lookup hello_body
decode_hello_payload-hello_frame_example =
    decode_hello_payload-hello_frame hearing (trees-IsJson (parsed hello_tree)) (pos 3) 1 "ann"
      (some "s1") 2 (cbor ∷ json ∷ []) "secret" offsets ("resume" ∷ []) "1" refl (omega arith)
      (refl, (refl, tt)) (omega arith, (omega arith, tt))

abbrev broker : Broker
broker = rifts.Broker.Memory.new default_profile 60_000_000_000 1024

abbrev clock : Clock
clock = record { at_validate = pos 10; at_dedupe = pos 10; at_append = pos 10; at_capture = pos 10 }

abbrev conn : Conn
conn = record {
  broker = broker;
  acks = record {
    outstanding = ("s1", ("m1", pos 99) ∷ []) ∷ [];
    max_outstanding_per_session = 10;
  };
  metrics = rifts.Metrics.new;
  session = session;
  out = rifts.Connection.Outbound.opened;
  published_topics = [];
  subscription_sinks = [];
  codec = json;
  max_bytes = 100;
  sink_id = 8;
  handed = [];
}

abbrev moment : Moment
moment = record {
  at_touch = pos 10;
  at_check = pos 10;
  clock = clock;
  at_ack = pos 10;
  ack_id = "a1";
  sink = 5;
}

abbrev leaving : Tree
leaving = plain.object (unsubscribe_body plain (pos 3) "orders")

abbrev wire : List ℕ
wire =
    b'D' ∷ b'J' ∷ 0 ∷ 0 ∷ 0 ∷ 0 ∷ 0 ∷ 0 ∷ 0 ∷ 0 ∷ 0 ∷ 7 ∷ 0 ∷ 0 ∷ 0 ∷ 0 ∷ 0 ∷ 0 ∷ 0 ∷ 9 ∷ 0 ∷ 0 ∷ 0
    ∷ 1 ∷ 42 ∷ []

abbrev received_frame : Frame
received_frame = record default_frame {
  version = 0x100;
  frame_id = 7;
  frame_type = frame_data;
  timestamp = pos 9;
  payload = some (42 ∷ []);
}

received_wire : decode_binary_frame wire 100 ≡ ok received_frame
unfolding decode_binary_frame decode_body from_tag codec_from_tag from_be_bytes as_i64
received_wire = refl

binary_never_published_example :
    publish broker clock received_frame
    ≡ refused broker (in_frame (FrameReject.required_field_missing "topic"))
binary_never_published_example =
    binary_never_published broker clock wire 100 received_frame received_wire
