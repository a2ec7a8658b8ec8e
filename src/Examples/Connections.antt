-- ===== src/Examples/Connections.antt =====
-- Inputs for rifts-broker/src/connection.
use rifts.Prelude.{
  map, ◌⊎◌, ◌<◌, length, ℕ, ◌+◌, ◌-◌, ◌^◌, ◌%◌, ◌<◌, ◌≡◌, ◌↔◌, refl, sym, subst, ◌++◌, String, true,
  none, some, List, [], ◌∷◌, map, retain, ◌&&◌, not, ◌==◌, nat_eq, string_eq, if◌then◌else◌, arith,
}
use rifts.Prelude.Int.{pos, as_u64, as_i64, i64_sub, ◌-ℤ◌, IsI64}
use rifts.Prelude.Map.{lookup, insert}
use rifts.Prelude.Reap.{member}
use rifts.Errors.{ok, err, in_session, SessionReject}
use rifts.Json.{Json, parsed}
use rifts.Metrics.{Metrics}
use rifts.Config.{default_config}
use rifts.Frame.Types.{json, cbor, control}
use rifts.Frame.Envelope.{Frame, default_frame, frame_of_type}
use rifts.Topic.Policy.{default_profile}
use rifts.Topic.Entry.{LogEntry}
use rifts.Storage.Offset.{head}
use rifts.Storage.Log.{log_of}
use rifts.Protocol.Hello.{Hello, default_hello, bearer, anonymous}
use rifts.Session.Auth.{AuthProvider, allow_all, no_hints}
use rifts.Session.Lifecycle.{Session, SessionState, active}
use rifts.Session.Store.{SessionStore, get}
use rifts.Session.Resume.{decide}
use rifts.Broker.Fanout.{FanoutEngine, subscribe}
use rifts.Broker.Fanout.Laws.{subs}
use rifts.Broker.Fanout.Consistent.{IsConsistent, has, new-IsConsistent, subscribe-IsConsistent}
use rifts.Broker.Memory.{Broker, Clock, head_of}
use rifts.Connection.Outbound.{
  Outbound, opened, try_send, write_next, written, failed, backpressured, message_frame,
}
use rifts.Connection.Outbound.Accounting.{
  Run, queued, outbound_accounts, reply_blocks_deliveries, deliver_all,
}
use rifts.Connection.Negotiation.{Admitted, admit_hello}
use rifts.Connection.Negotiation.Admission.{IsAdmissible, admit_hello_exact}
use rifts.Connection.Handshake.{open_session, share, heads_of, conflict, replay_topic}
use rifts.Connection.Handshake.Resumes.{next_life, may_resume, open_session-resume}
use rifts.Connection.Handshake.Frames.{handshake-Stored}
use rifts.Connection.Handshake.Replays.{missed, replay_topic_exact}
use rifts.Connection.Greeting.{handshake}
use rifts.Connection.Control.{Conn}
use rifts.Connection.Reader.{Moment, Read, received, reader_task, teardown, hand_out}
use rifts.Connection.Reader.Leaks.{connection_leaves_none}
use rifts.Connection.Reader.Delivered.{
  HasRoom, copies, hand_out-queue, write_all, Wrote, write_all-empties,
}
use rifts.Examples.Trees.{Tree, str, num, arr, obj, items, fields, trees}

abbrev two_bytes : List ℕ
two_bytes = 1 ∷ 2 ∷ []

abbrev reply : Frame
reply = record default_frame { payload = some (1 ∷ 2 ∷ 3 ∷ []) }

abbrev replied : Outbound
replied = (try_send opened reply).0

replied-Run : Run 100 3 replied
unfolding try_send
replied-Run = Run.reply 0 opened reply Run.start refl

outbound_accounts_example :
    ((write_next replied written).in_flight + 3) % 2 ^ 64
    ≡ queued (write_next replied written).queue % 2 ^ 64
outbound_accounts_example =
    outbound_accounts 100 3 (write_next replied written) (Run.write 3 replied replied-Run)

reply_blocks_deliveries_example :
    let after = write_next replied written in
    (after.in_flight ≡ 2 ^ 64 - 3)
    × (deliver_all 1_048_576 json (two_bytes ∷ [] ∷ two_bytes ∷ []) after ≡ (
      after,
      map (λ _. failed (backpressured after.in_flight 1_048_576)) (two_bytes ∷ [] ∷ two_bytes ∷ []),
    ))
reply_blocks_deliveries_example =
    reply_blocks_deliveries reply json (two_bytes ∷ [] ∷ two_bytes ∷ []) 1_048_576 (omega arith)
      (omega arith) (omega arith, (omega arith, (omega arith, tt))) (omega arith)

abbrev hello : Hello
hello = record default_hello {
  protocol = "rift";
  version = 0x100;
  session_id = some "s1";
  epoch = some 1;
  codecs = cbor ∷ json ∷ [];
  auth_modes = bearer ∷ [];
}

abbrev auth : AuthProvider (Unit {0})
auth = allow_all tt

abbrev admitted : Admitted (Unit {0})
admitted = record {
  hello = hello;
  codec = cbor;
  context = record { client_id = "anonymous"; claims = tt; mode = anonymous; hints = no_hints };
}

admit_hello_exact_example :
    (admit_hello auth default_config (hello, some "secret") ≡ ok admitted)
    ↔ IsAdmissible auth default_config hello (some "secret") admitted
admit_hello_exact_example = admit_hello_exact auth default_config hello (some "secret") admitted

first_codec : admit_hello auth default_config (hello, some "secret") ≡ ok admitted
unfolding admit_hello allow_all
first_codec = refl

abbrev session : Session
session = record {
  id = "s1";
  client_id = "ann";
  epoch = 1;
  state = SessionState.draining;
  created_at = pos 5;
  last_active = 5;
}

abbrev sessions : SessionStore
sessions = record { inner = ("s1", session) ∷ []; offsets = [] }

abbrev entry : ℕ → String → LogEntry
entry offset id = record {
  offset = pos offset;
  publisher_session = none;
  message_id = id;
  class = "event";
  event = none;
  payload = offset ∷ [];
  timestamp = pos 1;
  appended_at = none;
}

abbrev broker : Broker
broker = record (rifts.Broker.Memory.new default_profile 60_000_000_000 1024) {
  offsets = ("orders", pos 3) ∷ [];
  log = ("orders", entry 1 "a" ∷ entry 2 "b" ∷ []) ∷ [];
}

open_session-resume_example :
    open_session broker sessions rifts.Metrics.new (pos 9) "s2" "bob" hello ≡ (
      if may_resume hello session
      then (
        share sessions (next_life (pos 9) session),
        rifts.Metrics.new,
        ok (next_life (pos 9) session, some (decide [] (heads_of broker [] []))),
      )
      else (sessions, rifts.Metrics.new, err (in_session (SessionReject.conflict 1 session.epoch))))
unfolding get lookup
open_session-resume_example =
    open_session-resume broker sessions rifts.Metrics.new (pos 9) "s2" "bob" "s1" hello session refl
      refl

abbrev spoken : Tree
spoken = obj (
    fields (
      ("protocol", str "rift")
      ∷ ("version", num (pos 0x100))
      ∷ ("session_id", str "s1")
      ∷ ("epoch", num (pos 1))
      ∷ ("codecs", arr (items (str "json" ∷ [])))
      ∷ []))

abbrev resumed : Session
resumed = record session { epoch = 2; state = active; last_active = 9 }

abbrev greeting : Frame
greeting = record default_frame { payload = some (123 ∷ []) }

greets :
    (handshake
      (trees (parsed spoken))
      broker
      default_config
      (λ _. ok tt)
      (λ _. pos 9)
      auth
      sessions
      rifts.Metrics.new
      "s2"
      greeting).outcome
    ≡ ok resumed
unfolding handshake get lookup insert allow_all as_u64
greets = refl

handshake-Stored_example :
    let g =
      handshake
        (trees (parsed spoken))
        broker
        default_config
        (λ _. ok tt)
        (λ _. pos 9)
        auth
        sessions
        rifts.Metrics.new
        "s2"
        greeting in
    (get g.store "s1" ≡ some resumed)
    × (active ≡ active)
    × (open_session broker g.store rifts.Metrics.new (pos 10) "s3" "bob" hello
        ≡ (g.store, rifts.Metrics.new, err (conflict 1 resumed)))
handshake-Stored_example =
    handshake-Stored (trees (parsed spoken)) broker default_config (λ _. ok tt) (λ _. pos 9) auth
      sessions rifts.Metrics.new "s2" greeting resumed hello "s3" "bob" (pos 10) rifts.Metrics.new
      greets refl

orders_head : head_of broker "orders" ≡ pos 2
unfolding head_of head lookup i64_sub as_i64 as_u64 ◌-ℤ◌
orders_head = refl

replay_topic_exact_example :
    map (λ f. f.payload) (replay_topic broker "orders" (pos 1))
    ≡ map
        (λ e. some e.payload)
        (retain (missed (pos 1) (head_of broker "orders")) (log_of (lookup "orders" broker.log)))
replay_topic_exact_example =
    replay_topic_exact broker "orders" (pos 1) (omega arith)
      (subst IsI64 (sym orders_head) (omega arith))

abbrev engine : FanoutEngine
engine = (subscribe rifts.Broker.Fanout.new "orders" 3).0

abbrev conn : Conn
conn = record {
  broker = record broker { fanout = engine };
  acks = rifts.Ack.with_capacity 10;
  metrics = rifts.Metrics.new;
  session = resumed;
  out = opened;
  published_topics = [];
  subscription_sinks = [];
  codec = json;
  max_bytes = 100;
  sink_id = 8;
  handed = [];
}

abbrev moment : Moment
moment = record {
  at_touch = pos 10;
  at_check = pos 10;
  clock = record {
    at_validate = pos 10;
    at_dedupe = pos 10;
    at_append = pos 10;
    at_capture = pos 10;
  };
  at_ack = pos 10;
  ack_id = "a1";
  sink = 5;
}

abbrev subscribing : Json Tree
subscribing =
    trees (parsed (obj (fields (("type", str "subscribe") ∷ ("topic", str "orders") ∷ []))))

abbrev reads : List Read
reads = received (frame_of_type control) moment ∷ []

conn-IsConsistent : IsConsistent conn.broker.fanout
conn-IsConsistent =
    (subscribe-IsConsistent rifts.Broker.Fanout.new "orders" 3 (omega arith) new-IsConsistent).2

small : engine.seq + 1 < 2 ^ 64
unfolding subscribe
small = omega arith

connection_leaves_none_example :
    let d = (reader_task subscribing reads conn).0 in
    ((if has 1 3 (subs (teardown d).broker.fanout "orders")
        then has 1 3 (subs engine "orders")
          && (not (member 3 d.subscription_sinks) && not (d.sink_id == 3))
        else true)
      ≡ true)
    × IsConsistent (teardown d).broker.fanout
connection_leaves_none_example =
    connection_leaves_none subscribing reads conn 1 3 "orders" conn-IsConsistent small

abbrev subscribed_conn : Conn
subscribed_conn = record conn { subscription_sinks = 5 ∷ [] }

subscribed_conn-HasRoom : HasRoom subscribed_conn 1 2
subscribed_conn-HasRoom = record {
  going = refl;
  places = omega arith;
  bytes = omega arith;
  small = omega arith;
}

hand_out-queue_example :
    (hand_out two_bytes (3 ∷ 5 ∷ []) subscribed_conn).out.queue
    ≡ [] ++ copies 1 (message_frame json two_bytes)
hand_out-queue_example =
    hand_out-queue two_bytes (3 ∷ 5 ∷ []) subscribed_conn subscribed_conn-HasRoom

write_all-empties_example :
    Wrote 2 replied (write_all 2 replied)
    × ((2 < length replied.queue) ⊎ ((write_all 2 replied).queue ≡ []))
unfolding try_send
write_all-empties_example = write_all-empties 2 replied refl
