-- ===== src/Examples/Reconnects.antt =====
-- Inputs for rifts-client/src/rift_client.rs and connection.rs.
use rifts.Prelude.{◌≡◌, refl, String, false, none, some, [], ◌∷◌, ◌++◌, string_eq, arith}
use rifts.Prelude.Int.{ℤ, pos}
use rifts.Prelude.Map.{Map, lookup}
use rifts.Errors.{ok, err, in_session, SessionReject, text}
use rifts.Json.{Json, parsed}
use rifts.Config.{default_config}
use rifts.Frame.Types.{json}
use rifts.Topic.Policy.{default_profile}
use rifts.Session.Lifecycle.{Session, active}
use rifts.Session.Store.{SessionStore, get}
use rifts.Broker.Memory.{Broker}
use rifts.Message.{Reply, reply_ok}
use rifts.Protocol.Hello.{Hello}
use rifts.Connection.HelloPayload.{decode_hello_payload}
use rifts.Connection.Handshake.{open_session}
use rifts.Client.Frames.{hello_body}
use rifts.Client.Handshake.Agreed.{welcome_of, ready_of}
use rifts.Client.Events.{disconnected}
use rifts.Client.Session.{
  RiftClientConfig, default_client, RiftClient, ConnectionInner, new_client, noted, hello_from,
  unreachable, not_connected, already_connected, failed, connect,
}
use rifts.Client.Reconnect.{Attempt, lost, given_up}
use rifts.Client.Reconnect.Attempts.{announced, Fails, lost_failed}
use rifts.Client.Reconnect.Conflicts.{after_attempts, reconnect_conflicts}
use rifts.Client.Dispatch.{Derived, Reader, message, text_message, reader_task}
use rifts.Client.Dispatch.Replies.{due, reader_task-due}
use rifts.Examples.Trees.{Tree, null, str, obj, fields, trees, trees-IsJson}

abbrev offsets : Map String ℤ
offsets = ("orders", pos 2) ∷ []

abbrev ours : RiftClientConfig
ours = record default_client { client_id = "ann"; token = "secret"; last_offsets = offsets }

abbrev session : Session
session = record {
  id = "s1";
  client_id = "ann";
  epoch = 2;
  state = active;
  created_at = pos 5;
  last_active = 5;
}

abbrev sessions : SessionStore
sessions = record { inner = ("s1", session) ∷ []; offsets = [] }

abbrev plain : Json Tree
plain = trees (parsed null)

abbrev hello_tree : Tree
hello_tree =
    plain.object
      (hello_body plain (pos 9) "ann" (some "s1") 3 ours.codecs "secret" offsets ours.features "1")

abbrev hearing : Json Tree
hearing = trees (parsed hello_tree)

abbrev broker : Broker
broker = rifts.Broker.Memory.new default_profile 60_000_000_000 1024

known : get sessions "s1" ≡ some session
unfolding get lookup
known = refl

reconnect_conflicts_example :
    let after = after_attempts 1 (
      noted
        (welcome_of (pos 1) session json default_config)
        (ready_of (pos 1) session default_config)
        ours) in
    (hello : Hello) × (decode_hello_payload hearing (hello_from hearing "1" (pos 9) 7 after).payload
      ≡ ok (hello, some "secret"))
    × (open_session broker sessions rifts.Metrics.new (pos 9) "s2" "ann" hello
        ≡ (sessions, rifts.Metrics.new, err (in_session (SessionReject.conflict 3 2))))
unfolding lookup hello_body
reconnect_conflicts_example =
    reconnect_conflicts hearing (trees-IsJson (parsed hello_tree)) "1" ours default_config session
      json (pos 1) (pos 1) 1 7 broker sessions rifts.Metrics.new (pos 9) (pos 9) "s2" "ann" known
      (omega arith) (omega arith) (omega arith) (refl, tt) (omega arith, tt) refl

abbrev attempt : Attempt
attempt = record {
  closed_before = false;
  closed_after = false;
  random = 5;
  now = pos 9;
  answer = unreachable not_connected;
}

abbrev inner : ConnectionInner
inner = record { session_id = "s1"; epoch = 2; ready = ready_of (pos 1) session default_config }

abbrev linked : RiftClient Tree
linked = record (new_client {V = Tree} (record ours { max_reconnect_attempts = 2 })) {
  inner = some inner;
}

attempt-Fails : Fails attempt
attempt-Fails = record {
  open_before = refl;
  open_after = refl;
  unanswered = λ w r e. ground (arith, e);
}

lost_failed_example :
    let d = lost plain "1" (λ _. attempt) linked in
    (d.told ≡ disconnected 1006 "connection lost" ∷ (announced 2 1 ++ given_up 2 ∷ []))
    × (d.config ≡ after_attempts 2 (record ours { max_reconnect_attempts = 2 }))
    × (connect plain "1" (pos 9) (unreachable not_connected) d ≡ (d, failed already_connected))
lost_failed_example =
    lost_failed plain "1" (λ _. attempt) linked inner (pos 9) (unreachable not_connected) refl refl
      refl (λ k. attempt-Fails)

abbrev reply_tree : Tree
reply_tree =
    obj (fields (("type", str "data") ∷ ("class", str "reply") ∷ ("payload", str "done") ∷ []))

abbrev reply : Reply Tree
reply = record {
  correlation_id = "c1";
  status = reply_ok;
  payload = none;
  error = none;
  server_time = pos 4;
}

abbrev derived : Derived Tree
derived = record {
  event_from = λ _. none;
  reply_from = λ _. some reply;
  state_from = λ _. none;
  datagram_from = λ _. none;
  segment_from = λ _. none;
  snapshot_from = λ _. none;
  frame_text = λ _. text "frame" ∷ [];
  text_bytes = λ _. [];
}

abbrev waiting : Reader Tree
waiting = record {
  pending = ("c1", tt) ∷ [];
  answered = [];
  heartbeat = rifts.Client.Heartbeat.new_state;
  told = [];
}

reader_task-due_example :
    due "c1"
      (reader_task
        (trees (parsed reply_tree))
        derived
        (message (text_message "a") ∷ message (text_message "b") ∷ [])
        waiting).0
    ≡ due "c1" waiting
reader_task-due_example =
    reader_task-due (trees (parsed reply_tree)) derived "c1"
      (message (text_message "a") ∷ message (text_message "b") ∷ []) waiting
