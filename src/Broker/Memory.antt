-- ===== src/Broker/Memory.antt =====
-- rifts-broker/src/broker/memory_broker.rs, `InMemoryBroker` over the four stores in memory
-- (`DefaultBroker`), with `LocalRouter` of router.rs and `serialize_frame_for_fanout` of broker.rs.
-- A call is one step. `Clock` holds what the successive calls of `now_ms()` in one publish return,
-- and `takes` tells which sink's `deliver` succeeds.
pub mod Publish
pub mod Refusals
pub mod Snapshots
pub mod Slots
use rifts.Prelude.{
  ℕ, ◌+◌, ◌%◌, ◌^◌, String, Bool, true, false, not, ◌&&◌, Option, none, some, List, [], ◌∷◌, ◌++◌,
  map, length, ltb, if◌then◌else◌,
}
use rifts.Prelude.Int.{ℤ, pos, ltb_ℤ, i64_sub, as_u64}
use rifts.Prelude.Bytes.{to_be_bytes}
use rifts.Errors.{
  RiftError, Result, ok, err, in_frame, in_topic, in_message, FrameReject, TopicReject,
  MessageReject, ◌>>=◌, ◌>>◌,
}
use rifts.Frame.Envelope.{Frame}
use rifts.Frame.Codec.{unwrap_or_default}
use rifts.Topic.Policy.{TopicProfile}
use rifts.Topic.Name.{validate_name}
use rifts.Topic.Entry.{
  TopicEntry, LogEntry, try_inc_publisher, try_inc_subscriber, dec_subscriber, dec_publisher,
}
use rifts.Topic.Store.{TopicStore, get_or_create, get, modify}
use rifts.Storage.Offset.{OffsetStore, alloc, head}
use rifts.Storage.Log.{LogStore, append, range}
use rifts.Storage.Dedupe.{DedupeStore, check_and_record, sweep}
use rifts.Storage.Snapshot.{SnapshotStore, StoredSnapshot, capture, get_snapshot}
use rifts.Broker.Fanout.{
  FanoutEngine, subscribe, unsubscribe, drop_sink, recipients, topic_subscriber_count,
}

pub record Broker : Type 0 where
  pub store : TopicStore
  pub offsets : OffsetStore
  pub log : LogStore
  pub dedupe : DedupeStore
  pub snapshots : SnapshotStore
  pub fanout : FanoutEngine
  pub default_profile : TopicProfile
  pub dedupe_window : ℕ
  pub max_payload_bytes : ℕ

pub record Clock : Type 0 where
  pub at_validate : ℤ
  pub at_dedupe : ℤ
  pub at_append : ℤ
  pub at_capture : ℤ

pub record PublishOutcome : Type 0 where
  pub offset : ℤ
  pub duplicate : Bool

abbrev pub new : TopicProfile → (dedupe_window max_payload_bytes : ℕ) → Broker
new profile window max = record {
  store = [];
  offsets = [];
  log = [];
  dedupe = [];
  snapshots = [];
  fanout = rifts.Broker.Fanout.new;
  default_profile = profile;
  dedupe_window = window;
  max_payload_bytes = max;
}

-- `ok_or_else`.
abbrev pub required : Option String → String → Result String
required none field = err (in_frame (FrameReject.required_field_missing field))
required (some s) field = ok s

abbrev pub check_size : (max : ℕ) → Option (List ℕ) → Result (Unit {0})
check_size max none = ok tt
check_size max (some payload) =
    if ltb max (length payload)
    then err (in_message (MessageReject.too_large (length payload) max))
    else ok tt

abbrev pub check_ttl : (now timestamp : ℤ) → Option ℕ → Result (Unit {0})
check_ttl now timestamp none = ok tt
check_ttl now timestamp (some ttl_ms) =
    if ltb_ℤ (pos 0) timestamp && ltb_ℤ (pos ttl_ms) (i64_sub now timestamp)
    then err (in_message MessageReject.expired)
    else ok tt

unfoldable pub validate_publish : (max : ℕ) → (now : ℤ) → Frame → Result (String × String)
validate_publish max now frame = do
  topic ← required frame.topic "topic"
  message_id ← required frame.message_id "message_id"
  check_size max frame.payload
  check_ttl now frame.timestamp frame.ttl_ms
  ok (topic, message_id)

-- `LocalRouter::route`: an error of the topic store is no route.
unfoldable pub route : Broker → String → TopicStore × Option TopicEntry
route b topic = elim (get_or_create b.store topic b.default_profile) [
  | err _ ↦ (b.store, none)
  | ok (store, entry) ↦ (store, some entry)
]

unfoldable pub serialize_frame_for_fanout : Frame → (offset : ℤ) → List ℕ
serialize_frame_for_fanout frame offset =
    b'O' ∷ b'F' ∷ b'F' ∷ b':' ∷ (to_be_bytes 8 (as_u64 offset) ++ unwrap_or_default frame.payload)

unfoldable pub log_entry : Frame → (message_id : String) → (offset : ℤ) → LogEntry
log_entry frame message_id offset = record {
  offset = offset;
  publisher_session = frame.session_id;
  message_id = message_id;
  class = "event";
  event = frame.event;
  payload = unwrap_or_default frame.payload;
  timestamp = frame.timestamp;
  appended_at = none;
}

-- What a publish leaves: the broker, its answer, and the sinks that are handed the bytes.
pub record Published : Type 0 where
  pub broker : Broker
  pub outcome : Result PublishOutcome
  pub sinks : List ℕ
  pub bytes : List ℕ

abbrev pub refused : Broker → RiftError → Published
refused b e = record { broker = b; outcome = err e; sinks = []; bytes = [] }

-- From the dedupe check on, with the profile of the topic's entry.
unfoldable pub store_and_deliver :
    Broker → Clock → Frame → (topic message_id : String) → TopicProfile → Published
unfolding log_entry
store_and_deliver b clock frame topic message_id profile =
    let (dedupe, fresh) =
      check_and_record b.dedupe clock.at_dedupe topic message_id b.dedupe_window in
    let (offsets, offset) = alloc b.offsets topic in
    let entry = log_entry frame message_id offset in
    record {
      broker = record b {
        dedupe = dedupe;
        offsets = offsets;
        log = append b.log clock.at_append topic entry profile.retention;
        snapshots =
            if profile.snapshot_enabled
            then (capture b.snapshots clock.at_capture topic b.store profile.snapshot_ttl).0
            else b.snapshots;
      };
      outcome = ok (record { offset = offset; duplicate = not fresh });
      sinks = if fresh then recipients b.fanout topic else [];
      bytes = serialize_frame_for_fanout frame offset;
    }

-- From the reservation of a publisher slot on, with the routed entry.
abbrev pub reserve_and_store :
    Broker → Clock → Frame → (topic message_id : String) → TopicEntry → Published
reserve_and_store b clock frame topic message_id entry =
    if (try_inc_publisher entry).1
    then (store_and_deliver
        (record b { store = modify topic (λ t. (try_inc_publisher t).0) b.store }) clock frame topic
        message_id entry.profile)
    else refused b (in_topic (TopicReject.publisher_limit topic))

abbrev pub publish_routed :
    Broker
    → Clock
    → Frame
    → (topic message_id : String) → TopicStore × Option TopicEntry
    → Published
publish_routed b clock frame topic message_id (store, none) =
    refused (record b { store = store }) (in_topic (TopicReject.not_found topic))
publish_routed b clock frame topic message_id (store, some entry) =
    reserve_and_store (record b { store = store }) clock frame topic message_id entry

abbrev pub publish_on : Broker → Clock → Frame → (topic message_id : String) → Published
publish_on b clock frame topic message_id = elim (validate_name topic) [
  | err e ↦ refused b e
  | ok _ ↦ publish_routed b clock frame topic message_id (route b topic)
]

unfoldable pub publish : Broker → Clock → Frame → Published
unfolding validate_publish route store_and_deliver
publish b clock frame = elim (validate_publish b.max_payload_bytes clock.at_validate frame) [
  | err e ↦ refused b e
  | ok (topic, message_id) ↦ publish_on b clock frame topic message_id
]

abbrev pub reserve_and_subscribe :
    Broker → (topic : String) → (sink : ℕ) → TopicEntry → Broker × Result ℕ
reserve_and_subscribe b topic sink entry =
    if (try_inc_subscriber entry).1
    then (let (fanout, id) = subscribe b.fanout topic sink in
        (
          record b {
            store = modify topic (λ t. (try_inc_subscriber t).0) b.store;
            fanout = fanout;
          },
          ok id,
        ))
    else (b, err (in_topic (TopicReject.subscriber_limit topic)))

abbrev pub subscribe_routed :
    Broker → (topic : String) → (sink : ℕ) → TopicStore × Option TopicEntry → Broker × Result ℕ
subscribe_routed b topic sink (store, none) =
    (record b { store = store }, err (in_topic (TopicReject.not_found topic)))
subscribe_routed b topic sink (store, some entry) =
    reserve_and_subscribe (record b { store = store }) topic sink entry

unfoldable pub subscribe_to : Broker → (topic : String) → (sink : ℕ) → Broker × Result ℕ
unfolding route
subscribe_to b topic sink = elim (validate_name topic) [
  | err e ↦ (b, err e)
  | ok _ ↦ subscribe_routed b topic sink (route b topic)
]

-- `dec_subscriber` on the topic's entry, where the store still has it.
abbrev pub give_back : Option String → TopicStore → TopicStore
give_back none store = store
give_back (some topic) store = modify topic dec_subscriber store

unfoldable pub unsubscribe_from : Broker → (id : ℕ) → Broker × Bool
unsubscribe_from b id =
    let (fanout, topic) = unsubscribe b.fanout id in
    (
      record b { fanout = fanout; store = give_back topic b.store },
      elim topic [ none ↦ false | some _ ↦ true ],
    )

unfoldable pub give_back_all : List String → TopicStore → TopicStore
give_back_all [] store = store
give_back_all (t ∷ ts) store = give_back_all ts (modify t dec_subscriber store)

unfoldable pub drop_connection : Broker → (sink : ℕ) → Broker × ℕ
unfolding give_back_all
drop_connection b sink =
    let (fanout, topics) = drop_sink b.fanout sink in
    (record b { fanout = fanout; store = give_back_all topics b.store }, length topics)

unfoldable pub replay : Broker → String → (from to : ℤ) → List (List ℕ)
replay b topic from to = map (λ e. e.payload) (range b.log topic from to)

unfoldable pub snapshot_of : Broker → (now : ℤ) → String → Option StoredSnapshot
snapshot_of b now topic = get_snapshot b.snapshots now topic

unfoldable pub subscriber_count_of : Broker → String → ℕ
subscriber_count_of b topic = topic_subscriber_count b.fanout topic

unfoldable pub head_of : Broker → String → ℤ
head_of b topic = head b.offsets topic

unfoldable pub release_publisher : Broker → String → Broker
release_publisher b topic = record b { store = modify topic dec_publisher b.store }

unfoldable pub maintain : Broker → (now : ℤ) → Broker × ℕ
maintain b now =
    let (dedupe, removed) = sweep b.dedupe now in (record b { dedupe = dedupe }, removed)
