-- ===== src/Examples/Brokers.antt =====
-- Inputs for rifts-broker/src/broker.
use rifts.Prelude.{ℕ, ◌≡◌, refl, String, false, none, some, [], ◌∷◌, if◌then◌else◌, nat_eq, arith}
use rifts.Prelude.Int.{pos}
use rifts.Prelude.Map.{lookup}
use rifts.Errors.{ok, err, in_frame, FrameReject}
use rifts.Frame.Envelope.{Frame, default_frame}
use rifts.Topic.Policy.{default_profile}
use rifts.Topic.Name.{validate_name}
use rifts.Topic.Entry.{TopicEntry, try_inc_publisher}
use rifts.Topic.Store.{get_or_create}
use rifts.Storage.Offset.{alloc}
use rifts.Storage.Dedupe.{check_and_record}
use rifts.Broker.Fanout.{FanoutEngine, subscribe, unsubscribe, drop_sink}
use rifts.Broker.Fanout.Laws.{subs}
use rifts.Broker.Fanout.Consistent.{
  IsConsistent, new-IsConsistent, has, on_sink, topic_of, subscribe-IsConsistent,
  unsubscribe-IsConsistent, drop_sink-IsConsistent,
}
use rifts.Broker.Memory.{Broker, Clock, PublishOutcome, publish}
use rifts.Broker.Memory.Publish.{Accepted, publish-Accepted}
use rifts.Broker.Memory.Refusals.{Untouched, publish-Untouched}

abbrev one : FanoutEngine
one = (subscribe rifts.Broker.Fanout.new "orders" 7).0

one-IsConsistent : IsConsistent one
one-IsConsistent =
    (subscribe-IsConsistent rifts.Broker.Fanout.new "orders" 7 (omega arith) new-IsConsistent).2

subscribe-IsConsistent_example :
    let (d, id) = subscribe rifts.Broker.Fanout.new "orders" 7 in
    (lookup {V = String × ℕ} id [] ≡ none)
    × (lookup id d.by_id ≡ some ("orders", 7))
    × IsConsistent d
subscribe-IsConsistent_example =
    subscribe-IsConsistent rifts.Broker.Fanout.new "orders" 7 (omega arith) new-IsConsistent

unsubscribe-IsConsistent_example :
    let (d, topic) = unsubscribe one 1 in
    (topic ≡ topic_of (lookup 1 one.by_id)) × (lookup 1 d.by_id ≡ none) × IsConsistent d
unsubscribe-IsConsistent_example = unsubscribe-IsConsistent one 1 1 one-IsConsistent

drop_sink-IsConsistent_example :
    let d = (drop_sink one 7).0 in
    (lookup 1 d.by_id ≡ (if on_sink (lookup 1 one.by_id) 7 then none else lookup 1 one.by_id))
    × (has 1 7 (subs d "orders") ≡ false)
    × IsConsistent d
drop_sink-IsConsistent_example = drop_sink-IsConsistent one 7 1 7 "orders" one-IsConsistent

abbrev orders : TopicEntry
orders = rifts.Topic.Entry.new "orders" default_profile

abbrev broker : Broker
broker = record (rifts.Broker.Memory.new default_profile 60_000_000_000 1024) {
  store = ("orders", orders) ∷ [];
}

abbrev clock : Clock
clock = record { at_validate = pos 5; at_dedupe = pos 6; at_append = pos 7; at_capture = pos 8 }

abbrev message : Frame
message = record default_frame {
  topic = some "orders";
  message_id = some "m1";
  payload = some (1 ∷ 2 ∷ []);
}

accepted :
    (publish broker clock message).outcome ≡ ok (record { offset = pos 1; duplicate = false })
unfolding publish validate_name get_or_create try_inc_publisher lookup alloc check_and_record
accepted = refl

unnamed :
    (publish broker clock default_frame).outcome
    ≡ err (in_frame (FrameReject.required_field_missing "topic"))
unfolding publish
unnamed = refl

publish-Accepted_example :
    Accepted broker clock message
      (record { offset = pos 1; duplicate = false })
      (publish broker clock message)
publish-Accepted_example =
    publish-Accepted broker clock message (record { offset = pos 1; duplicate = false }) accepted

publish-Untouched_example : Untouched broker (publish broker clock default_frame)
publish-Untouched_example =
    publish-Untouched broker clock default_frame
      (in_frame (FrameReject.required_field_missing "topic")) unnamed
