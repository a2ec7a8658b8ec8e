-- ===== src/Broker/Memory/Publish.antt =====
-- rifts-broker/src/broker/memory_broker.rs: what a publish does.
use rifts.Prelude.{
  ℕ, ◌≤◌, ◌≡◌, refl, ◌⊎◌, inl, inr, String, Bool, true, false, not, none, some, [], length,
  if◌then◌else◌, arith, string_eq, sym, ap, ◌∙◌, subst,
}
use rifts.Prelude.Int.{ℤ}
use rifts.Errors.{RiftError, Result, ok, err, in_topic, TopicReject}
use rifts.Frame.Envelope.{Frame}
use rifts.Frame.Codec.{unwrap_or_default}
use rifts.Topic.Name.{validate_name}
use rifts.Topic.Policy.{TopicProfile}
use rifts.Topic.Entry.{TopicEntry, try_inc_publisher}
use rifts.Topic.Store.{TopicStore, get_or_create, modify}
use rifts.Storage.Offset.{alloc}
use rifts.Storage.Dedupe.{check_and_record}
use rifts.Broker.Fanout.{recipients}
use rifts.Broker.Memory.{
  Broker, Clock, PublishOutcome, validate_publish, route, Published, refused, store_and_deliver,
  reserve_and_store, publish_on, publish,
}

-- A valid frame has a topic and a message id, and its payload is within the limit.
validate_publish-ok :
    (max : ℕ) (now : ℤ) (f : Frame) (topic message_id : String)
    → validate_publish max now f ≡ ok (topic, message_id)
    → (f.topic ≡ some topic)
      × (f.message_id ≡ some message_id)
      × (length (unwrap_or_default f.payload) ≤ max)
unfolding validate_publish
validate_publish-ok max now f topic message_id h = ground arith

route-err :
    (b : Broker) (topic : String) (e : RiftError)
    → get_or_create b.store topic b.default_profile ≡ err e
    → route b topic ≡ (b.store, none)
unfolding route
route-err b topic e h = rw (h, route) refl

route-ok :
    (b : Broker) (topic : String) (store : TopicStore) (entry : TopicEntry)
    → get_or_create b.store topic b.default_profile ≡ ok (store, entry)
    → route b topic ≡ (store, some entry)
unfolding route
route-ok b topic store entry h = rw (h, route) refl

-- A publish is refused before anything changes, or goes on from the routed entry.
abbrev pub Routed : Broker → Clock → Frame → Type 0
Routed b clock f =
    (topic message_id : String) × (store : TopicStore) × (entry : TopicEntry) × (f.topic
      ≡ some topic)
    × (f.message_id ≡ some message_id)
    × (length (unwrap_or_default f.payload) ≤ b.max_payload_bytes)
    × (get_or_create b.store topic b.default_profile ≡ ok (store, entry))
    × (publish b clock f
        ≡ reserve_and_store (record b { store = store }) clock f topic message_id entry)

pub publish-cases :
    (b : Broker) (clock : Clock) (f : Frame)
    → ((e : RiftError) × (publish b clock f ≡ refused b e)) ⊎ Routed b clock f
unfolding publish
publish-cases b clock f = validated (validate_publish b.max_payload_bytes clock.at_validate f) refl
  where
    routed :
        (topic message_id : String)
        → validate_publish b.max_payload_bytes clock.at_validate f ≡ ok (topic, message_id)
        → (n : Result (Unit {0})) → validate_name topic ≡ n
        → (r : Result (TopicStore × TopicEntry)) → get_or_create b.store topic b.default_profile ≡ r
        → ((e : RiftError) × (publish b clock f ≡ refused b e)) ⊎ Routed b clock f
    routed topic message_id v (err e) n r g = inl (e, rw (v, n, publish, publish_on) refl)
    routed topic message_id v (ok _) n (err e) g =
        let none_found = route-err b topic e g in
        inl
          (in_topic (TopicReject.not_found topic), rw (v, n, none_found, publish, publish_on) refl)
    routed topic message_id v (ok _) n (ok (store, entry)) g =
        let (has_topic, has_id, small) =
          validate_publish-ok b.max_payload_bytes clock.at_validate f topic message_id v in
        let found = route-ok b topic store entry g in
        inr (
          topic,
          message_id,
          store,
          entry,
          has_topic,
          has_id,
          small,
          g,
          rw (v, n, found, publish, publish_on) refl,
        )

    validated :
        (v : Result (String × String))
        → validate_publish b.max_payload_bytes clock.at_validate f ≡ v
        → ((e : RiftError) × (publish b clock f ≡ refused b e)) ⊎ Routed b clock f
    validated (err e) v = inl (e, rw (v, publish) refl)
    validated (ok (topic, message_id)) v =
        routed topic message_id v (validate_name topic) refl
          (get_or_create b.store topic b.default_profile) refl

-- What a publish that was accepted has done.
pub record Accepted (b : Broker) (clock : Clock) (f : Frame) (o : PublishOutcome) (p : Published)
    : Type 0 where
  pub topic : String
  pub message_id : String
  pub named : (f.topic ≡ some topic) × (f.message_id ≡ some message_id)
  pub small : length (unwrap_or_default f.payload) ≤ b.max_payload_bytes
  pub numbered : (p.broker.offsets, o.offset) ≡ alloc b.offsets topic
  pub checked :
      (p.broker.dedupe, not o.duplicate)
      ≡ check_and_record b.dedupe clock.at_dedupe topic message_id b.dedupe_window
  pub delivered : p.sinks ≡ (if o.duplicate then [] else recipients b.fanout topic)
  pub subscribed : p.broker.fanout ≡ b.fanout

-- The answer of an accepted publish.
abbrev outcome_of : Broker → Clock → (topic message_id : String) → PublishOutcome
outcome_of b clock topic message_id = record {
  offset = (alloc b.offsets topic).1;
  duplicate = not (check_and_record b.dedupe clock.at_dedupe topic message_id b.dedupe_window).1;
}

not-not : (b : Bool) → not (not b) ≡ b
not-not b = ground arith

stored-Accepted :
    (b : Broker) (store : TopicStore) (clock : Clock) (f : Frame) (topic message_id : String)
    (profile : TopicProfile)
    → f.topic ≡ some topic
    → f.message_id ≡ some message_id
    → length (unwrap_or_default f.payload) ≤ b.max_payload_bytes
    → Accepted b clock f
        (outcome_of b clock topic message_id)
        (store_and_deliver (record b { store = store }) clock f topic message_id profile)
unfolding store_and_deliver
stored-Accepted b store clock f topic message_id profile named id small =
    let check = check_and_record b.dedupe clock.at_dedupe topic message_id b.dedupe_window in
    record {
      topic = topic;
      message_id = message_id;
      named = (named, id);
      small = small;
      numbered = refl;
      checked = ap (λ fresh. (check.0, fresh)) (not-not check.1);
      delivered = ground arith;
      subscribed = refl;
    }

reserve-Accepted :
    (b : Broker) (store : TopicStore) (clock : Clock) (f : Frame) (topic message_id : String)
    (entry : TopicEntry) (o : PublishOutcome)
    → f.topic ≡ some topic
    → f.message_id ≡ some message_id
    → length (unwrap_or_default f.payload) ≤ b.max_payload_bytes
    → let p = reserve_and_store (record b { store = store }) clock f topic message_id entry in
      p.outcome ≡ ok o → Accepted b clock f o p
unfolding store_and_deliver
reserve-Accepted b store clock f topic message_id entry o named id small =
    elim (try_inc_publisher entry).1
      as (λ granted.
        let p =
          if granted
          then (store_and_deliver
              (record b { store = modify topic (λ t. (try_inc_publisher t).0) store }) clock f topic
              message_id entry.profile)
          else refused (record b { store = store })
              (in_topic (TopicReject.publisher_limit topic)) in
        p.outcome ≡ ok o → Accepted b clock f o p) [
          | false ↦ λ h. cc
          | true ↦ λ h.
              subst
                (λ q. Accepted b clock f q (
                  store_and_deliver
                    (record b { store = modify topic (λ t. (try_inc_publisher t).0) store }) clock f
                    topic message_id entry.profile))
                (answers h)
                (stored-Accepted b (modify topic (λ t. (try_inc_publisher t).0) store) clock f topic
                  message_id entry.profile named id small)
        ]
  where
    answers :
        (store_and_deliver
            (record b { store = modify topic (λ t. (try_inc_publisher t).0) store })
            clock
            f
            topic
            message_id
            entry.profile).outcome
          ≡ ok o
        → outcome_of b clock topic message_id ≡ o
    answers h = ground (arith, h)

-- A publish that answers an outcome had a topic and a message id and a payload within the limit; the
-- offset is the next one of its topic, the duplicate flag is what the dedupe check says, and both
-- stores have moved on accordingly; the frame goes to the topic's subscribers, or to nobody if it is
-- a duplicate; and the subscriptions are as before.
pub publish-Accepted :
    (b : Broker) (clock : Clock) (f : Frame) (o : PublishOutcome)
    → (publish b clock f).outcome ≡ ok o
    → Accepted b clock f o (publish b clock f)
publish-Accepted b clock f o h = elim (publish-cases b clock f) [
  | inl (e, eq) ↦ absurd (refused_not_ok e (ap (λ p. p.outcome) (sym eq) ∙ h))
  | inr (topic, message_id, store, entry, named, id, small, _, eq) ↦
      subst (λ p. Accepted b clock f o p) (sym eq)
        (reserve-Accepted b store clock f topic message_id entry o named id small
          (ap (λ p. p.outcome) (sym eq) ∙ h))
]
  where
    refused_not_ok : (e : RiftError) → ◌≡◌ {A = Result PublishOutcome} (err e) (ok o) → ⊥
    refused_not_ok e h = cc
