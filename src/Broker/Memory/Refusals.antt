-- ===== src/Broker/Memory/Refusals.antt =====
-- rifts-broker/src/broker/memory_broker.rs: what a refused publish leaves.
use rifts.Prelude.{
  ◌≡◌, refl, inl, inr, String, true, false, [], if◌then◌else◌, arith, string_eq, sym, ap, ◌∙◌,
  subst,
}
use rifts.Errors.{RiftError, err, in_topic, TopicReject}
use rifts.Frame.Envelope.{Frame}
use rifts.Topic.Entry.{TopicEntry, try_inc_publisher}
use rifts.Topic.Store.{TopicStore, modify}
use rifts.Broker.Memory.{
  Broker, Clock, Published, refused, store_and_deliver, reserve_and_store, publish,
}
use rifts.Broker.Memory.Publish.{publish-cases}

-- What a publish that was refused leaves: every store and every subscription as it was, and nobody
-- is handed anything. Only the topic's entry may be new.
pub record Untouched (b : Broker) (p : Published) : Type 0 where
  pub offsets : p.broker.offsets ≡ b.offsets
  pub log : p.broker.log ≡ b.log
  pub dedupe : p.broker.dedupe ≡ b.dedupe
  pub snapshots : p.broker.snapshots ≡ b.snapshots
  pub fanout : p.broker.fanout ≡ b.fanout
  pub sinks : p.sinks ≡ []

refused-Untouched :
    (b : Broker) (store : TopicStore) (e : RiftError)
    → Untouched b (refused (record b { store = store }) e)
refused-Untouched b store e = record {
  offsets = refl;
  log = refl;
  dedupe = refl;
  snapshots = refl;
  fanout = refl;
  sinks = refl;
}

pub reserve-Untouched :
    (b : Broker) (store : TopicStore) (clock : Clock) (f : Frame) (topic message_id : String)
    (entry : TopicEntry) (e : RiftError)
    → let p = reserve_and_store (record b { store = store }) clock f topic message_id entry in
      p.outcome ≡ err e
      → ((try_inc_publisher entry).1 ≡ false)
        × (e ≡ in_topic (TopicReject.publisher_limit topic))
        × (p ≡ refused (record b { store = store }) e)
unfolding store_and_deliver
reserve-Untouched b store clock f topic message_id entry e =
    elim (try_inc_publisher entry).1
      as (λ granted.
        let p =
          if granted
          then (store_and_deliver
              (record b { store = modify topic (λ t. (try_inc_publisher t).0) store }) clock f topic
              message_id entry.profile)
          else refused (record b { store = store })
              (in_topic (TopicReject.publisher_limit topic)) in
        p.outcome ≡ err e
        → (granted ≡ false)
          × (e ≡ in_topic (TopicReject.publisher_limit topic))
          × (p ≡ refused (record b { store = store }) e)) [
            | true ↦ λ h. cc
            | false ↦ λ h.
                let same : in_topic (TopicReject.publisher_limit topic) ≡ e = ground (arith, h) in
                (refl, sym same, ap (λ x. refused (record b { store = store }) x) same)
          ]

-- A publish that answers an error leaves the offsets, the log, the dedupe records, the snapshots and
-- the subscriptions as they were and hands nobody anything.
pub publish-Untouched :
    (b : Broker) (clock : Clock) (f : Frame) (e : RiftError)
    → (publish b clock f).outcome ≡ err e
    → Untouched b (publish b clock f)
publish-Untouched b clock f e h = elim (publish-cases b clock f) [
  | inl (d, eq) ↦ subst (Untouched b) (sym eq) (refused-Untouched b b.store d)
  | inr (topic, message_id, store, entry, _, _, _, _, eq) ↦
      let (_, _, refusal) =
        reserve-Untouched b store clock f topic message_id entry e
          (ap (λ p. p.outcome) (sym eq) ∙ h) in
      subst (Untouched b) (sym (eq ∙ refusal)) (refused-Untouched b store e)
]
