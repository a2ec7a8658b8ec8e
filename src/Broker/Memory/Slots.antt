-- ===== src/Broker/Memory/Slots.antt =====
-- rifts-broker/src/broker/memory_broker.rs: the publisher slots that publishing takes.
use rifts.Prelude.{
  ◌+◌, ◌^◌, ◌<◌, ◌≡◌, refl, inl, inr, String, true, false, Option, none, some, if◌then◌else◌, arith,
  string_eq, sym, ap, ◌∙◌,
}
use rifts.Errors.{RiftError, Result, ok, err, in_topic, TopicReject}
use rifts.Frame.Envelope.{Frame}
use rifts.Topic.Entry.{TopicEntry, try_inc_publisher}
use rifts.Topic.Entry.Slots.{try_inc_publisher_lem}
use rifts.Topic.Store.{TopicStore, get_or_create, get, modify}
use rifts.Topic.Store.Laws.{get_or_create_lem, get-modify}
use rifts.Broker.Memory.{
  Broker, Clock, PublishOutcome, refused, publish, store_and_deliver, reserve_and_store,
}
use rifts.Broker.Memory.Publish.{publish-cases}

-- The topic's entry that was in the store is the one that a publish goes on from.
routed_entry :
    (b : Broker) (store : TopicStore) (topic : String) (entry t : TopicEntry)
    → get_or_create b.store topic b.default_profile ≡ ok (store, entry)
    → get b.store topic ≡ some t
    → (entry ≡ t) × (get store topic ≡ some t)
routed_entry b store topic entry t found here =
    elim (get_or_create_lem b.store topic topic b.default_profile) [
      | inl (e, _, failed) ↦ absurd (differ e (sym failed ∙ found))
      | inr (s, u, done, inl old, after) ↦
          ground (arith, sym done ∙ found, old, after, here, string_eq.beq_iff topic topic)
      | inr (s, u, done, inr (gone, _), after) ↦ absurd (missing (sym gone ∙ here))
    ]
  where
    differ :
        (e : RiftError) → ◌≡◌ {A = Result (TopicStore × TopicEntry)} (err e) (ok (store, entry)) → ⊥
    differ e h = cc

    missing : ◌≡◌ {A = Option TopicEntry} none (some t) → ⊥
    missing h = cc

reserve-slot :
    (b : Broker) (clock : Clock) (f : Frame) (topic message_id : String) (entry : TopicEntry)
    (o : PublishOutcome)
    → let p = reserve_and_store b clock f topic message_id entry in
      p.outcome ≡ ok o
      → ((try_inc_publisher entry).1 ≡ true)
        × (p.broker.store ≡ modify topic (λ t. (try_inc_publisher t).0) b.store)
unfolding store_and_deliver
reserve-slot b clock f topic message_id entry o =
    elim (try_inc_publisher entry).1
      as (λ granted.
        let p =
          if granted
          then (store_and_deliver
              (record b { store = modify topic (λ t. (try_inc_publisher t).0) b.store }) clock f
              topic message_id entry.profile)
          else refused b (in_topic (TopicReject.publisher_limit topic)) in
        p.outcome ≡ ok o
        → (granted ≡ true)
          × (p.broker.store ≡ modify topic (λ t. (try_inc_publisher t).0) b.store)) [
            | true ↦ λ h. (refl, refl)
            | false ↦ λ h. cc
          ]

slot_taken :
    (b : Broker) (store : TopicStore) (clock : Clock) (f : Frame) (topic message_id : String)
    (entry t : TopicEntry) (o : PublishOutcome)
    → get_or_create b.store topic b.default_profile ≡ ok (store, entry)
    → get b.store topic ≡ some t
    → t.profile.max_publishers < 2 ^ 64
    → let p = reserve_and_store (record b { store = store }) clock f topic message_id entry in
      p.outcome ≡ ok o
      → (t.publisher_count < t.profile.max_publishers)
        × (get p.broker.store topic ≡ some (record t { publisher_count = t.publisher_count + 1 }))
slot_taken b store clock f topic message_id entry t o found here limit h =
    let (same, kept) = routed_entry b store topic entry t found here in
    let (granted, left) =
      reserve-slot (record b { store = store }) clock f topic message_id entry o h in
    let grants : (try_inc_publisher t).1 ≡ true =
      ap (λ x. (try_inc_publisher x).1) (sym same) ∙ granted in
    elim (try_inc_publisher_lem t limit).1 [
      | inl (below, taken, _) ↦ (
        below,
        ap (λ s. get s topic) left
            ∙ (get-modify store topic topic (λ t. (try_inc_publisher t).0)
                ∙ ground (arith, string_eq.beq_iff topic topic, kept, taken)),
      )
      | inr (full, refusal) ↦ absurd (denied refusal grants)
    ]
  where
    denied : try_inc_publisher t ≡ (t, false) → (try_inc_publisher t).1 ≡ true → ⊥
    denied r g = ground (arith, r, g)

-- Every publish on a topic that is answered with an outcome takes one more publisher slot of the
-- topic, whoever published: it had fewer publishers than its limit, and has one more afterwards.
pub publish_takes_slot :
    (b : Broker) (clock : Clock) (f : Frame) (o : PublishOutcome) (topic : String) (t : TopicEntry)
    → f.topic ≡ some topic
    → get b.store topic ≡ some t
    → t.profile.max_publishers < 2 ^ 64
    → (publish b clock f).outcome ≡ ok o
    → (t.publisher_count < t.profile.max_publishers)
      × (get (publish b clock f).broker.store topic
          ≡ some (record t { publisher_count = t.publisher_count + 1 }))
publish_takes_slot b clock f o topic t named here limit h = elim (publish-cases b clock f) [
  | inl (e, eq) ↦ absurd (refused_not_ok e (ap (λ p. p.outcome) (sym eq) ∙ h))
  | inr (name, message_id, store, entry, has_topic, _, _, found, eq) ↦
      let same : name ≡ topic = ground (arith, named, has_topic) in
      let (below, after) =
        slot_taken b store clock f name message_id entry t o found (ap (get b.store) same ∙ here)
          limit (ap (λ p. p.outcome) (sym eq) ∙ h) in
      (
        below,
        ap (get (publish b clock f).broker.store) (sym same)
            ∙ (ap (λ p. get p.broker.store name) eq ∙ after),
      )
]
  where
    refused_not_ok : (e : RiftError) → ◌≡◌ {A = Result PublishOutcome} (err e) (ok o) → ⊥
    refused_not_ok e h = cc
