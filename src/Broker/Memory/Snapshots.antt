-- ===== src/Broker/Memory/Snapshots.antt =====
-- rifts-broker/src/broker/memory_broker.rs: what publishing does to the topic entries and so to the
-- snapshots and the publisher slots.
use rifts.Prelude.{
  ℕ, ◌≡◌, refl, inl, inr, String, true, false, Option, none, some, if◌then◌else◌, arith, string_eq,
  sym, subst, [],
}
use rifts.Prelude.Map.{AllValues, insert-AllValues, lookup-AllValues, lookup}
use rifts.Prelude.Int.{ℤ}
use rifts.Errors.{Result, ok, err, in_topic, TopicReject}
use rifts.Frame.Envelope.{Frame}
use rifts.Topic.Name.{validate_name}
use rifts.Topic.Policy.{TopicProfile}
use rifts.Topic.Entry.{TopicEntry, new, try_inc_publisher}
use rifts.Topic.Store.{TopicStore, or_insert, get_or_create, get, modify, replaced}
use rifts.Storage.Snapshot.{SnapshotStore, capture}
use rifts.Broker.Memory.{Broker, Clock, Published, publish, store_and_deliver, reserve_and_store}
use rifts.Broker.Memory.Publish.{publish-cases}

-- No topic entry holds a snapshot.
abbrev pub NoSnapshot : TopicEntry → Type 0
NoSnapshot t = t.latest_snapshot ≡ none

or_insert-NoSnapshot :
    (o : Option TopicEntry) (name : String) (p : TopicProfile) (store : TopicStore)
    → AllValues NoSnapshot store
    → AllValues NoSnapshot (or_insert o name p store).0
or_insert-NoSnapshot (some t) name p store h = h
or_insert-NoSnapshot none name p store h =
    insert-AllValues NoSnapshot name (new name p) store refl h

get_or_create-NoSnapshot :
    (store left : TopicStore) (name : String) (p : TopicProfile) (t : TopicEntry)
    → AllValues NoSnapshot store
    → get_or_create store name p ≡ ok (left, t)
    → AllValues NoSnapshot left
unfolding get_or_create
get_or_create-NoSnapshot store left name p t h e =
    subst (AllValues NoSnapshot) (same (validate_name name) e)
      (or_insert-NoSnapshot (lookup name store) name p store h)
  where
    same :
        (v : Result (Unit {0}))
        → elim v [ err e ↦ err e | ok _ ↦ ok (or_insert (lookup name store) name p store) ]
          ≡ ok (left, t)
        → (or_insert (lookup name store) name p store).0 ≡ left
    same (err _) e = cc
    same (ok _) e = cc

replaced-NoSnapshot :
    (o : Option TopicEntry) (name : String) (store : TopicStore)
    → lookup name store ≡ o
    → AllValues NoSnapshot store
    → AllValues NoSnapshot (replaced o (λ t. (try_inc_publisher t).0) name store)
unfolding try_inc_publisher
replaced-NoSnapshot none name store e h = h
replaced-NoSnapshot (some t) name store e h =
    insert-AllValues NoSnapshot name (try_inc_publisher t).0 store
      (ground (arith, lookup-AllValues NoSnapshot name t store h e)) h

modify-NoSnapshot :
    (name : String) (store : TopicStore)
    → AllValues NoSnapshot store
    → AllValues NoSnapshot (modify name (λ t. (try_inc_publisher t).0) store)
unfolding modify
modify-NoSnapshot name store h = replaced-NoSnapshot (lookup name store) name store refl h

capture-NoSnapshot :
    (snaps : SnapshotStore) (now : ℤ) (name : String) (store : TopicStore) (ttl : Option ℕ)
    → AllValues NoSnapshot store
    → (capture snaps now name store ttl).0 ≡ snaps
unfolding capture get
capture-NoSnapshot snaps now name store ttl h = go (lookup name store) refl
  where
    go :
        (o : Option TopicEntry)
        → lookup name store ≡ o
        → (capture snaps now name store ttl).0 ≡ snaps
    go none e = ground (arith, e)
    go (some t) e = ground (arith, e, lookup-AllValues NoSnapshot name t store h e)

-- The entries without snapshots and the snapshot store, after a publish.
abbrev pub Uncaptured : Broker → Published → Type 0
Uncaptured b p = (p.broker.snapshots ≡ b.snapshots) × AllValues NoSnapshot p.broker.store

reserve-Uncaptured :
    (b : Broker) (clock : Clock) (f : Frame) (topic message_id : String) (entry : TopicEntry)
    → AllValues NoSnapshot b.store
    → Uncaptured b (reserve_and_store b clock f topic message_id entry)
unfolding store_and_deliver
reserve-Uncaptured b clock f topic message_id entry h =
    let reserved = modify topic (λ t. (try_inc_publisher t).0) b.store in
    let kept = modify-NoSnapshot topic b.store h in
    let nothing =
      capture-NoSnapshot b.snapshots clock.at_capture topic reserved entry.profile.snapshot_ttl
        kept in
    elim (try_inc_publisher entry).1
      as (λ granted. Uncaptured b (
        if granted
        then (store_and_deliver (record b { store = reserved }) clock f topic message_id
            entry.profile)
        else (record {
          broker = b;
          outcome = err (in_topic (TopicReject.publisher_limit topic));
          sinks = [];
          bytes = [];
        }))) [ false ↦ (refl, h) | true ↦ (ground (arith, nothing), kept) ]

-- Publishing never captures a snapshot: where no topic entry holds one, as in a new broker, the
-- snapshot store is the same after a publish, also under a profile that enables snapshots, and still
-- no entry holds one.
pub publish-Uncaptured :
    (b : Broker) (clock : Clock) (f : Frame)
    → AllValues NoSnapshot b.store
    → Uncaptured b (publish b clock f)
publish-Uncaptured b clock f h = elim (publish-cases b clock f) [
  | inl (e, eq) ↦ subst (Uncaptured b) (sym eq) (refl, h)
  | inr (topic, message_id, store, entry, _, _, _, found, eq) ↦ subst (Uncaptured b) (sym eq) (
      reserve-Uncaptured (record b { store = store }) clock f topic message_id entry
        (get_or_create-NoSnapshot b.store store topic b.default_profile entry h found))
]
