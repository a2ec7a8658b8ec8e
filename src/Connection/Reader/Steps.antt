-- ===== src/Connection/Reader/Steps.antt =====
-- What the calls of a connection on its broker do to the subscriptions.
use rifts.Prelude.{
  ℕ, ◌+◌, ◌^◌, ◌<◌, ◌≤◌, ◌≡◌, ◌⊎◌, inl, inr, refl, ap, sym, subst, ◌∙◌, String, true, false, ◌||◌,
  Option, none, some, List, [], ◌∷◌, ◌++◌, if◌then◌else◌, ◌==◌, nat_eq, string_eq, arith,
}
use rifts.Prelude.Map.{lookup}
use rifts.Prelude.Reap.{member}
use rifts.Errors.{Result, ok, err, RiftError, in_topic, TopicReject}
use rifts.Frame.Envelope.{Frame}
use rifts.Broker.Fanout.{FanoutEngine, unfile, subscribe, unsubscribe}
use rifts.Broker.Fanout.Laws.{subs, subscribe_lem}
use rifts.Broker.Fanout.Consistent.{
  IsConsistent, has, subscribe-IsConsistent, unsubscribe-IsConsistent,
}
use rifts.Broker.Memory.Publish.{publish-cases}
use rifts.Topic.Store.{TopicStore, modify}
use rifts.Topic.Entry.{TopicEntry, try_inc_subscriber}
use rifts.Topic.Name.{validate_name}
use rifts.Connection.Outbound.{
  Outbound, Sent, deliver_to, try_send, sent, channel_full, channel_closed,
}
use rifts.Broker.Memory.{
  Broker, Clock, reserve_and_store, store_and_deliver, subscribe_routed, route, publish,
  subscribe_to,
}
use rifts.Connection.Control.{Conn, add_number, send, after_send}
use rifts.Connection.Reader.{hand_out}

-- What one step does to the subscriptions of a consistent engine below the last id: those after it
-- were there before or belong to a sink that the connection notes, its notes are kept, and at most
-- one id is used.
pub record IsTracked (c d : Conn) : Type 0 where
  pub consistent : IsConsistent d.broker.fanout
  pub noted :
      (i s : ℕ) (t : String)
      → has i s (subs d.broker.fanout t) ≡ true
      → (has i s (subs c.broker.fanout t) ≡ true) ⊎ (member s d.subscription_sinks ≡ true)
  pub kept : (s : ℕ) → member s c.subscription_sinks ≡ true → member s d.subscription_sinks ≡ true
  pub counted : d.broker.fanout.seq ≤ c.broker.fanout.seq + 1
  pub same_sink : d.sink_id ≡ c.sink_id

reserve-fanout :
    (b : Broker) (store : TopicStore) (clock : Clock) (f : Frame) (topic message_id : String)
    (entry : TopicEntry)
    → (reserve_and_store (record b { store = store }) clock f topic message_id entry).broker.fanout
      ≡ b.fanout
unfolding store_and_deliver
reserve-fanout b store clock f topic message_id entry = ground arith

pub publish-fanout :
    (b : Broker) (clock : Clock) (f : Frame) → (publish b clock f).broker.fanout ≡ b.fanout
publish-fanout b clock f = elim (publish-cases b clock f) [
  | inl (e, eq) ↦ ap (λ p. p.broker.fanout) eq
  | inr (topic, message_id, store, entry, _, _, _, _, eq) ↦
      ap (λ p. p.broker.fanout) eq ∙ reserve-fanout b store clock f topic message_id entry
]

-- Nothing that matters here changed.
pub record IsSame (c d : Conn) : Type 0 where
  pub fanout : d.broker.fanout ≡ c.broker.fanout
  pub sinks : d.subscription_sinks ≡ c.subscription_sinks
  pub own : d.sink_id ≡ c.sink_id

pub hand_out_lem : (bytes : List ℕ) (sinks : List ℕ) (c : Conn) → IsSame c (hand_out bytes sinks c)
unfolding hand_out
hand_out_lem bytes [] c = record { fanout = refl; sinks = refl; own = refl }
hand_out_lem bytes (s ∷ sinks) c =
    elim (member s c.subscription_sinks)
      as (λ mine. IsSame c (
        hand_out bytes sinks (
          if mine
          then record c { out = (deliver_to c.out c.max_bytes c.codec bytes).0 }
          else record c { handed = c.handed ++ (s, bytes) ∷ [] }))) [
            | true ↦
                let ih =
                  hand_out_lem bytes sinks
                    (record c { out = (deliver_to c.out c.max_bytes c.codec bytes).0 }) in
                record { fanout = ih.fanout; sinks = ih.sinks; own = ih.own }
            | false ↦
                let ih =
                  hand_out_lem bytes sinks (record c { handed = c.handed ++ (s, bytes) ∷ [] }) in
                record { fanout = ih.fanout; sinks = ih.sinks; own = ih.own }
          ]

after_send-IsSame : (c : Conn) (r : Outbound × Sent) → IsSame c (after_send c r).0
after_send-IsSame c (o, sent) = record { fanout = refl; sinks = refl; own = refl }
after_send-IsSame c (o, channel_full) = record { fanout = refl; sinks = refl; own = refl }
after_send-IsSame c (o, channel_closed) = record { fanout = refl; sinks = refl; own = refl }

pub send-IsSame : (c : Conn) (f : Frame) → IsSame c (send c f).0
unfolding send
send-IsSame c f = after_send-IsSame c (try_send c.out f)

-- What a subscription leaves: the engine as it was, with an error, or with one more subscription.
abbrev pub SubscribedOr : Broker → (topic : String) → (sink : ℕ) → Broker × Result ℕ → Type 0
SubscribedOr b topic sink (d, r) =
    ((d.fanout ≡ b.fanout) × ((e : RiftError) × (r ≡ err e)))
    ⊎ ((d.fanout ≡ (subscribe b.fanout topic sink).0) × ((id : ℕ) × (r ≡ ok id)))

subscribe_routed-SubscribedOr :
    (b : Broker) (topic : String) (sink : ℕ) (found : TopicStore × Option TopicEntry)
    → SubscribedOr b topic sink (subscribe_routed b topic sink found)
subscribe_routed-SubscribedOr b topic sink (store, none) =
    inl (refl, (in_topic (TopicReject.not_found topic), refl))
subscribe_routed-SubscribedOr b topic sink (store, some entry) =
    elim (try_inc_subscriber entry).1
      as (λ granted. SubscribedOr b topic sink (
        if granted
        then (let (fanout, id) = subscribe b.fanout topic sink in
            (
              record b {
                store = modify topic (λ t. (try_inc_subscriber t).0) store;
                fanout = fanout;
              },
              ok id,
            ))
        else (record b { store = store }, err (in_topic (TopicReject.subscriber_limit topic))))) [
          | true ↦ inr (refl, ((subscribe b.fanout topic sink).1, refl))
          | false ↦ inl (refl, (in_topic (TopicReject.subscriber_limit topic), refl))
        ]

pub subscribe_to-SubscribedOr :
    (b : Broker) (topic : String) (sink : ℕ) → SubscribedOr b topic sink (subscribe_to b topic sink)
unfolding subscribe_to
subscribe_to-SubscribedOr b topic sink = named (validate_name topic)
  where
    named :
        (n : Result (Unit {0}))
        → SubscribedOr b topic sink
            (elim n [ err e ↦ (b, err e) | ok _ ↦ subscribe_routed b topic sink (route b topic) ])
    named (err e) = inl (refl, (e, refl))
    named (ok _) = subscribe_routed-SubscribedOr b topic sink (route b topic)

pub same-IsTracked : (c d : Conn) → IsConsistent c.broker.fanout → IsSame c d → IsTracked c d
same-IsTracked c d h same = record {
  consistent = subst IsConsistent (sym same.fanout) h;
  noted = λ i s t there. inl (ap (λ f. has i s (subs f t)) (sym same.fanout) ∙ there);
  kept = λ s there. ap (member s) same.sinks ∙ there;
  counted = ground (arith, same.fanout);
  same_sink = same.own;
}

member-snoc : (s x : ℕ) (xs : List ℕ) → member s (xs ++ x ∷ []) ≡ (member s xs || x == s)
member-snoc s x [] = ground arith
member-snoc s x (y ∷ xs) = ground (arith, member-snoc s x xs)

member-add_number : (s x : ℕ) (xs : List ℕ) → member s (add_number x xs) ≡ (member s xs || x == s)
member-add_number s x xs = ground (arith, member-snoc s x xs)

pub subscribe-IsTracked :
    (c d : Conn) (topic : String) (sink : ℕ)
    → IsConsistent c.broker.fanout
    → c.broker.fanout.seq + 1 < 2 ^ 64
    → d.broker.fanout ≡ (subscribe c.broker.fanout topic sink).0
    → d.subscription_sinks ≡ add_number sink c.subscription_sinks
    → d.sink_id ≡ c.sink_id
    → IsTracked c d
unfolding subscribe
subscribe-IsTracked c d topic sink h below same sinks own =
    let e = c.broker.fanout in
    let (_, _, next) = subscribe-IsConsistent e topic sink below h in
    record {
      consistent = subst IsConsistent (sym same) next;
      noted = λ i s t there.
          let (_, _, filed_next) = subscribe_lem e topic sink t s i in
          ground (
            arith,
            ap (λ f. has i s (subs f t)) same,
            there,
            h.topics t s i,
            next.topics t s i,
            filed_next,
            ap (member s) sinks,
            member-add_number s sink c.subscription_sinks,
          );
      kept = λ s there.
          ground (arith, there, ap (member s) sinks, member-add_number s sink c.subscription_sinks);
      counted = ground (arith, ap (λ f. f.seq) same);
      same_sink = own;
    }

unsubscribe-seq : (e : FanoutEngine) (id : ℕ) → (unsubscribe e id).0.seq ≡ e.seq
unfolding unsubscribe
unsubscribe-seq e id = found (lookup id e.by_id)
  where
    found : (o : Option (String × ℕ)) → (unfile o id e).0.seq ≡ e.seq
    found none = refl
    found (some (topic, sink)) = refl

pub unsubscribe-IsTracked :
    (c d : Conn) (id : ℕ)
    → IsConsistent c.broker.fanout
    → d.broker.fanout ≡ (unsubscribe c.broker.fanout id).0
    → d.subscription_sinks ≡ c.subscription_sinks
    → d.sink_id ≡ c.sink_id
    → IsTracked c d
unsubscribe-IsTracked c d id h same sinks own =
    let e = c.broker.fanout in
    let (_, _, next) = unsubscribe-IsConsistent e id 0 h in
    record {
      consistent = subst IsConsistent (sym same) next;
      noted = λ i s t there.
          let (_, left, _) = unsubscribe-IsConsistent e id i h in
          ground (
            arith,
            ap (λ f. has i s (subs f t)) same,
            there,
            h.topics t s i,
            next.topics t s i,
            left,
          );
      kept = λ s there. ap (member s) sinks ∙ there;
      counted = ground (arith, ap (λ f. f.seq) same, unsubscribe-seq e id);
      same_sink = own;
    }

pub then-IsTracked : (c d e : Conn) → IsTracked c d → IsSame d e → IsTracked c e
then-IsTracked c d e first same = record {
  consistent = subst IsConsistent (sym same.fanout) first.consistent;
  noted = λ i s t there.
      elim (first.noted i s t (ap (λ f. has i s (subs f t)) (sym same.fanout) ∙ there)) [
        | inl before ↦ inl before
        | inr mine ↦ inr (ap (member s) same.sinks ∙ mine)
      ];
  kept = λ s there. ap (member s) same.sinks ∙ first.kept s there;
  counted = ground (arith, first.counted, ap (λ f. f.seq) same.fanout);
  same_sink = same.own ∙ first.same_sink;
}
