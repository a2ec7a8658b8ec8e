-- ===== src/Broker/Fanout/Consistent.antt =====
-- rifts-broker/src/broker/fanout.rs: the three indices agree.
use rifts.Prelude.{
  ℕ, ◌+◌, ◌^◌, ◌<◌, ◌≡◌, refl, String, Bool, false, ◌&&◌, ◌||◌, not, Option, none, some, List, [],
  ◌∷◌, ◌++◌, retain, ◌==◌, nat_eq, string_eq, if◌then◌else◌, arith,
}
use rifts.Prelude.Map.{lookup, remove, lookup-remove}
use rifts.Prelude.Reap.{member}
use rifts.Broker.Fanout.{
  FanoutEngine, next_id, subscribe, unsubscribe, unsubscribe_all, unfile, drop_sink, new,
}
use rifts.Broker.Fanout.Laws.{subs, ids, subscribe_lem, lookup-retain_entry}

abbrev pub has : (id sink : ℕ) → List (ℕ × ℕ) → Bool
has id sink [] = false
has id sink ((j, t) ∷ xs) = (j == id && t == sink) || has id sink xs

abbrev pub filed : Option (String × ℕ) → String → ℕ → Bool
filed none topic sink = false
filed (some (t, s)) topic sink = string_eq.beq t topic && s == sink

abbrev pub on_sink : Option (String × ℕ) → ℕ → Bool
on_sink none sink = false
on_sink (some (_, s)) sink = s == sink

has-snoc :
    (id sink j t : ℕ) (xs : List (ℕ × ℕ))
    → has id sink (xs ++ (j, t) ∷ []) ≡ (has id sink xs || (j == id && t == sink))
has-snoc id sink j t [] = ground arith
has-snoc id sink j t ((k, u) ∷ xs) = ground (arith, has-snoc id sink j t xs)

member-snoc : (id j : ℕ) (xs : List ℕ) → member id (xs ++ j ∷ []) ≡ (member id xs || j == id)
member-snoc id j [] = ground arith
member-snoc id j (k ∷ xs) = ground (arith, member-snoc id j xs)

has-retain :
    (id sink gone : ℕ) (xs : List (ℕ × ℕ))
    → has id sink (retain (λ s. not (s.0 == gone)) xs) ≡ (has id sink xs && not (id == gone))
has-retain id sink gone [] = refl
has-retain id sink gone ((k, u) ∷ xs) = ground (arith, has-retain id sink gone xs)

member-retain :
    (id gone : ℕ) (xs : List ℕ)
    → member id (retain (λ s. not (s == gone)) xs) ≡ (member id xs && not (id == gone))
member-retain id gone [] = refl
member-retain id gone (k ∷ xs) = ground (arith, member-retain id gone xs)

-- A subscription is in its topic's list, with its sink, and in its sink's list exactly if it is
-- filed under its id; and no id is above the counter.
pub record IsConsistent (e : FanoutEngine) : Type 0 where
  pub topics : (t : String) (s i : ℕ) → has i s (subs e t) ≡ filed (lookup i e.by_id) t s
  pub sinks : (s i : ℕ) → member i (ids e s) ≡ on_sink (lookup i e.by_id) s
  pub numbered : (i : ℕ) → e.seq < i → lookup i e.by_id ≡ none

-- A new engine is consistent.
pub new-IsConsistent : IsConsistent new
unfolding subs ids lookup
new-IsConsistent = record { topics = λ t s i. refl; sinks = λ s i. refl; numbered = λ i h. refl }

-- Below the largest id, a subscription of a consistent engine has a new id and is filed under it, and
-- the engine stays consistent.
pub subscribe-IsConsistent :
    (e : FanoutEngine) (topic : String) (sink : ℕ)
    → e.seq + 1 < 2 ^ 64
    → IsConsistent e
    → let (d, id) = subscribe e topic sink in
      (lookup id e.by_id ≡ none) × (lookup id d.by_id ≡ some (topic, sink)) × IsConsistent d
unfolding subscribe
subscribe-IsConsistent e topic sink h c =
    let d = (subscribe e topic sink).0 in
    let fresh : lookup (next_id e) e.by_id ≡ none = c.numbered (next_id e) (omega arith) in
    (
      fresh,
      ground (arith, (subscribe_lem e topic sink topic sink (next_id e)).2),
      record {
        topics = λ t s i. ground (
          arith,
          (subscribe_lem e topic sink t s i).0,
          (subscribe_lem e topic sink t s i).2,
          c.topics t s i,
          fresh,
          has-snoc i s (next_id e) sink (subs e topic),
          string_eq.beq_iff topic t,
        );
        sinks = λ s i. ground (
          arith,
          (subscribe_lem e topic sink topic s i).1,
          (subscribe_lem e topic sink topic s i).2,
          c.sinks s i,
          fresh,
          member-snoc i (next_id e) (ids e sink),
        );
        numbered = λ i above.
            ground (arith, (subscribe_lem e topic sink topic sink i).2, c.numbered i, above);
      },
    )

unfile-IsConsistent :
    (o : Option (String × ℕ)) (e : FanoutEngine) (id : ℕ)
    → lookup id e.by_id ≡ o
    → IsConsistent e
    → IsConsistent (unfile o id e).0
      × ((i : ℕ) → lookup i (unfile o id e).0.by_id ≡ (if id == i then none else lookup i e.by_id))
unfolding subs ids
unfile-IsConsistent none e id h c = (c, λ i. ground (arith, h))
unfile-IsConsistent (some (topic, sink)) e id h c = (
  record {
    topics = topics;
    sinks = sinks;
    numbered = λ i above. ground (arith, lookup-remove id i e.by_id, c.numbered i above);
  },
  λ i. lookup-remove id i e.by_id,
)
  where
    topics :
        (t : String) (s i : ℕ)
        → has i s (subs (unfile (some (topic, sink)) id e).0 t)
          ≡ filed (lookup i (remove id e.by_id)) t s
    topics t s i = ground (
      arith,
      lookup-retain_entry (λ x. not (x.0 == id)) topic t e.by_topic,
      has-retain i s id (subs e topic),
      lookup-remove id i e.by_id,
      c.topics t s i,
      c.topics topic s i,
      string_eq.beq_iff topic t,
      h,
    )

    sinks :
        (s i : ℕ)
        → member i (ids (unfile (some (topic, sink)) id e).0 s)
          ≡ on_sink (lookup i (remove id e.by_id)) s
    sinks s i = ground (
      arith,
      lookup-retain_entry (λ x. not (x == id)) sink s e.by_sink,
      member-retain i id (ids e sink),
      lookup-remove id i e.by_id,
      c.sinks s i,
      c.sinks sink i,
      h,
    )

-- What was filed under an id: its topic alone.
abbrev pub topic_of : Option (String × ℕ) → Option String
topic_of none = none
topic_of (some (t, _)) = some t

-- Unsubscribing answers the topic of the subscription, or nothing if there is none, takes that one
-- subscription out of every index and no other, and the engine stays consistent.
pub unsubscribe-IsConsistent :
    (e : FanoutEngine) (id i : ℕ)
    → IsConsistent e
    → let (d, topic) = unsubscribe e id in
      (topic ≡ topic_of (lookup id e.by_id))
      × (lookup i d.by_id ≡ (if id == i then none else lookup i e.by_id))
      × IsConsistent d
unfolding unsubscribe
unsubscribe-IsConsistent e id i c =
    let (stays, gone) = unfile-IsConsistent (lookup id e.by_id) e id refl c in
    (answer (lookup id e.by_id), gone i, stays)
  where
    answer : (o : Option (String × ℕ)) → (unfile o id e).1 ≡ topic_of o
    answer none = refl
    answer (some _) = refl

unsubscribe_all-IsConsistent :
    (gone : List ℕ) (e : FanoutEngine) (i : ℕ)
    → IsConsistent e
    → let d = (unsubscribe_all gone e).0 in
      (lookup i d.by_id ≡ (if member i gone then none else lookup i e.by_id)) × IsConsistent d
unfolding unsubscribe_all
unsubscribe_all-IsConsistent [] e i c = (refl, c)
unsubscribe_all-IsConsistent (id ∷ gone) e i c =
    let (_, found, stays) = unsubscribe-IsConsistent e id i c in
    let (later, last) = unsubscribe_all-IsConsistent gone (unsubscribe e id).0 i stays in
    (ground (arith, found, later), last)

-- Dropping a sink takes out exactly the subscriptions on that sink, and the engine stays consistent:
-- no list of subscribers has the sink afterwards, and those of other sinks are as before.
pub drop_sink-IsConsistent :
    (e : FanoutEngine) (sink i s : ℕ) (t : String)
    → IsConsistent e
    → let d = (drop_sink e sink).0 in
      (lookup i d.by_id ≡ (if on_sink (lookup i e.by_id) sink then none else lookup i e.by_id))
      × (has i s (subs d t) ≡ (if sink == s then false else has i s (subs e t)))
      × IsConsistent d
unfolding drop_sink ids
drop_sink-IsConsistent e sink i s t c =
    let (found, stays) = unsubscribe_all-IsConsistent (ids e sink) e i c in
    (
      ground (arith, found, c.sinks sink i),
      ground (arith, found, c.sinks sink i, stays.topics t s i, c.topics t s i),
      stays,
    )
