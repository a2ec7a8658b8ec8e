-- ===== src/Broker/Fanout.antt =====
-- rifts-broker/src/broker/fanout.rs, `FanoutEngine`: three indices over the subscriptions, by topic,
-- by subscription and by sink. A sink is given by what its `id()` returns, and a subscription by the
-- number in its `SubscriptionId`. The concurrent maps are plain maps: an operation is one step.
pub mod Laws
pub mod Consistent
use rifts.Prelude.{
  ℕ, zero, suc, ◌+◌, ◌%◌, ◌^◌, String, Bool, true, false, not, Option, none, some, List, [], ◌∷◌,
  ◌++◌, map, length, retain, ◌==◌, Eq, nat_eq, string_eq, if◌then◌else◌,
}
use rifts.Prelude.Map.{Map, lookup, insert, remove}

pub record FanoutEngine : Type 0 where
  pub by_topic : Map String (List (ℕ × ℕ))
  pub by_id : Map ℕ (String × ℕ)
  pub by_sink : Map ℕ (List ℕ)
  pub seq : ℕ

abbrev pub new : FanoutEngine
new = record { by_topic = []; by_id = []; by_sink = []; seq = 0 }

abbrev pub or_empty {ℓ} : {A : Type ℓ} → Option (List A) → List A
or_empty none = []
or_empty (some xs) = xs

abbrev pub next_id : FanoutEngine → ℕ
next_id e = (e.seq + 1) % 2 ^ 64

unfoldable pub subscribe : FanoutEngine → (topic : String) → (sink : ℕ) → FanoutEngine × ℕ
subscribe e topic sink = (
  record {
    by_topic =
        insert topic (or_empty (lookup topic e.by_topic) ++ (next_id e, sink) ∷ []) e.by_topic;
    by_id = insert (next_id e) (topic, sink) e.by_id;
    by_sink = insert sink (or_empty (lookup sink e.by_sink) ++ next_id e ∷ []) e.by_sink;
    seq = next_id e;
  },
  next_id e,
)

abbrev is_empty {ℓ} : {A : Type ℓ} → List A → Bool
is_empty [] = true
is_empty (_ ∷ _) = false

-- A list that lost elements: its entry goes when nothing is left.
abbrev pub keep_nonempty {ℓ κ} :
    {K : Type ℓ} {A : Type κ} ⦃e : Eq K⦄ → K → List A → Map K (List A) → Map K (List A)
keep_nonempty k xs m = if is_empty xs then remove k m else insert k xs m

-- `get_mut`, `retain` and the removal of an empty list, if the entry is there.
abbrev pub retain_entry {ℓ κ} :
    {K : Type ℓ} {A : Type κ} ⦃e : Eq K⦄ → (A → Bool) → K → Map K (List A) → Map K (List A)
retain_entry p k m = elim (lookup k m) [ none ↦ m | some xs ↦ keep_nonempty k (retain p xs) m ]

-- An unsubscription of the given id, by what is filed under it.
abbrev pub unfile : Option (String × ℕ) → ℕ → FanoutEngine → FanoutEngine × Option String
unfile none id e = (e, none)
unfile (some (topic, sink)) id e = (
  record e {
    by_id = remove id e.by_id;
    by_topic = retain_entry (λ s. not (s.0 == id)) topic e.by_topic;
    by_sink = retain_entry (λ sid. not (sid == id)) sink e.by_sink;
  },
  some topic,
)

unfoldable pub unsubscribe : FanoutEngine → ℕ → FanoutEngine × Option String
unsubscribe e id = unfile (lookup id e.by_id) id e

abbrev pub cons_some {ℓ} : {A : Type ℓ} → Option A → List A → List A
cons_some none xs = xs
cons_some (some x) xs = x ∷ xs

unfoldable pub unsubscribe_all : List ℕ → FanoutEngine → FanoutEngine × List String
unfolding unsubscribe
unsubscribe_all [] e = (e, [])
unsubscribe_all (id ∷ ids) e =
    let (d, topic) = unsubscribe e id in
    let (last, topics) = unsubscribe_all ids d in (last, cons_some topic topics)

unfoldable pub drop_sink : FanoutEngine → ℕ → FanoutEngine × List String
unfolding unsubscribe_all
drop_sink e sink = unsubscribe_all (or_empty (lookup sink e.by_sink)) e

-- The sinks that `deliver` calls, in order, and how many of them take the frame; `takes` tells which
-- sink's own `deliver` succeeds.
unfoldable pub recipients : FanoutEngine → String → List ℕ
recipients e topic = map (λ s. s.1) (or_empty (lookup topic e.by_topic))

unfoldable pub count_taken : (takes : ℕ → Bool) → List ℕ → ℕ
count_taken takes [] = 0
count_taken takes (sink ∷ sinks) =
    let rest = count_taken takes sinks in if takes sink then suc rest else rest

unfoldable pub deliver : FanoutEngine → String → (takes : ℕ → Bool) → ℕ
unfolding recipients count_taken
deliver e topic takes = count_taken takes (recipients e topic)

unfoldable pub subscription_count : FanoutEngine → ℕ
subscription_count e = length e.by_id

unfoldable pub topic_subscriber_count : FanoutEngine → String → ℕ
topic_subscriber_count e topic = length (or_empty (lookup topic e.by_topic))
