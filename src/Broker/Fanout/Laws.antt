-- ===== src/Broker/Fanout/Laws.antt =====
-- rifts-broker/src/broker/fanout.rs: the lists of the indices after the operations.
use rifts.Prelude.{
  ℕ, ◌≡◌, refl, String, Bool, Option, none, some, List, [], ◌∷◌, ◌++◌, retain, ◌==◌, Eq, nat_eq,
  string_eq, if◌then◌else◌, arith,
}
use rifts.Prelude.Map.{Map, lookup, lookup-insert, lookup-remove}
use rifts.Broker.Fanout.{FanoutEngine, or_empty, keep_nonempty, retain_entry, next_id, subscribe}

-- The subscriptions of a topic and the ids of a sink.
unfoldable pub subs : FanoutEngine → String → List (ℕ × ℕ)
subs e topic = or_empty (lookup topic e.by_topic)

unfoldable pub ids : FanoutEngine → ℕ → List ℕ
ids e sink = or_empty (lookup sink e.by_sink)

module _ {ℓ κ} {K : Type ℓ} {A : Type κ} ⦃e : Eq K⦄ where
  pub lookup-retain_entry :
      (p : A → Bool) (k j : K) (m : Map K (List A))
      → or_empty (lookup j (retain_entry p k m))
        ≡ (if e.beq k j then retain p (or_empty (lookup k m)) else or_empty (lookup j m))
  lookup-retain_entry p k j m = go (lookup k m) refl
    where
      present :
          (xs : List A)
          → or_empty (lookup j (keep_nonempty k xs m))
            ≡ (if e.beq k j then xs else or_empty (lookup j m))
      present [] = ground (arith, lookup-remove k j m)
      present (x ∷ xs) = ground (arith, lookup-insert k j (x ∷ xs) m)

      go :
          (o : Option (List A))
          → lookup k m ≡ o
          → or_empty (lookup j (elim o [ none ↦ m | some xs ↦ keep_nonempty k (retain p xs) m ]))
            ≡ (if e.beq k j then retain p (or_empty o) else or_empty (lookup j m))
      go none h = ground (arith, e.beq_iff k j, h)
      go (some xs) h = present (retain p xs)

-- Every index after a subscription.
pub subscribe_lem :
    (e : FanoutEngine) (topic : String) (sink : ℕ) (t : String) (s i : ℕ)
    → let d = (subscribe e topic sink).0 in
      (subs d t
        ≡ (if string_eq.beq topic t then subs e topic ++ (next_id e, sink) ∷ [] else subs e t))
      × (ids d s ≡ (if sink == s then ids e sink ++ next_id e ∷ [] else ids e s))
      × (lookup i d.by_id ≡ (if next_id e == i then some (topic, sink) else lookup i e.by_id))
unfolding subscribe subs ids
subscribe_lem e topic sink t s i = (
  ground (
    arith,
    lookup-insert topic t (or_empty (lookup topic e.by_topic) ++ (next_id e, sink) ∷ []) e.by_topic,
  ),
  ground
      (arith, lookup-insert sink s (or_empty (lookup sink e.by_sink) ++ next_id e ∷ []) e.by_sink),
  lookup-insert (next_id e) i (topic, sink) e.by_id,
)
