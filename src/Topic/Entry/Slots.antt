-- ===== src/Topic/Entry/Slots.antt =====
-- rifts-core/src/topic/store.rs: the subscriber and publisher slots of a topic.
use rifts.Prelude.{
  ℕ, ◌+◌, ◌-◌, ◌≡◌, refl, ◌≤◌, ◌<◌, ◌^◌, ◌⊎◌, true, false, some, List, length, arith, [], ◌∷◌,
  Option-cases, inl, inr, dec_lt,
}
use rifts.Atomic.{System, init, Trace}
use rifts.Atomic.Linear.{in_sequence, Trace-in_sequence}
use rifts.Topic.Entry.{
  TopicEntry, slot_next, try_inc_subscriber, try_inc_publisher, dec_subscriber, dec_publisher,
  can_subscribe, can_publish,
}

-- With a limit that fits a `u64`: a subscriber slot is given exactly while the count is below the
-- limit, as `can_subscribe` tells; then the count grows by one, and otherwise the topic is unchanged.
-- Giving the slot back restores the topic.
pub try_inc_subscriber_lem :
    (t : TopicEntry)
    → t.profile.max_subscribers < 2 ^ 64
    → ((try_inc_subscriber t).1 ≡ can_subscribe t)
      × (((t.subscriber_count < t.profile.max_subscribers)
            × (try_inc_subscriber t
                ≡ (record t { subscriber_count = t.subscriber_count + 1 }, true))
            × (dec_subscriber (try_inc_subscriber t).0 ≡ t))
          ⊎ ((t.profile.max_subscribers ≤ t.subscriber_count)
              × (try_inc_subscriber t ≡ (t, false))))
unfolding try_inc_subscriber can_subscribe dec_subscriber
try_inc_subscriber_lem t h = (
  ground arith,
  elim (dec_lt t.subscriber_count t.profile.max_subscribers) [
    | yes room ↦ inl (room, ground arith, ground arith)
    | no full ↦ inr (omega arith, ground arith)
  ],
)

-- With a limit that fits a `u64`: a publisher slot is given exactly while the count is below the
-- limit, as `can_publish` tells; then the count grows by one, and otherwise the topic is unchanged.
-- Giving the slot back restores the topic.
pub try_inc_publisher_lem :
    (t : TopicEntry)
    → t.profile.max_publishers < 2 ^ 64
    → ((try_inc_publisher t).1 ≡ can_publish t)
      × (((t.publisher_count < t.profile.max_publishers)
            × (try_inc_publisher t ≡ (record t { publisher_count = t.publisher_count + 1 }, true))
            × (dec_publisher (try_inc_publisher t).0 ≡ t))
          ⊎ ((t.profile.max_publishers ≤ t.publisher_count) × (try_inc_publisher t ≡ (t, false))))
unfolding try_inc_publisher can_publish dec_publisher
try_inc_publisher_lem t h = (
  ground arith,
  elim (dec_lt t.publisher_count t.profile.max_publishers) [
    | yes room ↦ inl (room, ground arith, ground arith)
    | no full ↦ inr (omega arith, ground arith)
  ],
)

-- A decrement at 0 wraps to the largest count instead of staying at 0, and from then on the topic
-- takes no subscriber, whatever its limit below that count.
pub dec_subscriber_at_zero :
    (t : TopicEntry)
    → t.subscriber_count ≡ 0
    → t.profile.max_subscribers < 2 ^ 64
    → ((dec_subscriber t).subscriber_count ≡ 2 ^ 64 - 1)
      × (try_inc_subscriber (dec_subscriber t) ≡ (dec_subscriber t, false))
unfolding dec_subscriber try_inc_subscriber
dec_subscriber_at_zero t z h = (ground arith, ground arith)

in_sequence-slots :
    (limit start v : ℕ) (l : List ℕ)
    → in_sequence (λ _. slot_next limit) start l ≡ some v
    → (v ≡ start + length l) × ((l ≡ []) ⊎ (v ≤ limit))
unfolding in_sequence slot_next
in_sequence-slots limit start v [] e = (ground arith, inl refl)
in_sequence-slots limit start v (i ∷ l) e =
    elim (Option-cases (in_sequence (λ _. slot_next limit) start l)) [
      | inl gone ↦ absurd (ground arith)
      | inr (u, here) ↦
          let (counted, bound) = in_sequence-slots limit start u l here in
          (ground arith, inr (ground arith))
    ]

-- However any number of tasks interleave in `try_inc_subscriber` or `try_inc_publisher`, the count is
-- its first value and one for each task that was given a slot, and once a slot was given it is at
-- most the limit.
pub slots_interleaved :
    (limit start : ℕ) {l : List ℕ} {s : System ℕ}
    → Trace (λ _. slot_next limit) (init start) l s
    → (s.cell ≡ start + length l) × ((l ≡ []) ⊎ (s.cell ≤ limit))
slots_interleaved limit start {l} {s} r =
    in_sequence-slots limit start s.cell l (Trace-in_sequence (λ _. slot_next limit) r)
