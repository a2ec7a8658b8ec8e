-- ===== src/Storage/SledDedupe.antt =====
-- rifts-storage/src/dedupe.rs, `SledDedupeStore`: when each message key of a topic expires, in a tree. Its
-- exchange on a key is atomic, so the tasks that check one message contend for one cell.
pub mod Once
use rifts.Prelude.{
  ℕ, suc, ◌==◌, nat_eq, list_eq, ◌+◌, ◌&&◌, Bool, true, false, Option, none, some, List, [], ◌∷◌,
  length, ltb, leb, if◌then◌else◌,
}
use rifts.Prelude.Int.{ℤ, as_u64, as_i64, i64_add, ltb_ℤ, leb_ℤ}
use rifts.Prelude.Bytes.{to_be_bytes}
use rifts.Prelude.Map.{Map}
use rifts.Prelude.Reap.{member}
use rifts.Topic.Policy.{as_millis}
use rifts.Storage.Tree.{Tree}
use rifts.Storage.Keys.{sep, topic_prefix}
use rifts.Storage.SledOffset.{value_of}

-- What one round of the loop finds: a record that has not expired, or an exchange to try.
pub data Round : Type 0 where
  seen : Round
  try : (expected : Option (List ℕ)) (new_bytes : List ℕ) → Round

abbrev pub expiry : (now : ℤ) (window : ℕ) → ℤ
expiry now window = i64_add now (as_i64 (as_millis window))

-- A record of fewer than 8 bytes is taken for none.
unfoldable pub round : (now : ℤ) (window : ℕ) → Option (List ℕ) → Round
round now window none = try none (to_be_bytes 8 (as_u64 (expiry now window)))
round now window (some v) =
    if leb 8 (length v)
    then (if ltb_ℤ now (value_of v)
        then seen
        else try (some v) (to_be_bytes 8 (as_u64 (expiry now window))))
    else try none (to_be_bytes 8 (as_u64 (expiry now window)))

-- What a task stores that last saw `prev`, where it tries the exchange.
abbrev pub stored_by : Round → Option (Option (List ℕ))
stored_by seen = none
stored_by (try expected new_bytes) = some (some new_bytes)

pub record Caller : Type 0 where
  pub now : ℤ
  pub window : ℕ

unfoldable pub check : Caller → Option (List ℕ) → Option (Option (List ℕ))
unfolding round
check caller prev = stored_by (round caller.now caller.window prev)

abbrev pub with_front : ℕ → Option (List ℕ) → Option (List ℕ)
with_front b none = none
with_front b (some front) = some (b ∷ front)

-- The bytes of a key in front of the separator, if there is one.
unfoldable pub before_sep : List ℕ → Option (List ℕ)
before_sep [] = none
before_sep (b ∷ k) = if b == sep then some [] else with_front b (before_sep k)

abbrev pub add_topic : Option (List ℕ) → List (List ℕ) → List (List ℕ)
add_topic none topics = topics
add_topic (some topic) topics = if member topic topics then topics else topic ∷ topics

-- The set of the topics that keys name. A topic that is no UTF-8 would be passed over; none is written.
unfoldable pub topics_of : Map (List ℕ) (List ℕ) → List (List ℕ)
unfolding before_sep
topics_of [] = []
topics_of ((k, v) ∷ rest) = add_topic (before_sep k) (topics_of rest)

module _ {E : Type 0} (t : Tree E) (now : ℤ) where
  abbrev pub is_expired : List ℕ → Bool
  is_expired v = leb 8 (length v) && leb_ℤ (value_of v) now

  -- The keys of one topic that have expired, deleted, with their number.
  unfoldable pub delete_expired : Map (List ℕ) (List ℕ) → E × ℕ → E × ℕ
  delete_expired [] swept = swept
  delete_expired ((k, v) ∷ rest) (e, total) =
      delete_expired rest (if is_expired v then (t.remove e k, suc total) else (e, total))

  -- The loop over the topics.
  unfoldable pub sweep_topics : (topics : List (List ℕ)) → E × ℕ → E × ℕ
  unfolding delete_expired topic_prefix
  sweep_topics [] swept = swept
  sweep_topics (topic ∷ rest) (e, total) =
      sweep_topics rest (delete_expired (t.scan_prefix e (topic_prefix topic)) (e, total))

  unfoldable pub sweep : E → E × ℕ
  unfolding sweep_topics before_sep topics_of
  sweep e = sweep_topics (topics_of (t.scan_prefix e [])) (e, 0)
