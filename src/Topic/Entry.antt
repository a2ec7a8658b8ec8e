-- ===== src/Topic/Entry.antt =====
-- rifts-core/src/topic/store.rs, `LogEntry` and `TopicEntry`. The locks and atomics of an entry are
-- its plain fields: a method returns the new entry. `now` stands for the result of `now_ms()`, and
-- a payload for the list of its bytes.
pub mod Log
pub mod Slots
pub mod Append
use rifts.Prelude.{
  ℕ, ◌+◌, ◌-◌, ◌%◌, ◌^◌, String, Bool, true, false, ◌&&◌, Option, none, some, List, [], ◌∷◌, ◌++◌,
  ltb, leb, ◌==◌, length, drop, retain, last?, if◌then◌else◌,
}
use rifts.Prelude.Int.{ℤ, pos, leb_ℤ, ltb_ℤ, as_i64, i64_sub, int_eq}
use rifts.Topic.Policy.{
  TopicProfile, RetentionPolicy, nothing, ttl, count, size, durable, latest, as_millis,
}

pub record LogEntry : Type 0 where
  pub offset : ℤ
  pub publisher_session : Option String
  pub message_id : String
  pub class : String
  pub event : Option String
  pub payload : List ℕ
  pub timestamp : ℤ
  pub appended_at : Option ℤ

pub record TopicEntry : Type 0 where
  pub name : String
  pub profile : TopicProfile
  pub closed : Bool
  pub log : List LogEntry
  pub subscriber_count : ℕ
  pub publisher_count : ℕ
  pub latest_snapshot : Option LogEntry

abbrev pub new : String → TopicProfile → TopicEntry
new name profile = record {
  name = name;
  profile = profile;
  closed = false;
  log = [];
  subscriber_count = 0;
  publisher_count = 0;
  latest_snapshot = none;
}

-- `Option::map(|e| e.offset).unwrap_or(0)`.
abbrev pub offset_or_zero : Option LogEntry → ℤ
offset_or_zero none = pos 0
offset_or_zero (some e) = e.offset

unfoldable pub head_offset : TopicEntry → ℤ
head_offset t = offset_or_zero (last? t.log)

unfoldable pub can_subscribe : TopicEntry → Bool
can_subscribe t = ltb t.subscriber_count t.profile.max_subscribers

unfoldable pub can_publish : TopicEntry → Bool
can_publish t = ltb t.publisher_count t.profile.max_publishers

-- `fetch_add` and `fetch_sub` on `AtomicU64` wrap.
abbrev pub u64_add : ℕ → ℕ → ℕ
u64_add a b = (a + b) % 2 ^ 64

abbrev pub u64_sub : ℕ → ℕ → ℕ
u64_sub a b = (a + 2 ^ 64 - b) % 2 ^ 64

unfoldable pub inc_subscriber : TopicEntry → TopicEntry
inc_subscriber t = record t { subscriber_count = u64_add t.subscriber_count 1 }

unfoldable pub dec_subscriber : TopicEntry → TopicEntry
dec_subscriber t = record t { subscriber_count = u64_sub t.subscriber_count 1 }

unfoldable pub inc_publisher : TopicEntry → TopicEntry
inc_publisher t = record t { publisher_count = u64_add t.publisher_count 1 }

unfoldable pub dec_publisher : TopicEntry → TopicEntry
dec_publisher t = record t { publisher_count = u64_sub t.publisher_count 1 }

-- What one round of the loops in `try_inc_subscriber` and `try_inc_publisher` stores, or that the
-- loop ends. `cur + 1` is below the limit's successor, so it does not wrap.
unfoldable pub slot_next : (limit cur : ℕ) → Option ℕ
slot_next limit cur = if leb limit cur then none else some (cur + 1)

unfoldable pub try_inc_subscriber : TopicEntry → TopicEntry × Bool
unfolding slot_next
try_inc_subscriber t = elim (slot_next t.profile.max_subscribers t.subscriber_count) [
  | none ↦ (t, false)
  | some v ↦ (record t { subscriber_count = v }, true)
]

unfoldable pub try_inc_publisher : TopicEntry → TopicEntry × Bool
unfolding slot_next
try_inc_publisher t = elim (slot_next t.profile.max_publishers t.publisher_count) [
  | none ↦ (t, false)
  | some v ↦ (record t { publisher_count = v }, true)
]

abbrev pub payload_len : LogEntry → ℕ
payload_len e = length e.payload

unfoldable pub total_payload : List LogEntry → ℕ
total_payload [] = 0
total_payload (e ∷ es) = payload_len e + total_payload es

-- `if log.len() > n { log.drain(0..log.len() - n) }`.
abbrev pub keep_last : ℕ → List LogEntry → List LogEntry
keep_last n log = if ltb n (length log) then drop (length log - n) log else log

-- The `while` of the size policy and the `drain` behind it: the entries from `idx` on are kept.
unfoldable pub evict_over : (max_bytes total : ℕ) → List LogEntry → List LogEntry
evict_over max_bytes total [] = []
evict_over max_bytes total (e ∷ es) =
    let rest = evict_over max_bytes (total - payload_len e) es in
    if ltb max_bytes total then rest else e ∷ es

-- The time that the TTL policy goes by.
abbrev pub append_time : LogEntry → ℤ
append_time e = elim e.appended_at [ none ↦ e.timestamp | some at ↦ at ]

abbrev pub is_fresh : (now ttl_ms : ℤ) → LogEntry → Bool
is_fresh now ttl_ms e = leb_ℤ (i64_sub now (append_time e)) ttl_ms

abbrev pub durable_memory_cap : ℕ
durable_memory_cap = 10_000

-- The `match profile.retention` of `append`, on the log with the new entry at its end.
unfoldable pub apply_retention : RetentionPolicy → (now offset : ℤ) → List LogEntry → List LogEntry
unfolding evict_over total_payload
apply_retention nothing now offset log = []
apply_retention (count n) now offset log = keep_last n log
apply_retention (size max_bytes) now offset log = evict_over max_bytes (total_payload log) log
apply_retention (ttl d) now offset log = retain (is_fresh now (as_i64 (as_millis d))) log
apply_retention latest now offset log = retain (λ e. e.offset == offset) log
apply_retention durable now offset log = keep_last durable_memory_cap log

-- The stamps that `append` puts on the entry.
unfoldable pub stamp : ℤ → LogEntry → LogEntry
stamp now e = record e {
  timestamp = if e.timestamp == pos 0 then now else e.timestamp;
  appended_at = some now;
}

unfoldable pub append : TopicEntry → (now : ℤ) → LogEntry → TopicEntry
unfolding stamp apply_retention
append t now entry =
    let e = stamp now entry in
    record t {
      log = apply_retention t.profile.retention now e.offset (t.log ++ e ∷ []);
      latest_snapshot = if t.profile.snapshot_enabled then some e else t.latest_snapshot;
    }

abbrev pub in_range : (from to : ℤ) → LogEntry → Bool
in_range from to e = leb_ℤ from e.offset && ltb_ℤ e.offset to

unfoldable pub range : TopicEntry → (from to : ℤ) → List LogEntry
range t from to = retain (in_range from to) t.log

abbrev pub snapshot : TopicEntry → Option LogEntry
snapshot t = t.latest_snapshot
