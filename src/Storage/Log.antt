-- ===== src/Storage/Log.antt =====
-- rifts-storage/src/log.rs, `MemoryLogStore`: the log of each topic. Unlike a topic's own log, the
-- TTL policy goes by the publisher's timestamp, durable topics have no cap, entries are stored
-- without a stamp, and a range holds both its ends.
use rifts.Prelude.{
  String, Bool, ◌&&◌, Option, none, some, List, [], ◌∷◌, ◌++◌, retain, last?, ◌==◌, string_eq,
}
use rifts.Prelude.Int.{ℤ, leb_ℤ, as_i64, i64_sub, int_eq}
use rifts.Prelude.Map.{Map, lookup, insert, remove}
use rifts.Topic.Policy.{RetentionPolicy, nothing, ttl, count, size, durable, latest, as_millis}
use rifts.Topic.Entry.{LogEntry, keep_last, evict_over, total_payload}

abbrev pub LogStore : Type 0
LogStore = Map String (List LogEntry)

abbrev pub log_of : Option (List LogEntry) → List LogEntry
log_of none = []
log_of (some log) = log

abbrev pub is_recent : (now ttl_ms : ℤ) → LogEntry → Bool
is_recent now ttl_ms e = leb_ℤ (i64_sub now e.timestamp) ttl_ms

unfoldable pub retain_log : RetentionPolicy → (now offset : ℤ) → List LogEntry → List LogEntry
unfolding evict_over total_payload
retain_log nothing now offset log = []
retain_log (count n) now offset log = keep_last n log
retain_log (size max_bytes) now offset log = evict_over max_bytes (total_payload log) log
retain_log (ttl d) now offset log = retain (is_recent now (as_i64 (as_millis d))) log
retain_log latest now offset log = retain (λ e. e.offset == offset) log
retain_log durable now offset log = log

unfoldable pub append : LogStore → (now : ℤ) → String → LogEntry → RetentionPolicy → LogStore
unfolding retain_log
append store now topic entry retention =
    insert topic (retain_log retention now entry.offset (log_of (lookup topic store) ++ entry ∷ []))
      store

abbrev pub between : (from to : ℤ) → LogEntry → Bool
between from to e = leb_ℤ from e.offset && leb_ℤ e.offset to

unfoldable pub range : LogStore → String → (from to : ℤ) → List LogEntry
range store topic from to = retain (between from to) (log_of (lookup topic store))

unfoldable pub latest_entry : LogStore → String → Option LogEntry
latest_entry store topic = last? (log_of (lookup topic store))

unfoldable pub remove_log : LogStore → String → LogStore
remove_log store topic = remove topic store
