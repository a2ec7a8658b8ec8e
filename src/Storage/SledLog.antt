-- ===== src/Storage/SledLog.antt =====
-- rifts-storage/src/log.rs, `SledLogStore`: the entries of each topic in a tree. A topic is the list of its
-- bytes; what serde derives for an entry is a parameter.
pub mod Retained
use rifts.Prelude.{
  ℕ, ◌-◌, Bool, true, false, not, ◌==◌, nat_eq, list_eq, Option, none, some, List, [], ◌∷◌, ◌++◌,
  length, take, retain, last?, ltb, if◌then◌else◌,
}
use rifts.Prelude.Int.{ℤ, as_i64, i64_sub, ltb_ℤ}
use rifts.Prelude.Map.{Map, keys}
use rifts.Prelude.Reap.{keys_where}
use rifts.Errors.{Result, ok, err}
use rifts.Message.{Serde}
use rifts.Topic.Policy.{RetentionPolicy, nothing, ttl, count, size, durable, latest, as_millis}
use rifts.Topic.Entry.{LogEntry}
use rifts.Connection.HelloPayload.{or_else}
use rifts.Storage.Log.{between}
use rifts.Storage.Keys.{topic_prefix, log_key}
use rifts.Storage.Tree.{Tree, delete_keys}

-- In front of the first entry that is not below: `sort_by_key` is stable.
unfoldable pub insert_by_offset : LogEntry → List LogEntry → List LogEntry
insert_by_offset x [] = x ∷ []
insert_by_offset x (y ∷ ys) =
    let rest = insert_by_offset x ys in if ltb_ℤ y.offset x.offset then y ∷ rest else x ∷ (y ∷ ys)

unfoldable pub sort_by_offset : List LogEntry → List LogEntry
unfolding insert_by_offset
sort_by_offset [] = []
sort_by_offset (x ∷ xs) = insert_by_offset x (sort_by_offset xs)

module _ (serde : Serde LogEntry) where
  abbrev pub is_old : (now ttl_ms : ℤ) → Result LogEntry → Bool
  is_old now ttl_ms (ok e) = ltb_ℤ ttl_ms (i64_sub now (or_else e.timestamp e.appended_at))
  is_old now ttl_ms (err _) = false

  -- The keys that a policy deletes once `key` was written, of those that the prefix of the topic finds.
  unfoldable pub dropped :
      RetentionPolicy → (now : ℤ) → (key : List ℕ) → Map (List ℕ) (List ℕ) → List (List ℕ)
  dropped (count n) now key all =
      if ltb n (length all) then take (length all - n) (keys all) else []
  dropped (ttl d) now key all =
      keys_where (λ k v. is_old now (as_i64 (as_millis d)) (serde.from_slice v)) all
  dropped latest now key all = keys_where (λ k v. not (k == key)) all
  dropped nothing now key all = keys all
  dropped (size n) now key all = []
  dropped durable now key all = []

  abbrev pub add_entry : Result LogEntry → List LogEntry → List LogEntry
  add_entry (ok e) entries = e ∷ entries
  add_entry (err _) entries = entries

  -- The entries that parse, in the order of the scan.
  unfoldable pub read_entries : Map (List ℕ) (List ℕ) → List LogEntry
  read_entries [] = []
  read_entries ((k, v) ∷ rest) = add_entry (serde.from_slice v) (read_entries rest)

module _ {E : Type 0} (t : Tree E) (serde : Serde LogEntry) where
  abbrev pub write_entry :
      E → (now : ℤ) → (topic key : List ℕ) → RetentionPolicy → Result (List ℕ) → E
  write_entry e now topic key retention (err _) = e
  write_entry e now topic key retention (ok value) =
      let written = t.insert e key value in
      delete_keys t (dropped serde retention now key (t.scan_prefix written (topic_prefix topic)))
        written

  unfoldable pub append : E → (now : ℤ) → (topic : List ℕ) → LogEntry → RetentionPolicy → E
  unfolding log_key dropped delete_keys topic_prefix
  append e now topic entry retention =
      write_entry e now topic (log_key topic entry.offset) retention (serde.to_vec entry)

  unfoldable pub range : E → (topic : List ℕ) → (from to : ℤ) → List LogEntry
  unfolding read_entries topic_prefix
  range e topic from to =
      retain (between from to) (read_entries serde (t.scan_prefix e (topic_prefix topic)))

  unfoldable pub latest_entry : E → (topic : List ℕ) → Option LogEntry
  unfolding read_entries topic_prefix sort_by_offset
  latest_entry e topic =
      last? (sort_by_offset (read_entries serde (t.scan_prefix e (topic_prefix topic))))

  unfoldable pub remove_log : E → (topic : List ℕ) → E
  unfolding delete_keys topic_prefix
  remove_log e topic = delete_keys t (keys (t.scan_prefix e (topic_prefix topic))) e
