-- ===== src/Storage/Snapshot.antt =====
-- rifts-storage/src/snapshot.rs, `MemorySnapshotStore`: the last snapshot captured of each topic.
use rifts.Prelude.{ℕ, String, Option, none, some, List, [], ◌∷◌, if◌then◌else◌, string_eq}
use rifts.Prelude.Int.{ℤ, as_i64, i64_add, ltb_ℤ}
use rifts.Prelude.Map.{Map, lookup, insert, remove}
use rifts.Errors.{Message, text, int}
use rifts.Topic.Policy.{as_millis}
use rifts.Topic.Entry.{LogEntry, snapshot}
use rifts.Topic.Store.{TopicStore, get}

pub record StoredSnapshot : Type 0 where
  pub snapshot_id : Message
  pub topic : String
  pub base_offset : ℤ
  pub payload : List ℕ
  pub created_at : ℤ
  pub expires_at : Option ℤ

abbrev pub SnapshotStore : Type 0
SnapshotStore = Map String StoredSnapshot

abbrev pub expiry : (now : ℤ) → (ttl : Option ℕ) → Option ℤ
expiry now none = none
expiry now (some t) = some (i64_add now (as_i64 (as_millis t)))

abbrev pub stored_of : (now : ℤ) → String → (ttl : Option ℕ) → LogEntry → StoredSnapshot
stored_of now topic ttl snap = record {
  snapshot_id = text "snap-" ∷ int snap.offset ∷ [];
  topic = topic;
  base_offset = snap.offset;
  payload = snap.payload;
  created_at = now;
  expires_at = expiry now ttl;
}

unfoldable pub capture :
    SnapshotStore
    → (now : ℤ) → String
    → TopicStore
    → (ttl : Option ℕ) → SnapshotStore × Option StoredSnapshot
unfolding get
capture snaps now topic store ttl = elim (get store topic) [
  | none ↦ (snaps, none)
  | some entry ↦ elim (snapshot entry) [
    | none ↦ (snaps, none)
    | some snap ↦
        let stored = stored_of now topic ttl snap in (insert topic stored snaps, some stored)
  ]
]

abbrev pub unless_expired : (now : ℤ) → StoredSnapshot → Option StoredSnapshot
unless_expired now snap = elim snap.expires_at [
  | none ↦ some snap
  | some expires ↦ if ltb_ℤ expires now then none else some snap
]

unfoldable pub get_snapshot : SnapshotStore → (now : ℤ) → String → Option StoredSnapshot
get_snapshot snaps now topic = elim (lookup topic snaps) [
  | none ↦ none
  | some snap ↦ unless_expired now snap
]

unfoldable pub remove_snapshot : SnapshotStore → String → SnapshotStore
remove_snapshot snaps topic = remove topic snaps
