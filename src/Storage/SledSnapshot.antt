-- ===== src/Storage/SledSnapshot.antt =====
-- rifts-storage/src/snapshot.rs, `SledSnapshotStore`: the snapshots of each topic in a tree. What serde
-- derives for a snapshot, the bytes of a topic and those of the id of a snapshot are parameters.
pub mod Prefixes
pub mod Agrees
pub mod Refines
use rifts.Prelude.{
  ℕ, Bool, not, ◌==◌, nat_eq, list_eq, String, Option, none, some, List, [], ◌∷◌, if◌then◌else◌,
}
use rifts.Prelude.Int.{ℤ, ltb_ℤ}
use rifts.Prelude.Map.{Map, keys}
use rifts.Prelude.Reap.{keys_where}
use rifts.Errors.{Result, ok, err, Message}
use rifts.Message.{Serde}
use rifts.Topic.Entry.{snapshot}
use rifts.Topic.Store.{TopicStore}
use rifts.Storage.Snapshot.{StoredSnapshot, stored_of, unless_expired}
use rifts.Storage.Keys.{topic_prefix, snapshot_key}
use rifts.Storage.Tree.{Tree, delete_keys}

pub record Coding : Type 0 where
  pub as_bytes : String → List ℕ
  pub id_bytes : Message → List ℕ
  pub serde : Serde StoredSnapshot

abbrev pub other_than : (key : List ℕ) → List ℕ → List ℕ → Bool
other_than key k v = not (k == key)

abbrev pub newer : Option StoredSnapshot → Option StoredSnapshot → Option StoredSnapshot
newer none latest = latest
newer (some s) none = some s
newer (some s) (some prev) = if ltb_ℤ prev.created_at s.created_at then some s else some prev

abbrev pub better :
    (now : ℤ) → Result StoredSnapshot → Option StoredSnapshot → Option StoredSnapshot
better now (err _) latest = latest
better now (ok s) latest = newer (unless_expired now s) latest

module _ {E : Type 0} (t : Tree E) (c : Coding) where
  abbrev pub prefix_of : (topic : String) → List ℕ
  prefix_of topic = topic_prefix (c.as_bytes topic)

  abbrev pub key_of : (topic : String) → StoredSnapshot → List ℕ
  key_of topic stored = snapshot_key (c.as_bytes topic) (c.id_bytes stored.snapshot_id)

  -- The write of a snapshot, and the loop that deletes the others of its topic.
  abbrev pub write_snapshot :
      E → (topic : String) → StoredSnapshot → Result (List ℕ) → E × Option StoredSnapshot
  write_snapshot e topic stored (err _) = (e, none)
  write_snapshot e topic stored (ok value) =
      let key = key_of topic stored in
      let written = t.insert e key value in
      (
        delete_keys t (keys_where (other_than key) (t.scan_prefix written (prefix_of topic)))
            written,
        some stored,
      )

  unfoldable pub capture :
      E → (now : ℤ) → (topic : String) → TopicStore → (ttl : Option ℕ) → E × Option StoredSnapshot
  unfolding rifts.Topic.Store.get delete_keys topic_prefix snapshot_key
  capture e now topic store ttl = elim (rifts.Topic.Store.get store topic) [
    | none ↦ (e, none)
    | some entry ↦ elim (snapshot entry) [
      | none ↦ (e, none)
      | some snap ↦
          let stored = stored_of now topic ttl snap in
          write_snapshot e topic stored (c.serde.to_vec stored)
    ]
  ]

  -- The loop over a scan.
  unfoldable pub newest :
      (now : ℤ) → Map (List ℕ) (List ℕ) → Option StoredSnapshot → Option StoredSnapshot
  newest now [] latest = latest
  newest now ((k, v) ∷ rest) latest = newest now rest (better now (c.serde.from_slice v) latest)

  unfoldable pub get_snapshot : E → (now : ℤ) → (topic : String) → Option StoredSnapshot
  unfolding newest topic_prefix
  get_snapshot e now topic = newest now (t.scan_prefix e (prefix_of topic)) none

  unfoldable pub remove_snapshot : E → (topic : String) → E
  unfolding delete_keys topic_prefix
  remove_snapshot e topic = delete_keys t (keys (t.scan_prefix e (prefix_of topic))) e
