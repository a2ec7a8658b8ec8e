-- ===== src/Topic/Store.antt =====
-- rifts-core/src/topic/store.rs, `TopicStore`: topic entries by name. The entries are shared
-- (`Arc`); the store holds the one current state of each, and `modify` is a method call through a
-- handle to an entry that is in the store.
pub mod Laws
use rifts.Prelude.{ℕ, String, Bool, Option, none, some, List, map, string_eq}
use rifts.Prelude.Int.{ℤ}
use rifts.Prelude.Map.{Map, lookup, insert, remove, contains_key, keys}
use rifts.Errors.{Result, ok, err, ◌>>=◌, ◌>>◌}
use rifts.Topic.Policy.{TopicProfile}
use rifts.Topic.Name.{validate_name}
use rifts.Topic.Entry.{TopicEntry, new, head_offset}

abbrev pub TopicStore : Type 0
TopicStore = Map String TopicEntry

-- `entry(..).or_insert_with(..)`, by what the entry is.
abbrev pub or_insert :
    Option TopicEntry → String → TopicProfile → TopicStore → TopicStore × TopicEntry
or_insert (some t) name profile store = (store, t)
or_insert none name profile store = (insert name (new name profile) store, new name profile)

unfoldable pub get_or_create : TopicStore → String → TopicProfile → Result (TopicStore × TopicEntry)
get_or_create store name default_profile = do
  validate_name name
  ok (or_insert (lookup name store) name default_profile store)

unfoldable pub get : TopicStore → String → Option TopicEntry
get store name = lookup name store

unfoldable pub exists : TopicStore → String → Bool
exists store name = contains_key name store

unfoldable pub remove_topic : TopicStore → String → TopicStore × Option TopicEntry
remove_topic store name = (remove name store, lookup name store)

unfoldable pub names : TopicStore → List String
names store = keys store

unfoldable pub stats : TopicStore → Map String (ℕ × ℕ × ℤ)
stats store =
    map (λ (name, t). (name, (t.subscriber_count, t.publisher_count, head_offset t))) store

abbrev pub replaced :
    Option TopicEntry → (TopicEntry → TopicEntry) → String → TopicStore → TopicStore
replaced none f name store = store
replaced (some t) f name store = insert name (f t) store

unfoldable pub modify : String → (TopicEntry → TopicEntry) → TopicStore → TopicStore
modify name f store = replaced (lookup name store) f name store
