-- ===== src/Topic/Store/Laws.antt =====
-- rifts-core/src/topic/store.rs: lookups after the operations of `TopicStore`.
use rifts.Prelude.{
  ◌≡◌, refl, ◌⊎◌, inl, inr, String, Bool, false, Option, none, some, arith, Option-cases, string_eq,
  if◌then◌else◌,
}
use rifts.Prelude.Map.{lookup, lookup-insert, lookup-remove}
use rifts.Errors.{RiftError, Result, ok, err}
use rifts.Topic.Policy.{TopicProfile}
use rifts.Topic.Name.{validate_name}
use rifts.Topic.Entry.{TopicEntry, new}
use rifts.Topic.Store.{TopicStore, or_insert, get_or_create, get, exists, remove_topic, modify}

abbrev beq : String → String → Bool
beq = string_eq.beq

-- What `or_insert` leaves in the store and what it returns.
or_insert_lem :
    (o : Option TopicEntry) (store : TopicStore) (name other : String) (p : TopicProfile)
    → lookup name store ≡ o
    → ((lookup name store ≡ some (or_insert o name p store).1)
        ⊎ ((lookup name store ≡ none) × ((or_insert o name p store).1 ≡ new name p)))
      × (lookup other (or_insert o name p store).0
          ≡ (if beq name other then some (or_insert o name p store).1 else lookup other store))
or_insert_lem (some t) store name other p here =
    (inl here, ground (arith, string_eq.beq_iff name other))
or_insert_lem none store name other p gone =
    (inr (gone, refl), lookup-insert name other (new name p) store)

-- `get_or_create` fails exactly where the name is invalid, with that error. Otherwise it returns the
-- entry that was there, or a new one with the default profile; that entry is then in the store, and
-- every other name is looked up as before.
pub get_or_create_lem :
    (store : TopicStore) (name other : String) (p : TopicProfile)
    → ((e : RiftError) × (validate_name name ≡ err e) × (get_or_create store name p ≡ err e))
      ⊎ ((store' : TopicStore) × (t : TopicEntry) × (get_or_create store name p ≡ ok (store', t))
          × ((get store name ≡ some t) ⊎ ((get store name ≡ none) × (t ≡ new name p)))
          × (get store' other ≡ (if beq name other then some t else get store other)))
unfolding get_or_create get
get_or_create_lem store name other p = go (validate_name name) refl
  where
    go :
        (v : Result (Unit {0}))
        → validate_name name ≡ v
        → ((e : RiftError) × (validate_name name ≡ err e) × (get_or_create store name p ≡ err e))
          ⊎ ((store' : TopicStore) × (t : TopicEntry) × (get_or_create store name p
                ≡ ok (store', t))
              × ((lookup name store ≡ some t) ⊎ ((lookup name store ≡ none) × (t ≡ new name p)))
              × (lookup other store' ≡ (if beq name other then some t else lookup other store)))
    go (err e) h = inl (e, h, rw h)
    go (ok _) h =
        let laws = or_insert_lem (lookup name store) store name other p refl in
        inr (
          (or_insert (lookup name store) name p store).0,
          (or_insert (lookup name store) name p store).1,
          rw h,
          laws.0,
          laws.1,
        )

-- A removed name is absent, its entry is what `get` returned, and other names are as before.
pub remove_topic_lem :
    (store : TopicStore) (name other : String)
    → (exists (remove_topic store name).0 name ≡ false)
      × ((remove_topic store name).1 ≡ get store name)
      × (get (remove_topic store name).0 other ≡ (if beq name other then none else get store other))
unfolding remove_topic get exists
remove_topic_lem store name other = (
  ground (arith, lookup-remove name name store, string_eq.beq_iff name name),
  refl,
  lookup-remove name other store,
)

-- A call on a handle changes the entry under its name, if there is one, and no other.
pub get-modify :
    (store : TopicStore) (name other : String) (f : TopicEntry → TopicEntry)
    → get (modify name f store) other ≡ (
        if beq name other
        then elim (get store name) [ none ↦ none | some t ↦ some (f t) ]
        else get store other)
unfolding modify get
get-modify store name other f = elim (Option-cases (lookup name store)) [
  | inl gone ↦ ground (arith, string_eq.beq_iff name other)
  | inr (t, here) ↦ ground (arith, lookup-insert name other (f t) store)
]
