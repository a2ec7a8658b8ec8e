-- ===== src/Session/Store/Laws.antt =====
-- rifts-session/src/session/store.rs: lookups after the operations of the session store.
use rifts.Prelude.{
  ℕ, ◌≡◌, refl, String, Bool, Option, none, some, List, [], ◌∷◌, if◌then◌else◌, string_eq, arith,
  is_some, ap, ◌∙◌, ◌&&◌,
}
use rifts.Prelude.Int.{ℤ}
use rifts.Prelude.Map.{
  lookup, remove, lookup-insert, lookup-remove, IsMap, insert-IsMap, remove-IsMap,
}
use rifts.Prelude.Reap.{keys_where, remove_all, lookup-remove_all, member-keys_where, lookup-reap}
use rifts.Session.Lifecycle.{Session}
use rifts.Session.Offsets.{snapshot, forget, or_default}
use rifts.Session.Store.{
  SessionStore, get, insert_session, remove_session, is_expired, remove_sessions, expire_sessions,
}

-- Each session stands once, under its own id.
pub record IsStore (store : SessionStore) : Type 0 where
  pub unique : IsMap store.inner
  pub filed : (id : String) (s : Session) → get store id ≡ some s → s.id ≡ id

remove_sessions-remove_all :
    (ids : List String) (store : SessionStore)
    → ((remove_sessions ids store).inner ≡ remove_all ids store.inner)
      × ((remove_sessions ids store).offsets ≡ remove_all ids store.offsets)
unfolding remove_sessions remove_session forget remove_all
remove_sessions-remove_all [] store = (refl, refl)
remove_sessions-remove_all (id ∷ ids) store =
    remove_sessions-remove_all ids (remove_session store id).0

-- After an expiry a session is found exactly if it was there and is neither closed, nor draining,
-- nor idle for longer than the timeout; the offsets of those sessions are as before, and those of
-- the sessions removed are gone.
pub expire_sessions_exact :
    (now : ℤ) (timeout : ℕ) (store : SessionStore) (id : String)
    → IsStore store
    → let left = (expire_sessions now timeout store).0 in
      (get left id ≡ elim (get store id) [
        | none ↦ none
        | some s ↦ if is_expired now timeout s then none else some s
      ])
      × (snapshot left.offsets id ≡ elim (get store id) [
        | none ↦ snapshot store.offsets id
        | some s ↦ if is_expired now timeout s then [] else snapshot store.offsets id
      ])
unfolding expire_sessions get snapshot
expire_sessions_exact now timeout store id h =
    let test : String → Session → Bool = λ _ s. is_expired now timeout s in
    let ids = keys_where test store.inner in
    let (kept, offsets) = remove_sessions-remove_all ids store in
    (
      ap (lookup id) kept ∙ ground (arith, lookup-reap test id store.inner h.unique),
      ap (λ o. or_default (lookup id o)) offsets
          ∙ ground (
            arith,
            lookup-remove_all ids id store.offsets,
            member-keys_where test id store.inner h.unique,
          ),
    )

-- Inserting files the session under its id, returns what stood there and forgets the offsets of that
-- one only; every other session and its offsets are as before, and the store stays well-formed.
pub insert_session_lem :
    (store : SessionStore) (s : Session) (id : String)
    → IsStore store
    → let (left, old) = insert_session store s in
      (get left id ≡ (if string_eq.beq s.id id then some s else get store id))
      × (old ≡ get store s.id)
      × (snapshot left.offsets id
          ≡ (if string_eq.beq s.id id && is_some old then [] else snapshot store.offsets id))
      × IsStore left
unfolding insert_session get snapshot forget
insert_session_lem store s id h = (
  lookup-insert s.id id s store.inner,
  refl,
  offsets (lookup s.id store.inner) refl,
  record {
    unique = insert-IsMap s.id s store.inner h.unique;
    filed = λ j t e.
        ground
          (arith, lookup-insert s.id j s store.inner, string_eq.beq_iff s.id j, h.filed j t, e);
  },
)
  where
    offsets :
        (old : Option Session)
        → lookup s.id store.inner ≡ old
        → or_default (
            lookup id
              (elim old [ none ↦ store.offsets | some prev ↦ remove prev.id store.offsets ]))
          ≡ (if string_eq.beq s.id id && is_some old
              then []
              else or_default (lookup id store.offsets))
    offsets none e = ground arith
    offsets (some prev) e =
        ground (arith, h.filed s.id prev e, lookup-remove prev.id id store.offsets)

-- Removing a session tells whether it was there, and takes it and its offsets away and nothing else;
-- the store stays well-formed.
pub remove_session_lem :
    (store : SessionStore) (gone id : String)
    → IsStore store
    → let (left, present) = remove_session store gone in
      (present ≡ is_some (get store gone))
      × (get left id ≡ (if string_eq.beq gone id then none else get store id))
      × (snapshot left.offsets id
          ≡ (if string_eq.beq gone id then [] else snapshot store.offsets id))
      × IsStore left
unfolding remove_session get snapshot forget
remove_session_lem store gone id h = (
  refl,
  lookup-remove gone id store.inner,
  ground (arith, lookup-remove gone id store.offsets),
  record {
    unique = remove-IsMap gone store.inner h.unique;
    filed = λ j t e. ground (arith, lookup-remove gone j store.inner, h.filed j t, e);
  },
)
