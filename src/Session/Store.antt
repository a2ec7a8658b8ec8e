-- ===== src/Session/Store.antt =====
-- rifts-session/src/session/store.rs, `SessionStore`: the sessions by id, and the shared offset
-- tracker. `idle_timeout` is in nanoseconds, as a `Duration` is.
pub mod Laws
use rifts.Prelude.{
  ℕ, ◌*◌, String, Bool, true, false, Option, none, some, List, [], ◌∷◌, length, ltb, is_some,
  string_eq,
}
use rifts.Prelude.Int.{ℤ}
use rifts.Prelude.Map.{Map, lookup, insert, remove}
use rifts.Prelude.Reap.{keys_where}
use rifts.Session.Lifecycle.{Session, SessionState, idle}
use rifts.Session.Offsets.{OffsetTracker, forget}

pub record SessionStore : Type 0 where
  pub inner : Map String Session
  pub offsets : OffsetTracker

abbrev pub empty_store : SessionStore
empty_store = record { inner = []; offsets = [] }

unfoldable pub get : SessionStore → String → Option Session
get store session_id = lookup session_id store.inner

unfoldable pub insert_session : SessionStore → Session → SessionStore × Option Session
unfolding forget
insert_session store session =
    let old = lookup session.id store.inner in
    (
      record {
        inner = insert session.id session store.inner;
        offsets = elim old [ none ↦ store.offsets | some prev ↦ forget store.offsets prev.id ];
      },
      old,
    )

unfoldable pub remove_session : SessionStore → String → SessionStore × Bool
unfolding forget
remove_session store session_id = (
  record { inner = remove session_id store.inner; offsets = forget store.offsets session_id },
  is_some (lookup session_id store.inner),
)

unfoldable pub is_expired : (now : ℤ) → (idle_timeout : ℕ) → Session → Bool
unfolding idle
is_expired now idle_timeout session = elim session.state [
  | SessionState.closed ↦ true
  | SessionState.draining ↦ true
  | _ ↦ ltb idle_timeout (idle now session * 1_000_000)
]

unfoldable pub remove_sessions : List String → SessionStore → SessionStore
unfolding remove_session
remove_sessions [] store = store
remove_sessions (id ∷ ids) store = remove_sessions ids (remove_session store id).0

unfoldable pub expire_sessions : (now : ℤ) → (idle_timeout : ℕ) → SessionStore → SessionStore × ℕ
unfolding is_expired remove_sessions
expire_sessions now idle_timeout store =
    let expired = keys_where (λ id session. is_expired now idle_timeout session) store.inner in
    (remove_sessions expired store, length expired)
