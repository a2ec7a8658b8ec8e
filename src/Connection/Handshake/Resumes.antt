-- ===== src/Connection/Handshake/Resumes.antt =====
-- Which sessions a client may resume, and what that does to them.
use rifts.Prelude.{
  ◌≡◌, refl, ◌+◌, ◌%◌, ◌^◌, String, Bool, true, false, ◌&&◌, not, some, [], ◌==◌, nat_eq, string_eq,
  if◌then◌else◌, arith,
}
use rifts.Prelude.Int.{ℤ, as_u64}
use rifts.Prelude.Map.{keys}
use rifts.Errors.{ok, err, in_session, SessionReject}
use rifts.Metrics.{Metrics}
use rifts.Protocol.Hello.{Hello}
use rifts.Session.Lifecycle.{
  SessionState, open_state, authenticated, resuming, ready, active, draining, closed, Session,
  set_state, bump_epoch, touch, is_alive,
}
use rifts.Session.Store.{SessionStore, get}
use rifts.Session.Resume.{evaluate, decide}
use rifts.Broker.Memory.{Broker}
use rifts.Connection.HelloPayload.{or_else}
use rifts.Connection.Handshake.{share, heads_of, is_connected, open_session}

abbrev pub is_free : SessionState → Bool
is_free ready = false
is_free active = false
is_free _ = true

is_free_lem : (t : SessionState) → is_connected t ≡ not (is_free t)
is_free_lem open_state = refl
is_free_lem SessionState.hello = refl
is_free_lem authenticated = refl
is_free_lem resuming = refl
is_free_lem ready = refl
is_free_lem active = refl
is_free_lem draining = refl
is_free_lem closed = refl

-- The session may be resumed: the client names its epoch and it has no connection.
abbrev pub may_resume : Hello → Session → Bool
may_resume hello s = or_else 0 hello.epoch == s.epoch && is_free s.state

-- The session after a resume.
abbrev pub next_life : (now : ℤ) → Session → Session
next_life now s = record s {
  epoch = (s.epoch + 1) % 2 ^ 32;
  state = resuming;
  last_active = as_u64 now;
}

-- A client that names a session of the store gets that session exactly if it names its epoch and the
-- session is neither Ready nor Active: then the epoch is one more, on 32 bits, the state Resuming, and the
-- decision that of the broker's heads; else it is told of a conflict and the store stays. The
-- client's own identity is not asked for, and the session keeps the one it has.
pub open_session-resume :
    (b : Broker) (store : SessionStore) (m : Metrics) (now : ℤ) (fresh client_id id : String)
    (hello : Hello) (s : Session)
    → hello.session_id ≡ some id
    → get store id ≡ some s
    → open_session b store m now fresh client_id hello ≡ (
        if may_resume hello s
        then (
          share store (next_life now s),
          m,
          ok (
            next_life now s,
            some (decide hello.last_offsets (heads_of b (keys hello.last_offsets) [])),
          ),
        )
        else (store, m, err (in_session (SessionReject.conflict (or_else 0 hello.epoch) s.epoch))))
unfolding open_session evaluate is_alive set_state bump_epoch touch
open_session-resume b store m now fresh client_id id hello s named found =
    ground (arith, named, found, is_free_lem s.state)
