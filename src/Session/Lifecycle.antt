-- ===== src/Session/Lifecycle.antt =====
-- rifts-session/src/session/session.rs. A `SessionId` or `ClientId` is the text it holds; the mutex
-- and the atomics are plain fields, and `now` stands for the result of `now_ms()`. A new id is a
-- fresh ULID of a library, so `new` takes it as an argument, as the source does.
use rifts.Prelude.{ℕ, ◌+◌, ◌%◌, ◌^◌, String, Bool, true, false, if◌then◌else◌}
use rifts.Prelude.Int.{ℤ, pos, ltb_ℤ, as_u64, as_i64, i64_sub}

pub data SessionState : Type 0 where
  open_state hello authenticated resuming ready active draining closed : SessionState

pub record Session : Type 0 where
  pub id : String
  pub client_id : String
  pub epoch : ℕ
  pub state : SessionState
  pub created_at : ℤ
  pub last_active : ℕ

abbrev pub new : (now : ℤ) → (id client_id : String) → Session
new now id client_id = record {
  id = id;
  client_id = client_id;
  epoch = 1;
  state = open_state;
  created_at = now;
  last_active = as_u64 now;
}

unfoldable pub touch : (now : ℤ) → Session → Session
touch now s = record s { last_active = as_u64 now }

unfoldable pub set_state : (now : ℤ) → Session → SessionState → Session
unfolding touch
set_state now s state = touch now (record s { state = state })

-- `fetch_add` wraps; the sum returned is one more than the epoch before.
unfoldable pub bump_epoch : Session → Session × ℕ
bump_epoch s = let next = (s.epoch + 1) % 2 ^ 32 in (record s { epoch = next }, next)

unfoldable pub is_alive : Session → Bool
is_alive s = elim s.state [ closed ↦ false | _ ↦ true ]

-- Milliseconds since `last_active`, and 0 when the clock went back.
unfoldable pub idle : (now : ℤ) → Session → ℕ
idle now s =
    let passed = i64_sub now (as_i64 s.last_active) in
    if ltb_ℤ passed (pos 0) then 0 else as_u64 passed
