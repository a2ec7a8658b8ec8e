-- ===== src/Client/Reconnect.antt =====
-- rifts-client/src/rift_client.rs: `try_reconnect`, and the task of `connect` that calls it when the
-- connection is lost.
pub mod Attempts
pub mod Conflicts
use rifts.Prelude.{
  ℕ, zero, suc, ◌+◌, ◌-◌, ◌*◌, ◌%◌, ◌^◌, ◌/◌, String, Bool, true, false, Option, none, some, List,
  [], ◌∷◌, ◌++◌, ltb, if◌then◌else◌, not, ◌&&◌,
}
use rifts.Prelude.Int.{ℤ}
use rifts.Errors.{text, nat}
use rifts.Json.{Json}
use rifts.Client.Events.{ClientEvent, reconnecting, connected, disconnected, client_error}
use rifts.Client.Session.{
  RiftClientConfig, RiftClient, ConnectionInner, Answer, Outcome, done, failed, tell,
  open_connection,
}

-- What one attempt meets: `closed` as it is read before and after the wait, the random number, the clock,
-- and the network.
pub record Attempt : Type 0 where
  pub closed_before : Bool
  pub closed_after : Bool
  pub random : ℕ
  pub now : ℤ
  pub answer : Answer

-- `Duration::MAX`, in nanoseconds.
abbrev pub max_duration : ℕ
max_duration = 2 ^ 64 * 1_000_000_000 - 1

abbrev pub min : ℕ → ℕ → ℕ
min a b = if ltb a b then a else b

abbrev pub max : ℕ → ℕ → ℕ
max a b = if ltb a b then b else a

-- `base_delay.saturating_mul(1u32 << (attempt - 1).min(5))`.
unfoldable pub exponential : (base attempt : ℕ) → ℕ
exponential base attempt = min (base * 2 ^ min (attempt - 1) 5) max_duration

-- Milliseconds below `base_delay`, or below 1.
unfoldable pub jitter : (base random : ℕ) → ℕ
jitter base random = random % 2 ^ 64 % (max (base / 1_000_000) 1 % 2 ^ 64) * 1_000_000

-- `exp + jitter`, which panics where it passes the largest `Duration`.
unfoldable pub delay : (base attempt random : ℕ) → ℕ
unfolding exponential jitter
delay base attempt random = exponential base attempt + jitter base random

-- `cfg.epoch += 1` on a `u32`.
abbrev pub bump : RiftClientConfig → RiftClientConfig
bump config = record config { epoch = (config.epoch + 1) % 2 ^ 32 }

abbrev pub bumped : {V : Type 0} → RiftClient V → RiftClient V
bumped c = record c { config = bump c.config }

abbrev pub given_up : {V : Type 0} → (max_attempts : ℕ) → ClientEvent V
given_up max_attempts =
    client_error (text "max reconnect attempts (" ∷ nat max_attempts ∷ text ") exceeded" ∷ [])

module _ {V : Type 0} (j : Json V) (sdk_version : String) (max_attempts : ℕ) where
  -- The loop from attempt `n` on, with `left` of them to come.
  unfoldable pub attempts : (left n : ℕ) → (ℕ → Attempt) → RiftClient V → RiftClient V
  unfolding open_connection
  attempts zero n env c = tell (given_up max_attempts) c
  attempts (suc left) n env c =
      let a = env n in
      let trying = tell (reconnecting n) c in
      let (d, inner, outcome) = open_connection j sdk_version a.now a.answer (bumped trying) in
      let rest = attempts left (suc n) env d in
      if a.closed_before then c else if a.closed_after then trying else elim inner [
        | some new ↦ tell (connected new.session_id new.epoch) (record d { inner = some new })
        | none ↦ rest
      ]

  unfoldable pub try_reconnect : (ℕ → Attempt) → RiftClient V → RiftClient V
  unfolding attempts
  try_reconnect env c = attempts max_attempts 1 env c

module _ {V : Type 0} (j : Json V) (sdk_version : String) where
  -- The task that `connect` starts, once the connection is lost. The slot keeps the lost connection.
  unfoldable pub lost : (ℕ → Attempt) → RiftClient V → RiftClient V
  unfolding try_reconnect
  lost env c =
      let known = tell (disconnected 1006 "connection lost") c in
      let again = try_reconnect j sdk_version c.config.max_reconnect_attempts env known in
      if not c.closed && c.config.auto_reconnect then again else known
