-- ===== src/Client/Reconnect/Attempts.antt =====
-- rifts-client/src/rift_client.rs: what a series of attempts does, and how long it waits.
use rifts.Prelude.{
  ℕ, zero, suc, ◌+◌, ◌-◌, ◌*◌, ◌%◌, ◌^◌, ◌/◌, ◌<◌, ◌≤◌, ◌≡◌, ◌≢◌, refl, ap, ◌∙◌, String, Bool, true,
  false, not, ◌&&◌, none, some, List, [], ◌∷◌, ◌++◌, if◌then◌else◌, arith,
}
use mathlib.Core.List.{append_assoc}
use rifts.Prelude.Int.{ℤ}
use rifts.Json.{Json}
use rifts.Client.Handshake.{Welcome, Ready}
use rifts.Client.Events.{ClientEvent, reconnecting, disconnected}
use rifts.Client.Session.{
  RiftClientConfig, RiftClient, ConnectionInner, Answer, unreachable, refused, shaken, failed,
  already_connected, tell, open_connection, connect,
}
use rifts.Client.Reconnect.{
  Attempt, exponential, jitter, delay, min, max_duration, bump, bumped, given_up, attempts,
  try_reconnect, lost,
}
use rifts.Client.Reconnect.Conflicts.{after_attempts}

-- Five doublings at most.
doubled : (base n : ℕ) → base * 2 ^ min n 5 ≤ base * 32
doubled base zero = omega arith
doubled base (suc zero) = omega arith
doubled base (suc (suc zero)) = omega arith
doubled base (suc (suc (suc zero))) = omega arith
doubled base (suc (suc (suc (suc zero)))) = omega arith
doubled base (suc (suc (suc (suc (suc n))))) = ground arith

jitter-lt :
    (base random : ℕ) → 1_000_000 ≤ base → base < 2 ^ 64 * 1_000_000 → jitter base random < base
unfolding jitter
jitter-lt base random some_ms h =
    let millis = base / 1_000_000 in
    let below : random % 2 ^ 64 % millis < millis = omega arith in ground (arith, below)

within : (d : ℕ) → d ≤ max_duration → min d max_duration ≡ d
within d h = ground arith

-- The wait before an attempt is the base delay times 2 ^ (attempt - 1), or 32 from the sixth attempt on,
-- and less than one base delay more: for a base delay of a millisecond at least and at most a 33rd of the
-- largest `Duration` and below 2 ^ 64 milliseconds.
pub delay_bounds :
    (base attempt random : ℕ)
    → 1_000_000 ≤ base
    → base < 2 ^ 64 * 1_000_000
    → base * 33 ≤ max_duration
    → (base * 2 ^ min (attempt - 1) 5 ≤ delay base attempt random)
      × (delay base attempt random < base * 2 ^ min (attempt - 1) 5 + base)
      × (delay base attempt random < base * 33)
unfolding delay exponential
delay_bounds base attempt random some_ms below fits =
    let few = doubled base (attempt - 1) in
    let extra = jitter-lt base random some_ms below in
    let doubles = within (base * 2 ^ min (attempt - 1) 5) (omega (arith, few, fits)) in
    (omega (arith, doubles), omega (arith, doubles, extra), omega (arith, doubles, extra, few))

after_attempts-bump :
    (n : ℕ) (config : RiftClientConfig)
    → after_attempts n (bump config) ≡ bump (after_attempts n config)
after_attempts-bump zero config = refl
after_attempts-bump (suc n) config = ap bump (after_attempts-bump n config)

-- An attempt that neither finds the client closed nor gets through.
pub record Fails (a : Attempt) : Type 0 where
  pub open_before : a.closed_before ≡ false
  pub open_after : a.closed_after ≡ false
  pub unanswered : (w : Welcome) (r : Ready) → a.answer ≢ shaken w r

-- The announcements of so many attempts from attempt `n` on.
pub announced : {V : Type 0} → (left n : ℕ) → List (ClientEvent V)
announced zero n = []
announced (suc left) n = reconnecting n ∷ announced left (suc n)

module _ {V : Type 0} (j : Json V) (sdk_version : String) where
  record AllFailed (left n max_attempts : ℕ) (c d : RiftClient V) : Type 0 where
    pub bumped_often : d.config ≡ after_attempts left c.config
    pub slot : d.inner ≡ c.inner
    pub events : d.told ≡ c.told ++ (announced left n ++ given_up max_attempts ∷ [])

  -- What an attempt that gets no answer leaves of the client besides the frames it sent.
  record Missed (a : Attempt) (c : RiftClient V) : Type 0 where
    pub nothing_new : (open_connection j sdk_version a.now a.answer c).1 ≡ none
    pub same_config : (open_connection j sdk_version a.now a.answer c).0.config ≡ c.config
    pub same_slot : (open_connection j sdk_version a.now a.answer c).0.inner ≡ c.inner
    pub same_events : (open_connection j sdk_version a.now a.answer c).0.told ≡ c.told

  missed : (a : Attempt) (c : RiftClient V) → Fails a → Missed a c
  unfolding open_connection
  missed a c h = by_answer a.answer refl
    where
      by_answer : (x : Answer) → a.answer ≡ x → Missed a c
      by_answer (unreachable e) eq =
          rw eq (record {
            nothing_new = refl;
            same_config = refl;
            same_slot = refl;
            same_events = refl;
          })
      by_answer (refused e) eq =
          rw eq (record {
            nothing_new = refl;
            same_config = refl;
            same_slot = refl;
            same_events = refl;
          })
      by_answer (shaken w r) eq = absurd (h.unanswered w r eq)

  attempts_failed :
      (max_attempts left n : ℕ) (env : ℕ → Attempt) (c : RiftClient V)
      → ((k : ℕ) → Fails (env k))
      → AllFailed left n max_attempts c (attempts j sdk_version max_attempts left n env c)
  unfolding attempts announced
  attempts_failed max_attempts zero n env c fails = record {
    bumped_often = refl;
    slot = refl;
    events = refl;
  }
  attempts_failed max_attempts (suc left) n env c fails =
      let h = fails n in
      let trying = bumped (tell (reconnecting n) c) in
      let one = missed (env n) trying h in
      let d = (open_connection j sdk_version (env n).now (env n).answer trying).0 in
      let story = announced left (suc n) ++ given_up max_attempts ∷ [] in
      let rest = attempts_failed max_attempts left (suc n) env d fails in
      rw (h.open_before, h.open_after, one.nothing_new)
        (record {
          bumped_often =
              rest.bumped_often
              ∙ ap (after_attempts left) one.same_config
              ∙ after_attempts-bump left c.config;
          slot = rest.slot ∙ one.same_slot;
          events =
              rest.events
              ∙ ap (λ told. told ++ story) one.same_events
              ∙ append_assoc c.told (reconnecting n ∷ []) story;
        })

  chosen : {A : Type 0} (b : Bool) (x y : A) → b ≡ true → (if b then x else y) ≡ x
  chosen true x y h = refl
  chosen false x y h = ground (arith, h)

  lost_tries :
      (env : ℕ → Attempt) (c : RiftClient V)
      → c.closed ≡ false
      → c.config.auto_reconnect ≡ true
      → lost j sdk_version env c
        ≡ attempts j sdk_version c.config.max_reconnect_attempts c.config.max_reconnect_attempts 1
            env
            (tell (disconnected 1006 "connection lost") c)
  unfolding lost try_reconnect
  lost_tries env c still_open auto =
      chosen (not c.closed && c.config.auto_reconnect) _ _ (ground (arith, still_open, auto))

  connect_held :
      (now : ℤ) (answer : Answer) (d : RiftClient V) (inner : ConnectionInner)
      → d.inner ≡ some inner
      → connect j sdk_version now answer d ≡ (d, failed already_connected)
  unfolding connect
  connect_held now answer d inner held = ground (arith, held)

  -- Where a lost connection is to be repaired and no attempt gets through, the client announces the loss,
  -- each attempt from 1 on up to the maximum and the failure, and bumps its epoch as often; and it keeps
  -- the lost connection in its slot, so that a call of `connect` is refused as already connected,
  -- whatever the network would answer.
  pub lost_failed :
      (env : ℕ → Attempt) (c : RiftClient V) (inner : ConnectionInner) (now : ℤ) (answer : Answer)
      → c.inner ≡ some inner
      → c.closed ≡ false
      → c.config.auto_reconnect ≡ true
      → ((k : ℕ) → Fails (env k))
      → let max_attempts = c.config.max_reconnect_attempts in
        let d = lost j sdk_version env c in
        (d.told
          ≡ c.told
            ++ disconnected 1006 "connection lost"
              ∷ (announced max_attempts 1 ++ given_up max_attempts ∷ []))
        × (d.config ≡ after_attempts max_attempts c.config)
        × (connect j sdk_version now answer d ≡ (d, failed already_connected))
  lost_failed env c inner now answer held still_open auto fails =
      let max_attempts = c.config.max_reconnect_attempts in
      let known = tell (disconnected 1006 "connection lost") c in
      let run = attempts_failed max_attempts max_attempts 1 env known fails in
      let story = announced max_attempts 1 ++ given_up max_attempts ∷ [] in
      rw (lost_tries env c still_open auto) (
        run.events ∙ append_assoc c.told (disconnected 1006 "connection lost" ∷ []) story,
        run.bumped_often,
        connect_held now answer _ inner (run.slot ∙ held),
      )
