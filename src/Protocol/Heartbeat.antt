-- ===== src/Protocol/Heartbeat.antt =====
-- rifts-core/src/protocol/heartbeat.rs: the heartbeat policy. A `Duration` is its nanoseconds.
use rifts.Prelude.{
  ℕ, String, ◌*◌, ◌≡◌, refl, ◌≤◌, ◌<◌, ◌↔◌, arith, ◌==◌, nat_eq, ltb, if◌then◌else◌,
}

pub record HeartbeatPolicy : Type 0 where
  pub ping_interval : ℕ
  pub pong_timeout : ℕ
  pub max_missed_pongs : ℕ
  pub idle_timeout : ℕ
  pub jitter : ℕ

abbrev millis : ℕ → ℕ
millis n = n * 1_000_000

abbrev pub default_policy : HeartbeatPolicy
default_policy = record {
  ping_interval = millis 25_000;
  pong_timeout = millis 10_000;
  max_missed_pongs = 2;
  idle_timeout = millis 300_000;
  jitter = millis 2_500;
}

-- `Result<(), &'static str>`.
pub data Verdict : Type 0 where
  valid : Verdict
  wrong : String → Verdict

unfoldable pub validate : HeartbeatPolicy → Verdict
validate p =
    if p.ping_interval == 0
    then wrong "ping_interval must be > 0"
    else if p.pong_timeout == 0
    then wrong "pong_timeout must be > 0"
    else if p.max_missed_pongs == 0
    then wrong "max_missed_pongs must be > 0"
    else if p.idle_timeout == 0
    then wrong "idle_timeout must be > 0"
    else if ltb p.ping_interval p.jitter
    then wrong "jitter must be <= ping_interval"
    else valid

pub record IsUsable (p : HeartbeatPolicy) : Type 0 where
  pub pings : 0 < p.ping_interval
  pub waits : 0 < p.pong_timeout
  pub tolerates : 0 < p.max_missed_pongs
  pub idles : 0 < p.idle_timeout
  pub jitters : p.jitter ≤ p.ping_interval

-- A policy is accepted exactly when every interval and count is positive and the jitter is at most
-- the ping interval; the default policy is accepted.
pub validate_exact :
    (p : HeartbeatPolicy) → ((validate p ≡ valid) ↔ IsUsable p) × (validate default_policy ≡ valid)
unfolding validate
validate_exact p = ((λ h. ground arith, λ h. ground arith), refl)
