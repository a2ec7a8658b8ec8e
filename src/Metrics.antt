-- ===== src/Metrics.antt =====
-- rifts-core/src/metrics.rs: the counters. A `fetch_add` or `fetch_sub` on an `AtomicU64` wraps.
use rifts.Prelude.{ℕ, ◌+◌, ◌-◌, ◌%◌, ◌^◌}

pub record Metrics : Type 0 where
  pub active_connections : ℕ
  pub connection_open_total : ℕ
  pub connection_close_total : ℕ
  pub reconnect_total : ℕ
  pub resume_success_total : ℕ
  pub resume_failed_total : ℕ
  pub heartbeat_timeout_total : ℕ
  pub messages_in_total : ℕ
  pub messages_out_total : ℕ
  pub messages_dropped_total : ℕ
  pub messages_replayed_total : ℕ
  pub messages_expired_total : ℕ
  pub ack_timeout_total : ℕ
  pub duplicate_total : ℕ
  pub send_queue_depth : ℕ
  pub recv_queue_depth : ℕ
  pub slow_consumer_total : ℕ
  pub flow_pause_total : ℕ
  pub flow_resume_total : ℕ
  pub volatile_drop_total : ℕ
  pub state_coalesce_total : ℕ

abbrev pub new : Metrics
new = record {
  active_connections = 0;
  connection_open_total = 0;
  connection_close_total = 0;
  reconnect_total = 0;
  resume_success_total = 0;
  resume_failed_total = 0;
  heartbeat_timeout_total = 0;
  messages_in_total = 0;
  messages_out_total = 0;
  messages_dropped_total = 0;
  messages_replayed_total = 0;
  messages_expired_total = 0;
  ack_timeout_total = 0;
  duplicate_total = 0;
  send_queue_depth = 0;
  recv_queue_depth = 0;
  slow_consumer_total = 0;
  flow_pause_total = 0;
  flow_resume_total = 0;
  volatile_drop_total = 0;
  state_coalesce_total = 0;
}

-- `fetch_add(n)` on one counter, and `fetch_sub(1)`.
abbrev pub add : ℕ → ℕ → ℕ
add counter n = (counter + n) % 2 ^ 64

abbrev pub inc : ℕ → ℕ
inc counter = add counter 1

abbrev pub dec : ℕ → ℕ
dec counter = (counter + (2 ^ 64 - 1)) % 2 ^ 64
