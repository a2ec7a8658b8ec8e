-- ===== src/Server.antt =====
-- rifts/src/server.rs: the server that takes connections up to a limit, and its maintenance. A connection
-- is taken by `spawn_connection`, counted once its task runs, and counted out when the task ends; the
-- transport and the provider of authentication are left out.
pub mod Limit
pub mod Maintenance
use rifts.Prelude.{
  ℕ, suc, ◌+◌, ◌-◌, ◌%◌, ◌^◌, ◌≡◌, ◌<◌, Bool, Option, none, some, ltb, leb, if◌then◌else◌, ◌&&◌,
  arith,
}
use rifts.Prelude.Int.{ℤ}
use rifts.Config.{ServerConfig}
use rifts.Metrics.{Metrics}
use rifts.Topic.Policy.{default_profile}
use rifts.Protocol.CloseCode.{CloseCode, server_overloaded}
use rifts.Ack.{AckManager, with_capacity, default_max_outstanding_per_session, reap_all_timeouts}
use rifts.Session.Store.{SessionStore, empty_store, expire_sessions}
use rifts.Broker.Memory.{Broker, maintain}
use rifts.Connection.HelloPayload.{or_else}
use rifts.Connection.Greeting.{count_open, count_close}

pub record RiftServer : Type 0 where
  pub config : ServerConfig
  pub broker : Broker
  pub metrics : Metrics
  pub next_conn_id : ℕ
  pub session_store : SessionStore
  pub ack_manager : AckManager

-- `RiftServerBuilder`: what a server is built from, and the defaults.
pub record RiftServerBuilder : Type 0 where
  pub config : ServerConfig
  pub broker : Option Broker
  pub metrics : Option Metrics
  pub session_store : Option SessionStore

unfoldable pub build : RiftServerBuilder → RiftServer
build b = record {
  config = b.config;
  broker =
      or_else
        (rifts.Broker.Memory.new b.config.default_topic_profile b.config.dedupe_window
          b.config.max_payload_bytes)
        b.broker;
  metrics = or_else rifts.Metrics.new b.metrics;
  next_conn_id = 1;
  session_store = or_else empty_store b.session_store;
  ack_manager = with_capacity default_max_outstanding_per_session;
}

-- What becomes of a new connection.
pub data Spawned : Type 0 where
  spawned : (conn_id : ℕ) → Spawned
  turned_away : CloseCode → Spawned

unfoldable pub spawn_connection : RiftServer → RiftServer × Spawned
spawn_connection s =
    if ltb 0 s.config.max_connections && leb s.config.max_connections s.metrics.active_connections
    then (s, turned_away server_overloaded)
    else (record s { next_conn_id = (s.next_conn_id + 1) % 2 ^ 64 }, spawned s.next_conn_id)

-- One round of `run_maintenance`, with the readings of the clock, and how much was removed.
unfoldable pub maintenance : (at_sweep at_expiry at_reap : ℤ) → RiftServer → RiftServer × ℕ × ℕ × ℕ
unfolding maintain expire_sessions reap_all_timeouts
maintenance at_sweep at_expiry at_reap s =
    let (broker, swept) = maintain s.broker at_sweep in
    let (store, sessions_expired) =
      expire_sessions at_expiry s.config.idle_timeout s.session_store in
    let (acks, acks_reaped) = reap_all_timeouts s.ack_manager at_reap in
    (
      record s { broker = broker; session_store = store; ack_manager = acks },
      swept,
      sessions_expired,
      acks_reaped,
    )

-- The server with the connections that were taken and do not run yet, and those that run.
pub record Serving : Type 0 where
  pub server : RiftServer
  pub waiting : ℕ
  pub running : ℕ

abbrev pub with_metrics : RiftServer → Metrics → RiftServer
with_metrics s m = record s { metrics = m }

-- `free` tells when the server takes a connection: at any time, or only while none waits to run.
pub data Run (free : ℕ → Type 0) (s₀ : RiftServer) : Serving → Type 0 where
  at_start : Run free s₀ (record { server = s₀; waiting = 0; running = 0 })
  take_connection :
      (s : Serving) (conn_id : ℕ)
      → Run free s₀ s
      → free s.waiting
      → (spawn_connection s.server).1 ≡ spawned conn_id
      → Run free s₀ (record s { server = (spawn_connection s.server).0; waiting = suc s.waiting })
  turn_away :
      (s : Serving) (code : CloseCode)
      → Run free s₀ s
      → (spawn_connection s.server).1 ≡ turned_away code
      → Run free s₀ (record s { server = (spawn_connection s.server).0 })
  begin :
      (s : Serving) (waiting : ℕ)
      → Run free s₀ s
      → s.waiting ≡ suc waiting
      → Run free s₀ (record {
        server = with_metrics s.server (count_open s.server.metrics);
        waiting = waiting;
        running = suc s.running;
      })
  finish :
      (s : Serving) (running : ℕ)
      → Run free s₀ s
      → s.running ≡ suc running
      → Run free s₀ (record {
        server = with_metrics s.server (count_close s.server.metrics);
        waiting = s.waiting;
        running = running;
      })
