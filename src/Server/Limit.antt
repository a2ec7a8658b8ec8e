-- ===== src/Server/Limit.antt =====
-- rifts/src/server.rs: how many connections run at once.
use rifts.Prelude.{ℕ, zero, suc, ◌+◌, ◌%◌, ◌^◌, ◌≡◌, ◌≤◌, ◌<◌, refl, ap, ◌∙◌, arith}
use rifts.Server.{
  RiftServer, spawned, spawn_connection, Serving, Run, at_start, take_connection, turn_away, begin,
  finish,
}

-- Neither the configuration nor the counters change as a connection is spawned.
record IsSpawn (s t : RiftServer) : Type 0 where
  pub same_config : t.config ≡ s.config
  pub same_metrics : t.metrics ≡ s.metrics

spawn_connection-IsSpawn : (s : RiftServer) → IsSpawn s (spawn_connection s).0
unfolding spawn_connection
spawn_connection-IsSpawn s = record { same_config = ground arith; same_metrics = ground arith }

spawned_below :
    (s : RiftServer) (id : ℕ)
    → 0 < s.config.max_connections
    → (spawn_connection s).1 ≡ spawned id
    → s.metrics.active_connections < s.config.max_connections
unfolding spawn_connection
spawned_below s id h e = ground (arith, h, e)

config_kept :
    {free : ℕ → Type 0} (s₀ : RiftServer) (s : Serving)
    → Run free s₀ s
    → s.server.config ≡ s₀.config
config_kept s₀ _ at_start = refl
config_kept s₀ _ (take_connection s id run ok e) =
    (spawn_connection-IsSpawn s.server).same_config ∙ config_kept s₀ s run
config_kept s₀ _ (turn_away s code run e) =
    (spawn_connection-IsSpawn s.server).same_config ∙ config_kept s₀ s run
config_kept s₀ _ (begin s waiting run e) = config_kept s₀ s run
config_kept s₀ _ (finish s running run e) = config_kept s₀ s run

-- The counter is the number of connections that run, on 64 bits.
active_counts :
    {free : ℕ → Type 0} (s₀ : RiftServer) (s : Serving)
    → s₀.metrics.active_connections ≡ 0
    → Run free s₀ s
    → s.server.metrics.active_connections ≡ s.running % 2 ^ 64
active_counts s₀ _ h at_start = h
active_counts s₀ _ h (take_connection s id run ok e) =
    ap (λ m. m.active_connections) (spawn_connection-IsSpawn s.server).same_metrics
    ∙ active_counts s₀ s h run
active_counts s₀ _ h (turn_away s code run e) =
    ap (λ m. m.active_connections) (spawn_connection-IsSpawn s.server).same_metrics
    ∙ active_counts s₀ s h run
active_counts s₀ _ h (begin s waiting run e) = omega (arith, active_counts s₀ s h run)
active_counts s₀ _ h (finish s running run e) = omega (arith, active_counts s₀ s h run, e)

-- The limit holds as long as every connection runs before the next one is taken: of a server that
-- starts with none and has a limit, no more than that are taken or run at once.
pub limit_holds :
    (s₀ : RiftServer) (s : Serving)
    → s₀.metrics.active_connections ≡ 0
    → 0 < s₀.config.max_connections
    → s₀.config.max_connections < 2 ^ 64
    → Run (λ waiting. waiting ≡ 0) s₀ s
    → s.waiting + s.running ≤ s₀.config.max_connections
limit_holds s₀ _ h some_limit small at_start = omega arith
limit_holds s₀ _ h some_limit small (take_connection s id run none_waits e) =
    let same = ap (λ c. c.max_connections) (config_kept s₀ s run) in
    omega (
      arith,
      limit_holds s₀ s h some_limit small run,
      active_counts s₀ s h run,
      same,
      spawned_below s.server id (omega (arith, same, some_limit)) e,
      none_waits,
    )
limit_holds s₀ _ h some_limit small (turn_away s code run e) =
    limit_holds s₀ s h some_limit small run
limit_holds s₀ _ h some_limit small (begin s waiting run e) =
    omega (arith, limit_holds s₀ s h some_limit small run, e)
limit_holds s₀ _ h some_limit small (finish s running run e) =
    omega (arith, limit_holds s₀ s h some_limit small run, e)

abbrev pub Anytime : ℕ → Type 0
Anytime waiting = Unit

-- So many connections taken, none of them running yet.
record Taken (s₀ : RiftServer) (n : ℕ) : Type 0 where
  pub state : Serving
  pub reached : Run Anytime s₀ state
  pub all_wait : state.waiting ≡ n
  pub none_runs : state.running ≡ 0
  pub same_config : state.server.config ≡ s₀.config
  pub same_metrics : state.server.metrics ≡ s₀.metrics

spawns :
    (s : RiftServer)
    → s.metrics.active_connections ≡ 0
    → (spawn_connection s).1 ≡ spawned s.next_conn_id
unfolding spawn_connection
spawns s h = ground (arith, h)

taken : (s₀ : RiftServer) (n : ℕ) → s₀.metrics.active_connections ≡ 0 → Taken s₀ n
taken s₀ zero h = record {
  state = record { server = s₀; waiting = 0; running = 0 };
  reached = at_start;
  all_wait = refl;
  none_runs = refl;
  same_config = refl;
  same_metrics = refl;
}
taken s₀ (suc n) h =
    let t = taken s₀ n h in
    let s = t.state in
    record {
      state = record s { server = (spawn_connection s.server).0; waiting = suc s.waiting };
      reached =
          take_connection s s.server.next_conn_id t.reached tt
            (spawns s.server (ap (λ m. m.active_connections) t.same_metrics ∙ h));
      all_wait = ap suc t.all_wait;
      none_runs = t.none_runs;
      same_config = (spawn_connection-IsSpawn s.server).same_config ∙ t.same_config;
      same_metrics = (spawn_connection-IsSpawn s.server).same_metrics ∙ t.same_metrics;
    }

begun :
    (s₀ : RiftServer) (n : ℕ) (s : Serving)
    → Run Anytime s₀ s
    → s.waiting ≡ n
    → (t : Serving) × Run Anytime s₀ t × (t.running ≡ n + s.running)
begun s₀ zero s run h = (s, run, omega arith)
begun s₀ (suc n) s run h =
    let (t, run', e) = begun s₀ n _ (begin s n run h) refl in (t, run', omega (arith, e))

-- The limit does not hold otherwise: whatever it is, a server that starts with no connection can come to
-- run any number of them, since a connection is counted once its task runs, and until then others are
-- taken.
pub limit_exceeded :
    (s₀ : RiftServer) (n : ℕ)
    → s₀.metrics.active_connections ≡ 0
    → (s : Serving) × Run Anytime s₀ s × (s.running ≡ n)
limit_exceeded s₀ n h =
    let t = taken s₀ n h in
    let (s, run, e) = begun s₀ n t.state t.reached t.all_wait in
    (s, run, omega (arith, e, t.none_runs))
