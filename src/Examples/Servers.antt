-- ===== src/Examples/Servers.antt =====
-- Inputs for rifts/src/server.rs.
use rifts.Prelude.{
  ◌+◌, ◌≡◌, ◌≤◌, ◌∷◌, [], refl, none, some, if◌then◌else◌, string_eq, pair_eq, arith,
}
use rifts.Prelude.Int.{pos, leb_ℤ}
use rifts.Prelude.Map.{lookup}
use rifts.Config.{default_config}
use rifts.Ack.{with_capacity}
use rifts.Ack.Timeouts.{deadline}
use rifts.Session.Lifecycle.{Session, SessionState}
use rifts.Session.Store.{get, is_expired}
use rifts.Storage.Dedupe.{check_and_record}
use rifts.Server.{
  RiftServer, build, spawned, spawn_connection, maintenance, Serving, Run, at_start,
  take_connection, begin, with_metrics,
}
use rifts.Server.Limit.{limit_holds, limit_exceeded, Anytime}
use rifts.Server.Maintenance.{IsTidy, maintenance_exact}

abbrev of_one : RiftServer
unfolding build
of_one = build (record {
  config = record default_config { max_connections = 1 };
  broker = none;
  metrics = none;
  session_store = none;
})

abbrev Alone : Serving → Type 0
Alone s = Run (λ waiting. waiting ≡ 0) of_one s

abbrev idle_server : Serving
idle_server = record { server = of_one; waiting = 0; running = 0 }

abbrev taken_one : Serving
unfolding spawn_connection
taken_one = record { server = (spawn_connection of_one).0; waiting = 1; running = 0 }

abbrev running_one : Serving
running_one = record {
  server =
      with_metrics taken_one.server (rifts.Connection.Greeting.count_open taken_one.server.metrics);
  waiting = 0;
  running = 1;
}

one_runs : Alone running_one
unfolding spawn_connection build
one_runs = begin taken_one 0 (take_connection idle_server 1 at_start refl refl) refl

-- With the limit reached, the next connection is turned away.
next_turned_away :
    (spawn_connection running_one.server).1
    ≡ rifts.Server.turned_away rifts.Protocol.CloseCode.server_overloaded
unfolding spawn_connection build
next_turned_away = refl

limit_holds_example : running_one.waiting + running_one.running ≤ of_one.config.max_connections
unfolding build
limit_holds_example = limit_holds of_one running_one refl (omega arith) (omega arith) one_runs

limit_exceeded_example : (s : Serving) × Run Anytime of_one s × (s.running ≡ 3)
unfolding build
limit_exceeded_example = limit_exceeded of_one 3 refl

abbrev alice : Session
alice = record (rifts.Session.Lifecycle.new (pos 100) "s1" "alice") {
  state = SessionState.draining;
}

abbrev filled : RiftServer
filled = record of_one {
  broker = record of_one.broker { dedupe = (("t", "m1"), pos 50) ∷ (("t", "m2"), pos 90) ∷ [] };
  session_store = record { inner = ("s1", alice) ∷ []; offsets = [] };
  ack_manager = record (with_capacity 2) {
    outstanding = ("s1", ("m1", pos 10) ∷ ("m2", pos 30) ∷ []) ∷ [];
  };
}

filled-IsTidy : IsTidy filled
unfolding lookup get build
filled-IsTidy = record {
  dedupe = (refl, (refl, tt));
  sessions = record {
    unique = (refl, tt);
    filed = λ id s e. ground (arith, string_eq.beq_iff "s1" id, e);
  };
  acks = record {
    sessions = (refl, tt);
    few = omega arith;
    each = (record { unique = (refl, (refl, tt)); capped = omega arith }, tt);
  };
}

maintenance_exact_example :
    let left = (maintenance (pos 60) (pos 200) (pos 20) filled).0 in
    (get left.session_store "s1" ≡ elim (get filled.session_store "s1") [
      | none ↦ none
      | some t ↦ if is_expired (pos 200) filled.config.idle_timeout t then none else some t
    ])
    × (deadline left.ack_manager "s1" "m1" ≡ elim (deadline filled.ack_manager "s1" "m1") [
      | none ↦ none
      | some d ↦ if leb_ℤ d (pos 20) then none else some d
    ])
    × ((check_and_record left.broker.dedupe (pos 70) "t" "m1" 5).1
        ≡ (check_and_record filled.broker.dedupe (pos 70) "t" "m1" 5).1)
maintenance_exact_example =
    maintenance_exact filled (pos 60) (pos 200) (pos 20) (pos 70) "s1" "m1" "t" "m1" 5 filled-IsTidy
      (omega arith)
