-- ===== src/Examples/Flows.antt =====
-- Inputs for rifts-core/src/flow/backpressure.rs.
use rifts.Prelude.{ℕ, ◌+◌, ◌%◌, ◌^◌, ◌≤◌, ◌≡◌, refl, List, [], ◌∷◌}
use rifts.Atomic.{
  System, Trace, start, quiet, wins, load, exchange, update, init, Local, loaded, won,
}
use rifts.Flow.{BackpressureController, BackpressureStrategy, new, enqueue_next}
use rifts.Flow.Accounting.{Call, run, run_accounts}
use rifts.Flow.Concurrent.{Task, task_next, replay, interleaved_replay}

abbrev busy : BackpressureController
busy = record (new 100) { current_bytes = 90; strategy = BackpressureStrategy.drop_volatile }

abbrev history : List Call
history = Call.enqueues 60 ∷ Call.enqueues 60 ∷ Call.releases 10 ∷ Call.enqueues 50 ∷ []

run_accounts_example :
    let (c, refused) = run (new 100, 0) history in
    (c.current_bytes ≤ 100)
    × (c.applied ≡ refused % 2 ^ 64)
    × (c.dropped ≡ (c.volatile_drop + c.state_coalesce + c.slow_consumer) % 2 ^ 64)
run_accounts_example = run_accounts 100 history

abbrev tasks : ℕ → Task
tasks _ = Task.enqueues 30

-- Task 0 loads and exchanges.
abbrev after_load : System ℕ
after_load = record { cell = 90; locals = update (λ _. Local.idle) 0 (loaded 90) }

one_wins :
    Trace
      (task_next 130 tasks)
      (init 90)
      (0 ∷ [])
      (record { cell = 120; locals = update after_load.locals 0 (won 90) })
unfolding task_next enqueue_next
one_wins = wins 0 (quiet start (load 0 refl)) (exchange 90 120 refl refl refl)

interleaved_replay_example :
    (replay (record busy { max_bytes = 130 }) tasks (0 ∷ [])).current_bytes ≡ 120
interleaved_replay_example = interleaved_replay (record busy { max_bytes = 130 }) tasks one_wins
