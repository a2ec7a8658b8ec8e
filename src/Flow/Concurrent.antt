-- ===== src/Flow/Concurrent.antt =====
-- rifts-core/src/flow/backpressure.rs: `try_enqueue` and `release` called from many tasks at once.
use rifts.Prelude.{ℕ, ◌≡◌, ◌≤◌, Option, some, Option-cases, inl, inr, ◌∙◌, List, [], ◌∷◌, arith}
use rifts.Atomic.{System, init, Trace}
use rifts.Atomic.Linear.{in_sequence, Trace-in_sequence, Trace-keeps}
use rifts.Flow.{BackpressureController, enqueue_next, release_next, try_enqueue, release}

-- What a task does with the queue: `try_enqueue(n)` or `release(n)`.
pub data Task : Type 0 where
  enqueues releases : ℕ → Task

unfoldable pub task_next : (max_bytes : ℕ) → (ℕ → Task) → ℕ → ℕ → Option ℕ
task_next max_bytes tasks i prev = elim (tasks i) [
  | enqueues n ↦ enqueue_next max_bytes n prev
  | releases n ↦ release_next n prev
]

-- The same operation as one uninterrupted call on a controller.
abbrev after : BackpressureController → Task → BackpressureController
after c (enqueues n) = (try_enqueue c n).0
after c (releases n) = release c n

task_next-bounded :
    (max_bytes : ℕ) (tasks : ℕ → Task) (i prev v : ℕ)
    → prev ≤ max_bytes
    → task_next max_bytes tasks i prev ≡ some v
    → v ≤ max_bytes
unfolding task_next enqueue_next release_next
task_next-bounded max_bytes tasks i prev v h e = ground arith

-- However any number of tasks interleave their loads and exchanges, the byte count never exceeds the
-- maximum, if it did not at the start.
pub interleaved_bounded :
    (max_bytes start : ℕ) (tasks : ℕ → Task) {l : List ℕ} {s : System ℕ}
    → start ≤ max_bytes
    → Trace (task_next max_bytes tasks) (init start) l s
    → s.cell ≤ max_bytes
interleaved_bounded max_bytes start tasks h r =
    Trace-keeps (task_next max_bytes tasks) (λ v. v ≤ max_bytes) (task_next-bounded max_bytes tasks)
      h r

-- The successful operations of the list, the latest first, as uninterrupted calls.
unfoldable pub replay : BackpressureController → (ℕ → Task) → List ℕ → BackpressureController
replay c tasks [] = c
replay c tasks (i ∷ l) = after (replay c tasks l) (tasks i)

after-current_bytes :
    (c : BackpressureController) (tasks : ℕ → Task) (i v : ℕ)
    → task_next c.max_bytes tasks i c.current_bytes ≡ some v
    → ((after c (tasks i)).current_bytes ≡ v) × ((after c (tasks i)).max_bytes ≡ c.max_bytes)
unfolding task_next try_enqueue release release_next
after-current_bytes c tasks i v e = ground arith

replay-current_bytes :
    (c : BackpressureController) (tasks : ℕ → Task) (l : List ℕ) (v : ℕ)
    → in_sequence (task_next c.max_bytes tasks) c.current_bytes l ≡ some v
    → ((replay c tasks l).current_bytes ≡ v) × ((replay c tasks l).max_bytes ≡ c.max_bytes)
unfolding replay in_sequence
replay-current_bytes c tasks [] v e = ground arith
replay-current_bytes c tasks (i ∷ l) v e = elim (Option-cases (earlier l)) [
  | inl gone ↦ absurd (ground arith)
  | inr (u, here) ↦
      let (bytes, limit) = replay-current_bytes c tasks l u here in
      let (stored, kept) = after-current_bytes (replay c tasks l) tasks i v (ground arith) in
      (stored, kept ∙ limit)
]
  where
    earlier : List ℕ → Option ℕ
    earlier = in_sequence (task_next c.max_bytes tasks) c.current_bytes

-- However the tasks interleave, the byte count is what the calls that succeeded leave when they are
-- made one after another, in the order of their exchanges: no reservation and no release is lost.
pub interleaved_replay :
    (c : BackpressureController) (tasks : ℕ → Task) {l : List ℕ} {s : System ℕ}
    → Trace (task_next c.max_bytes tasks) (init c.current_bytes) l s
    → (replay c tasks l).current_bytes ≡ s.cell
interleaved_replay c tasks {l} {s} r =
    (replay-current_bytes c tasks l s.cell (Trace-in_sequence (task_next c.max_bytes tasks) r)).0
