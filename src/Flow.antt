-- ===== src/Flow.antt =====
-- rifts-core/src/flow/backpressure.rs: the controller of a connection's outbound queue. `usize` is
-- 64 bits wide and its sums wrap; a method returns the new controller. One atomic cell is the
-- byte count, whose loops are written by `enqueue_next` and `release_next`; without interference
-- a loop makes one exchange.
pub mod Accounting
pub mod Concurrent
use rifts.Prelude.{
  ℕ, ◌+◌, ◌-◌, ◌/◌, ◌%◌, ◌^◌, ◌≡◌, Bool, true, false, ◌&&◌, Option, none, some, ltb, leb, ◌==◌,
  nat_eq, if◌then◌else◌,
}

pub data BackpressureStrategy : Type 0 where
  pause drop_volatile coalesce_state downgrade disconnect snapshot_later : BackpressureStrategy

pub data BackpressureAction : Type 0 where
  accept pause drop_volatile coalesce_state downgrade disconnect snapshot_later : BackpressureAction

pub record BackpressureController : Type 0 where
  pub max_bytes : ℕ
  pub current_bytes : ℕ
  pub strategy : BackpressureStrategy
  pub applied : ℕ
  pub dropped : ℕ
  pub slow_consumer : ℕ
  pub flow_pause : ℕ
  pub flow_resume : ℕ
  pub volatile_drop : ℕ
  pub state_coalesce : ℕ

abbrev pub usize_add : ℕ → ℕ → ℕ
usize_add a b = (a + b) % 2 ^ 64

abbrev pub new : ℕ → BackpressureController
new max_bytes = record {
  max_bytes = max_bytes;
  current_bytes = 0;
  strategy = BackpressureStrategy.pause;
  applied = 0;
  dropped = 0;
  slow_consumer = 0;
  flow_pause = 0;
  flow_resume = 0;
  volatile_drop = 0;
  state_coalesce = 0;
}

unfoldable pub set_strategy : BackpressureController → BackpressureStrategy → BackpressureController
set_strategy c s = record c { strategy = s }

-- `saturating_sub` stops at 0, as `-` does.
unfoldable pub available : BackpressureController → ℕ
available c = c.max_bytes - c.current_bytes

unfoldable pub high_water : BackpressureController → ℕ
high_water c = c.max_bytes - c.max_bytes / 10

unfoldable pub is_overloaded : BackpressureController → Bool
is_overloaded c =
    if c.max_bytes == 0 then false else leb (c.max_bytes - c.max_bytes / 10) c.current_bytes

unfoldable pub record_applied : BackpressureController → BackpressureController
record_applied c = record c { applied = usize_add c.applied 1 }

unfoldable pub record_dropped : BackpressureController → BackpressureController
record_dropped c = record c { dropped = usize_add c.dropped 1 }

-- What one round of the loop in `try_enqueue` stores, or that the loop ends.
unfoldable pub enqueue_next : (max_bytes payload_bytes prev : ℕ) → Option ℕ
enqueue_next max_bytes payload_bytes prev =
    if leb (usize_add prev payload_bytes) max_bytes
    then some (usize_add prev payload_bytes)
    else none

-- What `try_enqueue` does once the loop has found no room.
refuse : BackpressureStrategy → BackpressureController → BackpressureController × BackpressureAction
unfolding record_dropped
refuse BackpressureStrategy.pause c =
    (record c { flow_pause = usize_add c.flow_pause 1 }, BackpressureAction.pause)
refuse BackpressureStrategy.drop_volatile c =
    let d = record_dropped c in
    (record d { volatile_drop = usize_add d.volatile_drop 1 }, BackpressureAction.drop_volatile)
refuse BackpressureStrategy.coalesce_state c =
    let d = record_dropped c in
    (record d { state_coalesce = usize_add d.state_coalesce 1 }, BackpressureAction.coalesce_state)
refuse BackpressureStrategy.downgrade c = (c, BackpressureAction.downgrade)
refuse BackpressureStrategy.disconnect c =
    let d = record_dropped c in
    (record d { slow_consumer = usize_add d.slow_consumer 1 }, BackpressureAction.disconnect)
refuse BackpressureStrategy.snapshot_later c = (c, BackpressureAction.snapshot_later)

unfoldable pub try_enqueue :
    BackpressureController → ℕ → BackpressureController × BackpressureAction
unfolding enqueue_next refuse record_applied
try_enqueue c payload_bytes = elim (enqueue_next c.max_bytes payload_bytes c.current_bytes) [
  | some v ↦ (record c { current_bytes = v }, accept)
  | none ↦ refuse c.strategy (record_applied c)
]

-- The loop in `release` always has a value to store.
unfoldable pub release_next : (bytes prev : ℕ) → Option ℕ
release_next bytes prev = some (prev - bytes)

unfoldable pub release : BackpressureController → ℕ → BackpressureController
unfolding high_water
release c bytes =
    let hwm = high_water c in
    let prev = c.current_bytes in
    let next = prev - bytes in
    let stored = record c { current_bytes = next } in
    if leb hwm prev && ltb next hwm
    then record stored { flow_resume = usize_add c.flow_resume 1 }
    else stored
