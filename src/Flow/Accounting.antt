-- ===== src/Flow/Accounting.antt =====
-- rifts-core/src/flow/backpressure.rs: the byte budget and the counters, over single calls and
-- histories of calls.
use rifts.Prelude.{
  ℕ, ◌+◌, ◌-◌, ◌%◌, ◌^◌, ◌≡◌, ◌≤◌, ◌<◌, ◌⊎◌, inl, inr, ◌&&◌, not, Bool, true, false, List, [], ◌∷◌,
  arith, dec_le, if◌then◌else◌,
}
use rifts.Flow.{
  BackpressureStrategy, BackpressureAction, BackpressureController, new, accept, set_strategy,
  try_enqueue, release, is_overloaded, usize_add,
}

-- The action that a strategy asks for.
abbrev pub action_of : BackpressureStrategy → BackpressureAction
action_of BackpressureStrategy.pause = BackpressureAction.pause
action_of BackpressureStrategy.drop_volatile = BackpressureAction.drop_volatile
action_of BackpressureStrategy.coalesce_state = BackpressureAction.coalesce_state
action_of BackpressureStrategy.downgrade = BackpressureAction.downgrade
action_of BackpressureStrategy.disconnect = BackpressureAction.disconnect
action_of BackpressureStrategy.snapshot_later = BackpressureAction.snapshot_later

-- The strategies under which a refused message is lost.
abbrev pub loses : BackpressureStrategy → Bool
loses BackpressureStrategy.drop_volatile = true
loses BackpressureStrategy.coalesce_state = true
loses BackpressureStrategy.disconnect = true
loses _ = false

-- With sums that fit a `usize`: a payload is accepted exactly when it fits into what is available,
-- and then the byte count grows by its size and nothing else changes; otherwise the action is that
-- of the strategy, the bytes stay, the decision is counted once, and it is counted as a drop exactly
-- under the three strategies that lose the message.
pub try_enqueue_lem :
    (c : BackpressureController) (n : ℕ)
    → c.current_bytes + n < 2 ^ 64
    → let (d, action) = try_enqueue c n in
      ((c.current_bytes + n ≤ c.max_bytes)
        × (action ≡ accept)
        × (d ≡ record c { current_bytes = c.current_bytes + n }))
      ⊎ ((c.max_bytes < c.current_bytes + n)
          × (action ≡ action_of c.strategy)
          × (d.current_bytes ≡ c.current_bytes)
          × (d.max_bytes ≡ c.max_bytes)
          × (d.applied ≡ usize_add c.applied 1)
          × (d.dropped ≡ (if loses c.strategy then usize_add c.dropped 1 else c.dropped)))
unfolding try_enqueue
try_enqueue_lem c n h = elim (dec_le (c.current_bytes + n) c.max_bytes) [
  | yes room ↦ inl (room, ground arith, ground arith)
  | no full ↦
      inr (omega arith, ground arith, ground arith, ground arith, ground arith, ground arith)
]

-- A release takes its bytes off the count, down to 0 at the least, and counts a flow resume exactly
-- when the queue was overloaded before and is not any more; nothing else changes.
pub release_lem :
    (c : BackpressureController) (n : ℕ)
    → release c n ≡ record c {
      current_bytes = c.current_bytes - n;
      flow_resume =
          if is_overloaded c && not (is_overloaded (release c n))
          then usize_add c.flow_resume 1
          else c.flow_resume;
    }
unfolding release is_overloaded
release_lem c n = ground arith

-- The calls of a history.
pub data Call : Type 0 where
  enqueues releases : ℕ → Call
  sets : BackpressureStrategy → Call

refusals : BackpressureAction → ℕ
refusals accept = 0
refusals _ = 1

-- One call, with the number of backpressure decisions so far.
pub step : BackpressureController × ℕ → Call → BackpressureController × ℕ
unfolding refusals
step (c, k) (enqueues n) = let (d, action) = try_enqueue c n in (d, k + refusals action)
step (c, k) (releases n) = (release c n, k)
step (c, k) (sets s) = (set_strategy c s, k)

pub run : BackpressureController × ℕ → List Call → BackpressureController × ℕ
run s [] = s
run s (call ∷ calls) = run (step s call) calls

pub record IsAccounted (max_bytes : ℕ) (s : BackpressureController × ℕ) : Type 0 where
  pub fixed : s.0.max_bytes ≡ max_bytes
  pub within : s.0.current_bytes ≤ max_bytes
  pub decided : s.0.applied ≡ s.1 % 2 ^ 64
  pub split : s.0.dropped ≡ (s.0.volatile_drop + s.0.state_coalesce + s.0.slow_consumer) % 2 ^ 64
  pub resumes_fit : s.0.flow_resume < 2 ^ 64

enqueue-IsAccounted :
    (m n k : ℕ) (c : BackpressureController)
    → IsAccounted m (c, k)
    → IsAccounted m (step (c, k) (enqueues n))
unfolding step try_enqueue
enqueue-IsAccounted m n k c v = ground arith

step-IsAccounted :
    (m : ℕ) (s : BackpressureController × ℕ) (call : Call)
    → IsAccounted m s
    → IsAccounted m (step s call)
unfolding step
step-IsAccounted m (c, k) (enqueues n) v = enqueue-IsAccounted m n k c v
step-IsAccounted m (c, k) (releases n) v = unfold release in ground arith
step-IsAccounted m (c, k) (sets s) v = unfold set_strategy in ground arith

run-IsAccounted :
    (m : ℕ) (s : BackpressureController × ℕ) (calls : List Call)
    → IsAccounted m s
    → IsAccounted m (run s calls)
unfolding run
run-IsAccounted m s [] v = v
run-IsAccounted m s (call ∷ calls) v =
    run-IsAccounted m (step s call) calls (step-IsAccounted m s call v)

-- After any calls on a new controller the byte count is within the maximum, `applied` is the number
-- of refused payloads, and `dropped` is the sum of the three counters of lost messages, both modulo
-- 2 ^ 64: for every maximum, also where a sum of payload sizes wraps.
pub run_accounts :
    (m : ℕ) (calls : List Call)
    → let (c, refused) = run (new m, 0) calls in
      (c.current_bytes ≤ m)
      × (c.applied ≡ refused % 2 ^ 64)
      × (c.dropped ≡ (c.volatile_drop + c.state_coalesce + c.slow_consumer) % 2 ^ 64)
run_accounts m calls =
    let v = run-IsAccounted m (new m, 0) calls (omega arith) in (v.within, v.decided, v.split)
