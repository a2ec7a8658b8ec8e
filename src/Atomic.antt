-- ===== src/Atomic.antt =====
-- The compare-and-swap loop that the sources share: `try_enqueue` and `release` of
-- rifts-core/src/flow/backpressure.rs, `try_inc_subscriber` and `try_inc_publisher` of
-- rifts-core/src/topic/store.rs, `MpscSink::deliver` of rifts-broker/src/connection/control.rs and the
-- sled `check_and_record` of rifts-storage/src/dedupe.rs.
-- Any number of threads run such a loop on one atomic cell. `next i prev` is what thread `i` tries
-- to store when it last saw `prev`, or `none` when it gives up.
pub mod Linear
use rifts.Prelude.{ℕ, ◌≡◌, Option, none, some, List, [], ◌∷◌, nat_eq, ◌==◌, if◌then◌else◌}

pub data Local (C : Type 0) : Type 0 where
  idle : Local C
  loaded : (prev : C) → Local C  -- about to compute `next` and to try the exchange
  won : (prev : C) → Local C
  gave_up : (seen : C) → Local C

pub record System (C : Type 0) : Type 0 where
  pub cell : C
  pub locals : ℕ → Local C

abbrev pub update : {C : Type 0} → (ℕ → Local C) → ℕ → Local C → ℕ → Local C
update f i l j = if i == j then l else f j

abbrev pub init : {C : Type 0} → C → System C
init v = record { cell = v; locals = λ _. idle }

module _ {C : Type 0} (next : ℕ → C → Option C) where
  -- A step that leaves the cell alone. `compare_exchange_weak` may fail for no reason, so `lose`
  -- has no premise that the cell has changed.
  pub data Quiet (s : System C) : System C → Type 0 where
    load :
        (i : ℕ)
        → s.locals i ≡ idle
        → Quiet s (record s { locals = update s.locals i (loaded s.cell) })
    lose :
        (i : ℕ) (prev v : C)
        → s.locals i ≡ loaded prev
        → next i prev ≡ some v
        → Quiet s (record s { locals = update s.locals i (loaded s.cell) })
    quit :
        (i : ℕ) (prev : C)
        → s.locals i ≡ loaded prev
        → next i prev ≡ none
        → Quiet s (record s { locals = update s.locals i (gave_up prev) })

  -- A successful exchange.
  pub data Wins (s : System C) (i : ℕ) : System C → Type 0 where
    exchange :
        (prev v : C)
        → s.locals i ≡ loaded prev
        → s.cell ≡ prev
        → next i prev ≡ some v
        → Wins s i (record { cell = v; locals = update s.locals i (won prev) })

  -- An interleaving, with the threads whose exchange succeeded, the latest first.
  pub data Trace (s₀ : System C) : List ℕ → System C → Type 0 where
    start : Trace s₀ [] s₀
    quiet : {l : List ℕ} {s t : System C} → Trace s₀ l s → Quiet s t → Trace s₀ l t
    wins : {l : List ℕ} {s t : System C} (i : ℕ) → Trace s₀ l s → Wins s i t → Trace s₀ (i ∷ l) t
