-- ===== src/Storage/SledDedupe/Once.antt =====
-- rifts-storage/src/dedupe.rs: tasks that check one message at the same time.
use rifts.Prelude.{
  ℕ, ◌≡◌, ◌≤◌, refl, ◌⊎◌, inl, inr, true, Option, none, some, List, [], ◌∷◌, length, arith,
}
use rifts.Prelude.Int.{ltb_ℤ, as_u64, as_i64}
use rifts.Prelude.Bytes.{to_be_bytes, length-to_be_bytes}
use rifts.Topic.Policy.{as_millis}
use rifts.Atomic.{System, init, Trace}
use rifts.Atomic.Linear.{in_sequence, Trace-in_sequence}
use rifts.Storage.SledOffset.Values.{value_back, i64_add-IsI64}
use rifts.Storage.SledDedupe.{Caller, check, expiry, round}

-- The record that a task writes is a duplicate for every task whose clock is before its end.
written-seen :
    (writer later : Caller)
    → ltb_ℤ later.now (expiry writer.now writer.window) ≡ true
    → check later (some (to_be_bytes 8 (as_u64 (expiry writer.now writer.window)))) ≡ none
unfolding check round
written-seen writer later h = ground (
  arith,
  h,
  length-to_be_bytes 8 (as_u64 (expiry writer.now writer.window)),
  value_back (expiry writer.now writer.window)
      (i64_add-IsI64 writer.now (as_i64 (as_millis writer.window))),
)

check-writes :
    (c : Caller) (prev v : Option (List ℕ))
    → check c prev ≡ some v
    → v ≡ some (to_be_bytes 8 (as_u64 (expiry c.now c.window)))
unfolding check round
check-writes c none v h = ground (arith, h)
check-writes c (some w) v h = ground (arith, h)

-- Every clock is before the end of every window.
abbrev pub IsClose : (ℕ → Caller) → Type 0
IsClose callers =
    (i k : ℕ) → ltb_ℤ (callers k).now (expiry (callers i).now (callers i).window) ≡ true

in_sequence-once :
    (callers : ℕ → Caller) (start last : Option (List ℕ)) (l : List ℕ)
    → IsClose callers
    → in_sequence (λ i. check (callers i)) start l ≡ some last
    → length l ≤ 1
unfolding in_sequence
in_sequence-once callers start last [] close h = omega arith
in_sequence-once callers start last (i ∷ []) close h = omega arith
in_sequence-once callers start last (i ∷ k ∷ l) close h =
    by_earlier (in_sequence (λ n. check (callers n)) start l) refl
  where
    by_earlier :
        (o : Option (Option (List ℕ)))
        → in_sequence (λ n. check (callers n)) start l ≡ o
        → length (i ∷ k ∷ l) ≤ 1
    by_earlier none e = ground (arith, e, h)
    by_earlier (some prev) e = by_second (check (callers k) prev) refl
      where
        by_second :
            (o : Option (Option (List ℕ))) → check (callers k) prev ≡ o → length (i ∷ k ∷ l) ≤ 1
        by_second none e' = ground (arith, e, e', h)
        by_second (some v) e' = ground (
          arith,
          e,
          e',
          h,
          check-writes (callers k) prev v e',
          written-seen (callers k) (callers i) (close k i),
        )

-- No record, or one of at least 8 bytes, which the exchange of a task is tried against.
abbrev pub IsRecord : Option (List ℕ) → Type 0
IsRecord none = Unit
IsRecord (some v) = 8 ≤ length v

-- However any number of tasks interleave that check one message, each with a clock that is before the
-- end of every one's window, at most one is told that it is fresh: either none is and the record, if
-- any, stays as it was, or one is and the record is its own. A record holds at least 8 bytes.
pub check_once :
    (callers : ℕ → Caller) (prev : Option (List ℕ)) {l : List ℕ} {s : System (Option (List ℕ))}
    → IsClose callers
    → IsRecord prev
    → Trace (λ i. check (callers i)) (init prev) l s
    → ((l ≡ []) × (s.cell ≡ prev))
      ⊎ ((i : ℕ) × (l ≡ i ∷ [])
          × (s.cell ≡ some (to_be_bytes 8 (as_u64 (expiry (callers i).now (callers i).window)))))
unfolding in_sequence
check_once callers prev {l} {s} close whole run =
    by_winners l (Trace-in_sequence (λ i. check (callers i)) run)
  where
    by_winners :
        (k : List ℕ)
        → in_sequence (λ i. check (callers i)) prev k ≡ some s.cell
        → ((k ≡ []) × (s.cell ≡ prev))
          ⊎ ((i : ℕ) × (k ≡ i ∷ [])
              × (s.cell
                  ≡ some (to_be_bytes 8 (as_u64 (expiry (callers i).now (callers i).window)))))
    by_winners [] e = inl (refl, ground (arith, e))
    by_winners (i ∷ []) e = inr (i, refl, check-writes (callers i) prev s.cell e)
    by_winners (i ∷ k ∷ rest) e =
        absurd (omega (arith, in_sequence-once callers prev s.cell (i ∷ k ∷ rest) close e))
