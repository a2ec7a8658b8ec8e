-- ===== src/Topic/Entry/Log.antt =====
-- Logs in general: suffixes, ascending offsets, and what the eviction loops keep.
use rifts.Prelude.{
  ℕ, zero, suc, ◌+◌, ◌-◌, ◌≡◌, refl, ◌≤◌, ◌<◌, ◌⊎◌, inr, Bool, List, [], ◌∷◌, ◌++◌, All, length,
  take, drop, retain, length-drop, take-append-drop, ltb, arith, if◌then◌else◌, dec_lt,
}
use rifts.Prelude.Int.{◌<ℤ◌}
use rifts.Topic.Entry.{LogEntry, payload_len, total_payload, evict_over, keep_last}

-- `ys` is what is left of `xs` when entries at its front are dropped.
abbrev pub IsSuffix : List LogEntry → List LogEntry → Type 0
IsSuffix ys xs = (front : List LogEntry) × (xs ≡ front ++ ys)

pub keep_last-IsSuffix : (n : ℕ) (log : List LogEntry) → IsSuffix (keep_last n log) log
keep_last-IsSuffix n log = elim (dec_lt n (length log)) [
  | yes over ↦ (take (length log - n) log, ground (arith, take-append-drop (length log - n) log))
  | no fits ↦ ([], ground arith)
]

pub length-keep_last :
    (n : ℕ) (log : List LogEntry)
    → length (keep_last n log) ≡ (if ltb n (length log) then n else length log)
length-keep_last n log = ground (arith, length-drop (length log - n) log)

rest_total :
    (e : LogEntry) (es : List LogEntry)
    → payload_len e + total_payload es - payload_len e ≡ total_payload es
rest_total e es = omega arith

abbrev pub evicted : ℕ → List LogEntry → List LogEntry
evicted max_bytes log = evict_over max_bytes (total_payload log) log

-- The size policy on a log with a first entry.
evicted-cons :
    (max_bytes : ℕ) (e : LogEntry) (es : List LogEntry)
    → evicted max_bytes (e ∷ es)
      ≡ (if ltb max_bytes (payload_len e + total_payload es) then evicted max_bytes es else e ∷ es)
unfolding evict_over total_payload
evicted-cons max_bytes e es = rw (rest_total e es)

pub evicted-IsSuffix : (max_bytes : ℕ) (log : List LogEntry) → IsSuffix (evicted max_bytes log) log
unfolding evict_over
evicted-IsSuffix max_bytes [] = ([], refl)
evicted-IsSuffix max_bytes (e ∷ es) =
    let (front, eq) = evicted-IsSuffix max_bytes es in
    elim (dec_lt max_bytes (payload_len e + total_payload es)) [
      | yes over ↦ (e ∷ front, ground (arith, evicted-cons max_bytes e es))
      | no fits ↦ ([], ground (arith, evicted-cons max_bytes e es))
    ]

pub total_payload-evicted :
    (max_bytes : ℕ) (log : List LogEntry) → total_payload (evicted max_bytes log) ≤ max_bytes
unfolding total_payload
total_payload-evicted max_bytes [] = unfold evict_over in omega arith
total_payload-evicted max_bytes (e ∷ es) =
    ground (arith, evicted-cons max_bytes e es, total_payload-evicted max_bytes es)

length-drop_le : (k : ℕ) (log : List LogEntry) → length (drop k log) ≤ length log
length-drop_le k log = omega (arith, length-drop k log)

-- No longer suffix is within the limit.
pub evicted_longest :
    (max_bytes k : ℕ) (log : List LogEntry)
    → (max_bytes < total_payload (drop k log))
      ⊎ (length (drop k log) ≤ length (evicted max_bytes log))
unfolding total_payload
evicted_longest max_bytes zero [] = inr (omega arith)
evicted_longest max_bytes (suc k) [] = inr (omega arith)
evicted_longest max_bytes zero (e ∷ es) = ground (arith, evicted-cons max_bytes e es)
evicted_longest max_bytes (suc k) (e ∷ es) =
    ground (arith, evicted-cons max_bytes e es, evicted_longest max_bytes k es, length-drop_le k es)

-- Offsets that rise along the log.
abbrev pub Ascending : List LogEntry → Type 0
Ascending [] = Unit
Ascending (e ∷ es) = All (λ d. e.offset <ℤ d.offset) es × Ascending es

pub All-retain {ℓ} :
    (P : LogEntry → Type ℓ) (p : LogEntry → Bool) (xs : List LogEntry)
    → All P xs
    → All P (retain p xs)
All-retain P p [] h = tt
All-retain P p (x ∷ xs) h = ground (arith, All-retain P p xs h.1)

pub Ascending-retain :
    (p : LogEntry → Bool) (xs : List LogEntry) → Ascending xs → Ascending (retain p xs)
Ascending-retain p [] h = tt
Ascending-retain p (x ∷ xs) h =
    ground (arith, Ascending-retain p xs h.1, All-retain (λ d. x.offset <ℤ d.offset) p xs h.0)

pub Ascending-suffix : (front ys : List LogEntry) → Ascending (front ++ ys) → Ascending ys
Ascending-suffix [] ys h = h
Ascending-suffix (x ∷ front) ys h = Ascending-suffix front ys h.1

All-snoc {ℓ} :
    (P : LogEntry → Type ℓ) (xs : List LogEntry) (x : LogEntry)
    → All P xs
    → P x
    → All P (xs ++ x ∷ [])
All-snoc P [] x h p = (p, tt)
All-snoc P (y ∷ xs) x h p = (h.0, All-snoc P xs x h.1 p)

pub Ascending-snoc :
    (xs : List LogEntry) (x : LogEntry)
    → Ascending xs
    → All (λ d. d.offset <ℤ x.offset) xs
    → Ascending (xs ++ x ∷ [])
Ascending-snoc [] x h b = (tt, tt)
Ascending-snoc (y ∷ xs) x h b =
    (All-snoc (λ d. y.offset <ℤ d.offset) xs x h.0 b.0, Ascending-snoc xs x h.1 b.1)
