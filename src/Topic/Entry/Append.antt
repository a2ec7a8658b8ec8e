-- ===== src/Topic/Entry/Append.antt =====
-- rifts-core/src/topic/store.rs, `TopicEntry::append` and `range`: what each retention policy keeps.
use rifts.Prelude.{
  ℕ, ◌+◌, ◌/◌, none, ◌≡◌, refl, ap, sym, ◌∙◌, ◌≤◌, ◌<◌, ◌^◌, ◌↔◌, Bool, true, some, List, [], ◌∷◌,
  ◌++◌, All, Memᴰ, In-retain, length, retain, retain-snoc, drop, last?, last?-append, last?-suffix,
  ltb, arith, if◌then◌else◌, length-append, ◌==◌, ◌⊎◌,
}
use rifts.Prelude.Int.{ℤ, pos, ◌<ℤ◌, ◌≤ℤ◌, ◌-ℤ◌, leb_ℤ, as_i64, as_u64, i64_sub, eqb_ℤ_iff, int_eq}
use rifts.Topic.Policy.{RetentionPolicy, nothing, ttl, count, size, durable, latest, as_millis}
use rifts.Topic.Entry.{
  LogEntry, TopicEntry, apply_retention, append, stamp, range, in_range, is_fresh, payload_len,
  total_payload, durable_memory_cap, keep_last, head_offset, offset_or_zero,
}
use rifts.Topic.Entry.Log.{
  IsSuffix, keep_last-IsSuffix, length-keep_last, evicted, evicted-IsSuffix, total_payload-evicted,
  evicted_longest, Ascending, Ascending-retain, Ascending-suffix, Ascending-snoc,
}

-- The bytes of the payloads.
abbrev pub payload_sum : List LogEntry → ℕ
payload_sum [] = 0
payload_sum (e ∷ es) = length e.payload + payload_sum es

-- The age of an entry by the time it was appended at, or its own where it has none, on 64 bits.
abbrev pub age : (now : ℤ) → LogEntry → ℤ
age now e = elim e.appended_at [ some at ↦ i64_sub now at | none ↦ i64_sub now e.timestamp ]

-- The entry as it is to be filed.
abbrev pub filed : (now : ℤ) → LogEntry → LogEntry
filed now e = record {
  offset = e.offset;
  publisher_session = e.publisher_session;
  message_id = e.message_id;
  class = e.class;
  event = e.event;
  payload = e.payload;
  timestamp = if e.timestamp == pos 0 then now else e.timestamp;
  appended_at = some now;
}

-- What a policy promises of the log that it leaves, from the log with the new entry at its end.
abbrev pub Kept : RetentionPolicy → (now offset : ℤ) → (whole kept : List LogEntry) → Type 0
Kept nothing now offset whole kept = kept ≡ []
Kept (count n) now offset whole kept =
    IsSuffix kept whole × (length kept ≡ (if ltb n (length whole) then n else length whole))
Kept (size m) now offset whole kept =
    IsSuffix kept whole
    × (payload_sum kept ≤ m)
    × ((k : ℕ) → (m < payload_sum (drop k whole)) ⊎ (length (drop k whole) ≤ length kept))
Kept (ttl d) now offset whole kept =
    (e : LogEntry) → Memᴰ e kept ↔ (Memᴰ e whole × (age now e ≤ℤ as_i64 (d / 1_000_000)))
Kept latest now offset whole kept =
    (e : LogEntry) → Memᴰ e kept ↔ (Memᴰ e whole × (e.offset ≡ offset))
Kept durable now offset whole kept =
    IsSuffix kept whole
    × (length kept ≡ (if ltb 10_000 (length whole) then 10_000 else length whole))

total_payload-sum : (log : List LogEntry) → total_payload log ≡ payload_sum log
unfolding total_payload
total_payload-sum [] = refl
total_payload-sum (e ∷ es) = omega (arith, total_payload-sum es)

passes_if : {A B P Q : Type 0} → A ↔ (B × P) → P ↔ Q → A ↔ (B × Q)
passes_if f g = (λ a. let (b, p) = f.0 a in (b, g.0 p), λ (b, q). f.1 (b, g.1 q))

is_fresh_if :
    (now ttl_ms : ℤ) (e : LogEntry) → (is_fresh now ttl_ms e ≡ true) ↔ (age now e ≤ℤ ttl_ms)
is_fresh_if now ttl_ms e = ground arith

apply_retention-Kept :
    (r : RetentionPolicy) (now offset : ℤ) (log : List LogEntry)
    → Kept r now offset log (apply_retention r now offset log)
unfolding apply_retention
apply_retention-Kept nothing now offset log = refl
apply_retention-Kept (count n) now offset log = (keep_last-IsSuffix n log, length-keep_last n log)
apply_retention-Kept (size m) now offset log = (
  evicted-IsSuffix m log,
  omega (arith, total_payload-evicted m log, total_payload-sum (evicted m log)),
  λ k. ground (arith, evicted_longest m k log, total_payload-sum (drop k log)),
)
apply_retention-Kept (ttl d) now offset log =
    λ e. passes_if (In-retain _ e log) (is_fresh_if now (as_i64 (as_millis d)) e)
apply_retention-Kept latest now offset log =
    λ e. passes_if (In-retain _ e log) (eqb_ℤ_iff e.offset offset)
apply_retention-Kept durable now offset log =
    (keep_last-IsSuffix durable_memory_cap log, length-keep_last durable_memory_cap log)

-- After `append` the log is what its policy promises of the old log with the entry at the end, appended
-- now, and of this time if it had none: nothing; the last `n`, or all if there are fewer; the longest suffix whose payloads are
-- within the limit; exactly the entries that were appended no longer ago than the time to live, on 64 bits; exactly
-- those with the new entry's offset; or, for durable topics, the last 10,000.
pub append-Kept :
    (t : TopicEntry) (now : ℤ) (e : LogEntry)
    → Kept t.profile.retention now e.offset (t.log ++ filed now e ∷ []) (append t now e).log
unfolding append stamp
append-Kept t now e =
    apply_retention-Kept t.profile.retention now e.offset (t.log ++ stamp now e ∷ [])

apply_retention-Ascending :
    (r : RetentionPolicy) (now offset : ℤ) (log : List LogEntry)
    → Ascending log
    → Ascending (apply_retention r now offset log)
unfolding apply_retention
apply_retention-Ascending nothing now offset log h = tt
apply_retention-Ascending (count n) now offset log h =
    let (front, eq) = keep_last-IsSuffix n log in Ascending-suffix front _ (rw eq at h)
apply_retention-Ascending (size m) now offset log h =
    let (front, eq) = evicted-IsSuffix m log in Ascending-suffix front _ (rw eq at h)
apply_retention-Ascending (ttl d) now offset log h = Ascending-retain _ log h
apply_retention-Ascending latest now offset log h = Ascending-retain _ log h
apply_retention-Ascending durable now offset log h =
    let (front, eq) = keep_last-IsSuffix durable_memory_cap log in
    Ascending-suffix front _ (rw eq at h)

-- If the offsets rise along the log and the new entry's offset is above them all, they rise along
-- the log after `append` too, under every policy.
pub append-Ascending :
    (t : TopicEntry) (now : ℤ) (e : LogEntry)
    → Ascending t.log
    → All (λ d. d.offset <ℤ e.offset) t.log
    → Ascending (append t now e).log
unfolding append stamp
append-Ascending t now e h above =
    apply_retention-Ascending t.profile.retention now e.offset _
      (Ascending-snoc t.log (stamp now e) h above)

-- A policy that keeps the entry just appended.
abbrev pub KeepsNewest : RetentionPolicy → LogEntry → Type 0
KeepsNewest nothing e = ⊥
KeepsNewest (count n) e = 0 < n
KeepsNewest (size m) e = payload_len e ≤ m
KeepsNewest (ttl d) e = as_millis d < 2 ^ 63
KeepsNewest latest e = Unit
KeepsNewest durable e = Unit

last?-IsSuffix :
    (xs : List LogEntry) (x : LogEntry) (ys : List LogEntry)
    → IsSuffix ys (xs ++ x ∷ [])
    → 0 < length ys
    → last? ys ≡ some x
last?-IsSuffix xs x [] (front, eq) h = absurd (omega arith)
last?-IsSuffix xs x (y ∷ ys) (front, eq) h =
    sym (last?-suffix front y ys) ∙ (ap last? (sym eq) ∙ last?-append xs x)

last?-retain :
    (p : LogEntry → Bool) (xs : List LogEntry) (x : LogEntry)
    → p x ≡ true
    → last? (retain p (xs ++ x ∷ [])) ≡ some x
last?-retain p xs x h = rw (retain-snoc p xs x h) (last?-append (retain p xs) x)

drop-length : (xs ys : List LogEntry) → drop (length xs) (xs ++ ys) ≡ ys
drop-length [] ys = refl
drop-length (x ∷ xs) ys = drop-length xs ys

age_of_new : (now : ℤ) (d : ℕ) → d < 2 ^ 63 → leb_ℤ (i64_sub now now) (as_i64 d) ≡ true
unfolding i64_sub as_i64 as_u64 ◌-ℤ◌
age_of_new now d h = ground arith

keep_last-newest :
    (n : ℕ) (xs : List LogEntry) (x : LogEntry)
    → 0 < n
    → last? (keep_last n (xs ++ x ∷ [])) ≡ some x
keep_last-newest n xs x h =
    last?-IsSuffix xs x _ (keep_last-IsSuffix n (xs ++ x ∷ []))
      (ground (arith, length-keep_last n (xs ++ x ∷ []), length-append xs (x ∷ [])))

evicted-newest :
    (m : ℕ) (xs : List LogEntry) (x : LogEntry)
    → payload_len x ≤ m
    → last? (evicted m (xs ++ x ∷ [])) ≡ some x
unfolding total_payload
evicted-newest m xs x h = last?-IsSuffix xs x _ (evicted-IsSuffix m (xs ++ x ∷ [])) nonempty
  where
    alone : drop (length xs) (xs ++ x ∷ []) ≡ x ∷ []
    alone = drop-length xs (x ∷ [])

    fits : total_payload (drop (length xs) (xs ++ x ∷ [])) ≤ m
    fits = rw alone (omega arith)

    nonempty : 0 < length (evicted m (xs ++ x ∷ []))
    nonempty = ground (arith, evicted_longest m (length xs) (xs ++ x ∷ []), fits, ap length alone)

apply_retention-newest :
    (r : RetentionPolicy) (now : ℤ) (xs : List LogEntry) (x : LogEntry)
    → KeepsNewest r x
    → x.appended_at ≡ some now
    → last? (apply_retention r now x.offset (xs ++ x ∷ [])) ≡ some x
unfolding apply_retention
apply_retention-newest nothing now xs x h at = absurd h
apply_retention-newest (count n) now xs x h at = keep_last-newest n xs x h
apply_retention-newest (size m) now xs x h at = evicted-newest m xs x h
apply_retention-newest (ttl d) now xs x h at =
    last?-retain _ xs x (ground (arith, age_of_new now (as_millis d) h))
apply_retention-newest latest now xs x h at =
    last?-retain _ xs x ((eqb_ℤ_iff x.offset x.offset).1 refl)
apply_retention-newest durable now xs x h at =
    keep_last-newest durable_memory_cap xs x (omega arith)

-- Under a policy that keeps the new entry (a positive count, a size limit that the payload fits, a
-- time to live below 2 ^ 63 milliseconds, latest, durable) the entry, stamped, is the last of the
-- log after `append`, and its offset is the head offset; and it is the snapshot if the profile
-- enables snapshots.
pub append_newest :
    (t : TopicEntry) (now : ℤ) (e : LogEntry)
    → KeepsNewest t.profile.retention e
    → (last? (append t now e).log ≡ some (stamp now e))
      × (head_offset (append t now e) ≡ e.offset)
      × ((append t now e).latest_snapshot
          ≡ (if t.profile.snapshot_enabled then some (stamp now e) else t.latest_snapshot))
unfolding append head_offset
append_newest t now e h = (newest, ap offset_or_zero newest, refl)
  where
    newest :
        last? (apply_retention t.profile.retention now e.offset (t.log ++ stamp now e ∷ []))
        ≡ some (stamp now e)
    newest =
        apply_retention-newest t.profile.retention now t.log (stamp now e)
          (kept t.profile.retention h) refl
      where
        kept : (r : RetentionPolicy) → KeepsNewest r e → KeepsNewest r (stamp now e)
        kept nothing k = k
        kept (count n) k = k
        kept (size m) k = k
        kept (ttl d) k = k
        kept latest k = k
        kept durable k = k

-- `range` keeps the order of the log: if the offsets rise along the log, they rise along the result.
pub range-Ascending : (t : TopicEntry) (from to : ℤ) → Ascending t.log → Ascending (range t from to)
unfolding range
range-Ascending t from to h = Ascending-retain _ t.log h

-- `range` returns exactly the entries of the log whose offset is at least `from` and below `to`.
pub range_exact :
    (t : TopicEntry) (from to : ℤ) (e : LogEntry)
    → Memᴰ e (range t from to) ↔ (Memᴰ e t.log × (from ≤ℤ e.offset) × (e.offset <ℤ to))
unfolding range
range_exact t from to e = (λ m. inside m, λ m. outside m)
  where
    members :
        Memᴰ e (retain (in_range from to) t.log) ↔ (Memᴰ e t.log × (in_range from to e ≡ true))
    members = In-retain (in_range from to) e t.log

    inside :
        Memᴰ e (retain (in_range from to) t.log)
        → Memᴰ e t.log × (from ≤ℤ e.offset) × (e.offset <ℤ to)
    inside m = let (there, test) = members.0 m in (there, ground arith, ground arith)

    outside :
        Memᴰ e t.log × (from ≤ℤ e.offset) × (e.offset <ℤ to)
        → Memᴰ e (retain (in_range from to) t.log)
    outside (there, low, high) = members.1 (there, ground arith)
