-- ===== src/Storage/Keys/Isolation.antt =====
-- rifts-storage/src/encode.rs: the prefix of a topic matches the keys of that topic alone.
use rifts.Prelude.{
  ℕ, ◌≡◌, ◌≢◌, refl, false, List, [], ◌∷◌, ◌++◌, All, ◌==◌, nat_eq, list_eq, list_beq, some, arith,
}
use rifts.Prelude.Int.{ℤ}
use rifts.Prelude.Map.{insert, lookup-insert}
use rifts.Storage.Engine.{MemoryEngine, bytes_eq, get, put, starts_with, scan_prefix}
use rifts.Storage.Keys.{sep, padded, topic_prefix, offset_key, log_key, dedupe_key, snapshot_key}

-- A topic name has no control character, so no separator.
abbrev pub IsClean : List ℕ → Type 0
IsClean topic = All (λ b. b ≢ sep) topic

prefix_exact :
    (a b rest : List ℕ)
    → IsClean a
    → IsClean b
    → starts_with (a ++ sep ∷ []) (b ++ sep ∷ rest) ≡ (a == b)
unfolding starts_with list_beq
prefix_exact [] [] rest h k = refl
prefix_exact [] (y ∷ b) rest h k = ground arith
prefix_exact (x ∷ a) [] rest h k = ground arith
prefix_exact (x ∷ a) (y ∷ b) rest h k = ground (arith, prefix_exact a b rest h.1 k.1)

-- The prefix of a topic matches a key of any of the four stores exactly when it is a key of that
-- topic, for topic names without the separator.
pub topic_prefix_exact :
    (a b id : List ℕ) (offset : ℤ)
    → IsClean a
    → IsClean b
    → (starts_with (topic_prefix a) (offset_key b) ≡ (a == b))
      × (starts_with (topic_prefix a) (log_key b offset) ≡ (a == b))
      × (starts_with (topic_prefix a) (dedupe_key b id) ≡ (a == b))
      × (starts_with (topic_prefix a) (snapshot_key b id) ≡ (a == b))
unfolding topic_prefix offset_key log_key dedupe_key snapshot_key
topic_prefix_exact a b id offset h k = (
  prefix_exact a b (b'h' ∷ b'e' ∷ b'a' ∷ b'd' ∷ []) h k,
  prefix_exact a b (padded offset) h k,
  prefix_exact a b (id ++ sep ∷ []) h k,
  prefix_exact a b id h k,
)

retain-insert :
    (p key value : List ℕ) (e : MemoryEngine)
    → starts_with p key ≡ false
    → scan_prefix (put e key value).0 p ≡ scan_prefix e p
unfolding scan_prefix put insert
retain-insert p key value [] h = ground arith
retain-insert p key value ((k, v) ∷ e) h =
    ground (arith, bytes_eq.beq_iff k key, retain-insert p key value e h)

-- Writing an entry of one topic's log leaves what the scan of another topic's prefix returns, and
-- the entry itself is read back.
pub scan_prefix-put :
    (a b value : List ℕ) (offset : ℤ) (e : MemoryEngine)
    → IsClean a
    → IsClean b
    → a ≢ b
    → (scan_prefix (put e (log_key b offset) value).0 (topic_prefix a)
        ≡ scan_prefix e (topic_prefix a))
      × (get (put e (log_key b offset) value).0 (log_key b offset) ≡ some value)
unfolding put get
scan_prefix-put a b value offset e h k differs = (
  retain-insert (topic_prefix a) (log_key b offset) value e
      (ground (arith, (topic_prefix_exact a b [] offset h k).1, bytes_eq.beq_iff a b)),
  ground (
    arith,
    lookup-insert (log_key b offset) (log_key b offset) value e,
    bytes_eq.beq_iff (log_key b offset) (log_key b offset),
  ),
)
