-- ===== src/Examples/Topics.antt =====
-- Inputs for rifts-core/src/topic.
use rifts.Prelude.{ℕ, ◌≡◌, refl, ◌⊎◌, ◌+◌, ◌≤◌, ◌<◌, none, List, [], ◌∷◌, length, drop, string_eq}
use rifts.Prelude.Int.{pos}
use rifts.Atomic.{
  System, Local, Trace, start, quiet, wins, load, exchange, update, init, loaded, won,
}
use rifts.Topic.Policy.{default_profile, size}
use rifts.Topic.Entry.{LogEntry, TopicEntry, new, append, slot_next}
use rifts.Topic.Entry.Log.{IsSuffix}
use rifts.Topic.Entry.Slots.{slots_interleaved}
use rifts.Topic.Entry.Append.{append-Kept, filed, payload_sum}
use rifts.Topic.Store.{TopicStore}

abbrev entry : ℕ → LogEntry
entry n = record {
  offset = pos n;
  publisher_session = none;
  message_id = "m";
  class = "event";
  event = none;
  payload = 1 ∷ 2 ∷ 3 ∷ [];
  timestamp = pos 0;
  appended_at = none;
}

abbrev small : TopicEntry
small = record (new "t" (record default_profile { retention = size 6; max_subscribers = 3 })) {
  log = entry 1 ∷ entry 2 ∷ [];
  subscriber_count = 2;
}

abbrev newest : LogEntry
newest = filed (pos 50) (entry 3)

append-Kept_example :
    IsSuffix (append small (pos 50) (entry 3)).log (entry 1 ∷ entry 2 ∷ newest ∷ [])
    × (payload_sum (append small (pos 50) (entry 3)).log ≤ 6)
    × ((k : ℕ)
        → (6 < payload_sum (drop k (entry 1 ∷ entry 2 ∷ newest ∷ [])))
          ⊎ (length (drop k (entry 1 ∷ entry 2 ∷ newest ∷ []))
              ≤ length (append small (pos 50) (entry 3)).log))
append-Kept_example = append-Kept small (pos 50) (entry 3)

abbrev unused : TopicEntry
unused = new "t" default_profile

abbrev after_load : System ℕ
after_load = record { cell = 2; locals = update (λ _. Local.idle) 0 (loaded 2) }

one_slot :
    Trace
      (λ _. slot_next 3)
      (init 2)
      (0 ∷ [])
      (record { cell = 3; locals = update after_load.locals 0 (won 2) })
unfolding slot_next
one_slot = wins 0 (quiet start (load 0 refl)) (exchange 2 3 refl refl refl)

slots_interleaved_example :
    (3 ≡ 2 + length {A = ℕ} (0 ∷ [])) × ((◌≡◌ {A = List ℕ} (0 ∷ []) []) ⊎ (3 ≤ 3))
slots_interleaved_example = slots_interleaved 3 2 one_slot

abbrev shop : TopicStore
shop = ("orders", unused) ∷ []
