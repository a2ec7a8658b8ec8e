-- ===== src/Session/Offsets.antt =====
-- rifts-session/src/session/offset_tracker.rs, `OffsetTracker`: the last offset of each topic, for
-- each session.
pub mod Room
pub mod Laws
use rifts.Prelude.{
  ℕ, String, Bool, true, false, ◌&&◌, not, Option, none, some, List, [], ◌∷◌, length, leb,
  if◌then◌else◌, string_eq,
}
use rifts.Prelude.Int.{ℤ, leb_ℤ}
use rifts.Prelude.Map.{Map, lookup, insert, remove, contains_key}

abbrev pub max_topics_per_session : ℕ
max_topics_per_session = 1024

abbrev pub OffsetTracker : Type 0
OffsetTracker = Map String (Map String ℤ)

-- `Option::unwrap_or_default` and `entry(..).or_default()`.
abbrev pub or_default : Option (Map String ℤ) → Map String ℤ
or_default none = []
or_default (some topics) = topics

-- `min_by_key(|(_, v)| *v)`: the first entry with the least offset.
abbrev pub lesser : String × ℤ → Option (String × ℤ) → Option (String × ℤ)
lesser x none = some x
lesser x (some y) = if leb_ℤ x.1 y.1 then some x else some y

unfoldable pub oldest : Map String ℤ → Option (String × ℤ)
oldest [] = none
oldest (x ∷ xs) = lesser x (oldest xs)

abbrev pub without_oldest : Option (String × ℤ) → Map String ℤ → Map String ℤ
without_oldest none topics = topics
without_oldest (some x) topics = remove x.0 topics

-- The topics of a session, with a place for one more.
unfoldable pub make_room : String → Map String ℤ → Map String ℤ
unfolding oldest
make_room topic topics =
    if leb max_topics_per_session (length topics) && not (contains_key topic topics)
    then without_oldest (oldest topics) topics
    else topics

unfoldable pub record_offset : OffsetTracker → (session topic : String) → ℤ → OffsetTracker
unfolding make_room
record_offset g session topic offset =
    insert session (insert topic offset (make_room topic (or_default (lookup session g)))) g

unfoldable pub snapshot : OffsetTracker → String → Map String ℤ
snapshot g session = or_default (lookup session g)

unfoldable pub get_offset : OffsetTracker → (session topic : String) → Option ℤ
get_offset g session topic = elim (lookup session g) [
  | none ↦ none
  | some topics ↦ lookup topic topics
]

unfoldable pub forget : OffsetTracker → String → OffsetTracker
forget g session = remove session g
