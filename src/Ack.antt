-- ===== src/Ack.antt =====
-- rifts-core/src/ack/mod.rs: acknowledgements and the messages that await one. The map of
-- `AckManager` is behind a mutex, so a method is one step; `now` stands for the result of `now_ms()`.
-- The id of an `Ack` is a fresh UUID of a library and is an argument.
pub mod Bounds
pub mod Timeouts
pub mod ReapAll
use rifts.Prelude.{
  ℕ, ◌+◌, ◌-◌, ◌^◌, String, Bool, true, false, not, ◌&&◌, Option, none, some, List, [], ◌∷◌, length,
  leb, ltb, if◌then◌else◌, string_eq, is_some,
}
use rifts.Prelude.Int.{ℤ, pos, ltb_ℤ, leb_ℤ, ◌+ℤ◌}
use rifts.Prelude.Map.{Map, lookup, insert, remove, contains_key}
use rifts.Prelude.Reap.{keys_where, remove_all}
use rifts.Topic.Policy.{as_millis}

pub data AckStatus : Type 0 where
  received accepted persisted delivered processed rejected expired duplicate failed : AckStatus

unfoldable pub as_str : AckStatus → String
as_str received = "received"
as_str accepted = "accepted"
as_str persisted = "persisted"
as_str delivered = "delivered"
as_str processed = "processed"
as_str rejected = "rejected"
as_str expired = "expired"
as_str duplicate = "duplicate"
as_str failed = "failed"

pub data AckPolicy : Type 0 where
  no_ack server persisted quorum subscriber application : AckPolicy

pub record Ack : Type 0 where
  pub ack_id : String
  pub message_id : String
  pub status : AckStatus
  pub offset : Option ℤ
  pub reason : Option String
  pub error_code : Option String
  pub retry_after_ms : Option ℕ
  pub server_time : ℤ

abbrev pub new_ack : (now : ℤ) → (ack_id message_id : String) → AckStatus → Ack
new_ack now ack_id message_id status = record {
  ack_id = ack_id;
  message_id = message_id;
  status = status;
  offset = none;
  reason = none;
  error_code = none;
  retry_after_ms = none;
  server_time = now;
}

abbrev pub with_offset : Ack → ℤ → Ack
with_offset a offset = record a { offset = some offset }

abbrev pub with_reason : Ack → String → Ack
with_reason a reason = record a { reason = some reason }

abbrev pub default_max_outstanding_per_session : ℕ
default_max_outstanding_per_session = 10_000

abbrev pub default_max_sessions : ℕ
default_max_sessions = 100_000

pub record AckManager : Type 0 where
  pub outstanding : Map String (Map String ℤ)
  pub max_outstanding_per_session : ℕ

abbrev pub with_capacity : ℕ → AckManager
with_capacity max = record { outstanding = []; max_outstanding_per_session = max }

-- `try_into().unwrap_or(i64::MAX)` of the milliseconds, and `saturating_add`.
abbrev pub max_i64 : ℤ
max_i64 = pos (2 ^ 63 - 1)

abbrev pub clamp : ℤ → ℤ
clamp z = if ltb_ℤ max_i64 z then max_i64 else z

unfoldable pub deadline_of : (now : ℤ) → (timeout : ℕ) → ℤ
deadline_of now timeout = clamp (now +ℤ clamp (pos (as_millis timeout)))

abbrev pub bucket : Option (Map String ℤ) → Map String ℤ
bucket none = []
bucket (some entries) = entries

abbrev pub set_bucket : AckManager → String → Map String ℤ → AckManager
set_bucket m session entries = record m { outstanding = insert session entries m.outstanding }

unfoldable pub track :
    AckManager → (now : ℤ) → (session message_id : String) → (timeout : ℕ) → AckManager × Bool
unfolding deadline_of
track m now session message_id timeout =
    let entries = bucket (lookup session m.outstanding) in
    if not (contains_key session m.outstanding) && leb default_max_sessions (length m.outstanding)
    then (m, false)
    else if leb m.max_outstanding_per_session (length entries)
    then (set_bucket m session entries, false)
    else (set_bucket m session (insert message_id (deadline_of now timeout) entries), true)

-- The bucket stays, also when it is empty now.
abbrev pub complete_in :
    Option (Map String ℤ) → AckManager → (session message_id : String) → AckManager × Bool
complete_in none m session message_id = (m, false)
complete_in (some entries) m session message_id =
    (set_bucket m session (remove message_id entries), is_some (lookup message_id entries))

unfoldable pub complete : AckManager → (session message_id : String) → AckManager × Bool
complete m session message_id = complete_in (lookup session m.outstanding) m session message_id

abbrev pub is_late : (now : ℤ) → String → ℤ → Bool
is_late now _ deadline = leb_ℤ deadline now

abbrev pub reap_in :
    Option (Map String ℤ) → AckManager → (now : ℤ) → (session : String) → AckManager × List String
reap_in none m now session = (m, [])
reap_in (some entries) m now session =
    let late = keys_where (is_late now) entries in
    (set_bucket m session (remove_all late entries), late)

unfoldable pub reap_timeouts :
    AckManager → (now : ℤ) → (session : String) → AckManager × List String
reap_timeouts m now session = reap_in (lookup session m.outstanding) m now session

unfoldable pub forget : AckManager → (session : String) → AckManager
forget m session = record m { outstanding = remove session m.outstanding }

-- The loop over the buckets: what is left of each, how many entries went, and the sessions left
-- with nothing.
unfoldable pub reap_buckets :
    (now : ℤ) → Map String (Map String ℤ) → Map String (Map String ℤ) × ℕ × List String
reap_buckets now [] = ([], 0, [])
reap_buckets now ((session, entries) ∷ rest) =
    let late = keys_where (is_late now) entries in
    let left = remove_all late entries in
    let (others, total, empty) = reap_buckets now rest in
    (
      (session, left) ∷ others,
      length late + total,
      if leb (length left) 0 then session ∷ empty else empty,
    )

unfoldable pub reap_all_timeouts : AckManager → (now : ℤ) → AckManager × ℕ
unfolding reap_buckets
reap_all_timeouts m now =
    let (buckets, total, empty) = reap_buckets now m.outstanding in
    (record m { outstanding = remove_all empty buckets }, total)
