-- ===== src/Storage/Keys.antt =====
-- rifts-storage/src/encode.rs: the keys of the persistent stores. A text is the list of its bytes.
pub mod Order
pub mod Isolation
use rifts.Prelude.{ℕ, zero, suc, ◌+◌, ◌-◌, ◌/◌, ◌%◌, List, [], ◌∷◌, ◌++◌}
use rifts.Prelude.Int.{ℤ, pos, negsuc}

-- `SEP`.
abbrev pub sep : ℕ
sep = 0

-- `format!("{:0w$}")` of a number of at most `w` digits.
unfoldable pub digits : (w n : ℕ) → List ℕ
digits zero n = []
digits (suc w) n = digits w (n / 10) ++ (b'0' + n % 10) ∷ []

-- `{offset:020}`: the sign counts to the width.
unfoldable pub padded : ℤ → List ℕ
unfolding digits
padded (pos n) = digits 20 n
padded (negsuc n) = b'-' ∷ digits 19 (n + 1)

-- `offset_prefix`, `log_prefix`, `dedupe_prefix` and `snapshot_prefix`, which are the same.
unfoldable pub topic_prefix : (topic : List ℕ) → List ℕ
topic_prefix topic = topic ++ sep ∷ []

unfoldable pub offset_key : (topic : List ℕ) → List ℕ
offset_key topic = topic ++ sep ∷ b'h' ∷ b'e' ∷ b'a' ∷ b'd' ∷ []

unfoldable pub log_key : (topic : List ℕ) → (offset : ℤ) → List ℕ
unfolding padded
log_key topic offset = topic ++ sep ∷ padded offset

unfoldable pub log_range_start : (topic : List ℕ) → (from : ℤ) → List ℕ
unfolding log_key
log_range_start topic from = log_key topic from

unfoldable pub log_range_end : (topic : List ℕ) → (to : ℤ) → List ℕ
unfolding log_key
log_range_end topic to = log_key topic to ++ 0xFF ∷ []

unfoldable pub dedupe_key : (topic message_id : List ℕ) → List ℕ
dedupe_key topic message_id = topic ++ sep ∷ (message_id ++ sep ∷ [])

unfoldable pub snapshot_key : (topic snapshot_id : List ℕ) → List ℕ
snapshot_key topic snapshot_id = topic ++ sep ∷ snapshot_id
