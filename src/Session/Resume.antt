-- ===== src/Session/Resume.antt =====
-- rifts-session/src/session/offset_tracker.rs, `decide`, and resume.rs, `ResumeManager`.
pub mod Decisions
use rifts.Prelude.{
  ℕ, String, Bool, true, false, ◌&&◌, ◌||◌, Option, none, some, List, [], ◌∷◌, ◌^◌, ◌-◌,
  if◌then◌else◌, string_eq,
}
use rifts.Prelude.Int.{ℤ, pos, negsuc, ltb_ℤ, ◌-ℤ◌}
use rifts.Prelude.Map.{Map, lookup, insert}
use rifts.Errors.{SessionReject, in_session, Result, ok, err}
use rifts.Topic.Entry.{head_offset}
use rifts.Topic.Store.{TopicStore, get}
use rifts.Session.Lifecycle.{Session, is_alive}

pub data ResumeDecision : Type 0 where
  full_resume partial_resume replaying snapshot_required cold_start rejected : ResumeDecision

-- `i64::saturating_sub(1)`: the least `i64` stays as it is.
unfoldable pub pred : ℤ → ℤ
pred z = if ltb_ℤ (negsuc (2 ^ 63 - 1)) z then z -ℤ pos 1 else z

abbrev pub verdict : (any_behind all_within : Bool) → ResumeDecision
verdict any_behind all_within =
    if any_behind && all_within
    then replaying
    else if any_behind
    then partial_resume
    else full_resume

-- The loop over the client's offsets, with its two flags.
unfoldable pub scan : Map String ℤ → Map String ℤ → (any_behind all_within : Bool) → ResumeDecision
unfolding pred
scan [] heads any_behind all_within = verdict any_behind all_within
scan ((topic, last) ∷ offsets) heads any_behind all_within = elim (lookup topic heads) [
  | none ↦ snapshot_required
  | some head ↦
      if ltb_ℤ head last
      then rejected
      else (scan offsets heads (if ltb_ℤ last head then true else any_behind)
          (if ltb_ℤ last (pred head) then false else all_within))
]

unfoldable pub decide : (last_offsets topic_offsets : Map String ℤ) → ResumeDecision
unfolding scan
decide [] topic_offsets = cold_start
decide (x ∷ xs) topic_offsets = scan (x ∷ xs) topic_offsets false true

unfoldable pub evaluate :
    Session → (last_offsets topic_offsets : Map String ℤ) → Result ResumeDecision
unfolding decide is_alive
evaluate session last_offsets topic_offsets =
    if is_alive session
    then ok (decide last_offsets topic_offsets)
    else err (in_session SessionReject.expired)

-- The loop of `topic_offsets`, with the map collected so far.
unfoldable pub collect_heads : TopicStore → List String → Map String ℤ → Map String ℤ
unfolding get head_offset
collect_heads store [] out = out
collect_heads store (t ∷ ts) out =
    collect_heads store ts
      (elim (get store t) [ none ↦ out | some entry ↦ insert t (head_offset entry) out ])

unfoldable pub topic_offsets : TopicStore → List String → Map String ℤ
unfolding collect_heads
topic_offsets store topics = collect_heads store topics []
