-- ===== src/Ack/Timeouts.antt =====
-- rifts-core/src/ack/mod.rs: what tracking, completing and reaping say of one message.
use rifts.Prelude.{
  ℕ, ◌≡◌, refl, String, true, false, Option, none, some, if◌then◌else◌, arith, string_eq,
}
use rifts.Prelude.Int.{ℤ, leb_ℤ}
use rifts.Prelude.Map.{Map, lookup, insert, remove, lookup-insert, lookup-remove, lookup-AllValues}
use rifts.Prelude.Reap.{keys_where, remove_all, member, lookup-reap, member-keys_where}
use rifts.Ack.{
  AckManager, bucket, set_bucket, deadline_of, track, complete, is_late, reap_timeouts, reap_in,
}
use rifts.Ack.Bounds.{IsBucket, IsManager}

-- The deadline of a message that awaits its acknowledgement.
abbrev pub deadline : AckManager → (session message_id : String) → Option ℤ
deadline m session message_id = lookup message_id (bucket (lookup session m.outstanding))

track-bucket :
    (m : AckManager) (now : ℤ) (session message_id : String) (timeout : ℕ)
    → (track m now session message_id timeout).1 ≡ true
    → (track m now session message_id timeout).0
      ≡ set_bucket m session
          (insert message_id (deadline_of now timeout) (bucket (lookup session m.outstanding)))
unfolding track
track-bucket m now session message_id timeout h = ground (arith, h)

complete-tracked :
    (m : AckManager) (session message_id : String) (entries : Map String ℤ) (d : ℤ)
    → lookup message_id entries ≡ some d
    → let tracked = set_bucket m session entries in
      let (done, found) = complete tracked session message_id in
      (deadline tracked session message_id ≡ some d)
      × (found ≡ true)
      × (deadline done session message_id ≡ none)
      × ((complete done session message_id).1 ≡ false)
unfolding complete
complete-tracked m session message_id entries d h = ground (
  arith,
  h,
  lookup-insert session session entries m.outstanding,
  lookup-insert session session (remove message_id entries) (insert session entries m.outstanding),
  lookup-remove message_id message_id entries,
  string_eq.beq_iff session session,
  string_eq.beq_iff message_id message_id,
)

-- A message that was tracked has its deadline, and completing it succeeds; completing it again does
-- not, and then it has no deadline any more.
pub track-complete :
    (m : AckManager) (now : ℤ) (session message_id : String) (timeout : ℕ)
    → (track m now session message_id timeout).1 ≡ true
    → let tracked = (track m now session message_id timeout).0 in
      let (done, found) = complete tracked session message_id in
      (deadline tracked session message_id ≡ some (deadline_of now timeout))
      × (found ≡ true)
      × (deadline done session message_id ≡ none)
      × ((complete done session message_id).1 ≡ false)
track-complete m now session message_id timeout h =
    let entries = bucket (lookup session m.outstanding) in
    let here : lookup message_id (insert message_id (deadline_of now timeout) entries)
        ≡ some (deadline_of now timeout) =
      ground (
        arith,
        lookup-insert message_id message_id (deadline_of now timeout) entries,
        string_eq.beq_iff message_id message_id,
      ) in
    rw (track-bucket m now session message_id timeout h) (
      complete-tracked m session message_id (insert message_id (deadline_of now timeout) entries) _
        here)

-- Reaping a session reports exactly the messages whose deadline has passed, forgets those and keeps
-- the rest with their deadlines.
pub reap_timeouts_exact :
    (m : AckManager) (now : ℤ) (session message_id : String)
    → IsManager m
    → let (left, late) = reap_timeouts m now session in
      (member message_id late
        ≡ elim (deadline m session message_id) [ none ↦ false | some d ↦ leb_ℤ d now ])
      × (deadline left session message_id ≡ elim (deadline m session message_id) [
        | none ↦ none
        | some d ↦ if leb_ℤ d now then none else some d
      ])
unfolding reap_timeouts lookup
reap_timeouts_exact m now session message_id h = go (lookup session m.outstanding) refl
  where
    go :
        (o : Option (Map String ℤ))
        → lookup session m.outstanding ≡ o
        → let (left, late) = reap_in o m now session in
          (member message_id late
            ≡ elim (deadline m session message_id) [ none ↦ false | some d ↦ leb_ℤ d now ])
          × (deadline left session message_id ≡ elim (deadline m session message_id) [
            | none ↦ none
            | some d ↦ if leb_ℤ d now then none else some d
          ])
    go none e = ground (arith, e)
    go (some entries) e =
        let b = lookup-AllValues (IsBucket _) session entries m.outstanding h.each e in
        let late = keys_where (is_late now) entries in
        ground (
          arith,
          e,
          member-keys_where (is_late now) message_id entries b.unique,
          lookup-reap (is_late now) message_id entries b.unique,
          lookup-insert session session (remove_all late entries) m.outstanding,
          string_eq.beq_iff session session,
        )
