-- ===== src/Ack/Bounds.antt =====
-- rifts-core/src/ack/mod.rs: the caps on what an `AckManager` holds.
use rifts.Prelude.{
  ℕ, ◌≤◌, ◌<◌, ◌≡◌, refl, ◌⊎◌, inl, inr, String, true, not, ◌&&◌, Option, none, some, length, leb,
  arith, string_eq, Bool-cases,
}
use rifts.Prelude.Int.{ℤ}
use rifts.Prelude.Map.{
  Map, lookup, insert, remove, contains_key, length-insert, length-remove, IsMap, insert-IsMap,
  remove-IsMap, AllValues, insert-AllValues, remove-AllValues, lookup-AllValues,
}
use rifts.Prelude.Reap.{keys_where, remove_all, length-remove_all, remove_all-IsMap}
use rifts.Ack.{
  AckManager, default_max_sessions, bucket, set_bucket, deadline_of, track, complete, complete_in,
  is_late, reap_timeouts, reap_in, forget,
}

-- The messages of one session: each once, and within the cap.
pub record IsBucket (max : ℕ) (entries : Map String ℤ) : Type 0 where
  pub unique : IsMap entries
  pub capped : length entries ≤ max

pub record IsManager (m : AckManager) : Type 0 where
  pub sessions : IsMap m.outstanding
  pub few : length m.outstanding ≤ default_max_sessions
  pub each : AllValues (IsBucket m.max_outstanding_per_session) m.outstanding

bucket-IsBucket :
    (m : AckManager) (session : String)
    → IsManager m
    → IsBucket m.max_outstanding_per_session (bucket (lookup session m.outstanding))
bucket-IsBucket m session h = go (lookup session m.outstanding) refl
  where
    go :
        (o : Option (Map String ℤ))
        → lookup session m.outstanding ≡ o
        → IsBucket m.max_outstanding_per_session (bucket o)
    go none e = record { unique = tt; capped = omega arith }
    go (some entries) e = lookup-AllValues (IsBucket _) session entries m.outstanding h.each e

set_bucket-IsManager :
    (m : AckManager) (session : String) (entries : Map String ℤ)
    → (contains_key session m.outstanding ≡ true) ⊎ (length m.outstanding < default_max_sessions)
    → IsBucket m.max_outstanding_per_session entries
    → IsManager m
    → IsManager (set_bucket m session entries)
set_bucket-IsManager m session entries room b h = record {
  sessions = insert-IsMap session entries m.outstanding h.sessions;
  few = ground (arith, room, h.few, length-insert session entries m.outstanding);
  each = insert-AllValues (IsBucket _) session entries m.outstanding b h.each;
}

track-IsManager :
    (m : AckManager) (now : ℤ) (session message_id : String) (timeout : ℕ)
    → IsManager m
    → IsManager (track m now session message_id timeout).0
unfolding track
track-IsManager m now session message_id timeout h =
    let entries = bucket (lookup session m.outstanding) in
    let b = bucket-IsBucket m session h in
    elim (Bool-cases (
      not (contains_key session m.outstanding)
      && leb default_max_sessions (length m.outstanding))) [
        | inl flooded ↦ rw flooded h
        | inr free ↦
            let room : (contains_key session m.outstanding ≡ true)
                ⊎ (length m.outstanding < default_max_sessions) =
              ground (arith, free) in
            elim (Bool-cases (leb m.max_outstanding_per_session (length entries))) [
              | inl full ↦ rw (free, full) (set_bucket-IsManager m session entries room b h)
              | inr below ↦
                  rw (free, below)
                    (set_bucket-IsManager m session
                      (insert message_id (deadline_of now timeout) entries) room
                      (record {
                        unique = insert-IsMap message_id (deadline_of now timeout) entries b.unique;
                        capped = ground (
                          arith,
                          below,
                          length-insert message_id (deadline_of now timeout) entries,
                        );
                      })
                      h)
            ]
      ]

complete-IsManager :
    (m : AckManager) (session message_id : String)
    → IsManager m
    → IsManager (complete m session message_id).0
unfolding complete
complete-IsManager m session message_id h = go (lookup session m.outstanding) refl
  where
    go :
        (o : Option (Map String ℤ))
        → lookup session m.outstanding ≡ o
        → IsManager (complete_in o m session message_id).0
    go none e = h
    go (some entries) e =
        let b = lookup-AllValues (IsBucket _) session entries m.outstanding h.each e in
        set_bucket-IsManager m session (remove message_id entries) (inl (ground (arith, e)))
          (record {
            unique = remove-IsMap message_id entries b.unique;
            capped = ground (arith, b.capped, length-remove message_id entries);
          })
          h

reap_timeouts-IsManager :
    (m : AckManager) (now : ℤ) (session : String)
    → IsManager m
    → IsManager (reap_timeouts m now session).0
unfolding reap_timeouts
reap_timeouts-IsManager m now session h = go (lookup session m.outstanding) refl
  where
    go :
        (o : Option (Map String ℤ))
        → lookup session m.outstanding ≡ o
        → IsManager (reap_in o m now session).0
    go none e = h
    go (some entries) e =
        let b = lookup-AllValues (IsBucket _) session entries m.outstanding h.each e in
        let late = keys_where (is_late now) entries in
        set_bucket-IsManager m session (remove_all late entries) (inl (ground (arith, e)))
          (record {
            unique = remove_all-IsMap late entries b.unique;
            capped = ground (arith, b.capped, length-remove_all late entries);
          })
          h

forget-IsManager : (m : AckManager) (session : String) → IsManager m → IsManager (forget m session)
unfolding forget
forget-IsManager m session h = record {
  sessions = remove-IsMap session m.outstanding h.sessions;
  few = ground (arith, h.few, length-remove session m.outstanding);
  each = remove-AllValues (IsBucket _) session m.outstanding h.each;
}

-- No session has more outstanding messages than its cap, no message twice, and no more than 100,000
-- sessions are tracked, after a call of `track`, `complete`, `reap_timeouts` or `forget` on a manager
-- of which this holds.
pub calls-IsManager :
    (m : AckManager) (now : ℤ) (session message_id : String) (timeout : ℕ)
    → IsManager m
    → IsManager (track m now session message_id timeout).0
      × IsManager (complete m session message_id).0
      × IsManager (reap_timeouts m now session).0
      × IsManager (forget m session)
calls-IsManager m now session message_id timeout h = (
  track-IsManager m now session message_id timeout h,
  complete-IsManager m session message_id h,
  reap_timeouts-IsManager m now session h,
  forget-IsManager m session h,
)
