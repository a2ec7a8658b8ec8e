-- ===== src/Ack/ReapAll.antt =====
-- rifts-core/src/ack/mod.rs: reaping every session.
use rifts.Prelude.{
  ◌≡◌, refl, String, Bool, true, false, Option, none, some, [], ◌∷◌, length, leb, if◌then◌else◌,
  arith, string_eq,
}
use rifts.Prelude.Int.{ℤ, leb_ℤ}
use rifts.Prelude.Map.{Map, lookup, IsMap, lookup-AllValues}
use rifts.Prelude.Reap.{keys_where, remove_all, member, lookup-remove_all, lookup-reap}
use rifts.Ack.{AckManager, bucket, is_late, reap_buckets, reap_all_timeouts}
use rifts.Ack.Bounds.{IsBucket, IsManager}
use rifts.Ack.Timeouts.{deadline}

abbrev kept : (now : ℤ) → Map String ℤ → Map String ℤ
kept now entries = remove_all (keys_where (is_late now) entries) entries

-- What is left of a session's bucket.
abbrev kept_of : (now : ℤ) → Option (Map String ℤ) → Option (Map String ℤ)
kept_of now none = none
kept_of now (some entries) = some (kept now entries)

abbrev is_emptied : (now : ℤ) → Option (Map String ℤ) → Bool
is_emptied now none = false
is_emptied now (some entries) = leb (length (kept now entries)) 0

lookup-reap_buckets :
    (now : ℤ) (session : String) (o : Map String (Map String ℤ))
    → lookup session (reap_buckets now o).0 ≡ kept_of now (lookup session o)
unfolding reap_buckets lookup
lookup-reap_buckets now session [] = refl
lookup-reap_buckets now session ((s, entries) ∷ o) =
    ground (arith, lookup-reap_buckets now session o)

emptied :
    (now : ℤ) (session : String) (o : Map String (Map String ℤ))
    → IsMap o
    → let (buckets, total, empty) = reap_buckets now o in
      member session empty ≡ is_emptied now (lookup session o)
unfolding reap_buckets lookup
emptied now session [] h = refl
emptied now session ((s, entries) ∷ o) h =
    ground (arith, emptied now session o h.1, h.0, string_eq.beq_iff s session)

no_entries : (entries : Map String ℤ) → leb (length entries) 0 ≡ true → entries ≡ []
no_entries [] h = refl
no_entries (_ ∷ entries) h = ground (arith, h)

-- After every session is reaped, a message awaits its acknowledgement exactly if it did and its
-- deadline has not passed, and then has the deadline it had.
pub reap_all_timeouts_exact :
    (m : AckManager) (now : ℤ) (session message_id : String)
    → IsManager m
    → deadline (reap_all_timeouts m now).0 session message_id
      ≡ elim (deadline m session message_id) [
        | none ↦ none
        | some d ↦ if leb_ℤ d now then none else some d
      ]
unfolding reap_all_timeouts lookup
reap_all_timeouts_exact m now session message_id h = go (lookup session m.outstanding) refl
  where
    go :
        (o : Option (Map String ℤ))
        → lookup session m.outstanding ≡ o
        → deadline (reap_all_timeouts m now).0 session message_id
          ≡ elim (lookup message_id (bucket o)) [
            | none ↦ none
            | some d ↦ if leb_ℤ d now then none else some d
          ]
    go none e = ground (
      arith,
      e,
      lookup-reap_buckets now session m.outstanding,
      lookup-remove_all (reap_buckets now m.outstanding).2 session
          (reap_buckets now m.outstanding).0,
    )
    go (some entries) e =
        let b = lookup-AllValues (IsBucket _) session entries m.outstanding h.each e in
        ground (
          arith,
          e,
          lookup-reap_buckets now session m.outstanding,
          lookup-remove_all (reap_buckets now m.outstanding).2 session
              (reap_buckets now m.outstanding).0,
          emptied now session m.outstanding h.sessions,
          no_entries (kept now entries),
          lookup-reap (is_late now) message_id entries b.unique,
        )
