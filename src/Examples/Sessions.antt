-- ===== src/Examples/Sessions.antt =====
-- Inputs for rifts-session/src/session.
use rifts.Prelude.{
  ◌<◌, is_some, true, ◌≡◌, ◌≢◌, refl, ◌↔◌, ◌⊎◌, ◌≤◌, String, none, some, [], ◌∷◌, All, length,
  string_eq, arith,
}
use rifts.Prelude.Int.{ℤ, pos, ◌-ℤ◌}
use rifts.Prelude.Map.{Map, lookup}
use rifts.Session.Lifecycle.{Session, SessionState}
use rifts.Session.Offsets.{OffsetTracker, record_offset, snapshot, get_offset}
use rifts.Session.Offsets.Laws.{IsTracker, Lost, get-record_offset}
use rifts.Session.Resume.{
  decide, full_resume, partial_resume, replaying, snapshot_required, cold_start, rejected,
}
use rifts.Session.Resume.Decisions.{Within, Close, Level, decide_exact}
use rifts.Session.Store.{SessionStore, get}
use rifts.Session.Store.Laws.{IsStore}

abbrev tracker : OffsetTracker
tracker = ("s1", ("orders", pos 4) ∷ ("bills", pos 9) ∷ []) ∷ []

tracker-IsTracker : IsTracker tracker
unfolding lookup
tracker-IsTracker = record {
  sessions = (refl, tt);
  each = (record { unique = (refl, (refl, tt)); capped = omega arith }, tt);
}

get-record_offset_example :
    let h = record_offset tracker "s1" "mail" (pos 1) in
    (get_offset h "s1" "mail" ≡ some (pos 1))
    × (◌≡◌ {A = String} "s1" "s2" ⊎ (get_offset h "s2" "bills" ≡ get_offset tracker "s2" "bills"))
    × ((((length (snapshot tracker "s1") < 1024)
            ⊎ (is_some (get_offset tracker "s1" "mail") ≡ true))
          × (◌≡◌ {A = String} "mail" "bills"
              ⊎ (get_offset h "s1" "bills" ≡ get_offset tracker "s1" "bills")))
        ⊎ ((1024 ≤ length (snapshot tracker "s1"))
            × (get_offset tracker "s1" "mail" ≡ none)
            × Lost tracker h "s1" "mail" "bills"))
    × IsTracker h
get-record_offset_example =
    get-record_offset tracker "s1" "mail" (pos 1) "s2" "bills" tracker-IsTracker

abbrev reached : Map String ℤ
reached = ("orders", pos 4) ∷ ("bills", pos 9) ∷ []

abbrev heads : Map String ℤ
heads = ("bills", pos 9) ∷ ("orders", pos 5) ∷ []

one_behind : decide reached heads ≡ replaying
unfolding decide lookup ◌-ℤ◌
one_behind = refl

decide_exact_example :
    ((decide reached heads ≡ cold_start) ↔ (reached ≡ []))
    × ((decide reached heads ≡ full_resume) ↔ ((reached ≢ []) × All (Level heads) reached))
    × ((decide reached heads ≡ replaying)
        ↔ (All (Close heads) reached × (¬ All (Level heads) reached)))
    × ((decide reached heads ≡ partial_resume)
        ↔ (All (Within heads) reached × (¬ All (Close heads) reached)))
    × (((decide reached heads ≡ snapshot_required) ⊎ (decide reached heads ≡ rejected))
        ↔ (¬ All (Within heads) reached))
decide_exact_example = decide_exact reached heads

abbrev alice : Session
alice = record (rifts.Session.Lifecycle.new (pos 100) "s1" "alice") {
  state = SessionState.draining;
}

abbrev sessions : SessionStore
sessions = record { inner = ("s1", alice) ∷ []; offsets = tracker }

sessions-IsStore : IsStore sessions
unfolding get lookup
sessions-IsStore = record {
  unique = (refl, tt);
  filed = λ id s e. ground (arith, string_eq.beq_iff "s1" id, e);
}
