-- ===== src/Examples/Acks.antt =====
-- Inputs for rifts-core/src/ack/mod.rs.
use rifts.Prelude.{refl, [], ◌∷◌, string_eq, arith}
use rifts.Prelude.Int.{pos}
use rifts.Prelude.Map.{lookup}
use rifts.Ack.{AckManager, with_capacity, track, complete, reap_timeouts, forget}
use rifts.Ack.Bounds.{IsManager, calls-IsManager}

abbrev manager : AckManager
manager = record (with_capacity 2) {
  outstanding = ("s", ("m1", pos 10) ∷ ("m2", pos 30) ∷ []) ∷ [];
}

manager-IsManager : IsManager manager
unfolding lookup
manager-IsManager = record {
  sessions = (refl, tt);
  few = omega arith;
  each = (record { unique = (refl, (refl, tt)); capped = omega arith }, tt);
}

calls-IsManager_example :
    IsManager (track manager (pos 5) "r" "m3" 7).0
    × IsManager (complete manager "r" "m3").0
    × IsManager (reap_timeouts manager (pos 5) "r").0
    × IsManager (forget manager "r")
calls-IsManager_example = calls-IsManager manager (pos 5) "r" "m3" 7 manager-IsManager
