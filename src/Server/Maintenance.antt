-- ===== src/Server/Maintenance.antt =====
-- rifts/src/server.rs: what a round of the maintenance leaves.
use rifts.Prelude.{ℕ, ◌≡◌, String, none, some, if◌then◌else◌, string_eq, pair_eq}
use rifts.Prelude.Int.{ℤ, leb_ℤ, ◌≤ℤ◌}
use rifts.Prelude.Map.{IsMap}
use rifts.Ack.Bounds.{IsManager}
use rifts.Ack.Timeouts.{deadline}
use rifts.Ack.ReapAll.{reap_all_timeouts_exact}
use rifts.Session.Store.{get, is_expired}
use rifts.Session.Store.Laws.{IsStore, expire_sessions_exact}
use rifts.Storage.Dedupe.{check_and_record, sweep_invisible}
use rifts.Broker.Memory.{maintain}
use rifts.Server.{RiftServer, maintenance}

-- What the server keeps in order: no key twice.
pub record IsTidy (s : RiftServer) : Type 0 where
  pub dedupe : IsMap s.broker.dedupe
  pub sessions : IsStore s.session_store
  pub acks : IsManager s.ack_manager

-- After a round of the maintenance a session is found exactly if it was and has not expired; a message
-- awaits its acknowledgement, with the deadline it had, exactly if it did and the deadline has not
-- passed; and no later check for a duplicate can tell that there was a sweep.
pub maintenance_exact :
    (s : RiftServer) (at_sweep at_expiry at_reap later : ℤ) (session message_id topic key : String)
    (window : ℕ)
    → IsTidy s
    → at_sweep ≤ℤ later
    → let left = (maintenance at_sweep at_expiry at_reap s).0 in
      (get left.session_store session ≡ elim (get s.session_store session) [
        | none ↦ none
        | some t ↦ if is_expired at_expiry s.config.idle_timeout t then none else some t
      ])
      × (deadline left.ack_manager session message_id
          ≡ elim (deadline s.ack_manager session message_id) [
            | none ↦ none
            | some d ↦ if leb_ℤ d at_reap then none else some d
          ])
      × ((check_and_record left.broker.dedupe later topic key window).1
          ≡ (check_and_record s.broker.dedupe later topic key window).1)
unfolding maintenance maintain
maintenance_exact s at_sweep at_expiry at_reap later session message_id topic key window h order = (
  (expire_sessions_exact at_expiry s.config.idle_timeout s.session_store session h.sessions).0,
  reap_all_timeouts_exact s.ack_manager at_reap session message_id h.acks,
  sweep_invisible s.broker.dedupe at_sweep later topic key window h.dedupe order,
)
