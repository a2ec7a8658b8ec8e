-- ===== src/Connection/Greeting.antt =====
-- rifts-broker/src/connection/mod.rs: `Connection::handshake` from its first frame to its last, and
-- the start of `Connection::run`, which counts the connection and closes a transport whose handshake
-- fails.
use rifts.Prelude.{ℕ, String, Option, none, some, List, [], ◌∷◌, ◌++◌, if◌then◌else◌}
use rifts.Prelude.Int.{ℤ}
use rifts.Errors.{Result, ok, err, RiftError, in_auth}
use rifts.Json.{Json}
use rifts.Metrics.{Metrics, inc, dec}
use rifts.Config.{ServerConfig}
use rifts.Frame.Types.{EncodingFormat}
use rifts.Frame.Envelope.{Frame}
use rifts.Protocol.CloseCode.{CloseCode, auth_failed, protocol_error}
use rifts.Protocol.Hello.{Hello}
use rifts.Session.Auth.{AuthProvider}
use rifts.Session.Lifecycle.{Session, active, ready, set_state}
use rifts.Session.Store.{SessionStore}
use rifts.Session.Resume.{ResumeDecision}
use rifts.Broker.Memory.{Broker}
use rifts.Connection.Negotiation.{Admitted, admit}
use rifts.Connection.Handshake.{
  share, Opening, open_session, count_resume, decision_name, replays, replay_all,
  build_welcome_frame, build_ready_frame,
}

-- What a handshake leaves, with the frames given to the transport.
pub record Greeted : Type 0 where
  pub store : SessionStore
  pub metrics : Metrics
  pub frames : List Frame
  pub outcome : Result Session

abbrev pub result_name : Option ResumeDecision → Option String
result_name none = none
result_name (some d) = some (decision_name d)

module _ {V : Type 0} (j : Json V) (b : Broker) (config : ServerConfig)
    (write : Frame → Result (Unit {0})) (now : ℕ → ℤ) where
  -- From the ready frame on.
  abbrev pub send_ready :
      SessionStore → Metrics → (sent : List Frame) → EncodingFormat → Session → Greeted
  send_ready store m sent codec s =
      let frame = build_ready_frame j (now 3) s config codec in
      elim (write frame) [
        | err e ↦ record {
          store = store;
          metrics = m;
          frames = sent ++ frame ∷ [];
          outcome = err e;
        }
        | ok _ ↦ record {
          store = share store (set_state (now 4) s active);
          metrics = m;
          frames = sent ++ frame ∷ [];
          outcome = ok (set_state (now 4) s active);
        }
      ]

  -- From the welcome frame on, with the session ready.
  abbrev pub send_welcome :
      SessionStore → Metrics → Hello → EncodingFormat → Session → Option ResumeDecision → Greeted
  send_welcome store m hello codec s d =
      let frame = build_welcome_frame j (now 2) s codec (result_name d) config in
      elim (write frame) [
        | err e ↦ record { store = store; metrics = m; frames = frame ∷ []; outcome = err e }
        | ok _ ↦
            send_ready store m (frame ∷ (if replays d then replay_all b hello.last_offsets else []))
              codec s
      ]

  abbrev pub greet : Hello → EncodingFormat → SessionStore × Metrics × Opening → Greeted
  greet hello codec (store, m, err e) = record {
    store = store;
    metrics = m;
    frames = [];
    outcome = err e;
  }
  greet hello codec (store, m, ok (s, d)) =
      let s = set_state (now 1) s ready in
      send_welcome (share store s) (count_resume d m) hello codec s d

  abbrev pub greet_admitted :
      {Claims : Type 0}
      → SessionStore
      → Metrics
      → (fresh : String) → Result (Admitted Claims)
      → Greeted
  greet_admitted store m fresh (err e) = record {
    store = store;
    metrics = m;
    frames = [];
    outcome = err e;
  }
  greet_admitted store m fresh (ok a) =
      greet a.hello a.codec (open_session b store m (now 0) fresh a.context.client_id a.hello)

  unfoldable pub handshake :
      {Claims : Type 0}
      → AuthProvider Claims
      → SessionStore
      → Metrics
      → (fresh : String) → Frame
      → Greeted
  unfolding admit open_session set_state replay_all decision_name build_welcome_frame
      build_ready_frame
  handshake auth store m fresh frame = greet_admitted store m fresh (admit auth config j frame)

-- The code that closes the transport after a failed handshake; its other arm gives the same code.
unfoldable pub close_code : RiftError → CloseCode
close_code (in_auth _) = auth_failed
close_code _ = protocol_error

-- The metrics of `run` up to the end of the handshake, and what it closes the transport with.
abbrev pub count_open : Metrics → Metrics
count_open m = record m {
  connection_open_total = inc m.connection_open_total;
  active_connections = inc m.active_connections;
}

abbrev pub count_close : Metrics → Metrics
count_close m = record m {
  connection_close_total = inc m.connection_close_total;
  active_connections = dec m.active_connections;
}

unfoldable pub after_handshake : Greeted → Metrics × Option CloseCode
unfolding close_code
after_handshake g = elim g.outcome [
  | err e ↦ (count_close g.metrics, some (close_code e))
  | ok _ ↦ (g.metrics, none)
]
