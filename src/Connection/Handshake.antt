-- ===== src/Connection/Handshake.antt =====
-- rifts-broker/src/connection/mod.rs, `Connection::handshake` once the client is admitted: the session
-- is found or made, the resume decided, and welcome, replay and ready are written. A session is
-- shared with the store, so what is done to it is done there. `now i` is the result of the i-th call of
-- `now_ms()`, `fresh` a new `SessionId`, and `write` what `write_frame` returns for a frame.
pub mod Resumes
pub mod Frames
pub mod Replays
use rifts.Prelude.{
  ℕ, ◌%◌, ◌^◌, String, Bool, true, false, ◌||◌, Option, none, some, List, [], ◌∷◌, ◌++◌, map, ◌==◌,
  nat_eq, string_eq, if◌then◌else◌,
}
use rifts.Prelude.Int.{ℤ, pos, ltb_ℤ, i64_add}
use rifts.Prelude.Map.{Map, lookup, insert, keys}
use rifts.Errors.{Result, ok, err, RiftError, in_session, in_auth, SessionReject}
use rifts.Json.{Json}
use rifts.Metrics.{Metrics, inc, dec}
use rifts.Config.{ServerConfig, supported_features}
use rifts.Topic.Policy.{as_millis}
use rifts.Frame.Types.{EncodingFormat, json, codec_name, control, frame_data}
use rifts.Frame.Envelope.{Frame, default_frame, mark_replay}
use rifts.Protocol.CloseCode.{CloseCode}
use rifts.Protocol.Hello.{Hello}
use rifts.Session.Auth.{AuthProvider}
use rifts.Session.Lifecycle.{
  Session, SessionState, active, ready, resuming, new, bump_epoch, set_state,
}
use rifts.Session.Store.{SessionStore, get, insert_session}
use rifts.Session.Resume.{
  ResumeDecision, full_resume, partial_resume, replaying, snapshot_required, cold_start, rejected,
  evaluate,
}
use rifts.Broker.Memory.{Broker, head_of, replay}
use rifts.Connection.HelloPayload.{or_else}
use rifts.Connection.Negotiation.{Admitted, admit}

-- A change of the session that the store shares.
abbrev pub share : SessionStore → Session → SessionStore
share store s = record store { inner = insert s.id s store.inner }

-- The loop that asks the broker for the head of each topic.
abbrev pub heads_of : Broker → List String → Map String ℤ → Map String ℤ
heads_of b [] heads = heads
heads_of b (topic ∷ rest) heads = heads_of b rest (insert topic (head_of b topic) heads)

abbrev pub is_connected : SessionState → Bool
is_connected active = true
is_connected ready = true
is_connected _ = false

abbrev pub conflict : (incoming : ℕ) → Session → RiftError
conflict incoming s = in_session (SessionReject.conflict incoming s.epoch)

-- What a client gets: a session, and the decision where it asked for a resume.
abbrev pub Opening : Type 0
Opening = Result (Session × Option ResumeDecision)

-- The session of the new incarnation.
abbrev pub reborn : (now : ℤ) → Session → Session
reborn now s = set_state now (bump_epoch s).0 resuming

abbrev pub decided :
    SessionStore → Metrics → Session → Result ResumeDecision → SessionStore × Metrics × Opening
decided store m s (err e) =
    (store, record m { resume_failed_total = inc m.resume_failed_total }, err e)
decided store m s (ok d) = (store, m, ok (s, some d))

-- The check of the session and its change, with no other handshake in between.
abbrev pub resume_session :
    Broker → SessionStore → Metrics → (now : ℤ) → Hello → Session → SessionStore × Metrics × Opening
resume_session b store m now hello existing =
    let incoming = or_else 0 hello.epoch in
    if incoming == existing.epoch
    then (if is_connected existing.state
        then (store, m, err (conflict incoming existing))
        else (decided (share store (reborn now existing)) m (reborn now existing) (
            evaluate (reborn now existing) hello.last_offsets
              (heads_of b (keys hello.last_offsets) []))))
    else (store, m, err (conflict incoming existing))

abbrev pub resume_found :
    Broker
    → SessionStore
    → Metrics
    → (now : ℤ) → Hello
    → (id : String) → Option Session
    → SessionStore × Metrics × Opening
resume_found b store m now hello id none = (store, m, err (in_session (SessionReject.not_found id)))
resume_found b store m now hello id (some existing) = resume_session b store m now hello existing

abbrev pub open_for :
    Broker
    → SessionStore
    → Metrics
    → (now : ℤ) → (fresh client_id : String) → Hello
    → Option String
    → SessionStore × Metrics × Opening
open_for b store m now fresh client_id hello none =
    let s = new now fresh client_id in ((insert_session store s).0, m, ok (s, none))
open_for b store m now fresh client_id hello (some id) =
    resume_found b store m now hello id (get store id)

unfoldable pub open_session :
    Broker
    → SessionStore
    → Metrics
    → (now : ℤ) → (fresh client_id : String) → Hello
    → SessionStore × Metrics × Opening
unfolding set_state bump_epoch evaluate get insert_session head_of
open_session b store m now fresh client_id hello =
    open_for b store m now fresh client_id hello hello.session_id

-- The metrics of a resume.
abbrev pub count_resume : Option ResumeDecision → Metrics → Metrics
count_resume none m = m
count_resume (some full_resume) m = record m { resume_success_total = inc m.resume_success_total }
count_resume (some partial_resume) m = record m {
  resume_success_total = inc m.resume_success_total;
}
count_resume (some replaying) m = record m { resume_success_total = inc m.resume_success_total }
count_resume (some _) m = record m { resume_failed_total = inc m.resume_failed_total }

unfoldable pub decision_name : ResumeDecision → String
decision_name full_resume = "resumed"
decision_name partial_resume = "partial"
decision_name replaying = "replaying"
decision_name snapshot_required = "snapshot_required"
decision_name cold_start = "cold_start"
decision_name rejected = "rejected"

abbrev pub replays : Option ResumeDecision → Bool
replays (some partial_resume) = true
replays (some replaying) = true
replays _ = false

abbrev pub replay_frame : (topic : String) → List ℕ → Frame
replay_frame topic bytes = mark_replay (record default_frame {
  frame_type = frame_data;
  codec = json;
  payload = some bytes;
  topic = some topic;
})

-- The frames of one topic, and the loop over the client's offsets.
abbrev pub replay_topic : Broker → (topic : String) → (last : ℤ) → List Frame
replay_topic b topic last =
    if ltb_ℤ last (head_of b topic)
    then map (replay_frame topic) (replay b topic (i64_add last (pos 1)) (head_of b topic))
    else []

unfoldable pub replay_all : Broker → Map String ℤ → List Frame
unfolding replay head_of mark_replay
replay_all b [] = []
replay_all b ((topic, last) ∷ rest) = replay_topic b topic last ++ replay_all b rest

-- `as u32`.
abbrev pub as_u32 : ℕ → ℕ
as_u32 n = n % 2 ^ 32

module _ {V : Type 0} (j : Json V) where
  abbrev pub control_body : EncodingFormat → (session : String) → (now : ℤ) → Map String V → Frame
  control_body codec session now body = record default_frame {
    frame_type = control;
    codec = codec;
    session_id = some session;
    payload = some (j.to_string (j.object body));
    timestamp = now;
  }

  abbrev pub resume_field : Option String → Map String V
  resume_field none = []
  resume_field (some r) = ("resume_result", j.string r) ∷ []

  abbrev pub welcome_body :
      (now : ℤ) → Session → EncodingFormat → Option String → ServerConfig → Map String V
  welcome_body now s codec result config =
      ("type", j.string "welcome")
      ∷ ("session_id", j.string s.id)
      ∷ ("epoch", j.number (pos s.epoch))
      ∷ ("negotiated_codec", j.string (codec_name codec))
      ∷ ("resume_window_ms", j.number (pos (as_u32 (as_millis config.replay_window))))
      ∷ ("features", j.array (map j.string supported_features))
      ∷ ("server_time", j.number now)
      ∷ resume_field result

  unfoldable pub build_welcome_frame :
      (now : ℤ) → Session → EncodingFormat → Option String → ServerConfig → Frame
  unfolding supported_features codec_name
  build_welcome_frame now s codec result config =
      control_body codec s.id now (welcome_body now s codec result config)

  abbrev pub ready_body : (now : ℤ) → Session → ServerConfig → Map String V
  ready_body now s config =
      ("type", j.string "ready")
      ∷ ("session_id", j.string s.id)
      ∷ ("epoch", j.number (pos s.epoch))
      ∷ ("ping_interval_ms", j.number (pos (as_u32 (as_millis config.heartbeat.ping_interval))))
      ∷ ("pong_timeout_ms", j.number (pos (as_u32 (as_millis config.heartbeat.pong_timeout))))
      ∷ ("max_missed_pongs", j.number (pos config.heartbeat.max_missed_pongs))
      ∷ ("idle_timeout_ms", j.number (pos (as_u32 (as_millis config.heartbeat.idle_timeout))))
      ∷ ("jitter_ms", j.number (pos (as_u32 (as_millis config.heartbeat.jitter))))
      ∷ ("max_payload_bytes", j.number (pos (as_u32 config.max_payload_bytes)))
      ∷ ("max_topics_per_connection", j.number (pos (as_u32 config.max_topics_per_connection)))
      ∷ ("max_send_queue_bytes", j.number (pos (as_u32 config.max_send_queue_bytes)))
      ∷ ("server_time", j.number now)
      ∷ []

  unfoldable pub build_ready_frame : (now : ℤ) → Session → ServerConfig → EncodingFormat → Frame
  build_ready_frame now s config codec = control_body codec s.id now (ready_body now s config)
