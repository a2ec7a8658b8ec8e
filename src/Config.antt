-- ===== src/Config.antt =====
-- rifts-core/src/config.rs: the parameters of a server. A `Duration` is its nanoseconds.
use rifts.Prelude.{
  ℕ, String, List, [], ◌∷◌, ◌≡◌, refl, ◌<◌, ◌↔◌, arith, ◌==◌, nat_eq, if◌then◌else◌,
}
use rifts.Errors.{Message, text}
use rifts.Frame.Types.{EncodingFormat}
use rifts.Protocol.Heartbeat.{
  HeartbeatPolicy, default_policy, Verdict, valid, wrong, IsUsable, validate_exact,
}
use rifts.Topic.Policy.{TopicProfile, default_profile, from_secs}

pub record ServerConfig : Type 0 where
  pub max_payload_bytes : ℕ
  pub max_topics_per_connection : ℕ
  pub max_send_queue_bytes : ℕ
  pub heartbeat : HeartbeatPolicy
  pub max_connections : ℕ
  pub write_timeout : ℕ
  pub idle_timeout : ℕ
  pub reconnect_base_ms : ℕ
  pub reconnect_max_ms : ℕ
  pub replay_window : ℕ
  pub dedupe_window : ℕ
  pub max_auth_failures : ℕ
  pub codec_offer : List EncodingFormat
  pub default_topic_profile : TopicProfile

abbrev pub default_config : ServerConfig
default_config = record {
  max_payload_bytes = 65_536;
  max_topics_per_connection = 128;
  max_send_queue_bytes = 1_048_576;
  heartbeat = default_policy;
  max_connections = 0;
  write_timeout = from_secs 30;
  idle_timeout = from_secs 300;
  reconnect_base_ms = 500;
  reconnect_max_ms = 15_000;
  replay_window = from_secs 300;
  dedupe_window = from_secs 60;
  max_auth_failures = 3;
  codec_offer = [];
  default_topic_profile = default_profile;
}

unfoldable pub supported_features : List String
supported_features = "replay" ∷ "snapshot" ∷ "resume" ∷ "topic_profiles" ∷ "backpressure" ∷ []

-- `Result<(), String>`.
pub data Checked : Type 0 where
  sound : Checked
  unsound : Message → Checked

-- `map_err` of the heartbeat's verdict.
abbrev pub of_heartbeat : Verdict → Checked
of_heartbeat valid = sound
of_heartbeat (wrong s) = unsound (text "heartbeat: " ∷ text s ∷ [])

unfoldable pub check_config : ServerConfig → Checked
unfolding rifts.Protocol.Heartbeat.validate
check_config c =
    if c.max_payload_bytes == 0
    then unsound (text "max_payload_bytes must be > 0" ∷ [])
    else if c.max_send_queue_bytes == 0
    then unsound (text "max_send_queue_bytes must be > 0" ∷ [])
    else of_heartbeat (rifts.Protocol.Heartbeat.validate c.heartbeat)

sound_heartbeat : (v : Verdict) → (of_heartbeat v ≡ sound) ↔ (v ≡ valid)
sound_heartbeat valid = (λ h. refl, λ h. refl)
sound_heartbeat (wrong s) = (λ h. ground arith, λ h. ground arith)

-- A configuration is accepted exactly when payloads and the send queue may hold a byte and the
-- heartbeat policy is usable; the default configuration is accepted.
pub check_config_exact :
    (c : ServerConfig)
    → ((check_config c ≡ sound)
        ↔ ((0 < c.max_payload_bytes) × (0 < c.max_send_queue_bytes) × IsUsable c.heartbeat))
      × (check_config default_config ≡ sound)
unfolding check_config rifts.Protocol.Heartbeat.validate
check_config_exact c = (
  (
    λ h. ground (
      arith,
      sound_heartbeat (rifts.Protocol.Heartbeat.validate c.heartbeat),
      validate_exact c.heartbeat,
    ),
    λ h. ground (
      arith,
      sound_heartbeat (rifts.Protocol.Heartbeat.validate c.heartbeat),
      validate_exact c.heartbeat,
    ),
  ),
  refl,
)
