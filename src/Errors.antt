-- ===== src/Errors.antt =====
-- rifts-core/src/error.rs: the rejections of each layer and the error type that joins them.
-- A text made by `format!` is the list of its pieces. A boxed error of another crate is given by
-- the text that it displays, which is all that the sources read of it.
pub mod Display
use rifts.Prelude.{ℕ, String, List}
use rifts.Prelude.Int.{ℤ}

pub data Piece : Type 0 where
  text : String → Piece
  nat : ℕ → Piece
  int : ℤ → Piece

abbrev pub Message : Type 0
Message = List Piece

pub data StorageError : Type 0 where
  io key_not_found serialization engine capacity_exceeded permission_denied : Message → StorageError

pub data FrameReject : Type 0 where
  protocol_version_unsupported : (client server : ℕ) → FrameReject
  frame_invalid codec_unsupported : Message → FrameReject
  payload_too_large : (actual max : ℕ) → FrameReject
  required_field_missing : String → FrameReject
  schema_mismatch order_violation : Message → FrameReject

pub data SessionReject : Type 0 where
  not_found : String → SessionReject
  expired closed : SessionReject
  conflict : (incoming current : ℕ) → SessionReject
  resume_rejected : Message → SessionReject
  replay_offset_expired : (topic : String) (requested : ℤ) → SessionReject
  snapshot_required : String → SessionReject
  idle_timeout : SessionReject

pub data TopicReject : Type 0 where
  not_found closed overloaded subscriber_limit publisher_limit forbidden rate_limited :
      String → TopicReject
  invalid_name : Message → TopicReject

pub data MessageReject : Type 0 where
  duplicate : String → MessageReject
  expired : MessageReject
  rejected : Message → MessageReject
  too_large : (actual max : ℕ) → MessageReject
  ack_timeout delivery_failed : Message → MessageReject

pub data AuthReject : Type 0 where
  required : AuthReject
  invalid : Message → AuthReject
  expired revoked : AuthReject
  denied : Message → AuthReject

pub data SystemReject : Type 0 where
  overloaded maintenance : SystemReject
  shard_moved region_unavailable internal : Message → SystemReject

pub data ConfigError : Type 0 where
  invalid_value : (field : String) → Message → ConfigError

pub data RiftError : Type 0 where
  in_frame : FrameReject → RiftError
  in_session : SessionReject → RiftError
  in_topic : TopicReject → RiftError
  in_message : MessageReject → RiftError
  in_auth : AuthReject → RiftError
  in_system : SystemReject → RiftError
  in_storage : StorageError → RiftError
  in_config : ConfigError → RiftError
  io_error serde_json cbor cbor_de web_socket other : Message → RiftError

-- `Result<T, RiftError>`, whose `?` is the bind.
pub data Result {ℓ} (T : Type ℓ) : Type ℓ where
  err : (e : RiftError) → Result T
  ok : (value : T) → Result T

infixl 5 ◌>>=◌ ◌>>◌
abbrev pub ◌>>=◌ {ℓ κ} : {T : Type ℓ} {U : Type κ} → Result T → (T → Result U) → Result U
r >>= next = elim r [ err e ↦ err e | ok value ↦ next value ]

abbrev pub ◌>>◌ {κ} : {U : Type κ} → Result (Unit {0}) → Result U → Result U
r >> next = r >>= λ _. next
