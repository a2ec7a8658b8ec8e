-- ===== src/Frame/Envelope.antt =====
-- rifts-core/src/frame/envelope.rs: the `Frame` record, its defaults and its flag helpers.
-- A payload is the list of its bytes.
use rifts.Prelude.{ℕ, String, ◌≡◌, refl, Bool, true, Option, none, List, arith}
use rifts.Prelude.Int.{ℤ, pos}
use rifts.Frame.Types.{FrameType, control, EncodingFormat, json, Priority}
use rifts.Frame.Flags.{
  FrameFlags, empty, contains, set, IsU16, requires_ack_flag, replayed, snapshot_flag, contains-set,
}

pub record Frame : Type 0 where
  pub version : ℕ
  pub frame_id : ℕ
  pub frame_type : FrameType
  pub flags : FrameFlags
  pub codec : EncodingFormat
  pub session_id : Option String
  pub stream_id : Option String
  pub topic : Option String
  pub event : Option String
  pub message_id : Option String
  pub correlation_id : Option String
  pub trace_id : Option String
  pub timestamp : ℤ
  pub ttl_ms : Option ℕ
  pub priority : Option Priority
  pub payload : Option (List ℕ)

-- `Frame::default`.
abbrev pub default_frame : Frame
default_frame = record {
  version = 0;
  frame_id = 0;
  frame_type = control;
  flags = empty;
  codec = json;
  session_id = none;
  stream_id = none;
  topic = none;
  event = none;
  message_id = none;
  correlation_id = none;
  trace_id = none;
  timestamp = pos 0;
  ttl_ms = none;
  priority = none;
  payload = none;
}

-- `Frame::control`, `data`, `ack`, `flow` and `error`.
abbrev pub frame_of_type : FrameType → Frame
frame_of_type t = record default_frame { frame_type = t }

unfoldable pub requires_ack : Frame → Bool
requires_ack f = contains f.flags requires_ack_flag

unfoldable pub is_replay : Frame → Bool
is_replay f = contains f.flags replayed

unfoldable pub mark_replay : Frame → Frame
mark_replay f = record f { flags = set f.flags replayed }

unfoldable pub is_snapshot : Frame → Bool
is_snapshot f = contains f.flags snapshot_flag

unfoldable pub mark_snapshot : Frame → Frame
mark_snapshot f = record f { flags = set f.flags snapshot_flag }

-- A frame marked as a replay reads as one, and whether it is a snapshot or asks for an
-- acknowledgement is as before; the other fields are untouched.
pub mark_replay_lem :
    (f : Frame)
    → IsU16 f.flags.bits
    → (is_replay (mark_replay f) ≡ true)
      × (is_snapshot (mark_replay f) ≡ is_snapshot f)
      × (requires_ack (mark_replay f) ≡ requires_ack f)
      × (record (mark_replay f) { flags = f.flags } ≡ f)
unfolding is_replay mark_replay is_snapshot requires_ack
mark_replay_lem f h = (
  (contains-set f.flags replayed snapshot_flag h (omega arith) refl).0,
  (contains-set f.flags replayed snapshot_flag h (omega arith) refl).1,
  (contains-set f.flags replayed requires_ack_flag h (omega arith) refl).1,
  refl,
)
