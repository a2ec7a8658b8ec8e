-- ===== src/Client/Events.antt =====
-- rifts-client/src/events.rs: what a client tells its listeners. `V` is the type of JSON values.
use rifts.Prelude.{ℕ, String}
use rifts.Prelude.Int.{ℤ}
use rifts.Errors.{Message}
use rifts.Ack.{AckStatus}
use rifts.Message.{Event, Reply, State, Datagram, StreamSegment, Snapshot}

pub data ClientEvent (V : Type 0) : Type 0 where
  connected : (session_id : String) (epoch : ℕ) → ClientEvent V
  disconnected : (code : ℕ) (reason : String) → ClientEvent V
  event_received : (topic : String) → Event V → ClientEvent V
  reply_received : Reply V → ClientEvent V
  state_received : (topic : String) → State V → ClientEvent V
  datagram_received : (topic : String) → Datagram V → ClientEvent V
  stream_received : (topic : String) → StreamSegment V → ClientEvent V
  snapshot_received : (topic : String) → Snapshot V → ClientEvent V
  system_received : (event_name : String) (payload : V) → ClientEvent V
  ack_received : (message_id : String) → AckStatus → ClientEvent V
  pong_received : (timestamp : ℤ) → ClientEvent V
  client_error : Message → ClientEvent V
  reconnecting : (attempt : ℕ) → ClientEvent V
