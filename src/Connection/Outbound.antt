-- ===== src/Connection/Outbound.antt =====
-- The outbound queue of a connection: the channel and the counter of bytes in flight that
-- rifts-broker/src/connection/mod.rs creates, the sinks that put messages in
-- (rifts-broker/src/broker/fanout/conn_sink.rs, `MpscSink` of connection/control.rs) and the writer that
-- takes them out (connection/writer.rs). An uncontended loop on the counter makes one exchange; Atomic and
-- Flow have its interleavings. What a write to the transport returns is an argument.
pub mod Accounting
use rifts.Prelude.{
  ℕ, ◌+◌, ◌-◌, ◌%◌, ◌^◌, Bool, true, false, Option, none, some, List, [], ◌∷◌, ◌++◌, length, leb,
  ltb, if◌then◌else◌,
}
use rifts.Frame.Types.{frame_data, EncodingFormat}
use rifts.Frame.Envelope.{Frame, default_frame}
use rifts.Flow.{usize_add}
use rifts.Metrics.{Metrics, inc}

-- The queue, whether its receiver is gone, the counter, and whether the transport is in its slot.
pub record Outbound : Type 0 where
  pub queue : List Frame
  pub closed : Bool
  pub in_flight : ℕ
  pub transport : Bool

abbrev pub capacity : ℕ
capacity = 1024

abbrev pub opened : Outbound
opened = record { queue = []; closed = false; in_flight = 0; transport = true }

pub data Sent : Type 0 where
  sent channel_full channel_closed : Sent

-- `mpsc::Sender::try_send`.
unfoldable pub try_send : Outbound → Frame → Outbound × Sent
try_send o f =
    if o.closed
    then (o, channel_closed)
    else if leb capacity (length o.queue)
    then (o, channel_full)
    else (record o { queue = o.queue ++ f ∷ [] }, sent)

pub data FanoutError : Type 0 where
  closed : FanoutError
  backpressured : (queue_bytes max_bytes : ℕ) → FanoutError

pub data Delivery : Type 0 where
  delivered : Delivery
  failed : FanoutError → Delivery

-- `fetch_sub`, which wraps.
abbrev pub usize_sub : ℕ → ℕ → ℕ
usize_sub a b = (a + (2 ^ 64 - b % 2 ^ 64)) % 2 ^ 64

abbrev pub give_bytes_back : Outbound → ℕ → Outbound
give_bytes_back o bytes = record o { in_flight = usize_sub o.in_flight bytes }

abbrev pub message_frame : EncodingFormat → List ℕ → Frame
message_frame codec bytes = record default_frame {
  frame_type = frame_data;
  codec = codec;
  payload = some bytes;
}

-- From `try_send` on, with the bytes reserved.
abbrev pub settle : Outbound × Sent → (len max_bytes : ℕ) → Outbound × Delivery
settle (o, sent) len max_bytes = (o, delivered)
settle (o, channel_full) len max_bytes =
    let back = give_bytes_back o len in (back, failed (backpressured back.in_flight max_bytes))
settle (o, channel_closed) len max_bytes = (give_bytes_back o len, failed FanoutError.closed)

-- `deliver` of an `MpscSink`.
unfoldable pub deliver_to :
    Outbound → (max_bytes : ℕ) → EncodingFormat → (bytes : List ℕ) → Outbound × Delivery
unfolding try_send
deliver_to o max_bytes codec bytes =
    let next = usize_add o.in_flight (length bytes) in
    if ltb max_bytes next
    then (o, failed (backpressured o.in_flight max_bytes))
    else (settle (try_send (record o { in_flight = next }) (message_frame codec bytes))
        (length bytes) max_bytes)

-- `deliver` of a `ConnSink`, which also counts. The pause is counted where no bytes are reserved.
abbrev pub count_delivery : Bool → Delivery → Metrics → Metrics
count_delivery no_room delivered m = record m { messages_out_total = inc m.messages_out_total }
count_delivery no_room (failed e) m =
    if no_room then record m { flow_pause_total = inc m.flow_pause_total } else m

unfoldable pub deliver_counted :
    Outbound
    → Metrics
    → (max_bytes : ℕ) → EncodingFormat
    → (bytes : List ℕ) → Outbound × Metrics × Delivery
unfolding deliver_to
deliver_counted o m max_bytes codec bytes =
    let (after, outcome) = deliver_to o max_bytes codec bytes in
    (
      after,
      count_delivery (ltb max_bytes (usize_add o.in_flight (length bytes))) outcome m,
      outcome,
    )

abbrev pub payload_bytes : Option (List ℕ) → ℕ
payload_bytes none = 0
payload_bytes (some p) = length p

-- What the writer makes of one frame: a write, an error, or nothing in the time it has.
pub data Written : Type 0 where
  written write_failed timed_out : Written

-- The writer's end: the receiver and the frames in it are gone, and so is the transport.
abbrev pub stopped : Outbound
stopped = record { queue = []; closed = true; in_flight = 0; transport = false }

-- One round of the writer's loop; without a frame it waits. With no transport in the slot the
-- write is an error.
abbrev pub write_round : Outbound → Frame → List Frame → Written → Outbound
write_round o f rest written =
    if o.transport
    then give_bytes_back (record o { queue = rest }) (payload_bytes f.payload)
    else stopped
write_round o f rest write_failed = stopped
write_round o f rest timed_out = stopped

unfoldable pub write_next : Outbound → Written → Outbound
write_next o w = elim o.queue [ [] ↦ o | f ∷ rest ↦ write_round o f rest w ]
