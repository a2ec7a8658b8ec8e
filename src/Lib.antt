-- ===== src/Lib.antt =====
-- Rifts: a realtime publish-subscribe protocol, its broker and its sessions.
--
-- A peer sends frames (rifts-core/src/frame, frame_codec.rs). The connection of a peer hands its
-- publishes and subscriptions to the broker (rifts-broker/src/broker), which finds the topic
-- (rifts-core/src/topic), takes a slot of it, checks the message for a duplicate, gives it an offset,
-- appends it to a log (rifts-storage/src) and hands it to the sinks of the topic's subscribers
-- (fanout.rs). A sink limits the bytes it holds (rifts-core/src/flow/backpressure.rs), outstanding
-- messages await an acknowledgement (rifts-core/src/ack/mod.rs), and a session outlives its
-- connection and may be resumed (rifts-session/src/session).
--
--   Prelude    lists, maps, bits, bytes, i64 and u64 with their wrap-around, tests and interfaces
--   Errors     rifts-core/src/error.rs: the rejections, `RiftError` and `Result` with its bind
--   Json       the JSON values of serde_json as an interface, with the documented laws (`IsJson`)
--   Message    rifts-core/src/message: the messages, their classes and what is checked of their bytes
--   Metrics    rifts-core/src/metrics.rs, the counters
--   Config     rifts-core/src/config.rs, the configuration of a server and its validation
--   Atomic     the compare-and-swap loop of backpressure.rs and store.rs as interleaved steps
--   Frame      rifts-core/src/frame/types.rs and envelope.rs (Types, Flags, Envelope), and the binary
--              envelope of frame_codec.rs (Codec: `encode_frame`, `decode_binary_frame`), and
--              its text envelope (Text: `decode_text_frame`)
--   Protocol   rifts-core/src/protocol: close codes, error codes, versions, heartbeat policy, hello (Hello);
--              and `rift_error_to_code` of rifts-broker/src/connection/control.rs
--   Flow       rifts-core/src/flow/backpressure.rs, `BackpressureController`
--   Topic      rifts-core/src/topic: policies (Policy), names (Name), entries with their log and slots
--              (Entry) and the store of entries (Store)
--   Ack        rifts-core/src/ack/mod.rs, `AckManager`
--   Session    rifts-session/src/session: session.rs (Lifecycle), `OffsetTracker` (Offsets), `decide`
--              and `ResumeManager` (Resume), `SessionStore` (Store); auth.rs, `TokenAuth` (Auth)
--   Storage    rifts-storage/src: the memory stores of offset.rs, log.rs, dedupe.rs and snapshot.rs;
--              encode.rs, the keys of an ordered store (Keys), and `MemoryEngine` of engine.rs (Engine);
--              the stores on sled of the same files (SledOffset, SledLog, SledDedupe, SledSnapshot), over
--              a tree that is an interface with the documented laws (Tree)
--   Broker     rifts-broker/src/broker: `FanoutEngine` of fanout.rs (Fanout), and `InMemoryBroker` of
--              memory_broker.rs over the memory stores, with router.rs (Memory)
--   Connection rifts-broker/src/connection: the hello of a peer (HelloPayload) and its admission
--              (Negotiation), the session it opens or resumes, welcome, replay and ready (Handshake,
--              Greeting), control requests (Control), the reader's dispatch and the teardown (Reader),
--              the queue, its sinks and the writer (Outbound)
--   Client     rifts-client/src: frame_builder.rs (Frames), heartbeat.rs (Heartbeat), the handshake and
--              the reader of connection.rs (Handshake, Dispatch), subscriber.rs (Subscriptions), events.rs
--              (Events), `RiftClient` of rift_client.rs with config.rs and error.rs (Session), its
--              reconnection (Reconnect), and what the server makes of a client's frames (Served)
--   Server     rifts/src/server.rs: the builder, `spawn_connection` with its limit (Limit) and
--              `run_maintenance` (Maintenance)
--   Examples   the theorems at concrete inputs
--
-- State is passed explicitly: a method that changes a struct returns the new one, under the source's
-- name or, where that is taken, a longer one (`insert_session` for `SessionStore::insert`). Locks and
-- concurrent maps make a method one step; the loops on a single atomic are also given as a relation of
-- steps (Atomic). A handshake is one step too, though the code reads a session and changes it in several. Maps are association lists, and a statement about every list is one about every
-- order of iteration. `now` arguments are the results of `now_ms()`. Texts made by `format!` are lists
-- of their pieces. A `Duration` is its nanoseconds. Every recursion is on the structure of a list, or on
-- the number of attempts that a client makes to reconnect, so there is no fuel; the rounds of the writer
-- are counted by a number, and one for each frame is enough.
--
-- A connection's tasks share a record `Conn`: the broker, the queue and the counter `in_flight` among
-- them. The reader takes a list of what it reads, with the clock readings and fresh ids of each moment; the
-- queue, its sinks and the writer are steps in any order (`Run`). JSON is a parameter `Json V`: the
-- type of values, their constructors and accessors, parsing and printing; authentication is a parameter
-- too, a function from a mode and a token to a context or a rejection.
--
-- What the network answers a client, and what becomes of the socket, are arguments. The exchange that
-- sled offers on a key is one step, and the loops around it are steps in any order (Atomic). Connections
-- that a server takes, that begin to run and that end are a relation of steps (Server).
--
-- Not modelled: the text of JSON and CBOR, what serde derives, sled itself, and the backends on Redis,
-- which are calls of libraries and of another system; transports, the accept loop of the server, the
-- gateway and the export of metrics, which are input and output; the locks, the timeouts and the start
-- and end of the tasks of a connection; handshakes of one session whose steps interleave; and, so far, the wait of a client's command for its reply.
pub mod Prelude
pub mod Errors
pub mod Json
pub mod Message
pub mod Metrics
pub mod Config
pub mod Atomic
pub mod Frame
pub mod Protocol
pub mod Flow
pub mod Topic
pub mod Ack
pub mod Session
pub mod Storage
pub mod Broker
pub mod Connection
pub mod Client
pub mod Server
pub mod Examples
