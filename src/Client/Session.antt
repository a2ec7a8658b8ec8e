-- ===== src/Client/Session.antt =====
-- rifts-client/src/config.rs, error.rs and rift_client.rs, and `connect` of connection.rs: the client
-- that holds a configuration, the topics it wants and at most one connection. What the network answers is
-- an argument of each call. `sent` and `told` are the frames given to the socket and the events given to
-- the listeners, the oldest first; a frame that the socket refuses is not told apart from one it takes.
use rifts.Prelude.{ℕ, String, Bool, true, false, Option, none, some, List, [], ◌∷◌, ◌++◌}
use rifts.Prelude.Int.{ℤ}
use rifts.Prelude.Map.{Map}
use rifts.Errors.{RiftError, Message}
use rifts.Json.{Json}
use rifts.Frame.Types.{EncodingFormat, json, cbor}
use rifts.Frame.Envelope.{Frame}
use rifts.Connection.Control.{SubscribeIntent}
use rifts.Client.Frames.{next_frame_id, hello_frame, subscribe_frame, unsubscribe_frame}
use rifts.Client.Handshake.{Welcome, Ready}
use rifts.Client.Events.{ClientEvent, connected}
use rifts.Client.Subscriptions.{SubscriptionTracker, add, remove_subscription, mode_str}

-- `Duration` is its nanoseconds.
pub record RiftClientConfig : Type 0 where
  pub client_id : String
  pub token : String
  pub session_id : Option String
  pub epoch : ℕ
  pub codecs : List EncodingFormat
  pub features : List String
  pub last_offsets : Map String ℤ
  pub auto_reconnect : Bool
  pub reconnect_delay : ℕ
  pub max_reconnect_attempts : ℕ

abbrev pub default_client : RiftClientConfig
default_client = record {
  client_id = "";
  token = "";
  session_id = none;
  epoch = 1;
  codecs = cbor ∷ json ∷ [];
  features = "resume" ∷ [];
  last_offsets = [];
  auto_reconnect = true;
  reconnect_delay = 1_000_000_000;
  max_reconnect_attempts = 10;
}

-- The errors of libraries are their texts.
pub data ClientError : Type 0 where
  not_connected already_connected : ClientError
  web_socket : Message → ClientError
  protocol : RiftError → ClientError
  handshake_failed : Message → ClientError
  heartbeat_timeout max_reconnect : ℕ → ClientError
  command_timeout : (timeout_ms : ℕ) → ClientError
  serialization other : Message → ClientError

pub data Outcome : Type 0 where
  done : Outcome
  failed : ClientError → Outcome

pub record ConnectionInner : Type 0 where
  pub session_id : String
  pub epoch : ℕ
  pub ready : Ready

pub record RiftClient (V : Type 0) : Type 0 where
  pub config : RiftClientConfig
  pub subscriptions : SubscriptionTracker
  pub inner : Option ConnectionInner
  pub closed : Bool
  pub frame_ids : ℕ
  pub sent : List Frame
  pub told : List (ClientEvent V)

abbrev pub new_client : {V : Type 0} → RiftClientConfig → RiftClient V
new_client config = record {
  config = config;
  subscriptions = [];
  inner = none;
  closed = false;
  frame_ids = 0;
  sent = [];
  told = [];
}

-- What comes of the network: no socket, a handshake that fails once the hello was sent, or a handshake.
pub data Answer : Type 0 where
  unreachable refused : ClientError → Answer
  shaken : Welcome → Ready → Answer

abbrev pub tell : {V : Type 0} → ClientEvent V → RiftClient V → RiftClient V
tell e c = record c { told = c.told ++ e ∷ [] }

-- Step 4: what the server says becomes the configuration of the next hello.
abbrev pub noted : Welcome → Ready → RiftClientConfig → RiftClientConfig
noted welcome ready config = record config {
  session_id = some welcome.session_id;
  epoch = ready.epoch;
}

module _ {V : Type 0} (j : Json V) (sdk_version : String) (now : ℤ) where
  -- The hello that a configuration gives.
  abbrev pub hello_from : (id : ℕ) → RiftClientConfig → Frame
  hello_from id config =
      hello_frame j now id config.client_id config.session_id config.epoch config.codecs
        config.token config.last_offsets config.features sdk_version

  abbrev pub send_hello : RiftClient V → RiftClient V
  send_hello c =
      let (counter, id) = next_frame_id c.frame_ids in
      record c { frame_ids = counter; sent = c.sent ++ hello_from id c.config ∷ [] }

  -- Step 8, for the topics in the order in which the map gives them.
  unfoldable pub resubscribe : Map String SubscribeIntent → RiftClient V → RiftClient V
  resubscribe [] c = c
  resubscribe ((topic, mode) ∷ rest) c =
      let (counter, id) = next_frame_id c.frame_ids in
      resubscribe rest (record c {
        frame_ids = counter;
        sent = c.sent ++ subscribe_frame j now id topic (mode_str mode) none ∷ [];
      })

  -- `connection::connect`, which returns the new connection to whoever installs it.
  unfoldable pub open_connection :
      Answer → RiftClient V → RiftClient V × Option ConnectionInner × Outcome
  unfolding resubscribe
  open_connection (unreachable e) c = (c, none, failed e)
  open_connection (refused e) c = (send_hello c, none, failed e)
  open_connection (shaken welcome ready) c =
      let noting = record (send_hello c) { config = noted welcome ready c.config } in
      let inner : ConnectionInner = record {
        session_id = welcome.session_id;
        epoch = ready.epoch;
        ready = ready;
      } in
      (
        tell (connected welcome.session_id ready.epoch) (resubscribe c.subscriptions noting),
        some inner,
        done,
      )

  abbrev pub install : RiftClient V × Option ConnectionInner × Outcome → RiftClient V × Outcome
  install (c, inner, done) = (record c { inner = inner }, done)
  install (c, _, failed e) = (c, failed e)

  -- `RiftClient::connect`.
  unfoldable pub connect : Answer → RiftClient V → RiftClient V × Outcome
  unfolding open_connection
  connect answer c = elim c.inner [
    | some _ ↦ (c, failed already_connected)
    | none ↦ install (open_connection answer (record c { closed = false }))
  ]

  -- `RiftClient::close`.
  unfoldable pub close : RiftClient V → RiftClient V
  close c = record c { closed = true; inner = none }

  -- `require_connected`, and then `send_frame` of the next frame.
  abbrev pub send_next : ((id : ℕ) → Frame) → RiftClient V → RiftClient V
  send_next frame c =
      let (counter, id) = next_frame_id c.frame_ids in
      record c { frame_ids = counter; sent = c.sent ++ frame id ∷ [] }

  unfoldable pub subscribe :
      (topic : String)
      → SubscribeIntent
      → (from_offset : Option ℤ) → RiftClient V
      → RiftClient V × Outcome
  subscribe topic mode from_offset c = elim c.inner [
    | none ↦ (c, failed not_connected)
    | some _ ↦ (
      send_next (λ id. subscribe_frame j now id topic (mode_str mode) from_offset)
          (record c { subscriptions = add c.subscriptions topic mode }),
      done,
    )
  ]

  unfoldable pub unsubscribe : (topic : String) → RiftClient V → RiftClient V × Outcome
  unsubscribe topic c = elim c.inner [
    | none ↦ (c, failed not_connected)
    | some _ ↦ (
      send_next (λ id. unsubscribe_frame j now id topic)
          (record c { subscriptions = (remove_subscription c.subscriptions topic).0 }),
      done,
    )
  ]
