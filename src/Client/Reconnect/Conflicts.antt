-- ===== src/Client/Reconnect/Conflicts.antt =====
-- A client that reconnects, against the server's resume: rifts-client/src/rift_client.rs, `try_reconnect`,
-- and rifts-broker/src/connection/mod.rs, `handshake`.
use rifts.Prelude.{
  ℕ, zero, suc, ◌+◌, ◌%◌, ◌^◌, ◌<◌, ◌≡◌, ◌≢◌, refl, ap, ◌∙◌, String, nat_eq, some, string_eq, arith,
}
use rifts.Prelude.Int.{ℤ, IsI64}
use rifts.Prelude.Map.{IsMap, AllValues}
use rifts.Errors.{ok, err, in_session, SessionReject}
use rifts.Json.{Json, IsJson, parsed}
use rifts.Metrics.{Metrics}
use rifts.Config.{ServerConfig}
use rifts.Frame.Types.{EncodingFormat}
use rifts.Protocol.Hello.{Hello}
use rifts.Session.Lifecycle.{Session}
use rifts.Session.Store.{SessionStore, get}
use rifts.Broker.Memory.{Broker}
use rifts.Connection.HelloPayload.{decode_hello_payload}
use rifts.Connection.Handshake.{open_session}
use rifts.Connection.Handshake.Resumes.{open_session-resume}
use rifts.Client.Frames.{hello_body}
use rifts.Client.Handshake.Agreed.{welcome_of, ready_of}
use rifts.Client.Hellos.{hello_meant, decode_hello_payload-hello_frame}
use rifts.Client.Session.{RiftClientConfig, noted, hello_from}
use rifts.Client.Reconnect.{bump}

-- The configuration after so many attempts.
abbrev pub after_attempts : (n : ℕ) → RiftClientConfig → RiftClientConfig
after_attempts zero config = config
after_attempts (suc n) config = bump (after_attempts n config)

-- The configuration, with another epoch.
abbrev pub at_epoch : ℕ → RiftClientConfig → RiftClientConfig
at_epoch epoch config = record config { epoch = epoch }

after_attempts-epoch :
    (n : ℕ) (config : RiftClientConfig)
    → config.epoch < 2 ^ 32
    → after_attempts n config ≡ at_epoch ((config.epoch + n) % 2 ^ 32) config
after_attempts-epoch zero config h = ap (λ e. at_epoch e config) (omega arith)
after_attempts-epoch (suc n) config h =
    ap bump (after_attempts-epoch n config h) ∙ ap (λ e. at_epoch e config) (omega arith)

wrong_epoch :
    (b : Broker) (store : SessionStore) (m : Metrics) (now : ℤ) (fresh client_id : String)
    (hello : Hello) (s : Session) (epoch : ℕ)
    → get store s.id ≡ some s
    → hello.session_id ≡ some s.id
    → hello.epoch ≡ some epoch
    → epoch ≢ s.epoch
    → open_session b store m now fresh client_id hello
      ≡ (store, m, err (in_session (SessionReject.conflict epoch s.epoch)))
wrong_epoch b store m now fresh client_id hello s epoch found named at differs =
    open_session-resume b store m now fresh client_id s.id hello s named found
    ∙ ground (arith, at, differs)

module _ {V : Type 0} (j : Json V) (h : IsJson j) (sdk_version : String) where
  -- A client that was connected to a session is refused on every attempt to reconnect to it, short of
  -- 2 ^ 32 of them: its hello names the session with an epoch that is as many above the session's as
  -- attempts were made, and the server, in whatever state the session is, answers a conflict and keeps
  -- its sessions as they are. The body of the hello parses as it was printed, and the offsets of the
  -- configuration are numbers of 64 bits of different topics.
  pub reconnect_conflicts :
      (config : RiftClientConfig) (server : ServerConfig) (s : Session) (codec : EncodingFormat)
      (welcomed readied : ℤ) (n : ℕ) (id : ℕ) (b : Broker) (store : SessionStore) (m : Metrics)
      (now later : ℤ) (fresh client_id : String)
      → get store s.id ≡ some s
      → s.epoch < 2 ^ 32
      → 0 < n
      → n < 2 ^ 32
      → IsMap config.last_offsets
      → AllValues IsI64 config.last_offsets
      → j.from_slice (
          j.to_string (
            j.object (
              hello_body j now config.client_id
                (some s.id)
                ((s.epoch + n) % 2 ^ 32)
                config.codecs
                config.token
                config.last_offsets
                config.features
                sdk_version)))
        ≡ parsed (
            j.object (
              hello_body j now config.client_id
                (some s.id)
                ((s.epoch + n) % 2 ^ 32)
                config.codecs
                config.token
                config.last_offsets
                config.features
                sdk_version))
      → let after =
          after_attempts n
            (noted (welcome_of welcomed s codec server) (ready_of readied s server) config) in
        (hello : Hello) × (decode_hello_payload j (hello_from j sdk_version now id after).payload
          ≡ ok (hello, some config.token))
        × (open_session b store m later fresh client_id hello ≡ (
          store,
          m,
          err (in_session (SessionReject.conflict ((s.epoch + n) % 2 ^ 32) s.epoch)),
        ))
  reconnect_conflicts config server s codec welcomed readied n id b store m now later fresh
        client_id found small some_made few u fits printed =
      let before = noted (welcome_of welcomed s codec server) (ready_of readied s server) config in
      let epoch = (s.epoch + n) % 2 ^ 32 in
      let hello =
        hello_meant config.client_id (some s.id) epoch config.codecs config.last_offsets in
      (
        hello,
        ap (λ c. decode_hello_payload j (hello_from j sdk_version now id c).payload)
              (after_attempts-epoch n before small)
            ∙ decode_hello_payload-hello_frame j h now id config.client_id (some s.id) epoch
                config.codecs config.token config.last_offsets config.features sdk_version printed
                (omega arith) u fits,
        wrong_epoch b store m later fresh client_id hello s epoch found refl refl (omega arith),
      )
