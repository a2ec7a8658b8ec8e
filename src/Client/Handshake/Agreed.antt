-- ===== src/Client/Handshake/Agreed.antt =====
-- The client's reading of what the server writes in a handshake.
use rifts.Prelude.{
  ℕ, ◌^◌, ◌<◌, ◌≡◌, refl, ap, ◌∙◌, String, Option, none, some, List, [], ◌∷◌, map, string_eq, arith,
}
use rifts.Prelude.Int.{ℤ, pos, IsI64}
use rifts.Prelude.Map.{Map, lookup}
use rifts.Json.{Json, IsJson}
use rifts.Config.{ServerConfig, supported_features}
use rifts.Topic.Policy.{as_millis}
use rifts.Frame.Types.{EncodingFormat, json, cbor, codec_name}
use rifts.Session.Lifecycle.{Session}
use rifts.Connection.HelloPayload.{recognised, or_else, and_then}
use rifts.Connection.Handshake.{welcome_body, ready_body, as_u32}
use rifts.Client.Handshake.{
  both, Welcome, Ready, codec_read, parse_welcome, parse_ready, parse_handshake, await_handshake,
  u32_in, text_in, i64_in,
}

-- What the server means to tell.
abbrev pub ready_of : (now : ℤ) → Session → ServerConfig → Ready
ready_of now s config = record {
  session_id = s.id;
  epoch = s.epoch;
  ping_interval_ms = as_u32 (as_millis config.heartbeat.ping_interval);
  pong_timeout_ms = as_u32 (as_millis config.heartbeat.pong_timeout);
  max_missed_pongs = config.heartbeat.max_missed_pongs;
  idle_timeout_ms = as_u32 (as_millis config.heartbeat.idle_timeout);
  jitter_ms = as_u32 (as_millis config.heartbeat.jitter);
  max_payload_bytes = as_u32 config.max_payload_bytes;
  max_topics_per_connection = as_u32 config.max_topics_per_connection;
  max_send_queue_bytes = as_u32 config.max_send_queue_bytes;
  server_time = now;
}

abbrev pub welcome_of : (now : ℤ) → Session → EncodingFormat → ServerConfig → Welcome
welcome_of now s codec config = record {
  session_id = s.id;
  epoch = s.epoch;
  negotiated_codec = codec;
  negotiated_compression = none;
  server_time = now;
  resume_window_ms = as_u32 (as_millis config.replay_window);
  features = supported_features;
}

module _ {V : Type 0} (j : Json V) (h : IsJson j) where
  texts : (ss : List String) → recognised j.as_str (map j.string ss) ≡ ss
  texts [] = refl
  texts (s ∷ ss) = rw (h.str_string s, texts ss) refl

  codec_back : (c : EncodingFormat) → codec_read (some (codec_name c)) ≡ c
  unfolding codec_name
  codec_back json = refl
  codec_back cbor = refl

  text_field :
      (m : Map String V) (key s : String)
      → lookup key m ≡ some (j.string s)
      → text_in j (j.object m) key ≡ some s
  text_field m key s e = ground (arith, h.get_object m key, e, h.str_string s)

  number_field :
      (m : Map String V) (key : String) (n default : ℕ)
      → lookup key m ≡ some (j.number (pos n))
      → n < 2 ^ 32
      → u32_in j (j.object m) key default ≡ n
  number_field m key n default e small =
      ground (arith, h.get_object m key, e, h.u64_number n (omega arith))

  int_field :
      (m : Map String V) (key : String) (z : ℤ)
      → lookup key m ≡ some (j.number z)
      → IsI64 z
      → i64_in j (j.object m) key ≡ z
  int_field m key z e fits = ground (arith, h.get_object m key, e, h.i64_number z fits)

  array_field :
      (m : Map String V) (key : String) (ss : List String)
      → lookup key m ≡ some (j.array (map j.string ss))
      → recognised j.as_str (or_else [] (and_then (j.get (j.object m) key) j.as_array)) ≡ ss
  array_field m key ss e = rw (h.get_object m key, e, h.array_array (map j.string ss)) (texts ss)

  ready_back :
      (now : ℤ) (s : Session) (config : ServerConfig)
      → IsI64 now
      → s.epoch < 2 ^ 32
      → config.heartbeat.max_missed_pongs < 2 ^ 32
      → parse_ready j (j.object (ready_body j now s config)) ≡ ready_of now s config
  unfolding parse_ready lookup
  ready_back now s config fits epoch missed =
      let m = ready_body j now s config in
      ground (
        arith,
        text_field m "session_id" s.id refl,
        number_field m "epoch" s.epoch 0 refl epoch,
        number_field m "ping_interval_ms" (as_u32 (as_millis config.heartbeat.ping_interval)) 25_000
            refl (omega arith),
        number_field m "pong_timeout_ms" (as_u32 (as_millis config.heartbeat.pong_timeout)) 10_000
            refl (omega arith),
        number_field m "max_missed_pongs" config.heartbeat.max_missed_pongs 2 refl missed,
        number_field m "idle_timeout_ms" (as_u32 (as_millis config.heartbeat.idle_timeout)) 300_000
            refl (omega arith),
        number_field m "jitter_ms" (as_u32 (as_millis config.heartbeat.jitter)) 2_500 refl
            (omega arith),
        number_field m "max_payload_bytes" (as_u32 config.max_payload_bytes) 65_536 refl
            (omega arith),
        number_field m "max_topics_per_connection" (as_u32 config.max_topics_per_connection) 128
            refl (omega arith),
        number_field m "max_send_queue_bytes" (as_u32 config.max_send_queue_bytes) 1_048_576 refl
            (omega arith),
        int_field m "server_time" now refl fits,
      )

  absent_field :
      (m : Map String V) (key : String) → lookup key m ≡ none → text_in j (j.object m) key ≡ none
  absent_field m key e = ground (arith, h.get_object m key, e)

  welcome_back :
      (now : ℤ) (s : Session) (codec : EncodingFormat) (result : Option String)
      (config : ServerConfig)
      → IsI64 now
      → s.epoch < 2 ^ 32
      → lookup "negotiated_compression" (welcome_body j now s codec result config) ≡ none
      → parse_welcome j (j.object (welcome_body j now s codec result config))
        ≡ welcome_of now s codec config
  unfolding parse_welcome lookup
  welcome_back now s codec result config fits epoch no_compression =
      let m = welcome_body j now s codec result config in
      ground (
        arith,
        text_field m "session_id" s.id refl,
        number_field m "epoch" s.epoch 0 refl epoch,
        text_field m "negotiated_codec" (codec_name codec) refl,
        codec_back codec,
        absent_field m "negotiated_compression" no_compression,
        int_field m "server_time" now refl fits,
        number_field m "resume_window_ms" (as_u32 (as_millis config.replay_window)) 0 refl
            (omega arith),
        array_field m "features" supported_features refl,
      )

  uncompressed :
      (now : ℤ) (s : Session) (codec : EncodingFormat) (result : Option String)
      (config : ServerConfig)
      → lookup "negotiated_compression" (welcome_body j now s codec result config) ≡ none
  unfolding lookup
  uncompressed now s codec none config = refl
  uncompressed now s codec (some r) config = refl

  a_welcome :
      (x : V) (w : Option Welcome) (r : Option Ready)
      → text_in j x "type" ≡ some "welcome"
      → parse_handshake j x (w, r) ≡ (some (parse_welcome j x), r)
  unfolding parse_handshake
  a_welcome x w r e = rw (e, parse_handshake) refl

  a_ready :
      (x : V) (w : Option Welcome) (r : Option Ready)
      → text_in j x "type" ≡ some "ready"
      → parse_handshake j x (w, r) ≡ (w, some (parse_ready j x))
  unfolding parse_handshake
  a_ready x w r e = rw (e, parse_handshake) refl

  one_step :
      (x : V) (rest : List V) (got next : Option Welcome × Option Ready)
      → parse_handshake j x got ≡ next
      → await_handshake j (x ∷ rest) got
        ≡ (elim (both j next) [ some pair ↦ some pair | none ↦ await_handshake j rest next ])
  unfolding await_handshake
  one_step x rest got next e =
      ap (λ g. elim (both j g) [ some pair ↦ some pair | none ↦ await_handshake j rest g ]) e

  -- A client that reads the bodies of the server's welcome and ready gets the session, epoch, codec,
  -- features and limits that the server has, its milliseconds and sizes cut to 32 bits, and takes no
  -- compression: for the accessors of JSON as documented, a time of 64 bits, and an epoch and a limit of
  -- missed pongs of 32.
  pub handshake_agreed :
      (welcomed readied : ℤ) (s : Session) (codec : EncodingFormat) (result : Option String)
      (config : ServerConfig)
      → IsI64 welcomed
      → IsI64 readied
      → s.epoch < 2 ^ 32
      → config.heartbeat.max_missed_pongs < 2 ^ 32
      → await_handshake j
          (j.object (welcome_body j welcomed s codec result config)
            ∷ j.object (ready_body j readied s config)
            ∷ [])
          (none, none)
        ≡ some (welcome_of welcomed s codec config, ready_of readied s config)
  unfolding lookup
  handshake_agreed welcomed readied s codec result config w r epoch missed =
      let x = j.object (welcome_body j welcomed s codec result config) in
      let y = j.object (ready_body j readied s config) in
      let first =
        a_welcome x none none
          (text_field (welcome_body j welcomed s codec result config) "type" "welcome" refl)
        ∙ ap (λ v. (some v, none))
            (welcome_back welcomed s codec result config w epoch
              (uncompressed welcomed s codec result config)) in
      let second =
        a_ready y (some (welcome_of welcomed s codec config)) none
          (text_field (ready_body j readied s config) "type" "ready" refl)
        ∙ ap (λ v. (some (welcome_of welcomed s codec config), some v))
            (ready_back readied s config r epoch missed) in
      one_step x (y ∷ []) (none, none) (some (welcome_of welcomed s codec config), none) first
      ∙ one_step y [] (some (welcome_of welcomed s codec config), none)
          (some (welcome_of welcomed s codec config), some (ready_of readied s config)) second
