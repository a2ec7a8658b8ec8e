-- ===== src/Connection/Negotiation.antt =====
-- rifts-broker/src/connection/mod.rs, the checks of `Connection::handshake` before a session is looked
-- up, and `negotiate` of rifts-core/src/codec/codec.rs. A codec is given by what its `frame_codec()`
-- returns; the provider of authentication and JSON are parameters.
pub mod Admission
use rifts.Prelude.{
  ℕ, ◌/◌, ◌^◌, ◌≡◌, ◌↔◌, refl, String, Bool, true, false, Option, none, some, List, [], ◌∷◌, ◌++◌,
  length, ltb, if◌then◌else◌, ◌==◌, Eq, string_eq, is_some, arith,
}
use rifts.Prelude.Reap.{member}
use rifts.Errors.{Result, ok, err, in_frame, FrameReject, Piece, text, nat, Message, ◌>>=◌, ◌>>◌}
use rifts.Json.{Json}
use rifts.Topic.Name.{codes, utf8_len}
use rifts.Frame.Types.{EncodingFormat, json, cbor, FrameType, control}
use rifts.Frame.Envelope.{Frame}
use rifts.Config.{ServerConfig}
use rifts.Protocol.Version.{negotiate_major, encoded_version}
use rifts.Protocol.Hello.{
  AuthMode, bearer, cookie, mtls, signed_challenge, anonymous, Hello, protocol_name,
}
use rifts.Session.Auth.{AuthContext, AuthProvider}
use rifts.Connection.HelloPayload.{decode_hello_payload, invalid}

-- The derived `PartialEq`.
abbrev pub format_beq : (a b : EncodingFormat) → Bool
format_beq json json = true
format_beq cbor cbor = true
format_beq _ _ = false

pub format_beq_iff : (a b : EncodingFormat) → (format_beq a b ≡ true) ↔ (a ≡ b)
format_beq_iff a b = ground arith

instance abbrev pub format_eq : Eq EncodingFormat
format_eq = record { beq = format_beq; beq_iff = format_beq_iff }

abbrev pub mode_beq : (a b : AuthMode) → Bool
mode_beq bearer bearer = true
mode_beq cookie cookie = true
mode_beq mtls mtls = true
mode_beq signed_challenge signed_challenge = true
mode_beq anonymous anonymous = true
mode_beq _ _ = false

pub mode_beq_iff : (a b : AuthMode) → (mode_beq a b ≡ true) ↔ (a ≡ b)
mode_beq_iff a b = ground arith

instance abbrev pub mode_eq : Eq AuthMode
mode_eq = record { beq = mode_beq; beq_iff = mode_beq_iff }

-- `{:?}` of a list of codecs.
abbrev pub debug_format : EncodingFormat → Piece
debug_format json = text "Json"
debug_format cbor = text "Cbor"

abbrev pub debug_rest : List EncodingFormat → Message
debug_rest [] = text "]" ∷ []
debug_rest (c ∷ cs) = text ", " ∷ debug_format c ∷ debug_rest cs

abbrev pub debug_formats : List EncodingFormat → Message
debug_formats [] = text "[]" ∷ []
debug_formats (c ∷ cs) = text "[" ∷ debug_format c ∷ debug_rest cs

-- The loop of `negotiate` over the client's codecs, in the client's order.
abbrev pub first_offered : (server client : List EncodingFormat) → Option EncodingFormat
first_offered server [] = none
first_offered server (want ∷ rest) =
    if member want server then some want else first_offered server rest

abbrev pub or_unsupported : List EncodingFormat → Option EncodingFormat → Result EncodingFormat
or_unsupported client none =
    err (in_frame (FrameReject.codec_unsupported (text "client offered " ∷ debug_formats client)))
or_unsupported client (some c) = ok c

unfoldable pub negotiate : (server client : List EncodingFormat) → Result EncodingFormat
negotiate server client = or_unsupported client (first_offered server client)

-- An empty offer stands for every codec.
abbrev pub server_codecs : (offer : List EncodingFormat) → List EncodingFormat
server_codecs [] = json ∷ cbor ∷ []
server_codecs (c ∷ cs) = c ∷ cs

unfoldable pub choose_mode : (server client : List AuthMode) → AuthMode
choose_mode server [] = anonymous
choose_mode server (m ∷ rest) = if member m server then m else choose_mode server rest

abbrev pub check_control : FrameType → Result (Unit {0})
check_control control = ok tt
check_control _ = invalid (text "expected control frame" ∷ [])

abbrev pub check_protocol : Hello → Result (Unit {0})
check_protocol hello =
    if hello.protocol == protocol_name
    then ok tt
    else invalid (text "unknown protocol: " ∷ text hello.protocol ∷ [])

abbrev pub check_version : Hello → Result (Unit {0})
check_version hello =
    if is_some (negotiate_major (hello.version / 2 ^ 8))
    then ok tt
    else err (in_frame (FrameReject.protocol_version_unsupported hello.version encoded_version))

abbrev pub check_codecs : List EncodingFormat → Result (Unit {0})
check_codecs [] = invalid (text "hello must include at least one codec" ∷ [])
check_codecs (_ ∷ _) = ok tt

abbrev pub max_token : ℕ
max_token = 8192

abbrev pub token_len : String → ℕ
token_len t = utf8_len (codes t)

abbrev pub check_token : Option String → Result (Unit {0})
check_token none = ok tt
check_token (some t) =
    if ltb max_token (token_len t)
    then err (in_frame (FrameReject.payload_too_large (token_len t) max_token))
    else ok tt

abbrev pub max_offsets : ℕ
max_offsets = 1024

abbrev pub check_offsets : Hello → Result (Unit {0})
check_offsets hello =
    if ltb max_offsets (length hello.last_offsets)
    then invalid (text "hello last_offsets exceeds maximum 1024 entries" ∷ [])
    else ok tt

-- What the checks hand on.
pub record Admitted (Claims : Type 0) : Type 0 where
  pub hello : Hello
  pub codec : EncodingFormat
  pub context : AuthContext Claims

module _ {Claims : Type 0} (auth : AuthProvider Claims) (config : ServerConfig) where
  unfoldable pub admit_hello : Hello × Option String → Result (Admitted Claims)
  unfolding negotiate choose_mode negotiate_major encoded_version utf8_len
  admit_hello (hello, token) = do
    check_protocol hello
    check_version hello
    codec ← negotiate (server_codecs config.codec_offer) hello.codecs
    context ← auth.authenticate (choose_mode auth.supported_modes hello.auth_modes) token
    check_codecs hello.codecs
    check_token token
    check_offsets hello
    ok (record { hello = hello; codec = codec; context = context })

  unfoldable pub admit : {V : Type 0} → Json V → Frame → Result (Admitted Claims)
  unfolding admit_hello decode_hello_payload
  admit j frame = do
    check_control frame.frame_type
    first ← decode_hello_payload j frame.payload
    admit_hello first
