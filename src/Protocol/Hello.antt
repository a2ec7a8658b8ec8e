-- ===== src/Protocol/Hello.antt =====
-- rifts-core/src/protocol/hello.rs: what client and server tell each other in the handshake.
use rifts.Prelude.{ℕ, String, Option, none, List, []}
use rifts.Prelude.Int.{ℤ}
use rifts.Prelude.Map.{Map}
use rifts.Frame.Types.{EncodingFormat}
use rifts.Protocol.Version.{encoded_version}

pub data AuthMode : Type 0 where
  bearer cookie mtls signed_challenge anonymous : AuthMode

unfoldable pub mode_name : AuthMode → String
mode_name bearer = "bearer"
mode_name cookie = "cookie"
mode_name mtls = "mtls"
mode_name signed_challenge = "signed_challenge"
mode_name anonymous = "anonymous"

pub record SdkInfo : Type 0 where
  pub name : String
  pub version : String

pub record Hello : Type 0 where
  pub protocol : String
  pub version : ℕ
  pub client_id : Option String
  pub session_id : Option String
  pub epoch : Option ℕ
  pub codecs : List EncodingFormat
  pub compression : List String
  pub auth_modes : List AuthMode
  pub last_offsets : Map String ℤ
  pub client_clock : Option ℤ
  pub sdk : Option SdkInfo
  pub features : List String

-- `Hello::default`.
abbrev pub default_hello : Hello
default_hello = record {
  protocol = "";
  version = 0;
  client_id = none;
  session_id = none;
  epoch = none;
  codecs = [];
  compression = [];
  auth_modes = [];
  last_offsets = [];
  client_clock = none;
  sdk = none;
  features = [];
}

-- `PROTOCOL_NAME`.
abbrev pub protocol_name : String
protocol_name = "rift"

unfoldable pub new : List EncodingFormat → Hello
unfolding encoded_version
new codecs = record default_hello {
  protocol = protocol_name;
  version = encoded_version;
  codecs = codecs;
}
