-- ===== src/Connection/HelloPayload.antt =====
-- rifts-broker/src/connection/mod.rs, `decode_hello_payload`: the first frame of a client, read as
-- JSON, which is a library and so a parameter. Fields that are missing or of another type have
-- defaults, unknown codecs and modes are passed over, and an epoch is cut to 32 bits.
use rifts.Prelude.{
  ℕ, ◌-◌, ◌%◌, ◌^◌, String, Option, none, some, List, [], ◌∷◌, ltb, if◌then◌else◌, ◌==◌, string_eq,
}
use rifts.Prelude.Int.{ℤ}
use rifts.Prelude.Map.{Map, lookup, insert}
use rifts.Errors.{Result, ok, err, in_frame, FrameReject, text, nat, Message}
use rifts.Json.{Json, Parsed, broken, parsed}
use rifts.Frame.Types.{EncodingFormat, json, cbor}
use rifts.Protocol.Hello.{
  AuthMode, bearer, cookie, mtls, signed_challenge, anonymous, Hello, default_hello,
}

abbrev pub or_else {ℓ} : {A : Type ℓ} → A → Option A → A
or_else d none = d
or_else d (some a) = a

abbrev pub and_then {ℓ κ} : {A : Type ℓ} {B : Type κ} → Option A → (A → Option B) → Option B
and_then none f = none
and_then (some a) f = f a

abbrev pub invalid {ℓ} : {A : Type ℓ} → Message → Result A
invalid m = err (in_frame (FrameReject.frame_invalid m))

-- The match on the text of one codec, and on the text of one mode.
unfoldable pub codec_named : Option String → Option EncodingFormat
codec_named none = none
codec_named (some s) = if s == "json" then some json else if s == "cbor" then some cbor else none

unfoldable pub mode_named : Option String → Option AuthMode
mode_named none = none
mode_named (some s) =
    if s == "bearer"
    then some bearer
    else if s == "cookie"
    then some cookie
    else if s == "mtls"
    then some mtls
    else if s == "signed_challenge"
    then some signed_challenge
    else if s == "anonymous"
    then some anonymous
    else none

-- A loop that pushes what it recognises.
abbrev pub push_some {ℓ} : {A : Type ℓ} → Option A → List A → List A
push_some none xs = xs
push_some (some x) xs = x ∷ xs

abbrev pub recognised {ℓ κ} : {A : Type ℓ} {B : Type κ} → (A → Option B) → List A → List B
recognised f [] = []
recognised f (a ∷ rest) = push_some (f a) (recognised f rest)

unfoldable pub read_version : Option ℕ → Result ℕ
read_version none = ok 0
read_version (some v) =
    if ltb (2 ^ 16 - 1) v then invalid (text "hello version out of range: " ∷ nat v ∷ []) else ok v

module _ {V : Type 0} (j : Json V) where
  abbrev pub text_at : Map String V → String → Option String
  text_at obj key = and_then (lookup key obj) j.as_str

  -- The loop over the offsets: what is no `i64` is passed over.
  abbrev pub put_offset : String → Option ℤ → Map String ℤ → Map String ℤ
  put_offset k none offsets = offsets
  put_offset k (some n) offsets = insert k n offsets

  abbrev pub read_offsets : Map String V → Map String ℤ → Map String ℤ
  read_offsets [] offsets = offsets
  read_offsets ((k, v) ∷ rest) offsets = read_offsets rest (put_offset k (j.as_i64 v) offsets)

  abbrev pub hello_of : Map String V → (version : ℕ) → Hello
  hello_of obj version = record default_hello {
    protocol = or_else "" (text_at obj "protocol");
    version = version;
    client_id = text_at obj "client_id";
    session_id = text_at obj "session_id";
    epoch = and_then (and_then (lookup "epoch" obj) j.as_u64) (λ x. some (x % 2 ^ 32));
    codecs =
        recognised (λ c. codec_named (j.as_str c))
          (or_else [] (and_then (lookup "codecs" obj) j.as_array));
    auth_modes =
        recognised (λ c. mode_named (j.as_str c))
          (or_else [] (and_then (lookup "auth_modes" obj) j.as_array));
    last_offsets = read_offsets (or_else [] (and_then (lookup "last_offsets" obj) j.as_object)) [];
  }

  abbrev pub read_object : Map String V → Result (Hello × Option String)
  read_object obj = elim (read_version (and_then (lookup "version" obj) j.as_u64)) [
    | err e ↦ err e
    | ok version ↦ ok (hello_of obj version, text_at obj "token")
  ]

  abbrev pub read_value : Option (Map String V) → Result (Hello × Option String)
  read_value none = invalid (text "hello must be object" ∷ [])
  read_value (some obj) = read_object obj

  abbrev pub read_parsed : Parsed V → Result (Hello × Option String)
  read_parsed (broken m) = invalid m
  read_parsed (parsed v) = read_value (j.as_object v)

  unfoldable pub decode_hello_payload : Option (List ℕ) → Result (Hello × Option String)
  unfolding codec_named mode_named read_version
  decode_hello_payload none = err (in_frame (FrameReject.required_field_missing "payload"))
  decode_hello_payload (some p) = read_parsed (j.from_slice p)
