-- ===== src/Connection/Negotiation/Admission.antt =====
-- Which clients pass the checks of the handshake.
use rifts.Prelude.{
  ◌/◌, ◌^◌, ◌≤◌, ◌≡◌, ◌↔◌, refl, ap, ◌∙◌, String, true, false, Option, none, some, List, [], ◌∷◌,
  ◌++◌, length, All, string_eq, Bool-cases, inl, inr, arith,
}
use rifts.Prelude.Reap.{member}
use rifts.Errors.{ok}
use rifts.Frame.Types.{EncodingFormat}
use rifts.Config.{ServerConfig}
use rifts.Protocol.Version.{negotiate_major}
use rifts.Protocol.Hello.{Hello, protocol_name}
use rifts.Session.Auth.{AuthProvider}
use rifts.Connection.Negotiation.{
  first_offered, negotiate, server_codecs, choose_mode, Admitted, admit_hello, check_token,
  check_codecs, token_len, max_offsets, mode_eq, format_eq,
}

-- A codec that the server has and the client lists, with none before it that the server has.
abbrev pub IsFirstCommon : (server client : List EncodingFormat) → EncodingFormat → Type 0
IsFirstCommon server client codec =
    (member codec server ≡ true)
    × ((front : List EncodingFormat) × (back : List EncodingFormat) × (client
          ≡ front ++ codec ∷ back)
        × All (λ c. member c server ≡ false) front)

first_offered-IsFirstCommon :
    (server client : List EncodingFormat) (codec : EncodingFormat)
    → first_offered server client ≡ some codec
    → IsFirstCommon server client codec
first_offered-IsFirstCommon server [] codec h = ground arith
first_offered-IsFirstCommon server (want ∷ rest) codec h = elim (Bool-cases (member want server)) [
  | inl has ↦ here has (rw has at h)
  | inr lacks ↦ later lacks (first_offered-IsFirstCommon server rest codec (rw lacks at h))
]
  where
    here :
        member want server ≡ true
        → some want ≡ some codec
        → IsFirstCommon server (want ∷ rest) codec
    here has e = (ground arith, ([], rest, ground arith, tt))

    later :
        member want server ≡ false
        → IsFirstCommon server rest codec
        → IsFirstCommon server (want ∷ rest) codec
    later lacks (has, (front, back, e, none_before)) =
        (has, (want ∷ front, back, ap (◌∷◌ want) e, (lacks, none_before)))

first_offered-front :
    (server front back : List EncodingFormat) (codec : EncodingFormat)
    → member codec server ≡ true
    → All (λ c. member c server ≡ false) front
    → first_offered server (front ++ codec ∷ back) ≡ some codec
first_offered-front server [] back codec has none_before = ground arith
first_offered-front server (c ∷ front) back codec has none_before =
    ground (arith, first_offered-front server front back codec has none_before.1)

-- The codec of the loop is the first of the client's that the server has.
first_offered_exact :
    (server client : List EncodingFormat) (codec : EncodingFormat)
    → (first_offered server client ≡ some codec) ↔ IsFirstCommon server client codec
first_offered_exact server client codec = (
  first_offered-IsFirstCommon server client codec,
  λ (has, (front, back, e, none_before)).
      ap (first_offered server) e ∙ first_offered-front server front back codec has none_before,
)

abbrev pub IsShort : Option String → Type 0
IsShort none = Unit
IsShort (some t) = token_len t ≤ 8192

check_token_iff : (token : Option String) → (check_token token ≡ ok tt) ↔ IsShort token
check_token_iff none = (λ h. tt, λ h. refl)
check_token_iff (some t) = (λ h. ground arith, λ h. ground arith)

check_codecs_lem :
    (server codecs : List EncodingFormat) (c : EncodingFormat)
    → first_offered server codecs ≡ some c
    → check_codecs codecs ≡ ok tt
check_codecs_lem server [] c h = ground arith
check_codecs_lem server (_ ∷ _) c h = refl

module _ {Claims : Type 0} (auth : AuthProvider Claims) (config : ServerConfig) where
  pub record IsAdmissible (hello : Hello) (token : Option String) (a : Admitted Claims)
      : Type 0 where
    pub speaks_rift : hello.protocol ≡ protocol_name
    pub same_major : hello.version / 2 ^ 8 ≡ 1
    pub shares_codec : IsFirstCommon (server_codecs config.codec_offer) hello.codecs a.codec
    pub authentic :
        auth.authenticate (choose_mode auth.supported_modes hello.auth_modes) token ≡ ok a.context
    pub short_token : IsShort token
    pub few_offsets : length hello.last_offsets ≤ 1024
    pub same_hello : a.hello ≡ hello

  -- A hello is admitted exactly when it names the protocol and major version 1, lists a codec of the
  -- server, passes authentication in the first of its modes that the server has, or as anonymous, has
  -- a token of at most 8192 bytes and at most 1024 offsets; and it is then given the first of its
  -- codecs that the server has.
  pub admit_hello_exact :
      (hello : Hello) (token : Option String) (a : Admitted Claims)
      → (admit_hello auth config (hello, token) ≡ ok a) ↔ IsAdmissible hello token a
  unfolding admit_hello negotiate negotiate_major
  admit_hello_exact hello token a = (
    λ h.
        let (p, v, c, x, t, o, s) = forth h in
        record {
          speaks_rift = p;
          same_major = v;
          shares_codec = (first_offered_exact server hello.codecs a.codec).0 c;
          authentic = x;
          short_token = t;
          few_offsets = o;
          same_hello = s;
        },
    λ h. back h ((first_offered_exact server hello.codecs a.codec).1 h.shares_codec),
  )
    where
      server : List EncodingFormat
      server = server_codecs config.codec_offer

      forth :
          admit_hello auth config (hello, token) ≡ ok a
          → (hello.protocol ≡ protocol_name)
            × (hello.version / 2 ^ 8 ≡ 1)
            × (first_offered (server_codecs config.codec_offer) hello.codecs ≡ some a.codec)
            × (auth.authenticate (choose_mode auth.supported_modes hello.auth_modes) token
                ≡ ok a.context)
            × IsShort token
            × (length hello.last_offsets ≤ max_offsets)
            × (a.hello ≡ hello)
      forth h = ground (
        arith,
        check_token_iff token,
        string_eq.beq_iff hello.protocol protocol_name,
        check_codecs_lem (server_codecs config.codec_offer) hello.codecs a.codec,
      )

      back :
          IsAdmissible hello token a
          → first_offered (server_codecs config.codec_offer) hello.codecs ≡ some a.codec
          → admit_hello auth config (hello, token) ≡ ok a
      back h c = ground (
        arith,
        h.speaks_rift,
        h.same_major,
        h.authentic,
        h.short_token,
        h.few_offsets,
        h.same_hello,
        check_token_iff token,
        string_eq.beq_iff hello.protocol protocol_name,
        check_codecs_lem (server_codecs config.codec_offer) hello.codecs a.codec,
      )
