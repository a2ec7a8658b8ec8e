-- ===== src/Client/Hellos.antt =====
-- The server's reading of a client's hello: rifts-client/src/frame_builder.rs, `hello_frame`, against
-- rifts-broker/src/connection/mod.rs, `decode_hello_payload`.
use rifts.Prelude.{
  ℕ, ◌^◌, ◌<◌, ◌≡◌, refl, ap, sym, ◌∙◌, String, Option, none, some, false, List, [], ◌∷◌, ◌++◌, map,
  string_eq, arith,
}
use mathlib.Core.List.{append-nil, append_assoc}
use rifts.Prelude.Int.{ℤ, pos, IsI64}
use rifts.Prelude.Map.{Map, lookup, insert, IsMap, AllValues}
use rifts.Json.{Json, IsJson, parsed}
use rifts.Errors.{ok}
use rifts.Frame.Types.{EncodingFormat, json, cbor, codec_name}
use rifts.Protocol.Hello.{Hello, default_hello, protocol_name, bearer}
use rifts.Connection.HelloPayload.{
  decode_hello_payload, read_parsed, read_value, read_object, recognised, codec_named, mode_named,
  read_offsets, put_offset, read_version, text_at,
}
use rifts.Client.Frames.{hello_frame, hello_body, text_or_null, wire_version}

-- The hello that a client means.
abbrev pub hello_meant :
    (client_id : String)
    → (session_id : Option String) → (epoch : ℕ) → List EncodingFormat
    → (last_offsets : Map String ℤ) → Hello
hello_meant client_id session_id epoch codecs last_offsets = record default_hello {
  protocol = protocol_name;
  version = wire_version;
  client_id = some client_id;
  session_id = session_id;
  epoch = some epoch;
  codecs = codecs;
  auth_modes = bearer ∷ [];
  last_offsets = last_offsets;
}

insert-fresh :
    (k : String) (z : ℤ) (m : Map String ℤ) → lookup k m ≡ none → insert k z m ≡ m ++ (k, z) ∷ []
unfolding lookup insert
insert-fresh k z [] e = refl
insert-fresh k z ((i, w) ∷ m) e = ground (arith, insert-fresh k z m)

lookup-append_none :
    (k i : String) (z : ℤ) (m : Map String ℤ)
    → lookup k m ≡ none
    → string_eq.beq i k ≡ false
    → lookup k (m ++ (i, z) ∷ []) ≡ none
unfolding lookup
lookup-append_none k i z [] e differs = ground arith
lookup-append_none k i z ((h, w) ∷ m) e differs = ground (arith, lookup-append_none k i z m)

module _ {V : Type 0} (j : Json V) (h : IsJson j) where
  codecs_back :
      (cs : List EncodingFormat)
      → recognised (λ c. codec_named (j.as_str c)) (map (λ c. j.string (codec_name c)) cs) ≡ cs
  unfolding codec_named codec_name
  codecs_back [] = refl
  codecs_back (json ∷ cs) = rw (h.str_string "json", codecs_back cs) refl
  codecs_back (cbor ∷ cs) = rw (h.str_string "cbor", codecs_back cs) refl

  -- No key of the first map is in the second.
  abbrev Apart : Map String ℤ → Map String ℤ → Type 0
  Apart [] done = Unit
  Apart ((k, _) ∷ m) done = (lookup k done ≡ none) × Apart m done

  Apart-snoc :
      (m done : Map String ℤ) (k : String) (z : ℤ)
      → Apart m done
      → lookup k m ≡ none
      → Apart m (done ++ (k, z) ∷ [])
  unfolding lookup
  Apart-snoc [] done k z a e = tt
  Apart-snoc ((i, w) ∷ m) done k z a e = (
    lookup-append_none i k z done a.0
        (ground (arith, e, string_eq.beq_iff i k, string_eq.beq_iff k i)),
    Apart-snoc m done k z a.1 (ground (arith, e)),
  )

  Apart-nil : (m : Map String ℤ) → Apart m []
  unfolding lookup
  Apart-nil [] = tt
  Apart-nil ((k, _) ∷ m) = (refl, Apart-nil m)

  offsets_back :
      (m done : Map String ℤ)
      → IsMap m
      → AllValues IsI64 m
      → Apart m done
      → read_offsets j (map (λ (k, z). (k, j.number z)) m) done ≡ done ++ m
  offsets_back [] done u fits apart = sym (append-nil done)
  offsets_back ((k, z) ∷ m) done u fits apart =
      ap (λ o. read_offsets j (map (λ (k, z). (k, j.number z)) m) (put_offset j k o done))
        (h.i64_number z fits.0)
      ∙ (ap (read_offsets j (map (λ (k, z). (k, j.number z)) m)) (insert-fresh k z done apart.0)
          ∙ (offsets_back m (done ++ (k, z) ∷ []) u.1 fits.1 (Apart-snoc m done k z apart.1 u.0)
              ∙ append_assoc done ((k, z) ∷ []) m))

  text_back :
      (m : Map String V) (key s : String)
      → lookup key m ≡ some (j.string s)
      → text_at j m key ≡ some s
  text_back m key s e = ground (arith, e, h.str_string s)

  session_back : (o : Option String) → j.as_str (text_or_null j (pos 0) o) ≡ o
  session_back none = h.str_null
  session_back (some s) = h.str_string s

  object_back :
      (now : ℤ) (client_id : String) (session_id : Option String) (epoch : ℕ)
      (codecs : List EncodingFormat) (token : String) (last_offsets : Map String ℤ)
      (features : List String) (sdk : String)
      → epoch < 2 ^ 32
      → IsMap last_offsets
      → AllValues IsI64 last_offsets
      → read_object j
          (hello_body j now client_id session_id epoch codecs token last_offsets features sdk)
        ≡ ok (hello_meant client_id session_id epoch codecs last_offsets, some token)
  unfolding hello_body lookup read_version mode_named
  object_back now client_id session_id epoch codecs token last_offsets features sdk small u fits =
      ground (
        arith,
        h.u64_number wire_version (omega arith),
        h.u64_number epoch (omega arith),
        h.str_string "rift",
        h.str_string client_id,
        h.str_string token,
        h.str_string "bearer",
        session_back session_id,
        h.array_array (map (λ c. j.string (codec_name c)) codecs),
        codecs_back codecs,
        h.array_array (j.string "bearer" ∷ []),
        h.object_object (map (λ (k, z). (k, j.number z)) last_offsets),
        offsets_back last_offsets [] u fits (Apart-nil last_offsets),
      )

  -- A hello that a client sends is read back by the server with every field that the server reads, and
  -- its token: where its body parses as it was printed, the epoch fits 32 bits, and the offsets fit 64
  -- and are of different topics. Features and the SDK are not read.
  pub decode_hello_payload-hello_frame :
      (now : ℤ) (id : ℕ) (client_id : String) (session_id : Option String) (epoch : ℕ)
      (codecs : List EncodingFormat) (token : String) (last_offsets : Map String ℤ)
      (features : List String) (sdk : String)
      → j.from_slice (
          j.to_string (
            j.object
              (hello_body j now client_id session_id epoch codecs token last_offsets features sdk)))
        ≡ parsed (
            j.object
              (hello_body j now client_id session_id epoch codecs token last_offsets features sdk))
      → epoch < 2 ^ 32
      → IsMap last_offsets
      → AllValues IsI64 last_offsets
      → decode_hello_payload j
          (hello_frame j now id client_id session_id epoch codecs token last_offsets features
            sdk).payload
        ≡ ok (hello_meant client_id session_id epoch codecs last_offsets, some token)
  unfolding decode_hello_payload hello_frame
  decode_hello_payload-hello_frame now id client_id session_id epoch codecs token last_offsets
        features sdk printed small u fits =
      let m = hello_body j now client_id session_id epoch codecs token last_offsets features sdk in
      ap (read_parsed j) printed
      ∙ (ap (read_value j) (h.object_object m)
          ∙ object_back now client_id session_id epoch codecs token last_offsets features sdk small
              u fits)
