-- ===== src/Frame/Text/Fields.antt =====
-- A frame as the object of its fields, and back: rifts-core/src/frame_codec.rs.
use rifts.Prelude.{
  ℕ, ◌^◌, ◌<◌, ◌%◌, ◌≡◌, refl, ap, ◌∙◌, String, Option, none, some, List, [], ◌∷◌, string_eq, arith,
}
use rifts.Prelude.Int.{pos}
use rifts.Prelude.Map.{Map, lookup}
use rifts.Errors.{ok}
use rifts.Json.{Json, IsJson, parsed}
use rifts.Frame.Types.{
  FrameType, control, frame_data, ack, flow, frame_error, EncodingFormat, json, cbor,
  frame_type_name, codec_name,
}
use rifts.Frame.Envelope.{Frame}
use rifts.Frame.Codec.RoundTrip.{IsWireSized}
use rifts.Frame.Text.{
  decode_text_frame, read_text, read_envelope, read_fields, type_named, codec_or_json, chain,
}

abbrev pub FitsU32 : Option ℕ → Type 0
FitsU32 none = Unit
FitsU32 (some n) = n < 2 ^ 32

module _ {V : Type 0} (j : Json V) where
  abbrev pub string_or_null : Option String → V
  string_or_null none = j.null
  string_or_null (some s) = j.string s

  abbrev pub natural_or_null : Option ℕ → V
  natural_or_null none = j.null
  natural_or_null (some n) = j.number (pos n)

  -- The object whose fields correspond to those of the frame, with `v` for its payload.
  abbrev pub text_fields : Frame → V → Map String V
  text_fields f v =
      ("type", j.string (frame_type_name f.frame_type))
      ∷ ("codec", j.string (codec_name f.codec))
      ∷ ("frame_id", j.number (pos f.frame_id))
      ∷ ("timestamp", j.number f.timestamp)
      ∷ ("flags", j.number (pos f.flags.bits))
      ∷ ("session_id", string_or_null f.session_id)
      ∷ ("stream_id", string_or_null f.stream_id)
      ∷ ("topic", string_or_null f.topic)
      ∷ ("event", string_or_null f.event)
      ∷ ("message_id", string_or_null f.message_id)
      ∷ ("correlation_id", string_or_null f.correlation_id)
      ∷ ("trace_id", string_or_null f.trace_id)
      ∷ ("ttl_ms", natural_or_null f.ttl_ms)
      ∷ ("payload", v)
      ∷ []

  -- What survives a text frame: all but the version and the priority.
  abbrev pub in_text : Frame → V → Frame
  in_text f v = record f { version = 0x0100; priority = none; payload = some (j.to_string v) }

module _ {V : Type 0} (j : Json V) (h : IsJson j) where
  string_back : (o : Option String) → j.as_str (string_or_null j o) ≡ o
  string_back none = h.str_null
  string_back (some s) = h.str_string s

  ttl_back :
      (o : Option ℕ)
      → FitsU32 o
      → chain (j.as_u64 (natural_or_null j o)) (λ n. some (n % 2 ^ 32)) ≡ o
  ttl_back none fits = rw h.u64_null refl
  ttl_back (some n) fits = ground (arith, fits, h.u64_number n (omega (arith, fits)))

  type_back : (t : FrameType) → type_named (j.as_str (j.string (frame_type_name t))) ≡ ok t
  unfolding type_named frame_type_name
  type_back control = rw (h.str_string "control") refl
  type_back frame_data = rw (h.str_string "data") refl
  type_back ack = rw (h.str_string "ack") refl
  type_back flow = rw (h.str_string "flow") refl
  type_back frame_error = rw (h.str_string "error") refl

  codec_back : (c : EncodingFormat) → codec_or_json (j.as_str (j.string (codec_name c))) ≡ c
  unfolding codec_or_json codec_name
  codec_back json = rw (h.str_string "json") refl
  codec_back cbor = rw (h.str_string "cbor") refl

  fields_back :
      (f : Frame) (v : V)
      → IsWireSized f
      → FitsU32 f.ttl_ms
      → read_fields j (text_fields j f v) ≡ ok (in_text j f v)
  unfolding lookup
  fields_back f v sized fits = ground (
    arith,
    type_back f.frame_type,
    codec_back f.codec,
    h.u64_number f.frame_id sized.frame_id_fits,
    h.i64_number f.timestamp sized.timestamp_fits,
    h.u64_number f.flags.bits (omega (arith, sized.flags_fit)),
    sized.flags_fit,
    string_back f.session_id,
    string_back f.stream_id,
    string_back f.topic,
    string_back f.event,
    string_back f.message_id,
    string_back f.correlation_id,
    string_back f.trace_id,
    ttl_back f.ttl_ms fits,
  )

  -- The object of a frame's fields decodes to that frame, its topic, event and ids included, with the
  -- printed payload, at version 1.0 and without a priority: where the numbers fit their types.
  pub decode_text_frame-text_fields :
      (f : Frame) (v : V) (buf : List ℕ)
      → j.from_slice buf ≡ parsed (j.object (text_fields j f v))
      → IsWireSized f
      → FitsU32 f.ttl_ms
      → decode_text_frame j buf ≡ ok (in_text j f v)
  unfolding decode_text_frame
  decode_text_frame-text_fields f v buf read sized fits =
      ap (read_text j) read
      ∙ (ap (read_envelope j) (h.object_object (text_fields j f v)) ∙ fields_back f v sized fits)
