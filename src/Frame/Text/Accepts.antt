-- ===== src/Frame/Text/Accepts.antt =====
-- Which texts `decode_text_frame` takes: rifts-core/src/frame_codec.rs.
use rifts.Prelude.{
  ℕ, ◌≡◌, ◌↔◌, refl, ap, sym, ◌∙◌, String, Option, none, some, List, string_eq, arith,
}
use rifts.Prelude.Map.{Map}
use rifts.Errors.{Result, ok, err}
use rifts.Json.{Json, Parsed, broken, parsed}
use rifts.Frame.Types.{FrameType, control, frame_data, ack, flow, frame_error, frame_type_name}
use rifts.Frame.Envelope.{Frame}
use rifts.Frame.Text.{decode_text_frame, type_named, read_fields, text_of, frame_of}

-- A frame type has the name, and without a name it is Data.
abbrev pub Names : Option String → FrameType → Type 0
Names none t = t ≡ frame_data
Names (some s) t = s ≡ frame_type_name t

type_named_exact : (o : Option String) (t : FrameType) → (type_named o ≡ ok t) ↔ Names o t
unfolding type_named frame_type_name
type_named_exact none t = (λ e. ground (arith, e), λ e. ground (arith, e))
type_named_exact (some s) t = (forth t, back t)
  where
    forth : (t : FrameType) → type_named (some s) ≡ ok t → s ≡ frame_type_name t
    forth t e = ground (
      arith,
      e,
      string_eq.beq_iff s "control",
      string_eq.beq_iff s "data",
      string_eq.beq_iff s "ack",
      string_eq.beq_iff s "flow",
      string_eq.beq_iff s "error",
    )

    back : (t : FrameType) → s ≡ frame_type_name t → type_named (some s) ≡ ok t
    back control e = rw e refl
    back frame_data e = rw e refl
    back ack e = rw e refl
    back flow e = rw e refl
    back frame_error e = rw e refl

module _ {V : Type 0} (j : Json V) where
  -- The object gives the frame: its type is named, or left out for Data, and the rest is read from it.
  pub record IsTextOf (obj : Map String V) (f : Frame) : Type 0 where
    pub named : Names (text_of j obj "type") f.frame_type
    pub filled : f ≡ frame_of j obj f.frame_type

  read_fields_exact : (obj : Map String V) (f : Frame) → (read_fields j obj ≡ ok f) ↔ IsTextOf obj f
  read_fields_exact obj f = (forth (type_named (text_of j obj "type")) refl, back)
    where
      forth :
          (r : Result FrameType)
          → type_named (text_of j obj "type") ≡ r
          → read_fields j obj ≡ ok f
          → IsTextOf obj f
      forth (err e) eq h = ground (arith, eq, h)
      forth (ok t) eq h =
          let same : f ≡ frame_of j obj t = ground (arith, eq, h) in
          record {
            named =
                (type_named_exact (text_of j obj "type") f.frame_type).0
                  (eq ∙ ap (λ g. ok g.frame_type) (sym same));
            filled = same ∙ ap (λ g. frame_of j obj g.frame_type) (sym same);
          }

      back : IsTextOf obj f → read_fields j obj ≡ ok f
      back h =
          ground (arith, (type_named_exact (text_of j obj "type") f.frame_type).1 h.named, h.filled)

  -- A text frame is decoded exactly where it parses to an object whose `type` is the name of a frame
  -- type, or is no text, for Data; the other fields are read from the object or left at their defaults,
  -- whatever it holds.
  pub decode_text_frame_exact :
      (buf : List ℕ) (f : Frame)
      → (decode_text_frame j buf ≡ ok f) ↔ (
          (v : V) × (obj : Map String V) × (j.from_slice buf ≡ parsed v)
          × (j.as_object v ≡ some obj)
          × IsTextOf obj f)
  unfolding decode_text_frame
  decode_text_frame_exact buf f = (forth (j.from_slice buf) refl, back)
    where
      in_object :
          (v : V) (o : Option (Map String V))
          → j.from_slice buf ≡ parsed v
          → j.as_object v ≡ o
          → decode_text_frame j buf ≡ ok f
          → (v : V) × (obj : Map String V) × (j.from_slice buf ≡ parsed v)
            × (j.as_object v ≡ some obj)
            × IsTextOf obj f
      in_object v none read e h = ground (arith, read, e, h)
      in_object v (some obj) read e h =
          (v, obj, read, e, (read_fields_exact obj f).0 (ground (arith, read, e, h)))

      forth :
          (p : Parsed V)
          → j.from_slice buf ≡ p
          → decode_text_frame j buf ≡ ok f
          → (v : V) × (obj : Map String V) × (j.from_slice buf ≡ parsed v)
            × (j.as_object v ≡ some obj)
            × IsTextOf obj f
      forth (broken m) read h = ground (arith, read, h)
      forth (parsed v) read h = in_object v (j.as_object v) read refl h

      back :
          ((v : V) × (obj : Map String V) × (j.from_slice buf ≡ parsed v)
            × (j.as_object v ≡ some obj)
            × IsTextOf obj f)
          → decode_text_frame j buf ≡ ok f
      back (v, obj, read, e, h) = ground (arith, read, e, (read_fields_exact obj f).1 h)
