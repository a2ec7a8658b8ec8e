-- ===== src/Examples/Frames.antt =====
-- Inputs for rifts-core/src/frame and rifts-core/src/frame_codec.rs.
use rifts.Prelude.{
  ℕ, ◌≡◌, refl, ◌≢◌, ◌↔◌, ◌≤◌, Bool, true, none, some, List, [], ◌∷◌, ◌++◌, All, arith, ltb, ◌&&◌,
}
use rifts.Prelude.Int.{pos, as_u64, as_i64}
use rifts.Prelude.Bytes.{IsByte, to_be_bytes, from_be_bytes}
use rifts.Errors.{ok, ◌>>=◌}
use rifts.Frame.Types.{tag, from_tag, codec_tag, codec_from_tag}
use rifts.Frame.Envelope.{Frame, default_frame}
use rifts.Frame.Codec.{encode_frame, decode_binary_frame, decode_body}
use rifts.Json.{Json, parsed}
use rifts.Frame.Text.{decode_text_frame}
use rifts.Frame.Text.Fields.{text_fields, in_text, decode_text_frame-text_fields}
use rifts.Examples.Trees.{Tree, null, str, obj, fields, trees, trees-IsJson}
use rifts.Frame.Codec.RoundTrip.{on_wire, decode-encode}
use rifts.Frame.Codec.Reject.{encode-decode, decodes_exactly}

abbrev sample : Frame
sample = record default_frame {
  frame_id = 258;
  timestamp = pos 1000;
  flags = record { bits = 16 };
  topic = some "orders";
  payload = some (7 ∷ 8 ∷ 9 ∷ []);
}

abbrev sample_bytes : List ℕ
sample_bytes =
    67 ∷ 74 ∷ 0 ∷ 16 ∷ 0 ∷ 0 ∷ 0 ∷ 0 ∷ 0 ∷ 0 ∷ 1 ∷ 2 ∷ 0 ∷ 0 ∷ 0 ∷ 0 ∷ 0 ∷ 0 ∷ 3 ∷ 232 ∷ 0 ∷ 0 ∷ 0
    ∷ 3 ∷ 7 ∷ 8 ∷ 9 ∷ []

sample_encoded : encode_frame sample ≡ ok sample_bytes
unfolding encode_frame tag codec_tag to_be_bytes as_u64
sample_encoded = refl

sample_decoded : decode_binary_frame (sample_bytes ++ 1 ∷ []) 100 ≡ ok (on_wire sample)
unfolding decode_binary_frame from_tag codec_from_tag decode_body from_be_bytes as_i64
sample_decoded = refl

decode-encode_example :
    (encode_frame sample >>= λ bytes. decode_binary_frame bytes 100) ≡ ok (on_wire sample)
decode-encode_example =
    decode-encode sample 100
      (record {
        flags_fit = omega arith;
        frame_id_fits = omega arith;
        timestamp_fits = omega arith;
      })
      (omega arith) (omega arith)

all_bytes : List ℕ → Bool
all_bytes [] = true
all_bytes (b ∷ bs) = ltb b 256 && all_bytes bs

all_bytes_sound : (bs : List ℕ) → all_bytes bs ≡ true → All IsByte bs
unfolding all_bytes
all_bytes_sound [] h = tt
all_bytes_sound (b ∷ bs) h = ground (arith, all_bytes_sound bs)

sample_bytes-IsByte : All IsByte (sample_bytes ++ 1 ∷ [])
unfolding all_bytes
sample_bytes-IsByte = all_bytes_sound (sample_bytes ++ 1 ∷ []) refl

encode-decode_example :
    (bytes rest : List ℕ) × (encode_frame (on_wire sample) ≡ ok bytes)
    × (sample_bytes ++ 1 ∷ [] ≡ bytes ++ rest)
    × (3 ≤ 100)
encode-decode_example =
    encode-decode (sample_bytes ++ 1 ∷ []) 100 (on_wire sample) sample_bytes-IsByte sample_decoded

decodes_exactly_example :
    ((f : Frame) × (decode_binary_frame sample_bytes 2 ≡ ok f))
    ↔ ((24 ≤ 27) × (from_tag 67 ≢ none) × (codec_from_tag 74 ≢ none) × (3 ≤ 2) × (27 ≤ 27))
unfolding from_be_bytes
decodes_exactly_example = decodes_exactly sample_bytes 2

abbrev body : Tree
body = str "seven"

abbrev sample_tree : Tree
sample_tree = obj (fields (text_fields (trees (parsed null)) sample body))

abbrev texts : Json Tree
texts = trees (parsed sample_tree)

decode_text_frame-text_fields_example :
    decode_text_frame texts (123 ∷ []) ≡ ok (in_text texts sample body)
decode_text_frame-text_fields_example =
    decode_text_frame-text_fields texts (trees-IsJson (parsed sample_tree)) sample body (123 ∷ [])
      refl
      (record {
        flags_fit = omega arith;
        frame_id_fits = omega arith;
        timestamp_fits = omega arith;
      })
      tt
