-- ===== src/Frame/Types.antt =====
-- rifts-core/src/frame/types.rs: frame categories, payload encodings and priorities.
-- A `u8` tag is a native number; the byte tests of a Rust `match` are tests by `==`, in its order.
use rifts.Prelude.{
  ℕ, String, ◌≡◌, refl, ◌≢◌, ◌≤◌, ◌<◌, ◌↔◌, Option, none, some, arith, ◌==◌, nat_eq, if◌then◌else◌,
}

pub data FrameType : Type 0 where
  control frame_data ack flow frame_error : FrameType

pub data EncodingFormat : Type 0 where
  json cbor : EncodingFormat

pub data Priority : Type 0 where
  background volatile low normal high critical : Priority

pub FrameType-discrete : Discrete FrameType
FrameType-discrete = hlevel

unfoldable pub tag : FrameType → ℕ
tag control = b'C'
tag frame_data = b'D'
tag ack = b'A'
tag flow = b'F'
tag frame_error = b'E'

unfoldable pub from_tag : ℕ → Option FrameType
from_tag t =
    if t == b'C'
    then some control
    else if t == b'D'
    then some frame_data
    else if t == b'A'
    then some ack
    else if t == b'F'
    then some flow
    else if t == b'E'
    then some frame_error
    else none

unfoldable pub frame_type_name : FrameType → String
frame_type_name control = "control"
frame_type_name frame_data = "data"
frame_type_name ack = "ack"
frame_type_name flow = "flow"
frame_type_name frame_error = "error"

unfoldable pub codec_tag : EncodingFormat → ℕ
codec_tag json = b'J'
codec_tag cbor = b'B'

unfoldable pub codec_from_tag : ℕ → Option EncodingFormat
codec_from_tag t = if t == b'J' then some json else if t == b'B' then some cbor else none

unfoldable pub codec_name : EncodingFormat → String
codec_name json = "json"
codec_name cbor = "cbor"

unfoldable pub as_u8 : Priority → ℕ
as_u8 background = 0
as_u8 volatile = 1
as_u8 low = 2
as_u8 normal = 3
as_u8 high = 4
as_u8 critical = 5

unfoldable pub from_u8 : ℕ → Option Priority
from_u8 v =
    if v == 0
    then some background
    else if v == 1
    then some volatile
    else if v == 2
    then some low
    else if v == 3
    then some normal
    else if v == 4
    then some high
    else if v == 5
    then some critical
    else none

-- `Priority::default`.
abbrev pub default_priority : Priority
default_priority = normal

pub from_tag-tag : (t : FrameType) → from_tag (tag t) ≡ some t
unfolding from_tag tag
from_tag-tag control = refl
from_tag-tag frame_data = refl
from_tag-tag ack = refl
from_tag-tag flow = refl
from_tag-tag frame_error = refl

pub codec_from_tag-codec_tag : (c : EncodingFormat) → codec_from_tag (codec_tag c) ≡ some c
unfolding codec_from_tag codec_tag
codec_from_tag-codec_tag json = refl
codec_from_tag-codec_tag cbor = refl

pub tag-lt : (t : FrameType) → tag t < 256
unfolding tag
tag-lt t = ground arith

pub codec_tag-lt : (c : EncodingFormat) → codec_tag c < 256
unfolding codec_tag
codec_tag-lt c = ground arith

-- A byte decodes to a frame type exactly when it is that type's tag, and to a codec exactly when
-- it is that codec's tag, so no two share a byte and every other byte is refused.
pub tags_exact :
    (b : ℕ) (t : FrameType) (c : EncodingFormat)
    → ((from_tag b ≡ some t) ↔ (b ≡ tag t)) × ((codec_from_tag b ≡ some c) ↔ (b ≡ codec_tag c))
unfolding from_tag tag codec_from_tag codec_tag
tags_exact b t c = ((λ h. ground arith, λ h. ground arith), (λ h. ground arith, λ h. ground arith))

-- `from_u8` and `as_u8` are inverse: a byte is accepted exactly when it is the number of a
-- priority, which is then returned, and that is so for the bytes up to 5 and no other.
pub from_u8-as_u8 :
    (v : ℕ) (p : Priority) → ((from_u8 v ≡ some p) ↔ (v ≡ as_u8 p)) × ((from_u8 v ≢ none) ↔ (v ≤ 5))
unfolding from_u8 as_u8
from_u8-as_u8 v p =
    ((λ h. ground arith, λ h. ground arith), (λ h. ground arith, λ h. λ e. ground arith))
