-- ===== src/Frame/Flags.antt =====
-- rifts-core/src/frame/types.rs, `FrameFlags`: a `u16` bitmap. `&` and `|` are the native ones and
-- `!flag` on `u16` is `complement 16 flag`.
use Prim.Native.Nat.{bit_and, bit_or}
use rifts.Prelude.{ℕ, ◌≡◌, ◌<◌, ◌^◌, Bool, true, false, arith, ◌==◌, nat_eq}
use rifts.Prelude.Bits.{
  complement, and-or_self, and-or_disjoint, and-clear_self, and-clear_disjoint, and-le_left, or-lt,
}

pub record FrameFlags : Type 0 where
  pub bits : ℕ

abbrev pub compressed : ℕ
compressed = 0x1

abbrev pub encrypted : ℕ
encrypted = 0x2

abbrev pub fragmented : ℕ
fragmented = 0x4

abbrev pub final_fragment : ℕ
final_fragment = 0x8

abbrev pub requires_ack_flag : ℕ
requires_ack_flag = 0x10

abbrev pub replayed : ℕ
replayed = 0x20

abbrev pub snapshot_flag : ℕ
snapshot_flag = 0x40

abbrev pub degraded : ℕ
degraded = 0x80

abbrev pub duplicate_flag : ℕ
duplicate_flag = 0x100

abbrev pub trace_flag : ℕ
trace_flag = 0x200

abbrev pub empty : FrameFlags
empty = record { bits = 0 }

-- `from_bits` of a number that a cast `as u16` made.
abbrev pub from_bits : ℕ → FrameFlags
from_bits b = record { bits = b }

unfoldable pub contains : FrameFlags → ℕ → Bool
contains s flag = bit_and s.bits flag == flag

unfoldable pub set : FrameFlags → ℕ → FrameFlags
set s flag = record { bits = bit_or s.bits flag }

unfoldable pub clear : FrameFlags → ℕ → FrameFlags
clear s flag = record { bits = bit_and s.bits (complement 16 flag) }

-- `with` and `without` work on the copy that they are given.
unfoldable pub with_flag : FrameFlags → ℕ → FrameFlags
unfolding set
with_flag s flag = set s flag

unfoldable pub without_flag : FrameFlags → ℕ → FrameFlags
unfolding clear
without_flag s flag = clear s flag

abbrev pub IsU16 : ℕ → Type 0
IsU16 b = b < 2 ^ 16

-- After `set` the flag is contained, and a flag with no bit in common is contained as before.
pub contains-set :
    (s : FrameFlags) (f g : ℕ)
    → IsU16 s.bits
    → IsU16 f
    → bit_and f g ≡ 0
    → (contains (set s f) f ≡ true) × (contains (set s f) g ≡ contains s g)
unfolding contains set
contains-set s f g hs hf d = (
  ground (arith, and-or_self 16 s.bits f hs hf),
  ground (arith, and-or_disjoint 16 s.bits f g hs hf d),
)

-- After `clear` a flag that has a bit is no longer contained, and a flag with no bit in common is
-- contained as before.
pub contains-clear :
    (s : FrameFlags) (f g : ℕ)
    → IsU16 f
    → IsU16 g
    → 0 < f
    → bit_and f g ≡ 0
    → (contains (clear s f) f ≡ false) × (contains (clear s f) g ≡ contains s g)
unfolding contains clear
contains-clear s f g hf hg p d = (
  ground (arith, and-clear_self 16 s.bits f hf),
  ground (arith, and-clear_disjoint 16 s.bits f g hf hg d),
)

-- The bitmap stays a `u16` under both updates.
pub set-IsU16 : (s : FrameFlags) (f : ℕ) → IsU16 s.bits → IsU16 f → IsU16 (set s f).bits
unfolding set
set-IsU16 s f p q = or-lt 16 s.bits f p q

pub clear-IsU16 : (s : FrameFlags) (f : ℕ) → IsU16 s.bits → IsU16 (clear s f).bits
unfolding clear
clear-IsU16 s f p = omega (arith, and-le_left 16 s.bits (complement 16 f) p)
