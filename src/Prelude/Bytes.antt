-- ===== src/Prelude/Bytes.antt =====
-- Big-endian numbers: `to_be_bytes` and `from_be_bytes`, with a number of any width.
use Prim.Native.Nat.{ℕ, zero, suc, ◌+◌, ◌*◌, ◌/◌, ◌%◌, ◌^◌, ◌<◌}
use mathlib.Core.Path.{◌≡◌, refl}
use mathlib.Core.List.{List, [], ◌∷◌, ◌++◌, append-nil, append_assoc}
use native.Mathlib.Nat.{pow-suc}
use native.Mathlib.Omega.{arith}
use rifts.Prelude.Lists.{length, length-append, All}

unfoldable pub to_be_bytes : (width : ℕ) → ℕ → List ℕ
to_be_bytes zero v = []
to_be_bytes (suc w) v = to_be_bytes w (v / 256) ++ v % 256 ∷ []

be_value : ℕ → List ℕ → ℕ
be_value acc [] = acc
be_value acc (b ∷ bs) = be_value (acc * 256 + b) bs

unfoldable pub from_be_bytes : List ℕ → ℕ
unfolding be_value
from_be_bytes bs = be_value 0 bs

pub length-to_be_bytes : (w v : ℕ) → length (to_be_bytes w v) ≡ w
unfolding to_be_bytes
length-to_be_bytes zero v = refl
length-to_be_bytes (suc w) v =
    omega (
      arith,
      length-append (to_be_bytes w (v / 256)) (v % 256 ∷ []),
      length-to_be_bytes w (v / 256),
    )

be_value-snoc :
    (acc : ℕ) (bs : List ℕ) (b : ℕ) → be_value acc (bs ++ b ∷ []) ≡ be_value acc bs * 256 + b
unfolding be_value
be_value-snoc acc [] b = refl
be_value-snoc acc (c ∷ bs) b = be_value-snoc (acc * 256 + c) bs b

-- A number that fits is read back.
pub from_be_bytes-to_be_bytes : (w v : ℕ) → v < 256 ^ w → from_be_bytes (to_be_bytes w v) ≡ v
unfolding from_be_bytes to_be_bytes
from_be_bytes-to_be_bytes zero v h = omega arith
from_be_bytes-to_be_bytes (suc w) v h = omega (
  arith,
  be_value-snoc 0 (to_be_bytes w (v / 256)) (v % 256),
  from_be_bytes-to_be_bytes w (v / 256) (omega (arith, pow-suc 256 w)),
)

abbrev pub IsByte : ℕ → Type 0
IsByte b = b < 256

pub All-append {ℓ} : (P : ℕ → Type ℓ) (xs ys : List ℕ) → All P xs → All P ys → All P (xs ++ ys)
All-append P [] ys p q = q
All-append P (x ∷ xs) ys p q = (p.0, All-append P xs ys p.1 q)

pub to_be_bytes-IsByte : (w v : ℕ) → All IsByte (to_be_bytes w v)
unfolding to_be_bytes
to_be_bytes-IsByte zero v = tt
to_be_bytes-IsByte (suc w) v =
    All-append IsByte (to_be_bytes w (v / 256)) (v % 256 ∷ []) (to_be_bytes-IsByte w (v / 256))
      (omega arith, tt)

from_be_bytes-snoc :
    (bs : List ℕ) (b : ℕ) → from_be_bytes (bs ++ b ∷ []) ≡ from_be_bytes bs * 256 + b
unfolding from_be_bytes
from_be_bytes-snoc bs b = be_value-snoc 0 bs b

to_be_bytes-snoc :
    (w : ℕ) (bs : List ℕ) (b : ℕ)
    → b < 256
    → to_be_bytes w (from_be_bytes bs) ≡ bs
    → to_be_bytes (suc w) (from_be_bytes (bs ++ b ∷ [])) ≡ bs ++ b ∷ []
unfolding to_be_bytes
to_be_bytes-snoc w bs b small ih =
    let quotient : from_be_bytes (bs ++ b ∷ []) / 256 ≡ from_be_bytes bs =
      omega (arith, from_be_bytes-snoc bs b) in
    let remainder : from_be_bytes (bs ++ b ∷ []) % 256 ≡ b =
      omega (arith, from_be_bytes-snoc bs b) in
    rw (quotient, remainder, ih)

abbrev pub grown : ℕ → List ℕ → ℕ
grown w [] = w
grown w (b ∷ bs) = grown (suc w) bs

-- Bytes that are read and written again at their width are the same bytes.
pub to_be_bytes-from_be_bytes :
    (w : ℕ) (done bs : List ℕ)
    → All IsByte bs
    → to_be_bytes w (from_be_bytes done) ≡ done
    → to_be_bytes (grown w bs) (from_be_bytes (done ++ bs)) ≡ done ++ bs
to_be_bytes-from_be_bytes w done [] small ih = rw (append-nil done) ih
to_be_bytes-from_be_bytes w done (b ∷ bs) small ih = rw (← append_assoc done (b ∷ []) bs) (
    to_be_bytes-from_be_bytes (suc w) (done ++ b ∷ []) bs small.1
      (to_be_bytes-snoc w done b small.0 ih))

pub rewritten : (bs : List ℕ) → All IsByte bs → to_be_bytes (grown 0 bs) (from_be_bytes bs) ≡ bs
unfolding to_be_bytes
rewritten bs small = to_be_bytes-from_be_bytes 0 [] bs small refl

pub eight_bytes-lt :
    (a b c d e f g h : ℕ)
    → All IsByte (a ∷ b ∷ c ∷ d ∷ e ∷ f ∷ g ∷ h ∷ [])
    → from_be_bytes (a ∷ b ∷ c ∷ d ∷ e ∷ f ∷ g ∷ h ∷ []) < 2 ^ 64
unfolding from_be_bytes
eight_bytes-lt a b c d e f g h small = omega arith

pub four_bytes-lt :
    (a b c d : ℕ) → All IsByte (a ∷ b ∷ c ∷ d ∷ []) → from_be_bytes (a ∷ b ∷ c ∷ d ∷ []) < 2 ^ 32
unfolding from_be_bytes
four_bytes-lt a b c d small = omega arith
