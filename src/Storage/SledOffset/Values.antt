-- ===== src/Storage/SledOffset/Values.antt =====
-- rifts-storage/src/offset.rs: the bytes of an offset and of a key, read back, and sums with 1 that are
-- undone.
use rifts.Prelude.{
  ℕ, ◌^◌, ◌≡◌, refl, ap, sym, ◌∙◌, nat_eq, list_eq, string_eq, some, List, [], ◌∷◌, ◌++◌, length,
  length-append, take, ltb, arith, Bool-cases, inl, inr, ◌%◌,
}
use rifts.Prelude.Int.{
  ℤ, pos, negsuc, as_u64, as_i64, as_u64-lt, as_i64-as_u64, i64_add, i64_sub, ◌+ℤ◌, ◌-ℤ◌, IsI64,
}
use rifts.Prelude.Bytes.{to_be_bytes, length-to_be_bytes, from_be_bytes-to_be_bytes}
use rifts.Storage.Keys.{offset_key}
use rifts.Storage.SledOffset.{value_of, read_offset, or_zero, topic_part}

take-length : (xs : List ℕ) → take (length xs) xs ≡ xs
take-length [] = refl
take-length (x ∷ xs) = ap (◌∷◌ x) (take-length xs)

take-front : (xs ys : List ℕ) → take (length xs) (xs ++ ys) ≡ xs
take-front [] [] = refl
take-front [] (y ∷ ys) = refl
take-front (x ∷ xs) ys = ap (◌∷◌ x) (take-front xs ys)

take_all : (xs : List ℕ) (n : ℕ) → length xs ≡ n → take n xs ≡ xs
take_all xs n h = ap (λ k. take k xs) (sym h) ∙ take-length xs

pub topic_part-offset_key : (topic : List ℕ) → topic_part (offset_key topic) ≡ topic
unfolding offset_key
topic_part-offset_key topic =
    ap (λ n. take n (topic ++ 0 ∷ b'h' ∷ b'e' ∷ b'a' ∷ b'd' ∷ []))
      (omega (arith, length-append topic (0 ∷ b'h' ∷ b'e' ∷ b'a' ∷ b'd' ∷ [])))
    ∙ take-front topic (0 ∷ b'h' ∷ b'e' ∷ b'a' ∷ b'd' ∷ [])

as_i64-IsI64 : (w : ℕ) → IsI64 (as_i64 w)
unfolding as_i64
as_i64-IsI64 w = elim (Bool-cases (ltb (w % 2 ^ 64) (2 ^ 63))) [
  | inl low ↦ rw low (ground (arith, low))
  | inr high ↦ rw high (ground (arith, high))
]

pub i64_add-IsI64 : (a b : ℤ) → IsI64 (i64_add a b)
unfolding i64_add
i64_add-IsI64 a b = as_i64-IsI64 (as_u64 (a +ℤ b))

pub add_back : (c : ℤ) → IsI64 c → i64_add (i64_sub c (pos 1)) (pos 1) ≡ c
unfolding i64_add i64_sub as_u64 as_i64 ◌+ℤ◌ ◌-ℤ◌
add_back (pos n) h = ground arith
add_back (negsuc n) h = ground arith

pub sub_back : (c : ℤ) → IsI64 c → i64_sub (i64_add c (pos 1)) (pos 1) ≡ c
unfolding i64_add i64_sub as_u64 as_i64 ◌+ℤ◌ ◌-ℤ◌
sub_back (pos n) h = ground arith
sub_back (negsuc n) h = ground arith

-- The number that is written is read.
pub value_back : (c : ℤ) → IsI64 c → value_of (to_be_bytes 8 (as_u64 c)) ≡ c
value_back c h = ground (
  arith,
  length-to_be_bytes 8 (as_u64 c),
  take_all (to_be_bytes 8 (as_u64 c)) 8,
  from_be_bytes-to_be_bytes 8 (as_u64 c) (omega (arith, as_u64-lt c)),
  as_i64-as_u64 c h,
)

pub read_back : (c : ℤ) → IsI64 c → or_zero (read_offset (some (to_be_bytes 8 (as_u64 c)))) ≡ c
read_back c h = ground (arith, length-to_be_bytes 8 (as_u64 c), value_back c h)

pub one : i64_add (pos 0) (pos 1) ≡ pos 1
unfolding i64_add as_u64 as_i64 ◌+ℤ◌
one = refl
