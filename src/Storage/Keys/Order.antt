-- ===== src/Storage/Keys/Order.antt =====
-- rifts-storage/src/encode.rs: the order of the keys of a log is the order of its offsets.
use mathlib.Core.List.{append-nil, append_assoc}
use native.Mathlib.Nat.{pow-suc}
use rifts.Prelude.{
  ℕ, zero, suc, ◌+◌, ◌/◌, ◌%◌, ◌^◌, ◌<◌, ◌≡◌, refl, ap, sym, ◌∙◌, Bool, true, false, ◌&&◌, ◌||◌,
  not, List, [], ◌∷◌, ◌++◌, length, length-append, ltb, leb, if◌then◌else◌, arith,
}
use rifts.Prelude.Int.{pos}
use rifts.Storage.Keys.{sep, digits, padded, log_key, log_range_start, log_range_end}

-- The order of byte strings.
pub before : List ℕ → List ℕ → Bool
before [] [] = false
before [] (y ∷ ys) = true
before (x ∷ xs) [] = false
before (x ∷ xs) (y ∷ ys) =
    let rest = before xs ys in if ltb x y then true else if ltb y x then false else rest

before-common : (p xs ys : List ℕ) → before (p ++ xs) (p ++ ys) ≡ before xs ys
unfolding before
before-common [] xs ys = refl
before-common (b ∷ p) xs ys = ground (arith, before-common p xs ys)

-- Of strings as long as each other the first part decides, and the rest where the first parts agree.
before-parts :
    (xs ys us vs : List ℕ)
    → length xs ≡ length ys
    → before (xs ++ us) (ys ++ vs) ≡ (before xs ys || (not (before ys xs) && before us vs))
unfolding before
before-parts [] [] us vs h = refl
before-parts [] (y ∷ ys) us vs h = absurd (omega arith)
before-parts (x ∷ xs) [] us vs h = absurd (omega arith)
before-parts (x ∷ xs) (y ∷ ys) us vs h = ground (arith, before-parts xs ys us vs (omega arith))

length-digits : (w n : ℕ) → length (digits w n) ≡ w
unfolding digits
length-digits zero n = refl
length-digits (suc w) n =
    omega
      (arith, length-append (digits w (n / 10)) ((b'0' + n % 10) ∷ []), length-digits w (n / 10))

before-digits : (w a b : ℕ) → a < 10 ^ w → b < 10 ^ w → before (digits w a) (digits w b) ≡ ltb a b
unfolding digits before
before-digits zero a b h k = ground arith
before-digits (suc w) a b h k = ground (
  arith,
  before-parts (digits w (a / 10)) (digits w (b / 10)) ((b'0' + a % 10) ∷ []) ((b'0' + b % 10) ∷ [])
      (omega (arith, length-digits w (a / 10), length-digits w (b / 10))),
  before-digits w (a / 10) (b / 10) (omega (arith, pow-suc 10 w)) (omega (arith, pow-suc 10 w)),
  before-digits w (b / 10) (a / 10) (omega (arith, pow-suc 10 w)) (omega (arith, pow-suc 10 w)),
)

-- The keys of a topic's log stand in the order of the offsets, for offsets that are not negative.
pub log_key-before :
    (topic : List ℕ) (a b : ℕ)
    → a < 2 ^ 63
    → b < 2 ^ 63
    → before (log_key topic (pos a)) (log_key topic (pos b)) ≡ ltb a b
unfolding log_key padded before
log_key-before topic a b h k = ground (
  arith,
  before-common topic (sep ∷ digits 20 a) (sep ∷ digits 20 b),
  before-digits 20 a b (omega arith) (omega arith),
)

before-end :
    (w a b : ℕ)
    → a < 10 ^ w
    → b < 10 ^ w
    → before (digits w a ++ []) (digits w b ++ 0xFF ∷ []) ≡ leb a b
unfolding before
before-end w a b h k = ground (
  arith,
  before-parts (digits w a) (digits w b) [] (0xFF ∷ [])
      (omega (arith, length-digits w a, length-digits w b)),
  before-digits w a b h k,
  before-digits w b a k h,
)

before-range_end :
    (topic : List ℕ) (to o : ℕ)
    → to < 2 ^ 63
    → o < 2 ^ 63
    → before (log_key topic (pos o)) (log_range_end topic (pos to)) ≡ leb o to
unfolding log_range_end log_key padded before
before-range_end topic to o h k =
    rw
      (
        append_assoc topic (sep ∷ digits 20 to) (0xFF ∷ []),
        before-common topic (sep ∷ digits 20 o) (sep ∷ digits 20 to ++ 0xFF ∷ []),
      )
      (sym (ap (λ xs. before xs (digits 20 to ++ 0xFF ∷ [])) (append-nil (digits 20 o)))
        ∙ before-end 20 o to (omega arith) (omega arith))

pub log_range_exact :
    (topic : List ℕ) (from to o : ℕ)
    → from < 2 ^ 63
    → to < 2 ^ 63
    → o < 2 ^ 63
    → (not (before (log_key topic (pos o)) (log_range_start topic (pos from)))
        && before (log_key topic (pos o)) (log_range_end topic (pos to)))
      ≡ (leb from o && leb o to)
unfolding log_range_start
log_range_exact topic from to o h k l =
    ground (arith, log_key-before topic o from l h, before-range_end topic to o k l)
