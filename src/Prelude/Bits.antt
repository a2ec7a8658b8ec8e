-- ===== src/Prelude/Bits.antt =====
-- Laws of `|` and `&` at variables, for flag words: setting, clearing and testing a mask.
use Prim.Native.Nat.{ℕ, zero, suc, ◌+◌, ◌-◌, ◌*◌, ◌/◌, ◌%◌, ◌^◌, ◌≤◌, ◌<◌, min, max}
use Prim.Native.Nat.{bit_and, bit_or, digits, bit_and-bitwise, bit_or-bitwise}
use mathlib.Core.Path.{◌≡◌, refl, sym, ◌∙◌}
use native.Mathlib.Nat.{pow-suc}
use native.Mathlib.Omega.{arith}

-- The digit recursion gives one result for every sufficient fuel.
module _ (rest : ℕ → ℕ) (op : ℕ → ℕ → ℕ) where
  digits_agree : (n m a b : ℕ) → a ≤ n → a ≤ m → digits rest op n a b ≡ digits rest op m a b
  digits_agree n m zero b p q = digits_zero n m
    where
      digits_zero : (n m : ℕ) → digits rest op n zero b ≡ digits rest op m zero b
      digits_zero zero zero = refl
      digits_zero zero (suc m) = refl
      digits_zero (suc n) zero = refl
      digits_zero (suc n) (suc m) = refl
  digits_agree zero m (suc a) b p q = absurd (omega arith)
  digits_agree (suc n) zero (suc a) b p q = absurd (omega arith)
  digits_agree (suc n) (suc m) (suc a) b p q =
      omega (arith, digits_agree n m (suc a / 2) (b / 2) (omega arith) (omega arith))

or-zero_left : (b : ℕ) → bit_or 0 b ≡ b
or-zero_left b = bit_or-bitwise 0 b

and-zero_left : (b : ℕ) → bit_and 0 b ≡ 0
and-zero_left b = bit_and-bitwise 0 b

-- One binary digit at a time.
pub or-step : (a b : ℕ) → bit_or a b ≡ bit_or (a / 2) (b / 2) * 2 + max (a % 2) (b % 2)
or-step zero b = omega (arith, or-zero_left b, or-zero_left (b / 2))
or-step (suc a) b = omega (
  arith,
  bit_or-bitwise (suc a) b,
  bit_or-bitwise (suc a / 2) (b / 2),
  digits_agree (λ b. b) max a (suc a / 2) (suc a / 2) (b / 2) (omega arith) (omega arith),
)

pub and-step : (a b : ℕ) → bit_and a b ≡ bit_and (a / 2) (b / 2) * 2 + min (a % 2) (b % 2)
and-step zero b = omega (arith, and-zero_left b, and-zero_left (b / 2))
and-step (suc a) b = omega (
  arith,
  bit_and-bitwise (suc a) b,
  bit_and-bitwise (suc a / 2) (b / 2),
  digits_agree (λ b. zero) min a (suc a / 2) (suc a / 2) (b / 2) (omega arith) (omega arith),
)

-- The halves and the last digits, in the form that the inductions use.
or-halves :
    (a b : ℕ) → (bit_or a b / 2 ≡ bit_or (a / 2) (b / 2)) × (bit_or a b % 2 ≡ max (a % 2) (b % 2))
or-halves a b = omega (arith, or-step a b)

and-halves :
    (a b : ℕ)
    → (bit_and a b / 2 ≡ bit_and (a / 2) (b / 2)) × (bit_and a b % 2 ≡ min (a % 2) (b % 2))
and-halves a b = omega (arith, and-step a b)

-- A mask that was set is found.
pub and-or_self : (k a f : ℕ) → a < 2 ^ k → f < 2 ^ k → bit_and (bit_or a f) f ≡ f
and-or_self zero zero zero p q = refl
and-or_self zero (suc a) f p q = absurd (omega arith)
and-or_self zero zero (suc f) p q = absurd (omega arith)
and-or_self (suc k) a f p q = ground (
  arith,
  pow-suc 2 k,
  and-step (bit_or a f) f,
  or-halves a f,
  and-or_self k (a / 2) (f / 2) (omega (arith, pow-suc 2 k)) (omega (arith, pow-suc 2 k)),
)

-- Setting a mask leaves a disjoint one as it was.
pub and-or_disjoint :
    (k a f g : ℕ) → a < 2 ^ k → f < 2 ^ k → bit_and f g ≡ 0 → bit_and (bit_or a f) g ≡ bit_and a g
and-or_disjoint zero zero zero g p q d = refl
and-or_disjoint zero (suc a) f g p q d = absurd (omega arith)
and-or_disjoint zero zero (suc f) g p q d = absurd (omega arith)
and-or_disjoint (suc k) a f g p q d = ground (
  arith,
  and-step (bit_or a f) g,
  and-step a g,
  or-halves a f,
  and-halves f g,
  and-or_disjoint k (a / 2) (f / 2) (g / 2) (omega (arith, pow-suc 2 k))
      (omega (arith, pow-suc 2 k)) (omega (arith, and-halves f g)),
)

abbrev pub complement : ℕ → ℕ → ℕ
complement k f = 2 ^ k - 1 - f

complement_halves :
    (k f : ℕ)
    → f < 2 ^ suc k
    → (complement (suc k) f / 2 ≡ complement k (f / 2)) × (complement (suc k) f % 2 ≡ 1 - f % 2)
complement_halves k f p = omega (arith, pow-suc 2 k)

and-zero_right : (a : ℕ) → bit_and a 0 ≡ 0
and-zero_right a = below a a (omega arith)
  where
    below : (n a : ℕ) → a ≤ n → bit_and a 0 ≡ 0
    below n zero p = refl
    below zero (suc a) p = absurd (omega arith)
    below (suc n) (suc a) p = omega (arith, and-step (suc a) 0, below n (suc a / 2) (omega arith))

-- A mask that was cleared has no bit left.
pub and-clear_self : (k a f : ℕ) → f < 2 ^ k → bit_and (bit_and a (complement k f)) f ≡ 0
and-clear_self zero a zero p = and-zero_right (bit_and a 0)
and-clear_self zero a (suc f) p = absurd (omega arith)
and-clear_self (suc k) a f p = ground (
  arith,
  and-step (bit_and a (complement (suc k) f)) f,
  and-halves a (complement (suc k) f),
  complement_halves k f p,
  and-clear_self k (a / 2) (f / 2) (omega (arith, pow-suc 2 k)),
)

-- Clearing a mask leaves a disjoint one as it was.
pub and-clear_disjoint :
    (k a f g : ℕ)
    → f < 2 ^ k
    → g < 2 ^ k
    → bit_and f g ≡ 0
    → bit_and (bit_and a (complement k f)) g ≡ bit_and a g
and-clear_disjoint zero a f zero p q d =
    and-zero_right (bit_and a (complement 0 f)) ∙ sym (and-zero_right a)
and-clear_disjoint zero a f (suc g) p q d = absurd (omega arith)
and-clear_disjoint (suc k) a f g p q d = ground (
  arith,
  and-step (bit_and a (complement (suc k) f)) g,
  and-step a g,
  and-halves a (complement (suc k) f),
  and-halves f g,
  complement_halves k f p,
  and-clear_disjoint k (a / 2) (f / 2) (g / 2) (omega (arith, pow-suc 2 k))
      (omega (arith, pow-suc 2 k)) (omega (arith, and-halves f g)),
)

pub and-le_left : (k a b : ℕ) → a < 2 ^ k → bit_and a b ≤ a
and-le_left zero zero b p = omega (arith, and-zero_left b)
and-le_left zero (suc a) b p = absurd (omega arith)
and-le_left (suc k) a b p =
    omega
      (arith, and-step a b, pow-suc 2 k, and-le_left k (a / 2) (b / 2) (omega (arith, pow-suc 2 k)))

pub or-lt : (k a b : ℕ) → a < 2 ^ k → b < 2 ^ k → bit_or a b < 2 ^ k
or-lt zero zero zero p q = omega arith
or-lt zero (suc a) b p q = absurd (omega arith)
or-lt zero zero (suc b) p q = absurd (omega arith)
or-lt (suc k) a b p q = omega (
  arith,
  or-step a b,
  pow-suc 2 k,
  or-lt k (a / 2) (b / 2) (omega (arith, pow-suc 2 k)) (omega (arith, pow-suc 2 k)),
)
