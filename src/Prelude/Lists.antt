-- ===== src/Prelude/Lists.antt =====
-- Lists measured by native numbers, and predicates on every element.
use Prim.Native.Nat.{ℕ, zero, suc, ◌+◌, ◌-◌, ◌≤◌}
use mathlib.Core.Path.{◌≡◌, refl, ap, sym, ◌∙◌}
use mathlib.Core.Bool.{Bool, true, false}
use mathlib.Core.Option.{Option, none, some}
use mathlib.Core.List.{List, [], ◌∷◌, ◌++◌, Memᴰ}
use mathlib.Core.Logic.{◌↔◌, inl, inr}
use native.Mathlib.Omega.{arith}
use rifts.Prelude.Tests.{if◌then◌else◌, Bool-cases}

module _ {ℓ} {A : Type ℓ} where
  abbrev pub length : List A → ℕ
  length [] = 0
  length (x ∷ xs) = suc (length xs)

  abbrev pub take : ℕ → List A → List A
  take zero xs = []
  take (suc n) [] = []
  take (suc n) (x ∷ xs) = x ∷ take n xs

  abbrev pub drop : ℕ → List A → List A
  drop zero xs = xs
  drop (suc n) [] = []
  drop (suc n) (x ∷ xs) = drop n xs

  -- `Vec::retain` and `Iterator::filter`, by a Boolean test.
  abbrev pub retain : (A → Bool) → List A → List A
  retain p [] = []
  retain p (x ∷ xs) = let rest = retain p xs in if p x then x ∷ rest else rest

  abbrev pub last? : List A → Option A
  last? [] = none
  last? (x ∷ []) = some x
  last? (x ∷ y ∷ xs) = last? (y ∷ xs)

  pub length-append : (xs ys : List A) → length (xs ++ ys) ≡ length xs + length ys
  length-append [] ys = omega arith
  length-append (x ∷ xs) ys = omega (arith, length-append xs ys)

  pub length-drop : (n : ℕ) (xs : List A) → length (drop n xs) ≡ length xs - n
  length-drop zero xs = omega arith
  length-drop (suc n) [] = omega arith
  length-drop (suc n) (x ∷ xs) = omega (arith, length-drop n xs)

  pub length-retain : (p : A → Bool) (xs : List A) → length (retain p xs) ≤ length xs
  length-retain p [] = omega arith
  length-retain p (x ∷ xs) = ground (arith, length-retain p xs)

  pub last?-append : (xs : List A) (x : A) → last? (xs ++ x ∷ []) ≡ some x
  last?-append [] x = refl
  last?-append (y ∷ []) x = refl
  last?-append (y ∷ z ∷ xs) x = last?-append (z ∷ xs) x

-- A predicate of every element, computing to a tuple.
abbrev pub All {ℓ κ} : {A : Type ℓ} → (A → Type κ) → List A → Type κ
All P [] = Unit
All P (x ∷ xs) = P x × All P xs

module _ {ℓ} {A : Type ℓ} where
  pub take-append-drop : (n : ℕ) (xs : List A) → take n xs ++ drop n xs ≡ xs
  take-append-drop zero xs = refl
  take-append-drop (suc n) [] = refl
  take-append-drop (suc n) (x ∷ xs) = ap (◌∷◌ x) (take-append-drop n xs)

  pub length-take_le : (n : ℕ) (xs : List A) → n ≤ length xs → length (take n xs) ≡ n
  length-take_le zero xs h = refl
  length-take_le (suc n) [] h = absurd (omega arith)
  length-take_le (suc n) (x ∷ xs) h = ap suc (length-take_le n xs (omega arith))

module _ {ℓ} {A : Type ℓ} where
  In-cons : (b : Bool) (x y : A) (ys : List A) → Memᴰ x ys → Memᴰ x (if b then y ∷ ys else ys)
  In-cons true x y ys h = Memᴰ.tail h
  In-cons false x y ys h = h

  pub retain-In :
      (p : A → Bool) (x : A) (xs : List A) → Memᴰ x xs → p x ≡ true → Memᴰ x (retain p xs)
  retain-In p x [] m h = elim m [ ]
  retain-In p x (y ∷ ys) (Memᴰ.head e) h = rw (ap p (sym e) ∙ h) (Memᴰ.head e)
  retain-In p x (y ∷ ys) (Memᴰ.tail m) h = In-cons (p y) x y (retain p ys) (retain-In p x ys m h)

  In-retain_inv :
      (p : A → Bool) (x : A) (xs : List A) → Memᴰ x (retain p xs) → Memᴰ x xs × (p x ≡ true)
  In-retain_inv p x [] h = elim h [ ]
  In-retain_inv p x (y ∷ ys) h = elim (Bool-cases (p y)) [
    | inl kept ↦ first (In-retain_inv p x ys) kept (rw kept at h)
    | inr dropped ↦ later (In-retain_inv p x ys) (rw dropped at h)
  ]
    where
      later :
          (Memᴰ x (retain p ys) → Memᴰ x ys × (p x ≡ true))
          → Memᴰ x (retain p ys)
          → Memᴰ x (y ∷ ys) × (p x ≡ true)
      later ih m = let (there, holds) = ih m in (Memᴰ.tail there, holds)

      first :
          (Memᴰ x (retain p ys) → Memᴰ x ys × (p x ≡ true))
          → p y ≡ true
          → Memᴰ x (y ∷ retain p ys)
          → Memᴰ x (y ∷ ys) × (p x ≡ true)
      first ih kept (Memᴰ.head e) = (Memᴰ.head e, ap p e ∙ kept)
      first ih kept (Memᴰ.tail m) = later ih m

  -- `retain` keeps the elements that pass the test, and no others.
  pub In-retain :
      (p : A → Bool) (x : A) (xs : List A) → Memᴰ x (retain p xs) ↔ (Memᴰ x xs × (p x ≡ true))
  In-retain p x xs = (In-retain_inv p x xs, λ h. retain-In p x xs h.0 h.1)

  pub last?-suffix :
      (front : List A) (y : A) (ys : List A) → last? (front ++ y ∷ ys) ≡ last? (y ∷ ys)
  last?-suffix [] y ys = refl
  last?-suffix (x ∷ []) y ys = refl
  last?-suffix (x ∷ z ∷ front) y ys = last?-suffix (z ∷ front) y ys

  pub retain-snoc :
      (p : A → Bool) (xs : List A) (x : A)
      → p x ≡ true
      → retain p (xs ++ x ∷ []) ≡ retain p xs ++ x ∷ []
  retain-snoc p [] x h = rw h
  retain-snoc p (y ∷ ys) x h = ground (arith, retain-snoc p ys x h)
