-- ===== src/Atomic/Linear.antt =====
-- What every interleaving of compare-and-swap loops satisfies.
use rifts.Prelude.{ℕ, ◌≡◌, refl, Option, none, some, List, [], ◌∷◌, arith, subst, sym}
use rifts.Atomic.{System, Quiet, load, lose, quit, Wins, exchange, Trace, start, quiet, wins}

module _ {C : Type 0} (next : ℕ → C → Option C) where
  -- The threads' operations one after another on one number, with nothing in between; the list has
  -- the latest first.
  unfoldable pub in_sequence : C → List ℕ → Option C
  in_sequence c [] = some c
  in_sequence c (i ∷ l) = elim (in_sequence c l) [ none ↦ none | some prev ↦ next i prev ]

  Quiet-cell : {s t : System C} → Quiet next s t → t.cell ≡ s.cell
  Quiet-cell (load i e) = refl
  Quiet-cell (lose i prev v e n) = refl
  Quiet-cell (quit i prev e n) = refl

  Wins-cell : {s : System C} {i : ℕ} {t : System C} → Wins next s i t → next i s.cell ≡ some t.cell
  Wins-cell (exchange prev v e here n) = rw here n

  -- However the loops interleave, the cell holds what the operations that succeeded give when they
  -- run one after another in the order of their exchanges, with no update lost.
  pub Trace-in_sequence :
      {s₀ s : System C} {l : List ℕ} → Trace next s₀ l s → in_sequence s₀.cell l ≡ some s.cell
  unfolding in_sequence
  Trace-in_sequence start = refl
  Trace-in_sequence (quiet r q) = ground (arith, Trace-in_sequence r, Quiet-cell q)
  Trace-in_sequence (wins i r w) = ground (arith, Trace-in_sequence r, Wins-cell w)

  -- A property of the number that every operation keeps holds after every interleaving.
  pub Trace-keeps {ℓ} :
      (P : C → Type ℓ)
      → ((i : ℕ) (prev v : C) → P prev → next i prev ≡ some v → P v)
      → {s₀ s : System C} {l : List ℕ} → P s₀.cell
      → Trace next s₀ l s
      → P s.cell
  Trace-keeps P keep p start = p
  Trace-keeps P keep p (quiet r q) = subst P (sym (Quiet-cell q)) (Trace-keeps P keep p r)
  Trace-keeps P keep p (wins i r w) = keep i _ _ (Trace-keeps P keep p r) (Wins-cell w)
