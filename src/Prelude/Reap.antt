-- ===== src/Prelude/Reap.antt =====
-- The loop that first collects the keys of the entries that pass a test and then removes each.
use Prim.Native.Nat.{◌≤◌}
use mathlib.Core.Path.{◌≡◌, refl}
use mathlib.Core.Bool.{Bool, false, ◌||◌}
use mathlib.Core.Option.{Option, none, some}
use mathlib.Core.List.{List, [], ◌∷◌}
use native.Mathlib.Omega.{arith}
use rifts.Prelude.Tests.{if◌then◌else◌}
use rifts.Prelude.Lists.{length, retain}
use rifts.Prelude.Keys.{Eq}
use rifts.Prelude.Map.{Map, keys, lookup, remove, lookup-remove, length-remove, IsMap, remove-IsMap}

abbrev pub member {ℓ} : {K : Type ℓ} ⦃e : Eq K⦄ → K → List K → Bool
member j [] = false
member ⦃e⦄ j (k ∷ ks) = e.beq k j || member j ks

module _ {ℓ κ} {K : Type ℓ} {V : Type κ} ⦃e : Eq K⦄ where
  abbrev pub keys_where : (K → V → Bool) → Map K V → List K
  keys_where p m = keys (retain (λ (k, v). p k v) m)

  unfoldable pub remove_all : List K → Map K V → Map K V
  remove_all [] m = m
  remove_all (k ∷ ks) m = remove_all ks (remove k m)

  abbrev pub passes : (K → V → Bool) → K → Option V → Bool
  passes p j none = false
  passes p j (some v) = p j v

  pub lookup-remove_all :
      (ks : List K) (j : K) (m : Map K V)
      → lookup j (remove_all ks m) ≡ (if member j ks then none else lookup j m)
  unfolding remove_all
  lookup-remove_all [] j m = refl
  lookup-remove_all (k ∷ ks) j m =
      ground (arith, lookup-remove_all ks j (remove k m), lookup-remove k j m)

  pub remove_all-IsMap : (ks : List K) (m : Map K V) → IsMap m → IsMap (remove_all ks m)
  unfolding remove_all
  remove_all-IsMap [] m h = h
  remove_all-IsMap (k ∷ ks) m h = remove_all-IsMap ks (remove k m) (remove-IsMap k m h)

  pub length-remove_all : (ks : List K) (m : Map K V) → length (remove_all ks m) ≤ length m
  unfolding remove_all
  length-remove_all [] m = omega arith
  length-remove_all (k ∷ ks) m = omega (arith, length-remove_all ks (remove k m), length-remove k m)

  pub member-keys_where :
      (p : K → V → Bool) (j : K) (m : Map K V)
      → IsMap m
      → member j (keys_where p m) ≡ passes p j (lookup j m)
  unfolding lookup
  member-keys_where p j [] h = refl
  member-keys_where p j ((k, v) ∷ m) h = ground (arith, member-keys_where p j m h.1, e.beq_iff k j)

  -- What is left is every entry that fails the test.
  pub lookup-reap :
      (p : K → V → Bool) (j : K) (m : Map K V)
      → IsMap m
      → lookup j (remove_all (keys_where p m) m)
        ≡ (if passes p j (lookup j m) then none else lookup j m)
  lookup-reap p j m h =
      ground (arith, lookup-remove_all (keys_where p m) j m, member-keys_where p j m h)
