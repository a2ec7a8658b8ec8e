-- ===== src/Storage/Engine.antt =====
-- rifts-storage/src/engine.rs: `MemoryEngine`, a map of byte strings. `put` and `delete` never fail
-- here, so they return the engine; `put` also answers how many bytes it wrote.
use rifts.Prelude.{
  ℕ, ◌==◌, nat_eq, Eq, list_eq, Bool, true, false, ◌&&◌, Option, List, [], ◌∷◌, retain, length,
}
use rifts.Prelude.Map.{Map, lookup, insert, remove}

abbrev pub bytes_eq : Eq (List ℕ)
bytes_eq = list_eq

abbrev pub MemoryEngine : Type 0
MemoryEngine = Map (List ℕ) (List ℕ)

unfoldable pub get : MemoryEngine → (key : List ℕ) → Option (List ℕ)
get e key = lookup key e

unfoldable pub put : MemoryEngine → (key value : List ℕ) → MemoryEngine × ℕ
put e key value = (insert key value e, length value)

unfoldable pub delete : MemoryEngine → (key : List ℕ) → MemoryEngine
delete e key = remove key e

unfoldable pub starts_with : (prefix key : List ℕ) → Bool
starts_with [] key = true
starts_with (p ∷ prefix) [] = false
starts_with (p ∷ prefix) (b ∷ key) = p == b && starts_with prefix key

unfoldable pub scan_prefix : MemoryEngine → (prefix : List ℕ) → Map (List ℕ) (List ℕ)
unfolding starts_with
scan_prefix e prefix = retain (λ (k, v). starts_with prefix k) e
