-- ===== src/Storage/SledSnapshot/Prefixes.antt =====
-- rifts-storage/src/encode.rs and snapshot.rs: the prefixes that a key has, and maps of at most one key.
use rifts.Prelude.{
  ℕ, ◌≡◌, refl, ap, sym, ◌∙◌, true, ◌==◌, nat_eq, list_eq, none, some, List, [], ◌∷◌, ◌++◌,
  if◌then◌else◌, arith,
}
use rifts.Prelude.Map.{Map, lookup, IsMap}
use rifts.Storage.Engine.{bytes_eq, starts_with}
use rifts.Storage.Keys.{sep}
use rifts.Storage.Keys.Isolation.{IsClean}

pub own_prefix : (a rest : List ℕ) → starts_with (a ++ sep ∷ []) (a ++ sep ∷ rest) ≡ true
unfolding starts_with
own_prefix [] rest = refl
own_prefix (x ∷ a) rest = ground (arith, own_prefix a rest)

-- A key has the prefix of one topic only.
pub one_prefix :
    (a b j : List ℕ)
    → IsClean a
    → IsClean b
    → starts_with (a ++ sep ∷ []) j ≡ true
    → starts_with (b ++ sep ∷ []) j ≡ true
    → a ≡ b
unfolding starts_with
one_prefix [] [] j ca cb h k = refl
one_prefix [] (y ∷ b) [] ca cb h k = ground (arith, h)
one_prefix [] (y ∷ b) (i ∷ j) ca cb h k = absurd (cb.0 (ground (arith, h, k)))
one_prefix (x ∷ a) [] [] ca cb h k = ground (arith, h)
one_prefix (x ∷ a) [] (i ∷ j) ca cb h k = absurd (ca.0 (ground (arith, h, k)))
one_prefix (x ∷ a) (y ∷ b) [] ca cb h k = ground (arith, h)
one_prefix (x ∷ a) (y ∷ b) (i ∷ j) ca cb h k =
    let same : x ≡ y = ground (arith, h, k) in
    ap (λ z. z ∷ a) same
    ∙ ap (◌∷◌ y) (one_prefix a b j ca.1 cb.1 (ground (arith, h)) (ground (arith, k)))

pub no_keys : (m : Map (List ℕ) (List ℕ)) → ((k : List ℕ) → lookup k m ≡ none) → m ≡ []
unfolding lookup
no_keys [] h = refl
no_keys ((k, v) ∷ m) h = ground (arith, h k, bytes_eq.beq_iff k k)

pub one_key :
    (key v : List ℕ) (m : Map (List ℕ) (List ℕ))
    → IsMap m
    → ((k : List ℕ) → lookup k m ≡ (if key == k then some v else none))
    → m ≡ (key, v) ∷ []
unfolding lookup
one_key key v [] u h = ground (arith, h key, bytes_eq.beq_iff key key)
one_key key v ((k, w) ∷ m) u h =
    let same : key ≡ k = ground (arith, h k, bytes_eq.beq_iff k k, bytes_eq.beq_iff key k) in
    let value : w ≡ v = ground (arith, h k, bytes_eq.beq_iff k k, bytes_eq.beq_iff key k) in
    let alone : m ≡ [] =
      no_keys m
        (λ j. ground (arith, h j, u.0, same, bytes_eq.beq_iff k j, bytes_eq.beq_iff key j)) in
    ap (λ x. (x, w) ∷ m) (sym same) ∙ ap (λ x. (key, x) ∷ m) value ∙ ap (λ r. (key, v) ∷ r) alone
