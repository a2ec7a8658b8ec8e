-- ===== src/Storage/Tree.antt =====
-- A tree of sled, which is a library: `SledEngine` of rifts-storage/src/engine.rs passes each call on to
-- it. Here no read or write fails, so a write returns the tree.
use rifts.Prelude.{
  arith, Bool, is_some, refl, ap, ◌∙◌, ℕ, ◌≡◌, ◌==◌, nat_eq, list_eq, Option, none, some, List, [],
  ◌∷◌, if◌then◌else◌,
}
use rifts.Prelude.Map.{Map, keys, lookup, IsMap}
use rifts.Prelude.Reap.{member, keys_where, passes, member-keys_where}
use rifts.Storage.Engine.{starts_with}

pub record Tree (E : Type 0) : Type 0 where
  pub get : E → (key : List ℕ) → Option (List ℕ)
  pub insert : E → (key value : List ℕ) → E
  pub remove : E → (key : List ℕ) → E
  pub scan_prefix : E → (prefix : List ℕ) → Map (List ℕ) (List ℕ)

abbrev pub Holds : {E : Type 0} → Tree E → E → Map (List ℕ) (List ℕ) → Type 0
Holds t e [] = Unit
Holds t e ((k, v) ∷ rest) = (t.get e k ≡ some v) × Holds t e rest

-- What the documentation of sled says of these calls.
pub record IsTree {E : Type 0} (t : Tree E) : Type 0 where
  pub get-insert :
      (e : E) (k j v : List ℕ) → t.get (t.insert e k v) j ≡ (if k == j then some v else t.get e j)
  pub get-remove :
      (e : E) (k j : List ℕ) → t.get (t.remove e k) j ≡ (if k == j then none else t.get e j)
  pub scan_holds : (e : E) (prefix : List ℕ) → Holds t e (t.scan_prefix e prefix)

-- What it says of a scan: the keys with the prefix that the tree holds, each once.
pub record IsScan {E : Type 0} (t : Tree E) : Type 0 where
  pub lookup-scan :
      (e : E) (prefix k : List ℕ)
      → lookup k (t.scan_prefix e prefix) ≡ (if starts_with prefix k then t.get e k else none)
  pub scan_once : (e : E) (prefix : List ℕ) → IsMap (t.scan_prefix e prefix)

-- The loop that deletes each of some keys.
unfoldable pub delete_keys : {E : Type 0} → Tree E → List (List ℕ) → E → E
delete_keys t [] e = e
delete_keys t (k ∷ ks) e = delete_keys t ks (t.remove e k)

pub get-delete_keys :
    {E : Type 0} (t : Tree E) (laws : IsTree t) (ks : List (List ℕ)) (e : E) (j : List ℕ)
    → t.get (delete_keys t ks e) j ≡ (if member j ks then none else t.get e j)
unfolding delete_keys
get-delete_keys t laws [] e j = refl
get-delete_keys t laws (k ∷ ks) e j = ground (
  arith,
  get-delete_keys t laws ks (t.remove e k) j,
  laws.get-remove e k j,
  list_eq.beq_iff j k,
  list_eq.beq_iff k j,
)

member-keys : (j : List ℕ) (m : Map (List ℕ) (List ℕ)) → member j (keys m) ≡ is_some (lookup j m)
unfolding lookup
member-keys j [] = refl
member-keys j ((k, v) ∷ m) =
    ground (arith, member-keys j m, list_eq.beq_iff j k, list_eq.beq_iff k j)

pub member-keys_scan :
    {E : Type 0} (t : Tree E) (scans : IsScan t) (e : E) (prefix j : List ℕ)
    → member j (keys (t.scan_prefix e prefix))
      ≡ is_some (if starts_with prefix j then t.get e j else none)
member-keys_scan t scans e prefix j =
    member-keys j (t.scan_prefix e prefix) ∙ ap is_some (scans.lookup-scan e prefix j)

-- A test of the keys and values of a scan, for a key.
pub member-scan :
    {E : Type 0} (t : Tree E) (scans : IsScan t) (p : List ℕ → List ℕ → Bool) (e : E)
    (prefix j : List ℕ)
    → member j (keys_where p (t.scan_prefix e prefix))
      ≡ passes p j (if starts_with prefix j then t.get e j else none)
member-scan t scans p e prefix j =
    member-keys_where p j (t.scan_prefix e prefix) (scans.scan_once e prefix)
    ∙ ap (passes p j) (scans.lookup-scan e prefix j)
