-- ===== src/Storage/SledOffset.antt =====
-- rifts-storage/src/offset.rs, `SledOffsetStore`: the head of each topic in a tree, behind a cache. The
-- bytes of a text and back are calls of the standard library, and so parameters.
pub mod Values
pub mod Agrees
pub mod Refines
use rifts.Prelude.{
  ℕ, ◌-◌, ◌==◌, nat_eq, list_eq, ◌&&◌, Bool, String, string_eq, Option, none, some, List, [], ◌∷◌,
  length, take, drop, ltb, leb, if◌then◌else◌,
}
use rifts.Prelude.Int.{ℤ, pos, as_u64, as_i64, i64_add}
use rifts.Prelude.Bytes.{to_be_bytes, from_be_bytes}
use rifts.Prelude.Map.{Map, lookup, insert, remove}
use rifts.Storage.Tree.{Tree}
use rifts.Storage.Keys.{offset_key}

pub record Utf8 : Type 0 where
  pub as_bytes : String → List ℕ
  pub from_utf8_lossy : List ℕ → String

pub record SledOffsetStore (E : Type 0) : Type 0 where
  pub engine : E
  pub cache : Map String ℤ

abbrev pub value_of : List ℕ → ℤ
value_of v = as_i64 (from_be_bytes (take 8 v))

abbrev pub read_offset : Option (List ℕ) → Option ℤ
read_offset none = none
read_offset (some v) = if ltb (length v) 8 then none else some (value_of v)

abbrev pub or_zero : Option ℤ → ℤ
or_zero none = pos 0
or_zero (some h) = h

-- `k.ends_with(b"head")`.
abbrev pub is_head : List ℕ → Bool
is_head k = drop (length k - 4) k == b'h' ∷ b'e' ∷ b'a' ∷ b'd' ∷ []

-- `key[..key.len() - 5]`.
abbrev pub topic_part : List ℕ → List ℕ
topic_part k = take (length k - 5) k

module _ {E : Type 0} (t : Tree E) (u : Utf8) where
  abbrev pub stored_head : E → (topic : String) → ℤ
  stored_head e topic = or_zero (read_offset (t.get e (offset_key (u.as_bytes topic))))

  -- The loop of `new` over what the tree holds.
  unfoldable pub preload : Map (List ℕ) (List ℕ) → Map String ℤ → Map String ℤ
  preload [] cache = cache
  preload ((k, v) ∷ rest) cache = preload rest (
      if is_head k && leb 8 (length v)
      then insert (u.from_utf8_lossy (topic_part k)) (value_of v) cache
      else cache)

  unfoldable pub new : E → SledOffsetStore E
  unfolding preload
  new e = record { engine = e; cache = preload (t.scan_prefix e []) [] }

  unfoldable pub alloc : SledOffsetStore E → (topic : String) → SledOffsetStore E × ℤ
  alloc s topic =
      let next : ℤ = elim (lookup topic s.cache) [
        | some h ↦ i64_add h (pos 1)
        | none ↦ i64_add (stored_head s.engine topic) (pos 1)
      ] in
      (
        record {
          engine = t.insert s.engine (offset_key (u.as_bytes topic)) (to_be_bytes 8 (as_u64 next));
          cache = insert topic next s.cache;
        },
        next,
      )

  unfoldable pub head : SledOffsetStore E → (topic : String) → ℤ
  head s topic = elim (lookup topic s.cache) [ some h ↦ h | none ↦ stored_head s.engine topic ]

  unfoldable pub remove_topic : SledOffsetStore E → (topic : String) → SledOffsetStore E
  remove_topic s topic = record {
    engine = t.remove s.engine (offset_key (u.as_bytes topic));
    cache = remove topic s.cache;
  }
