-- ===== src/Json.antt =====
-- What the sources use of serde_json and of `format!`: a text or bytes parse to a value or give the
-- text of an error, a value is taken apart by the accessors of `serde_json::Value`, and is built by
-- `json!` and printed.
use rifts.Prelude.{ℕ, ◌^◌, ◌<◌, String, Option, List, ◌≡◌, none, some, string_eq}
use rifts.Prelude.Int.{ℤ, pos, IsI64}
use rifts.Prelude.Map.{Map, lookup}
use rifts.Errors.{Message}

pub data Parsed (V : Type 0) : Type 0 where
  broken : Message → Parsed V
  parsed : V → Parsed V

pub record Json (V : Type 0) : Type 0 where
  pub from_slice : List ℕ → Parsed V
  pub from_str : String → Parsed V
  pub from_utf8 : List ℕ → Option String
  pub get : V → String → Option V
  pub as_object : V → Option (Map String V)
  pub as_array : V → Option (List V)
  pub as_str : V → Option String
  pub as_u64 : V → Option ℕ
  pub as_i64 : V → Option ℤ
  pub null : V
  pub string : String → V
  pub number : ℤ → V
  pub array : List V → V
  pub object : Map String V → V
  pub to_string : V → List ℕ
  pub format : Message → String

-- What the documentation of serde_json says of the accessors on values built by `json!`.
pub record IsJson {V : Type 0} (j : Json V) : Type 0 where
  pub get_object : (m : Map String V) (key : String) → j.get (j.object m) key ≡ lookup key m
  pub object_object : (m : Map String V) → j.as_object (j.object m) ≡ some m
  pub array_array : (vs : List V) → j.as_array (j.array vs) ≡ some vs
  pub str_string : (s : String) → j.as_str (j.string s) ≡ some s
  pub str_null : j.as_str j.null ≡ none
  pub u64_null : j.as_u64 j.null ≡ none
  pub u64_number : (n : ℕ) → n < 2 ^ 64 → j.as_u64 (j.number (pos n)) ≡ some n
  pub i64_number : (z : ℤ) → IsI64 z → j.as_i64 (j.number z) ≡ some z
