-- ===== src/Examples/Trees.antt =====
-- A JSON of trees, for the inputs of the other files: any reading of bytes and texts will do.
use rifts.Prelude.{
  ℕ, ◌^◌, ◌≡◌, refl, ap, String, Option, none, some, List, [], ◌∷◌, ltb, if◌then◌else◌, string_eq,
  arith,
}
use rifts.Prelude.Int.{ℤ, pos}
use rifts.Prelude.Map.{Map, lookup}
use rifts.Json.{Json, IsJson, Parsed}

mutual
  pub data Tree : Type 0 where
    null : Tree
    str : String → Tree
    num : ℤ → Tree
    arr : Items → Tree
    obj : Fields → Tree

  pub data Items : Type 0 where
    nil : Items
    item : Tree → Items → Items

  pub data Fields : Type 0 where
    end : Fields
    field : String → Tree → Fields → Fields

abbrev pub items : List Tree → Items
items [] = nil
items (t ∷ ts) = item t (items ts)

abbrev pub list_of : Items → List Tree
list_of nil = []
list_of (item t ts) = t ∷ list_of ts

abbrev pub fields : Map String Tree → Fields
fields [] = end
fields ((k, t) ∷ m) = field k t (fields m)

abbrev pub map_of : Fields → Map String Tree
map_of end = []
map_of (field k t m) = (k, t) ∷ map_of m

abbrev pub as_object : Tree → Option (Map String Tree)
as_object (obj m) = some (map_of m)
as_object _ = none

abbrev pub get : Tree → String → Option Tree
get (obj m) key = lookup key (map_of m)
get _ key = none

abbrev pub as_array : Tree → Option (List Tree)
as_array (arr ts) = some (list_of ts)
as_array _ = none

abbrev pub as_str : Tree → Option String
as_str (str s) = some s
as_str _ = none

abbrev pub as_u64 : Tree → Option ℕ
as_u64 (num (pos n)) = if ltb n (2 ^ 64) then some n else none
as_u64 _ = none

abbrev pub as_i64 : Tree → Option ℤ
as_i64 (num z) = some z
as_i64 _ = none

-- Every value prints as one byte, and that byte and every text read as the given value.
abbrev pub trees : Parsed Tree → Json Tree
trees read = record {
  from_slice = λ _. read;
  from_str = λ _. read;
  from_utf8 = λ _. some "body";
  get = get;
  as_object = as_object;
  as_array = as_array;
  as_str = as_str;
  as_u64 = as_u64;
  as_i64 = as_i64;
  null = null;
  string = str;
  number = num;
  array = λ ts. arr (items ts);
  object = λ m. obj (fields m);
  to_string = λ _. 123 ∷ [];
  format = λ _. "error";
}

map_of-fields : (m : Map String Tree) → map_of (fields m) ≡ m
map_of-fields [] = refl
map_of-fields ((k, t) ∷ m) = ap (◌∷◌ (k, t)) (map_of-fields m)

list_of-items : (ts : List Tree) → list_of (items ts) ≡ ts
list_of-items [] = refl
list_of-items (t ∷ ts) = ap (◌∷◌ t) (list_of-items ts)

pub trees-IsJson : (read : Parsed Tree) → IsJson (trees read)
unfolding lookup
trees-IsJson read = record {
  get_object = λ m key. ap (lookup key) (map_of-fields m);
  object_object = λ m. ap some (map_of-fields m);
  array_array = λ ts. ap some (list_of-items ts);
  str_string = λ s. refl;
  str_null = refl;
  u64_null = refl;
  u64_number = λ n h. ground (arith, h);
  i64_number = λ z h. refl;
}
