-- ===== src/Examples/Sleds.antt =====
-- Inputs for the stores on a tree of rifts-storage/src.
use rifts.Prelude.{
  ℕ, ◌≡◌, ◌⊎◌, refl, Bool, true, false, Option, none, some, List, [], ◌∷◌, ◌==◌, nat_eq, list_eq,
  list_beq, string_eq, if◌then◌else◌,
}
use rifts.Prelude.Int.{pos, as_u64, as_i64, i64_add, ◌+ℤ◌}
use rifts.Prelude.Bytes.{to_be_bytes}
use rifts.Prelude.Map.{Map, keys, lookup, insert, remove, lookup-insert, lookup-remove}
use rifts.Atomic.{
  System, Trace, start, quiet, wins, load, exchange, update, init, Local, loaded, won,
}
use rifts.Storage.Engine.{starts_with}
use rifts.Storage.Tree.{Tree, IsTree, Holds}
use rifts.Storage.SledOffset.{Utf8, new}
use rifts.Storage.SledOffset.Refines.{
  alloc_offset, read_head, remove_offsets, reopen, on_tree, in_memory, sled_offsets_refine,
}
use rifts.Storage.SledDedupe.{Caller, check, expiry}
use rifts.Storage.SledDedupe.Once.{check_once}

abbrev put_entry : (key : List ℕ) → Option (List ℕ) → Map (List ℕ) (List ℕ) → Map (List ℕ) (List ℕ)
put_entry k none rest = rest
put_entry k (some v) rest = (k, v) ∷ rest

-- What a map holds at the keys of a list that start with a prefix.
entries : (prefix : List ℕ) → Map (List ℕ) (List ℕ) → List (List ℕ) → Map (List ℕ) (List ℕ)
entries p e [] = []
entries p e (k ∷ ks) =
    if starts_with p k then put_entry k (lookup k e) (entries p e ks) else entries p e ks

-- A tree that is a map.
abbrev mapped : Tree (Map (List ℕ) (List ℕ))
mapped = record {
  get = λ e k. lookup k e;
  insert = λ e k v. insert k v e;
  remove = λ e k. remove k e;
  scan_prefix = λ e p. entries p e (keys e);
}

entries-Holds :
    (p : List ℕ) (e : Map (List ℕ) (List ℕ)) (ks : List (List ℕ)) → Holds mapped e (entries p e ks)
unfolding entries
entries-Holds p e [] = tt
entries-Holds p e (k ∷ ks) = here (starts_with p k) (lookup k e) refl (entries-Holds p e ks)
  where
    here :
        (b : Bool) (o : Option (List ℕ))
        → lookup k e ≡ o
        → Holds mapped e (entries p e ks)
        → Holds mapped e (if b then put_entry k o (entries p e ks) else entries p e ks)
    here true none h rest = rest
    here true (some v) h rest = (h, rest)
    here false o h rest = rest

mapped-IsTree : IsTree mapped
mapped-IsTree = record {
  get-insert = λ e k j v. lookup-insert k j v e;
  get-remove = λ e k j. lookup-remove k j e;
  scan_holds = λ e p. entries-Holds p e (keys e);
}

abbrev utf8 : Utf8
utf8 = record {
  as_bytes = λ s. if s == "orders" then 111 ∷ [] else 112 ∷ [];
  from_utf8_lossy = λ bytes. if bytes == 111 ∷ [] then "orders" else "bills";
}

nothing_there : (k : List ℕ) → mapped.get [] k ≡ none
unfolding lookup
nothing_there k = refl

sled_offsets_refine_example :
    on_tree mapped utf8
      (alloc_offset "orders"
        ∷ alloc_offset "orders"
        ∷ reopen
        ∷ alloc_offset "bills"
        ∷ read_head "orders"
        ∷ remove_offsets "orders"
        ∷ read_head "orders"
        ∷ [])
      (new mapped utf8 [])
    ≡ in_memory
        (alloc_offset "orders"
          ∷ alloc_offset "orders"
          ∷ reopen
          ∷ alloc_offset "bills"
          ∷ read_head "orders"
          ∷ remove_offsets "orders"
          ∷ read_head "orders"
          ∷ [])
        []
unfolding list_beq
sled_offsets_refine_example =
    sled_offsets_refine mapped utf8 mapped-IsTree []
      (alloc_offset "orders"
        ∷ alloc_offset "orders"
        ∷ reopen
        ∷ alloc_offset "bills"
        ∷ read_head "orders"
        ∷ remove_offsets "orders"
        ∷ read_head "orders"
        ∷ [])
      nothing_there (refl, (refl, (tt, (refl, (refl, (refl, (refl, tt)))))))

abbrev callers : ℕ → Caller
callers _ = record { now = pos 100; window = 60_000_000_000 }

abbrev fresh : System (Option (List ℕ))
fresh = record { cell = none; locals = update (λ _. Local.idle) 4 (loaded none) }

abbrev taken : System (Option (List ℕ))
taken = record {
  cell = some (to_be_bytes 8 (as_u64 (expiry (pos 100) 60_000_000_000)));
  locals = update fresh.locals 4 (won none);
}

one_wins : Trace (λ i. check (callers i)) (init none) (4 ∷ []) taken
unfolding check
one_wins =
    wins 4 (quiet start (load 4 refl)) (
      exchange none (some (to_be_bytes 8 (as_u64 (expiry (pos 100) 60_000_000_000)))) refl refl
        refl)

check_once_example :
    (◌≡◌ {A = List ℕ} (4 ∷ []) [] × (taken.cell ≡ none))
    ⊎ ((i : ℕ) × ◌≡◌ {A = List ℕ} (4 ∷ []) (i ∷ [])
        × (taken.cell ≡ some (to_be_bytes 8 (as_u64 (expiry (callers i).now (callers i).window)))))
unfolding i64_add as_i64 as_u64 ◌+ℤ◌
check_once_example = check_once callers none (λ i k. refl) tt one_wins
