-- ===== src/Examples/Scans.antt =====
-- Inputs for the stores of rifts-storage/src that scan a tree.
use rifts.Prelude.{
  ap, sym, string_eq, ℕ, ◌≡◌, refl, ◌∙◌, Bool, true, false, is_some, Option, none, some, List, [],
  ◌∷◌, ◌==◌, nat_eq, list_eq, list_beq, if◌then◌else◌, length, arith,
}
use rifts.Prelude.Int.{ℤ, pos, i64_add, ◌+ℤ◌, as_i64, ltb_ℤ}
use rifts.Prelude.Map.{
  Map, lookup, insert, remove, IsMap, lookup-insert, lookup-remove, insert-IsMap,
}
use rifts.Errors.{ok}
use rifts.Message.{Serde}
use rifts.Topic.Policy.{RetentionPolicy}
use rifts.Topic.Entry.{LogEntry}
use rifts.Storage.Engine.{bytes_eq, starts_with}
use rifts.Storage.Keys.{log_key, padded}
use rifts.Storage.Tree.{Tree, IsTree, IsScan, Holds}
use rifts.Topic.Entry.{TopicEntry}
use rifts.Topic.Store.{TopicStore}
use rifts.Topic.Policy.{default_profile}
use rifts.Storage.Snapshot.{StoredSnapshot, stored_of}
use rifts.Storage.SledSnapshot.{Coding}
use rifts.Storage.SledSnapshot.Agrees.{IsCoding, IsNamed}
use rifts.Storage.SledSnapshot.Refines.{
  Call, capture_topic, get_latest, remove_topic, on_tree, in_memory, IsSound, sled_snapshots_refine,
}
use rifts.Storage.SledLog.{append}
use rifts.Storage.SledLog.Retained.{left_by, goes, append_exact}

abbrev Store : Type 0
Store = Map (List ℕ) (List ℕ)

-- The entries of a map with a prefix, each key once.
abbrev under : (prefix : List ℕ) → Store → Store
under p [] = []
under p ((k, v) ∷ e) = if starts_with p k then insert k v (under p e) else under p e

abbrev mapped : Tree Store
mapped = record {
  get = λ e k. lookup k e;
  insert = λ e k v. insert k v e;
  remove = λ e k. remove k e;
  scan_prefix = λ e p. under p e;
}

lookup-under :
    (p k : List ℕ) (e : Store)
    → lookup k (under p e) ≡ (if starts_with p k then lookup k e else none)
unfolding lookup
lookup-under p k [] = ground arith
lookup-under p k ((j, v) ∷ e) = ground (
  arith,
  lookup-under p k e,
  lookup-insert j k v (under p e),
  bytes_eq.beq_iff j k,
  bytes_eq.beq_iff k j,
)

under-IsMap : (p : List ℕ) (e : Store) → IsMap (under p e)
under-IsMap p [] = tt
under-IsMap p ((k, v) ∷ e) = here (starts_with p k) (under-IsMap p e)
  where
    here : (b : Bool) → IsMap (under p e) → IsMap (if b then insert k v (under p e) else under p e)
    here true h = insert-IsMap k v (under p e) h
    here false h = h

mapped-IsScan : IsScan mapped
mapped-IsScan = record {
  lookup-scan = λ e p k. lookup-under p k e;
  scan_once = λ e p. under-IsMap p e;
}

map-Holds :
    (m e : Store)
    → ((k v : List ℕ) → lookup k m ≡ some v → lookup k e ≡ some v)
    → IsMap m
    → Holds mapped e m
unfolding lookup
map-Holds [] e h u = tt
map-Holds ((k, v) ∷ m) e h u = (
  h k v (ground (arith, bytes_eq.beq_iff k k)),
  map-Holds m e (λ j w eq. h j w (ground (arith, eq, u.0, bytes_eq.beq_iff k j))) u.1,
)

mapped-IsTree : IsTree mapped
mapped-IsTree = record {
  get-insert = λ e k j v. lookup-insert k j v e;
  get-remove = λ e k j. lookup-remove k j e;
  scan_holds = λ e p.
      map-Holds (under p e) e (λ k v eq. ground (arith, eq, lookup-under p k e)) (under-IsMap p e);
}

abbrev entry : ℕ → LogEntry
entry n = record {
  offset = pos n;
  publisher_session = none;
  message_id = "m";
  class = "event";
  event = none;
  payload = n ∷ [];
  timestamp = pos 5;
  appended_at = none;
}

-- Entries by their payload.
abbrev by_payload : Serde LogEntry
by_payload = record {
  to_vec = λ e. ok e.payload;
  from_slice = λ bytes. ok (record (entry 0) { offset = pos (length bytes); payload = bytes });
}

abbrev stored : Store
unfolding log_key
stored = (log_key (7 ∷ []) (pos 1), 1 ∷ []) ∷ (log_key (8 ∷ []) (pos 1), 1 ∷ []) ∷ []

append_exact_example :
    mapped.get
      (append mapped by_payload stored (pos 9) (7 ∷ []) (entry 2) RetentionPolicy.latest)
      (log_key (7 ∷ []) (pos 1))
    ≡ left_by
        (starts_with (7 ∷ 0 ∷ []) (log_key (7 ∷ []) (pos 1)))
        (goes mapped by_payload
          (insert (7 ∷ 0 ∷ padded (pos 2)) (2 ∷ []) stored)
          (pos 9)
          (7 ∷ 0 ∷ [])
          (7 ∷ 0 ∷ padded (pos 2))
          RetentionPolicy.latest
          (log_key (7 ∷ []) (pos 1)))
        (if (7 ∷ 0 ∷ padded (pos 2)) == log_key (7 ∷ []) (pos 1)
          then some (2 ∷ [])
          else mapped.get stored (log_key (7 ∷ []) (pos 1)))
append_exact_example =
    append_exact mapped by_payload mapped-IsTree mapped-IsScan stored (pos 9) (7 ∷ []) (entry 2)
      RetentionPolicy.latest (2 ∷ []) (log_key (7 ∷ []) (pos 1)) refl

abbrev topics : TopicStore
topics =
    (
      "orders",
      record (rifts.Topic.Entry.new "orders" default_profile) { latest_snapshot = some (entry 2) },
    )
    ∷ []

abbrev taken : StoredSnapshot
taken = stored_of (pos 3) "orders" (some 5_000_000) (entry 2)

-- One snapshot is written and read.
abbrev coding : Coding
coding = record {
  as_bytes = λ s. if s == "orders" then 111 ∷ [] else 112 ∷ [];
  id_bytes = λ id. 50 ∷ [];
  serde = record { to_vec = λ s. ok (1 ∷ []); from_slice = λ bytes. ok taken };
}

abbrev coding-IsCoding : IsCoding coding
coding-IsCoding = record {
  bytes_of = λ s. 1 ∷ [];
  fits = λ s. s ≡ taken;
  encodes = λ s same. refl;
  decodes = λ s same. ap ok (sym same);
  text_of = λ bytes. if bytes == 111 ∷ [] then "orders" else "bills";
}

orders-IsNamed : IsNamed mapped coding coding-IsCoding "orders"
unfolding list_beq
orders-IsNamed = record { read_back = refl; clean = (λ e. absurd (omega (arith, e)), tt) }

abbrev calls : List Call
calls =
    capture_topic (pos 3) "orders" topics (some 5_000_000)
    ∷ get_latest (pos 7) "orders"
    ∷ get_latest (pos 9) "orders"
    ∷ remove_topic "orders"
    ∷ []

some_inj : {a b : StoredSnapshot} → some a ≡ some b → a ≡ b
some_inj {a} {b} e = ap (rifts.Connection.HelloPayload.or_else a) e

capture-IsSound :
    IsSound mapped coding coding-IsCoding mapped-IsTree mapped-IsScan
      (capture_topic (pos 3) "orders" topics (some 5_000_000))
unfolding rifts.Storage.Snapshot.capture rifts.Topic.Store.get lookup
capture-IsSound = record { named = orders-IsNamed; fit = λ s e. sym (some_inj e) }

orders-IsSound :
    (now : ℤ)
    → IsSound mapped coding coding-IsCoding mapped-IsTree mapped-IsScan (get_latest now "orders")
orders-IsSound now = record { named = orders-IsNamed; fit = λ s e. absurd (ground (arith, e)) }

removal-IsSound :
    IsSound mapped coding coding-IsCoding mapped-IsTree mapped-IsScan (remove_topic "orders")
removal-IsSound = record { named = orders-IsNamed; fit = λ s e. absurd (ground (arith, e)) }

nothing_there : (k : List ℕ) → mapped.get [] k ≡ none
unfolding lookup
nothing_there k = refl

-- Found while it lasts, and not once it has expired.
calls_run : on_tree mapped coding calls [] ≡ some taken ∷ some taken ∷ none ∷ []
unfolding on_tree lookup insert remove i64_add ◌+ℤ◌ as_i64 ltb_ℤ starts_with list_beq
    rifts.Prelude.Int.as_u64
calls_run = refl

sled_snapshots_refine_example : on_tree mapped coding calls [] ≡ in_memory calls []
sled_snapshots_refine_example =
    sled_snapshots_refine mapped coding coding-IsCoding mapped-IsTree mapped-IsScan calls []
      (λ k. nothing_there k)
      (capture-IsSound, (orders-IsSound (pos 7), (orders-IsSound (pos 9), (removal-IsSound, tt))))
