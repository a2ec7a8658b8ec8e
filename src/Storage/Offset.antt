-- ===== src/Storage/Offset.antt =====
-- rifts-storage/src/offset.rs, `MemoryOffsetStore`: the next offset of each topic.
use rifts.Prelude.{
  ℕ, suc, ◌+◌, ◌^◌, ◌≤◌, ◌<◌, ◌≡◌, refl, String, Option, none, some, List, [], ◌∷◌, length,
  if◌then◌else◌, string_eq, arith,
}
use rifts.Prelude.Int.{ℤ, pos, as_u64, as_i64, i64_add, i64_sub, ◌+ℤ◌, ◌-ℤ◌}
use rifts.Prelude.Map.{Map, lookup, insert, remove, lookup-insert}

abbrev pub OffsetStore : Type 0
OffsetStore = Map String ℤ

-- `or_insert_with(|| AtomicI64::new(1))`.
abbrev pub counter : Option ℤ → ℤ
counter none = pos 1
counter (some c) = c

unfoldable pub alloc : OffsetStore → String → OffsetStore × ℤ
alloc store topic =
    let next = counter (lookup topic store) in (insert topic (i64_add next (pos 1)) store, next)

unfoldable pub head : OffsetStore → String → ℤ
head store topic = elim (lookup topic store) [ none ↦ pos 0 | some c ↦ i64_sub c (pos 1) ]

unfoldable pub remove_topic : OffsetStore → String → OffsetStore
remove_topic store topic = remove topic store

-- One allocation for each topic of the list, the first of the list last.
unfoldable pub alloc_all : List String → OffsetStore
unfolding alloc
alloc_all [] = []
alloc_all (t ∷ ts) = (alloc (alloc_all ts) t).0

unfoldable pub times : String → List String → ℕ
times topic [] = 0
times topic (t ∷ ts) = let rest = times topic ts in if string_eq.beq t topic then suc rest else rest

times-le : (topic : String) (ts : List String) → times topic ts ≤ length ts
unfolding times
times-le topic [] = omega arith
times-le topic (t ∷ ts) = ground (arith, times-le topic ts)

small-add : (n : ℕ) → n + 1 < 2 ^ 63 → i64_add (pos n) (pos 1) ≡ pos (n + 1)
unfolding i64_add as_u64 as_i64 ◌+ℤ◌
small-add n h = ground arith

small-sub : (n : ℕ) → n + 1 < 2 ^ 63 → i64_sub (pos (n + 1)) (pos 1) ≡ pos n
unfolding i64_sub as_u64 as_i64 ◌-ℤ◌
small-sub n h = ground arith

counter-alloc_all :
    (ts : List String) (topic : String)
    → length ts + 1 < 2 ^ 63
    → counter (lookup topic (alloc_all ts)) ≡ pos (times topic ts + 1)
unfolding alloc_all alloc times lookup
counter-alloc_all [] topic h = refl
counter-alloc_all (t ∷ ts) topic h = ground (
  arith,
  lookup-insert t topic (i64_add (counter (lookup t (alloc_all ts))) (pos 1)) (alloc_all ts),
  counter-alloc_all ts topic (omega arith),
  counter-alloc_all ts t (omega arith),
  small-add (times t ts + 1),
  times-le t ts,
  string_eq.beq_iff t topic,
)

-- After any allocations, fewer than 2 ^ 63 - 2, the next offset of a topic is one more than the
-- number of allocations on that topic, whatever was allocated on others between them; and the head
-- is that number.
pub alloc_counts :
    (ts : List String) (topic : String)
    → length ts + 2 < 2 ^ 63
    → ((alloc (alloc_all ts) topic).1 ≡ pos (times topic ts + 1))
      × (head (alloc_all ts) topic ≡ pos (times topic ts))
unfolding alloc head
alloc_counts ts topic h =
    let next = counter-alloc_all ts topic (omega arith) in
    (next, at_head (lookup topic (alloc_all ts)) next)
  where
    at_head :
        (o : Option ℤ)
        → counter o ≡ pos (times topic ts + 1)
        → elim o [ none ↦ pos 0 | some c ↦ i64_sub c (pos 1) ] ≡ pos (times topic ts)
    at_head none e = ground arith
    at_head (some c) e = ground (arith, small-sub (times topic ts), times-le topic ts)
