-- ===== src/Storage/Dedupe.antt =====
-- rifts-storage/src/dedupe.rs, `MemoryDedupeStore`: when each message key of a topic expires.
use rifts.Prelude.{
  ℕ, suc, ◌≡◌, refl, String, Bool, true, false, ◌&&◌, Option, none, some, List, [], ◌∷◌,
  if◌then◌else◌, string_eq, pair_eq, ◌==◌, arith, is_some,
}
use rifts.Prelude.Int.{ℤ, leb_ℤ, as_i64, i64_add, ◌≤ℤ◌, ◌<ℤ◌}
use rifts.Prelude.Map.{Map, lookup, insert, remove, lookup-insert, IsMap}
use rifts.Prelude.Reap.{keys_where, remove_all, lookup-reap}
use rifts.Topic.Policy.{as_millis}

abbrev pub DedupeStore : Type 0
DedupeStore = Map (String × String) ℤ

abbrev pub is_due : (now : ℤ) → Option ℤ → Bool
is_due now none = true
is_due now (some expires) = leb_ℤ expires now

-- `and_modify` and `or_insert_with` both write the new expiry, where the key is absent or expired.
unfoldable pub check_and_record :
    DedupeStore → (now : ℤ) → (topic key : String) → (window : ℕ) → DedupeStore × Bool
check_and_record store now topic key window =
    let fresh = is_due now (lookup (topic, key) store) in
    (
      (if fresh
          then insert (topic, key) (i64_add now (as_i64 (as_millis window))) store
          else store),
      fresh,
    )

-- The loop over the expired keys, with the number that it removes.
unfoldable pub sweep_keys : List (String × String) → DedupeStore → DedupeStore × ℕ
sweep_keys [] store = (store, 0)
sweep_keys (k ∷ ks) store =
    let (swept, removed) = sweep_keys ks (remove k store) in
    (swept, if is_some (lookup k store) then suc removed else removed)

unfoldable pub sweep : DedupeStore → (now : ℤ) → DedupeStore × ℕ
unfolding sweep_keys
sweep store now = sweep_keys (keys_where (λ _ expires. leb_ℤ expires now) store) store

-- A key is fresh exactly if no record of it expires after `now`; then its record expires at the end
-- of the window, and otherwise stays as it was; the records of other keys do not change.
pub check_and_record_lem :
    (store : DedupeStore) (now : ℤ) (topic key : String) (window : ℕ) (other : String × String)
    → let (left, fresh) = check_and_record store now topic key window in
      (fresh ≡ elim (lookup (topic, key) store) [ none ↦ true | some expires ↦ leb_ℤ expires now ])
      × (lookup other left ≡ (
          if fresh && (topic, key) == other
          then some (i64_add now (as_i64 (as_millis window)))
          else lookup other store))
unfolding check_and_record
check_and_record_lem store now topic key window other = (
  answer (lookup (topic, key) store),
  ground (arith, lookup-insert (topic, key) other (i64_add now (as_i64 (as_millis window))) store),
)
  where
    answer :
        (o : Option ℤ) → is_due now o ≡ elim o [ none ↦ true | some expires ↦ leb_ℤ expires now ]
    answer none = refl
    answer (some _) = refl

-- A message is fresh at most once in a window: after a check of its key that found it fresh, a
-- check of the same key before the window ends is a duplicate and leaves the record as it is.
pub check_twice :
    (store : DedupeStore) (now later : ℤ) (topic key : String) (window other : ℕ)
    → later <ℤ i64_add now (as_i64 (as_millis window))
    → (check_and_record store now topic key window).1 ≡ true
    → check_and_record (check_and_record store now topic key window).0 later topic key other
      ≡ ((check_and_record store now topic key window).0, false)
unfolding check_and_record
check_twice store now later topic key window other h fresh = ground (
  arith,
  h,
  fresh,
  lookup-insert (topic, key) (topic, key) (i64_add now (as_i64 (as_millis window))) store,
  string_eq.beq_iff topic topic,
  string_eq.beq_iff key key,
)

sweep_keys-remove_all :
    (ks : List (String × String)) (store : DedupeStore)
    → (sweep_keys ks store).0 ≡ remove_all ks store
unfolding sweep_keys remove_all
sweep_keys-remove_all [] store = refl
sweep_keys-remove_all (k ∷ ks) store = sweep_keys-remove_all ks (remove k store)

-- A sweep cannot be noticed: a check at the same time or later finds a key fresh after the sweep
-- exactly if it finds it fresh without.
pub sweep_invisible :
    (store : DedupeStore) (now later : ℤ) (topic key : String) (window : ℕ)
    → IsMap store
    → now ≤ℤ later
    → (check_and_record (sweep store now).0 later topic key window).1
      ≡ (check_and_record store later topic key window).1
unfolding sweep check_and_record
sweep_invisible store now later topic key window h order = ground (
  arith,
  order,
  lookup-reap (λ _ expires. leb_ℤ expires now) (topic, key) store h,
  sweep_keys-remove_all (keys_where (λ _ expires. leb_ℤ expires now) store) store,
)
