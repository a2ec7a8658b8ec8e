-- ===== src/Storage/SledLog/Retained.antt =====
-- rifts-storage/src/log.rs: what an append leaves in the tree.
use rifts.Prelude.{
  ℕ, suc, ◌<◌, ◌≤◌, ◌/◌, leb, ◌∷◌, ◌++◌, sym, ◌-◌, ◌≡◌, refl, ap, ◌∙◌, Bool, Bool-cases, inl, inr,
  is_some, true, false, not, ◌&&◌, ◌==◌, nat_eq, list_eq, Option, none, some, List, [], length,
  take, ltb, if◌then◌else◌, arith,
}
use rifts.Prelude.Int.{ℤ, as_i64, i64_sub, ltb_ℤ}
use rifts.Prelude.Map.{Map, keys}
use rifts.Prelude.Reap.{member, keys_where, passes}
use rifts.Errors.{Result, ok, err}
use rifts.Message.{Serde}
use rifts.Topic.Policy.{RetentionPolicy, nothing, ttl, count, size, durable, latest, as_millis}
use rifts.Topic.Entry.{LogEntry}
use rifts.Connection.HelloPayload.{or_else}
use rifts.Storage.Keys.{topic_prefix, log_key, padded}
use rifts.Storage.Engine.{starts_with}
use rifts.Storage.Tree.{
  Tree, IsTree, IsScan, delete_keys, get-delete_keys, member-scan, member-keys_scan,
}
use rifts.Storage.SledLog.{is_old, dropped, write_entry, append}

-- The value that an entry had, where it stays.
abbrev kept_unless : Bool → Option (List ℕ) → Option (List ℕ)
kept_unless gone was = if gone then none else was

-- What is left of a value, where it goes if the key is among those looked at and a test of it says so.
abbrev pub left_by : (ours : Bool) → (List ℕ → Bool) → Option (List ℕ) → Option (List ℕ)
left_by ours goes none = none
left_by ours goes (some was) = if ours && goes was then none else some was

all_go :
    (ours b gone : Bool) (was : Option (List ℕ))
    → gone ≡ (is_some (if ours then was else none) && b)
    → kept_unless gone was ≡ left_by ours (λ _. b) was
all_go true b gone none e = ground (arith, e)
all_go true b gone (some v) e = ground (arith, e)
all_go false b gone none e = ground (arith, e)
all_go false b gone (some v) e = ground (arith, e)

those_go :
    (p : List ℕ → List ℕ → Bool) (q : List ℕ → Bool) (ours gone : Bool) (j : List ℕ)
    (was : Option (List ℕ))
    → gone ≡ passes p j (if ours then was else none)
    → ((v : List ℕ) → p j v ≡ q v)
    → kept_unless gone was ≡ left_by ours q was
those_go p q true gone j none e h = ground (arith, e)
those_go p q true gone j (some v) e h = ap (λ b. kept_unless b (some v)) (e ∙ h v)
those_go p q false gone j none e h = ground (arith, e)
those_go p q false gone j (some v) e h = ground (arith, e)

none_go : (ours : Bool) (was : Option (List ℕ)) → was ≡ left_by ours (λ _. false) was
none_go ours none = refl
none_go true (some v) = refl
none_go false (some v) = refl

length-keys : (m : Map (List ℕ) (List ℕ)) → length (keys m) ≡ length m
length-keys [] = refl
length-keys ((k, v) ∷ m) = omega (arith, length-keys m)

first_of :
    (n len : ℕ) (ks : List (List ℕ))
    → (if ltb n len then take (len - n) ks else []) ≡ take (len - n) ks
first_of n len ks = elim (Bool-cases (ltb n len)) [
  | inl h ↦ ground (arith, h)
  | inr h ↦ ground (arith, h, ap (λ m. take m ks) (few n len h))
]
  where
    few : (n len : ℕ) → ltb n len ≡ false → len - n ≡ 0
    few n len h = ground (arith, h)

-- The number of keys behind a key.
abbrev pub behind : List ℕ → List (List ℕ) → ℕ
behind j [] = 0
behind j (k ∷ ks) = if k == j then length ks else behind j ks

behind-lt : (j : List ℕ) (ks : List (List ℕ)) → member j ks ≡ true → behind j ks < length ks
behind-lt j [] h = ground (arith, h)
behind-lt j (k ∷ ks) h = elim (Bool-cases (k == j)) [
  | inl here ↦ ground (arith, here)
  | inr apart ↦ ground (arith, apart, h, behind-lt j ks)
]

-- The first keys, so many that `n` are left, are those with `n` keys behind them.
first-behind :
    (n : ℕ) (j : List ℕ) (ks : List (List ℕ))
    → member j (take (length ks - n) ks) ≡ (member j ks && leb n (behind j ks))
first-behind n j [] = ground arith
first-behind n j (k ∷ ks) = elim (Bool-cases (leb (suc (length ks)) n)) [
  | inl few ↦ few_keys few
  | inr many ↦ elim (Bool-cases (k == j)) [
    | inl here ↦ ground (arith, here, suc_minus (ground (arith, many)))
    | inr apart ↦ ground (arith, apart, first-behind n j ks, suc_minus (ground (arith, many)))
  ]
]
  where
    before : (b : ℕ) → b < suc (length ks) → leb (suc (length ks)) n ≡ true → leb n b ≡ false
    before b h few = ground (arith, h, few)

    nothing_over : suc (length ks) ≤ n → suc (length ks) - n ≡ 0
    nothing_over h = omega (arith, h)

    none_left : leb (suc (length ks)) n ≡ true → take (suc (length ks) - n) (k ∷ ks) ≡ []
    none_left few = ap (λ m. take m (k ∷ ks)) (nothing_over (ground (arith, few)))

    few_keys :
        leb (suc (length ks)) n ≡ true
        → member j (take (suc (length ks) - n) (k ∷ ks))
          ≡ (member j (k ∷ ks) && leb n (behind j (k ∷ ks)))
    few_keys few = elim (Bool-cases (member j (k ∷ ks))) [
      | inl there ↦
          let later = behind-lt j (k ∷ ks) there in
          ground (arith, there, before (behind j (k ∷ ks)) later few, none_left few)
      | inr absent ↦ ground (arith, absent, none_left few)
    ]

    suc_minus : n ≤ length ks → suc (length ks) - n ≡ suc (length ks - n)
    suc_minus h = omega (arith, h)

-- Whether an entry that parses was appended longer ago than so many milliseconds, on 64 bits: by the time
-- it was appended at, or its own where it has none.
abbrev pub outlived : (now ttl_ms : ℤ) → Result LogEntry → Bool
outlived now ttl_ms (err _) = false
outlived now ttl_ms (ok e) = elim e.appended_at [
  | some at ↦ ltb_ℤ ttl_ms (i64_sub now at)
  | none ↦ ltb_ℤ ttl_ms (i64_sub now e.timestamp)
]

is_old-outlived :
    (serde : Serde LogEntry) (now ttl_ms : ℤ) (r : Result LogEntry)
    → is_old serde now ttl_ms r ≡ outlived now ttl_ms r
is_old-outlived serde now ttl_ms (err _) = refl
is_old-outlived serde now ttl_ms (ok e) = by_stamp e.appended_at
  where
    by_stamp :
        (o : Option ℤ)
        → ltb_ℤ ttl_ms (i64_sub now (or_else e.timestamp o)) ≡ elim o [
          | some at ↦ ltb_ℤ ttl_ms (i64_sub now at)
          | none ↦ ltb_ℤ ttl_ms (i64_sub now e.timestamp)
        ]
    by_stamp none = refl
    by_stamp (some at) = refl

module _ {E : Type 0} (t : Tree E) (serde : Serde LogEntry) where
  -- Whether a policy takes a key from the tree once `key` is written: of those with the prefix of the
  -- topic, by the value `was` that the key has.
  abbrev pub goes :
      (written : E) (now : ℤ) (prefix key : List ℕ) → RetentionPolicy → (j was : List ℕ) → Bool
  goes written now prefix key nothing j was = true
  goes written now prefix key latest j was = not (j == key)
  goes written now prefix key (ttl d) j was =
      outlived now (as_i64 (d / 1_000_000)) (serde.from_slice was)
  goes written now prefix key (count n) j was =
      leb n (behind j (keys (t.scan_prefix written prefix)))
  goes written now prefix key (size n) j was = false
  goes written now prefix key durable j was = false

  pub append_exact :
      (laws : IsTree t) (scans : IsScan t) (e : E) (now : ℤ) (topic : List ℕ) (entry : LogEntry)
      (retention : RetentionPolicy) (value j : List ℕ)
      → serde.to_vec entry ≡ ok value
      → let key = topic ++ 0 ∷ padded entry.offset in
        let prefix = topic ++ 0 ∷ [] in
        t.get (append t serde e now topic entry retention) j
        ≡ left_by
            (starts_with prefix j)
            (goes (t.insert e key value) now prefix key retention j)
            (if key == j then some value else t.get e j)
  unfolding append dropped topic_prefix log_key
  append_exact laws scans e now topic entry retention value j encoded =
      ap (λ r. t.get (write_entry t serde e now topic key retention r) j) encoded
      ∙ (by_policy retention
          ∙ ap (left_by (starts_with prefix j) (goes w now prefix key retention j))
              (laws.get-insert e key j value))
    where
      key : List ℕ
      key = topic ++ 0 ∷ padded entry.offset

      prefix : List ℕ
      prefix = topic ++ 0 ∷ []

      w : E
      w = t.insert e key value

      all : Map (List ℕ) (List ℕ)
      all = t.scan_prefix w prefix

      of_test :
          (p : List ℕ → List ℕ → Bool) (q : List ℕ → Bool)
          → ((v : List ℕ) → p j v ≡ q v)
          → t.get (delete_keys t (keys_where p all) w) j
            ≡ left_by (starts_with prefix j) q (t.get w j)
      of_test p q same =
          get-delete_keys t laws (keys_where p all) w j
          ∙ those_go p q (starts_with prefix j) _ j (t.get w j) (member-scan t scans p w prefix j)
              same

      by_policy :
          (retention : RetentionPolicy)
          → t.get (write_entry t serde e now topic key retention (ok value)) j
            ≡ left_by (starts_with prefix j) (goes w now prefix key retention j) (t.get w j)
      by_policy nothing =
          get-delete_keys t laws (keys all) w j
          ∙ all_go (starts_with prefix j) true _ (t.get w j)
              (ground (arith, member-keys_scan t scans w prefix j))
      by_policy latest = of_test (λ k v. not (k == key)) (λ _. not (j == key)) (λ v. refl)
      by_policy (ttl d) =
          of_test (λ k v. is_old serde now (as_i64 (as_millis d)) (serde.from_slice v))
            (goes w now prefix key (ttl d) j)
            (λ v. is_old-outlived serde now (as_i64 (d / 1_000_000)) (serde.from_slice v))
      by_policy (count n) =
          get-delete_keys t laws
            (if ltb n (length all) then take (length all - n) (keys all) else []) w j
          ∙ (ap (λ ks. kept_unless (member j ks) (t.get w j)) (first_of n (length all) (keys all))
              ∙ all_go (starts_with prefix j) (leb n (behind j (keys all))) _ (t.get w j) (
                  ap (λ l. member j (take (l - n) (keys all))) (sym (length-keys all))
                  ∙ (first-behind n j (keys all)
                      ∙ ap (λ b. b && leb n (behind j (keys all)))
                          (member-keys_scan t scans w prefix j))))
      by_policy (size n) = none_go (starts_with prefix j) (t.get w j)
      by_policy durable = none_go (starts_with prefix j) (t.get w j)
