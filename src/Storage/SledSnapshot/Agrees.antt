-- ===== src/Storage/SledSnapshot/Agrees.antt =====
-- rifts-storage/src/snapshot.rs: a tree that holds the snapshots of a store in memory, call by call.
use rifts.Prelude.{
  ℕ, ◌≡◌, ◌≢◌, refl, ap, sym, ◌∙◌, Bool, true, false, is_some, ◌==◌, nat_eq, list_eq, String,
  string_eq, Option, none, some, List, [], ◌∷◌, ◌++◌, if◌then◌else◌, arith, Bool-cases, inl, inr,
}
use rifts.Prelude.Int.{ℤ}
use rifts.Prelude.Map.{keys, lookup, insert, remove, lookup-insert, lookup-remove}
use rifts.Prelude.Reap.{keys_where, passes}
use rifts.Errors.{ok}
use rifts.Storage.Engine.{bytes_eq, starts_with}
use rifts.Storage.Keys.{sep, topic_prefix, snapshot_key}
use rifts.Storage.Keys.Isolation.{IsClean}
use rifts.Storage.Snapshot.{StoredSnapshot, SnapshotStore, unless_expired}
use rifts.Storage.Tree.{Tree, IsTree, IsScan, get-delete_keys, member-scan, member-keys_scan}
use rifts.Storage.SledSnapshot.Prefixes.{own_prefix, one_prefix, no_keys, one_key}
use rifts.Storage.SledSnapshot.{
  Coding, other_than, newer, better, prefix_of, key_of, write_snapshot, newest, get_snapshot,
  remove_snapshot,
}

newer-none : (o : Option StoredSnapshot) → newer o none ≡ o
newer-none none = refl
newer-none (some s) = refl

-- A coding that reads back what it writes of the snapshots that fit.
pub record IsCoding (c : Coding) : Type 1 where
  pub bytes_of : StoredSnapshot → List ℕ
  pub fits : StoredSnapshot → Type 0
  pub encodes : (s : StoredSnapshot) → fits s → c.serde.to_vec s ≡ ok (bytes_of s)
  pub decodes : (s : StoredSnapshot) → fits s → c.serde.from_slice (bytes_of s) ≡ ok s
  pub text_of : List ℕ → String

module _ {E : Type 0} (t : Tree E) (c : Coding) (h : IsCoding c) where
  -- A topic that is read back from its bytes, and that holds no separator.
  pub record IsNamed (topic : String) : Type 0 where
    pub read_back : h.text_of (c.as_bytes topic) ≡ topic
    pub clean : IsClean (c.as_bytes topic)

  -- What the tree holds at a key of a topic that has this snapshot.
  abbrev pub held : (topic : String) → Option StoredSnapshot → (j : List ℕ) → Option (List ℕ)
  held topic none j = none
  held topic (some s) j = if key_of t c topic s == j then some (h.bytes_of s) else none

  abbrev pub Agrees : E → SnapshotStore → Type 0
  Agrees e snaps =
      (topic : String) (j : List ℕ)
      → IsNamed topic
      → starts_with (prefix_of t c topic) j ≡ true
      → t.get e j ≡ held topic (lookup topic snaps) j

  module _ (laws : IsTree t) (scans : IsScan t) where
    -- The keys of another topic do not have this prefix.
    elsewhere :
        (a b : String) (j : List ℕ)
        → IsNamed a
        → IsNamed b
        → a ≢ b
        → starts_with (prefix_of t c b) j ≡ true
        → starts_with (prefix_of t c a) j ≡ false
    unfolding topic_prefix
    elsewhere a b j na nb differ k = elim (Bool-cases (starts_with (c.as_bytes a ++ sep ∷ []) j)) [
      | inl same_key ↦ absurd (
          differ (
            sym na.read_back
            ∙ ap h.text_of (one_prefix (c.as_bytes a) (c.as_bytes b) j na.clean nb.clean same_key k)
            ∙ nb.read_back))
      | inr other_key ↦ other_key
    ]

    own_key :
        (topic : String) (s : StoredSnapshot)
        → starts_with (prefix_of t c topic) (key_of t c topic s) ≡ true
    unfolding topic_prefix snapshot_key
    own_key topic s = own_prefix (c.as_bytes topic) (c.id_bytes s.snapshot_id)

    write_here :
        (e : E) (topic : String) (s : StoredSnapshot) (j : List ℕ)
        → starts_with (prefix_of t c topic) j ≡ true
        → t.get (write_snapshot t c e topic s (ok (h.bytes_of s))).0 j ≡ held topic (some s) j
    write_here e topic s j starts =
        let key = key_of t c topic s in
        let w = t.insert e key (h.bytes_of s) in
        get-delete_keys t laws (keys_where (other_than key) (t.scan_prefix w (prefix_of t c topic)))
          w j
        ∙ others_go (t.get w j) (member-scan t scans (other_than key) w (prefix_of t c topic) j)
            (laws.get-insert e key j (h.bytes_of s))
      where
        others_go :
            (o : Option (List ℕ)) {gone : Bool}
            → gone
              ≡ passes
                  (other_than (key_of t c topic s))
                  j
                  (if starts_with (prefix_of t c topic) j then o else none)
            → o ≡ (if key_of t c topic s == j then some (h.bytes_of s) else t.get e j)
            → (if gone then none else o) ≡ held topic (some s) j
        others_go none {gone} g w = ground (arith, g, w, starts)
        others_go (some v) {gone} g w = ground (
          arith,
          g,
          w,
          starts,
          bytes_eq.beq_iff (key_of t c topic s) j,
          bytes_eq.beq_iff j (key_of t c topic s),
        )

    write_elsewhere :
        (e : E) (topic : String) (s : StoredSnapshot) (j : List ℕ)
        → starts_with (prefix_of t c topic) j ≡ false
        → t.get (write_snapshot t c e topic s (ok (h.bytes_of s))).0 j ≡ t.get e j
    write_elsewhere e topic s j apart =
        let key = key_of t c topic s in
        let w = t.insert e key (h.bytes_of s) in
        let other : key ≢ j = λ same.
          ground (arith, own_key topic s, apart, ap (starts_with (prefix_of t c topic)) same) in
        ground (
          arith,
          apart,
          other,
          get-delete_keys t laws
              (keys_where (other_than key) (t.scan_prefix w (prefix_of t c topic))) w j,
          member-scan t scans (other_than key) w (prefix_of t c topic) j,
          laws.get-insert e key j (h.bytes_of s),
          bytes_eq.beq_iff key j,
        )

    by_topic : (topic there : String) {P : Type 0} → (topic ≡ there → P) → (topic ≢ there → P) → P
    by_topic topic there same differ = elim (Bool-cases (topic == there)) [
      | inl one ↦ same (ground (arith, one, string_eq.beq_iff topic there))
      | inr two ↦ differ (ground (arith, two, string_eq.beq_iff topic there))
    ]

    pub write-Agrees :
        (e : E) (snaps : SnapshotStore) (topic : String) (s : StoredSnapshot)
        → IsNamed topic
        → Agrees e snaps
        → Agrees (write_snapshot t c e topic s (ok (h.bytes_of s))).0 (insert topic s snaps)
    write-Agrees e snaps topic s named a there j nt starts =
        by_topic topic there
          (λ same.
            let filed : lookup there (insert topic s snaps) ≡ some s =
              ground
                (arith, same, lookup-insert topic there s snaps, string_eq.beq_iff topic there) in
            write_here e topic s j (ap (λ x. starts_with (prefix_of t c x) j) same ∙ starts)
            ∙ ap (λ x. held x (some s) j) same
            ∙ ap (λ o. held there o j) (sym filed))
          (λ differ.
            let filed : lookup there (insert topic s snaps) ≡ lookup there snaps =
              ground
                (arith, differ, lookup-insert topic there s snaps, string_eq.beq_iff topic there) in
            write_elsewhere e topic s j (elsewhere topic there j named nt differ starts)
            ∙ a there j nt starts
            ∙ ap (λ o. held there o j) (sym filed))

    pub remove-Agrees :
        (e : E) (snaps : SnapshotStore) (topic : String)
        → IsNamed topic
        → Agrees e snaps
        → Agrees (remove_snapshot t c e topic) (remove topic snaps)
    unfolding remove_snapshot
    remove-Agrees e snaps topic named a there j nt starts =
        let left = get-delete_keys t laws (keys (t.scan_prefix e (prefix_of t c topic))) e j in
        let found = member-keys_scan t scans e (prefix_of t c topic) j in
        by_topic topic there
          (λ same.
            let filed : lookup there (remove topic snaps) ≡ none =
              ground
                (arith, same, lookup-remove topic there snaps, string_eq.beq_iff topic there) in
            left
            ∙ all_go (t.get e j) found (ap (λ x. starts_with (prefix_of t c x) j) same ∙ starts)
            ∙ ap (λ o. held there o j) (sym filed))
          (λ differ.
            let filed : lookup there (remove topic snaps) ≡ lookup there snaps =
              ground
                (arith, differ, lookup-remove topic there snaps, string_eq.beq_iff topic there) in
            ground (arith, left, found, elsewhere topic there j named nt differ starts)
            ∙ a there j nt starts
            ∙ ap (λ o. held there o j) (sym filed))
      where
        all_go :
            (o : Option (List ℕ)) {gone ours : Bool}
            → gone ≡ is_some (if ours then o else none)
            → ours ≡ true
            → (if gone then none else o) ≡ none
        all_go none g starts = ground (arith, g)
        all_go (some v) g starts = ground (arith, g, starts)

    -- A scan finds what the memory would.
    scanned :
        (e : E) (snaps : SnapshotStore) (topic : String) (k : List ℕ)
        → IsNamed topic
        → Agrees e snaps
        → lookup k (t.scan_prefix e (prefix_of t c topic)) ≡ held topic (lookup topic snaps) k
    scanned e snaps topic k named a = elim (Bool-cases (starts_with (prefix_of t c topic) k)) [
      | inl starts ↦
          ground
            (arith, starts, scans.lookup-scan e (prefix_of t c topic) k, a topic k named starts)
      | inr apart ↦
          ground (arith, apart, scans.lookup-scan e (prefix_of t c topic) k)
          ∙ sym (nothing (lookup topic snaps) apart)
    ]
      where
        nothing :
            (o : Option StoredSnapshot)
            → starts_with (prefix_of t c topic) k ≡ false
            → held topic o k ≡ none
        nothing none apart = refl
        nothing (some s) apart =
            let other : key_of t c topic s ≢ k = λ same.
              ground (arith, own_key topic s, apart, ap (starts_with (prefix_of t c topic)) same) in
            ground (arith, other, bytes_eq.beq_iff (key_of t c topic s) k)

    pub get-as_in_memory :
        (e : E) (snaps : SnapshotStore) (now : ℤ) (topic : String)
        → IsNamed topic
        → Agrees e snaps
        → ((s : StoredSnapshot) → lookup topic snaps ≡ some s → h.fits s)
        → get_snapshot t c e now topic ≡ rifts.Storage.Snapshot.get_snapshot snaps now topic
    unfolding get_snapshot newest rifts.Storage.Snapshot.get_snapshot
    get-as_in_memory e snaps now topic named a fitting =
        by_held (lookup topic snaps) refl (λ k. scanned e snaps topic k named a)
      where
        by_held :
            (o : Option StoredSnapshot)
            → lookup topic snaps ≡ o
            → ((k : List ℕ) → lookup k (t.scan_prefix e (prefix_of t c topic)) ≡ held topic o k)
            → newest t c now (t.scan_prefix e (prefix_of t c topic)) none
              ≡ elim o [ none ↦ none | some s ↦ unless_expired now s ]
        by_held none eq found = ap (λ m. newest t c now m none) (no_keys _ found)
        by_held (some s) eq found =
            ap (λ m. newest t c now m none)
              (one_key (key_of t c topic s) (h.bytes_of s) _
                (scans.scan_once e (prefix_of t c topic)) found)
            ∙ ap (λ r. better now r none) (h.decodes s (fitting s eq))
            ∙ newer-none (unless_expired now s)
