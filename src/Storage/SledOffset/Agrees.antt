-- ===== src/Storage/SledOffset/Agrees.antt =====
-- rifts-storage/src/offset.rs: the store on a tree, against the store in memory: a relation of their states
-- that the operations keep.
use rifts.Prelude.{
  ℕ, ◌≡◌, refl, ap, sym, ◌∙◌, ◌==◌, ◌&&◌, nat_eq, list_eq, String, string_eq, Option, none, some,
  List, [], ◌∷◌, length, if◌then◌else◌, leb, arith, Bool-cases, inl, inr,
}
use rifts.Prelude.Int.{ℤ, pos, as_u64, i64_add, i64_sub, IsI64}
use rifts.Prelude.Bytes.{to_be_bytes}
use rifts.Prelude.Map.{Map, lookup, insert, lookup-insert, lookup-remove}
use rifts.Storage.Engine.{bytes_eq}
use rifts.Storage.Tree.{Tree, IsTree, Holds}
use rifts.Storage.Keys.{offset_key}
use rifts.Storage.Offset
use rifts.Storage.Offset.{OffsetStore, counter}
use rifts.Storage.SledOffset.{
  Utf8, SledOffsetStore, value_of, topic_part, is_head, stored_head, preload, new, alloc, head,
  remove_topic,
}
use rifts.Storage.SledOffset.Values.{
  topic_part-offset_key, i64_add-IsI64, add_back, sub_back, read_back, one,
}

-- The text of the topic is read back from its bytes.
abbrev pub Named : Utf8 → String → Type 0
Named u topic = u.from_utf8_lossy (u.as_bytes topic) ≡ topic

module _ {E : Type 0} (t : Tree E) (u : Utf8) where
  -- The cache tells what the tree holds.
  abbrev pub IsCached : E → Map String ℤ → Type 0
  IsCached e cache =
      (topic : String) (h : ℤ)
      → Named u topic
      → lookup topic cache ≡ some h
      → h ≡ stored_head t u e topic

  pub record Agrees (s : SledOffsetStore E) (m : OffsetStore) : Type 0 where
    pub stored :
        (topic : String) → Named u topic → stored_head t u s.engine topic ≡ Offset.head m topic
    pub cached : IsCached s.engine s.cache
    pub fits : (topic : String) → IsI64 (counter (lookup topic m))
    pub ours :
        (k v : List ℕ)
        → t.get s.engine k ≡ some v
        → (topic : String) × Named u topic × (k ≡ offset_key (u.as_bytes topic))

  pub head_as_known :
      (s : SledOffsetStore E) (m : OffsetStore) (topic : String)
      → Agrees s m
      → Named u topic
      → head t u s topic ≡ Offset.head m topic
  unfolding head
  head_as_known s m topic a named = by_cache (lookup topic s.cache) refl
    where
      by_cache :
          (o : Option ℤ)
          → lookup topic s.cache ≡ o
          → elim (lookup topic s.cache) [ some h ↦ h | none ↦ stored_head t u s.engine topic ]
            ≡ Offset.head m topic
      by_cache none e = rw e (a.stored topic named)
      by_cache (some h) e = rw e (a.cached topic h named e ∙ a.stored topic named)

  alloc-head :
      (s : SledOffsetStore E) (topic : String)
      → (alloc t u s topic).1 ≡ i64_add (head t u s topic) (pos 1)
  unfolding alloc head
  alloc-head s topic = ground arith

  next-counter :
      (m : OffsetStore) (topic : String)
      → IsI64 (counter (lookup topic m))
      → i64_add (Offset.head m topic) (pos 1) ≡ counter (lookup topic m)
  unfolding Offset.head
  next-counter m topic = of_counter (lookup topic m)
    where
      of_counter :
          (o : Option ℤ)
          → IsI64 (counter o)
          → i64_add (elim o [ none ↦ pos 0 | some c ↦ i64_sub c (pos 1) ]) (pos 1) ≡ counter o
      of_counter none h = one
      of_counter (some c) h = add_back c h

  alloc-heads :
      (m : OffsetStore) (topic other : String)
      → IsI64 (counter (lookup topic m))
      → Offset.head (Offset.alloc m topic).0 other
        ≡ (if topic == other then counter (lookup topic m) else Offset.head m other)
  unfolding Offset.head Offset.alloc
  alloc-heads m topic other h = ground (
    arith,
    lookup-insert topic other (i64_add (counter (lookup topic m)) (pos 1)) m,
    sub_back (counter (lookup topic m)) h,
  )

  remove-heads :
      (m : OffsetStore) (topic other : String)
      → Offset.head (Offset.remove_topic m topic) other
        ≡ (if topic == other then pos 0 else Offset.head m other)
  unfolding Offset.head Offset.remove_topic
  remove-heads m topic other = ground (arith, lookup-remove topic other m)

  -- The store once an allocation has written its offset.
  abbrev pub wrote : SledOffsetStore E → (topic : String) → ℤ → SledOffsetStore E
  wrote s topic c = record {
    engine = t.insert s.engine (offset_key (u.as_bytes topic)) (to_be_bytes 8 (as_u64 c));
    cache = insert topic c s.cache;
  }

  alloc_lem :
      (s : SledOffsetStore E) (topic : String)
      → alloc t u s topic ≡ (wrote s topic (alloc t u s topic).1, (alloc t u s topic).1)
  unfolding alloc
  alloc_lem s topic = refl

  -- Topics with the same key are the same.
  same_key :
      (a b : String)
      → Named u a
      → Named u b
      → offset_key (u.as_bytes a) ≡ offset_key (u.as_bytes b)
      → a ≡ b
  same_key a b h k e =
      sym h
      ∙ ap u.from_utf8_lossy (
          sym (topic_part-offset_key (u.as_bytes a))
          ∙ (ap topic_part e ∙ topic_part-offset_key (u.as_bytes b)))
      ∙ k

  module _ (laws : IsTree t) where
    -- The head of each topic, once one of them is written.
    stored-insert :
        (e : E) (topic other : String) (c : ℤ)
        → Named u topic
        → Named u other
        → IsI64 c
        → stored_head t u
            (t.insert e (offset_key (u.as_bytes topic)) (to_be_bytes 8 (as_u64 c)))
            other
          ≡ (if topic == other then c else stored_head t u e other)
    stored-insert e topic other c h k fits = ground (
      arith,
      laws.get-insert e (offset_key (u.as_bytes topic)) (offset_key (u.as_bytes other))
          (to_be_bytes 8 (as_u64 c)),
      read_back c fits,
      string_eq.beq_iff topic other,
      same_key topic other h k,
      bytes_eq.beq_iff (offset_key (u.as_bytes topic)) (offset_key (u.as_bytes other)),
    )

    stored-remove :
        (e : E) (topic other : String)
        → Named u topic
        → Named u other
        → stored_head t u (t.remove e (offset_key (u.as_bytes topic))) other
          ≡ (if topic == other then pos 0 else stored_head t u e other)
    stored-remove e topic other h k = ground (
      arith,
      laws.get-remove e (offset_key (u.as_bytes topic)) (offset_key (u.as_bytes other)),
      string_eq.beq_iff topic other,
      same_key topic other h k,
      bytes_eq.beq_iff (offset_key (u.as_bytes topic)) (offset_key (u.as_bytes other)),
    )

    pub alloc-next :
        (s : SledOffsetStore E) (m : OffsetStore) (topic : String)
        → Agrees s m
        → Named u topic
        → (alloc t u s topic).1 ≡ counter (lookup topic m)
    alloc-next s m topic a named =
        alloc-head s topic
        ∙ (ap (λ h. i64_add h (pos 1)) (head_as_known s m topic a named)
            ∙ next-counter m topic (a.fits topic))

    pub alloc-wrote :
        (s : SledOffsetStore E) (m : OffsetStore) (topic : String)
        → Agrees s m
        → Named u topic
        → alloc t u s topic ≡ (wrote s topic (counter (lookup topic m)), counter (lookup topic m))
    alloc-wrote s m topic a named =
        alloc_lem s topic ∙ ap (λ c. (wrote s topic c, c)) (alloc-next s m topic a named)

    pub wrote-Agrees :
        (s : SledOffsetStore E) (m : OffsetStore) (topic : String)
        → Agrees s m
        → Named u topic
        → Agrees (wrote s topic (counter (lookup topic m))) (Offset.alloc m topic).0
    unfolding Offset.alloc
    wrote-Agrees s m topic a named =
        let c = counter (lookup topic m) in
        let fits = a.fits topic in
        let key = offset_key (u.as_bytes topic) in
        record {
          stored = λ other k. ground (
            arith,
            stored-insert s.engine topic other c named k fits,
            alloc-heads m topic other fits,
            a.stored other k,
          );
          cached = λ other h k e. ground (
            arith,
            e,
            stored-insert s.engine topic other c named k fits,
            lookup-insert topic other c s.cache,
            a.cached other h k,
          );
          fits = λ other. elim (Bool-cases (topic == other)) [
            | inl same ↦
                rw (lookup-insert topic other (i64_add c (pos 1)) m, same) (i64_add-IsI64 c (pos 1))
            | inr differs ↦
                rw (lookup-insert topic other (i64_add c (pos 1)) m, differs) (a.fits other)
          ];
          ours = λ k v e. elim (Bool-cases (key == k)) [
            | inl same ↦ (topic, named, sym ((bytes_eq.beq_iff key k).0 same))
            | inr differs ↦ a.ours k v (
                ground
                  (arith, e, differs, laws.get-insert s.engine key k (to_be_bytes 8 (as_u64 c))))
          ];
        }

    pub remove-Agrees :
        (s : SledOffsetStore E) (m : OffsetStore) (topic : String)
        → Agrees s m
        → Named u topic
        → Agrees (remove_topic t u s topic) (Offset.remove_topic m topic)
    unfolding remove_topic Offset.remove_topic
    remove-Agrees s m topic a named =
        let key = offset_key (u.as_bytes topic) in
        record {
          stored = λ other k. ground (
            arith,
            stored-remove s.engine topic other named k,
            remove-heads m topic other,
            a.stored other k,
          );
          cached = λ other h k e. ground (
            arith,
            e,
            stored-remove s.engine topic other named k,
            lookup-remove topic other s.cache,
            a.cached other h k,
          );
          fits = λ other. elim (Bool-cases (topic == other)) [
            | inl same ↦ rw (lookup-remove topic other m, same) (omega arith)
            | inr differs ↦ rw (lookup-remove topic other m, differs) (a.fits other)
          ];
          ours = λ k v e. a.ours k v (ground (arith, e, laws.get-remove s.engine key k));
        }

    -- A store opened on a tree whose keys are those of topics.
    preload-IsCached :
        (e : E) (held : Map (List ℕ) (List ℕ)) (cache : Map String ℤ)
        → ((k v : List ℕ)
            → t.get e k ≡ some v
            → (topic : String) × Named u topic × (k ≡ offset_key (u.as_bytes topic)))
        → Holds t e held
        → IsCached e cache
        → IsCached e (preload t u held cache)
    unfolding preload
    preload-IsCached e [] cache ours holds h = h
    preload-IsCached e ((k, v) ∷ rest) cache ours (here, more) h =
        preload-IsCached e rest _ ours more (one_more (ours k v here))
      where
        one_more :
            (topic : String) × Named u topic × (k ≡ offset_key (u.as_bytes topic))
            → IsCached e (
                if is_head k && leb 8 (length v)
                then insert (u.from_utf8_lossy (topic_part k)) (value_of v) cache
                else cache)
        one_more (topic, named, key) other z k' e' = ground (
          arith,
          e',
          k',
          here,
          named,
          ap u.from_utf8_lossy (ap topic_part key ∙ topic_part-offset_key (u.as_bytes topic))
              ∙ named,
          sym (ap (t.get e) key) ∙ here,
          lookup-insert (u.from_utf8_lossy (topic_part k)) other (value_of v) cache,
          string_eq.beq_iff topic other,
          h other z k',
        )

    pub new-Agrees :
        (s : SledOffsetStore E) (m : OffsetStore) → Agrees s m → Agrees (new t u s.engine) m
    unfolding new lookup
    new-Agrees s m a = record {
      stored = a.stored;
      cached =
          preload-IsCached s.engine (t.scan_prefix s.engine []) [] a.ours
            (laws.scan_holds s.engine []) (λ topic h k e. ground (arith, e));
      fits = a.fits;
      ours = a.ours;
    }
