-- ===== src/Storage/SledSnapshot/Refines.antt =====
-- rifts-storage/src/snapshot.rs: the store of snapshots on a tree against the one in memory.
use rifts.Prelude.{
  ℕ, ◌≡◌, refl, ap, subst, ◌∙◌, Bool-cases, inl, inr, String, string_eq, Option, none, some, List,
  [], ◌∷◌, All, arith, ◌==◌, nat_eq, list_eq,
}
use rifts.Prelude.Int.{ℤ}
use rifts.Prelude.Map.{insert, remove, lookup, lookup-insert, lookup-remove}
use rifts.Topic.Entry.{TopicEntry, LogEntry, snapshot}
use rifts.Topic.Store.{TopicStore, get}
use rifts.Storage.Snapshot as Snapshot
use rifts.Storage.Snapshot.{StoredSnapshot, SnapshotStore, stored_of}
use rifts.Storage.Tree.{Tree, IsTree, IsScan}
use rifts.Storage.SledSnapshot.{Coding, capture, get_snapshot, remove_snapshot, write_snapshot}
use rifts.Storage.SledSnapshot.Agrees.{
  IsCoding, IsNamed, Agrees, write-Agrees, remove-Agrees, get-as_in_memory,
}

pub data Call : Type 0 where
  capture_topic : (now : ℤ) (topic : String) → TopicStore → (ttl : Option ℕ) → Call
  get_latest : (now : ℤ) (topic : String) → Call
  remove_topic : (topic : String) → Call

abbrev pub topic_of : Call → String
topic_of (capture_topic now topic store ttl) = topic
topic_of (get_latest now topic) = topic
topic_of (remove_topic topic) = topic

-- The snapshot that a call captures.
abbrev pub captured : Call → Option StoredSnapshot
captured (capture_topic now topic store ttl) = (Snapshot.capture [] now topic store ttl).1
captured (get_latest now topic) = none
captured (remove_topic topic) = none

-- What each call answers, on the store in memory.
unfoldable pub in_memory : List Call → SnapshotStore → List (Option StoredSnapshot)
unfolding Snapshot.capture Snapshot.get_snapshot Snapshot.remove_snapshot
in_memory [] m = []
in_memory (capture_topic now topic store ttl ∷ calls) m =
    let (n, stored) = Snapshot.capture m now topic store ttl in stored ∷ in_memory calls n
in_memory (get_latest now topic ∷ calls) m = Snapshot.get_snapshot m now topic ∷ in_memory calls m
in_memory (remove_topic topic ∷ calls) m = in_memory calls (Snapshot.remove_snapshot m topic)

kept_over_removal :
    (m : SnapshotStore) (topic there : String) (s : StoredSnapshot)
    → lookup there (remove topic m) ≡ some s
    → lookup there m ≡ some s
kept_over_removal m topic there s filed = ground (arith, filed, lookup-remove topic there m)

module _ {E : Type 0} (t : Tree E) (c : Coding) where
  unfoldable pub on_tree : List Call → E → List (Option StoredSnapshot)
  unfolding capture get_snapshot remove_snapshot
  on_tree [] e = []
  on_tree (capture_topic now topic store ttl ∷ calls) e =
      let (d, stored) = capture t c e now topic store ttl in stored ∷ on_tree calls d
  on_tree (get_latest now topic ∷ calls) e = get_snapshot t c e now topic ∷ on_tree calls e
  on_tree (remove_topic topic ∷ calls) e = on_tree calls (remove_snapshot t c e topic)

  module _ (h : IsCoding c) (laws : IsTree t) (scans : IsScan t) where
    -- A tree and a store in memory that agree, of snapshots that fit.
    record Same (e : E) (m : SnapshotStore) : Type 0 where
      pub agree : Agrees t c h e m
      pub fitting : (topic : String) (s : StoredSnapshot) → lookup topic m ≡ some s → h.fits s

    -- What is asked of a call: of its topic, and of the snapshot that it captures, if it does.
    pub record IsSound (call : Call) : Type 0 where
      pub named : IsNamed t c h (topic_of call)
      pub fit : (s : StoredSnapshot) → captured call ≡ some s → h.fits s

    record Captures (e : E × Option StoredSnapshot) (m : SnapshotStore × Option StoredSnapshot)
        : Type 0 where
      pub same_answer : e.1 ≡ m.1
      pub still : Same e.0 m.0

    capture-Agrees :
        (e : E) (m : SnapshotStore) (now : ℤ) (topic : String) (store : TopicStore) (ttl : Option ℕ)
        → IsSound (capture_topic now topic store ttl)
        → Same e m
        → Captures (capture t c e now topic store ttl) (Snapshot.capture m now topic store ttl)
    unfolding capture Snapshot.capture
    capture-Agrees e m now topic store ttl sound a = by_entry (get store topic) sound.fit
      where
        alone_snap : Option LogEntry → SnapshotStore × Option StoredSnapshot
        alone_snap o = elim o [
          | none ↦ ([], none)
          | some snap ↦
              (insert topic (stored_of now topic ttl snap) [], some (stored_of now topic ttl snap))
        ]

        alone_entry : Option TopicEntry → SnapshotStore × Option StoredSnapshot
        alone_entry o = elim o [ none ↦ ([], none) | some entry ↦ alone_snap (snapshot entry) ]

        fits_after :
            (there : String) (r : StoredSnapshot) {s : StoredSnapshot}
            → lookup there (insert topic s m) ≡ some r
            → h.fits s
            → h.fits r
        fits_after there r {s} filed fit = elim (Bool-cases (topic == there)) [
          | inl own ↦
              let same : s ≡ r = ground (arith, own, filed, lookup-insert topic there s m) in
              subst h.fits same fit
          | inr other ↦
              a.fitting there r (ground (arith, other, filed, lookup-insert topic there s m))
        ]

        by_snap :
            (o : Option LogEntry)
            → ((s : StoredSnapshot) → (alone_snap o).1 ≡ some s → h.fits s)
            → Captures
                (elim o [
                  | none ↦ (e, none)
                  | some snap ↦
                      write_snapshot t c e topic
                        (stored_of now topic ttl snap)
                        (c.serde.to_vec (stored_of now topic ttl snap))
                ])
                (elim o [
                  | none ↦ (m, none)
                  | some snap ↦ (
                    insert topic (stored_of now topic ttl snap) m,
                    some (stored_of now topic ttl snap),
                  )
                ])
        by_snap none fit = record { same_answer = refl; still = a }
        by_snap (some snap) fit =
            let s = stored_of now topic ttl snap in
            rw (h.encodes s (fit s refl)) (record {
              same_answer = refl;
              still = record {
                agree = write-Agrees t c h laws scans e m topic s sound.named a.agree;
                fitting = λ there r filed. fits_after there r filed (fit s refl);
              };
            })

        by_entry :
            (o : Option TopicEntry)
            → ((s : StoredSnapshot) → (alone_entry o).1 ≡ some s → h.fits s)
            → Captures
                (elim o [
                  | none ↦ (e, none)
                  | some entry ↦ elim (snapshot entry) [
                    | none ↦ (e, none)
                    | some snap ↦
                        write_snapshot t c e topic
                          (stored_of now topic ttl snap)
                          (c.serde.to_vec (stored_of now topic ttl snap))
                  ]
                ])
                (elim o [
                  | none ↦ (m, none)
                  | some entry ↦ elim (snapshot entry) [
                    | none ↦ (m, none)
                    | some snap ↦ (
                      insert topic (stored_of now topic ttl snap) m,
                      some (stored_of now topic ttl snap),
                    )
                  ]
                ])
        by_entry none fit = record { same_answer = refl; still = a }
        by_entry (some entry) fit = by_snap (snapshot entry) fit

    on_tree-Agrees :
        (calls : List Call) (e : E) (m : SnapshotStore)
        → All IsSound calls
        → Same e m
        → on_tree calls e ≡ in_memory calls m
    unfolding on_tree in_memory Snapshot.remove_snapshot
    on_tree-Agrees [] e m named a = refl
    on_tree-Agrees (capture_topic now topic store ttl ∷ calls) e m (here, more) a =
        let one = capture-Agrees e m now topic store ttl here a in
        let d = (capture t c e now topic store ttl).0 in
        let n = (Snapshot.capture m now topic store ttl).0 in
        ap (λ o. o ∷ on_tree calls d) one.same_answer
        ∙ ap (◌∷◌ (Snapshot.capture m now topic store ttl).1)
            (on_tree-Agrees calls d n more one.still)
    on_tree-Agrees (get_latest now topic ∷ calls) e m (here, more) a =
        ap (λ o. o ∷ on_tree calls e)
          (get-as_in_memory t c h laws scans e m now topic here.named a.agree (a.fitting topic))
        ∙ ap (◌∷◌ (Snapshot.get_snapshot m now topic)) (on_tree-Agrees calls e m more a)
    on_tree-Agrees (remove_topic topic ∷ calls) e m (here, more) a =
        on_tree-Agrees calls (remove_snapshot t c e topic) (Snapshot.remove_snapshot m topic) more
          (record {
            agree = remove-Agrees t c h laws scans e m topic here.named a.agree;
            fitting = λ there s filed. a.fitting there s (kept_over_removal m topic there s filed);
          })

    -- On an empty tree that behaves as documented, the store answers any captures, searches and removals as
    -- the store in memory does: where what serde writes of each snapshot captured is read back as that
    -- snapshot, and each topic of the calls is read back from its bytes and holds no separator.
    pub sled_snapshots_refine :
        (calls : List Call) (e : E)
        → ((k : List ℕ) → t.get e k ≡ none)
        → All IsSound calls
        → on_tree calls e ≡ in_memory calls []
    unfolding lookup
    sled_snapshots_refine calls e empty sound = on_tree-Agrees calls e [] sound (record {
      agree = λ topic j nt starts. empty j;
      fitting = λ topic s filed. absurd (ground (arith, filed));
    })
