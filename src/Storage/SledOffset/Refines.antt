-- ===== src/Storage/SledOffset/Refines.antt =====
-- rifts-storage/src/offset.rs: the store on a tree, closed and opened again at any time, against the store
-- in memory.
use rifts.Prelude.{ℕ, ◌≡◌, refl, ap, ◌∙◌, String, none, List, [], ◌∷◌, All, string_eq, arith}
use rifts.Prelude.Int.{ℤ}
use rifts.Prelude.Map.{lookup}
use rifts.Storage.Tree.{Tree, IsTree}
use rifts.Storage.Keys.{offset_key}
use rifts.Storage.Offset
use rifts.Storage.Offset.{OffsetStore, counter}
use rifts.Storage.SledOffset.{Utf8, SledOffsetStore, new, alloc, head, remove_topic}
use rifts.Storage.SledOffset.Agrees.{
  Named, Agrees, head_as_known, alloc-wrote, wrote-Agrees, remove-Agrees, new-Agrees, wrote,
}

-- A call on a store; `reopen` closes the tree and opens a store on it again.
pub data Call : Type 0 where
  alloc_offset read_head remove_offsets : (topic : String) → Call
  reopen : Call

abbrev pub NamedIn : Utf8 → Call → Type 0
NamedIn u (alloc_offset topic) = Named u topic
NamedIn u (read_head topic) = Named u topic
NamedIn u (remove_offsets topic) = Named u topic
NamedIn u reopen = Unit

-- The calls on the store in memory, which a restart leaves as it is.
unfoldable pub in_memory : List Call → OffsetStore → List ℤ
unfolding Offset.alloc Offset.head Offset.remove_topic
in_memory [] m = []
in_memory (alloc_offset topic ∷ calls) m =
    let (n, next) = Offset.alloc m topic in next ∷ in_memory calls n
in_memory (read_head topic ∷ calls) m = Offset.head m topic ∷ in_memory calls m
in_memory (remove_offsets topic ∷ calls) m = in_memory calls (Offset.remove_topic m topic)
in_memory (reopen ∷ calls) m = in_memory calls m

module _ {E : Type 0} (t : Tree E) (u : Utf8) where
  unfoldable pub on_tree : List Call → SledOffsetStore E → List ℤ
  unfolding new alloc head remove_topic
  on_tree [] s = []
  on_tree (alloc_offset topic ∷ calls) s =
      let (r, next) = alloc t u s topic in next ∷ on_tree calls r
  on_tree (read_head topic ∷ calls) s = head t u s topic ∷ on_tree calls s
  on_tree (remove_offsets topic ∷ calls) s = on_tree calls (remove_topic t u s topic)
  on_tree (reopen ∷ calls) s = on_tree calls (new t u s.engine)

  on_tree-Agrees :
      (laws : IsTree t) (calls : List Call) (s : SledOffsetStore E) (m : OffsetStore)
      → All (NamedIn u) calls
      → Agrees t u s m
      → on_tree calls s ≡ in_memory calls m
  unfolding on_tree in_memory
  on_tree-Agrees laws [] s m named a = refl
  on_tree-Agrees laws (alloc_offset topic ∷ calls) s m (here, more) a =
      let c = counter (lookup topic m) in
      ap (λ r. r.1 ∷ on_tree calls r.0) (alloc-wrote t u laws s m topic a here)
      ∙ ap (λ rest. c ∷ rest)
          (on_tree-Agrees laws calls (wrote t u s topic c) (Offset.alloc m topic).0 more
            (wrote-Agrees t u laws s m topic a here))
  on_tree-Agrees laws (read_head topic ∷ calls) s m (here, more) a =
      ap (λ h. h ∷ on_tree calls s) (head_as_known t u s m topic a here)
      ∙ ap (λ rest. Offset.head m topic ∷ rest) (on_tree-Agrees laws calls s m more a)
  on_tree-Agrees laws (remove_offsets topic ∷ calls) s m (here, more) a =
      on_tree-Agrees laws calls (remove_topic t u s topic) (Offset.remove_topic m topic) more
        (remove-Agrees t u laws s m topic a here)
  on_tree-Agrees laws (reopen ∷ calls) s m (here, more) a =
      on_tree-Agrees laws calls (new t u s.engine) m more (new-Agrees t u laws s m a)

  at_first :
      (e : E)
      → ((k : List ℕ) → t.get e k ≡ none)
      → Agrees t u (record { engine = e; cache = [] }) []
  unfolding Offset.head lookup
  at_first e empty = record {
    stored = λ topic named. ground (arith, empty (offset_key (u.as_bytes topic)));
    cached = λ topic h named eq. ground (arith, eq);
    fits = λ topic. omega arith;
    ours = λ k v eq. ground (arith, eq, empty k);
  }

  -- On an empty tree that behaves as documented, the store answers any calls as the store in memory
  -- does, also where it is closed and opened again between them: as long as each topic of the calls is
  -- read back from its bytes.
  pub sled_offsets_refine :
      (laws : IsTree t) (e : E) (calls : List Call)
      → ((k : List ℕ) → t.get e k ≡ none)
      → All (NamedIn u) calls
      → on_tree calls (new t u e) ≡ in_memory calls []
  sled_offsets_refine laws e calls empty named =
      on_tree-Agrees laws calls (new t u e) [] named
        (new-Agrees t u laws (record { engine = e; cache = [] }) [] (at_first e empty))
