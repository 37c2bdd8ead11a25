-- ===== src/Packstore/Marks/Snapshot.antt =====
-- Any calls of `Mark` on a new set of packstore/markset.go, against the keys that the store has.
use amber_store.Prelude.{
  ℕ, ◌+◌, ◌≡◌, refl, ◌∙◌, arith, Bool, not, ◌&&◌, List, [], ◌∷◌, if◌then◌else◌, bytes_eq_iff,
  contains, Bytes,
}
use amber_store.Key.{Key}
use amber_store.Key.Fields.{IsArray32}
use amber_store.Amberpack.Record.{Zstd}
use amber_store.Packstore.Filter.{FuseLibrary}
use amber_store.Packstore.Store.{Store}
use amber_store.Packstore.Store.Refinement.{holds}
use amber_store.Packstore.Marks.{MarkSet, mark, is_marked, new_mark_set}
use amber_store.Packstore.Marks.Marked.{IsMarkable, is_present, Marks, mark-Marks}
use amber_store.Packstore.Marks.Fresh.{new_mark_set-unmarked, new_mark_set-IsMarkable}
use amber_store.Packstore.Compact.Wellfiled.{IsWellFiled}

module _ (x : FuseLibrary) where
  -- The set after the keys were marked; the first of the list is the one that was marked last.
  unfoldable pub mark_all : MarkSet → List Key → MarkSet
  mark_all m [] = m
  mark_all m (k ∷ keys) = (mark x (mark_all m keys) k).0

  -- How many keys of the store are in the list, each counted once.
  unfoldable pub count_stored : Store → List Key → ℕ
  count_stored s [] = 0
  count_stored s (k ∷ keys) =
      if holds x s k && not (contains keys k) then count_stored s keys + 1 else count_stored s keys

  abbrev pub AllArrays : List Key → Type 0
  AllArrays [] = Unit {0}
  AllArrays (k ∷ keys) = IsArray32 k × AllArrays keys

  -- A set that holds the keys of the list that the store has.
  pub record IsSnapshot (s : Store) (keys : List Key) (m : MarkSet) : Type 0 where
    pub holding : (j : Key) → IsArray32 j → is_marked x m j ≡ (contains keys j && holds x s j)
    pub counted : m.marked ≡ count_stored s keys

  -- What `Mark` keeps of it, with the places of the keys.
  record IsPlacedSnapshot (s : Store) (keys : List Key) (m : MarkSet) : Type 0 where
    snapshot : IsSnapshot s keys m
    markable : IsMarkable x m
    present : (j : Key) → is_present x m j ≡ holds x s j

  mark-IsPlacedSnapshot :
      (s : Store) (keys : List Key) (m m' : MarkSet) (k : Key) (newly there : Bool)
      → IsArray32 k
      → IsPlacedSnapshot s keys m
      → Marks x m k m' newly there
      → IsPlacedSnapshot s (k ∷ keys) m'
  unfolding contains count_stored
  mark-IsPlacedSnapshot s keys m m' k newly there array h marks = record {
    snapshot = record {
      holding = λ j array'. ground (
        arith,
        marks.marks j array',
        marks.was_present,
        h.present k,
        h.snapshot.holding j array',
        bytes_eq_iff k j,
      );
      counted = ground (
        arith,
        marks.counted,
        marks.was_unmarked,
        marks.was_present,
        h.present k,
        h.snapshot.holding k array,
        h.snapshot.counted,
      );
    };
    markable = marks.markable;
    present = λ j. marks.still_present j ∙ h.present j;
  }

  module _ (z : Zstd) (content : Key → Bytes) where
    mark_all-IsPlacedSnapshot :
        (s : Store) (keys : List Key)
        → IsWellFiled x z content s
        → AllArrays keys
        → IsPlacedSnapshot s keys (mark_all (new_mark_set s) keys)
    unfolding mark_all contains count_stored new_mark_set
    mark_all-IsPlacedSnapshot s [] w arrays = record {
      snapshot = record { holding = λ j array. (new_mark_set-unmarked x s j).1; counted = refl };
      markable = new_mark_set-IsMarkable x z content s w;
      present = λ j. (new_mark_set-unmarked x s j).0;
    }
    mark_all-IsPlacedSnapshot s (k ∷ keys) w (array, arrays) =
        let m : MarkSet = mark_all (new_mark_set s) keys in
        let h : IsPlacedSnapshot s keys m = mark_all-IsPlacedSnapshot s keys w arrays in
        let r : MarkSet × (Bool × Bool) = mark x m k in
        mark-IsPlacedSnapshot s keys m r.0 k r.1.0 r.1.1 array h (mark-Marks x m k h.markable array)

    -- On a store whose segments are parts of one map, after any calls of `Mark` with 32-byte keys on
    -- a new set, the set has exactly those of the keys that the store has, and counts each of them
    -- once. The next call, with any 32-byte key, reports whether the store has the key, and as new a
    -- key that the store has and that was not marked yet.
    pub mark-IsSnapshot :
        (s : Store) (keys : List Key) (k : Key)
        → IsWellFiled x z content s
        → AllArrays keys
        → IsArray32 k
        → let m = mark_all (new_mark_set s) keys in
          let (m', (newly, there)) = mark x m k in
          IsSnapshot s keys m
          × IsSnapshot s (k ∷ keys) m'
          × (there ≡ holds x s k)
          × (newly ≡ (holds x s k && not (contains keys k)))
    mark-IsSnapshot s keys k w arrays array =
        let m : MarkSet = mark_all (new_mark_set s) keys in
        let h : IsPlacedSnapshot s keys m = mark_all-IsPlacedSnapshot s keys w arrays in
        let r : MarkSet × (Bool × Bool) = mark x m k in
        let marks : Marks x m k r.0 r.1.0 r.1.1 = mark-Marks x m k h.markable array in
        let h' : IsPlacedSnapshot s (k ∷ keys) r.0 =
          mark-IsPlacedSnapshot s keys m r.0 k r.1.0 r.1.1 array h marks in
        (
          h.snapshot,
          h'.snapshot,
          marks.was_present ∙ h.present k,
          ground (
            arith,
            marks.was_unmarked,
            marks.was_present,
            h.present k,
            h.snapshot.holding k array,
          ),
        )
