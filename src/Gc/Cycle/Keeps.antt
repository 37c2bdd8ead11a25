-- ===== src/Gc/Cycle/Keeps.antt =====
-- What a cycle of gc/cycle.go that succeeds leaves in the store.
use amber_store.Prelude.{
  ℕ, ◌≡◌, refl, ◌∙◌, ap, arith, Bool, true, ◌⊎◌, inl, inr, Option, none, some, List, [], Bytes,
  contains, ok, err, Bool-cases,
}
use amber_store.Key.{Key}
use amber_store.Key.Fields.{IsArray32}
use amber_store.Amberpack.Record.{Zstd}
use amber_store.Fstree.{Cbor}
use amber_store.Packstore.Filter.{FuseLibrary}
use amber_store.Packstore.Filed.{held}
use amber_store.Packstore.Index.{IndexEntry}
use amber_store.Packstore.Store.{Store, Io, read_object}
use amber_store.Packstore.Store.Refinement.{holds}
use amber_store.Packstore.Lifecycle.{begin_barrier}
use amber_store.Packstore.Lifecycle.Captured.{Marks, marks}
use amber_store.Packstore.Marks.{MarkSet, is_marked}
use amber_store.Packstore.Compact.{CompactOpts, Copying, EndIo, compact}
use amber_store.Packstore.Compact.Wellfiled.{IsWellFiled}
use amber_store.Packstore.Compact.Keeps.{IsKept, compact-reads}
use amber_store.Packstore.Compact.Selection.{read_object-held}
use amber_store.Packstore.Compact.Writes.{
  Writes, HaveWritten, Writes-HaveWritten, Writes-IsCapturedIn,
}
use amber_store.Gc.{Marking, mark_live}
use amber_store.Gc.Marking.{IsNamedBy, ReadsArrays}
use amber_store.Gc.Marked.{IsLiveSet, mark_live-IsLiveSet}
use amber_store.Gc.Cycle.{
  Cycle, roots_of, abort, swept, read_in, sweep, after_marking, after_roots, cycle,
}

swept_inv : (o : Copying) (s' : Store) → swept o ≡ (s', ok tt) → o ≡ (s', ok tt)
unfolding swept
swept_inv (s, ok u) s' h = ground (arith, h)
swept_inv (s, err e) s' h = cc h

module _ (x : FuseLibrary) (z : Zstd) (hash_of : Bytes → Bytes) (c : Cbor) (content : Key → Bytes)
    (cancelled : ℕ → Bool) (rounds : ℕ) (opts : CompactOpts) (seal_io : Io)
    (io : ℕ → IndexEntry → Io) (last : EndIo) (is_done : Bool) where
  sweep_inv :
      (t s' : Store) (m : MarkSet)
      → sweep x z hash_of c opts seal_io io last is_done t m ≡ (s', ok tt)
      → compact hash_of x z (is_marked x m) opts seal_io io last t ≡ (s', ok tt)
  unfolding sweep abort
  sweep_inv t s' m h = elim (Bool-cases is_done) [
    | inl done ↦ cc (rw done at h)
    | inr going ↦
        swept_inv (compact hash_of x z (is_marked x m) opts seal_io io last t) s' (rw going at h)
  ]

  after_marking_inv :
      (go : MarkSet → Cycle) (t s' : Store) (o : Marking)
      → after_marking x z hash_of c go t o ≡ some (s', ok tt)
      → (m : MarkSet) × (o ≡ some (ok m)) × (go m ≡ (s', ok tt))
  unfolding after_marking abort
  after_marking_inv go t s' none h = absurd (cc h)
  after_marking_inv go t s' (some (err e)) h = absurd (cc h)
  after_marking_inv go t s' (some (ok m)) h = (m, refl, ground (arith, h))

  cycle_inv :
      (named : Option (List Bytes)) (writes : Store → Store) (s s' : Store) (roots : List Key)
      → roots_of named ≡ ok roots
      → cycle x z hash_of c cancelled rounds opts seal_io io last is_done named writes s
        ≡ some (s', ok tt)
      → let s1 = begin_barrier s in
        (m : MarkSet) × (mark_live x c (read_in x z s1) cancelled rounds s1 roots ≡ some (ok m))
        × (compact hash_of x z (is_marked x m) opts seal_io io last (writes s1) ≡ (s', ok tt))
  unfolding cycle after_roots
  cycle_inv named writes s s' roots rooted h =
      let s1 : Store = begin_barrier s in
      let (m, marked, swept_to) =
        after_marking_inv (sweep x z hash_of c opts seal_io io last is_done (writes s1)) (writes s1)
          s' (mark_live x c (read_in x z s1) cancelled rounds s1 roots) (rw rooted at h) in
      (m, marked, sweep_inv (writes s1) s' m swept_to)

  begun-IsWellFiled :
      (s : Store) → IsWellFiled x z content s → IsWellFiled x z content (begin_barrier s)
  unfolding begin_barrier
  begun-IsWellFiled s w = record {
    segments = w.segments;
    apart = w.apart;
    fresh = w.fresh;
    filing = w.filing;
    bounded = w.bounded;
  }

  begun_marks : (s : Store) → marks (begin_barrier s) ≡ (true, some [])
  unfolding begin_barrier
  begun_marks s = refl

  -- A cycle that succeeds loses nothing that is in use: on a store whose segments are parts of one map,
  -- with roots and children that are keys of 32 bytes, and with puts and published references that
  -- succeed between the start of the barrier and the sweep, every key that the objects in the store at
  -- the start of the barrier name from a root on, as parts of a file, children of a directory node, or
  -- contents and attributes of the entries of a directory leaf, and every key that these writes and
  -- references name, reads as its payload afterwards, whichever segments the sweep rewrote and removed.
  pub cycle-reads :
      (named : Option (List Bytes)) (writes : Store → Store) (s s' : Store) (roots ks : List Key)
      (k : Key)
      → IsWellFiled x z content s
      → ReadsArrays c (read_in x z (begin_barrier s))
      → Writes x z content (begin_barrier s) ks (writes (begin_barrier s))
      → roots_of named ≡ ok roots
      → ((j : Key) → contains roots j ≡ true → IsArray32 j)
      → cycle x z hash_of c cancelled rounds opts seal_io io last is_done named writes s
        ≡ some (s', ok tt)
      → IsArray32 k
      → IsNamedBy c (read_in x z (begin_barrier s)) roots k ⊎ (contains ks k ≡ true)
      → read_object x z s' k ≡ ok (some (content k))
  cycle-reads named writes s s' roots ks k w arr written rooted arrays done array why =
      let s1 : Store = begin_barrier s in
      let t : Store = writes s1 in
      let w1 : IsWellFiled x z content s1 = begun-IsWellFiled s w in
      let (m, marked, swept_to) = cycle_inv named writes s s' roots rooted done in
      let live : IsLiveSet x c (read_in x z s1) roots s1 m =
        mark_live-IsLiveSet x c (read_in x z s1) cancelled roots z content rounds s1 m w1 arr arrays
          marked in
      let h : HaveWritten x z content s1 ks t = Writes-HaveWritten x z content s1 t ks w1 written in
      let (grey, on, seen) =
        Writes-IsCapturedIn x z content s1 t ks [] w1 (begun_marks s) written in
      let (kept, there) : IsKept t (is_marked x m) k × (holds x t k ≡ true) = elim why [
        | inl from_root ↦
            let is_live : is_marked x m k ≡ true = live.whole k from_root in
            (inl is_live, h.kept k array (live.stored k is_live))
        | inr listed ↦
            (inr (grey, ap (λ (p : Marks). p.1) on, seen k listed), (h.written k listed).1)
      ] in
      compact-reads x z content hash_of (is_marked x m) opts seal_io io last t s' k h.filed swept_to
        array kept there
      ∙ read_object-held x z content t k h.filed array
      ∙ ap (λ b. held b (content k)) there
