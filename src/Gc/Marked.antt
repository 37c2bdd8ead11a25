-- ===== src/Gc/Marked.antt =====
-- `markLive` of gc/collector.go marks exactly what the roots reach.
use amber_store.Prelude.{
  or_cases, ℕ, zero, suc, ◌+◌, ◌%◌, ◌≡◌, refl, sym, ◌∙◌, subst, arith, Bool, true, false, ◌&&◌, ◌⊎◌,
  inl, inr, Option, none, some, List, [], ◌∷◌, ◌==◌, if◌then◌else◌, Bytes, bytes_eq, bytes_eq_iff,
  contains, Result, ok, err, Bool-cases, Option-cases,
}
use amber_store.Key.{Key}
use amber_store.Key.Fields.{IsArray32}
use amber_store.Amberpack.Record.{Zstd}
use amber_store.Fstree.{Cbor}
use amber_store.Fstree.Walk.{WalkError, fetch_children}
use amber_store.Fstree.Walk.Round.{Reaches, here, step}
use amber_store.Fstree.Walk.Reached.{named-fetch_children}
use amber_store.Packstore.Filter.{FuseLibrary}
use amber_store.Packstore.Store.{Store}
use amber_store.Packstore.Store.Refinement.{holds}
use amber_store.Packstore.Compact.Wellfiled.{IsWellFiled}
use amber_store.Packstore.Marks.{MarkSet, mark, is_marked, new_mark_set, marked_at, locate_mark}
use amber_store.Packstore.Marks.Marked.{IsMarkable, is_found, is_present, Marks, mark-Marks}
use amber_store.Packstore.Marks.Fresh.{new_mark_set-IsMarkable, new_mark_set-unmarked}
use amber_store.Gc.{
  Marking, walk_cancelled, push_all, then_mark, push_children, after_mark, mark_loop, mark_from,
  mark_roots, mark_live,
}
use amber_store.Gc.Marking.{
  IsReached, IsNamedBy, ReadsArrays, IsMarking, marked-IsMarking, root-IsMarking, contains-push_all,
}

pub top_listed : (k : Key) (stack : List Key) → contains (k ∷ stack) k ≡ true
unfolding contains
top_listed k stack = ground (arith, bytes_eq_iff k k)

pub not_listed : (j : Key) → contains [] j ≡ true → ⊥
unfolding contains
not_listed j h = cc h

module _ (x : FuseLibrary) (c : Cbor) (get : Key → Option Bytes) (roots : List Key) where
  -- The set is what the roots reach, with every key that the objects name, all of it in the store.
  pub record IsLiveSet (s : Store) (m : MarkSet) : Type 0 where
    pub markable : IsMarkable x m
    pub sound : (k : Key) → IsArray32 k → is_marked x m k ≡ true → IsReached c get roots k
    pub whole : (k : Key) → IsNamedBy c get roots k → is_marked x m k ≡ true
    pub stored : (k : Key) → is_marked x m k ≡ true → holds x s k ≡ true

module _ (x : FuseLibrary) (c : Cbor) (get : Key → Option Bytes) (cancelled : ℕ → Bool)
    (roots : List Key) where
  abbrev pub SamePresent : MarkSet → MarkSet → Type 0
  SamePresent m m' = (j : Key) → is_present x m' j ≡ is_present x m j

  -- What a walk makes of a set.
  abbrev pub Walked : MarkSet → List Key → MarkSet → Type 0
  Walked m done m' = IsMarking x c get roots m' [] done × SamePresent m m'

  push_children_inv :
      (loop : MarkSet → List Key → Marking) (m m' : MarkSet) (stack : List Key)
      (r : Result WalkError (List Key))
      → push_children x c get cancelled loop m stack r ≡ some (ok m')
      → (ks : List Key) × (r ≡ ok ks) × (loop m (push_all stack ks) ≡ some (ok m'))
  unfolding push_children
  push_children_inv loop m m' stack (err e) h = absurd (cc h)
  push_children_inv loop m m' stack (ok ks) h = (ks, refl, h)

  after_mark_inv :
      (loop : MarkSet → List Key → Marking) (k : Key) (stack : List Key) (m m' : MarkSet)
      (newly present : Bool)
      → after_mark x c get cancelled loop k stack (m, (newly, present)) ≡ some (ok m')
      → (present ≡ true)
        × (((newly ≡ false) × (loop m stack ≡ some (ok m')))
            ⊎ ((newly ≡ true)
                × ((ks : List Key) × (fetch_children c get k ≡ ok ks)
                    × (loop m (push_all stack ks) ≡ some (ok m')))))
  unfolding after_mark
  after_mark_inv loop k stack m m' newly false h = absurd (cc h)
  after_mark_inv loop k stack m m' false true h = (refl, inl (refl, h))
  after_mark_inv loop k stack m m' true true h =
      (refl, inr (refl, push_children_inv loop m m' stack (fetch_children c get k) h))

  pub mark_loop-IsMarking :
      (f n : ℕ) (m m' : MarkSet) (stack done : List Key)
      → ReadsArrays c get
      → ((j : Key) → contains done j ≡ true → IsArray32 j)
      → IsMarking x c get roots m stack done
      → mark_loop x c get cancelled f n m stack ≡ some (ok m')
      → Walked m done m'
  unfolding mark_loop push_all
  mark_loop-IsMarking zero n m m' stack done arr arrays h e = absurd (cc e)
  mark_loop-IsMarking (suc f) n m m' [] done arr arrays h e =
      let same : m ≡ m' = ground (arith, e) in subst (Walked m done) same (h, λ j. refl)
  mark_loop-IsMarking (suc f) n m m' (k ∷ stack) done arr arrays h e =
      let r : MarkSet × (Bool × Bool) = mark x m k in
      let (present, next) =
        after_mark_inv (mark_loop x c get cancelled f (n + 1)) k stack r.0 m' r.1.0 r.1.1
          (uncancelled e) in
      let array : IsArray32 k = h.arrays k (top_listed k stack) in
      let marks : Marks x m k r.0 r.1.0 true =
        subst (Marks x m k r.0 r.1.0) present (mark-Marks x m k h.markable array) in
      elim next [
        | inl (old, rest) ↦
            let before : is_marked x m k ≡ true = ground (arith, old, marks.was_unmarked) in
            let (ks, fetched) = h.read k array before in
            let h' : IsMarking x c get roots r.0 (push_all stack []) done =
              marked-IsMarking x c get roots m r.0 k stack done ks [] r.1.0 arr arrays h marks
                fetched (λ j listed. absurd (not_listed j listed)) (inl before) in
            onward marks (mark_loop-IsMarking f (n + 1) r.0 m' stack done arr arrays h' rest)
        | inr (new, (ks, fetched, rest)) ↦
            let h' : IsMarking x c get roots r.0 (push_all stack ks) done =
              marked-IsMarking x c get roots m r.0 k stack done ks ks r.1.0 arr arrays h marks
                fetched (λ j listed. listed) (inr (λ j listed. listed)) in
            onward marks
              (mark_loop-IsMarking f (n + 1) r.0 m' (push_all stack ks) done arr arrays h' rest)
      ]
    where
      uncancelled :
          (if n % 1024 == 0 && cancelled n
              then some (err walk_cancelled)
              else after_mark x c get cancelled
                  (mark_loop x c get cancelled f (n + 1))
                  k
                  stack
                  (mark x m k))
            ≡ some (ok m')
          → after_mark x c get cancelled
              (mark_loop x c get cancelled f (n + 1))
              k
              stack
              (mark x m k)
            ≡ some (ok m')
      uncancelled g = elim (Bool-cases (n % 1024 == 0 && cancelled n)) [
        | inl stop ↦ absurd (no_set (rw stop at g))
        | inr go ↦ rw go at g
      ]
        where
          no_set : ◌≡◌ {A = Marking} (some (err walk_cancelled)) (some (ok m')) → ⊥
          no_set d = cc d

      onward :
          {m1 : MarkSet} {newly : Bool}
          → Marks x m k m1 newly true
          → Walked m1 done m'
          → Walked m done m'
      onward marks (h', same) = (h', λ j. same j ∙ marks.still_present j)

  then_mark_inv :
      (o : Marking) (g : MarkSet → Marking) (m' : MarkSet)
      → then_mark o g ≡ some (ok m')
      → (m : MarkSet) × (o ≡ some (ok m)) × (g m ≡ some (ok m'))
  unfolding then_mark
  then_mark_inv none g m' e = absurd (cc e)
  then_mark_inv (some (ok m)) g m' e = (m, refl, e)
  then_mark_inv (some (err d)) g m' e = absurd (cc e)

  mark_roots-IsMarking :
      (f : ℕ) (m m' : MarkSet) (todo done : List Key)
      → ReadsArrays c get
      → ((j : Key) → contains done j ≡ true → IsArray32 j)
      → ((j : Key) → contains todo j ≡ true → IsArray32 j × (contains roots j ≡ true))
      → IsMarking x c get roots m [] done
      → mark_roots x c get cancelled f m todo ≡ some (ok m')
      → Walked m (push_all done todo) m'
  unfolding mark_roots mark_from push_all contains
  mark_roots-IsMarking f m m' [] done arr arrays todos h e =
      let same : m ≡ m' = ground (arith, e) in subst (Walked m done) same (h, λ j. refl)
  mark_roots-IsMarking f m m' (root ∷ todo) done arr arrays todos h e =
      let (m1, first, others) =
        then_mark_inv (mark_loop x c get cancelled f 0 m (root ∷ []))
          (λ m1. mark_roots x c get cancelled f m1 todo) m' e in
      let (array, is_root) = todos root (top_listed root todo) in
      let done_arrays : (j : Key) → contains (root ∷ done) j ≡ true → IsArray32 j = λ j listed.
        elim (or_cases (bytes_eq root j) (contains done j) listed) [
          | inl same ↦ subst IsArray32 ((bytes_eq_iff root j).0 same) array
          | inr old ↦ arrays j old
        ] in
      let (h1, same1) =
        mark_loop-IsMarking f 0 m m1 (root ∷ []) (root ∷ done) arr done_arrays
          (root-IsMarking x c get roots m root done array is_root h) first in
      let (h', same') =
        mark_roots-IsMarking f m1 m' todo (root ∷ done) arr done_arrays
          (λ j listed. todos j (ground (arith, listed))) h1 others in
      (h', λ j. same' j ∙ same1 j)

  reached-marked :
      (m : MarkSet) (root k : Key)
      → ReadsArrays c get
      → IsArray32 root
      → is_marked x m root ≡ true
      → ((i j : Key) (ks : List Key)
          → IsArray32 i
          → is_marked x m i ≡ true
          → fetch_children c get i ≡ ok ks
          → contains ks j ≡ true
          → is_marked x m j ≡ true)
      → Reaches (fetch_children c get) root k
      → IsArray32 k × (is_marked x m k ≡ true)
  reached-marked m root k arr array top closed here = (array, top)
  reached-marked m root k arr array top closed (step {k = i} {j = j} ks path fetched there) =
      let (a, marked) = reached-marked m root i arr array top closed path in
      (arr i j ks fetched there, closed i j ks a marked fetched there)

  marked-present : (m : MarkSet) (k : Key) → is_marked x m k ≡ true → is_present x m k ≡ true
  unfolding is_marked is_present is_found marked_at
  marked-present m k h = elim (Option-cases (locate_mark x m k)) [
    | inl missing ↦ ground (arith, h, missing)
    | inr (q, there) ↦ ground (arith, there)
  ]

  unmarked : {b : Bool} → b ≡ false → b ≡ true → ⊥
  unmarked e t = cc (sym e ∙ t)

  pub fresh-IsMarking :
      (z : Zstd) (content : Key → Bytes) (s : Store)
      → IsWellFiled x z content s
      → IsMarking x c get roots (new_mark_set s) [] []
  fresh-IsMarking z content s w =
      let fresh : (k : Key) → is_marked x (new_mark_set s) k ≡ false =
        λ k. (new_mark_set-unmarked x s k).1 in
      record {
        markable = new_mark_set-IsMarkable x z content s w;
        arrays = λ j listed. absurd (not_listed j listed);
        stacked = λ j listed. absurd (not_listed j listed);
        sound = λ j a marked. absurd (unmarked (fresh j) marked);
        read = λ j a marked. absurd (unmarked (fresh j) marked);
        closed = λ k j ks a marked fetched there. absurd (unmarked (fresh k) marked);
        covered = λ j listed. absurd (not_listed j listed);
      }

  -- Where the segments of the store are parts of one map, the roots are keys of 32 bytes and so are the
  -- children of the objects that are read, a mark that succeeds marks only keys that the roots reach
  -- through the children of the objects read, and every key that the decoded objects name, from the
  -- roots on, as parts of a file, children of a directory node, or contents and attributes of the
  -- entries of a directory leaf. All marked keys are in the store.
  pub mark_live-IsLiveSet :
      (z : Zstd) (content : Key → Bytes) (rounds : ℕ) (s : Store) (m : MarkSet)
      → IsWellFiled x z content s
      → ReadsArrays c get
      → ((j : Key) → contains roots j ≡ true → IsArray32 j)
      → mark_live x c get cancelled rounds s roots ≡ some (ok m)
      → IsLiveSet x c get roots s m
  unfolding mark_live contains
  mark_live-IsLiveSet z content rounds s m w arr arrays e =
      let (h, same) =
        mark_roots-IsMarking rounds (new_mark_set s) m roots [] arr
          (λ j listed. absurd (not_listed j listed)) (λ j listed. (arrays j listed, listed))
          (fresh-IsMarking z content s w) e in
      let is_in : (j : Key)
          → (is_marked x m j ≡ true) ⊎ (contains [] j ≡ true)
          → is_marked x m j ≡ true =
        λ j seen. elim seen [ inl marked ↦ marked | inr listed ↦ absurd (not_listed j listed) ] in
      let marked_path : (root : Key)
          → contains roots root ≡ true
          → (k : Key) → Reaches (fetch_children c get) root k
          → IsArray32 k × (is_marked x m k ≡ true) =
        λ root is_root k path.
          reached-marked m root k arr (arrays root is_root)
            (is_in root (h.covered root (contains-push_all [] roots root ∙ is_root)))
            (λ i j ks a marked fetched there. is_in j (h.closed i j ks a marked fetched there))
            path in
      record {
        markable = h.markable;
        sound = h.sound;
        whole = λ k names.
            let (root, is_root, named_path) = names in
            (marked_path root is_root k (
              named-fetch_children c get root
                (λ j path. let (a, marked) = marked_path root is_root j path in h.read j a marked) k
                named_path)).1;
        stored = λ k marked.
            sym (new_mark_set-unmarked x s k).0 ∙ sym (same k) ∙ marked-present m k marked;
      }
