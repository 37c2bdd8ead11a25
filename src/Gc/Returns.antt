-- ===== src/Gc/Returns.antt =====
-- The mark of gc/collector.go ends: every round takes a key off the stack, and a key is expanded once.
use amber_store.Prelude.{
  or_cases, ℕ, zero, suc, ◌+◌, ◌%◌, ◌≤◌, ◌<◌, ◌≡◌, refl, sym, ◌∙◌, ap, subst, arith, Bool, true,
  false, ◌&&◌, inl, inr, Option, none, some, List, [], ◌∷◌, ◌==◌, if◌then◌else◌, length, Bytes,
  bytes_eq, bytes_eq_iff, contains, Result, ok, err, Bool-cases,
}
use amber_store.Key.{Key}
use amber_store.Key.Fields.{IsArray32}
use amber_store.Amberpack.Record.{Zstd}
use amber_store.Fstree.{Cbor}
use amber_store.Fstree.Walk.{WalkError, fetch_children}
use amber_store.Packstore.Filter.{FuseLibrary}
use amber_store.Packstore.Store.{Store}
use amber_store.Packstore.Store.Refinement.{holds}
use amber_store.Packstore.Compact.Wellfiled.{IsWellFiled}
use amber_store.Packstore.Marks.{MarkSet, mark, is_marked, new_mark_set}
use amber_store.Packstore.Marks.Marked.{IsMarkable, is_present, Marks, mark-Marks}
use amber_store.Packstore.Marks.Fresh.{new_mark_set-unmarked}
use amber_store.Gc.{
  MarkError, not_in_store, walk_failed, Marking, walk_cancelled, push_all, then_mark, push_children,
  after_mark, mark_loop, mark_from, mark_roots, mark_live,
}
use amber_store.Gc.Marking.{ReadsArrays, IsMarking, contains-push_all, single, root-IsMarking}
use amber_store.Gc.Marked.{top_listed, not_listed, mark_loop-IsMarking, fresh-IsMarking}

length-push_all : (stack ks : List Key) → length (push_all stack ks) ≡ length stack + length ks
unfolding push_all
length-push_all stack [] = omega arith
length-push_all stack (k ∷ ks) = omega (arith, length-push_all (k ∷ stack) ks)

-- How many children the object of a key has.
unfoldable pub degree : Cbor → (Key → Option Bytes) → Key → ℕ
degree c get k = elim (fetch_children c get k) [ ok ks ↦ length ks | err e ↦ 0 ]

unfoldable pub all_degrees : Cbor → (Key → Option Bytes) → List Key → ℕ
unfolding degree
all_degrees c get [] = 0
all_degrees c get (k ∷ ks) = degree c get k + all_degrees c get ks

module _ (x : FuseLibrary) (c : Cbor) (get : Key → Option Bytes) (cancelled : ℕ → Bool) where
  -- The children of what is not marked yet.
  unfoldable weight : List Key → MarkSet → ℕ
  weight [] m = 0
  weight (k ∷ ks) m =
      let rest = weight ks m in if is_marked x m k then rest else degree c get k + rest

  weight-all_degrees : (univ : List Key) (m : MarkSet) → weight univ m ≤ all_degrees c get univ
  unfolding weight all_degrees
  weight-all_degrees [] m = omega arith
  weight-all_degrees (k ∷ ks) m = ground (arith, weight-all_degrees ks m)

  weight_kept :
      (univ : List Key) (m m' : MarkSet)
      → ((j : Key) → contains univ j ≡ true → is_marked x m j ≡ true → is_marked x m' j ≡ true)
      → weight univ m' ≤ weight univ m
  unfolding weight contains
  weight_kept [] m m' keeps = omega arith
  weight_kept (k ∷ ks) m m' keeps = ground (
    arith,
    weight_kept ks m m' (λ j listed. keeps j (ground (arith, listed))),
    keeps k (top_listed k ks),
  )

  weight_marked :
      (univ : List Key) (m m' : MarkSet) (k : Key)
      → ((j : Key) → contains univ j ≡ true → is_marked x m j ≡ true → is_marked x m' j ≡ true)
      → is_marked x m k ≡ false
      → is_marked x m' k ≡ true
      → contains univ k ≡ true
      → weight univ m' + degree c get k ≤ weight univ m
  unfolding weight contains
  weight_marked [] m m' k keeps old new listed = absurd (cc listed)
  weight_marked (i ∷ is) m m' k keeps old new listed = elim (Bool-cases (bytes_eq i k)) [
    | inl same ↦
        let rest : weight is m' ≤ weight is m =
          weight_kept is m m' (λ j l. keeps j (ground (arith, l))) in
        ground (arith, (bytes_eq_iff i k).0 same, old, new, rest)
    | inr other ↦
        let rest : weight is m' + degree c get k ≤ weight is m =
          weight_marked is m m' k (λ j l. keeps j (ground (arith, l))) old new
            (ground (arith, listed, other)) in
        ground (arith, rest, keeps i (top_listed i is))
  ]

  abbrev Returns : Marking → Type 0
  Returns o = (r : Result MarkError MarkSet) × (o ≡ some r)

  push_children-Returns :
      (loop : MarkSet → List Key → Marking) (m : MarkSet) (stack : List Key)
      (r : Result WalkError (List Key))
      → ((ks : List Key) → r ≡ ok ks → Returns (loop m (push_all stack ks)))
      → Returns (push_children x c get cancelled loop m stack r)
  unfolding push_children
  push_children-Returns loop m stack (err e) h = (err (walk_failed e), refl)
  push_children-Returns loop m stack (ok ks) h = h ks refl

  after_mark-Returns :
      (loop : MarkSet → List Key → Marking) (k : Key) (stack : List Key) (m : MarkSet)
      (newly present : Bool)
      → (present ≡ true → newly ≡ false → Returns (loop m stack))
      → (present ≡ true
          → newly ≡ true
          → (ks : List Key) → fetch_children c get k ≡ ok ks
          → Returns (loop m (push_all stack ks)))
      → Returns (after_mark x c get cancelled loop k stack (m, (newly, present)))
  unfolding after_mark
  after_mark-Returns loop k stack m newly false old new = (err (not_in_store k), refl)
  after_mark-Returns loop k stack m false true old new = old refl refl
  after_mark-Returns loop k stack m true true old new =
      push_children-Returns loop m stack (fetch_children c get k) (new refl refl)

  below :
      (k : Key) (stack : List Key) (j : Key)
      → contains stack j ≡ true
      → contains (k ∷ stack) j ≡ true
  unfolding contains
  below k stack j l = ground (arith, l)

  degree_of :
      (k : Key) (ks : List Key) → fetch_children c get k ≡ ok ks → degree c get k ≡ length ks
  unfolding degree
  degree_of k ks fetched =
      ap (λ (r : Result WalkError (List Key)). elim r [ ok ks' ↦ length ks' | err e ↦ 0 ]) fetched

  then_mark-Returns :
      (o : Marking) (g : MarkSet → Marking) (r : Result MarkError MarkSet)
      → o ≡ some r
      → ((m : MarkSet) → r ≡ ok m → Returns (g m))
      → Returns (then_mark o g)
  unfolding then_mark
  then_mark-Returns none g r run h = absurd (none_some run)
    where
      none_some : none ≡ some r → ⊥
      none_some e = cc e
  then_mark-Returns (some (ok m)) g r run h = h m (ground (arith, run))
  then_mark-Returns (some (err e)) g r run h = (err e, refl)

  module _ (univ : List Key) (arr : ReadsArrays c get)
      (univ_arrays : (j : Key) → contains univ j ≡ true → IsArray32 j) where
    mark_loop-Returns :
        (f n : ℕ) (m : MarkSet) (stack : List Key)
        → IsMarkable x m
        → ((j : Key) → contains stack j ≡ true → IsArray32 j)
        → ((j : Key) → is_present x m j ≡ true → contains univ j ≡ true)
        → length stack + weight univ m < f
        → Returns (mark_loop x c get cancelled f n m stack)
    unfolding mark_loop
    mark_loop-Returns zero n m stack h arrays known enough = absurd (omega arith)
    mark_loop-Returns (suc f) n m [] h arrays known enough = (ok m, refl)
    mark_loop-Returns (suc f) n m (k ∷ stack) h arrays known enough =
        elim (Bool-cases (n % 1024 == 0 && cancelled n)) [
          | inl stop ↦ rw stop (err walk_cancelled, refl)
          | inr go ↦
              let r : MarkSet × (Bool × Bool) = mark x m k in
              let marks : Marks x m k r.0 r.1.0 r.1.1 =
                mark-Marks x m k h (arrays k (top_listed k stack)) in
              let keeps : (j : Key)
                  → contains univ j ≡ true
                  → is_marked x m j ≡ true
                  → is_marked x r.0 j ≡ true =
                λ j listed marked. ground (arith, marks.marks j (univ_arrays j listed), marked) in
              let still : (j : Key) → is_present x r.0 j ≡ true → contains univ j ≡ true =
                λ j there. known j (sym (marks.still_present j) ∙ there) in
              rw go (
                after_mark-Returns (mark_loop x c get cancelled f (n + 1)) k stack r.0 r.1.0 r.1.1
                  (λ there old.
                    mark_loop-Returns f (n + 1) r.0 stack marks.markable
                      (λ j l. arrays j (below k stack j l)) still
                      (omega (arith, enough, weight_kept univ m r.0 keeps)))
                  (λ there new ks fetched.
                    mark_loop-Returns f (n + 1) r.0 (push_all stack ks) marks.markable
                      (λ j l.
                        elim (or_cases (contains stack j) (contains ks j)
                          (sym (contains-push_all stack ks j) ∙ l)) [
                            | inl old ↦ arrays j (below k stack j old)
                            | inr child ↦ arr k j ks fetched child
                          ])
                      still
                      (omega (
                        arith,
                        enough,
                        length-push_all stack ks,
                        degree_of k ks fetched,
                        weight_marked univ m r.0 k keeps
                            (ground (arith, new, there, marks.was_unmarked))
                            (ground (
                              arith,
                              there,
                              marks.marks k (arrays k (top_listed k stack)),
                              bytes_eq_iff k k,
                            ))
                            (known k (ground (arith, there, marks.was_present))),
                      ))))
        ]

    mark_roots-Returns :
        (roots : List Key) (f : ℕ) (m : MarkSet) (todo done : List Key)
        → 1 + all_degrees c get univ < f
        → ((j : Key) → contains done j ≡ true → IsArray32 j)
        → ((j : Key) → contains todo j ≡ true → IsArray32 j × (contains roots j ≡ true))
        → ((j : Key) → is_present x m j ≡ true → contains univ j ≡ true)
        → IsMarking x c get roots m [] done
        → Returns (mark_roots x c get cancelled f m todo)
    unfolding mark_roots mark_from contains
    mark_roots-Returns roots f m [] done enough arrays todos known h = (ok m, refl)
    mark_roots-Returns roots f m (root ∷ todo) done enough arrays todos known h =
        let (array, is_root) = todos root (top_listed root todo) in
        let (r, run) =
          mark_loop-Returns f 0 m (root ∷ []) h.markable
            (λ j listed. subst IsArray32 (single root j listed) array) known
            (omega (arith, enough, weight-all_degrees univ m)) in
        then_mark-Returns (mark_loop x c get cancelled f 0 m (root ∷ []))
          (λ m1. mark_roots x c get cancelled f m1 todo) r run
          (λ m1 first.
            let done_arrays : (j : Key) → contains (root ∷ done) j ≡ true → IsArray32 j =
              λ j listed. elim (or_cases (bytes_eq root j) (contains done j) listed) [
                | inl same ↦ subst IsArray32 ((bytes_eq_iff root j).0 same) array
                | inr old ↦ arrays j old
              ] in
            let (h1, same1) =
              mark_loop-IsMarking x c get cancelled roots f 0 m m1 (root ∷ []) (root ∷ done) arr
                done_arrays (root-IsMarking x c get roots m root done array is_root h)
                (run ∙ ap some first) in
            mark_roots-Returns roots f m1 todo (root ∷ done) enough done_arrays
              (λ j listed. todos j (ground (arith, listed)))
              (λ j there. known j (sym (same1 j) ∙ there)) h1)

  -- Where a list names every key of the store, two rounds more than the objects of the list have
  -- children are enough for the walk of each root: the mark returns a set or an error.
  pub mark_live-Returns :
      (z : Zstd) (content : Key → Bytes) (univ roots : List Key) (rounds : ℕ) (s : Store)
      → IsWellFiled x z content s
      → ReadsArrays c get
      → ((j : Key) → contains univ j ≡ true → IsArray32 j)
      → ((j : Key) → contains roots j ≡ true → IsArray32 j)
      → ((j : Key) → holds x s j ≡ true → contains univ j ≡ true)
      → 2 + all_degrees c get univ ≤ rounds
      → (r : Result MarkError MarkSet) × (mark_live x c get cancelled rounds s roots ≡ some r)
  unfolding mark_live
  mark_live-Returns z content univ roots rounds s w arr univ_arrays arrays known enough =
      mark_roots-Returns univ arr univ_arrays roots rounds (new_mark_set s) roots []
        (omega (arith, enough)) (λ j listed. absurd (not_listed j listed))
        (λ j listed. (arrays j listed, listed))
        (λ j there. known j (sym (new_mark_set-unmarked x s j).0 ∙ there))
        (fresh-IsMarking x c get cancelled roots z content s w)
