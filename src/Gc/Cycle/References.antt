-- ===== src/Gc/Cycle/References.antt =====
-- `PrepareRef` of gc/collector.go: a reference that is published during the mark keeps its tree.
use amber_store.Prelude.{
  ℕ, ◌≡◌, ◌↔◌, refl, sym, ◌∙◌, subst, arith, Bool, true, false, inl, inr, Option, none, some, List,
  ◌++◌, Bytes, contains, Result, ok, err,
}
use amber_store.Key.{Key}
use amber_store.Key.Fields.{IsArray32}
use amber_store.Amberpack.Record.{Zstd}
use amber_store.Fstree.{Cbor}
use amber_store.Fstree.Walk.{WalkError, check_complete, check_object, leaf_present, fetch_children}
use amber_store.Fstree.Walk.Round.{Reaches, here, step}
use amber_store.Fstree.Walk.Correct.{IsClosure}
use amber_store.Fstree.Walk.Reached.{IsNamedFrom}
use amber_store.Fstree.Walk.Complete.{IsPresent, check_complete-IsPresent}
use amber_store.Packstore.Filter.{FuseLibrary}
use amber_store.Packstore.Filed.{held}
use amber_store.Packstore.Store.{Store, StoreError, has_object, get_object, read_object}
use amber_store.Packstore.Store.Refinement.{holds}
use amber_store.Packstore.Lifecycle.{observe_keys}
use amber_store.Packstore.Compact.Wellfiled.{IsWellFiled}
use amber_store.Packstore.Compact.Selection.{read_object-held}
use amber_store.Packstore.Compact.Writes.{Writes, observed}
use amber_store.Gc.Marking.{ReadsArrays}
use amber_store.Gc.Cycle.{read_in, has_in, prepared, prepare_ref}

-- The children that the check of an object returns are those that are read.
check_object-fetch_children :
    (c : Cbor) (get : Key → Option Bytes) (has : Key → Option Bool) (k : Key) (ks : List Key)
    → check_object c get has k ≡ ok ks
    → fetch_children c get k ≡ ok ks
unfolding check_object leaf_present fetch_children
check_object-fetch_children c get has k ks h = ground (arith, h)

reached-IsArray32 :
    (c : Cbor) (get : Key → Option Bytes) (has : Key → Option Bool) (root k : Key)
    → ReadsArrays c get
    → IsArray32 root
    → Reaches (check_object c get has) root k
    → IsArray32 k
reached-IsArray32 c get has root k arr array here = array
reached-IsArray32 c get has root k arr array (step {k = i} ks path checked there) =
    arr i k ks (check_object-fetch_children c get has i ks checked) there

module _ (x : FuseLibrary) (z : Zstd) where
  prepared_inv :
      (s s' : Store) (o : Option (Result WalkError (List Key)))
      → prepared x z s o ≡ some (s', ok tt)
      → (keys : List Key) × (o ≡ some (ok keys)) × (s' ≡ observe_keys s keys)
  unfolding prepared
  prepared_inv s s' none h = absurd (cc h)
  prepared_inv s s' (some (err e)) h = absurd (cc h)
  prepared_inv s s' (some (ok keys)) h = (keys, refl, ground (arith, h))

  has_in-holds : (s : Store) (k : Key) → has_in x z s k ≡ some true → holds x s k ≡ true
  unfolding has_in has_object
  has_in-holds s k h = ground (arith, h)

  read_in-read_object :
      (s : Store) (k : Key) (d : Bytes)
      → read_in x z s k ≡ some d
      → read_object x z s k ≡ ok (some d)
  unfolding read_in get_object
  read_in-read_object s k d h = ground (arith, h)

  held_there :
      (b : Bool) (d p : Bytes)
      → ◌≡◌ {A = Result StoreError (Option Bytes)} (held b d) (ok (some p))
      → b ≡ true
  held_there true d p h = refl
  held_there false d p h = absurd (cc h)

  module _ (content : Key → Bytes) (c : Cbor) where
    present_holds :
        (s : Store) (k : Key)
        → IsWellFiled x z content s
        → IsArray32 k
        → IsPresent (read_in x z s) (has_in x z s) k
        → holds x s k ≡ true
    present_holds s k w array present = elim present [
      | inl (_, has) ↦ has_in-holds s k has
      | inr (d, read) ↦
          held_there (holds x s k) (content k) d
            (sym (read_object-held x z content s k w array) ∙ read_in-read_object s k d read)
    ]

    -- A reference that is prepared without an error goes on with the writes so far as if it had written
    -- its whole tree: the keys that it gives to the barrier are exactly the ones that its root reaches,
    -- each once, and the object of each of them is in the store. They are the root, and the keys that
    -- the decoded objects of such keys name, as parts of a file, children of a directory node, or the
    -- contents and attributes of the entries of a directory leaf.
    pub prepare_ref-Writes :
        (rounds : ℕ) (s t t' : Store) (ks : List Key) (root : Key)
        → IsWellFiled x z content t
        → ReadsArrays c (read_in x z t)
        → IsArray32 root
        → Writes x z content s ks t
        → prepare_ref x z c rounds t root ≡ some (t', ok tt)
        → (keys : List Key) × Writes x z content s (keys ++ ks) t'
          × IsClosure (check_object c (read_in x z t) (has_in x z t)) root keys
          × ((j : Key) → (contains keys j ≡ true) ↔ IsNamedFrom c (read_in x z t) root j)
    unfolding prepare_ref
    prepare_ref-Writes rounds s t t' ks root w arr array written done =
        let get = read_in x z t in
        let has = has_in x z t in
        let (keys, walked, after) = prepared_inv t t' (check_complete c get has rounds root) done in
        let (closure, present, from_root) =
          check_complete-IsPresent c get has rounds root keys walked in
        let there : (k : Key) → contains keys k ≡ true → IsArray32 k × (holds x t k ≡ true) =
          λ k listed.
            let path = closure.reached k listed in
            let a : IsArray32 k = reached-IsArray32 c get has root k arr array path in
            (a, present_holds t k w a (present k path)) in
        (
          keys,
          subst (Writes x z content s (keys ++ ks)) (sym after) (observed keys written there),
          closure,
          from_root,
        )
