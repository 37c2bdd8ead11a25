-- ===== src/Fstree/Walk/Complete.antt =====
-- The walks of `ReachableKeys` and `CheckComplete`.
use amber_store.Prelude.{
  ℕ, ◌+◌, ◌≤◌, ◌≡◌, ◌↔◌, refl, Bool, true, false, ◌⊎◌, inl, inr, Option, none, some, List,
  Bool-cases, contains, length, Bytes, Result, ok, err,
}
use amber_store.Key.{Key}
use amber_store.Fstree.{Cbor, is_leaf}
use amber_store.Fstree.Walk.{
  walk, start, WalkError, children_of, fetch_children, reachable_keys, leaf_present, check_object,
  check_complete,
}
use amber_store.Fstree.Walk.Round.{Reaches}
use amber_store.Fstree.Walk.Correct.{start-IsWalk, IsClosure, walk-IsClosure, walk-failed}
use amber_store.Fstree.Walk.Reached.{IsNamedFrom, fetch_children-named, check_object-named}
use amber_store.Fstree.Walk.Rounds.{walk-returns}

-- What `ReachableKeys` returns without an error lists the root first and every key that it reaches,
-- through the children of the objects read, exactly once, and nothing else: the root, and the keys
-- that the decoded objects of listed keys name, as parts of a file, children of a directory node, or
-- the contents and attributes of the entries of a directory leaf.
pub reachable_keys-IsClosure :
    (c : Cbor) (get : Key → Option Bytes) (rounds : ℕ) (root : Key) (out : List Key)
    → reachable_keys c get rounds root ≡ some (ok out)
    → IsClosure (fetch_children c get) root out
      × ((j : Key) → (contains out j ≡ true) ↔ IsNamedFrom c get root j)
unfolding reachable_keys
reachable_keys-IsClosure c get rounds root out h =
    let closure : IsClosure (fetch_children c get) root out =
      walk-IsClosure (fetch_children c get) root rounds out h in
    (closure, fetch_children-named c get root out closure)

-- An object that is there: a leaf is found, any other is read.
abbrev pub IsPresent : (Key → Option Bytes) → (Key → Option Bool) → Key → Type 0
IsPresent get has k = ((is_leaf k ≡ true) × (has k ≡ some true)) ⊎ ((b : Bytes) × (get k ≡ some b))

check_object-IsPresent :
    (c : Cbor) (get : Key → Option Bytes) (has : Key → Option Bool) (k : Key) (ks : List Key)
    → check_object c get has k ≡ ok ks
    → IsPresent get has k
unfolding check_object
check_object-IsPresent c get has k ks h = elim (Bool-cases (is_leaf k)) [
  | inl leaf ↦ inl (leaf, present (has k) (rw leaf at h))
  | inr node ↦ inr (read (get k) (rw node at h))
]
  where
    present : (o : Option Bool) → leaf_present c get has k o ≡ ok ks → o ≡ some true
    present none e = absurd (cc e)
    present (some true) e = refl
    present (some false) e = absurd (cc e)

    read : (o : Option Bytes) → children_of c get k o ≡ ok ks → (b : Bytes) × (o ≡ some b)
    read none e = absurd (cc e)
    read (some b) e = (b, refl)

-- What `CheckComplete` accepts is whole: it returns exactly the keys that the root reaches, the root
-- first and none twice, and the object of each of them is there. These are the root, and the keys that
-- the decoded objects of such keys name, as parts of a file, children of a directory node, or the
-- contents and attributes of the entries of a directory leaf.
pub check_complete-IsPresent :
    (c : Cbor) (get : Key → Option Bytes) (has : Key → Option Bool) (rounds : ℕ) (root : Key)
    (out : List Key)
    → check_complete c get has rounds root ≡ some (ok out)
    → IsClosure (check_object c get has) root out
      × ((k : Key) → Reaches (check_object c get has) root k → IsPresent get has k)
      × ((j : Key) → (contains out j ≡ true) ↔ IsNamedFrom c get root j)
unfolding check_complete
check_complete-IsPresent c get has rounds root out h =
    let closure : IsClosure (check_object c get has) root out =
      walk-IsClosure (check_object c get has) root rounds out h in
    (
      closure,
      λ k path.
          let (ks, visited) = closure.visited k (closure.whole k path) in
          check_object-IsPresent c get has k ks visited,
      check_object-named c get has root out closure,
    )

-- Where the root reaches only keys of a list, two rounds more than it is long are enough for
-- `CheckComplete` to return; and it reports an error only if the check of an object that the root
-- reaches fails with it.
pub check_complete-returns :
    (c : Cbor) (get : Key → Option Bytes) (has : Key → Option Bool) (rounds : ℕ) (root : Key)
    (univ : List Key)
    → ((k : Key) → Reaches (check_object c get has) root k → contains univ k ≡ true)
    → length univ + 2 ≤ rounds
    → ((out : List Key) × (check_complete c get has rounds root ≡ some (ok out)))
      ⊎ ((e : WalkError) × (k : Key) × (check_complete c get has rounds root ≡ some (err e))
          × Reaches (check_object c get has) root k
          × (check_object c get has k ≡ err e))
unfolding check_complete
check_complete-returns c get has rounds root univ all enough =
    let (r, run) = walk-returns (check_object c get has) root univ rounds all enough in
    of_result r run
  where
    of_result :
        (r : Result WalkError (List Key))
        → walk (check_object c get has) rounds (start root) ≡ some r
        → ((out : List Key) × (check_complete c get has rounds root ≡ some (ok out)))
          ⊎ ((e : WalkError) × (k : Key) × (check_complete c get has rounds root ≡ some (err e))
              × Reaches (check_object c get has) root k
              × (check_object c get has k ≡ err e))
    of_result (ok out) run = inl (out, run)
    of_result (err e) run =
        let (k, path, bad) =
          walk-failed (check_object c get has) root rounds (start root) e
            (start-IsWalk (check_object c get has) root) run in
        inr (e, k, run, path, bad)
