-- ===== src/Fstree/Walk.antt =====
-- fstree/reachable.go and fstree/checkcomplete.go: the breadth-first walk of a tree. The objects of a
-- round are fetched one after the other: the first error stands for the one that the group reports.
pub mod Round
pub mod Correct
pub mod Rounds
pub mod Reached
pub mod Complete
use amber_store.Prelude.{
  ℕ, zero, suc, Bool, true, false, not, ◌||◌, Option, none, some, List, [], ◌∷◌, ◌++◌,
  if◌then◌else◌, Bytes, contains, Result, ok, err, ◌>>=◌, ◌>>◌, fail_if, wrap,
}
use amber_store.Key.{Key}
use amber_store.Fstree.{Cbor, FsError, is_leaf, child_keys}

-- The keys seen, the result so far, and the frontier of the next round.
pub record Visited : Type 0 where
  pub seen : List Key
  pub out : List Key
  pub next : List Key

unfoldable pub add_key : Visited → Key → Visited
add_key v k =
    if contains v.seen k
    then v
    else record { seen = k ∷ v.seen; out = v.out ++ (k ∷ []); next = v.next ++ (k ∷ []) }

unfoldable pub add_keys : Visited → List Key → Visited
unfolding add_key
add_keys v [] = v
add_keys v (k ∷ ks) = add_keys (add_key v k) ks

unfoldable pub add_lists : Visited → List (List Key) → Visited
unfolding add_keys
add_lists v [] = v
add_lists v (ks ∷ lists) = add_lists (add_keys v ks) lists

module _ {E : Type 0} (visit : Key → Result E (List Key)) where
  -- The children of each object of the frontier.
  unfoldable pub fetch : List Key → Result E (List (List Key))
  fetch [] = ok []
  fetch (k ∷ ks) = do children ← visit k; rest ← fetch ks; ok (children ∷ rest)

  unfoldable pub after_fetch :
      (Visited → Option (Result E (List Key)))
      → Visited
      → Result E (List (List Key))
      → Option (Result E (List Key))
  unfolding add_lists
  after_fetch loop v (err e) = some (err e)
  after_fetch loop v (ok lists) = loop (add_lists v lists)

  -- A round for the keys of a frontier.
  unfoldable pub on_frontier :
      (Visited → Option (Result E (List Key))) → Visited → List Key → Option (Result E (List Key))
  unfolding fetch after_fetch
  on_frontier loop v [] = some (ok v.out)
  on_frontier loop v (k ∷ ks) = after_fetch loop (record v { next = [] }) (fetch (k ∷ ks))

  -- Nothing stands for rounds that ran out.
  unfoldable pub walk : ℕ → Visited → Option (Result E (List Key))
  unfolding on_frontier
  walk zero v = none
  walk (suc rounds) v = on_frontier (walk rounds) v v.next

abbrev pub start : Key → Visited
start root = record { seen = root ∷ []; out = root ∷ []; next = root ∷ [] }

pub data WalkError : Type 0 where
  read_failed missing_object : Key → WalkError
  lookup_failed : WalkError
  bad_object : FsError → WalkError

-- The functions that read objects and test for them; nothing where they report an error.
module _ (c : Cbor) (get : Key → Option Bytes) where
  unfoldable pub children_of : Key → Option Bytes → Result WalkError (List Key)
  children_of k none = err (read_failed k)
  children_of k (some b) = wrap bad_object (child_keys c k b)

  -- The goroutine of `ReachableKeys`: leaves are not read.
  unfoldable pub fetch_children : Key → Result WalkError (List Key)
  unfolding children_of
  fetch_children k = if is_leaf k then ok [] else children_of k (get k)

  unfoldable pub reachable_keys : ℕ → Key → Option (Result WalkError (List Key))
  unfolding walk fetch_children
  reachable_keys rounds root = walk fetch_children rounds (start root)

  module _ (has : Key → Option Bool) where
    unfoldable pub leaf_present : Key → Option Bool → Result WalkError (List Key)
    leaf_present k none = err lookup_failed
    leaf_present k (some true) = ok []
    leaf_present k (some false) = err (missing_object k)

    -- The goroutine of `CheckComplete`.
    unfoldable pub check_object : Key → Result WalkError (List Key)
    unfolding leaf_present children_of
    check_object k = if is_leaf k then leaf_present k (has k) else children_of k (get k)

    unfoldable pub check_complete : ℕ → Key → Option (Result WalkError (List Key))
    unfolding walk check_object
    check_complete rounds root = walk check_object rounds (start root)
