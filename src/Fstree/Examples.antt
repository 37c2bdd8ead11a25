-- ===== src/Fstree/Examples.antt =====
-- The walk of a file of two blobs, one of them twice.
use amber_store.Prelude.{
  ◌≡◌, ◌↔◌, ◌⊎◌, refl, arith, Bool, true, Option, none, some, List, [], ◌∷◌, if◌then◌else◌, drop,
  Bytes, bytes_eq, contains, ok, err,
}
use amber_store.Key.{Key, parse, validate, is_valid, type_of, length_size, payload_length}
use amber_store.Key.Examples.{sample_key}
use amber_store.Fstree.{Cbor, is_leaf, child_keys, decode_file_node, decoded, parse_keys}
use amber_store.Fstree.Walk.{
  WalkError, walk, on_frontier, fetch, after_fetch, add_lists, add_keys, add_key, fetch_children,
  children_of, reachable_keys, check_object, leaf_present, check_complete,
}
use amber_store.Fstree.Walk.Round.{Reaches}
use amber_store.Fstree.Walk.Reached.{IsNamedFrom}
use amber_store.Fstree.Walk.Correct.{IsClosure}
use amber_store.Fstree.Walk.Complete.{
  IsPresent, reachable_keys-IsClosure, check_complete-IsPresent, check_complete-returns,
}

abbrev file_key : Key
file_key = 17 ∷ drop 1 sample_key

abbrev other_blob : Key
other_blob = 1 ∷ 1 ∷ 45 ∷ drop 3 sample_key

abbrev lists : Cbor
lists = record {
  unmarshal_keys = λ b. some (sample_key ∷ other_blob ∷ sample_key ∷ []);
  unmarshal_entries = λ b. none;
  unmarshal_pairs = λ b. none;
}

abbrev get : Key → Option Bytes
get k = if bytes_eq k file_key then some (9 ∷ []) else none

abbrev has : Key → Option Bool
has k = some true

abbrev listed : List Key
listed = file_key ∷ sample_key ∷ other_blob ∷ []

reachable : reachable_keys lists get 5 file_key ≡ some (ok listed)
unfolding reachable_keys walk on_frontier fetch after_fetch add_lists add_keys add_key
    fetch_children children_of child_keys is_leaf decode_file_node decoded parse_keys parse validate
    is_valid type_of length_size payload_length bytes_eq contains
reachable = refl

complete : check_complete lists get has 5 file_key ≡ some (ok listed)
unfolding check_complete walk on_frontier fetch after_fetch add_lists add_keys add_key check_object
    leaf_present children_of child_keys is_leaf decode_file_node decoded parse_keys parse validate
    is_valid type_of length_size payload_length bytes_eq contains
complete = refl

reachable_keys-IsClosure_example :
    IsClosure (fetch_children lists get) file_key listed
    × ((j : Key) → (contains listed j ≡ true) ↔ IsNamedFrom lists get file_key j)
reachable_keys-IsClosure_example = reachable_keys-IsClosure lists get 5 file_key listed reachable

check_complete-IsPresent_example :
    IsClosure (check_object lists get has) file_key listed
    × ((k : Key) → Reaches (check_object lists get has) file_key k → IsPresent get has k)
    × ((j : Key) → (contains listed j ≡ true) ↔ IsNamedFrom lists get file_key j)
check_complete-IsPresent_example = check_complete-IsPresent lists get has 5 file_key listed complete

check_complete-returns_example :
    ((out : List Key) × (check_complete lists get has 6 file_key ≡ some (ok out)))
    ⊎ ((e : WalkError) × (k : Key) × (check_complete lists get has 6 file_key ≡ some (err e))
        × Reaches (check_object lists get has) file_key k
        × (check_object lists get has k ≡ err e))
check_complete-returns_example =
    check_complete-returns lists get has 6 file_key listed (check_complete-IsPresent_closure).whole
      (omega arith)
  where
    check_complete-IsPresent_closure : IsClosure (check_object lists get has) file_key listed
    check_complete-IsPresent_closure =
        (check_complete-IsPresent lists get has 5 file_key listed complete).0
