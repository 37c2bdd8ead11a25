-- ===== src/Cborx/Maps.antt =====
-- The map and the sorted names of cborx.go: lookups after assignments, and what sorting keeps.
use mathlib.Core.List.{map}
use amber_store.Prelude.{
  suc, ◌≡◌, refl, ap, arith, List, [], ◌∷◌, Bool, false, ◌||◌, Option, none, some, if◌then◌else◌,
  length, Bytes, bytes_eq, bytes_eq_iff,
}
use amber_store.Cborx.{Xattrs, get, put, insert_name, sort_names}

-- val, ok := m[name]
unfoldable pub lookup : Xattrs → Bytes → Option Bytes
lookup [] name = none
lookup ((k, v) ∷ m) name = if bytes_eq k name then some v else lookup m name

unfoldable pub contains : List Bytes → Bytes → Bool
contains [] n = false
contains (m ∷ ms) n = bytes_eq m n || contains ms n

abbrev pub names : Xattrs → List Bytes
names m = map (λ p. p.0) m

pub lookup-put :
    (m : Xattrs) (k v n : Bytes)
    → lookup (put m k v) n ≡ (if bytes_eq k n then some v else lookup m n)
unfolding lookup put
lookup-put [] k v n = refl
lookup-put ((j, w) ∷ m) k v n =
    ground (arith, lookup-put m k v n, bytes_eq_iff j k, bytes_eq_iff j n, bytes_eq_iff k n)

pub lookup-get :
    (m : Xattrs) (n : Bytes) → lookup m n ≡ (if contains (names m) n then some (get m n) else none)
unfolding lookup get contains
lookup-get [] n = refl
lookup-get ((j, w) ∷ m) n = ground (arith, lookup-get m n)

pub contains-insert_name :
    (k : Bytes) (ns : List Bytes) (n : Bytes)
    → contains (insert_name k ns) n ≡ (bytes_eq k n || contains ns n)
unfolding contains insert_name
contains-insert_name k [] n = refl
contains-insert_name k (j ∷ ns) n = ground (arith, contains-insert_name k ns n)

pub contains-sort_names : (ns : List Bytes) (n : Bytes) → contains (sort_names ns) n ≡ contains ns n
unfolding contains sort_names
contains-sort_names [] n = refl
contains-sort_names (j ∷ ns) n =
    ground (arith, contains-insert_name j (sort_names ns) n, contains-sort_names ns n)

length-insert_name : (k : Bytes) (ns : List Bytes) → length (insert_name k ns) ≡ suc (length ns)
unfolding insert_name
length-insert_name k [] = refl
length-insert_name k (j ∷ ns) = ground (arith, length-insert_name k ns)

pub length-sort_names : (ns : List Bytes) → length (sort_names ns) ≡ length ns
unfolding sort_names
length-sort_names [] = refl
length-sort_names (j ∷ ns) =
    omega (arith, length-insert_name j (sort_names ns), length-sort_names ns)

pub length-names : (m : Xattrs) → length (names m) ≡ length m
length-names [] = refl
length-names ((k, v) ∷ m) = ap suc (length-names m)
