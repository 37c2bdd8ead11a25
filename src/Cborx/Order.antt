-- ===== src/Cborx/Order.antt =====
-- Sorting the names of cborx.go by their encodings gives the same list for every iteration order.
use amber_store.Prelude.{
  ◌≡◌, refl, sym, ◌∙◌, ap₂, arith, List, [], ◌∷◌, true, false, length, Bytes, IsU64, All,
  bytes_eq_iff, bytes_eq_refl, bytes_less_irrefl, bytes_less_trans, bytes_less_connex,
}
use amber_store.Cborx.{append_bstr, name_less, insert_name, sort_names}
use amber_store.Cborx.Heads.{append_bstr-injective}
use amber_store.Cborx.Maps.{contains, contains-sort_names}

abbrev pub IsName : Bytes → Type 0
IsName n = IsU64 (length n)

name_less_irrefl : (a : Bytes) → name_less a a ≡ false
unfolding name_less
name_less_irrefl a = bytes_less_irrefl (append_bstr [] a)

name_less_trans :
    (a b c : Bytes) → name_less a b ≡ true → name_less b c ≡ true → name_less a c ≡ true
unfolding name_less
name_less_trans a b c = bytes_less_trans (append_bstr [] a) (append_bstr [] b) (append_bstr [] c)

name_less_connex :
    (a b : Bytes) → IsName a → IsName b → name_less a b ≡ false → name_less b a ≡ false → a ≡ b
unfolding name_less
name_less_connex a b ua ub p q =
    append_bstr-injective a b ua ub (bytes_less_connex (append_bstr [] a) (append_bstr [] b) p q)

-- Strictly increasing in the order of the encodings.
abbrev IsSorted : List Bytes → Type 0
IsSorted [] = Unit {0}
IsSorted (n ∷ ns) = All (λ m. name_less n m ≡ true) ns × IsSorted ns

-- No name stands twice.
abbrev pub IsDistinct : List Bytes → Type 0
IsDistinct [] = Unit {0}
IsDistinct (n ∷ ns) = (contains ns n ≡ false) × IsDistinct ns

below-All :
    (a b : Bytes) (ns : List Bytes)
    → name_less a b ≡ true
    → All (λ m. name_less b m ≡ true) ns
    → All (λ m. name_less a m ≡ true) ns
below-All a b [] h s = tt
below-All a b (n ∷ ns) h s = (name_less_trans a b n h s.0, below-All a b ns h s.1)

insert_name-below :
    (a k : Bytes) (ns : List Bytes)
    → name_less a k ≡ true
    → All (λ m. name_less a m ≡ true) ns
    → All (λ m. name_less a m ≡ true) (insert_name k ns)
unfolding insert_name
insert_name-below a k [] h s = (h, tt)
insert_name-below a k (n ∷ ns) h s = ground (arith, insert_name-below a k ns h)

insert_name-IsSorted :
    (k : Bytes) (ns : List Bytes)
    → IsName k
    → All IsName ns
    → contains ns k ≡ false
    → IsSorted ns
    → IsSorted (insert_name k ns)
unfolding insert_name contains
insert_name-IsSorted k [] u us new s = (tt, tt)
insert_name-IsSorted k (n ∷ ns) u us new s = ground (
  arith,
  insert_name-IsSorted k ns u us.1,
  name_less_connex n k us.0 u,
  bytes_eq_iff n k,
  insert_name-below n k ns,
  below-All k n ns,
)

insert_name-All :
    (k : Bytes) (ns : List Bytes) → IsName k → All IsName ns → All IsName (insert_name k ns)
unfolding insert_name
insert_name-All k [] u us = (u, tt)
insert_name-All k (n ∷ ns) u us = ground (arith, insert_name-All k ns u)

pub sort_names-All : (ns : List Bytes) → All IsName ns → All IsName (sort_names ns)
unfolding sort_names
sort_names-All [] us = tt
sort_names-All (n ∷ ns) us = insert_name-All n (sort_names ns) us.0 (sort_names-All ns us.1)

sort_names-IsSorted : (ns : List Bytes) → All IsName ns → IsDistinct ns → IsSorted (sort_names ns)
unfolding sort_names
sort_names-IsSorted [] us d = tt
sort_names-IsSorted (n ∷ ns) us d =
    insert_name-IsSorted n (sort_names ns) us.0 (sort_names-All ns us.1)
      (contains-sort_names ns n ∙ d.0) (sort_names-IsSorted ns us.1 d.1)

not_contained :
    (a : Bytes) (ns : List Bytes) → All (λ m. name_less a m ≡ true) ns → contains ns a ≡ false
unfolding contains
not_contained a [] s = refl
not_contained a (n ∷ ns) s =
    ground (arith, not_contained a ns s.1, bytes_eq_iff n a, name_less_irrefl a)

-- The least member of a sorted list is its head.
same_head :
    (x y : Bytes) (xs ys : List Bytes)
    → IsName x
    → IsName y
    → IsSorted (x ∷ xs)
    → IsSorted (y ∷ ys)
    → contains (x ∷ xs) x ≡ contains (y ∷ ys) x
    → contains (x ∷ xs) y ≡ contains (y ∷ ys) y
    → x ≡ y
unfolding contains
same_head x y xs ys ux uy sx sy ex ey = ground (
  arith,
  name_less_connex x y ux uy,
  bytes_eq_refl x,
  bytes_eq_refl y,
  not_contained x (y ∷ ys),
  below-All x y ys,
  not_contained y (x ∷ xs),
  below-All y x xs,
)

-- Two sorted lists with the same members are one list.
sorted_unique :
    (xs ys : List Bytes)
    → All IsName xs
    → All IsName ys
    → IsSorted xs
    → IsSorted ys
    → ((n : Bytes) → contains xs n ≡ contains ys n)
    → xs ≡ ys
unfolding contains
sorted_unique [] [] ux uy sx sy same = refl
sorted_unique [] (y ∷ ys) ux uy sx sy same = ground (arith, same y, bytes_eq_refl y)
sorted_unique (x ∷ xs) [] ux uy sx sy same = ground (arith, same x, bytes_eq_refl x)
sorted_unique (x ∷ xs) (y ∷ ys) ux uy sx sy same =
    let head : x ≡ y = same_head x y xs ys ux.0 uy.0 sx sy (same x) (same y) in
    ap₂ (λ (z : Bytes) (zs : List Bytes). z ∷ zs) head
      (sorted_unique xs ys ux.1 uy.1 sx.1 sy.1 (λ n. ground (
        arith,
        head,
        same n,
        bytes_eq_iff x n,
        bytes_eq_iff y n,
        not_contained x xs sx.0,
        not_contained y ys sy.0,
      )))

-- Sorting forgets the order in which distinct names came.
pub sort_names_unique :
    (ns ms : List Bytes)
    → All IsName ns
    → All IsName ms
    → IsDistinct ns
    → IsDistinct ms
    → ((n : Bytes) → contains ns n ≡ contains ms n)
    → sort_names ns ≡ sort_names ms
sort_names_unique ns ms un um dn dm same =
    sorted_unique (sort_names ns) (sort_names ms) (sort_names-All ns un) (sort_names-All ms um)
      (sort_names-IsSorted ns un dn) (sort_names-IsSorted ms um dm)
      (λ n. contains-sort_names ns n ∙ same n ∙ sym (contains-sort_names ms n))
