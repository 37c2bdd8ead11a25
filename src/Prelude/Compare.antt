-- ===== src/Prelude/Compare.antt =====
-- bytes.Compare: the lexicographic order of byte slices, as the test `Compare(a, b) < 0`.
use mathlib.Core.Path.{◌≡◌, refl}
use mathlib.Core.Bool.{Bool, true, false, ◌&&◌, ◌||◌}
use mathlib.Core.List.{[], ◌∷◌}
use native.Mathlib.Omega.{arith}
use amber_store.Prelude.Tests.{ltb, ◌==◌}
use amber_store.Prelude.ByteSlices.{Bytes}

unfoldable pub bytes_less : Bytes → Bytes → Bool
bytes_less [] [] = false
bytes_less [] (y ∷ ys) = true
bytes_less (x ∷ xs) [] = false
bytes_less (x ∷ xs) (y ∷ ys) = ltb x y || (x == y && bytes_less xs ys)

pub bytes_less_irrefl : (xs : Bytes) → bytes_less xs xs ≡ false
unfolding bytes_less
bytes_less_irrefl [] = refl
bytes_less_irrefl (x ∷ xs) = ground (arith, bytes_less_irrefl xs)

pub bytes_less_trans :
    (xs ys zs : Bytes) → bytes_less xs ys ≡ true → bytes_less ys zs ≡ true → bytes_less xs zs ≡ true
unfolding bytes_less
bytes_less_trans [] [] zs p q = ground arith
bytes_less_trans [] (y ∷ ys) [] p q = ground arith
bytes_less_trans [] (y ∷ ys) (z ∷ zs) p q = refl
bytes_less_trans (x ∷ xs) [] zs p q = ground arith
bytes_less_trans (x ∷ xs) (y ∷ ys) [] p q = ground arith
bytes_less_trans (x ∷ xs) (y ∷ ys) (z ∷ zs) p q = ground (arith, bytes_less_trans xs ys zs)

-- Two slices neither of which is less are equal.
pub bytes_less_connex :
    (xs ys : Bytes) → bytes_less xs ys ≡ false → bytes_less ys xs ≡ false → xs ≡ ys
unfolding bytes_less
bytes_less_connex [] [] p q = refl
bytes_less_connex [] (y ∷ ys) p q = ground arith
bytes_less_connex (x ∷ xs) [] p q = ground arith
bytes_less_connex (x ∷ xs) (y ∷ ys) p q = ground (arith, bytes_less_connex xs ys)
