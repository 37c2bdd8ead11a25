-- ===== src/Prelude/ByteSlices.antt =====
-- Byte slices: Go's []byte and [N]byte as lists of numbers below 256, with the standard library's
-- encoding/binary.BigEndian and bytes.Equal.
use Prim.Native.Nat.{ℕ, zero, suc, ◌+◌, ◌*◌, ◌/◌, ◌%◌, ◌^◌, ◌-◌, ◌≤◌, ◌<◌}
use mathlib.Core.Path.{◌≡◌, refl, ap, ◌∙◌}
use mathlib.Core.Logic.{◌≢◌, ◌↔◌}
use mathlib.Core.Bool.{Bool, true, false, ◌&&◌}
use mathlib.Core.List.{List, [], ◌∷◌, ◌++◌, append_assoc, append-nil}
use native.Mathlib.Nat.{pow-suc, mul-le-mul_right}
use native.Mathlib.Omega.{arith}
use amber_store.Prelude.Tests.{◌==◌}
use amber_store.Prelude.Lists.{
  take, slice, take-append, drop-append, length, length-append, All, All-append,
}

abbrev pub Bytes : Type 0
Bytes = List ℕ

abbrev pub IsByte : ℕ → Type 0
IsByte b = b < 256

abbrev pub IsU32 : ℕ → Type 0
IsU32 n = n < 2 ^ 32

abbrev pub IsU64 : ℕ → Type 0
IsU64 n = n < 2 ^ 64

-- BigEndian.PutUint16, 32 and 64 are `put_be 2`, `put_be 4` and `put_be 8`.
unfoldable pub put_be : ℕ → ℕ → Bytes
put_be zero n = []
put_be (suc w) n = put_be w (n / 256) ++ (n % 256 ∷ [])

unfoldable pub be_acc : ℕ → Bytes → ℕ
be_acc acc [] = acc
be_acc acc (b ∷ bs) = be_acc (acc * 256 + b) bs

-- BigEndian.Uint16, 32 and 64 on a slice of that many bytes.
unfoldable pub get_be : Bytes → ℕ
unfolding be_acc
get_be bs = be_acc 0 bs

be_acc-append : (acc : ℕ) (xs ys : Bytes) → be_acc acc (xs ++ ys) ≡ be_acc (be_acc acc xs) ys
unfolding be_acc
be_acc-append acc [] ys = refl
be_acc-append acc (x ∷ xs) ys = be_acc-append (acc * 256 + x) xs ys

pub length-put_be : (w n : ℕ) → length (put_be w n) ≡ w
unfolding put_be
length-put_be zero n = refl
length-put_be (suc w) n =
    omega (arith, length-append (put_be w (n / 256)) (n % 256 ∷ []), length-put_be w (n / 256))

pub put_be-IsByte : (w n : ℕ) → All IsByte (put_be w n)
unfolding put_be
put_be-IsByte zero n = tt
put_be-IsByte (suc w) n =
    All-append IsByte (put_be w (n / 256)) (n % 256 ∷ []) (put_be-IsByte w (n / 256)) (omega arith)

-- Reading back what was written, where it fits the width.
pub get_be-put_be : (w n : ℕ) → n < 256 ^ w → get_be (put_be w n) ≡ n
unfolding put_be get_be
get_be-put_be zero n h = omega arith
get_be-put_be (suc w) n h =
    be_acc-append 0 (put_be w (n / 256)) (n % 256 ∷ [])
    ∙ omega (arith, get_be-put_be w (n / 256) (omega (arith, pow-suc 256 w)))

put_be-width : (m n x : ℕ) → m ≡ n → put_be m x ≡ put_be n x
put_be-width m n x e = rw e

regroup :
    (k acc x : ℕ) (xs : Bytes)
    → x < 256
    → put_be k ((acc * 256 + x) / 256) ++ ((acc * 256 + x) % 256 ∷ xs) ≡ put_be k acc ++ (x ∷ xs)
regroup k acc x xs h =
    let q : (acc * 256 + x) / 256 ≡ acc = omega arith in
    let r : (acc * 256 + x) % 256 ≡ x = omega arith in rw (q, r)

put_be-be_acc :
    (k acc : ℕ) (xs : Bytes)
    → All IsByte xs
    → put_be (k + length xs) (be_acc acc xs) ≡ put_be k acc ++ xs
unfolding put_be be_acc
put_be-be_acc k acc [] h = rw append-nil (put_be-width (k + 0) k acc (omega arith))
put_be-be_acc k acc (x ∷ xs) h =
    put_be-width (k + suc (length xs)) (suc k + length xs) _ (omega arith)
    ∙ put_be-be_acc (suc k) (acc * 256 + x) xs h.1
    ∙ append_assoc (put_be k ((acc * 256 + x) / 256)) ((acc * 256 + x) % 256 ∷ []) xs
    ∙ regroup k acc x xs (omega arith)

-- Writing back what was read.
pub put_be-get_be : (xs : Bytes) → All IsByte xs → put_be (length xs) (get_be xs) ≡ xs
unfolding get_be put_be
put_be-get_be xs h =
    put_be-width (length xs) (0 + length xs) _ (omega arith) ∙ put_be-be_acc 0 0 xs h

carry : (a x p q r : ℕ) → x < 256 → q ≡ p * 256 → r < suc (a * 256 + x) * p → r < suc a * q
carry a x p q r hx hq hr = omega (arith, ap (λ (t : ℕ). suc a * t) hq, mul-le-mul_right p hx)

be_acc-lt : (acc : ℕ) (xs : Bytes) → All IsByte xs → be_acc acc xs < suc acc * 256 ^ length xs
unfolding be_acc
be_acc-lt acc [] h = omega arith
be_acc-lt acc (x ∷ xs) h =
    carry acc x (256 ^ length xs) _ _ h.0 (pow-suc 256 (length xs))
      (be_acc-lt (acc * 256 + x) xs h.1)

pub get_be-lt : (xs : Bytes) → All IsByte xs → get_be xs < 256 ^ length xs
unfolding get_be
get_be-lt xs h = omega (arith, be_acc-lt 0 xs h)

be_acc-ge : (acc : ℕ) (xs : Bytes) → acc * 256 ^ length xs ≤ be_acc acc xs
unfolding be_acc
be_acc-ge acc [] = omega arith
be_acc-ge acc (x ∷ xs) =
    shift_in acc x (256 ^ length xs) _ _ (pow-suc 256 (length xs)) (be_acc-ge (acc * 256 + x) xs)
  where
    shift_in : (a x p q r : ℕ) → q ≡ p * 256 → (a * 256 + x) * p ≤ r → a * q ≤ r
    shift_in a x p q r hq hr = omega (arith, ap (λ (t : ℕ). a * t) hq)

-- A leading byte that is not zero makes the number as large as the width allows.
pub get_be-ge : (x : ℕ) (xs : Bytes) → x ≢ 0 → 256 ^ length xs ≤ get_be (x ∷ xs)
unfolding get_be
get_be-ge x xs h =
    let pos : 1 ≤ x = omega arith in
    omega (arith, be_acc-ge (0 * 256 + x) xs, mul-le-mul_right (256 ^ length xs) pos)

unfoldable pub bytes_eq : Bytes → Bytes → Bool
bytes_eq [] [] = true
bytes_eq [] (y ∷ ys) = false
bytes_eq (x ∷ xs) [] = false
bytes_eq (x ∷ xs) (y ∷ ys) = x == y && bytes_eq xs ys

pub bytes_eq_iff : (xs ys : Bytes) → (bytes_eq xs ys ≡ true) ↔ (xs ≡ ys)
unfolding bytes_eq
bytes_eq_iff [] [] = ground arith
bytes_eq_iff [] (y ∷ ys) = ground arith
bytes_eq_iff (x ∷ xs) [] = ground arith
bytes_eq_iff (x ∷ xs) (y ∷ ys) = ground (arith, bytes_eq_iff xs ys)

pub bytes_eq_refl : (xs : Bytes) → bytes_eq xs xs ≡ true
bytes_eq_refl xs = (bytes_eq_iff xs xs).1 refl

-- A field of a fixed width at the front of a slice.
pub field_front : (w n : ℕ) (ys : Bytes) → n < 256 ^ w → get_be (take w (put_be w n ++ ys)) ≡ n
field_front w n ys h =
    ap get_be (take-append (put_be w n) ys (length-put_be w n)) ∙ get_be-put_be w n h

-- What lies behind a field of a fixed width.
pub field_skip :
    (w n : ℕ) (ys : Bytes) (lo hi : ℕ) → slice (put_be w n ++ ys) (w + lo) (w + hi) ≡ slice ys lo hi
field_skip w n ys lo hi =
    let width : w + hi - (w + lo) ≡ hi - lo = omega arith in
    rw (width, drop-append (put_be w n) ys {n = w + lo} lo (omega (arith, length-put_be w n)))
