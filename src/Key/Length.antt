-- ===== src/Key/Length.antt =====
-- The width of the length field: key.go's `lengthSizeFor` picks the least number of bytes.
use native.Mathlib.Nat.{pow-suc, one-le-pow}
use native.Mathlib.Numerals.{towards_suc}
use amber_store.Prelude.{
  ℕ, zero, suc, ◌+◌, ◌*◌, ◌/◌, ◌%◌, ◌^◌, ◌≤◌, ◌<◌, ◌≡◌, refl, ◌∙◌, ap, ◌↔◌, arith, [], ◌∷◌, ◌++◌,
  length, drop, replicate, put_be, get_be, IsU64, Bytes, ◌≢◌, length-put_be, drop-append_le,
}
use amber_store.Key.{bit_len, length_size_for}

bit_len-le : (k f n : ℕ) → n < 2 ^ k → bit_len f n ≤ k
unfolding bit_len
bit_len-le k zero n h = omega arith
bit_len-le zero (suc f) n h = ground arith
bit_len-le (suc k) (suc f) n h = ground (arith, pow-suc 2 k, bit_len-le k f (n / 2))

lt-pow_of_bit_len : (k f n : ℕ) → n < 2 ^ f → bit_len f n ≤ k → n < 2 ^ k
unfolding bit_len
lt-pow_of_bit_len k zero n h e = omega (arith, one-le-pow k 2 (omega arith))
lt-pow_of_bit_len zero (suc f) n h e = ground arith
lt-pow_of_bit_len (suc k) (suc f) n h e = ground (
  arith,
  pow-suc 2 k,
  pow-suc 2 f,
  one-le-pow (suc k) 2 (omega arith),
  lt-pow_of_bit_len k f (n / 2),
)

pow_eight_more : (m : ℕ) → 2 ^ (m + 8) ≡ 2 ^ m * 256
pow_eight_more m = simp (towards_suc, pow-suc) (omega arith)

pow_256 : (w : ℕ) → 256 ^ w ≡ 2 ^ (8 * w)
pow_256 zero = refl
pow_256 (suc w) =
    let next : 8 * suc w ≡ 8 * w + 8 = omega arith in
    rw next (omega (arith, pow-suc 256 w, pow_256 w, pow_eight_more (8 * w)))

-- The length field is the narrowest that holds the number: for a number below 2^64 and a width `w`
-- of at least 1, it has at most `w` bytes exactly when the number is below 256^w.
pub length_size_for_iff : (w n : ℕ) → 1 ≤ w → IsU64 n → (length_size_for n ≤ w) ↔ (n < 256 ^ w)
unfolding length_size_for
length_size_for_iff w n h u = (
  (λ e.
      ground (arith, pow_256 w, one-le-pow w 256 (omega arith), lt-pow_of_bit_len (8 * w) 64 n u)),
  (λ e. ground (arith, pow_256 w, bit_len-le (8 * w) 64 n)),
)

bit_len-pos : (f n : ℕ) → n ≢ 0 → 1 ≤ bit_len (suc f) n
unfolding bit_len
bit_len-pos f n h = ground arith

length_size_for-pos : (n : ℕ) → 1 ≤ length_size_for n
unfolding length_size_for
length_size_for-pos n = ground (arith, bit_len-pos 63 n)

pub length_size_for_bounds : (n : ℕ) → IsU64 n → (1 ≤ length_size_for n) × (length_size_for n ≤ 8)
length_size_for_bounds n u =
    (length_size_for-pos n, (length_size_for_iff 8 n (omega arith) u).1 (omega arith))

drop_end : (j : ℕ) (bs : Bytes) → length bs ≤ j → drop j bs ≡ []
drop_end zero [] h = refl
drop_end zero (b ∷ bs) h = absurd (omega arith)
drop_end (suc j) [] h = refl
drop_end (suc j) (b ∷ bs) h = drop_end j bs (omega arith)

-- The field's bytes are the last ones of the eight.
pub drop-put_be : (j w n : ℕ) → drop j (put_be (j + w) n) ≡ put_be w n
unfolding put_be
drop-put_be j zero n = drop_end j (put_be (j + 0) n) (omega (arith, length-put_be (j + 0) n))
drop-put_be j (suc w) n =
    let next : j + suc w ≡ suc (j + w) = omega arith in
    rw next (
      drop-append_le (put_be (j + w) (n / 256)) (n % 256 ∷ [])
        (omega (arith, length-put_be (j + w) (n / 256)))
      ∙ ap (λ (l : Bytes). l ++ (n % 256 ∷ [])) (drop-put_be j w (n / 256)))

pub get_be-zeros : (j : ℕ) (bs : Bytes) → get_be (replicate j 0 ++ bs) ≡ get_be bs
unfolding get_be
get_be-zeros zero bs = refl
get_be-zeros (suc j) bs = get_be-zeros j bs
