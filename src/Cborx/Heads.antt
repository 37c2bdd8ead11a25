-- ===== src/Cborx/Heads.antt =====
-- Heads and byte strings of cborx.go read back what was appended.
use amber_store.Prelude.{
  ℕ, ◌+◌, ◌*◌, ◌/◌, ◌%◌, ◌^◌, ◌≤◌, ◌<◌, ◌≡◌, ◌≢◌, refl, ap, arith, [], ◌∷◌, ◌++◌, length, Bytes,
  IsU64, put_be, get_be, bit_and, bit_or, bit_and_31, or_five, ok, >>=-eq-ok, append_assoc,
  length-append, length-take, length-drop, length-put_be, take-append, drop-append_exact,
  get_be-put_be,
}
use amber_store.Cborx.{append_head, append_bstr, read_arg, read_head, read_bstr}

read_arg-put_be :
    (w major n : ℕ) (rest : Bytes)
    → n < 256 ^ w
    → read_arg w major (put_be w n ++ rest) ≡ ok (major, n, rest)
unfolding read_arg
read_arg-put_be w major n rest h = ground (
  arith,
  length-append (put_be w n) rest,
  length-put_be w n,
  take-append (put_be w n) rest (length-put_be w n),
  drop-append_exact (put_be w n) rest (length-put_be w n),
  get_be-put_be w n h,
)

-- The first byte of a head, read.
first_byte :
    (major lo : ℕ)
    → major < 8
    → lo < 32
    → ((major * 32 + lo) / 32 ≡ major) × (bit_and (major * 32 + lo) 0x1f ≡ lo)
first_byte major lo hm hl = omega (arith, bit_and_31 (major * 32 + lo) (omega arith))

head_byte : (major lo : ℕ) → major < 8 → lo < 32 → bit_or (major * 32 % 256) lo ≡ major * 32 + lo
head_byte = or_five

-- A head of a major type below 8 and an argument below 2^64, written by `appendHead`, is read back
-- by `readHead` as the two, and what follows it is left.
pub read_head-append_head :
    (major n : ℕ) (rest : Bytes)
    → major < 8
    → IsU64 n
    → read_head (append_head [] major n ++ rest) ≡ ok (major, n, rest)
unfolding read_head append_head
read_head-append_head major n rest hm u = ground (
  arith,
  head_byte major n hm,
  head_byte major 24 hm,
  head_byte major 25 hm,
  head_byte major 26 hm,
  head_byte major 27 hm,
  first_byte major n hm,
  first_byte major 24 hm,
  first_byte major 25 hm,
  first_byte major 26 hm,
  first_byte major 27 hm,
  read_arg-put_be 1 major n rest,
  read_arg-put_be 2 major n rest,
  read_arg-put_be 4 major n rest,
  read_arg-put_be 8 major n rest,
)

pub append_head-eq : (b : Bytes) (major n : ℕ) → append_head b major n ≡ b ++ append_head [] major n
unfolding append_head
append_head-eq b major n = ground arith

pub append_bstr-eq : (b s : Bytes) → append_bstr b s ≡ b ++ append_bstr [] s
unfolding append_bstr
append_bstr-eq b s = rw append_head-eq (append_assoc b (append_head [] 2 (length s)) s)

-- A byte string of less than 2^64 bytes comes back, and what follows it is left.
pub read_bstr-append_bstr :
    (s rest : Bytes) → IsU64 (length s) → read_bstr (append_bstr [] s ++ rest) ≡ ok (s, rest)
unfolding read_bstr append_bstr
read_bstr-append_bstr s rest u =
    rw
      (
        append_assoc (append_head [] 2 (length s)) s rest,
        read_head-append_head 2 (length s) (s ++ rest) (omega arith) u,
      )
      (ground (arith, length-append s rest, take-append s rest refl, drop-append_exact s rest refl))

pub append_bstr-injective :
    (a b : Bytes)
    → IsU64 (length a)
    → IsU64 (length b)
    → append_bstr [] a ≡ append_bstr [] b
    → a ≡ b
append_bstr-injective a b ua ub e =
    let p = read_bstr-append_bstr a [] ua in
    let q = read_bstr-append_bstr b [] ub in cc (p, q, ap (λ (l : Bytes). read_bstr (l ++ [])) e)

append_head_nonempty : (major n : ℕ) → 1 ≤ length (append_head [] major n)
unfolding append_head
append_head_nonempty major n = ground arith

pub length-append_bstr : (s : Bytes) → length s < length (append_bstr [] s)
unfolding append_bstr
length-append_bstr s =
    omega (arith, length-append (append_head [] 2 (length s)) s, append_head_nonempty 2 (length s))

-- An argument below 24 in the one-byte form behind the head is read, for a major type below 8,
-- although `append_head` writes such an argument differently, into the head itself.
pub read_head_lenient :
    (major n : ℕ) (rest : Bytes)
    → major < 8
    → n < 24
    → (read_head ((major * 32 + 24) ∷ n ∷ rest) ≡ ok (major, n, rest))
      × (append_head [] major n ≢ (major * 32 + 24) ∷ n ∷ [])
unfolding read_head append_head get_be
read_head_lenient major n rest hm hn = ground (arith, first_byte major 24 hm)

-- What a head read leaves is shorter than the input.
read_head_takes :
    (b : Bytes) (major n : ℕ) (rest : Bytes)
    → read_head b ≡ ok (major, n, rest)
    → length rest < length b
unfolding read_head
read_head_takes [] major n rest e = cc
read_head_takes (b0 ∷ b) major n rest e =
    ground (arith, length-drop 1 b, length-drop 2 b, length-drop 4 b, length-drop 8 b)

-- A byte string that `readBStr` returns and what it leaves are together shorter than the input, so a
-- claimed length never makes it allocate more than it was given.
pub read_bstr_takes :
    (b s rest : Bytes) → read_bstr b ≡ ok (s, rest) → length s + length rest < length b
unfolding read_bstr
read_bstr_takes b s rest e =
    let ((major, n, r), head, more) = >>=-eq-ok (read_head b) _ e in
    ground (arith, read_head_takes b major n r head, length-take n r, length-drop n r)
