-- ===== src/Key/Fields.antt =====
-- A key taken apart: its header's nibbles, its length field and its hash bytes, and when it is valid.
use native.Mathlib.Nat.{le_trans, pow-le-pow_right}
use amber_store.Prelude.{
  ℕ, suc, ◌+◌, ◌-◌, ◌*◌, ◌≤◌, ◌<◌, ◌≡◌, ◌≢◌, refl, ◌⊎◌, arith, [], ◌∷◌, ◌++◌, length, get_or,
  get_be, Bytes, IsByte, IsU64, All, take-append, drop-append_exact, get_be-lt, get_be-ge, bit_and,
  bit_and_7, bit_and_8, ok,
}
use amber_store.Key.{
  Key, is_valid, type_of, length_size, payload_length, hash, length_size_for, validate,
}
use amber_store.Key.Length.{length_size_for_iff, length_size_for_bounds, get_be-zeros}

-- Go's type [32]byte.
abbrev pub IsArray32 : Bytes → Type 0
IsArray32 b = (length b ≡ 32) × All IsByte b

-- Header, length field and rest, as the constructors lay them out.
abbrev pub assemble : ℕ → Bytes → Bytes → Key
assemble t field rest = (t * 16 + (length field - 1)) ∷ (field ++ rest)

module _ (t : ℕ) (field rest : Bytes) (ht : t < 16) (lo : 1 ≤ length field)
    (hi : length field ≤ 8) where
  pub type_of-assemble : type_of (assemble t field rest) ≡ t
  unfolding type_of
  type_of-assemble = omega arith

  pub length_size-assemble : length_size (assemble t field rest) ≡ length field
  unfolding length_size
  length_size-assemble = omega (arith, bit_and_7 (t * 16 + (length field - 1)) (omega arith))

  pub reserved_bit-assemble : bit_and (t * 16 + (length field - 1)) 0x08 ≡ 0
  reserved_bit-assemble = omega (arith, bit_and_8 (t * 16 + (length field - 1)) (omega arith))

  pub payload_length-assemble : payload_length (assemble t field rest) ≡ get_be field
  unfolding payload_length
  payload_length-assemble =
      let one_more : 1 + length field - 1 ≡ length field = omega arith in
      rw (length_size-assemble, one_more, take-append field rest refl)
        (get_be-zeros (8 - length field) field)

  pub hash-assemble : hash (assemble t field rest) ≡ rest
  unfolding hash
  hash-assemble =
      let next : 1 + length field ≡ suc (length field) = omega arith in
      rw (length_size-assemble, next) (drop-append_exact field rest refl)

get_or-append :
    (field rest : Bytes) → 1 ≤ length field → get_or (field ++ rest) 0 0 ≡ get_or field 0 0
get_or-append [] rest h = absurd (omega arith)
get_or-append (x ∷ xs) rest h = refl

get_be-single : (field : Bytes) → length field ≡ 1 → get_be field ≡ get_or field 0 0
unfolding get_be
get_be-single [] h = absurd (omega arith)
get_be-single (x ∷ []) h = omega arith
get_be-single (x ∷ y ∷ xs) h = absurd (omega arith)

-- No byte of the field is wasted: it does not begin with a zero, unless that is all of it.
abbrev pub IsMinimal : Bytes → Type 0
IsMinimal field = (get_or field 0 0 ≢ 0) ⊎ (length field ≡ 1)

pub field-IsU64 : (field : Bytes) → All IsByte field → length field ≤ 8 → IsU64 (get_be field)
field-IsU64 field bytes hi = le_trans (get_be-lt field bytes) (pow-le-pow_right (omega arith) hi)

get_be-zero_head : (xs : Bytes) → get_be (0 ∷ xs) ≡ get_be xs
unfolding get_be
get_be-zero_head xs = refl

pub IsMinimal→width :
    (field : Bytes)
    → All IsByte field
    → 1 ≤ length field
    → length field ≤ 8
    → IsMinimal field
    → length_size_for (get_be field) ≡ length field
IsMinimal→width [] bytes lo hi m = absurd (omega arith)
IsMinimal→width (x ∷ xs) bytes lo hi m = ground (
  arith,
  length_size_for_iff (length xs) (get_be (x ∷ xs)),
  length_size_for_iff (suc (length xs)) (get_be (x ∷ xs)),
  length_size_for_bounds (get_be (x ∷ xs)) (field-IsU64 (x ∷ xs) bytes hi),
  get_be-lt (x ∷ xs) bytes,
  get_be-ge x xs,
  field-IsU64 (x ∷ xs) bytes hi,
)

pub width→IsMinimal :
    (field : Bytes)
    → All IsByte field
    → 1 ≤ length field
    → length field ≤ 8
    → length_size_for (get_be field) ≡ length field
    → IsMinimal field
width→IsMinimal [] bytes lo hi m = absurd (omega arith)
width→IsMinimal (x ∷ xs) bytes lo hi m = ground (
  arith,
  length_size_for_iff (length xs) (get_be (x ∷ xs)),
  get_be-lt xs bytes.1,
  get_be-zero_head xs,
  field-IsU64 (x ∷ xs) bytes hi,
)

module _ (t : ℕ) (field rest : Bytes) (ht : t < 16) (lo : 1 ≤ length field)
    (hi : length field ≤ 8) where
  pub validate-assemble : t ≤ 4 → IsMinimal field → validate (assemble t field rest) ≡ ok tt
  unfolding validate is_valid
  validate-assemble valid minimal = ground (
    arith,
    reserved_bit-assemble t field rest ht lo hi,
    type_of-assemble t field rest ht lo hi,
    length_size-assemble t field rest ht lo hi,
    payload_length-assemble t field rest ht lo hi,
    get_or-append field rest lo,
    get_be-single field,
  )

  pub validate-assemble_inv : validate (assemble t field rest) ≡ ok tt → (t ≤ 4) × IsMinimal field
  unfolding validate is_valid
  validate-assemble_inv e = ground (
    arith,
    reserved_bit-assemble t field rest ht lo hi,
    type_of-assemble t field rest ht lo hi,
    length_size-assemble t field rest ht lo hi,
    payload_length-assemble t field rest ht lo hi,
    get_or-append field rest lo,
    get_be-single field,
  )
