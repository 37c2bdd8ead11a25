-- ===== src/Key.antt =====
-- key/key.go, key/type.go and key/errors.go: the 32-byte lookup key. A `Key` is its list of bytes,
-- and a `Type` its number; `hash_of` stands for BLAKE3-256, which the source takes from a library.
pub mod Length
pub mod Fields
pub mod Canonical
pub mod Examples
use amber_store.Prelude.{
  ℕ, zero, suc, ◌+◌, ◌-◌, ◌*◌, ◌/◌, ◌%◌, Bool, true, not, ◌&&◌, List, ◌∷◌, ◌++◌, leb, ◌==◌, length,
  if◌then◌else◌, get_or, take, drop, slice, replicate, Bytes, get_be, put_be, bit_and, bit_or,
  Result, ok, err, ◌>>◌, fail_if,
}

pub data KeyError : Type 0 where
  bad_key_length reserved_bit_set reserved_type non_canonical_length : KeyError

abbrev pub Key : Type 0
Key = Bytes

abbrev pub size : ℕ
size = 32

abbrev pub blob : ℕ
blob = 0

abbrev pub file_node : ℕ
file_node = 1

abbrev pub dir_leaf : ℕ
dir_leaf = 2

abbrev pub dir_node : ℕ
dir_node = 3

abbrev pub xattr_set : ℕ
xattr_set = 4

-- Type.IsValid
unfoldable pub is_valid : ℕ → Bool
is_valid t = leb t xattr_set

-- Key.Type: `k[0] >> 4`
unfoldable pub type_of : Key → ℕ
type_of k = get_or k 0 0 / 16

-- Key.LengthSize: `int(k[0]&0x07) + 1`
unfoldable pub length_size : Key → ℕ
length_size k = bit_and (get_or k 0 0) 0x07 + 1

-- Key.Length: the length field, copied to the end of eight zero bytes, as a big-endian number.
unfoldable pub payload_length : Key → ℕ
payload_length k = let ls = length_size k in get_be (replicate (8 - ls) 0 ++ slice k 1 (1 + ls))

-- Key.Hash
unfoldable pub hash : Key → Bytes
hash k = drop (1 + length_size k) k

-- bits.Len64: the number of bits of a uint64, by halving it; 64 rounds are enough.
unfoldable pub bit_len : ℕ → ℕ → ℕ
bit_len zero n = 0
bit_len (suc f) n = let more = bit_len f (n / 2) in if n == 0 then 0 else suc more

unfoldable pub length_size_for : ℕ → ℕ
length_size_for n = if n == 0 then 1 else (bit_len 64 n + 7) / 8

-- Key.Validate
unfoldable pub validate : Key → Result KeyError (Unit {0})
validate k = do
  fail_if (not (bit_and (get_or k 0 0) 0x08 == 0)) reserved_bit_set
  fail_if (not (is_valid (type_of k))) reserved_type
  fail_if (get_or k 1 0 == 0 && not (length_size k == 1 && payload_length k == 0))
      non_canonical_length
  ok tt

unfoldable pub parse : Bytes → Result KeyError Key
parse b = do fail_if (not (length b == size)) bad_key_length; validate b; ok b

-- NewFromHash: `byte(t)<<4 | byte(ls-1)`, the last `ls` of the length's eight bytes, and the front
-- of the digest.
unfoldable pub new_from_hash : ℕ → ℕ → Bytes → Result KeyError Key
new_from_hash t len full_hash =
    if not (is_valid t)
    then err reserved_type
    else let ls = length_size_for len in
      ok (
        bit_or (t * 16 % 256) ((ls - 1) % 256)
        ∷ (drop (8 - ls) (put_be 8 len) ++ take (size - 1 - ls) full_hash))

-- New
unfoldable pub new : (Bytes → Bytes) → ℕ → ℕ → Bytes → Result KeyError Key
new hash_of t len serialized = new_from_hash t len (hash_of serialized)
