-- ===== src/Key/Examples.antt =====
-- Keys at concrete inputs.
use amber_store.Prelude.{
  ◌-◌, ◌^◌, ◌<◌, ◌≤◌, ◌≡◌, refl, ◌↔◌, arith, [], ◌∷◌, take, replicate, Bytes, put_be, ok, err,
}
use amber_store.Key.{
  Key, blob, is_valid, type_of, length_size, payload_length, hash, bit_len, length_size_for,
  validate, parse, new_from_hash, bad_key_length, reserved_bit_set, reserved_type,
  non_canonical_length,
}
use amber_store.Key.Length.{length_size_for_iff}
use amber_store.Key.Canonical.{parse-new_from_hash, new_from_hash-parse}

abbrev pub digest : Bytes
digest = replicate 32 7

-- A blob of 300 bytes.
abbrev pub sample_key : Key
sample_key = 0x01 ∷ 1 ∷ 44 ∷ replicate 29 7

sample_built : new_from_hash blob 300 digest ≡ ok sample_key
unfolding new_from_hash is_valid length_size_for bit_len put_be
sample_built = refl

pub sample_parsed : parse sample_key ≡ ok sample_key
unfolding parse validate is_valid type_of
sample_parsed = refl

parse_errors :
    (parse (1 ∷ []) ≡ err bad_key_length)
    × (parse (0x09 ∷ replicate 31 7) ≡ err reserved_bit_set)
    × (parse (0x51 ∷ replicate 31 7) ≡ err reserved_type)
    × (parse (0x01 ∷ 0 ∷ replicate 30 7) ≡ err non_canonical_length)
unfolding parse validate is_valid type_of length_size
parse_errors = (refl, refl, refl, refl)

length_size_for_iff_example : (length_size_for 65536 ≤ 2) ↔ (65536 < 256 ^ 2)
length_size_for_iff_example = length_size_for_iff 2 65536 (omega arith) (omega arith)

parse-new_from_hash_example :
    (parse sample_key ≡ ok sample_key)
    × (type_of sample_key ≡ blob)
    × (payload_length sample_key ≡ 300)
    × (hash sample_key ≡ take (31 - length_size_for 300) digest)
parse-new_from_hash_example =
    parse-new_from_hash blob 300 digest sample_key (omega arith) sample_built (refl, omega arith)

new_from_hash-parse_example :
    (sample_key ≡ sample_key)
    × (new_from_hash (type_of sample_key) (payload_length sample_key) digest ≡ ok sample_key)
unfolding length_size hash
new_from_hash-parse_example =
    new_from_hash-parse sample_key digest sample_key (omega arith) sample_parsed refl
