-- ===== src/Amberpack/Record.antt =====
-- amberpack/record.go: one CAS object as a self-describing record. zstd is a library of others: its
-- encoder and decoder are the fields of a `Zstd`, with what the record codec relies on.
pub mod Shape
pub mod RoundTrip
use amber_store.Prelude.{
  ℕ, ◌+◌, ◌*◌, ◌%◌, ◌^◌, ◌≤◌, ◌≡◌, Bool, not, ◌&&◌, Option, none, some, List, [], ◌∷◌, ◌++◌, ltb,
  leb, ◌==◌, length, if◌then◌else◌, get_or, take, slice, replicate, Bytes, get_be, put_be, bit_and,
  Result, ok, err, ◌>>=◌, ◌>>◌, fail_if, wrap,
}
use amber_store.Key.{Key, KeyError, parse as key_parse}
use amber_store.Amberpack.Crc.{update, checksum}

abbrev pub rec_header_size : ℕ
rec_header_size = 46

abbrev pub tag_chunk : ℕ
tag_chunk = 0x01

abbrev pub flag_zstd : ℕ
flag_zstd = 0x01

-- 256 << 20
abbrev pub max_payload : ℕ
max_payload = 256 * 1048576

abbrev pub zero4 : Bytes
zero4 = 0 ∷ 0 ∷ 0 ∷ 0 ∷ []

-- EncodeAll, and DecodeAll with a destination of the given capacity (which it does not grow);
-- `none` is an error. A compressed payload decodes into as many bytes as it had.
pub record Zstd : Type 0 where
  pub encode_all : Bytes → Bytes
  pub decode_all : Bytes → ℕ → Option Bytes
  pub decode-encode :
      (d : Bytes) → length d ≤ max_payload → decode_all (encode_all d) (length d) ≡ some d

pub data RecordError : Type 0 where
  too_large truncated_header unexpected_tag unknown_flags truncated_payload : RecordError
  raw_length_mismatch ulen_exceeds_limit compressed_not_smaller crc_mismatch : RecordError
  bad_record_key : KeyError → RecordError
  zstd_failed wrong_decoded_length : RecordError

pub record Record : Type 0 where
  pub key : Key
  pub flags : ℕ
  pub ulen : ℕ
  pub slen : ℕ

-- The header up to the CRC: tag, key, flags and the two lengths.
unfoldable pub header_fields : Key → ℕ → ℕ → ℕ → Bytes
header_fields k flags ulen slen = tag_chunk ∷ (k ++ (flags ∷ (put_be 4 ulen ++ put_be 4 slen)))

unfoldable pub payload_fits : ℕ → Bool
payload_fits n = leb n max_payload

-- The record of a chosen payload, its CRC taken while the CRC field is zero.
unfoldable pub assemble : Key → ℕ → ℕ → Bytes → Bytes
unfolding header_fields
assemble k flags ulen payload =
    let fields = header_fields k flags ulen (length payload) in
    fields ++ (put_be 4 (checksum (fields ++ (zero4 ++ payload))) ++ payload)

unfoldable pub parse_record : Bytes → Result RecordError Record
parse_record b =
    let flags = get_or b 33 0 in
    let ulen = get_be (slice b 34 38) in
    let slen = get_be (slice b 38 42) in
    let c =
      update (update (update 0 (take 42 b)) zero4)
        (slice b rec_header_size (rec_header_size + slen)) in
    do
      fail_if (ltb (length b) rec_header_size) truncated_header
      fail_if (not (get_or b 0 0 == tag_chunk)) unexpected_tag
      fail_if (not (bit_and flags 0xfe == 0)) unknown_flags
      fail_if (ltb (length b) (rec_header_size + slen)) truncated_payload
      fail_if (bit_and flags flag_zstd == 0 && not (ulen == slen)) raw_length_mismatch
      fail_if (ltb max_payload ulen) ulen_exceeds_limit
      fail_if (not (bit_and flags flag_zstd == 0) && leb ulen slen) compressed_not_smaller
      fail_if (not (c == get_be (slice b 42 46))) crc_mismatch
      k ← wrap bad_record_key (key_parse (slice b 1 33))
      ok (record { key = k; flags = flags; ulen = ulen; slen = slen })

module _ (z : Zstd) where
  unfoldable pub encode_record : Key → Bytes → Result RecordError Bytes
  unfolding payload_fits assemble
  encode_record k d =
      let comp = z.encode_all d in
      if not (payload_fits (length d))
      then err too_large
      else if ltb (length comp) (length d)
      then ok (assemble k flag_zstd (length d) comp)
      else ok (assemble k 0 (length d) d)

  unfoldable pub decoded : Option Bytes → ℕ → Result RecordError Bytes
  decoded none ulen = err zstd_failed
  decoded (some out) ulen =
      if not (length out % 2 ^ 32 == ulen) then err wrong_decoded_length else ok out

  unfoldable pub decode_payload : ℕ → ℕ → Bytes → Result RecordError Bytes
  unfolding decoded
  decode_payload flags ulen stored =
      if bit_and flags flag_zstd == 0 then ok stored else decoded (z.decode_all stored ulen) ulen
