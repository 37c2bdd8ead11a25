-- ===== src/Amberpack/Examples.antt =====
-- Records and wire packs at concrete inputs, with a compressor that knows runs of zeros.
use amber_store.Prelude.{
  ℕ, ◌≤◌, ◌≡◌, refl, arith, [], ◌∷◌, ◌++◌, Bool, true, false, Option, none, some, ok, err, length,
  replicate, if◌then◌else◌, ◌==◌, Bytes, put_be, get_be, drop,
}
use amber_store.Key.{parse as key_parse, validate, is_valid, type_of}
use amber_store.Key.Examples.{sample_key, sample_parsed}
use amber_store.Amberpack.Crc.{update, checksum}
use amber_store.Amberpack.Record.{
  Zstd, Record, max_payload, assemble, header_fields, parse_record, encode_record, payload_fits,
  truncated_header, decode_payload,
}
use amber_store.Amberpack.Record.RoundTrip.{
  IsParsed, ReadsBack, parse_record-IsParsed, parse_record-encode_record,
}
use amber_store.Amberpack.Pack.{
  Object, Writer, new_writer, close, ensure_header, add, read_all, pack_magic, tag_end,
}
use amber_store.Amberpack.Pack.Written.{add_all}
use amber_store.Amberpack.Pack.RoundTrip.{read_all-close}
use amber_store.Amberpack.Pack.Truncation.{EndsEarly, read_all_truncated}
use amber_store.Amberpack.Pack.Streams.{IsStream, read_all-IsStream}

all_zero : Bytes → Bool
all_zero [] = true
all_zero (b ∷ l) = if b == 0 then all_zero l else false

pub zeros_encode : Bytes → Bytes
unfolding all_zero
zeros_encode d = if all_zero d then 0 ∷ [] else 1 ∷ d

pub zeros_decode : Bytes → ℕ → Option Bytes
zeros_decode [] n = none
zeros_decode (t ∷ d) n = if t == 0 then some (replicate n 0) else some d

all_zero_lem : (d : Bytes) → all_zero d ≡ true → replicate (length d) 0 ≡ d
unfolding all_zero
all_zero_lem [] h = refl
all_zero_lem (b ∷ l) h =
    let rest : replicate (length l) 0 ≡ l = all_zero_lem l (ground arith) in
    let zero_byte : b ≡ 0 = ground arith in cc

pub zeros_decode-encode :
    (d : Bytes) → length d ≤ max_payload → zeros_decode (zeros_encode d) (length d) ≡ some d
unfolding zeros_encode zeros_decode
zeros_decode-encode d small = ground (arith, all_zero_lem d)

abbrev pub zeros : Zstd
zeros = record {
  encode_all = zeros_encode;
  decode_all = zeros_decode;
  decode-encode = zeros_decode-encode;
}

abbrev pub payload : Bytes
payload = 0 ∷ 0 ∷ 0 ∷ 0 ∷ []

abbrev pub object : Object
object = record { key = sample_key; bytes = payload }

abbrev pub stored : Bytes
stored = assemble sample_key 1 4 (0 ∷ [])

pub encoded : encode_record zeros sample_key payload ≡ ok stored
unfolding encode_record zeros_encode all_zero payload_fits
encoded = refl

abbrev pub sample_record : Record
sample_record = record { key = sample_key; flags = 1; ulen = 4; slen = 1 }

short_record : parse_record (1 ∷ sample_key) ≡ err truncated_header
unfolding parse_record
short_record = refl

parse_record-encode_record_example :
    (r : Record) × ReadsBack zeros sample_key payload stored (9 ∷ []) r
parse_record-encode_record_example =
    parse_record-encode_record zeros sample_key payload stored (9 ∷ []) sample_parsed encoded

pub sample_record_parsed : parse_record stored ≡ ok sample_record
unfolding parse_record assemble header_fields checksum update key_parse validate is_valid type_of
    put_be get_be
sample_record_parsed = refl

pub sample_decoded : decode_payload zeros 1 4 (drop 46 stored) ≡ ok payload
unfolding decode_payload zeros_decode assemble header_fields put_be
sample_decoded = refl

parse_record-IsParsed_example : IsParsed stored sample_record
parse_record-IsParsed_example = parse_record-IsParsed stored sample_record sample_record_parsed

abbrev written : Writer
written = record { out = pack_magic ++ stored; wrote_header = true }

added : add_all zeros new_writer (object ∷ []) ≡ ok written
unfolding add_all add ensure_header encode_record zeros_encode all_zero payload_fits
added = refl

read_all-close_example : read_all zeros (close written).out ≡ ok object ∷ []
read_all-close_example = read_all-close zeros (object ∷ []) written (sample_parsed, tt) added

closed_bytes : (close written).out ≡ (pack_magic ++ stored) ++ (tag_end ∷ [])
unfolding close ensure_header
closed_bytes = refl

-- The end marker is missing.
read_all_truncated_example : EndsEarly (object ∷ []) (read_all zeros (pack_magic ++ stored))
read_all_truncated_example =
    read_all_truncated zeros (object ∷ []) written (pack_magic ++ stored) [] tag_end
      (sample_parsed, tt) added closed_bytes

read_all-IsStream_example : IsStream (read_all zeros (65 ∷ 66 ∷ []))
read_all-IsStream_example = read_all-IsStream zeros (65 ∷ 66 ∷ [])
