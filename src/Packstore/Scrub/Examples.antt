-- ===== src/Packstore/Scrub/Examples.antt =====
-- The scrub of a segment with one record.
use amber_store.Prelude.{
  ◌+◌, ◌≡◌, refl, arith, List, [], ◌∷◌, ◌++◌, drop, slice, length, ok, All, Bytes, bytes_eq,
  bytes_less, put_be, get_be,
}
use amber_store.Key.{
  Key, type_of, length_size, payload_length, validate, is_valid, length_size_for, bit_len,
  new_from_hash, parse as key_parse,
}
use amber_store.Key.Examples.{sample_key}
use amber_store.Amberpack.Crc.{checksum, update}
use amber_store.Amberpack.Examples.{zeros}
use amber_store.Amberpack.Record.{assemble, header_fields, parse_record, decode_payload}
use amber_store.Packstore.{magic_header}
use amber_store.Packstore.Examples.{passing, small_filter}
use amber_store.Packstore.Index.{
  IndexEntry, build_index_section, entry_less, sort_entries, insert_entry, fanout_bytes, count_last,
  index_rows, entry_bytes, last_byte,
}
use amber_store.Packstore.Filter.{filter_key}
use amber_store.Packstore.Footer.{SealedSegment}
use amber_store.Packstore.Scrub.{
  verify_object, verify_record, verify_from, verify_segment, IsVerified, IsTiling,
  verify_segment-IsVerified, verify_from-enough,
}

abbrev dir_key : Key
dir_key = 33 ∷ drop 1 sample_key

abbrev digest : Bytes → Bytes
digest d = drop 3 sample_key

abbrev body : Bytes
body = magic_header ++ assemble dir_key 0 1 (9 ∷ [])

abbrev rows : List IndexEntry
rows = record { k = dir_key; off = 8; slen = 1 } ∷ []

abbrev segment : SealedSegment
segment = record {
  id = 1;
  mm = body ++ build_index_section rows;
  fv = record {
    fanout = [];
    entries = [];
    filter = small_filter;
    key_count = 1;
    body_len = 55;
    index_off = 55;
    index_len = 1068;
  };
}

segment_verified : verify_segment digest passing zeros segment ≡ ok tt
unfolding verify_segment verify_from verify_record verify_object parse_record decode_payload
    assemble header_fields checksum update key_parse validate is_valid type_of length_size
    payload_length new_from_hash length_size_for bit_len put_be get_be bytes_eq bytes_less
    build_index_section sort_entries insert_entry entry_less fanout_bytes count_last index_rows
    entry_bytes last_byte filter_key
segment_verified = refl

verify_segment-IsVerified_example :
    (entries : List IndexEntry) × All (IsVerified digest passing zeros segment) entries
    × IsTiling (length magic_header) entries 55
    × (length entries ≡ 1)
    × (build_index_section entries ≡ slice segment.mm 55 (55 + 1068))
verify_segment-IsVerified_example =
    verify_segment-IsVerified digest passing zeros segment segment_verified

verify_from-enough_example :
    verify_from digest passing zeros segment (47 + 9) 8 []
    ≡ verify_from digest passing zeros segment 47 8 []
verify_from-enough_example = verify_from-enough digest passing zeros segment 47 9 8 [] (omega arith)
