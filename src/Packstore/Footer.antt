-- ===== src/Packstore/Footer.antt =====
-- packstore/footer.go, the footer of a sealed segment: seal marker, index section, filter section and
-- trailer, and the segment that is read through it.
pub mod Trailer
pub mod RoundTrip
use amber_store.Prelude.{
  ℕ, ◌+◌, ◌-◌, ◌*◌, ◌^◌, Bool, not, ◌||◌, Option, none, some, List, [], ◌∷◌, ◌++◌, ltb, leb, ◌==◌,
  length, if◌then◌else◌, get_or, drop, slice, Bytes, put_be, get_be, bytes_eq, Result, ok, err,
  ◌>>=◌, ◌>>◌, fail_if, wrap,
}
use amber_store.Key.{Key}
use amber_store.Amberpack.Crc.{checksum}
use amber_store.Amberpack.Record.{Zstd, RecordError, rec_header_size, zero4, decode_payload}
use amber_store.Packstore.{tag_seal, magic_header, magic_trailer}
use amber_store.Packstore.Index.{
  IndexEntry, IndexError, fanout_size, index_entry_size, build_index_section, parse_index_section,
  search_index, search_index_pos,
}
use amber_store.Packstore.Filter.{
  Filter, FilterError, FuseLibrary, filter_header_size, filter_key, build_filter_section,
  parse_filter_section,
}

abbrev pub trailer_size : ℕ
trailer_size = 64

pub data FooterError : Type 0 where
  empty_segment building_filter : FooterError
  file_too_short bad_header_magic bad_trailer_magic nonzero_reserved bad_offsets : FooterError
  footer_crc_mismatch missing_seal : FooterError
  bad_index : IndexError → FooterError
  bad_filter : FilterError → FooterError

-- The trailer up to its checksum.
unfoldable pub trailer_fields : ℕ → ℕ → ℕ → ℕ → Bytes
trailer_fields body_len index_len filter_len key_count =
    put_be 8 (body_len + 1)
    ++ (put_be 8 index_len
        ++ (put_be 8 (body_len + 1 + index_len)
            ++ (put_be 8 filter_len ++ (put_be 8 key_count ++ put_be 8 body_len))))

-- The checksum covers everything before it; the reserved field and the magic follow.
unfoldable pub seal_with : Bytes → Bytes
seal_with head = head ++ (put_be 4 (checksum head) ++ (zero4 ++ magic_trailer))

unfoldable pub footer_of : ℕ → List IndexEntry → Option Bytes → Result FooterError Bytes
unfolding trailer_fields seal_with
footer_of body_len entries none = err building_filter
footer_of body_len entries (some filt) =
    let idx = build_index_section entries in
    ok (
      seal_with (
        tag_seal
        ∷ (idx ++ (filt ++ trailer_fields body_len (length idx) (length filt) (length entries)))))

unfoldable pub build_footer : FuseLibrary → ℕ → List IndexEntry → Result FooterError Bytes
unfolding footer_of
build_footer x body_len entries =
    if length entries == 0
    then err empty_segment
    else footer_of body_len entries (build_filter_section x entries)

pub record FooterView : Type 0 where
  pub fanout : List ℕ
  pub entries : Bytes
  pub filter : Filter
  pub key_count : ℕ
  pub body_len : ℕ
  pub index_off : ℕ
  pub index_len : ℕ

-- The sums are of uint64; they do not wrap where the tests before them passed.
unfoldable pub parse_footer : Bytes → Result FooterError FooterView
parse_footer mm =
    let file_len = length mm in
    let tr = drop (file_len - trailer_size) mm in
    let index_off = get_be (slice tr 0 8) in
    let index_len = get_be (slice tr 8 16) in
    let filter_off = get_be (slice tr 16 24) in
    let filter_len = get_be (slice tr 24 32) in
    let key_count = get_be (slice tr 32 40) in
    let body_len = get_be (slice tr 40 48) in
    do
      fail_if
          (ltb file_len (
            length magic_header
            + 1
            + fanout_size
            + index_entry_size
            + filter_header_size
            + trailer_size))
          file_too_short
      fail_if (not (bytes_eq (slice mm 0 (length magic_header)) magic_header)) bad_header_magic
      fail_if (not (bytes_eq (slice tr 56 64) magic_trailer)) bad_trailer_magic
      fail_if (not (get_be (slice tr 52 56) == 0)) nonzero_reserved
      fail_if
          (ltb body_len (length magic_header)
            || leb file_len body_len
            || ltb (2 ^ 32 - 1) key_count
            || not (index_off == body_len + 1)
            || not (index_len == fanout_size + key_count * index_entry_size)
            || not (filter_off == index_off + index_len)
            || ltb (file_len - trailer_size) filter_off
            || not (filter_len == file_len - trailer_size - filter_off))
          bad_offsets
      fail_if (not (checksum (slice mm body_len (file_len - 16)) == get_be (slice tr 48 52)))
          footer_crc_mismatch
      fail_if (not (get_or mm body_len 0 == tag_seal)) missing_seal
      (fanout, entries) ←
          wrap bad_index
            (parse_index_section (slice mm index_off (index_off + index_len)) key_count)
      filter ←
          wrap bad_filter (parse_filter_section (slice mm filter_off (filter_off + filter_len)))
      ok (record {
        fanout = fanout;
        entries = entries;
        filter = filter;
        key_count = key_count;
        body_len = body_len;
        index_off = index_off;
        index_len = index_len;
      })

unfoldable pub lookup : FooterView → Key → Option (ℕ × ℕ)
lookup fv k = search_index fv.fanout fv.entries k

unfoldable pub lookup_pos : FooterView → Key → Option ℕ
lookup_pos fv k = search_index_pos fv.fanout fv.entries k

-- A sealed segment, its file mapped into memory.
pub record SealedSegment : Type 0 where
  pub id : ℕ
  pub mm : Bytes
  pub fv : FooterView

-- openSealed, of a file that could be read and mapped.
unfoldable pub open_sealed : ℕ → Bytes → Result FooterError SealedSegment
open_sealed id mm = do
  fail_if
      (ltb (length mm) (
        length magic_header
        + 1
        + fanout_size
        + index_entry_size
        + filter_header_size
        + trailer_size))
      file_too_short
  fv ← parse_footer mm
  ok (record { id = id; mm = mm; fv = fv })

pub data ReadError : Type 0 where
  entry_out_of_bounds : ReadError
  bad_payload : RecordError → ReadError

-- Where the record of an index row lies in the mapped file, if it is within the body.
unfoldable pub out_of_bounds : SealedSegment → ℕ → ℕ → Bool
out_of_bounds g off slen =
    ltb off (length magic_header)
    || ltb g.fv.body_len off
    || ltb (g.fv.body_len - off) (rec_header_size + slen)

module _ (x : FuseLibrary) (g : SealedSegment) where
  -- The filter first, then the index.
  unfoldable pub probe : Key → Option (ℕ × ℕ)
  unfolding lookup
  probe k = if not (x.contains g.fv.filter (filter_key k)) then none else lookup g.fv k

  unfoldable pub has : Key → Bool
  unfolding probe
  has k = elim (probe k) [ some _ ↦ Bool.true | none ↦ Bool.false ]

  unfoldable pub stored_size : Key → Option ℕ
  unfolding probe
  stored_size k = elim (probe k) [ some (off, slen) ↦ some slen | none ↦ none ]

  unfoldable pub locate : Key → Option ℕ
  unfolding probe
  locate k = elim (probe k) [ some (off, slen) ↦ some off | none ↦ none ]

  unfoldable pub record_at : Option (ℕ × ℕ) → Result ReadError (Option Bytes)
  unfolding out_of_bounds
  record_at none = ok none
  record_at (some (off, slen)) = do
    fail_if (out_of_bounds g off slen) entry_out_of_bounds
    ok (some (slice g.mm off (off + rec_header_size + slen)))

  unfoldable pub get_record : Key → Result ReadError (Option Bytes)
  unfolding probe record_at
  get_record k = record_at (probe k)

  module _ (z : Zstd) where
    unfoldable pub payload_at : Option (ℕ × ℕ) → Result ReadError (Option Bytes)
    unfolding out_of_bounds
    payload_at none = ok none
    payload_at (some (off, slen)) =
        let h = slice g.mm off (off + rec_header_size) in
        do
          fail_if (out_of_bounds g off slen) entry_out_of_bounds
          d ← wrap bad_payload (
              decode_payload z (get_or h 33 0) (get_be (slice h 34 38))
                (slice g.mm (off + rec_header_size) (off + rec_header_size + slen)))
          ok (some d)

    unfoldable pub get : Key → Result ReadError (Option Bytes)
    unfolding probe payload_at
    get k = payload_at (probe k)
