-- ===== src/Packstore/Examples.antt =====
-- Segments at concrete inputs, with a filter that passes every key.
use amber_store.Prelude.{
  ℕ, ◌+◌, ◌^◌, ◌≡◌, refl, arith, List, [], ◌∷◌, ◌++◌, true, false, ltb, ltb→lt, none, some, ok,
  length, take, drop, Bytes, All, put_be, bytes_eq, bytes_less, subst, inr,
}
use amber_store.Key.{Key}
use amber_store.Key.Fields.{IsArray32}
use amber_store.Key.Examples.{sample_key, sample_parsed}
use amber_store.Amberpack.Examples.{zeros, object, stored, encoded}
use amber_store.Amberpack.Record.{assemble, header_fields}
use amber_store.Amberpack.Pack.Written.{concat}
use amber_store.Packstore.{tag_seal, magic_header}
use amber_store.Packstore.Index.{
  IndexEntry, entry_less, sort_entries, build_index_section, fanout_bytes, count_last, index_rows,
  entry_bytes, last_byte, parse_index_section, search_index,
}
use amber_store.Packstore.Index.Sorted.{IsRow, IsDistinct, find, has_key}
use amber_store.Packstore.Index.Lookup.{search_index-build_index_section}
use amber_store.Packstore.Filter.{
  Filter, FuseLibrary, IsFuse, filter_bytes, fingerprint_bytes, build_filter_section,
  filter_section, parse_filter_section,
}
use amber_store.Packstore.Filter.RoundTrip.{parse_filter_section-filter_bytes}
use amber_store.Packstore.Footer.{
  SealedSegment, build_footer, footer_of, seal_with, trailer_fields, open_sealed, probe,
}
use amber_store.Packstore.Footer.RoundTrip.{open_sealed-build_footer}
use amber_store.Packstore.Recover.{scan_active, loc_of}
use amber_store.Packstore.Recover.Sound.{IsScan, scan_active-IsScan}
use amber_store.Packstore.Recover.Torn.{AllReadable, stores}
use amber_store.Packstore.Recover.Recovered.{scan_active-recovers}

abbrev other_key : Key
other_key = 0x01 ∷ 1 ∷ 44 ∷ 9 ∷ drop 4 sample_key

abbrev two_rows : List IndexEntry
two_rows =
    record { k = sample_key; off = 8; slen = 1 }
    ∷ record { k = other_key; off = 55; slen = 300 }
    ∷ []

two_rows-IsRow : All IsRow two_rows
two_rows-IsRow = omega arith

two_rows-IsDistinct : IsDistinct two_rows
unfolding has_key bytes_eq
two_rows-IsDistinct = (refl, (refl, tt))

search_index-build_index_section_example :
    (fanout : List ℕ) × (rows : Bytes) × (parse_index_section (build_index_section two_rows) 2
      ≡ ok (fanout, rows))
    × ((k : Key) → IsArray32 k → search_index fanout rows k ≡ find two_rows k)
search_index-build_index_section_example =
    search_index-build_index_section two_rows two_rows-IsRow two_rows-IsDistinct (omega arith)

abbrev pub small_filter : Filter
small_filter = record {
  seed = 77;
  segment_length = 1;
  segment_length_mask = 0;
  segment_count = 1;
  segment_count_length = 1;
  fingerprints = 5 ∷ 6 ∷ 7 ∷ [];
}

pub small_filter-IsFuse : IsFuse small_filter
small_filter-IsFuse = record {
  seed_width = omega arith;
  some_segments = omega arith;
  some_length = omega arith;
  power_of_two = refl;
  mask = refl;
  total = refl;
  cells = refl;
  length_width = omega arith;
  count_width = omega arith;
  fingerprint_width = omega arith;
}

parse_filter_section-filter_bytes_example :
    parse_filter_section (filter_bytes small_filter) ≡ ok small_filter
parse_filter_section-filter_bytes_example =
    parse_filter_section-filter_bytes small_filter small_filter-IsFuse

pub passing-IsFuse : (f : Filter) → some small_filter ≡ some f → IsFuse f
passing-IsFuse f h = let same : small_filter ≡ f = cc h in subst IsFuse same small_filter-IsFuse

abbrev pub passing : FuseLibrary
passing = record {
  new_binary_fuse = λ keys. some small_filter;
  contains = λ f x. true;
  new-IsFuse = λ keys f h. passing-IsFuse f h;
  contains-new = λ keys f x h m. refl;
}

abbrev body : Bytes
body = magic_header ++ stored

abbrev index_section : Bytes
index_section = build_index_section two_rows

abbrev footer : Bytes
footer = seal_with (
    tag_seal
    ∷ (index_section
        ++ (filter_bytes small_filter
            ++ trailer_fields (length body) (length index_section)
                (length (filter_bytes small_filter)) 2)))

footer_built : build_footer passing (length body) two_rows ≡ ok footer
unfolding build_footer footer_of build_filter_section filter_section
footer_built = refl

small_file : ltb (length body + length footer) (2 ^ 64) ≡ true
unfolding assemble header_fields seal_with trailer_fields filter_bytes fingerprint_bytes
    build_index_section sort_entries entry_less bytes_less last_byte fanout_bytes count_last
    index_rows entry_bytes put_be
small_file = refl

open_sealed-build_footer_example :
    (g : SealedSegment) × (open_sealed 1 (body ++ footer) ≡ ok g)
    × (g.mm ≡ body ++ footer)
    × (g.fv.body_len ≡ length body)
    × ((k : Key) → IsArray32 k → probe passing g k ≡ find two_rows k)
unfolding assemble header_fields
open_sealed-build_footer_example =
    open_sealed-build_footer passing 1 body footer two_rows refl (omega arith) two_rows-IsRow
      two_rows-IsDistinct (omega arith) (ltb→lt (length body + length footer) (2 ^ 64) small_file)
      footer_built

abbrev torn_file : Bytes
torn_file = magic_header ++ (stored ++ take 10 stored)

scan_active-IsScan_example : IsScan torn_file (scan_active torn_file)
scan_active-IsScan_example = scan_active-IsScan torn_file

-- One complete record, and the first ten bytes of another.
scan_active-recovers_example :
    let b = magic_header ++ (concat (stored ∷ []) ++ take 10 stored) in
    let res = scan_active b in
    (res.size ≡ length (magic_header ++ concat (stored ∷ [])))
    × (res.is_sealed ≡ false)
    × AllReadable zeros b res.index (length magic_header) (object ∷ []) (stored ∷ [])
    × ((k : Key) → stores (object ∷ []) k ≡ false → loc_of res.index k ≡ none)
unfolding stores assemble header_fields put_be
scan_active-recovers_example =
    scan_active-recovers zeros (object ∷ []) (stored ∷ []) (take 10 stored) (sample_parsed, tt)
      (refl, tt) (encoded, tt)
      (inr (object, stored, 7, drop 11 stored, sample_parsed, encoded, refl))
