-- ===== src/Packstore/Compact/Examples.antt =====
-- The compaction of a segment with a live and a dead record.
use amber_store.Prelude.{
  ℕ, ◌+◌, ◌*◌, ◌^◌, ◌≤◌, ◌≡◌, refl, arith, true, false, none, some, [], ◌∷◌, ◌++◌, ltb, ltb→lt,
  length, take, drop, Bytes, bytes_eq, bytes_less, get_be, put_be, ok, err, Bool-cases, inl, inr,
  if◌then◌else◌,
}
use amber_store.Key.{
  Key, type_of, length_size, payload_length, validate, is_valid, length_size_for, bit_len,
  new_from_hash, parse as key_parse,
}
use amber_store.Key.Examples.{sample_key}
use amber_store.Amberpack.Crc.{checksum, update}
use amber_store.Amberpack.Examples.{zeros}
use amber_store.Amberpack.Record.{assemble, header_fields, parse_record, decode_payload}
use amber_store.Packstore.{magic_header}
use amber_store.Packstore.Examples.{passing, small_filter}
use amber_store.Packstore.Filter.{
  filter_bytes, fingerprint_bytes, build_filter_section, filter_section, parse_filter_section,
  filter_key,
}
use amber_store.Packstore.Index.{
  entry_less, sort_entries, insert_entry, build_index_section, fanout_bytes, count_last, index_rows,
  entry_bytes, last_byte, parse_index_section, read_fanout, search_index, row_key, row_value,
}
use amber_store.Packstore.Index.Sorted.{has_key}
use amber_store.Packstore.Footer.{
  SealedSegment, build_footer, footer_of, seal_with, trailer_fields, open_sealed, parse_footer,
  probe, lookup, has,
}
use amber_store.Packstore.Filed.{ReadsActive, sealed-IsFiled, sealed-has, open_sealed_inv}
use amber_store.Packstore.Recover.{loc_of, put_loc}
use amber_store.Packstore.Store.{
  ActiveSegment, Store, entries_of, in_active, read_active, read_loc, write_at, create_active,
  and_then, with_active, seal_if_full, write_record, append_unless, append_to, append_active,
  append_creating, append_locked, any_sealed, seal_active, seal_option, read_object,
}
use amber_store.Packstore.Store.Examples.{all_well}
use amber_store.Packstore.Store.Sealing.{IsActive}
use amber_store.Packstore.Store.Refinement.{holds}
use amber_store.Packstore.Scrub.{verify_object}
use amber_store.Packstore.Lifecycle.{take_grey}
use amber_store.Packstore.Compact.{
  CompactOpts, Copying, EndIo, compact, is_among, is_victim, keep_if, select_victims, copied,
  and_next, check_record, any_survivor, survivor_has, append_checked, copy_entry, copy_entries,
  copy_segments, survivors, sync_copies, remove_victims, or_grey, sweep_victims, after_seal,
}
use amber_store.Packstore.Liveness.{
  entry_at, entries_from, all_entries, add_entry, add_entries, liveness,
}
use amber_store.Packstore.Compact.Wellfiled.{IsWellFiled, AreApart}
use amber_store.Packstore.Compact.Keeps.{compact-IsWellFiled, compact-reads}

abbrev pub live_key : Key
live_key = 33 ∷ drop 1 sample_key

abbrev pub digest : Bytes → Bytes
digest d = drop 3 sample_key

abbrev pub filling : ActiveSegment
filling = record {
  id = 1;
  content = magic_header ++ (assemble live_key 0 1 (9 ∷ []) ++ assemble sample_key 0 1 (7 ∷ []));
  size = 102;
  index =
      (live_key, record { off = 8; flags = 0; ulen = 1; slen = 1 })
      ∷ (sample_key, record { off = 55; flags = 0; ulen = 1; slen = 1 })
      ∷ [];
}

abbrev pub content : Key → Bytes
content k = if bytes_eq live_key k then 9 ∷ [] else 7 ∷ []

abbrev pub footer : Bytes
footer = elim (build_footer passing 102 (entries_of filling.index)) [ ok f ↦ f | err e ↦ [] ]

abbrev pub segment : SealedSegment
segment = elim (open_sealed 1 (take 102 filling.content ++ footer)) [
  | ok g ↦ g
  | err e ↦ record {
    id = 0;
    mm = [];
    fv = record {
      fanout = [];
      entries = [];
      filter = small_filter;
      key_count = 0;
      body_len = 0;
      index_off = 0;
      index_len = 0;
    };
  }
]

abbrev pub before : Store
before = record {
  segment_size = 256 * 1048576;
  sync = true;
  capturing = false;
  grey = none;
  sealed = segment ∷ [];
  active = none;
  next_id = 2;
  is_closed = false;
  has_failed = false;
}

abbrev pub everything : CompactOpts
everything = record { sealed_before = λ id. some true; reaches_ratio = λ dead total. true }

abbrev pub end_well : EndIo
end_well = record { sync_ok = true; files_ok = true }

abbrev run : Copying
run =
    compact digest passing zeros (bytes_eq live_key) everything all_well (λ id e. all_well) end_well
      before

built : build_footer passing 102 (entries_of filling.index) ≡ ok footer
unfolding build_footer footer_of build_filter_section filter_section seal_with trailer_fields
    filter_bytes fingerprint_bytes build_index_section sort_entries insert_entry entry_less
    bytes_less last_byte fanout_bytes count_last index_rows entry_bytes put_be entries_of checksum
    update
built = refl

opened : open_sealed 1 (take 102 filling.content ++ footer) ≡ ok segment
unfolding build_footer footer_of build_filter_section filter_section seal_with trailer_fields
    filter_bytes fingerprint_bytes build_index_section sort_entries insert_entry entry_less
    bytes_less last_byte fanout_bytes count_last index_rows entry_bytes put_be get_be entries_of
    checksum update open_sealed parse_footer parse_index_section parse_filter_section assemble
    header_fields bytes_eq read_fanout
opened = refl

run_done :
    compact digest passing zeros
      (bytes_eq live_key)
      everything
      all_well
      (λ id e. all_well)
      end_well
      before
    ≡ (run.0, ok tt)
unfolding build_footer footer_of build_filter_section filter_section seal_with trailer_fields
    filter_bytes fingerprint_bytes build_index_section sort_entries insert_entry entry_less
    bytes_less last_byte fanout_bytes count_last index_rows entry_bytes put_be get_be entries_of
    checksum update open_sealed parse_footer parse_index_section parse_filter_section assemble
    header_fields bytes_eq read_fanout compact take_grey or_grey seal_active seal_option after_seal
    select_victims sweep_victims is_victim keep_if liveness add_entries add_entry all_entries
    entries_from entry_at copy_segments copy_entries copy_entry survivor_has any_survivor
    check_record append_checked copied and_next is_among survivors sync_copies remove_victims
    in_active has probe lookup search_index filter_key row_key row_value append_locked
    append_creating append_active append_to append_unless write_record create_active and_then
    with_active write_at seal_if_full loc_of put_loc verify_object parse_record decode_payload
    key_parse validate is_valid type_of length_size payload_length new_from_hash length_size_for
    bit_len
run_done = refl

small_file : ltb (102 + length footer) (2 ^ 64) ≡ true
unfolding build_footer footer_of build_filter_section filter_section seal_with trailer_fields
    filter_bytes fingerprint_bytes build_index_section sort_entries insert_entry entry_less
    bytes_less last_byte fanout_bytes count_last index_rows entry_bytes put_be entries_of checksum
    update
small_file = refl

pub filling-IsActive : IsActive zeros filling
unfolding assemble header_fields put_be get_be entries_of has_key bytes_eq decode_payload
filling-IsActive = record {
  header = refl;
  long = omega arith;
  written = omega arith;
  records = (
    record {
      array = omega arith;
      from = omega arith;
      upto = omega arith;
      slen_width = omega arith;
      flags_stored = refl;
      ulen_stored = refl;
      slen_stored = refl;
      decoded = (9 ∷ [], refl);
    },
    (
      record {
        array = omega arith;
        from = omega arith;
        upto = omega arith;
        slen_width = omega arith;
        flags_stored = refl;
        ulen_stored = refl;
        slen_stored = refl;
        decoded = (7 ∷ [], refl);
      },
      tt,
    ),
  );
  distinct = (refl, (refl, tt));
}

pub filling_reads : ReadsActive passing zeros content filling
unfolding read_active read_loc in_active loc_of decode_payload assemble header_fields put_be
    bytes_eq
filling_reads j array = elim (Bool-cases (bytes_eq live_key j)) [
  | inl first ↦ rw first refl
  | inr other ↦ elim (Bool-cases (bytes_eq sample_key j)) [
    | inl second ↦ rw (other, second) refl
    | inr neither ↦ rw (other, neither) refl
  ]
]

pub live_held : holds passing before live_key ≡ true
unfolding any_sealed in_active loc_of bytes_eq
live_held =
    sealed-has passing zeros content filling footer segment filling-IsActive (omega arith)
      (omega arith) (ltb→lt (102 + length footer) (2 ^ 64) small_file) built opened filling_reads
      live_key (omega arith)

first_id : (g : SealedSegment) (n : ℕ) → g.id ≡ 1 → 2 ≤ n → is_among (g ∷ []) n ≡ false
unfolding is_among
first_id g n one le = ground (arith, one, le)

pub before-IsWellFiled : IsWellFiled passing zeros content before
unfolding AreApart is_among
before-IsWellFiled = record {
  segments = (
    sealed-IsFiled passing zeros content filling footer segment filling-IsActive (omega arith)
        (omega arith) (ltb→lt (102 + length footer) (2 ^ 64) small_file) built opened filling_reads,
    tt,
  );
  apart = (refl, tt);
  fresh = λ n le.
      first_id segment n (open_sealed_inv 1 (take 102 filling.content ++ footer) segment opened).0
        le;
  filing = tt;
  bounded = omega arith;
}

compact-reads_example :
    read_object passing zeros run.0 live_key ≡ read_object passing zeros before live_key
unfolding bytes_eq
compact-reads_example =
    compact-reads passing zeros content digest (bytes_eq live_key) everything all_well
      (λ id e. all_well) end_well before run.0 live_key before-IsWellFiled run_done (omega arith)
      (inl refl) live_held

compact-IsWellFiled_example : IsWellFiled passing zeros content run.0
compact-IsWellFiled_example =
    compact-IsWellFiled passing zeros content digest (bytes_eq live_key) everything all_well
      (λ id e. all_well) end_well before run.0 before-IsWellFiled run_done
