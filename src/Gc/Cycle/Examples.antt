-- ===== src/Gc/Cycle/Examples.antt =====
-- A cycle on the store of the mark's example while nothing is written, and a reference to its live object.
use amber_store.Prelude.{
  ◌++◌, ◌≡◌, ◌↔◌, refl, arith, true, false, none, some, [], ◌∷◌, bytes_eq, bytes_less, get_be,
  put_be, ok, inl, Option, List, contains,
}
use amber_store.Key.{
  Key, type_of, length_size, payload_length, validate, is_valid, length_size_for, bit_len,
  new_from_hash, parse as key_parse,
}
use amber_store.Amberpack.Crc.{checksum, update}
use amber_store.Amberpack.Examples.{zeros}
use amber_store.Amberpack.Record.{assemble, header_fields, parse_record, decode_payload}
use amber_store.Packstore.Examples.{passing}
use amber_store.Packstore.Filter.{
  filter_bytes, fingerprint_bytes, build_filter_section, filter_section, parse_filter_section,
  filter_key,
}
use amber_store.Packstore.Index.{
  entry_less, sort_entries, insert_entry, build_index_section, fanout_bytes, count_last, index_rows,
  entry_bytes, last_byte, parse_index_section, read_fanout, search_index, row_key, row_value,
}
use amber_store.Packstore.Footer.{
  build_footer, footer_of, seal_with, trailer_fields, open_sealed, parse_footer, probe, lookup, has,
}
use amber_store.Packstore.Recover.{loc_of, put_loc}
use amber_store.Packstore.Store.{
  Store, entries_of, in_active, read_active, read_loc, write_at, create_active, and_then,
  with_active, seal_if_full, write_record, append_unless, append_to, append_active, append_creating,
  append_locked, any_sealed, seal_active, seal_option, read_object,
}
use amber_store.Packstore.Store.Examples.{all_well}
use amber_store.Packstore.Scrub.{verify_object}
use amber_store.Packstore.Lifecycle.{take_grey}
use amber_store.Packstore.Compact.{
  compact, is_among, is_victim, keep_if, select_victims, copied, and_next, check_record,
  any_survivor, survivor_has, append_checked, copy_entry, copy_entries, copy_segments, survivors,
  sync_copies, remove_victims, or_grey, sweep_victims, after_seal,
}
use amber_store.Packstore.Liveness.{
  entry_at, entries_from, all_entries, add_entry, add_entries, liveness,
}
use amber_store.Packstore.Index.{row_values, search_index_pos, search}
use amber_store.Packstore.Footer.{get, payload_at, out_of_bounds, lookup_pos}
use amber_store.Packstore.Store.{
  seal_segment, write_footer, publish_sealed, swap_sealed, set_failed, read_loc, or_else,
  read_sealed, get_object,
}
use amber_store.Packstore.Lifecycle.{begin_barrier}
use amber_store.Packstore.Compact.Examples.{live_key, digest, content, everything, end_well}
use amber_store.Packstore.Compact.Writes.{Writes, no_writes}
use amber_store.Packstore.Marks.{
  new_mark_set, blank_words, unmarked_keys, flag_of, set_flag, has_bit, add_bit, set_word, get_mark,
  set_mark, row_in, row_or, locate_row, locate_after, locate_mark, mark_count, mark_at, mark,
  marked_at, is_marked,
}
use amber_store.Fstree.{
  is_leaf, child_keys, decoded, decode_dir_leaf, decode_dir_node, decode_file_node, pair_keys,
  entry_keys, parse_keys,
}
use amber_store.Fstree.Walk.Reached.{IsNamedFrom, root_itself}
use amber_store.Fstree.Walk.{fetch_children, children_of}
use amber_store.Gc.{
  push_all, then_mark, push_children, after_mark, mark_loop, mark_from, mark_roots, mark_live,
}
use amber_store.Gc.Cycle.{
  Cycle, cycle, roots_of, parse_roots, abort, swept, read_in, sweep, after_marking, after_roots,
}
use amber_store.Gc.Cycle.Keeps.{cycle-reads}
use amber_store.Gc.Examples.{
  empty_lists, unsealed, started, read, unsealed-IsWellFiled, started-IsWellFiled, read-ReadsArrays,
  root_array,
}
use amber_store.Fstree.Walk.{
  walk, on_frontier, fetch, after_fetch, add_lists, add_keys, add_key, check_object, leaf_present,
  check_complete,
}
use amber_store.Fstree.Walk.Correct.{IsClosure}
use amber_store.Packstore.Store.{has_object}
use amber_store.Packstore.Lifecycle.{observe_keys}
use amber_store.Gc.Cycle.{prepared, prepare_ref, has_in}
use amber_store.Gc.Cycle.References.{prepare_ref-Writes}

abbrev cycled : Option Cycle
cycled =
    cycle passing zeros digest empty_lists (λ n. false) 5 everything all_well (λ id e. all_well)
      end_well false (some (live_key ∷ [])) (λ s. s) unsealed

abbrev after : Store
after = elim cycled [ some (s, r) ↦ s | none ↦ started ]

cycle_done : cycled ≡ some (after, ok tt)
unfolding build_footer footer_of build_filter_section filter_section seal_with trailer_fields
    filter_bytes fingerprint_bytes build_index_section sort_entries insert_entry entry_less
    bytes_less last_byte fanout_bytes count_last index_rows entry_bytes put_be get_be entries_of
    checksum update open_sealed parse_footer parse_index_section parse_filter_section assemble
    header_fields bytes_eq read_fanout compact take_grey or_grey seal_active seal_option after_seal
    select_victims sweep_victims is_victim keep_if liveness add_entries add_entry all_entries
    entries_from entry_at copy_segments copy_entries copy_entry survivor_has any_survivor
    check_record append_checked copied and_next is_among survivors sync_copies remove_victims
    in_active has probe lookup search_index filter_key row_key row_value append_locked
    append_creating append_active append_to append_unless write_record create_active and_then
    with_active write_at seal_if_full loc_of put_loc verify_object parse_record decode_payload
    key_parse validate is_valid type_of length_size payload_length new_from_hash length_size_for
    bit_len row_values search_index_pos search get payload_at out_of_bounds lookup_pos or_else
    read_sealed read_active read_object get_object any_sealed begin_barrier new_mark_set blank_words
    unmarked_keys flag_of set_flag has_bit add_bit set_word get_mark set_mark row_in row_or
    locate_row locate_after locate_mark mark_count mark_at mark marked_at is_marked is_leaf
    child_keys decoded decode_dir_leaf decode_dir_node decode_file_node pair_keys entry_keys
    parse_keys fetch_children children_of push_all then_mark push_children after_mark mark_loop
    mark_from mark_roots mark_live read_in contains seal_segment write_footer publish_sealed
    swap_sealed set_failed read_loc cycle roots_of parse_roots abort swept sweep after_marking
    after_roots
cycle_done = refl

root_parsed : roots_of (some (live_key ∷ [])) ≡ ok (live_key ∷ [])
unfolding roots_of parse_roots key_parse validate is_valid type_of length_size payload_length
root_parsed = refl

live_reached : contains (live_key ∷ []) live_key ≡ true
unfolding contains bytes_eq
live_reached = refl

cycle-reads_example : read_object passing zeros after live_key ≡ ok (some (9 ∷ []))
unfolding bytes_eq
cycle-reads_example =
    cycle-reads passing zeros digest empty_lists content (λ n. false) 5 everything all_well
      (λ id e. all_well) end_well false (some (live_key ∷ [])) (λ s. s) unsealed after
      (live_key ∷ []) [] live_key unsealed-IsWellFiled read-ReadsArrays (no_writes started)
      root_parsed root_array cycle_done (omega arith) (inl (live_key, live_reached, root_itself))

prepared_done :
    prepare_ref passing zeros empty_lists 5 started live_key
    ≡ some (observe_keys started (live_key ∷ []), ok tt)
unfolding build_footer footer_of build_filter_section filter_section seal_with trailer_fields
    filter_bytes fingerprint_bytes build_index_section sort_entries insert_entry entry_less
    bytes_less last_byte fanout_bytes count_last index_rows entry_bytes put_be get_be entries_of
    checksum update open_sealed parse_footer parse_index_section parse_filter_section assemble
    header_fields bytes_eq read_fanout compact take_grey or_grey seal_active seal_option after_seal
    select_victims sweep_victims is_victim keep_if liveness add_entries add_entry all_entries
    entries_from entry_at copy_segments copy_entries copy_entry survivor_has any_survivor
    check_record append_checked copied and_next is_among survivors sync_copies remove_victims
    in_active has probe lookup search_index filter_key row_key row_value append_locked
    append_creating append_active append_to append_unless write_record create_active and_then
    with_active write_at seal_if_full loc_of put_loc verify_object parse_record decode_payload
    key_parse validate is_valid type_of length_size payload_length new_from_hash length_size_for
    bit_len row_values search_index_pos search get payload_at out_of_bounds lookup_pos or_else
    read_sealed read_active read_object get_object any_sealed begin_barrier new_mark_set blank_words
    unmarked_keys flag_of set_flag has_bit add_bit set_word get_mark set_mark row_in row_or
    locate_row locate_after locate_mark mark_count mark_at mark marked_at is_marked is_leaf
    child_keys decoded decode_dir_leaf decode_dir_node decode_file_node pair_keys entry_keys
    parse_keys fetch_children children_of push_all then_mark push_children after_mark mark_loop
    mark_from mark_roots mark_live read_in prepare_ref prepared has_in has_object walk on_frontier
    fetch after_fetch add_lists add_keys add_key check_object leaf_present check_complete
    observe_keys contains read_loc
prepared_done = refl

prepare_ref-Writes_example :
    (keys : List Key) × Writes passing zeros content started
      (keys ++ [])
      (observe_keys started (live_key ∷ []))
    × IsClosure (check_object empty_lists read (has_in passing zeros started)) live_key keys
    × ((j : Key) → (contains keys j ≡ true) ↔ IsNamedFrom empty_lists read live_key j)
prepare_ref-Writes_example =
    prepare_ref-Writes passing zeros content empty_lists 5 started started
      (observe_keys started (live_key ∷ [])) [] live_key started-IsWellFiled read-ReadsArrays
      (omega arith) (no_writes started) prepared_done
