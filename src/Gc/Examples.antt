-- ===== src/Gc/Examples.antt =====
-- A mark on the store of the compaction's example, before its segment is sealed, and a put.
use amber_store.Prelude.{
  Result, ℕ, ◌+◌, ◌≡◌, refl, arith, true, false, not, ◌&&◌, none, some, [], ◌∷◌, Bytes, bytes_eq,
  bytes_less, get_be, put_be, ok, err, Bool-cases, inl, inr, Option, List, contains, bytes_eq_iff,
  subst,
}
use amber_store.Key.{
  Key, type_of, length_size, payload_length, validate, is_valid, length_size_for, bit_len,
  new_from_hash, parse as key_parse,
}
use amber_store.Key.Examples.{sample_key}
use amber_store.Amberpack.Crc.{checksum, update}
use amber_store.Amberpack.Examples.{zeros}
use amber_store.Amberpack.Record.{assemble, header_fields, parse_record, decode_payload}
use amber_store.Packstore.Examples.{passing}
use amber_store.Packstore.Filter.{
  filter_bytes, fingerprint_bytes, build_filter_section, filter_section, parse_filter_section,
  filter_key,
}
use amber_store.Packstore.Index.{
  entry_less, sort_entries, insert_entry, build_index_section, fanout_bytes, count_last, index_rows,
  entry_bytes, last_byte, parse_index_section, read_fanout, search_index, row_key, row_value,
}
use amber_store.Packstore.Footer.{
  build_footer, footer_of, seal_with, trailer_fields, open_sealed, parse_footer, probe, lookup, has,
}
use amber_store.Packstore.Recover.{loc_of, put_loc}
use amber_store.Packstore.Store.{
  Store, entries_of, in_active, read_active, write_at, create_active, and_then, with_active,
  seal_if_full, write_record, append_unless, append_to, append_active, append_creating,
  append_locked, any_sealed, seal_active, seal_option, read_object,
}
use amber_store.Packstore.Store.Examples.{all_well}
use amber_store.Packstore.Store.Refinement.{holds}
use amber_store.Packstore.Scrub.{verify_object}
use amber_store.Packstore.Lifecycle.{take_grey}
use amber_store.Packstore.Compact.{
  compact, is_among, is_victim, keep_if, select_victims, copied, and_next, check_record,
  any_survivor, survivor_has, append_checked, copy_entry, copy_entries, copy_segments, survivors,
  sync_copies, remove_victims, or_grey, sweep_victims, after_seal,
}
use amber_store.Packstore.Liveness.{
  entry_at, entries_from, all_entries, add_entry, add_entries, liveness,
}
use amber_store.Packstore.Index.{row_values, search_index_pos, search}
use amber_store.Packstore.Footer.{get, payload_at, out_of_bounds, lookup_pos}
use amber_store.Packstore.Store.{or_else, read_sealed, get_object}
use amber_store.Packstore.Lifecycle.{begin_barrier}
use amber_store.Packstore.Compact.Examples.{
  filling, filling-IsActive, filling_reads, live_key, content, before,
}
use amber_store.Packstore.Compact.Wellfiled.{IsWellFiled, AreApart}
use amber_store.Packstore.Compact.Writes.{Stores, put_object-Stores}
use amber_store.Amberpack.Examples.{payload}
use amber_store.Key.Examples.{sample_parsed}
use amber_store.Key.Fields.{IsArray32}
use amber_store.Packstore.Store.{observe}
use amber_store.Packstore.Store.Examples.{empty_store, after_put, put_done}
use amber_store.Packstore.Lifecycle.Captured.{marks}
use amber_store.Packstore.Marks.{
  MarkSet, new_mark_set, blank_words, unmarked_keys, flag_of, set_flag, has_bit, add_bit, set_word,
  get_mark, set_mark, row_in, row_or, locate_row, locate_after, locate_mark, mark_count, mark_at,
  mark, marked_at, is_marked,
}
use amber_store.Packstore.Marks.Snapshot.{mark_all, IsSnapshot, mark-IsSnapshot}
use amber_store.Fstree.{
  Cbor, is_leaf, child_keys, decoded, decode_dir_leaf, decode_dir_node, decode_file_node, pair_keys,
  entry_keys, parse_keys,
}
use amber_store.Fstree.Walk.{fetch_children, children_of}
use amber_store.Gc.{
  MarkError, Marking, push_all, then_mark, push_children, after_mark, mark_loop, mark_from,
  mark_roots, mark_live,
}
use amber_store.Gc.Marking.{ReadsArrays}
use amber_store.Gc.Marked.{IsLiveSet, mark_live-IsLiveSet}
use amber_store.Gc.Returns.{all_degrees, mark_live-Returns}
use amber_store.Gc.Cycle.{read_in}

abbrev pub empty_lists : Cbor
empty_lists = record {
  unmarshal_keys = λ b. some [];
  unmarshal_entries = λ b. some [];
  unmarshal_pairs = λ b. some [];
}

-- The segment is active still.
abbrev pub unsealed : Store
unsealed = record before { sealed = []; active = some filling }

abbrev pub started : Store
started = begin_barrier unsealed

abbrev pub read : Key → Option Bytes
read = read_in passing zeros started

abbrev marking : Marking
marking = mark_live passing empty_lists read (λ n. false) 5 started (live_key ∷ [])

abbrev marked_set : MarkSet
marked_set = elim marking [
  | some r ↦ elim r [ ok m ↦ m | err e ↦ new_mark_set started ]
  | none ↦ new_mark_set started
]

marked : marking ≡ some (ok marked_set)
unfolding build_footer footer_of build_filter_section filter_section seal_with trailer_fields
    filter_bytes fingerprint_bytes build_index_section sort_entries insert_entry entry_less
    bytes_less last_byte fanout_bytes count_last index_rows entry_bytes put_be get_be entries_of
    checksum update open_sealed parse_footer parse_index_section parse_filter_section assemble
    header_fields bytes_eq read_fanout compact take_grey or_grey seal_active seal_option after_seal
    select_victims sweep_victims is_victim keep_if liveness add_entries add_entry all_entries
    entries_from entry_at copy_segments copy_entries copy_entry survivor_has any_survivor
    check_record append_checked copied and_next is_among survivors sync_copies remove_victims
    in_active has probe lookup search_index filter_key row_key row_value append_locked
    append_creating append_active append_to append_unless write_record create_active and_then
    with_active write_at seal_if_full loc_of put_loc verify_object parse_record decode_payload
    key_parse validate is_valid type_of length_size payload_length new_from_hash length_size_for
    bit_len row_values search_index_pos search get payload_at out_of_bounds lookup_pos or_else
    read_sealed read_active read_object get_object any_sealed begin_barrier new_mark_set blank_words
    unmarked_keys flag_of set_flag has_bit add_bit set_word get_mark set_mark row_in row_or
    locate_row locate_after locate_mark mark_count mark_at mark marked_at is_marked is_leaf
    child_keys decoded decode_dir_leaf decode_dir_node decode_file_node pair_keys entry_keys
    parse_keys fetch_children children_of push_all then_mark push_children after_mark mark_loop
    mark_from mark_roots mark_live read_in
marked = refl

pub unsealed-IsWellFiled : IsWellFiled passing zeros content unsealed
unfolding AreApart is_among
unsealed-IsWellFiled = record {
  segments = tt;
  apart = tt;
  fresh = λ n le. refl;
  filing = record {
    active = filling-IsActive;
    reads = filling_reads;
    small = omega arith;
    few = omega arith;
    own = refl;
    numbered = omega arith;
  };
  bounded = omega arith;
}

pub started-IsWellFiled : IsWellFiled passing zeros content started
unfolding begin_barrier
started-IsWellFiled =
    let w = unsealed-IsWellFiled in
    record {
      segments = w.segments;
      apart = w.apart;
      fresh = w.fresh;
      filing = w.filing;
      bounded = w.bounded;
    }

no_children :
    (get : Key → Option Bytes) (k : Key) (ks : List Key)
    → fetch_children empty_lists get k ≡ ok ks
    → ks ≡ []
unfolding fetch_children children_of child_keys is_leaf decoded decode_dir_leaf decode_dir_node
    decode_file_node pair_keys entry_keys parse_keys
no_children get k ks h = ground (arith, h)

no_listed : (j : Key) → contains [] j ≡ true → ⊥
unfolding contains
no_listed j h = cc h

pub read-ReadsArrays : ReadsArrays empty_lists read
read-ReadsArrays k j ks h listed =
    absurd
      (no_listed j (subst (λ (l : List Key). contains l j ≡ true) (no_children read k ks h) listed))

pub root_array : (j : Key) → contains (live_key ∷ []) j ≡ true → IsArray32 j
unfolding contains
root_array j listed =
    subst IsArray32 ((bytes_eq_iff live_key j).0 (ground (arith, listed))) (omega arith)

abbrev stored_keys : List Key
stored_keys = live_key ∷ sample_key ∷ []

stored_array : (j : Key) → contains stored_keys j ≡ true → IsArray32 j
unfolding contains
stored_array j listed = elim (Bool-cases (bytes_eq live_key j)) [
  | inl first ↦ subst IsArray32 ((bytes_eq_iff live_key j).0 first) (omega arith)
  | inr other ↦
      subst IsArray32 ((bytes_eq_iff sample_key j).0 (ground (arith, listed, other))) (omega arith)
]

all_stored : (j : Key) → holds passing started j ≡ true → contains stored_keys j ≡ true
unfolding in_active any_sealed loc_of contains begin_barrier
all_stored j h = ground (arith, h)

-- A key that was marked before, another one, and the first one again.
mark-IsSnapshot_example :
    let m = mark_all passing (new_mark_set started) (sample_key ∷ live_key ∷ []) in
    let r = mark passing m live_key in
    IsSnapshot passing started (sample_key ∷ live_key ∷ []) m
    × IsSnapshot passing started (live_key ∷ sample_key ∷ live_key ∷ []) r.0
    × (r.1.1 ≡ holds passing started live_key)
    × (r.1.0
        ≡ (holds passing started live_key && not (contains (sample_key ∷ live_key ∷ []) live_key)))
mark-IsSnapshot_example =
    mark-IsSnapshot passing zeros content started (sample_key ∷ live_key ∷ []) live_key
      started-IsWellFiled (omega arith, (omega arith, tt)) (omega arith)

mark_live-IsLiveSet_example : IsLiveSet passing empty_lists read (live_key ∷ []) started marked_set
mark_live-IsLiveSet_example =
    mark_live-IsLiveSet passing empty_lists read (λ n. false) (live_key ∷ []) zeros content 5
      started marked_set started-IsWellFiled read-ReadsArrays root_array marked

abbrev enough : ℕ
enough = 2 + all_degrees empty_lists read stored_keys

mark_live-Returns_example :
    (r : Result MarkError MarkSet) × (mark_live passing empty_lists read
        (λ n. false)
        enough
        started
        (live_key ∷ [])
      ≡ some r)
mark_live-Returns_example =
    mark_live-Returns passing empty_lists read (λ n. false) zeros content stored_keys
      (live_key ∷ []) enough started started-IsWellFiled read-ReadsArrays stored_array root_array
      all_stored (omega arith)

empty-IsWellFiled : IsWellFiled passing zeros (λ k. payload) empty_store
unfolding AreApart is_among
empty-IsWellFiled = record {
  segments = tt;
  apart = tt;
  fresh = λ n le. refl;
  filing = tt;
  bounded = omega arith;
}

put_object-Stores_example :
    Stores passing zeros (λ k. payload) empty_store after_put sample_key
    × (marks after_put ≡ marks (observe passing empty_store sample_key))
put_object-Stores_example =
    put_object-Stores passing zeros (λ k. payload) all_well empty_store after_put sample_key payload
      empty-IsWellFiled (omega arith) sample_parsed refl put_done
