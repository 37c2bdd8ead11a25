-- ===== src/Packstore/Segments/Examples.antt =====
-- A removal and an append at a concrete store.
use amber_store.Prelude.{
  ℕ, ◌≡◌, refl, arith, [], ◌∷◌, true, false, some, ok, bytes_eq, get_be, put_be,
}
use amber_store.Key.Examples.{sample_key}
use amber_store.Packstore.Segments.Appended.{Appends, append_record-Appends}
use amber_store.Amberpack.Examples.{
  zeros, sample_decoded, payload, sample_record, stored, sample_record_parsed,
}
use amber_store.Amberpack.Record.{assemble, header_fields}
use amber_store.Packstore.Examples.{passing}
use amber_store.Packstore.Footer.{SealedSegment}
use amber_store.Packstore.Recover.{loc_of, put_loc}
use amber_store.Packstore.Store.{
  Store, write_at, create_active, and_then, with_active, seal_if_full, write_record, append_unless,
  append_to, append_active, append_creating, append_locked, has_object,
}
use amber_store.Packstore.Store.Examples.{empty_store, all_well, first_segment}
use amber_store.Packstore.Segments.{
  remove_segment, has_outside, has_id, append_record, append_checked, appended_raw, check_raw,
  remove_segment-has_outside,
}

abbrev segment : ℕ → SealedSegment
segment id = record {
  id = id;
  mm = [];
  fv = record {
    fanout = [];
    entries = [];
    filter = record {
      seed = 0;
      segment_length = 0;
      segment_length_mask = 0;
      segment_count = 0;
      segment_count_length = 0;
      fingerprints = [];
    };
    key_count = 0;
    body_len = 8;
    index_off = 9;
    index_len = 0;
  };
}

abbrev two_segments : Store
two_segments = record empty_store { sealed = segment 1 ∷ segment 2 ∷ [] }

remove_segment-has_outside_example :
    has_object passing (remove_segment true false true two_segments 2).0 sample_key
    ≡ has_outside passing two_segments 2 sample_key
unfolding has_id
remove_segment-has_outside_example =
    remove_segment-has_outside passing true false true two_segments 2 sample_key (refl, (refl, tt))
      refl

abbrev after_append : Store
after_append = record empty_store { active = some first_segment; next_id = 2 }

append_done : append_record passing all_well empty_store sample_key stored ≡ (after_append, ok tt)
unfolding append_record check_raw append_checked appended_raw append_locked append_creating
    append_active append_to append_unless write_record and_then create_active with_active write_at
    seal_if_full loc_of put_loc assemble header_fields get_be put_be bytes_eq
append_done = rw sample_record_parsed refl

append_record-Appends_example :
    Appends passing zeros all_well empty_store sample_key stored payload sample_record
append_record-Appends_example =
    append_record-Appends passing zeros all_well empty_store sample_key stored payload sample_record
      tt tt (omega arith) sample_record_parsed sample_decoded
