-- ===== src/Packstore/Store/Examples.antt =====
-- A put on an empty store.
use amber_store.Prelude.{
  ◌*◌, ◌≡◌, arith, [], ◌∷◌, ◌++◌, true, false, not, ◌&&◌, none, some, ok, if◌then◌else◌, bytes_eq,
  get_be, put_be,
}
use amber_store.Key.{Key}
use amber_store.Key.Fields.{IsArray32}
use amber_store.Key.Examples.{sample_key, sample_parsed}
use amber_store.Amberpack.Examples.{zeros, payload, stored, encoded}
use amber_store.Amberpack.Record.{assemble, header_fields}
use amber_store.Packstore.{magic_header}
use amber_store.Packstore.Examples.{passing}
use amber_store.Packstore.Recover.{loc_of, put_loc}
use amber_store.Packstore.Store.{
  Store, Io, ActiveSegment, write_at, create_active, and_then, with_active, seal_if_full,
  write_record, append_unless, append_to, append_active, append_creating, append_locked, any_sealed,
  in_active, has_object, append_encoded, observe, put_new, put_object, read_object,
}
use amber_store.Packstore.Store.Reads.{IsWritable}
use amber_store.Packstore.Store.Refinement.{holds}
use amber_store.Packstore.Store.PutGet.{put_object-read_object}

abbrev pub empty_store : Store
empty_store = record {
  segment_size = 256 * 1048576;
  sync = true;
  capturing = true;
  grey = some [];
  sealed = [];
  active = none;
  next_id = 1;
  is_closed = false;
  has_failed = false;
}

abbrev pub all_well : Io
all_well = record {
  create_ok = true;
  write_ok = true;
  garbage = [];
  sync_ok = true;
  truncate_ok = true;
  footer_ok = true;
  footer_garbage = [];
  footer_sync_ok = true;
  rename_ok = true;
  dir_sync_ok = true;
  close_ok = true;
}

abbrev pub first_segment : ActiveSegment
first_segment = record {
  id = 1;
  content = magic_header ++ stored;
  size = 55;
  index = (sample_key, record { off = 8; flags = 1; ulen = 4; slen = 1 }) ∷ [];
}

abbrev pub after_put : Store
after_put = record empty_store {
  grey = some (sample_key ∷ []);
  active = some first_segment;
  next_id = 2;
}

pub put_done : put_object passing zeros all_well empty_store sample_key payload ≡ (after_put, ok tt)
unfolding put_object observe has_object any_sealed in_active put_new append_encoded append_locked
    append_creating append_active append_to append_unless write_record and_then create_active
    with_active write_at seal_if_full loc_of put_loc assemble header_fields get_be put_be
put_done = rw encoded

put_object-read_object_example :
    IsWritable zeros after_put.active
    × ((j : Key)
        → IsArray32 j
        → read_object passing zeros after_put j ≡ (
            if bytes_eq sample_key j && not (holds passing empty_store sample_key)
            then ok (some payload)
            else read_object passing zeros empty_store j))
put_object-read_object_example =
    put_object-read_object passing zeros all_well empty_store after_put sample_key payload tt tt
      (omega arith) sample_parsed put_done
