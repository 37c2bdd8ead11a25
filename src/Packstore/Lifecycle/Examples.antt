-- ===== src/Packstore/Lifecycle/Examples.antt =====
-- A batch of one object that comes twice, while a capture is on.
use amber_store.Prelude.{◌≡◌, refl, List, [], ◌∷◌, true, some, ok, Result, bytes_eq, get_be, put_be}
use amber_store.Key.{Key}
use amber_store.Key.Examples.{sample_key}
use amber_store.Amberpack.Examples.{zeros, payload, encoded}
use amber_store.Amberpack.Record.{assemble, header_fields}
use amber_store.Packstore.{Object}
use amber_store.Packstore.Examples.{passing}
use amber_store.Packstore.Recover.{loc_of, put_loc}
use amber_store.Packstore.Store.{
  Io, StoreError, observe, any_sealed, in_active, write_at, create_active, and_then, with_active,
  seal_if_full, write_record, append_unless, append_to, append_active, append_creating,
  append_locked, has_object,
}
use amber_store.Packstore.Store.Examples.{empty_store, all_well, after_put}
use amber_store.Packstore.Lifecycle.{
  write_batch, batch_loop, batch_step, batch_new, batch_record, appended_to, after_step, batch_end,
  sync_active, is_seen, take_grey,
}
use amber_store.Packstore.Lifecycle.Captured.{AreAmong, write_batch-take_grey}

abbrev twice : List (Io × Result StoreError Object)
twice =
    (all_well, ok (record { key = sample_key; data_bytes = payload }))
    ∷ (all_well, ok (record { key = sample_key; data_bytes = payload }))
    ∷ []

batch_done : write_batch passing zeros true empty_store twice ≡ (after_put, ok tt)
unfolding write_batch batch_loop batch_step batch_new batch_record appended_to after_step batch_end
    sync_active is_seen observe has_object any_sealed in_active append_locked append_creating
    append_active append_to append_unless write_record and_then create_active with_active write_at
    seal_if_full loc_of put_loc assemble header_fields get_be put_be bytes_eq
batch_done = rw encoded refl

write_batch-take_grey_example :
    (keys : List Key) × ((take_grey after_put).1 ≡ some keys)
    × AreAmong twice keys
    × ((k : Key) → is_seen k [] ≡ true → is_seen k keys ≡ true)
write_batch-take_grey_example =
    write_batch-take_grey passing zeros true empty_store after_put [] twice refl refl batch_done
