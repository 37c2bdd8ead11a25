-- ===== src/Packstore/Lifecycle.antt =====
-- packstore/packstore.go and packstore/barrier.go: batches, sync, wipe and close, and the capture of the
-- keys that writes observe. Closing, unlinking and fsync answer by arguments.
pub mod Captured
mod Examples
use amber_store.Prelude.{
  ℕ, ◌≡◌, refl, ◌∙◌, ap, sym, arith, Bool, true, false, not, ◌&&◌, ◌||◌, Option, none, some, List,
  [], ◌∷◌, ◌++◌, length, ◌==◌, leb, ltb, if◌then◌else◌, Bytes, bytes_eq, bytes_eq_iff,
  bytes_eq_refl, Result, ok, err,
}
use amber_store.Key.{Key}
use amber_store.Amberpack.Record.{Zstd, RecordError, encode_record}
use amber_store.Packstore.{Object}
use amber_store.Packstore.Filter.{FuseLibrary}
use amber_store.Packstore.Footer.{SealedSegment}
use amber_store.Packstore.Store.{
  Io, Store, ActiveSegment, Outcome, StoreError, set_failed, append_locked, has_object, observe,
  store_closed, write_path_failed, io_failed,
}

unfoldable pub begin_barrier : Store → Store
begin_barrier s = record s { grey = some []; capturing = true }

unfoldable pub abort_barrier : Store → Store
abort_barrier s = record s { grey = none; capturing = false }

-- takeGrey: the keys, and the store after it.
unfoldable pub take_grey : Store → Store × Option (List Key)
take_grey s = (record s { grey = none; capturing = false }, s.grey)

unfoldable pub observe_keys : Store → List Key → Store
observe_keys s keys =
    if s.capturing
    then elim s.grey [ none ↦ s | some ks ↦ record s { grey = some (keys ++ ks) } ]
    else s

unfoldable pub sync_active : Bool → Store → Outcome
unfolding set_failed
sync_active sync_ok s =
    if s.is_closed
    then (s, err store_closed)
    else if s.has_failed
    then (s, err write_path_failed)
    else elim s.active [
      | none ↦ (s, ok tt)
      | some a ↦
          if not s.sync
          then (s, ok tt)
          else if sync_ok
          then (s, ok tt)
          else (set_failed s, err io_failed)
    ]

-- Whether the files could be closed and unlinked, and the directory synced.
unfoldable pub wipe : Bool → Bool → Store → Outcome
wipe files_ok sync_ok s = if s.is_closed then (s, err store_closed) else (
  record s { active = none; sealed = []; has_failed = false },
  if (files_ok || length s.sealed == 0 && elim s.active [ none ↦ Bool.true | some _ ↦ Bool.false ])
        && (not s.sync || sync_ok)
      then ok tt
      else err io_failed,
)

unfoldable pub close_store : Bool → Store → Outcome
close_store files_ok s = if s.is_closed then (s, ok tt) else (
  record s { is_closed = true; active = none; sealed = [] },
  if files_ok then ok tt else err io_failed,
)

unfoldable pub is_seen : Key → List Key → Bool
is_seen k [] = false
is_seen k (j ∷ js) = bytes_eq j k || is_seen k js

-- The variables of the loop of `WriteBatch`.
pub record Batch : Type 0 where
  pub store : Store
  pub seen : List Key
  pub appended : Bool

unfoldable pub appended_to : Batch → Outcome → Batch × Result StoreError (Unit {0})
appended_to b (s, ok _) = (record b { store = s; appended = true }, ok tt)
appended_to b (s, err e) = (record b { store = s }, err e)

-- The loop goes on after a round without an error.
unfoldable pub after_step :
    (Batch → Batch × Result StoreError (Unit {0}))
    → Batch × Result StoreError (Unit {0})
    → Batch × Result StoreError (Unit {0})
after_step go (b, ok _) = go b
after_step go (b, err e) = (b, err e)

-- The end of `WriteBatch`: what was appended is synced also after an error.
unfoldable pub batch_end : Bool → Batch × Result StoreError (Unit {0}) → Outcome
unfolding sync_active
batch_end sync_ok (b, ok _) = sync_active sync_ok b.store
batch_end sync_ok (b, err e) =
    ((if b.appended then (sync_active sync_ok b.store).0 else b.store), err e)

module _ (x : FuseLibrary) (z : Zstd) where
  unfoldable pub batch_record :
      Io → Batch → Key → Result RecordError Bytes → Batch × Result StoreError (Unit {0})
  unfolding appended_to
  batch_record io b k (err e) = (b, err (StoreError.bad_object e))
  batch_record io b k (ok rec) = appended_to b (append_locked x io b.store k rec false)

  unfoldable pub batch_new :
      Io → Batch → Object → Result StoreError Bool → Batch × Result StoreError (Unit {0})
  unfolding batch_record
  batch_new io b o (err e) = (b, err e)
  batch_new io b o (ok true) = (b, ok tt)
  batch_new io b o (ok false) = batch_record io b o.key (encode_record z o.key o.data_bytes)

  -- One round, for what the iterator yields.
  unfoldable pub batch_step :
      Io → Batch → Result StoreError Object → Batch × Result StoreError (Unit {0})
  unfolding batch_new is_seen observe
  batch_step io b (err e) = (b, err e)
  batch_step io b (ok o) =
      let b' = record b { store = observe x b.store o.key; seen = o.key ∷ b.seen } in
      if is_seen o.key b.seen then (b, ok tt) else batch_new io b' o (has_object x b'.store o.key)

  unfoldable pub batch_loop :
      Batch → List (Io × Result StoreError Object) → Batch × Result StoreError (Unit {0})
  unfolding batch_step after_step
  batch_loop b [] = (b, ok tt)
  batch_loop b ((io, item) ∷ items) = after_step (λ b'. batch_loop b' items) (batch_step io b item)

  -- Store.WriteBatch
  unfoldable pub write_batch : Bool → Store → List (Io × Result StoreError Object) → Outcome
  unfolding batch_loop batch_end
  write_batch sync_ok s items =
      batch_end sync_ok (batch_loop (record { store = s; seen = []; appended = false }) items)
