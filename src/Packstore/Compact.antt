-- ===== src/Packstore/Compact.antt =====
-- packstore/compact.go: the compaction of sealed segments. Records are copied one after the other, as
-- with a single worker. The times of files, floating-point ratios and the answers of the operating
-- system are arguments; statistics and pacing are left out.
pub mod Wellfiled
pub mod Appended
pub mod Appends
pub mod Records
pub mod Copies
pub mod Selection
pub mod Sweep
pub mod Keeps
pub mod Writes
pub mod Examples
use amber_store.Prelude.{
  ℕ, zero, suc, ◌+◌, ◌-◌, ◌≡◌, Bool, true, false, not, ◌&&◌, ◌||◌, Option, none, some, List, [],
  ◌∷◌, ◌++◌, ltb, ◌==◌, length, if◌then◌else◌, drop, slice, Bytes, bytes_eq, contains, Result, ok,
  err, ◌>>=◌, ◌>>◌, fail_if, wrap,
}
use amber_store.Key.{Key}
use amber_store.Amberpack.Record.{Zstd, RecordError, rec_header_size, parse_record, decode_payload}
use amber_store.Packstore.{Object, magic_header}
use amber_store.Packstore.Filter.{FuseLibrary}
use amber_store.Packstore.Index.{IndexEntry, row_key, row_value}
use amber_store.Packstore.Footer.{SealedSegment, FooterView, has}
use amber_store.Packstore.Store.{
  Io, Store, Outcome, StoreError, ActiveSegment, entries_of, append_locked, seal_active, set_failed,
  in_active, store_closed, write_path_failed, io_failed,
}
use amber_store.Packstore.Liveness.{entry_at, entries_from, all_entries, Liveness, liveness}
use amber_store.Packstore.Lifecycle.{take_grey}
use amber_store.Packstore.Scrub.{VerifyError, verify_object}

pub data CompactError : Type 0 where
  entry_out_of_bounds stat_failed files_failed key_mismatch : CompactError
  bad_record : RecordError → CompactError
  bad_object : VerifyError → CompactError
  store_failed : StoreError → CompactError

-- The options: whether a segment was sealed before the horizon (nothing where its file cannot be asked),
-- and whether the dead bytes of the total reach the ratio.
pub record CompactOpts : Type 0 where
  pub sealed_before : ℕ → Option Bool
  pub reaches_ratio : ℕ → ℕ → Bool

unfoldable pub is_victim : (Key → Bool) → CompactOpts → SealedSegment → Bool
unfolding liveness
is_victim live opts g =
    let info = liveness live g in
    not (info.dead_keys == 0)
    && opts.reaches_ratio info.dead_bytes (info.live_bytes + info.dead_bytes)

unfoldable pub keep_if : Bool → SealedSegment → List SealedSegment → List SealedSegment
keep_if b g gs = if b then g ∷ gs else gs

unfoldable pub select_victims :
    (Key → Bool) → CompactOpts → List SealedSegment → Result CompactError (List SealedSegment)
unfolding is_victim keep_if
select_victims live opts [] = ok []
select_victims live opts (g ∷ gs) = do
  is_old ← elim (opts.sealed_before g.id) [ some b ↦ ok b | none ↦ err stat_failed ]
  rest ← select_victims live opts gs
  ok (keep_if (is_old && is_victim live opts g) g rest)

unfoldable pub is_among : List SealedSegment → ℕ → Bool
is_among [] id = false
is_among (g ∷ gs) id = g.id == id || is_among gs id

abbrev pub Copying : Type 0
Copying = Store × Result CompactError (Unit {0})

unfoldable pub copied : Outcome → Copying
copied (s, ok _) = (s, ok tt)
copied (s, err e) = (s, err (store_failed e))

-- The next step, unless there was an error.
unfoldable pub and_next : Copying → (Store → Copying) → Copying
and_next (s, ok _) f = f s
and_next (s, err e) f = (s, err e)

module _ (hash_of : Bytes → Bytes) (z : Zstd) where
  unfoldable pub check_record : Key → Bytes → Result CompactError (Unit {0})
  check_record k rec = do
    r ← wrap bad_record (parse_record rec)
    fail_if (not (bytes_eq r.key k)) key_mismatch
    payload ← wrap bad_record (decode_payload z r.flags r.ulen (drop rec_header_size rec))
    wrap bad_object (verify_object hash_of (record { key = k; data_bytes = payload }))

module _ (x : FuseLibrary) where
  unfoldable pub any_survivor : List SealedSegment → List SealedSegment → Key → Bool
  unfolding is_among
  any_survivor victims [] k = false
  any_survivor victims (g ∷ gs) k =
      (not (is_among victims g.id) && has x g k) || any_survivor victims gs k

  unfoldable pub survivor_has : List SealedSegment → Store → Key → Bool
  unfolding any_survivor in_active
  survivor_has victims s k = in_active x s.active k || any_survivor victims s.sealed k

  unfoldable pub append_checked :
      Io → Store → Key → Bytes → Result CompactError (Unit {0}) → Copying
  unfolding copied
  append_checked io s k rec (err e) = (s, err e)
  append_checked io s k rec (ok _) = copied (append_locked x io s k rec false)

module _ (hash_of : Bytes → Bytes) (x : FuseLibrary) (z : Zstd) where
  -- One entry of a victim.
  unfoldable pub copy_entry :
      (Key → Bool) → List SealedSegment → Io → SealedSegment → IndexEntry → Store → Copying
  unfolding survivor_has check_record append_checked
  copy_entry live victims io g e s =
      let rec = slice g.mm e.off (e.off + (rec_header_size + e.slen)) in
      if not (live e.k) || survivor_has x victims s e.k
      then (s, ok tt)
      else if ltb e.off (length magic_header)
          || ltb g.fv.body_len e.off
          || ltb (g.fv.body_len - e.off) (rec_header_size + e.slen)
      then (s, err entry_out_of_bounds)
      else append_checked x io s e.k rec (check_record hash_of z e.k rec)

  -- What the operating system answers while an entry of a segment is copied.
  module _ (live : Key → Bool) (victims : List SealedSegment) (io : ℕ → IndexEntry → Io) where
    unfoldable pub copy_entries : SealedSegment → List IndexEntry → Store → Copying
    unfolding copy_entry and_next
    copy_entries g [] s = (s, ok tt)
    copy_entries g (e ∷ es) s =
        and_next (copy_entry live victims (io g.id e) g e s) (copy_entries g es)

    unfoldable pub copy_segments : List SealedSegment → Store → Copying
    unfolding copy_entries all_entries
    copy_segments [] s = (s, ok tt)
    copy_segments (g ∷ gs) s = and_next (copy_entries g (all_entries g.fv) s) (copy_segments gs)

-- The segments that are no victims.
unfoldable pub survivors : List SealedSegment → List SealedSegment → List SealedSegment
unfolding is_among keep_if
survivors victims [] = []
survivors victims (g ∷ gs) = keep_if (not (is_among victims g.id)) g (survivors victims gs)

-- What the operating system answers to the last calls of a compaction.
pub record EndIo : Type 0 where
  pub sync_ok : Bool
  pub files_ok : Bool

unfoldable pub sync_copies : Bool → Store → Copying
unfolding set_failed
sync_copies sync_ok s = elim s.active [
  | none ↦ (s, ok tt)
  | some _ ↦
      if s.sync && not sync_ok then (set_failed s, err (store_failed io_failed)) else (s, ok tt)
]

unfoldable pub remove_victims : Bool → List SealedSegment → Store → Copying
unfolding survivors
remove_victims files_ok victims s =
    (record s { sealed = survivors victims s.sealed }, if files_ok then ok tt else err files_failed)

-- The seal at the start of a compaction poisons the write path where it fails.
unfoldable pub after_seal : Outcome → (Store → Copying) → Copying
unfolding set_failed
after_seal (s, ok _) f = f s
after_seal (s, err e) f = (set_failed s, err (store_failed e))

-- The keys that a capture saw are kept alongside the live ones.
unfoldable pub or_grey : Option (List Key) → (Key → Bool) → Key → Bool
or_grey none live k = live k
or_grey (some keys) live k = contains keys k || live k

module _ (hash_of : Bytes → Bytes) (x : FuseLibrary) (z : Zstd) where
  unfoldable pub sweep_victims :
      (Key → Bool)
      → (ℕ → IndexEntry → Io)
      → EndIo
      → Store
      → Result CompactError (List SealedSegment)
      → Copying
  unfolding copy_segments sync_copies remove_victims and_next
  sweep_victims live io last s (err e) = (s, err e)
  sweep_victims live io last s (ok []) = (s, ok tt)
  sweep_victims live io last s (ok (g ∷ gs)) =
      and_next
        (and_next (copy_segments hash_of x z live (g ∷ gs) io (g ∷ gs) s)
          (sync_copies last.sync_ok))
        (remove_victims last.files_ok (g ∷ gs))

  -- Store.Compact
  unfoldable pub compact :
      (Key → Bool) → CompactOpts → Io → (ℕ → IndexEntry → Io) → EndIo → Store → Copying
  unfolding take_grey or_grey seal_active after_seal select_victims sweep_victims
  compact live opts seal_io io last s =
      let (s', grey) = take_grey s in
      if s'.is_closed
      then (s', err (store_failed store_closed))
      else if s'.has_failed
      then (s', err (store_failed write_path_failed))
      else after_seal (seal_active x seal_io s') (λ t.
        sweep_victims (or_grey grey live) io last t
          (select_victims (or_grey grey live) opts t.sealed))
