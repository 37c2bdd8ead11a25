-- ===== src/Packstore/Segments.antt =====
-- packstore/gc.go: the sealed segments as a collector sees them. The start times of writes, the counts
-- of walks, and the times of the files are left out; the outcome of closing a segment, of unlinking its
-- file and of the fsync of the directory are arguments.
mod Appended
mod Examples
use amber_store.Prelude.{
  ℕ, zero, suc, ◌+◌, ◌-◌, ◌*◌, ◌≡◌, refl, ◌∙◌, ap, arith, Bool, true, false, not, ◌&&◌, ◌||◌,
  Option, none, some, List, [], ◌∷◌, ltb, ◌==◌, length, if◌then◌else◌, get_or, take, drop, slice,
  Bytes, get_be, bytes_eq, bytes_eq_iff, Result, ok, err, ◌>>=◌, ◌>>◌, fail_if, wrap, Bool-cases,
  inl, inr,
}
use amber_store.Key.{Key}
use amber_store.Amberpack.Record.{RecordError, Record, rec_header_size, parse_record}
use amber_store.Packstore.{magic_header}
use amber_store.Packstore.Filter.{FuseLibrary}
use amber_store.Packstore.Index.{row_key, row_value}
use amber_store.Packstore.Footer.{SealedSegment, FooterView, has}
use amber_store.Packstore.Store.{
  Io, Store, Outcome, StoreError, append_locked, has_object, any_sealed, in_active, store_closed,
  io_failed,
}

pub data SegmentError : Type 0 where
  closed unknown_segment offset_out_of_range : SegmentError
  wrong_key wrong_size file_failed : SegmentError
  bad_record : RecordError → SegmentError
  append_failed : StoreError → SegmentError

pub record SegmentInfo : Type 0 where
  pub id : ℕ
  pub body : ℕ
  pub keys : ℕ

unfoldable pub infos : List SealedSegment → List SegmentInfo
infos [] = []
infos (g ∷ gs) =
    record { id = g.id; body = g.fv.body_len - length magic_header; keys = g.fv.key_count }
    ∷ infos gs

-- Store.Segments, without the times of the files.
unfoldable pub segments : Store → Result SegmentError (List SegmentInfo)
unfolding infos
segments s = if s.is_closed then err closed else ok (infos s.sealed)

unfoldable pub find_segment : List SealedSegment → ℕ → Option SealedSegment
find_segment [] id = none
find_segment (g ∷ gs) id = if g.id == id then some g else find_segment gs id

unfoldable pub pinned : Option SealedSegment → Result SegmentError SealedSegment
pinned none = err unknown_segment
pinned (some g) = ok g

unfoldable pub pin_segment : Store → ℕ → Result SegmentError SealedSegment
unfolding find_segment pinned
pin_segment s id = if s.is_closed then err closed else pinned (find_segment s.sealed id)

-- The entries that the callback is called with, from row `i` on, `n` rows left.
unfoldable pub scan_rows : Bytes → ℕ → ℕ → List (Key × ℕ × ℕ)
scan_rows entries zero i = []
scan_rows entries (suc n) i =
    let (off, slen) = row_value entries i in
    (row_key entries i, off, slen) ∷ scan_rows entries n (i + 1)

unfoldable pub scan_index : Store → ℕ → Result SegmentError (List (Key × ℕ × ℕ))
unfolding pin_segment scan_rows
scan_index s id = do g ← pin_segment s id; ok (scan_rows g.fv.entries g.fv.key_count 0)

-- Store.Record
unfoldable pub record_of : Store → ℕ → ℕ → Result SegmentError Bytes
unfolding pin_segment
record_of s id off = do
  g ← pin_segment s id
  fail_if
      (ltb off (length magic_header)
        || ltb g.fv.body_len off
        || ltb (g.fv.body_len - off) rec_header_size)
      offset_out_of_range
  r ← wrap bad_record (parse_record (slice g.mm off g.fv.body_len))
  ok (slice g.mm off (off + (rec_header_size + r.slen)))

-- The first segment of the id is taken out.
unfoldable pub without_segment : List SealedSegment → ℕ → List SealedSegment
without_segment [] id = []
without_segment (g ∷ gs) id = if g.id == id then gs else g ∷ without_segment gs id

unfoldable pub removal : Bool → Bool → Bool → Result SegmentError (Unit {0})
removal close_ok unlink_ok sync_ok =
    if close_ok && unlink_ok && sync_ok then ok tt else err file_failed

unfoldable pub detach :
    Bool → Bool → Bool → Store → ℕ → Option SealedSegment → Store × Result SegmentError (Unit {0})
unfolding without_segment removal
detach close_ok unlink_ok sync_ok s id none = (s, err unknown_segment)
detach close_ok unlink_ok sync_ok s id (some g) = (
  record s { sealed = without_segment s.sealed id },
  removal close_ok unlink_ok (not s.sync || sync_ok),
)

-- Store.Remove
unfoldable pub remove_segment :
    Bool → Bool → Bool → Store → ℕ → Store × Result SegmentError (Unit {0})
unfolding detach find_segment
remove_segment close_ok unlink_ok sync_ok s id =
    if s.is_closed
    then (s, err closed)
    else detach close_ok unlink_ok sync_ok s id (find_segment s.sealed id)

module _ (x : FuseLibrary) where
  unfoldable pub any_outside : List SealedSegment → ℕ → Key → Bool
  any_outside [] id k = false
  any_outside (g ∷ gs) id k = any_outside gs id k || (not (g.id == id) && has x g k)

  -- Store.HasOutside
  unfoldable pub has_outside : Store → ℕ → Key → Result StoreError Bool
  unfolding any_outside in_active
  has_outside s id k =
      if s.is_closed
      then err store_closed
      else ok (in_active x s.active k || any_outside s.sealed id k)

  unfoldable pub check_raw : Key → Bytes → Result SegmentError (Unit {0})
  check_raw k raw = do
    r ← wrap bad_record (parse_record raw)
    fail_if (not (bytes_eq r.key k)) wrong_key
    fail_if (not (length raw == rec_header_size + r.slen)) wrong_size

  unfoldable pub appended_raw : Outcome → Store × Result SegmentError (Unit {0})
  appended_raw (s, ok _) = (s, ok tt)
  appended_raw (s, err e) = (s, err (append_failed e))

  unfoldable pub append_checked :
      Io
      → Store
      → Key
      → Bytes
      → Result SegmentError (Unit {0})
      → Store × Result SegmentError (Unit {0})
  unfolding appended_raw
  append_checked io s k raw (err e) = (s, err e)
  append_checked io s k raw (ok _) = appended_raw (append_locked x io s k raw false)

  -- Store.AppendRecord
  unfoldable pub append_record : Io → Store → Key → Bytes → Store × Result SegmentError (Unit {0})
  unfolding check_raw append_checked
  append_record io s k raw = append_checked io s k raw (check_raw k raw)

-- No two segments have the same id.
unfoldable pub has_id : List SealedSegment → ℕ → Bool
has_id [] id = false
has_id (g ∷ gs) id = g.id == id || has_id gs id

abbrev pub AreApart : List SealedSegment → Type 0
AreApart [] = Unit {0}
AreApart (g ∷ gs) = (has_id gs g.id ≡ false) × AreApart gs

no_segment-any_outside :
    (x : FuseLibrary) (gs : List SealedSegment) (id : ℕ) (k : Key)
    → has_id gs id ≡ false
    → any_outside x gs id k ≡ any_sealed x gs k
unfolding any_outside any_sealed has_id
no_segment-any_outside x [] id k h = refl
no_segment-any_outside x (g ∷ gs) id k h = ground (arith, no_segment-any_outside x gs id k)

without_segment-any_sealed :
    (x : FuseLibrary) (gs : List SealedSegment) (id : ℕ) (k : Key)
    → AreApart gs
    → any_sealed x (without_segment gs id) k ≡ any_outside x gs id k
unfolding any_outside any_sealed without_segment
without_segment-any_sealed x [] id k h = refl
without_segment-any_sealed x (g ∷ gs) id k (once, apart) = elim (Bool-cases (g.id == id)) [
  | inl here ↦
      let same : g.id ≡ id = ground arith in
      let alone : has_id gs id ≡ false = rw same at once in
      ground (arith, no_segment-any_outside x gs id k alone)
  | inr other ↦ ground (arith, without_segment-any_sealed x gs id k apart)
]

find_segment-none :
    (gs : List SealedSegment) (id : ℕ) → find_segment gs id ≡ none → has_id gs id ≡ false
unfolding find_segment has_id
find_segment-none [] id h = refl
find_segment-none (g ∷ gs) id h = ground (arith, find_segment-none gs id)

detach-any_sealed :
    (x : FuseLibrary) (c u d : Bool) (s : Store) (id : ℕ) (k : Key) (o : Option SealedSegment)
    → find_segment s.sealed id ≡ o
    → AreApart s.sealed
    → s.is_closed ≡ false
    → has_object x (detach c u d s id o).0 k ≡ has_outside x s id k
unfolding detach has_object has_outside
detach-any_sealed x c u d s id k none e h up =
    ground (arith, no_segment-any_outside x s.sealed id k (find_segment-none s.sealed id e))
detach-any_sealed x c u d s id k (some g) e h up =
    ground (arith, without_segment-any_sealed x s.sealed id k h)

-- Removing a segment, whatever the file operations answer, leaves exactly the objects that
-- `HasOutside` finds for it before, if the store is open and the ids of its segments are distinct.
pub remove_segment-has_outside :
    (x : FuseLibrary) (close_ok unlink_ok sync_ok : Bool) (s : Store) (id : ℕ) (k : Key)
    → AreApart s.sealed
    → s.is_closed ≡ false
    → has_object x (remove_segment close_ok unlink_ok sync_ok s id).0 k ≡ has_outside x s id k
unfolding remove_segment
remove_segment-has_outside x c u d s id k h up =
    let works : remove_segment c u d s id ≡ detach c u d s id (find_segment s.sealed id) =
      ground (arith, up) in
    ap (λ o. has_object x o.0 k) works
    ∙ detach-any_sealed x c u d s id k (find_segment s.sealed id) refl h up

check_raw-parse_record :
    (k : Key) (raw : Bytes) (x : FuseLibrary)
    → check_raw x k raw ≡ ok tt
    → (r : Record) × (parse_record raw ≡ ok r)
      × (r.key ≡ k)
      × (length raw ≡ rec_header_size + r.slen)
unfolding check_raw
check_raw-parse_record k raw x h = of_parsed (parse_record raw) refl
  where
    of_parsed :
        (p : Result RecordError Record)
        → parse_record raw ≡ p
        → (r : Record) × (parse_record raw ≡ ok r)
          × (r.key ≡ k)
          × (length raw ≡ rec_header_size + r.slen)
    of_parsed (err e) eq = absurd (ground (arith, h, eq))
    of_parsed (ok r) eq = (
      r,
      eq,
      ground (arith, h, eq, bytes_eq_iff r.key k),
      ground (arith, h, eq, bytes_eq_iff r.key k),
    )

append_checked-ok :
    (x : FuseLibrary) (io : Io) (s s' : Store) (k : Key) (raw : Bytes)
    (c : Result SegmentError (Unit {0}))
    → append_checked x io s k raw c ≡ (s', ok tt)
    → (c ≡ ok tt) × (append_locked x io s k raw false ≡ (s', ok tt))
unfolding append_checked
append_checked-ok x io s s' k raw (err e) h = absurd (cc h)
append_checked-ok x io s s' k raw (ok tt) h =
    (refl, of_outcome (append_locked x io s k raw false) h)
  where
    of_outcome : (o : Outcome) → appended_raw x o ≡ (s', ok tt) → o ≡ (s', ok tt)
    of_outcome (t, ok tt) h = cc h
    of_outcome (t, err e) h = cc h

pub append_record-append_locked :
    (x : FuseLibrary) (io : Io) (s s' : Store) (k : Key) (raw : Bytes)
    → append_record x io s k raw ≡ (s', ok tt)
    → (r : Record) × (parse_record raw ≡ ok r)
      × (r.key ≡ k)
      × (length raw ≡ rec_header_size + r.slen)
      × (append_locked x io s k raw false ≡ (s', ok tt))
unfolding append_record
append_record-append_locked x io s s' k raw h =
    let (checked, appended) = append_checked-ok x io s s' k raw (check_raw x k raw) h in
    let (r, parsed, same_key, same_size) = check_raw-parse_record k raw x checked in
    (r, parsed, same_key, same_size, appended)
