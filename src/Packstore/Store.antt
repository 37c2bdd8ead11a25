-- ===== src/Packstore/Store.antt =====
-- packstore/packstore.go and packstore/barrier.go: the store of one active and many sealed segments,
-- as a state that every operation returns. Calls run one at a time, as under the store's locks. A file
-- is its bytes; what the operating system answers to the calls of an operation is an `Io`. The
-- directory, the start times of writes and the counters of walks are left out.
pub mod Sealing
pub mod Puts
pub mod Reads
pub mod Refinement
pub mod PutGet
pub mod Examples
use amber_store.Prelude.{
  ℕ, zero, suc, ◌+◌, ◌-◌, Bool, true, false, not, ◌&&◌, ◌||◌, Option, none, some, List, [], ◌∷◌,
  ◌++◌, ltb, leb, ◌==◌, length, if◌then◌else◌, get_or, take, drop, slice, Bytes, get_be, bytes_eq,
  Result, ok, err, ◌>>=◌, ◌>>◌, fail_if, wrap,
}
use amber_store.Key.{Key}
use amber_store.Amberpack.Record.{Zstd, RecordError, rec_header_size, encode_record, decode_payload}
use amber_store.Packstore.{magic_header}
use amber_store.Packstore.Index.{IndexEntry}
use amber_store.Packstore.Filter.{FuseLibrary}
use amber_store.Packstore.Footer.{
  FooterError, ReadError, SealedSegment, build_footer, open_sealed, has, get,
}
use amber_store.Packstore.Recover.{ActiveLoc, LocIndex, loc_of, put_loc}

pub data StoreError : Type 0 where
  store_closed write_path_failed not_found io_failed : StoreError
  bad_footer : FooterError → StoreError
  bad_object : RecordError → StoreError
  bad_segment : ReadError → StoreError

-- The file's bytes beyond `size` are what a failed write left.
pub record ActiveSegment : Type 0 where
  pub id : ℕ
  pub content : Bytes
  pub size : ℕ
  pub index : LocIndex

pub record Store : Type 0 where
  pub segment_size : ℕ
  pub sync : Bool
  pub capturing : Bool
  pub grey : Option (List Key)
  pub sealed : List SealedSegment
  pub active : Option ActiveSegment
  pub next_id : ℕ
  pub is_closed : Bool
  pub has_failed : Bool

-- Which calls succeed, and what a failed write leaves behind the place that it wrote to.
pub record Io : Type 0 where
  pub create_ok : Bool
  pub write_ok : Bool
  pub garbage : Bytes
  pub sync_ok : Bool
  pub truncate_ok : Bool
  pub footer_ok : Bool
  pub footer_garbage : Bytes
  pub footer_sync_ok : Bool
  pub rename_ok : Bool
  pub dir_sync_ok : Bool
  pub close_ok : Bool

abbrev pub Outcome : Type 0
Outcome = Store × Result StoreError (Unit {0})

-- `if err := ...; err != nil { return err }`, with the state so far.
unfoldable pub and_then : Outcome → (Store → Outcome) → Outcome
and_then (s, ok _) f = f s
and_then (s, err e) f = (s, err e)

unfoldable pub set_failed : Store → Store
set_failed s = record s { has_failed = true }

-- An error of the step poisons the write path.
unfoldable pub or_poison : Outcome → Outcome
unfolding set_failed
or_poison (s, ok _) = (s, ok tt)
or_poison (s, err e) = (set_failed s, err e)

unfoldable pub with_active : Store → ActiveSegment → Store
with_active s a = record s { active = some a }

unfoldable pub create_active : Io → Store → Outcome
create_active io s =
    if io.create_ok
    then (
      record s {
        active = some (record {
          id = s.next_id;
          content = magic_header;
          size = length magic_header;
          index = [];
        });
        next_id = s.next_id + 1;
      },
      ok tt,
    )
    else (record s { next_id = s.next_id + 1 }, err io_failed)

-- f.WriteAt(bs, off)
unfoldable pub write_at : Bytes → ℕ → Bytes → Bytes
write_at content off bs = take off content ++ (bs ++ drop (off + length bs) content)

unfoldable pub entries_of : LocIndex → List IndexEntry
entries_of [] = []
entries_of ((k, l) ∷ m) = record { k = k; off = l.off; slen = l.slen } ∷ entries_of m

module _ (x : FuseLibrary) where
  -- The swap; a file that cannot be opened leaves the segment active.
  unfoldable pub swap_sealed : Io → Store → Store → Result FooterError SealedSegment → Outcome
  swap_sealed io s s' (err e) = (s', err (bad_footer e))
  swap_sealed io s s' (ok g) = (
    record s { sealed = s.sealed ++ (g ∷ []); active = none },
    if io.close_ok then ok tt else err io_failed,
  )

  -- From the written footer on: fsync, rename, fsync of the directory, open, swap, close.
  unfoldable pub publish_sealed : Io → Store → ActiveSegment → Bytes → Outcome
  unfolding swap_sealed
  publish_sealed io s a whole =
      let s' = record s { active = some (record a { content = whole }) } in
      if not (io.footer_sync_ok && io.rename_ok && io.dir_sync_ok)
      then (s', err io_failed)
      else swap_sealed io s s' (open_sealed a.id whole)

  unfoldable pub write_footer : Io → Store → ActiveSegment → Result FooterError Bytes → Outcome
  unfolding publish_sealed with_active
  write_footer io s a (err e) = (s, err (bad_footer e))
  write_footer io s a (ok footer) =
      let body = take a.size a.content in
      if not io.truncate_ok
      then (s, err io_failed)
      else if not io.footer_ok
      then (with_active s (record a { content = body ++ io.footer_garbage }), err io_failed)
      else publish_sealed io s a (body ++ footer)

  unfoldable pub seal_segment : Io → Store → ActiveSegment → Outcome
  unfolding write_footer
  seal_segment io s a =
      if length a.index == 0
      then (s, ok tt)
      else write_footer io s a (build_footer x a.size (entries_of a.index))

  unfoldable pub seal_option : Io → Store → Option ActiveSegment → Outcome
  unfolding seal_segment
  seal_option io s none = (s, ok tt)
  seal_option io s (some a) = seal_segment io s a

  -- sealActiveLocked
  unfoldable pub seal_active : Io → Store → Outcome
  unfolding seal_option
  seal_active io s = seal_option io s s.active

  unfoldable pub seal_if_full : Io → Store → ℕ → Outcome
  unfolding or_poison seal_active
  seal_if_full io s size =
      if leb s.segment_size size then or_poison (seal_active io s) else (s, ok tt)

  -- A record that is not in the active index yet.
  unfoldable pub write_record : Io → Store → ActiveSegment → Key → Bytes → Bool → Outcome
  unfolding seal_if_full with_active write_at set_failed
  write_record io s a k rec sync_now =
      let off = a.size in
      let loc : ActiveLoc = record {
        off = off;
        flags = get_or rec 33 0;
        ulen = get_be (slice rec 34 38);
        slen = get_be (slice rec 38 42);
      } in
      let size = off + length rec in
      let a' = record a {
        content = write_at a.content off rec;
        size = size;
        index = put_loc a.index k loc;
      } in
      let s' = with_active s a' in
      if not io.write_ok
      then (with_active s (record a { content = take off a.content ++ io.garbage }), err io_failed)
      else if sync_now && s.sync && not io.sync_ok
      then (set_failed s', err io_failed)
      else seal_if_full io s' size

  unfoldable pub append_unless :
      Io → Key → Bytes → Bool → Store → ActiveSegment → Option ActiveLoc → Outcome
  unfolding write_record
  append_unless io k rec sync_now s a (some _) = (s, ok tt)
  append_unless io k rec sync_now s a none = write_record io s a k rec sync_now

  -- There is an active segment where this is called.
  unfoldable pub append_to : Io → Key → Bytes → Bool → Store → Option ActiveSegment → Outcome
  unfolding append_unless
  append_to io k rec sync_now s none = (s, ok tt)
  append_to io k rec sync_now s (some a) = append_unless io k rec sync_now s a (loc_of a.index k)

  unfoldable pub append_active : Io → Key → Bytes → Bool → Store → Outcome
  unfolding append_to
  append_active io k rec sync_now s = append_to io k rec sync_now s s.active

  unfoldable pub append_creating : Io → Key → Bytes → Bool → Store → Option ActiveSegment → Outcome
  unfolding append_active create_active and_then
  append_creating io k rec sync_now s none =
      and_then (create_active io s) (append_active io k rec sync_now)
  append_creating io k rec sync_now s (some _) = append_active io k rec sync_now s

  unfoldable pub append_locked : Io → Store → Key → Bytes → Bool → Outcome
  unfolding append_creating
  append_locked io s k rec sync_now =
      if s.is_closed
      then (s, err store_closed)
      else if s.has_failed
      then (s, err write_path_failed)
      else append_creating io k rec sync_now s s.active

  unfoldable pub any_sealed : List SealedSegment → Key → Bool
  any_sealed [] k = false
  any_sealed (g ∷ gs) k = any_sealed gs k || has x g k

  unfoldable pub in_active : Option ActiveSegment → Key → Bool
  in_active none k = false
  in_active (some a) k = elim (loc_of a.index k) [ some _ ↦ true | none ↦ false ]

  -- Store.Has
  unfoldable pub has_object : Store → Key → Result StoreError Bool
  unfolding any_sealed in_active
  has_object s k =
      if s.is_closed then err store_closed else ok (in_active s.active k || any_sealed s.sealed k)

  module _ (z : Zstd) where
    -- A read past the end of the file fails, one of no bytes does not.
    unfoldable pub read_loc : ActiveSegment → Option ActiveLoc → Result StoreError (Option Bytes)
    read_loc a none = ok none
    read_loc a (some loc) = do
      fail_if (ltb 0 loc.slen && ltb (length a.content) (loc.off + rec_header_size + loc.slen))
          io_failed
      d ← wrap bad_object (
          decode_payload z loc.flags loc.ulen
            (slice a.content (loc.off + rec_header_size) (loc.off + rec_header_size + loc.slen)))
      ok (some d)

    -- What the index of the active segment leads to.
    unfoldable pub read_active : Option ActiveSegment → Key → Result StoreError (Option Bytes)
    unfolding read_loc
    read_active none k = ok none
    read_active (some a) k = read_loc a (loc_of a.index k)

    unfoldable pub or_else :
        Result StoreError (Option Bytes)
        → Result StoreError (Option Bytes)
        → Result StoreError (Option Bytes)
    or_else (ok (some d)) later = ok (some d)
    or_else (ok none) later = later
    or_else (err e) later = err e

    -- The newest segment, the last one, is asked first.
    unfoldable pub read_sealed : List SealedSegment → Key → Result StoreError (Option Bytes)
    unfolding or_else
    read_sealed [] k = ok none
    read_sealed (g ∷ gs) k = or_else (read_sealed gs k) (wrap bad_segment (get x g z k))

    unfoldable pub read_object : Store → Key → Result StoreError (Option Bytes)
    unfolding read_active read_sealed or_else
    read_object s k = or_else (read_active s.active k) (read_sealed s.sealed k)

    -- Store.Get
    unfoldable pub get_object : Store → Key → Result StoreError Bytes
    unfolding read_object
    get_object s k =
        if s.is_closed
        then err store_closed
        else elim (read_object s k) [ ok (some d) ↦ ok d | ok none ↦ err not_found | err e ↦ err e ]

    unfoldable pub append_encoded : Io → Store → Key → Result RecordError Bytes → Outcome
    unfolding append_locked
    append_encoded io s k (err e) = (s, err (bad_object e))
    append_encoded io s k (ok rec) = append_locked io s k rec true

  -- A set of keys, as a list.
  unfoldable pub observe : Store → Key → Store
  observe s k =
      if s.capturing
      then elim s.grey [ none ↦ s | some ks ↦ record s { grey = some (k ∷ ks) } ]
      else s

  unfoldable pub put_new : (z : Zstd) → Io → Store → Key → Bytes → Result StoreError Bool → Outcome
  unfolding append_encoded
  put_new z io s k d (err e) = (s, err e)
  put_new z io s k d (ok true) = (s, ok tt)
  put_new z io s k d (ok false) = append_encoded z io s k (encode_record z k d)

  -- Store.Put
  unfoldable pub put_object : (z : Zstd) → Io → Store → Key → Bytes → Outcome
  unfolding put_new observe
  put_object z io s k d =
      let s' = observe s k in
      if s.has_failed then (s, err write_path_failed) else put_new z io s' k d (has_object s' k)
