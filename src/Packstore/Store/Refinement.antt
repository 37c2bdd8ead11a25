-- ===== src/Packstore/Store/Refinement.antt =====
-- `Put` refines the update of a map that keeps the first value of a key.
use amber_store.Prelude.{
  ℕ, suc, ◌+◌, ◌^◌, ◌≤◌, ◌<◌, ◌≡◌, refl, sym, ◌∙◌, ap, subst, arith, Bool, true, false, ◌||◌, ◌⊎◌,
  inl, inr, Option, none, some, [], ◌∷◌, ◌++◌, leb, length, if◌then◌else◌, Bytes, bytes_eq, Result,
  ok, err, Bool-cases, Result-cases, append-nil,
}
use amber_store.Key.{Key, parse as key_parse}
use amber_store.Key.Fields.{IsArray32}
use amber_store.Amberpack.Record.{Zstd, max_payload, encode_record}
use amber_store.Amberpack.Record.RoundTrip.{
  parse_record-encode_record, IsParsed, parse_record-IsParsed,
}
use amber_store.Packstore.{magic_header}
use amber_store.Packstore.Filter.{FuseLibrary}
use amber_store.Packstore.Recover.{ActiveLoc, LocIndex, loc_of, put_loc}
use amber_store.Packstore.Store.{
  ActiveSegment, Store, StoreError, Io, Outcome, and_then, or_poison, with_active, create_active,
  seal_segment, seal_option, seal_active, seal_if_full, write_record, append_unless, append_to,
  append_active, append_creating, append_locked, any_sealed, in_active, has_object, read_active,
  read_sealed, read_object, or_else, append_encoded, observe, put_new, entries_of, read_loc,
}
use amber_store.Packstore.Store.Sealing.{IsRecordOf, IsActive}
use amber_store.Packstore.Store.Puts.{appended, appended-IsActive, appended-reads}
use amber_store.Packstore.Store.Reads.{IsWritable, seal_segment-reads, read_object-active}

-- The active segment is not near the limits of its format.
abbrev pub HasRoom : Option ActiveSegment → Type 0
HasRoom none = Unit {0}
HasRoom (some a) = (a.size < 2 ^ 62) × (length a.index < 2 ^ 31)

pub or_poison_inv :
    (x : FuseLibrary) (o : Outcome) (s' : Store) → or_poison o ≡ (s', ok tt) → o ≡ (s', ok tt)
unfolding or_poison
or_poison_inv x (s, ok u) s' h = ground (arith, h)
or_poison_inv x (s, err e) s' h = cc h

pub seal_if_full_inv :
    (x : FuseLibrary) (io : Io) (s s' : Store) (size : ℕ)
    → seal_if_full x io s size ≡ (s', ok tt)
    → (s' ≡ s) ⊎ (seal_active x io s ≡ (s', ok tt))
unfolding seal_if_full
seal_if_full_inv x io s s' size h = elim (Bool-cases (leb s.segment_size size)) [
  | inl full ↦ inr (or_poison_inv x (seal_active x io s) s' (rw full at h))
  | inr small ↦ inl (ground (arith, h, small))
]

pub write_record_inv :
    (x : FuseLibrary) (io : Io) (s s' : Store) (a : ActiveSegment) (k : Key) (rec : Bytes)
    (sync_now : Bool)
    → write_record x io s a k rec sync_now ≡ (s', ok tt)
    → seal_if_full x io (with_active s (appended a k rec)) (a.size + length rec) ≡ (s', ok tt)
unfolding write_record
write_record_inv x io s s' a k rec sync_now h = ground (arith, h)

pub seal_active-some :
    (x : FuseLibrary) (io : Io) (s : Store) (a : ActiveSegment)
    → s.active ≡ some a
    → seal_active x io s ≡ seal_segment x io s a
unfolding seal_active seal_option
seal_active-some x io s a h = rw h

pub length-put_loc :
    (m : LocIndex) (k : Key) (l : ActiveLoc) → length (put_loc m k l) ≤ suc (length m)
unfolding put_loc
length-put_loc [] k l = omega arith
length-put_loc ((j, i) ∷ m) k l = ground (arith, length-put_loc m k l)

pub encode_record-IsRecordOf :
    (z : Zstd) (k : Key) (d rec : Bytes)
    → key_parse k ≡ ok k
    → encode_record z k d ≡ ok rec
    → IsRecordOf z d rec
encode_record-IsRecordOf z k d rec hk e =
    let (r, back) = parse_record-encode_record z k d rec [] hk e in
    let at_end : rec ++ [] ≡ rec = append-nil rec in
    record {
      row = r;
      parsed = rw at_end at back.parsed;
      exact = back.record_length;
      payload = rw at_end at back.decoded_payload;
    }

pub IsRecordOf-length :
    (z : Zstd) (d rec : Bytes) → IsRecordOf z d rec → length rec ≤ 46 + max_payload
IsRecordOf-length z d rec e =
    let facts : IsParsed rec e.row = parse_record-IsParsed rec e.row e.parsed in
    omega (arith, e.exact, facts.slen_bound, facts.ulen_bound)

-- One step of the map.
abbrev pub Updates : FuseLibrary → Zstd → Store → Store → Key → Bytes → Type 0
Updates x z s s' k d =
    IsWritable z s'.active
    × ((j : Key)
        → IsArray32 j
        → read_object x z s' j ≡ (if bytes_eq k j then ok (some d) else read_object x z s j))

if-or_else :
    (x : FuseLibrary) (z : Zstd) (c : Bool) (d : Bytes) (a b : Result StoreError (Option Bytes))
    → or_else x z (if c then ok (some d) else a) b ≡ (if c then ok (some d) else or_else x z a b)
unfolding or_else
if-or_else x z true d a b = refl
if-or_else x z false d a b = refl

write_record-Updates :
    (x : FuseLibrary) (z : Zstd) (io : Io) (s s' : Store) (a : ActiveSegment) (k : Key)
    (d rec : Bytes) (sync_now : Bool)
    → s.active ≡ some a
    → IsActive z a
    → HasRoom (some a)
    → IsArray32 k
    → loc_of a.index k ≡ none
    → IsRecordOf z d rec
    → write_record x io s a k rec sync_now ≡ (s', ok tt)
    → Updates x z s s' k d
unfolding with_active
write_record-Updates x z io s s' a k d rec sync_now here h room array new e done =
    let a' : ActiveSegment = appended a k rec in
    let s1 : Store = with_active s a' in
    let h' : IsActive z a' = appended-IsActive z a k d rec h array new e in
    let small : a'.size < 2 ^ 63 = omega (arith, room.0, IsRecordOf-length z d rec e) in
    let few : length a'.index < 2 ^ 32 = omega (arith, room.1, length-put_loc a.index k _) in
    let step : (j : Key)
        → read_object x z s1 j ≡ (if bytes_eq k j then ok (some d) else read_object x z s j) =
      λ j.
        read_object-active x z s1 a' j refl
        ∙ ap (λ r. or_else x z r (read_sealed x z s.sealed j))
            (appended-reads x z a k d rec h array new e j)
        ∙ if-or_else x z (bytes_eq k j) d (read_active x z (some a) j) (read_sealed x z s.sealed j)
        ∙ ap (λ r. if bytes_eq k j then ok (some d) else r)
            (sym (read_object-active x z s a j here)) in
    elim (seal_if_full_inv x io s1 s' (a.size + length rec)
      (write_record_inv x io s s' a k rec sync_now done)) [
        | inl same ↦ (
          subst (IsWritable z) (sym (ap (λ t. t.active) same)) h',
          λ j array'. ap (λ t. read_object x z t j) same ∙ step j,
        )
        | inr sealing ↦
            let (writable, reads) =
              seal_segment-reads x z io s1 s' a' refl h' small few
                (sym (seal_active-some x io s1 a' refl) ∙ sealing) in
            (writable, λ j array'. reads j array' ∙ step j)
      ]

pub not_indexed :
    (x : FuseLibrary) (s : Store) (a : ActiveSegment) (k : Key)
    → s.active ≡ some a
    → in_active x s.active k ≡ false
    → loc_of a.index k ≡ none
unfolding in_active
not_indexed x s a k here h = ground (arith, here, h)

append_active-Updates :
    (x : FuseLibrary) (z : Zstd) (io : Io) (s s' : Store) (a : ActiveSegment) (k : Key)
    (d rec : Bytes) (sync_now : Bool)
    → s.active ≡ some a
    → IsActive z a
    → HasRoom (some a)
    → IsArray32 k
    → loc_of a.index k ≡ none
    → IsRecordOf z d rec
    → append_active x io k rec sync_now s ≡ (s', ok tt)
    → Updates x z s s' k d
unfolding append_active append_to append_unless
append_active-Updates x z io s s' a k d rec sync_now here h room array new e done =
    write_record-Updates x z io s s' a k d rec sync_now here h room array new e
      (rw (here, new) at done)

-- The store right after a new active segment was created.
unfoldable pub created : Store → Store
created s = record s {
  active =
      some
        (record { id = s.next_id; content = magic_header; size = length magic_header; index = [] });
  next_id = s.next_id + 1;
}

pub create_inv :
    (io : Io) (s s' : Store) (f : Store → Outcome)
    → and_then (create_active io s) f ≡ (s', ok tt)
    → f (created s) ≡ (s', ok tt)
unfolding and_then create_active created
create_inv io s s' f h = elim (Bool-cases io.create_ok) [
  | inl good ↦ rw good at h
  | inr failed ↦ cc (rw failed at h)
]

pub fresh-IsActive :
    (z : Zstd) (id : ℕ)
    → IsActive z (record { id = id; content = magic_header; size = 8; index = [] })
unfolding entries_of
fresh-IsActive z id = record {
  header = refl;
  long = omega arith;
  written = omega arith;
  records = tt;
  distinct = tt;
}

fresh_reads :
    (x : FuseLibrary) (z : Zstd) (s : Store) (j : Key)
    → s.active ≡ none
    → read_object x z (created s) j ≡ read_object x z s j
unfolding read_object read_active read_loc or_else created loc_of
fresh_reads x z s j h = rw h

append_creating-Updates :
    (x : FuseLibrary) (z : Zstd) (io : Io) (s s' : Store) (o : Option ActiveSegment) (k : Key)
    (d rec : Bytes) (sync_now : Bool)
    → s.active ≡ o
    → IsWritable z o
    → HasRoom o
    → IsArray32 k
    → in_active x s.active k ≡ false
    → IsRecordOf z d rec
    → append_creating x io k rec sync_now s o ≡ (s', ok tt)
    → Updates x z s s' k d
unfolding append_creating created loc_of
append_creating-Updates x z io s s' (some a) k d rec sync_now here h room array new e done =
    append_active-Updates x z io s s' a k d rec sync_now here h room array
      (not_indexed x s a k here new) e done
append_creating-Updates x z io s s' none k d rec sync_now here h room array new e done =
    let fresh : ActiveSegment = record {
      id = s.next_id;
      content = magic_header;
      size = 8;
      index = [];
    } in
    let (writable, reads) =
      append_active-Updates x z io (created s) s' fresh k d rec sync_now refl
        (fresh-IsActive z s.next_id) (omega arith) array refl e
        (create_inv io s s' (append_active x io k rec sync_now) done) in
    (
      writable,
      λ j array'.
          reads j array'
          ∙ ap (λ r. if bytes_eq k j then ok (some d) else r) (fresh_reads x z s j here),
    )

pub append_locked-Updates :
    (x : FuseLibrary) (z : Zstd) (io : Io) (s s' : Store) (k : Key) (d rec : Bytes)
    (sync_now : Bool)
    → IsWritable z s.active
    → HasRoom s.active
    → IsArray32 k
    → in_active x s.active k ≡ false
    → IsRecordOf z d rec
    → append_locked x io s k rec sync_now ≡ (s', ok tt)
    → Updates x z s s' k d
unfolding append_locked
append_locked-Updates x z io s s' k d rec sync_now h room array new e done =
    append_creating-Updates x z io s s' s.active k d rec sync_now refl h room array new e
      (ground (arith, done))

pub observe_keeps :
    (x : FuseLibrary) (s : Store) (k : Key)
    → ((observe x s k).active ≡ s.active)
      × ((observe x s k).sealed ≡ s.sealed)
      × ((observe x s k).is_closed ≡ s.is_closed)
      × ((observe x s k).has_failed ≡ s.has_failed)
unfolding observe
observe_keeps x s k = ground arith

pub observe_reads :
    (x : FuseLibrary) (z : Zstd) (s : Store) (k j : Key)
    → read_object x z (observe x s k) j ≡ read_object x z s j
unfolding read_object
observe_reads x z s k j =
    let (active, segments, _, _) = observe_keeps x s k in rw (active, segments)

-- The store has the key, in the active segment or in a sealed one.
abbrev pub holds : FuseLibrary → Store → Key → Bool
holds x s k = in_active x s.active k || any_sealed x s.sealed k

pub put_new-Updates :
    (x : FuseLibrary) (z : Zstd) (io : Io) (s s' : Store) (k : Key) (d : Bytes)
    (r : Result StoreError Bool)
    → has_object x s k ≡ r
    → IsWritable z s.active
    → HasRoom s.active
    → IsArray32 k
    → key_parse k ≡ ok k
    → put_new x z io s k d r ≡ (s', ok tt)
    → ((r ≡ ok true) × (s' ≡ s)) ⊎ ((r ≡ ok false) × Updates x z s s' k d)
unfolding put_new append_encoded has_object
put_new-Updates x z io s s' k d (err e) found h room array hk done = cc done
put_new-Updates x z io s s' k d (ok true) found h room array hk done =
    inl (refl, ground (arith, done))
put_new-Updates x z io s s' k d (ok false) found h room array hk done =
    elim (Result-cases (encode_record z k d)) [
      | inl (rec, e) ↦ inr (
        refl,
        append_locked-Updates x z io s s' k d rec true h room array (ground (arith, found))
            (encode_record-IsRecordOf z k d rec hk e) (rw e at done),
      )
      | inr (e, failed) ↦ absurd (no_outcome (rw failed at done))
    ]
  where
    no_outcome : {e : StoreError} {t t' : Store} → ◌≡◌ {A = Outcome} (t, err e) (t', ok tt) → ⊥
    no_outcome p = cc p
