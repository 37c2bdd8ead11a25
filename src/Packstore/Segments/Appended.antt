-- ===== src/Packstore/Segments/Appended.antt =====
-- What a store reads after `AppendRecord` of packstore/gc.go.
use amber_store.Prelude.{
  ◌+◌, ◌≡◌, ◌≢◌, ◌⊎◌, refl, err, ◌==◌, bytes_eq_iff, sym, ◌∙◌, ap, subst, arith, Bool, true, false,
  not, ◌&&◌, inl, inr, some, drop, if◌then◌else◌, length, Bytes, bytes_eq, Result, ok, Bool-cases,
  Option, Option-cases,
}
use amber_store.Key.{Key}
use amber_store.Key.Fields.{IsArray32}
use amber_store.Amberpack.Record.{Zstd, Record, rec_header_size, parse_record, decode_payload}
use amber_store.Packstore.Filter.{FuseLibrary}
use amber_store.Packstore.Store.{
  Store, StoreError, Io, in_active, read_object, Outcome, append_locked, append_creating,
  append_active, append_to, append_unless,
}
use amber_store.Packstore.Store.Sealing.{IsRecordOf}
use amber_store.Packstore.Store.Reads.{IsWritable}
use amber_store.Packstore.Store.Refinement.{HasRoom, append_locked-Updates}
use amber_store.Packstore.Compact.Records.{all_of}
use amber_store.Packstore.Segments.{
  SegmentError, append_failed, wrong_key, wrong_size, check_raw, append_checked, appended_raw,
  append_record, append_record-append_locked,
}

-- A record that the checks let through is one of the payload that it decodes to.
checked-IsRecordOf :
    (z : Zstd) (r : Record) (d raw : Bytes)
    → parse_record raw ≡ ok r
    → length raw ≡ rec_header_size + r.slen
    → decode_payload z r.flags r.ulen (drop 46 raw) ≡ ok d
    → IsRecordOf z d raw
checked-IsRecordOf z r d raw parsed exact decoded = record {
  row = r;
  parsed = parsed;
  exact = exact;
  payload = ap (decode_payload z r.flags r.ulen) (sym (all_of 46 r.slen raw exact)) ∙ decoded;
}

-- A key that the active segment has is not appended again.
append_locked-again :
    (x : FuseLibrary) (io : Io) (s s' : Store) (k : Key) (raw : Bytes) (sync_now : Bool)
    → in_active x s.active k ≡ true
    → append_locked x io s k raw sync_now ≡ (s', ok tt)
    → s' ≡ s
unfolding append_locked append_creating append_active append_to append_unless in_active
append_locked-again x io s s' k raw sync_now stored done = elim (Option-cases s.active) [
  | inl missing ↦ absurd (ground (arith, missing, stored))
  | inr (a, here) ↦ ground (arith, here, stored, done)
]

if_new :
    (c b : Bool) (old : Result StoreError (Option Bytes)) (d : Bytes)
    → b ≡ false
    → (if c then ok (some d) else old) ≡ (if c && not b then ok (some d) else old)
if_new c b old d h = ground (arith, h)

if_again :
    (c b : Bool) (old : Result StoreError (Option Bytes)) (d : Bytes)
    → b ≡ true
    → old ≡ (if c && not b then ok (some d) else old)
if_again c b old d h = ground (arith, h)

append_record-read_object :
    (x : FuseLibrary) (z : Zstd) (io : Io) (s s' : Store) (k : Key) (raw d : Bytes) (r : Record)
    → IsWritable z s.active
    → HasRoom s.active
    → IsArray32 k
    → parse_record raw ≡ ok r
    → decode_payload z r.flags r.ulen (drop 46 raw) ≡ ok d
    → append_record x io s k raw ≡ (s', ok tt)
    → (r.key ≡ k)
      × IsWritable z s'.active
      × ((j : Key)
          → IsArray32 j
          → read_object x z s' j ≡ (
              if bytes_eq k j && not (in_active x s.active k)
              then ok (some d)
              else read_object x z s j))
append_record-read_object x z io s s' k raw d r h room array parsed decoded done =
    let (r', parsed', key, exact, appended) = append_record-append_locked x io s s' k raw done in
    let same : r' ≡ r = ground (arith, parsed, parsed') in
    let record_of : IsRecordOf z d raw =
      checked-IsRecordOf z r d raw parsed
        (exact ∙ ap (λ (q : Record). rec_header_size + q.slen) same) decoded in
    let owner : r.key ≡ k = sym (ap (λ (q : Record). q.key) same) ∙ key in
    elim (Bool-cases (in_active x s.active k)) [
      | inl stored ↦
          let unchanged : s' ≡ s = append_locked-again x io s s' k raw false stored appended in
          (
            owner,
            subst (λ (t : Store). IsWritable z t.active) (sym unchanged) h,
            λ j array'.
                ap (λ (t : Store). read_object x z t j) unchanged
                ∙ if_again (bytes_eq k j) (in_active x s.active k) (read_object x z s j) d stored,
          )
      | inr new ↦
          let (writable, reads) =
            append_locked-Updates x z io s s' k d raw false h room array new record_of appended in
          (
            owner,
            writable,
            λ j array'.
                reads j array'
                ∙ if_new (bytes_eq k j) (in_active x s.active k) (read_object x z s j) d new,
          )
    ]

-- What becomes of a call of `AppendRecord` with an encoded record.
pub data Appends (x : FuseLibrary) (z : Zstd) (io : Io) (s : Store) (k : Key) (raw d : Bytes)
    (r : Record) : Type 0 where
  refused :
      (e : SegmentError)
      → (r.key ≢ k) ⊎ (length raw ≢ rec_header_size + r.slen)
      → append_record x io s k raw ≡ (s, err e)
      → Appends x z io s k raw d r
  failed :
      (t : Store) (e : StoreError)
      → r.key ≡ k
      → length raw ≡ rec_header_size + r.slen
      → append_locked x io s k raw false ≡ (t, err e)
      → append_record x io s k raw ≡ (t, err (append_failed e))
      → Appends x z io s k raw d r
  appended_record :
      (t : Store)
      → r.key ≡ k
      → length raw ≡ rec_header_size + r.slen
      → append_record x io s k raw ≡ (t, ok tt)
      → IsWritable z t.active
      → ((j : Key)
          → IsArray32 j
          → read_object x z t j ≡ (
              if bytes_eq k j && not (in_active x s.active k)
              then ok (some d)
              else read_object x z s j))
      → Appends x z io s k raw d r

-- The checks refuse a record of another key or length, and no other.
check_raw-cases :
    (x : FuseLibrary) (k : Key) (raw : Bytes) (r : Record)
    → parse_record raw ≡ ok r
    → ((check_raw x k raw ≡ ok tt) × (r.key ≡ k) × (length raw ≡ rec_header_size + r.slen))
      ⊎ ((e : SegmentError) × (check_raw x k raw ≡ err e)
          × ((r.key ≢ k) ⊎ (length raw ≢ rec_header_size + r.slen)))
unfolding check_raw
check_raw-cases x k raw r parsed = elim (Bool-cases (bytes_eq r.key k)) [
  | inl same ↦ elim (Bool-cases (length raw == rec_header_size + r.slen)) [
    | inl exact ↦
        inl (
          ground (arith, parsed, same, exact),
          (bytes_eq_iff r.key k).0 same,
          ground (arith, exact),
        )
    | inr short ↦ inr (
      wrong_size,
      ground (arith, parsed, same, short),
      inr (λ (h : length raw ≡ rec_header_size + r.slen). ground (arith, h, short)),
    )
  ]
  | inr other ↦ inr (
    wrong_key,
    ground (arith, parsed, other),
    inl (λ (h : r.key ≡ k). ground (arith, h, other, bytes_eq_iff r.key k)),
  )
]

append_record-checked :
    (x : FuseLibrary) (io : Io) (s : Store) (k : Key) (raw : Bytes)
    (c : Result SegmentError (Unit {0}))
    → check_raw x k raw ≡ c
    → append_record x io s k raw ≡ append_checked x io s k raw c
unfolding append_record
append_record-checked x io s k raw c h = ap (append_checked x io s k raw) h

append_checked-done :
    (x : FuseLibrary) (io : Io) (s : Store) (k : Key) (raw : Bytes) (o : Outcome)
    → append_locked x io s k raw false ≡ o
    → append_checked x io s k raw (ok tt) ≡ appended_raw x o
unfolding append_checked
append_checked-done x io s k raw o h = ap (appended_raw x) h

appended_raw-err :
    (x : FuseLibrary) (t : Store) (e : StoreError)
    → appended_raw x (t, err e) ≡ (t, err (append_failed e))
unfolding appended_raw
appended_raw-err x t e = refl

appended_raw-ok :
    (x : FuseLibrary) (t : Store) (u : Unit {0}) → appended_raw x (t, ok u) ≡ (t, ok tt)
unfolding appended_raw
appended_raw-ok x t u = refl

append_checked-refused :
    (x : FuseLibrary) (io : Io) (s : Store) (k : Key) (raw : Bytes) (e : SegmentError)
    → append_checked x io s k raw (err e) ≡ (s, err e)
unfolding append_checked
append_checked-refused x io s k raw e = refl

-- An encoded record that parses and decodes to a payload, given to `AppendRecord` for a 32-byte key on
-- a store whose active segment is well formed and away from the limits of its format. The call is
-- refused, and the store unchanged, exactly if the record is of another key or the bytes are not just
-- the record. Else it fails with the error of the append, if that fails, or it succeeds, whatever the
-- system calls answered and whether or not the segment was sealed: then the store is again well
-- formed, and it reads the payload at the key if the active segment did not have the key, and every
-- other 32-byte key, and a key of the active segment, as before.
pub append_record-Appends :
    (x : FuseLibrary) (z : Zstd) (io : Io) (s : Store) (k : Key) (raw d : Bytes) (r : Record)
    → IsWritable z s.active
    → HasRoom s.active
    → IsArray32 k
    → parse_record raw ≡ ok r
    → decode_payload z r.flags r.ulen (drop 46 raw) ≡ ok d
    → Appends x z io s k raw d r
append_record-Appends x z io s k raw d r h room array parsed decoded =
    elim (check_raw-cases x k raw r parsed) [
      | inr (e, bad, why) ↦
          refused e why
            (append_record-checked x io s k raw (err e) bad ∙ append_checked-refused x io s k raw e)
      | inl (good, key, exact) ↦
          outcome key exact (append_record-checked x io s k raw (ok tt) good)
            (append_locked x io s k raw false) refl
    ]
  where
    outcome :
        r.key ≡ k
        → length raw ≡ rec_header_size + r.slen
        → append_record x io s k raw ≡ append_checked x io s k raw (ok tt)
        → (o : Outcome) → append_locked x io s k raw false ≡ o
        → Appends x z io s k raw d r
    outcome key exact goes (t, err e) at =
        failed t e key exact at
          (goes ∙ append_checked-done x io s k raw (t, err e) at ∙ appended_raw-err x t e)
    outcome key exact goes (t, ok u) at =
        let done : append_record x io s k raw ≡ (t, ok tt) =
          goes ∙ append_checked-done x io s k raw (t, ok u) at ∙ appended_raw-ok x t u in
        let (_, writable, reads) =
          append_record-read_object x z io s t k raw d r h room array parsed decoded done in
        appended_record t key exact done writable reads
