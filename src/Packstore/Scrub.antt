-- ===== src/Packstore/Scrub.antt =====
-- packstore/verify.go: the scrub of sealed segments, and the check of an object against its key. The
-- hash function is a parameter; the context, which can stop a scrub early, is left out.
mod Examples
use amber_store.Prelude.{
  ℕ, zero, suc, ◌+◌, ◌-◌, ◌≤◌, ◌≡◌, refl, ◌∙◌, ap, sym, arith, Bool, true, false, not, ◌&&◌, ◌||◌,
  ◌⊎◌, Option, none, some, List, [], ◌∷◌, ◌++◌, ltb, ◌==◌, length, if◌then◌else◌, slice, Bytes,
  bytes_eq, bytes_eq_iff, All, Result, ok, err, ◌>>=◌, ◌>>◌, fail_if, wrap, Bool-cases,
  Result-cases, inl, inr, >>=-eq-ok, fail_if_inv, wrap_inv, ok-injective, subst, append-nil,
  append_assoc,
}
use amber_store.Key.{Key, KeyError, type_of, payload_length, new_from_hash, blob, xattr_set}
use amber_store.Amberpack.Record.{
  Zstd, RecordError, Record, rec_header_size, parse_record, decode_payload,
}
use amber_store.Packstore.{Object, magic_header}
use amber_store.Packstore.Index.{IndexEntry, build_index_section}
use amber_store.Packstore.Filter.{FuseLibrary, filter_key}
use amber_store.Packstore.Footer.{SealedSegment}
use amber_store.Packstore.Store.{Store}

pub data VerifyError : Type 0 where
  closed wrong_hash wrong_length filter_misses : VerifyError
  wrong_end wrong_count index_differs : VerifyError
  bad_key : KeyError → VerifyError
  bad_record : RecordError → VerifyError

module _ (hash_of : Bytes → Bytes) where
  -- verifyObject
  unfoldable pub verify_object : Object → Result VerifyError (Unit {0})
  verify_object o = do
    want ←
        wrap bad_key (new_from_hash (type_of o.key) (payload_length o.key) (hash_of o.data_bytes))
    fail_if (not (bytes_eq want o.key)) wrong_hash
    fail_if
        ((type_of o.key == blob || type_of o.key == xattr_set)
          && not (payload_length o.key == length o.data_bytes))
        wrong_length

  module _ (x : FuseLibrary) (z : Zstd) (g : SealedSegment) where
    -- One round of the walk: the row of the record at an offset.
    unfoldable pub verify_record : ℕ → Result VerifyError IndexEntry
    unfolding verify_object
    verify_record off = do
      rec ← wrap bad_record (parse_record (slice g.mm off g.fv.body_len))
      payload ← wrap bad_record (
          decode_payload z rec.flags rec.ulen
            (slice g.mm (off + rec_header_size) (off + rec_header_size + rec.slen)))
      verify_object (record { key = rec.key; data_bytes = payload })
      fail_if (not (x.contains g.fv.filter (filter_key rec.key))) filter_misses
      ok (record { k = rec.key; off = off; slen = rec.slen })

    unfoldable pub verify_from : ℕ → ℕ → List IndexEntry → Result VerifyError (ℕ × List IndexEntry)
    unfolding verify_record
    verify_from zero off entries = ok (off, entries)
    verify_from (suc f) off entries = if not (ltb off g.fv.body_len) then ok (off, entries) else do
      e ← verify_record off
      verify_from f (off + (rec_header_size + e.slen)) (entries ++ (e ∷ []))

    -- sealedSegment.verify
    unfoldable pub verify_segment : Result VerifyError (Unit {0})
    unfolding verify_from
    verify_segment = do
      (end, entries) ← verify_from g.fv.body_len (length magic_header) []
      fail_if (not (end == g.fv.body_len)) wrong_end
      fail_if (not (length entries == g.fv.key_count)) wrong_count
      fail_if
          (not (
            bytes_eq (build_index_section entries)
              (slice g.mm g.fv.index_off (g.fv.index_off + g.fv.index_len))))
          index_differs

  unfoldable pub verify_all :
      FuseLibrary → Zstd → List SealedSegment → Result VerifyError (Unit {0})
  unfolding verify_segment
  verify_all x z [] = ok tt
  verify_all x z (g ∷ gs) = do verify_segment x z g; verify_all x z gs

  -- Store.Verify
  unfoldable pub verify_store : FuseLibrary → Zstd → Store → Result VerifyError (Unit {0})
  unfolding verify_all
  verify_store x z s = if s.is_closed then err closed else verify_all x z s.sealed

-- The record of a row is in the body, decodes, is named by the hash of its payload, and passes the
-- filter; where the length in its key is the payload's, it is right.
pub record IsVerified (hash_of : Bytes → Bytes) (x : FuseLibrary) (z : Zstd) (g : SealedSegment)
    (e : IndexEntry) : Type 0 where
  pub row : Record
  pub payload : Bytes
  pub parsed : parse_record (slice g.mm e.off g.fv.body_len) ≡ ok row
  pub same_key : row.key ≡ e.k
  pub same_size : row.slen ≡ e.slen
  pub decoded :
      decode_payload z row.flags row.ulen
        (slice g.mm (e.off + rec_header_size) (e.off + rec_header_size + e.slen))
      ≡ ok payload
  pub named : new_from_hash (type_of e.k) (payload_length e.k) (hash_of payload) ≡ ok e.k
  pub length_field :
      (type_of e.k ≡ blob) ⊎ (type_of e.k ≡ xattr_set) → payload_length e.k ≡ length payload
  pub passes : x.contains g.fv.filter (filter_key e.k) ≡ true

-- The records of the rows follow one another, without a gap, from one offset to the other.
abbrev pub IsTiling : ℕ → List IndexEntry → ℕ → Type 0
IsTiling off [] end = off ≡ end
IsTiling off (e ∷ es) end = (e.off ≡ off) × IsTiling (off + (rec_header_size + e.slen)) es end

bind_unit :
    {A : Type 0} (m : Result VerifyError (Unit {0})) (next : Result VerifyError A) {y : A}
    → (m >> next) ≡ ok y
    → (m ≡ ok tt) × (next ≡ ok y)
bind_unit (ok tt) next h = (refl, h)
bind_unit (err e) next h = absurd (cc h)

same_bytes : (cs ds : Bytes) → not (bytes_eq cs ds) ≡ false → cs ≡ ds
same_bytes cs ds h = ground (arith, h, bytes_eq_iff cs ds)

fail_if_ok : (c : Bool) (e : VerifyError) → fail_if c e ≡ ok tt → c ≡ false
fail_if_ok true e h = absurd (cc h)
fail_if_ok false e h = refl

verify_object-named :
    (hash_of : Bytes → Bytes) (o : Object)
    → verify_object hash_of o ≡ ok tt
    → (new_from_hash (type_of o.key) (payload_length o.key) (hash_of o.data_bytes) ≡ ok o.key)
      × ((type_of o.key ≡ blob) ⊎ (type_of o.key ≡ xattr_set)
          → payload_length o.key ≡ length o.data_bytes)
unfolding verify_object
verify_object-named hash_of o h =
    let (want, made, checks) =
      >>=-eq-ok
        (wrap bad_key (new_from_hash (type_of o.key) (payload_length o.key) (hash_of o.data_bytes)))
        _ h in
    let (same, lengths) = fail_if_inv (not (bytes_eq want o.key)) wrong_hash _ checks in
    let right : ((type_of o.key == blob || type_of o.key == xattr_set)
          && not (payload_length o.key == length o.data_bytes))
        ≡ false =
      fail_if_ok _ wrong_length lengths in
    (
      wrap_inv bad_key (new_from_hash (type_of o.key) (payload_length o.key) (hash_of o.data_bytes))
            made
          ∙ ap ok (ground (arith, same, bytes_eq_iff want o.key)),
      λ kind. elim kind [
        | inl is_blob ↦ ground (arith, right, is_blob)
        | inr is_set ↦ ground (arith, right, is_set)
      ],
    )

module _ (hash_of : Bytes → Bytes) (x : FuseLibrary) (z : Zstd) (g : SealedSegment) where
  verify_record-IsVerified :
      (off : ℕ) (e : IndexEntry)
      → verify_record hash_of x z g off ≡ ok e
      → (e.off ≡ off) × IsVerified hash_of x z g e
  unfolding verify_record
  verify_record-IsVerified off e h =
      let (row, read, after_read) =
        >>=-eq-ok (wrap bad_record (parse_record (slice g.mm off g.fv.body_len))) _ h in
      let (payload, unpacked, after_payload) =
        >>=-eq-ok
          (wrap bad_record (
            decode_payload z row.flags row.ulen
              (slice g.mm (off + rec_header_size) (off + rec_header_size + row.slen))))
          _ after_read in
      let (checked, after_object) =
        bind_unit (verify_object hash_of (record { key = row.key; data_bytes = payload })) _
          after_payload in
      let object =
        verify_object-named hash_of (record { key = row.key; data_bytes = payload }) checked in
      let (passed, made) =
        fail_if_inv (not (x.contains g.fv.filter (filter_key row.key))) filter_misses _
          after_object in
      let result : record { k = row.key; off = off; slen = row.slen } ≡ e = ok-injective made in
      subst (λ (t : IndexEntry). (t.off ≡ off) × IsVerified hash_of x z g t) result
        (
          refl,
          record {
            row = row;
            payload = payload;
            parsed = wrap_inv bad_record (parse_record (slice g.mm off g.fv.body_len)) read;
            same_key = refl;
            same_size = refl;
            decoded =
                wrap_inv bad_record
                  (decode_payload z row.flags row.ulen
                    (slice g.mm (off + rec_header_size) (off + rec_header_size + row.slen)))
                  unpacked;
            named = object.0;
            length_field = object.1;
            passes = ground (arith, passed);
          },
        )

  verify_from-IsVerified :
      (f off end : ℕ) (acc es : List IndexEntry)
      → verify_from hash_of x z g f off acc ≡ ok (end, es)
      → (new : List IndexEntry) × (es ≡ acc ++ new)
        × All (IsVerified hash_of x z g) new
        × IsTiling off new end
  unfolding verify_from
  verify_from-IsVerified zero off end acc es h = ([], sym (cc h) ∙ sym (append-nil acc), tt, cc h)
  verify_from-IsVerified (suc f) off end acc es h =
      elim (Bool-cases (not (ltb off g.fv.body_len))) [
        | inl done ↦
            let stopped : ◌≡◌ {A = Result VerifyError (ℕ × List IndexEntry)} (ok (off, acc))
                (ok (end, es)) =
              rw done at h in
            ([], sym (cc stopped) ∙ sym (append-nil acc), tt, cc stopped)
        | inr more ↦
            let (e, found, rest) =
              >>=-eq-ok (verify_record hash_of x z g off)
                (λ e.
                  verify_from hash_of x z g f (off + (rec_header_size + e.slen)) (acc ++ (e ∷ [])))
                (rw more at h) in
            let (at, verified) = verify_record-IsVerified off e found in
            let (new, same, all, tiled) =
              verify_from-IsVerified f (off + (rec_header_size + e.slen)) end (acc ++ (e ∷ [])) es
                rest in
            (e ∷ new, same ∙ append_assoc acc (e ∷ []) new, (verified, all), (at, tiled))
      ]

  -- A segment that the scrub passes is a gapless sequence of valid records, each of which is named by
  -- the hash of its payload, has the length of the payload in its key if it is a blob or an xattr set,
  -- and passes the filter; its index section is the one built of exactly these
  -- records, and its trailer has their number.
  pub verify_segment-IsVerified :
      verify_segment hash_of x z g ≡ ok tt
      → (entries : List IndexEntry) × All (IsVerified hash_of x z g) entries
        × IsTiling (length magic_header) entries g.fv.body_len
        × (length entries ≡ g.fv.key_count)
        × (build_index_section entries
            ≡ slice g.mm g.fv.index_off (g.fv.index_off + g.fv.index_len))
  unfolding verify_segment
  verify_segment-IsVerified h =
      let ((end, entries), walked, checks) =
        >>=-eq-ok (verify_from hash_of x z g g.fv.body_len (length magic_header) []) _ h in
      let (ends, counted) = fail_if_inv (not (end == g.fv.body_len)) wrong_end _ checks in
      let (counts, compared) =
        fail_if_inv (not (length entries == g.fv.key_count)) wrong_count _ counted in
      let (new, same, all, tiled) =
        verify_from-IsVerified g.fv.body_len (length magic_header) end [] entries walked in
      let whole : end ≡ g.fv.body_len = ground (arith, ends) in
      let built : Bytes = build_index_section entries in
      let stored : Bytes = slice g.mm g.fv.index_off (g.fv.index_off + g.fv.index_len) in
      let alike : not (bytes_eq built stored) ≡ false =
        fail_if_ok (not (bytes_eq built stored)) index_differs compared in
      (
        entries,
        subst (All (IsVerified hash_of x z g)) (sym same) all,
        subst (λ l. IsTiling (length magic_header) l g.fv.body_len) (sym same)
            (subst (IsTiling (length magic_header) new) whole tiled),
        ground (arith, counts),
        same_bytes built stored alike,
      )

  verify_from-round :
      (f n off : ℕ) (acc : List IndexEntry)
      → ((e : IndexEntry)
          → verify_from hash_of x z g n (off + (rec_header_size + e.slen)) (acc ++ (e ∷ []))
            ≡ verify_from hash_of x z g f (off + (rec_header_size + e.slen)) (acc ++ (e ∷ [])))
      → verify_from hash_of x z g (suc n) off acc ≡ verify_from hash_of x z g (suc f) off acc
  unfolding verify_from
  verify_from-round f n off acc later = elim (Result-cases (verify_record hash_of x z g off)) [
    | inl (e, found) ↦ ground (arith, found, later e)
    | inr (e, failed) ↦ ground (arith, failed)
  ]

  -- As many rounds as the body has bytes behind the offset are enough for the walk: more rounds change
  -- nothing.
  pub verify_from-enough :
      (f more off : ℕ) (acc : List IndexEntry)
      → g.fv.body_len ≤ off + f
      → verify_from hash_of x z g (f + more) off acc ≡ verify_from hash_of x z g f off acc
  unfolding verify_from
  verify_from-enough zero zero off acc le = refl
  verify_from-enough zero (suc more) off acc le = ground (arith, le)
  verify_from-enough (suc f) more off acc le =
      let shift : suc f + more ≡ suc (f + more) = omega arith in
      ap (λ n. verify_from hash_of x z g n off acc) shift
      ∙ verify_from-round f (f + more) off acc (λ e.
        verify_from-enough f more (off + (rec_header_size + e.slen)) (acc ++ (e ∷ []))
          (omega arith))
