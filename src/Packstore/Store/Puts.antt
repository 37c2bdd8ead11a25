-- ===== src/Packstore/Store/Puts.antt =====
-- A successful `Put` changes what the store reads at its key and nowhere else.
use amber_store.Prelude.{
  ℕ, zero, suc, ◌+◌, ◌-◌, ◌≤◌, ◌<◌, ◌≡◌, refl, sym, ◌∙◌, ap, arith, false, ◌||◌, inl, inr, none,
  some, [], ◌∷◌, ◌++◌, length, if◌then◌else◌, get_or, take, drop, slice, Bytes, get_be, bytes_eq,
  bytes_eq_iff, ok, Option-cases, Bool-cases, length-append, length-take, drop-append_exact,
  slice-append_le, slice-take, take-append_le, take-append-drop,
}
use amber_store.Key.{Key}
use amber_store.Key.Fields.{IsArray32}
use amber_store.Amberpack.Record.{Zstd, Record, decode_payload}
use amber_store.Amberpack.Record.RoundTrip.{IsParsed, parse_record-IsParsed}
use amber_store.Packstore.Index.Sorted.{IsDistinct, has_key}
use amber_store.Packstore.Filter.{FuseLibrary}
use amber_store.Packstore.Recover.{ActiveLoc, LocIndex, loc_of, put_loc}
use amber_store.Packstore.Recover.Torn.{loc_of-put_loc, slice-drop}
use amber_store.Packstore.Store.{ActiveSegment, write_at, entries_of, read_active}
use amber_store.Packstore.Store.Sealing.{
  IsRecordOf, IsRecordAt, AllRecords, IsActive, slice-front, active_found, active_missing,
  loc_of-All,
}

-- Records within the front stay where they are when something is written behind it.
records_kept :
    (z : Zstd) (content more : Bytes) (size size' : ℕ) (m : LocIndex)
    → size ≤ length content
    → size ≤ size'
    → AllRecords z content size m
    → AllRecords z (take size content ++ more) size' m
records_kept z content more size size' [] le up h = tt
records_kept z content more size size' ((k, l) ∷ m) le up h =
    let at : IsRecordAt z content size k l = h.0 in
    let head : slice (take size content ++ more) l.off (l.off + 46)
        ≡ slice content l.off (l.off + 46) =
      slice-front content more size l.off (l.off + 46) (omega arith) (omega (arith, at.upto)) le in
    let payload : slice (take size content ++ more) (l.off + 46) (l.off + 46 + l.slen)
        ≡ slice content (l.off + 46) (l.off + 46 + l.slen) =
      slice-front content more size (l.off + 46) (l.off + 46 + l.slen) (omega arith)
        (omega (arith, at.upto)) le in
    let (d, decodes) = at.decoded in
    (
      record {
        array = at.array;
        from = at.from;
        upto = omega (arith, at.upto);
        slen_width = at.slen_width;
        flags_stored = ap (λ (l : Bytes). get_or l 33 0) head ∙ at.flags_stored;
        ulen_stored = ap (λ (l : Bytes). get_be (slice l 34 38)) head ∙ at.ulen_stored;
        slen_stored = ap (λ (l : Bytes). get_be (slice l 38 42)) head ∙ at.slen_stored;
        decoded = (d, ap (decode_payload z l.flags l.ulen) payload ∙ decodes);
      },
      records_kept z content more size size' m le up h.1,
    )

put_loc-AllRecords :
    (z : Zstd) (content : Bytes) (size : ℕ) (m : LocIndex) (k : Key) (l : ActiveLoc)
    → loc_of m k ≡ none
    → IsRecordAt z content size k l
    → AllRecords z content size m
    → AllRecords z content size (put_loc m k l)
unfolding put_loc loc_of
put_loc-AllRecords z content size [] k l new at h = (at, tt)
put_loc-AllRecords z content size ((j, i) ∷ m) k l new at h = elim (Bool-cases (bytes_eq j k)) [
  | inl same ↦ absurd (found_not_none (rw same at new))
  | inr other ↦ rw other (h.0, put_loc-AllRecords z content size m k l (rw other at new) at h.1)
]
  where
    found_not_none : {l : ActiveLoc} → some l ≡ none → ⊥
    found_not_none e = cc e

has_key-put_loc :
    (m : LocIndex) (k j : Key) (l : ActiveLoc)
    → loc_of m k ≡ none
    → has_key (entries_of (put_loc m k l)) j ≡ (has_key (entries_of m) j || bytes_eq k j)
unfolding has_key entries_of put_loc loc_of
has_key-put_loc [] k j l new = ground arith
has_key-put_loc ((i, w) ∷ m) k j l new = ground (arith, has_key-put_loc m k j l)

no_key : (m : LocIndex) (k : Key) → loc_of m k ≡ none → has_key (entries_of m) k ≡ false
unfolding has_key entries_of loc_of
no_key [] k new = refl
no_key ((i, w) ∷ m) k new = ground (arith, no_key m k)

put_loc-IsDistinct :
    (m : LocIndex) (k : Key) (l : ActiveLoc)
    → loc_of m k ≡ none
    → IsDistinct (entries_of m)
    → IsDistinct (entries_of (put_loc m k l))
unfolding entries_of put_loc loc_of has_key
put_loc-IsDistinct [] k l new d = (refl, tt)
put_loc-IsDistinct ((j, w) ∷ m) k l new d = ground (
  arith,
  put_loc-IsDistinct m k l,
  has_key-put_loc m k j l,
  no_key m k,
  bytes_eq_iff k j,
  bytes_eq_iff j k,
)

pub get_or-take : (n i : ℕ) (xs : Bytes) → i < n → get_or (take n xs) i 0 ≡ get_or xs i 0
get_or-take zero i xs h = absurd (omega arith)
get_or-take (suc n) i [] h = refl
get_or-take (suc n) zero (x ∷ xs) h = refl
get_or-take (suc n) (suc i) (x ∷ xs) h = get_or-take n i xs (omega arith)

-- The active segment with one more record.
abbrev pub appended : ActiveSegment → Key → Bytes → ActiveSegment
appended a k rec = record a {
  content = write_at a.content a.size rec;
  size = a.size + length rec;
  index = put_loc a.index k (record {
    off = a.size;
    flags = get_or rec 33 0;
    ulen = get_be (slice rec 34 38);
    slen = get_be (slice rec 38 42);
  });
}

behind :
    (front ys : Bytes) (size lo w : ℕ)
    → length front ≡ size
    → slice (front ++ ys) (size + lo) (size + lo + w) ≡ slice ys lo (lo + w)
behind front ys size lo w h =
    slice-drop size lo (front ++ ys) w
    ∙ ap (λ (l : Bytes). slice l lo (lo + w)) (drop-append_exact front ys h)

behind_front :
    (front ys : Bytes) (size w : ℕ)
    → length front ≡ size
    → slice (front ++ ys) size (size + w) ≡ take w ys
behind_front front ys size w h =
    let width : size + w - size ≡ w = omega arith in
    rw width (ap (take w) (drop-append_exact front ys h))

-- An encoded record that was written at the end stands there.
new-IsRecordAt :
    (z : Zstd) (content more : Bytes) (size : ℕ) (k : Key) (d rec : Bytes)
    → 8 ≤ size
    → size ≤ length content
    → IsArray32 k
    → IsRecordOf z d rec
    → (decode_payload z (get_or rec 33 0) (get_be (slice rec 34 38)) (
          slice
            (take size content ++ (rec ++ more))
            (size + 46)
            (size + 46 + get_be (slice rec 38 42)))
        ≡ ok d)
      × IsRecordAt z (take size content ++ (rec ++ more)) (size + length rec) k (record {
        off = size;
        flags = get_or rec 33 0;
        ulen = get_be (slice rec 34 38);
        slen = get_be (slice rec 38 42);
      })
new-IsRecordAt z content more size k d rec long le array e =
    let r : Record = e.row in
    let facts : IsParsed rec r = parse_record-IsParsed rec r e.parsed in
    let front : length (take size content) ≡ size = omega (arith, length-take size content) in
    let slen : ℕ = get_be (slice rec 38 42) in
    let len : length rec ≡ 46 + slen = omega (arith, e.exact, facts.stored_slen) in
    let head : slice (take size content ++ (rec ++ more)) size (size + 46) ≡ slice rec 0 46 =
      behind_front (take size content) (rec ++ more) size 46 front
      ∙ take-append_le rec more {n = 46} (omega (arith, len)) in
    let payload : slice (take size content ++ (rec ++ more)) (size + 46) (size + 46 + slen)
        ≡ slice rec 46 (46 + slen) =
      behind (take size content) (rec ++ more) size 46 slen front
      ∙ slice-append_le rec more 46 (46 + slen) (omega arith) (omega (arith, len)) in
    let stored : decode_payload z r.flags r.ulen (slice rec 46 (46 + r.slen)) ≡ ok d = e.payload in
    let decodes =
      ap (decode_payload z (get_or rec 33 0) (get_be (slice rec 34 38))) payload
      ∙ rw (facts.stored_flags, facts.stored_ulen, facts.stored_slen) at stored in
    (
      decodes,
      record {
        array = array;
        from = long;
        upto = omega (arith, len);
        slen_width = omega (arith, facts.stored_slen, facts.slen_bound, facts.ulen_bound);
        flags_stored = ap (λ (l : Bytes). get_or l 33 0) head ∙ get_or-take 46 33 rec (omega arith);
        ulen_stored =
            ap (λ (l : Bytes). get_be (slice l 34 38)) head
            ∙ ap get_be (slice-take 46 rec 34 38 (omega arith) (omega arith) (omega (arith, len)));
        slen_stored =
            ap (λ (l : Bytes). get_be (slice l 38 42)) head
            ∙ ap get_be (slice-take 46 rec 38 42 (omega arith) (omega arith) (omega (arith, len)));
        decoded = (d, decodes);
      },
    )

pub appended-IsActive :
    (z : Zstd) (a : ActiveSegment) (k : Key) (d rec : Bytes)
    → IsActive z a
    → IsArray32 k
    → loc_of a.index k ≡ none
    → IsRecordOf z d rec
    → IsActive z (appended a k rec)
unfolding write_at
appended-IsActive z a k d rec h array new e =
    let more : Bytes = drop (a.size + length rec) a.content in
    let front : length (take a.size a.content) ≡ a.size =
      omega (arith, length-take a.size a.content, h.written) in
    record {
      header =
          take-append_le (take a.size a.content) (rec ++ more) {n = 8} (omega (arith, h.long))
          ∙ sym (
              take-append_le (take a.size a.content) (drop a.size a.content) {n = 8}
                (omega (arith, h.long)))
          ∙ ap (λ (l : Bytes). take 8 l) (take-append-drop a.size a.content)
          ∙ h.header;
      long = omega (arith, h.long);
      written =
          omega
            (arith, length-append (take a.size a.content) (rec ++ more), length-append rec more);
      records =
          put_loc-AllRecords z _ (a.size + length rec) a.index k _ new
            (new-IsRecordAt z a.content more a.size k d rec h.long h.written array e).1
            (records_kept z a.content (rec ++ more) a.size (a.size + length rec) a.index h.written
              (omega arith) h.records);
      distinct = put_loc-IsDistinct a.index k _ new h.distinct;
    }

-- The new key reads as the payload, every other key as before.
pub appended-reads :
    (x : FuseLibrary) (z : Zstd) (a : ActiveSegment) (k : Key) (d rec : Bytes)
    → IsActive z a
    → IsArray32 k
    → loc_of a.index k ≡ none
    → IsRecordOf z d rec
    → (j : Key)
    → read_active x z (some (appended a k rec)) j
      ≡ (if bytes_eq k j then ok (some d) else read_active x z (some a) j)
unfolding write_at
appended-reads x z a k d rec h array new e j =
    let more : Bytes = drop (a.size + length rec) a.content in
    let a' : ActiveSegment = appended a k rec in
    let h' : IsActive z a' = appended-IsActive z a k d rec h array new e in
    let loc : ActiveLoc = record {
      off = a.size;
      flags = get_or rec 33 0;
      ulen = get_be (slice rec 34 38);
      slen = get_be (slice rec 38 42);
    } in
    let looked = loc_of-put_loc a.index k j loc in
    elim (Bool-cases (bytes_eq k j)) [
      | inl same ↦
          let (decodes, at) =
            new-IsRecordAt z a.content more a.size k d rec h.long h.written array e in
          rw same (
            active_found z a' j loc d (looked ∙ (rw same)) (omega (arith, at.upto, h'.written))
              decodes x)
      | inr other ↦ rw other (elim (Option-cases (loc_of a.index j)) [
        | inl missing ↦
            active_missing z a' j x (looked ∙ (rw (other, missing)))
            ∙ sym (active_missing z a j x missing)
        | inr (l, found) ↦
            let at : IsRecordAt z a.content a.size j l =
              loc_of-All (IsRecordAt z a.content a.size) a.index j l h.records found in
            let kept : slice a'.content (l.off + 46) (l.off + 46 + l.slen)
                ≡ slice a.content (l.off + 46) (l.off + 46 + l.slen) =
              slice-front a.content (rec ++ more) a.size (l.off + 46) (l.off + 46 + l.slen)
                (omega arith) (omega (arith, at.upto)) h.written in
            active_found z a' j l at.decoded.0 (looked ∙ (rw (other, found)))
              (omega (arith, at.upto, h'.written))
              (ap (decode_payload z l.flags l.ulen) kept ∙ at.decoded.1) x
            ∙ sym (
                active_found z a j l at.decoded.0 found (omega (arith, at.upto, h.written))
                  at.decoded.1 x)
      ])
    ]
