-- ===== src/Packstore/Store/Sealing.antt =====
-- A sealed segment answers as the active segment that it was made of.
use amber_store.Prelude.{
  ℕ, suc, ◌+◌, ◌-◌, ◌^◌, ◌≤◌, ◌<◌, ◌≡◌, refl, sym, ◌∙◌, ap, subst, arith, false, ◌&&◌, inl, inr,
  Option, none, some, [], ◌∷◌, ◌++◌, ltb, length, get_or, take, drop, slice, Bytes, All, IsU32,
  get_be, bytes_eq, bytes_eq_iff, ok, wrap, Option-cases, Bool-cases, length-take, slice-append_le,
  slice-take, le→ltb, take-append_le, take-append-drop,
}
use amber_store.Key.{Key}
use amber_store.Key.Fields.{IsArray32}
use amber_store.Amberpack.Record.{Zstd, Record, rec_header_size, parse_record, decode_payload}
use amber_store.Packstore.{magic_header}
use amber_store.Packstore.Index.Sorted.{IsRow, IsDistinct, find}
use amber_store.Packstore.Filter.{FuseLibrary}
use amber_store.Packstore.Footer.{
  SealedSegment, build_footer, open_sealed, out_of_bounds, probe, get, payload_at,
}
use amber_store.Packstore.Footer.RoundTrip.{open_sealed-build_footer}
use amber_store.Packstore.Recover.{ActiveLoc, LocIndex, loc_of}
use amber_store.Packstore.Store.{ActiveSegment, entries_of, read_active, read_loc, bad_segment}

-- Bytes that are exactly one record, whose payload decodes to these bytes.
pub record IsRecordOf (z : Zstd) (d rec : Bytes) : Type 0 where
  pub row : Record
  pub parsed : parse_record rec ≡ ok row
  pub exact : length rec ≡ 46 + row.slen
  pub payload : decode_payload z row.flags row.ulen (slice rec 46 (46 + row.slen)) ≡ ok d

-- A record of the key that the location leads to, before `size`, and its payload.
pub record IsRecordAt (z : Zstd) (content : Bytes) (size : ℕ) (k : Key) (loc : ActiveLoc)
    : Type 0 where
  pub array : IsArray32 k
  pub from : 8 ≤ loc.off
  pub upto : loc.off + (46 + loc.slen) ≤ size
  pub slen_width : IsU32 loc.slen
  pub flags_stored : get_or (slice content loc.off (loc.off + 46)) 33 0 ≡ loc.flags
  pub ulen_stored : get_be (slice (slice content loc.off (loc.off + 46)) 34 38) ≡ loc.ulen
  pub slen_stored : get_be (slice (slice content loc.off (loc.off + 46)) 38 42) ≡ loc.slen
  pub decoded :
      (d : Bytes) × (decode_payload z loc.flags loc.ulen
          (slice content (loc.off + 46) (loc.off + 46 + loc.slen))
        ≡ ok d)

abbrev pub AllRecords : Zstd → Bytes → ℕ → LocIndex → Type 0
AllRecords z content size m = All (λ p. IsRecordAt z content size p.0 p.1) m

-- What the write path keeps true of the active segment.
pub record IsActive (z : Zstd) (a : ActiveSegment) : Type 0 where
  pub header : take 8 a.content ≡ magic_header
  pub long : 8 ≤ a.size
  pub written : a.size ≤ length a.content
  pub records : AllRecords z a.content a.size a.index
  pub distinct : IsDistinct (entries_of a.index)

pub length-entries_of : (m : LocIndex) → length (entries_of m) ≡ length m
unfolding entries_of
length-entries_of [] = refl
length-entries_of ((k, l) ∷ m) = ap suc (length-entries_of m)

pub rows_of :
    (z : Zstd) (content : Bytes) (size : ℕ) (m : LocIndex)
    → size < 2 ^ 63
    → AllRecords z content size m
    → All IsRow (entries_of m)
unfolding entries_of
rows_of z content size [] small h = tt
rows_of z content size ((k, l) ∷ m) small h =
    ((h.0.array, (omega (arith, h.0.upto), h.0.slen_width)), rows_of z content size m small h.1)

-- The row that a walk finds, as a location.
unfoldable pub row_of : Option ActiveLoc → Option (ℕ × ℕ)
row_of none = none
row_of (some l) = some (l.off, l.slen)

pub find-entries_of : (m : LocIndex) (k : Key) → find (entries_of m) k ≡ row_of (loc_of m k)
unfolding entries_of find loc_of row_of
find-entries_of [] k = refl
find-entries_of ((j, l) ∷ m) k = ground (arith, find-entries_of m k)

pub loc_of-All {κ} :
    (P : Key → ActiveLoc → Type κ) (m : LocIndex) (k : Key) (l : ActiveLoc)
    → All (λ p. P p.0 p.1) m
    → loc_of m k ≡ some l
    → P k l
unfolding loc_of
loc_of-All P [] k l h e = cc e
loc_of-All P ((j, i) ∷ m) k l h e = elim (Bool-cases (bytes_eq j k)) [
  | inl same ↦
      let found : i ≡ l = ground (arith, e, same) in
      subst (P k) found (subst (λ z. P z i) ((bytes_eq_iff j k).0 same) h.0)
  | inr other ↦ loc_of-All P m k l h.1 (ground (arith, e, other))
]

-- Bytes behind a front do not change the cuts within it.
pub slice-front :
    (content more : Bytes) (size lo hi : ℕ)
    → lo ≤ hi
    → hi ≤ size
    → size ≤ length content
    → slice (take size content ++ more) lo hi ≡ slice content lo hi
slice-front content more size lo hi a b c =
    slice-append_le (take size content) more lo hi a (omega (arith, length-take size content))
    ∙ slice-take size content lo hi a b c

pub active_found :
    (z : Zstd) (a : ActiveSegment) (k : Key) (loc : ActiveLoc) (d : Bytes)
    → loc_of a.index k ≡ some loc
    → loc.off + (46 + loc.slen) ≤ length a.content
    → decode_payload z loc.flags loc.ulen (slice a.content (loc.off + 46) (loc.off + 46 + loc.slen))
      ≡ ok d
    → (x : FuseLibrary) → read_active x z (some a) k ≡ ok (some d)
unfolding read_active read_loc
active_found z a k loc d found within h x =
    let inside : (ltb 0 loc.slen && ltb (length a.content) (loc.off + rec_header_size + loc.slen))
        ≡ false =
      ground (arith, within) in
    rw (found, inside, h)

pub active_missing :
    (z : Zstd) (a : ActiveSegment) (k : Key) (x : FuseLibrary)
    → loc_of a.index k ≡ none
    → read_active x z (some a) k ≡ ok none
unfolding read_active read_loc
active_missing z a k x missing = rw missing

pub sealed_found :
    (x : FuseLibrary) (z : Zstd) (g : SealedSegment) (k : Key) (off slen flags ulen : ℕ) (d : Bytes)
    → probe x g k ≡ some (off, slen)
    → 8 ≤ off
    → off + (46 + slen) ≤ g.fv.body_len
    → get_or (slice g.mm off (off + 46)) 33 0 ≡ flags
    → get_be (slice (slice g.mm off (off + 46)) 34 38) ≡ ulen
    → decode_payload z flags ulen (slice g.mm (off + 46) (off + 46 + slen)) ≡ ok d
    → get x g z k ≡ ok (some d)
unfolding get payload_at out_of_bounds
sealed_found x z g k off slen flags ulen d found from upto fl ul h =
    let a : ltb off 8 ≡ false = le→ltb off 8 from in
    let b : ltb g.fv.body_len off ≡ false = le→ltb _ _ (omega arith) in
    let c : ltb (g.fv.body_len - off) (rec_header_size + slen) ≡ false = le→ltb _ _ (omega arith) in
    rw (found, a, b, c, fl, ul, h)

sealed_missing :
    (x : FuseLibrary) (z : Zstd) (g : SealedSegment) (k : Key)
    → probe x g k ≡ none
    → get x g z k ≡ ok none
unfolding get payload_at
sealed_missing x z g k missing = rw missing

-- The segment that an active segment becomes reads every key as it did.
pub open_sealed-reads :
    (x : FuseLibrary) (z : Zstd) (a : ActiveSegment) (footer : Bytes)
    → IsActive z a
    → a.size < 2 ^ 63
    → length a.index < 2 ^ 32
    → a.size + length footer < 2 ^ 64
    → build_footer x a.size (entries_of a.index) ≡ ok footer
    → (g : SealedSegment) × (open_sealed a.id (take a.size a.content ++ footer) ≡ ok g)
      × ((k : Key) → IsArray32 k → wrap bad_segment (get x g z k) ≡ read_active x z (some a) k)
unfolding row_of
open_sealed-reads x z a footer h small few fits built =
    let body : Bytes = take a.size a.content in
    let len : length body ≡ a.size = omega (arith, length-take a.size a.content, h.written) in
    let header : take 8 body ≡ magic_header =
      sym (take-append_le body (drop a.size a.content) {n = 8} (omega (arith, h.long)))
      ∙ ap (λ (l : Bytes). take 8 l) (take-append-drop a.size a.content)
      ∙ h.header in
    let (g, opened, mapped, end, probes) =
      open_sealed-build_footer x a.id body footer (entries_of a.index) header
        (omega (arith, h.long)) (rows_of z a.content a.size a.index small h.records) h.distinct
        (omega (arith, length-entries_of a.index)) (omega arith) (rw len built) in
    (
      g,
      opened,
      λ k array. elim (Option-cases (loc_of a.index k)) [
        | inl missing ↦
            let nothing : probe x g k ≡ none =
              probes k array ∙ find-entries_of a.index k ∙ ap row_of missing in
            ap (wrap bad_segment) (sealed_missing x z g k nothing)
            ∙ sym (active_missing z a k x missing)
        | inr (loc, found) ↦
            let at : IsRecordAt z a.content a.size k loc =
              loc_of-All (IsRecordAt z a.content a.size) a.index k loc h.records found in
            let row : probe x g k ≡ some (loc.off, loc.slen) =
              probes k array ∙ find-entries_of a.index k ∙ ap row_of found in
            let head : slice g.mm loc.off (loc.off + 46) ≡ slice a.content loc.off (loc.off + 46) =
              ap (λ (l : Bytes). slice l loc.off (loc.off + 46)) mapped
              ∙ slice-front a.content footer a.size loc.off (loc.off + 46) (omega arith)
                  (omega (arith, at.upto)) h.written in
            let stored : slice g.mm (loc.off + 46) (loc.off + 46 + loc.slen)
                ≡ slice a.content (loc.off + 46) (loc.off + 46 + loc.slen) =
              ap (λ (l : Bytes). slice l (loc.off + 46) (loc.off + 46 + loc.slen)) mapped
              ∙ slice-front a.content footer a.size (loc.off + 46) (loc.off + 46 + loc.slen)
                  (omega arith) (omega (arith, at.upto)) h.written in
            let (d, decodes) = at.decoded in
            ap (wrap bad_segment) (
              sealed_found x z g k loc.off loc.slen loc.flags loc.ulen d row at.from
                (omega (arith, at.upto, end, len))
                (ap (λ (l : Bytes). get_or l 33 0) head ∙ at.flags_stored)
                (ap (λ (l : Bytes). get_be (slice l 34 38)) head ∙ at.ulen_stored)
                (ap (decode_payload z loc.flags loc.ulen) stored ∙ decodes))
            ∙ sym (active_found z a k loc d found (omega (arith, at.upto, h.written)) decodes x)
      ],
    )
