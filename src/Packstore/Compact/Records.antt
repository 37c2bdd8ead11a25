-- ===== src/Packstore/Compact/Records.antt =====
-- The record check of packstore/compact.go: a record of a filed segment that passes it holds what the
-- map has for its key.
use amber_store.Prelude.{
  ℕ, ◌+◌, ◌-◌, ◌≤◌, ◌<◌, ◌≡◌, refl, sym, ◌∙◌, ap, arith, Bool, true, false, not, Option, some,
  length, take, drop, slice, Bytes, bytes_eq, Result, ok, wrap, get_or, get_be, fail_if_inv,
  wrap_inv, >>=-eq-ok, slice-take, take_all, length-take, length-drop,
}
use amber_store.Key.{Key}
use amber_store.Amberpack.Record.{Zstd, Record, parse_record, decode_payload}
use amber_store.Amberpack.Record.RoundTrip.{IsParsed, parse_record-IsParsed}
use amber_store.Packstore.Filter.{FuseLibrary}
use amber_store.Packstore.Index.{row_key}
use amber_store.Packstore.Footer.{SealedSegment, ReadError, has, get}
use amber_store.Packstore.Filed.{IsFiled, held, row_off, row_slen}
use amber_store.Packstore.Recover.Torn.{slice-drop}
use amber_store.Packstore.Store.Sealing.{IsRecordOf, sealed_found}
use amber_store.Packstore.Store.Puts.{get_or-take}
use amber_store.Packstore.Compact.{bad_record, key_mismatch, check_record}

-- A cut of a cut.
slice-slice :
    (mm : Bytes) (off n lo w o : ℕ)
    → off + n ≤ length mm
    → lo + w ≤ n
    → o ≡ off + lo
    → slice (slice mm off (off + n)) lo (lo + w) ≡ slice mm o (o + w)
slice-slice mm off n lo w o long within at =
    let width : off + n - off ≡ n = omega arith in
    ap (λ (k : ℕ). slice (take k (drop off mm)) lo (lo + w)) width
    ∙ slice-take n (drop off mm) lo (lo + w) (omega arith) within
        (omega (arith, length-drop off mm))
    ∙ sym (slice-drop off lo mm w)
    ∙ ap (λ (k : ℕ). slice mm k (k + w)) (sym at)

check_record_inv :
    (hash_of : Bytes → Bytes) (z : Zstd) (k : Key) (rec : Bytes)
    → check_record hash_of z k rec ≡ ok tt
    → (r : Record) × (p : Bytes) × (parse_record rec ≡ ok r)
      × (decode_payload z r.flags r.ulen (drop 46 rec) ≡ ok p)
unfolding check_record
check_record_inv hash_of z k rec h =
    let (r, parsed, h1) = >>=-eq-ok (wrap bad_record (parse_record rec)) _ h in
    let (same, h2) = fail_if_inv (not (bytes_eq r.key k)) key_mismatch _ h1 in
    let (p, decoded, h3) =
      >>=-eq-ok (wrap bad_record (decode_payload z r.flags r.ulen (drop 46 rec))) _ h2 in
    (
      r,
      p,
      wrap_inv bad_record (parse_record rec) parsed,
      wrap_inv bad_record (decode_payload z r.flags r.ulen (drop 46 rec)) decoded,
    )

found-held :
    (b : Bool) (d p : Bytes)
    → ◌≡◌ {A = Result ReadError (Option Bytes)} (held b d) (ok (some p))
    → p ≡ d
found-held true d p h = ground (arith, h)
found-held false d p h = cc h

pub all_of : (n m : ℕ) (l : Bytes) → length l ≡ n + m → drop n l ≡ slice l n (n + m)
all_of n m l e = sym (take_all (drop n l) (omega (arith, length-drop n l, e)))

module _ (x : FuseLibrary) (z : Zstd) (content : Key → Bytes) where
  -- A record that passes the check holds what the map has for its key.
  pub row-IsRecordOf :
      (hash_of : Bytes → Bytes) (g : SealedSegment) (i : ℕ)
      → IsFiled x z content g
      → i < g.fv.key_count
      → 8 ≤ row_off x z content g i
      → row_off x z content g i + (46 + row_slen x z content g i) ≤ g.fv.body_len
      → check_record hash_of z (row_key g.fv.entries i) (
          slice g.mm
            (row_off x z content g i)
            (row_off x z content g i + (46 + row_slen x z content g i)))
        ≡ ok tt
      → IsRecordOf z (content (row_key g.fv.entries i)) (
          slice g.mm
            (row_off x z content g i)
            (row_off x z content g i + (46 + row_slen x z content g i)))
  row-IsRecordOf hash_of g i filed lt from upto checked =
      let k : Key = row_key g.fv.entries i in
      let off : ℕ = row_off x z content g i in
      let slen : ℕ = row_slen x z content g i in
      let rec : Bytes = slice g.mm off (off + (46 + slen)) in
      let (r, p, parsed, decoded) = check_record_inv hash_of z k rec checked in
      let facts : IsParsed rec r = parse_record-IsParsed rec r parsed in
      let long : off + (46 + slen) ≤ length g.mm = omega (arith, upto, filed.within) in
      let len : length rec ≡ 46 + slen = omega (
        arith,
        long,
        length-take (off + (46 + slen) - off) (drop off g.mm),
        length-drop off g.mm,
      ) in
      let head : slice g.mm off (off + 46) ≡ slice rec 0 46 =
        sym (slice-slice g.mm off (46 + slen) 0 46 off long (omega arith) (omega arith)) in
      let stored : get_be (slice rec 38 42) ≡ slen =
        sym (ap get_be (slice-take 46 rec 38 42 (omega arith) (omega arith) (omega (arith, len))))
        ∙ sym (ap (λ (l : Bytes). get_be (slice l 38 42)) head)
        ∙ filed.stored_slen i lt in
      let same : r.slen ≡ slen = facts.stored_slen ∙ stored in
      let rest : drop 46 rec ≡ slice rec 46 (46 + slen) = all_of 46 slen rec len in
      let behind : slice rec 46 (46 + slen) ≡ slice g.mm (off + 46) (off + 46 + slen) =
        slice-slice g.mm off (46 + slen) 46 slen (off + 46) long (omega arith) refl in
      let found : get x g z k ≡ ok (some p) =
        sealed_found x z g k off slen r.flags r.ulen p (filed.probed i lt) from upto
          (ap (λ (l : Bytes). get_or l 33 0) head
            ∙ get_or-take 46 33 rec (omega arith)
            ∙ sym facts.stored_flags)
          (ap (λ (l : Bytes). get_be (slice l 34 38)) head
            ∙ ap get_be (slice-take 46 rec 34 38 (omega arith) (omega arith) (omega (arith, len)))
            ∙ sym facts.stored_ulen)
          (ap (decode_payload z r.flags r.ulen) (sym (rest ∙ behind)) ∙ decoded) in
      let kept : p ≡ content k =
        found-held (has x g k) (content k) p (sym (filed.reads k (filed.arrays i lt)) ∙ found) in
      record {
        row = r;
        parsed = parsed;
        exact = omega (arith, len, same);
        payload =
            ap (λ (n : ℕ). decode_payload z r.flags r.ulen (slice rec 46 (46 + n))) same
            ∙ ap (decode_payload z r.flags r.ulen) (sym rest)
            ∙ decoded
            ∙ ap ok kept;
      }
