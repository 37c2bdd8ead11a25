-- ===== src/Packstore/Recover/Recovered.antt =====
-- Recovery of an active segment finds every complete record and nothing of the torn one.
use amber_store.Prelude.{
  ℕ, zero, suc, ◌+◌, ◌≤◌, ◌<◌, ◌≡◌, refl, sym, ◌∙◌, ap, arith, false, none, some, List, [], ◌∷◌,
  ◌++◌, length, get_or, drop, slice, Bytes, All, bytes_eq, bytes_eq_refl, ok, append_assoc,
  length-append, length-drop, drop-drop, drop-append_exact, lt→ltb, le→ltb,
}
use amber_store.Key.{Key}
use amber_store.Amberpack.Record.{Record, Zstd, rec_header_size, parse_record, decode_payload}
use amber_store.Amberpack.Record.RoundTrip.{
  ReadsBack, parse_record-encode_record, encode_record-tag,
}
use amber_store.Amberpack.Pack.{Object}
use amber_store.Amberpack.Pack.Written.{Encodes, concat}
use amber_store.Amberpack.Pack.RoundTrip.{IsCanonical}
use amber_store.Packstore.{magic_header}
use amber_store.Packstore.Recover.{
  ActiveLoc, LocIndex, ScanResult, loc_of, put_loc, loc_at, scan_from, scan_active,
}
use amber_store.Packstore.Recover.Torn.{
  stores, IsDistinct, IsTorn, AllReadable, loc_of-put_loc, get_or-drop, slice-drop, stop_at_torn,
}

scan_record :
    (f : ℕ) (b : Bytes) (off : ℕ) (m : LocIndex) (r : Record)
    → off < length b
    → get_or b off 0 ≡ 1
    → parse_record (drop off b) ≡ ok r
    → scan_from (suc f) b off m
      ≡ scan_from f b (off + (rec_header_size + r.slen)) (put_loc m r.key (loc_at off r))
unfolding scan_from
scan_record f b off m r lt tag parsed = rw (lt→ltb off (length b) lt, tag, parsed)

-- What the scan returns from an offset on, over what the index held before.
record Recovers (z : Zstd) (b : Bytes) (m : LocIndex) (off : ℕ) (os : List Object) (rs : List Bytes)
    (r : ScanResult) : Type 0 where
  size_found : r.size ≡ off + length (concat rs)
  still_active : r.is_sealed ≡ false
  readable : AllReadable z b r.index off os rs
  others : (k : Key) → stores os k ≡ false → loc_of r.index k ≡ loc_of m k

Recovers-step :
    (z : Zstd) (b : Bytes) (m : LocIndex) (off : ℕ) (o : Object) (os : List Object)
    (rec rest : Bytes) (rs : List Bytes) (r : Record) (res : ScanResult)
    → drop off b ≡ rec ++ rest
    → ReadsBack z o.key o.bytes rec rest r
    → stores os o.key ≡ false
    → Recovers z b (put_loc m o.key (loc_at off r)) (off + length rec) os rs res
    → Recovers z b m off (o ∷ os) (rec ∷ rs) res
unfolding concat stores loc_at
Recovers-step z b m off o os rec rest rs r res here back new h =
    let loc : ActiveLoc = record { off = off; flags = r.flags; ulen = r.ulen; slen = r.slen } in
    let payload : decode_payload z r.flags r.ulen (slice b (off + 46) (off + 46 + r.slen))
        ≡ ok o.bytes =
      ap (decode_payload z r.flags r.ulen)
        (slice-drop off 46 b r.slen ∙ ap (λ (l : Bytes). slice l 46 (46 + r.slen)) here)
      ∙ back.decoded_payload in
    let found : loc_of res.index o.key ≡ some loc =
      h.others o.key new ∙ loc_of-put_loc m o.key o.key loc ∙ (rw (bytes_eq_refl o.key)) in
    record {
      size_found = omega (arith, h.size_found, length-append rec (concat rs));
      still_active = h.still_active;
      readable =
          (record { loc = loc; indexed = found; offset = refl; payload = payload }, h.readable);
      others = λ k n. ground (arith, h.others k, loc_of-put_loc m o.key k loc);
    }

scan_from-Recovers :
    (z : Zstd) (f : ℕ) (b : Bytes) (off : ℕ) (m : LocIndex) (os : List Object) (rs : List Bytes)
    (front : Bytes)
    → drop off b ≡ concat rs ++ front
    → length b ≤ off + f
    → All IsCanonical os
    → IsDistinct os
    → Encodes z os rs
    → IsTorn z front
    → Recovers z b m off os rs (scan_from f b off m)
unfolding concat
scan_from-Recovers z f b off m [] [] front here enough hk d e torn =
    rw (stop_at_torn z f b off m front here torn) (record {
      size_found = omega arith;
      still_active = refl;
      readable = tt;
      others = λ k n. refl;
    })
scan_from-Recovers z f b off m [] (r ∷ rs) front here enough hk d e torn = absurd e
scan_from-Recovers z f b off m (o ∷ os) [] front here enough hk d e torn = absurd e
scan_from-Recovers z zero b off m (o ∷ os) (rec ∷ rs) front here enough hk d e torn =
    let tag = encode_record-tag z o.key o.bytes rec e.0 in
    absurd (
      omega (
        arith,
        ap length here,
        length-drop off b,
        length-append (rec ++ concat rs) front,
        length-append rec (concat rs),
        ap length tag,
      ))
scan_from-Recovers z (suc f) b off m (o ∷ os) (rec ∷ rs) front here enough hk d e torn =
    let rest : Bytes = concat rs ++ front in
    let aligned : drop off b ≡ rec ++ rest = here ∙ append_assoc rec (concat rs) front in
    let (r, back) = parse_record-encode_record z o.key o.bytes rec rest hk.0 e.0 in
    let tagged : rec ≡ 1 ∷ drop 1 rec = encode_record-tag z o.key o.bytes rec e.0 in
    let tag : get_or b off 0 ≡ 1 =
      sym (get_or-drop off b)
      ∙ ap (λ (l : Bytes). get_or l 0 0) (aligned ∙ ap (λ (l : Bytes). l ++ rest) tagged) in
    let long : length (drop off b) ≡ length rec + length rest =
      ap length aligned ∙ length-append rec rest in
    let inside : off < length b = omega (arith, long, length-drop off b, ap length tagged) in
    let next : drop (off + length rec) b ≡ rest =
      sym (drop-drop off (length rec) b)
      ∙ ap (drop (length rec)) aligned
      ∙ drop-append_exact rec rest refl in
    let step : scan_from (suc f) b off m
        ≡ scan_from f b (off + length rec) (put_loc m o.key (loc_at off r)) =
      scan_record f b off m r inside tag (ap parse_record aligned ∙ back.parsed)
      ∙ (rw (back.same_key, back.record_length)) in
    rw step (
      Recovers-step z b m off o os rec rest rs r _ aligned back d.0 (
        scan_from-Recovers z f b (off + length rec) (put_loc m o.key (loc_at off r)) os rs front
          next (omega (arith, ap length tagged)) hk.1 d.1 e.1 torn))

scan_active-magic :
    (s : Bytes)
    → scan_active (magic_header ++ s)
      ≡ scan_from (length (magic_header ++ s)) (magic_header ++ s) 8 []
unfolding scan_active bytes_eq
scan_active-magic s = rw (le→ltb (length (magic_header ++ s)) 8 (omega arith))

no_entry : (k : Key) → loc_of [] k ≡ none
unfolding loc_of
no_entry k = refl

-- An active segment holds the header magic, the records of objects with canonical keys (no key
-- twice) and, after a crash, a proper front of one more record or nothing. The tail scan cuts it
-- behind the last complete record, keeps it active, and its index leads to every object stored
-- before: at its offset, with a payload that decodes to its bytes. Any other key has no entry.
pub scan_active-recovers :
    (z : Zstd) (os : List Object) (rs : List Bytes) (front : Bytes)
    → All IsCanonical os
    → IsDistinct os
    → Encodes z os rs
    → IsTorn z front
    → let b = magic_header ++ (concat rs ++ front) in
      let res = scan_active b in
      (res.size ≡ length (magic_header ++ concat rs))
      × (res.is_sealed ≡ false)
      × AllReadable z b res.index (length magic_header) os rs
      × ((k : Key) → stores os k ≡ false → loc_of res.index k ≡ none)
scan_active-recovers z os rs front hk d e torn =
    let b : Bytes = magic_header ++ (concat rs ++ front) in
    let h : Recovers z b [] 8 os rs (scan_from (length b) b 8 []) =
      scan_from-Recovers z (length b) b 8 [] os rs front refl (omega arith) hk d e torn in
    rw (scan_active-magic (concat rs ++ front))
      (omega (arith, h.size_found), h.still_active, h.readable, λ k n. h.others k n ∙ no_entry k)
