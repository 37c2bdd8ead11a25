-- ===== src/Packstore/Recover/Torn.antt =====
-- The tail scan recovers exactly the complete records of a segment whose end was torn.
use amber_store.Prelude.{
  ℕ, zero, suc, ◌+◌, ◌-◌, ◌≤◌, ◌≡◌, ◌≢◌, refl, sym, ◌∙◌, ap, arith, Bool, false, ◌||◌, ◌⊎◌, inl,
  inr, some, List, [], ◌∷◌, ◌++◌, ltb, ◌==◌, length, if◌then◌else◌, get_or, take, drop, slice,
  Bytes, get_be, bytes_eq, bytes_eq_iff, ok, Bool-cases, Result-cases, append-nil, length-append,
  length-drop, drop-drop, slice-append_le, le→ltb,
}
use amber_store.Key.{Key}
use amber_store.Amberpack.Record.{
  Record, Zstd, rec_header_size, parse_record, encode_record, decode_payload,
}
use amber_store.Amberpack.Record.RoundTrip.{
  IsParsed, parse_record-IsParsed, parse_record-encode_record, encode_record-tag,
}
use amber_store.Amberpack.Pack.{Object}
use amber_store.Amberpack.Pack.RoundTrip.{IsCanonical}
use amber_store.Packstore.{tag_seal}
use amber_store.Packstore.Recover.{ActiveLoc, LocIndex, loc_of, put_loc, scan_from}

unfoldable pub stores : List Object → Key → Bool
stores [] k = false
stores (o ∷ os) k = bytes_eq o.key k || stores os k

-- No object is stored twice.
abbrev pub IsDistinct : List Object → Type 0
IsDistinct [] = Unit {0}
IsDistinct (o ∷ os) = (stores os o.key ≡ false) × IsDistinct os

-- What a crash leaves behind the complete records: nothing, or a record of which a part is missing.
abbrev pub IsTorn : Zstd → Bytes → Type 0
IsTorn z front =
    (front ≡ [])
    ⊎ ((o : Object) × (rec : Bytes) × (y : ℕ) × (more : Bytes) × IsCanonical o
        × (encode_record z o.key o.bytes ≡ ok rec)
        × (rec ≡ front ++ (y ∷ more)))

-- The index leads to the record of the object at the offset, and its payload decodes to the bytes.
pub record IsReadable (z : Zstd) (b : Bytes) (index : LocIndex) (off : ℕ) (o : Object)
    : Type 0 where
  pub loc : ActiveLoc
  pub indexed : loc_of index o.key ≡ some loc
  pub offset : loc.off ≡ off
  pub payload :
      decode_payload z loc.flags loc.ulen
        (slice b (off + rec_header_size) (off + rec_header_size + loc.slen))
      ≡ ok o.bytes

-- The objects of the records that stand one behind the other from the offset on.
abbrev pub AllReadable : Zstd → Bytes → LocIndex → ℕ → List Object → List Bytes → Type 0
AllReadable z b index off [] rs = Unit {0}
AllReadable z b index off (o ∷ os) [] = ⊥
AllReadable z b index off (o ∷ os) (r ∷ rs) =
    IsReadable z b index off o × AllReadable z b index (off + length r) os rs

pub loc_of-put_loc :
    (m : LocIndex) (j k : Key) (l : ActiveLoc)
    → loc_of (put_loc m j l) k ≡ (if bytes_eq j k then some l else loc_of m k)
unfolding loc_of put_loc
loc_of-put_loc [] j k l = refl
loc_of-put_loc ((i, w) ∷ m) j k l =
    ground (arith, loc_of-put_loc m j k l, bytes_eq_iff i j, bytes_eq_iff i k, bytes_eq_iff j k)

pub get_or-drop : (n : ℕ) (xs : Bytes) → get_or (drop n xs) 0 0 ≡ get_or xs n 0
get_or-drop zero xs = refl
get_or-drop (suc n) [] = refl
get_or-drop (suc n) (x ∷ xs) = get_or-drop n xs

pub slice-drop :
    (n m : ℕ) (xs : Bytes) (w : ℕ) → slice xs (n + m) (n + m + w) ≡ slice (drop n xs) m (m + w)
slice-drop n m xs w =
    let a : n + m + w - (n + m) ≡ w = omega arith in
    let c : m + w - m ≡ w = omega arith in rw (a, c) (ap (take w) (sym (drop-drop n m xs)))

-- A record that lacks its end is no record.
pub torn_record :
    (z : Zstd) (o : Object) (rec front : Bytes) (y : ℕ) (more : Bytes)
    → IsCanonical o
    → encode_record z o.key o.bytes ≡ ok rec
    → rec ≡ front ++ (y ∷ more)
    → (r : Record) → parse_record front ≢ ok r
torn_record z o rec front y more hk e whole r p =
    let (r', back) = parse_record-encode_record z o.key o.bytes rec [] hk e in
    let at_end : rec ++ [] ≡ rec = append-nil rec in
    let full : IsParsed rec r' = parse_record-IsParsed rec r' (rw at_end at back.parsed) in
    let cut : IsParsed front r = parse_record-IsParsed front r p in
    let same : get_be (slice front 38 42) ≡ get_be (slice rec 38 42) = ap get_be (
      sym (slice-append_le front (y ∷ more) 38 42 (omega arith) (omega (arith, cut.within)))
      ∙ ap (λ (l : Bytes). slice l 38 42) (sym whole)) in
    omega (
      arith,
      cut.within,
      cut.stored_slen,
      full.stored_slen,
      back.record_length,
      ap length whole,
      length-append front (y ∷ more),
    )

torn_tag :
    (z : Zstd) (o : Object) (rec front : Bytes) (x y : ℕ) (more : Bytes)
    → encode_record z o.key o.bytes ≡ ok rec
    → rec ≡ (x ∷ front) ++ (y ∷ more)
    → x ≡ 1
torn_tag z o rec front x y more e whole = cc (whole, encode_record-tag z o.key o.bytes rec e)

stop_at_end :
    (f : ℕ) (b : Bytes) (off : ℕ) (m : LocIndex)
    → length b ≤ off
    → scan_from f b off m ≡ record { size = off; index = m; is_sealed = false }
unfolding scan_from
stop_at_end zero b off m h = refl
stop_at_end (suc f) b off m h = rw (le→ltb off (length b) h)

stop_at_garbage :
    (f : ℕ) (b : Bytes) (off : ℕ) (m : LocIndex)
    → (get_or b off 0 == tag_seal) ≡ false
    → ((r : Record) → parse_record (drop off b) ≢ ok r)
    → scan_from f b off m ≡ record { size = off; index = m; is_sealed = false }
unfolding scan_from
stop_at_garbage zero b off m tag h = refl
stop_at_garbage (suc f) b off m tag h = elim (Bool-cases (ltb off (length b))) [
  | inr done ↦ rw done
  | inl more ↦ elim (Result-cases (parse_record (drop off b))) [
    | inl (r, parsed) ↦ absurd (h r parsed)
    | inr (e, failed) ↦ rw (more, tag, failed)
  ]
]

pub stop_at_torn :
    (z : Zstd) (f : ℕ) (b : Bytes) (off : ℕ) (m : LocIndex) (front : Bytes)
    → drop off b ≡ front
    → IsTorn z front
    → scan_from f b off m ≡ record { size = off; index = m; is_sealed = false }
stop_at_torn z f b off m [] here torn =
    stop_at_end f b off m (omega (arith, length-drop off b, ap length here))
stop_at_torn z f b off m (x ∷ front) here (inl none_left) = cc none_left
stop_at_torn z f b off m (x ∷ front) here (inr (o, rec, y, more, hk, e, whole)) =
    let tag : get_or b off 0 ≡ 1 =
      sym (get_or-drop off b)
      ∙ ap (λ (l : Bytes). get_or l 0 0) here
      ∙ torn_tag z o rec front x y more e whole in
    stop_at_garbage f b off m (ground arith)
      (λ r p. torn_record z o rec (x ∷ front) y more hk e whole r (rw here at p))
