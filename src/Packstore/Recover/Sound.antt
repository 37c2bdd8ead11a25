-- ===== src/Packstore/Recover/Sound.antt =====
-- What the tail scan returns of any file at all.
use amber_store.Prelude.{
  ℕ, zero, suc, ◌+◌, ◌≤◌, ◌<◌, ◌≡◌, ◌≢◌, ap, refl, arith, Bool, true, false, not, ◌||◌, ◌⊎◌, inl,
  inr, [], ◌∷◌, ltb, ◌==◌, length, if◌then◌else◌, get_or, take, drop, Bytes, All, bytes_eq,
  bytes_eq_iff, ok, err, Bool-cases, Result-cases, length-drop, length-take,
}
use amber_store.Key.{Key}
use amber_store.Amberpack.Record.{Record, RecordError, rec_header_size, parse_record}
use amber_store.Amberpack.Record.RoundTrip.{IsParsed, parse_record-IsParsed}
use amber_store.Packstore.{tag_seal, magic_header}
use amber_store.Packstore.Footer.{FooterView, FooterError, parse_footer}
use amber_store.Packstore.Recover.{
  ActiveLoc, LocIndex, ScanResult, put_loc, loc_of, loc_at, scan_from, scan_active,
}
use amber_store.Packstore.Recover.Torn.{loc_of-put_loc}

-- An index entry points to a whole valid record of its key in the first `size` bytes.
abbrev pub IsLocated : Bytes → ℕ → Key × ActiveLoc → Type 0
IsLocated b size p =
    (parse_record (drop p.1.off b)
      ≡ ok (record { key = p.0; flags = p.1.flags; ulen = p.1.ulen; slen = p.1.slen }))
    × (p.1.off + (rec_header_size + p.1.slen) ≤ size)

-- The file ends at this offset, or a footer should start here and the file has no valid one, or no
-- record starts here.
abbrev pub IsBoundary : Bytes → ℕ → Type 0
IsBoundary b s =
    (s ≡ length b)
    ⊎ (((get_or b s 0 ≡ tag_seal) × (e : FooterError) × (parse_footer b ≡ err e))
        ⊎ ((get_or b s 0 ≢ tag_seal) × (e : RecordError) × (parse_record (drop s b) ≡ err e)))

-- The file holds whole records from the header to the offset, one right after the other, the last one
-- first in the list.
pub data Follow (b : Bytes) : ℕ → LocIndex → Type 0 where
  at_header : Follow b 8 []
  behind :
      {off : ℕ} {seen : LocIndex} (r : Record)
      → Follow b off seen
      → off < length b
      → get_or b off 0 ≢ tag_seal
      → parse_record (drop off b) ≡ ok r
      → Follow b (off + (rec_header_size + r.slen)) ((r.key, loc_at off r) ∷ seen)

-- The index has the last record of every key of those that follow each other up to the size, or, in a
-- sealed file, up to the footer.
abbrev pub IsIndexed : Bytes → ScanResult → Type 0
IsIndexed b r =
    (end : ℕ) × (seen : LocIndex) × Follow b end seen
    × (r.is_sealed ≡ false → end ≡ r.size)
    × (r.is_sealed ≡ true → get_or b end 0 ≡ tag_seal)
    × ((k : Key) → loc_of r.index k ≡ loc_of seen k)

-- The file starts with the header magic.
abbrev pub IsHeaded : Bytes → Type 0
IsHeaded b = take 8 b ≡ magic_header

-- What the scan returns of a file that starts with the header magic.
pub record IsScanned (b : Bytes) (r : ScanResult) : Type 0 where
  pub from : 8 ≤ r.size
  pub within : r.size ≤ length b
  pub located : All (IsLocated b r.size) r.index
  pub indexed : IsIndexed b r
  pub boundary : r.is_sealed ≡ false → IsBoundary b r.size
  pub whole :
      r.is_sealed ≡ true → (r.size ≡ length b) × (fv : FooterView) × (parse_footer b ≡ ok fv)

pub record IsScan (b : Bytes) (r : ScanResult) : Type 0 where
  pub headed : IsHeaded b → IsScanned b r
  pub unheaded : take 8 b ≢ magic_header → (r.size ≡ 0) × (r.index ≡ []) × (r.is_sealed ≡ false)

IsLocated-later :
    (b : Bytes) (s s' : ℕ) (m : LocIndex) → s ≤ s' → All (IsLocated b s) m → All (IsLocated b s') m
IsLocated-later b s s' [] le h = tt
IsLocated-later b s s' (p ∷ m) le h =
    ((h.0.0, omega (arith, h.0.1)), IsLocated-later b s s' m le h.1)

if-All {κ} :
    (P : Key × ActiveLoc → Type κ) (c : Bool) (m m' : LocIndex)
    → All P m
    → All P m'
    → All P (if c then m else m')
if-All P true m m' h h' = h
if-All P false m m' h h' = h'

put_loc-All {κ} :
    (P : Key × ActiveLoc → Type κ) (m : LocIndex) (k : Key) (l : ActiveLoc)
    → P (k, l)
    → All P m
    → All P (put_loc m k l)
unfolding put_loc
put_loc-All P [] k l h s = (h, tt)
put_loc-All P ((j, i) ∷ m) k l h s =
    if-All P (bytes_eq j k) ((k, l) ∷ m) ((j, i) ∷ put_loc m k l) (h, s.1)
      (s.0, put_loc-All P m k l h s.1)

stopped :
    (b : Bytes) (off : ℕ) (m seen : LocIndex)
    → 8 ≤ off
    → off ≤ length b
    → All (IsLocated b off) m
    → Follow b off seen
    → ((k : Key) → loc_of m k ≡ loc_of seen k)
    → IsBoundary b off
    → IsScanned b (record { size = off; index = m; is_sealed = false })
stopped b off m seen from le located path same at = record {
  from = from;
  within = le;
  located = located;
  indexed = (off, seen, path, λ _. refl, λ h. cc, same);
  boundary = λ _. at;
  whole = λ h. cc;
}

scan_from-IsScanned :
    (f : ℕ) (b : Bytes) (off : ℕ) (m seen : LocIndex)
    → 8 ≤ off
    → off ≤ length b
    → length b ≤ off + f
    → All (IsLocated b off) m
    → Follow b off seen
    → ((k : Key) → loc_of m k ≡ loc_of seen k)
    → IsScanned b (scan_from f b off m)
unfolding scan_from loc_at loc_of
scan_from-IsScanned zero b off m seen from le enough located path same =
    stopped b off m seen from le located path same (inl (omega arith))
scan_from-IsScanned (suc f) b off m seen from le enough located path same =
    elim (Bool-cases (ltb off (length b))) [
      | inr done ↦ rw done (stopped b off m seen from le located path same (inl (ground arith)))
      | inl more ↦ rw more (elim (Bool-cases (get_or b off 0 == tag_seal)) [
        | inl seal ↦ rw seal (elim (Result-cases (parse_footer b)) [
          | inl (fv, parsed) ↦ rw parsed (record {
            from = omega (arith, from, le);
            within = omega arith;
            located = IsLocated-later b off (length b) m le located;
            indexed = (off, seen, path, λ h. cc, λ _. ground (arith, seal), same);
            boundary = λ h. cc;
            whole = λ _. (refl, fv, parsed);
          })
          | inr (e, failed) ↦ rw failed (
              stopped b off m seen from le located path same
                (inr (inl (ground (arith, seal), e, failed))))
        ])
        | inr other ↦ rw other (elim (Result-cases (parse_record (drop off b))) [
          | inl (r, parsed) ↦
              let facts : IsParsed (drop off b) r = parse_record-IsParsed (drop off b) r parsed in
              let next : ℕ = off + (rec_header_size + r.slen) in
              let end : next ≤ length b = omega (arith, facts.within, length-drop off b) in
              rw parsed (
                scan_from-IsScanned f b next (put_loc m r.key (loc_at off r))
                  ((r.key, loc_at off r) ∷ seen) (omega (arith, from)) end (omega arith)
                  (put_loc-All (IsLocated b next) m r.key (loc_at off r) (parsed, omega arith)
                    (IsLocated-later b off next m (omega arith) located))
                  (behind r path (ground (arith, more))
                    (λ (h : get_or b off 0 ≡ tag_seal). ground (arith, other, h)) parsed)
                  (λ k. ground (arith, loc_of-put_loc m r.key k (loc_at off r), same k)))
          | inr (e, failed) ↦ rw failed (
              stopped b off m seen from le located path same (
                inr (inr (λ (h : get_or b off 0 ≡ tag_seal). ground (arith, other, h), e, failed))))
        ])
      ])
    ]

no_header : (b : Bytes) → length b ≤ 7 → take 8 b ≢ magic_header
no_header b short e = absurd (omega (arith, short, length-take 8 b, ap length e))

-- Of a file that starts with the header magic, the tail scan ends within its bound and returns a size
-- from the header on and within the file, and an index of which every entry points to a whole valid
-- record of its key before that size. An unsealed file holds whole records one after the other up to
-- the size, and there the file ends, or no record starts, or a footer should start and is not valid. A
-- file that is said to be sealed has a valid footer, the size is its length, and the records go up to
-- a seal tag. The index has of every key the last one of these records, and no other key. Of a file
-- without the magic the scan returns the size 0, an empty index, and not sealed.
pub scan_active-IsScan : (b : Bytes) → IsScan b (scan_active b)
unfolding scan_active
scan_active-IsScan b =
    let magic = bytes_eq_iff (take 8 b) magic_header in
    elim (Bool-cases (ltb (length b) 8 || not (bytes_eq (take 8 b) magic_header))) [
      | inl missing ↦ rw missing (record {
        headed = λ (h : IsHeaded b). absurd (ground (arith, missing, magic, h, no_header b));
        unheaded = λ _. (refl, refl, refl);
      })
      | inr there ↦ rw there (record {
        headed = λ _.
            scan_from-IsScanned (length b) b 8 [] [] (omega arith) (ground (arith, there))
              (omega arith) tt at_header (λ k. refl);
        unheaded = λ (h : take 8 b ≢ magic_header). absurd (ground (arith, there, magic, h));
      })
    ]
