-- ===== src/Packstore/Footer/RoundTrip.antt =====
-- A footer that `buildFooter` wrote behind a body is parsed again, and its lookups are exact.
use amber_store.Prelude.{
  ℕ, ◌+◌, ◌-◌, ◌*◌, ◌^◌, ◌≤◌, ◌<◌, ◌≡◌, refl, sym, ◌∙◌, ap, arith, true, false, not, ◌||◌, none,
  some, List, [], ◌∷◌, ◌++◌, ltb, leb, ◌==◌, ==_iff, length, get_or, take, drop, slice, Bytes, All,
  bytes_eq_refl, ok, fail_if_inv, length-append, append_assoc, take-append_le, drop-append_exact,
  get_or-append, slice_middle, le→ltb,
}
use amber_store.Key.{Key}
use amber_store.Key.Fields.{IsArray32}
use amber_store.Amberpack.Crc.{checksum}
use amber_store.Packstore.{tag_seal, magic_header, magic_trailer}
use amber_store.Packstore.Index.{
  IndexEntry, fanout_size, index_entry_size, build_index_section, parse_index_section,
}
use amber_store.Packstore.Index.Sorted.{IsRow, IsDistinct, find, has_key}
use amber_store.Packstore.Index.Lookup.{
  search_index-build_index_section, length-build_index_section,
}
use amber_store.Packstore.Index.Listed.{AreListed, build_index_section-AreListed}
use amber_store.Packstore.Filter.{
  Filter, FuseLibrary, filter_key, filter_header_size, build_filter_section, parse_filter_section,
}
use amber_store.Packstore.Filter.RoundTrip.{
  build_filter_section-parses, length-filter_bytes, length-filter_bytes_le,
}
use amber_store.Packstore.Footer.{
  FooterView, SealedSegment, trailer_size, trailer_fields, seal_with, footer_of, build_footer,
  parse_footer, lookup, open_sealed, probe,
}
use amber_store.Packstore.Footer.Trailer.{
  trailer_end, TrailerHolds, trailer-TrailerHolds, length-trailer_fields, length-trailer_end,
}

-- What a whole file of a body and a footer holds, where the parts are given.
record FileHolds (body idx filt : Bytes) (kc : ℕ) (head mm : Bytes) : Type 0 where
  header : slice mm 0 8 ≡ magic_header
  trailer : TrailerHolds (length body) (length idx) (length filt) kc head (drop (length mm - 64) mm)
  whole : length mm ≡ length body + 1 + length idx + length filt + 64
  long : 8 ≤ length body
  index_length : length idx ≡ 1024 + kc * 44
  some_keys : 1 ≤ kc
  filter_length : 29 ≤ length filt
  few : kc < 2 ^ 32
  covered : slice mm (length body) (length mm - 16) ≡ head
  seal_byte : get_or mm (length body) 0 ≡ tag_seal
  index_section : slice mm (length body + 1) (length body + 1 + length idx) ≡ idx
  filter_section :
      slice mm (length body + 1 + length idx) (length body + 1 + length idx + length filt) ≡ filt

offsets_pass :
    (n bl il fl kc : ℕ)
    → n ≡ bl + 1 + il + fl + 64
    → 8 ≤ bl
    → il ≡ 1024 + kc * 44
    → kc < 2 ^ 32
    → (ltb bl 8
        || leb n bl
        || ltb (2 ^ 32 - 1) kc
        || not (bl + 1 == bl + 1)
        || not (il == fanout_size + kc * index_entry_size)
        || not (bl + 1 + il == bl + 1 + il)
        || ltb (n - 64) (bl + 1 + il)
        || not (fl == n - 64 - (bl + 1 + il)))
      ≡ false
offsets_pass n bl il fl kc whole long index few =
    let a : ltb bl 8 ≡ false = le→ltb bl 8 long in
    let b : leb n bl ≡ false = ground arith in
    let c : ltb (2 ^ 32 - 1) kc ≡ false = le→ltb (2 ^ 32 - 1) kc (omega arith) in
    let d : (bl + 1 == bl + 1) ≡ true = (==_iff (bl + 1) (bl + 1)).1 refl in
    let e : (il == fanout_size + kc * index_entry_size) ≡ true = (==_iff il _).1 index in
    let f : (bl + 1 + il == bl + 1 + il) ≡ true = (==_iff (bl + 1 + il) (bl + 1 + il)).1 refl in
    let g : ltb (n - 64) (bl + 1 + il) ≡ false = le→ltb (n - 64) (bl + 1 + il) (omega arith) in
    let h : (fl == n - 64 - (bl + 1 + il)) ≡ true = (==_iff fl _).1 (omega arith) in
    rw (a, b, c, d, e, f, g, h)

parse_footer-FileHolds :
    (body idx filt : Bytes) (kc : ℕ) (head mm : Bytes) (fanout : List ℕ) (rows : Bytes) (f : Filter)
    → FileHolds body idx filt kc head mm
    → parse_index_section idx kc ≡ ok (fanout, rows)
    → parse_filter_section filt ≡ ok f
    → parse_footer mm
      ≡ ok (record {
        fanout = fanout;
        entries = rows;
        filter = f;
        key_count = kc;
        body_len = length body;
        index_off = length body + 1;
        index_len = length idx;
      })
unfolding parse_footer
parse_footer-FileHolds body idx filt kc head mm fanout rows f h p q =
    let t = h.trailer in
    let min : ltb (length mm)
          (8 + 1 + fanout_size + index_entry_size + filter_header_size + trailer_size)
        ≡ false =
      le→ltb (length mm) 1170
        (omega (arith, h.whole, h.long, h.index_length, h.some_keys, h.filter_length)) in
    let sum : (checksum head == checksum head) ≡ true =
      (==_iff (checksum head) (checksum head)).1 refl in
    rw (
      min,
      h.header,
      t.magic_field,
      t.reserved_field,
      t.index_off_field,
      t.index_len_field,
      t.filter_off_field,
      t.filter_len_field,
      t.key_count_field,
      t.body_len_field,
      t.crc_field,
      h.covered,
      h.seal_byte,
      h.index_section,
      h.filter_section,
      sum,
      p,
      q,
      bytes_eq_refl magic_header,
      bytes_eq_refl magic_trailer,
      offsets_pass (length mm) (length body) (length idx) (length filt) kc h.whole h.long
          h.index_length h.few,
    )

-- The parts of a sealed file.
abbrev footer_head : Bytes → Bytes → Bytes → ℕ → Bytes
footer_head body idx filt kc =
    tag_seal ∷ (idx ++ (filt ++ trailer_fields (length body) (length idx) (length filt) kc))

flat_file :
    (body idx filt fields e : Bytes)
    → body ++ ((tag_seal ∷ (idx ++ (filt ++ fields))) ++ e)
      ≡ body ++ (tag_seal ∷ (idx ++ (filt ++ (fields ++ e))))
flat_file body idx filt fields e =
    ap (λ (l : Bytes). body ++ (tag_seal ∷ l))
      (append_assoc idx (filt ++ fields) e
        ∙ ap (λ (l : Bytes). idx ++ l) (append_assoc filt fields e))

before_index :
    (body idx r : Bytes) → body ++ (tag_seal ∷ (idx ++ r)) ≡ (body ++ (tag_seal ∷ [])) ++ (idx ++ r)
before_index body idx r = sym (append_assoc body (tag_seal ∷ []) (idx ++ r))

before_filter :
    (body idx filt r : Bytes)
    → body ++ (tag_seal ∷ (idx ++ (filt ++ r))) ≡ (body ++ (tag_seal ∷ idx)) ++ (filt ++ r)
before_filter body idx filt r = sym (append_assoc body (tag_seal ∷ idx) (filt ++ r))

before_trailer :
    (body idx filt r : Bytes)
    → body ++ (tag_seal ∷ (idx ++ (filt ++ r))) ≡ (body ++ (tag_seal ∷ (idx ++ filt))) ++ r
before_trailer body idx filt r =
    ap (λ (l : Bytes). body ++ (tag_seal ∷ l)) (sym (append_assoc idx filt r))
    ∙ sym (append_assoc body (tag_seal ∷ (idx ++ filt)) r)

length-footer_head :
    (body idx filt : Bytes) (kc : ℕ)
    → length (footer_head body idx filt kc) ≡ 1 + length idx + length filt + 48
length-footer_head body idx filt kc =
    let fields : Bytes = trailer_fields (length body) (length idx) (length filt) kc in
    omega (
      arith,
      length-append idx (filt ++ fields),
      length-append filt fields,
      length-trailer_fields (length body) (length idx) (length filt) kc,
    )

sealed-FileHolds :
    (body idx filt mm : Bytes) (kc : ℕ)
    → take 8 body ≡ magic_header
    → 8 ≤ length body
    → length idx ≡ 1024 + kc * 44
    → 1 ≤ kc
    → kc < 2 ^ 32
    → 29 ≤ length filt
    → length body + 1 + length idx + length filt < 2 ^ 64
    → mm ≡ body ++ (footer_head body idx filt kc ++ trailer_end (footer_head body idx filt kc))
    → FileHolds body idx filt kc (footer_head body idx filt kc) mm
sealed-FileHolds body idx filt mm kc header long il nonempty few fl fits same =
    let fields : Bytes = trailer_fields (length body) (length idx) (length filt) kc in
    let head : Bytes = footer_head body idx filt kc in
    let e : Bytes = trailer_end head in
    let flat : mm ≡ body ++ (tag_seal ∷ (idx ++ (filt ++ (fields ++ e)))) =
      same ∙ flat_file body idx filt fields e in
    let whole : length mm ≡ length body + 1 + length idx + length filt + 64 =
      ap length same
      ∙ omega (
        arith,
        length-append body (head ++ e),
        length-append head e,
        length-footer_head body idx filt kc,
        length-trailer_end head,
      ) in
    record {
      header = ap (λ (l : Bytes). take 8 l) same ∙ take-append_le body (head ++ e) long ∙ header;
      trailer =
          trailer-TrailerHolds (length body) (length idx) (length filt) kc head
            (drop (length mm - 64) mm) (omega arith) few
            (ap (λ (l : Bytes). drop (length mm - 64) l)
                (flat ∙ before_trailer body idx filt (fields ++ e))
              ∙ drop-append_exact (body ++ (tag_seal ∷ (idx ++ filt))) (fields ++ e) (
                  omega (
                    arith,
                    length-append body (tag_seal ∷ (idx ++ filt)),
                    length-append idx filt,
                  )));
      whole = whole;
      long = long;
      index_length = il;
      some_keys = nonempty;
      filter_length = fl;
      few = few;
      covered =
          ap (λ (l : Bytes). slice l (length body) (length mm - 16)) same
          ∙ slice_middle body head e (length body) (length mm - 16) refl
              (omega (arith, length-footer_head body idx filt kc));
      seal_byte =
          ap (λ (l : Bytes). get_or l (length body) 0) same
          ∙ get_or-append body (head ++ e) 0 0 (omega arith);
      index_section =
          ap (λ (l : Bytes). slice l (length body + 1) (length body + 1 + length idx))
            (flat ∙ before_index body idx (filt ++ (fields ++ e)))
          ∙ slice_middle (body ++ (tag_seal ∷ [])) idx (filt ++ (fields ++ e)) (length body + 1)
              (length body + 1 + length idx) (omega (arith, length-append body (tag_seal ∷ [])))
              refl;
      filter_section =
          ap
            (λ (l : Bytes).
              slice l (length body + 1 + length idx) (length body + 1 + length idx + length filt))
            (flat ∙ before_filter body idx filt (fields ++ e))
          ∙ slice_middle (body ++ (tag_seal ∷ idx)) filt (fields ++ e)
              (length body + 1 + length idx) (length body + 1 + length idx + length filt)
              (omega (arith, length-append body (tag_seal ∷ idx))) refl;
    }

build_footer_inv :
    (x : FuseLibrary) (bl : ℕ) (es : List IndexEntry) (footer : Bytes)
    → build_footer x bl es ≡ ok footer
    → (1 ≤ length es)
      × (filt : Bytes) × (build_filter_section x es ≡ some filt)
      × (footer
          ≡ seal_with (
              tag_seal
              ∷ (build_index_section es
                  ++ (filt
                      ++ trailer_fields bl
                          (length (build_index_section es))
                          (length filt)
                          (length es)))))
unfolding build_footer footer_of
build_footer_inv x bl es footer h = ground arith

-- What a reader of a sealed file knows of the entries that were sealed.
pub record Serves (x : FuseLibrary) (es : List IndexEntry) (fv : FooterView) : Type 0 where
  pub exact : (k : Key) → IsArray32 k → lookup fv k ≡ find es k
  pub no_false_negative :
      (k : Key) → has_key es k ≡ true → x.contains fv.filter (filter_key k) ≡ true
  pub rows : AreListed fv.fanout fv.entries fv.key_count

-- A footer that `buildFooter` wrote behind a body that begins with the header magic, for rows of
-- distinct 32-byte keys (less than 2^32 of them, their numbers fitting their fields, the file shorter
-- than 2^64), is parsed by `parseFooter` to the end of that body, a lookup that finds exactly the rows,
-- and a filter that passes every key of them.
pub parse_footer-build_footer :
    (x : FuseLibrary) (body footer : Bytes) (es : List IndexEntry)
    → take 8 body ≡ magic_header
    → 8 ≤ length body
    → All IsRow es
    → IsDistinct es
    → length es < 2 ^ 32
    → length body + length footer < 2 ^ 64
    → build_footer x (length body) es ≡ ok footer
    → (fv : FooterView) × (parse_footer (body ++ footer) ≡ ok fv)
      × (fv.body_len ≡ length body)
      × Serves x es fv
unfolding seal_with lookup
parse_footer-build_footer x body footer es header long rs d few fits h =
    let (nonempty, filt, built, shape) = build_footer_inv x (length body) es footer h in
    let (f, fuse, same, parsed, members) = build_filter_section-parses x es filt built in
    let (fanout, rows, sections, exact) = search_index-build_index_section es rs d few in
    let idx : Bytes = build_index_section es in
    let il : length idx ≡ 1024 + length es * 44 = length-build_index_section es rs in
    let fl : 29 ≤ length filt = omega (arith, ap length same, length-filter_bytes f fuse) in
    let total : length footer ≡ 1 + length idx + length filt + 48 + 16 =
      ap length shape
      ∙ omega (
        arith,
        length-append (footer_head body idx filt (length es))
            (trailer_end (footer_head body idx filt (length es))),
        length-footer_head body idx filt (length es),
        length-trailer_end (footer_head body idx filt (length es)),
      ) in
    let holds : FileHolds body idx filt (length es) (footer_head body idx filt (length es))
        (body ++ footer) =
      sealed-FileHolds body idx filt (body ++ footer) (length es) header long il nonempty few fl
        (omega arith) (ap (λ (l : Bytes). body ++ l) shape) in
    (
      record {
        fanout = fanout;
        entries = rows;
        filter = f;
        key_count = length es;
        body_len = length body;
        index_off = length body + 1;
        index_len = length idx;
      },
      parse_footer-FileHolds body idx filt (length es) (footer_head body idx filt (length es))
          (body ++ footer) fanout rows f holds sections parsed,
      refl,
      record {
        exact = exact;
        no_false_negative = members;
        rows = build_index_section-AreListed es fanout rows rs d few sections;
      },
    )

missing_unless_found : (es : List IndexEntry) (k : Key) → has_key es k ≡ false → find es k ≡ none
unfolding find has_key
missing_unless_found [] k h = refl
missing_unless_found (e ∷ es) k h = ground (arith, missing_unless_found es k)

pub probe-find :
    (x : FuseLibrary) (g : SealedSegment) (es : List IndexEntry) (k : Key)
    → IsArray32 k
    → Serves x es g.fv
    → probe x g k ≡ find es k
unfolding probe
probe-find x g es k bytes s =
    ground (arith, s.exact k bytes, s.no_false_negative k, missing_unless_found es k)

parse_footer_long :
    (mm : Bytes) (fv : FooterView)
    → parse_footer mm ≡ ok fv
    → ltb (length mm) (8 + 1 + fanout_size + index_entry_size + filter_header_size + trailer_size)
      ≡ false
unfolding parse_footer
parse_footer_long mm fv p = (fail_if_inv _ _ _ p).0

-- A segment that was sealed (as for `parse_footer-build_footer`) is opened, and asking it for any
-- 32-byte key, the filter first and then the index, finds the offset and length of that key's row
-- exactly when there is one.
pub open_sealed-build_footer :
    (x : FuseLibrary) (id : ℕ) (body footer : Bytes) (es : List IndexEntry)
    → take 8 body ≡ magic_header
    → 8 ≤ length body
    → All IsRow es
    → IsDistinct es
    → length es < 2 ^ 32
    → length body + length footer < 2 ^ 64
    → build_footer x (length body) es ≡ ok footer
    → (g : SealedSegment) × (open_sealed id (body ++ footer) ≡ ok g)
      × (g.mm ≡ body ++ footer)
      × (g.fv.body_len ≡ length body)
      × ((k : Key) → IsArray32 k → probe x g k ≡ find es k)
unfolding open_sealed
open_sealed-build_footer x id body footer es header long rs d few fits h =
    let (fv, parsed, end, serves) =
      parse_footer-build_footer x body footer es header long rs d few fits h in
    let g : SealedSegment = record { id = id; mm = body ++ footer; fv = fv } in
    (
      g,
      opened id (body ++ footer) fv parsed,
      refl,
      end,
      λ k bytes. probe-find x g es k bytes serves,
    )
  where
    opened :
        (id : ℕ) (mm : Bytes) (fv : FooterView)
        → parse_footer mm ≡ ok fv
        → open_sealed id mm ≡ ok (record { id = id; mm = mm; fv = fv })
    opened id mm fv p = rw (parse_footer_long mm fv p, p)

-- A footer is shorter than 2^63 with room to spare.
pub length-build_footer :
    (x : FuseLibrary) (bl : ℕ) (es : List IndexEntry) (footer : Bytes)
    → All IsRow es
    → build_footer x bl es ≡ ok footer
    → length footer < 2000 + length es * 44 + 2 * 2 ^ 32
unfolding seal_with
length-build_footer x bl es footer rs h =
    let (nonempty, filt, built, shape) = build_footer_inv x bl es footer h in
    let (f, fuse, same, parsed, members) = build_filter_section-parses x es filt built in
    let idx : Bytes = build_index_section es in
    let fields : Bytes = trailer_fields bl (length idx) (length filt) (length es) in
    let head : Bytes = tag_seal ∷ (idx ++ (filt ++ fields)) in
    omega (
      arith,
      ap length shape,
      length-append head (trailer_end head),
      length-append idx (filt ++ fields),
      length-append filt fields,
      length-trailer_fields bl (length idx) (length filt) (length es),
      length-trailer_end head,
      length-build_index_section es rs,
      ap length same,
      length-filter_bytes_le f fuse,
    )
