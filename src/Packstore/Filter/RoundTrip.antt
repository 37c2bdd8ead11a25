-- ===== src/Packstore/Filter/RoundTrip.antt =====
-- A filter section that `buildFilterSection` wrote is read back, and has no false negatives.
use amber_store.Prelude.{
  ℕ, ◌+◌, ◌-◌, ◌*◌, ◌^◌, ◌≤◌, ◌<◌, ◌≡◌, refl, ◌∙◌, ap, arith, true, false, not, ◌||◌, inl, inr,
  Option, none, some, List, [], ◌∷◌, ◌++◌, ltb, ◌==◌, length, get_or, drop, slice, Bytes, All,
  put_be, get_be, bit_and, ok, length-append, length-put_be, drop-append, drop-append_exact, ==_iff,
  le→ltb, field_front, field_skip, ap₂, bytes_eq_iff, Option-cases,
}
use amber_store.Key.{Key}
use amber_store.Packstore.Index.{IndexEntry}
use amber_store.Packstore.Index.Sorted.{has_key}
use amber_store.Packstore.Filter.{
  Filter, FuseLibrary, IsFuse, filter_bytes, filter_key, tails, insert_tail, sort_tails,
  compact_from, compact, is_in, fingerprint_bytes, read_fingerprints, parse_filter_section,
  build_filter_section, filter_section,
}

length-fingerprint_bytes : (xs : List ℕ) → length (fingerprint_bytes xs) ≡ 2 * length xs
unfolding fingerprint_bytes
length-fingerprint_bytes [] = refl
length-fingerprint_bytes (x ∷ xs) = omega (
  arith,
  length-append (put_be 2 x) (fingerprint_bytes xs),
  length-put_be 2 x,
  length-fingerprint_bytes xs,
)

read_fingerprints-fingerprint_bytes :
    (xs : List ℕ)
    → All (λ x. x < 2 ^ 16) xs
    → read_fingerprints (length xs) (fingerprint_bytes xs) ≡ xs
unfolding fingerprint_bytes read_fingerprints
read_fingerprints-fingerprint_bytes [] h = refl
read_fingerprints-fingerprint_bytes (x ∷ xs) h =
    ap₂ (λ y ys. y ∷ ys) (field_front 2 x (fingerprint_bytes xs) (omega (arith, h.0)))
      (ap (read_fingerprints (length xs))
          (drop-append_exact (put_be 2 x) (fingerprint_bytes xs) (length-put_be 2 x))
        ∙ read_fingerprints-fingerprint_bytes xs h.1)

geometry_passes :
    (f : Filter)
    → IsFuse f
    → (f.segment_length == 0
        || not (bit_and f.segment_length (f.segment_length - 1) == 0)
        || not (f.segment_length_mask == f.segment_length - 1)
        || not (f.segment_count_length == f.segment_count * f.segment_length)
        || not (length f.fingerprints == f.segment_count_length + 2 * f.segment_length))
      ≡ false
geometry_passes f h = ground (arith, h.some_length, h.power_of_two, h.mask, h.total, h.cells)

-- Bytes whose fields are those of a filter.
record Holds (f : Filter) (b : Bytes) : Type 0 where
  type_byte : get_or b 0 0 ≡ 1
  whole : length b ≡ 29 + 2 * length f.fingerprints
  seed_field : get_be (slice b 1 9) ≡ f.seed
  length_field : get_be (slice b 9 13) ≡ f.segment_length
  mask_field : get_be (slice b 13 17) ≡ f.segment_length_mask
  count_field : get_be (slice b 17 21) ≡ f.segment_count
  total_field : get_be (slice b 21 25) ≡ f.segment_count_length
  cells_field : get_be (slice b 25 29) ≡ length f.fingerprints
  prints : read_fingerprints (length f.fingerprints) (drop 29 b) ≡ f.fingerprints

parse-Holds : (f : Filter) (b : Bytes) → IsFuse f → Holds f b → parse_filter_section b ≡ ok f
unfolding parse_filter_section
parse-Holds f b h s =
    let long : ltb (29 + 2 * length f.fingerprints) 29 ≡ false = le→ltb _ 29 (omega arith) in
    let same : (29 + 2 * length f.fingerprints == 29 + 2 * length f.fingerprints) ≡ true =
      (==_iff _ _).1 refl in
    let some_count : (f.segment_count == 0) ≡ false = ground (arith, h.some_segments) in
    rw (
      s.type_byte,
      s.whole,
      s.cells_field,
      s.seed_field,
      s.length_field,
      s.mask_field,
      s.count_field,
      s.total_field,
      s.prints,
      long,
      same,
      some_count,
      geometry_passes f h,
    )

filter_bytes-Holds : (f : Filter) → IsFuse f → Holds f (filter_bytes f)
unfolding filter_bytes
filter_bytes-Holds f h =
    let prints : Bytes = fingerprint_bytes f.fingerprints in
    let cells : Bytes = put_be 4 (length f.fingerprints) ++ prints in
    let totals : Bytes = put_be 4 f.segment_count_length ++ cells in
    let segments : Bytes = put_be 4 f.segment_count ++ totals in
    let masks : Bytes = put_be 4 f.segment_length_mask ++ segments in
    let lengths : Bytes = put_be 4 f.segment_length ++ masks in
    record {
      type_byte = refl;
      whole = omega (
        arith,
        length-append (put_be 8 f.seed) lengths,
        length-append (put_be 4 f.segment_length) masks,
        length-append (put_be 4 f.segment_length_mask) segments,
        length-append (put_be 4 f.segment_count) totals,
        length-append (put_be 4 f.segment_count_length) cells,
        length-append (put_be 4 (length f.fingerprints)) prints,
        length-put_be 8 f.seed,
        length-put_be 4 f.segment_length,
        length-put_be 4 f.segment_length_mask,
        length-put_be 4 f.segment_count,
        length-put_be 4 f.segment_count_length,
        length-put_be 4 (length f.fingerprints),
        length-fingerprint_bytes f.fingerprints,
      );
      seed_field = field_front 8 f.seed lengths (omega (arith, h.seed_width));
      length_field =
          ap get_be (field_skip 8 f.seed lengths 0 4)
          ∙ field_front 4 f.segment_length masks (omega (arith, h.cells, h.length_width));
      mask_field =
          ap get_be (field_skip 8 f.seed lengths 4 8 ∙ field_skip 4 f.segment_length masks 0 4)
          ∙ field_front 4 f.segment_length_mask segments
              (omega (arith, h.mask, h.cells, h.length_width));
      count_field =
          ap get_be (
            field_skip 8 f.seed lengths 8 12
            ∙ field_skip 4 f.segment_length masks 4 8
            ∙ field_skip 4 f.segment_length_mask segments 0 4)
          ∙ field_front 4 f.segment_count totals (omega (arith, h.count_width));
      total_field =
          ap get_be (
            field_skip 8 f.seed lengths 12 16
            ∙ field_skip 4 f.segment_length masks 8 12
            ∙ field_skip 4 f.segment_length_mask segments 4 8
            ∙ field_skip 4 f.segment_count totals 0 4)
          ∙ field_front 4 f.segment_count_length cells (omega (arith, h.cells, h.length_width));
      cells_field =
          ap get_be (
            field_skip 8 f.seed lengths 16 20
            ∙ field_skip 4 f.segment_length masks 12 16
            ∙ field_skip 4 f.segment_length_mask segments 8 12
            ∙ field_skip 4 f.segment_count totals 4 8
            ∙ field_skip 4 f.segment_count_length cells 0 4)
          ∙ field_front 4 (length f.fingerprints) prints (omega (arith, h.length_width));
      prints =
          ap (read_fingerprints (length f.fingerprints)) (
            drop-append (put_be 8 f.seed) lengths {n = 28} 20
              (omega (arith, length-put_be 8 f.seed))
            ∙ drop-append (put_be 4 f.segment_length) masks {n = 20} 16
                (omega (arith, length-put_be 4 f.segment_length))
            ∙ drop-append (put_be 4 f.segment_length_mask) segments {n = 16} 12
                (omega (arith, length-put_be 4 f.segment_length_mask))
            ∙ drop-append (put_be 4 f.segment_count) totals {n = 12} 8
                (omega (arith, length-put_be 4 f.segment_count))
            ∙ drop-append (put_be 4 f.segment_count_length) cells {n = 8} 4
                (omega (arith, length-put_be 4 f.segment_count_length))
            ∙ drop-append_exact (put_be 4 (length f.fingerprints)) prints {n = 4}
                (length-put_be 4 (length f.fingerprints)))
          ∙ read_fingerprints-fingerprint_bytes f.fingerprints h.fingerprint_width;
    }

-- A filter of the library's geometry whose numbers fit their fields is written and parsed again as it
-- was.
pub parse_filter_section-filter_bytes :
    (f : Filter) → IsFuse f → parse_filter_section (filter_bytes f) ≡ ok f
parse_filter_section-filter_bytes f h = parse-Holds f (filter_bytes f) h (filter_bytes-Holds f h)

is_in-insert_tail : (z x : ℕ) (ys : List ℕ) → is_in z (insert_tail x ys) ≡ (z == x || is_in z ys)
unfolding is_in insert_tail
is_in-insert_tail z x [] = refl
is_in-insert_tail z x (y ∷ ys) = ground (arith, is_in-insert_tail z x ys)

is_in-sort_tails : (z : ℕ) (xs : List ℕ) → is_in z (sort_tails xs) ≡ is_in z xs
unfolding is_in sort_tails
is_in-sort_tails z [] = refl
is_in-sort_tails z (x ∷ xs) =
    ground (arith, is_in-insert_tail z x (sort_tails xs), is_in-sort_tails z xs)

is_in-compact_from : (z x : ℕ) (ys : List ℕ) → is_in z (compact_from x ys) ≡ (z == x || is_in z ys)
unfolding is_in compact_from
is_in-compact_from z x [] = refl
is_in-compact_from z x (y ∷ ys) = ground (arith, is_in-compact_from z y ys)

is_in-compact : (z : ℕ) (xs : List ℕ) → is_in z (compact xs) ≡ is_in z xs
unfolding compact is_in
is_in-compact z [] = refl
is_in-compact z (x ∷ xs) = is_in-compact_from z x xs

is_in-tails :
    (es : List IndexEntry) (k : Key) → has_key es k ≡ true → is_in (filter_key k) (tails es) ≡ true
unfolding is_in tails has_key
is_in-tails [] k h = ground arith
is_in-tails (e ∷ es) k h = ground (arith, is_in-tails es k, bytes_eq_iff e.k k, ap filter_key)

-- What `buildFilterSection` writes is parsed as a filter that answers yes for every key of the rows.
pub build_filter_section-parses :
    (x : FuseLibrary) (es : List IndexEntry) (b : Bytes)
    → build_filter_section x es ≡ some b
    → (f : Filter) × IsFuse f
      × (b ≡ filter_bytes f)
      × (parse_filter_section b ≡ ok f)
      × ((k : Key) → has_key es k ≡ true → x.contains f (filter_key k) ≡ true)
unfolding build_filter_section filter_section
build_filter_section-parses x es b h =
    let keys : List ℕ = compact (sort_tails (tails es)) in
    elim (Option-cases (x.new_binary_fuse keys)) [
      | inl failed ↦ absurd (no_section h failed)
      | inr (f, built) ↦
          let same : b ≡ filter_bytes f = section_of h built in
          let fuse : IsFuse f = x.new-IsFuse keys f built in
          (
            f,
            fuse,
            same,
            rw same (parse_filter_section-filter_bytes f fuse),
            λ k found. x.contains-new keys f (filter_key k) built (
                is_in-compact (filter_key k) (sort_tails (tails es))
                ∙ is_in-sort_tails (filter_key k) (tails es)
                ∙ is_in-tails es k found),
          )
    ]
  where
    no_section : {o : Option Filter} → filter_section o ≡ some b → o ≡ none → ⊥
    no_section p q = ground arith

    section_of :
        {o : Option Filter} {f : Filter}
        → filter_section o ≡ some b
        → o ≡ some f
        → b ≡ filter_bytes f
    section_of p q = ground arith

pub length-filter_bytes : (f : Filter) → IsFuse f → 29 ≤ length (filter_bytes f)
length-filter_bytes f h = omega (arith, (filter_bytes-Holds f h).whole)

pub length-filter_bytes_le : (f : Filter) → IsFuse f → length (filter_bytes f) < 29 + 2 * 2 ^ 32
length-filter_bytes_le f h = omega (arith, (filter_bytes-Holds f h).whole, h.length_width)
