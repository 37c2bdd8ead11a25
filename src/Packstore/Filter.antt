-- ===== src/Packstore/Filter.antt =====
-- packstore/footer.go, the filter section of a sealed segment. The binary fuse filter is a library of
-- others: a `Filter` has the fields that the section stores, and building one and asking it are the
-- operations of a `FuseLibrary`, with what the package relies on.
pub mod RoundTrip
use amber_store.Prelude.{
  ℕ, zero, suc, ◌+◌, ◌-◌, ◌*◌, ◌^◌, ◌≤◌, ◌<◌, ◌≡◌, ◌≢◌, refl, sym, ◌∙◌, ap, arith, Bool, true,
  false, not, ◌||◌, ◌&&◌, Option, none, some, List, [], ◌∷◌, ◌++◌, ltb, ◌==◌, length, if◌then◌else◌,
  get_or, take, drop, slice, Bytes, All, IsU32, IsU64, put_be, get_be, bit_and, Result, ok, err,
  ◌>>◌, fail_if, length-append, length-put_be, take-append, drop-append, drop-append_exact,
  get_be-put_be, append_assoc, append-nil, ==_iff, le→ltb,
}
use amber_store.Key.{Key, size}
use amber_store.Packstore.Index.{IndexEntry}

abbrev pub filter_header_size : ℕ
filter_header_size = 29

abbrev pub filter_type_binary_fuse16 : ℕ
filter_type_binary_fuse16 = 1

pub data FilterError : Type 0 where
  filter_too_short unknown_filter_type bad_filter_length zero_segment_count bad_geometry :
      FilterError

-- xorfilter.BinaryFuse[uint16]
pub record Filter : Type 0 where
  pub seed : ℕ
  pub segment_length : ℕ
  pub segment_length_mask : ℕ
  pub segment_count : ℕ
  pub segment_count_length : ℕ
  pub fingerprints : List ℕ

-- The geometry of a filter that the library builds, in fields of their widths.
pub record IsFuse (f : Filter) : Type 0 where
  pub seed_width : IsU64 f.seed
  pub some_segments : f.segment_count ≢ 0
  pub some_length : f.segment_length ≢ 0
  pub power_of_two : bit_and f.segment_length (f.segment_length - 1) ≡ 0
  pub mask : f.segment_length_mask ≡ f.segment_length - 1
  pub total : f.segment_count_length ≡ f.segment_count * f.segment_length
  pub cells : length f.fingerprints ≡ f.segment_count_length + 2 * f.segment_length
  pub length_width : IsU32 (length f.fingerprints)
  pub count_width : IsU32 f.segment_count
  pub fingerprint_width : All (λ x. x < 2 ^ 16) f.fingerprints

-- The value is a member of the list.
unfoldable pub is_in : ℕ → List ℕ → Bool
is_in x [] = false
is_in x (y ∷ ys) = x == y || is_in x ys

-- NewBinaryFuse (`none` is an error) and Contains: a filter has no false negatives.
pub record FuseLibrary : Type 0 where
  pub new_binary_fuse : List ℕ → Option Filter
  pub contains : Filter → ℕ → Bool
  pub new-IsFuse : (keys : List ℕ) (f : Filter) → new_binary_fuse keys ≡ some f → IsFuse f
  pub contains-new :
      (keys : List ℕ) (f : Filter) (x : ℕ)
      → new_binary_fuse keys ≡ some f
      → is_in x keys ≡ true
      → contains f x ≡ true

-- The last 8 bytes of the key.
unfoldable pub filter_key : Key → ℕ
filter_key k = get_be (drop (size - 8) k)

unfoldable pub tails : List IndexEntry → List ℕ
tails [] = []
tails (e ∷ es) = filter_key e.k ∷ tails es

-- slices.Sort, as insertion.
unfoldable pub insert_tail : ℕ → List ℕ → List ℕ
insert_tail x [] = x ∷ []
insert_tail x (y ∷ ys) = if ltb y x then y ∷ insert_tail x ys else x ∷ y ∷ ys

unfoldable pub sort_tails : List ℕ → List ℕ
unfolding insert_tail
sort_tails [] = []
sort_tails (x ∷ xs) = insert_tail x (sort_tails xs)

-- slices.Compact: one of each run of equal elements.
unfoldable pub compact_from : ℕ → List ℕ → List ℕ
compact_from x [] = x ∷ []
compact_from x (y ∷ ys) = let rest = compact_from y ys in if x == y then rest else x ∷ rest

unfoldable pub compact : List ℕ → List ℕ
unfolding compact_from
compact [] = []
compact (x ∷ xs) = compact_from x xs

unfoldable pub fingerprint_bytes : List ℕ → Bytes
fingerprint_bytes [] = []
fingerprint_bytes (x ∷ xs) = put_be 2 x ++ fingerprint_bytes xs

unfoldable pub filter_bytes : Filter → Bytes
filter_bytes f =
    filter_type_binary_fuse16
    ∷ (put_be 8 f.seed
        ++ (put_be 4 f.segment_length
            ++ (put_be 4 f.segment_length_mask
                ++ (put_be 4 f.segment_count
                    ++ (put_be 4 f.segment_count_length
                        ++ (put_be 4 (length f.fingerprints)
                            ++ fingerprint_bytes f.fingerprints))))))

unfoldable pub filter_section : Option Filter → Option Bytes
filter_section none = none
filter_section (some f) = some (filter_bytes f)

unfoldable pub build_filter_section : FuseLibrary → List IndexEntry → Option Bytes
unfolding filter_section
build_filter_section x entries =
    filter_section (x.new_binary_fuse (compact (sort_tails (tails entries))))

-- The loop over the fingerprints: `n` are left.
unfoldable pub read_fingerprints : ℕ → Bytes → List ℕ
read_fingerprints zero b = []
read_fingerprints (suc n) b = get_be (take 2 b) ∷ read_fingerprints n (drop 2 b)

unfoldable pub parse_filter_section : Bytes → Result FilterError Filter
parse_filter_section b =
    let fp_count = get_be (slice b 25 29) in
    let seg_len = get_be (slice b 9 13) in
    let seg_len_mask = get_be (slice b 13 17) in
    let seg_count = get_be (slice b 17 21) in
    let seg_count_len = get_be (slice b 21 25) in
    do
      fail_if (ltb (length b) filter_header_size) filter_too_short
      fail_if (not (get_or b 0 0 == filter_type_binary_fuse16)) unknown_filter_type
      fail_if (not (length b == filter_header_size + 2 * fp_count)) bad_filter_length
      fail_if (seg_count == 0) zero_segment_count
      fail_if
          (seg_len == 0
            || not (bit_and seg_len (seg_len - 1) == 0)
            || not (seg_len_mask == seg_len - 1)
            || not (seg_count_len == seg_count * seg_len)
            || not (fp_count == seg_count_len + 2 * seg_len))
          bad_geometry
      ok (record {
        seed = get_be (slice b 1 9);
        segment_length = seg_len;
        segment_length_mask = seg_len_mask;
        segment_count = seg_count;
        segment_count_length = seg_count_len;
        fingerprints = read_fingerprints fp_count (drop filter_header_size b);
      })
