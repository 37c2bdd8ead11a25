-- ===== src/Packstore/Index/Lookup.antt =====
-- `searchIndex` on a section that `buildIndexSection` wrote is an exact lookup.
use amber_store.Prelude.{
  ℕ, zero, suc, ◌+◌, ◌-◌, ◌*◌, ◌%◌, ◌^◌, ◌≤◌, ◌<◌, ◌≡◌, ◌≢◌, ◌↔◌, refl, sym, ◌∙◌, ap, subst, arith,
  List, [], ◌∷◌, ◌++◌, Bool, true, false, not, ltb, ◌==◌, length, get_or, drop, if◌then◌else◌, inl,
  inr, Option, none, some, Bytes, All, IsByte, bytes_eq, bytes_eq_iff, bytes_eq_refl, bytes_less,
  bytes_less_irrefl, bytes_less_trans, length-append, drop-append_exact, ok, ==_iff, le→ltb, lt→ltb,
  Bool-cases,
}
use amber_store.Key.{Key}
use amber_store.Key.Fields.{IsArray32}
use amber_store.Packstore.Index.{
  IndexEntry, last_byte, entry_less, fanout_bytes, index_rows, sort_entries, build_index_section,
  read_fanout, parse_index_section, search, search_index_pos, search_index, row_key, row_values,
}
use amber_store.Packstore.Index.Sorted.{
  IsRow, IsSorted, IsDistinct, find, row, All-row, row-IsSorted, sort_entries-All,
  sort_entries-IsSorted, find-sort_entries, length-sort_entries, find-cases,
}
use amber_store.Packstore.Index.Search.{
  IsMonotone, IsLeast, search-IsLeast, below, below-le, below_zero, below_le_next, below-All,
  counts, get_or-counts, length-fanout_bytes,
}
use amber_store.Packstore.Index.Rows.{
  read_fanout-fanout_bytes, length-index_rows, row_key-index_rows, row_value-index_rows,
}

none_below :
    (e : IndexEntry) (es : List IndexEntry) (b : ℕ)
    → b ≤ last_byte e.k
    → All (λ f. entry_less e f ≡ true) es
    → below es b ≡ 0
unfolding below entry_less
none_below e [] b le s = refl
none_below e (f ∷ fs) b le s = ground (arith, none_below e fs b le s.1)

later_at_least : (e f : IndexEntry) → entry_less e f ≡ true → last_byte e.k ≤ last_byte f.k
unfolding entry_less
later_at_least e f h = ground arith

-- In sorted rows the fanout counts are positions: the rows before the count are those whose keys end
-- in a smaller byte.
pub below-rank :
    (es : List IndexEntry) (b q : ℕ)
    → IsSorted es
    → q < length es
    → (q < below es b) ↔ (last_byte (row es q).k < b)
unfolding below
below-rank [] b q s h = absurd (omega arith)
below-rank (e ∷ es) b zero s h = ground (arith, none_below e es b, below-le es b)
below-rank (e ∷ es) b (suc q) s h = ground (
  arith,
  none_below e es b,
  below-rank es b q s.1,
  later_at_least e (row es q),
  All-row (λ f. entry_less e f ≡ true) es q s.0,
)

-- Rows with one last byte are ordered by their keys.
less_in_bucket :
    (e f : IndexEntry)
    → last_byte e.k ≡ last_byte f.k
    → entry_less e f ≡ true
    → bytes_less e.k f.k ≡ true
unfolding entry_less
less_in_bucket e f h l = ground arith

bucket_order :
    (es : List IndexEntry) (x y : ℕ)
    → IsSorted es
    → x < y
    → y < length es
    → last_byte (row es x).k ≡ last_byte (row es y).k
    → bytes_less (row es x).k (row es y).k ≡ true
bucket_order es x y s h l same =
    less_in_bucket (row es x) (row es y) same (row-IsSorted es x y s h l)

in_bucket :
    (es : List IndexEntry) (b q : ℕ)
    → IsSorted es
    → q < length es
    → below es b ≤ q
    → q < below es (b + 1)
    → last_byte (row es q).k ≡ b
in_bucket es b q s h lo hi = ground (arith, below-rank es b q s h, below-rank es (b + 1) q s h)

of_bucket :
    (es : List IndexEntry) (b q : ℕ)
    → IsSorted es
    → q < length es
    → last_byte (row es q).k ≡ b
    → (below es b ≤ q) × (q < below es (b + 1))
of_bucket es b q s h same = ground (arith, below-rank es b q s h, below-rank es (b + 1) q s h)

-- The test of the binary search, at the row `i` of the bucket that begins at `lo`.
abbrev pub not_less : List IndexEntry → Key → ℕ → ℕ → Bool
not_less es k lo i = not (bytes_less (row_key (index_rows es) (lo + i)) k)

not_less_lem :
    (es : List IndexEntry) (k : Key) (lo i : ℕ)
    → All IsRow es
    → lo + i < length es
    → not_less es k lo i ≡ not (bytes_less (row es (lo + i)).k k)
not_less_lem es k lo i rs h =
    ap (λ l. not (bytes_less l k))
      (row_key-index_rows es (lo + i) rs h (All-row IsRow es (lo + i) rs h).0.0)

ordered_keys :
    (a b k : Key)
    → bytes_less a b ≡ true
    → not (bytes_less a k) ≡ true
    → not (bytes_less b k) ≡ true
ordered_keys a b k l h = ground (arith, bytes_less_trans a b k)

pub not_less-IsMonotone :
    (es : List IndexEntry) (k : Key) (b : ℕ)
    → All IsRow es
    → IsSorted es
    → IsMonotone (not_less es k (below es b)) 0 (below es (b + 1) - below es b)
not_less-IsMonotone es k b rs s x y from le upto h =
    let lo : ℕ = below es b in
    let end : below es (b + 1) ≤ length es = below-le es (b + 1) in
    elim (Bool-cases (ltb x y)) [
      | inl less ↦
          let lt : x < y = ground arith in
          let same : last_byte (row es (lo + x)).k ≡ last_byte (row es (lo + y)).k =
            in_bucket es b (lo + x) s (omega arith) (omega arith) (omega arith)
            ∙ sym (in_bucket es b (lo + y) s (omega arith) (omega arith) (omega arith)) in
          not_less_lem es k lo y rs (omega arith)
          ∙ ordered_keys (row es (lo + x)).k (row es (lo + y)).k k
              (bucket_order es (lo + x) (lo + y) s (omega arith) (omega arith) same)
              (sym (not_less_lem es k lo x rs (omega arith)) ∙ h)
      | inr not_less' ↦ let same : x ≡ y = ground arith in ap (not_less es k lo) (sym same) ∙ h
    ]

previous_count :
    (es : List IndexEntry) (b : ℕ)
    → b < 256
    → b ≢ 0
    → get_or (counts es 256 0) (b - 1) 0 ≡ below es b
previous_count es b h pos =
    get_or-counts es 256 0 (b - 1) (omega arith) ∙ ap (below es) (omega arith)

-- The bucket of a last byte, as `searchIndexPos` reads it from the table.
bucket_start :
    (es : List IndexEntry) (b : ℕ)
    → b < 256
    → (if b == 0 then 0 else get_or (counts es 256 0) (b - 1) 0) ≡ below es b
bucket_start es b h = ground (arith, below_zero es, previous_count es b)

bucket_end :
    (es : List IndexEntry) (b : ℕ) → b < 256 → get_or (counts es 256 0) b 0 ≡ below es (b + 1)
bucket_end es b h = get_or-counts es 256 0 b h ∙ ap (below es) (omega arith)

-- What becomes of the position that the binary search returns.
unfoldable pub chosen : List IndexEntry → Key → ℕ → ℕ → ℕ → Option ℕ
chosen es k lo n i =
    if not (ltb i n)
    then none
    else if bytes_eq (row_key (index_rows es) (lo + i)) k
    then some (lo + i)
    else none

pub search_index_pos-chosen :
    (es : List IndexEntry) (k : Key)
    → length es < 2 ^ 32
    → last_byte k < 256
    → let lo = below es (last_byte k) in
      let n = below es (last_byte k + 1) - lo in
      search_index_pos (counts es 256 0) (index_rows es) k
      ≡ chosen es k lo n (search (not_less es k lo) n 0 n)
unfolding search_index_pos chosen
search_index_pos-chosen es k h byte =
    let b : ℕ = last_byte k in
    let width : (below es (b + 1) + 2 ^ 32 - below es b) % 2 ^ 32 ≡ below es (b + 1) - below es b =
      omega (arith, below-le es (b + 1), below_le_next es b) in
    rw (bucket_start es b byte, bucket_end es b byte, width)

-- A row of the bucket before the one of the key fails the test.
earlier_less :
    (es : List IndexEntry) (k : Key) (q i : ℕ)
    → All IsRow es
    → IsSorted es
    → q < length es
    → (row es q).k ≡ k
    → below es (last_byte k) ≤ q
    → q < below es (last_byte k + 1)
    → i < q - below es (last_byte k)
    → not_less es k (below es (last_byte k)) i ≡ false
earlier_less es k q i rs s h same from upto lt =
    let b : ℕ = last_byte k in
    let lo : ℕ = below es b in
    let alike : last_byte (row es (lo + i)).k ≡ last_byte (row es q).k =
      in_bucket es b (lo + i) s (omega arith) (omega arith) (omega arith)
      ∙ sym (ap last_byte same) in
    let less : bytes_less (row es (lo + i)).k k ≡ true =
      rw same at (bucket_order es (lo + i) q s (omega arith) h alike) in
    not_less_lem es k lo i rs (omega arith) ∙ ap not less

pub chosen_found :
    (es : List IndexEntry) (k : Key) (q i : ℕ)
    → All IsRow es
    → IsSorted es
    → q < length es
    → (row es q).k ≡ k
    → let lo = below es (last_byte k) in
      let n = below es (last_byte k + 1) - lo in
      IsLeast (not_less es k lo) 0 n i → chosen es k lo n i ≡ some q
unfolding chosen
chosen_found es k q i rs s h same least =
    let b : ℕ = last_byte k in
    let lo : ℕ = below es b in
    let (from, upto) = of_bucket es b q s h (ap last_byte same) in
    let position : lo + (q - lo) ≡ q = omega arith in
    let here : not_less es k lo (q - lo) ≡ true =
      not_less_lem es k lo (q - lo) rs (omega arith) ∙ (rw (position, same, bytes_less_irrefl k)) in
    let no_later : i ≤ q - lo = ground (arith, here, least.before (q - lo)) in
    let no_earlier : q - lo ≤ i =
      ground (arith, least.holds, earlier_less es k q i rs s h same from upto) in
    let found : lo + i ≡ q = omega arith in
    let key_there : row_key (index_rows es) q ≡ k =
      row_key-index_rows es q rs h (All-row IsRow es q rs h).0.0 ∙ same in
    let inside : ltb i (below es (b + 1) - lo) ≡ true = lt→ltb i _ (omega arith) in
    rw (inside, found, key_there, bytes_eq_refl k)

chosen_missing :
    (es : List IndexEntry) (k : Key) (i : ℕ)
    → All IsRow es
    → ((q : ℕ) → q < length es → (row es q).k ≢ k)
    → let lo = below es (last_byte k) in
      let n = below es (last_byte k + 1) - lo in chosen es k lo n i ≡ none
unfolding chosen
chosen_missing es k i rs other =
    let lo : ℕ = below es (last_byte k) in
    let end : below es (last_byte k + 1) ≤ length es = below-le es (last_byte k + 1) in
    elim (Bool-cases (ltb i (below es (last_byte k + 1) - lo))) [
      | inl inside ↦
          let within : lo + i < length es = ground arith in
          let key_there : row_key (index_rows es) (lo + i) ≡ (row es (lo + i)).k =
            row_key-index_rows es (lo + i) rs within (All-row IsRow es (lo + i) rs within).0.0 in
          rw (inside, key_there, differs (row es (lo + i)).k k (other (lo + i) within))
      | inr outside ↦ rw outside
    ]
  where
    differs : (a b : Key) → a ≢ b → bytes_eq a b ≡ false
    differs a b h = ground (arith, bytes_eq_iff a b)

pub last_byte-IsByte : (k : Key) → All IsByte k → last_byte k < 256
unfolding last_byte
last_byte-IsByte k bytes = byte_at k 31 bytes
  where
    byte_at : (l : Bytes) (i : ℕ) → All IsByte l → get_or l i 0 < 256
    byte_at [] i h = omega arith
    byte_at (x ∷ l) zero h = h.0
    byte_at (x ∷ l) (suc i) h = byte_at l i h.1

pub search_index-find :
    (es : List IndexEntry) (k : Key)
    → All IsRow es
    → IsSorted es
    → length es < 2 ^ 32
    → IsArray32 k
    → search_index (counts es 256 0) (index_rows es) k ≡ find es k
unfolding search_index row_values
search_index-find es k rs s small bytes =
    let byte : last_byte k < 256 = last_byte-IsByte k bytes.1 in
    let lo : ℕ = below es (last_byte k) in
    let n : ℕ = below es (last_byte k + 1) - lo in
    let least : IsLeast (not_less es k lo) 0 n (search (not_less es k lo) n 0 n) =
      search-IsLeast (not_less es k lo) n 0 n (omega arith) (omega arith)
        (not_less-IsMonotone es k (last_byte k) rs s) in
    elim (find-cases es k) [
      | inl (q, h, same, found) ↦
          rw
            (
              search_index_pos-chosen es k small byte,
              chosen_found es k q (search (not_less es k lo) n 0 n) rs s h same least,
              row_value-index_rows es q rs h (All-row IsRow es q rs h),
            )
            (sym found)
      | inr (missing, other) ↦
          rw
            (
              search_index_pos-chosen es k small byte,
              chosen_missing es k (search (not_less es k lo) n 0 n) rs other,
            )
            (sym missing)
    ]

last_bytes : (es : List IndexEntry) → All IsRow es → All (λ e. last_byte e.k < 256) es
last_bytes [] rs = tt
last_bytes (e ∷ es) rs = (last_byte-IsByte e.k rs.0.0.1, last_bytes es rs.1)

==_refl : (n : ℕ) → (n == n) ≡ true
==_refl n = (==_iff n n).1 refl

pub parse_index_section-sorted :
    (es : List IndexEntry)
    → All IsRow es
    → length es < 2 ^ 32
    → parse_index_section (fanout_bytes es 256 0 0 ++ index_rows es) (length es)
      ≡ ok (counts es 256 0, index_rows es)
unfolding parse_index_section
parse_index_section-sorted es rs small =
    let table : Bytes = fanout_bytes es 256 0 0 in
    let len : length (table ++ index_rows es) ≡ 1024 + length es * 44 = omega (
      arith,
      length-append table (index_rows es),
      length-fanout_bytes es 256 0 0,
      length-index_rows es rs,
    ) in
    let total : get_or (counts es 256 0) 255 0 ≡ length es =
      get_or-counts es 256 0 255 (omega arith) ∙ below-All es 256 (last_bytes es rs) in
    let read : read_fanout 256 0 0 (table ++ index_rows es) ≡ ok (counts es 256 0) =
      subst
        (λ z. read_fanout 256 0 z (fanout_bytes es 256 0 z ++ index_rows es) ≡ ok (counts es 256 0))
        (below_zero es) (read_fanout-fanout_bytes es 256 0 (index_rows es) small) in
    let left : drop 1024 (table ++ index_rows es) ≡ index_rows es =
      drop-append_exact table (index_rows es) (length-fanout_bytes es 256 0 0) in
    let few : ltb (2 ^ 32 - 1) (length es) ≡ false =
      le→ltb (2 ^ 32 - 1) (length es) (omega arith) in
    rw (len, read, left, few, total, ==_refl (1024 + length es * 44), ==_refl (length es))

-- An index section that `buildIndexSection` wrote for rows of distinct 32-byte keys, less than 2^32 of
-- them, with offsets and lengths that fit their fields, is accepted by `parseIndexSection`, and
-- `searchIndex` on it finds, for every 32-byte key, the row of that key exactly when there is one:
-- fanout, order and binary search answer as a walk over the rows.
pub search_index-build_index_section :
    (es : List IndexEntry)
    → All IsRow es
    → IsDistinct es
    → length es < 2 ^ 32
    → (fanout : List ℕ) × (rows : Bytes) × (parse_index_section (build_index_section es) (length es)
        ≡ ok (fanout, rows))
      × ((k : Key) → IsArray32 k → search_index fanout rows k ≡ find es k)
unfolding build_index_section
search_index-build_index_section es rs d small =
    let ss : List IndexEntry = sort_entries es in
    let sorted_rows : All IsRow ss = sort_entries-All IsRow es rs in
    let count : length ss ≡ length es = length-sort_entries es in
    let fits : length ss < 2 ^ 32 = omega arith in
    (
      counts ss 256 0,
      index_rows ss,
      rw count at (parse_index_section-sorted ss sorted_rows fits),
      λ k bytes.
          search_index-find ss k sorted_rows (sort_entries-IsSorted es d) fits bytes
          ∙ find-sort_entries es k,
    )

pub length-build_index_section :
    (es : List IndexEntry) → All IsRow es → length (build_index_section es) ≡ 1024 + length es * 44
unfolding build_index_section
length-build_index_section es rs =
    let ss : List IndexEntry = sort_entries es in
    omega (
      arith,
      length-append (fanout_bytes ss 256 0 0) (index_rows ss),
      length-fanout_bytes ss 256 0 0,
      length-index_rows ss (sort_entries-All IsRow es rs),
      length-sort_entries es,
    )
