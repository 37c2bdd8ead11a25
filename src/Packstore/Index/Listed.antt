-- ===== src/Packstore/Index/Listed.antt =====
-- Every row of a parsed index section is found under its own key, and nothing else is found.
use amber_store.Prelude.{
  ℕ, ◌-◌, ◌+◌, ◌^◌, ◌<◌, ◌≡◌, refl, sym, ◌∙◌, ap, subst, arith, none, some, List, true, bytes_eq,
  bytes_eq_iff, ◌++◌, inl, inr, length, Bytes, All, ok, ok-injective,
}
use amber_store.Key.{Key}
use amber_store.Key.Fields.{IsArray32}
use amber_store.Packstore.Index.{
  IndexEntry, sort_entries, build_index_section, parse_index_section, fanout_bytes, index_rows,
  last_byte, row_key, row_value, row_values, search, search_index, search_index_pos,
}
use amber_store.Packstore.Index.Sorted.{
  IsRow, IsDistinct, IsSorted, sort_entries-All, sort_entries-IsSorted, length-sort_entries, row,
  All-row, find-cases,
}
use amber_store.Packstore.Index.Search.{IsLeast, search-IsLeast, below, below-le, counts}
use amber_store.Packstore.Index.Rows.{row_key-index_rows}
use amber_store.Packstore.Index.Lookup.{
  last_byte-IsByte, not_less, not_less-IsMonotone, search_index_pos-chosen, chosen, chosen_found,
  search_index-find, parse_index_section-sorted,
}

pub record AreListed (fanout : List ℕ) (rows : Bytes) (n : ℕ) : Type 0 where
  pub listed :
      (i : ℕ)
      → i < n
      → IsArray32 (row_key rows i)
        × (search_index fanout rows (row_key rows i) ≡ some (row_value rows i))
  pub within :
      (k : Key) (v : ℕ × ℕ)
      → IsArray32 k
      → search_index fanout rows k ≡ some v
      → (i : ℕ) × (i < n) × (row_key rows i ≡ k)
  pub placed :
      (k : Key) (i : ℕ)
      → IsArray32 k
      → search_index_pos fanout rows k ≡ some i
      → (i < n) × (row_key rows i ≡ k)

chosen_within :
    (es : List IndexEntry) (k : Key) (i p : ℕ)
    → let lo = below es (last_byte k) in
      chosen es k lo (below es (last_byte k + 1) - lo) i ≡ some p
      → (p < length es) × (row_key (index_rows es) p ≡ k)
unfolding chosen
chosen_within es k i p h =
    let lo : ℕ = below es (last_byte k) in
    let at : (lo + i ≡ p)
        × (i < below es (last_byte k + 1) - lo)
        × (bytes_eq (row_key (index_rows es) (lo + i)) k ≡ true) =
      ground (arith, h) in
    (
      omega (arith, at, below-le es (last_byte k + 1)),
      subst (λ (q : ℕ). row_key (index_rows es) q ≡ k) at.0
          ((bytes_eq_iff (row_key (index_rows es) (lo + i)) k).0 at.2),
    )

row_found :
    (es : List IndexEntry) (q : ℕ)
    → All IsRow es
    → IsSorted es
    → length es < 2 ^ 32
    → q < length es
    → search_index (counts es 256 0) (index_rows es) (row es q).k
      ≡ some (row_value (index_rows es) q)
unfolding search_index row_values
row_found es q rs s small h =
    let k : Key = (row es q).k in
    let array : IsArray32 k = (All-row IsRow es q rs h).0 in
    let byte : last_byte k < 256 = last_byte-IsByte k array.1 in
    let lo : ℕ = below es (last_byte k) in
    let n : ℕ = below es (last_byte k + 1) - lo in
    let least : IsLeast (not_less es k lo) 0 n (search (not_less es k lo) n 0 n) =
      search-IsLeast (not_less es k lo) n 0 n (omega arith) (omega arith)
        (not_less-IsMonotone es k (last_byte k) rs s) in
    rw
      (
        search_index_pos-chosen es k small byte,
        chosen_found es k q (search (not_less es k lo) n 0 n) rs s h refl least,
      )
      refl

sorted-AreListed :
    (es : List IndexEntry)
    → All IsRow es
    → IsSorted es
    → length es < 2 ^ 32
    → AreListed (counts es 256 0) (index_rows es) (length es)
sorted-AreListed es rs s small = record {
  listed = λ i h.
      let named : row_key (index_rows es) i ≡ (row es i).k =
        row_key-index_rows es i rs h (All-row IsRow es i rs h).0.0 in
      (
        subst IsArray32 (sym named) (All-row IsRow es i rs h).0,
        ap (search_index (counts es 256 0) (index_rows es)) named ∙ row_found es i rs s small h,
      );
  within = λ k v array found. elim (find-cases es k) [
    | inl (q, h, same, at) ↦
        (q, h, row_key-index_rows es q rs h (All-row IsRow es q rs h).0.0 ∙ same)
    | inr (missing, other) ↦
        absurd (none_some (sym missing ∙ sym (search_index-find es k rs s small array) ∙ found))
  ];
  placed = λ k i array found.
      let lo = below es (last_byte k) in
      let n = below es (last_byte k + 1) - lo in
      chosen_within es k (search (not_less es k lo) n 0 n) i
        (sym (search_index_pos-chosen es k small (last_byte-IsByte k array.1)) ∙ found);
}
  where
    none_some : {v : ℕ × ℕ} → none ≡ some v → ⊥
    none_some e = cc e

-- So it is in an index section that `buildIndexSection` wrote for rows of distinct keys.
pub build_index_section-AreListed :
    (es : List IndexEntry) (fanout : List ℕ) (rows : Bytes)
    → All IsRow es
    → IsDistinct es
    → length es < 2 ^ 32
    → parse_index_section (build_index_section es) (length es) ≡ ok (fanout, rows)
    → AreListed fanout rows (length es)
unfolding build_index_section
build_index_section-AreListed es fanout rows rs d small h =
    let ss : List IndexEntry = sort_entries es in
    let sorted_rows : All IsRow ss = sort_entries-All IsRow es rs in
    let count : length ss ≡ length es = length-sort_entries es in
    let fits : length ss < 2 ^ 32 = omega arith in
    let parsed : parse_index_section (fanout_bytes ss 256 0 0 ++ index_rows ss) (length es)
        ≡ ok (counts ss 256 0, index_rows ss) =
      rw count at (parse_index_section-sorted ss sorted_rows fits) in
    let same : (counts ss 256 0, index_rows ss) ≡ (fanout, rows) = ok-injective (sym parsed ∙ h) in
    subst (λ (p : List ℕ × Bytes). AreListed p.0 p.1 (length es)) same
      (subst (AreListed (counts ss 256 0) (index_rows ss)) count
        (sorted-AreListed ss sorted_rows (sort_entries-IsSorted es d) fits))
