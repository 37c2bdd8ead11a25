-- ===== src/Cborx/Xattrs.antt =====
-- `EncodeXattrs` and `DecodeXattrs` of cborx.go.
use mathlib.Core.Option
use amber_store.Prelude.{
  ℕ, ◌*◌, ◌/◌, ◌≤◌, ◌≡◌, refl, sym, ◌∙◌, ap, arith, List, [], ◌∷◌, ◌++◌, none, some, if◌then◌else◌,
  length, Bytes, IsU64, All, bytes_eq_iff, ok, append-nil, append_assoc, length-append,
}
use amber_store.Cborx.{
  Xattrs, get, put, append_head, append_bstr, read_head, sort_names, append_pairs, encode_xattrs,
  read_pairs, decode_xattrs,
}
use amber_store.Cborx.Heads.{
  read_head-append_head, append_bstr-eq, read_bstr-append_bstr, length-append_bstr,
}
use amber_store.Cborx.Maps.{
  lookup, contains, names, lookup-put, lookup-get, contains-sort_names, length-sort_names,
  length-names,
}
use amber_store.Cborx.Order.{IsName, IsDistinct, sort_names-All, sort_names_unique}

-- What Go's lengths give: names, values and the map itself have less than 2^64 elements.
pub record Fits (m : Xattrs) : Type 0 where
  pub count : IsU64 (length m)
  pub short_names : All IsName (names m)
  pub short_values : All (λ p. IsU64 (length p.1)) m

-- The pairs of the names `ns`, encoded one after the other.
pairs : Xattrs → List Bytes → Bytes
pairs m [] = []
pairs m (n ∷ ns) = append_bstr [] n ++ (append_bstr [] (get m n) ++ pairs m ns)

-- Those pairs, assigned one after the other.
assign : Xattrs → Xattrs → List Bytes → Xattrs
assign acc m [] = acc
assign acc m (n ∷ ns) = assign (put acc n (get m n)) m ns

append_pairs-eq :
    (out : Bytes) (m : Xattrs) (ns : List Bytes) → append_pairs out m ns ≡ out ++ pairs m ns
unfolding append_pairs pairs
append_pairs-eq out m [] = sym (append-nil out)
append_pairs-eq out m (n ∷ ns) =
    append_pairs-eq (append_bstr (append_bstr out n) (get m n)) m ns
    ∙ rw (
      append_bstr-eq (append_bstr out n) (get m n),
      append_bstr-eq out n,
      append_assoc,
      append_assoc,
    )

length-pairs : (m : Xattrs) (ns : List Bytes) → 2 * length ns ≤ length (pairs m ns)
unfolding pairs
length-pairs m [] = omega arith
length-pairs m (n ∷ ns) = omega (
  arith,
  length-append (append_bstr [] n) (append_bstr [] (get m n) ++ pairs m ns),
  length-append (append_bstr [] (get m n)) (pairs m ns),
  length-append_bstr n,
  length-append_bstr (get m n),
  length-pairs m ns,
)

read_pairs-pairs :
    (acc m : Xattrs) (ns : List Bytes)
    → All IsName ns
    → ((n : Bytes) → IsU64 (length (get m n)))
    → read_pairs (length ns) acc (pairs m ns) ≡ ok (assign acc m ns, [])
unfolding read_pairs pairs assign
read_pairs-pairs acc m [] us vs = refl
read_pairs-pairs acc m (n ∷ ns) us vs =
    rw
      (
        read_bstr-append_bstr n (append_bstr [] (get m n) ++ pairs m ns) us.0,
        read_bstr-append_bstr (get m n) (pairs m ns) (vs n),
      )
      (read_pairs-pairs (put acc n (get m n)) m ns us.1 vs)

lookup-assign :
    (acc m : Xattrs) (ns : List Bytes) (n : Bytes)
    → lookup (assign acc m ns) n ≡ (if contains ns n then some (get m n) else lookup acc n)
unfolding assign contains
lookup-assign acc m [] n = refl
lookup-assign acc m (k ∷ ns) n = ground (
  arith,
  lookup-assign (put acc k (get m k)) m ns n,
  lookup-put acc k (get m k) n,
  bytes_eq_iff k n,
)

lookup-nil : (n : Bytes) → lookup [] n ≡ none
unfolding lookup
lookup-nil n = refl

get-short : (m : Xattrs) → All (λ p. IsU64 (length p.1)) m → (n : Bytes) → IsU64 (length (get m n))
unfolding get
get-short [] h n = omega arith
get-short ((k, v) ∷ m) h n = ground (arith, get-short m h.1 n)

decode_xattrs_steps :
    (b rest : Bytes) (n : ℕ) (m : Xattrs)
    → read_head b ≡ ok (5, n, rest)
    → n ≤ length rest / 2
    → read_pairs n [] rest ≡ ok (m, [])
    → decode_xattrs b ≡ ok m
unfolding decode_xattrs
decode_xattrs_steps b rest n m h le r = ground arith

encode_xattrs-eq :
    (m : Xattrs) → encode_xattrs m ≡ append_head [] 5 (length m) ++ pairs m (sort_names (names m))
unfolding encode_xattrs
encode_xattrs-eq m = append_pairs-eq (append_head [] 5 (length m)) m (sort_names (names m))

-- Of a map with less than 2^64 names, each name and value shorter than 2^64, the encoding decodes,
-- and every lookup in the decoded map answers as in the first.
pub decode_xattrs-encode_xattrs :
    (m : Xattrs)
    → Fits m
    → (m' : Xattrs) × (decode_xattrs (encode_xattrs m) ≡ ok m')
      × ((n : Bytes) → lookup m' n ≡ lookup m n)
decode_xattrs-encode_xattrs m f =
    let ns : List Bytes = sort_names (names m) in
    let count : length ns ≡ length m = length-sort_names (names m) ∙ length-names m in
    let run =
      read_pairs-pairs [] m ns (sort_names-All (names m) f.short_names)
        (get-short m f.short_values) in
    (
      assign [] m ns,
      rw encode_xattrs-eq (
          decode_xattrs_steps _ (pairs m ns) (length m) _
            (read_head-append_head 5 (length m) (pairs m ns) (omega arith) f.count)
            (omega (arith, length-pairs m ns)) (rw count at run)),
      λ n. ground (
        arith,
        lookup-assign [] m ns n,
        lookup-get m n,
        contains-sort_names (names m) n,
        lookup-nil n,
      ),
    )

get-lookup : (m : Xattrs) (n : Bytes) → get m n ≡ Option.get_or (lookup m n) []
unfolding get lookup
get-lookup [] n = refl
get-lookup ((k, v) ∷ m) n = ground (arith, get-lookup m n)

pairs-same :
    (m m' : Xattrs) (ns : List Bytes)
    → ((n : Bytes) → lookup m n ≡ lookup m' n)
    → pairs m ns ≡ pairs m' ns
unfolding pairs
pairs-same m m' [] same = refl
pairs-same m m' (n ∷ ns) same =
    let value : get m n ≡ get m' n = rw (get-lookup m n, get-lookup m' n, same n) in
    rw (value, pairs-same m m' ns same)

-- The encoding depends on the map only: two iteration orders of one map (lists of distinct names
-- with the same lookups, all sizes below 2^64) have the same encoding.
pub encode_xattrs-canonical :
    (m m' : Xattrs)
    → Fits m
    → Fits m'
    → IsDistinct (names m)
    → IsDistinct (names m')
    → ((n : Bytes) → lookup m n ≡ lookup m' n)
    → encode_xattrs m ≡ encode_xattrs m'
encode_xattrs-canonical m m' f f' d d' same =
    let sorted : sort_names (names m) ≡ sort_names (names m') =
      sort_names_unique (names m) (names m') f.short_names f'.short_names d d'
        (λ n. ground (arith, same n, lookup-get m n, lookup-get m' n)) in
    let count : length m ≡ length m' = omega (
      arith,
      ap length sorted,
      length-sort_names (names m),
      length-sort_names (names m'),
      length-names m,
      length-names m',
    ) in
    encode_xattrs-eq m
    ∙ (rw (count, sorted, pairs-same m m' (sort_names (names m')) same))
    ∙ sym (encode_xattrs-eq m')
