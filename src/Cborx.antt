-- ===== src/Cborx.antt =====
-- cborx/cborx.go: canonical CBOR for byte strings and for maps from byte strings to byte strings
-- (extended attributes). A Go map is an association list, its keys distinct; a list of another
-- order is another iteration order of the same map.
pub mod Heads
pub mod Maps
pub mod Order
pub mod Xattrs
mod Examples
use mathlib.Core.List.{map, foldl}
use amber_store.Prelude.{
  ℕ, zero, suc, ◌+◌, ◌*◌, ◌/◌, ◌%◌, ◌^◌, Bool, not, List, [], ◌∷◌, ◌++◌, ltb, ◌==◌, length,
  if◌then◌else◌, take, drop, get_or, Bytes, put_be, get_be, bytes_eq, bytes_less, bit_and, bit_or,
  Result, ok, err, ◌>>=◌, ◌>>◌, fail_if,
}

pub data CborError : Type 0 where
  unexpected_eof wrong_major unsupported_info too_many_pairs trailing_bytes : CborError

abbrev pub Xattrs : Type 0
Xattrs = List (Bytes × Bytes)

unfoldable pub append_head : Bytes → ℕ → ℕ → Bytes
append_head b major n =
    let h = major * 32 % 256 in
    if ltb n 24
    then b ++ (bit_or h n ∷ [])
    else if ltb n (2 ^ 8)
    then b ++ (bit_or h 24 ∷ put_be 1 n)
    else if ltb n (2 ^ 16)
    then b ++ (bit_or h 25 ∷ put_be 2 n)
    else if ltb n (2 ^ 32)
    then b ++ (bit_or h 26 ∷ put_be 4 n)
    else b ++ (bit_or h 27 ∷ put_be 8 n)

unfoldable pub append_bstr : Bytes → Bytes → Bytes
append_bstr b s = append_head b 2 (length s) ++ s

-- The argument that stands in the `w` bytes behind the first one.
unfoldable pub read_arg : ℕ → ℕ → Bytes → Result CborError (ℕ × ℕ × Bytes)
read_arg w major b =
    if ltb (length b) w then err unexpected_eof else ok (major, get_be (take w b), drop w b)

unfoldable pub read_head : Bytes → Result CborError (ℕ × ℕ × Bytes)
unfolding read_arg
read_head [] = err unexpected_eof
read_head (b0 ∷ b) =
    let major = b0 / 32 in
    let ai = bit_and b0 0x1f in
    if ltb ai 24
    then ok (major, ai, b)
    else if ai == 24
    then read_arg 1 major b
    else if ai == 25
    then read_arg 2 major b
    else if ai == 26
    then read_arg 4 major b
    else if ai == 27
    then read_arg 8 major b
    else err unsupported_info

unfoldable pub read_bstr : Bytes → Result CborError (Bytes × Bytes)
read_bstr b = do
  (major, n, rest) ← read_head b
  fail_if (not (major == 2)) wrong_major
  fail_if (ltb (length rest) n) unexpected_eof
  ok (take n rest, drop n rest)

-- m[name], nil for a missing name
unfoldable pub get : Xattrs → Bytes → Bytes
get [] name = []
get ((k, v) ∷ m) name = if bytes_eq k name then v else get m name

-- m[name] = val
unfoldable pub put : Xattrs → Bytes → Bytes → Xattrs
put [] name val = (name, val) ∷ []
put ((k, v) ∷ m) name val = if bytes_eq k name then (name, val) ∷ m else (k, v) ∷ put m name val

-- sort.Slice by the order of the encoded names, as insertion.
unfoldable pub name_less : Bytes → Bytes → Bool
name_less a b = bytes_less (append_bstr [] a) (append_bstr [] b)

unfoldable pub insert_name : Bytes → List Bytes → List Bytes
insert_name n [] = n ∷ []
insert_name n (m ∷ ms) = if name_less m n then m ∷ insert_name n ms else n ∷ m ∷ ms

unfoldable pub sort_names : List Bytes → List Bytes
unfolding insert_name
sort_names [] = []
sort_names (n ∷ ns) = insert_name n (sort_names ns)

-- The loop of `EncodeXattrs` over the sorted names.
unfoldable pub append_pairs : Bytes → Xattrs → List Bytes → Bytes
append_pairs out m [] = out
append_pairs out m (n ∷ ns) = append_pairs (append_bstr (append_bstr out n) (get m n)) m ns

unfoldable pub encode_xattrs : Xattrs → Bytes
unfolding sort_names append_pairs
encode_xattrs m = append_pairs (append_head [] 5 (length m)) m (sort_names (map (λ p. p.0) m))

-- The loop of `DecodeXattrs`: `n` pairs are left.
unfoldable pub read_pairs : ℕ → Xattrs → Bytes → Result CborError (Xattrs × Bytes)
read_pairs zero m b = ok (m, b)
read_pairs (suc n) m b = do
  (name, b1) ← read_bstr b
  (val, b2) ← read_bstr b1
  read_pairs n (put m name val) b2

unfoldable pub decode_xattrs : Bytes → Result CborError Xattrs
unfolding read_pairs
decode_xattrs b = do
  (major, n, rest) ← read_head b
  fail_if (not (major == 5)) wrong_major
  fail_if (ltb (length rest / 2) n) too_many_pairs
  (m, end) ← read_pairs n [] rest
  fail_if (not (length end == 0)) trailing_bytes
  ok m
