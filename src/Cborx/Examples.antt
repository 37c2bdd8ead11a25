-- ===== src/Cborx/Examples.antt =====
-- CBOR heads and maps at concrete inputs.
use amber_store.Prelude.{
  ◌+◌, ◌*◌, ◌≡◌, ◌≢◌, refl, arith, [], ◌∷◌, ◌++◌, ok, err, Bytes, bytes_eq, bytes_less,
}
use amber_store.Cborx.{
  Xattrs, append_head, append_bstr, read_head, encode_xattrs, decode_xattrs, get, name_less,
  trailing_bytes,
}
use amber_store.Cborx.Heads.{read_head-append_head, read_head_lenient}
use amber_store.Cborx.Maps.{lookup, contains}
use amber_store.Cborx.Xattrs.{Fits, decode_xattrs-encode_xattrs, encode_xattrs-canonical}

-- "user.a" and "b", with the values 1 and none.
abbrev pairs_ab : Xattrs
pairs_ab = ((117 ∷ 97 ∷ []), (1 ∷ [])) ∷ ((98 ∷ []), []) ∷ []

abbrev pairs_ba : Xattrs
pairs_ba = ((98 ∷ []), []) ∷ ((117 ∷ 97 ∷ []), (1 ∷ [])) ∷ []

Fits-pairs_ab : Fits pairs_ab
Fits-pairs_ab = omega arith

Fits-pairs_ba : Fits pairs_ba
Fits-pairs_ba = omega arith

encoded_ab : encode_xattrs pairs_ab ≡ 0xa2 ∷ 0x41 ∷ 98 ∷ 0x40 ∷ 0x42 ∷ 117 ∷ 97 ∷ 0x41 ∷ 1 ∷ []
unfolding encode_xattrs append_bstr append_head name_less bytes_less get bytes_eq
encoded_ab = refl

trailing : decode_xattrs (0xa0 ∷ 0 ∷ []) ≡ err trailing_bytes
unfolding decode_xattrs read_head
trailing = refl

read_head-append_head_example : read_head (append_head [] 2 300 ++ (9 ∷ [])) ≡ ok (2, 300, 9 ∷ [])
read_head-append_head_example = read_head-append_head 2 300 (9 ∷ []) (omega arith) (omega arith)

read_head_lenient_example :
    (read_head ((2 * 32 + 24) ∷ 5 ∷ []) ≡ ok (2, 5, []))
    × (append_head [] 2 5 ≢ (2 * 32 + 24) ∷ 5 ∷ [])
read_head_lenient_example = read_head_lenient 2 5 [] (omega arith) (omega arith)

decode_xattrs-encode_xattrs_example :
    (m : Xattrs) × (decode_xattrs (encode_xattrs pairs_ab) ≡ ok m)
    × ((n : Bytes) → lookup m n ≡ lookup pairs_ab n)
decode_xattrs-encode_xattrs_example = decode_xattrs-encode_xattrs pairs_ab Fits-pairs_ab

same_lookups : (n : Bytes) → lookup pairs_ab n ≡ lookup pairs_ba n
unfolding lookup bytes_eq
same_lookups [] = refl
same_lookups (x ∷ []) = ground arith
same_lookups (x ∷ y ∷ []) = ground arith
same_lookups (x ∷ y ∷ z ∷ r) = ground arith

encode_xattrs-canonical_example : encode_xattrs pairs_ab ≡ encode_xattrs pairs_ba
unfolding contains bytes_eq
encode_xattrs-canonical_example =
    encode_xattrs-canonical pairs_ab pairs_ba Fits-pairs_ab Fits-pairs_ba (refl, (refl, tt))
      (refl, (refl, tt)) same_lookups
