-- ===== src/Amberpack/Record/RoundTrip.antt =====
-- `ParseRecord` and `DecodePayload` undo `EncodeRecord`.
use amber_store.Prelude.{
  ℕ, ◌+◌, ◌≤◌, ◌<◌, ◌≡◌, refl, sym, ap, arith, [], ◌∷◌, ◌++◌, false, not, ◌&&◌, ◌⊎◌, inl, inr, ltb,
  leb, ◌==◌, length, get_or, drop, slice, Bytes, get_be, put_be, bit_and, bit_and_1, bit_and_fe, ok,
  wrap, get_be-put_be, append-nil, fail_if_inv, >>=-eq-ok, wrap_inv, ok-injective, subst,
}
use amber_store.Key.{Key, parse as key_parse}
use amber_store.Key.Canonical.{parse_inv}
use amber_store.Amberpack.Record.{
  Record, Zstd, bad_record_key, rec_header_size, max_payload, assemble, parse_record, encode_record,
  decode_payload,
}
use amber_store.Amberpack.Record.Shape.{
  record-length, record-tag, record-flags, record-key, record-ulen, record-slen, record-payload,
  record-crc,
}

-- The combinations of flag and lengths that a record may have: raw, or compressed and smaller.
abbrev IsFramed : ℕ → ℕ → ℕ → Type 0
IsFramed flags ulen slen = ((flags ≡ 0) × (ulen ≡ slen)) ⊎ ((flags ≡ 1) × (slen < ulen))

parse_record-assemble :
    (k : Key) (flags ulen : ℕ) (payload rest : Bytes)
    → key_parse k ≡ ok k
    → IsFramed flags ulen (length payload)
    → ulen ≤ max_payload
    → parse_record (assemble k flags ulen payload ++ rest)
      ≡ ok (record { key = k; flags = flags; ulen = ulen; slen = length payload })
unfolding parse_record
parse_record-assemble k flags ulen payload rest hk framed small =
    let len : length k ≡ 32 = (parse_inv k k hk).0 in
    let slen : get_be (put_be 4 (length payload)) ≡ length payload =
      get_be-put_be 4 (length payload) (omega arith) in
    let ul : get_be (put_be 4 ulen) ≡ ulen = get_be-put_be 4 ulen (omega arith) in
    rw
      (
        record-flags k flags ulen payload rest len,
        record-ulen k flags ulen payload rest len,
        record-slen k flags ulen payload rest len,
        slen,
        ul,
        record-crc k flags ulen payload rest len,
        record-key k flags ulen payload rest len,
        record-tag k flags ulen payload rest len,
        record-length k flags ulen payload rest len,
        hk,
      )
      (ground (arith, bit_and_fe flags, bit_and_1 flags))

-- What a reader knows of a record that it parsed: it lies within the bytes, its key is canonical,
-- and its lengths are bounded and fit its flag.
pub record IsParsed (b : Bytes) (r : Record) : Type 0 where
  pub within : rec_header_size + r.slen ≤ length b
  pub ulen_bound : r.ulen ≤ max_payload
  pub slen_bound : r.slen ≤ r.ulen
  pub raw_length : bit_and r.flags 0x01 ≡ 0 → r.ulen ≡ r.slen
  pub canonical : key_parse r.key ≡ ok r.key
  pub stored_key : slice b 1 33 ≡ r.key
  pub stored_slen : r.slen ≡ get_be (slice b 38 42)
  pub stored_flags : r.flags ≡ get_or b 33 0
  pub stored_ulen : r.ulen ≡ get_be (slice b 34 38)

guards-IsParsed :
    (b : Bytes) (k : Key) (flags ulen slen : ℕ)
    → ltb (length b) rec_header_size ≡ false
    → not (bit_and flags 0xfe == 0) ≡ false
    → ltb (length b) (rec_header_size + slen) ≡ false
    → (bit_and flags 0x01 == 0 && not (ulen == slen)) ≡ false
    → ltb max_payload ulen ≡ false
    → (not (bit_and flags 0x01 == 0) && leb ulen slen) ≡ false
    → key_parse (slice b 1 33) ≡ ok k
    → slen ≡ get_be (slice b 38 42)
    → flags ≡ get_or b 33 0
    → ulen ≡ get_be (slice b 34 38)
    → IsParsed b (record { key = k; flags = flags; ulen = ulen; slen = slen })
guards-IsParsed b k flags ulen slen long known fits raw limit smaller accepted read flags_read
      ulen_read =
    let (_, _, same, _) = parse_inv (slice b 1 33) k accepted in
    record {
      within = ground arith;
      ulen_bound = ground arith;
      slen_bound = ground arith;
      raw_length = λ h. ground arith;
      canonical = rw (← same) at accepted;
      stored_key = sym same;
      stored_slen = read;
      stored_flags = flags_read;
      stored_ulen = ulen_read;
    }

-- A record that `ParseRecord` accepts lies within the bytes, has a canonical key (the one stored),
-- a stored length that is at most the decoded one and equal to it when it is not compressed, and a
-- decoded length of at most 256 MiB.
pub parse_record-IsParsed : (b : Bytes) (r : Record) → parse_record b ≡ ok r → IsParsed b r
unfolding parse_record
parse_record-IsParsed b r e =
    let (long, e1) = fail_if_inv _ _ _ e in
    let (_, e2) = fail_if_inv _ _ _ e1 in
    let (known, e3) = fail_if_inv _ _ _ e2 in
    let (fits, e4) = fail_if_inv _ _ _ e3 in
    let (raw, e5) = fail_if_inv _ _ _ e4 in
    let (limit, e6) = fail_if_inv _ _ _ e5 in
    let (smaller, e7) = fail_if_inv _ _ _ e6 in
    let (_, e8) = fail_if_inv _ _ _ e7 in
    let (k, parsed, done) = >>=-eq-ok (wrap bad_record_key (key_parse (slice b 1 33))) _ e8 in
    let accepted : key_parse (slice b 1 33) ≡ ok k = wrap_inv bad_record_key _ parsed in
    let (_, _, same, _) = parse_inv (slice b 1 33) k accepted in
    subst (IsParsed b) (ok-injective done) (
      guards-IsParsed b k (get_or b 33 0) (get_be (slice b 34 38)) (get_be (slice b 38 42)) long
        known fits raw limit smaller accepted refl refl refl)

-- How `EncodeRecord` stores a payload.
encode_record_shape :
    (z : Zstd) (k : Key) (d rec : Bytes)
    → encode_record z k d ≡ ok rec
    → (length d ≤ max_payload)
      × (((rec ≡ assemble k 1 (length d) (z.encode_all d)) × (length (z.encode_all d) < length d))
          ⊎ (rec ≡ assemble k 0 (length d) d))
unfolding encode_record
encode_record_shape z k d rec e = ground arith

length-assemble :
    (k : Key) (flags ulen : ℕ) (payload : Bytes)
    → key_parse k ≡ ok k
    → length (assemble k flags ulen payload) ≡ rec_header_size + length payload
length-assemble k flags ulen payload hk =
    let len : length k ≡ 32 = (parse_inv k k hk).0 in
    let whole : assemble k flags ulen payload ++ [] ≡ assemble k flags ulen payload =
      append-nil _ in
    omega (arith, record-length k flags ulen payload [] len, ap length whole)

decode_compressed :
    (z : Zstd) (k : Key) (d rest : Bytes)
    → key_parse k ≡ ok k
    → length d ≤ max_payload
    → decode_payload z 1 (length d) (
        slice
          (assemble k 1 (length d) (z.encode_all d) ++ rest)
          rec_header_size
          (rec_header_size + length (z.encode_all d)))
      ≡ ok d
unfolding decode_payload
decode_compressed z k d rest hk small =
    rw
      (
        record-payload k 1 (length d) (z.encode_all d) rest (parse_inv k k hk).0,
        z.decode-encode d small,
      )
      (ground arith)

decode_raw :
    (z : Zstd) (k : Key) (d rest : Bytes)
    → key_parse k ≡ ok k
    → decode_payload z 0
        (length d)
        (slice (assemble k 0 (length d) d ++ rest) rec_header_size (rec_header_size + length d))
      ≡ ok d
unfolding decode_payload
decode_raw z k d rest hk = rw (record-payload k 0 (length d) d rest (parse_inv k k hk).0)

-- A record and what its reader does with it: parse it at the front of a longer input, find the key,
-- decode the payload that it slices out, and go on behind it.
pub record ReadsBack (z : Zstd) (k : Key) (d rec rest : Bytes) (r : Record) : Type 0 where
  pub parsed : parse_record (rec ++ rest) ≡ ok r
  pub same_key : r.key ≡ k
  pub record_length : length rec ≡ rec_header_size + r.slen
  pub decoded_payload :
      decode_payload z r.flags r.ulen
        (slice (rec ++ rest) rec_header_size (rec_header_size + r.slen))
      ≡ ok d

-- Every record that `EncodeRecord` makes of a canonical key and a payload, with any zstd that decodes
-- what it encoded, is parsed and decoded as that key and that payload, whatever bytes follow it.
pub parse_record-encode_record :
    (z : Zstd) (k : Key) (d rec rest : Bytes)
    → key_parse k ≡ ok k
    → encode_record z k d ≡ ok rec
    → (r : Record) × ReadsBack z k d rec rest r
parse_record-encode_record z k d rec rest hk e =
    let (small, shape) = encode_record_shape z k d rec e in
    elim shape [
      | inl (whole, smaller) ↦ (
        record { key = k; flags = 1; ulen = length d; slen = length (z.encode_all d) },
        rw whole (record {
          parsed =
              parse_record-assemble k 1 (length d) (z.encode_all d) rest hk (inr (refl, smaller))
                small;
          same_key = refl;
          record_length = length-assemble k 1 (length d) (z.encode_all d) hk;
          decoded_payload = decode_compressed z k d rest hk small;
        }),
      )
      | inr whole ↦ (
        record { key = k; flags = 0; ulen = length d; slen = length d },
        rw whole (record {
          parsed = parse_record-assemble k 0 (length d) d rest hk (inl (refl, refl)) small;
          same_key = refl;
          record_length = length-assemble k 0 (length d) d hk;
          decoded_payload = decode_raw z k d rest hk;
        }),
      )
    ]

assemble-tag :
    (k : Key) (flags ulen : ℕ) (payload : Bytes)
    → assemble k flags ulen payload ≡ 1 ∷ drop 1 (assemble k flags ulen payload)
unfolding assemble
assemble-tag k flags ulen payload = refl

-- A record begins with the tag of a chunk.
pub encode_record-tag :
    (z : Zstd) (k : Key) (d rec : Bytes) → encode_record z k d ≡ ok rec → rec ≡ 1 ∷ drop 1 rec
encode_record-tag z k d rec e = elim ((encode_record_shape z k d rec e).1) [
  | inl (whole, _) ↦ rw whole (assemble-tag k 1 (length d) (z.encode_all d))
  | inr whole ↦ rw whole (assemble-tag k 0 (length d) d)
]
