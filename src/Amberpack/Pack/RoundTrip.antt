-- ===== src/Amberpack/Pack/RoundTrip.antt =====
-- Objects that are written to a wire pack come out of its reader.
use mathlib.Core.List.{map}
use amber_store.Prelude.{
  ℕ, zero, suc, ◌+◌, ◌≤◌, ◌<◌, ◌≡◌, refl, sym, ◌∙◌, ap, arith, List, [], ◌∷◌, ◌++◌, length, take,
  drop, slice, Bytes, All, get_be, bytes_eq, ok, subst, le→ltb, slice-take, append-nil,
  append_assoc, length-append, take-append, drop-append_exact, take_all, take-add, drop-drop,
  slice-append_le, length-drop,
}
use amber_store.Key.{parse as key_parse}
use amber_store.Amberpack.Record.{
  Record, Zstd, rec_header_size, max_payload, parse_record, encode_record, decode_payload,
}
use amber_store.Amberpack.Record.RoundTrip.{
  IsParsed, parse_record-IsParsed, parse_record-encode_record, encode_record-tag,
}
use amber_store.Amberpack.Pack.Written.{Encodes, concat, add_all, close-written}
use amber_store.Amberpack.Pack.{
  tag_end, Object, Writer, new_writer, close, pack_magic, accept_record, read_record, read_objects,
  read_all,
}

abbrev pub IsCanonical : Object → Type 0
IsCanonical o = key_parse o.key ≡ ok o.key

accept_record_lem :
    (z : Zstd) (full rest d : Bytes) (r : Record)
    → parse_record full ≡ ok r
    → decode_payload z r.flags r.ulen (drop rec_header_size full) ≡ ok d
    → accept_record z full rest ≡ ok (record { key = r.key; bytes = d }, rest)
unfolding accept_record
accept_record_lem z full rest d r p q = ground (arith, p, q)

-- A stream that begins with a whole record of the fields `r` and the payload `d`.
record BeginsWith (z : Zstd) (s : Bytes) (r : Record) (d : Bytes) : Type 0 where
  stored : get_be (slice (take 46 s) 38 42) ≡ r.slen
  long : rec_header_size + r.slen ≤ length s
  limit : r.slen ≤ max_payload
  parsed : parse_record (take (rec_header_size + r.slen) s) ≡ ok r
  payload :
      decode_payload z r.flags r.ulen (drop rec_header_size (take (rec_header_size + r.slen) s))
      ≡ ok d

read_record-cuts :
    (z : Zstd) (b : Bytes) (r : Record) (d : Bytes)
    → BeginsWith z (1 ∷ b) r d
    → read_record z b
      ≡ ok (record { key = r.key; bytes = d }, drop (rec_header_size + r.slen) (1 ∷ b))
unfolding read_record
read_record-cuts z b r d h =
    let whole : 1 ∷ (take 45 b ++ take r.slen (drop 45 b))
        ≡ take (rec_header_size + r.slen) (1 ∷ b) =
      sym (take-add 46 r.slen (1 ∷ b)) in
    let behind : drop r.slen (drop 45 b) ≡ drop (rec_header_size + r.slen) (1 ∷ b) =
      drop-drop 46 r.slen (1 ∷ b) in
    let len : rec_header_size + r.slen ≤ suc (length b) = h.long in
    rw (
      h.stored,
      whole,
      behind,
      accept_record_lem z (take (rec_header_size + r.slen) (1 ∷ b))
          (drop (rec_header_size + r.slen) (1 ∷ b)) d r h.parsed h.payload,
      le→ltb (length b) 45 (omega arith),
      le→ltb max_payload r.slen h.limit,
      le→ltb (length (drop 45 b)) r.slen (omega (arith, length-drop 45 b)),
    )

-- The same, where the stream with its tag is given.
read_record-stream :
    (z : Zstd) (b s : Bytes) (r : Record) (d : Bytes)
    → 1 ∷ b ≡ s
    → BeginsWith z s r d
    → read_record z b ≡ ok (record { key = r.key; bytes = d }, drop (rec_header_size + r.slen) s)
read_record-stream z b s r d e h =
    read_record-cuts z b r d (subst (λ l. BeginsWith z l r d) (sym e) h)
    ∙ ap (λ l. ok (record { key = r.key; bytes = d }, drop (rec_header_size + r.slen) l)) e

whole_payload :
    (z : Zstd) (rec d : Bytes) (r : Record)
    → length rec ≡ rec_header_size + r.slen
    → decode_payload z r.flags r.ulen (slice rec rec_header_size (rec_header_size + r.slen)) ≡ ok d
    → decode_payload z r.flags r.ulen (drop rec_header_size rec) ≡ ok d
whole_payload z rec d r len h =
    let same : slice rec rec_header_size (rec_header_size + r.slen) ≡ drop rec_header_size rec =
      take_all (drop 46 rec) (omega (arith, length-drop 46 rec)) in
    rw same at h

-- One record of the stream, its tag already read.
pub read_record-encode_record :
    (z : Zstd) (o : Object) (rec rest : Bytes)
    → IsCanonical o
    → encode_record z o.key o.bytes ≡ ok rec
    → read_record z (drop 1 rec ++ rest) ≡ ok (o, rest)
read_record-encode_record z o rec rest hk e =
    let (r, back) = parse_record-encode_record z o.key o.bytes rec [] hk e in
    let at_end : rec ++ [] ≡ rec = append-nil rec in
    let parsed : parse_record rec ≡ ok r = rw at_end at back.parsed in
    let facts : IsParsed rec r = parse_record-IsParsed rec r parsed in
    let tagged : 1 ∷ (drop 1 rec ++ rest) ≡ rec ++ rest =
      ap (λ (l : Bytes). l ++ rest) (sym (encode_record-tag z o.key o.bytes rec e)) in
    let full : take (rec_header_size + r.slen) (rec ++ rest) ≡ rec =
      take-append rec rest back.record_length in
    let left : drop (rec_header_size + r.slen) (rec ++ rest) ≡ rest =
      drop-append_exact rec rest back.record_length in
    let long : length (rec ++ rest) ≡ rec_header_size + r.slen + length rest =
      omega (arith, length-append rec rest, back.record_length) in
    let stored : get_be (slice (take 46 (rec ++ rest)) 38 42) ≡ r.slen =
      rw
        (
          slice-take 46 (rec ++ rest) 38 42 (omega arith) (omega arith) (omega arith),
          slice-append_le rec rest 38 42 (omega arith) (omega (arith, back.record_length)),
        )
        (sym facts.stored_slen) in
    let payload : decode_payload z r.flags r.ulen (drop rec_header_size rec) ≡ ok o.bytes =
      whole_payload z rec o.bytes r back.record_length (rw at_end at back.decoded_payload) in
    read_record-stream z (drop 1 rec ++ rest) (rec ++ rest) r o.bytes tagged (record {
      stored = stored;
      long = omega arith;
      limit = omega (arith, facts.slen_bound, facts.ulen_bound);
      parsed = rw full parsed;
      payload = rw full payload;
    })
    ∙ (rw (left, back.same_key))

pub read_objects-step :
    (z : Zstd) (f : ℕ) (o : Object) (rec s : Bytes)
    → IsCanonical o
    → encode_record z o.key o.bytes ≡ ok rec
    → read_objects z (suc f) (rec ++ s) ≡ ok o ∷ read_objects z f s
unfolding read_objects
read_objects-step z f o rec s hk e =
    rw (encode_record-tag z o.key o.bytes rec e, read_record-encode_record z o rec s hk e)

-- Enough rounds read the records of the objects and stop at the end marker.
pub read_objects-concat :
    (z : Zstd) (f : ℕ) (os : List Object) (rs : List Bytes) (more : Bytes)
    → All IsCanonical os
    → Encodes z os rs
    → length rs < f
    → read_objects z f (concat rs ++ (tag_end ∷ more)) ≡ map ok os
unfolding concat
read_objects-concat z zero os rs more hk e h = absurd (omega arith)
read_objects-concat z (suc f) [] [] more hk e h = unfold read_objects in refl
read_objects-concat z (suc f) [] (r ∷ rs) more hk e h = absurd e
read_objects-concat z (suc f) (o ∷ os) [] more hk e h = absurd e
read_objects-concat z (suc f) (o ∷ os) (r ∷ rs) more hk e h = rw (
  append_assoc r (concat rs) (tag_end ∷ more),
  read_objects-step z f o r (concat rs ++ (tag_end ∷ more)) hk.0 e.0,
  read_objects-concat z f os rs more hk.1 e.1 (omega arith),
)

length-concat :
    (z : Zstd) (os : List Object) (rs : List Bytes)
    → Encodes z os rs
    → length rs ≤ length (concat rs)
unfolding concat
length-concat z [] [] e = omega arith
length-concat z [] (r ∷ rs) e = absurd e
length-concat z (o ∷ os) [] e = absurd e
length-concat z (o ∷ os) (r ∷ rs) e =
    let tagged : length r ≡ suc (length (drop 1 r)) =
      ap length (encode_record-tag z o.key o.bytes r e.0) in
    omega (arith, length-append r (concat rs), length-concat z os rs e.1)

-- Behind the magic, the records are read in as many rounds as there are bytes, and one.
pub read_all-magic :
    (z : Zstd) (s : Bytes)
    → read_all z (pack_magic ++ s) ≡ read_objects z (suc (length (pack_magic ++ s))) s
unfolding read_all bytes_eq
read_all-magic z s = rw (le→ltb (length (pack_magic ++ s)) 8 (omega arith))

-- Of a wire pack to which objects with canonical keys were added without an error, and which was
-- then closed, `Reader.All` yields the objects, in order and with no error.
pub read_all-close :
    (z : Zstd) (os : List Object) (w : Writer)
    → All IsCanonical os
    → add_all z new_writer os ≡ ok w
    → read_all z (close w).out ≡ map ok os
read_all-close z os w hk e =
    let (rs, encoded, out) = close-written z w os e in
    let s : Bytes = concat rs ++ (tag_end ∷ []) in
    rw (out, read_all-magic)
      (read_objects-concat z (suc (length (pack_magic ++ s))) os rs [] hk encoded
        (omega (arith, length-append (concat rs) (tag_end ∷ []), length-concat z os rs encoded)))
