-- ===== src/Amberpack/Pack/Truncation.antt =====
-- A wire pack that is cut short is detected: its reader ends with an error, after whole objects only.
use mathlib.Core.List.{map}
use amber_store.Prelude.{
  ℕ, zero, suc, ◌+◌, ◌≤◌, ◌<◌, ◌≡◌, refl, sym, ◌∙◌, ap, arith, List, [], ◌∷◌, ◌++◌, inl, inr, ltb,
  length, take, drop, slice, Bytes, All, get_be, Result, ok, err, append-nil, append_assoc,
  length-append, slice-take, slice-append_le, length-drop, le→ltb, lt→ltb, prefix_split, Bool-cases,
}
use amber_store.Amberpack.Record.{Zstd, rec_header_size, max_payload, encode_record}
use amber_store.Amberpack.Record.RoundTrip.{
  IsParsed, parse_record-IsParsed, parse_record-encode_record, encode_record-tag,
}
use amber_store.Amberpack.Pack.{
  PackError, Object, Writer, new_writer, close, pack_magic, tag_end, read_record, read_objects,
  read_all, reading_magic, truncated_before_end, truncated_record_header, truncated_record_payload,
}
use amber_store.Amberpack.Pack.Written.{Encodes, concat, add_all, close-written}
use amber_store.Amberpack.Pack.RoundTrip.{IsCanonical, read_objects-step, read_all-magic}

-- The errors that say that the stream ended too early.
abbrev pub IsTruncation : PackError → Type 0
IsTruncation reading_magic = Unit {0}
IsTruncation truncated_before_end = Unit {0}
IsTruncation truncated_record_header = Unit {0}
IsTruncation truncated_record_payload = Unit {0}
IsTruncation _ = ⊥

-- The length field and the length of a record that was encoded.
record_lengths :
    (z : Zstd) (o : Object) (rec : Bytes)
    → IsCanonical o
    → encode_record z o.key o.bytes ≡ ok rec
    → (length rec ≡ rec_header_size + get_be (slice rec 38 42))
      × (get_be (slice rec 38 42) ≤ max_payload)
record_lengths z o rec hk e =
    let (r, back) = parse_record-encode_record z o.key o.bytes rec [] hk e in
    let at_end : rec ++ [] ≡ rec = append-nil rec in
    let facts : IsParsed rec r = parse_record-IsParsed rec r (rw at_end at back.parsed) in
    omega (arith, facts.stored_slen, facts.slen_bound, facts.ulen_bound, back.record_length)

-- A record of which a part is missing, its tag already read.
cut_record :
    (z : Zstd) (q rec : Bytes) (y : ℕ) (more : Bytes)
    → rec ≡ 1 ∷ (q ++ (y ∷ more))
    → length rec ≡ rec_header_size + get_be (slice rec 38 42)
    → get_be (slice rec 38 42) ≤ max_payload
    → (e : PackError) × IsTruncation e × (read_record z q ≡ err e)
unfolding read_record
cut_record z q rec y more whole len max = elim (Bool-cases (ltb (length q) 45)) [
  | inl short ↦ (truncated_record_header, tt, rw short)
  | inr long ↦
      let enough : 45 ≤ length q = ground arith in
      let total : length rec ≡ suc (length q + suc (length more)) =
        ap length whole ∙ ap suc (length-append q (y ∷ more)) in
      let stored : slice (take 46 (1 ∷ q)) 38 42 ≡ slice rec 38 42 =
        slice-take 46 (1 ∷ q) 38 42 (omega arith) (omega arith) (omega arith)
        ∙ sym (slice-append_le (1 ∷ q) (y ∷ more) 38 42 (omega arith) (omega arith))
        ∙ ap (λ (l : Bytes). slice l 38 42) (sym whole) in
      (
        truncated_record_payload,
        tt,
        rw (
          long,
          stored,
          le→ltb max_payload (get_be (slice rec 38 42)) max,
          lt→ltb (length (drop 45 q)) (get_be (slice rec 38 42)) (omega (arith, length-drop 45 q)),
        ),
      )
]

-- What a reader yields of a stream that is cut short: some of the objects, and the error.
abbrev pub EndsEarly : List Object → List (Result PackError Object) → Type 0
EndsEarly os l =
    (n : ℕ) × (e : PackError) × IsTruncation e × (l ≡ map ok (take n os) ++ (err e ∷ []))

empty_stream : (z : Zstd) (f : ℕ) → read_objects z (suc f) [] ≡ err truncated_before_end ∷ []
unfolding read_objects
empty_stream z f = refl

failed_record :
    (z : Zstd) (f : ℕ) (q : Bytes) (e : PackError)
    → read_record z q ≡ err e
    → read_objects z (suc f) (1 ∷ q) ≡ err e ∷ []
unfolding read_objects
failed_record z f q e h = rw h

-- The stream ends inside its first record.
cut_in_record :
    (z : Zstd) (f : ℕ) (o : Object) (os : List Object) (a : ℕ) (q rec : Bytes) (y : ℕ)
    (more : Bytes)
    → IsCanonical o
    → encode_record z o.key o.bytes ≡ ok rec
    → rec ≡ a ∷ (q ++ (y ∷ more))
    → EndsEarly (o ∷ os) (read_objects z (suc f) (a ∷ q))
cut_in_record z f o os a q rec y more hk e whole =
    let tag : a ≡ 1 = cc (whole, encode_record-tag z o.key o.bytes rec e) in
    let (len, max) = record_lengths z o rec hk e in
    let (er, truncated, failed) = cut_record z q rec y more (rw (← tag) whole) len max in
    (0, er, truncated, rw tag (failed_record z f q er failed))

read_objects_cut :
    (z : Zstd) (f : ℕ) (os : List Object) (rs : List Bytes) (front back : Bytes) (x : ℕ)
    → All IsCanonical os
    → Encodes z os rs
    → concat rs ++ (tag_end ∷ []) ≡ front ++ (x ∷ back)
    → length front < f
    → EndsEarly os (read_objects z f front)
unfolding concat
read_objects_cut z zero os rs front back x hk e cut h = absurd (omega arith)
read_objects_cut z (suc f) os rs [] back x hk e cut h =
    (0, truncated_before_end, tt, empty_stream z f)
read_objects_cut z (suc f) [] [] (a ∷ front) back x hk e cut h =
    absurd (omega (arith, ap length cut, length-append front (x ∷ back)))
read_objects_cut z (suc f) [] (r ∷ rs) (a ∷ front) back x hk e cut h = absurd e
read_objects_cut z (suc f) (o ∷ os) [] (a ∷ front) back x hk e cut h = absurd e
read_objects_cut z (suc f) (o ∷ os) (r ∷ rs) (a ∷ front) back x hk e cut h =
    let aligned : (a ∷ front) ++ (x ∷ back) ≡ r ++ (concat rs ++ (tag_end ∷ [])) =
      sym cut ∙ append_assoc r (concat rs) (tag_end ∷ []) in
    elim (prefix_split (a ∷ front) x back r (concat rs ++ (tag_end ∷ [])) aligned) [
      | inl (q2, same, rest) ↦
          let shorter : length q2 < f = omega (
            arith,
            ap length same,
            length-append r q2,
            ap length (encode_record-tag z o.key o.bytes r e.0),
          ) in
          let (n, er, truncated, run) =
            read_objects_cut z f os rs q2 back x hk.1 e.1 rest shorter in
          (suc n, er, truncated, rw (same, read_objects-step z f o r q2 hk.0 e.0, run))
      | inr (y, more, same) ↦ cut_in_record z f o os a front r y more hk.0 e.0 same
    ]

short_stream :
    (z : Zstd) (front : Bytes) → length front < 8 → read_all z front ≡ err reading_magic ∷ []
unfolding read_all
short_stream z front h = rw (lt→ltb (length front) 8 h)

-- Of a wire pack of objects with canonical keys that lost at least its last byte, `Reader.All` yields
-- some of the objects from the front, as they were added, and then one error that says that the
-- stream ended early.
pub read_all_truncated :
    (z : Zstd) (os : List Object) (w : Writer) (front back : Bytes) (x : ℕ)
    → All IsCanonical os
    → add_all z new_writer os ≡ ok w
    → (close w).out ≡ front ++ (x ∷ back)
    → EndsEarly os (read_all z front)
read_all_truncated z os w front back x hk e cut =
    let (rs, encoded, out) = close-written z w os e in
    elim (prefix_split front x back pack_magic (concat rs ++ (tag_end ∷ [])) (sym cut ∙ out)) [
      | inl (q2, same, rest) ↦
          let (n, er, truncated, run) =
            read_objects_cut z (suc (length (pack_magic ++ q2))) os rs q2 back x hk encoded rest
              (omega (arith, length-append pack_magic q2)) in
          (n, er, truncated, rw (same, read_all-magic z q2) run)
      | inr (y, more, same) ↦ (
        0,
        reading_magic,
        tt,
        short_stream z front (omega (arith, ap length same, length-append front (y ∷ more))),
      )
    ]
