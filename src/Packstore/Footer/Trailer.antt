-- ===== src/Packstore/Footer/Trailer.antt =====
-- The fields of a trailer, read back from its 64 bytes.
use amber_store.Prelude.{
  ℕ, ◌+◌, ◌-◌, ◌^◌, ◌<◌, ◌≡◌, refl, ◌∙◌, ap, arith, ◌++◌, length, take, slice, Bytes, put_be,
  get_be, length-append, length-put_be, append_assoc, drop-append, field_front, field_skip,
}
use amber_store.Amberpack.Crc.{checksum, checksum-IsU32}
use amber_store.Amberpack.Record.{zero4}
use amber_store.Packstore.{magic_trailer}
use amber_store.Packstore.Footer.{trailer_fields}

-- The checksum, the reserved field and the magic behind the fields.
abbrev pub trailer_end : Bytes → Bytes
trailer_end head = put_be 4 (checksum head) ++ (zero4 ++ magic_trailer)

pub length-trailer_fields : (bl il fl kc : ℕ) → length (trailer_fields bl il fl kc) ≡ 48
unfolding trailer_fields
length-trailer_fields bl il fl kc =
    let f5 : Bytes = put_be 8 bl in
    let f4 : Bytes = put_be 8 kc ++ f5 in
    let f3 : Bytes = put_be 8 fl ++ f4 in
    let f2 : Bytes = put_be 8 (bl + 1 + il) ++ f3 in
    let f1 : Bytes = put_be 8 il ++ f2 in
    omega (
      arith,
      length-append (put_be 8 (bl + 1)) f1,
      length-append (put_be 8 il) f2,
      length-append (put_be 8 (bl + 1 + il)) f3,
      length-append (put_be 8 fl) f4,
      length-append (put_be 8 kc) f5,
      length-put_be 8 (bl + 1),
      length-put_be 8 il,
      length-put_be 8 (bl + 1 + il),
      length-put_be 8 fl,
      length-put_be 8 kc,
      length-put_be 8 bl,
    )

pub length-trailer_end : (head : Bytes) → length (trailer_end head) ≡ 16
length-trailer_end head = omega (
  arith,
  length-append (put_be 4 (checksum head)) (zero4 ++ magic_trailer),
  length-put_be 4 (checksum head),
)

pub record TrailerHolds (bl il fl kc : ℕ) (head tr : Bytes) : Type 0 where
  pub index_off_field : get_be (slice tr 0 8) ≡ bl + 1
  pub index_len_field : get_be (slice tr 8 16) ≡ il
  pub filter_off_field : get_be (slice tr 16 24) ≡ bl + 1 + il
  pub filter_len_field : get_be (slice tr 24 32) ≡ fl
  pub key_count_field : get_be (slice tr 32 40) ≡ kc
  pub body_len_field : get_be (slice tr 40 48) ≡ bl
  pub crc_field : get_be (slice tr 48 52) ≡ checksum head
  pub reserved_field : get_be (slice tr 52 56) ≡ 0
  pub magic_field : slice tr 56 64 ≡ magic_trailer

trailer_reassociated :
    (bl il fl kc : ℕ) (t : Bytes)
    → trailer_fields bl il fl kc ++ t
      ≡ put_be 8 (bl + 1)
        ++ (put_be 8 il
            ++ (put_be 8 (bl + 1 + il) ++ (put_be 8 fl ++ (put_be 8 kc ++ (put_be 8 bl ++ t)))))
unfolding trailer_fields
trailer_reassociated bl il fl kc t =
    let f5 : Bytes = put_be 8 bl in
    let f4 : Bytes = put_be 8 kc ++ f5 in
    let f3 : Bytes = put_be 8 fl ++ f4 in
    let f2 : Bytes = put_be 8 (bl + 1 + il) ++ f3 in
    let f1 : Bytes = put_be 8 il ++ f2 in
    append_assoc (put_be 8 (bl + 1)) f1 t
    ∙ ap (λ (l : Bytes). put_be 8 (bl + 1) ++ l)
        (append_assoc (put_be 8 il) f2 t
          ∙ ap (λ (l : Bytes). put_be 8 il ++ l)
              (append_assoc (put_be 8 (bl + 1 + il)) f3 t
                ∙ ap (λ (l : Bytes). put_be 8 (bl + 1 + il) ++ l)
                    (append_assoc (put_be 8 fl) f4 t
                      ∙ ap (λ (l : Bytes). put_be 8 fl ++ l) (append_assoc (put_be 8 kc) f5 t))))

to_end :
    (bl il fl kc : ℕ) (e : Bytes) (lo hi : ℕ)
    → slice
        (put_be 8 (bl + 1)
          ++ (put_be 8 il
              ++ (put_be 8 (bl + 1 + il) ++ (put_be 8 fl ++ (put_be 8 kc ++ (put_be 8 bl ++ e))))))
        (48 + lo)
        (48 + hi)
      ≡ slice e lo hi
to_end bl il fl kc e lo hi =
    let width : 48 + hi - (48 + lo) ≡ hi - lo = omega arith in
    let f5 : Bytes = put_be 8 bl ++ e in
    let f4 : Bytes = put_be 8 kc ++ f5 in
    let f3 : Bytes = put_be 8 fl ++ f4 in
    let f2 : Bytes = put_be 8 (bl + 1 + il) ++ f3 in
    let f1 : Bytes = put_be 8 il ++ f2 in
    rw width (
      ap (take (hi - lo)) (
        drop-append (put_be 8 (bl + 1)) f1 {n = 48 + lo} (40 + lo)
          (omega (arith, length-put_be 8 (bl + 1)))
        ∙ drop-append (put_be 8 il) f2 {n = 40 + lo} (32 + lo) (omega (arith, length-put_be 8 il))
        ∙ drop-append (put_be 8 (bl + 1 + il)) f3 {n = 32 + lo} (24 + lo)
            (omega (arith, length-put_be 8 (bl + 1 + il)))
        ∙ drop-append (put_be 8 fl) f4 {n = 24 + lo} (16 + lo) (omega (arith, length-put_be 8 fl))
        ∙ drop-append (put_be 8 kc) f5 {n = 16 + lo} (8 + lo) (omega (arith, length-put_be 8 kc))
        ∙ drop-append (put_be 8 bl) e {n = 8 + lo} lo (omega (arith, length-put_be 8 bl))))

get_be-zero4 : get_be zero4 ≡ 0
unfolding get_be
get_be-zero4 = refl

fields-TrailerHolds :
    (bl il fl kc : ℕ) (head tr : Bytes)
    → bl + 1 + il + fl < 2 ^ 64
    → kc < 2 ^ 32
    → tr
      ≡ put_be 8 (bl + 1)
        ++ (put_be 8 il
            ++ (put_be 8 (bl + 1 + il)
                ++ (put_be 8 fl ++ (put_be 8 kc ++ (put_be 8 bl ++ trailer_end head)))))
    → TrailerHolds bl il fl kc head tr
fields-TrailerHolds bl il fl kc head tr fits few same =
    let e : Bytes = trailer_end head in
    let f5 : Bytes = put_be 8 bl ++ e in
    let f4 : Bytes = put_be 8 kc ++ f5 in
    let f3 : Bytes = put_be 8 fl ++ f4 in
    let f2 : Bytes = put_be 8 (bl + 1 + il) ++ f3 in
    let f1 : Bytes = put_be 8 il ++ f2 in
    rw same (record {
      index_off_field = field_front 8 (bl + 1) f1 (omega arith);
      index_len_field =
          ap get_be (field_skip 8 (bl + 1) f1 0 8) ∙ field_front 8 il f2 (omega arith);
      filter_off_field =
          ap get_be (field_skip 8 (bl + 1) f1 8 16 ∙ field_skip 8 il f2 0 8)
          ∙ field_front 8 (bl + 1 + il) f3 (omega arith);
      filter_len_field =
          ap get_be (
            field_skip 8 (bl + 1) f1 16 24
            ∙ field_skip 8 il f2 8 16
            ∙ field_skip 8 (bl + 1 + il) f3 0 8)
          ∙ field_front 8 fl f4 (omega arith);
      key_count_field =
          ap get_be (
            field_skip 8 (bl + 1) f1 24 32
            ∙ field_skip 8 il f2 16 24
            ∙ field_skip 8 (bl + 1 + il) f3 8 16
            ∙ field_skip 8 fl f4 0 8)
          ∙ field_front 8 kc f5 (omega arith);
      body_len_field =
          ap get_be (
            field_skip 8 (bl + 1) f1 32 40
            ∙ field_skip 8 il f2 24 32
            ∙ field_skip 8 (bl + 1 + il) f3 16 24
            ∙ field_skip 8 fl f4 8 16
            ∙ field_skip 8 kc f5 0 8)
          ∙ field_front 8 bl e (omega arith);
      crc_field =
          ap get_be (to_end bl il fl kc e 0 4)
          ∙ field_front 4 (checksum head) (zero4 ++ magic_trailer)
              (omega (arith, checksum-IsU32 head));
      reserved_field =
          ap get_be
            (to_end bl il fl kc e 4 8 ∙ field_skip 4 (checksum head) (zero4 ++ magic_trailer) 0 4)
          ∙ get_be-zero4;
      magic_field =
          to_end bl il fl kc e 8 16 ∙ field_skip 4 (checksum head) (zero4 ++ magic_trailer) 4 12;
    })

-- The last 64 bytes of a footer hold its numbers.
pub trailer-TrailerHolds :
    (bl il fl kc : ℕ) (head tr : Bytes)
    → bl + 1 + il + fl < 2 ^ 64
    → kc < 2 ^ 32
    → tr ≡ trailer_fields bl il fl kc ++ trailer_end head
    → TrailerHolds bl il fl kc head tr
trailer-TrailerHolds bl il fl kc head tr fits few same =
    fields-TrailerHolds bl il fl kc head tr fits few
      (same ∙ trailer_reassociated bl il fl kc (trailer_end head))
