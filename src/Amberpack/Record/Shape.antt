-- ===== src/Amberpack/Record/Shape.antt =====
-- The fields of an assembled record, read back at their offsets.
use amber_store.Prelude.{
  ℕ, ◌+◌, ◌≡◌, refl, sym, ◌∙◌, ap, arith, [], ◌∷◌, ◌++◌, length, get_or, take, slice, Bytes, get_be,
  put_be, append-nil, append_assoc, length-append, length-put_be, get_be-put_be, take-append,
  get_or-append, get_or-append_lt, slice-append_le, slice_middle,
}
use amber_store.Key.{Key}
use amber_store.Amberpack.Crc.{update, checksum, checksum-append, checksum-IsU32}
use amber_store.Amberpack.Record.{rec_header_size, zero4, header_fields, assemble}

module _ (k : Key) (flags ulen slen : ℕ) (hk : length k ≡ 32) where
  length-header_fields : length (header_fields k flags ulen slen) ≡ 42
  unfolding header_fields
  length-header_fields = omega (
    arith,
    length-append k (flags ∷ (put_be 4 ulen ++ put_be 4 slen)),
    length-append (put_be 4 ulen) (put_be 4 slen),
    length-put_be 4 ulen,
    length-put_be 4 slen,
  )

  header-tag : get_or (header_fields k flags ulen slen) 0 0 ≡ 1
  unfolding header_fields
  header-tag = refl

  header-flags : get_or (header_fields k flags ulen slen) 33 0 ≡ flags
  unfolding header_fields
  header-flags = get_or-append k (flags ∷ (put_be 4 ulen ++ put_be 4 slen)) 0 0 (omega arith)

  header-key : slice (header_fields k flags ulen slen) 1 33 ≡ k
  unfolding header_fields
  header-key = take-append k (flags ∷ (put_be 4 ulen ++ put_be 4 slen)) hk

  front : Bytes
  front = 1 ∷ (k ++ (flags ∷ []))

  length-front : length front ≡ 34
  unfolding front
  length-front = omega (arith, length-append k (flags ∷ []))

  header-split : header_fields k flags ulen slen ≡ front ++ (put_be 4 ulen ++ put_be 4 slen)
  unfolding header_fields front
  header-split =
      ap (λ (l : Bytes). 1 ∷ l) (sym (append_assoc k (flags ∷ []) (put_be 4 ulen ++ put_be 4 slen)))

  header-ulen : slice (header_fields k flags ulen slen) 34 38 ≡ put_be 4 ulen
  header-ulen = rw header-split (
      slice_middle front (put_be 4 ulen) (put_be 4 slen) 34 38 length-front
        (omega (arith, length-put_be 4 ulen)))

  header-slen : slice (header_fields k flags ulen slen) 38 42 ≡ put_be 4 slen
  header-slen =
      let split : header_fields k flags ulen slen
          ≡ (front ++ put_be 4 ulen) ++ (put_be 4 slen ++ []) =
        header-split ∙ (rw (append-nil, append_assoc)) in
      rw split (
        slice_middle (front ++ put_be 4 ulen) (put_be 4 slen) [] 38 42
          (omega (arith, length-append front (put_be 4 ulen), length-front, length-put_be 4 ulen))
          (omega (arith, length-put_be 4 slen)))

-- A record with more bytes behind it, read at the offsets that `ParseRecord` uses.
module _ (k : Key) (flags ulen : ℕ) (payload rest : Bytes) (hk : length k ≡ 32) where
  fields : Bytes
  fields = header_fields k flags ulen (length payload)

  sum : Bytes
  unfolding fields
  sum = put_be 4 (checksum (fields ++ (zero4 ++ payload)))

  length-fields : length fields ≡ 42
  unfolding fields
  length-fields = length-header_fields k flags ulen (length payload) hk

  length-sum : length sum ≡ 4
  unfolding sum
  length-sum = length-put_be 4 (checksum (fields ++ (zero4 ++ payload)))

  record-split : assemble k flags ulen payload ++ rest ≡ fields ++ (sum ++ (payload ++ rest))
  unfolding assemble sum
  record-split =
      append_assoc fields (sum ++ payload) rest
      ∙ ap (λ (l : Bytes). fields ++ l) (append_assoc sum payload rest)

  pub record-length :
      length (assemble k flags ulen payload ++ rest)
      ≡ rec_header_size + length payload + length rest
  record-length = rw record-split (
      omega (
        arith,
        length-append fields (sum ++ (payload ++ rest)),
        length-append sum (payload ++ rest),
        length-append payload rest,
        length-fields,
        length-sum,
      ))

  pub record-tag : get_or (assemble k flags ulen payload ++ rest) 0 0 ≡ 1
  record-tag = rw record-split (
      get_or-append_lt fields (sum ++ (payload ++ rest)) 0 0 (omega (arith, length-fields))
      ∙ (unfold fields in header-tag k flags ulen (length payload) hk))

  pub record-flags : get_or (assemble k flags ulen payload ++ rest) 33 0 ≡ flags
  record-flags = rw record-split (
      get_or-append_lt fields (sum ++ (payload ++ rest)) 33 0 (omega (arith, length-fields))
      ∙ (unfold fields in header-flags k flags ulen (length payload) hk))

  pub record-key : slice (assemble k flags ulen payload ++ rest) 1 33 ≡ k
  record-key = rw record-split (
      slice-append_le fields (sum ++ (payload ++ rest)) 1 33 (omega arith)
        (omega (arith, length-fields))
      ∙ (unfold fields in header-key k flags ulen (length payload) hk))

  pub record-ulen : slice (assemble k flags ulen payload ++ rest) 34 38 ≡ put_be 4 ulen
  record-ulen = rw record-split (
      slice-append_le fields (sum ++ (payload ++ rest)) 34 38 (omega arith)
        (omega (arith, length-fields))
      ∙ (unfold fields in header-ulen k flags ulen (length payload) hk))

  pub record-slen : slice (assemble k flags ulen payload ++ rest) 38 42 ≡ put_be 4 (length payload)
  record-slen = rw record-split (
      slice-append_le fields (sum ++ (payload ++ rest)) 38 42 (omega arith)
        (omega (arith, length-fields))
      ∙ (unfold fields in header-slen k flags ulen (length payload) hk))

  record-sum : slice (assemble k flags ulen payload ++ rest) 42 46 ≡ sum
  record-sum =
      rw record-split
        (slice_middle fields sum (payload ++ rest) 42 46 length-fields (omega (arith, length-sum)))

  pub record-payload :
      slice
        (assemble k flags ulen payload ++ rest)
        rec_header_size
        (rec_header_size + length payload)
      ≡ payload
  record-payload =
      let split : assemble k flags ulen payload ++ rest ≡ (fields ++ sum) ++ (payload ++ rest) =
        record-split ∙ sym (append_assoc fields sum (payload ++ rest)) in
      rw split (
        slice_middle (fields ++ sum) payload rest 46 (46 + length payload)
          (omega (arith, length-append fields sum, length-fields, length-sum)) refl)

  -- The three updates of `ParseRecord` give the number that the record carries.
  pub record-crc :
      update (update (update 0 (take 42 (assemble k flags ulen payload ++ rest))) zero4) (
        slice
          (assemble k flags ulen payload ++ rest)
          rec_header_size
          (rec_header_size + length payload))
      ≡ get_be (slice (assemble k flags ulen payload ++ rest) 42 46)
  record-crc =
      let front : take 42 (assemble k flags ulen payload ++ rest) ≡ fields =
        rw record-split (take-append fields (sum ++ (payload ++ rest)) length-fields) in
      let number : get_be sum ≡ checksum (fields ++ (zero4 ++ payload)) =
        unfold sum in
        get_be-put_be 4 (checksum (fields ++ (zero4 ++ payload)))
          (checksum-IsU32 (fields ++ (zero4 ++ payload))) in
      rw (front, record-payload, record-sum, number) (sym (checksum-append fields zero4 payload))
