-- ===== src/Amberpack/Pack.antt =====
-- amberpack/pack.go: the wire pack, a magic, records and an end marker. A `Writer` keeps what it
-- has written so far (the underlying io.Writer is a buffer, whose writes do not fail); the iterator
-- of `Reader.All` is the list of what it yields to a consumer that never stops.
pub mod RoundTrip
pub mod Truncation
pub mod Written
pub mod Streams
use amber_store.Prelude.{
  ℕ, zero, suc, ◌-◌, ◌+◌, Bool, true, false, not, List, [], ◌∷◌, ◌++◌, ltb, ◌==◌, length,
  if◌then◌else◌, take, drop, slice, Bytes, get_be, bytes_eq, Result, ok, err, ◌>>=◌, ◌>>◌, fail_if,
  wrap,
}
use amber_store.Key.{Key}
use amber_store.Amberpack.Record.{
  Record, RecordError, Zstd, rec_header_size, tag_chunk, max_payload, parse_record, encode_record,
  decode_payload,
}

-- "AMBERPK\x03"
abbrev pub pack_magic : Bytes
pack_magic = 65 ∷ 77 ∷ 66 ∷ 69 ∷ 82 ∷ 80 ∷ 75 ∷ 3 ∷ []

abbrev pub tag_end : ℕ
tag_end = 0x00

-- fstree.Object
pub record Object : Type 0 where
  pub key : Key
  pub bytes : Bytes

-- `out_of_fuel` is no error of the source: the loop's bound ran out.
pub data PackError : Type 0 where
  reading_magic bad_magic truncated_before_end truncated_record_header : PackError
  payload_exceeds_limit truncated_record_payload bad_record_tag : PackError
  corrupt : RecordError → PackError
  out_of_fuel : PackError

pub record Writer : Type 0 where
  pub out : Bytes
  pub wrote_header : Bool

abbrev pub new_writer : Writer
new_writer = record { out = []; wrote_header = false }

unfoldable pub ensure_header : Writer → Writer
ensure_header w =
    if w.wrote_header then w else record { out = w.out ++ pack_magic; wrote_header = true }

unfoldable pub add_record : Writer → Bytes → Writer
unfolding ensure_header
add_record w rec = let w' = ensure_header w in record w' { out = w'.out ++ rec }

unfoldable pub close : Writer → Writer
unfolding ensure_header
close w = let w' = ensure_header w in record w' { out = w'.out ++ (tag_end ∷ []) }

module _ (z : Zstd) where
  -- Writer.Add: an object that cannot be encoded leaves a writer with its header written.
  unfoldable pub add : Writer → Object → Writer × Result RecordError (Unit {0})
  unfolding ensure_header
  add w o =
      let w' = ensure_header w in
      elim (encode_record z o.key o.bytes) [
        | ok rec ↦ (record w' { out = w'.out ++ rec }, ok tt)
        | err e ↦ (w', err e)
      ]

  -- A whole record: `rest` is what follows it.
  unfoldable pub accept_record : Bytes → Bytes → Result PackError (Object × Bytes)
  accept_record full rest = do
    rec ← wrap corrupt (parse_record full)
    payload ← wrap corrupt (decode_payload z rec.flags rec.ulen (drop rec_header_size full))
    ok (record { key = rec.key; bytes = payload }, rest)

  -- The record whose tag has been read: `b` stands behind the tag.
  unfoldable pub read_record : Bytes → Result PackError (Object × Bytes)
  read_record b =
      let hdr = tag_chunk ∷ take (rec_header_size - 1) b in
      let body = drop (rec_header_size - 1) b in
      let slen = get_be (slice hdr 38 42) in
      let full = hdr ++ take slen body in
      do
        fail_if (ltb (length b) (rec_header_size - 1)) truncated_record_header
        fail_if (ltb max_payload slen) payload_exceeds_limit
        fail_if (ltb (length body) slen) truncated_record_payload
        accept_record full (drop slen body)

  -- The loop of `Reader.All`: each round reads a tag.
  unfoldable pub read_objects : ℕ → Bytes → List (Result PackError Object)
  read_objects zero b = err out_of_fuel ∷ []
  read_objects (suc f) [] = err truncated_before_end ∷ []
  read_objects (suc f) (tag ∷ b) =
      if tag == tag_end
      then []
      else if tag == tag_chunk
      then elim (read_record b) [ ok (o, rest) ↦ ok o ∷ read_objects f rest | err e ↦ err e ∷ [] ]
      else err bad_record_tag ∷ []

  -- Each round takes a byte at least, so one round more than there are bytes is enough.
  unfoldable pub read_all : Bytes → List (Result PackError Object)
  unfolding read_objects
  read_all b =
      if ltb (length b) (length pack_magic)
      then err reading_magic ∷ []
      else if not (bytes_eq (take (length pack_magic) b) pack_magic)
      then err bad_magic ∷ []
      else read_objects (suc (length b)) (drop (length pack_magic) b)
