-- ===== src/Amberpack/Pack/Streams.antt =====
-- What the reader of pack.go yields on any bytes at all.
use amber_store.Prelude.{
  ℕ, zero, suc, ◌≤◌, ◌<◌, ◌≡◌, ◌≢◌, refl, ap, arith, List, [], ◌∷◌, ◌++◌, Bool, true, false, inl,
  inr, ltb, ◌==◌, length, take, drop, slice, Bytes, get_be, Result, ok, err, if◌then◌else◌, wrap,
  length-drop, >>=-eq-ok, bytes_eq, not, fail_if_inv, fail_if_ne, Result-cases, wrap_inv,
}
use amber_store.Amberpack.Record.{
  Zstd, rec_header_size, tag_chunk, max_payload, parse_record, decode_payload,
}
use amber_store.Amberpack.Record.RoundTrip.{IsParsed, parse_record-IsParsed}
use amber_store.Amberpack.Pack.{
  PackError, Object, pack_magic, tag_end, accept_record, read_record, read_objects, read_all,
  out_of_fuel, corrupt, truncated_record_header, payload_exceeds_limit, truncated_record_payload,
}
use amber_store.Amberpack.Pack.RoundTrip.{IsCanonical}

-- Objects with canonical keys, and at most one error, which comes last. It is an error of the
-- source: the bound on the rounds is never met.
abbrev pub IsStream : List (Result PackError Object) → Type 0
IsStream [] = Unit {0}
IsStream (ok o ∷ l) = IsCanonical o × IsStream l
IsStream (err e ∷ l) = (e ≢ out_of_fuel) × (l ≡ [])

accept_record-IsCanonical :
    (z : Zstd) (full rest rest' : Bytes) (o : Object)
    → accept_record z full rest ≡ ok (o, rest')
    → IsCanonical o × (rest' ≡ rest)
unfolding accept_record
accept_record-IsCanonical z full rest rest' o h =
    let (r, parsed, more) = >>=-eq-ok (wrap corrupt (parse_record full)) _ h in
    let (p, _, done) =
      >>=-eq-ok (wrap corrupt (decode_payload z r.flags r.ulen (drop rec_header_size full))) _
        more in
    let facts : IsParsed full r =
      parse_record-IsParsed full r (wrap_inv corrupt (parse_record full) parsed) in
    let same : r.key ≡ o.key = cc done in (rw same at facts.canonical, cc done)

accept_record-ne-out_of_fuel :
    (z : Zstd) (full rest : Bytes) → accept_record z full rest ≢ err out_of_fuel
unfolding accept_record
accept_record-ne-out_of_fuel z full rest h = ground arith

read_record_ok :
    (z : Zstd) (b rest : Bytes) (o : Object)
    → read_record z b ≡ ok (o, rest)
    → IsCanonical o × (length rest ≤ length b)
unfolding read_record
read_record_ok z b rest o h =
    let hdr : Bytes = tag_chunk ∷ take 45 b in
    let slen : ℕ = get_be (slice hdr 38 42) in
    let body : Bytes = drop 45 b in
    let (_, h1) = fail_if_inv (ltb (length b) 45) truncated_record_header _ h in
    let (_, h2) = fail_if_inv (ltb max_payload slen) payload_exceeds_limit _ h1 in
    let (_, h3) =
      fail_if_inv (ltb (length body) slen) truncated_record_payload
        (accept_record z (hdr ++ take slen body) (drop slen body)) h2 in
    let (canonical, same) =
      accept_record-IsCanonical z (hdr ++ take slen body) (drop slen body) rest o h3 in
    (canonical, omega (arith, ap length same, length-drop slen body, length-drop 45 b))

truncated_header_ne : truncated_record_header ≢ out_of_fuel
truncated_header_ne e = cc

exceeds_ne : payload_exceeds_limit ≢ out_of_fuel
exceeds_ne e = cc

truncated_payload_ne : truncated_record_payload ≢ out_of_fuel
truncated_payload_ne e = cc

read_record-ne-out_of_fuel : (z : Zstd) (b : Bytes) → read_record z b ≢ err out_of_fuel
unfolding read_record
read_record-ne-out_of_fuel z b = fail_if_ne _ _ _ _ truncated_header_ne (
    fail_if_ne _ _ _ _ exceeds_ne
      (fail_if_ne _ _ _ _ truncated_payload_ne (accept_record-ne-out_of_fuel z _ _)))

if-IsStream :
    (c : Bool) (l m : List (Result PackError Object))
    → IsStream l
    → IsStream m
    → IsStream (if c then l else m)
if-IsStream true l m h k = h
if-IsStream false l m h k = k

read_objects-IsStream :
    (z : Zstd) (f : ℕ) (b : Bytes) → length b < f → IsStream (read_objects z f b)
unfolding read_objects
read_objects-IsStream z zero b h = absurd (omega arith)
read_objects-IsStream z (suc f) [] h = (λ e. cc, refl)
read_objects-IsStream z (suc f) (tag ∷ b) h = if-IsStream (tag == tag_end) _ _ tt (
    if-IsStream (tag == tag_chunk) _ _
      (elim (Result-cases (read_record z b)) [
        | inl ((o, rest), e) ↦
            let (canonical, shorter) = read_record_ok z b rest o e in
            rw e (canonical, read_objects-IsStream z f rest (omega arith))
        | inr (x, e) ↦ rw e ((λ p. read_record-ne-out_of_fuel z b (rw (← p) e)), refl)
      ])
      ((λ e. cc), refl))

-- On every input the iterator of `Reader.All` ends within its bound on the rounds: it yields objects
-- with canonical keys and then at most one error, which is the last thing it yields.
pub read_all-IsStream : (z : Zstd) (b : Bytes) → IsStream (read_all z b)
unfolding read_all
read_all-IsStream z b =
    if-IsStream (ltb (length b) 8) _ _ ((λ e. cc), refl)
      (if-IsStream (not (bytes_eq (take 8 b) pack_magic)) _ _ ((λ e. cc), refl)
        (read_objects-IsStream z (suc (length b)) (drop 8 b) (omega (arith, length-drop 8 b))))
