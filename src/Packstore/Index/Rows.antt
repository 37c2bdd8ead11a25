-- ===== src/Packstore/Index/Rows.antt =====
-- The bytes of an index section are read back as the fanout table and the rows that were written.
use amber_store.Prelude.{
  ℕ, zero, suc, ◌+◌, ◌*◌, ◌%◌, ◌^◌, ◌≤◌, ◌<◌, ◌≡◌, refl, sym, ◌∙◌, ap, arith, List, [], ◌∷◌, ◌++◌,
  length, drop, slice, Bytes, All, IsU32, put_be, get_be, length-append, length-put_be, take-append,
  drop-append, drop-append_exact, slice_middle, append_assoc, get_be-put_be, ok,
}
use amber_store.Packstore.Index.{
  IndexEntry, count_last, fanout_bytes, entry_bytes, index_rows, read_fanout, row_key, row_value,
}
use amber_store.Packstore.Index.Sorted.{IsRow, row}
use amber_store.Packstore.Index.Search.{below, below-le, below_next, below_le_next, counts}

-- One round of the loop that writes the table, and of the one that reads it.
fanout_bytes_next :
    (es : List IndexEntry) (n b : ℕ)
    → length es < 2 ^ 32
    → fanout_bytes es (suc n) b (below es b)
      ≡ put_be 4 (below es (b + 1)) ++ fanout_bytes es n (b + 1) (below es (b + 1))
unfolding fanout_bytes
fanout_bytes_next es n b h =
    let cum : (below es b + count_last es b) % 2 ^ 32 ≡ below es (b + 1) =
      omega (arith, below_next es b h, below-le es (b + 1)) in
    rw cum

read_fanout_next :
    (n i prev v : ℕ) (s : Bytes) (l : List ℕ)
    → IsU32 v
    → prev ≤ v
    → read_fanout n (i + 1) v s ≡ ok l
    → read_fanout (suc n) i prev (put_be 4 v ++ s) ≡ ok (v ∷ l)
unfolding read_fanout
read_fanout_next n i prev v s l u le h =
    rw
      (
        take-append (put_be 4 v) s (length-put_be 4 v),
        drop-append_exact (put_be 4 v) s (length-put_be 4 v),
        get_be-put_be 4 v u,
        h,
      )
      (ground arith)

read_none : (i prev : ℕ) (b : Bytes) → read_fanout zero i prev b ≡ ok []
unfolding read_fanout
read_none i prev b = refl

pub read_fanout-fanout_bytes :
    (es : List IndexEntry) (n i : ℕ) (rest : Bytes)
    → length es < 2 ^ 32
    → read_fanout n i (below es i) (fanout_bytes es n i (below es i) ++ rest) ≡ ok (counts es n i)
unfolding counts
read_fanout-fanout_bytes es zero i rest h =
    read_none i (below es i) (fanout_bytes es zero i (below es i) ++ rest)
read_fanout-fanout_bytes es (suc n) i rest h =
    rw
      (
        fanout_bytes_next es n i h,
        append_assoc (put_be 4 (below es (i + 1))) (fanout_bytes es n (i + 1) (below es (i + 1)))
            rest,
      )
      (read_fanout_next n i (below es i) (below es (i + 1))
        (fanout_bytes es n (i + 1) (below es (i + 1)) ++ rest) (counts es n (i + 1))
        (omega (arith, below-le es (i + 1))) (below_le_next es i)
        (read_fanout-fanout_bytes es n (i + 1) rest h))

pub length-entry_bytes : (e : IndexEntry) → length e.k ≡ 32 → length (entry_bytes e) ≡ 44
unfolding entry_bytes
length-entry_bytes e h = omega (
  arith,
  length-append e.k (put_be 8 e.off ++ put_be 4 e.slen),
  length-append (put_be 8 e.off) (put_be 4 e.slen),
  length-put_be 8 e.off,
  length-put_be 4 e.slen,
)

pub length-index_rows :
    (es : List IndexEntry) → All IsRow es → length (index_rows es) ≡ length es * 44
unfolding index_rows
length-index_rows [] s = refl
length-index_rows (e ∷ es) s = omega (
  arith,
  length-append (entry_bytes e) (index_rows es),
  length-entry_bytes e s.0.0.0,
  length-index_rows es s.1,
)

-- From a position on, the rows begin with the bytes of its row.
drop-index_rows :
    (es : List IndexEntry) (q : ℕ)
    → All IsRow es
    → q < length es
    → (rest : Bytes) × (drop (q * 44) (index_rows es) ≡ entry_bytes (row es q) ++ rest)
unfolding index_rows
drop-index_rows [] q s h = absurd (omega arith)
drop-index_rows (e ∷ es) zero s h = (index_rows es, refl)
drop-index_rows (e ∷ es) (suc q) s h =
    let (rest, same) = drop-index_rows es q s.1 (omega arith) in
    (
      rest,
      drop-append (entry_bytes e) (index_rows es) (q * 44)
            (omega (arith, length-entry_bytes e s.0.0.0))
          ∙ same,
    )

pub row_key-index_rows :
    (es : List IndexEntry) (q : ℕ)
    → All IsRow es
    → q < length es
    → length (row es q).k ≡ 32
    → row_key (index_rows es) q ≡ (row es q).k
unfolding row_key entry_bytes
row_key-index_rows es q s h len =
    let (rest, same) = drop-index_rows es q s h in
    let e : IndexEntry = row es q in
    rw (same, append_assoc e.k (put_be 8 e.off ++ put_be 4 e.slen) rest) (take-append e.k _ len)

value_of_bytes :
    (e : IndexEntry) (rest b : Bytes)
    → IsRow e
    → b ≡ entry_bytes e ++ rest
    → (get_be (slice b 32 40) ≡ e.off) × (get_be (slice b 40 44) ≡ e.slen)
unfolding entry_bytes
value_of_bytes e rest b s same =
    let off : slice b 32 40 ≡ put_be 8 e.off =
      ap (λ (l : Bytes). slice l 32 40)
        (same
          ∙ append_assoc e.k (put_be 8 e.off ++ put_be 4 e.slen) rest
          ∙ ap (λ (l : Bytes). e.k ++ l) (append_assoc (put_be 8 e.off) (put_be 4 e.slen) rest))
      ∙ slice_middle e.k (put_be 8 e.off) (put_be 4 e.slen ++ rest) 32 40 s.0.0
          (omega (arith, length-put_be 8 e.off)) in
    let slen : slice b 40 44 ≡ put_be 4 e.slen =
      ap (λ (l : Bytes). slice l 40 44)
        (same
          ∙ append_assoc e.k (put_be 8 e.off ++ put_be 4 e.slen) rest
          ∙ ap (λ (l : Bytes). e.k ++ l) (append_assoc (put_be 8 e.off) (put_be 4 e.slen) rest)
          ∙ sym (append_assoc e.k (put_be 8 e.off) (put_be 4 e.slen ++ rest)))
      ∙ slice_middle (e.k ++ put_be 8 e.off) (put_be 4 e.slen) rest 40 44
          (omega (arith, length-append e.k (put_be 8 e.off), length-put_be 8 e.off, s.0.0))
          (omega (arith, length-put_be 4 e.slen)) in
    (
      rw off (get_be-put_be 8 e.off (omega (arith, s.1.0))),
      rw slen (get_be-put_be 4 e.slen (omega (arith, s.1.1))),
    )

pub row_value-index_rows :
    (es : List IndexEntry) (q : ℕ)
    → All IsRow es
    → q < length es
    → IsRow (row es q)
    → row_value (index_rows es) q ≡ ((row es q).off, (row es q).slen)
unfolding row_value
row_value-index_rows es q s h r =
    let (rest, same) = drop-index_rows es q s h in
    let (off, slen) = value_of_bytes (row es q) rest (drop (q * 44) (index_rows es)) r same in
    rw (off, slen)
