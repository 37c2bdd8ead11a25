-- ===== src/Packstore/Index.antt =====
-- packstore/footer.go, the index section of a sealed segment: a fanout table on the last byte of
-- the keys and rows sorted by (last byte, key). `search` is sort.Search of the standard library.
pub mod Sorted
pub mod Search
pub mod Rows
pub mod Lookup
pub mod Listed
use amber_store.Prelude.{
  ℕ, zero, suc, ◌+◌, ◌-◌, ◌*◌, ◌/◌, ◌%◌, ◌^◌, Bool, not, ◌&&◌, ◌||◌, Option, none, some, List, [],
  ◌∷◌, ◌++◌, ltb, ◌==◌, length, if◌then◌else◌, get_or, take, drop, slice, Bytes, put_be, get_be,
  bytes_eq, bytes_less, Result, ok, err, ◌>>=◌, ◌>>◌, fail_if,
}
use amber_store.Key.{Key, size}

abbrev pub fanout_size : ℕ
fanout_size = 256 * 4

abbrev pub index_entry_size : ℕ
index_entry_size = 32 + 8 + 4

pub data IndexError : Type 0 where
  too_many_keys bad_section_length bad_fanout_total : IndexError
  fanout_not_monotonic : ℕ → IndexError

pub record IndexEntry : Type 0 where
  pub k : Key
  pub off : ℕ
  pub slen : ℕ

unfoldable pub last_byte : Key → ℕ
last_byte k = get_or k (size - 1) 0

-- compareEntries(a, b) < 0
unfoldable pub entry_less : IndexEntry → IndexEntry → Bool
entry_less a b =
    ltb (last_byte a.k) (last_byte b.k) || (last_byte a.k == last_byte b.k && bytes_less a.k b.k)

-- slices.SortFunc, as insertion.
unfoldable pub insert_entry : IndexEntry → List IndexEntry → List IndexEntry
insert_entry e [] = e ∷ []
insert_entry e (f ∷ fs) = if entry_less f e then f ∷ insert_entry e fs else e ∷ f ∷ fs

unfoldable pub sort_entries : List IndexEntry → List IndexEntry
unfolding insert_entry
sort_entries [] = []
sort_entries (e ∷ es) = insert_entry e (sort_entries es)

-- counts[b], a uint32.
unfoldable pub count_last : List IndexEntry → ℕ → ℕ
count_last [] b = 0
count_last (e ∷ es) b =
    let n = count_last es b in if last_byte e.k == b then (n + 1) % 2 ^ 32 else n

-- The loop over the last bytes from `b` on: `n` rounds are left.
unfoldable pub fanout_bytes : List IndexEntry → ℕ → ℕ → ℕ → Bytes
fanout_bytes es zero b cum = []
fanout_bytes es (suc n) b cum =
    let cum' = (cum + count_last es b) % 2 ^ 32 in put_be 4 cum' ++ fanout_bytes es n (b + 1) cum'

unfoldable pub entry_bytes : IndexEntry → Bytes
entry_bytes e = e.k ++ (put_be 8 e.off ++ put_be 4 e.slen)

unfoldable pub index_rows : List IndexEntry → Bytes
index_rows [] = []
index_rows (e ∷ es) = entry_bytes e ++ index_rows es

unfoldable pub build_index_section : List IndexEntry → Bytes
build_index_section entries =
    let es = sort_entries entries in fanout_bytes es 256 0 0 ++ index_rows es

-- The loop that decodes the fanout table: the count at `i` is next, `n` are left.
unfoldable pub read_fanout : ℕ → ℕ → ℕ → Bytes → Result IndexError (List ℕ)
read_fanout zero i prev b = ok []
read_fanout (suc n) i prev b =
    let v = get_be (take 4 b) in
    do
      fail_if (ltb v prev) (fanout_not_monotonic i)
      rest ← read_fanout n (i + 1) v (drop 4 b)
      ok (v ∷ rest)

unfoldable pub parse_index_section : Bytes → ℕ → Result IndexError (List ℕ × Bytes)
parse_index_section b key_count = do
  fail_if (ltb (2 ^ 32 - 1) key_count) too_many_keys
  fail_if (not (length b == fanout_size + key_count * index_entry_size)) bad_section_length
  fanout ← read_fanout 256 0 0 b
  fail_if (not (get_or fanout 255 0 == key_count)) bad_fanout_total
  ok (fanout, drop fanout_size b)

-- sort.Search between `i` and `j`, with a bound on the rounds.
unfoldable pub search : (ℕ → Bool) → ℕ → ℕ → ℕ → ℕ
search p zero i j = i
search p (suc f) i j =
    let h = (i + j) / 2 in
    let rest = search p f (if p h then i else h + 1) (if p h then h else j) in
    if ltb i j then rest else i

unfoldable pub row_key : Bytes → ℕ → Key
row_key entries pos = take 32 (drop (pos * index_entry_size) entries)

-- The search halves the bucket in every round, so as many rounds as it has rows are enough. The
-- difference is that of two uint32.
unfoldable pub search_index_pos : List ℕ → Bytes → Key → Option ℕ
search_index_pos fanout entries k =
    let b = last_byte k in
    let lo = if b == 0 then 0 else get_or fanout (b - 1) 0 in
    let n = (get_or fanout b 0 + 2 ^ 32 - lo) % 2 ^ 32 in
    let i = search (λ i. not (bytes_less (row_key entries (lo + i)) k)) n 0 n in
    if not (ltb i n)
    then none
    else if bytes_eq (row_key entries (lo + i)) k
    then some (lo + i)
    else none

-- The offset and the stored length in the row that was found.
unfoldable pub row_value : Bytes → ℕ → ℕ × ℕ
row_value entries pos =
    let e = drop (pos * index_entry_size) entries in
    (get_be (slice e 32 40), get_be (slice e 40 44))

unfoldable pub row_values : Bytes → Option ℕ → Option (ℕ × ℕ)
row_values entries none = none
row_values entries (some pos) = some (row_value entries pos)

unfoldable pub search_index : List ℕ → Bytes → Key → Option (ℕ × ℕ)
search_index fanout entries k = row_values entries (search_index_pos fanout entries k)
