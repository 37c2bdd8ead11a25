-- ===== src/Key/Canonical.antt =====
-- The keys that key.go's constructors build are exactly those that `Parse` accepts.
use native.Mathlib.Nat.{le_refl}
use amber_store.Prelude.{
  ℕ, ◌+◌, ◌-◌, ◌*◌, ◌/◌, ◌%◌, ◌≤◌, ◌<◌, ◌≡◌, sym, ◌∙◌, ap, ap₂, arith, [], ◌∷◌, length, take, drop,
  get_or, put_be, get_be, Bytes, IsByte, IsU64, All, All-take, length-append, length-take,
  length-put_be, take-append-drop, put_be-IsByte, get_be-put_be, put_be-get_be, bit_and, bit_or,
  bit_and_8, or_nibble, ok,
}
use amber_store.Key.{
  Key, is_valid, type_of, length_size, payload_length, hash, length_size_for, validate, parse,
  new_from_hash,
}
use amber_store.Key.Length.{length_size_for_iff, length_size_for_bounds, drop-put_be}
use amber_store.Key.Fields.{
  IsArray32, assemble, IsMinimal, type_of-assemble, length_size-assemble, payload_length-assemble,
  hash-assemble, validate-assemble, validate-assemble_inv, IsMinimal→width, width→IsMinimal,
  field-IsU64,
}

header_nibbles :
    (t ls : ℕ)
    → t ≤ 4
    → 1 ≤ ls
    → ls ≤ 8
    → bit_or (t * 16 % 256) ((ls - 1) % 256) ≡ t * 16 + (ls - 1)
header_nibbles t ls ht lo hi =
    let small : (ls - 1) % 256 ≡ ls - 1 = omega arith in
    rw small (or_nibble t (ls - 1) (omega arith) (omega arith))

last_bytes : (ls n : ℕ) → ls ≤ 8 → drop (8 - ls) (put_be 8 n) ≡ put_be ls n
last_bytes ls n hi =
    let eight : 8 - ls + ls ≡ 8 = omega arith in rw eight at (drop-put_be (8 - ls) ls n)

-- What `NewFromHash` builds: the nibbles, the shortest length field and the front of the digest.
abbrev built : ℕ → ℕ → Bytes → Key
built t len full =
    assemble t (put_be (length_size_for len) len) (take (31 - length_size_for len) full)

new_from_hash-built :
    (t len : ℕ) (full : Bytes)
    → IsU64 len
    → t ≤ 4
    → new_from_hash t len full ≡ ok (built t len full)
unfolding new_from_hash is_valid
new_from_hash-built t len full u ht =
    let (lo, hi) = length_size_for_bounds len u in
    ground (
      arith,
      header_nibbles t (length_size_for len),
      last_bytes (length_size_for len) len hi,
      length-put_be (length_size_for len) len,
    )

new_from_hash_type : (t len : ℕ) (full : Bytes) (k : Key) → new_from_hash t len full ≡ ok k → t ≤ 4
unfolding new_from_hash is_valid
new_from_hash_type t len full k e = ground arith

read_back : (len : ℕ) → IsU64 len → get_be (put_be (length_size_for len) len) ≡ len
read_back len u = get_be-put_be (length_size_for len) len (
    (length_size_for_iff (length_size_for len) len (length_size_for_bounds len u).0 u).0
      (le_refl _))

written_IsMinimal : (len : ℕ) → IsU64 len → IsMinimal (put_be (length_size_for len) len)
written_IsMinimal len u =
    let ls : ℕ = length_size_for len in
    let (lo, hi) = length_size_for_bounds len u in
    width→IsMinimal (put_be ls len) (put_be-IsByte ls len) (rw length-put_be lo)
      (rw length-put_be hi) (rw (read_back len u, length-put_be))

-- A key that `NewFromHash` built of a length below 2^64 and a digest of 32 bytes is accepted by
-- `Parse` as it is, and carries the type, the length and the front of the digest that it was built
-- from.
pub parse-new_from_hash :
    (t len : ℕ) (full : Bytes) (k : Key)
    → IsU64 len
    → new_from_hash t len full ≡ ok k
    → IsArray32 full
    → (parse k ≡ ok k)
      × (type_of k ≡ t)
      × (payload_length k ≡ len)
      × (hash k ≡ take (31 - length_size_for len) full)
unfolding parse
parse-new_from_hash t len full k u e d =
    let ht : t ≤ 4 = new_from_hash_type t len full k e in
    let ls : ℕ = length_size_for len in
    let field : Bytes = put_be ls len in
    let rest : Bytes = take (31 - ls) full in
    let (lo, hi) = length_size_for_bounds len u in
    let width : length field ≡ ls = length-put_be ls len in
    let whole : k ≡ assemble t field rest = cc (e, new_from_hash-built t len full u ht) in
    let t16 : t < 16 = omega arith in
    let lo' : 1 ≤ length field = omega arith in
    let hi' : length field ≤ 8 = omega arith in
    rw whole (
      ground (
        arith,
        validate-assemble t field rest t16 lo' hi' ht (written_IsMinimal len u),
        length-append field rest,
        length-take (31 - ls) full,
      ),
      type_of-assemble t field rest t16 lo' hi',
      payload_length-assemble t field rest t16 lo' hi' ∙ read_back len u,
      hash-assemble t field rest t16 lo' hi',
    )

-- A header whose reserved bit is clear, taken apart.
reassemble :
    (x : ℕ) (xs : Bytes)
    → x < 256
    → 8 ≤ length xs
    → bit_and x 0x08 ≡ 0
    → x ∷ xs ≡ assemble (x / 16) (take (x % 8 + 1) xs) (drop (x % 8 + 1) xs)
reassemble x xs hx long clear =
    let field : Bytes = take (x % 8 + 1) xs in
    let header : x ≡ x / 16 * 16 + (length field - 1) =
      omega (arith, bit_and_8 x hx, length-take (x % 8 + 1) xs) in
    ap₂ (λ (y : ℕ) (ys : Bytes). y ∷ ys) header (sym (take-append-drop (x % 8 + 1) xs))

rebuild :
    (t : ℕ) (field rest full : Bytes)
    → t < 16
    → 1 ≤ length field
    → length field ≤ 8
    → All IsByte field
    → take (31 - length field) full ≡ rest
    → validate (assemble t field rest) ≡ ok tt
    → new_from_hash t (get_be field) full ≡ ok (assemble t field rest)
rebuild t field rest full ht lo hi bytes h e =
    let (t4, minimal) = validate-assemble_inv t field rest ht lo hi e in
    let width : length_size_for (get_be field) ≡ length field =
      IsMinimal→width field bytes lo hi minimal in
    new_from_hash-built t (get_be field) full (field-IsU64 field bytes hi) t4
    ∙ rw (width, put_be-get_be field bytes, h)

pub parse_inv :
    (b : Bytes) (k : Key)
    → parse b ≡ ok k
    → (length b ≡ 32) × (validate b ≡ ok tt) × (k ≡ b) × (bit_and (get_or b 0 0) 0x08 ≡ 0)
unfolding parse validate
parse_inv b k e = ground arith

rebuild_whole :
    (b full : Bytes) (t : ℕ) (field rest : Bytes)
    → b ≡ assemble t field rest
    → t < 16
    → 1 ≤ length field
    → length field ≤ 8
    → All IsByte field
    → take (31 - length_size b) full ≡ hash b
    → validate b ≡ ok tt
    → new_from_hash (type_of b) (payload_length b) full ≡ ok b
rebuild_whole b full t field rest p ht lo hi bytes h e =
    let ls : length_size b ≡ length field =
      ap length_size p ∙ length_size-assemble t field rest ht lo hi in
    let ty : type_of b ≡ t = ap type_of p ∙ type_of-assemble t field rest ht lo hi in
    let pl : payload_length b ≡ get_be field =
      ap payload_length p ∙ payload_length-assemble t field rest ht lo hi in
    let hs : hash b ≡ rest = ap hash p ∙ hash-assemble t field rest ht lo hi in
    let front : take (31 - length field) full ≡ rest = rw (ls, hs) at h in
    rw (ty, pl) (rebuild t field rest full ht lo hi bytes front (rw p at e) ∙ ap ok (sym p))

-- Bytes that `Parse` accepts are the key that it returns, and `NewFromHash` builds that key from
-- its type, its length and any digest that begins with its hash bytes.
pub new_from_hash-parse :
    (b full : Bytes) (k : Key)
    → All IsByte b
    → parse b ≡ ok k
    → take (31 - length_size b) full ≡ hash b
    → (k ≡ b) × (new_from_hash (type_of b) (payload_length b) full ≡ ok k)
new_from_hash-parse [] full k bytes e h = absurd (omega (arith, (parse_inv [] k e).0))
new_from_hash-parse (x ∷ xs) full k bytes e h =
    let (len, valid, same, clear) = parse_inv (x ∷ xs) k e in
    let field : Bytes = take (x % 8 + 1) xs in
    let width : length field ≡ x % 8 + 1 = omega (arith, length-take (x % 8 + 1) xs) in
    (
      same,
      rebuild_whole (x ∷ xs) full (x / 16) field (drop (x % 8 + 1) xs)
            (reassemble x xs bytes.0 (omega arith) clear) (omega arith) (omega arith) (omega arith)
            (All-take IsByte (x % 8 + 1) xs bytes.1) h valid
          ∙ ap ok (sym same),
    )
