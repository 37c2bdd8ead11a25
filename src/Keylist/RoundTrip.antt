-- ===== src/Keylist/RoundTrip.antt =====
-- `Flatten` and `Parse` of key lists are inverse to one another.
use amber_store.Prelude.{
  ℕ, zero, suc, ◌+◌, ◌*◌, ◌/◌, ◌%◌, ◌≡◌, refl, ap, arith, List, [], ◌∷◌, length, take, drop, Bytes,
  All, ok, >>=-eq-ok, wrap, length-append, length-drop, wrap_inv, take-append, drop-append_exact,
  take-append-drop,
}
use amber_store.Key.{Key, size, parse as key_parse}
use amber_store.Key.Canonical.{parse_inv}
use amber_store.Keylist.{bad_key, flatten, parse_from, parse}

-- A key in canonical form: `Parse` of package key accepts it.
abbrev pub IsCanonical : Key → Type 0
IsCanonical k = key_parse k ≡ ok k

length-flatten : (ks : List Key) → All IsCanonical ks → length (flatten ks) ≡ 32 * length ks
unfolding flatten
length-flatten [] h = refl
length-flatten (k ∷ ks) h =
    omega (arith, length-append k (flatten ks), (parse_inv k k h.0).0, length-flatten ks h.1)

parse_from-flatten :
    (i : ℕ) (ks : List Key) → All IsCanonical ks → parse_from i (length ks) (flatten ks) ≡ ok ks
unfolding parse_from flatten
parse_from-flatten i [] h = refl
parse_from-flatten i (k ∷ ks) h =
    let len : length k ≡ size = (parse_inv k k h.0).0 in
    rw (
      take-append k (flatten ks) len,
      h.0,
      drop-append_exact k (flatten ks) len,
      parse_from-flatten (i + 1) ks h.1,
    )

-- A list of canonical keys that is flattened and parsed again comes back, in order.
pub parse-flatten : (ks : List Key) → All IsCanonical ks → parse (flatten ks) ≡ ok ks
unfolding parse
parse-flatten ks h =
    let len : length (flatten ks) ≡ 32 * length ks = length-flatten ks h in
    let whole : 32 * length ks % 32 ≡ 0 = omega arith in
    let rounds : 32 * length ks / 32 ≡ length ks = omega arith in
    rw (len, whole, rounds) (parse_from-flatten 0 ks h)

parse_from_sound :
    (i n : ℕ) (b : Bytes) (ks : List Key)
    → length b ≡ 32 * n
    → parse_from i n b ≡ ok ks
    → (flatten ks ≡ b) × All IsCanonical ks × (length ks ≡ n)
unfolding parse_from flatten
parse_from_sound i zero [] ks len e = ground arith
parse_from_sound i zero (x ∷ b) ks len e = absurd (omega arith)
parse_from_sound i (suc n) b ks len e =
    let (k, first, more) = >>=-eq-ok (wrap (bad_key i) (key_parse (take size b))) _ e in
    let (ks', later, done) = >>=-eq-ok (parse_from (i + 1) n (drop size b)) _ more in
    let (same, canonical, count) =
      parse_from_sound (i + 1) n (drop size b) ks' (omega (arith, length-drop size b)) later in
    let accepted : key_parse (take size b) ≡ ok k = wrap_inv (bad_key i) _ first in
    let (_, _, front, _) = parse_inv (take size b) k accepted in
    let all : k ∷ ks' ≡ ks = cc done in
    rw (← all) (
      rw (same, front) (take-append-drop size b),
      (rw (← front) at accepted, canonical),
      ap suc count,
    )

parse_run :
    (b : Bytes) (ks : List Key)
    → parse b ≡ ok ks
    → (length b % 32 ≡ 0) × (parse_from 0 (length b / 32) b ≡ ok ks)
unfolding parse
parse_run b ks e = ground arith

-- Bytes that `Parse` accepts are the concatenation of the keys that it returns, all canonical.
pub flatten-parse :
    (b : Bytes) (ks : List Key) → parse b ≡ ok ks → (flatten ks ≡ b) × All IsCanonical ks
flatten-parse b ks e =
    let (whole, run) = parse_run b ks e in
    let (same, canonical, _) = parse_from_sound 0 (length b / 32) b ks (omega arith) run in
    (same, canonical)
