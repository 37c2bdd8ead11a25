-- ===== src/Keylist.antt =====
-- keylist/keylist.go: lists of keys as their concatenated bytes.
pub mod RoundTrip
mod Examples
use amber_store.Prelude.{
  ℕ, zero, suc, ◌+◌, ◌/◌, ◌%◌, not, List, [], ◌∷◌, ◌++◌, ◌==◌, length, if◌then◌else◌, take, drop,
  Bytes, Result, ok, err, ◌>>=◌, wrap,
}
use amber_store.Key.{Key, KeyError, size, parse as key_parse}

pub data KeylistError : Type 0 where
  bad_list_length : KeylistError
  bad_key : ℕ → KeyError → KeylistError

unfoldable pub flatten : List Key → Bytes
flatten [] = []
flatten (k ∷ ks) = k ++ flatten ks

-- The loop of `Parse`: key `i` is the next 32 bytes; `n` rounds are left.
unfoldable pub parse_from : ℕ → ℕ → Bytes → Result KeylistError (List Key)
parse_from i zero b = ok []
parse_from i (suc n) b = do
  k ← wrap (bad_key i) (key_parse (take size b))
  ks ← parse_from (i + 1) n (drop size b)
  ok (k ∷ ks)

unfoldable pub parse : Bytes → Result KeylistError (List Key)
unfolding parse_from
parse b =
    if not (length b % size == 0) then err bad_list_length else parse_from 0 (length b / size) b
