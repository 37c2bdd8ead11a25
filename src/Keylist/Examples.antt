-- ===== src/Keylist/Examples.antt =====
-- Key lists at concrete inputs.
use amber_store.Prelude.{◌≡◌, refl, List, [], ◌∷◌, ◌++◌, All, ok, err}
use amber_store.Key.{Key, parse as key_parse, validate, is_valid, type_of}
use amber_store.Key.Examples.{sample_key, sample_parsed}
use amber_store.Keylist.{flatten, parse, bad_list_length}
use amber_store.Keylist.RoundTrip.{IsCanonical, parse-flatten, flatten-parse}

abbrev two_keys : List Key
two_keys = sample_key ∷ sample_key ∷ []

parse_partial : parse (1 ∷ 2 ∷ 3 ∷ []) ≡ err bad_list_length
unfolding parse
parse_partial = refl

parse-flatten_example : parse (flatten two_keys) ≡ ok two_keys
parse-flatten_example = parse-flatten two_keys (sample_parsed, (sample_parsed, tt))

flatten-parse_example : (flatten two_keys ≡ sample_key ++ sample_key) × All IsCanonical two_keys
unfolding parse key_parse validate is_valid type_of
flatten-parse_example = flatten-parse (sample_key ++ sample_key) two_keys refl
