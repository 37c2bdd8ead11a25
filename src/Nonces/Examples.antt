-- ===== src/Nonces/Examples.antt =====
-- A nonce that comes again within two windows.
use amber_store.Prelude.{◌≡◌, refl, arith, List, [], ◌∷◌, true, false}
use amber_store.Nonces.{
  Call, new, seen_before, after_calls, sweep, time_of, record_unless, seen_before-seen_before,
}

abbrev others : List Call
others = (7 ∷ [], 8 ∷ [], 1100) ∷ (7 ∷ [], 9 ∷ [], 1150) ∷ []

first_is_new : (seen_before (new 100) (7 ∷ []) (9 ∷ []) 1000).1 ≡ false
unfolding seen_before new sweep time_of record_unless
first_is_new = refl

seen_before-seen_before_example :
    (seen_before
      (after_calls (seen_before (new 100) (7 ∷ []) (9 ∷ []) 1000).0 others)
      (7 ∷ [])
      (9 ∷ [])
      1160).1
    ≡ true
unfolding new
seen_before-seen_before_example =
    seen_before-seen_before (new 100) (7 ∷ []) (9 ∷ []) 1000 1160 others first_is_new (omega arith)
      (omega arith)
