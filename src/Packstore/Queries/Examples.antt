-- ===== src/Packstore/Queries/Examples.antt =====
-- Absent keys at a concrete store.
use amber_store.Prelude.{◌≡◌, refl, arith, [], ◌∷◌, none, true, false, ok}
use amber_store.Key.Examples.{sample_key}
use amber_store.Packstore.Examples.{passing}
use amber_store.Packstore.Store.{Store}
use amber_store.Packstore.Queries.{missing, absent, missing-absent}

abbrev open_store : Store
open_store = record {
  segment_size = 1000;
  sync = true;
  capturing = false;
  grey = none;
  sealed = [];
  active = none;
  next_id = 1;
  is_closed = false;
  has_failed = false;
}

missing-absent_example :
    missing passing open_store 8 (sample_key ∷ sample_key ∷ [])
    ≡ ok (absent passing open_store (sample_key ∷ sample_key ∷ []))
missing-absent_example =
    missing-absent passing open_store 8 (sample_key ∷ sample_key ∷ []) refl (omega arith)
