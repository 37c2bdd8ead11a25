-- ===== src/Gc/Cycle.antt =====
-- gc/cycle.go and the reference hooks of gc/collector.go: a cycle marks what the references reach while
-- writes go on, and sweeps. The keys that the references name, what the writes made of the store until
-- the sweep, and whether the context is done then, are arguments; statistics are left out.
pub mod References
pub mod Examples
pub mod Keeps
use amber_store.Prelude.{
  ℕ, Bool, true, false, Option, none, some, List, [], ◌∷◌, Bytes, Result, ok, err, ◌>>=◌, wrap,
  if◌then◌else◌,
}
use amber_store.Key.{Key, KeyError, parse as key_parse}
use amber_store.Amberpack.Record.{Zstd}
use amber_store.Fstree.{Cbor}
use amber_store.Fstree.Walk.{WalkError, check_complete}
use amber_store.Packstore.Filter.{FuseLibrary}
use amber_store.Packstore.Index.{IndexEntry}
use amber_store.Packstore.Store.{Store, Io, has_object, get_object}
use amber_store.Packstore.Lifecycle.{begin_barrier, abort_barrier, observe_keys}
use amber_store.Packstore.Marks.{MarkSet, is_marked}
use amber_store.Packstore.Compact.{CompactError, CompactOpts, Copying, EndIo, compact}
use amber_store.Gc.{MarkError, Marking, mark_live}

pub data CycleError : Type 0 where
  references_failed cycle_cancelled : CycleError
  bad_reference : KeyError → CycleError
  mark_failed : MarkError → CycleError
  sweep_failed : CompactError → CycleError

unfoldable pub parse_roots : List Bytes → Result CycleError (List Key)
parse_roots [] = ok []
parse_roots (b ∷ bs) = do k ← wrap bad_reference (key_parse b); rest ← parse_roots bs; ok (k ∷ rest)

-- Collector.roots, of the keys that the references name, where they could be read.
unfoldable pub roots_of : Option (List Bytes) → Result CycleError (List Key)
unfolding parse_roots
roots_of none = err references_failed
roots_of (some named) = parse_roots named

abbrev pub Cycle : Type 0
Cycle = Store × Result CycleError (Unit {0})

unfoldable pub abort : Store → CycleError → Cycle
unfolding abort_barrier
abort s e = (abort_barrier s, err e)

unfoldable pub swept : Copying → Cycle
swept (s, ok _) = (s, ok tt)
swept (s, err e) = (s, err (sweep_failed e))

module _ (x : FuseLibrary) (z : Zstd) where
  -- Store.Get and Store.Has as the walks call them.
  unfoldable pub read_in : Store → Key → Option Bytes
  unfolding get_object
  read_in s k = elim (get_object x z s k) [ ok d ↦ some d | err e ↦ none ]

  unfoldable pub has_in : Store → Key → Option Bool
  unfolding has_object
  has_in s k = elim (has_object x s k) [ ok b ↦ some b | err e ↦ none ]

  -- Collector.PrepareRef: nothing stands for rounds of the walk that ran out.
  unfoldable pub prepared :
      Store → Option (Result WalkError (List Key)) → Option (Store × Result WalkError (Unit {0}))
  unfolding observe_keys
  prepared s none = none
  prepared s (some (err e)) = some (s, err e)
  prepared s (some (ok keys)) = some (observe_keys s keys, ok tt)

  unfoldable pub prepare_ref : Cbor → ℕ → Store → Key → Option (Store × Result WalkError (Unit {0}))
  unfolding prepared read_in has_in check_complete
  prepare_ref c rounds s root = prepared s (check_complete c (read_in s) (has_in s) rounds root)

  module _ (hash_of : Bytes → Bytes) (c : Cbor) where
    unfoldable pub sweep :
        CompactOpts → Io → (ℕ → IndexEntry → Io) → EndIo → Bool → Store → MarkSet → Cycle
    unfolding swept compact is_marked abort
    sweep opts seal_io io last is_done t m =
        if is_done
        then abort t cycle_cancelled
        else swept (compact hash_of x z (is_marked x m) opts seal_io io last t)

    unfoldable pub after_marking : (MarkSet → Cycle) → Store → Marking → Option Cycle
    unfolding abort
    after_marking go t none = none
    after_marking go t (some (err e)) = some (abort t (mark_failed e))
    after_marking go t (some (ok m)) = some (go m)

    unfoldable pub after_roots :
        (List Key → Option Cycle) → Store → Result CycleError (List Key) → Option Cycle
    unfolding abort
    after_roots go s (err e) = some (abort s e)
    after_roots go s (ok roots) = go roots

    -- Collector.cycle; the writes lead from the store with the barrier to the one that is swept.
    unfoldable pub cycle :
        (ℕ → Bool)
        → ℕ
        → CompactOpts
        → Io
        → (ℕ → IndexEntry → Io)
        → EndIo
        → Bool
        → Option (List Bytes)
        → (Store → Store)
        → Store
        → Option Cycle
    unfolding after_roots after_marking sweep roots_of begin_barrier mark_live read_in
    cycle cancelled rounds opts seal_io io last is_done named writes s =
        let s1 = begin_barrier s in
        after_roots
          (λ roots.
            after_marking (sweep opts seal_io io last is_done (writes s1)) (writes s1)
              (mark_live x c (read_in s1) cancelled rounds s1 roots))
          s1 (roots_of named)
