-- ===== src/Packstore/Liveness.antt =====
-- packstore/compact.go: how much of each segment is live.
use amber_store.Prelude.{
  ℕ, zero, suc, ◌+◌, Bool, true, false, none, some, List, [], ◌∷◌, ◌++◌, if◌then◌else◌, Result, ok,
  err,
}
use amber_store.Key.{Key}
use amber_store.Amberpack.Record.{rec_header_size}
use amber_store.Packstore.Index.{IndexEntry, row_key, row_value}
use amber_store.Packstore.Footer.{SealedSegment, FooterView}
use amber_store.Packstore.Store.{Store, StoreError, ActiveSegment, entries_of, store_closed}

-- footerView.allEntries: the entry of a row.
unfoldable pub entry_at : FooterView → ℕ → IndexEntry
entry_at fv i =
    let (off, slen) = row_value fv.entries i in
    record { k = row_key fv.entries i; off = off; slen = slen }

unfoldable pub entries_from : FooterView → ℕ → ℕ → List IndexEntry
unfolding entry_at
entries_from fv zero i = []
entries_from fv (suc n) i = entry_at fv i ∷ entries_from fv n (i + 1)

unfoldable pub all_entries : FooterView → List IndexEntry
unfolding entries_from
all_entries fv = entries_from fv fv.key_count 0

pub record Liveness : Type 0 where
  pub id : ℕ
  pub is_sealed : Bool
  pub live_keys : ℕ
  pub dead_keys : ℕ
  pub live_bytes : ℕ
  pub dead_bytes : ℕ

-- SegmentLiveness.add
unfoldable pub add_entry : Liveness → Bool → ℕ → Liveness
add_entry info is_live slen =
    if is_live
    then record info {
      live_keys = info.live_keys + 1;
      live_bytes = info.live_bytes + (rec_header_size + slen);
    }
    else record info {
      dead_keys = info.dead_keys + 1;
      dead_bytes = info.dead_bytes + (rec_header_size + slen);
    }

unfoldable pub add_entries : (Key → Bool) → Liveness → List IndexEntry → Liveness
unfolding add_entry
add_entries live info [] = info
add_entries live info (e ∷ es) = add_entries live (add_entry info (live e.k) e.slen) es

-- sealedSegment.liveness
unfoldable pub liveness : (Key → Bool) → SealedSegment → Liveness
unfolding add_entries all_entries
liveness live g =
    add_entries live
      (record {
        id = g.id;
        is_sealed = true;
        live_keys = 0;
        dead_keys = 0;
        live_bytes = 0;
        dead_bytes = 0;
      })
      (all_entries g.fv)

-- The report on the active segment, from its index.
unfoldable pub active_liveness : (Key → Bool) → ActiveSegment → Liveness
unfolding add_entries
active_liveness live a =
    add_entries live
      (record {
        id = a.id;
        is_sealed = false;
        live_keys = 0;
        dead_keys = 0;
        live_bytes = 0;
        dead_bytes = 0;
      })
      (entries_of a.index)

unfoldable pub sealed_reports : (Key → Bool) → List SealedSegment → List Liveness
unfolding liveness
sealed_reports live [] = []
sealed_reports live (g ∷ gs) = liveness live g ∷ sealed_reports live gs

-- Store.Liveness
unfoldable pub report_liveness : (Key → Bool) → Store → Result StoreError (List Liveness)
unfolding sealed_reports active_liveness
report_liveness live s =
    let sealed = sealed_reports live s.sealed in
    if s.is_closed
    then err store_closed
    else ok (elim s.active [ none ↦ sealed | some a ↦ sealed ++ (active_liveness live a ∷ []) ])
