-- ===== src/Packstore/Compact/Sweep.antt =====
-- The sweep of packstore/compact.go: a live object of the store is still there when the victims are gone.
use amber_store.Prelude.{
  ℕ, ◌^◌, ◌≡◌, sym, ◌∙◌, ap, subst, arith, Bool, true, inl, inr, Option, none, some, List, [], ◌∷◌,
  Bytes, ok, err, Bool-cases, Result-cases, Option-cases,
}
use amber_store.Key.{Key}
use amber_store.Key.Fields.{IsArray32}
use amber_store.Amberpack.Record.{Zstd}
use amber_store.Packstore.Filter.{FuseLibrary}
use amber_store.Packstore.Footer.{SealedSegment}
use amber_store.Packstore.Filed.{IsFiled}
use amber_store.Packstore.Store.{Store, Io, ActiveSegment, any_sealed}
use amber_store.Packstore.Store.Refinement.{holds}
use amber_store.Packstore.Index.{IndexEntry}
use amber_store.Packstore.Compact.{
  CompactError, CompactOpts, Copying, EndIo, survivor_has, survivors, copy_segments, sync_copies,
  remove_victims, and_next, sweep_victims, select_victims,
}
use amber_store.Packstore.Compact.Wellfiled.{IsPart, IsFilingOption, IsWellFiled, Survives}
use amber_store.Packstore.Compact.Copies.{
  and_next_inv, Copies, still-Survives, copy_segments-Copies,
}
use amber_store.Packstore.Compact.Selection.{
  IsSelected, not_in_part, select_victims-IsSelected, survivors-IsPart, survivors-All,
  survivors-AreApart, any_sealed-survivors,
}

sync_copies_inv : (sync_ok : Bool) (s s' : Store) → sync_copies sync_ok s ≡ (s', ok tt) → s' ≡ s
unfolding sync_copies
sync_copies_inv sync_ok s s' h = elim (Option-cases s.active) [
  | inl missing ↦ ground (arith, h, missing)
  | inr (a, there) ↦ ground (arith, h, there)
]

remove_victims_inv :
    (files_ok : Bool) (victims : List SealedSegment) (s s' : Store)
    → remove_victims files_ok victims s ≡ (s', ok tt)
    → s' ≡ record s { sealed = survivors victims s.sealed }
unfolding remove_victims
remove_victims_inv files_ok victims s s' h = ground (arith, h)

module _ (x : FuseLibrary) (z : Zstd) (content : Key → Bytes) where
  smaller-IsFiling :
      (most n : ℕ) (gs hs : List SealedSegment) (o : Option ActiveSegment)
      → IsPart hs gs
      → IsFilingOption x z content most n gs o
      → IsFilingOption x z content most n hs o
  smaller-IsFiling most n gs hs none part f = tt
  smaller-IsFiling most n gs hs (some a) part f = record {
    active = f.active;
    reads = f.reads;
    small = f.small;
    few = f.few;
    own = not_in_part hs gs a.id part f.own;
    numbered = f.numbered;
  }

  removed-IsWellFiled :
      (victims : List SealedSegment) (s : Store)
      → IsWellFiled x z content s
      → IsWellFiled x z content (record s { sealed = survivors victims s.sealed })
  removed-IsWellFiled victims s w =
      let part : IsPart (survivors victims s.sealed) s.sealed = survivors-IsPart victims s.sealed in
      record {
        segments = survivors-All (IsFiled x z content) victims s.sealed w.segments;
        apart = survivors-AreApart victims s.sealed w.apart;
        fresh = λ n le. not_in_part (survivors victims s.sealed) s.sealed n part (w.fresh n le);
        filing =
            smaller-IsFiling (2 ^ 36) s.next_id s.sealed (survivors victims s.sealed) s.active part
              w.filing;
        bounded = w.bounded;
      }

  removed-holds :
      (victims : List SealedSegment) (s : Store) (j : Key)
      → Survives x z content victims s j
      → holds x (record s { sealed = survivors victims s.sealed }) j ≡ true
  unfolding survivor_has
  removed-holds victims s j h = ground (arith, h, any_sealed-survivors x victims s.sealed j)

  -- What a step does to the objects that are kept.
  abbrev pub Keeps : (Key → Bool) → Store → Store → Type 0
  Keeps live s s' =
      IsWellFiled x z content s'
      × ((j : Key) → IsArray32 j → live j ≡ true → holds x s j ≡ true → holds x s' j ≡ true)

  module _ (hash_of : Bytes → Bytes) (live : Key → Bool) (opts : CompactOpts)
      (io : ℕ → IndexEntry → Io) (last : EndIo) where
    covered_holds :
        (victims : List SealedSegment) (s u : Store) (j : Key)
        → IsSelected x (IsFiled x z content) victims s.sealed
        → Copies hash_of x z content live victims s u
        → ((i : Key)
            → IsArray32 i
            → live i ≡ true
            → any_sealed x victims i ≡ true
            → Survives x z content victims u i)
        → IsArray32 j
        → live j ≡ true
        → holds x s j ≡ true
        → Survives x z content victims u j
    unfolding survivor_has
    covered_holds victims s u j sel c copied_all array is_live there =
        elim (Bool-cases (survivor_has x victims s j)) [
          | inl kept ↦ still-Survives hash_of x z content live victims s u sel.part c j array kept
          | inr lost ↦ copied_all j array is_live (ground (arith, sel.covered j, there, lost))
        ]

    swept :
        (victims : List SealedSegment) (s s' : Store)
        → IsWellFiled x z content s
        → IsSelected x (IsFiled x z content) victims s.sealed
        → and_next
            (and_next
              (copy_segments hash_of x z live victims io victims s)
              (sync_copies last.sync_ok))
            (remove_victims last.files_ok victims)
          ≡ (s', ok tt)
        → Keeps live s s'
    swept victims s s' w sel done =
        let (v, both, removing) =
          and_next_inv
            (and_next (copy_segments hash_of x z live victims io victims s)
              (sync_copies last.sync_ok))
            (remove_victims last.files_ok victims) s' done in
        let (u, copying, syncing) =
          and_next_inv (copy_segments hash_of x z live victims io victims s)
            (sync_copies last.sync_ok) v both in
        let (c, copied_all) =
          copy_segments-Copies hash_of x z content live victims io victims s u sel.each w sel.part
            copying in
        let after : s' ≡ record u { sealed = survivors victims u.sealed } =
          remove_victims_inv last.files_ok victims v s' removing
          ∙ ap (λ (t : Store). record t { sealed = survivors victims t.sealed })
              (sync_copies_inv last.sync_ok u v syncing) in
        subst (Keeps live s) (sym after) (
          removed-IsWellFiled victims u c.filed,
          λ j array is_live there.
              removed-holds victims u j
                (covered_holds victims s u j sel c copied_all array is_live there),
        )

    sweep_victims-Keeps :
        (s s' : Store) (victims : List SealedSegment)
        → IsWellFiled x z content s
        → IsSelected x (IsFiled x z content) victims s.sealed
        → sweep_victims hash_of x z live io last s (ok victims) ≡ (s', ok tt)
        → Keeps live s s'
    unfolding sweep_victims
    sweep_victims-Keeps s s' [] w sel done =
        subst (Keeps live s) (same done) (w, λ j array is_live there. there)
      where
        same : ◌≡◌ {A = Copying} (s, ok tt) (s', ok tt) → s ≡ s'
        same e = ground (arith, e)
    sweep_victims-Keeps s s' (g ∷ gs) w sel done = swept (g ∷ gs) s s' w sel done

    no_sweep :
        (s s' : Store) (e : CompactError)
        → sweep_victims hash_of x z live io last s (err e) ≡ (s', ok tt)
        → ⊥
    unfolding sweep_victims
    no_sweep s s' e h = cc h

    pub selected_sweep :
        (s s' : Store)
        → IsWellFiled x z content s
        → sweep_victims hash_of x z live io last s (select_victims live opts s.sealed) ≡ (s', ok tt)
        → Keeps live s s'
    selected_sweep s s' w done = elim (Result-cases (select_victims live opts s.sealed)) [
      | inl (victims, selected) ↦
          sweep_victims-Keeps s s' victims w
            (select_victims-IsSelected x (IsFiled x z content) live opts s.sealed victims w.segments
              w.apart selected)
            (rw selected at done)
      | inr (e, failed) ↦ absurd (no_sweep s s' e (rw failed at done))
    ]
