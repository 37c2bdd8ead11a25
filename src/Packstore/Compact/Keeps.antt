-- ===== src/Packstore/Compact/Keeps.antt =====
-- `Store.Compact` of packstore/compact.go loses no object that is live, or that a capture saw.
use amber_store.Prelude.{
  ℕ, ◌^◌, ◌≡◌, refl, sym, ◌∙◌, ap, subst, arith, Bool, true, ◌||◌, ◌⊎◌, inl, inr, Option,
  Option-cases, contains, none, some, List, [], Bytes, ok, err, Bool-cases,
}
use amber_store.Key.{Key}
use amber_store.Key.Fields.{IsArray32}
use amber_store.Amberpack.Record.{Zstd}
use amber_store.Packstore.Filter.{FuseLibrary}
use amber_store.Packstore.Footer.{SealedSegment}
use amber_store.Packstore.Filed.{held}
use amber_store.Packstore.Store.{
  Store, Io, ActiveSegment, Outcome, in_active, seal_active, seal_option, read_object,
}
use amber_store.Packstore.Store.Refinement.{holds}
use amber_store.Packstore.Lifecycle.{take_grey}
use amber_store.Packstore.Index.{IndexEntry}
use amber_store.Packstore.Compact.{
  is_among, CompactOpts, Copying, EndIo, survivor_has, or_grey, sweep_victims, after_seal, compact,
  select_victims,
}
use amber_store.Packstore.Compact.Sweep.{Keeps, selected_sweep}
use amber_store.Packstore.Compact.Wellfiled.{
  IsFiling, IsFilingOption, IsWellFiled, seal_segment-IsWellFiled,
}
use amber_store.Packstore.Compact.Selection.{any_survivor-nil, read_object-held}

-- A key that is live, or that a capture saw since its start.
abbrev pub IsKept : Store → (Key → Bool) → Key → Type 0
IsKept s live j =
    (live j ≡ true) ⊎ ((grey : List Key) × (s.grey ≡ some grey) × (contains grey j ≡ true))

kept-or_grey :
    (s : Store) (live : Key → Bool) (j : Key) → IsKept s live j → or_grey s.grey live j ≡ true
unfolding or_grey
kept-or_grey s live j (inl is_live) = elim (Option-cases s.grey) [
  | inl missing ↦ ground (arith, missing, is_live)
  | inr (keys, there) ↦ ground (arith, there, is_live)
]
kept-or_grey s live j (inr (grey, there, seen)) = ground (arith, there, seen)

module _ (x : FuseLibrary) (z : Zstd) (content : Key → Bytes) where
  pub holds-survives : (s : Store) (j : Key) → survivor_has x [] s j ≡ holds x s j
  unfolding survivor_has
  holds-survives s j = ap (λ b. in_active x s.active j || b) (any_survivor-nil x s.sealed j)

  looser-IsFiling :
      (n : ℕ) (gs : List SealedSegment) (a : ActiveSegment)
      → IsFiling x z content (2 ^ 36) n gs a
      → IsFiling x z content (2 ^ 37) n gs a
  looser-IsFiling n gs a f = record {
    active = f.active;
    reads = f.reads;
    small = omega (arith, f.small);
    few = f.few;
    own = f.own;
    numbered = f.numbered;
  }

  pub no_victims : (n : ℕ) → is_among [] n ≡ true → ⊥
  unfolding is_among
  no_victims n e = cc e

  abbrev Seals : Store → Store → Type 0
  Seals s s' =
      IsWellFiled x z content s'
      × ((j : Key) → IsArray32 j → holds x s j ≡ true → holds x s' j ≡ true)

  -- The seal at the start.
  seal_option-Keeps :
      (io : Io) (s s' : Store) (o : Option ActiveSegment)
      → s.active ≡ o
      → IsWellFiled x z content s
      → seal_option x io s o ≡ (s', ok tt)
      → Seals s s'
  unfolding seal_option
  seal_option-Keeps io s s' none here w done =
      subst (Seals s) (same done) (w, λ j array there. there)
    where
      same : ◌≡◌ {A = Outcome} (s, ok tt) (s', ok tt) → s ≡ s'
      same e = ground (arith, e)
  seal_option-Keeps io s s' (some a) here w done =
      let f : IsFiling x z content (2 ^ 36) s.next_id s.sealed a =
        subst (IsFilingOption x z content (2 ^ 36) s.next_id s.sealed) here w.filing in
      elim (seal_segment-IsWellFiled x z content io s s' a here w.segments w.apart w.fresh
        (looser-IsFiling s.next_id s.sealed a f) w.bounded done) [
          | inl (same, _) ↦ subst (Seals s) (sym same) (w, λ j array there. there)
          | inr (w', grows) ↦ (
            w',
            λ j array there.
                sym (holds-survives s' j)
                ∙ (grows [] (λ n among. absurd (no_victims n among))).1 j array
                    (holds-survives s j ∙ there),
          )
        ]

  after_seal_inv :
      (o : Outcome) (f : Store → Copying) (s' : Store)
      → after_seal o f ≡ (s', ok tt)
      → (t : Store) × (o ≡ (t, ok tt)) × (f t ≡ (s', ok tt))
  unfolding after_seal
  after_seal_inv (s, ok u) f s' h = (s, refl, h)
  after_seal_inv (s, err e) f s' h = cc h

  taken-IsWellFiled :
      (s : Store) → IsWellFiled x z content s → IsWellFiled x z content (take_grey s).0
  unfolding take_grey
  taken-IsWellFiled s w = record {
    segments = w.segments;
    apart = w.apart;
    fresh = w.fresh;
    filing = w.filing;
    bounded = w.bounded;
  }

  module _ (hash_of : Bytes → Bytes) (live : Key → Bool) (opts : CompactOpts) (seal_io : Io)
      (io : ℕ → IndexEntry → Io) (last : EndIo) where
    compact_inv :
        (s s' : Store)
        → compact hash_of x z live opts seal_io io last s ≡ (s', ok tt)
        → after_seal (seal_option x seal_io (take_grey s).0 (take_grey s).0.active) (λ t.
          sweep_victims hash_of x z
            (or_grey s.grey live)
            io
            last
            t
            (select_victims (or_grey s.grey live) opts t.sealed))
          ≡ (s', ok tt)
    unfolding compact seal_active take_grey
    compact_inv s s' h = elim (Bool-cases s.is_closed) [
      | inl closed ↦ cc (rw closed at h)
      | inr opened ↦ elim (Bool-cases s.has_failed) [
        | inl failed ↦ cc (rw (opened, failed) at h)
        | inr working ↦ rw (opened, working) at h
      ]
    ]

    compact-Keeps :
        (s s' : Store)
        → IsWellFiled x z content s
        → compact hash_of x z live opts seal_io io last s ≡ (s', ok tt)
        → Keeps x z content (or_grey s.grey live) s s'
    unfolding take_grey
    compact-Keeps s s' w done =
        let s0 : Store = (take_grey s).0 in
        let (t, sealing, sweeping) =
          after_seal_inv (seal_option x seal_io s0 s0.active)
            (λ t.
              sweep_victims hash_of x z (or_grey s.grey live) io last t
                (select_victims (or_grey s.grey live) opts t.sealed))
            s' (compact_inv s s' done) in
        let (w', seals) =
          seal_option-Keeps seal_io s0 t s0.active refl (taken-IsWellFiled s w) sealing in
        let (w'', keeps) =
          selected_sweep x z content hash_of (or_grey s.grey live) opts io last t s' w' sweeping in
        (w'', λ j array is_live there. keeps j array is_live (seals j array there))

    -- A compaction that succeeds leaves every segment a part of the same map from keys to payloads, and the ids of the
    -- segments apart, where they were so before.
    pub compact-IsWellFiled :
        (s s' : Store)
        → IsWellFiled x z content s
        → compact hash_of x z live opts seal_io io last s ≡ (s', ok tt)
        → IsWellFiled x z content s'
    compact-IsWellFiled s s' w done = (compact-Keeps s s' w done).0

    -- Where every segment is a part of one map and the ids are apart, a key of the store that is live, or
    -- that a capture saw since its start, reads after a compaction that succeeds exactly as before it,
    -- whichever segments were rewritten and removed.
    pub compact-reads :
        (s s' : Store) (j : Key)
        → IsWellFiled x z content s
        → compact hash_of x z live opts seal_io io last s ≡ (s', ok tt)
        → IsArray32 j
        → IsKept s live j
        → holds x s j ≡ true
        → read_object x z s' j ≡ read_object x z s j
    compact-reads s s' j w done array kept there =
        let (w', keeps) = compact-Keeps s s' w done in
        let is_live : or_grey s.grey live j ≡ true = kept-or_grey s live j kept in
        read_object-held x z content s' j w' array
        ∙ ap (λ b. held b (content j)) (keeps j array is_live there ∙ sym there)
        ∙ sym (read_object-held x z content s j w array)
