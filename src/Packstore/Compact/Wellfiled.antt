-- ===== src/Packstore/Compact/Wellfiled.antt =====
-- What the compaction of packstore/compact.go keeps true of the store: every segment is a part of one
-- map from keys to payloads, and the ids of the segments are apart.
use amber_store.Prelude.{
  ℕ, ◌+◌, ◌*◌, ◌^◌, ◌≤◌, ◌<◌, ◌≡◌, refl, sym, ◌∙◌, ap, subst, arith, true, false, ◌||◌, ◌⊎◌, inl,
  inr, Option, none, some, List, [], ◌∷◌, ◌++◌, ◌==◌, length, Bytes, All, ok, Bool-cases,
}
use amber_store.Key.{Key}
use amber_store.Key.Fields.{IsArray32}
use amber_store.Amberpack.Record.{Zstd}
use amber_store.Packstore.Filter.{FuseLibrary}
use amber_store.Packstore.Footer.{SealedSegment, has}
use amber_store.Packstore.Footer.RoundTrip.{length-build_footer}
use amber_store.Packstore.Filed.{IsFiled, ReadsActive, sealed-IsFiled, sealed-has, open_sealed_inv}
use amber_store.Packstore.Store.{ActiveSegment, Store, Io, entries_of, in_active, seal_segment}
use amber_store.Packstore.Store.Sealing.{IsActive, rows_of, length-entries_of}
use amber_store.Packstore.Store.Reads.{seal_segment_inv}
use amber_store.Packstore.Compact.{is_among, any_survivor, survivor_has}

unfoldable pub AreApart : List SealedSegment → Type 0
AreApart [] = Unit {0}
AreApart (g ∷ gs) = (is_among gs g.id ≡ false) × AreApart gs

-- The ids of some segments are ids of others.
abbrev pub IsPart : List SealedSegment → List SealedSegment → Type 0
IsPart gs hs = (n : ℕ) → is_among gs n ≡ true → is_among hs n ≡ true

pub is_among-append :
    (gs : List SealedSegment) (g : SealedSegment) (n : ℕ)
    → is_among (gs ++ (g ∷ [])) n ≡ (is_among gs n || g.id == n)
unfolding is_among
is_among-append [] g n = ground arith
is_among-append (h ∷ gs) g n = ground (arith, is_among-append gs g n)

append-AreApart :
    (gs : List SealedSegment) (g : SealedSegment)
    → AreApart gs
    → is_among gs g.id ≡ false
    → AreApart (gs ++ (g ∷ []))
unfolding AreApart is_among
append-AreApart [] g apart new = (refl, tt)
append-AreApart (h ∷ gs) g apart new = (
  ground (arith, is_among-append gs g h.id, apart.0, new),
  append-AreApart gs g apart.1 (ground (arith, new)),
)

append-All :
    (P : SealedSegment → Type 0) (gs : List SealedSegment) (g : SealedSegment)
    → All P gs
    → P g
    → All P (gs ++ (g ∷ []))
append-All P [] g h p = (p, tt)
append-All P (k ∷ gs) g h p = (h.0, append-All P gs g h.1 p)

any_survivor-append :
    (x : FuseLibrary) (victims gs : List SealedSegment) (g : SealedSegment) (j : Key)
    → is_among victims g.id ≡ false
    → any_survivor x victims (gs ++ (g ∷ [])) j ≡ (any_survivor x victims gs j || has x g j)
unfolding any_survivor
any_survivor-append x victims [] g j h = ground (arith, h)
any_survivor-append x victims (k ∷ gs) g j h =
    ground (arith, any_survivor-append x victims gs g j h)

module _ (x : FuseLibrary) (z : Zstd) (content : Key → Bytes) where
  -- An active segment of at most `most` bytes whose id no sealed segment has.
  pub record IsFiling (most next_id : ℕ) (sealed : List SealedSegment) (a : ActiveSegment)
      : Type 0 where
    pub active : IsActive z a
    pub reads : ReadsActive x z content a
    pub small : a.size ≤ most
    pub few : 46 * length a.index ≤ a.size
    pub own : is_among sealed a.id ≡ false
    pub numbered : a.id < next_id

  abbrev pub IsFilingOption : ℕ → ℕ → List SealedSegment → Option ActiveSegment → Type 0
  IsFilingOption most n gs none = Unit {0}
  IsFilingOption most n gs (some a) = IsFiling most n gs a

  pub record IsWellFiled (s : Store) : Type 0 where
    pub segments : All (IsFiled x z content) s.sealed
    pub apart : AreApart s.sealed
    pub fresh : (n : ℕ) → s.next_id ≤ n → is_among s.sealed n ≡ false
    pub filing : IsFilingOption (2 ^ 36) s.next_id s.sealed s.active
    pub bounded : s.segment_size ≤ 2 ^ 36

  abbrev pub Survives : List SealedSegment → Store → Key → Type 0
  Survives victims s j = survivor_has x victims s j ≡ true

  -- No survivor loses a key, and no victim becomes one.
  abbrev pub Grows : Store → Store → Type 0
  Grows s s' =
      (victims : List SealedSegment)
      → IsPart victims s.sealed
      → IsPart victims s'.sealed
        × ((j : Key) → IsArray32 j → Survives victims s j → Survives victims s' j)

  pub Grows-refl : (s : Store) → Grows s s
  Grows-refl s victims h = (h, λ j array k. k)

  pub Grows-trans : (s t u : Store) → Grows s t → Grows t u → Grows s u
  Grows-trans s t u a b victims h =
      let (part, kept) = a victims h in
      let (part', kept') = b victims part in (part', λ j array k. kept' j array (kept j array k))

  -- An id that no sealed segment has is no victim's.
  pub not_victim :
      (victims gs : List SealedSegment) (n : ℕ)
      → IsPart victims gs
      → is_among gs n ≡ false
      → is_among victims n ≡ false
  not_victim victims gs n part h = elim (Bool-cases (is_among victims n)) [
    | inl among ↦ absurd (true_false (sym (part n among) ∙ h))
    | inr other ↦ other
  ]
    where
      true_false : true ≡ false → ⊥
      true_false e = cc e

  Survives-sealed :
      (s : Store) (a : ActiveSegment) (g : SealedSegment) (victims : List SealedSegment) (j : Key)
      → s.active ≡ some a
      → is_among victims g.id ≡ false
      → has x g j ≡ in_active x (some a) j
      → Survives victims s j
      → Survives victims (record s { sealed = s.sealed ++ (g ∷ []); active = none }) j
  unfolding survivor_has in_active
  Survives-sealed s a g victims j here own same h =
      ground (arith, here, same, h, any_survivor-append x victims s.sealed g j own)

  -- Sealing files the active segment behind the sealed ones.
  pub seal_segment-IsWellFiled :
      (io : Io) (s s' : Store) (a : ActiveSegment)
      → s.active ≡ some a
      → All (IsFiled x z content) s.sealed
      → AreApart s.sealed
      → ((n : ℕ) → s.next_id ≤ n → is_among s.sealed n ≡ false)
      → IsFiling (2 ^ 37) s.next_id s.sealed a
      → s.segment_size ≤ 2 ^ 36
      → seal_segment x io s a ≡ (s', ok tt)
      → ((s' ≡ s) × (length a.index ≡ 0)) ⊎ (IsWellFiled s' × Grows s s')
  seal_segment-IsWellFiled io s s' a here filed apart fresh f bounded done =
      elim (seal_segment_inv x io s s' a done) [
        | inl same ↦ inl same
        | inr (footer, g, built, opened, after) ↦
            let short =
              length-build_footer x a.size (entries_of a.index) footer
                (rows_of z a.content a.size a.index (omega (arith, f.small)) f.active.records)
                built in
            let small : a.size < 2 ^ 63 = omega (arith, f.small) in
            let few : length a.index < 2 ^ 32 = omega (arith, f.small, f.few) in
            let fits : a.size + length footer < 2 ^ 64 =
              omega (arith, short, length-entries_of a.index, f.small, few) in
            let id : g.id ≡ a.id = (open_sealed_inv a.id _ g opened).0 in
            let own : is_among s.sealed g.id ≡ false = ap (is_among s.sealed) id ∙ f.own in
            let next : Store = record s { sealed = s.sealed ++ (g ∷ []); active = none } in
            inr (
              subst (λ t. IsWellFiled t × Grows s t) (sym after)
                (
                  record {
                    segments = append-All (IsFiled x z content) s.sealed g filed (
                        sealed-IsFiled x z content a footer g f.active small few fits built opened
                          f.reads);
                    apart = append-AreApart s.sealed g apart own;
                    fresh = λ n le.
                        ground
                          (arith, is_among-append s.sealed g n, fresh n le, id, f.numbered, le);
                    filing = tt;
                    bounded = bounded;
                  },
                  λ victims part. (
                    λ n among. ground (arith, is_among-append s.sealed g n, part n among),
                    λ j array.
                        Survives-sealed s a g victims j here
                          (not_victim victims s.sealed g.id part own)
                          (sealed-has x z content a footer g f.active small few fits built opened
                            f.reads j array),
                  ),
                ))
      ]
