-- ===== src/Packstore/Store/Reads.antt =====
-- `Put` and `Get` as a map: what the store reads after a write that succeeded, whichever segment the
-- objects moved to.
use amber_store.Prelude.{
  ◌^◌, ◌<◌, ◌≡◌, refl, sym, ◌∙◌, ap, subst, arith, ◌⊎◌, inl, inr, Option, none, some, List, [], ◌∷◌,
  ◌++◌, ◌==◌, length, take, Bytes, Result, ok, err, wrap, Bool-cases, ok-injective,
}
use amber_store.Key.{Key}
use amber_store.Key.Fields.{IsArray32}
use amber_store.Amberpack.Record.{Zstd}
use amber_store.Packstore.Filter.{FuseLibrary}
use amber_store.Packstore.Footer.{FooterError, SealedSegment, open_sealed, build_footer, get}
use amber_store.Packstore.Footer.RoundTrip.{length-build_footer}
use amber_store.Packstore.Store.{
  ActiveSegment, Store, StoreError, Io, entries_of, swap_sealed, publish_sealed, write_footer,
  seal_segment, read_active, read_sealed, read_object, or_else, bad_segment,
}
use amber_store.Packstore.Store.Sealing.{IsActive, rows_of, open_sealed-reads, length-entries_of}

module _ (x : FuseLibrary) (z : Zstd) where
  or_else_assoc :
      (a b c : Result StoreError (Option Bytes))
      → or_else x z (or_else x z a b) c ≡ or_else x z a (or_else x z b c)
  unfolding or_else
  or_else_assoc (ok (some d)) b c = refl
  or_else_assoc (ok none) b c = refl
  or_else_assoc (err e) b c = refl

  or_else-none : (a : Result StoreError (Option Bytes)) → or_else x z a (ok none) ≡ a
  unfolding or_else
  or_else-none (ok (some d)) = refl
  or_else-none (ok none) = refl
  or_else-none (err e) = refl

  read_sealed-append :
      (gs : List SealedSegment) (g : SealedSegment) (k : Key)
      → read_sealed x z (gs ++ (g ∷ [])) k
        ≡ or_else x z (wrap bad_segment (get x g z k)) (read_sealed x z gs k)
  unfolding read_sealed or_else
  read_sealed-append [] g k = sym (or_else-none (wrap bad_segment (get x g z k)))
  read_sealed-append (h ∷ gs) g k =
      ap (λ r. or_else x z r (wrap bad_segment (get x h z k))) (read_sealed-append gs g k)
      ∙ or_else_assoc (wrap bad_segment (get x g z k)) (read_sealed x z gs k)
          (wrap bad_segment (get x h z k))

swap_inv :
    (x : FuseLibrary) (io : Io) (s s1 s' : Store) (r : Result FooterError SealedSegment)
    → swap_sealed x io s s1 r ≡ (s', ok tt)
    → (g : SealedSegment) × (r ≡ ok g)
      × (s' ≡ record s { sealed = s.sealed ++ (g ∷ []); active = none })
unfolding swap_sealed
swap_inv x io s s1 s' (err e) h = cc h
swap_inv x io s s1 s' (ok g) h = (g, refl, ground (arith, h))

write_footer_inv :
    (x : FuseLibrary) (io : Io) (s s' : Store) (a : ActiveSegment) (r : Result FooterError Bytes)
    → write_footer x io s a r ≡ (s', ok tt)
    → (footer : Bytes) × (r ≡ ok footer)
      × (swap_sealed x io s
            (record s { active = some (record a { content = take a.size a.content ++ footer }) })
            (open_sealed a.id (take a.size a.content ++ footer))
          ≡ (s', ok tt))
unfolding write_footer publish_sealed
write_footer_inv x io s s' a (err e) h = cc h
write_footer_inv x io s s' a (ok footer) h = (footer, refl, ground (arith, h))

-- Sealing either had nothing to seal or moved the active segment behind the sealed ones.
pub seal_segment_inv :
    (x : FuseLibrary) (io : Io) (s s' : Store) (a : ActiveSegment)
    → seal_segment x io s a ≡ (s', ok tt)
    → ((s' ≡ s) × (length a.index ≡ 0))
      ⊎ ((footer : Bytes) × (g : SealedSegment) × (build_footer x a.size (entries_of a.index)
            ≡ ok footer)
          × (open_sealed a.id (take a.size a.content ++ footer) ≡ ok g)
          × (s' ≡ record s { sealed = s.sealed ++ (g ∷ []); active = none }))
unfolding seal_segment
seal_segment_inv x io s s' a h = elim (Bool-cases (length a.index == 0)) [
  | inl empty ↦ inl (ground (arith, h, empty), ground (arith, empty))
  | inr some_keys ↦
      let written : write_footer x io s a (build_footer x a.size (entries_of a.index))
          ≡ (s', ok tt) =
        rw some_keys at h in
      let (footer, built, swapped) = write_footer_inv x io s s' a _ written in
      let (g, opened, after) = swap_inv x io s _ s' _ swapped in
      inr (footer, g, built, opened, after)
]

-- What the write path keeps true, where there is an active segment.
abbrev pub IsWritable : Zstd → Option ActiveSegment → Type 0
IsWritable z none = Unit {0}
IsWritable z (some a) = IsActive z a

pub read_object-active :
    (x : FuseLibrary) (z : Zstd) (s : Store) (a : ActiveSegment) (k : Key)
    → s.active ≡ some a
    → read_object x z s k ≡ or_else x z (read_active x z (some a) k) (read_sealed x z s.sealed k)
unfolding read_object
read_object-active x z s a k h = rw h

pub read_object-sealed :
    (x : FuseLibrary) (z : Zstd) (s : Store) (k : Key)
    → s.active ≡ none
    → read_object x z s k ≡ read_sealed x z s.sealed k
unfolding read_object read_active or_else
read_object-sealed x z s k h = rw h

-- Sealing keeps what the store reads.
pub seal_segment-reads :
    (x : FuseLibrary) (z : Zstd) (io : Io) (s s' : Store) (a : ActiveSegment)
    → s.active ≡ some a
    → IsActive z a
    → a.size < 2 ^ 63
    → length a.index < 2 ^ 32
    → seal_segment x io s a ≡ (s', ok tt)
    → IsWritable z s'.active
      × ((k : Key) → IsArray32 k → read_object x z s' k ≡ read_object x z s k)
seal_segment-reads x z io s s' a here h small few done = elim (seal_segment_inv x io s s' a done) [
  | inl (same, _) ↦ (
    subst (IsWritable z) (sym (ap (λ t. t.active) same ∙ here)) h,
    λ k array. ap (λ t. read_object x z t k) same,
  )
  | inr (footer, g, built, opened, after) ↦
      let short =
        length-build_footer x a.size (entries_of a.index) footer
          (rows_of z a.content a.size a.index small h.records) built in
      let (g', opened', reads) =
        open_sealed-reads x z a footer h small few (omega (arith, short, length-entries_of a.index))
          built in
      let same : g ≡ g' = ok-injective (sym opened ∙ opened') in
      (
        subst (IsWritable z) (sym (ap (λ t. t.active) after)) tt,
        λ k array.
            read_object-sealed x z s' k (ap (λ t. t.active) after)
            ∙ ap (λ t. read_sealed x z t k) (ap (λ t. t.sealed) after)
            ∙ read_sealed-append x z s.sealed g k
            ∙ ap (λ r. or_else x z r (read_sealed x z s.sealed k))
                (ap (λ t. wrap bad_segment (get x t z k)) same ∙ reads k array)
            ∙ sym (read_object-active x z s a k here),
      )
]
