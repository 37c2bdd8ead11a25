-- ===== src/Packstore/Marks/Places.antt =====
-- A place that `locate` of packstore/markset.go returns is a row of the key.
use amber_store.Prelude.{
  ℕ, zero, suc, ◌+◌, ◌<◌, ◌≡◌, refl, ◌∙◌, ap, arith, ◌⊎◌, inl, inr, Option, none, some, List, [],
  ◌∷◌, All,
}
use amber_store.Key.{Key}
use amber_store.Key.Fields.{IsArray32}
use amber_store.Packstore.Filter.{FuseLibrary}
use amber_store.Packstore.Index.{row_key}
use amber_store.Packstore.Footer.{SealedSegment, lookup_pos}
use amber_store.Packstore.Marks.{Place, in_row, row_in, row_or, locate_row}
use amber_store.Packstore.Marks.Bits.{count_at}

-- A row that the index leads to is a row of the key.
abbrev pub IsPlaced : SealedSegment → Type 0
IsPlaced g =
    (j : Key) (i : ℕ)
    → IsArray32 j
    → lookup_pos g.fv j ≡ some i
    → (i < g.fv.key_count) × (row_key g.fv.entries i ≡ j)

unfoldable pub key_at : List SealedSegment → ℕ → ℕ → Key
key_at [] i p = []
key_at (g ∷ gs) zero p = row_key g.fv.entries p
key_at (g ∷ gs) (suc i) p = key_at gs i p

module _ (x : FuseLibrary) where
  pub row_in-lookup_pos :
      (g : SealedSegment) (k : Key) (p : ℕ) → row_in x g k ≡ some p → lookup_pos g.fv k ≡ some p
  unfolding row_in
  row_in-lookup_pos g k p h = ground (arith, h)

  pub row_or_inv :
      (seg : ℕ) (here : Option ℕ) (later : Option Place) (q : Place)
      → row_or x seg here later ≡ some q
      → (later ≡ some q) ⊎ ((p : ℕ) × (here ≡ some p) × (q ≡ in_row seg p))
  unfolding row_or
  row_or_inv seg here (some p) q h = inl h
  row_or_inv seg none none q h = absurd (none_some h)
    where
      none_some : none ≡ some q → ⊥
      none_some e = cc e
  row_or_inv seg (some p) none q h = inr (p, refl, ground (arith, h))

  -- A place that is found is a row of the key.
  pub locate_row-key_at :
      (gs : List SealedSegment) (n : ℕ) (k : Key) (q : Place)
      → All IsPlaced gs
      → IsArray32 k
      → locate_row x gs n k ≡ some q
      → (i : ℕ) × (p : ℕ) × (q ≡ in_row (n + i) p) × (p < count_at gs i) × (key_at gs i p ≡ k)
  unfolding locate_row count_at key_at
  locate_row-key_at [] n k q placed array h = absurd (none_some h)
    where
      none_some : none ≡ some q → ⊥
      none_some e = cc e
  locate_row-key_at (g ∷ gs) n k q placed array h =
      elim (row_or_inv n (row_in x g k) (locate_row x gs (n + 1) k) q h) [
        | inl later ↦
            let (i, p, at, lt, same) = locate_row-key_at gs (n + 1) k q placed.1 array later in
            let number : n + 1 + i ≡ n + suc i = omega arith in
            (suc i, p, at ∙ ap (λ (s : ℕ). in_row s p) number, lt, same)
        | inr (p, here, at) ↦
            let (lt, same) = placed.0 k p array (row_in-lookup_pos g k p here) in
            let number : n ≡ n + 0 = omega arith in
            (0, p, at ∙ ap (λ (s : ℕ). in_row s p) number, lt, same)
      ]
