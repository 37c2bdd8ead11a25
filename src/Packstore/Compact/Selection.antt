-- ===== src/Packstore/Compact/Selection.antt =====
-- The selection and the removal of victims of packstore/compact.go, on lists of segments.
use amber_store.Prelude.{
  ℕ, ◌^◌, ◌≡◌, refl, ◌∙◌, ap, subst, arith, Bool, true, false, ◌&&◌, ◌||◌, ◌⊎◌, inl, inr, List, [],
  ◌∷◌, Bytes, All, ok, err, wrap, Option, none, some, >>=-eq-ok, ok-injective, Bool-cases,
}
use amber_store.Key.{Key}
use amber_store.Key.Fields.{IsArray32}
use amber_store.Amberpack.Record.{Zstd}
use amber_store.Packstore.Filter.{FuseLibrary}
use amber_store.Packstore.Footer.{SealedSegment, has, get}
use amber_store.Packstore.Filed.{IsFiled, held}
use amber_store.Packstore.Store.{
  Store, ActiveSegment, in_active, read_active, any_sealed, read_sealed, or_else, bad_segment,
  read_object,
}
use amber_store.Packstore.Store.Refinement.{holds}
use amber_store.Packstore.Compact.{
  CompactOpts, stat_failed, is_among, keep_if, is_victim, select_victims, any_survivor, survivors,
}
use amber_store.Packstore.Compact.Wellfiled.{AreApart, IsPart, IsWellFiled, IsFilingOption}

-- What a selection keeps of a list.
pub record IsSelected (x : FuseLibrary) (P : SealedSegment → Type 0)
    (victims gs : List SealedSegment) : Type 0 where
  pub each : All P victims
  pub part : IsPart victims gs
  pub covered :
      (j : Key)
      → any_sealed x gs j ≡ true
      → (any_survivor x victims gs j ≡ true) ⊎ (any_sealed x victims j ≡ true)

any_survivor-cons :
    (x : FuseLibrary) (victims gs : List SealedSegment) (g : SealedSegment) (j : Key)
    → is_among gs g.id ≡ false
    → any_survivor x (g ∷ victims) gs j ≡ any_survivor x victims gs j
unfolding any_survivor is_among
any_survivor-cons x victims [] g j h = refl
any_survivor-cons x victims (k ∷ gs) g j h = ground (arith, h, any_survivor-cons x victims gs g j)

pub any_survivor-nil :
    (x : FuseLibrary) (gs : List SealedSegment) (j : Key)
    → any_survivor x [] gs j ≡ any_sealed x gs j
unfolding any_survivor any_sealed is_among
any_survivor-nil x [] j = refl
any_survivor-nil x (g ∷ gs) j = ground (arith, any_survivor-nil x gs j)

pub not_in_part :
    (vs gs : List SealedSegment) (n : ℕ)
    → IsPart vs gs
    → is_among gs n ≡ false
    → is_among vs n ≡ false
not_in_part vs gs n part h = ground (arith, part n, h)

keep_if-IsSelected :
    (x : FuseLibrary) (P : SealedSegment → Type 0) (b : Bool) (g : SealedSegment)
    (vs gs : List SealedSegment)
    → P g
    → is_among gs g.id ≡ false
    → IsSelected x P vs gs
    → IsSelected x P (keep_if b g vs) (g ∷ gs)
unfolding keep_if is_among any_survivor any_sealed
keep_if-IsSelected x P true g vs gs p own s = record {
  each = (p, s.each);
  part = λ n among. ground (arith, s.part n, among);
  covered = λ j there. ground (arith, s.covered j, there, any_survivor-cons x vs gs g j own);
}
keep_if-IsSelected x P false g vs gs p own s = record {
  each = s.each;
  part = λ n among. ground (arith, s.part n, among);
  covered = λ j there. ground (arith, s.covered j, there, not_in_part vs gs g.id s.part own);
}

pub select_victims-IsSelected :
    (x : FuseLibrary) (P : SealedSegment → Type 0) (live : Key → Bool) (opts : CompactOpts)
    (gs victims : List SealedSegment)
    → All P gs
    → AreApart gs
    → select_victims live opts gs ≡ ok victims
    → IsSelected x P victims gs
unfolding select_victims any_sealed is_among AreApart
select_victims-IsSelected x P live opts [] victims h apart e =
    subst (λ vs. IsSelected x P vs []) (ok-injective e)
      (record { each = tt; part = λ n among. among; covered = λ j there. inr there })
select_victims-IsSelected x P live opts (g ∷ gs) victims h apart e =
    let (is_old, _, e1) =
      >>=-eq-ok (elim (opts.sealed_before g.id) [ some b ↦ ok b | none ↦ err stat_failed ]) _ e in
    let (vs, selected, e2) = >>=-eq-ok (select_victims live opts gs) _ e1 in
    subst (λ ws. IsSelected x P ws (g ∷ gs)) (ok-injective e2)
      (keep_if-IsSelected x P (is_old && is_victim live opts g) g vs gs h.0 apart.0
        (select_victims-IsSelected x P live opts gs vs h.1 apart.1 selected))

pub survivors-IsPart : (victims gs : List SealedSegment) → IsPart (survivors victims gs) gs
unfolding survivors keep_if is_among
survivors-IsPart victims [] n among = among
survivors-IsPart victims (g ∷ gs) n among = ground (arith, survivors-IsPart victims gs n, among)

pub survivors-All :
    (P : SealedSegment → Type 0) (victims gs : List SealedSegment)
    → All P gs
    → All P (survivors victims gs)
unfolding survivors keep_if
survivors-All P victims [] h = tt
survivors-All P victims (g ∷ gs) h = elim (Bool-cases (is_among victims g.id)) [
  | inl gone ↦ rw gone (survivors-All P victims gs h.1)
  | inr stays ↦ rw stays (h.0, survivors-All P victims gs h.1)
]

pub survivors-AreApart :
    (victims gs : List SealedSegment) → AreApart gs → AreApart (survivors victims gs)
unfolding survivors keep_if AreApart
survivors-AreApart victims [] h = tt
survivors-AreApart victims (g ∷ gs) h = elim (Bool-cases (is_among victims g.id)) [
  | inl gone ↦ rw gone (survivors-AreApart victims gs h.1)
  | inr stays ↦ rw stays (
    not_in_part (survivors victims gs) gs g.id (survivors-IsPart victims gs) h.0,
    survivors-AreApart victims gs h.1,
  )
]

pub any_sealed-survivors :
    (x : FuseLibrary) (victims gs : List SealedSegment) (j : Key)
    → any_sealed x (survivors victims gs) j ≡ any_survivor x victims gs j
unfolding survivors keep_if any_sealed any_survivor
any_sealed-survivors x victims [] j = refl
any_sealed-survivors x victims (g ∷ gs) j = ground (arith, any_sealed-survivors x victims gs j)

module _ (x : FuseLibrary) (z : Zstd) (content : Key → Bytes) where
  or_else-held : (a b : Bool) (d : Bytes) → or_else x z (held a d) (held b d) ≡ held (a || b) d
  unfolding or_else
  or_else-held true b d = refl
  or_else-held false b d = refl

  wrap-held : (b : Bool) (d : Bytes) → wrap bad_segment (held b d) ≡ held b d
  wrap-held true d = refl
  wrap-held false d = refl

  read_sealed-held :
      (gs : List SealedSegment) (j : Key)
      → All (IsFiled x z content) gs
      → IsArray32 j
      → read_sealed x z gs j ≡ held (any_sealed x gs j) (content j)
  unfolding read_sealed any_sealed
  read_sealed-held [] j h array = refl
  read_sealed-held (g ∷ gs) j h array =
      ap (λ r. or_else x z r (wrap bad_segment (get x g z j))) (read_sealed-held gs j h.1 array)
      ∙ ap (λ r. or_else x z (held (any_sealed x gs j) (content j)) (wrap bad_segment r))
          (h.0.reads j array)
      ∙ ap (or_else x z (held (any_sealed x gs j) (content j))) (wrap-held (has x g j) (content j))
      ∙ or_else-held (any_sealed x gs j) (has x g j) (content j)

  read_active-held :
      (most n : ℕ) (gs : List SealedSegment) (o : Option ActiveSegment) (j : Key)
      → IsFilingOption x z content most n gs o
      → IsArray32 j
      → read_active x z o j ≡ held (in_active x o j) (content j)
  unfolding read_active in_active
  read_active-held most n gs none j f array = refl
  read_active-held most n gs (some a) j f array = f.reads j array

  -- A store of filed segments reads a key that it has as the map's payload.
  pub read_object-held :
      (s : Store) (j : Key)
      → IsWellFiled x z content s
      → IsArray32 j
      → read_object x z s j ≡ held (holds x s j) (content j)
  unfolding read_object
  read_object-held s j w array =
      ap (λ r. or_else x z r (read_sealed x z s.sealed j))
        (read_active-held (2 ^ 36) s.next_id s.sealed s.active j w.filing array)
      ∙ ap (or_else x z (held (in_active x s.active j) (content j)))
          (read_sealed-held s.sealed j w.segments array)
      ∙ or_else-held (in_active x s.active j) (any_sealed x s.sealed j) (content j)
