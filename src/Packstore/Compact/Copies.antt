-- ===== src/Packstore/Compact/Copies.antt =====
-- What copying a victim of packstore/compact.go keeps: each of its live records gets into a survivor.
use amber_store.Prelude.{
  ℕ, zero, suc, ◌+◌, ◌≤◌, ◌<◌, ◌≡◌, refl, sym, subst, arith, Bool, true, false, ◌⊎◌, inl, inr, List,
  [], ◌∷◌, ◌==◌, slice, Bytes, All, Result, ok, err, Bool-cases,
}
use amber_store.Key.{Key}
use amber_store.Key.Fields.{IsArray32}
use amber_store.Amberpack.Record.{Zstd}
use amber_store.Packstore.Filter.{FuseLibrary}
use amber_store.Packstore.Index.{IndexEntry, row_key, row_value}
use amber_store.Packstore.Footer.{SealedSegment}
use amber_store.Packstore.Filed.{IsFiled, row_off, row_slen}
use amber_store.Packstore.Store.{Store, Io, Outcome, in_active, append_locked, any_sealed}
use amber_store.Packstore.Compact.{
  CompactError, Copying, copied, and_next, check_record, survivor_has, append_checked, copy_entry,
  copy_entries, copy_segments,
}
use amber_store.Packstore.Liveness.{entry_at, entries_from, all_entries}
use amber_store.Packstore.Compact.Records.{row-IsRecordOf}
use amber_store.Packstore.Compact.Wellfiled.{
  IsPart, IsWellFiled, Survives, Grows, Grows-refl, Grows-trans,
}
use amber_store.Packstore.Compact.Appends.{append_locked-Files}

pub and_next_inv :
    (o : Copying) (f : Store → Copying) (s' : Store)
    → and_next o f ≡ (s', ok tt)
    → (t : Store) × (o ≡ (t, ok tt)) × (f t ≡ (s', ok tt))
unfolding and_next
and_next_inv (s, ok u) f s' h = (s, refl, h)
and_next_inv (s, err e) f s' h = cc h

copied_inv : (o : Outcome) (t : Store) → copied o ≡ (t, ok tt) → o ≡ (t, ok tt)
unfolding copied
copied_inv (s, ok u) t h = ground (arith, h)
copied_inv (s, err e) t h = cc h

append_checked_inv :
    (x : FuseLibrary) (io : Io) (s s' : Store) (k : Key) (rec : Bytes)
    (r : Result CompactError (Unit {0}))
    → append_checked x io s k rec r ≡ (s', ok tt)
    → (r ≡ ok tt) × (append_locked x io s k rec false ≡ (s', ok tt))
unfolding append_checked
append_checked_inv x io s s' k rec (err e) h = cc h
append_checked_inv x io s s' k rec (ok u) h =
    (refl, copied_inv (append_locked x io s k rec false) s' h)

not_active :
    (x : FuseLibrary) (victims : List SealedSegment) (s : Store) (k : Key)
    → survivor_has x victims s k ≡ false
    → in_active x s.active k ≡ false
unfolding survivor_has
not_active x victims s k h = ground (arith, h)

-- An entry is passed over, or it lies within the body, passes the check and is appended.
copy_entry_inv :
    (hash_of : Bytes → Bytes) (x : FuseLibrary) (z : Zstd) (live : Key → Bool)
    (victims : List SealedSegment) (io : Io) (g : SealedSegment) (i : ℕ) (s s' : Store)
    → copy_entry hash_of x z live victims io g (entry_at g.fv i) s ≡ (s', ok tt)
    → let k = row_key g.fv.entries i in
      let off = (row_value g.fv.entries i).0 in
      let slen = (row_value g.fv.entries i).1 in
      let rec = slice g.mm off (off + (46 + slen)) in
      ((s' ≡ s) × ((live k ≡ true) → survivor_has x victims s k ≡ true))
      ⊎ ((survivor_has x victims s k ≡ false)
          × (8 ≤ off)
          × (off + (46 + slen) ≤ g.fv.body_len)
          × (append_checked x io s k rec (check_record hash_of z k rec) ≡ (s', ok tt)))
unfolding copy_entry entry_at
copy_entry_inv hash_of x z live victims io g i s s' h = ground (arith, h)

module _ (hash_of : Bytes → Bytes) (x : FuseLibrary) (z : Zstd) (content : Key → Bytes)
    (live : Key → Bool) (victims : List SealedSegment) where
  -- The copying so far went well: the victims are still there and nothing that survived is lost.
  pub record Copies (s s' : Store) : Type 0 where
    pub filed : IsWellFiled x z content s'
    pub grows : Grows x z content s s'
    pub part : IsPart victims s'.sealed

  pub Copies-refl : (s : Store) → IsWellFiled x z content s → IsPart victims s.sealed → Copies s s
  Copies-refl s w part = record { filed = w; grows = Grows-refl x z content s; part = part }

  pub Copies-trans : (s t u : Store) → Copies s t → Copies t u → Copies s u
  Copies-trans s t u a b = record {
    filed = b.filed;
    grows = Grows-trans x z content s t u a.grows b.grows;
    part = b.part;
  }

  pub still-Survives :
      (s s' : Store)
      → IsPart victims s.sealed
      → Copies s s'
      → (j : Key) → IsArray32 j
      → Survives x z content victims s j
      → Survives x z content victims s' j
  still-Survives s s' part c j array kept = (c.grows victims part).1 j array kept

  copy_entry-Copies :
      (io : Io) (g : SealedSegment) (i : ℕ) (s s' : Store)
      → IsFiled x z content g
      → i < g.fv.key_count
      → IsWellFiled x z content s
      → IsPart victims s.sealed
      → copy_entry hash_of x z live victims io g (entry_at g.fv i) s ≡ (s', ok tt)
      → Copies s s'
        × (live (row_key g.fv.entries i) ≡ true
            → Survives x z content victims s' (row_key g.fv.entries i))
  copy_entry-Copies io g i s s' f lt w part done =
      elim (copy_entry_inv hash_of x z live victims io g i s s' done) [
        | inl (same, survives) ↦
            subst
              (λ t.
                Copies s t
                × (live (row_key g.fv.entries i) ≡ true
                    → Survives x z content victims t (row_key g.fv.entries i)))
              (sym same) (Copies-refl s w part, survives)
        | inr (new, from, upto, appended) ↦
            let k : Key = row_key g.fv.entries i in
            let off : ℕ = row_off x z content g i in
            let slen : ℕ = row_slen x z content g i in
            let rec : Bytes = slice g.mm off (off + (46 + slen)) in
            let (checked, done') =
              append_checked_inv x io s s' k rec (check_record hash_of z k rec) appended in
            let (w', grows, survives) =
              append_locked-Files x z content io s s' k rec false w (f.arrays i lt)
                (not_active x victims s k new)
                (row-IsRecordOf x z content hash_of g i f lt from upto checked) done' in
            (
              record { filed = w'; grows = grows; part = (grows victims part).0 },
              λ _. survives victims part,
            )
      ]

  module _ (io : ℕ → IndexEntry → Io) where
    copy_rows-Copies :
        (g : SealedSegment) (n i : ℕ) (s s' : Store)
        → IsFiled x z content g
        → i + n ≤ g.fv.key_count
        → IsWellFiled x z content s
        → IsPart victims s.sealed
        → copy_entries hash_of x z live victims io g (entries_from g.fv n i) s ≡ (s', ok tt)
        → Copies s s'
          × ((m : ℕ)
              → i ≤ m
              → m < i + n
              → live (row_key g.fv.entries m) ≡ true
              → Survives x z content victims s' (row_key g.fv.entries m))
    unfolding copy_entries entries_from
    copy_rows-Copies g zero i s s' f within w part done =
        (subst (Copies s) (same done) (Copies-refl s w part), λ m a b. absurd (omega arith))
      where
        same : ◌≡◌ {A = Copying} (s, ok tt) (s', ok tt) → s ≡ s'
        same e = ground (arith, e)
    copy_rows-Copies g (suc n) i s s' f within w part done =
        let (t, copied_one, others) =
          and_next_inv
            (copy_entry hash_of x z live victims (io g.id (entry_at g.fv i)) g (entry_at g.fv i) s)
            (copy_entries hash_of x z live victims io g (entries_from g.fv n (i + 1))) s' done in
        let (c, here) =
          copy_entry-Copies (io g.id (entry_at g.fv i)) g i s t f (omega arith) w part copied_one in
        let (c', rest) = copy_rows-Copies g n (i + 1) t s' f (omega arith) c.filed c.part others in
        (
          Copies-trans s t s' c c',
          λ m a b is_live. elim (Bool-cases (i == m)) [
            | inl first ↦
                let at : i ≡ m = ground (arith, first) in
                subst
                  (λ (k : ℕ).
                    live (row_key g.fv.entries k) ≡ true
                    → Survives x z content victims s' (row_key g.fv.entries k))
                  at
                  (λ l.
                    still-Survives t s' c.part c' (row_key g.fv.entries i)
                      (f.arrays i (omega arith)) (here l))
                  is_live
            | inr later ↦ rest m (ground (arith, later, a)) (omega arith) is_live
          ],
        )

    -- Every live key of a copied victim survives.
    pub copy_segments-Copies :
        (gs : List SealedSegment) (s s' : Store)
        → All (IsFiled x z content) gs
        → IsWellFiled x z content s
        → IsPart victims s.sealed
        → copy_segments hash_of x z live victims io gs s ≡ (s', ok tt)
        → Copies s s'
          × ((j : Key)
              → IsArray32 j
              → live j ≡ true
              → any_sealed x gs j ≡ true
              → Survives x z content victims s' j)
    unfolding copy_segments all_entries any_sealed
    copy_segments-Copies [] s s' filed w part done = (
      subst (Copies s) (same done) (Copies-refl s w part),
      λ j array is_live there. absurd (false_true there),
    )
      where
        same : ◌≡◌ {A = Copying} (s, ok tt) (s', ok tt) → s ≡ s'
        same e = ground (arith, e)

        false_true : false ≡ true → ⊥
        false_true e = cc e
    copy_segments-Copies (g ∷ gs) s s' filed w part done =
        let (t, first, others) =
          and_next_inv (copy_entries hash_of x z live victims io g (all_entries g.fv) s)
            (copy_segments hash_of x z live victims io gs) s' done in
        let (c, here) =
          copy_rows-Copies g g.fv.key_count 0 s t filed.0 (omega arith) w part first in
        let (c', rest) = copy_segments-Copies gs t s' filed.1 c.filed c.part others in
        (
          Copies-trans s t s' c c',
          λ j array is_live there. elim (Bool-cases (any_sealed x gs j)) [
            | inl later ↦ rest j array is_live later
            | inr not_later ↦
                let (i, lt, at) = filed.0.found j array (ground (arith, there, not_later)) in
                still-Survives t s' c.part c' j array (
                  subst (λ (k : Key). live k ≡ true → Survives x z content victims t k) at
                    (here i (omega arith) (omega (arith, lt))) is_live)
          ],
        )
