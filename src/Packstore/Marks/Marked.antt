-- ===== src/Packstore/Marks/Marked.antt =====
-- `MarkSet` of packstore/markset.go is a set of the keys of its snapshot.
use amber_store.Prelude.{
  ℕ, ◌+◌, ◌<◌, ◌≡◌, refl, sym, ◌∙◌, ap, subst, arith, Bool, true, false, not, ◌&&◌, ◌||◌, ◌⊎◌, inl,
  inr, Option, none, some, List, ==_iff, if◌then◌else◌, bytes_eq, bytes_eq_iff, All, Option-cases,
}
use amber_store.Key.{Key}
use amber_store.Key.Fields.{IsArray32}
use amber_store.Packstore.Filter.{FuseLibrary}
use amber_store.Packstore.Marks.{
  MarkSet, Place, in_active_segment, in_row, flag_of, set_flag, get_mark, set_mark, locate_row,
  locate_after, locate_mark, mark_count, mark_at, mark, marked_at, is_marked,
}
use amber_store.Packstore.Marks.Bits.{
  Fits, count_at, get_mark-set_mark, set_mark-Fits, flag_of-set_flag,
}
use amber_store.Packstore.Marks.Places.{IsPlaced, key_at, locate_row-key_at}

module _ (x : FuseLibrary) where
  pub record IsMarkable (m : MarkSet) : Type 0 where
    pub placed : All IsPlaced m.segs
    pub fits : Fits m.segs m.bits

  unfoldable pub is_found : Option Place → Bool
  is_found none = false
  is_found (some q) = true

  -- The key is in the snapshot.
  unfoldable pub is_present : MarkSet → Key → Bool
  unfolding is_found
  is_present m k = is_found (locate_mark x m k)

  -- What `Mark` makes of a set.
  pub record Marks (m : MarkSet) (k : Key) (m' : MarkSet) (newly present : Bool) : Type 0 where
    pub markable : IsMarkable m'
    pub was_present : present ≡ is_present m k
    pub was_unmarked : newly ≡ (present && not (is_marked x m k))
    pub counted : m'.marked ≡ (if newly then m.marked + 1 else m.marked)
    pub still_present : (j : Key) → is_present m' j ≡ is_present m j
    pub marks :
        (j : Key) → IsArray32 j → is_marked x m' j ≡ (is_marked x m j || (present && bytes_eq k j))

  locate_after_inv :
      (m : MarkSet) (k : Key) (o : Option Bool)
      → flag_of m.active k ≡ o
      → ((b : Bool) × (o ≡ some b) × (locate_mark x m k ≡ some (in_active_segment b)))
        ⊎ ((o ≡ none) × (locate_mark x m k ≡ locate_row x m.segs 0 k))
  unfolding locate_mark locate_after
  locate_after_inv m k (some b) h = inl (b, refl, ground (arith, h))
  locate_after_inv m k none h = inr (refl, ground (arith, h))

  -- Nothing in the active segment is in the snapshot, so it changes nothing.
  absent-Marks :
      (m : MarkSet) (k : Key) → IsMarkable m → locate_mark x m k ≡ none → Marks m k m false false
  unfolding is_present is_found is_marked marked_at mark_count
  absent-Marks m k h missing = record {
    markable = h;
    was_present = ground (arith, missing);
    was_unmarked = refl;
    counted = refl;
    still_present = λ j. refl;
    marks = λ j array. ground arith;
  }

  active-Marks :
      (m : MarkSet) (k : Key) (b : Bool)
      → IsMarkable m
      → flag_of m.active k ≡ some b
      → locate_mark x m k ≡ some (in_active_segment b)
      → Marks m k
          (record m { active = set_flag m.active k; marked = mark_count x (not b) m.marked })
          (not b)
          true
  unfolding is_present is_found is_marked marked_at locate_mark locate_after mark_count
  active-Marks m k b h flag there =
      let m' : MarkSet = record m {
        active = set_flag m.active k;
        marked = mark_count x (not b) m.marked;
      } in
      let looked : (j : Key)
          → flag_of m'.active j ≡ (if bytes_eq k j then some true else flag_of m.active j) =
        λ j. flag_of-set_flag m.active k j b flag in
      record {
        markable = record { placed = h.placed; fits = h.fits };
        was_present = ground (arith, there);
        was_unmarked = ground (arith, there);
        counted = refl;
        still_present = λ j.
            ground (arith, looked j, flag, bytes_eq_iff k j, Option-cases (flag_of m.active j));
        marks = λ j array.
            ground (arith, looked j, flag, bytes_eq_iff k j, Option-cases (flag_of m.active j));
      }

  locate_after-bits :
      (m : MarkSet) (bits : List (List ℕ)) (n : ℕ) (j : Key) (o : Option Bool)
      → locate_after x o (record m { bits = bits; marked = n }) j ≡ locate_after x o m j
  unfolding locate_after
  locate_after-bits m bits n j none = refl
  locate_after-bits m bits n j (some b) = refl

  -- The place of a key does not depend on the bits.
  locate_mark-bits :
      (m : MarkSet) (bits : List (List ℕ)) (n : ℕ) (j : Key)
      → locate_mark x (record m { bits = bits; marked = n }) j ≡ locate_mark x m j
  unfolding locate_mark
  locate_mark-bits m bits n j = locate_after-bits m bits n j (flag_of m.active j)

  found_row-key_at :
      (m : MarkSet) (j : Key) (i p : ℕ)
      → IsMarkable m
      → IsArray32 j
      → locate_mark x m j ≡ some (in_row i p)
      → (p < count_at m.segs i) × (key_at m.segs i p ≡ j)
  found_row-key_at m j i p h array there = elim (locate_after_inv m j (flag_of m.active j) refl) [
    | inl (b, flag, at) ↦ absurd (other_place b (sym at ∙ there))
    | inr (flag, at) ↦
        let (i', p', place, lt, same) =
          locate_row-key_at x m.segs 0 j (in_row i p) h.placed array (sym at ∙ there) in
        let (row, pos) = same_row i p i' p' place in
        (
          subst (λ (r : ℕ). r < count_at m.segs i) (sym pos)
              (subst (λ (r : ℕ). p' < count_at m.segs r) (sym row) lt),
          ap (λ (r : ℕ). key_at m.segs r p) row ∙ ap (key_at m.segs i') pos ∙ same,
        )
  ]
    where
      other_place : (b : Bool) → some (in_active_segment b) ≡ some (in_row i p) → ⊥
      other_place b e = cc e

      same_row : (a c a' c' : ℕ) → in_row a c ≡ in_row (0 + a') c' → (a ≡ a') × (c ≡ c')
      same_row a c a' c' e = ground (arith, e)

  at_place :
      (m : MarkSet) (k : Key) (i p : ℕ)
      → IsMarkable m
      → locate_mark x m k ≡ some (in_row i p)
      → p < count_at m.segs i
      → key_at m.segs i p ≡ k
      → (j : Key) → IsArray32 j
      → (o : Option Place) → locate_mark x m j ≡ o
      → marked_at x
          (record m {
            bits = set_mark m.bits i p;
            marked = mark_count x (not (get_mark m.bits i p)) m.marked;
          })
          o
        ≡ (marked_at x m o || bytes_eq k j)
  unfolding marked_at
  at_place m k i p h there lt same j array none e = ground (arith, e, there, bytes_eq_iff k j)
  at_place m k i p h there lt same j array (some (in_active_segment b)) e =
      ground (arith, e, there, bytes_eq_iff k j)
  at_place m k i p h there lt same j array (some (in_row i' p')) e =
      let (lt', same') = found_row-key_at m j i' p' h array e in
      get_mark-set_mark m.segs m.bits i p i' p' h.fits lt
      ∙ ap (λ b. get_mark m.bits i' p' || b)
          (ground (arith, ==_iff i i', ==_iff p p', bytes_eq_iff k j, same, same', there, e))

  row-Marks :
      (m : MarkSet) (k : Key) (i p : ℕ)
      → IsMarkable m
      → locate_mark x m k ≡ some (in_row i p)
      → p < count_at m.segs i
      → key_at m.segs i p ≡ k
      → let newly = not (get_mark m.bits i p) in
        Marks m k
          (record m { bits = set_mark m.bits i p; marked = mark_count x newly m.marked })
          newly
          true
  unfolding is_present is_found is_marked marked_at mark_count
  row-Marks m k i p h there lt same = record {
    markable = record { placed = h.placed; fits = set_mark-Fits m.segs m.bits i p h.fits };
    was_present = ground (arith, there);
    was_unmarked = ground (arith, there);
    counted = refl;
    still_present = λ j. ap is_found (
        locate_mark-bits m (set_mark m.bits i p) (mark_count x (not (get_mark m.bits i p)) m.marked)
          j);
    marks = λ j array'.
        ap
          (marked_at x (record m {
            bits = set_mark m.bits i p;
            marked = mark_count x (not (get_mark m.bits i p)) m.marked;
          }))
          (locate_mark-bits m (set_mark m.bits i p)
            (mark_count x (not (get_mark m.bits i p)) m.marked) j)
        ∙ at_place m k i p h there lt same j array' (locate_mark x m j) refl;
  }

  mark_at-Marks :
      (m : MarkSet) (k : Key) (o : Option Place)
      → IsMarkable m
      → IsArray32 k
      → locate_mark x m k ≡ o
      → let (m', (newly, present)) = mark_at x m k o in Marks m k m' newly present
  unfolding mark_at
  mark_at-Marks m k none h array e = absent-Marks m k h e
  mark_at-Marks m k (some (in_active_segment b)) h array e =
      elim (locate_after_inv m k (flag_of m.active k) refl) [
        | inl (c, flag, at) ↦
            let same : c ≡ b = same_flag c (sym at ∙ e) in
            active-Marks m k b h (flag ∙ ap some same) e
        | inr (flag, at) ↦
            let (i, p, place, _, _) =
              locate_row-key_at x m.segs 0 k (in_active_segment b) h.placed array (sym at ∙ e) in
            absurd (no_place i p place)
      ]
    where
      same_flag : (c : Bool) → some (in_active_segment c) ≡ some (in_active_segment b) → c ≡ b
      same_flag c d = ground (arith, d)

      no_place : (i p : ℕ) → in_active_segment b ≡ in_row (0 + i) p → ⊥
      no_place i p d = cc d
  mark_at-Marks m k (some (in_row i p)) h array e =
      let (lt, same) = found_row-key_at m k i p h array e in row-Marks m k i p h e lt same

  -- On a snapshot of sealed segments whose indexes place every key at a row of that key, marking a key
  -- marks it if it is in the snapshot and no other key, reports whether it is there and whether it was
  -- unmarked, and counts it once.
  pub mark-Marks :
      (m : MarkSet) (k : Key)
      → IsMarkable m
      → IsArray32 k
      → let (m', (newly, present)) = mark x m k in Marks m k m' newly present
  unfolding mark
  mark-Marks m k h array = mark_at-Marks m k (locate_mark x m k) h array refl
