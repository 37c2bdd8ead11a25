-- ===== src/Packstore/Marks/Fresh.antt =====
-- `NewMarkSet` of packstore/markset.go: the empty set over the keys of a store.
use amber_store.Prelude.{
  ℕ, ◌+◌, ◌≡◌, refl, ◌∙◌, ap, arith, Bool, true, false, ◌||◌, inl, inr, Option, none, some, List,
  [], ◌∷◌, if◌then◌else◌, All, Bytes, Option-cases,
}
use amber_store.Key.{Key}
use amber_store.Amberpack.Record.{Zstd}
use amber_store.Packstore.Filter.{FuseLibrary}
use amber_store.Packstore.Index.{search_index, row_values}
use amber_store.Packstore.Footer.{SealedSegment, has, probe, lookup, lookup_pos}
use amber_store.Packstore.Filed.{IsFiled}
use amber_store.Packstore.Recover.{LocIndex, loc_of}
use amber_store.Packstore.Store.{Store, in_active, any_sealed}
use amber_store.Packstore.Store.Refinement.{holds}
use amber_store.Packstore.Marks.{
  MarkSet, Place, flag_of, row_in, row_or, locate_row, locate_after, locate_mark, marked_at,
  get_mark, is_marked, unmarked_keys, new_mark_set,
}
use amber_store.Packstore.Marks.Bits.{blank_words-Fits, get_mark-blank_words}
use amber_store.Packstore.Marks.Places.{IsPlaced}
use amber_store.Packstore.Marks.Marked.{IsMarkable, is_found, is_present}
use amber_store.Packstore.Compact.Wellfiled.{IsWellFiled}

row_in-has :
    (x : FuseLibrary) (g : SealedSegment) (k : Key)
    → has x g k ≡ (elim (row_in x g k) [ some p ↦ Bool.true | none ↦ Bool.false ])
unfolding has probe lookup search_index row_values row_in lookup_pos
row_in-has x g k = ground arith

locate_row-any_sealed :
    (x : FuseLibrary) (gs : List SealedSegment) (n : ℕ) (k : Key)
    → is_found x (locate_row x gs n k) ≡ any_sealed x gs k
unfolding locate_row row_or is_found any_sealed
locate_row-any_sealed x [] n k = refl
locate_row-any_sealed x (g ∷ gs) n k =
    ground (arith, row_in-has x g k, locate_row-any_sealed x gs (n + 1) k)

unmarked_keys-flag_of :
    (x : FuseLibrary) (m : LocIndex) (k : Key)
    → flag_of (unmarked_keys m) k ≡ (elim (loc_of m k) [ some loc ↦ some Bool.false | none ↦ none ])
unfolding flag_of unmarked_keys loc_of
unmarked_keys-flag_of x [] k = refl
unmarked_keys-flag_of x ((j, loc) ∷ m) k = ground (arith, unmarked_keys-flag_of x m k)

row_or-unmarked :
    (x : FuseLibrary) (m : MarkSet) (seg : ℕ) (here : Option ℕ) (later : Option Place)
    → ((i p : ℕ) → get_mark m.bits i p ≡ false)
    → marked_at x m later ≡ false
    → marked_at x m (row_or x seg here later) ≡ false
unfolding row_or marked_at
row_or-unmarked x m seg here (some q) blank h = h
row_or-unmarked x m seg none none blank h = refl
row_or-unmarked x m seg (some p) none blank h = blank seg p

locate_row-unmarked :
    (x : FuseLibrary) (m : MarkSet) (gs : List SealedSegment) (n : ℕ) (k : Key)
    → ((i p : ℕ) → get_mark m.bits i p ≡ false)
    → marked_at x m (locate_row x gs n k) ≡ false
unfolding locate_row marked_at
locate_row-unmarked x m [] n k blank = refl
locate_row-unmarked x m (g ∷ gs) n k blank =
    row_or-unmarked x m n (row_in x g k) (locate_row x gs (n + 1) k) blank
      (locate_row-unmarked x m gs (n + 1) k blank)

fresh_flag :
    (x : FuseLibrary) (s : Store) (k : Key)
    → flag_of (new_mark_set s).active k ≡ (if in_active x s.active k then some false else none)
unfolding new_mark_set in_active flag_of
fresh_flag x s k = elim (Option-cases s.active) [
  | inl missing ↦ ground (arith, missing)
  | inr (a, there) ↦ ground (arith, there, unmarked_keys-flag_of x a.index k)
]

locate_after-fresh :
    (x : FuseLibrary) (s : Store) (k : Key) (b : Bool)
    → let m = new_mark_set s in
      let o = if b then some false else none in
      (is_found x (locate_after x o m k) ≡ (b || any_sealed x s.sealed k))
      × (marked_at x m (locate_after x o m k) ≡ false)
unfolding new_mark_set locate_after is_found marked_at
locate_after-fresh x s k true = (refl, refl)
locate_after-fresh x s k false = (
  locate_row-any_sealed x s.sealed 0 k,
  locate_row-unmarked x (new_mark_set s) s.sealed 0 k (get_mark-blank_words s.sealed),
)

-- A new set has no mark, and the keys of the store are the ones that are present.
pub new_mark_set-unmarked :
    (x : FuseLibrary) (s : Store) (k : Key)
    → (is_present x (new_mark_set s) k ≡ holds x s k) × (is_marked x (new_mark_set s) k ≡ false)
unfolding is_present is_marked locate_mark
new_mark_set-unmarked x s k =
    let (found, unmarked) = locate_after-fresh x s k (in_active x s.active k) in
    (
      ap (λ o. is_found x (locate_after x o (new_mark_set s) k)) (fresh_flag x s k) ∙ found,
      ap (λ o. marked_at x (new_mark_set s) (locate_after x o (new_mark_set s) k))
            (fresh_flag x s k)
          ∙ unmarked,
    )

module _ (x : FuseLibrary) (z : Zstd) (content : Key → Bytes) where
  all-IsPlaced : (gs : List SealedSegment) → All (IsFiled x z content) gs → All IsPlaced gs
  all-IsPlaced [] h = tt
  all-IsPlaced (g ∷ gs) h = (h.0.placed, all-IsPlaced gs h.1)

  pub new_mark_set-IsMarkable :
      (s : Store) → IsWellFiled x z content s → IsMarkable x (new_mark_set s)
  unfolding new_mark_set
  new_mark_set-IsMarkable s w = record {
    placed = all-IsPlaced s.sealed w.segments;
    fits = blank_words-Fits s.sealed;
  }
