-- ===== src/Packstore/Marks.antt =====
-- packstore/markset.go: marks on a snapshot of a store, one bit for each sealed record and a flag for
-- each key of the active segment. A word of 64 bits is a number.
pub mod Bits
pub mod Places
pub mod Marked
pub mod Fresh
pub mod Snapshot
use amber_store.Prelude.{
  ℕ, zero, suc, ◌+◌, ◌*◌, ◌/◌, ◌%◌, Bool, true, false, not, Option, none, some, List, [], ◌∷◌, ◌==◌,
  if◌then◌else◌, get_or, bytes_eq, replicate,
}
use amber_store.Key.{Key}
use amber_store.Packstore.Filter.{FuseLibrary, filter_key}
use amber_store.Packstore.Footer.{SealedSegment, lookup_pos}
use amber_store.Packstore.Recover.{LocIndex}
use amber_store.Packstore.Store.{Store}

pub record MarkSet : Type 0 where
  pub segs : List SealedSegment
  pub bits : List (List ℕ)
  pub active : List (Key × Bool)
  pub marked : ℕ

unfoldable pub blank_words : List SealedSegment → List (List ℕ)
blank_words [] = []
blank_words (g ∷ gs) = replicate ((g.fv.key_count + 63) / 64) 0 ∷ blank_words gs

unfoldable pub unmarked_keys : LocIndex → List (Key × Bool)
unmarked_keys [] = []
unmarked_keys ((k, loc) ∷ m) = (k, false) ∷ unmarked_keys m

-- Store.NewMarkSet
unfoldable pub new_mark_set : Store → MarkSet
unfolding blank_words unmarked_keys
new_mark_set s = record {
  segs = s.sealed;
  bits = blank_words s.sealed;
  active = elim s.active [ none ↦ [] | some a ↦ unmarked_keys a.index ];
  marked = 0;
}

-- `m.active[k]` with the test for presence.
unfoldable pub flag_of : List (Key × Bool) → Key → Option Bool
flag_of [] k = none
flag_of ((j, b) ∷ m) k = if bytes_eq j k then some b else flag_of m k

-- `m.active[k] = true` of a key that is there.
unfoldable pub set_flag : List (Key × Bool) → Key → List (Key × Bool)
set_flag [] k = []
set_flag ((j, b) ∷ m) k = if bytes_eq j k then (j, true) ∷ m else (j, b) ∷ set_flag m k

-- `w & (1 << i) != 0`
unfoldable pub has_bit : ℕ → ℕ → Bool
has_bit w zero = w % 2 == 1
has_bit w (suc i) = has_bit (w / 2) i

-- `w | 1 << i`
unfoldable pub add_bit : ℕ → ℕ → ℕ
add_bit w zero = w / 2 * 2 + 1
add_bit w (suc i) = w % 2 + 2 * add_bit (w / 2) i

unfoldable pub set_word : List ℕ → ℕ → ℕ → List ℕ
unfolding add_bit
set_word [] word i = []
set_word (w ∷ ws) zero i = add_bit w i ∷ ws
set_word (w ∷ ws) (suc word) i = w ∷ set_word ws word i

-- `bits[seg][pos/64] & (1 << (pos % 64)) != 0`
unfoldable pub get_mark : List (List ℕ) → ℕ → ℕ → Bool
unfolding has_bit
get_mark [] seg pos = false
get_mark (ws ∷ bits) zero pos = has_bit (get_or ws (pos / 64) 0) (pos % 64)
get_mark (ws ∷ bits) (suc seg) pos = get_mark bits seg pos

-- `bits[seg][pos/64] |= 1 << (pos % 64)`
unfoldable pub set_mark : List (List ℕ) → ℕ → ℕ → List (List ℕ)
unfolding set_word
set_mark [] seg pos = []
set_mark (ws ∷ bits) zero pos = set_word ws (pos / 64) (pos % 64) ∷ bits
set_mark (ws ∷ bits) (suc seg) pos = ws ∷ set_mark bits seg pos

-- Where a key was found: in the active segment, or at a row of a sealed one.
pub data Place : Type 0 where
  in_active_segment : Bool → Place
  in_row : ℕ → ℕ → Place

module _ (x : FuseLibrary) where
  unfoldable pub row_in : SealedSegment → Key → Option ℕ
  row_in g k = if not (x.contains g.fv.filter (filter_key k)) then none else lookup_pos g.fv k

  unfoldable pub row_or : ℕ → Option ℕ → Option Place → Option Place
  row_or seg here (some p) = some p
  row_or seg none none = none
  row_or seg (some pos) none = some (in_row seg pos)

  -- The newest segment, the last one, is asked first; the number is that of the first segment.
  unfoldable pub locate_row : List SealedSegment → ℕ → Key → Option Place
  unfolding row_in row_or
  locate_row [] seg k = none
  locate_row (g ∷ gs) seg k = row_or seg (row_in g k) (locate_row gs (seg + 1) k)

  unfoldable pub locate_after : Option Bool → MarkSet → Key → Option Place
  unfolding locate_row
  locate_after (some b) m k = some (in_active_segment b)
  locate_after none m k = locate_row m.segs 0 k

  -- MarkSet.locate
  unfoldable pub locate_mark : MarkSet → Key → Option Place
  unfolding locate_after flag_of
  locate_mark m k = locate_after (flag_of m.active k) m k

  unfoldable pub mark_count : Bool → ℕ → ℕ
  mark_count newly n = if newly then n + 1 else n

  -- The set after the mark, whether the key was unmarked, and whether it is there.
  unfoldable pub mark_at : MarkSet → Key → Option Place → MarkSet × (Bool × Bool)
  unfolding set_flag get_mark set_mark mark_count
  mark_at m k none = (m, (false, false))
  mark_at m k (some (in_active_segment b)) = (
    record m { active = set_flag m.active k; marked = mark_count (not b) m.marked },
    (not b, true),
  )
  mark_at m k (some (in_row seg pos)) =
      let newly = not (get_mark m.bits seg pos) in
      (
        record m { bits = set_mark m.bits seg pos; marked = mark_count newly m.marked },
        (newly, true),
      )

  -- MarkSet.Mark
  unfoldable pub mark : MarkSet → Key → MarkSet × (Bool × Bool)
  unfolding locate_mark mark_at
  mark m k = mark_at m k (locate_mark m k)

  unfoldable pub marked_at : MarkSet → Option Place → Bool
  unfolding get_mark
  marked_at m none = false
  marked_at m (some (in_active_segment b)) = b
  marked_at m (some (in_row seg pos)) = get_mark m.bits seg pos

  -- MarkSet.Contains
  unfoldable pub is_marked : MarkSet → Key → Bool
  unfolding locate_mark marked_at
  is_marked m k = marked_at m (locate_mark m k)
