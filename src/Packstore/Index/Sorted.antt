-- ===== src/Packstore/Index/Sorted.antt =====
-- The rows of an index section in the order of `compareEntries`.
use amber_store.Prelude.{
  ℕ, zero, suc, ◌<◌, ◌≡◌, ◌≢◌, refl, ◌∙◌, ap, arith, List, [], ◌∷◌, Bool, true, false, ◌||◌, length,
  get_or, if◌then◌else◌, Option, none, some, ◌⊎◌, inl, inr, All, IsU32, IsU64, bytes_eq, Bool-cases,
  bytes_eq_iff, bytes_less_irrefl, bytes_less_trans, bytes_less_connex,
}
use amber_store.Key.{Key}
use amber_store.Key.Fields.{IsArray32}
use amber_store.Packstore.Index.{IndexEntry, entry_less, insert_entry, sort_entries}

-- What the fixed-size fields of a row give.
abbrev pub IsRow : IndexEntry → Type 0
IsRow e = IsArray32 e.k × (IsU64 e.off × IsU32 e.slen)

-- The row of a key, by a walk over the rows in any order.
unfoldable pub find : List IndexEntry → Key → Option (ℕ × ℕ)
find [] k = none
find (e ∷ es) k = if bytes_eq e.k k then some (e.off, e.slen) else find es k

unfoldable pub has_key : List IndexEntry → Key → Bool
has_key [] k = false
has_key (e ∷ es) k = bytes_eq e.k k || has_key es k

-- No key stands twice.
abbrev pub IsDistinct : List IndexEntry → Type 0
IsDistinct [] = Unit {0}
IsDistinct (e ∷ es) = (has_key es e.k ≡ false) × IsDistinct es

abbrev pub IsSorted : List IndexEntry → Type 0
IsSorted [] = Unit {0}
IsSorted (e ∷ es) = All (λ f. entry_less e f ≡ true) es × IsSorted es

pub entry_less_irrefl : (a b : IndexEntry) → a.k ≡ b.k → entry_less a b ≡ false
unfolding entry_less
entry_less_irrefl a b h = rw h (ground (arith, bytes_less_irrefl b.k))

entry_less_trans :
    (a b c : IndexEntry) → entry_less a b ≡ true → entry_less b c ≡ true → entry_less a c ≡ true
unfolding entry_less
entry_less_trans a b c p q = ground (arith, bytes_less_trans a.k b.k c.k)

entry_less_connex : (a b : IndexEntry) → entry_less a b ≡ false → entry_less b a ≡ false → a.k ≡ b.k
unfolding entry_less
entry_less_connex a b p q = ground (arith, bytes_less_connex a.k b.k)

below-All :
    (a b : IndexEntry) (es : List IndexEntry)
    → entry_less a b ≡ true
    → All (λ f. entry_less b f ≡ true) es
    → All (λ f. entry_less a f ≡ true) es
below-All a b [] h s = tt
below-All a b (e ∷ es) h s = (entry_less_trans a b e h s.0, below-All a b es h s.1)

if-All {κ} :
    (P : IndexEntry → Type κ) (c : Bool) (xs ys : List IndexEntry)
    → All P xs
    → All P ys
    → All P (if c then xs else ys)
if-All P true xs ys h s = h
if-All P false xs ys h s = s

pub insert_entry-All {κ} :
    (P : IndexEntry → Type κ) (e : IndexEntry) (es : List IndexEntry)
    → P e
    → All P es
    → All P (insert_entry e es)
unfolding insert_entry
insert_entry-All P e [] h s = (h, tt)
insert_entry-All P e (f ∷ fs) h s =
    if-All P (entry_less f e) (f ∷ insert_entry e fs) (e ∷ f ∷ fs)
      (s.0, insert_entry-All P e fs h s.1) (h, s)

pub sort_entries-All {κ} :
    (P : IndexEntry → Type κ) (es : List IndexEntry) → All P es → All P (sort_entries es)
unfolding sort_entries
sort_entries-All P [] s = tt
sort_entries-All P (e ∷ es) s =
    insert_entry-All P e (sort_entries es) s.0 (sort_entries-All P es s.1)

insert_entry-IsSorted :
    (e : IndexEntry) (es : List IndexEntry)
    → has_key es e.k ≡ false
    → IsSorted es
    → IsSorted (insert_entry e es)
unfolding insert_entry has_key
insert_entry-IsSorted e [] new s = (tt, tt)
insert_entry-IsSorted e (f ∷ fs) new s = ground (
  arith,
  insert_entry-IsSorted e fs,
  entry_less_connex f e,
  bytes_eq_iff f.k e.k,
  insert_entry-All (λ g. entry_less f g ≡ true) e fs,
  below-All e f fs,
)

has_key-insert_entry :
    (e : IndexEntry) (es : List IndexEntry) (k : Key)
    → has_key (insert_entry e es) k ≡ (bytes_eq e.k k || has_key es k)
unfolding has_key insert_entry
has_key-insert_entry e [] k = refl
has_key-insert_entry e (f ∷ fs) k = ground (arith, has_key-insert_entry e fs k)

has_key-sort_entries : (es : List IndexEntry) (k : Key) → has_key (sort_entries es) k ≡ has_key es k
unfolding has_key sort_entries
has_key-sort_entries [] k = refl
has_key-sort_entries (e ∷ es) k =
    ground (arith, has_key-insert_entry e (sort_entries es) k, has_key-sort_entries es k)

pub sort_entries-IsSorted : (es : List IndexEntry) → IsDistinct es → IsSorted (sort_entries es)
unfolding sort_entries
sort_entries-IsSorted [] d = tt
sort_entries-IsSorted (e ∷ es) d =
    insert_entry-IsSorted e (sort_entries es) (has_key-sort_entries es e.k ∙ d.0)
      (sort_entries-IsSorted es d.1)

-- Sorting leaves the answers of a walk as they were.
find-insert_entry :
    (e : IndexEntry) (es : List IndexEntry) (k : Key) → find (insert_entry e es) k ≡ find (e ∷ es) k
unfolding find insert_entry
find-insert_entry e [] k = refl
find-insert_entry e (f ∷ fs) k =
    ground (
      arith,
      find-insert_entry e fs k,
      bytes_eq_iff e.k k,
      bytes_eq_iff f.k k,
      entry_less_irrefl f e,
    )

pub find-sort_entries : (es : List IndexEntry) (k : Key) → find (sort_entries es) k ≡ find es k
unfolding find sort_entries
find-sort_entries [] k = refl
find-sort_entries (e ∷ es) k =
    find-insert_entry e (sort_entries es) k
    ∙ ap (λ o. if bytes_eq e.k k then some (e.off, e.slen) else o) (find-sort_entries es k)

length-insert_entry :
    (e : IndexEntry) (es : List IndexEntry) → length (insert_entry e es) ≡ suc (length es)
unfolding insert_entry
length-insert_entry e [] = refl
length-insert_entry e (f ∷ fs) = ground (arith, length-insert_entry e fs)

pub length-sort_entries : (es : List IndexEntry) → length (sort_entries es) ≡ length es
unfolding sort_entries
length-sort_entries [] = refl
length-sort_entries (e ∷ es) =
    omega (arith, length-insert_entry e (sort_entries es), length-sort_entries es)

abbrev pub no_entry : IndexEntry
no_entry = record { k = []; off = 0; slen = 0 }

-- The row at a position.
abbrev pub row : List IndexEntry → ℕ → IndexEntry
row es q = get_or es q no_entry

pub All-row {κ} :
    (P : IndexEntry → Type κ) (es : List IndexEntry) (q : ℕ)
    → All P es
    → q < length es
    → P (row es q)
All-row P [] q s h = absurd (omega arith)
All-row P (e ∷ es) zero s h = s.0
All-row P (e ∷ es) (suc q) s h = All-row P es q s.1 (omega arith)

pub row-IsSorted :
    (es : List IndexEntry) (x y : ℕ)
    → IsSorted es
    → x < y
    → y < length es
    → entry_less (row es x) (row es y) ≡ true
row-IsSorted [] x y s h l = absurd (omega arith)
row-IsSorted (e ∷ es) x zero s h l = absurd (omega arith)
row-IsSorted (e ∷ es) zero (suc y) s h l =
    All-row (λ f. entry_less e f ≡ true) es y s.0 (omega arith)
row-IsSorted (e ∷ es) (suc x) (suc y) s h l = row-IsSorted es x y s.1 (omega arith) (omega arith)

-- A walk finds a row of the key, or there is none.
pub find-cases :
    (es : List IndexEntry) (k : Key)
    → ((q : ℕ) × (q < length es)
        × ((row es q).k ≡ k)
        × (find es k ≡ some ((row es q).off, (row es q).slen)))
      ⊎ ((find es k ≡ none) × ((q : ℕ) → q < length es → (row es q).k ≢ k))
unfolding find
find-cases [] k = inr (refl, λ q h. absurd (omega arith))
find-cases (e ∷ es) k = elim (Bool-cases (bytes_eq e.k k)) [
  | inl same ↦ inl (0, omega arith, (bytes_eq_iff e.k k).0 same, rw same)
  | inr other ↦ elim (find-cases es k) [
    | inl (q, l, same, found) ↦ inl (suc q, omega arith, same, rw other found)
    | inr (missing, none_equal) ↦ inr (rw other missing, λ q h. no_row e es k q other none_equal h)
  ]
]
  where
    no_row :
        (e : IndexEntry) (es : List IndexEntry) (k : Key) (q : ℕ)
        → bytes_eq e.k k ≡ false
        → ((q : ℕ) → q < length es → (row es q).k ≢ k)
        → q < length (e ∷ es)
        → (row (e ∷ es) q).k ≢ k
    no_row e es k zero other h l = λ p. ground (arith, bytes_eq_iff e.k k)
    no_row e es k (suc q) other h l = h q (omega arith)
