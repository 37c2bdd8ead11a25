-- ===== src/Packstore/Index/Search.antt =====
-- sort.Search, and the bytes of the index section that `searchIndexPos` searches.
use amber_store.Prelude.{
  ℕ, zero, suc, ◌+◌, ◌*◌, ◌/◌, ◌%◌, ◌^◌, ◌≤◌, ◌<◌, ◌≡◌, refl, ◌∙◌, ap, arith, List, [], ◌∷◌, Bool,
  true, false, ltb, length, get_or, if◌then◌else◌, inl, inr, All, put_be, Bool-cases, length-append,
  length-put_be,
}
use amber_store.Packstore.Index.{IndexEntry, last_byte, count_last, fanout_bytes, search}

-- The test is monotone between `i` and `j`.
abbrev pub IsMonotone : (ℕ → Bool) → ℕ → ℕ → Type 0
IsMonotone p i j = (x y : ℕ) → i ≤ x → x ≤ y → y < j → p x ≡ true → p y ≡ true

-- The least position at which the test holds, or the end.
pub record IsLeast (p : ℕ → Bool) (i j r : ℕ) : Type 0 where
  pub from : i ≤ r
  pub upto : r ≤ j
  pub before : (x : ℕ) → i ≤ x → x < r → p x ≡ false
  pub holds : r < j → p r ≡ true

pub search-IsLeast :
    (p : ℕ → Bool) (f i j : ℕ)
    → i ≤ j
    → j ≤ i + f
    → IsMonotone p i j
    → IsLeast p i j (search p f i j)
unfolding search
search-IsLeast p zero i j le enough mono = record {
  from = omega arith;
  upto = le;
  before = λ x a b. absurd (omega arith);
  holds = λ h. absurd (omega arith);
}
search-IsLeast p (suc f) i j le enough mono = elim (Bool-cases (ltb i j)) [
  | inl go ↦
      let lt : i < j = ground arith in
      let h : ℕ = (i + j) / 2 in
      rw go (elim (Bool-cases (p h)) [
        | inl hit ↦
            let r =
              search-IsLeast p f i h (omega arith) (omega arith)
                (λ x y a b c. mono x y a b (omega arith)) in
            rw hit (record {
              from = r.from;
              upto = omega (arith, r.upto);
              before = r.before;
              holds = λ l. at_least p h (search p f i h) hit r.upto r.holds;
            })
        | inr miss ↦
            let r =
              search-IsLeast p f (h + 1) j (omega arith) (omega arith)
                (λ x y a b c. mono x y (omega arith) b c) in
            rw miss (record {
              from = omega (arith, r.from);
              upto = r.upto;
              before = λ x a b.
                  earlier p i j h (search p f (h + 1) j) x mono miss r.before (omega arith) a b;
              holds = r.holds;
            })
      ])
  | inr stop ↦
      let ge : j ≤ i = ground arith in
      rw stop (record {
        from = omega arith;
        upto = le;
        before = λ x a b. absurd (omega arith);
        holds = λ h. absurd (omega arith);
      })
]
  where
    at_least : (p : ℕ → Bool) (h r : ℕ) → p h ≡ true → r ≤ h → (r < h → p r ≡ true) → p r ≡ true
    at_least p h r hit le holds = ground arith

    earlier :
        (p : ℕ → Bool) (i j h r x : ℕ)
        → IsMonotone p i j
        → p h ≡ false
        → ((x : ℕ) → h + 1 ≤ x → x < r → p x ≡ false)
        → h < j
        → i ≤ x
        → x < r
        → p x ≡ false
    earlier p i j h r x mono miss before hj a b = ground (arith, mono x h a, before x)

-- The number of rows whose key ends in a smaller byte.
unfoldable pub below : List IndexEntry → ℕ → ℕ
below [] b = 0
below (e ∷ es) b = let n = below es b in if ltb (last_byte e.k) b then n + 1 else n

pub below-le : (es : List IndexEntry) (b : ℕ) → below es b ≤ length es
unfolding below
below-le [] b = omega arith
below-le (e ∷ es) b = ground (arith, below-le es b)

pub below_zero : (es : List IndexEntry) → below es 0 ≡ 0
unfolding below
below_zero [] = refl
below_zero (e ∷ es) = ground (arith, below_zero es)

count_last-le : (es : List IndexEntry) (b : ℕ) → length es < 2 ^ 32 → count_last es b ≤ length es
unfolding count_last
count_last-le [] b h = omega arith
count_last-le (e ∷ es) b h = ground (arith, count_last-le es b)

pub below_next :
    (es : List IndexEntry) (b : ℕ)
    → length es < 2 ^ 32
    → below es (b + 1) ≡ below es b + count_last es b
unfolding below count_last
below_next [] b h = refl
below_next (e ∷ es) b h = ground (arith, below_next es b, count_last-le es b, below-le es b)

pub below-All :
    (es : List IndexEntry) (b : ℕ) → All (λ e. last_byte e.k < b) es → below es b ≡ length es
unfolding below
below-All [] b s = refl
below-All (e ∷ es) b s = ground (arith, below-All es b s.1)

-- The counts of the fanout table from a byte on.
unfoldable pub counts : List IndexEntry → ℕ → ℕ → List ℕ
counts es zero b = []
counts es (suc n) b = below es (b + 1) ∷ counts es n (b + 1)

pub get_or-counts :
    (es : List IndexEntry) (n b j : ℕ) → j < n → get_or (counts es n b) j 0 ≡ below es (b + j + 1)
unfolding counts
get_or-counts es zero b j h = absurd (omega arith)
get_or-counts es (suc n) b zero h = ap (below es) (omega arith)
get_or-counts es (suc n) b (suc j) h =
    get_or-counts es n (b + 1) j (omega arith) ∙ ap (below es) (omega arith)

pub below_le_next : (es : List IndexEntry) (b : ℕ) → below es b ≤ below es (b + 1)
unfolding below
below_le_next [] b = omega arith
below_le_next (e ∷ es) b = ground (arith, below_le_next es b)

pub length-fanout_bytes :
    (es : List IndexEntry) (n b cum : ℕ) → length (fanout_bytes es n b cum) ≡ n * 4
unfolding fanout_bytes
length-fanout_bytes es zero b cum = refl
length-fanout_bytes es (suc n) b cum =
    let next : ℕ = (cum + count_last es b) % 2 ^ 32 in
    omega (
      arith,
      length-append (put_be 4 next) (fanout_bytes es n (b + 1) next),
      length-put_be 4 next,
      length-fanout_bytes es n (b + 1) next,
    )
