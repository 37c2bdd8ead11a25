-- ===== src/Packstore/Marks/Bits.antt =====
-- The bits of packstore/markset.go: a bit that is set is the only one that changes.
use amber_store.Prelude.{
  ℕ, zero, suc, ◌+◌, ◌*◌, ◌/◌, ◌%◌, ◌≤◌, ◌<◌, ◌≡◌, refl, ◌∙◌, ap, arith, Bool, true, false, ◌&&◌,
  ◌||◌, none, some, List, [], ◌∷◌, ◌==◌, ==_iff, length, if◌then◌else◌, get_or, bytes_eq,
  bytes_eq_iff, replicate, length-replicate,
}
use amber_store.Key.{Key}
use amber_store.Packstore.Footer.{SealedSegment}
use amber_store.Packstore.Marks.{
  has_bit, add_bit, set_word, get_mark, set_mark, flag_of, set_flag, blank_words,
}

has_bit-add_bit : (w i j : ℕ) → has_bit (add_bit w i) j ≡ (has_bit w j || i == j)
unfolding has_bit add_bit
has_bit-add_bit w zero zero = ground arith
has_bit-add_bit w zero (suc j) =
    let half : (w / 2 * 2 + 1) / 2 ≡ w / 2 = omega arith in rw half (ground arith)
has_bit-add_bit w (suc i) zero =
    let low : (w % 2 + 2 * add_bit (w / 2) i) % 2 ≡ w % 2 = omega arith in rw low (ground arith)
has_bit-add_bit w (suc i) (suc j) =
    let half : (w % 2 + 2 * add_bit (w / 2) i) / 2 ≡ add_bit (w / 2) i = omega arith in
    rw half (ground (arith, has_bit-add_bit (w / 2) i j))

get_or-set_word :
    (ws : List ℕ) (a i b j : ℕ)
    → a < length ws
    → has_bit (get_or (set_word ws a i) b 0) j ≡ (has_bit (get_or ws b 0) j || (a == b && i == j))
unfolding set_word
get_or-set_word [] a i b j h = absurd (omega arith)
get_or-set_word (w ∷ ws) zero i zero j h = ground (arith, has_bit-add_bit w i j)
get_or-set_word (w ∷ ws) zero i (suc b) j h = ground arith
get_or-set_word (w ∷ ws) (suc a) i zero j h = ground arith
get_or-set_word (w ∷ ws) (suc a) i (suc b) j h = ground (arith, get_or-set_word ws a i b j)

length-set_word : (ws : List ℕ) (a i : ℕ) → length (set_word ws a i) ≡ length ws
unfolding set_word
length-set_word [] a i = refl
length-set_word (w ∷ ws) zero i = refl
length-set_word (w ∷ ws) (suc a) i = ap suc (length-set_word ws a i)

same_place : (p q : ℕ) → (p / 64 == q / 64 && p % 64 == q % 64) ≡ (p == q)
same_place p q = ground (arith, ==_iff (p / 64) (q / 64), ==_iff (p % 64) (q % 64), ==_iff p q)

-- There is a word for each row.
unfoldable pub Fits : List SealedSegment → List (List ℕ) → Type 0
Fits [] [] = Unit {0}
Fits [] (ws ∷ bits) = ⊥
Fits (g ∷ gs) [] = ⊥
Fits (g ∷ gs) (ws ∷ bits) = (g.fv.key_count ≤ 64 * length ws) × Fits gs bits

unfoldable pub count_at : List SealedSegment → ℕ → ℕ
count_at [] i = 0
count_at (g ∷ gs) zero = g.fv.key_count
count_at (g ∷ gs) (suc i) = count_at gs i

pub get_mark-set_mark :
    (gs : List SealedSegment) (bits : List (List ℕ)) (i p j q : ℕ)
    → Fits gs bits
    → p < count_at gs i
    → get_mark (set_mark bits i p) j q ≡ (get_mark bits j q || (i == j && p == q))
unfolding get_mark set_mark Fits count_at
get_mark-set_mark [] bits i p j q f h = absurd (omega (arith, h))
get_mark-set_mark (g ∷ gs) [] i p j q f h = absurd f
get_mark-set_mark (g ∷ gs) (ws ∷ bits) zero p zero q f h =
    get_or-set_word ws (p / 64) (p % 64) (q / 64) (q % 64) (omega (arith, f.0, h))
    ∙ ap (λ b. has_bit (get_or ws (q / 64) 0) (q % 64) || b) (same_place p q)
    ∙ ground arith
get_mark-set_mark (g ∷ gs) (ws ∷ bits) zero p (suc j) q f h = ground arith
get_mark-set_mark (g ∷ gs) (ws ∷ bits) (suc i) p zero q f h = ground arith
get_mark-set_mark (g ∷ gs) (ws ∷ bits) (suc i) p (suc j) q f h =
    ground (arith, get_mark-set_mark gs bits i p j q f.1 h)

pub set_mark-Fits :
    (gs : List SealedSegment) (bits : List (List ℕ)) (i p : ℕ)
    → Fits gs bits
    → Fits gs (set_mark bits i p)
unfolding set_mark Fits
set_mark-Fits [] [] i p f = tt
set_mark-Fits [] (ws ∷ bits) i p f = absurd f
set_mark-Fits (g ∷ gs) [] i p f = absurd f
set_mark-Fits (g ∷ gs) (ws ∷ bits) zero p f =
    (omega (arith, f.0, length-set_word ws (p / 64) (p % 64)), f.1)
set_mark-Fits (g ∷ gs) (ws ∷ bits) (suc i) p f = (f.0, set_mark-Fits gs bits i p f.1)

pub blank_words-Fits : (gs : List SealedSegment) → Fits gs (blank_words gs)
unfolding Fits blank_words
blank_words-Fits [] = tt
blank_words-Fits (g ∷ gs) =
    (omega (arith, length-replicate {A = ℕ} ((g.fv.key_count + 63) / 64) 0), blank_words-Fits gs)

blank_bit : (i : ℕ) → has_bit 0 i ≡ false
unfolding has_bit
blank_bit zero = refl
blank_bit (suc i) = blank_bit i

blank_word : (n i : ℕ) → ◌≡◌ {A = ℕ} (get_or (replicate n 0) i 0) 0
blank_word zero i = refl
blank_word (suc n) zero = refl
blank_word (suc n) (suc i) = blank_word n i

pub get_mark-blank_words :
    (gs : List SealedSegment) (i p : ℕ) → get_mark (blank_words gs) i p ≡ false
unfolding get_mark blank_words
get_mark-blank_words [] i p = refl
get_mark-blank_words (g ∷ gs) zero p =
    ap (λ w. has_bit w (p % 64)) (blank_word ((g.fv.key_count + 63) / 64) (p / 64))
    ∙ blank_bit (p % 64)
get_mark-blank_words (g ∷ gs) (suc i) p = get_mark-blank_words gs i p

pub flag_of-set_flag :
    (m : List (Key × Bool)) (k j : Key) (b : Bool)
    → flag_of m k ≡ some b
    → flag_of (set_flag m k) j ≡ (if bytes_eq k j then some true else flag_of m j)
unfolding flag_of set_flag
flag_of-set_flag [] k j b h = absurd (none_some h)
  where
    none_some : none ≡ some b → ⊥
    none_some e = cc e
flag_of-set_flag ((i, c) ∷ m) k j b h =
    ground
      (arith, h, flag_of-set_flag m k j b, bytes_eq_iff i k, bytes_eq_iff i j, bytes_eq_iff k j)
