-- ===== src/Prelude/Lists.antt =====
-- Lists measured, cut and indexed by native numbers: Go slices.
use Prim.Native.Nat.{ℕ, zero, suc, ◌+◌, ◌-◌, ◌≤◌, ◌<◌, min}
use mathlib.Core.Path.{◌≡◌, refl, sym, ap, ap₂, ◌∙◌}
use mathlib.Core.Logic.{◌⊎◌, inl, inr}
use mathlib.Core.List.{List, [], ◌∷◌, ◌++◌}
use native.Mathlib.Omega.{arith}

module _ {ℓ} {A : Type ℓ} where
  abbrev pub length : List A → ℕ
  length [] = 0
  length (x ∷ xs) = suc (length xs)

  abbrev pub get_or : List A → ℕ → A → A
  get_or [] i d = d
  get_or (x ∷ xs) zero d = x
  get_or (x ∷ xs) (suc i) d = get_or xs i d

  abbrev pub take : ℕ → List A → List A
  take zero xs = []
  take (suc n) [] = []
  take (suc n) (x ∷ xs) = x ∷ take n xs

  abbrev pub drop : ℕ → List A → List A
  drop zero xs = xs
  drop (suc n) [] = []
  drop (suc n) (x ∷ xs) = drop n xs

  abbrev pub replicate : ℕ → A → List A
  replicate zero a = []
  replicate (suc n) a = a ∷ replicate n a

  pub length-append : (xs ys : List A) → length (xs ++ ys) ≡ length xs + length ys
  length-append [] ys = omega arith
  length-append (x ∷ xs) ys = omega (arith, length-append xs ys)

  pub take-append-drop : (n : ℕ) (xs : List A) → take n xs ++ drop n xs ≡ xs
  take-append-drop zero xs = refl
  take-append-drop (suc n) [] = refl
  take-append-drop (suc n) (x ∷ xs) = rw (take-append-drop n xs)

  pub length-take : (n : ℕ) (xs : List A) → length (take n xs) ≡ min n (length xs)
  length-take zero xs = omega arith
  length-take (suc n) [] = omega arith
  length-take (suc n) (x ∷ xs) = omega (arith, length-take n xs)

  pub length-drop : (n : ℕ) (xs : List A) → length (drop n xs) ≡ length xs - n
  length-drop zero xs = omega arith
  length-drop (suc n) [] = omega arith
  length-drop (suc n) (x ∷ xs) = omega (arith, length-drop n xs)

  pub length-replicate : (n : ℕ) (a : A) → length (replicate n a) ≡ n
  length-replicate zero a = refl
  length-replicate (suc n) a = ap suc (length-replicate n a)

  pub List-cases : (xs : List A) → (xs ≡ []) ⊎ ((x : A) × (rest : List A) × (xs ≡ x ∷ rest))
  List-cases [] = inl refl
  List-cases (x ∷ xs) = inr (x, xs, refl)

  -- Cutting a concatenation at or behind the end of its first part.
  pub take-append : (xs ys : List A) {n : ℕ} → length xs ≡ n → take n (xs ++ ys) ≡ xs
  take-append [] ys {n = zero} h = refl
  take-append [] ys {n = suc n} h = absurd (omega arith)
  take-append (x ∷ xs) ys {n = zero} h = absurd (omega arith)
  take-append (x ∷ xs) ys {n = suc n} h = ap (λ l. x ∷ l) (take-append xs ys (omega arith))

  pub drop-append :
      (xs ys : List A) {n : ℕ} (m : ℕ) → length xs + m ≡ n → drop n (xs ++ ys) ≡ drop m ys
  drop-append [] ys {n} m h = ap (λ k. drop k ys) (omega arith)
  drop-append (x ∷ xs) ys {n = zero} m h = absurd (omega arith)
  drop-append (x ∷ xs) ys {n = suc n} m h = drop-append xs ys m (omega arith)

  pub drop-append_exact : (xs ys : List A) {n : ℕ} → length xs ≡ n → drop n (xs ++ ys) ≡ ys
  drop-append_exact xs ys h = drop-append xs ys 0 (omega arith)

  pub take_all : (xs : List A) {n : ℕ} → length xs ≤ n → take n xs ≡ xs
  take_all [] {n = zero} h = refl
  take_all [] {n = suc n} h = refl
  take_all (x ∷ xs) {n = zero} h = absurd (omega arith)
  take_all (x ∷ xs) {n = suc n} h = ap (λ l. x ∷ l) (take_all xs (omega arith))

  pub take-append_le : (xs ys : List A) {n : ℕ} → n ≤ length xs → take n (xs ++ ys) ≡ take n xs
  take-append_le xs ys {n = zero} h = refl
  take-append_le [] ys {n = suc n} h = absurd (omega arith)
  take-append_le (x ∷ xs) ys {n = suc n} h = ap (λ l. x ∷ l) (take-append_le xs ys (omega arith))

  pub drop-append_le :
      (xs ys : List A) {n : ℕ} → n ≤ length xs → drop n (xs ++ ys) ≡ drop n xs ++ ys
  drop-append_le xs ys {n = zero} h = refl
  drop-append_le [] ys {n = suc n} h = absurd (omega arith)
  drop-append_le (x ∷ xs) ys {n = suc n} h = drop-append_le xs ys (omega arith)

  -- A predicate by recursion computes to tuples, which the tactics read and build.
  abbrev pub All {κ} : (A → Type κ) → List A → Type κ
  All P [] = Unit {κ}
  All P (x ∷ xs) = P x × All P xs

  pub All-append {κ} : (P : A → Type κ) (xs ys : List A) → All P xs → All P ys → All P (xs ++ ys)
  All-append P [] ys hx hy = hy
  All-append P (x ∷ xs) ys hx hy = (hx.0, All-append P xs ys hx.1 hy)

  pub All-take {κ} : (P : A → Type κ) (n : ℕ) (xs : List A) → All P xs → All P (take n xs)
  All-take P zero xs h = tt
  All-take P (suc n) [] h = tt
  All-take P (suc n) (x ∷ xs) h = (h.0, All-take P n xs h.1)

  pub All-drop {κ} : (P : A → Type κ) (n : ℕ) (xs : List A) → All P xs → All P (drop n xs)
  All-drop P zero xs h = h
  All-drop P (suc n) [] h = tt
  All-drop P (suc n) (x ∷ xs) h = All-drop P n xs h.1

module _ {ℓ} {A : Type ℓ} where
  -- b[lo:hi]
  abbrev pub slice : List A → ℕ → ℕ → List A
  slice xs lo hi = take (hi - lo) (drop lo xs)

  pub get_or-append :
      (xs ys : List A) {n : ℕ} (m : ℕ) (d : A)
      → length xs + m ≡ n
      → get_or (xs ++ ys) n d ≡ get_or ys m d
  get_or-append [] ys {n} m d h = ap (λ k. get_or ys k d) (omega arith)
  get_or-append (x ∷ xs) ys {n = zero} m d h = absurd (omega arith)
  get_or-append (x ∷ xs) ys {n = suc n} m d h = get_or-append xs ys m d (omega arith)

  pub get_or-append_lt :
      (xs ys : List A) (n : ℕ) (d : A) → n < length xs → get_or (xs ++ ys) n d ≡ get_or xs n d
  get_or-append_lt [] ys n d h = absurd (omega arith)
  get_or-append_lt (x ∷ xs) ys zero d h = refl
  get_or-append_lt (x ∷ xs) ys (suc n) d h = get_or-append_lt xs ys n d (omega arith)

  -- A cut within the first part of a concatenation.
  pub slice-append_le :
      (xs ys : List A) (lo hi : ℕ)
      → lo ≤ hi
      → hi ≤ length xs
      → slice (xs ++ ys) lo hi ≡ slice xs lo hi
  slice-append_le xs ys lo hi le h =
      ap (take (hi - lo)) (drop-append_le xs ys (omega arith))
      ∙ take-append_le (drop lo xs) ys (omega (arith, length-drop lo xs))

  -- A cut that is exactly the middle part of three.
  pub slice_middle :
      (xs ys zs : List A) (lo hi : ℕ)
      → length xs ≡ lo
      → lo + length ys ≡ hi
      → slice (xs ++ (ys ++ zs)) lo hi ≡ ys
  slice_middle xs ys zs lo hi h k =
      ap (take (hi - lo)) (drop-append_exact xs (ys ++ zs) h) ∙ take-append ys zs (omega arith)

  take_nil : (n : ℕ) → ◌≡◌ {A = List A} (take n []) []
  take_nil zero = refl
  take_nil (suc n) = refl

  drop_nil : (n : ℕ) → ◌≡◌ {A = List A} (drop n []) []
  drop_nil zero = refl
  drop_nil (suc n) = refl

  pub take-add : (m n : ℕ) (xs : List A) → take (m + n) xs ≡ take m xs ++ take n (drop m xs)
  take-add zero n xs = ap (λ k. take k xs) (omega arith)
  take-add (suc m) n [] = take_nil (suc m + n) ∙ sym (take_nil n)
  take-add (suc m) n (x ∷ xs) =
      let next : suc m + n ≡ suc (m + n) = omega arith in
      rw next (ap (λ l. x ∷ l) (take-add m n xs))

  pub drop-drop : (m n : ℕ) (xs : List A) → drop n (drop m xs) ≡ drop (m + n) xs
  drop-drop zero n xs = ap (λ k. drop k xs) (omega arith)
  drop-drop (suc m) n [] = drop_nil n ∙ sym (drop_nil (suc m + n))
  drop-drop (suc m) n (x ∷ xs) =
      let next : suc m + n ≡ suc (m + n) = omega arith in rw next (drop-drop m n xs)

  -- Two ways to cut one list: the first cut lies behind the second, or inside its first part.
  pub prefix_split :
      (q : List A) (x : A) (back t u : List A)
      → q ++ (x ∷ back) ≡ t ++ u
      → ((q2 : List A) × (q ≡ t ++ q2) × (u ≡ q2 ++ (x ∷ back)))
        ⊎ ((y : A) × (z : List A) × (t ≡ q ++ (y ∷ z)))
  prefix_split q x back [] u e = inl (q, refl, sym e)
  prefix_split [] x back (y ∷ t) u e = inr (y, t, refl)
  prefix_split (a ∷ q) x back (y ∷ t) u e =
      let h : a ≡ y = cc e in
      let r : q ++ (x ∷ back) ≡ t ++ u = cc e in
      elim (prefix_split q x back t u r) [
        | inl (q2, same, rest) ↦ inl (q2, ap₂ (λ b l. b ∷ l) h same, rest)
        | inr (z, zs, same) ↦ inr (z, zs, ap₂ (λ b l. b ∷ l) (sym h) same)
      ]

  -- A cut of a front is a cut of the whole.
  pub slice-take :
      (n : ℕ) (xs : List A) (lo hi : ℕ)
      → lo ≤ hi
      → hi ≤ n
      → n ≤ length xs
      → slice (take n xs) lo hi ≡ slice xs lo hi
  slice-take n xs lo hi a b c =
      sym (slice-append_le (take n xs) (drop n xs) lo hi a (omega (arith, length-take n xs)))
      ∙ ap (λ l. slice l lo hi) (take-append-drop n xs)
