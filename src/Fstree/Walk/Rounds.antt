-- ===== src/Fstree/Walk/Rounds.antt =====
-- How many rounds a walk takes.
use amber_store.Prelude.{
  ℕ, zero, suc, ◌+◌, ◌≤◌, ◌<◌, ◌≡◌, refl, ◌∙◌, ap, arith, true, false, not, ◌&&◌, ◌⊎◌, inl, inr,
  some, List, [], ◌∷◌, Bool-cases, bytes_eq, bytes_eq_iff, bytes_eq_refl, contains, length,
  List-cases, if◌then◌else◌, Result, ok, err, Result-cases,
}
use amber_store.Key.{Key}
use amber_store.Fstree.Walk.{Visited, add_lists, fetch, after_fetch, on_frontier, walk, start}
use amber_store.Fstree.Walk.Round.{Reaches, in_any, add_lists-seen, add_lists-next}
use amber_store.Fstree.Walk.Correct.{IsWalk, start-IsWalk, round-IsWalk}

-- How many of the keys were not seen.
unseen : List Key → List Key → ℕ
unseen [] seen = 0
unseen (u ∷ us) seen = (if contains seen u then 0 else 1) + unseen us seen

unseen-le : (us seen : List Key) → unseen us seen ≤ length us
unfolding unseen
unseen-le [] seen = omega arith
unseen-le (u ∷ us) seen = ground (arith, unseen-le us seen)

unseen_mono :
    (us seen seen' : List Key)
    → ((k : Key) → contains seen k ≡ true → contains seen' k ≡ true)
    → unseen us seen' ≤ unseen us seen
unfolding unseen
unseen_mono [] seen seen' h = omega arith
unseen_mono (u ∷ us) seen seen' h = ground (arith, h u, unseen_mono us seen seen' h)

unseen_falls :
    (us seen seen' : List Key) (k : Key)
    → ((k : Key) → contains seen k ≡ true → contains seen' k ≡ true)
    → contains us k ≡ true
    → contains seen k ≡ false
    → contains seen' k ≡ true
    → unseen us seen' < unseen us seen
unfolding unseen contains
unseen_falls [] seen seen' k h listed new now = absurd (cc listed)
unseen_falls (u ∷ us) seen seen' k h listed new now = elim (Bool-cases (bytes_eq u k)) [
  | inl same ↦
      let alike : u ≡ k = (bytes_eq_iff u k).0 same in
      let before : contains seen u ≡ false = ap (contains seen) alike ∙ new in
      let after : contains seen' u ≡ true = ap (contains seen') alike ∙ now in
      rw (before, after) (omega (arith, unseen_mono us seen seen' h))
  | inr other ↦
      ground (arith, h u, unseen_falls us seen seen' k h (ground (arith, listed, other)) new now)
]

module _ {E : Type 0} (visit : Key → Result E (List Key)) (root : Key) (univ : List Key) where
  -- A round after which keys are queued has seen a key more.
  progress :
      (rounds : ℕ) (v v1 : Visited) (lists : List (List Key)) (j : Key) (js : List Key)
      → v1 ≡ add_lists (record v { next = [] }) lists
      → ((k : Key) → Reaches visit root k → contains univ k ≡ true)
      → IsWalk visit root v1
      → v1.next ≡ j ∷ js
      → unseen univ v1.seen < unseen univ v.seen
  unfolding contains
  progress rounds v v1 lists j js made all w1 e =
      let v0 : Visited = record v { next = [] } in
      let queued : contains v1.next j ≡ true =
        ap (λ l. contains l j) e ∙ ground (arith, bytes_eq_refl j) in
      let next : contains v1.next j ≡ (in_any lists j && not (contains v.seen j)) =
        ap (λ t. contains t.next j) made ∙ add_lists-next v0 lists j in
      let now : contains v1.seen j ≡ true = w1.queued j queued in
      let mono : (k : Key) → contains v.seen k ≡ true → contains v1.seen k ≡ true = λ k seen.
        ap (λ t. contains t.seen k) made ∙ add_lists-seen v0 lists k ∙ ground (arith, seen) in
      unseen_falls univ v.seen v1.seen j mono (all j (w1.sound j now))
        (ground (arith, queued, next)) now

  walk-ends :
      (rounds : ℕ) (v : Visited)
      → ((k : Key) → Reaches visit root k → contains univ k ≡ true)
      → IsWalk visit root v
      → ((v.next ≡ []) × (1 ≤ rounds)) ⊎ (unseen univ v.seen + 2 ≤ rounds)
      → (r : Result E (List Key)) × (walk visit rounds v ≡ some r)
  unfolding walk on_frontier after_fetch
  walk-ends zero v all w (inl (empty, few)) = absurd (omega arith)
  walk-ends zero v all w (inr few) = absurd (omega arith)
  walk-ends (suc rounds) v all w enough = elim (List-cases v.next) [
    | inl empty ↦ (ok v.out, ap (on_frontier visit (walk visit rounds) v) empty)
    | inr (k, ks, e) ↦
        let v0 : Visited = record v { next = [] } in
        let left : unseen univ v.seen + 2 ≤ suc rounds = not_empty k ks e enough in
        elim (Result-cases (fetch visit (k ∷ ks))) [
          | inr (er, failed) ↦ (
            err er,
            ap (on_frontier visit (walk visit rounds) v) e
                ∙ ap (after_fetch visit (walk visit rounds) v0) failed,
          )
          | inl (lists, fetched) ↦
              let v1 : Visited = add_lists v0 lists in
              let w1 : IsWalk visit root v1 =
                round-IsWalk visit root v lists (ap (fetch visit) e ∙ fetched) w in
              let (r, run) = walk-ends rounds v1 all w1 (elim (List-cases v1.next) [
                | inl none_left ↦ inl (none_left, omega (arith, left))
                | inr (j, js, e1) ↦
                    inr (omega (arith, left, progress rounds v v1 lists j js refl all w1 e1))
              ]) in
              (
                r,
                ap (on_frontier visit (walk visit rounds) v) e
                    ∙ ap (after_fetch visit (walk visit rounds) v0) fetched
                    ∙ run,
              )
        ]
  ]
    where
      not_empty :
          (k : Key) (ks : List Key)
          → v.next ≡ k ∷ ks
          → ((v.next ≡ []) × (1 ≤ suc rounds)) ⊎ (unseen univ v.seen + 2 ≤ suc rounds)
          → unseen univ v.seen + 2 ≤ suc rounds
      not_empty k ks e (inl (empty, few)) = absurd (cc (e, empty))
      not_empty k ks e (inr h) = h

  pub walk-returns :
      (rounds : ℕ)
      → ((k : Key) → Reaches visit root k → contains univ k ≡ true)
      → length univ + 2 ≤ rounds
      → (r : Result E (List Key)) × (walk visit rounds (start root) ≡ some r)
  walk-returns rounds all enough =
      walk-ends rounds (start root) all (start-IsWalk visit root)
        (inr (omega (arith, unseen-le univ (root ∷ []))))
