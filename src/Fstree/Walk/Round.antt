-- ===== src/Fstree/Walk/Round.antt =====
-- One round of the walk: what is seen, queued and fetched by it.
use amber_store.Prelude.{
  ◌≡◌, refl, sym, ◌∙◌, ap, arith, Bool, true, false, not, ◌||◌, ◌&&◌, ◌⊎◌, inl, inr, Option, some,
  List, [], ◌∷◌, ◌++◌, Bool-cases, bytes_eq, bytes_eq_iff, bytes_eq_refl, contains, contains-append,
  Result, ok, err, Result-cases, >>=-eq-ok, ok-injective,
}
use amber_store.Key.{Key}
use amber_store.Fstree.Walk.{Visited, add_key, add_keys, add_lists, fetch, after_fetch, on_frontier}

-- The walks from the root.
pub data Reaches {E : Type 0} (visit : Key → Result E (List Key)) (root : Key) : Key → Type 0 where
  here : Reaches visit root root
  step :
      {k j : Key} (ks : List Key)
      → Reaches visit root k
      → visit k ≡ ok ks
      → contains ks j ≡ true
      → Reaches visit root j

unfoldable pub in_any : List (List Key) → Key → Bool
in_any [] k = false
in_any (ks ∷ lists) k = contains ks k || in_any lists k

-- The result lists what is seen.
abbrev pub Lists : Visited → Type 0
Lists v = (k : Key) → contains v.out k ≡ contains v.seen k

add_key-seen :
    (v : Visited) (j k : Key) → contains (add_key v j).seen k ≡ (contains v.seen k || bytes_eq j k)
unfolding add_key contains
add_key-seen v j k = ground (arith, bytes_eq_iff j k)

pub add_keys-seen :
    (v : Visited) (ks : List Key) (k : Key)
    → contains (add_keys v ks).seen k ≡ (contains v.seen k || contains ks k)
unfolding add_keys contains
add_keys-seen v [] k = ground arith
add_keys-seen v (j ∷ ks) k = ground (arith, add_keys-seen (add_key v j) ks k, add_key-seen v j k)

pub add_lists-seen :
    (v : Visited) (lists : List (List Key)) (k : Key)
    → contains (add_lists v lists).seen k ≡ (contains v.seen k || in_any lists k)
unfolding add_lists in_any
add_lists-seen v [] k = ground arith
add_lists-seen v (ks ∷ lists) k =
    ground (arith, add_lists-seen (add_keys v ks) lists k, add_keys-seen v ks k)

add_key-next :
    (v : Visited) (j k : Key)
    → contains (add_key v j).next k
      ≡ (contains v.next k || (bytes_eq j k && not (contains v.seen k)))
unfolding add_key contains
add_key-next v j k = ground (arith, bytes_eq_iff j k, contains-append v.next (j ∷ []) k)

add_keys-next :
    (v : Visited) (ks : List Key) (k : Key)
    → contains (add_keys v ks).next k
      ≡ (contains v.next k || (contains ks k && not (contains v.seen k)))
unfolding add_keys contains
add_keys-next v [] k = ground arith
add_keys-next v (j ∷ ks) k =
    ground (arith, add_keys-next (add_key v j) ks k, add_key-next v j k, add_key-seen v j k)

-- Exactly the children that were not seen are queued.
pub add_lists-next :
    (v : Visited) (lists : List (List Key)) (k : Key)
    → contains (add_lists v lists).next k
      ≡ (contains v.next k || (in_any lists k && not (contains v.seen k)))
unfolding add_lists in_any
add_lists-next v [] k = ground arith
add_lists-next v (ks ∷ lists) k =
    ground
      (arith, add_lists-next (add_keys v ks) lists k, add_keys-next v ks k, add_keys-seen v ks k)

add_key-Lists : (v : Visited) (j : Key) → Lists v → Lists (add_key v j)
unfolding add_key contains
add_key-Lists v j h k = ground (arith, h k, contains-append v.out (j ∷ []) k)

add_keys-Lists : (v : Visited) (ks : List Key) → Lists v → Lists (add_keys v ks)
unfolding add_keys
add_keys-Lists v [] h = h
add_keys-Lists v (k ∷ ks) h = add_keys-Lists (add_key v k) ks (add_key-Lists v k h)

pub add_lists-Lists : (v : Visited) (lists : List (List Key)) → Lists v → Lists (add_lists v lists)
unfolding add_lists
add_lists-Lists v [] h = h
add_lists-Lists v (ks ∷ lists) h = add_lists-Lists (add_keys v ks) lists (add_keys-Lists v ks h)

-- No key twice.
abbrev pub AreOnce : List Key → Type 0
AreOnce [] = Unit {0}
AreOnce (k ∷ ks) = (contains ks k ≡ false) × AreOnce ks

AreOnce-append :
    (ks : List Key) (j : Key) → contains ks j ≡ false → AreOnce ks → AreOnce (ks ++ (j ∷ []))
unfolding contains
AreOnce-append [] j h once = (refl, tt)
AreOnce-append (k ∷ ks) j h (fresh, once) = (
  ground (arith, contains-append ks (j ∷ []) k, bytes_eq_iff k j, bytes_eq_iff j k),
  AreOnce-append ks j (ground (arith, h)) once,
)

add_key-AreOnce : (v : Visited) (j : Key) → Lists v → AreOnce v.out → AreOnce (add_key v j).out
unfolding add_key
add_key-AreOnce v j same h = elim (Bool-cases (contains v.seen j)) [
  | inl old ↦ rw old h
  | inr new ↦ rw new (AreOnce-append v.out j (same j ∙ new) h)
]

add_keys-AreOnce :
    (v : Visited) (ks : List Key) → Lists v → AreOnce v.out → AreOnce (add_keys v ks).out
unfolding add_keys
add_keys-AreOnce v [] same h = h
add_keys-AreOnce v (k ∷ ks) same h =
    add_keys-AreOnce (add_key v k) ks (add_key-Lists v k same) (add_key-AreOnce v k same h)

pub add_lists-AreOnce :
    (v : Visited) (lists : List (List Key))
    → Lists v
    → AreOnce v.out
    → AreOnce (add_lists v lists).out
unfolding add_lists
add_lists-AreOnce v [] same h = h
add_lists-AreOnce v (ks ∷ lists) same h =
    add_lists-AreOnce (add_keys v ks) lists (add_keys-Lists v ks same)
      (add_keys-AreOnce v ks same h)

module _ {E : Type 0} (visit : Key → Result E (List Key)) where
  -- Whatever was fetched is a child of an object of the frontier.
  pub fetch-parent :
      (ks : List Key) (lists : List (List Key)) (j : Key)
      → fetch visit ks ≡ ok lists
      → in_any lists j ≡ true
      → (k : Key) × (children : List Key) × (contains ks k ≡ true)
        × (visit k ≡ ok children)
        × (contains children j ≡ true)
  unfolding fetch in_any contains
  fetch-parent [] lists j h any =
      let empty : [] ≡ lists = ok-injective h in absurd (cc (any, ap (λ l. in_any l j) empty))
  fetch-parent (k ∷ ks) lists j h any =
      let (children, found, later) = >>=-eq-ok (visit k) _ h in
      let (rest, fetched, made) = >>=-eq-ok (fetch visit ks) _ later in
      let same : children ∷ rest ≡ lists = ok-injective made in
      elim (Bool-cases (contains children j)) [
        | inl mine ↦ (k, children, ground (arith, bytes_eq_refl k), found, mine)
        | inr other ↦
            let deeper : in_any rest j ≡ true =
              ground (arith, any, other, ap (λ l. in_any l j) same) in
            let (p, cs, queued, visited, child) = fetch-parent ks rest j fetched deeper in
            (p, cs, ground (arith, queued), visited, child)
      ]

  -- Every object of the frontier was fetched, and its children are in the lists.
  pub fetch-children :
      (ks : List Key) (lists : List (List Key)) (k : Key)
      → fetch visit ks ≡ ok lists
      → contains ks k ≡ true
      → (children : List Key) × (visit k ≡ ok children)
        × ((j : Key) → contains children j ≡ true → in_any lists j ≡ true)
  unfolding fetch in_any contains
  fetch-children [] lists k h queued = absurd (cc queued)
  fetch-children (i ∷ ks) lists k h queued =
      let (children, found, later) = >>=-eq-ok (visit i) _ h in
      let (rest, fetched, made) = >>=-eq-ok (fetch visit ks) _ later in
      let same : children ∷ rest ≡ lists = ok-injective made in
      elim (Bool-cases (bytes_eq i k)) [
        | inl mine ↦
            let alike : i ≡ k = (bytes_eq_iff i k).0 mine in
            (
              children,
              ap visit (sym alike) ∙ found,
              λ j child. ground (arith, child, ap (λ l. in_any l j) same),
            )
        | inr other ↦
            let (cs, visited, among) =
              fetch-children ks rest k fetched (ground (arith, queued, other)) in
            (cs, visited, λ j child. ground (arith, among j child, ap (λ l. in_any l j) same))
      ]

  -- A failure is that of an object of the frontier.
  pub fetch-failed :
      (ks : List Key) (e : E)
      → fetch visit ks ≡ err e
      → (k : Key) × (contains ks k ≡ true) × (visit k ≡ err e)
  unfolding fetch contains
  fetch-failed [] e h = absurd (cc h)
  fetch-failed (k ∷ ks) e h = elim (Result-cases (visit k)) [
    | inr (e', failed) ↦ (k, ground (arith, bytes_eq_refl k), ground (arith, failed, h))
    | inl (children, found) ↦ elim (Result-cases (fetch visit ks)) [
      | inl (rest, fetched) ↦ absurd (ground (arith, found, fetched, h))
      | inr (e', failed) ↦
          let (p, queued, bad) = fetch-failed ks e' failed in
          (p, ground (arith, queued), bad ∙ ground (arith, found, failed, h))
    ]
  ]

  -- A round ends the walk, or fails, or goes on.
  pub on_frontier_inv :
      (loop : Visited → Option (Result E (List Key))) (v : Visited) (r : Result E (List Key))
      → on_frontier visit loop v v.next ≡ some r
      → ((v.next ≡ []) × (ok v.out ≡ r))
        ⊎ (((e : E) × (fetch visit v.next ≡ err e) × (err e ≡ r))
            ⊎ ((lists : List (List Key)) × (fetch visit v.next ≡ ok lists)
                × (loop (add_lists (record v { next = [] }) lists) ≡ some r)))
  unfolding on_frontier after_fetch
  on_frontier_inv loop v r run = frontier v.next refl run
    where
      Outcome : List Key → Type 0
      Outcome next =
          ((next ≡ []) × (ok v.out ≡ r))
          ⊎ (((e : E) × (fetch visit next ≡ err e) × (err e ≡ r))
              ⊎ ((lists : List (List Key)) × (fetch visit next ≡ ok lists)
                  × (loop (add_lists (record v { next = [] }) lists) ≡ some r)))

      fetched :
          (k : Key) (ks : List Key) (lists : Result E (List (List Key)))
          → fetch visit (k ∷ ks) ≡ lists
          → after_fetch visit loop (record v { next = [] }) lists ≡ some r
          → Outcome (k ∷ ks)
      fetched k ks (err e) f h = inr (inl (e, f, cc h))
      fetched k ks (ok lists) f h = inr (inr (lists, f, h))

      frontier :
          (next : List Key) → v.next ≡ next → on_frontier visit loop v next ≡ some r → Outcome next
      frontier [] e h = inl (refl, cc h)
      frontier (k ∷ ks) e h = fetched k ks (fetch visit (k ∷ ks)) refl h
