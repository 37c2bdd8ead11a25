-- ===== src/Fstree/Walk/Reached.antt =====
-- What the walks of fstree/reachable.go and fstree/checkcomplete.go list, against the keys that the
-- objects name.
use amber_store.Prelude.{
  ◌≡◌, ◌↔◌, refl, sym, ◌∙◌, ap, subst, arith, Bool, true, false, ◌⊎◌, inl, inr, Option, none, some,
  List, [], contains, Bytes, Result, ok, wrap_inv, Bool-cases, ok-injective,
}
use amber_store.Key.{Key}
use amber_store.Fstree.{Cbor, is_leaf, child_keys}
use amber_store.Fstree.Named.{Names, no_leaf, child_keys-Names}
use amber_store.Fstree.Walk.{
  WalkError, bad_object, children_of, fetch_children, leaf_present, check_object,
}
use amber_store.Fstree.Walk.Round.{Reaches, here, step}
use amber_store.Fstree.Walk.Correct.{IsClosure}

module _ (c : Cbor) (get : Key → Option Bytes) where
  -- What a root reaches through the objects that can be read.
  pub data IsNamedFrom (root : Key) : Key → Type 0 where
    root_itself : IsNamedFrom root root
    named :
        {k j : Key} (b : Bytes)
        → IsNamedFrom root k
        → get k ≡ some b
        → Names c k b j
        → IsNamedFrom root j

  -- What a visit of an object returns: nothing of a leaf, the children of any other.
  abbrev Visits : Key → List Key → Type 0
  Visits k ks =
      ((is_leaf k ≡ true) × (ks ≡ []))
      ⊎ ((b : Bytes) × (get k ≡ some b) × (child_keys c k b ≡ ok ks))

  children_of-Visits :
      (k : Key) (o : Option Bytes) (ks : List Key)
      → children_of c get k o ≡ ok ks
      → (b : Bytes) × (o ≡ some b) × (child_keys c k b ≡ ok ks)
  unfolding children_of
  children_of-Visits k none ks h = absurd (cc h)
  children_of-Visits k (some b) ks h = (b, refl, wrap_inv bad_object (child_keys c k b) h)

  fetch_children-Visits : (k : Key) (ks : List Key) → fetch_children c get k ≡ ok ks → Visits k ks
  unfolding fetch_children
  fetch_children-Visits k ks h = elim (Bool-cases (is_leaf k)) [
    | inl leaf ↦ inl (leaf, sym (ok-injective {E = WalkError} (rw leaf at h)))
    | inr node ↦ inr (children_of-Visits k (get k) ks (rw node at h))
  ]

  leaf_present-empty :
      (has : Key → Option Bool) (k : Key) (o : Option Bool) (ks : List Key)
      → leaf_present c get has k o ≡ ok ks
      → ks ≡ []
  unfolding leaf_present
  leaf_present-empty has k none ks h = absurd (cc h)
  leaf_present-empty has k (some true) ks h = sym (ok-injective h)
  leaf_present-empty has k (some false) ks h = absurd (cc h)

  check_object-Visits :
      (has : Key → Option Bool) (k : Key) (ks : List Key)
      → check_object c get has k ≡ ok ks
      → Visits k ks
  unfolding check_object
  check_object-Visits has k ks h = elim (Bool-cases (is_leaf k)) [
    | inl leaf ↦ inl (leaf, leaf_present-empty has k (has k) ks (rw leaf at h))
    | inr node ↦ inr (children_of-Visits k (get k) ks (rw node at h))
  ]

  module _ (visit : Key → Result WalkError (List Key))
      (visits : (k : Key) (ks : List Key) → visit k ≡ ok ks → Visits k ks) (root : Key) where
    Reaches-named : (j : Key) → Reaches visit root j → IsNamedFrom root j
    unfolding contains
    Reaches-named root' here = root_itself
    Reaches-named j (step {k = k} ks path visited listed) = elim (visits k ks visited) [
      | inl (leaf, empty) ↦
          absurd (no_child (ap (λ (l : List Key). contains l j) (sym empty) ∙ listed))
      | inr (b, there, children) ↦
          named b (Reaches-named k path) there ((child_keys-Names c k b ks j children).0 listed)
    ]
      where
        no_child : false ≡ true → ⊥
        no_child e = cc e

    named-Reaches :
        ((k : Key) → Reaches visit root k → (ks : List Key) × (visit k ≡ ok ks))
        → (j : Key) → IsNamedFrom root j
        → Reaches visit root j
    named-Reaches all root' root_itself = here
    named-Reaches all j (named {k = k} b path there names) =
        let before : Reaches visit root k = named-Reaches all k path in
        let (ks, visited) = all k before in
        step ks before visited (listed k ks b there names (visits k ks visited))
      where
        listed :
            (k : Key) (ks : List Key) (b : Bytes)
            → get k ≡ some b
            → Names c k b j
            → Visits k ks
            → contains ks j ≡ true
        listed k ks b there names (inl (leaf, empty)) = absurd (no_leaf c k b j leaf names)
        listed k ks b there names (inr (b', there', children)) =
            (child_keys-Names c k b' ks j children).1
              (subst (λ (d : Bytes). Names c k d j) (same_some b b' there there') names)
          where
            same_some : (a a' : Bytes) → get k ≡ some a → get k ≡ some a' → a ≡ a'
            same_some a a' p q = ground (arith, p, q)

    -- The list of a walk has exactly the keys that are named from the root.
    IsClosure-named :
        (out : List Key)
        → IsClosure visit root out
        → (j : Key) → (contains out j ≡ true) ↔ IsNamedFrom root j
    IsClosure-named out w j = (
      λ listed. Reaches-named j (w.reached j listed),
      λ path. w.whole j (named-Reaches (λ k reached. w.visited k (w.whole k reached)) j path),
    )

  pub fetch_children-named :
      (root : Key) (out : List Key)
      → IsClosure (fetch_children c get) root out
      → (j : Key) → (contains out j ≡ true) ↔ IsNamedFrom root j
  fetch_children-named root out w =
      IsClosure-named (fetch_children c get) fetch_children-Visits root out w

  pub check_object-named :
      (has : Key → Option Bool) (root : Key) (out : List Key)
      → IsClosure (check_object c get has) root out
      → (j : Key) → (contains out j ≡ true) ↔ IsNamedFrom root j
  check_object-named has root out w =
      IsClosure-named (check_object c get has) (check_object-Visits has) root out w

  -- Where every object that is reached can be read, what is named is reached.
  pub named-fetch_children :
      (root : Key)
      → ((k : Key)
          → Reaches (fetch_children c get) root k
          → (ks : List Key) × (fetch_children c get k ≡ ok ks))
      → (j : Key) → IsNamedFrom root j
      → Reaches (fetch_children c get) root j
  named-fetch_children root all =
      named-Reaches (fetch_children c get) fetch_children-Visits root all
