-- ===== src/Fstree/Walk/Correct.antt =====
-- What the walk returns: exactly the keys that the root reaches.
use amber_store.Prelude.{
  ℕ, zero, suc, ◌≡◌, refl, sym, subst, ◌∙◌, ap, arith, true, ◌||◌, ◌⊎◌, inl, inr, some, List, [],
  ◌∷◌, ◌++◌, Bool-cases, bytes_eq_iff, bytes_eq_refl, contains, append-nil, append_assoc, Result,
  ok, err, ok-injective,
}
use amber_store.Key.{Key}
use amber_store.Fstree.Walk.{Visited, add_key, add_keys, add_lists, fetch, walk, start}
use amber_store.Fstree.Walk.Round.{
  Reaches, here, step, in_any, Lists, AreOnce, add_lists-seen, add_lists-next, add_lists-Lists,
  add_lists-AreOnce, fetch-parent, fetch-children, fetch-failed, on_frontier_inv,
}

add_key-out : (v : Visited) (k : Key) → (more : List Key) × ((add_key v k).out ≡ v.out ++ more)
unfolding add_key
add_key-out v k = elim (Bool-cases (contains v.seen k)) [
  | inl old ↦ rw old ([], sym (append-nil v.out))
  | inr new ↦ rw new (k ∷ [], refl)
]

add_keys-out :
    (v : Visited) (ks : List Key) → (more : List Key) × ((add_keys v ks).out ≡ v.out ++ more)
unfolding add_keys
add_keys-out v [] = ([], sym (append-nil v.out))
add_keys-out v (k ∷ ks) =
    let (one, first) = add_key-out v k in
    let (more, later) = add_keys-out (add_key v k) ks in
    (one ++ more, later ∙ ap (λ l. l ++ more) first ∙ append_assoc v.out one more)

add_lists-out :
    (v : Visited) (lists : List (List Key))
    → (more : List Key) × ((add_lists v lists).out ≡ v.out ++ more)
unfolding add_lists
add_lists-out v [] = ([], sym (append-nil v.out))
add_lists-out v (ks ∷ lists) =
    let (one, first) = add_keys-out v ks in
    let (more, later) = add_lists-out (add_keys v ks) lists in
    (one ++ more, later ∙ ap (λ l. l ++ more) first ∙ append_assoc v.out one more)

module _ {E : Type 0} (visit : Key → Result E (List Key)) (root : Key) where
  -- An object that was visited, with children among the keys.
  abbrev pub IsClosed : List Key → Key → Type 0
  IsClosed keys k =
      (ks : List Key) × (visit k ≡ ok ks)
      × ((j : Key) → contains ks j ≡ true → contains keys j ≡ true)

  pub record IsWalk (v : Visited) : Type 0 where
    pub first : (rest : List Key) × (v.out ≡ root ∷ rest)
    pub same : Lists v
    pub once : AreOnce v.out
    pub sound : (k : Key) → contains v.seen k ≡ true → Reaches visit root k
    pub queued : (k : Key) → contains v.next k ≡ true → contains v.seen k ≡ true
    pub closed :
        (k : Key) → contains v.seen k ≡ true → (contains v.next k ≡ true) ⊎ IsClosed v.seen k

  pub start-IsWalk : IsWalk (start root)
  unfolding contains
  start-IsWalk = record {
    first = ([], refl);
    same = λ k. refl;
    once = (refl, tt);
    sound = λ k h.
        let alike : root ≡ k = ground (arith, h, bytes_eq_iff root k) in
        subst (Reaches visit root) alike here;
    queued = λ k h. h;
    closed = λ k h. inl h;
  }

  -- A round keeps the invariant.
  pub round-IsWalk :
      (v : Visited) (lists : List (List Key))
      → fetch visit v.next ≡ ok lists
      → IsWalk v
      → IsWalk (add_lists (record v { next = [] }) lists)
  unfolding contains
  round-IsWalk v lists fetched w =
      let (more, extended) = add_lists-out v' lists in
      let (rest, begins) = w.first in
      record {
        first = (rest ++ more, extended ∙ ap (λ l. l ++ more) begins);
        same = add_lists-Lists v' lists w.same;
        once = add_lists-AreOnce v' lists w.same w.once;
        sound = λ k seen. sound_after k (sym (add_lists-seen v' lists k) ∙ seen);
        queued = queued_after;
        closed = λ k seen. closed_after k (sym (add_lists-seen v' lists k) ∙ seen);
      }
    where
      sound_after : (k : Key) → (contains v.seen k || in_any lists k) ≡ true → Reaches visit root k
      sound_after k h = elim (Bool-cases (contains v.seen k)) [
        | inl old ↦ w.sound k old
        | inr new ↦
            let (p, children, waiting, visited, child) =
              fetch-parent visit v.next lists k fetched (ground (arith, h, new)) in
            step children (w.sound p (w.queued p waiting)) visited child
      ]

      v' : Visited
      v' = record v { next = [] }

      queued_after :
          (k : Key)
          → contains (add_lists v' lists).next k ≡ true
          → contains (add_lists v' lists).seen k ≡ true
      queued_after k h = ground (arith, h, add_lists-next v' lists k, add_lists-seen v' lists k)

      in_seen :
          (ks : List Key)
          → ((j : Key) → contains ks j ≡ true → (contains v.seen j || in_any lists j) ≡ true)
          → (j : Key) → contains ks j ≡ true
          → contains (add_lists v' lists).seen j ≡ true
      in_seen ks among j child = add_lists-seen v' lists j ∙ among j child

      closed_after :
          (k : Key)
          → (contains v.seen k || in_any lists k) ≡ true
          → (contains (add_lists v' lists).next k ≡ true) ⊎ IsClosed (add_lists v' lists).seen k
      closed_after k h = elim (Bool-cases (contains v.seen k)) [
        | inr new ↦ inl (ground (arith, h, new, add_lists-next v' lists k))
        | inl old ↦ elim (w.closed k old) [
          | inl waiting ↦
              let (cs, visited, among) = fetch-children visit v.next lists k fetched waiting in
              inr (cs, visited, in_seen cs (λ j child. ground (arith, among j child)))
          | inr (cs, visited, before) ↦
              inr (cs, visited, in_seen cs (λ j child. ground (arith, before j child)))
        ]
      ]

  walk-IsWalk :
      (rounds : ℕ) (v : Visited) (out : List Key)
      → IsWalk v
      → walk visit rounds v ≡ some (ok out)
      → (w : Visited) × IsWalk w × (w.next ≡ []) × (w.out ≡ out)
  unfolding walk
  walk-IsWalk zero v out w h = absurd (cc h)
  walk-IsWalk (suc rounds) v out w h =
      elim (on_frontier_inv visit (walk visit rounds) v (ok out) h) [
        | inl (empty, same) ↦ (v, w, empty, ok-injective same)
        | inr (inl (e, failed, same)) ↦ absurd (cc same)
        | inr (inr (lists, fetched, run)) ↦
            walk-IsWalk rounds (add_lists (record v { next = [] }) lists) out
              (round-IsWalk v lists fetched w) run
      ]

  -- A failure is that of an object that the root reaches.
  pub walk-failed :
      (rounds : ℕ) (v : Visited) (e : E)
      → IsWalk v
      → walk visit rounds v ≡ some (err e)
      → (k : Key) × Reaches visit root k × (visit k ≡ err e)
  unfolding walk
  walk-failed zero v e w h = absurd (cc h)
  walk-failed (suc rounds) v e w h = elim (on_frontier_inv visit (walk visit rounds) v (err e) h) [
    | inl (empty, same) ↦ absurd (cc same)
    | inr (inl (e', failed, same)) ↦
        let (k, waiting, bad) = fetch-failed visit v.next e' failed in
        let alike : e' ≡ e = cc same in (k, w.sound k (w.queued k waiting), bad ∙ ap err alike)
    | inr (inr (lists, fetched, run)) ↦
        walk-failed rounds (add_lists (record v { next = [] }) lists) e
          (round-IsWalk v lists fetched w) run
  ]

  -- With nothing queued, what the root reaches was seen, and was visited.
  reached-seen :
      (w : Visited)
      → IsWalk w
      → w.next ≡ []
      → {k : Key} → Reaches visit root k
      → contains w.seen k ≡ true
  unfolding contains
  reached-seen w h empty here =
      let (rest, begins) = h.first in
      sym (h.same root) ∙ ap (λ l. contains l root) begins ∙ ground (arith, bytes_eq_refl root)
  reached-seen w h empty (step {k} {j} ks path visited child) =
      elim (h.closed k (reached-seen w h empty path)) [
        | inl waiting ↦ absurd (cc (waiting, ap (λ l. contains l k) empty))
        | inr (cs, found, among) ↦
            let same : ks ≡ cs = ok-injective (sym visited ∙ found) in
            among j (sym (ap (λ l. contains l j) same) ∙ child)
      ]

  -- The keys that a walk returned: the root first, no key twice, and a key is among them exactly if the
  -- root reaches it; every one of them was visited.
  pub record IsClosure (out : List Key) : Type 0 where
    pub root_first : (rest : List Key) × (out ≡ root ∷ rest)
    pub distinct : AreOnce out
    pub reached : (k : Key) → contains out k ≡ true → Reaches visit root k
    pub whole : (k : Key) → Reaches visit root k → contains out k ≡ true
    pub visited : (k : Key) → contains out k ≡ true → (ks : List Key) × (visit k ≡ ok ks)

  pub walk-IsClosure :
      (rounds : ℕ) (out : List Key) → walk visit rounds (start root) ≡ some (ok out) → IsClosure out
  unfolding contains
  walk-IsClosure rounds out h =
      let (w, inv, empty, same) = walk-IsWalk rounds (start root) out start-IsWalk h in
      let alike : (k : Key) → contains out k ≡ contains w.seen k =
        λ k. sym (ap (λ l. contains l k) same) ∙ inv.same k in
      record {
        root_first = let (rest, begins) = inv.first in (rest, sym same ∙ begins);
        distinct = subst AreOnce same inv.once;
        reached = λ k listed. inv.sound k (sym (alike k) ∙ listed);
        whole = λ k path. alike k ∙ reached-seen w inv empty path;
        visited = λ k listed. elim (inv.closed k (sym (alike k) ∙ listed)) [
          | inl waiting ↦ absurd (cc (waiting, ap (λ l. contains l k) empty))
          | inr (cs, found, among) ↦ (cs, found)
        ];
      }
