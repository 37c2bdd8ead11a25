-- ===== src/Gc/Marking.antt =====
-- What the mark of gc/collector.go keeps true while it walks, and what it has marked at the end.
use amber_store.Prelude.{
  or_cases, ◌≡◌, sym, ◌∙◌, ap, subst, arith, Bool, true, ◌||◌, ◌⊎◌, inl, inr, Option, List, [], ◌∷◌,
  Bytes, bytes_eq, bytes_eq_iff, contains, ok, Bool-cases, ok-injective,
}
use amber_store.Key.{Key}
use amber_store.Key.Fields.{IsArray32}
use amber_store.Fstree.{Cbor}
use amber_store.Fstree.Walk.{fetch_children}
use amber_store.Fstree.Walk.Round.{Reaches, here, step}
use amber_store.Fstree.Walk.Reached.{IsNamedFrom}
use amber_store.Packstore.Filter.{FuseLibrary}
use amber_store.Packstore.Marks.{MarkSet, is_marked}
use amber_store.Packstore.Marks.Marked.{IsMarkable, Marks}
use amber_store.Gc.{push_all}

pub contains-push_all :
    (stack ks : List Key) (j : Key)
    → contains (push_all stack ks) j ≡ (contains stack j || contains ks j)
unfolding push_all contains
contains-push_all stack [] j = ground arith
contains-push_all stack (k ∷ ks) j = ground (arith, contains-push_all (k ∷ stack) ks j)

-- The keys that the roots reach, through the children of the objects that are read.
abbrev pub IsReached : Cbor → (Key → Option Bytes) → List Key → Key → Type 0
IsReached c get roots k =
    (root : Key) × (contains roots root ≡ true) × Reaches (fetch_children c get) root k

-- The keys that the objects which can be read name, from the roots on.
abbrev pub IsNamedBy : Cbor → (Key → Option Bytes) → List Key → Key → Type 0
IsNamedBy c get roots k = (root : Key) × (contains roots root ≡ true) × IsNamedFrom c get root k

-- The children of an object are arrays of 32 bytes.
abbrev pub ReadsArrays : Cbor → (Key → Option Bytes) → Type 0
ReadsArrays c get =
    (k j : Key) (ks : List Key)
    → fetch_children c get k ≡ ok ks
    → contains ks j ≡ true
    → IsArray32 j

pub single : (root j : Key) → contains (root ∷ []) j ≡ true → root ≡ j
unfolding contains
single root j h = ground (arith, h, bytes_eq_iff root j)

pub unlisted : (j : Key) → contains [] j ≡ true → ⊥
unfolding contains
unlisted j h = cc h

module _ (x : FuseLibrary) (c : Cbor) (get : Key → Option Bytes) (roots : List Key) where
  -- Marked, or on the stack.
  abbrev pub IsSeen : MarkSet → List Key → Key → Type 0
  IsSeen m stack j = (is_marked x m j ≡ true) ⊎ (contains stack j ≡ true)

  pub record IsMarking (m : MarkSet) (stack done : List Key) : Type 0 where
    pub markable : IsMarkable x m
    pub arrays : (j : Key) → contains stack j ≡ true → IsArray32 j
    pub stacked : (j : Key) → contains stack j ≡ true → IsReached c get roots j
    pub sound : (j : Key) → IsArray32 j → is_marked x m j ≡ true → IsReached c get roots j
    pub read :
        (k : Key)
        → IsArray32 k
        → is_marked x m k ≡ true
        → (ks : List Key) × (fetch_children c get k ≡ ok ks)
    pub closed :
        (k j : Key) (ks : List Key)
        → IsArray32 k
        → is_marked x m k ≡ true
        → fetch_children c get k ≡ ok ks
        → contains ks j ≡ true
        → IsSeen m stack j
    pub covered : (j : Key) → contains done j ≡ true → IsSeen m stack j

  was_marked :
      (m m' : MarkSet) (k i : Key)
      → is_marked x m' i ≡ (is_marked x m i || bytes_eq k i)
      → is_marked x m' i ≡ true
      → (is_marked x m i ≡ true) ⊎ (k ≡ i)
  was_marked m m' k i h marked = elim (or_cases (is_marked x m i) (bytes_eq k i) (sym h ∙ marked)) [
    | inl old ↦ inl old
    | inr same ↦ inr ((bytes_eq_iff k i).0 same)
  ]

  -- What was marked or on the stack stays so when the top is marked.
  IsSeen-again :
      (m m' : MarkSet) (k : Key) (stack stack' : List Key) (j : Key)
      → ((i : Key) → IsArray32 i → is_marked x m i ≡ true → is_marked x m' i ≡ true)
      → ((i : Key) → contains stack i ≡ true → contains stack' i ≡ true)
      → IsArray32 j
      → is_marked x m' k ≡ true
      → IsSeen m (k ∷ stack) j
      → IsSeen m' stack' j
  unfolding contains
  IsSeen-again m m' k stack stack' j keeps grows array top seen = elim seen [
    | inl marked ↦ inl (keeps j array marked)
    | inr listed ↦ elim (Bool-cases (bytes_eq k j)) [
      | inl same ↦
          inl (subst (λ (i : Key). is_marked x m' i ≡ true) ((bytes_eq_iff k j).0 same) top)
      | inr other ↦ inr (grows j (ground (arith, listed, other)))
    ]
  ]

  -- Marking the top of the stack, with its children on the stack unless it was marked before.
  pub marked-IsMarking :
      (m m' : MarkSet) (k : Key) (stack done ks pushed : List Key) (newly : Bool)
      → ReadsArrays c get
      → ((j : Key) → contains done j ≡ true → IsArray32 j)
      → IsMarking m (k ∷ stack) done
      → Marks x m k m' newly true
      → fetch_children c get k ≡ ok ks
      → ((j : Key) → contains pushed j ≡ true → contains ks j ≡ true)
      → (is_marked x m k ≡ true) ⊎ ((j : Key) → contains ks j ≡ true → contains pushed j ≡ true)
      → IsMarking m' (push_all stack pushed) done
  unfolding contains
  marked-IsMarking m m' k stack done ks pushed newly arr done_arrays h marks fetched among pushes =
      let array : IsArray32 k = h.arrays k (ground (arith, bytes_eq_iff k k)) in
      let reached : IsReached c get roots k = h.stacked k (ground (arith, bytes_eq_iff k k)) in
      let top : is_marked x m' k ≡ true = ground (arith, marks.marks k array, bytes_eq_iff k k) in
      let keeps : (i : Key) → IsArray32 i → is_marked x m i ≡ true → is_marked x m' i ≡ true =
        λ i a marked. ground (arith, marks.marks i a, marked) in
      let grows : (i : Key) → contains stack i ≡ true → contains (push_all stack pushed) i ≡ true =
        λ i listed. ground (arith, contains-push_all stack pushed i, listed) in
      let cases : (i : Key)
          → IsArray32 i
          → is_marked x m' i ≡ true
          → (is_marked x m i ≡ true) ⊎ (k ≡ i) =
        λ i a marked. was_marked m m' k i (marks.marks i a) marked in
      record {
        markable = marks.markable;
        arrays = λ j listed.
            elim (or_cases (contains stack j) (contains pushed j)
              (sym (contains-push_all stack pushed j) ∙ listed)) [
                | inl old ↦ h.arrays j (ground (arith, old))
                | inr new ↦ arr k j ks fetched (among j new)
              ];
        stacked = λ j listed.
            elim (or_cases (contains stack j) (contains pushed j)
              (sym (contains-push_all stack pushed j) ∙ listed)) [
                | inl old ↦ h.stacked j (ground (arith, old))
                | inr new ↦
                    let (root, is_root, path) = reached in
                    (root, is_root, step ks path fetched (among j new))
              ];
        sound = λ j a marked. elim (cases j a marked) [
          | inl old ↦ h.sound j a old
          | inr same ↦ subst (IsReached c get roots) same reached
        ];
        read = λ j a marked. elim (cases j a marked) [
          | inl old ↦ h.read j a old
          | inr same ↦ (ks, ap (fetch_children c get) (sym same) ∙ fetched)
        ];
        closed = λ i j is a marked fetched_i there. elim (cases i a marked) [
          | inl old ↦
              IsSeen-again m m' k stack (push_all stack pushed) j keeps grows
                (arr i j is fetched_i there) top (h.closed i j is a old fetched_i there)
          | inr same ↦
              let at_k : fetch_children c get k ≡ ok is =
                ap (fetch_children c get) same ∙ fetched_i in
              elim pushes [
                | inl before ↦
                    IsSeen-again m m' k stack (push_all stack pushed) j keeps grows
                      (arr i j is fetched_i there) top (h.closed k j is array before at_k there)
                | inr all ↦
                    let alike : is ≡ ks = ok-injective (sym at_k ∙ fetched) in
                    let listed : contains pushed j ≡ true =
                      all j (subst (λ (l : List Key). contains l j ≡ true) alike there) in
                    inr (ground (arith, contains-push_all stack pushed j, listed))
              ]
        ];
        covered = λ j is_done.
            IsSeen-again m m' k stack (push_all stack pushed) j keeps grows (done_arrays j is_done)
              top (h.covered j is_done);
      }

  IsSeen-marked : (m : MarkSet) (stack : List Key) (j : Key) → IsSeen m [] j → IsSeen m stack j
  IsSeen-marked m stack j seen = elim seen [
    | inl marked ↦ inl marked
    | inr listed ↦ absurd (unlisted j listed)
  ]

  -- A further root is put on the empty stack.
  pub root-IsMarking :
      (m : MarkSet) (root : Key) (done : List Key)
      → IsArray32 root
      → contains roots root ≡ true
      → IsMarking m [] done
      → IsMarking m (root ∷ []) (root ∷ done)
  unfolding contains
  root-IsMarking m root done array is_root h = record {
    markable = h.markable;
    arrays = λ j listed. subst IsArray32 (single root j listed) array;
    stacked =
        λ j listed. subst (IsReached c get roots) (single root j listed) (root, is_root, here);
    sound = h.sound;
    read = h.read;
    closed = λ k j ks a marked fetched there.
        IsSeen-marked m (root ∷ []) j (h.closed k j ks a marked fetched there);
    covered = λ j listed. elim (or_cases (bytes_eq root j) (contains done j) listed) [
      | inl same ↦ inr (ground (arith, same))
      | inr is_done ↦ IsSeen-marked m (root ∷ []) j (h.covered j is_done)
    ];
  }
