-- ===== src/Fstree/Named.antt =====
-- The keys that an object of fstree/children.go names, read off its decoded body.
use amber_store.Prelude.{
  ◌<◌, ◌≡◌, ◌↔◌, sym, ◌∙◌, ap, arith, true, false, ◌&&◌, Option, none, some, List, [], ◌∷◌, ◌++◌,
  ltb, ◌==◌, length, bytes_eq, bytes_eq_iff, contains, contains-append, Bytes, ok, wrap, wrap_inv,
  >>=-eq-ok, ok-injective, ◌>>=◌, Bool-cases, inl, inr, ◌⊎◌,
}
use amber_store.Key.{Key, parse, type_of, file_node, dir_leaf, dir_node}
use amber_store.Key.Canonical.{parse_inv}
use amber_store.Fstree.{
  Entry, DirPair, Cbor, FsError, bad_child, decoded, parse_keys, optional_key, entry_keys,
  pair_keys, is_leaf, decode_file_node, decode_dir_leaf, decode_dir_node, child_keys,
}

abbrev pub pair_names : List DirPair → List Bytes
pair_names [] = []
pair_names (p ∷ ps) = p.child_key ∷ pair_names ps

abbrev pub entry_names : List Entry → List Bytes
entry_names [] = []
entry_names (e ∷ es) = e.content_key ∷ (e.xattrs_key ∷ entry_names es)

module _ (c : Cbor) where
  -- A file lists its parts, a directory node its children, a directory leaf the content and the
  -- attributes of its entries, where they are set. Nothing else names a key.
  pub data Names (k : Key) (b : Bytes) (j : Key) : Type 0 where
    part_of_file :
        (raw : List Bytes)
        → type_of k ≡ file_node
        → c.unmarshal_keys b ≡ some raw
        → contains raw j ≡ true
        → Names k b j
    child_of_node :
        (ps : List DirPair)
        → type_of k ≡ dir_node
        → c.unmarshal_pairs b ≡ some ps
        → contains (pair_names ps) j ≡ true
        → Names k b j
    key_of_entry :
        (es : List Entry)
        → type_of k ≡ dir_leaf
        → c.unmarshal_entries b ≡ some es
        → 0 < length j
        → contains (entry_names es) j ≡ true
        → Names k b j

parsed_same : (b : Bytes) (k : Key) → wrap bad_child (parse b) ≡ ok k → b ≡ k
parsed_same b k h = sym (parse_inv b k (wrap_inv bad_child (parse b) h)).2

parse_keys-names : (raw ks : List Bytes) → parse_keys raw ≡ ok ks → raw ≡ ks
unfolding parse_keys
parse_keys-names [] ks h = ok-injective h
parse_keys-names (r ∷ raw) ks h =
    let (k, first, h1) = >>=-eq-ok (wrap bad_child (parse r)) _ h in
    let (rest, later, h2) = >>=-eq-ok (parse_keys raw) _ h1 in
    ap (λ (i : Key). i ∷ raw) (parsed_same r k first)
    ∙ ap (λ (l : List Bytes). k ∷ l) (parse_keys-names raw rest later)
    ∙ ok-injective h2

pair_keys-names : (ps : List DirPair) (ks : List Key) → pair_keys ps ≡ ok ks → pair_names ps ≡ ks
unfolding pair_keys
pair_keys-names [] ks h = ok-injective h
pair_keys-names (p ∷ ps) ks h =
    let (k, first, h1) = >>=-eq-ok (wrap bad_child (parse p.child_key)) _ h in
    let (rest, later, h2) = >>=-eq-ok (pair_keys ps) _ h1 in
    ap (λ (i : Key). i ∷ pair_names ps) (parsed_same p.child_key k first)
    ∙ ap (λ (l : List Bytes). k ∷ l) (pair_keys-names ps rest later)
    ∙ ok-injective h2

optional_key-names :
    (b : Bytes) (ks : List Key) (j : Key)
    → optional_key b ≡ ok ks
    → contains ks j ≡ (ltb 0 (length j) && bytes_eq b j)
unfolding optional_key contains
optional_key-names b ks j h = elim (Bool-cases (ltb 0 (length b))) [
  | inl set ↦
      let same : b ∷ [] ≡ ks = parse_keys-names (b ∷ []) ks (rw set at h) in
      ap (λ (l : List Key). contains l j) (sym same) ∙ ground (arith, set, bytes_eq_iff b j)
  | inr unset ↦
      let same : [] ≡ ks = ok-injective {E = FsError} (rw unset at h) in
      ap (λ (l : List Key). contains l j) (sym same) ∙ ground (arith, unset, bytes_eq_iff b j)
]

entry_keys-names :
    (es : List Entry) (ks : List Key) (j : Key)
    → entry_keys es ≡ ok ks
    → contains ks j ≡ (ltb 0 (length j) && contains (entry_names es) j)
unfolding entry_keys contains
entry_keys-names [] ks j h =
    ap (λ (l : List Key). contains l j) (sym (ok-injective h)) ∙ ground arith
entry_keys-names (e ∷ es) ks j h =
    let (content, first, h1) = >>=-eq-ok (optional_key e.content_key) _ h in
    let (xattrs, second, h2) = >>=-eq-ok (optional_key e.xattrs_key) _ h1 in
    let (rest, later, h3) = >>=-eq-ok (entry_keys es) _ h2 in
    ap (λ (l : List Key). contains l j) (sym (ok-injective h3))
    ∙ ground (
      arith,
      contains-append content (xattrs ++ rest) j,
      contains-append xattrs rest j,
      optional_key-names e.content_key content j first,
      optional_key-names e.xattrs_key xattrs j second,
      entry_keys-names es rest j later,
    )

decoded_inv : {A : Type 0} (o : Option A) (a : A) → decoded o ≡ ok a → o ≡ some a
unfolding decoded
decoded_inv none a h = cc h
decoded_inv (some d) a h = ap some (ok-injective h)

module _ (c : Cbor) where
  -- The kinds of an object whose children can be read.
  child_keys_inv :
      (k : Key) (b : Bytes) (ks : List Key)
      → child_keys c k b ≡ ok ks
      → ((is_leaf k ≡ true) × (ks ≡ []))
        ⊎ (((type_of k ≡ file_node) × (decode_file_node c b ≡ ok ks))
            ⊎ (((type_of k ≡ dir_node) × (decode_dir_node c b >>= pair_keys ≡ ok ks))
                ⊎ ((type_of k ≡ dir_leaf) × (decode_dir_leaf c b >>= entry_keys ≡ ok ks))))
  unfolding child_keys
  child_keys_inv k b ks h = elim (Bool-cases (is_leaf k)) [
    | inl leaf ↦ inl (leaf, sym (ok-injective {E = FsError} (rw leaf at h)))
    | inr node ↦ elim (Bool-cases (type_of k == file_node)) [
      | inl file ↦ inr (inl (ground (arith, file), rw (node, file) at h))
      | inr not_file ↦ elim (Bool-cases (type_of k == dir_node)) [
        | inl dir ↦ inr (inr (inl (ground (arith, dir), rw (node, not_file, dir) at h)))
        | inr not_dir ↦ elim (Bool-cases (type_of k == dir_leaf)) [
          | inl entries ↦
              inr (inr (inr (ground (arith, entries), rw (node, not_file, not_dir, entries) at h)))
          | inr other ↦ absurd (cc (rw (node, not_file, not_dir, other) at h))
        ]
      ]
    ]
  ]

  file-Names :
      (k : Key) (b : Bytes) (ks : List Key) (j : Key)
      → type_of k ≡ file_node
      → decode_file_node c b ≡ ok ks
      → (contains ks j ≡ true) ↔ Names c k b j
  unfolding decode_file_node
  file-Names k b ks j kind h =
      let (raw, found, parsed) = >>=-eq-ok (decoded (c.unmarshal_keys b)) _ h in
      let at : c.unmarshal_keys b ≡ some raw = decoded_inv (c.unmarshal_keys b) raw found in
      let same : raw ≡ ks = parse_keys-names raw ks parsed in
      (
        λ listed. part_of_file raw kind at (ap (λ (l : List Key). contains l j) same ∙ listed),
        λ names. elim names [
          | part_of_file raw' _ at' listed ↦
              ap (λ (l : List Key). contains l j) (sym same ∙ same_some raw raw' at at') ∙ listed
          | child_of_node ps kind' _ _ ↦ absurd (omega (arith, kind, kind'))
          | key_of_entry es kind' _ _ _ ↦ absurd (omega (arith, kind, kind'))
        ],
      )
    where
      same_some :
          (raw raw' : List Bytes)
          → c.unmarshal_keys b ≡ some raw
          → c.unmarshal_keys b ≡ some raw'
          → raw ≡ raw'
      same_some raw raw' p q = ground (arith, p, q)

  node-Names :
      (k : Key) (b : Bytes) (ks : List Key) (j : Key)
      → type_of k ≡ dir_node
      → decode_dir_node c b >>= pair_keys ≡ ok ks
      → (contains ks j ≡ true) ↔ Names c k b j
  unfolding decode_dir_node
  node-Names k b ks j kind h =
      let (ps, found, parsed) = >>=-eq-ok (decoded (c.unmarshal_pairs b)) _ h in
      let at : c.unmarshal_pairs b ≡ some ps = decoded_inv (c.unmarshal_pairs b) ps found in
      let same : pair_names ps ≡ ks = pair_keys-names ps ks parsed in
      (
        λ listed. child_of_node ps kind at (ap (λ (l : List Key). contains l j) same ∙ listed),
        λ names. elim names [
          | child_of_node ps' _ at' listed ↦
              ap (λ (l : List Key). contains l j)
                (sym same ∙ ap pair_names (same_some ps ps' at at'))
              ∙ listed
          | part_of_file raw kind' _ _ ↦ absurd (omega (arith, kind, kind'))
          | key_of_entry es kind' _ _ _ ↦ absurd (omega (arith, kind, kind'))
        ],
      )
    where
      same_some :
          (ps ps' : List DirPair)
          → c.unmarshal_pairs b ≡ some ps
          → c.unmarshal_pairs b ≡ some ps'
          → ps ≡ ps'
      same_some ps ps' p q = ground (arith, p, q)

  leaf-Names :
      (k : Key) (b : Bytes) (ks : List Key) (j : Key)
      → type_of k ≡ dir_leaf
      → decode_dir_leaf c b >>= entry_keys ≡ ok ks
      → (contains ks j ≡ true) ↔ Names c k b j
  unfolding decode_dir_leaf
  leaf-Names k b ks j kind h =
      let (es, found, parsed) = >>=-eq-ok (decoded (c.unmarshal_entries b)) _ h in
      let at : c.unmarshal_entries b ≡ some es = decoded_inv (c.unmarshal_entries b) es found in
      let same : contains ks j ≡ (ltb 0 (length j) && contains (entry_names es) j) =
        entry_keys-names es ks j parsed in
      (
        λ listed.
            key_of_entry es kind at (ground (arith, same, listed)) (ground (arith, same, listed)),
        λ names. elim names [
          | key_of_entry es' _ at' long listed ↦
              let listed' : contains (entry_names es) j ≡ true =
                ap (λ (l : List Entry). contains (entry_names l) j) (same_some es es' at at')
                ∙ listed in
              ground (arith, same, long, listed')
          | part_of_file raw kind' _ _ ↦ absurd (omega (arith, kind, kind'))
          | child_of_node ps kind' _ _ ↦ absurd (omega (arith, kind, kind'))
        ],
      )
    where
      same_some :
          (es es' : List Entry)
          → c.unmarshal_entries b ≡ some es
          → c.unmarshal_entries b ≡ some es'
          → es ≡ es'
      same_some es es' p q = ground (arith, p, q)

  pub no_leaf : (k : Key) (b : Bytes) (j : Key) → is_leaf k ≡ true → Names c k b j → ⊥
  unfolding is_leaf
  no_leaf k b j leaf names = elim names [
    | part_of_file raw kind _ _ ↦ ground (arith, leaf, kind)
    | child_of_node ps kind _ _ ↦ ground (arith, leaf, kind)
    | key_of_entry es kind _ _ _ ↦ ground (arith, leaf, kind)
  ]

  -- The children of an object are the keys that it names.
  pub child_keys-Names :
      (k : Key) (b : Bytes) (ks : List Key) (j : Key)
      → child_keys c k b ≡ ok ks
      → (contains ks j ≡ true) ↔ Names c k b j
  unfolding contains
  child_keys-Names k b ks j h = elim (child_keys_inv k b ks h) [
    | inl (leaf, empty) ↦ (
      λ listed. absurd (no_child (ap (λ (l : List Key). contains l j) (sym empty) ∙ listed)),
      λ names. absurd (no_leaf k b j leaf names),
    )
    | inr (inl (kind, found)) ↦ file-Names k b ks j kind found
    | inr (inr (inl (kind, found))) ↦ node-Names k b ks j kind found
    | inr (inr (inr (kind, found))) ↦ leaf-Names k b ks j kind found
  ]
    where
      no_child : false ≡ true → ⊥
      no_child e = cc e
