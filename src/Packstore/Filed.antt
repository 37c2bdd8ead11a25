-- ===== src/Packstore/Filed.antt =====
-- The objects of a segment, as a part of one map from keys to payloads: what sealing makes of the
-- objects of the active segment, for the compaction of packstore/compact.go.
use amber_store.Prelude.{
  ℕ, ◌+◌, ◌^◌, ◌≤◌, ◌<◌, ◌≡◌, sym, ◌∙◌, ap, subst, arith, Bool, true, false, Option, none, some,
  ◌++◌, inl, inr, length, if◌then◌else◌, take, drop, slice, Bytes, get_be, Option-cases,
  fail_if_inv, Result, ok, wrap, wrap_inv, >>=-eq-ok, ok-injective, length-take, length-append,
  take-append_le, take-append-drop,
}
use amber_store.Key.{Key}
use amber_store.Key.Fields.{IsArray32}
use amber_store.Amberpack.Record.{Zstd}
use amber_store.Packstore.{magic_header}
use amber_store.Packstore.Index.{row_key, row_value}
use amber_store.Packstore.Filter.{FuseLibrary}
use amber_store.Packstore.Footer.{
  FooterView, SealedSegment, build_footer, parse_footer, open_sealed, lookup, lookup_pos, probe,
  has, get,
}
use amber_store.Packstore.Footer.RoundTrip.{Serves, parse_footer-build_footer, probe-find}
use amber_store.Packstore.Recover.{ActiveLoc, loc_of}
use amber_store.Packstore.Store.{ActiveSegment, entries_of, in_active, read_active, bad_segment}
use amber_store.Packstore.Store.Sealing.{
  IsRecordAt, IsActive, rows_of, length-entries_of, row_of, find-entries_of, loc_of-All,
  slice-front, open_sealed-reads,
}

-- What a reader returns for a key that is held or not.
abbrev pub held : {E : Type 0} → Bool → Bytes → Result E (Option Bytes)
held b d = if b then ok (some d) else ok none

module _ (x : FuseLibrary) (z : Zstd) (content : Key → Bytes) where
  abbrev pub row_off : SealedSegment → ℕ → ℕ
  row_off g i = (row_value g.fv.entries i).0

  abbrev pub row_slen : SealedSegment → ℕ → ℕ
  row_slen g i = (row_value g.fv.entries i).1

  -- Every key of the segment reads as its payload, and the rows of the index are exactly its keys.
  pub record IsFiled (g : SealedSegment) : Type 0 where
    pub reads : (j : Key) → IsArray32 j → get x g z j ≡ held (has x g j) (content j)
    pub within : g.fv.body_len ≤ length g.mm
    pub arrays : (i : ℕ) → i < g.fv.key_count → IsArray32 (row_key g.fv.entries i)
    pub probed :
        (i : ℕ)
        → i < g.fv.key_count
        → probe x g (row_key g.fv.entries i) ≡ some (row_value g.fv.entries i)
    pub stored_slen :
        (i : ℕ)
        → i < g.fv.key_count
        → get_be (slice (slice g.mm (row_off g i) (row_off g i + 46)) 38 42) ≡ row_slen g i
    pub placed :
        (j : Key) (i : ℕ)
        → IsArray32 j
        → lookup_pos g.fv j ≡ some i
        → (i < g.fv.key_count) × (row_key g.fv.entries i ≡ j)
    pub found :
        (j : Key)
        → IsArray32 j
        → has x g j ≡ true
        → (i : ℕ) × (i < g.fv.key_count) × (row_key g.fv.entries i ≡ j)

  -- The same of an active segment.
  abbrev pub ReadsActive : ActiveSegment → Type 0
  ReadsActive a =
      (j : Key)
      → IsArray32 j
      → read_active x z (some a) j ≡ held (in_active x (some a) j) (content j)

pub open_sealed_inv :
    (id : ℕ) (mm : Bytes) (g : SealedSegment)
    → open_sealed id mm ≡ ok g
    → (g.id ≡ id) × (g.mm ≡ mm) × (parse_footer mm ≡ ok g.fv)
unfolding open_sealed
open_sealed_inv id mm g h =
    let (long, opened) = fail_if_inv _ _ _ h in
    let (fv, parsed, made) = >>=-eq-ok (parse_footer mm) _ opened in
    let same : record { id = id; mm = mm; fv = fv } ≡ g = ok-injective made in
    (
      sym (ap (λ t. t.id) same),
      sym (ap (λ t. t.mm) same),
      parsed ∙ ap (λ (t : SealedSegment). ok t.fv) same,
    )

has-in_active :
    (x : FuseLibrary) (a : ActiveSegment) (g : SealedSegment) (j : Key)
    → probe x g j ≡ row_of (loc_of a.index j)
    → has x g j ≡ in_active x (some a) j
unfolding has in_active row_of
has-in_active x a g j h = elim (Option-cases (loc_of a.index j)) [
  | inl missing ↦ ground (arith, h, missing)
  | inr (l, there) ↦ ground (arith, h, there)
]

unwrapped :
    (x : FuseLibrary) (z : Zstd) (g : SealedSegment) (j : Key) (b : Bool) (d : Bytes)
    → wrap bad_segment (get x g z j) ≡ held b d
    → get x g z j ≡ held b d
unwrapped x z g j true d h = wrap_inv bad_segment (get x g z j) h
unwrapped x z g j false d h = wrap_inv bad_segment (get x g z j) h

module _ (x : FuseLibrary) (z : Zstd) (content : Key → Bytes) (a : ActiveSegment) (footer : Bytes)
    (g : SealedSegment) (h : IsActive z a) (small : a.size < 2 ^ 63) (few : length a.index < 2 ^ 32)
    (fits : a.size + length footer < 2 ^ 64)
    (built : build_footer x a.size (entries_of a.index) ≡ ok footer)
    (opened : open_sealed a.id (take a.size a.content ++ footer) ≡ ok g)
    (reads : ReadsActive x z content a) where
  len : length (take a.size a.content) ≡ a.size
  len = omega (arith, length-take a.size a.content, h.written)

  served : (Serves x (entries_of a.index) g.fv) × (g.fv.body_len ≡ a.size)
  served =
      let body : Bytes = take a.size a.content in
      let header : take 8 body ≡ magic_header =
        sym (take-append_le body (drop a.size a.content) {n = 8} (omega (arith, h.long, len)))
        ∙ ap (λ (l : Bytes). take 8 l) (take-append-drop a.size a.content)
        ∙ h.header in
      let (fv, parsed, end, serves) =
        parse_footer-build_footer x body footer (entries_of a.index) header
          (omega (arith, h.long, len)) (rows_of z a.content a.size a.index small h.records)
          h.distinct (omega (arith, length-entries_of a.index)) (omega (arith, len))
          (rw len built) in
      let same : fv ≡ g.fv =
        ok-injective (sym parsed ∙ (open_sealed_inv a.id (body ++ footer) g opened).2) in
      (
        subst (Serves x (entries_of a.index)) same serves,
        ap (λ (t : FooterView). t.body_len) (sym same) ∙ end ∙ len,
      )

  probes : (j : Key) → IsArray32 j → probe x g j ≡ row_of (loc_of a.index j)
  probes j array = probe-find x g (entries_of a.index) j array served.0 ∙ find-entries_of a.index j

  pub sealed-has : (j : Key) → IsArray32 j → has x g j ≡ in_active x (some a) j
  sealed-has j array = has-in_active x a g j (probes j array)

  sealed-reads : (j : Key) → IsArray32 j → get x g z j ≡ held (has x g j) (content j)
  sealed-reads j array =
      let (g', opened', same_reads) = open_sealed-reads x z a footer h small few fits built in
      let same : g' ≡ g = ok-injective (sym opened' ∙ opened) in
      unwrapped x z g j (has x g j) (content j) (
        ap (λ t. wrap bad_segment (get x t z j)) (sym same)
        ∙ same_reads j array
        ∙ reads j array
        ∙ ap (λ b. held b (content j)) (sym (sealed-has j array)))

  -- The location of a row in the index of the active segment.
  row_loc :
      (i : ℕ)
      → i < g.fv.key_count
      → (loc : ActiveLoc) × (loc_of a.index (row_key g.fv.entries i) ≡ some loc)
        × (row_value g.fv.entries i ≡ (loc.off, loc.slen))
        × (probe x g (row_key g.fv.entries i) ≡ some (row_value g.fv.entries i))
  unfolding lookup row_of
  row_loc i lt =
      let k : Key = row_key g.fv.entries i in
      let (array, searched) = served.0.rows.listed i lt in
      let looked : row_of (loc_of a.index k) ≡ some (row_value g.fv.entries i) =
        sym (find-entries_of a.index k) ∙ sym (served.0.exact k array) ∙ searched in
      elim (Option-cases (loc_of a.index k)) [
        | inl missing ↦ absurd (none_some (sym (ap row_of missing) ∙ looked))
        | inr (loc, there) ↦
            let value : some (loc.off, loc.slen) ≡ some (row_value g.fv.entries i) =
              sym (ap row_of there) ∙ looked in
            (loc, there, cc value, probes k array ∙ looked)
      ]
    where
      none_some : {v : ℕ × ℕ} → none ≡ some v → ⊥
      none_some e = cc e

  slen_at :
      (i : ℕ)
      → i < g.fv.key_count
      → get_be (
          slice (slice g.mm (row_value g.fv.entries i).0 ((row_value g.fv.entries i).0 + 46)) 38 42)
        ≡ (row_value g.fv.entries i).1
  slen_at i lt =
      let (loc, there, value, _) = row_loc i lt in
      let at : IsRecordAt z a.content a.size (row_key g.fv.entries i) loc =
        loc_of-All (IsRecordAt z a.content a.size) a.index (row_key g.fv.entries i) loc h.records
          there in
      let mapped : g.mm ≡ take a.size a.content ++ footer =
        (open_sealed_inv a.id (take a.size a.content ++ footer) g opened).1 in
      ap (λ (v : ℕ × ℕ). get_be (slice (slice g.mm v.0 (v.0 + 46)) 38 42)) value
      ∙ ap (λ (l : Bytes). get_be (slice (slice l loc.off (loc.off + 46)) 38 42)) mapped
      ∙ ap (λ (l : Bytes). get_be (slice l 38 42))
          (slice-front a.content footer a.size loc.off (loc.off + 46) (omega arith)
            (omega (arith, at.upto)) h.written)
      ∙ at.slen_stored
      ∙ sym (ap (λ (v : ℕ × ℕ). v.1) value)

  row_found :
      (j : Key)
      → IsArray32 j
      → has x g j ≡ true
      → (i : ℕ) × (i < g.fv.key_count) × (row_key g.fv.entries i ≡ j)
  unfolding in_active lookup row_of
  row_found j array held_there =
      let active : in_active x (some a) j ≡ true = sym (sealed-has j array) ∙ held_there in
      elim (Option-cases (loc_of a.index j)) [
        | inl missing ↦ absurd (false_true (sym (not_there missing) ∙ active))
        | inr (loc, there) ↦
            served.0.rows.within j (loc.off, loc.slen) array
              (served.0.exact j array ∙ find-entries_of a.index j ∙ ap row_of there)
      ]
    where
      not_there : loc_of a.index j ≡ none → in_active x (some a) j ≡ false
      not_there missing = ground (arith, missing)

      false_true : false ≡ true → ⊥
      false_true e = cc e

  row_placed :
      (j : Key) (i : ℕ)
      → IsArray32 j
      → lookup_pos g.fv j ≡ some i
      → (i < g.fv.key_count) × (row_key g.fv.entries i ≡ j)
  unfolding lookup_pos
  row_placed j i array found = served.0.rows.placed j i array found

  -- A segment that was sealed holds what the active segment held.
  pub sealed-IsFiled : IsFiled x z content g
  sealed-IsFiled = record {
    reads = sealed-reads;
    within = omega (
      arith,
      served.1,
      len,
      ap length (open_sealed_inv a.id (take a.size a.content ++ footer) g opened).1,
      length-append (take a.size a.content) footer,
    );
    arrays = λ i lt. (served.0.rows.listed i lt).0;
    probed = λ i lt. (row_loc i lt).3;
    stored_slen = slen_at;
    placed = row_placed;
    found = row_found;
  }
