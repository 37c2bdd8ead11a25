-- ===== src/Packstore/Compact/Writes.antt =====
-- Writes of packstore/packstore.go between the mark and the sweep of a collection: they file what they
-- write as part of the same map, lose nothing, and are captured.
use amber_store.Prelude.{
  or_cases, ◌≡◌, refl, sym, ◌∙◌, ap, subst, arith, Bool, true, false, inl, inr, Option, some, List,
  [], ◌∷◌, ◌++◌, contains-append, Bytes, bytes_eq, bytes_eq_iff, contains, Result, ok, err,
  Bool-cases, Option-cases,
}
use amber_store.Key.{Key, parse as key_parse}
use amber_store.Key.Fields.{IsArray32}
use amber_store.Amberpack.Record.{Zstd, RecordError, encode_record}
use amber_store.Packstore.Filter.{FuseLibrary}
use amber_store.Packstore.Store.{
  Store, Io, StoreError, Outcome, has_object, append_encoded, observe, put_new, put_object,
}
use amber_store.Packstore.Store.Sealing.{IsRecordOf}
use amber_store.Packstore.Store.Refinement.{holds, encode_record-IsRecordOf}
use amber_store.Packstore.Lifecycle.{observe_keys}
use amber_store.Packstore.Lifecycle.Captured.{Marks, marks, observe-marks, append_locked-marks}
use amber_store.Packstore.Compact.Wellfiled.{IsPart, IsWellFiled}
use amber_store.Packstore.Compact.Appends.{append_locked-Files}
use amber_store.Packstore.Compact.Keeps.{holds-survives, no_victims}

observe_inv :
    (x : FuseLibrary) (s : Store) (k : Key)
    → (g : Option (List Key)) × (observe x s k ≡ record s { grey = g })
unfolding observe
observe_inv x s k = elim (Bool-cases s.capturing) [
  | inl on ↦ elim (Option-cases s.grey) [
    | inl missing ↦ (s.grey, ground (arith, on, missing))
    | inr (ks, there) ↦ (some (k ∷ ks), ground (arith, on, there))
  ]
  | inr off ↦ (s.grey, ground (arith, off))
]

observe_keys_inv :
    (s : Store) (keys : List Key)
    → (g : Option (List Key)) × (observe_keys s keys ≡ record s { grey = g })
unfolding observe_keys
observe_keys_inv s keys = elim (Bool-cases s.capturing) [
  | inl on ↦ elim (Option-cases s.grey) [
    | inl missing ↦ (s.grey, ground (arith, on, missing))
    | inr (ks, there) ↦ (some (keys ++ ks), ground (arith, on, there))
  ]
  | inr off ↦ (s.grey, ground (arith, off))
]

observe_keys-marks :
    (s : Store) (keys before : List Key)
    → marks s ≡ (true, some before)
    → marks (observe_keys s keys) ≡ (true, some (keys ++ before))
unfolding observe_keys
observe_keys-marks s keys before h =
    let on : s.capturing ≡ true = ap (λ (m : Marks). m.0) h in
    let grey : s.grey ≡ some before = ap (λ (m : Marks). m.1) h in ground (arith, on, grey)

module _ (x : FuseLibrary) (z : Zstd) (content : Key → Bytes) where
  -- What a write does to a store: it files the object and keeps all others.
  pub record Stores (s s' : Store) (k : Key) : Type 0 where
    pub filed : IsWellFiled x z content s'
    pub kept : (j : Key) → IsArray32 j → holds x s j ≡ true → holds x s' j ≡ true
    pub there : holds x s' k ≡ true

  put_encoded-Stores :
      (io : Io) (s s' : Store) (k : Key) (d : Bytes) (r : Result RecordError Bytes)
      → IsWellFiled x z content s
      → IsArray32 k
      → key_parse k ≡ ok k
      → content k ≡ d
      → holds x s k ≡ false
      → encode_record z k d ≡ r
      → append_encoded x z io s k r ≡ (s', ok tt)
      → Stores s s' k × (marks s' ≡ marks s)
  unfolding append_encoded
  put_encoded-Stores io s s' k d (err e) w array hk same new enc done = absurd (cc done)
  put_encoded-Stores io s s' k d (ok rec) w array hk same new enc done =
      let (w', grows, survives) =
        append_locked-Files x z content io s s' k rec true w array (ground (arith, new))
          (subst (λ (p : Bytes). IsRecordOf z p rec) (sym same)
            (encode_record-IsRecordOf z k d rec hk enc))
          done in
      let none_part : IsPart [] s.sealed = λ n among. absurd (no_victims x z content n among) in
      (
        record {
          filed = w';
          kept = λ j a held_j.
              sym (holds-survives x z content s' j)
              ∙ (grows [] none_part).1 j a (holds-survives x z content s j ∙ held_j);
          there = sym (holds-survives x z content s' k) ∙ survives [] none_part;
        },
        ap marks (sym (ap (λ (o : Outcome). o.0) done)) ∙ append_locked-marks x io s k rec true,
      )

  regreyed-IsWellFiled :
      (s t : Store) (g : Option (List Key))
      → t ≡ record s { grey = g }
      → IsWellFiled x z content s
      → IsWellFiled x z content t × ((j : Key) → holds x t j ≡ holds x s j)
  regreyed-IsWellFiled s t g same w =
      subst (λ (u : Store). IsWellFiled x z content u × ((j : Key) → holds x u j ≡ holds x s j))
        (sym same)
        (
          record {
            segments = w.segments;
            apart = w.apart;
            fresh = w.fresh;
            filing = w.filing;
            bounded = w.bounded;
          },
          λ j. refl,
        )

  put_new-Stores :
      (io : Io) (s s' : Store) (k : Key) (d : Bytes) (r : Result StoreError Bool)
      → IsWellFiled x z content s
      → IsArray32 k
      → key_parse k ≡ ok k
      → content k ≡ d
      → has_object x s k ≡ r
      → put_new x z io s k d r ≡ (s', ok tt)
      → Stores s s' k × (marks s' ≡ marks s)
  unfolding put_new has_object
  put_new-Stores io s s' k d (err e) w array hk same has done = absurd (cc done)
  put_new-Stores io s s' k d (ok true) w array hk same has done =
      subst (λ (t : Store). Stores s t k × (marks t ≡ marks s)) (unchanged done)
        (record { filed = w; kept = λ j a there. there; there = ground (arith, has) }, refl)
    where
      unchanged : ◌≡◌ {A = Outcome} (s, ok tt) (s', ok tt) → s ≡ s'
      unchanged e = ground (arith, e)
  put_new-Stores io s s' k d (ok false) w array hk same has done =
      put_encoded-Stores io s s' k d (encode_record z k d) w array hk same (ground (arith, has))
        refl done

  -- A put that succeeds files the object beside the others: every segment is still a part of the map
  -- that has the payload at its key, no key of the store is lost, and the new one is there.
  pub put_object-Stores :
      (io : Io) (s s' : Store) (k : Key) (d : Bytes)
      → IsWellFiled x z content s
      → IsArray32 k
      → key_parse k ≡ ok k
      → content k ≡ d
      → put_object x z io s k d ≡ (s', ok tt)
      → Stores s s' k × (marks s' ≡ marks (observe x s k))
  unfolding put_object
  put_object-Stores io s s' k d w array hk same done =
      let (g, observed) = observe_inv x s k in
      let (w', alike) = regreyed-IsWellFiled s (observe x s k) g observed w in
      let (stores, kept) =
        put_new-Stores io (observe x s k) s' k d (has_object x (observe x s k) k) w' array hk same
          refl (ground (arith, done)) in
      (
        record {
          filed = stores.filed;
          kept = λ j a held_j. stores.kept j a (alike j ∙ held_j);
          there = stores.there;
        },
        kept,
      )

  -- Puts one after the other, and keys that are kept for a reference, with the keys of both.
  pub data Writes : Store → List Key → Store → Type 0 where
    no_writes : (s : Store) → Writes s [] s
    put :
        {s t t' : Store} {ks : List Key} (io : Io) (k : Key)
        → Writes s ks t
        → IsArray32 k
        → key_parse k ≡ ok k
        → put_object x z io t k (content k) ≡ (t', ok tt)
        → Writes s (k ∷ ks) t'
    observed :
        {s t : Store} {ks : List Key} (keys : List Key)
        → Writes s ks t
        → ((k : Key) → contains keys k ≡ true → IsArray32 k × (holds x t k ≡ true))
        → Writes s (keys ++ ks) (observe_keys t keys)

  -- What puts that succeed keep true.
  pub record HaveWritten (s : Store) (ks : List Key) (t : Store) : Type 0 where
    pub filed : IsWellFiled x z content t
    pub kept : (j : Key) → IsArray32 j → holds x s j ≡ true → holds x t j ≡ true
    pub written : (k : Key) → contains ks k ≡ true → IsArray32 k × (holds x t k ≡ true)

  put-HaveWritten :
      (s t t' : Store) (k : Key) (ks : List Key)
      → IsArray32 k
      → Stores t t' k
      → HaveWritten s ks t
      → HaveWritten s (k ∷ ks) t'
  unfolding contains
  put-HaveWritten s t t' k ks array stores h = record {
    filed = stores.filed;
    kept = λ j a there. stores.kept j a (h.kept j a there);
    written = λ j listed. elim (Bool-cases (bytes_eq k j)) [
      | inl same ↦
          subst (λ (q : Key). IsArray32 q × (holds x t' q ≡ true)) ((bytes_eq_iff k j).0 same)
            (array, stores.there)
      | inr other ↦
          let (a, there) = h.written j (ground (arith, listed, other)) in (a, stores.kept j a there)
    ];
  }

  observed-HaveWritten :
      (s t : Store) (keys ks : List Key)
      → ((k : Key) → contains keys k ≡ true → IsArray32 k × (holds x t k ≡ true))
      → HaveWritten s ks t
      → HaveWritten s (keys ++ ks) (observe_keys t keys)
  observed-HaveWritten s t keys ks there h =
      let (g, same) = observe_keys_inv t keys in
      let (w, alike) = regreyed-IsWellFiled t (observe_keys t keys) g same h.filed in
      record {
        filed = w;
        kept = λ j a held_j. alike j ∙ h.kept j a held_j;
        written = λ j listed.
            elim (or_cases (contains keys j) (contains ks j)
              (sym (contains-append keys ks j) ∙ listed)) [
                | inl new ↦ let (a, is_held) = there j new in (a, alike j ∙ is_held)
                | inr old ↦ let (a, is_held) = h.written j old in (a, alike j ∙ is_held)
              ];
      }

  pub Writes-HaveWritten :
      (s t : Store) (ks : List Key) → IsWellFiled x z content s → Writes s ks t → HaveWritten s ks t
  unfolding contains
  Writes-HaveWritten s t ks w (no_writes u) = record {
    filed = w;
    kept = λ j a there. there;
    written = λ k listed. absurd (cc listed);
  }
  Writes-HaveWritten s t' ks' w (put {t = t} {ks = ks} io k before array hk done) =
      let h : HaveWritten s ks t = Writes-HaveWritten s t ks w before in
      put-HaveWritten s t t' k ks array
        (put_object-Stores io t t' k (content k) h.filed array hk refl done).0 h
  Writes-HaveWritten s t' ks' w (observed {t = t} {ks = ks} keys before there) =
      observed-HaveWritten s t keys ks there (Writes-HaveWritten s t ks w before)

  -- A capture that is on in the first store sees the keys.
  abbrev pub IsCapturedIn : Store → List Key → Type 0
  IsCapturedIn t ks =
      (grey : List Key) × (marks t ≡ (true, some grey))
      × ((k : Key) → contains ks k ≡ true → contains grey k ≡ true)

  pub Writes-IsCapturedIn :
      (s t : Store) (ks before : List Key)
      → IsWellFiled x z content s
      → marks s ≡ (true, some before)
      → Writes s ks t
      → IsCapturedIn t ks
  unfolding contains
  Writes-IsCapturedIn s t ks before w on (no_writes u) =
      (before, on, λ k listed. absurd (cc listed))
  Writes-IsCapturedIn s t' ks' before w on (put {t = t} {ks = ks} io k earlier array hk done) =
      let (grey, on_t, seen) = Writes-IsCapturedIn s t ks before w on earlier in
      let h : HaveWritten s ks t = Writes-HaveWritten s t ks w earlier in
      let (_, same) = put_object-Stores io t t' k (content k) h.filed array hk refl done in
      (k ∷ grey, same ∙ observe-marks x t k grey on_t, λ j listed. ground (arith, listed, seen j))
  Writes-IsCapturedIn s t' ks' before w on (observed {t = t} {ks = ks} keys earlier there) =
      let (grey, on_t, seen) = Writes-IsCapturedIn s t ks before w on earlier in
      (
        keys ++ grey,
        observe_keys-marks t keys grey on_t,
        λ j listed.
            ground (arith, listed, seen j, contains-append keys ks j, contains-append keys grey j),
      )
