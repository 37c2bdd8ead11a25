-- ===== src/Packstore/Lifecycle/Captured.antt =====
-- What a write observes while a capture is on reaches the collector.
use amber_store.Prelude.{
  ℕ, ◌+◌, ◌≡◌, refl, sym, ◌∙◌, ap, ap₂, arith, Bool, true, false, Option, none, some, List, [], ◌∷◌,
  leb, length, Bytes, bytes_eq_refl, Result, ok, err, subst, Bool-cases, inl, inr,
}
use amber_store.Key.{Key}
use amber_store.Amberpack.Record.{Zstd, RecordError, encode_record}
use amber_store.Packstore.{Object}
use amber_store.Packstore.Filter.{FuseLibrary}
use amber_store.Packstore.Footer.{SealedSegment, FooterError, build_footer, open_sealed}
use amber_store.Packstore.Recover.{ActiveLoc, loc_of}
use amber_store.Packstore.Store.{
  Io, Store, ActiveSegment, Outcome, StoreError, and_then, set_failed, or_poison, with_active,
  create_active, swap_sealed, publish_sealed, write_footer, seal_segment, seal_option, seal_active,
  seal_if_full, write_record, append_unless, append_to, append_active, append_creating,
  append_locked, has_object, observe, entries_of,
}
use amber_store.Packstore.Store.Puts.{appended}
use amber_store.Packstore.Lifecycle.{
  Batch, take_grey, sync_active, is_seen, appended_to, batch_record, batch_new, batch_step,
  after_step, batch_loop, batch_end, write_batch,
}

-- What a capture is about, in a store.
abbrev pub Marks : Type 0
Marks = Bool × Option (List Key)

abbrev pub marks : Store → Marks
marks s = (s.capturing, s.grey)

create_active-marks : (io : Io) (s : Store) → marks (create_active io s).0 ≡ marks s
unfolding create_active
create_active-marks io s = ground arith

or_poison-marks : (o : Outcome) → marks (or_poison o).0 ≡ marks o.0
unfolding or_poison set_failed
or_poison-marks (s, ok u) = refl
or_poison-marks (s, err e) = refl

and_then-marks :
    (o : Outcome) (f : Store → Outcome)
    → ((s : Store) → marks (f s).0 ≡ marks s)
    → marks (and_then o f).0 ≡ marks o.0
unfolding and_then
and_then-marks (s, ok u) f h = h s
and_then-marks (s, err e) f h = refl

module _ (x : FuseLibrary) (io : Io) where
  swap_sealed-marks :
      (s : Store) (a : ActiveSegment) (r : Result FooterError SealedSegment)
      → marks (swap_sealed x io s (with_active s a) r).0 ≡ marks s
  unfolding swap_sealed with_active
  swap_sealed-marks s a (err e) = refl
  swap_sealed-marks s a (ok g) = refl

  publish_sealed-marks :
      (s : Store) (a : ActiveSegment) (whole : Bytes)
      → marks (publish_sealed x io s a whole).0 ≡ marks s
  unfolding publish_sealed with_active
  publish_sealed-marks s a whole =
      ground (arith, swap_sealed-marks s (record a { content = whole }) (open_sealed a.id whole))

  write_footer-marks :
      (s : Store) (a : ActiveSegment) (r : Result FooterError Bytes)
      → marks (write_footer x io s a r).0 ≡ marks s
  unfolding write_footer with_active
  write_footer-marks s a (err e) = refl
  write_footer-marks s a (ok footer) = ground (arith, publish_sealed-marks s a)

  seal_option-marks :
      (s : Store) (o : Option ActiveSegment) → marks (seal_option x io s o).0 ≡ marks s
  unfolding seal_option seal_segment
  seal_option-marks s none = refl
  seal_option-marks s (some a) =
      ground (arith, write_footer-marks s a (build_footer x a.size (entries_of a.index)))

  seal_if_full-marks : (s : Store) (size : ℕ) → marks (seal_if_full x io s size).0 ≡ marks s
  unfolding seal_if_full seal_active
  seal_if_full-marks s size = elim (Bool-cases (leb s.segment_size size)) [
    | inl full ↦
        rw full (or_poison-marks (seal_option x io s s.active) ∙ seal_option-marks s s.active)
    | inr small ↦ rw small refl
  ]

  write_record-marks :
      (s : Store) (a : ActiveSegment) (k : Key) (rec : Bytes) (now : Bool)
      → marks (write_record x io s a k rec now).0 ≡ marks s
  unfolding write_record with_active set_failed
  write_record-marks s a k rec now =
      ground (arith, seal_if_full-marks (with_active s (appended a k rec)) (a.size + length rec))

  append_unless-marks :
      (k : Key) (rec : Bytes) (now : Bool) (s : Store) (a : ActiveSegment) (o : Option ActiveLoc)
      → marks (append_unless x io k rec now s a o).0 ≡ marks s
  unfolding append_unless
  append_unless-marks k rec now s a none = write_record-marks s a k rec now
  append_unless-marks k rec now s a (some l) = refl

  append_to-marks :
      (k : Key) (rec : Bytes) (now : Bool) (s : Store) (o : Option ActiveSegment)
      → marks (append_to x io k rec now s o).0 ≡ marks s
  unfolding append_to
  append_to-marks k rec now s none = refl
  append_to-marks k rec now s (some a) = append_unless-marks k rec now s a (loc_of a.index k)

  append_active-marks :
      (k : Key) (rec : Bytes) (now : Bool) (s : Store)
      → marks (append_active x io k rec now s).0 ≡ marks s
  unfolding append_active
  append_active-marks k rec now s = append_to-marks k rec now s s.active

  append_creating-marks :
      (k : Key) (rec : Bytes) (now : Bool) (s : Store) (o : Option ActiveSegment)
      → marks (append_creating x io k rec now s o).0 ≡ marks s
  unfolding append_creating
  append_creating-marks k rec now s none =
      and_then-marks (create_active io s) (append_active x io k rec now)
        (append_active-marks k rec now)
      ∙ create_active-marks io s
  append_creating-marks k rec now s (some a) = append_active-marks k rec now s

  pub append_locked-marks :
      (s : Store) (k : Key) (rec : Bytes) (now : Bool)
      → marks (append_locked x io s k rec now).0 ≡ marks s
  unfolding append_locked
  append_locked-marks s k rec now = ground (arith, append_creating-marks k rec now s s.active)

sync_active-marks : (sync_ok : Bool) (s : Store) → marks (sync_active sync_ok s).0 ≡ marks s
unfolding sync_active set_failed
sync_active-marks sync_ok s = ground arith

appended_to-kept :
    (b : Batch) (o : Outcome)
    → (marks (appended_to b o).0.store ≡ marks o.0) × ((appended_to b o).0.seen ≡ b.seen)
unfolding appended_to
appended_to-kept b (s, ok u) = (refl, refl)
appended_to-kept b (s, err e) = (refl, refl)

module _ (x : FuseLibrary) (z : Zstd) (io : Io) where
  abbrev KeepsMarks : Batch → Batch → Type 0
  KeepsMarks b b' = (marks b'.store ≡ marks b.store) × (b'.seen ≡ b.seen)

  batch_record-kept :
      (b : Batch) (k : Key) (r : Result RecordError Bytes)
      → KeepsMarks b (batch_record x z io b k r).0
  unfolding batch_record
  batch_record-kept b k (err e) = (refl, refl)
  batch_record-kept b k (ok rec) =
      let (same, kept) = appended_to-kept b (append_locked x io b.store k rec false) in
      (same ∙ append_locked-marks x io b.store k rec false, kept)

  batch_new-kept :
      (b : Batch) (o : Object) (r : Result StoreError Bool)
      → KeepsMarks b (batch_new x z io b o r).0
  unfolding batch_new
  batch_new-kept b o (err e) = (refl, refl)
  batch_new-kept b o (ok true) = (refl, refl)
  batch_new-kept b o (ok false) = batch_record-kept b o.key (encode_record z o.key o.data_bytes)

-- The grey set of a batch, with what was seen in it.
record IsCaptured (b : Batch) (keys : List Key) : Type 0 where
  marked : marks b.store ≡ (true, some keys)
  covers : (k : Key) → is_seen k b.seen ≡ true → is_seen k keys ≡ true

abbrev Grows : List Key → List Key → Type 0
Grows keys keys' = (k : Key) → is_seen k keys ≡ true → is_seen k keys' ≡ true

pub observe-marks :
    (x : FuseLibrary) (s : Store) (k : Key) (keys : List Key)
    → marks s ≡ (true, some keys)
    → marks (observe x s k) ≡ (true, some (k ∷ keys))
unfolding observe
observe-marks x s k keys h =
    let on : s.capturing ≡ true = ap (λ (m : Marks). m.0) h in
    let grey : s.grey ≡ some keys = ap (λ (m : Marks). m.1) h in ground (arith, on, grey)

batch_step-IsCaptured :
    (x : FuseLibrary) (z : Zstd) (io : Io) (b : Batch) (keys : List Key) (o : Object)
    → IsCaptured b keys
    → (keys' : List Key) × IsCaptured (batch_step x z io b (ok o)).0 keys'
      × (is_seen o.key keys' ≡ true)
      × Grows keys keys'
unfolding batch_step is_seen
batch_step-IsCaptured x z io b keys o h = elim (Bool-cases (is_seen o.key b.seen)) [
  | inl again ↦ rw again (keys, h, h.covers o.key again, λ k p. p)
  | inr fresh ↦
      let b' : Batch = record b { store = observe x b.store o.key; seen = o.key ∷ b.seen } in
      let (same, kept) = batch_new-kept x z io b' o (has_object x b'.store o.key) in
      rw fresh (
        o.key ∷ keys,
        record {
          marked = same ∙ observe-marks x b.store o.key keys h.marked;
          covers = λ k p. covered k (sym (ap (is_seen k) kept) ∙ p);
        },
        ground (arith, bytes_eq_refl o.key),
        λ k p. ground (arith, p),
      )
]
  where
    covered : (k : Key) → is_seen k (o.key ∷ b.seen) ≡ true → is_seen k (o.key ∷ keys) ≡ true
    covered k p = elim (Bool-cases (is_seen k b.seen)) [
      | inl before ↦ ground (arith, h.covers k before)
      | inr other ↦ ground (arith, p, other)
    ]

-- The keys of all objects of a batch are among the keys.
abbrev pub AreAmong : List (Io × Result StoreError Object) → List Key → Type 0
AreAmong [] keys = Unit {0}
AreAmong ((io, ok o) ∷ items) keys = (is_seen o.key keys ≡ true) × AreAmong items keys
AreAmong ((io, err e) ∷ items) keys = AreAmong items keys

after_step_ok :
    (go : Batch → Batch × Result StoreError (Unit {0})) (p : Batch × Result StoreError (Unit {0}))
    (b' : Batch)
    → after_step go p ≡ (b', ok tt)
    → go p.0 ≡ (b', ok tt)
unfolding after_step
after_step_ok go (b, ok u) b' h = h
after_step_ok go (b, err e) b' h = absurd (cc h)

batch_loop-IsCaptured :
    (x : FuseLibrary) (z : Zstd) (items : List (Io × Result StoreError Object)) (b b' : Batch)
    (keys : List Key)
    → IsCaptured b keys
    → batch_loop x z b items ≡ (b', ok tt)
    → (keys' : List Key) × IsCaptured b' keys' × AreAmong items keys' × Grows keys keys'
unfolding batch_loop batch_step
batch_loop-IsCaptured x z [] b b' keys h e = (
  keys,
  subst (λ t. IsCaptured t keys) (ap (λ (p : Batch × Result StoreError (Unit {0})). p.0) e) h,
  tt,
  λ k p. p,
)
batch_loop-IsCaptured x z ((io, err er) ∷ items) b b' keys h e = absurd (cc e)
batch_loop-IsCaptured x z ((io, ok o) ∷ items) b b' keys h e =
    let (keys1, captured, among, grows) = batch_step-IsCaptured x z io b keys o h in
    let rest : batch_loop x z (batch_step x z io b (ok o)).0 items ≡ (b', ok tt) =
      after_step_ok (λ t. batch_loop x z t items) (batch_step x z io b (ok o)) b' e in
    let (keys2, captured2, among2, grows2) =
      batch_loop-IsCaptured x z items (batch_step x z io b (ok o)).0 b' keys1 captured rest in
    (keys2, captured2, (grows2 o.key among, among2), λ k p. grows2 k (grows k p))

batch_end_ok :
    (sync_ok : Bool) (r : Batch × Result StoreError (Unit {0})) (s' : Store)
    → batch_end sync_ok r ≡ (s', ok tt)
    → (b : Batch) × (r ≡ (b, ok tt)) × (sync_active sync_ok b.store ≡ (s', ok tt))
unfolding batch_end
batch_end_ok sync_ok (b, ok u) s' h = (b, refl, h)
batch_end_ok sync_ok (b, err e) s' h = absurd (cc h)

-- Every key of a batch that was written without an error, while a capture was on, is in the set that
-- the next collection takes, also the keys that were stored already or came twice; and no key that was
-- captured before is lost.
pub write_batch-take_grey :
    (x : FuseLibrary) (z : Zstd) (sync_ok : Bool) (s s' : Store) (before : List Key)
    (items : List (Io × Result StoreError Object))
    → s.capturing ≡ true
    → s.grey ≡ some before
    → write_batch x z sync_ok s items ≡ (s', ok tt)
    → (keys : List Key) × ((take_grey s').1 ≡ some keys)
      × AreAmong items keys
      × ((k : Key) → is_seen k before ≡ true → is_seen k keys ≡ true)
unfolding write_batch take_grey is_seen
write_batch-take_grey x z sync_ok s s' before items on grey h =
    let start : Batch = record { store = s; seen = []; appended = false } in
    let captured : IsCaptured start before = record {
      marked = ap₂ (λ b o. (b, o)) on grey;
      covers = λ k p. absurd (cc p);
    } in
    let (b, run, synced) = batch_end_ok sync_ok (batch_loop x z start items) s' h in
    let (keys, at_end, among, grows) =
      batch_loop-IsCaptured x z items start b before captured run in
    let same : marks s' ≡ (true, some keys) =
      ap (λ (o : Outcome). marks o.0) (sym synced)
      ∙ sync_active-marks sync_ok b.store
      ∙ at_end.marked in
    (keys, ap (λ (m : Marks). m.1) same, among, grows)
