-- ===== src/Packstore/Compact/Appends.antt =====
-- What an append of packstore/packstore.go does to a store whose segments are parts of one map.
use amber_store.Prelude.{
  ◌^◌, ◌≤◌, ◌≡◌, refl, sym, ◌∙◌, subst, arith, Bool, true, false, inl, inr, Option, none, some,
  List, [], length, leb, Bytes, ok, Bool-cases,
}
use amber_store.Key.{Key}
use amber_store.Key.Fields.{IsArray32}
use amber_store.Amberpack.Record.{Zstd}
use amber_store.Packstore.{magic_header}
use amber_store.Packstore.Filter.{FuseLibrary}
use amber_store.Packstore.Footer.{SealedSegment}
use amber_store.Packstore.Recover.{loc_of}
use amber_store.Packstore.Store.{
  ActiveSegment, Store, Io, in_active, with_active, seal_if_full, seal_active, append_locked,
  append_creating, append_active, append_to, append_unless, write_record, seal_segment,
}
use amber_store.Packstore.Store.Sealing.{IsRecordOf, active_missing}
use amber_store.Packstore.Store.Puts.{appended}
use amber_store.Packstore.Store.Refinement.{
  or_poison_inv, write_record_inv, seal_active-some, not_indexed, created, create_inv,
  fresh-IsActive,
}
use amber_store.Packstore.Compact.{survivor_has}
use amber_store.Packstore.Compact.Wellfiled.{
  IsPart, IsFiling, IsFilingOption, IsWellFiled, Survives, Grows, Grows-refl, Grows-trans,
  seal_segment-IsWellFiled,
}
use amber_store.Packstore.Compact.Appended.{
  nonempty-put_loc, appended-IsFiling, appended-Grows, appended-Survives,
}

module _ (x : FuseLibrary) (z : Zstd) (content : Key → Bytes) where
  -- The key survives, and so does every key that survived.
  abbrev pub Files : Store → Store → Key → Type 0
  Files s s' k =
      IsWellFiled x z content s'
      × Grows x z content s s'
      × ((victims : List SealedSegment)
          → IsPart victims s.sealed
          → Survives x z content victims s' k)

  rotated :
      (io : Io) (s s' : Store) (a : ActiveSegment)
      → s.active ≡ some a
      → 1 ≤ length a.index
      → IsWellFiled x z content (record s { active = none })
      → IsFiling x z content (2 ^ 37) s.next_id s.sealed a
      → seal_if_full x io s a.size ≡ (s', ok tt)
      → IsWellFiled x z content s' × Grows x z content s s'
  unfolding seal_if_full
  rotated io s s' a here nonempty w f done = elim (Bool-cases (leb s.segment_size a.size)) [
    | inl full ↦
        elim (seal_segment-IsWellFiled x z content io s s' a here w.segments w.apart w.fresh f
          w.bounded (sealing full)) [
            | inl (_, empty) ↦ absurd (omega (arith, nonempty, empty))
            | inr filed ↦ filed
          ]
    | inr fits ↦
        let same : s' ≡ s = ground (arith, done, fits) in
        subst (λ t. IsWellFiled x z content t × Grows x z content s t) (sym same)
          (
            record {
              segments = w.segments;
              apart = w.apart;
              fresh = w.fresh;
              filing =
                  subst (IsFilingOption x z content (2 ^ 36) s.next_id s.sealed) (sym here)
                    (small_filing fits);
              bounded = w.bounded;
            },
            Grows-refl x z content s,
          )
  ]
    where
      sealing : leb s.segment_size a.size ≡ true → seal_segment x io s a ≡ (s', ok tt)
      sealing full =
          sym (seal_active-some x io s a here)
          ∙ or_poison_inv x (seal_active x io s) s' (rw full at done)

      small_filing :
          leb s.segment_size a.size ≡ false → IsFiling x z content (2 ^ 36) s.next_id s.sealed a
      small_filing fits = record {
        active = f.active;
        reads = f.reads;
        small = ground (arith, fits, w.bounded);
        few = f.few;
        own = f.own;
        numbered = f.numbered;
      }

  write_record-Files :
      (io : Io) (s s' : Store) (a : ActiveSegment) (k : Key) (rec : Bytes) (sync_now : Bool)
      → s.active ≡ some a
      → IsWellFiled x z content s
      → IsFiling x z content (2 ^ 36) s.next_id s.sealed a
      → IsArray32 k
      → loc_of a.index k ≡ none
      → IsRecordOf z (content k) rec
      → write_record x io s a k rec sync_now ≡ (s', ok tt)
      → Files s s' k
  unfolding with_active
  write_record-Files io s s' a k rec sync_now here w f array new e done =
      let a' : ActiveSegment = appended a k rec in
      let s1 : Store = with_active s a' in
      let (w', grows) =
        rotated io s1 s' a' refl (nonempty-put_loc a.index k _)
          (record {
            segments = w.segments;
            apart = w.apart;
            fresh = w.fresh;
            filing = tt;
            bounded = w.bounded;
          })
          (appended-IsFiling x z content s.next_id s.sealed a k rec f array new e)
          (write_record_inv x io s s' a k rec sync_now done) in
      (
        w',
        Grows-trans x z content s s1 s' (appended-Grows x z content s a k rec here) grows,
        λ victims part.
            (grows victims part).1 k array (appended-Survives x z content s a k rec victims),
      )

  append_active-Files :
      (io : Io) (s s' : Store) (a : ActiveSegment) (k : Key) (rec : Bytes) (sync_now : Bool)
      → s.active ≡ some a
      → IsWellFiled x z content s
      → IsArray32 k
      → loc_of a.index k ≡ none
      → IsRecordOf z (content k) rec
      → append_active x io k rec sync_now s ≡ (s', ok tt)
      → Files s s' k
  unfolding append_active append_to append_unless
  append_active-Files io s s' a k rec sync_now here w array new e done =
      write_record-Files io s s' a k rec sync_now here w
        (subst (IsFilingOption x z content (2 ^ 36) s.next_id s.sealed) here w.filing) array new e
        (rw (here, new) at done)

  created-IsWellFiled :
      (s : Store)
      → s.active ≡ none
      → IsWellFiled x z content s
      → IsWellFiled x z content (created s)
  unfolding created in_active loc_of
  created-IsWellFiled s here w = record {
    segments = w.segments;
    apart = w.apart;
    fresh = λ n le. w.fresh n (omega (arith, le));
    filing = record {
      active = fresh-IsActive z s.next_id;
      reads = λ j array.
          active_missing z (record { id = s.next_id; content = magic_header; size = 8; index = [] })
            j x refl;
      small = omega arith;
      few = omega arith;
      own = w.fresh s.next_id (omega arith);
      numbered = omega arith;
    };
    bounded = w.bounded;
  }

  created-Grows : (s : Store) → s.active ≡ none → Grows x z content s (created s)
  unfolding created survivor_has in_active
  created-Grows s here victims part = (part, λ j array kept. ground (arith, here, kept))

  append_creating-Files :
      (io : Io) (s s' : Store) (o : Option ActiveSegment) (k : Key) (rec : Bytes) (sync_now : Bool)
      → s.active ≡ o
      → IsWellFiled x z content s
      → IsArray32 k
      → in_active x s.active k ≡ false
      → IsRecordOf z (content k) rec
      → append_creating x io k rec sync_now s o ≡ (s', ok tt)
      → Files s s' k
  unfolding append_creating created loc_of
  append_creating-Files io s s' (some a) k rec sync_now here w array new e done =
      append_active-Files io s s' a k rec sync_now here w array (not_indexed x s a k here new) e
        done
  append_creating-Files io s s' none k rec sync_now here w array new e done =
      let fresh : ActiveSegment = record {
        id = s.next_id;
        content = magic_header;
        size = 8;
        index = [];
      } in
      let (w', grows, survives) =
        append_active-Files io (created s) s' fresh k rec sync_now refl
          (created-IsWellFiled s here w) array refl e
          (create_inv io s s' (append_active x io k rec sync_now) done) in
      (w', Grows-trans x z content s (created s) s' (created-Grows s here) grows, survives)

  pub append_locked-Files :
      (io : Io) (s s' : Store) (k : Key) (rec : Bytes) (sync_now : Bool)
      → IsWellFiled x z content s
      → IsArray32 k
      → in_active x s.active k ≡ false
      → IsRecordOf z (content k) rec
      → append_locked x io s k rec sync_now ≡ (s', ok tt)
      → Files s s' k
  unfolding append_locked
  append_locked-Files io s s' k rec sync_now w array new e done =
      append_creating-Files io s s' s.active k rec sync_now refl w array new e
        (ground (arith, done))
