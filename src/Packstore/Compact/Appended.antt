-- ===== src/Packstore/Compact/Appended.antt =====
-- An active segment of packstore/packstore.go with one more record of the map.
use amber_store.Prelude.{
  ℕ, ◌^◌, ◌≤◌, ◌≡◌, refl, sym, ◌∙◌, ap, arith, Bool, true, false, ◌||◌, Option, none, some, List,
  [], ◌∷◌, length, if◌then◌else◌, Bytes, bytes_eq, bytes_eq_iff, ok, Result, get_or, slice, get_be,
}
use amber_store.Key.{Key}
use amber_store.Key.Fields.{IsArray32}
use amber_store.Amberpack.Record.{Zstd}
use amber_store.Packstore.Filter.{FuseLibrary}
use amber_store.Packstore.Footer.{SealedSegment}
use amber_store.Packstore.Filed.{held}
use amber_store.Packstore.Recover.{ActiveLoc, LocIndex, loc_of, put_loc}
use amber_store.Packstore.Recover.Torn.{loc_of-put_loc}
use amber_store.Packstore.Store.{
  ActiveSegment, Store, StoreError, in_active, read_active, with_active,
}
use amber_store.Packstore.Store.Sealing.{IsRecordOf}
use amber_store.Packstore.Store.Puts.{appended, appended-IsActive, appended-reads}
use amber_store.Packstore.Store.Refinement.{IsRecordOf-length, length-put_loc}
use amber_store.Packstore.Compact.{survivor_has}
use amber_store.Packstore.Compact.Wellfiled.{IsFiling, Survives, Grows}

in_active-appended :
    (x : FuseLibrary) (a : ActiveSegment) (k : Key) (rec : Bytes) (j : Key)
    → in_active x (some (appended a k rec)) j ≡ (bytes_eq k j || in_active x (some a) j)
unfolding in_active
in_active-appended x a k rec j = ground (
  arith,
  loc_of-put_loc a.index k j (record {
    off = a.size;
    flags = get_or rec 33 0;
    ulen = get_be (slice rec 34 38);
    slen = get_be (slice rec 38 42);
  }),
)

pub nonempty-put_loc : (m : LocIndex) (k : Key) (l : ActiveLoc) → 1 ≤ length (put_loc m k l)
unfolding put_loc
nonempty-put_loc [] k l = omega arith
nonempty-put_loc ((j, i) ∷ m) k l = ground arith

held-or :
    (c b : Bool) (d : Bytes)
    → ◌≡◌ {A = Result StoreError (Option Bytes)}
        (if c then ok (some d) else held b d)
        (held (c || b) d)
held-or true b d = refl
held-or false b d = refl

module _ (x : FuseLibrary) (z : Zstd) (content : Key → Bytes) where
  pub appended-IsFiling :
      (n : ℕ) (gs : List SealedSegment) (a : ActiveSegment) (k : Key) (rec : Bytes)
      → IsFiling x z content (2 ^ 36) n gs a
      → IsArray32 k
      → loc_of a.index k ≡ none
      → IsRecordOf z (content k) rec
      → IsFiling x z content (2 ^ 37) n gs (appended a k rec)
  appended-IsFiling n gs a k rec f array new e = record {
    active = appended-IsActive z a k (content k) rec f.active array new e;
    reads = λ j array'.
        appended-reads x z a k (content k) rec f.active array new e j
        ∙ at_key j (bytes_eq k j) refl (f.reads j array')
        ∙ ap (λ b. held b (content j)) (sym (in_active-appended x a k rec j));
    small = omega (arith, f.small, IsRecordOf-length z (content k) rec e);
    few = omega (arith, f.few, length-put_loc a.index k _, e.exact);
    own = f.own;
    numbered = f.numbered;
  }
    where
      at_key :
          (j : Key) (c : Bool)
          → bytes_eq k j ≡ c
          → read_active x z (some a) j ≡ held (in_active x (some a) j) (content j)
          → ◌≡◌ {A = Result StoreError (Option Bytes)}
              (if c then ok (some (content k)) else read_active x z (some a) j)
              (held (c || in_active x (some a) j) (content j))
      at_key j true same h = ap (λ (i : Key). ok (some (content i))) ((bytes_eq_iff k j).0 same)
      at_key j false other h = h

  -- What the append makes of the store, before a rotation.
  pub appended-Grows :
      (s : Store) (a : ActiveSegment) (k : Key) (rec : Bytes)
      → s.active ≡ some a
      → Grows x z content s (with_active s (appended a k rec))
  unfolding with_active survivor_has
  appended-Grows s a k rec here victims part =
      (part, λ j array kept. ground (arith, here, kept, in_active-appended x a k rec j))

  pub appended-Survives :
      (s : Store) (a : ActiveSegment) (k : Key) (rec : Bytes) (victims : List SealedSegment)
      → Survives x z content victims (with_active s (appended a k rec)) k
  unfolding with_active survivor_has
  appended-Survives s a k rec victims =
      ground (arith, in_active-appended x a k rec k, bytes_eq_iff k k)
