-- ===== src/Packstore/Store/PutGet.antt =====
-- What `Get` returns after a `Put`.
use amber_store.Prelude.{
  ◌≡◌, refl, sym, ◌∙◌, ap, subst, arith, Bool, true, false, not, ◌&&◌, inl, inr, Option, some,
  if◌then◌else◌, Bytes, bytes_eq, Result, ok, err,
}
use amber_store.Key.{Key, parse as key_parse}
use amber_store.Key.Fields.{IsArray32}
use amber_store.Amberpack.Record.{Zstd}
use amber_store.Packstore.Filter.{FuseLibrary}
use amber_store.Packstore.Store.{
  Store, StoreError, Io, has_object, read_object, observe, put_new, put_object,
}
use amber_store.Packstore.Store.Reads.{IsWritable}
use amber_store.Packstore.Store.Refinement.{
  HasRoom, holds, put_new-Updates, observe_keeps, observe_reads,
}

put_object_inv :
    (x : FuseLibrary) (z : Zstd) (io : Io) (s s' : Store) (k : Key) (d : Bytes)
    → put_object x z io s k d ≡ (s', ok tt)
    → put_new x z io (observe x s k) k d (has_object x (observe x s k) k) ≡ (s', ok tt)
unfolding put_object
put_object_inv x z io s s' k d h = ground (arith, h)

has_object-holds :
    (x : FuseLibrary) (s : Store) (k : Key) (b : Bool)
    → has_object x (observe x s k) k ≡ ok b
    → holds x s k ≡ b
unfolding has_object
has_object-holds x s k b h =
    let (active, segments, closed, _) = observe_keeps x s k in
    let answer : (if s.is_closed then err _ else ok (holds x s k)) ≡ ok b =
      rw (active, segments, closed) at h in
    ground (arith, answer)

observed-IsWritable :
    (x : FuseLibrary) (z : Zstd) (s : Store) (k : Key)
    → IsWritable z s.active
    → IsWritable z (observe x s k).active
observed-IsWritable x z s k h = subst (IsWritable z) (sym (observe_keeps x s k).0) h

-- A `Put` of a canonical key that reports success, on a store whose active segment is well formed and
-- away from the limits of its format, whatever the system calls answered and whether or not it sealed
-- the segment, leaves a well-formed store. It reads the payload at the key if the key was not stored
-- before, and every other 32-byte key, and a key that was stored, as before.
pub put_object-read_object :
    (x : FuseLibrary) (z : Zstd) (io : Io) (s s' : Store) (k : Key) (d : Bytes)
    → IsWritable z s.active
    → HasRoom s.active
    → IsArray32 k
    → key_parse k ≡ ok k
    → put_object x z io s k d ≡ (s', ok tt)
    → IsWritable z s'.active
      × ((j : Key)
          → IsArray32 j
          → read_object x z s' j
            ≡ (if bytes_eq k j && not (holds x s k) then ok (some d) else read_object x z s j))
put_object-read_object x z io s s' k d h room array hk done =
    let s1 : Store = observe x s k in
    let kept = (observe_keeps x s k).0 in
    elim (put_new-Updates x z io s1 s' k d (has_object x s1 k) refl (observed-IsWritable x z s k h)
      (subst HasRoom (sym kept) room) array hk (put_object_inv x z io s s' k d done)) [
        | inl (stored, same) ↦ (
          subst (IsWritable z) (sym (ap (λ t. t.active) same)) (observed-IsWritable x z s k h),
          λ j array'.
              ap (λ t. read_object x z t j) same
              ∙ observe_reads x z s k j
              ∙ kept_value (bytes_eq k j) (holds x s k) (read_object x z s j) d
                  (has_object-holds x s k true stored),
        )
        | inr (absent, (writable, reads)) ↦ (
          writable,
          λ j array'.
              reads j array'
              ∙ ap (λ r. if bytes_eq k j then ok (some d) else r) (observe_reads x z s k j)
              ∙ new_value (bytes_eq k j) (holds x s k) (read_object x z s j) d
                  (has_object-holds x s k false absent),
        )
      ]
  where
    kept_value :
        (c b : Bool) (r : Result StoreError (Option Bytes)) (d : Bytes)
        → b ≡ true
        → r ≡ (if c && not b then ok (some d) else r)
    kept_value c b r d h = ground (arith, h)

    new_value :
        (c b : Bool) (r : Result StoreError (Option Bytes)) (d : Bytes)
        → b ≡ false
        → (if c then ok (some d) else r) ≡ (if c && not b then ok (some d) else r)
    new_value c b r d h = ground (arith, h)
