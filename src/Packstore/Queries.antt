-- ===== src/Packstore/Queries.antt =====
-- packstore/packstore.go and packstore/missing.go: whole records, stored sizes and places of objects,
-- and the keys of a list that are absent.
mod Examples
use native.Mathlib.Nat.{div-add-mod, mod-lt}
use amber_store.Prelude.{
  ℕ, zero, suc, ◌+◌, ◌-◌, ◌*◌, ◌/◌, ◌≤◌, ◌<◌, ◌≡◌, refl, sym, ◌∙◌, ap, ap₂, arith, Bool, true,
  false, not, ◌||◌, Option, none, some, List, [], ◌∷◌, ◌++◌, ltb, ◌==◌, length, if◌then◌else◌, take,
  drop, slice, Bytes, min, Result, ok, err, ◌>>=◌, ◌>>◌, fail_if, wrap, take-append-drop, drop-drop,
  length-drop, Bool-cases, inl, inr, ◌≢◌, append-nil, append_assoc,
}
use amber_store.Key.{Key}
use amber_store.Amberpack.Record.{rec_header_size}
use amber_store.Packstore.Filter.{FuseLibrary}
use amber_store.Packstore.Footer.{ReadError, SealedSegment, get_record, stored_size, locate}
use amber_store.Packstore.Recover.{ActiveLoc, loc_of}
use amber_store.Packstore.Store.{
  ActiveSegment, Store, StoreError, has_object, any_sealed, in_active, store_closed, not_found,
  io_failed, bad_segment,
}

module _ (x : FuseLibrary) where
  unfoldable pub record_of_loc : ActiveSegment → Option ActiveLoc → Result StoreError (Option Bytes)
  record_of_loc a none = ok none
  record_of_loc a (some loc) = do
    fail_if (ltb (length a.content) (loc.off + (rec_header_size + loc.slen))) io_failed
    ok (some (slice a.content loc.off (loc.off + (rec_header_size + loc.slen))))

  unfoldable pub record_active : Option ActiveSegment → Key → Result StoreError (Option Bytes)
  unfolding record_of_loc
  record_active none k = ok none
  record_active (some a) k = record_of_loc a (loc_of a.index k)

  unfoldable pub record_sealed : List SealedSegment → Key → Result StoreError (Option Bytes)
  record_sealed [] k = ok none
  record_sealed (g ∷ gs) k = elim (record_sealed gs k) [
    | ok none ↦ wrap bad_segment (get_record x g k)
    | ok (some r) ↦ ok (some r)
    | err e ↦ err e
  ]

  unfoldable pub found_record : Result StoreError (Option Bytes) → Result StoreError Bytes
  found_record (ok none) = err not_found
  found_record (ok (some r)) = ok r
  found_record (err e) = err e

  -- Store.GetRecord
  unfoldable pub get_object_record : Store → Key → Result StoreError Bytes
  unfolding record_active record_sealed found_record
  get_object_record s k =
      if s.is_closed then err store_closed else elim (record_active s.active k) [
        | ok none ↦ found_record (record_sealed s.sealed k)
        | ok (some r) ↦ ok r
        | err e ↦ err e
      ]

  unfoldable pub or_older : {A : Type 0} → Option A → Option A → Option A
  or_older (some a) older = some a
  or_older none older = older

  unfoldable pub size_sealed : List SealedSegment → Key → Option ℕ
  unfolding or_older
  size_sealed [] k = none
  size_sealed (g ∷ gs) k = or_older (size_sealed gs k) (stored_size x g k)

  unfoldable pub size_active : Option ActiveSegment → Key → Option ℕ
  size_active none k = none
  size_active (some a) k = elim (loc_of a.index k) [ some loc ↦ some loc.slen | none ↦ none ]

  -- Store.StoredSize
  unfoldable pub object_size : Store → Key → Result StoreError (Option ℕ)
  unfolding size_active size_sealed or_older
  object_size s k =
      if s.is_closed
      then err store_closed
      else ok (or_older (size_active s.active k) (size_sealed s.sealed k))

  unfoldable pub place_in : SealedSegment → Option ℕ → Option (ℕ × ℕ)
  place_in g none = none
  place_in g (some off) = some (g.id, off)

  unfoldable pub place_sealed : List SealedSegment → Key → Option (ℕ × ℕ)
  unfolding or_older place_in
  place_sealed [] k = none
  place_sealed (g ∷ gs) k = or_older (place_sealed gs k) (place_in g (locate x g k))

  unfoldable pub place_active : Option ActiveSegment → Key → Option (ℕ × ℕ)
  place_active none k = none
  place_active (some a) k = elim (loc_of a.index k) [
    | some loc ↦ some (a.id, loc.off)
    | none ↦ none
  ]

  -- Store.locateLocked
  unfoldable pub locate_locked : Store → Key → Option (ℕ × ℕ)
  unfolding place_active place_sealed or_older
  locate_locked s k = or_older (place_active s.active k) (place_sealed s.sealed k)

  -- The loop of one goroutine of `Missing`.
  unfoldable pub missing_in : Store → List Key → Result StoreError (List Key)
  missing_in s [] = ok []
  missing_in s (k ∷ ks) = do
    found ← has_object x s k
    rest ← missing_in s ks
    ok (if found then rest else k ∷ rest)

  -- The chunks of the keys from the worker `i` on, `n` workers left, joined in order. The first error
  -- stands for the one that the group reports.
  unfoldable pub missing_chunks : Store → List Key → ℕ → ℕ → ℕ → Result StoreError (List Key)
  unfolding missing_in
  missing_chunks s keys chunk_len zero i = ok []
  missing_chunks s keys chunk_len (suc n) i =
      let lo = min (i * chunk_len) (length keys) in
      let hi = min ((i + 1) * chunk_len) (length keys) in
      do
        here ← missing_in s (slice keys lo hi)
        rest ← missing_chunks s keys chunk_len n (i + 1)
        ok (here ++ rest)

  -- Store.Missing, on a machine of `procs` processors.
  unfoldable pub missing : Store → ℕ → List Key → Result StoreError (List Key)
  unfolding missing_chunks
  missing s procs keys =
      let m = (length keys + 64 - 1) / 64 in
      let workers = if ltb m procs then m else procs in
      if workers == 0
      then ok []
      else missing_chunks s keys ((length keys + workers - 1) / workers) workers 0

  -- The keys that the store does not hold, in their order.
  unfoldable pub absent : Store → List Key → List Key
  absent s [] = []
  absent s (k ∷ ks) =
      if in_active x s.active k || any_sealed x s.sealed k then absent s ks else k ∷ absent s ks

  missing_in-absent :
      (s : Store) (ks : List Key) → s.is_closed ≡ false → missing_in s ks ≡ ok (absent s ks)
  unfolding missing_in absent has_object
  missing_in-absent s [] h = refl
  missing_in-absent s (k ∷ ks) h = rw (h, missing_in-absent s ks h) (ground arith)

  absent-append : (s : Store) (ks js : List Key) → absent s (ks ++ js) ≡ absent s ks ++ absent s js
  unfolding absent
  absent-append s [] js = refl
  absent-append s (k ∷ ks) js = ground (arith, absent-append s ks js)

  cut_on : (keys : List Key) (lo hi : ℕ) → lo ≤ hi → slice keys lo hi ++ drop hi keys ≡ drop lo keys
  cut_on keys lo hi le =
      let sum : lo + (hi - lo) ≡ hi = omega arith in
      ap (λ n. slice keys lo hi ++ drop n keys) (sym sum)
      ∙ ap (λ (l : List Key). slice keys lo hi ++ l) (sym (drop-drop lo (hi - lo) keys))
      ∙ take-append-drop (hi - lo) (drop lo keys)

  nothing_left : (keys : List Key) (n : ℕ) → length keys ≤ n → drop n keys ≡ []
  nothing_left [] zero h = refl
  nothing_left [] (suc n) h = refl
  nothing_left (k ∷ ks) zero h = absurd (omega arith)
  nothing_left (k ∷ ks) (suc n) h = nothing_left ks n (omega arith)

  -- The chunks from a worker on are what is left of the keys.
  missing_chunks-absent :
      (s : Store) (keys : List Key) (c n i : ℕ)
      → s.is_closed ≡ false
      → length keys ≤ (i + n) * c
      → missing_chunks s keys c n i ≡ ok (absent s (drop (min (i * c) (length keys)) keys))
  unfolding missing_chunks absent
  missing_chunks-absent s keys c zero i h all =
      let end : length keys ≤ min (i * c) (length keys) = omega arith in
      ap (λ l. ok (absent s l)) (sym (nothing_left keys (min (i * c) (length keys)) end))
  missing_chunks-absent s keys c (suc n) i h all =
      let lo : ℕ = min (i * c) (length keys) in
      let hi : ℕ = min ((i + 1) * c) (length keys) in
      let le : lo ≤ hi = omega arith in
      let rest : missing_chunks s keys c n (i + 1) ≡ ok (absent s (drop hi keys)) =
        missing_chunks-absent s keys c n (i + 1) h (omega arith) in
      rw (missing_in-absent s (slice keys lo hi) h, rest)
        (ap ok (
          sym (absent-append s (slice keys lo hi) (drop hi keys))
          ∙ ap (absent s) (cut_on keys lo hi le)))

  enough_chunks : (len w : ℕ) → w ≢ 0 → len ≤ (0 + w) * ((len + w - 1) / w)
  enough_chunks len w h =
      let pos : 0 < w = omega arith in
      omega (arith, div-add-mod (len + w - 1) w, mod-lt (len + w - 1) pos)

  -- However many workers share the keys, on an open store `Missing` returns the keys that the store
  -- does not hold, in the order and as often as they were asked for.
  pub missing-absent :
      (s : Store) (procs : ℕ) (keys : List Key)
      → s.is_closed ≡ false
      → 1 ≤ procs
      → missing s procs keys ≡ ok (absent s keys)
  unfolding missing absent
  missing-absent s procs keys h some_procs =
      let m : ℕ = (length keys + 64 - 1) / 64 in
      let w : ℕ = if ltb m procs then m else procs in
      elim (Bool-cases (w == 0)) [
        | inl idle ↦
            let empty : length keys ≤ 0 = ground arith in
            rw idle (ap (λ l. ok (absent s l)) (sym (nothing_left keys 0 empty)))
        | inr busy ↦
            let none_before : min (0 * ((length keys + w - 1) / w)) (length keys) ≡ 0 =
              omega arith in
            rw busy (
              missing_chunks-absent s keys ((length keys + w - 1) / w) w 0 h
                (enough_chunks (length keys) w (ground arith))
              ∙ ap (λ n. ok (absent s (drop n keys))) none_before)
      ]
