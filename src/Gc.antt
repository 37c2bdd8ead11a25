-- ===== src/Gc.antt =====
-- gc/collector.go: the mark of a collection, a depth-first walk from the roots of all references into a
-- `MarkSet`. The objects are read by a parameter; whether the context is done in a round is another.
pub mod Marking
pub mod Marked
pub mod Returns
pub mod Cycle
pub mod Examples
use amber_store.Prelude.{
  ℕ, zero, suc, ◌+◌, ◌%◌, Bool, true, false, ◌&&◌, Option, none, some, List, [], ◌∷◌, ◌==◌,
  if◌then◌else◌, Bytes, Result, ok, err,
}
use amber_store.Key.{Key}
use amber_store.Fstree.{Cbor}
use amber_store.Fstree.Walk.{WalkError, fetch_children}
use amber_store.Packstore.Filter.{FuseLibrary}
use amber_store.Packstore.Store.{Store}
use amber_store.Packstore.Marks.{MarkSet, new_mark_set, mark}

pub data MarkError : Type 0 where
  walk_cancelled : MarkError
  not_in_store : Key → MarkError
  walk_failed : WalkError → MarkError

-- `append(stack, children...)`, of a stack whose top comes first.
unfoldable pub push_all : List Key → List Key → List Key
push_all stack [] = stack
push_all stack (k ∷ ks) = push_all (k ∷ stack) ks

abbrev pub Marking : Type 0
Marking = Option (Result MarkError MarkSet)

-- The next step, unless there was an error.
unfoldable pub then_mark : Marking → (MarkSet → Marking) → Marking
then_mark none f = none
then_mark (some (ok m)) f = f m
then_mark (some (err e)) f = some (err e)

module _ (x : FuseLibrary) (c : Cbor) (get : Key → Option Bytes) (cancelled : ℕ → Bool) where
  unfoldable pub push_children :
      (MarkSet → List Key → Marking) → MarkSet → List Key → Result WalkError (List Key) → Marking
  unfolding push_all
  push_children loop m stack (err e) = some (err (walk_failed e))
  push_children loop m stack (ok ks) = loop m (push_all stack ks)

  -- What follows the mark of a key; the payloads of leaves are not read.
  unfoldable pub after_mark :
      (MarkSet → List Key → Marking) → Key → List Key → MarkSet × (Bool × Bool) → Marking
  unfolding push_children fetch_children
  after_mark loop k stack (m, (newly, false)) = some (err (not_in_store k))
  after_mark loop k stack (m, (false, true)) = loop m stack
  after_mark loop k stack (m, (true, true)) = push_children loop m stack (fetch_children c get k)

  -- Collector.markFrom, in the round of a number. Nothing stands for rounds that ran out.
  unfoldable pub mark_loop : ℕ → ℕ → MarkSet → List Key → Marking
  unfolding after_mark
  mark_loop zero n m stack = none
  mark_loop (suc f) n m [] = some (ok m)
  mark_loop (suc f) n m (k ∷ stack) =
      if n % 1024 == 0 && cancelled n
      then some (err walk_cancelled)
      else after_mark (mark_loop f (n + 1)) k stack (mark x m k)

  unfoldable pub mark_from : ℕ → MarkSet → Key → Marking
  unfolding mark_loop
  mark_from rounds m root = mark_loop rounds 0 m (root ∷ [])

  unfoldable pub mark_roots : ℕ → MarkSet → List Key → Marking
  unfolding mark_from then_mark
  mark_roots rounds m [] = some (ok m)
  mark_roots rounds m (root ∷ roots) =
      then_mark (mark_from rounds m root) (λ m'. mark_roots rounds m' roots)

  -- Collector.markLive
  unfoldable pub mark_live : ℕ → Store → List Key → Marking
  unfolding mark_roots new_mark_set
  mark_live rounds s roots = mark_roots rounds (new_mark_set s) roots
