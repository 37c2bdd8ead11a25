-- ===== src/Packstore/Recover.antt =====
-- packstore/recover.go: the tail scan of an active segment, of a file whose bytes could be read. A Go
-- map from keys is an association list, as its assignments leave it.
pub mod Sound
pub mod Torn
pub mod Recovered
use amber_store.Prelude.{
  ℕ, zero, suc, ◌+◌, Bool, true, false, not, ◌||◌, Option, none, some, List, [], ◌∷◌, ltb, ◌==◌,
  length, if◌then◌else◌, get_or, take, drop, Bytes, bytes_eq, Result, ok, err,
}
use amber_store.Key.{Key}
use amber_store.Amberpack.Record.{Record, rec_header_size, parse_record}
use amber_store.Packstore.{tag_seal, magic_header}
use amber_store.Packstore.Footer.{parse_footer}

pub record ActiveLoc : Type 0 where
  pub off : ℕ
  pub flags : ℕ
  pub ulen : ℕ
  pub slen : ℕ

abbrev pub LocIndex : Type 0
LocIndex = List (Key × ActiveLoc)

-- loc, ok := index[k]
unfoldable pub loc_of : LocIndex → Key → Option ActiveLoc
loc_of [] k = none
loc_of ((j, l) ∷ m) k = if bytes_eq j k then some l else loc_of m k

-- index[k] = loc
unfoldable pub put_loc : LocIndex → Key → ActiveLoc → LocIndex
put_loc [] k loc = (k, loc) ∷ []
put_loc ((j, l) ∷ m) k loc = if bytes_eq j k then (k, loc) ∷ m else (j, l) ∷ put_loc m k loc

pub record ScanResult : Type 0 where
  pub size : ℕ
  pub index : LocIndex
  pub is_sealed : Bool

unfoldable pub loc_at : ℕ → Record → ActiveLoc
loc_at off r = record { off = off; flags = r.flags; ulen = r.ulen; slen = r.slen }

-- The loop from the offset `off` on. Every round takes a record header at least, so as many rounds
-- as there are bytes are enough.
unfoldable pub scan_from : ℕ → Bytes → ℕ → LocIndex → ScanResult
unfolding loc_at
scan_from zero b off index = record { size = off; index = index; is_sealed = false }
scan_from (suc f) b off index =
    if not (ltb off (length b))
    then record { size = off; index = index; is_sealed = false }
    else if get_or b off 0 == tag_seal
    then elim (parse_footer b) [
      | ok _ ↦ record { size = length b; index = index; is_sealed = true }
      | err _ ↦ record { size = off; index = index; is_sealed = false }
    ]
    else elim (parse_record (drop off b)) [
      | ok r ↦ scan_from f b (off + (rec_header_size + r.slen)) (put_loc index r.key (loc_at off r))
      | err _ ↦ record { size = off; index = index; is_sealed = false }
    ]

unfoldable pub scan_active : Bytes → ScanResult
unfolding scan_from
scan_active b =
    if ltb (length b) (length magic_header)
      || not (bytes_eq (take (length magic_header) b) magic_header)
    then record { size = 0; index = []; is_sealed = false }
    else scan_from (length b) b (length magic_header) []
