-- ===== src/Amberpack/Pack/Written.antt =====
-- What a `Writer` of pack.go has written after some objects, and the wire pack that it closes.
use amber_store.Prelude.{
  ◌≡◌, ◌∙◌, arith, List, [], ◌∷◌, ◌++◌, true, Bytes, Result, ok, >>=-eq-ok, ◌>>◌, append_assoc,
  append-nil,
}
use amber_store.Amberpack.Record.{RecordError, Zstd, encode_record}
use amber_store.Amberpack.Pack.{
  Object, Writer, new_writer, ensure_header, add, close, pack_magic, tag_end,
}

-- A client that adds objects until one is refused.
unfoldable pub add_all : (z : Zstd) → Writer → List Object → Result RecordError Writer
add_all z w [] = ok w
add_all z w (o ∷ os) = let (w', r) = add z w o in r >> add_all z w' os

-- The records of the objects, one each.
abbrev pub Encodes : (z : Zstd) → List Object → List Bytes → Type 0
Encodes z [] [] = Unit {0}
Encodes z [] (r ∷ rs) = ⊥
Encodes z (o ∷ os) [] = ⊥
Encodes z (o ∷ os) (r ∷ rs) = (encode_record z o.key o.bytes ≡ ok r) × Encodes z os rs

unfoldable pub concat : List Bytes → Bytes
concat [] = []
concat (r ∷ rs) = r ++ concat rs

-- Adding an object appends its record, the header first, and leaves a writer with its header.
pub add_inv :
    (z : Zstd) (w : Writer) (o : Object)
    → (add z w o).1 ≡ ok tt
    → (rec : Bytes) × (encode_record z o.key o.bytes ≡ ok rec)
      × ((add z w o).0.out ≡ (ensure_header w).out ++ rec)
      × ((add z w o).0.wrote_header ≡ true)
unfolding add
add_inv z w o e = ground arith

header_once : (w : Writer) → w.wrote_header ≡ true → (ensure_header w).out ≡ w.out
unfolding ensure_header
header_once w h = ground arith

add_all-written :
    (z : Zstd) (w w' : Writer) (os : List Object)
    → add_all z w os ≡ ok w'
    → (rs : List Bytes) × Encodes z os rs
      × ((ensure_header w').out ≡ (ensure_header w).out ++ concat rs)
unfolding add_all concat
add_all-written z w w' [] e = let same : w ≡ w' = cc e in ([], tt, rw (same, append-nil))
add_all-written z w w' (o ∷ os) e =
    let (_, first, later) = >>=-eq-ok (add z w o).1 (λ _. add_all z (add z w o).0 os) e in
    let (rec, encoded, out, header) = add_inv z w o first in
    let (rs, all, written) = add_all-written z (add z w o).0 w' os later in
    (
      rec ∷ rs,
      (encoded, all),
      written
          ∙ rw (header_once (add z w o).0 header, out)
              (append_assoc (ensure_header w).out rec (concat rs)),
    )

-- The wire pack of some objects: the magic, their records in order, and the end marker.
pub close-written :
    (z : Zstd) (w : Writer) (os : List Object)
    → add_all z new_writer os ≡ ok w
    → (rs : List Bytes) × Encodes z os rs
      × ((close w).out ≡ pack_magic ++ (concat rs ++ (tag_end ∷ [])))
unfolding close
close-written z w os e =
    let (rs, all, written) = add_all-written z new_writer w os e in (rs, all, rw written)
