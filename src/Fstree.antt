-- ===== src/Fstree.antt =====
-- fstree/encode.go (the data), fstree/decode.go and fstree/children.go: directory entries, index nodes
-- and the keys that an object refers to. The CBOR library is a parameter.
pub mod Walk
pub mod Named
mod Examples
use amber_store.Prelude.{
  ℕ, ◌==◌, Bool, true, false, ◌||◌, Option, none, some, List, [], ◌∷◌, ◌++◌, if◌then◌else◌, length,
  Bytes, Result, ok, err, ◌>>=◌, wrap, ltb,
}
use amber_store.Key.{Key, KeyError, parse, type_of, blob, file_node, dir_leaf, dir_node, xattr_set}

-- The time of modification may be negative: a sign and a magnitude.
pub record Entry : Type 0 where
  pub name : Bytes
  pub mode : ℕ
  pub uid : ℕ
  pub gid : ℕ
  pub mtime : Bool × ℕ
  pub content_key : Bytes
  pub link_target : Bytes
  pub rdev : List ℕ
  pub xattrs_in : Bytes
  pub xattrs_key : Bytes

pub record DirPair : Type 0 where
  pub sep_name : Bytes
  pub child_key : Bytes

-- What the CBOR library makes of the body of an object; nothing where it reports an error.
pub record Cbor : Type 0 where
  pub unmarshal_keys : Bytes → Option (List Bytes)
  pub unmarshal_entries : Bytes → Option (List Entry)
  pub unmarshal_pairs : Bytes → Option (List DirPair)

pub data FsError : Type 0 where
  bad_cbor : FsError
  bad_child : KeyError → FsError
  unknown_type : ℕ → FsError

unfoldable pub decoded : {A : Type 0} → Option A → Result FsError A
decoded none = err bad_cbor
decoded (some a) = ok a

unfoldable pub parse_keys : List Bytes → Result FsError (List Key)
parse_keys [] = ok []
parse_keys (r ∷ raw) = do k ← wrap bad_child (parse r); ks ← parse_keys raw; ok (k ∷ ks)

-- A key that is not set has no bytes.
unfoldable pub optional_key : Bytes → Result FsError (List Key)
unfolding parse_keys
optional_key b = if ltb 0 (length b) then parse_keys (b ∷ []) else ok []

unfoldable pub entry_keys : List Entry → Result FsError (List Key)
unfolding optional_key
entry_keys [] = ok []
entry_keys (e ∷ es) = do
  content ← optional_key e.content_key
  xattrs ← optional_key e.xattrs_key
  rest ← entry_keys es
  ok (content ++ (xattrs ++ rest))

unfoldable pub pair_keys : List DirPair → Result FsError (List Key)
pair_keys [] = ok []
pair_keys (p ∷ ps) = do k ← wrap bad_child (parse p.child_key); ks ← pair_keys ps; ok (k ∷ ks)

unfoldable pub is_leaf : Key → Bool
is_leaf k = type_of k == blob || type_of k == xattr_set

module _ (c : Cbor) where
  unfoldable pub decode_file_node : Bytes → Result FsError (List Key)
  unfolding decoded parse_keys
  decode_file_node b = do raw ← decoded (c.unmarshal_keys b); parse_keys raw

  unfoldable pub decode_dir_leaf : Bytes → Result FsError (List Entry)
  unfolding decoded
  decode_dir_leaf b = decoded (c.unmarshal_entries b)

  unfoldable pub decode_dir_node : Bytes → Result FsError (List DirPair)
  unfolding decoded
  decode_dir_node b = decoded (c.unmarshal_pairs b)

  -- ChildKeys
  unfoldable pub child_keys : Key → Bytes → Result FsError (List Key)
  unfolding is_leaf decode_file_node decode_dir_node pair_keys decode_dir_leaf entry_keys
  child_keys k b =
      if is_leaf k
      then ok []
      else if type_of k == file_node
      then decode_file_node b
      else if type_of k == dir_node
      then decode_dir_node b >>= pair_keys
      else if type_of k == dir_leaf
      then decode_dir_leaf b >>= entry_keys
      else err (unknown_type (type_of k))
