-- ===== src/Packstore.antt =====
-- The packstore package: a store of objects in append-only segment files. packstore/segment.go, the
-- constants of the format and the stored object.
pub mod Index
pub mod Filter
pub mod Footer
pub mod Recover
pub mod Store
pub mod Queries
pub mod Filed
pub mod Segments
pub mod Scrub
pub mod Liveness
pub mod Compact
pub mod Marks
pub mod Lifecycle
pub mod Examples
use amber_store.Prelude.{ℕ, [], ◌∷◌, Bytes}
use amber_store.Key.{Key}

abbrev pub tag_seal : ℕ
tag_seal = 0xf0

-- "AMBERSG\x01"
abbrev pub magic_header : Bytes
magic_header = 65 ∷ 77 ∷ 66 ∷ 69 ∷ 82 ∷ 83 ∷ 71 ∷ 1 ∷ []

-- "AMBERSGF"
abbrev pub magic_trailer : Bytes
magic_trailer = 65 ∷ 77 ∷ 66 ∷ 69 ∷ 82 ∷ 83 ∷ 71 ∷ 70 ∷ []

pub record Object : Type 0 where
  pub key : Key
  pub data_bytes : Bytes
