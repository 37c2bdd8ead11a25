-- ===== src/Lib.antt =====
-- A verification library for amber-store, a content-addressed store of file trees: objects are
-- named by keys that carry a type, a length and a truncated BLAKE3 hash.
--
-- Each file models the Go package that its first comment names:
--   Key: key/key.go, key/type.go and key/errors.go; a key is its list of 32 bytes.
--   Keylist: keylist/keylist.go, the lists of keys that clients and servers exchange.
--   Cborx: cborx/cborx.go, the canonical CBOR maps of extended attributes.
--   Amberpack: amberpack/record.go (Amberpack.Record), the record that packs and segments share,
--     amberpack/pack.go (Amberpack.Pack), the wire pack, and the checksum of both (Amberpack.Crc).
--   Packstore: packstore/segment.go; Packstore.Index, Packstore.Filter and Packstore.Footer:
--     packstore/footer.go, the footer of a sealed segment and the segment that is read through it;
--     Packstore.Recover: packstore/recover.go, the tail scan of an active segment; Packstore.Store:
--     the store of packstore/packstore.go, as single puts and reads use it; Packstore.Lifecycle: its
--     batches, sync, wipe and close, and packstore/barrier.go, the keys that a collection spares;
--     Packstore.Segments: packstore/gc.go, the sealed segments as a collector sees them;
--     Packstore.Scrub: packstore/verify.go, the check of sealed segments and of single objects;
--     Packstore.Queries: whole records, sizes and places of packstore/packstore.go, and
--     packstore/missing.go; Packstore.Liveness and Packstore.Compact: packstore/compact.go, the report
--     on live records and the sweep; Packstore.Marks: packstore/markset.go, the marks of a collection.
--   Fstree: fstree/decode.go, fstree/children.go and the data of fstree/encode.go, the tree objects and
--     the keys they refer to, with Fstree.Named, the same keys read off the decoded bodies;
--     Fstree.Walk: fstree/reachable.go and fstree/checkcomplete.go.
--   Gc: gc/collector.go, the mark from the roots of all references; Gc.Cycle: gc/cycle.go and the
--     reference hooks of gc/collector.go, a cycle of mark and sweep with the writes in between.
--   Allowlist: allowlist/allowlist.go, capabilities and the list of allowed keys.
--   Nonces: nonces/nonces.go, the replay cache of a remote server.
-- Prelude holds tests, lists, error results, byte strings and masks over the native numbers.
--
-- Functions keep the source's names in snake case. Bytes are natural numbers; a conversion to a byte
-- or a word is written out as a remainder where it can matter. A function that returns an
-- error returns a `Result`, whose errors are constructors in the place of the messages. BLAKE3, zstd,
-- CBOR of tree objects and the binary fuse filter are parameters, with the laws that what was encoded
-- decodes and that a filter passes what it was built of. The theorems on a collection take one map from
-- keys to payloads of which every segment is a part: a key names its payload by a hash. A store is a
-- state that its operations return; what the operating system answers to the calls of an operation is
-- an argument, so that every error path is there. Calls run one at a time, as under the store's locks;
-- what runs between the mark and the sweep of a collection is a sequence of puts and published
-- references. The sweep copies its records one after the other, as with one worker.
--
-- Loops are structural recursion, on what is left to do or on a bound: the iterator of a pack takes
-- one byte at least in every round, so that one round more than there are bytes is enough; the tail
-- scan and the walk of a scrub likewise have one round for each byte, the binary search one round
-- for a row of its bucket; the walks of a tree and of a mark have rounds enough for the objects and
-- their children; the length of a 64-bit number is found in 64 halvings.
--
-- Not modelled: the packages that are not named above. They are HTTP handlers and clients, files and
-- processes, cryptography and user interfaces, and the stores of references, grants, allowed keys and
-- transfers, which are yet to come. Of a collection the statistics, the pacing of copies and the choice
-- of the ratio by free space are left out.
pub mod Prelude
pub mod Key
pub mod Keylist
pub mod Cborx
pub mod Amberpack
pub mod Packstore
pub mod Fstree
pub mod Gc
pub mod Allowlist
pub mod Nonces
