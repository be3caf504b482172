-- ===== src/Lib.antt =====
-- QuantyDB: a database with branches, whose server speaks a binary protocol. The development follows
-- one request from the socket to the key in the tree.
--
-- The parts, and the files that model them:
--
-- * Core/Encoding (crates/quantydb-core/src/encoding.rs): the keys of the tree. `encode_key` and
--   `decode_key` with their helpers; `Value` is in Core/Value. A float is its 64 bits, a text its
--   UTF-8 bytes. Core/Encoding/Order has the logical order (`logical_cmp` of the tests of that file),
--   Escape,
--   RoundTrip and Prefix the laws.
-- * Proto (crates/quantydb-proto/src): Limits, Error, Reader and Writer (codec.rs), Value, Frame,
--   Message, and Message/Batch (`RowBatcher` and `batch_rows`). A `Reader` keeps the bytes and its
--   position in them, a `Writer` its bytes and the first error. Reader/Sequence, Value/RoundTrip,
--   Message/RoundTrip, Message/Server, Batch/Collect, Batch/Fits and Frame/Laws prove about them.
-- * Server/Conn (crates/quantydb-server/src/conn.rs): one connection. Each method of `Conn` is a
--   function on the record `Conn`. The socket is the list of what its calls answer, so that every
--   behaviour of it is covered, and `flush` also gives the bytes that each call of `write` is given.
--   Handshake, Requests, Invariant, Safety, Io and Io/Fill prove about it.
-- * Core/Page, Core/FreeList, Core/Refs, Core/Commit (page.rs, freelist.rs, refs.rs and commit.rs of
--   crates/quantydb-core/src): pages as lists of bytes and what is written in them. Core/Error has the
--   errors without their texts. Core/Page/Seal has `seal` and `verify`, over any checksum.
--   Core/Commit/History and Core/Commit/Record prove about commit records.
-- * Core/Crc (crates/quantydb-core/src/crc.rs) has the checksum itself; Linear, BitByBit and Blocks prove
--   about its tables, with Prelude/Bits.
-- * Core/Storage (storage.rs) has the storage in memory, and Core/Meta (meta.rs) the two meta pages and
--   `recover`. Core/Meta/RoundTrip and Newest prove about them.
-- * Core/Pager (crates/quantydb-core/src/pager.rs): `WriteBatch`. The scalars that the batch, its
--   savepoint and a suspended batch repeat are one record, `Scalars`, which is copied field by field
--   where the source does; maps are sorted association lists (Prelude/Assoc). Core/Pager/Steps has the calls of a statement as data, and sequences of
--   them; WriteRecord has `write_record` of commit.rs. Rollback, Ownership, CopyOnWrite and Suspend
--   prove about it. Settle has `settle_freelist`, with Slot and Total, and Durable has `commit`, as the
--   writes and syncs that it asks of the storage.
-- * Core/Pager/Crash says what a disk holds after a crash: a write may be there in full, in part or not
--   at all, unless a sync stands behind it. Phases, Pages, Sealed, Slots, Atomic,
--   Recovery and History prove about `commit` and `recover` under such crashes. That a torn meta page
--   does not pass for another one is a hypothesis about the checksum, `Detected`. Core/Pager/Open has `create` and `read_page`;
--   `open` is `recover`.
-- * Core/Node (node.rs) has the nodes, Core/Node/Codec their pages and Core/Node/Search the searches in
--   the bytes of a page. Bytes and RoundTrip prove about the codec, InPlace, Lookup and Child about the
--   searches.
-- * Core/Tree (btree.rs) has `get` and `read_value`; Shape says which pages make a tree, and Get proves
--   about the descent.
-- * Core/Cache (crates/quantydb-core/src/cache.rs): the page cache. The sweep of the clock has one turn
--   more than there are slots. Core/Cache/Clock and Eviction prove about it.
-- * Server/Registry (crates/quantydb-server/src/registry.rs and the `Token` of poll/mod.rs): the slots
--   of a worker. Server/Registry/Stale proves about tokens that are out of date.
-- * Prelude has the tests, lists, bytes, integers, results, buffers and maps that the parts share.
--
-- Bounds and fuel. Numbers are natural numbers; a machine integer is one below `2 ^ w`, as IsU64 and
-- IsByte say, and an i64 is an integer within its range. `decode_key` has one round for each byte of
-- the key, `step` two rounds and `batch_rows` one for each row and two more. A key loses
-- a byte at least in each round, the handshake leaves output that stops the second round of `step`,
-- and each batch takes a row. The walks over commit records have a bound that is more than the records
-- there are. The loop of `settle_freelist` has a round for each id, and the descent of `get` one for
-- each level of the tree. A page id is a number that does not wrap: no file has `2 ^ 64` pages.
--
-- Not modelled: threads, sockets, files and system calls, which are I/O; errors of the storage during a
-- commit; the texts of errors; capacities of vectors, which change no result. The changes of the B-tree
-- and its range scan, the query languages, the executor and the SQLite reader are not modelled.
pub mod Prelude
pub mod Core
pub mod Proto
pub mod Server
