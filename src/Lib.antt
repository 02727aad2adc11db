-- ===== src/Lib.antt =====
-- labdb, a relational database in C++: the verified model of its storage and of its SQL front.
--
-- labdb keeps a database in one file of 4096-byte pages and a write-ahead log beside it. A page
-- holds records behind a slot directory. Every page that is written goes to the log as part of a
-- transaction; a commit frame makes the transaction durable, and recovery replays the committed
-- frames. The pager keeps the free list and copies the log into the file at a checkpoint, and the
-- buffer pool keeps pages in memory. Rows become records by a codec, whose keys the indexes order.
-- SQL text becomes tokens, and tokens statements.
--
-- Files and what they model:
-- Common: byte access (src/common.hpp); memory is a function from offsets to bytes.
-- Page: a page and its header (src/page.hpp), over the same bytes.
-- Slotted: the slotted page (src/slotted_page.hpp). Its children: Invariant has the
--   well-formedness of a page, Records what a slot holds, and Compact, Compacted, Place, Placed,
--   Insert, Erase and Init the operations' proofs.
-- Io: reads and writes of a file (src/io.cpp), whose bytes and size are the state.
-- Checksum: checksum64 (src/wal.cpp).
-- Wal: the log (src/wal.cpp, src/wal.hpp), its state the fields of the class and the bytes of its
--   file. Its children: Slots has the maps from pages to slots, Frames the bytes of a frame, Replay
--   what a scan finds, Log the invariant, Header the header's writes, Reads the specification and
--   the refinement, Recovery and Durability the crashes.
-- Pager: pages, the meta page, the free list, commits, checkpoints and recovery (src/pager.cpp,
--   src/pager.hpp) over the bytes of the two files. Its children: MetaPage, FreeList.
-- Pool: the buffer pool (src/buffer_pool.cpp, src/buffer_pool.hpp) over the pager. Its children: Clock is
--   about the choice of a victim, Sound says when a pool holds the pages of a view, Evicted, Claim and
--   Obtain are about emptying, claiming and pinning a frame, Readable is about a read, Laws has the laws of
--   a page store for the pool, and Start is about a new pool and about recording the tree's root.
-- PageStore: the operations of the pool that the tree and the heap call (src/buffer_pool.hpp), as an
--   interface, with the laws that the tree relies on. Pool.pool_store is the pool as such a store. The
--   results on the tree are for any store with these laws and any callback for a new root that leaves
--   the pages alone; Pool.Laws and Pool.Start have both for the pool, between operations, at which no
--   page is pinned, and with an empty free list. Tests.Trees.Stock applies them to a pool.
-- Btree: the nodes of the B+Tree (src/btree.hpp). Its children: Tree has search, insertion and the
--   height, Erase deletion, Cursors the cursors (src/btree.cpp); Bounds is about the binary
--   searches, Indexed about lists by index, Leaves about the entries of a leaf, Branches about the
--   keys and children of a node. Shape says what a well-formed tree is, and Search what a search in
--   it gives. LeafInsert, LeafSplit and InsertLeaf are about the insertion at a leaf; Pieces has the
--   trees below a node as a sequence, which Descend and SplitChild change, and Runs and NodeSplit the
--   nodes that hold them; Grown says what an insertion leaves, and Absorb, Insert and Root prove it
--   for a node, a descent and the whole tree, with Halved and Separate on a node's split. Fresh is
--   about new trees and about lookups behind an insertion, Height about the height.
-- Heap: the table of records over a chain of slotted pages (src/heap.cpp).
-- Record: rows as bytes (src/record.hpp), with the keys of the indexes and the addresses of rows.
-- JoinHash: the hash table of a join (src/join_hash.hpp). Its child Buckets is about their number.
-- Token, Lexer: SQL text into tokens (src/token.hpp, src/lexer.hpp).
-- Unparse: statements into SQL text (src/unparse.hpp).
-- Ast, Parser: tokens into statements (src/ast.hpp, src/parser.cpp). Its children: Select has the
--   rules of SELECT, Script statements and scripts.
-- Tests: runs on concrete data.
--
-- Results of calls that throw are in Prelude.Faults. Fields of w bits wrap by `% 2 ^ w` where they
-- are stored. The map of a page id to a slot is an association list with one entry for a key.
--
-- Bounds and fuel: the scan of the log runs on `scan_fuel` rounds, one for each frame that the size of
-- the file has room for and one to stop; the loop for the number of buckets on as many rounds as there
-- are rows, of at most 2 ^ 63; `tokenize` runs on one round for each byte and one for the end, and says
-- `none` where the fuel runs out. The parser's loops run on one round for each token, and say `spent`
-- where the fuel runs out. The walk of the free list stops by the code's own test on `page_count`.
-- A descent of the B+Tree runs on fuel, of which the number of levels is enough, for a search as for
-- an insertion, and the walk of a cursor on one round for each leaf; where it runs out the call fails
-- with "out of fuel".
--
-- A generation of the log is drawn from the system's random device: it is an argument of the model.
-- Short transfers, interrupted calls and errors of the system are not modelled, nor is what a
-- decimal literal means as a double, or how a double is written: those functions are arguments. The
-- catalog, the operators and the executor are not modelled, nor are the tools and tests.
-- An operation that throws has no state behind it in the model.
pub mod Prelude
pub mod Common
pub mod Page
pub mod Slotted
pub mod Io
pub mod JoinHash
pub mod Checksum
pub mod Wal
pub mod Pager
pub mod PageStore
pub mod Pool
pub mod Token
pub mod Record
pub mod Btree
pub mod Heap
pub mod Lexer
pub mod Ast
pub mod Parser
pub mod Unparse
pub mod Tests
