-- ===== src/Lib.antt =====
-- A model of the core of AHA, an index that keeps its entries in slotted pages and adapts their
-- buffers to hotspots.
--
-- TreePage models src/wot_buf_mgr/tree_page.{h,cc}, the slotted page: TreePage/Layout has the page
-- as a record (the header's fields, and the 8192 bytes as a function from positions to bytes), the
-- reads of slots and entries, and the key comparison. TreePage/Search has the four binary searches,
-- TreePage/Update the searches for readers and the changes in place, TreePage/Insert the writes of
-- entries and the moves between pages, TreePage/Remove the removal. The functions have the source's
-- names in snake case. A read or write of bytes is `read`, `memcpy` or `memmove` of
-- TreePage/Memory on the page's function, so the slots and entries of the model overlap exactly
-- where those of the source do. The header is not part of the bytes: its fields start at 0 and
-- slots at 40, and no function of the source addresses the header through bytes. TreePage/Valid
-- is the well-formedness of pages, TreePage/Search/Bounds their order. TreePage/Lookup models
-- `GetValueWithKey` of src/wot_buf_mgr/buffer_pool_helper.h, the reader's way through a leaf page.
--
-- OptLock models the version word of the same header, `OptLock`; OptLock/Threads has the threads
-- on it as a step relation.
--
-- LockManager models src/wot_lock_mgr/lock_manager.{h,cc}: `NodeLock`, whose methods are steps on its
-- counters; LockManager/Threads has the threads on it, one phase each, with a step relation and the
-- counts that LockManager/Counted proves of the counters; LockManager/Table is `TreeLockManager`, a
-- function from page numbers to locks: LockManager/Table/Tidy has a lock and its unlock in turn,
-- LockManager/Table/Readers several readers.
--
-- PageWriter models src/util/utils.h, `CountNonDuplicates` and `WriteToPage`, on a list of entries;
-- PageWriter/Split has the default and the even policy of src/wot_page_split_policy.h, which the writer
-- takes as the interface `SplitPolicy`, and PageWriter/Split/Sound the sound remedy policy, with its
-- random draws as arguments. The pages that the pool allocates are a parameter. PageWriter/Kept has
-- the entries that the two scans keep.
--
-- BufferPool models src/wot_buf_mgr/tree_buffer.cc: `TreeBufferManager`, one shard, with every method
-- one step under its mutex. A handle is known by the number of its page, so the two circular lists
-- are lists of numbers. BufferPool/Allocated has `Allocate` and `AllocateRoot`, BufferPool/Sharded
-- `ShardedBufferManager`, and Dict the map from numbers to handles. TreeFile models
-- src/wot_buf_mgr/free_space.{h,cc}, the file of a shard. A page is a value that moves between buffers
-- and the file: what a client writes to a page that it has pinned is the call `written` of
-- BufferPool/Refined, which also has the store of pages that a shard implements. BufferPool/Valid is
-- the well-formedness of a shard and what the shard holds for a page.
--
-- BufferManager is the interface of src/wot_buf_mgr/buffer_manager.h, which BufferPool/Sharded fills,
-- and PageIterator models src/wot_buf_mgr/wot_page_iter.{h,cc} above any such manager. What its
-- theorems need of the manager is `Serves` of PageIterator/Walk.
--
-- Btree models the way down of src/btree/btree.{h,cc} on the lock table of LockManager: Btree/Ceiling has
-- the child that it takes, Btree/Locks the locks that it holds, Btree/Descent the loop of `SearchDown`,
-- whose fuel is the height of the tree, Btree/Query and Btree/Leaf what is done at the leaf. Btree/Overflow
-- models `Insert` with the splits behind an overflow; Btree/Overflow/LeafSplit and Btree/Overflow/Leaves
-- are about the split of a leaf, on the moves of entries of TreePage/Insert/Moved. One thread runs, and
-- the pages are a function from numbers: the pool is taken to serve each pin, which for a shard is what
-- BufferPool/Refined is about.
--
-- WorkQueue models the queue of nodes to adapt that src/wot_adapt_strategy/priority_queue_strategy.cc
-- keeps without duplicates, over the priority queue of oneTBB, which is the parameter `PriorityQueue`.
--
-- TreeState models the scans of src/wot_adapt_strategy/wot_state.cc in both states of the index, with
-- the hotspot test and the schedulers of src/wot_index.cc, on the lock table of LockManager and the queue
-- of WorkQueue: TreeState/Children has the children that a scan goes to, TreeState/Locks its locks,
-- TreeState/Pending the nodes before it, TreeState/Seen what it came to, TreeState/Visits its walk,
-- TreeState/Front what comes before that, TreeState/Whole the scan, and TreeState/Found the contents of
-- what it reads, which are tests on keys; TreeState/Validate has the
-- proactive validation behind it. The walks run on fuel: more than the pages of the tree is enough. A
-- log-structured tree is whether it has a level and hot data, and an iterator the name of what it reads.
--
-- SortedIterator models `SortedTreeIterator` of src/wot_index.cc above the merged entries of a scan, which
-- are a list: SortedIterator/Hidden has what hides an entry, SortedIterator/Ranked the order of internal
-- keys, SortedIterator/Newest the walk. The client's
-- loop runs on fuel: more than the entries is enough.
--
-- An assertion that fails stops the program (the build keeps assertions), which is `none`, or
-- `aborted` and `fails` of the locks and `stopped` of the trees. The 32-bit sums and differences wrap (Common/Words). The loops
-- of the searches run on the distance of their bounds, which falls with each round, so the fuel of
-- `search_loop`, the number of entries, never ends first: the theorems on the searches prove that
-- they return. The loop of `MayOverflow` runs on the length of its list, from which each round takes
-- a page, and the growth of a file in `Allocate` on the page that it grows to.
--
-- What the pages take from the vendored LevelDB sources (the comparison of slices and the coding of
-- 32-bit numbers) is the instance argument `Leveldb`, with the documented laws as its fields; Tests
-- fills it with the comparison byte by byte and the little-endian coding.
--
-- Not modelled: the bodies of the vendored LevelDB and of the log-structured tree made of it, the
-- steps of the adaptation strategies, which work on the files of that tree, the nodes of the index with
-- their flushes and splits, the B+ tree with optimistic locks and the other trees, printing, and the
-- benchmark drivers.
pub mod Common
pub mod Dict
pub mod Leveldb
pub mod TreePage
pub mod TreeFile
pub mod BufferPool
pub mod LockManager
pub mod PageWriter
pub mod OptLock
pub mod Tests
pub mod BufferManager
pub mod PageIterator
pub mod Btree
pub mod WorkQueue
pub mod SortedIterator
pub mod TreeState
