-- ===== src/Lib.antt =====
-- toadb, a relational database kernel in C. A client's statement reaches a worker thread of the
-- server (processor, portal), which parses, plans and executes it over the storage layer (sqlcore).
-- Each statement runs in a transaction whose snapshot decides which tuples it sees; pages are cached
-- in a buffer pool that workers share under reader-writer locks.
--
-- What is modelled, and where:
--
-- - Transaction: src/sqlcore/transaction. `Xtid` is xtid.c over src/util/ipc/lock/atom/atom.c, with the
--   compare-and-swap loops run against a list of what other workers put in the cell. `Control` is
--   transactionControl.c: `Shared` is `procTransactionInfo` with the ids, `Session` the thread-local
--   part, and each function of the C file is a function on `State` whose `none` is an access outside
--   the context array. `Control.Workers` lets several workers call these functions in any order.
--   `Snapshot` is snapshot.c with `GetActiveXtids` and `GenerateSnapshot`.
--   `Statements` is src/sqlcore/executor/execTransaction.c, with the calls around a statement in
--   src/toadmain/toadmain.c and src/sqlcore/executor/executor.c.
-- - Lock: src/util/ipc/lock. `Spin` is spinlock/spinlock.c, where an argument says what each try of the
--   loop finds in the lock word. In rwlock, `Rwlock` is rwlock.c over a pthread library that is a record of
--   functions, and `Local` is locallock.c, the thread-local table that makes locks reentrant.
-- - Buffer: `Pool` is src/util/bufferPool/bufferPool.c. Buffers are indices into the arrays, the id -1 is
--   `none`, and one round of the clock sweep has as its input whether the read lock is free and what
--   others do before the write lock is granted. `Hash` is src/util/hashtable/hashtab.c with pointers as
--   indices into the elements' memory; `Hash.Chains` reads it as one chain for each bucket and a free
--   list. `Cache` joins them: `AllocBuffer`, `SearchBuffer` and `CleanPageBuffer` of
--   src/sqlcore/storage/buffer/buffer.c, where an argument says what other workers do while no lock is held.
-- - Dlist: src/util/dlist/list.c. `Heap` is the memory of the nodes, and `Dlist.Ring` reads a list as
--   the ring of its nodes. Resource is src/util/resourceManger/resourceMgr.c, on these lists.
-- - Expression: src/sqlcore/dictionary. `DataTypes` is dataTypes/dataTypes.c with the union `Data`, and
--   `Operators` has the operator tables of dataTypes/datatypes and express/expreCompute.c. C's undefined
--   behaviour, such as an int overflow, is `none`. `Qual` is execExpre.c of src/sqlcore/executor with
--   `ExecSelect` of execSelect.c and `TranslateRawColumnData` of scan/scan.c: the conditions of a
--   statement on the rows of a scan, whose shared result is an argument of each function.
-- - Tuple: src/sqlcore/storage/tuple/tuples.c with the lookups of src/sqlcore/node/parserNode.c: the row
--   that INSERT makes of names and values, for any contents of its memory before; AllocMem zeroes it.
--   `Tuple.Update` is `FormNewRowsPos` of src/sqlcore/executor/execSelect.c, the columns that UPDATE makes; an
--   argument says how many bytes the memory pool has behind the blocks that a string is copied between.
-- - Page: rows in the pages of a table. `Page` is InsertRowData, InsertItemData and ReadRowData of
--   src/sqlcore/storage/tables/tables.c with the functions of src/sqlcore/storage/buffer/buffer.c that call
--   them: one column of a row goes to each page of a group.
--
-- Numbers are natural numbers; a 64-bit id is taken modulo 2 ^ 64 where the code adds to it, and a
-- 32-bit count modulo 2 ^ 32. Loops over arrays are recursion on lists. A compare-and-swap loop has
-- fuel for one round more than the values that others put in the cell, plus one, and its theorem says
-- that it returns; the loop of `InitializeLocalLock` has one round for each entry of the table and one
-- more. The retries of `AcquireRWLock` depend on the pthread library and take fuel as an argument.
-- `GetFreeBufferId` has fuel for more rounds than the list has ids, and a clock sweep has five rounds
-- for each buffer, one for each value of the use count. A walk along a bucket has fuel for more rounds
-- than the bucket has entries. `SpinLockAquire` has a round for each of its 10001 * 10001 tries, and
-- the loop of `ReleaseResourceOwner` more rounds than there are nodes in use. The counts of the resource
-- manager, and of the holds of a lock, are taken to stay below 2 ^ 31.
--
-- Not modelled: parsing, planning, the rest of the executor, files, the network and the client tools, the
-- layout of page headers, how a column is found in a row, floating-point values, whose operators are a
-- parameter of `ComputeExpr`, memory contexts, the hash of a tag
-- (src/util/hashtable/spooky-c.c, from another project), and the log
-- lines of the modelled functions. A call of one worker is one step: the scan in `GetActiveXtids`,
-- which the code makes without a lock, is taken at one moment.
pub mod Base
pub mod Buffer
pub mod Dlist
pub mod Expression
pub mod Lock
pub mod Page
pub mod Resource
pub mod Transaction
pub mod Tuple
