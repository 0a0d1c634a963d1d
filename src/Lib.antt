-- ===== src/Lib.antt =====
-- MoneroSci parser: a program that reads the blocks of a Monero node and stores them in RocksDB
-- (hash to id) and SQLite (rows of data and of indexes). One thread parses (`mainFunction`,
-- `xmrProcessor`), nine writer threads empty the vectors that it fills.
--
-- The parts, with the paths of the code from the root of the repository:
-- - HashFn: src/hashFn.h and src/hashFn.cpp, the Rabin fingerprint (`customPow`, the two call
--   operators). `uint64_t` wraps at 2 ^ 64, `char` is signed.
-- - BloomFilter: src/bloomFilter.h and src/bloomFilter.cpp, all operations. The buffer is a list of
--   bytes, `unsigned int` wraps at 2 ^ 32.
-- - Text: `std::string` as a list of bytes, with `to_string` and `atoi`.
-- - IdHashMapper: src/idhashmapper.h. RocksDB is the parameter `RocksDb`, `IsStore` is what it
--   documents of a read after a write.
-- - Parser: src/parser.h. `Records` has the JSON answers of src/page.h, `Ids` the counters, `Store`
--   the global vectors, `Process` the function `xmrProcessor` in the pieces of its loops,
--   `MainFunction` the function `mainFunction` and the range of blocks that main.cpp chooses.
--   `Explorer` is the parser on the answers of `Pages`, over a range of blocks.
--   `Dense` and `Ring` have the invariants of the keys and of the ids of ring members, `Drain` the
--   thread that moves these ids from the map in memory to RocksDB.
-- - IndexMapper: src/indexmapper.h. SQLite is the parameter `Sqlite`, `IsTable` is what it documents
--   of a statement that is done or refused. `Rows` has the statements and bound values, `Columns` what the
--   parser's vectors mean in the columns of the tables, `Tables` what an insert of them writes.
-- - Writer: the loops of the writer threads of src/parser.h. `Threads` has the nine threads on the
--   vectors that are left when the parser has finished, `Interleave` the steps of a thread with one
--   vector and `MainThread` those of `runBlockMainThread` while the parser still pushes.
-- - Tools: src/tools.cpp, the sums and counts over transactions, `Json` those over parsed JSON, `Age`
--   the span between two times, `Url` the body of a form.
-- - Chain: src/MicroCore.cpp, the explorer's view of the chain. Monero's `Blockchain` is the parameter
--   `Core`; `Search` is about the search for an output.
-- - Emission: src/CurrentBlockchainStatus.cpp and .h, the emission summed over chunks of blocks.
--   `Sums` has the exact sums, `Progress` the updates, `Top` the blocks of the gap. `Monitor` is the
--   thread with its file, with Boost as the parameter `Boost`: `File` reads it back, `Errors` has
--   the texts that are not loaded, `Rounds` the thread over restarts.
-- - Mempool: src/MempoolStatus.cpp, the copy of the pool. `Network` has the information on the network
--   and the rounds of the thread, which ask the node through `RpcCalls`.
-- - RpcCalls: src/rpccalls.cpp and .h, the calls of the node; the HTTP client is the parameter
--   `Client`, each response an argument. `Newest` is about the order of the pool,
--   `Outcomes` about the responses that the calls take.
-- - Pages: src/page.h, the JSON answers. `Block` has `json_block`, which the parser asks for every
--   block, `Raw` and `Transaction` the answers on a transaction, `Search` the search over both,
--   `Paging` the pages of blocks, `PoolPage` those of the pool, `EmissionPage` the emission and
--   `NetworkPage` the network. Of the HTML pages `BlockPage` has `show_block`, `PoolView` `mempool`
--   and `AltBlocks` `altblocks`; `BlockPage/Json` is about `show_block` beside `json_block`.
--   `Outputs` and `OutputsBlocks` search the outputs of an address, with Monero's cryptography as the
--   parameter `Keys`. `Index` is the loop of the front page `index2` with
--   its cache of blocks, the parameter `BlockCache`: `Hits` is about a cached block, `Rounds` about the
--   end of the loop, `Rows`, `Fresh` and `Kept` carry what the cache holds to `Page`, and `Canonical` and
--   `History` over a chain that grows.
-- - Examples: concrete inputs.
--
-- The emission and the pages read the chain through `Chain`, and the pages read the pool of
-- `Mempool`. A block does not change while an answer is made.
--
-- The parser's part calls the Bloom filter, the stores of ring members and of counters, and fills
-- the vectors of `Parser.Store`; the writers take entries from these vectors, and the rows of
-- `IndexMapper` are made of them.
--
-- Fuel: `pow_loop` runs on the exponent itself, which halves in each round. The loop of a writer
-- thread runs on any number above the number of pairs that wait for it, since each round takes one
-- and the vectors of rows are taken whole. The emission and the JSON pages count the rounds that a
-- loop has before it starts; the front page runs on any fuel above the number of blocks
-- to a page. The other loops are structural.
--
-- Not modelled: opening and closing data bases, directories and the creation of the tables in the
-- threads, printed messages and performance figures, an `int` counter that overflows (counters are
-- natural numbers), and two threads in the midst of one another beyond `Writer.Interleave`,
-- `Writer.MainThread` and `Parser.Drain`. An error on which SQLite takes a whole transaction back is
-- not modelled. Of src/tools.cpp the formats of dates and amounts and what calls Monero's
-- cryptography, other than `decode_ringct`, are not here. Of src/page.h the HTML pages of a
-- transaction, of outputs, of key images and of pushed transactions, the rest of the front page, and
-- formatted times and amounts are not here. Two requests that use the cache of blocks at the same time
-- are not modelled. The command line is not modelled, nor are the older copies
-- src/parser-7thread.h, src/indexmapper-7thread.h and src/multithreads.h, which main.cpp does not
-- include.
mod Base
pub mod HashFn
pub mod BloomFilter
pub mod Text
pub mod IdHashMapper
pub mod Parser
pub mod IndexMapper
pub mod Writer
pub mod Tools
pub mod Chain
pub mod Emission
pub mod Mempool
pub mod RpcCalls
pub mod Pages
pub mod Examples
