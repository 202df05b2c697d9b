-- ===== src/Lib.antt =====
-- MaxEmbed: reading embeddings from an SSD, with replicas of hot items placed so that one page serves
-- many of a request's keys.
--
-- The program has two halves. Offline, partition/ turns a log of requests into a mapping file: which
-- blocks (pages) of the SSD hold which items. Online, client/ loads that file and answers requests.
--
-- Files:
--   Prelude      shared names, tests, lists and their lemmas
--   FlatSet      the hash set of folly that BatchGet uses, behind its laws
--   Mapper       client/src/mapper.cpp, client/include/mapper.h
--     File         where the tables stand in the mapping file
--     Invert       the constructor's loops (block_to_elem)
--     Order        BatchGet: sorting the request's keys
--     Batch        BatchGet: the cache, the choice of blocks, the reads; below it Choice, Cover,
--                  Fits, Layout and Serve prove what it does
--     Complete     ReadCompleteCB, the cache_write thread, and their interleavings; below it
--                  History, Deliver, Answer and Recycle
--     Wait         BatchGet: the queue of a thread, and the loop that waits for the reads
--     Tests        runs at concrete inputs
--   Words        the 32-bit words that all files consist of; below it Laws
--   Partition    partition/src/partition.cpp: the global arrays, and the record Runtime of what the
--                code takes from elsewhere
--     Split        split_edge; below it Sorted, Lists and Edges
--     Core         devide_core; below it Permute, Gains and Marks
--     Divide       divide and divide_start; below it Arith, Tally, Join and Balance
--     Whole        partition; below it Rest and Parts
--     Tests        runs at concrete inputs
--   PartitionStep  partition/src/partition_step.cpp, main; below it RoundTrip,
--                Pages (the client's constructor after it), Input and Text (read_binary_hypergraph and
--                read_hypergraph of partition/src/partition.cpp; Lines and Graph, below Text) and Tests
--   Packed       the tables of rows that the mapping files consist of
--   Replication  partition/src/replication_step.cpp
--     Csr          get_node2edge; below it Events, Slices and Fill
--     Scores       the scores of the nodes
--     Select       the nodes of a further page; below it Adjacency and Replica
--     Assemble     the mapping with the further pages, and main; below it Holders, Reps, Written and
--                  Pages
--     Chain        partition_step, replication_step and the client's constructor, one after the other
--     Tests        runs at concrete inputs
--   Shrink       partition/src/shrink_replication.cpp, main, with read_mapping of
--                partition/src/partition.cpp; below it Filter, RoundTrip and Tests
--   Queries      partition/src/trans_query.cpp, main, and client/include/loader.h, RequestReader; below
--                it RoundTrip and Tests
--   Preprocess   partition/preprocess/criteoTB_script/read_and_trans.cpp; below it
--     Fields       process_line on a line of given fields
--     Merge        merge_result.cpp, main
--     Names        the renumbering of the keys
--     Files        the files of records between the two programs
--     Rows         the merged file, by its rows
--     Chain        both programs, and RequestReader on their result
--     Split        split_train_test.cpp, main; below it Copy and Cut
--     Tests        runs at concrete inputs
--   Client       client/src/client.cpp, main: the worker threads and the monitor
--     Work         which requests a worker takes
--     Flags        finished and stop, and the workers
--     Measure      what a turn of a worker does to it
--     Finish       the ends of the threads
--     Once         no query is handed to BatchGet twice
--     Whole        all queries are handed to BatchGet
--     Deltas       what the monitor prints
--     Latency      the latencies of a worker
--     Stats        two of the summaries at the end
--     Tests        runs at concrete inputs
--   Spdk         client/src/spdk_wrapper.cpp, SubmitReadCommand; below it Submit and Tests
--   Timing       client/include/timer.h; below it Sums and Tests
--
-- State is passed explicitly: a loop of the source is a function by recursion on the rounds that
-- are left, or on the list that it walks. The recursion of divide is on fuel; partition gives it
-- one more than the number of nodes, which is enough, since both halves of a bisection are smaller.
-- The loop of replication_step over a node's edges has as much fuel as the node has edges, and its
-- step is at least one. A failed CHECK or a fatal I/O error is `none`, as are a write past a fixed
-- array of BatchGet (64 items in a SyncReadCtx) or of process_line (26 numbers), a copy from behind
-- a page, and a read past the end where a theorem is about it. Other limits of the code are
-- hypotheses of the theorems: edges of at most 65535 pins and none longer than longest_edge, pins
-- below the number of nodes, and sizes below 2 ^ 31 where the code has an int. The loops of the
-- client's threads are steps of a schedule, a list of turns; the sequence of batches that a worker
-- takes (Client/Work) is on fuel, the number of queries, which is enough since each batch starts
-- later than the one before. The partitioner's calls of divide on the two halves are made one after
-- the other; their nodes and pins are disjoint. idx[start … end) is the list of its nodes. Values
-- in memory are counted in embeddings of value_size bytes, so an address is a page and an offset,
-- or a slot of `results`.
--
-- Parameters: the rounding in split_train_test and the size of its buffers are arguments; floating
-- point, TBB's parallel_sort, std::shuffle and the schedule of OpenMP are the fields of Runtime,
-- and the sort and the shuffle are assumed to permute. In replication_step the order of the rounds
-- of the parallel loops is a Schedule. folly's set is FlatSet.
--
-- Not modelled: CacheLib's cache (its answers are a parameter, its insertions are kept as a list),
-- SPDK itself, fscanf and sscanf, the Python scripts for the data sets, the averages that
-- client.cpp keeps under latency_lock, and the printing of statistics.
pub mod Client
pub mod FlatSet
pub mod Mapper
pub mod Packed
pub mod Partition
pub mod PartitionStep
pub mod Prelude
pub mod Preprocess
pub mod Queries
pub mod Replication
pub mod Shrink
pub mod Spdk
pub mod Timing
pub mod Words
