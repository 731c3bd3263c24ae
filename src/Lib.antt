-- ===== src/Lib.antt =====
-- A model of the C++ libraries of code/util and code/aws, and of the programs of code/playground that use
-- them, with the theorems that make them correct.
--
-- The program runs queries over Parquet files in S3 from short-lived functions. A dispatcher pushes
-- downloads to a Downloader, whose AsyncQueue runs them on a pool of threads; it waits on a
-- Synchronizer and takes the responses, of which it makes PartialFiles for the parquet reader.
-- Connections are opened ahead of the downloads and kept by the handle container of the HTTP client,
-- buffers come from a custom memory pool, and a MetricsManager records what happens.
--
-- Memory (code/util/cust_memory_pool.h, cust_memory_pool.cc): Memory/Sizes has the constants and
--   `whole_page_size`; Memory/Guarded the classes guarded_map, linked_set and guarded_queue;
--   Memory/Platform the inner pool and the system calls, which are parameters with the accounting that
--   arrow documents; Memory/Impl the state of CustomMemoryPoolImpl and, in its children, `Allocate`,
--   `Reallocate`, `Free` and the functions behind them, under any choice of the build macros;
--   Memory/Facade the class that forwards to it.
-- Async (code/util/async_queue.h, async_queue.cc): Async/Synchronizer the counter; Async/Queue the
--   requests, the responses and the workers. What one thread does between two releases of a lock is
--   one action, and `Reach` is what any interleaving of actions leads to; Async/Work measures what is
--   left to do; Async/Wakeup is the finer model, in which a worker sleeps on the condition variable.
-- PartialFile (code/util/partial-file.h, partial-file.cc): chuncks of a file, and reads from them.
-- Toolbox, Logger, Metrics (code/util/toolbox.h, logger.cc, metrics.cc): durations, log entries, and
--   the records of events, downloads, connections and phases.
-- Download (code/aws/downloader.h, downloader.cc): Download/Range reads and writes range headers;
--   Download/Fetch is GetObjectRange and the task of ScheduleDownload, with the S3 client and the
--   allocation of the buffer as parameters; Download/Init is the barrier of InitConnections;
--   Download/Downloader has the clients, what an initial task sends and records, and the calls that
--   concern the barrier and the queue together; Download/Pool is the whole at work: the thread that
--   calls InitConnections, ScheduleDownload and ProcessResponses, and the workers of the queue, which
--   run the tasks over the barrier, each step of it a step of Download/Init or of Async.
-- Parquet (code/aws/parquet-helpers.h): the requests and files of column chuncks and of the footer;
--   Parquet/Metadata is GetMetadata, over what the successive calls of ProcessResponses return.
-- Curl (code/aws/curl/HandleContainer.cpp, HttpClient.cpp, HttpClientFactory.cpp): Curl/Handles keeps
--   the handles of each domain; Curl/Callbacks has the functions that curl calls; Curl/Request the
--   method's options, the headers that are sent and the outcome of a transfer; Curl/Options all that is
--   set on a handle, and the client's constructor; Curl/Client the calls of MakeRequest as they
--   interleave, on clients that share the cache of handles; Curl/Stats what a call logs; Curl/Global
--   the state of the curl library, which the factory sets up.
-- Playground (code/playground): Playground/Dispatch is the loop that hands requests to a pool and waits
--   for the responses, together with the pool of Async, as a step relation that counts its steps;
--   Playground/Scheduler is query-bw-scheduler.cc, Playground/Bandwidth query-bandwidth.cc,
--   Playground/Columns the handlers of parquet-raw-reader.cc and parquet-arrow-reader.cc,
--   Playground/RawAlloc the tests of raw-alloc.cc, Playground/Simd simd-support.cc, Playground/Pages
--   mem-alloc-speed.cc and mem-alloc-overprov.cc, Playground/Aggregate mem-bandwidth.cc and
--   core-affinity.cc, and Playground/Programs what stands before and around the handlers.
-- Sdk (code/aws/sdk-init.cc, code/util/bootstrap.h): set-up of the AWS SDK, and a function's entry.
-- Base has what these share: the standard library's maps, numbers as text, statuses, signed numbers
--   and sums over threads. Examples applies the theorems to concrete inputs.
--
-- Numbers are unbounded except where the code's arithmetic on size_t wraps, in Memory/Sizes and in
-- the length for madvise, where std::stoll and std::stoi test their range, where query-bandwidth.cc
-- counts bytes in an int, where page numbers are cut to a uint32_t, and where a sum of int64_t may
-- overflow. No definition takes fuel: all loops are over lists or counts that are given; the retries of
-- Playground/Scheduler are counted by how many the SDK allows. A loop that waits for responses is over
-- the lists that the successive calls of ProcessResponses return, and has no result where they are used
-- up; Playground/Dispatch has such a loop and its pool together.
--
-- Not modelled: the SDK's clients and requests, but for what is set on them; the parquet reader; the
-- destructor of a Downloader, whose members are gone before its workers end; a second call of
-- InitConnections on one Downloader, which downloader.h leaves undefined while the first is at work;
-- flight-server.cc, which only calls arrow's flight library. In Async/Queue a worker waits until its
-- predicate holds, and so does the caller of `wait` on a Synchronizer; Async/Wakeup and
-- Download/Init have the calls of `notify_one` and `notify_all`, and wake-ups for nothing, for their
-- condition variables.
pub mod Base
pub mod Memory
pub mod Async
pub mod PartialFile
pub mod Toolbox
pub mod Logger
pub mod Metrics
pub mod Download
pub mod Curl
pub mod Parquet
pub mod Sdk
pub mod Playground
pub mod Examples
