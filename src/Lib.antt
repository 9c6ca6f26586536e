-- ===== src/Lib.antt =====
-- Verification library of the service control client: models of the parts of the client that
-- aggregate and cache, and theorems about them.
--
-- The client sends check, quota and report requests to a server. A check aggregator and a quota
-- aggregator answer from cached responses and a report aggregator collects reported operations; each
-- keeps what it holds in an LRU cache under a signature, merge operations of one signature in an operation aggregator
-- (which merges metric values, distributions among them), and hand what leaves the cache to a flush
-- callback through a buffer of removed items.
--
-- The files, and what each one models:
--   Money (src/money_utils.cc): one function for each function of the source, TryAddMoney split at
--     its comments (carry_nanos, align_signs, check_overflow); Money/Sum, Money/Overflow and
--     Money/Exact hold the proofs.
--   Cache (utils/simple_lru_cache_inl.h): the table with the chain of evictable elements, the
--     deferred elements and the counters; a function per method. Proofs: Cache/Table (the table),
--     Valid, Calls and Reach (the invariant), Conserve and Conserved (the values), Reads and Rests (what a later
--     call finds), Chain (the chain from its tail), Timed and Clock (the times of the chain, under a
--     clock), Idle (timeouts), Collect and Eviction (what makes room). Others models the calls that the aggregators do
--     not make; Unpinned and Resize are about them. Deleter models the calls again for a deleter
--     that may call the cache, in Run; Deleter/Room, Lookups and Jams say what such calls do.
--   Distribution (utils/distribution_helper.cc), with Merging and Samples; the doubles are a record
--     of operations, Float.
--   Md5 (utils/md5.cc and .h): the class around the hash of OpenSSL, which is a parameter; Md5/Fed
--     has the hashers that got a message in pieces.
--   Signature (src/signature.cc): the bytes that are hashed, where the hash of a text is a parameter;
--     Signature/Generate has the functions that feed them to a hasher, Hashed joins the two, and
--     Order is about what a signature does not depend on, Maps about the maps that sort.
--   Operation (src/operation_aggregator.cc and .h), with Views (the metric values as a map), Merged
--     (their merge, described apart from the code) and Windows (the times).
--   RemovedItems (src/cache_removed_items_handler.h): the buffer of removed items.
--   Report (src/report_aggregator_impl.cc and .h), with Conserve.
--   Check (src/check_aggregator_impl.cc and .h, include/aggregation_options.h), with Answers,
--     Stored, Conserve and Absorb (what flushes, and the other calls, do with the log entries).
--   QuotaOperation (src/quota_operation_aggregator.cc and .h), with Amounts
--     and Totals (the sums).
--   Quota (src/quota_aggregator_impl.cc and .h, include/aggregation_options.h): the element of the
--     cache and OnCacheEntryDelete; Quota/Calls has the other methods. Proofs: Expiry and Quiet (one
--     pass over the chain), Answers, Hits and Flushes (what each call does), Returns and Reach (that
--     they return), Kept, Coalesced and Overfull.
--   Client (src/service_control_client_impl.cc and .h): one path for the three kinds of calls, over
--     an interface that Client/Kinds fills with the check and report aggregators; Client/Calls (the
--     interleavings of calls, responses and flushes) and Client/Intervals. Client/Quotas has the
--     quota calls, whose aggregator runs on fuel, with Served and FailOpen. Client/Whole is the
--     client with its three aggregators and its timer; Closed and Late (responses after the
--     destructor) and Destroyed are about the destructor.
--     Client/Promises (proofs: Values and Paired) and Client/Blocking (proofs: Awaited; and Quotas,
--     for the quota calls) are the blocking calls: a promise for each of their threads, which the
--     done callback sets, and for each request in flight the thread that it is of.
--   Proto and Status: the messages and the status codes, as far as they are read.
--   Prelude: shared names, Boolean tests, lists, texts as lists of bytes, integers that wrap.
--   Tests: the models on concrete inputs.
--
-- Every function is total by structural recursion. Loops over the chain of the cache run over the
-- keys that the chain has when the loop starts: a step takes the current key away, and a deleter
-- that puts an element back does so at the head, where the loop does not come. Only the deleter of
-- the quota aggregator takes fuel, which bounds the depth of the deletions inside one another: a
-- depth of 1 is enough while the cache has room for what is inserted, and none is enough in a
-- cache that is full of unexpired elements. A run of these calls is a result, no_fuel or undefined
-- (a pointer to freed memory is followed, as by a callback that outlives the client). An int64 or
-- int32 of the money and distribution code wraps around; counters of the cache, times and
-- addresses are natural numbers. A call sees one time. Calls run one after the other, as the mutex
-- of each aggregator makes them; the flush callback runs after the call has released the mutex,
-- and is the list of requests that the call returns.
--
-- Not modelled: the iterators and the debug output of the cache, logging, the hash function, the
-- transports and the messages' other fields. The asserts of the source are not evaluated.
pub mod Prelude
pub mod Status
pub mod Money
pub mod Cache
pub mod Float
pub mod Distribution
pub mod Proto
pub mod Md5
pub mod Signature
pub mod Operation
pub mod RemovedItems
pub mod Report
pub mod Check
pub mod QuotaOperation
pub mod Quota
pub mod Client
pub mod Tests
