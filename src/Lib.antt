-- ===== src/Lib.antt =====
-- moxt-cpp is the native half of a trading library: functions with C names that programs in other
-- languages call for arithmetic on prices, unique ids, rate limits, values by name, HTTP and
-- WebSocket. The parts share no state except through the calls named below.
--
-- What is modelled, and where:
--
--   Fixed12.antt      moxt/fixed12.hpp, moxt/fixed12.cpp: decimal numbers of twelve places in an
--                     int64_t. Fixed12/Parse is `fixed12_new_string_view`, with its uninitialised
--                     locals as `none`; Fixed12/Print is `seq_fixed12_to_string` and
--                     `Fixed12::toString`, with its 17-byte buffer; Fixed12/Scale is the product and
--                     the quotient in arbitrary precision (Fixed12/BigInt says what is assumed of the
--                     big integer library); Fixed12/Sums and RoundTrip hold laws between them.
--   Cast.antt         moxt/utils/cast.hpp: `strtoi`, on which the parser stands.
--   RateLimiter.antt  moxt/utils/c_rate_limiter.hpp: `CRateLimiter::allowAndRecordRequest`. The ring
--                     buffer moxt/utils/cringbuf.hpp is another project's: its operations and laws
--                     are the record `RingBuf` of RateLimiter/Buffer, a parameter of the model.
--   Snowflake.antt    moxt/utils/snowflake.hpp, moxt/utils/snowflake.cpp: ids from a clock.
--   Far.antt          moxt/libfar.hpp, moxt/libfar.cpp: `FuncArgResult` and the `seq_far_*` calls.
--   UrlParts.antt     moxt/httpx/url_parts.hpp: `URLParts::Parse` and `GetPort`.
--   StringCache.antt  moxt/libmisc.cpp: the cache of strings by key, `seq_set_string_in_cache` and its
--                     fellows, with its strings on a heap.
--   StringMap.antt    moxt/libmisc.cpp: the maps from text to text, `seq_ssmap_*`.
--   SkipList.antt     moxt/skiplist/skiplist.hpp: the skip list of one side of an order book.
--                     SkipList/Heap is moxt/skiplist/Node.h with the memory the nodes stand in,
--                     SkipList/Random is moxt/skiplist/random.h, SkipList/Calls is
--                     moxt/libskiplist.cpp. SkipList/Spec says what a list promises: entries in
--                     the order of their keys.
--   WebSocket.antt    moxt/httpx/websocket.hpp, moxt/httpx/websocket.cpp: the handlers and calls of
--                     `WebSocket`; WebSocket/Events is the order in which they are called.
--   HttpClient.antt   moxt/httpx/httpclient.hpp: connecting and requests of `HttpClient`.
--   LockedQueue.antt  moxt/utils/spinlock.hpp, moxt/utils/spscqueue_safe.hpp: `CSpinLock` and
--                     `SPSCQueueSafe`, stepped by threads in any order. The queue of rigtorp inside is
--                     the record `Queue` of Queue.antt, a parameter of the model.
--   HttpClientPool.antt
--                     moxt/httpx/clientpool.cpp: `HttpClientPoolImpl`, on the queue and the client
--                     above; HttpClientPool/Use is a program that uses it.
--   CurlClient.antt   moxt/cclient.hpp, moxt/cclient.cpp: `CClient` and `seq_cclient_do_request`, over
--                     photon's cURL and its pool of handles, the record `Curl` of CurlClient/Handles.
--   WatchDog.antt     moxt/httpx/watchdog.hpp, moxt/httpx/watchdog.cpp: `WatchDog`, over boost's timer,
--                     the record `DeadlineTimer` of WatchDog/Timer.
--   DataQueue.antt    moxt/libthread.cpp: the `seq_lockfree_queue_*` calls, which pass blocks of bytes
--                     between threads; DataQueue/Spec says what they promise.
--   WorkPool.antt     moxt/libthread.cpp: `free_far` and the calls that give a task to a pool of worker
--                     threads; WorkPool/Tasks is a program that uses them.
--   Count.antt        no file of the program: how often an address stands in a list.
--   Globals.antt      moxt/libmisc.cpp: the two maps of global values, `seq_set_global_int` and so on.
--   Decimal.antt      the decimal digits of a number and their value, which parser and printer share.
--   Prelude.antt      no file of the program: Boolean tests, lists, texts, bytes, signed numbers, bit
--                     operations, association lists, maps as functions, and `Outcome`, the
--                     result of a computation whose behaviour C++ may leave undefined.
--
-- How code becomes a definition. A function becomes a function by clauses; a method takes the
-- object's fields as a record and returns the new record. Signed int64_t arithmetic gives an
-- `Outcome`: a result out of range is the fault `overflow`; reading a local with no value,
-- indexing out of bounds and reading through a null pointer are faults of their own, as are the
-- use of a released string or node and a loop that has used up its fuel. Unsigned arithmetic is
-- written with its wrap-around, `% 2 ^ w`. A section under a lock or a mutex is one step, so
-- that calls in threads are a list of calls; LockedQueue takes its spin lock access by access.
-- The clock is a list of the readings to come.
--
-- Fuel. The loop that prints the digits of a number takes as many rounds as the number and one
-- more, and divides by ten each round; the loop that reverses a buffer takes its length, and
-- closes in by two each round, so that neither runs out of rounds before its test ends it.
-- Waiting for the clock recurs on the readings left, and says so when they run out. A loop along
-- the nodes of a skip list takes a round for each node, for the footer and for its end; a round
-- goes on to a later node.
--
-- What is not modelled. Floating point conversions of Fixed12; the network address behind the
-- worker number; the console dumps of the skip list; destructors but those of the skip list and
-- the client pool; `CClient`'s search for its host, by regular expressions; the Redis client, the
-- JSON bindings and the other calls for threads, which mostly call libraries.
mod Prelude
pub mod Decimal
pub mod Cast
pub mod Count
pub mod Fixed12
pub mod Far
pub mod UrlParts
pub mod StringCache
pub mod StringMap
pub mod Globals
pub mod SkipList
pub mod WebSocket
pub mod HttpClient
pub mod Queue
pub mod LockedQueue
pub mod HttpClientPool
pub mod DataQueue
pub mod WorkPool
pub mod CurlClient
pub mod WatchDog
pub mod RateLimiter
pub mod Snowflake
