-- ===== src/Lib.antt =====
-- The matching core of exchange-sim, a C++20 exchange simulator.
--
-- A command (a new order, a cancel or a modify) reaches the exchange through the gateway, which
-- translates client order ids into exchange ids (`ClientIdMap`), passes the pre-trade risk gate
-- (`RiskGate`), and is routed by the engine (`MatchingEngine`) to the book of its symbol. A book
-- matches it by price-time priority and reports events to a sink. `ReferenceBook` is the book that
-- states what matching means; the optimised `OrderBook` is tested against it.
--
-- Which file models which part, its paths from the repository's root:
--   Domain        include/exsim/common.hpp: enumerations, `Command`, `Event`, `stp_flag`, …
--   Reference     include/exsim/reference_book.hpp: `ReferenceBook`, with `add`, `cancel`, `modify`
--     Sides       its maps of levels, each a list of levels, the best first
--     Match       `match_side` and `fillable`
--     Queries     the queries and `check_invariants`
--   Engine        include/exsim/matching_engine.hpp: `MatchingEngine`, over an interface of books
--     Books       the interface filled by the reference book
--   Risk          include/exsim/risk.hpp: `RiskGate`, over an engine that is a function
--   ClientIds     include/exsim/client_ids.hpp: `ClientIdMap`
--   Wire          include/exsim/protocol.hpp: `encode` and `decode` of the request messages
--     Messages    the packed structs, over the bytes of their fields in Bytes
--     Reports     the execution reports
--   WireFile      include/exsim/wire_file.hpp: `encode_stream` and `decode_stream`
--   Journal       include/exsim/journal.hpp: the CRC, `journal_scan`, `JournalWriter` and `recover`
--   Capture       include/exsim/md.hpp: `Capture` and `find_seed`
--   OrderStore    include/exsim/order_store.hpp: the free list that the order stores share
--     Records     `AosStore`, the records of the orders
--     Layouts     `SoaStore` and `HybridStore`, the other layouts of the records
--   PriceBitmap   include/exsim/price_bitmap.hpp: `PriceBitmap`, over words of bits in Words
--   OrderIndex    include/exsim/order_index.hpp: `OrderIndex`, with its two hash policies
--   OrderBook     include/exsim/order_book.hpp: `OrderBook`, the state and the links of the queues
--     Sweep       `sweep` and `fillable`
--     Commands    `add`, `cancel`, `modify`
--     Queries     the queries and `check_invariants`
--   Stream        include/exsim/seqstream.hpp: the datagrams of the sequenced command stream
--     Publisher   `Publisher`, what the primary sends and serves again
--     Subscriber  `Subscriber`, what a replica makes of it
--   LatencyHistogram  include/exsim/latency_histogram.hpp: `LatencyHistogram`
--   Sinks         include/exsim/sinks.hpp: `EventDigest` and `CountingSink`
--   SpscQueue     include/exsim/spsc_queue.hpp: `SpscQueue`, by its loads and stores
--   Base          numbers, lists and association lists that the other modules share
-- Files named Tests hold runs on concrete input; the others hold what is proved.
--
-- A state is a record, and an operation is a function that returns the next one. A sink is a list
-- of events, newest first, which an operation takes and returns. A 64-bit price is an integer of the
-- model and does not overflow, but in the collar of `RiskGate`, where a difference wraps as in two's
-- complement; unsigned quantities are natural numbers, with `% 2 ^ 64` where a sum can wrap. An iterator
-- into a queue of the reference book is the id of its order, and the use of a dangling one is `none`. The
-- loops are structural recursions, but for `decode_stream`, `journal_scan` and the loading of a capture,
-- which run on one unit of fuel more than the buffer or the file has bytes (each round consumes some), a
-- retransmission, on as much as it has commands, and `flush`, on the outcomes of its fault injection, one
-- for each round.
--
-- The loops of `OrderBook` and `OrderIndex` are on fuel, and `none` stands for a loop that is not
-- through when it ends: a probe of the index has as many rounds as the table has slots, a walk of a queue
-- one more than the store has slots, a walk of the levels one more than there are levels.
--
-- Not modelled: the hash function of the client ids, which does not show in what the map does; the
-- mean and the choice of a rank by `LatencyHistogram`, which are floating-point arithmetic; the feeds
-- and the market maker; threads, sockets, files and their failures, and the benchmarks.
pub mod Base
pub mod Domain
pub mod Reference
pub mod Engine
pub mod Risk
pub mod ClientIds
pub mod Wire
pub mod WireFile
pub mod Journal
pub mod Capture
pub mod OrderStore
pub mod PriceBitmap
pub mod OrderIndex
pub mod OrderBook
pub mod Stream
pub mod SpscQueue
pub mod LatencyHistogram
pub mod Sinks
