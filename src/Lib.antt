-- ===== src/Lib.antt =====
-- A verification library for nitek: an exchange (order gateway server, FIFO sequencer, order matching
-- engine with a limit order book for each ticker, market data publisher, snapshot synthesizer) and a
-- trading client (market data consumer, order gateway client, and the trading engine with its order
-- books, feature engine, market maker and order, position and risk managers), joined by lock-free queues inside a process and by TCP and multicast sockets between them.
--
-- The files, and the code that they model:
--   Base       numbers, tests, lists and integers; Base/Run has the outcome of code that may stop:
--              ASSERT and FATAL (source/llbase/macros.h) are the fault `exits`, an exception out of a
--              `noexcept` function is `terminates`, following a null pointer or an index out of an
--              array is `undefined`
--   LfQueue    source/llbase/lfqueue.h; /Refine against lists, /Session for whole sessions of a
--              writer and a reader, /Writes for several writes in a row, /Overrun for a full queue, /Drain for
--              the loop of a reader, /Threads for the two threads access by access
--   Logging    source/llbase/logging.h; /Laws for messages, /Written for the file
--   MemPool    source/llbase/mempool.h; /Search for its search of a free block, /Laws for its contract
--   Socket     the sending side of source/llbase/mcast_socket.cpp and tcp_socket.cpp
--   TcpServer  source/llbase/tcp_server.cpp: its sets of sockets; /Polls for what a poll leaves in them
--   Common     /Types, /Algo: source/nitek/common/types.h; /Messages: source/nitek/exchange/data;
--              /Printing: the texts of both;
--              /Levels: the rings of price levels and of orders, in two pools, that the order books of
--              the exchange and of the client both have (ome_order_book.cpp, te_order_book.cpp); below it
--              /Ring, /Queue, /TakeOut, /Fifo and /Bounded for the orders of a level as a queue, /Ladder,
--              /Seek, /Links, /Place, /Unlink and /RemoveLevel for the levels of a side as a list by
--              price, and /Book, /Join, /Vacant and /Leave for the whole book as two such lists
--   Exchange   /OrderBook: source/nitek/exchange/orders/ome_order_book.cpp, with /Requests for add,
--              cancel and matching, /Matching, /FindMatch and /Cancel for what they do, and /Fifo, /TimePriority,
--              /Rounds and /PriceLevel for the order in which a level is traded, /Sweep and
--              /BestFirst for the whole side, /Arrivals and /Leaves for the orders that come and go;
--              /Engine: order_matching_engine.cpp; /Sequencer: networking/fifo_sequencer.h;
--              /Gateway: networking/order_gateway_server.h and .cpp; /Publisher:
--              data/market_data_publisher.cpp; /Synthesizer: data/snapshot_synthesizer.cpp
--   Client     /Consumer: source/nitek/client/data/market_data_consumer.cpp, with /Queued for its
--              std::map, /Stream for the incremental stream, /Snapshot, /Receiving and /Recovery for
--              the recovery; /GatewayClient: networking/order_gateway_client.cpp; /TeOrderBook:
--              orders/te_order_book.cpp, with /Best for the best prices; /OrderManager, /Risk, /Position, /FeatureEngine, /MarketMaker and
--              /TradingEngine: the files of these names in source/nitek/client/trading; /Doubles: what
--              they use of `double`
--   The modules Tests hold tests, and the theorems at concrete states.
--
-- State and operations. A class is a record of the members that its operations read and write; a
-- member function takes the record and returns the new one, in `Result` if it may stop. A pointer into
-- a memory pool is the index of its block, a null pointer `none`. The order book's calls of the
-- matching engine are kept in the list `sent`, which the engine writes to its queues in order; the book
-- does not read the queues. Prices are integers; the other numbers are natural numbers, with the
-- wrap-around of their width written out where the code adds to them.
--
-- Fuel. The matching loop takes one unit more than the order pool has blocks: every round but the last
-- frees one. The search of the pool takes as many as there are blocks. The searches along the rings of
-- levels and orders take one more than the pool of their nodes has blocks, since a ring goes through a
-- block at most once. A reader's loop takes one more than its queue has values, with the writer at rest.
--
-- Parameters. std::sort (with what the standard says of it), the order and the arithmetic of
-- `double`s, what a stream and std::to_string write for a number, whether a socket can be opened, what epoll and accept give, and what another thread does to a queue between two steps.
--
-- Not modelled: threads' start and stop, the bytes of messages and the receiving side of sockets
-- (a receive buffer is the list of its whole messages), TCP connections but for their sets in the
-- server, clocks, and the texts of orders, books and components.
-- Arrays of pointers that the code leaves without a value start with null pointers.
pub mod Base
pub mod LfQueue
pub mod Logging
pub mod MemPool
pub mod Socket
pub mod TcpServer
pub mod Common
pub mod Exchange
pub mod Client
