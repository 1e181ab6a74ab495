-- ===== src/Lib.antt =====
-- A limit order exchange: an engine with one order book for each symbol.
--
-- A client creates an engine, adds symbols, and sends orders of six types (market, limit, and four
-- kinds of stop orders). The engine hands every call to the book of its symbol. A book keeps its
-- orders in a map by id, and the ids in queues, the levels, in six maps by price: limit orders,
-- stop orders and trailing stop orders of either side. An order that arrives is matched with the
-- levels of the other side; each trade may set off stop orders, whose trades may set off others:
-- matching, deleting and activating call each other.
--
-- Files, and the code that they model:
--   Common, Common/*: helpers. Words has the arithmetic of 32 and 64 bits, Outcomes the ways a
--     call ends, Maps the association lists that stand for std::map and the hash maps.
--   Order: include/matching/order.h, src/matching/order.cpp.
--   Level: include/matching/level.h, src/matching/level.cpp.
--   Event: include/event_handling/event.h, include/event_handling/event_handler.h.
--   Book/*: include/matching/price_level_order_book.h, src/matching/price_level_order_book.cpp.
--     State (fields, constructor, queries), Prices (calculateStopPrice and the tests of stop
--     prices), Insert (insertLimitOrder, insertStopOrder, insertTrailingStopOrder), Remove
--     (deleteOrder), Match (match, canMatchOrder, executeOrders, addMarketOrder, addLimitOrder),
--     Stops (addStopOrder, activateStopOrders and its helpers, the moves of trailing orders),
--     Operations (the public functions), Interface (include/matching/order_book.h).
--   Engine: include/matching/engine.h, src/matching/engine.cpp, include/matching/symbol.h,
--     src/matching/symbol.cpp.
--   Printing: the toString functions, the stream operators and the export functions, with
--     src/event_handling/event.cpp and sample/event_handler_sample.h.
--   Sample: sample/engine_sample.cpp.
--   Benchmark: benchmark/benchmark_engine.cpp, benchmark/generate_orders.cpp. Generated is about the
--     orders that it makes, Run about its course.
--   Book/Sound, Book/Progress: the invariant of a book, and how each step of the code keeps it.
--   Book/Queue: a side of the book as one queue, and matching against it; Queue/View is the
--     specification that books without stop orders are held against: two queues and a last price;
--     Book/Operations/Simulation has its steps.
--   Book/Waiting: the stop orders that wait when activateStopOrders has ended.
--   Engine/Books, Engine/Client, Engine/Session: the invariant of all books of an engine, and its
--     clients.
--   Scenarios, Scenarios/*: runs of the book, and the theorems at concrete inputs.
-- Functions have the names of the code in snake case. `match` is match_order, and executeOrder with
-- a price is execute_order_at. The two functions of a pair for buying and selling, such as
-- activateBuyStopOrders and activateSellStopOrders, are one function with the side as an argument.
--
-- State is passed explicitly. A reference to an order is its id, a level iterator is the name of a
-- map with a key. An operation ends in a value, in a fault (a failed assertion, or what the language
-- leaves undefined), or out of fuel. The engine's calls end also in a thrown exception, which
-- carries the state that is left behind. The build files define no NDEBUG, so that assertions are
-- checked, those of the intrusive lists included: linking an order that is linked already fails.
--
-- Fuel: activateStopOrders calls itself through deleteOrder, and its loops and the loop of match
-- have no bound of their own. One number bounds the depth of these calls and the rounds of every
-- loop. The activity of a book counts a limit order once and a stop order twice, since a stop order
-- can turn into a limit order. It falls in every nested call and in every round of a loop, so that
-- fuel of the activity and five is enough (HasFuel). The loop of canMatchOrder takes a round more
-- than the order's open quantity at most when its level has a volume. The loops of the benchmark
-- take one for each order or symbol and one to end.
--
-- A well-formed book (IsWellFormed): the orders and the six maps agree in both directions, each
-- level has the price, side, symbol and volume of its orders and is not empty, the maps are in
-- ascending order, no order is linked twice, the open quantities of all orders fit in 64 bits
-- together, a limit order at rest has something left open, and every buying price is below every
-- selling price. HasRoom q says that a further open quantity q still fits.
--
-- Not modelled: libs/robin_hood.h (a container of a third party, used as a finite map whose
-- references stay valid), the timing of the benchmark and the list of its runs. What the export
-- functions do to the files is an argument, and so are the random numbers of the benchmark. Event
-- handlers belong to the client: they are the list of events that they are called with, and are
-- taken to return without calling back. The clock is an argument of the factories.
pub mod Common
pub mod Order
pub mod Event
pub mod Level
pub mod Book
pub mod Engine
mod Benchmark
mod Sample
mod Printing
mod Scenarios
