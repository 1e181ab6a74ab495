-- ===== src/Printing.antt =====
-- The text that is printed: `toString` and the stream operators of src/matching/order.cpp,
-- src/matching/level.cpp, src/matching/price_level_order_book.cpp, src/matching/engine.cpp,
-- src/matching/symbol.cpp and src/event_handling/event.cpp, and the event handler of
-- sample/event_handler_sample.h. How the standard library prints a number and a time are arguments.
use Prim.Native.String.{◌++◌}
use quanta_trader.Common.{ℕ, String, List, [], ◌∷◌}
use quanta_trader.Common.Maps.{Map}
use quanta_trader.Order.{
  Order, OrderType, OrderSide, OrderTimeInForce, market, limit, stop, stop_limit, trailing_stop,
  trailing_stop_limit, sell, buy, gtc, ioc, aon, fok,
}
use quanta_trader.Level.{Level}
use quanta_trader.Event.{
  Event, EventHandler, symbol_added, symbol_deleted, order_added, order_deleted, order_executed,
  order_updated,
}
use quanta_trader.Book.State.{
  PriceLevelOrderBook, sell_levels, buy_levels, stop_sell_levels, stop_buy_levels,
  trailing_stop_sell_levels, trailing_stop_buy_levels,
}
use quanta_trader.Book.State
use quanta_trader.Book.Operations
use quanta_trader.Book.Interface.{OrderBook}
use quanta_trader.Engine.{Engine, Symbol}

-- `typeToString`
unfoldable type_to_string : OrderType → String
type_to_string market = "MARKET"
type_to_string limit = "LIMIT"
type_to_string stop = "STOP"
type_to_string stop_limit = "STOP_LIMIT"
type_to_string trailing_stop = "TRAILING_STOP"
type_to_string trailing_stop_limit = "TRAILING_STOP_LIMIT"

-- `sideToString`
unfoldable side_to_string : OrderSide → String
side_to_string sell = "SELL"
side_to_string buy = "BUY"

-- `timeInForceToString`
unfoldable time_in_force_to_string : OrderTimeInForce → String
time_in_force_to_string gtc = "GTC"
time_in_force_to_string ioc = "IOC"
time_in_force_to_string aon = "AON"
time_in_force_to_string fok = "FOK"

unfoldable concat : List String → String
concat [] = ""
concat (s ∷ ss) = s ++ concat ss

module _ (to_string : ℕ → String) (put_time : ℕ → String) where
  -- `Order::toString`. Where the timestamp is to stand, the stream's text so far is written again.
  unfoldable order_to_string : Order → String
  order_to_string order =
      let text = concat (
        put_time order.timestamp
        ∷ "Order [ID: "
        ∷ to_string order.id
        ∷ ", Type: "
        ∷ type_to_string order.type
        ∷ ", Side: "
        ∷ side_to_string order.side
        ∷ ", TIF: "
        ∷ time_in_force_to_string order.time_in_force
        ∷ ", Symbol ID: "
        ∷ to_string order.symbol_id
        ∷ ", Price: "
        ∷ to_string order.price
        ∷ ", Quantity: "
        ∷ to_string order.quantity
        ∷ ", Open Quantity: "
        ∷ to_string order.open_quantity
        ∷ ", Timestamp: "
        ∷ []) in
      text ++ text ++ "]"

  -- `Level::toString`
  unfoldable level_to_string : Level → String
  level_to_string level =
      concat (to_string level.price ∷ " | " ∷ to_string level.volume ∷ "\n" ∷ [])

  unfoldable levels_to_string : Map Level → String
  levels_to_string [] = ""
  levels_to_string ((price, level) ∷ m) = level_to_string level ++ levels_to_string m

  -- `PriceLevelOrderBook::toString`
  unfoldable book_to_string : PriceLevelOrderBook → String
  book_to_string b = concat (
      "SYMBOL ID : "
      ∷ to_string b.symbol_id
      ∷ "\n"
      ∷ "LAST TRADED PRICE: "
      ∷ to_string b.last_traded_price
      ∷ "\n"
      ∷ "BUY ORDERS\n"
      ∷ levels_to_string (b.levels buy_levels)
      ∷ "SELL ORDERS\n"
      ∷ levels_to_string (b.levels sell_levels)
      ∷ "BUY STOP ORDERS\n"
      ∷ levels_to_string (b.levels stop_buy_levels)
      ∷ "SELL STOP ORDERS\n"
      ∷ levels_to_string (b.levels stop_sell_levels)
      ∷ "BUY TRAILING STOP ORDERS\n"
      ∷ levels_to_string (b.levels trailing_stop_buy_levels)
      ∷ "SELL TRAILING STOP ORDERS\n"
      ∷ levels_to_string (b.levels trailing_stop_sell_levels)
      ∷ [])

  unfoldable books_to_string : Map PriceLevelOrderBook → String
  books_to_string [] = ""
  books_to_string ((symbol_id, book) ∷ m) = concat (
      "Symbol ID: "
      ∷ to_string symbol_id
      ∷ "\n"
      ∷ book_to_string book
      ∷ "\n"
      ∷ books_to_string m
      ∷ [])

  -- `OrderBookHandler::toString` and `Engine::toString`, for the order in which the books of the
  -- hash map are gone through.
  unfoldable engine_to_string : Engine → String
  engine_to_string e = books_to_string e.orderbook_handler.symbol_to_order_book

  -- The stream operator of a symbol.
  unfoldable symbol_to_string : Symbol → String
  symbol_to_string symbol =
      concat ("Symbol: " ∷ symbol.name ∷ "Symbol ID: " ∷ to_string symbol.id ∷ "\n" ∷ [])

  -- The stream operators of the events.
  unfoldable event_to_string : Event → String
  event_to_string (symbol_added symbol_id name) =
      concat ("Symbol Added\n" ∷ "Name: " ∷ name ∷ "\n" ∷ "ID: " ∷ to_string symbol_id ∷ "\n" ∷ [])
  event_to_string (symbol_deleted symbol_id name) =
      concat
        ("Symbol Deleted\n" ∷ "Name: " ∷ name ∷ "\n" ∷ "ID: " ∷ to_string symbol_id ∷ "\n" ∷ [])
  event_to_string (order_added order) = "Order Added\n" ++ order_to_string order
  event_to_string (order_deleted order) = "Order Deleted\n" ++ order_to_string order
  event_to_string (order_executed order) = "Order Executed\n" ++ order_to_string order
  event_to_string (order_updated order) = "Order Updated\n" ++ order_to_string order

  -- The six functions of `EventHandlerSample`: each prints what it is called with, and ends the line.
  unfoldable handle_event : Event → String
  handle_event notification = event_to_string notification ++ "\n"

  -- What a sample event handler has printed after its calls, of which the latest stands first.
  unfoldable printed : EventHandler → String
  printed [] = ""
  printed (notification ∷ before) = printed before ++ handle_event notification

  -- The export functions: opening a file, writing a text to it and closing it is an argument, which
  -- takes the name and the text to what it does to the files.
  module _ {Files : Type 0} (write_file : String → String → Files → Files) where
    -- `PriceLevelOrderBook::exportOrderBook`
    unfoldable export_order_book : String → PriceLevelOrderBook → Files → Files
    export_order_book path b = write_file path (book_to_string b)

    -- `Engine::exportEngine`
    unfoldable export_engine : String → Engine → Files → Files
    export_engine name e = write_file name (engine_to_string e)

    -- `PriceLevelOrderBook` as an `OrderBook`.
    unfoldable price_level_order_book : ℕ → OrderBook PriceLevelOrderBook Files
    price_level_order_book fuel = record {
      get_symbol_id = λ b. b.symbol_id;
      add_order = Operations.add_order fuel;
      delete_order = Operations.delete_order fuel;
      modify_order = Operations.modify_order fuel;
      cancel_order = Operations.cancel_order fuel;
      execute_order_at = Operations.execute_order_at fuel;
      execute_order = Operations.execute_order fuel;
      get_best_buy = State.get_best_buy;
      get_best_sell = State.get_best_sell;
      last_traded_price = λ b. b.last_traded_price;
      has_order = State.has_order;
      get_order = State.get_order;
      empty = State.empty;
      export_order_book = export_order_book;
      to_string = book_to_string;
    }
