-- ===== src/Engine.antt =====
-- The engine and its order books: include/matching/engine.h, src/matching/engine.cpp,
-- include/matching/symbol.h and src/matching/symbol.cpp, without printing. The books share the event
-- handler of their `OrderBookHandler`: a book is given its events before a call, and they are
-- taken from it after.
pub mod Symbols
pub mod Books
pub mod Client
pub mod Session
use quanta_trader.Common.{
  ℕ, Bool, Option, none, some, String, List, [], ◌∷◌, Outcome, done, fault, out_of_fuel, Fault,
}
use quanta_trader.Common.Maps.{Map, find, put, erase, contains}
use quanta_trader.Order.{Order}
use quanta_trader.Event.{Event, EventHandler, symbol_added, symbol_deleted}
use quanta_trader.Book.State.{PriceLevelOrderBook, new_book}
use quanta_trader.Book.Operations

-- How a call ends: it returns, it throws a `std::runtime_error` with the state that it leaves
-- behind, it meets a fault, or the model's fuel is used up.
pub data Call (S : Type 0) : Type 0 where
  returned : S → Call S
  thrown : String → S → Call S
  faulted : Fault → Call S
  unfinished : Call S

abbrev pub Call_map : {S T : Type 0} → (S → T) → Call S → Call T
Call_map f (returned s) = returned (f s)
Call_map f (thrown what s) = thrown what (f s)
Call_map f (faulted e) = faulted e
Call_map f unfinished = unfinished

pub record Symbol : Type 0 where
  pub id : ℕ
  pub name : String

pub record OrderBookHandler : Type 0 where
  pub symbol_to_order_book : Map PriceLevelOrderBook
  pub event_handler : EventHandler

pub record Engine : Type 0 where
  pub orderbook_handler : OrderBookHandler
  pub symbol_id_to_symbol : Map Symbol

abbrev pub already_exists : String
already_exists = "Symbol already exists in the book"

abbrev pub does_not_exist : String
does_not_exist = "Symbol does not exist in the book"

-- `OrderBookHandler::addOrderBook`
unfoldable pub add_order_book : ℕ → String → OrderBookHandler → Call OrderBookHandler
add_order_book symbol_id symbol_name h = elim (find symbol_id h.symbol_to_order_book) [
  | some _ ↦ thrown already_exists h
  | none ↦ returned (record {
    symbol_to_order_book =
        put symbol_id (new_book symbol_id h.event_handler) h.symbol_to_order_book;
    event_handler = symbol_added symbol_id symbol_name ∷ h.event_handler;
  })
]

-- `OrderBookHandler::deleteOrderBook`
unfoldable pub delete_order_book : ℕ → String → OrderBookHandler → Call OrderBookHandler
delete_order_book symbol_id symbol_name h = elim (find symbol_id h.symbol_to_order_book) [
  | none ↦ thrown does_not_exist h
  | some _ ↦ returned (record {
    symbol_to_order_book = erase symbol_id h.symbol_to_order_book;
    event_handler = symbol_deleted symbol_id symbol_name ∷ h.event_handler;
  })
]

-- The book after a call, put back under its symbol.
abbrev pub store_book : ℕ → OrderBookHandler → Outcome PriceLevelOrderBook → Call OrderBookHandler
store_book symbol_id h (done b) = returned (record {
  symbol_to_order_book = put symbol_id b h.symbol_to_order_book;
  event_handler = b.event_handler;
})
store_book symbol_id h (fault e) = faulted e
store_book symbol_id h out_of_fuel = unfinished

-- The shape of the six order functions of `OrderBookHandler`: the book of the symbol is found, and
-- one of its operations called.
unfoldable pub on_book :
    ℕ
    → (PriceLevelOrderBook → Outcome PriceLevelOrderBook)
    → OrderBookHandler
    → Call OrderBookHandler
on_book symbol_id operation h = elim (find symbol_id h.symbol_to_order_book) [
  | none ↦ thrown does_not_exist h
  | some b ↦ store_book symbol_id h (operation (record b { event_handler = h.event_handler }))
]

-- A call of the `OrderBookHandler` that an engine owns.
abbrev pub on_handler : (OrderBookHandler → Call OrderBookHandler) → Engine → Call Engine
on_handler call e = Call_map (λ h. record e { orderbook_handler = h }) (call e.orderbook_handler)

-- The constructors.
abbrev pub new_order_book_handler : EventHandler → OrderBookHandler
new_order_book_handler event_handler = record {
  symbol_to_order_book = [];
  event_handler = event_handler;
}

unfoldable pub new_engine : EventHandler → Engine
new_engine event_handler = record {
  orderbook_handler = new_order_book_handler event_handler;
  symbol_id_to_symbol = [];
}

-- `addSymbol`: the name is stored before the book is added.
unfoldable pub add_symbol : ℕ → String → Engine → Call Engine
add_symbol symbol_id symbol_name e = on_handler (add_order_book symbol_id symbol_name) (record e {
  symbol_id_to_symbol =
      put symbol_id (record { id = symbol_id; name = symbol_name }) e.symbol_id_to_symbol;
})

-- The last line of `deleteSymbol`, which an exception skips.
abbrev pub erase_symbol : ℕ → Call Engine → Call Engine
erase_symbol symbol_id (returned e) =
    returned (record e { symbol_id_to_symbol = erase symbol_id e.symbol_id_to_symbol })
erase_symbol symbol_id (thrown what e) = thrown what e
erase_symbol symbol_id (faulted e) = faulted e
erase_symbol symbol_id unfinished = unfinished

-- `deleteSymbol`
unfoldable pub delete_symbol : ℕ → Engine → Call Engine
delete_symbol symbol_id e = elim (find symbol_id e.symbol_id_to_symbol) [
  | none ↦ returned e
  | some symbol ↦ erase_symbol symbol_id (on_handler (delete_order_book symbol_id symbol.name) e)
]

-- `hasSymbol`
unfoldable pub has_symbol : ℕ → Engine → Bool
has_symbol symbol_id e = contains symbol_id e.symbol_id_to_symbol

-- The order functions of the engine. `fuel` is that of the book's operations.
module _ (fuel : ℕ) where
  unfoldable pub add_order : Order → Engine → Call Engine
  add_order order = on_handler (on_book order.symbol_id (Operations.add_order fuel order))

  unfoldable pub delete_order : ℕ → ℕ → Engine → Call Engine
  delete_order symbol_id order_id =
      on_handler (on_book symbol_id (Operations.delete_order fuel order_id))

  unfoldable pub cancel_order : ℕ → ℕ → ℕ → Engine → Call Engine
  cancel_order symbol_id order_id cancelled_quantity =
      on_handler (on_book symbol_id (Operations.cancel_order fuel order_id cancelled_quantity))

  unfoldable pub modify_order : ℕ → ℕ → ℕ → ℕ → Engine → Call Engine
  modify_order symbol_id order_id new_order_id new_price =
      on_handler (on_book symbol_id (Operations.modify_order fuel order_id new_order_id new_price))

  unfoldable pub execute_order_at : ℕ → ℕ → ℕ → ℕ → Engine → Call Engine
  execute_order_at symbol_id order_id quantity price =
      on_handler (on_book symbol_id (Operations.execute_order_at fuel order_id quantity price))

  unfoldable pub execute_order : ℕ → ℕ → ℕ → Engine → Call Engine
  execute_order symbol_id order_id quantity =
      on_handler (on_book symbol_id (Operations.execute_order fuel order_id quantity))
