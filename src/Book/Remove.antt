-- ===== src/Book/Remove.antt =====
-- Taking an order out of the book: `deleteOrder`.
use quanta_trader.Common.{ℕ, if◌then◌else◌, Outcome, done, fault, undefined_behaviour, ◌>>=◌}
use quanta_trader.Common.Maps.{erase}
use quanta_trader.Order.{
  OrderSide, sell, buy, OrderType, market, limit, stop, stop_limit, trailing_stop,
  trailing_stop_limit,
}
use quanta_trader.Level
use quanta_trader.Level.{Level}
use quanta_trader.Event.{order_deleted}
use quanta_trader.Book.State.{
  PriceLevelOrderBook, LevelsName, LevelIterator, sell_levels, buy_levels, stop_sell_levels,
  stop_buy_levels, trailing_stop_sell_levels, trailing_stop_buy_levels, same_levels, set_levels,
  level_at, put_level, find_order, notify,
}

-- The map from which the switch over the order's type and side erases an empty level.
abbrev pub levels_for : OrderType → OrderSide → LevelsName
levels_for market sell = sell_levels
levels_for market buy = buy_levels
levels_for limit sell = sell_levels
levels_for limit buy = buy_levels
levels_for stop sell = stop_sell_levels
levels_for stop buy = stop_buy_levels
levels_for stop_limit sell = stop_sell_levels
levels_for stop_limit buy = stop_buy_levels
levels_for trailing_stop sell = trailing_stop_sell_levels
levels_for trailing_stop buy = trailing_stop_buy_levels
levels_for trailing_stop_limit sell = trailing_stop_sell_levels
levels_for trailing_stop_limit buy = trailing_stop_buy_levels

-- `std::map::erase` of an iterator, which is undefined if it belongs to another map.
unfoldable pub erase_level :
    LevelsName → LevelIterator → PriceLevelOrderBook → Outcome PriceLevelOrderBook
erase_level k it b =
    if same_levels k it.levels
    then done (set_levels k (erase it.price (b.levels k)) b)
    else fault undefined_behaviour

-- `deleteOrder` up to its call of `activateStopOrders`.
unfoldable pub remove_order : ℕ → PriceLevelOrderBook → Outcome PriceLevelOrderBook
remove_order order_id b = do
  e ← find_order order_id b
  level ← level_at e.level_it b
  level' ← Level.delete_order e.order level
  let b₁ = put_level e.level_it level' (notify (order_deleted e.order) b)
  b₂ ←
      if Level.empty level'
      then erase_level (levels_for e.order.type e.order.side) e.level_it b₁
      else done b₁
  done (record b₂ { orders = erase order_id b₂.orders })

-- `deleteOrder`, whose call of `activateStopOrders` is the argument `activate`.
unfoldable pub delete_order :
    (PriceLevelOrderBook → Outcome PriceLevelOrderBook)
    → ℕ
    → PriceLevelOrderBook
    → Outcome PriceLevelOrderBook
delete_order activate order_id b = do b' ← remove_order order_id b; activate b'
