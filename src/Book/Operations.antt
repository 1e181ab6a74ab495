-- ===== src/Book/Operations.antt =====
-- The public operations of the order book. `fuel` is that of `activateStopOrders`, and bounds the
-- loop of `match` too.
pub mod Accepted
pub mod Total
pub mod Reduce
pub mod Replace
pub mod Client
pub mod Overflow
pub mod Room
pub mod Session
pub mod Arrivals
pub mod Departures
pub mod Modification
pub mod Reduction
pub mod Queries
pub mod Simulation
pub mod Completeness
use quanta_trader.Common.{ℕ, min, sub64, ◌==◌, if◌then◌else◌, Outcome, done, ◌>>=◌}
use quanta_trader.Order.{
  Order, OrderType, market, limit, stop, stop_limit, trailing_stop, trailing_stop_limit, set_id,
  set_price, set_quantity, execute,
}
use quanta_trader.Level
use quanta_trader.Event.{order_added, order_updated, order_executed}
use quanta_trader.Book.State.{
  PriceLevelOrderBook, find_order, put_order, level_at, put_level, notify,
}
use quanta_trader.Book.Remove
use quanta_trader.Book.Match.{add_market_order, add_limit_order}
use quanta_trader.Book.Stops.{add_stop_order, activate_stop_orders}

module _ (fuel : ℕ) where
  -- The switch of `addOrder`.
  unfoldable pub add_by_type : OrderType → Order → PriceLevelOrderBook → Outcome PriceLevelOrderBook
  add_by_type market order b = add_market_order (activate_stop_orders fuel) fuel order b
  add_by_type limit order b = add_limit_order (activate_stop_orders fuel) fuel order b
  add_by_type stop order b = add_stop_order (activate_stop_orders fuel) fuel order b
  add_by_type stop_limit order b = add_stop_order (activate_stop_orders fuel) fuel order b
  add_by_type trailing_stop order b = add_stop_order (activate_stop_orders fuel) fuel order b
  add_by_type trailing_stop_limit order b = add_stop_order (activate_stop_orders fuel) fuel order b

  -- `addOrder`
  unfoldable pub add_order : Order → PriceLevelOrderBook → Outcome PriceLevelOrderBook
  add_order order b = do
    b' ← add_by_type order.type order (notify (order_added order) b)
    activate_stop_orders fuel b'

  -- `deleteOrder`
  unfoldable pub delete_order : ℕ → PriceLevelOrderBook → Outcome PriceLevelOrderBook
  delete_order order_id b = Remove.delete_order (activate_stop_orders fuel) order_id b

  -- `modifyOrder`
  unfoldable pub modify_order : ℕ → ℕ → ℕ → PriceLevelOrderBook → Outcome PriceLevelOrderBook
  modify_order order_id new_order_id new_price b = do
    e ← find_order order_id b
    let new_order = set_price new_price (set_id new_order_id e.order)
    b₁ ← delete_order order_id b
    b₂ ← add_order new_order b₁
    activate_stop_orders fuel b₂

  -- The end of `cancelOrder` and of both versions of `executeOrder`: the level loses `amount`, and an
  -- order with nothing left open is deleted.
  unfoldable pub settle : ℕ → ℕ → Order → PriceLevelOrderBook → Outcome PriceLevelOrderBook
  settle order_id amount order b = do
    e ← find_order order_id b
    level ← level_at e.level_it b
    level' ← Level.reduce_volume amount level
    let b₁ = put_level e.level_it level' b
    b₂ ← if order.open_quantity == 0 then delete_order order_id b₁ else done b₁
    activate_stop_orders fuel b₂

  -- `cancelOrder`
  unfoldable pub cancel_order : ℕ → ℕ → PriceLevelOrderBook → Outcome PriceLevelOrderBook
  cancel_order order_id quantity b = do
    e ← find_order order_id b
    let order = set_quantity quantity e.order
    let b₁ = notify (order_updated order) (put_order order_id (record e { order = order }) b)
    settle order_id (sub64 e.order.open_quantity order.open_quantity) order b₁

  -- The first lines that both versions of `executeOrder` share.
  unfoldable pub execute_order_at : ℕ → ℕ → ℕ → PriceLevelOrderBook → Outcome PriceLevelOrderBook
  execute_order_at order_id quantity price b = do
    e ← find_order order_id b
    let order = execute price (min quantity e.order.open_quantity) e.order
    let b₁ = record (put_order order_id (record e { order = order }) b) {
      last_traded_price = price;
    }
    settle order_id order.last_executed_quantity order (notify (order_executed order) b₁)

  -- `executeOrder` without a price.
  unfoldable pub execute_order : ℕ → ℕ → PriceLevelOrderBook → Outcome PriceLevelOrderBook
  execute_order order_id quantity b = do
    e ← find_order order_id b
    execute_order_at order_id quantity e.order.price b
