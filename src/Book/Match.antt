-- ===== src/Book/Match.antt =====
-- Matching an order against the other side of the book: `match`, `canMatchOrder`, `executeOrders`,
-- `addMarketOrder` and `addLimitOrder`. `activate` is the call of `activateStopOrders` that
-- `deleteOrder` makes; `fuel` bounds the rounds of the loop of `match`.
pub mod FillOrKill
use quanta_trader.Common.{
  ℕ, zero, suc, Bool, true, false, ◌&&◌, ◌||◌, not, Option, none, some, min, add64, sub64, u64_max,
  leb, ◌==◌, if◌then◌else◌, first, last, Outcome, done, out_of_fuel, ◌>>=◌,
}
use quanta_trader.Common.Maps.{Map}
use quanta_trader.Order.{
  Order, OrderSide, sell, buy, is_time_in_force, ioc, fok, set_price, execute,
}
use quanta_trader.Level
use quanta_trader.Level.{Level}
use quanta_trader.Event.{order_executed, order_deleted}
use quanta_trader.Book.State.{
  PriceLevelOrderBook, LevelsName, LevelIterator, OrderWithLevelIterator, sell_levels, buy_levels,
  level_at, put_level, find_order, put_order, notify,
}
use quanta_trader.Book.Remove.{delete_order}
use quanta_trader.Book.Insert.{insert_limit_order}

-- The levels that an order of a side is matched with, and the best one of them.
abbrev pub opposite : OrderSide → LevelsName
opposite sell = buy_levels
opposite buy = sell_levels

abbrev pub best_of : OrderSide → Map Level → Option (ℕ × Level)
best_of sell m = last m
best_of buy m = first m

abbrev pub best_opposite : OrderSide → PriceLevelOrderBook → Option LevelIterator
best_opposite side b = elim (best_of side (b.levels (opposite side))) [
  | none ↦ none
  | some e ↦ some (record { levels = opposite side; price = e.0 })
]

-- Whether a level's price is good enough for an order with the given price.
abbrev pub crosses : OrderSide → ℕ → ℕ → Bool
crosses sell price level_price = leb price level_price
crosses buy price level_price = leb level_price price

-- `executeOrders`
unfoldable pub execute_orders :
    Order → Order → ℕ → PriceLevelOrderBook → Order × Order × PriceLevelOrderBook
execute_orders sell_order buy_order executing_price b =
    let quantity = min sell_order.open_quantity buy_order.open_quantity in
    let buy' = execute executing_price quantity buy_order in
    let sell' = execute executing_price quantity sell_order in
    (
      sell',
      buy',
      record (notify (order_executed sell') (notify (order_executed buy') b)) {
        last_traded_price = executing_price;
      },
    )

-- `executeOrders` at the resting order's price; the incoming order comes first in the result.
unfoldable pub execute_against :
    Order → Order → PriceLevelOrderBook → Order × Order × PriceLevelOrderBook
execute_against order resting b = elim order.side [
  | sell ↦ execute_orders order resting resting.price b
  | buy ↦
      let (resting', order', b') = execute_orders resting order resting.price b in
      (order', resting', b')
]

-- The loop of `canMatchOrder`. It does not move on to another level: `volume` is that of the best
-- one in every round.
unfoldable pub can_match_loop : ℕ → ℕ → ℕ → ℕ → Outcome Bool
can_match_loop zero volume required available = out_of_fuel
can_match_loop (suc fuel) volume required available =
    let available' = add64 available (min volume (sub64 required available)) in
    let rest = can_match_loop fuel volume required available' in
    if leb required available' then done true else rest

-- `canMatchOrder`. A round adds to the available quantity unless the level's volume is 0, when the
-- loop has no end: one round more than the open quantity is fuel enough for a loop that ends.
unfoldable pub can_match_order : Order → PriceLevelOrderBook → Outcome Bool
can_match_order order b = elim (best_opposite order.side b) [
  | none ↦ done false
  | some it ↦
      if crosses order.side order.price it.price
      then (do
        level ← level_at it b
        can_match_loop (suc order.open_quantity) level.volume order.open_quantity 0)
      else done false
]

-- Whether the loop goes on, and at which level.
unfoldable pub matching_level : Order → PriceLevelOrderBook → Option LevelIterator
matching_level order b = elim (best_opposite order.side b) [
  | none ↦ none
  | some it ↦
      if crosses order.side order.price it.price && not (order.open_quantity == 0)
      then some it
      else none
]

module _ (activate : PriceLevelOrderBook → Outcome PriceLevelOrderBook) where
  -- The second half of the body of the loop of `match`, after the call of `executeOrders`: the
  -- level's volume falls, and a resting order with nothing left open is deleted.
  unfoldable pub settle_front :
      LevelIterator
      → Level
      → ℕ
      → OrderWithLevelIterator
      → Order × Order × PriceLevelOrderBook
      → Outcome (Order × PriceLevelOrderBook)
  settle_front it level i e (order', resting', b₁) = do
    let b₂ = put_order i (record e { order = resting' }) b₁
    level' ← Level.reduce_volume resting'.last_executed_quantity level
    let b₃ = put_level it level' b₂
    b₄ ← if resting'.open_quantity == 0 then delete_order activate resting'.id b₃ else done b₃
    done (order', b₄)

  -- The body of the loop of `match`: the first order of the level at `it` is executed against.
  unfoldable pub match_front :
      LevelIterator → Order → PriceLevelOrderBook → Outcome (Order × PriceLevelOrderBook)
  match_front it order b = do
    level ← level_at it b
    i ← Level.front level
    e ← find_order i b
    settle_front it level i e (execute_against order e.order b)

  unfoldable pub match_loop :
      ℕ → Order → PriceLevelOrderBook → Outcome (Order × PriceLevelOrderBook)
  match_loop zero order b = out_of_fuel
  match_loop (suc fuel) order b = elim (matching_level order b) [
    | none ↦ done (order, b)
    | some it ↦ do (order', b') ← match_front it order b; match_loop fuel order' b'
  ]

  -- `match`
  unfoldable pub match_order :
      ℕ → Order → PriceLevelOrderBook → Outcome (Order × PriceLevelOrderBook)
  match_order fuel order b = elim (is_time_in_force order.time_in_force fok) [
    | true ↦ do
      matched ← can_match_order order b
      if matched then match_loop fuel order b else done (order, b)
    | false ↦ match_loop fuel order b
  ]

  -- `addMarketOrder`
  unfoldable pub add_market_order : ℕ → Order → PriceLevelOrderBook → Outcome PriceLevelOrderBook
  add_market_order fuel order b = do
    let priced = set_price (elim order.side [ sell ↦ 0 | buy ↦ u64_max ]) order
    (order', b') ← match_order fuel priced b
    done (notify (order_deleted order') b')

  -- `addLimitOrder`
  unfoldable pub add_limit_order : ℕ → Order → PriceLevelOrderBook → Outcome PriceLevelOrderBook
  add_limit_order fuel order b = do
    (order', b') ← match_order fuel order b
    if not (order'.open_quantity == 0)
          && not (is_time_in_force order'.time_in_force ioc)
          && not (is_time_in_force order'.time_in_force fok)
        then insert_limit_order order' b'
        else done (notify (order_deleted order') b')
