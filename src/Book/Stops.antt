-- ===== src/Book/Stops.antt =====
-- Stop orders: `addStopOrder`, `activateStopOrder`, `activateStopOrders` with its four helpers.
-- The fuel of `activate_stop_orders` bounds both how deep its calls of itself nest and the rounds of
-- each loop below a call.
pub mod Trigger
pub mod Trailing
use quanta_trader.Common.{
  ℕ, zero, suc, Bool, true, false, ◌&&◌, ◌||◌, not, Option, none, some, List, [], ◌∷◌, ltb, ◌==◌,
  if◌then◌else◌, is_empty, first, last, Outcome, done, out_of_fuel, deref, ◌>>=◌,
}
use quanta_trader.Common.Maps.{Map, find, put, emplace}
use quanta_trader.Order.{
  Order, OrderSide, sell, buy, is_type, market, limit, stop, trailing_stop, trailing_stop_limit,
  set_type, set_stop_price, set_trail_amount,
}
use quanta_trader.Level
use quanta_trader.Level.{Level}
use quanta_trader.Event.{order_updated}
use quanta_trader.Book.State.{
  PriceLevelOrderBook, OrderWithLevelIterator, LevelsName, LevelIterator, level_at,
  stop_sell_levels, stop_buy_levels, trailing_stop_sell_levels, trailing_stop_buy_levels,
  set_levels, find_order, put_order, notify, last_traded_buy_price, last_traded_sell_price,
}
use quanta_trader.Book.Prices.{market_price, triggered, calculate_stop_price}
use quanta_trader.Book.Insert.{level_side, insert_stop_order, insert_trailing_stop_order}
use quanta_trader.Book.Remove.{delete_order}
use quanta_trader.Book.Match.{add_market_order, add_limit_order}

abbrev pub stop_levels : OrderSide → LevelsName
stop_levels sell = stop_sell_levels
stop_levels buy = stop_buy_levels

abbrev pub trailing_stop_levels : OrderSide → LevelsName
trailing_stop_levels sell = trailing_stop_sell_levels
trailing_stop_levels buy = trailing_stop_buy_levels

-- The level whose stop price is reached first.
abbrev pub next_stop_level : OrderSide → Map Level → Option (ℕ × Level)
next_stop_level sell m = last m
next_stop_level buy m = first m

-- One round of the loops of `updateTrailingBuyStopOrders` and `updateTrailingSellStopOrders`: the
-- order at the front of its level moves to the level of its new stop price in the map that is being
-- built. The old level is thrown away afterwards, so that its loss of the order is not written.
unfoldable pub move_trailing :
    OrderSide → ℕ → Map Level × PriceLevelOrderBook → Outcome (Map Level × PriceLevelOrderBook)
move_trailing side i (updated, b) = do
  e ← find_order i b
  let (price, order) = calculate_stop_price e.order b
  let k = trailing_stop_levels side
  let updated₁ = emplace price (Level.new_level price (level_side k) b.symbol_id) updated
  level ← deref (find price updated₁)
  level' ← Level.add_order order level
  let entry : OrderWithLevelIterator = record {
    order = order;
    level_it = record { levels = k; price = price };
  }
  done (put price level' updated₁, notify (order_updated order) (put_order i entry b))

unfoldable pub move_trailing_orders :
    OrderSide → List ℕ → Map Level × PriceLevelOrderBook → Outcome (Map Level × PriceLevelOrderBook)
move_trailing_orders side [] s = done s
move_trailing_orders side (i ∷ is) s = do
  s' ← move_trailing side i s
  move_trailing_orders side is s'

unfoldable pub move_trailing_levels :
    OrderSide
    → Map Level
    → Map Level × PriceLevelOrderBook
    → Outcome (Map Level × PriceLevelOrderBook)
move_trailing_levels side [] s = done s
move_trailing_levels side ((price, level) ∷ m) s = do
  s' ← move_trailing_orders side level.orders s
  move_trailing_levels side m s'

-- Whether the market has moved since the reference price of the side was taken.
abbrev pub trailing_moves : OrderSide → PriceLevelOrderBook → Bool
trailing_moves sell b = ltb b.trailing_buy_price (last_traded_buy_price b)
trailing_moves buy b = ltb (last_traded_sell_price b) b.trailing_sell_price

abbrev pub set_trailing_price : OrderSide → PriceLevelOrderBook → PriceLevelOrderBook
set_trailing_price sell b = record b { trailing_buy_price = b.last_traded_price }
set_trailing_price buy b = record b { trailing_sell_price = b.last_traded_price }

-- `updateTrailingSellStopOrders` and `updateTrailingBuyStopOrders`
unfoldable pub update_trailing_stop_orders :
    OrderSide → PriceLevelOrderBook → Outcome PriceLevelOrderBook
update_trailing_stop_orders side b =
    let k = trailing_stop_levels side in
    if trailing_moves side b && not (is_empty (b.levels k))
    then (do
      (updated, b') ← move_trailing_levels side (b.levels k) ([], b)
      done (set_levels k updated b'))
    else done (set_trailing_price side b)

-- A stop order that is set off becomes a market order or a limit order.
unfoldable pub triggered_order : Order → Order
triggered_order order =
    let plain = set_trail_amount 0 (set_stop_price 0 order) in
    if is_type order.type stop || is_type order.type trailing_stop
    then set_type market plain
    else set_type limit plain

-- The end of `activateStopOrder` and of the triggered branch of `addStopOrder`.
module _ (activate : PriceLevelOrderBook → Outcome PriceLevelOrderBook) where
  unfoldable pub add_triggered : ℕ → Order → PriceLevelOrderBook → Outcome PriceLevelOrderBook
  add_triggered fuel order b =
      let order' = triggered_order order in
      let b' = notify (order_updated order') b in
      if is_type order'.type market
      then add_market_order activate fuel order' b'
      else add_limit_order activate fuel order' b'

  -- `activateStopOrder`
  unfoldable pub activate_stop_order : ℕ → Order → PriceLevelOrderBook → Outcome PriceLevelOrderBook
  activate_stop_order fuel order b = do
    b' ← delete_order activate order.id b
    add_triggered fuel order b'

  -- The body of these loops: the first order of the level at `it` is activated.
  unfoldable pub activate_front :
      ℕ → LevelIterator → PriceLevelOrderBook → Outcome PriceLevelOrderBook
  activate_front fuel it b = do
    level ← level_at it b
    i ← Level.front level
    e ← find_order i b
    activate_stop_order fuel e.order b

  -- One of the loops of `activateBuyStopOrders` and `activateSellStopOrders`, over the map `k`.
  -- `last_price` was read before the loop. The flag tells whether an order was activated.
  unfoldable pub activate_levels :
      ℕ
      → ℕ
      → OrderSide
      → LevelsName
      → ℕ
      → Bool
      → PriceLevelOrderBook
      → Outcome (Bool × PriceLevelOrderBook)
  activate_levels zero fuel side k last_price activated b = out_of_fuel
  activate_levels (suc rounds) fuel side k last_price activated b =
      elim (next_stop_level side (b.levels k)) [
        | none ↦ done (activated, b)
        | some (price, level) ↦ elim (triggered side last_price price) [
          | true ↦ do
            b' ← activate_front fuel (record { levels = k; price = price }) b
            activate_levels rounds fuel side k last_price true b'
          | false ↦ done (activated, b)
        ]
      ]

  -- `activateBuyStopOrders` and `activateSellStopOrders`
  unfoldable pub activate_side :
      ℕ → OrderSide → PriceLevelOrderBook → Outcome (Bool × PriceLevelOrderBook)
  activate_side fuel side b = do
    (activated, b₁) ←
        activate_levels fuel fuel side (stop_levels side) (market_price side b) false b
    activate_levels fuel fuel side (trailing_stop_levels side) (market_price side b₁) activated b₁

  -- A round of the loop of `activateStopOrders`, with the value of `cont` at its end.
  unfoldable pub activate_round : ℕ → PriceLevelOrderBook → Outcome (Bool × PriceLevelOrderBook)
  activate_round fuel b = do
    (_, b₁) ← activate_side fuel buy b
    b₂ ← update_trailing_stop_orders sell b₁
    (cont, b₃) ← activate_side fuel sell b₂
    b₄ ← update_trailing_stop_orders buy b₃
    done (cont, b₄)

  unfoldable pub activate_loop : ℕ → ℕ → PriceLevelOrderBook → Outcome PriceLevelOrderBook
  activate_loop zero fuel b = out_of_fuel
  activate_loop (suc rounds) fuel b = do
    (cont, b') ← activate_round fuel b
    elim cont [ true ↦ activate_loop rounds fuel b' | false ↦ done b' ]

-- `activateStopOrders`
unfoldable pub activate_stop_orders : ℕ → PriceLevelOrderBook → Outcome PriceLevelOrderBook
activate_stop_orders zero b = out_of_fuel
activate_stop_orders (suc fuel) b = activate_loop (activate_stop_orders fuel) (suc fuel) fuel b

-- Whether an order carries a trail amount.
abbrev pub is_trailing : Order → Bool
is_trailing order = is_type order.type trailing_stop || is_type order.type trailing_stop_limit

-- `addStopOrder`
unfoldable pub add_stop_order :
    (PriceLevelOrderBook → Outcome PriceLevelOrderBook)
    → ℕ
    → Order
    → PriceLevelOrderBook
    → Outcome PriceLevelOrderBook
add_stop_order activate fuel order b =
    let priced = if is_trailing order then (calculate_stop_price order b).1 else order in
    if triggered priced.side (market_price priced.side b) priced.stop_price
    then add_triggered activate fuel priced b
    else if is_trailing priced
    then insert_trailing_stop_order priced b
    else insert_stop_order priced b
