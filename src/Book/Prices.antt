-- ===== src/Book/Prices.antt =====
-- The market price that stop orders are held against, and the stop price of a trailing order.
pub mod Saturation
use quanta_trader.Common.{ℕ, add64, sub64, ltb, leb, u64_max, if◌then◌else◌, Bool}
use quanta_trader.Order.{Order, OrderSide, sell, buy, set_stop_price}
use quanta_trader.Book.State.{PriceLevelOrderBook, last_traded_buy_price, last_traded_sell_price}

-- The price against which the stop orders of a side are held.
unfoldable pub market_price : OrderSide → PriceLevelOrderBook → ℕ
market_price sell b = last_traded_buy_price b
market_price buy b = last_traded_sell_price b

-- Whether the market price sets off a stop price.
unfoldable pub triggered : OrderSide → ℕ → ℕ → Bool
triggered sell market stop = leb market stop
triggered buy market stop = leb stop market

unfoldable pub trailing_stop_price : OrderSide → ℕ → ℕ → ℕ
trailing_stop_price sell market trail = if ltb trail market then sub64 market trail else 0
trailing_stop_price buy market trail =
    if ltb market (sub64 u64_max trail) then add64 market trail else u64_max

-- `calculateStopPrice`, which returns the new price and writes it to the order.
unfoldable pub calculate_stop_price : Order → PriceLevelOrderBook → ℕ × Order
calculate_stop_price o b =
    let stop = trailing_stop_price o.side (market_price o.side b) o.trail_amount in
    (stop, set_stop_price stop o)
