-- ===== src/Book/Stops/Trigger.antt =====
-- When a stop order is set off as soon as it arrives.
use quanta_trader.Common.{ℕ, ◌≤◌, ◌≡◌, refl, arith, u64_max, Outcome, true, Bool-cases, inl, inr}
use quanta_trader.Order.{Order, OrderSide, sell, buy, set_stop_price}
use quanta_trader.Book.State.{PriceLevelOrderBook, last_traded_buy_price, last_traded_sell_price}
use quanta_trader.Book.Prices.{market_price, triggered, trailing_stop_price, calculate_stop_price}
use quanta_trader.Book.Prices.Saturation.{market_price-le}
use quanta_trader.Book.Stops.{add_stop_order, add_triggered, triggered_order, is_trailing}

add_triggered-set_stop_price :
    (activate : PriceLevelOrderBook → Outcome PriceLevelOrderBook) (fuel price : ℕ) (o : Order)
    (b : PriceLevelOrderBook)
    → add_triggered activate fuel (set_stop_price price o) b ≡ add_triggered activate fuel o b
unfolding add_triggered triggered_order
add_triggered-set_stop_price activate fuel price o b = refl

untraded_triggers :
    (side : OrderSide) (stop : ℕ) (b : PriceLevelOrderBook)
    → b.last_traded_price ≡ 0
    → stop ≤ u64_max
    → triggered side (market_price side b) stop ≡ true
unfolding market_price triggered last_traded_buy_price last_traded_sell_price
untraded_triggers sell stop b e h = ground arith
untraded_triggers buy stop b e h = ground arith

trailing_stop_price-le :
    (side : OrderSide) (market trail : ℕ)
    → market ≤ u64_max
    → trailing_stop_price side market trail ≤ u64_max
unfolding trailing_stop_price
trailing_stop_price-le sell market trail h = ground arith
trailing_stop_price-le buy market trail h = ground arith

-- Before the first trade every stop order is set off when it arrives, whatever its type, side and
-- stop price: it goes on as the market or limit order that it turns into.
pub add_stop_order_untraded :
    (activate : PriceLevelOrderBook → Outcome PriceLevelOrderBook) (fuel : ℕ) (o : Order)
    (b : PriceLevelOrderBook)
    → b.last_traded_price ≡ 0
    → o.stop_price ≤ u64_max
    → add_stop_order activate fuel o b ≡ add_triggered activate fuel o b
unfolding add_stop_order calculate_stop_price
add_stop_order_untraded activate fuel o b e h = elim (Bool-cases (is_trailing o)) [
  | inl trails ↦
      let price = trailing_stop_price o.side (market_price o.side b) o.trail_amount in
      rw
        (
          trails,
          untraded_triggers o.side price b e (
              trailing_stop_price-le o.side _ o.trail_amount
                (market_price-le o.side b (omega (arith, e)))),
        )
        (add_triggered-set_stop_price activate fuel price o b)
  | inr plain ↦ rw (plain, untraded_triggers o.side o.stop_price b e h)
]
