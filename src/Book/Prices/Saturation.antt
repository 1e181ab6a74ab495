-- ===== src/Book/Prices/Saturation.antt =====
-- The stop price of a trailing order.
use quanta_trader.Common.{ℕ, ◌+◌, ◌-◌, ◌≤◌, ◌≡◌, refl, min, arith, u64_max}
use quanta_trader.Order.{Order, OrderSide, sell, buy}
use quanta_trader.Book.State.{PriceLevelOrderBook, last_traded_buy_price, last_traded_sell_price}
use quanta_trader.Book.Prices.{market_price, trailing_stop_price, calculate_stop_price}

pub market_price-le :
    (side : OrderSide) (b : PriceLevelOrderBook)
    → b.last_traded_price ≤ u64_max
    → market_price side b ≤ u64_max
unfolding market_price last_traded_buy_price last_traded_sell_price
market_price-le sell b h = h
market_price-le buy b h = ground arith

-- The stop price that the trail amount gives, as an integer held within the range of a `uint64_t`.
abbrev pub held_stop_price : OrderSide → ℕ → ℕ → ℕ
held_stop_price sell market trail = market - trail
held_stop_price buy market trail = min (market + trail) u64_max

saturates :
    (side : OrderSide) (market trail : ℕ)
    → trail ≤ u64_max
    → market ≤ u64_max
    → trailing_stop_price side market trail ≡ held_stop_price side market trail
unfolding trailing_stop_price
saturates sell market trail h w = ground arith
saturates buy market trail h w = ground arith

-- For amounts of 64 bits, the sum and the differences that `calculateStopPrice` computes modulo 2 ^ 64
-- never wrap: it is the market
-- price less, or plus, the trail amount, held between 0 and the largest `uint64_t`; it writes the
-- price that it returns to the order.
pub calculate_stop_price_saturates :
    (o : Order) (b : PriceLevelOrderBook)
    → o.trail_amount ≤ u64_max
    → b.last_traded_price ≤ u64_max
    → ((calculate_stop_price o b).0 ≡ held_stop_price o.side (market_price o.side b) o.trail_amount)
      × ((calculate_stop_price o b).1.stop_price ≡ (calculate_stop_price o b).0)
unfolding calculate_stop_price
calculate_stop_price_saturates o b h w =
    (saturates o.side (market_price o.side b) o.trail_amount h (market_price-le o.side b w), refl)
