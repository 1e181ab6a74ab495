-- ===== src/Book/Queue/View.antt =====
-- What a trader sees of a book without stop orders: its two queues and the price of the last trade;
-- and what an order that arrives makes of that, stated without levels, maps or iterators.
use quanta_trader.Common.{
  ℕ, ◌≡◌, fun_ext, Bool, false, ◌&&◌, not, ◌==◌, if◌then◌else◌, List, u64_max,
}
use quanta_trader.Order.{
  Order, OrderSide, OrderType, sell, buy, market, limit, stop, stop_limit, trailing_stop,
  trailing_stop_limit, is_time_in_force, ioc, fok,
}
use quanta_trader.Book.State.{PriceLevelOrderBook}
use quanta_trader.Book.Queue.{Resting, fill, queue}
use quanta_trader.Book.Queue.Arrival.{enqueue, facing}
use quanta_trader.Book.Queue.Leaving.{without}
use quanta_trader.Book.Queue.Amending.{amend}

-- The queue that incoming orders of each side meet.
pub record View : Type 0 where
  pub queues : OrderSide → List Resting
  pub last_price : ℕ

abbrev pub view : PriceLevelOrderBook → View
view b = record { queues = λ side. queue side b; last_price = b.last_traded_price }

-- The queue that an incoming order of the side meets, and the other one.
abbrev pub two_queues : OrderSide → List Resting → List Resting → OrderSide → List Resting
two_queues sell met unmet sell = met
two_queues sell met unmet buy = unmet
two_queues buy met unmet buy = met
two_queues buy met unmet sell = unmet

-- The worst price that an order accepts: a market order takes any.
abbrev pub price_limit : OrderType → Order → ℕ
price_limit market o = elim o.side [ sell ↦ 0 | buy ↦ u64_max ]
price_limit limit o = o.price
price_limit stop o = o.price
price_limit stop_limit o = o.price
price_limit trailing_stop o = o.price
price_limit trailing_stop_limit o = o.price

-- This is how the code treats the times in force, not how include/matching/order.h describes them: an
-- all-or-none order is treated as good-till-cancelled and a fill-or-kill order as
-- immediate-or-cancel, so that both can be filled in part.
abbrev pub may_rest : OrderType → Order → Bool
may_rest market o = false
may_rest limit o =
    not (is_time_in_force o.time_in_force ioc) && not (is_time_in_force o.time_in_force fok)
may_rest stop o = false
may_rest stop_limit o = false
may_rest trailing_stop o = false
may_rest trailing_stop_limit o = false

-- What is left open of the order joins the queue of its side, if the order may rest.
abbrev pub join : Bool → Order → ℕ → List Resting → List Resting
join rests o q rs =
    if not (q == 0) && rests
    then enqueue (facing o.side) (record { id = o.id; price = o.price; open_quantity = q }) rs
    else rs

-- A market or limit order arrives: it takes what it can from the queue that it meets, whatever its
-- time in force, and what is left of it may join the other queue.
unfoldable pub arrive : Order → View → View
arrive o v =
    let f = fill o.side (price_limit o.type o) o.open_quantity v.last_price (v.queues o.side) in
    record {
      queues =
          two_queues o.side f.rest
            (join (may_rest o.type o) o f.open_quantity (v.queues (facing o.side)));
      last_price = f.last_price;
    }

-- An order leaves, whichever queue it stands in.
unfoldable pub leave : ℕ → View → View
leave i v = record { queues = λ side. without i (v.queues side); last_price = v.last_price }

-- An order has another quantity open, and leaves if that is 0.
unfoldable pub reduce : ℕ → ℕ → View → View
reduce i q v = record { queues = λ side. amend i q (v.queues side); last_price = v.last_price }

-- A view is known from its two queues and its price.
pub view-eq :
    (side : OrderSide) (b : PriceLevelOrderBook) (met unmet : List Resting) (price : ℕ)
    → queue side b ≡ met
    → queue (facing side) b ≡ unmet
    → b.last_traded_price ≡ price
    → view b ≡ record { queues = two_queues side met unmet; last_price = price }
view-eq side b met unmet price m u p =
    λ t. record { queues = fun_ext (both side m u) t; last_price = p t }
  where
    both :
        (s : OrderSide)
        → queue s b ≡ met
        → queue (facing s) b ≡ unmet
        → (x : OrderSide) → queue x b ≡ two_queues s met unmet x
    both sell m u sell = m
    both sell m u buy = u
    both buy m u buy = m
    both buy m u sell = u
