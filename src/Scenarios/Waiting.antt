-- ===== src/Scenarios/Waiting.antt =====
-- A stop order to sell that waits, and a trailing one that moves, at concrete inputs.
use quanta_trader.Common.{arith, ◌<◌, ◌≡◌, refl, [], some, Returns}
use quanta_trader.Order
use quanta_trader.Order.{Order, gtc}
use quanta_trader.Book.State
use quanta_trader.Book.State.{PriceLevelOrderBook, OrderWithLevelIterator}
use quanta_trader.Book.Operations
use quanta_trader.Book.Operations.Total.{HasFuel, add_order_total}
use quanta_trader.Book.Operations.Reduce.{IsReduced, execute_order_at_total}
use quanta_trader.Book.Operations.Client
use quanta_trader.Book.Operations.Client.{perform, Reach}
use quanta_trader.Book.Progress.{HasRoom, IsProgress, IsWellFormed, IsProgress-HasRoom}
use quanta_trader.Book.Operations.Accepted.{IsAccepted}
use quanta_trader.Common.Maps.{find}
use quanta_trader.Book.Stops.{update_trailing_stop_orders}
use quanta_trader.Book.Stops.Trailing.{update_trailing_stop_orders-moves}
use quanta_trader.Book.Waiting.Calls.{sell_stops_wait}
use quanta_trader.Scenarios.{
  runs, returned, returned-Returns, first_order, fresh_facts, one_order, one_order-IsAccepted,
  one_order-small, one_order-room, resting,
}

-- One of the four is sold at 100.
abbrev traded : PriceLevelOrderBook
traded = returned (Operations.execute_order_at 20 1 1 100 one_order)

one_order-HasFuel : HasFuel 20 one_order
one_order-HasFuel = omega (arith, one_order-small)

traded-IsReduced : IsReduced one_order 1 (Order.execute 100 1 first_order) traded
unfolding runs
traded-IsReduced =
    returned-Returns (IsReduced one_order 1 (Order.execute 100 1 first_order))
      (Operations.execute_order_at 20 1 1 100 one_order)
      (execute_order_at_total 20 one_order one_order-IsAccepted.well_formed one_order-HasFuel 1
        resting refl 1 100)

traded-room : HasRoom 10 traded
traded-room = IsProgress-HasRoom 10 traded-IsReduced.progress one_order-room

abbrev stop_order : Order
stop_order = Order.stop_sell_order 2 1 90 10 gtc 0

abbrev waiting : PriceLevelOrderBook
waiting = returned (Operations.add_order 20 stop_order traded)

waiting-Reach : Reach 1 [] waiting
unfolding runs perform
waiting-Reach =
    Reach.later
      (Reach.later
        (Reach.later Reach.start (
          Client.Step.request 20 (Client.Request.add_order first_order)
            (omega (arith, fresh_facts.1)) (refl, refl, fresh_facts.2 4 (omega arith)) refl))
        (Client.Step.request 20 (Client.Request.execute_order_at 1 1 100) one_order-HasFuel
          (resting, refl) refl))
      (Client.Step.request 20 (Client.Request.add_order stop_order)
        (omega (arith, one_order-small, traded-IsReduced.progress.calmer)) (refl, refl, traded-room)
        refl)

abbrev stored : OrderWithLevelIterator
stored = record {
  order = stop_order;
  level_it = record { levels = State.stop_sell_levels; price = 90 };
}

sell_stops_wait_example : stored.order.stop_price < waiting.last_traded_price
unfolding runs
sell_stops_wait_example = sell_stops_wait waiting-Reach 2 stored refl refl refl

abbrev trailing_order : Order
trailing_order = Order.trailing_stop_sell_order 2 1 10 10 gtc 0

-- A trailing stop order rests at 90.
abbrev trailed : PriceLevelOrderBook
trailed = returned (Operations.add_order 20 trailing_order traded)

trailed-IsAccepted : IsAccepted 2 10 traded trailed
unfolding runs
trailed-IsAccepted =
    returned-Returns (IsAccepted 2 10 traded) (Operations.add_order 20 trailing_order traded) (
      add_order_total 20 trailing_order traded traded-IsReduced.well_formed
        (omega (arith, one_order-small, traded-IsReduced.progress.calmer)) refl refl traded-room)

-- The price has risen to 120 since.
abbrev risen : PriceLevelOrderBook
risen = record trailed { last_traded_price = 120 }

risen-IsWellFormed : IsWellFormed risen
risen-IsWellFormed =
    let w = trailed-IsAccepted.well_formed in
    record { sound = w.sound; ascending = w.ascending; uncrossed = w.uncrossed; live = w.live }

abbrev at_ninety : OrderWithLevelIterator
at_ninety = record {
  order = Order.set_stop_price 90 trailing_order;
  level_it = record { levels = State.trailing_stop_sell_levels; price = 90 };
}

abbrev at_hundred_ten : OrderWithLevelIterator
at_hundred_ten = record {
  order = Order.set_stop_price 110 trailing_order;
  level_it = record { levels = State.trailing_stop_sell_levels; price = 110 };
}

update_trailing_stop_orders-moves_example :
    Returns
      (update_trailing_stop_orders Order.sell risen)
      (λ b'. (IsWellFormed b' × IsProgress risen b') × (find 2 b'.orders ≡ some at_hundred_ten))
unfolding runs
update_trailing_stop_orders-moves_example =
    update_trailing_stop_orders-moves Order.sell risen 2 at_ninety risen-IsWellFormed refl
