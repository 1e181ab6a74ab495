-- ===== src/Scenarios/Queue.antt =====
-- The theorems on the queue of a book at concrete inputs.
use quanta_trader.Common.{arith, ◌+◌, ◌≤◌, ◌≡◌, refl, [], Returns}
use quanta_trader.Order
use quanta_trader.Book.State
use quanta_trader.Book.Match.{match_loop}
use quanta_trader.Book.Stops.{activate_stop_orders}
use quanta_trader.Book.Queue.{fill, queue}
use quanta_trader.Book.Queue.Quiet.{HasNoStops}
use quanta_trader.Book.Queue.Refinement.{IsFilled, fill_by, match_loop_refines}
use quanta_trader.Book.Queue.Conservation.{total_open, match_loop_conserves}
use quanta_trader.Scenarios.{
  runs, second_order, one_order, one_order-IsAccepted, one_order-small, one_order-room,
}

-- A buyer of ten at the price of the only seller, who has four.
fill_four : (fill_by second_order one_order).open_quantity ≡ 6
unfolding runs fill
fill_four = refl

pub one_order-HasNoStops : HasNoStops one_order
unfolding runs
one_order-HasNoStops = record { no_stops = none }
  where
    none : (k : State.LevelsName) → 2 ≤ State.levels_value k → one_order.levels k ≡ []
    none State.sell_levels h = absurd (omega arith)
    none State.buy_levels h = absurd (omega arith)
    none State.stop_sell_levels h = refl
    none State.stop_buy_levels h = refl
    none State.trailing_stop_sell_levels h = refl
    none State.trailing_stop_buy_levels h = refl

match_loop_refines_example :
    Returns
      (match_loop (activate_stop_orders 20) 20 second_order one_order)
      (IsFilled Order.buy one_order (fill_by second_order one_order))
unfolding Order.limit_buy_order Order.new_order
match_loop_refines_example =
    match_loop_refines 20 second_order one_order one_order-IsAccepted.well_formed
      one_order-HasNoStops one_order-room (omega (arith, one_order-small))

match_loop_conserves_example :
    Returns (match_loop (activate_stop_orders 20) 20 second_order one_order) (λ (o', b').
      o'.open_quantity + total_open (queue Order.buy one_order)
      ≡ 10 + total_open (queue Order.buy b'))
unfolding Order.limit_buy_order Order.new_order
match_loop_conserves_example =
    match_loop_conserves 20 second_order one_order one_order-IsAccepted.well_formed
      one_order-HasNoStops one_order-room (omega (arith, one_order-small))
