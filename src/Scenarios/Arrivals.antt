-- ===== src/Scenarios/Arrivals.antt =====
-- The theorems on orders that arrive and leave at concrete inputs.
use quanta_trader.Common.{
  ◌&&◌, deref, is_empty, u64_max, arith, ◌≡◌, refl, inl, inr, List, [], ◌∷◌, done, ◌>>=◌, Returns,
}
use quanta_trader.Order
use quanta_trader.Order.{Order, gtc, ioc, aon}
use quanta_trader.Event.{order_deleted}
use quanta_trader.Book.State
use quanta_trader.Book.Insert.{insert_at, insert_limit_order}
use quanta_trader.Book.Remove
use quanta_trader.Book.Operations.{
  add_order, delete_order, modify_order, cancel_order, execute_order_at, execute_order,
}
use quanta_trader.Book.Operations.Reduction.{
  cancel_order_refines, execute_order_at_refines, execute_order_refines,
}
use quanta_trader.Book.Operations.Departures.{delete_order_refines}
use quanta_trader.Book.Operations.Modification.{modify_order_refines}
use quanta_trader.Book.Operations.Session.{add_orders}
use quanta_trader.Book.Operations.Arrivals.{arrive_all, add_order_refines, add_orders_refines}
use quanta_trader.Book.Progress.Undo.{insert_at-delete_order}
use quanta_trader.Book.Queue.{fill}
use quanta_trader.Book.Queue.Arrival.{enqueue}
use quanta_trader.Book.Queue.Joining.{IsJoined, insert_limit_order-enqueues}
use quanta_trader.Book.Queue.Quiet.{HasNoStops}
use quanta_trader.Book.Queue.View.{View, view, arrive, leave, reduce}
use quanta_trader.Book.Queue.Seen.{best_price, is_some, seen, shown}
use quanta_trader.Book.Operations.Completeness.{handled}
use quanta_trader.Book.Operations.Queries.{queries_refine}
use quanta_trader.Scenarios.{
  runs, first_order, second_order, one_order, one_order-IsAccepted, one_order-small, one_order-room,
  resting,
}
use quanta_trader.Scenarios.Queue.{one_order-HasNoStops}

-- A second seller at the price of the first, and a buyer by the market.
abbrev seller : Order
seller = Order.limit_sell_order 3 1 100 10 gtc 0

abbrev market_buyer : Order
market_buyer = Order.market_buy_order 4 1 6 ioc 0

abbrev nothing : View
nothing = record { queues = λ side. []; last_price = 0 }

abbrev arrivals : List Order
arrivals = first_order ∷ seller ∷ market_buyer ∷ []

-- The first seller is filled before the second.
sold_in_order :
    (arrive_all arrivals nothing).queues Order.buy
    ≡ record { id = 3; price = 100; open_quantity = 8 } ∷ []
unfolding runs arrive_all arrive fill enqueue
sold_in_order = refl

add_orders_refines_example :
    Returns
      (add_orders 20 arrivals (State.new_book 1 []))
      (λ b'. view b' ≡ arrive_all arrivals nothing)
unfolding runs
add_orders_refines_example =
    add_orders_refines 1 20 [] arrivals
      (refl, (refl, (refl, tt)), (refl, (refl, tt), (refl, tt, tt)))
      (inr refl, (inr refl, (inl refl, tt))) (omega arith) (omega arith)

add_order_refines_example :
    Returns
      (add_order 20 second_order one_order)
      (λ b'. HasNoStops b' × (view b' ≡ arrive second_order (view one_order)))
unfolding runs
add_order_refines_example =
    add_order_refines 20 second_order one_order one_order-IsAccepted.well_formed
      one_order-HasNoStops (omega (arith, one_order-small)) refl refl one_order-room (inr refl)

insert_limit_order-enqueues_example :
    Returns (insert_limit_order seller one_order) (IsJoined seller one_order)
unfolding runs
insert_limit_order-enqueues_example =
    insert_limit_order-enqueues seller one_order one_order-IsAccepted.well_formed refl
      one_order-room refl

insert_at-delete_order_example :
    (insert_at State.sell_levels 100 seller one_order >>= Remove.delete_order done 3)
    ≡ done (State.notify (order_deleted seller) one_order)
unfolding runs
insert_at-delete_order_example =
    insert_at-delete_order State.sell_levels 100 seller one_order one_order-IsAccepted.well_formed
      refl one_order-room
      (record { same_id = refl; same_symbol = refl; right_levels = refl; right_price = refl }) done

delete_order_refines_example :
    Returns
      (delete_order 20 1 one_order)
      (λ b'. HasNoStops b' × (view b' ≡ leave 1 (view one_order)))
unfolding runs
delete_order_refines_example =
    delete_order_refines 20 1 resting one_order one_order-IsAccepted.well_formed
      one_order-HasNoStops (omega (arith, one_order-small)) refl

modify_order_refines_example : Returns (modify_order 20 1 7 105 one_order) (λ b'.
    HasNoStops b'
    × (view b' ≡ arrive (Order.limit_sell_order 7 1 105 4 gtc 0) (leave 1 (view one_order))))
unfolding runs
modify_order_refines_example =
    modify_order_refines 20 1 7 105 one_order resting one_order-IsAccepted.well_formed
      one_order-HasNoStops (omega (arith, one_order-small)) refl (inr refl)

cancel_order_refines_example :
    Returns
      (cancel_order 20 1 3 one_order)
      (λ b'. HasNoStops b' × (view b' ≡ reduce 1 3 (view one_order)))
unfolding runs
cancel_order_refines_example =
    cancel_order_refines 20 1 3 resting one_order one_order-IsAccepted.well_formed
      one_order-HasNoStops (omega (arith, one_order-small)) refl (omega arith)

execute_order_at_refines_example :
    Returns
      (execute_order_at 20 1 9 120 one_order)
      (λ b'. HasNoStops b' × (view b' ≡ record (reduce 1 0 (view one_order)) { last_price = 120 }))
unfolding runs
execute_order_at_refines_example =
    execute_order_at_refines 20 1 9 120 resting one_order one_order-IsAccepted.well_formed
      one_order-HasNoStops (omega (arith, one_order-small)) refl

execute_order_refines_example :
    Returns
      (execute_order 20 1 3 one_order)
      (λ b'. HasNoStops b' × (view b' ≡ record (reduce 1 1 (view one_order)) { last_price = 100 }))
unfolding runs
execute_order_refines_example =
    execute_order_refines 20 1 3 resting one_order one_order-IsAccepted.well_formed
      one_order-HasNoStops (omega (arith, one_order-small)) refl

queries_refine_example :
    (State.get_best_buy one_order ≡ best_price 0 ((view one_order).queues Order.sell))
    × (State.get_best_sell one_order ≡ best_price u64_max ((view one_order).queues Order.buy))
    × (State.has_order 1 one_order ≡ is_some (seen 1 (view one_order)))
    × ((do o ← State.get_order 1 one_order; done (shown o)) ≡ deref (seen 1 (view one_order)))
    × (State.empty one_order ≡ (
        is_empty ((view one_order).queues Order.sell)
        && is_empty ((view one_order).queues Order.buy)))
queries_refine_example =
    queries_refine one_order 1 one_order-IsAccepted.well_formed one_order-HasNoStops

-- An all-or-none order for ten where four are to be had takes the four, and six of it rest.
abbrev all_or_none : Order
all_or_none = Order.limit_buy_order 2 1 100 10 aon 0

six_rest :
    (arrive (handled all_or_none) (view one_order)).queues Order.sell
    ≡ record { id = 2; price = 100; open_quantity = 6 } ∷ []
unfolding runs arrive fill enqueue
six_rest = refl
