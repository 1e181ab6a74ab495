-- ===== src/Scenarios.antt =====
-- Runs of the book as tests, and the theorems of the development at concrete inputs.
mod Client
mod Queue
mod Arrivals
mod Parts
mod Calls
mod Runs
mod Waiting
mod SampleRun
use quanta_trader.Common.{
  arith, inr, ◌+◌, ◌<◌, ◌≤◌, true, undefined_behaviour, u32_mod, u64_max, ◌↔◌, ℕ, List, [], ◌∷◌,
  some, none, Outcome, done, fault, out_of_fuel, Returns, ◌>>=◌, ◌≡◌, refl, u64_mod,
}
use quanta_trader.Common.Maps.{Map, find, put, erase, insert_sorted, emplace}
use quanta_trader.Order
use quanta_trader.Order.{Order, gtc, fok}
use quanta_trader.Level
use quanta_trader.Book.State
use quanta_trader.Book.State.{PriceLevelOrderBook}
use quanta_trader.Book.Prices
use quanta_trader.Book.Insert
use quanta_trader.Book.Remove
use quanta_trader.Book.Match
use quanta_trader.Book.Stops
use quanta_trader.Book.Operations
use quanta_trader.Book.Operations.Accepted.{IsAccepted}
use quanta_trader.Book.Operations.Total.{
  add_order_total, delete_order_total, activate_stop_orders_total,
}
use quanta_trader.Book.Operations.Session.{add_orders, add_orders_total}
use quanta_trader.Book.Operations.Room.{IsAccepted-HasRoom}
use quanta_trader.Book.Progress.{activity, IsWellFormed, IsProgress, HasRoom, IsGood}
use quanta_trader.Book.Progress.Matching.Loop.{IsMatch, match_loop-Returns}
use quanta_trader.Book.Progress.Activation.Rounds.{activate_stop_orders-Settles}
use quanta_trader.Book.Progress.Trailing.{update_trailing_stop_orders-Returns}
use quanta_trader.Book.Match.FillOrKill.{can_match_order-crosses}
use quanta_trader.Book.Prices.Saturation.{calculate_stop_price_saturates}
use quanta_trader.Book.Stops.Trigger.{add_stop_order_untraded}
use quanta_trader.Order.Execution.{execute_conserves, execute_price_iff}
use quanta_trader.Engine
use quanta_trader.Engine.Symbols.{Request, Leaves, IsPaired, serve_all, serve_all-new_engine}
use quanta_trader.Book.Progress.Fresh.{new_book-IsWellFormed}

-- What a run of the book computes with.
runs : Unit {0}
unfolding find put erase insert_sorted emplace Order.new_order Order.market_sell_order
    Order.market_buy_order Order.limit_sell_order Order.limit_buy_order Order.stop_sell_order
    Order.stop_buy_order Order.stop_limit_sell_order Order.stop_limit_buy_order
    Order.trailing_stop_sell_order Order.trailing_stop_buy_order Order.set_quantity Order.execute
    Level.new_level Level.front Level.add_order Level.unlink Level.linked Level.delete_order
    Level.reduce_volume State.new_book State.last_traded_buy_price State.last_traded_sell_price
    Prices.market_price Prices.triggered Prices.trailing_stop_price Prices.calculate_stop_price
    Insert.insert_at Insert.insert_limit_order Insert.insert_stop_order
    Insert.insert_trailing_stop_order Remove.erase_level Remove.remove_order Remove.delete_order
    Match.settle_front Match.execute_orders Match.execute_against Match.can_match_loop
    Match.can_match_order Match.match_front Match.matching_level Match.match_loop Match.match_order
    Match.add_market_order Match.add_limit_order Stops.move_trailing Stops.move_trailing_orders
    Stops.move_trailing_levels Stops.update_trailing_stop_orders Stops.triggered_order
    Stops.add_triggered Stops.activate_stop_order Stops.activate_front Stops.activate_levels
    Stops.activate_side Stops.activate_round Stops.activate_loop Stops.activate_stop_orders
    Stops.add_stop_order Operations.add_by_type Operations.add_order Operations.delete_order
    Operations.modify_order Operations.settle Operations.cancel_order Operations.execute_order_at
    Operations.execute_order add_orders
runs = tt

abbrev open_quantities : Map State.OrderWithLevelIterator → List (ℕ × ℕ)
open_quantities [] = []
open_quantities ((i, e) ∷ m) = (i, e.order.open_quantity) ∷ open_quantities m

abbrev returned : Outcome PriceLevelOrderBook → PriceLevelOrderBook
returned (done b) = b
returned (fault e) = State.new_book 0 []
returned out_of_fuel = State.new_book 0 []

returned-Returns :
    (P : PriceLevelOrderBook → Type 0) (m : Outcome PriceLevelOrderBook)
    → Returns m P
    → P (returned m)
returned-Returns P (done b) r = r
returned-Returns P (fault e) r = absurd r
returned-Returns P out_of_fuel r = absurd r

-- Two trades and two resting orders: the quantities that are left open.
abbrev open_after : List Order → Outcome (List (ℕ × ℕ))
open_after os = do b ← add_orders 20 os (State.new_book 1 []); done (open_quantities b.orders)

partly_filled :
    open_after
      (Order.limit_buy_order 1 1 350 200 gtc 0 ∷ Order.limit_sell_order 2 1 300 300 gtc 0 ∷ [])
    ≡ done ((2, 100) ∷ [])
unfolding runs
partly_filled = refl

-- A fill-or-kill order for ten of which only four can be had is filled with these four.
fill_or_kill_partly :
    open_after (
      Order.limit_sell_order 1 1 100 4 gtc 0
      ∷ Order.limit_sell_order 2 1 101 9 gtc 0
      ∷ Order.limit_buy_order 3 1 100 10 fok 0
      ∷ [])
    ≡ done ((2, 9) ∷ [])
unfolding runs
fill_or_kill_partly = refl

abbrev last_price_after : List Order → Outcome ℕ
last_price_after os = do b ← add_orders 20 os (State.new_book 1 []); done b.last_traded_price

abbrev stop_orders : List Order
stop_orders =
    Order.limit_sell_order 1 1 100 1 gtc 0
    ∷ Order.limit_buy_order 2 1 100 1 gtc 0
    ∷ Order.stop_buy_order 3 1 105 7 gtc 0
    ∷ Order.stop_buy_order 4 1 110 7 gtc 0
    ∷ Order.limit_sell_order 5 1 105 10 gtc 0
    ∷ Order.limit_sell_order 6 1 110 10 gtc 0
    ∷ Order.limit_buy_order 7 1 105 5 gtc 0
    ∷ []

-- A stop order whose stop price is the last traded price, and that is not set off.
stop_order_left :
    last_price_after stop_orders ≡ done 110 × open_after stop_orders ≡ done ((4, 7) ∷ (6, 8) ∷ [])
unfolding runs
stop_order_left = (refl, refl)

abbrev first_order : Order
first_order = Order.limit_sell_order 1 1 100 4 gtc 0

abbrev second_order : Order
second_order = Order.limit_buy_order 2 1 100 10 gtc 0

abbrev fresh : PriceLevelOrderBook
fresh = State.new_book 1 []

-- The book with the first order at rest.
abbrev one_order : PriceLevelOrderBook
one_order = returned (Operations.add_order 20 first_order fresh)

fresh_facts : IsWellFormed fresh × (activity fresh ≡ 0) × ((q : ℕ) → q < u64_mod → HasRoom q fresh)
fresh_facts = new_book-IsWellFormed 1 []

add_order_total_example : Returns (Operations.add_order 20 first_order fresh) (IsAccepted 1 4 fresh)
unfolding runs
add_order_total_example =
    add_order_total 20 first_order fresh fresh_facts.0 (omega (arith, fresh_facts.1)) refl refl
      (fresh_facts.2 4 (omega arith))

one_order-IsAccepted : IsAccepted 1 4 fresh one_order
one_order-IsAccepted =
    returned-Returns (IsAccepted 1 4 fresh) (Operations.add_order 20 first_order fresh)
      add_order_total_example

one_order-room : HasRoom 10 one_order
one_order-room = IsAccepted-HasRoom one_order-IsAccepted 10 (fresh_facts.2 14 (omega arith))

abbrev resting : State.OrderWithLevelIterator
resting = record {
  order = first_order;
  level_it = record { levels = State.sell_levels; price = 100 };
}

one_order-small : activity one_order ≤ 2
one_order-small = omega (arith, one_order-IsAccepted.two_more, fresh_facts.1)

delete_order_total_example :
    Returns
      (Operations.delete_order 20 1 one_order)
      (λ b'. IsWellFormed b' × (find 1 b'.orders ≡ none) × IsProgress one_order b')
unfolding runs
delete_order_total_example =
    delete_order_total 20 one_order one_order-IsAccepted.well_formed
      (omega (arith, one_order-small)) 1 resting refl

activate_stop_orders_total_example : IsGood one_order (Stops.activate_stop_orders 20 one_order)
activate_stop_orders_total_example =
    activate_stop_orders_total 20 one_order one_order-IsAccepted.well_formed
      (omega (arith, one_order-small))

match_loop-Returns_example :
    Returns
      (Match.match_loop (Stops.activate_stop_orders 20) 20 second_order one_order)
      (λ t. IsMatch second_order one_order t.0 t.1 × (Match.matching_level t.0 t.1 ≡ none))
unfolding Order.limit_buy_order Order.new_order
match_loop-Returns_example =
    match_loop-Returns (activate_stop_orders-Settles 20 18 (omega arith)) 20 second_order one_order
      one_order-IsAccepted.well_formed (omega (arith, one_order-small)) one_order-room
      (inr (omega (arith, one_order-small)))

-- A fill-or-kill order for ten passes the check at a level that holds four.
killer : Order
unfolding runs
killer = Order.limit_buy_order 3 1 100 10 fok 0

can_match_order-crosses_example : Match.can_match_order killer one_order ≡ done true
unfolding runs killer
can_match_order-crosses_example =
    can_match_order-crosses killer one_order resting.level_it
      (record {
        price = 100;
        orders = 1 ∷ [];
        side = Level.LevelSide.sell;
        symbol_id = 1;
        volume = 4;
      })
      refl refl (omega arith) (omega arith)

add_orders_total_example : Returns (add_orders 20 stop_orders fresh) IsWellFormed
unfolding runs
add_orders_total_example =
    add_orders_total 1 20 [] stop_orders
      (
        refl,
        (refl, (refl, (refl, (refl, (refl, (refl, tt)))))),
        (
          refl,
          (refl, (refl, (refl, (refl, (refl, tt))))),
          (
            refl,
            (refl, (refl, (refl, (refl, tt)))),
            (
              refl,
              (refl, (refl, (refl, tt))),
              (refl, (refl, (refl, tt)), (refl, (refl, tt), (refl, tt, tt))),
            ),
          ),
        ),
      )
      (omega arith) (omega arith)
