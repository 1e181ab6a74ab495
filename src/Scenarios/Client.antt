-- ===== src/Scenarios/Client.antt =====
-- The theorems on the operations of a client at concrete inputs.
use quanta_trader.Common.{arith, inr, ◌<◌, ◌≤◌, ◌≡◌, refl, [], fault, assertion_failed, Returns}
use quanta_trader.Order
use quanta_trader.Order.{Order, gtc}
use quanta_trader.Book.State
use quanta_trader.Book.State.{PriceLevelOrderBook}
use quanta_trader.Book.State.Best.{IsBest, IsBest-prices}
use quanta_trader.Book.Operations
use quanta_trader.Book.Operations.Total.{HasFuel}
use quanta_trader.Book.Operations.Reduce.{IsReduced, cancel_order_total, execute_order_at_total}
use quanta_trader.Book.Operations.Replace.{IsReplaced, modify_order_total}
use quanta_trader.Book.Operations.Overflow.{cancel_order_overflows}
use quanta_trader.Book.Operations.Client
use quanta_trader.Book.Operations.Client.{perform, perform_total, Reach, never_crossed}
use quanta_trader.Book.Progress.{IsWellFormed}
use quanta_trader.Scenarios.{
  runs, returned, first_order, fresh_facts, one_order, one_order-IsAccepted, one_order-small,
  one_order-room, resting,
}

one_order-HasFuel : HasFuel 20 one_order
one_order-HasFuel = omega (arith, one_order-small)

cancel_order_total_example :
    Returns
      (Operations.cancel_order 20 1 3 one_order)
      (IsReduced one_order 1 (Order.set_quantity 3 first_order))
unfolding runs
cancel_order_total_example =
    cancel_order_total 20 one_order one_order-IsAccepted.well_formed one_order-HasFuel 1 resting
      refl 3 (omega arith)

execute_order_at_total_example :
    Returns
      (Operations.execute_order_at 20 1 9 120 one_order)
      (IsReduced one_order 1 (Order.execute 120 4 first_order))
unfolding runs
execute_order_at_total_example =
    execute_order_at_total 20 one_order one_order-IsAccepted.well_formed one_order-HasFuel 1 resting
      refl 9 120

modify_order_total_example :
    Returns (Operations.modify_order 20 1 7 105 one_order) (IsReplaced one_order 1 7)
unfolding runs
modify_order_total_example =
    modify_order_total 20 1 7 105 one_order resting one_order-IsAccepted.well_formed
      one_order-HasFuel refl (inr refl)

cancel_order_overflows_example : Operations.cancel_order 20 1 14 one_order ≡ fault assertion_failed
unfolding runs
cancel_order_overflows_example =
    cancel_order_overflows 20 1 14 one_order resting one_order-IsAccepted.well_formed refl
      (omega arith) (omega arith) one_order-room

perform_total_example : Returns (perform 20 (Client.Request.delete_order 1) one_order) IsWellFormed
unfolding runs
perform_total_example =
    perform_total 20 (Client.Request.delete_order 1) one_order one_order-IsAccepted.well_formed
      one_order-HasFuel (resting, refl)

abbrev buyer : Order
buyer = Order.limit_buy_order 2 1 90 10 gtc 0

-- An order on either side.
abbrev two_sided : PriceLevelOrderBook
two_sided = returned (Operations.add_order 20 buyer one_order)

two_sided-Reach : Reach 1 [] two_sided
unfolding runs perform
two_sided-Reach =
    Reach.later
      (Reach.later Reach.start (
        Client.Step.request 20 (Client.Request.add_order first_order) (omega (arith, fresh_facts.1))
          (refl, refl, fresh_facts.2 4 (omega arith)) refl))
      (Client.Step.request 20 (Client.Request.add_order buyer) one_order-HasFuel
        (refl, refl, one_order-room) refl)

never_crossed_example : State.get_best_buy two_sided < State.get_best_sell two_sided
unfolding runs
never_crossed_example = never_crossed two_sided-Reach refl refl

IsBest-prices_example :
    IsBest (λ p q. q ≤ p) 0 (two_sided.levels State.buy_levels) (State.get_best_buy two_sided)
    × IsBest
        (λ p q. p ≤ q)
        18446744073709551615
        (two_sided.levels State.sell_levels)
        (State.get_best_sell two_sided)
unfolding runs
IsBest-prices_example = IsBest-prices two_sided (tt, tt) (tt, tt)
