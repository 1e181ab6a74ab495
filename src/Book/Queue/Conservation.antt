-- ===== src/Book/Queue/Conservation.antt =====
-- No quantity is lost or made by matching.
use quanta_trader.Common.{
  ℕ, ◌+◌, ◌-◌, ◌≤◌, ◌≡◌, arith, ◌&&◌, not, ◌==◌, ltb, List, [], ◌∷◌, Bool-cases, inl, inr, Returns,
  Returns-mono,
}
use quanta_trader.Order.{Order, OrderSide}
use quanta_trader.Book.State.{PriceLevelOrderBook}
use quanta_trader.Book.Match.{match_loop, crosses}
use quanta_trader.Book.Stops.{activate_stop_orders}
use quanta_trader.Book.Progress.{activity, IsWellFormed, HasRoom}
use quanta_trader.Book.Queue.{Resting, fill, queue}
use quanta_trader.Book.Queue.Quiet.{HasNoStops}
use quanta_trader.Book.Queue.Refinement.{match_loop_refines}

abbrev pub total_open : List Resting → ℕ
total_open [] = 0
total_open (r ∷ rs) = r.open_quantity + total_open rs

fill_conserves :
    (side : OrderSide) (limit q last : ℕ) (rs : List Resting)
    → (fill side limit q last rs).open_quantity + total_open rs
      ≡ q + total_open (fill side limit q last rs).rest
unfolding fill
fill_conserves side limit q last [] = omega arith
fill_conserves side limit q last (r ∷ rs) =
    let ih = fill_conserves side limit (q - r.open_quantity) r.price rs in
    elim (Bool-cases (crosses side limit r.price && not (q == 0))) [
      | inr stops ↦ rw stops (omega arith)
      | inl goes ↦ elim (Bool-cases (ltb q r.open_quantity)) [
        | inl less ↦ rw (goes, less) (ground arith)
        | inr not_less ↦ rw (goes, not_less) (ground arith)
      ]
    ]

-- What an order loses of its open quantity in the loop of `match`, the queue of the other side loses
-- too, and nothing else changes hands: on a well-formed book without stop orders, with enough fuel.
pub match_loop_conserves :
    (fuel : ℕ) (o : Order) (b : PriceLevelOrderBook)
    → IsWellFormed b
    → HasNoStops b
    → HasRoom o.open_quantity b
    → activity b + 4 ≤ fuel
    → Returns (match_loop (activate_stop_orders fuel) fuel o b) (λ (o', b').
      o'.open_quantity + total_open (queue o.side b)
      ≡ o.open_quantity + total_open (queue o.side b'))
match_loop_conserves fuel o b w calm room enough =
    Returns-mono _ (match_loop (activate_stop_orders fuel) fuel o b)
      (match_loop_refines fuel o b w calm room enough)
      λ t f.
        let c =
          fill_conserves o.side o.price o.open_quantity b.last_traded_price (queue o.side b) in
        rw (f.same_open, f.same_queue) c
