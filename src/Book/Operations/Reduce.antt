-- ===== src/Book/Operations/Reduce.antt =====
-- `cancelOrder` and both versions of `executeOrder` return on a well-formed book.
use quanta_trader.Common.{
  ℕ, ◌+◌, ◌<◌, ◌≤◌, u64_mod, ◌≡◌, refl, arith, ◌==◌, if◌then◌else◌, none, some, min, sub64, done,
  Returns, Returns->>=, Returns-mono,
}
use quanta_trader.Common.Maps.{find}
use quanta_trader.Order.{Order, set_quantity, execute}
use quanta_trader.Level
use quanta_trader.Level.{Level}
use quanta_trader.Event.{order_updated, order_executed}
use quanta_trader.Book.State.{PriceLevelOrderBook, OrderWithLevelIterator, put_order, notify}
use quanta_trader.Book.Remove
use quanta_trader.Book.Stops.{activate_stop_orders}
use quanta_trader.Book.Operations.{
  settle, delete_order, cancel_order, execute_order, execute_order_at,
}
use quanta_trader.Book.Operations.Total.{HasFuel}
use quanta_trader.Book.Sound.{order_write_self}
use quanta_trader.Book.Progress.{activity, IsWellFormed, IsProgress, IsProgress-trans}
use quanta_trader.Book.Progress.Writes.{put-write}
use quanta_trader.Book.Progress.Reduction
use quanta_trader.Book.Progress.Reduction.{IsSameOrder, IsReduction}
use quanta_trader.Book.Progress.Matching.{IsSettled, settled-Returns, stored_word}
use quanta_trader.Book.Progress.Activation.{activate_stop_orders-Settles}

-- `cancelOrder` down to at most what is open takes the difference from the order.
pub cancel-IsReduction :
    (o : Order) (b : PriceLevelOrderBook) (q : ℕ)
    → q ≤ o.open_quantity
    → o.open_quantity < u64_mod
    → IsReduction o b
        (set_quantity q o)
        (sub64 o.open_quantity q)
        (notify (order_updated (set_quantity q o)) b)
unfolding set_quantity
cancel-IsReduction o b q le word = record {
  resting = record {
    same_id = refl;
    same_type = refl;
    same_side = refl;
    same_time_in_force = refl;
    same_symbol = refl;
    same_price = refl;
    same_stop_price = refl;
    no_more = le;
  };
  same_orders = refl;
  same_levels = refl;
  same_symbol = refl;
  taken = omega arith;
}

-- `executeOrder` takes as much of the order as there is.
pub execute-IsReduction :
    (o : Order) (b : PriceLevelOrderBook) (q price : ℕ)
    → o.open_quantity < u64_mod
    → let r' = execute price (min q o.open_quantity) o in
      IsReduction o b r'
        (min q o.open_quantity)
        (notify (order_executed r') (record b { last_traded_price = price }))
unfolding execute
execute-IsReduction o b q price word = record {
  resting = record {
    same_id = refl;
    same_type = refl;
    same_side = refl;
    same_time_in_force = refl;
    same_symbol = refl;
    same_price = refl;
    same_stop_price = refl;
    no_more = omega arith;
  };
  same_orders = refl;
  same_levels = refl;
  same_symbol = refl;
  taken = omega arith;
}

-- What a reduction of the order `i` to `r'` leaves: a well-formed book, in which nothing is new and
-- nothing has more left open, without the order if `r'` has nothing left open.
pub record IsReduced (b : PriceLevelOrderBook) (i : ℕ) (r' : Order) (b' : PriceLevelOrderBook)
    : Type 0 where
  pub well_formed : IsWellFormed b'
  pub progress : IsProgress b b'
  pub gone : r'.open_quantity ≡ 0 → find i b'.orders ≡ none

module _ (fuel : ℕ) (b : PriceLevelOrderBook) (w : IsWellFormed b) (enough : HasFuel fuel b) (i : ℕ)
    (e : OrderWithLevelIterator) (stored : find i b.orders ≡ some e) where
  activated :
      (r' : Order) (b₂ : PriceLevelOrderBook)
      → IsSettled b i r' b₂
      → Returns (activate_stop_orders fuel b₂) (IsReduced b i r')
  activated r' b₂ s =
      Returns-mono (IsReduced b i r') (activate_stop_orders fuel b₂)
        ((activate_stop_orders-Settles fuel (activity b + 3) (omega arith)).settles b₂ s.well_formed
          (omega (arith, s.progress.calmer)))
        λ b₃ (w₃, p₃). record {
          well_formed = w₃;
          progress = IsProgress-trans s.progress p₃;
          gone = λ h. p₃.none_new i (s.gone (rw h));
        }

  module _ (r' : Order) (amount : ℕ) (b' : PriceLevelOrderBook)
      (reduction : IsReduction e.order b r' amount b') where
    settle-Returns :
        Returns
          (settle fuel i amount r' (put_order i (record e { order = r' }) b'))
          (IsReduced b i r')
    unfolding settle delete_order Level.reduce_volume Level.linked
    settle-Returns =
        let (level, at_level, link) = w.sound.placed i e stored refl in
        let entry = record e { order = r' } in
        let found : find i (put_order i entry b').orders ≡ some entry =
          order_write_self (put-write i entry b'.orders) in
        let at' : find e.level_it.price (b'.levels e.level_it.levels) ≡ some level =
          rw reduction.same_levels at_level in
        let fits = Reduction.settled_volume b w i e level stored at_level r' amount b' reduction in
        rw found (
          rw at' (
            rw fits (
              Returns->>= (IsReduced b i r')
                (if r'.open_quantity == 0
                  then Remove.delete_order (activate_stop_orders fuel) i
                      (Reduction.settled b w i e level stored at_level r' amount b' reduction)
                  else done
                      (Reduction.settled b w i e level stored at_level r' amount b' reduction))
                (activate_stop_orders fuel)
                (settled-Returns (activate_stop_orders-Settles fuel (activity b) (omega arith)) b w
                  (omega arith) i e level stored at_level r' amount b' reduction i refl)
                (λ b₂ s. activated r' b₂ s))))

  -- With enough fuel, cancelling an order of a well-formed book down to at most what is open returns
  -- a well-formed book with no new order and no order with more left open; at 0 the order is gone.
  pub cancel_order_total :
      (q : ℕ)
      → q ≤ e.order.open_quantity
      → Returns (cancel_order fuel i q b) (IsReduced b i (set_quantity q e.order))
  unfolding cancel_order set_quantity
  cancel_order_total q le =
      let word = stored_word b i e w stored in
      let r' = set_quantity q e.order in
      rw stored (
        settle-Returns r' (sub64 e.order.open_quantity q) (notify (order_updated r') b)
          (cancel-IsReduction e.order b q le word))

  -- With enough fuel, executing an order of a well-formed book from outside, for any quantity and at
  -- any price, returns a well-formed book with no new order and no order with more left open; an
  -- order that is executed in full is gone.
  pub execute_order_at_total :
      (q price : ℕ)
      → Returns
          (execute_order_at fuel i q price b)
          (IsReduced b i (execute price (min q e.order.open_quantity) e.order))
  unfolding execute_order_at execute
  execute_order_at_total q price =
      let word = stored_word b i e w stored in
      let r' = execute price (min q e.order.open_quantity) e.order in
      rw stored (
        settle-Returns r' (min q e.order.open_quantity)
          (notify (order_executed r') (record b { last_traded_price = price }))
          (execute-IsReduction e.order b q price word))

  -- The version without a price executes at the order's own.
  pub execute_order-Returns :
      (q : ℕ)
      → Returns
          (execute_order fuel i q b)
          (IsReduced b i (execute e.order.price (min q e.order.open_quantity) e.order))
  unfolding execute_order
  execute_order-Returns q = rw stored (execute_order_at_total q e.order.price)
