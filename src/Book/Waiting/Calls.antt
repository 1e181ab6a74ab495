-- ===== src/Book/Waiting/Calls.antt =====
-- No call leaves a stop order to sell behind that the last trade sets off.
use quanta_trader.Common.{
  ℕ, ◌<◌, ◌≡◌, refl, subst, arith, inl, inr, Option-cases, some, last, false, leb, ◌==◌, done,
  if◌then◌else◌, Whenever, Whenever-last,
}
use quanta_trader.Common.Maps.{Map, find}
use quanta_trader.Common.Maps.Ascending.{IsAscending}
use quanta_trader.Common.Maps.Extremes.{le-last, last-none}
use quanta_trader.Order.{
  Order, OrderType, sell, market, limit, stop, stop_limit, trailing_stop, trailing_stop_limit,
  set_id, set_price,
}
use quanta_trader.Level
use quanta_trader.Level.{Level}
use quanta_trader.Event.{EventHandler, order_added}
use quanta_trader.Book.State.{
  PriceLevelOrderBook, OrderWithLevelIterator, stop_sell_levels, trailing_stop_sell_levels,
  new_book, find_order, level_at, put_level, notify,
}
use quanta_trader.Book.Prices.{triggered}
use quanta_trader.Book.Remove
use quanta_trader.Book.Remove.{levels_for}
use quanta_trader.Book.Sound.{price_by}
use quanta_trader.Book.Operations
use quanta_trader.Book.Operations.Client.{Request, perform, Reach, Step, Reach-IsWellFormed}
use quanta_trader.Book.Progress.{IsWellFormed, type_weight}
use quanta_trader.Book.Waiting.{IsIdle, NoneDue, activate_stop_orders-NoneDue}

settle-NoneDue :
    (fuel i amount : ℕ) (o : Order) (b : PriceLevelOrderBook)
    → Whenever (Operations.settle fuel i amount o b) NoneDue
unfolding Operations.settle
settle-NoneDue fuel i amount o b = Whenever-last NoneDue (find_order i b) _ λ e.
    Whenever-last NoneDue (level_at e.level_it b) _ λ level.
      Whenever-last NoneDue (Level.reduce_volume amount level) _ λ level'.
        Whenever-last NoneDue
          (if o.open_quantity == 0
            then Operations.delete_order fuel i (put_level e.level_it level' b)
            else done (put_level e.level_it level' b))
          _ (activate_stop_orders-NoneDue fuel)

execute_order_at-NoneDue :
    (fuel i q price : ℕ) (b : PriceLevelOrderBook)
    → Whenever (Operations.execute_order_at fuel i q price b) NoneDue
unfolding Operations.execute_order_at
execute_order_at-NoneDue fuel i q price b =
    Whenever-last NoneDue (find_order i b) _ λ e. settle-NoneDue fuel i _ _ _

-- Every request ends with a call of `activateStopOrders`.
perform-NoneDue :
    (fuel : ℕ) (r : Request) (b : PriceLevelOrderBook) → Whenever (perform fuel r b) NoneDue
unfolding perform Operations.add_order Operations.delete_order Operations.modify_order
    Operations.cancel_order Operations.execute_order_at Operations.execute_order Remove.delete_order
perform-NoneDue fuel (Request.add_order o) b =
    Whenever-last NoneDue (Operations.add_by_type fuel o.type o (notify (order_added o) b)) _
      (activate_stop_orders-NoneDue fuel)
perform-NoneDue fuel (Request.delete_order i) b =
    Whenever-last NoneDue (Remove.remove_order i b) _ (activate_stop_orders-NoneDue fuel)
perform-NoneDue fuel (Request.modify_order i j price) b =
    Whenever-last NoneDue (find_order i b) _ λ e.
      Whenever-last NoneDue (Operations.delete_order fuel i b) _ λ b₁.
        Whenever-last NoneDue (Operations.add_order fuel (set_price price (set_id j e.order)) b₁) _
          (activate_stop_orders-NoneDue fuel)
perform-NoneDue fuel (Request.cancel_order i q) b =
    Whenever-last NoneDue (find_order i b) _ λ e. settle-NoneDue fuel i _ _ _
perform-NoneDue fuel (Request.execute_order_at i q price) b =
    execute_order_at-NoneDue fuel i q price b
perform-NoneDue fuel (Request.execute_order i q) b =
    Whenever-last NoneDue (find_order i b) _ λ e. execute_order_at-NoneDue fuel i q e.order.price b

new_book-NoneDue : (s : ℕ) (handler : EventHandler) → NoneDue (new_book s handler)
unfolding new_book
new_book-NoneDue s handler = record {
  stops = record { idle = λ x next. cc };
  trailing_stops = record { idle = λ x next. cc };
}

Step-NoneDue : {b b' : PriceLevelOrderBook} → Step b b' → NoneDue b'
Step-NoneDue {b} (Step.request fuel r enough allowed e) = rw e at (perform-NoneDue fuel r b)

Reach-NoneDue :
    {s : ℕ} {handler : EventHandler} {b : PriceLevelOrderBook} → Reach s handler b → NoneDue b
Reach-NoneDue {s} {handler} Reach.start = new_book-NoneDue s handler
Reach-NoneDue (Reach.later r step) = Step-NoneDue step

-- In a map without a level that is due, all prices are below the last price.
IsIdle-below :
    (price p : ℕ) (l : Level) (m : Map Level)
    → IsAscending m
    → IsIdle sell price m
    → find p m ≡ some l
    → p < price
unfolding triggered
IsIdle-below price p l m a idle found = elim (Option-cases (last m)) [
  | inl empty ↦ cc (last-none m p empty)
  | inr (x, top) ↦
      let below = idle.idle x top in omega (arith, le-last m x p l a top found, lt-of x.0 below)
]
  where
    lt-of : (q : ℕ) → leb price q ≡ false → q < price
    lt-of q h = ground arith

waits_below :
    (b : PriceLevelOrderBook)
    → IsWellFormed b
    → NoneDue b
    → (t : OrderType) (o : Order) (p : ℕ) (l : Level)
    → find p (b.levels (levels_for t sell)) ≡ some l
    → price_by t o ≡ p
    → type_weight t ≡ 2
    → o.stop_price < b.last_traded_price
waits_below b w due market o p l found same stopping = absurd (omega (arith, stopping))
waits_below b w due limit o p l found same stopping = absurd (omega (arith, stopping))
waits_below b w due stop o p l found same stopping = omega (
  arith,
  same,
  IsIdle-below b.last_traded_price p l (b.levels stop_sell_levels) (w.ascending stop_sell_levels)
      due.stops found,
)
waits_below b w due stop_limit o p l found same stopping = omega (
  arith,
  same,
  IsIdle-below b.last_traded_price p l (b.levels stop_sell_levels) (w.ascending stop_sell_levels)
      due.stops found,
)
waits_below b w due trailing_stop o p l found same stopping = omega (
  arith,
  same,
  IsIdle-below b.last_traded_price p l (b.levels trailing_stop_sell_levels)
      (w.ascending trailing_stop_sell_levels) due.trailing_stops found,
)
waits_below b w due trailing_stop_limit o p l found same stopping = omega (
  arith,
  same,
  IsIdle-below b.last_traded_price p l (b.levels trailing_stop_sell_levels)
      (w.ascending trailing_stop_sell_levels) due.trailing_stops found,
)

-- In every book that a client can have made of a new one, each stop order to sell, of any of the four
-- types, waits below the price of the last trade: none that the last trade sets off is left behind.
pub sell_stops_wait :
    {s : ℕ} {handler : EventHandler} {b : PriceLevelOrderBook}
    → Reach s handler b
    → (i : ℕ) (e : OrderWithLevelIterator) → find i b.orders ≡ some e
    → e.order.side ≡ sell
    → type_weight e.order.type ≡ 2
    → e.order.stop_price < b.last_traded_price
unfolding Level.linked
sell_stops_wait {b} reach i e stored selling stopping =
    let w = Reach-IsWellFormed reach in
    let due = Reach-NoneDue reach in
    let filed = w.sound.filed i e stored in
    let (level, at_level, link) = w.sound.placed i e stored refl in
    waits_below b (Reach-IsWellFormed reach) due e.order.type e.order e.level_it.price level
      (subst (λ x. find e.level_it.price (b.levels (levels_for e.order.type x)) ≡ some level)
        selling (rw filed.right_levels at_level))
      filed.right_price stopping
