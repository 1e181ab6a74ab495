-- ===== src/Book/Operations/Arrivals.antt =====
-- Market and limit orders that are sent to a book without stop orders: the book implements the two
-- queues of `View`.
use quanta_trader.Common.{
  ℕ, suc, zero, ◌+◌, ◌<◌, ◌≤◌, ◌≡◌, ◌⊎◌, refl, sym, ◌∙◌, ap, fun_ext, arith, none, List, [], ◌∷◌,
  u64_mod, Returns, Returns->>=, Returns-mono,
}
use quanta_trader.Common.Maps.{find}
use quanta_trader.Book.Queue.{queue}
use quanta_trader.Order.{
  sell, buy, OrderSide, Order, OrderType, market, limit, stop, stop_limit, trailing_stop,
  trailing_stop_limit,
}
use quanta_trader.Event.{EventHandler, order_added}
use quanta_trader.Book.State.{PriceLevelOrderBook, new_book, notify}
use quanta_trader.Book.Stops.{activate_stop_orders}
use quanta_trader.Book.Operations.{add_order, add_by_type}
use quanta_trader.Book.Operations.Accepted.{IsAccepted}
use quanta_trader.Book.Operations.Room.{IsAccepted-HasRoom}
use quanta_trader.Book.Operations.Total.{HasFuel, add_order_total, notify-IsWellFormed}
use quanta_trader.Book.Operations.Session.{
  add_orders, open_total, fuel_for, five-fuel_for, AreSuited, AreAbsent, AreAbsent-add,
  AreAbsent-new_book,
}
use quanta_trader.Book.Progress.{activity, activity-notify, IsWellFormed, HasRoom}
use quanta_trader.Book.Progress.Fresh.{new_book-IsWellFormed}
use quanta_trader.Book.Queue.Quiet.{HasNoStops, activate_stop_orders-quiet}
use quanta_trader.Book.Queue.Refinement.{both}
use quanta_trader.Book.Queue.View.{View, view, arrive}
use quanta_trader.Book.Queue.Arriving.{add_limit_order-ShowsArrival, add_market_order-ShowsArrival}

-- A market or a limit order.
abbrev pub IsPlain : Order → Type 0
IsPlain o = (o.type ≡ market) ⊎ (o.type ≡ limit)

-- The book has no stop orders, and shows what `arrive` makes of what the book before showed.
abbrev pub HasArrived : Order → PriceLevelOrderBook → PriceLevelOrderBook → Type 0
HasArrived o b b' = HasNoStops b' × (view b' ≡ arrive o (view b))

module _ (o : Order) (b : PriceLevelOrderBook) (w : IsWellFormed b) (calm : HasNoStops b)
    (absent : find o.id b.orders ≡ none) (symbol : o.symbol_id ≡ b.symbol_id)
    (room : HasRoom o.open_quantity b) where
  -- The switch of `addOrder`.
  add_by_type-HasArrived :
      (fuel : ℕ)
      → HasFuel fuel b
      → (t : OrderType) → o.type ≡ t
      → (t ≡ market) ⊎ (t ≡ limit)
      → Returns (add_by_type fuel t o b) (HasArrived o b)
  unfolding add_by_type
  add_by_type-HasArrived fuel enough market e plain =
      add_market_order-ShowsArrival fuel o b w calm room (omega arith) e
  add_by_type-HasArrived fuel enough limit e plain =
      add_limit_order-ShowsArrival fuel o b w calm room (omega arith) absent symbol e
  add_by_type-HasArrived fuel enough stop e plain = absurd (ground arith)
  add_by_type-HasArrived fuel enough stop_limit e plain = absurd (ground arith)
  add_by_type-HasArrived fuel enough trailing_stop e plain = absurd (ground arith)
  add_by_type-HasArrived fuel enough trailing_stop_limit e plain = absurd (ground arith)

-- The stop orders are looked at, of which there are none.
pub activate-HasArrived :
    (fuel : ℕ) (o : Order) (b b' : PriceLevelOrderBook)
    → 2 ≤ fuel
    → HasArrived o b b'
    → Returns (activate_stop_orders fuel b') (HasArrived o b)
activate-HasArrived zero o b b' enough arrived = absurd (omega arith)
activate-HasArrived (suc zero) o b b' enough arrived = absurd (omega arith)
activate-HasArrived (suc (suc n)) o b b' enough (calm, e) =
    rw (activate_stop_orders-quiet n b' calm) (record { no_stops = calm.no_stops }, e)

-- With enough fuel, `addOrder` of a market or limit order on a well-formed book without stop orders
-- returns, if the order is new, of the book's symbol and fits in; the two queues and the last traded
-- price of the book that it returns are those that `arrive` computes from the queues and the price
-- of the book before: the order takes from the queue that it meets in price-time priority, and what
-- is left of a limit order that may rest joins the other queue behind the orders of its price.
-- `arrive` treats an all-or-none order as good-till-cancelled and a fill-or-kill order as
-- immediate-or-cancel, as the code does against the description in include/matching/order.h.
pub add_order_refines :
    (fuel : ℕ) (o : Order) (b : PriceLevelOrderBook)
    → IsWellFormed b
    → HasNoStops b
    → HasFuel fuel b
    → find o.id b.orders ≡ none
    → o.symbol_id ≡ b.symbol_id
    → HasRoom o.open_quantity b
    → IsPlain o
    → Returns (add_order fuel o b) (λ b'. HasNoStops b' × (view b' ≡ arrive o (view b)))
unfolding add_order
add_order_refines fuel o b w calm enough absent symbol room plain =
    let b₀ = notify (order_added o) b in
    let enough₀ : HasFuel fuel b₀ = omega (arith, activity-notify (order_added o) b) in
    Returns->>= (HasArrived o b) (add_by_type fuel o.type o b₀) _
      (add_by_type-HasArrived o b₀ (notify-IsWellFormed o b w) (record { no_stops = calm.no_stops })
        absent symbol (record { room = room.room }) fuel enough₀ o.type refl plain)
      (λ b₁ arrived. activate-HasArrived fuel o b b₁ (omega arith) arrived)

abbrev pub ArePlain : List Order → Type 0
ArePlain [] = Unit
ArePlain (o ∷ os) = IsPlain o × ArePlain os

-- What a list of arrivals makes of a view.
unfoldable pub arrive_all : List Order → View → View
arrive_all [] v = v
arrive_all (o ∷ os) v = arrive_all os (arrive o v)

all_arrive :
    (s fuel : ℕ) (os : List Order) (b : PriceLevelOrderBook)
    → IsWellFormed b
    → HasNoStops b
    → b.symbol_id ≡ s
    → activity b + fuel_for os ≤ fuel
    → HasRoom (open_total os) b
    → AreSuited s os
    → ArePlain os
    → AreAbsent os b
    → Returns (add_orders fuel os b) (λ b'. view b' ≡ arrive_all os (view b))
unfolding add_orders arrive_all
all_arrive s fuel [] b w calm symbol enough room suited plain absent = refl
all_arrive s fuel (o ∷ os) b w calm symbol enough room (same, new, suited) (one, plain)
      (here, absent) =
    let room' : HasRoom o.open_quantity b = record {
      room = λ is d. omega (arith, room.room is d);
    } in
    let fuel' : HasFuel fuel b = omega (arith, five-fuel_for os) in
    Returns->>= (λ b'. view b' ≡ arrive_all (o ∷ os) (view b)) (add_order fuel o b)
      (add_orders fuel os)
      (both (IsAccepted o.id o.open_quantity b) (HasArrived o b) (add_order fuel o b)
        (add_order_total fuel o b w fuel' here (same ∙ sym symbol) room')
        (add_order_refines fuel o b w calm fuel' here (same ∙ sym symbol) room' one))
      λ b' (a, (calm', e)).
        Returns-mono (λ b''. view b'' ≡ arrive_all (o ∷ os) (view b)) (add_orders fuel os b')
          (all_arrive s fuel os b' a.well_formed calm' (a.same_symbol ∙ symbol)
            (omega (arith, a.two_more)) (IsAccepted-HasRoom a (open_total os) room) suited plain
            (AreAbsent-add o.id o.open_quantity b b' a os new absent))
          (λ b'' later. later ∙ ap (arrive_all os) e)

-- A new book shows no orders and no trade.
pub view-new_book :
    (s : ℕ) (handler : EventHandler)
    → view (new_book s handler) ≡ record { queues = λ side. []; last_price = 0 }
unfolding new_book
view-new_book s handler = λ t. record { queues = fun_ext none_shown t; last_price = 0 }
  where
    none_shown : (side : OrderSide) → queue side (new_book s handler) ≡ []
    none_shown sell = refl
    none_shown buy = refl

-- Market and limit orders of a symbol, with ids of their own and open quantities that fit in 64 bits
-- together, are sent to a new book one after another, with fuel of two for each order and five: every
-- call returns, and what the book shows in the end is what `arrive` makes of two empty queues and a
-- last price of 0, order by order. `arrive` treats an all-or-none order as good-till-cancelled and a
-- fill-or-kill order as immediate-or-cancel, as the code does against the description in
-- include/matching/order.h.
pub add_orders_refines :
    (s fuel : ℕ) (handler : EventHandler) (os : List Order)
    → AreSuited s os
    → ArePlain os
    → open_total os < u64_mod
    → fuel_for os ≤ fuel
    → Returns
        (add_orders fuel os (new_book s handler))
        (λ b'. view b' ≡ arrive_all os (record { queues = λ side. []; last_price = 0 }))
unfolding new_book
add_orders_refines s fuel handler os suited plain fits enough =
    let (w, calm, room) = new_book-IsWellFormed s handler in
    Returns-mono (λ b'. view b' ≡ arrive_all os (record { queues = λ side. []; last_price = 0 }))
      (add_orders fuel os (new_book s handler))
      (all_arrive s fuel os (new_book s handler) w (record { no_stops = λ k stops. refl }) refl
        (omega (arith, calm)) (room (open_total os) fits) suited plain
        (AreAbsent-new_book s handler os))
      (λ b' e. e ∙ ap (arrive_all os) (view-new_book s handler))
