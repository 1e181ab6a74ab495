-- ===== src/Book/Operations/Modification.antt =====
-- `modifyOrder` on a book without stop orders, and the two queues of `View`.
use quanta_trader.Common.{
  ℕ, ◌≡◌, ◌⊎◌, refl, sym, subst, ◌∙◌, ap, inl, inr, arith, none, some, Returns, Returns->>=,
  Returns-mono,
}
use quanta_trader.Common.Maps.{find}
use quanta_trader.Order.{
  Order, OrderSide, OrderType, market, limit, stop, stop_limit, trailing_stop, trailing_stop_limit,
  set_id, set_price,
}
use quanta_trader.Level.{Level, linked}
use quanta_trader.Book.State.{PriceLevelOrderBook, OrderWithLevelIterator}
use quanta_trader.Book.Remove
use quanta_trader.Book.Remove.{levels_for}
use quanta_trader.Book.Stops.{activate_stop_orders}
use quanta_trader.Book.Operations.{add_order, delete_order, modify_order}
use quanta_trader.Book.Operations.Arrivals.{activate-HasArrived, add_order_refines}
use quanta_trader.Book.Operations.Departures.{delete_order_refines}
use quanta_trader.Book.Operations.Total.{HasFuel}
use quanta_trader.Book.Progress.{activity, IsWellFormed}
use quanta_trader.Book.Progress.Matching.{delete_order-Returns}
use quanta_trader.Book.Progress.Removal.{IsRemoval}
use quanta_trader.Book.Progress.Activation.{activate_stop_orders-Settles}
use quanta_trader.Book.Queue.Quiet.{HasNoStops}
use quanta_trader.Book.Queue.Refinement.{both}
use quanta_trader.Book.Queue.View.{view, arrive, leave}

-- A level that a book without stop orders has is for market or limit orders.
pub plain_type :
    (b : PriceLevelOrderBook)
    → HasNoStops b
    → (t : OrderType) (s : OrderSide) (p : ℕ) (l : Level)
    → find p (b.levels (levels_for t s)) ≡ some l
    → (t ≡ market) ⊎ (t ≡ limit)
unfolding find
plain_type b calm market s p l h = inl refl
plain_type b calm limit s p l h = inr refl
plain_type b calm stop s p l h = absurd (ground (arith, calm.no_stops (levels_for stop s)))
plain_type b calm stop_limit s p l h =
    absurd (ground (arith, calm.no_stops (levels_for stop_limit s)))
plain_type b calm trailing_stop s p l h =
    absurd (ground (arith, calm.no_stops (levels_for trailing_stop s)))
plain_type b calm trailing_stop_limit s p l h =
    absurd (ground (arith, calm.no_stops (levels_for trailing_stop_limit s)))

-- With enough fuel, `modifyOrder` of an order that a well-formed book without stop orders has, to an
-- id that is its own or is not in the book, returns; and the book shows what it showed before once
-- the order has left and, with its new id and price, has arrived again: it loses its place in the
-- queue, and it may be matched at the new price. `arrive` treats an all-or-none order as
-- good-till-cancelled, so that it may be filled in part, as the code does against the description in
-- include/matching/order.h.
pub modify_order_refines :
    (fuel i j price : ℕ) (b : PriceLevelOrderBook) (e : OrderWithLevelIterator)
    → IsWellFormed b
    → HasNoStops b
    → HasFuel fuel b
    → find i b.orders ≡ some e
    → (j ≡ i) ⊎ (find j b.orders ≡ none)
    → Returns (modify_order fuel i j price b) (λ b'.
      HasNoStops b' × (view b' ≡ arrive (set_price price (set_id j e.order)) (leave i (view b))))
unfolding modify_order delete_order linked
modify_order_refines fuel i j price b e w calm enough stored free =
    let order : Order = set_price price (set_id j e.order) in
    let filed = w.sound.filed i e stored in
    let (level, at_level, link) = w.sound.placed i e stored refl in
    let plain =
      plain_type b calm e.order.type e.order.side e.level_it.price level
        (rw filed.right_levels at_level) in
    let delete = Remove.delete_order (activate_stop_orders fuel) i b in
    rw stored (
      Returns->>= _ delete _
        (both (IsRemoval b w.sound w.ascending w.uncrossed i e stored)
          (λ b₁. HasNoStops b₁ × (view b₁ ≡ leave i (view b))) delete
          (delete_order-Returns (activate_stop_orders-Settles fuel (activity b) (omega arith)) b
            w.sound w.ascending w.uncrossed i e stored (λ k f h ne. w.live k f h) (omega arith))
          (delete_order_refines fuel i e b w calm enough stored))
        λ b₁ ((w₁, p, gone, _, room), (calm₁, left)).
          let absent : find j b₁.orders ≡ none = elim free [
            | inl same ↦ subst (λ k. find k b₁.orders ≡ none) (sym same) gone
            | inr new ↦ p.none_new j new
          ] in
          Returns->>= _ (add_order fuel order b₁) (activate_stop_orders fuel)
            (add_order_refines fuel order b₁ w₁ calm₁ (omega (arith, p.calmer)) absent
              (filed.same_symbol ∙ sym p.same_symbol) room plain)
            λ b₂ arrived.
              Returns-mono _ (activate_stop_orders fuel b₂)
                (activate-HasArrived fuel order b₁ b₂ (omega arith) arrived)
                (λ b₃ (calm₃, shown). (calm₃, shown ∙ ap (arrive order) left)))
