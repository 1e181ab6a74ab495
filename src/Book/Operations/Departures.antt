-- ===== src/Book/Operations/Departures.antt =====
-- `deleteOrder` on a book without stop orders, and the two queues of `View`.
use quanta_trader.Common.{ℕ, zero, suc, ◌≡◌, refl, fun_ext, arith, some, Returns}
use quanta_trader.Common.Maps.{find}
use quanta_trader.Book.State.{PriceLevelOrderBook, OrderWithLevelIterator}
use quanta_trader.Level.{linked}
use quanta_trader.Book.Remove
use quanta_trader.Book.Operations.{delete_order}
use quanta_trader.Book.Operations.Total.{HasFuel}
use quanta_trader.Book.Progress.{IsWellFormed}
use quanta_trader.Book.Progress.Removal.{removed, remove_order-done}
use quanta_trader.Book.Queue.Deleting.{queue-removed, removed_price, removed-HasNoStops}
use quanta_trader.Book.Queue.Quiet.{HasNoStops, activate_stop_orders-quiet}
use quanta_trader.Book.Queue.View.{view, leave}

-- With enough fuel, `deleteOrder` of an order that a well-formed book without stop orders has
-- returns, and what the book shows is what it showed before without that order: every other order
-- keeps its place in its queue and its open quantity, and the last traded price is the same.
pub delete_order_refines :
    (fuel i : ℕ) (e : OrderWithLevelIterator) (b : PriceLevelOrderBook)
    → IsWellFormed b
    → HasNoStops b
    → HasFuel fuel b
    → find i b.orders ≡ some e
    → Returns (delete_order fuel i b) (λ b'. HasNoStops b' × (view b' ≡ leave i (view b)))
unfolding delete_order Remove.delete_order leave linked
delete_order_refines zero i e b w calm enough stored = absurd (omega arith)
delete_order_refines (suc zero) i e b w calm enough stored = absurd (omega arith)
delete_order_refines (suc (suc n)) i e b w calm enough stored =
    let (level, at_level, link) = w.sound.placed i e stored refl in
    let after = removed i e level b in
    let calm' =
      removed-HasNoStops b w.sound w.ascending w.uncrossed i e stored level at_level link calm in
    let queues = queue-removed b w.sound w.ascending w.uncrossed i e stored level at_level link in
    let price = removed_price b w.sound w.ascending w.uncrossed i e stored level at_level link in
    rw
      (
        remove_order-done b w.sound w.ascending w.uncrossed i e stored level at_level link,
        activate_stop_orders-quiet n after calm',
      )
      (
        record { no_stops = calm'.no_stops },
        λ t. record { queues = fun_ext queues t; last_price = price t },
      )
