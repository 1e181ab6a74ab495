-- ===== src/Book/Operations/Overflow.antt =====
-- `cancelOrder` with a quantity above what is open.
use quanta_trader.Common.{
  ℕ, ◌-◌, ◌<◌, ◌≡◌, refl, arith, false, leb, some, sub64, u64_mod, fault, assertion_failed,
}
use quanta_trader.Common.Maps.{find}
use quanta_trader.Order.{set_quantity}
use quanta_trader.Level
use quanta_trader.Level.{Level}
use quanta_trader.Book.State.{PriceLevelOrderBook, OrderWithLevelIterator, put_order}
use quanta_trader.Book.Operations.{settle, cancel_order}
use quanta_trader.Book.Sound.{order_write_self}
use quanta_trader.Book.Progress.{IsWellFormed, HasRoom}
use quanta_trader.Book.Progress.Writes.{put-write}

-- Cancelling an order of a well-formed book to more than what is open fails an assertion, if the
-- surplus would fit beside what is open: the amount that the level is to lose has wrapped around.
pub cancel_order_overflows :
    (fuel i q : ℕ) (b : PriceLevelOrderBook) (e : OrderWithLevelIterator)
    → IsWellFormed b
    → find i b.orders ≡ some e
    → e.order.open_quantity < q
    → q < u64_mod
    → HasRoom (q - e.order.open_quantity) b
    → cancel_order fuel i q b ≡ fault assertion_failed
unfolding cancel_order settle set_quantity Level.reduce_volume Level.linked
cancel_order_overflows fuel i q b e w stored more small room =
    let (level, at_level, link) = w.sound.placed i e stored refl in
    let stock = w.sound.stocked e.level_it.levels e.level_it.price level at_level in
    let entry : OrderWithLevelIterator = record e { order = set_quantity q e.order } in
    let found : find i (put_order i entry b).orders ≡ some entry =
      order_write_self (put-write i entry b.orders) in
    let volume = w.sound.volume e.level_it.levels e.level_it.price level at_level in
    let fits = room.room level.orders stock.distinct in
    let fails : leb (sub64 e.order.open_quantity q) level.volume ≡ false = ground arith in
    rw stored (rw found (rw at_level (rw fails)))
