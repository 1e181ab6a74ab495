-- ===== src/Book/Insert.antt =====
-- Putting an order into the book: `insertLimitOrder`, `insertStopOrder` and
-- `insertTrailingStopOrder`.
use quanta_trader.Common.{ℕ, not, Outcome, done, ◌>>=◌, ◌>>◌, assert}
use quanta_trader.Common.Maps.{contains, emplace}
use quanta_trader.Order.{Order, sell, buy}
use quanta_trader.Level.{LevelSide, new_level, add_order}
use quanta_trader.Book.State.{
  PriceLevelOrderBook, LevelsName, LevelIterator, sell_levels, buy_levels, stop_sell_levels,
  stop_buy_levels, trailing_stop_sell_levels, trailing_stop_buy_levels, set_levels, level_at,
  put_level,
}

abbrev pub level_side : LevelsName → LevelSide
level_side sell_levels = LevelSide.sell
level_side buy_levels = LevelSide.buy
level_side stop_sell_levels = LevelSide.sell
level_side stop_buy_levels = LevelSide.buy
level_side trailing_stop_sell_levels = LevelSide.sell
level_side trailing_stop_buy_levels = LevelSide.buy

-- Both `emplace` calls and the call of `addOrder` at a price of one of the maps. A boost list of
-- safe hooks asserts that what it links is in no list yet; the order that `emplace` finds under a
-- known id is in one.
unfoldable pub insert_at :
    LevelsName → ℕ → Order → PriceLevelOrderBook → Outcome PriceLevelOrderBook
insert_at k price order b = do
  let it : LevelIterator = record { levels = k; price = price }
  let m = emplace price (new_level price (level_side k) b.symbol_id) (b.levels k)
  let b' = set_levels k m b
  assert (not (contains order.id b.orders))
  level ← level_at it b'
  level' ← add_order order level
  done (
      put_level it level' (record b' {
        orders = emplace order.id (record { order = order; level_it = it }) b.orders;
      }))

unfoldable pub insert_limit_order : Order → PriceLevelOrderBook → Outcome PriceLevelOrderBook
insert_limit_order order b = elim order.side [
  | sell ↦ insert_at sell_levels order.price order b
  | buy ↦ insert_at buy_levels order.price order b
]

unfoldable pub insert_stop_order : Order → PriceLevelOrderBook → Outcome PriceLevelOrderBook
insert_stop_order order b = elim order.side [
  | sell ↦ insert_at stop_sell_levels order.stop_price order b
  | buy ↦ insert_at stop_buy_levels order.stop_price order b
]

unfoldable pub insert_trailing_stop_order :
    Order → PriceLevelOrderBook → Outcome PriceLevelOrderBook
insert_trailing_stop_order order b = elim order.side [
  | sell ↦ insert_at trailing_stop_sell_levels order.stop_price order b
  | buy ↦ insert_at trailing_stop_buy_levels order.stop_price order b
]
