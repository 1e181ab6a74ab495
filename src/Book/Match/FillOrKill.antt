-- ===== src/Book/Match/FillOrKill.antt =====
-- What `canMatchOrder` answers for a fill-or-kill order.
use quanta_trader.Common.{
  ℕ, zero, suc, ◌-◌, ◌≤◌, ◌<◌, ◌≡◌, arith, true, u64_mod, min, add64, sub64, some, done,
}
use quanta_trader.Level.{Level}
use quanta_trader.Order.{Order}
use quanta_trader.Book.State.{PriceLevelOrderBook, LevelIterator, level_at}
use quanta_trader.Book.Match.{can_match_loop, can_match_order, best_opposite, crosses}

can_match_loop-done :
    (fuel volume required available : ℕ)
    → 0 < volume
    → required < u64_mod
    → available ≤ required
    → required - available < fuel
    → can_match_loop fuel volume required available ≡ done true
unfolding can_match_loop
can_match_loop-done zero volume required available pos word le enough = elim enough [ ]
can_match_loop-done (suc fuel) volume required available pos word le enough = ground (
  arith,
  can_match_loop-done fuel volume required (add64 available (min volume (sub64 required available)))
      pos word,
)

-- A fill-or-kill order passes the check exactly when the best level of the other side is good
-- enough in price, if that level has any volume: neither the order's quantity nor what the levels
-- hold between them matters.
pub can_match_order-crosses :
    (o : Order) (b : PriceLevelOrderBook) (it : LevelIterator) (level : Level)
    → best_opposite o.side b ≡ some it
    → level_at it b ≡ done level
    → 0 < level.volume
    → o.open_quantity < u64_mod
    → can_match_order o b ≡ done (crosses o.side o.price it.price)
unfolding can_match_order
can_match_order-crosses o b it level best found pos word =
    ground (arith, can_match_loop-done (suc o.open_quantity) level.volume o.open_quantity 0)
