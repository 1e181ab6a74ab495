-- ===== src/Book/Progress/Matching/Contract.antt =====
-- What the nested call of `activateStopOrders` does, and `deleteOrder` with it.
use quanta_trader.Common.{
  ℕ, ◌<◌, ◌≤◌, ◌≡◌, arith, false, ◌==◌, some, [], Outcome, Returns, Returns->>=, Returns-mono,
}
use quanta_trader.Common.Maps.{find}
use quanta_trader.Common.Maps.Ascending.{IsAscending}
use quanta_trader.Order.{OrderType}
use quanta_trader.Book.State.{LevelsName, PriceLevelOrderBook, OrderWithLevelIterator}
use quanta_trader.Book.Remove.{delete_order, remove_order}
use quanta_trader.Book.Sound.Crossing.{IsUncrossed}
use quanta_trader.Book.Sound.{IsSound}
use quanta_trader.Book.Progress.{
  orders_of, shelves_of, activity, type_weight, IsLive, IsWellFormed, IsProgress-trans,
  IsProgress-HasRoom, IsGood,
}
use quanta_trader.Book.Progress.Removal.{IsRemoval, remove_order-Returns}

-- The call is good for every well-formed book of an activity below the bound.
pub record Settles (bound : ℕ) (activate : PriceLevelOrderBook → Outcome PriceLevelOrderBook)
    : Type 0 where
  pub settles :
      (b : PriceLevelOrderBook) → IsWellFormed b → activity b < bound → IsGood b (activate b)

pub weight_pos : (t : OrderType) → 0 < type_weight t
weight_pos t = ground arith

module _ {bound : ℕ} {activate : PriceLevelOrderBook → Outcome PriceLevelOrderBook}
    (nested : Settles bound activate) (b : PriceLevelOrderBook)
    (sound : IsSound [] b.symbol_id (orders_of b) (shelves_of b))
    (ascending : (k : LevelsName) → IsAscending (b.levels k))
    (uncrossed : IsUncrossed (shelves_of b)) (i : ℕ) (e : OrderWithLevelIterator)
    (stored : find i b.orders ≡ some e) where
  pub delete_order-Returns :
      ((j : ℕ) (f : OrderWithLevelIterator)
        → find j b.orders ≡ some f
        → (j == i) ≡ false
        → IsLive f)
      → activity b ≤ bound
      → Returns (delete_order activate i b) (IsRemoval b sound ascending uncrossed i e stored)
  unfolding delete_order
  delete_order-Returns others small =
      Returns->>= (IsRemoval b sound ascending uncrossed i e stored) (remove_order i b) activate
        (remove_order-Returns b sound ascending uncrossed i e stored others)
        λ b₁ (w, p, gone, calm, room).
          Returns-mono (IsRemoval b sound ascending uncrossed i e stored) (activate b₁)
            (nested.settles b₁ w (omega (arith, weight_pos e.order.type)))
            λ b₂ (w', p'). (
              w',
              IsProgress-trans p p',
              p'.none_new i gone,
              omega (arith, p'.calmer),
              IsProgress-HasRoom e.order.open_quantity p' room,
            )
