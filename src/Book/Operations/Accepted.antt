-- ===== src/Book/Operations/Accepted.antt =====
-- What `addOrder` leaves before its own call of `activateStopOrders`, and stop orders that come to
-- rest.
use quanta_trader.Common.{
  ℕ, ◌+◌, ◌≤◌, ◌≡◌, refl, ◌∙◌, ap, inl, inr, arith, Bool, true, false, ◌==◌, ◌||◌, if◌then◌else◌,
  Bool-cases, none, Returns, Returns-mono,
}
use quanta_trader.Common.Maps.{find}
use quanta_trader.Order.{
  Order, OrderType, OrderSide, sell, buy, stop, trailing_stop, trailing_stop_limit, is_type,
}
use quanta_trader.Book.State.{
  PriceLevelOrderBook, LevelsName, stop_sell_levels, stop_buy_levels, trailing_stop_sell_levels,
  trailing_stop_buy_levels,
}
use quanta_trader.Book.Insert.{insert_at, insert_stop_order, insert_trailing_stop_order}
use quanta_trader.Book.Remove.{levels_for}
use quanta_trader.Book.Stops.{is_trailing}
use quanta_trader.Book.Sound.{price_by, open_of}
use quanta_trader.Book.Sound.Crossing.{IsApart}
use quanta_trader.Book.Progress.{shelves_of, activity, type_weight, IsWellFormed, HasRoom}
use quanta_trader.Book.Progress.Insertion.{insert_at-Returns}
use quanta_trader.Book.Progress.Matching.{IsAdded}

-- What an accepted order leaves, before the stop orders are looked at again.
pub record IsAccepted (i q : ℕ) (b b' : PriceLevelOrderBook) : Type 0 where
  pub well_formed : IsWellFormed b'
  pub same_symbol : b'.symbol_id ≡ b.symbol_id
  pub none_other : (j : ℕ) → (j == i) ≡ false → find j b.orders ≡ none → find j b'.orders ≡ none
  pub others_shrink :
      (j : ℕ) → (j == i) ≡ false → open_of (find j b'.orders) ≤ open_of (find j b.orders)
  pub no_more : open_of (find i b'.orders) ≤ q
  pub two_more : activity b' ≤ activity b + 2

pub added-IsAccepted :
    (o : Order) {b b' : PriceLevelOrderBook} → IsAdded o b b' → IsAccepted o.id o.open_quantity b b'
added-IsAccepted o a = record {
  well_formed = a.well_formed;
  same_symbol = a.same_symbol;
  none_other = a.none_other;
  others_shrink = a.others_shrink;
  no_more = a.no_more;
  two_more = omega (arith, a.one_more);
}

insert_stop_order-at :
    (o : Order) (b : PriceLevelOrderBook)
    → insert_stop_order o b ≡ insert_at (levels_for stop o.side) o.stop_price o b
unfolding insert_stop_order
insert_stop_order-at o b = by_side o.side
  where
    by_side :
        (s : OrderSide)
        → (elim s [
          | sell ↦ insert_at stop_sell_levels o.stop_price o b
          | buy ↦ insert_at stop_buy_levels o.stop_price o b
        ])
          ≡ insert_at (levels_for stop s) o.stop_price o b
    by_side sell = refl
    by_side buy = refl

insert_trailing_stop_order-at :
    (o : Order) (b : PriceLevelOrderBook)
    → insert_trailing_stop_order o b ≡ insert_at (levels_for trailing_stop o.side) o.stop_price o b
unfolding insert_trailing_stop_order
insert_trailing_stop_order-at o b = by_side o.side
  where
    by_side :
        (s : OrderSide)
        → (elim s [
          | sell ↦ insert_at trailing_stop_sell_levels o.stop_price o b
          | buy ↦ insert_at trailing_stop_buy_levels o.stop_price o b
        ])
          ≡ insert_at (levels_for trailing_stop s) o.stop_price o b
    by_side sell = refl
    by_side buy = refl

abbrev trails : OrderType → Bool
trails t = is_type t trailing_stop || is_type t trailing_stop_limit

trailing_levels :
    (t : OrderType) (s : OrderSide)
    → type_weight t ≡ 2
    → trails t ≡ true
    → levels_for t s ≡ levels_for trailing_stop s
trailing_levels t s h k = ground arith

plain_levels :
    (t : OrderType) (s : OrderSide)
    → type_weight t ≡ 2
    → trails t ≡ false
    → levels_for t s ≡ levels_for stop s
plain_levels t s h k = ground arith

stop_price_by : (t : OrderType) (o : Order) → type_weight t ≡ 2 → price_by t o ≡ o.stop_price
stop_price_by t o h = ground arith

-- The maps of stop orders have no part in what can be traded.
IsApart-stops :
    (s : OrderSide) (p : ℕ) (b : PriceLevelOrderBook)
    → IsApart (levels_for stop s) p (shelves_of b)
      × IsApart (levels_for trailing_stop s) p (shelves_of b)
IsApart-stops sell p b = (tt, tt)
IsApart-stops buy p b = (tt, tt)

module _ (o : Order) (b : PriceLevelOrderBook) (w : IsWellFormed b)
    (room : HasRoom o.open_quantity b) (absent : find o.id b.orders ≡ none)
    (symbol : o.symbol_id ≡ b.symbol_id) where
  -- A stop order comes to rest under its stop price.
  stop_rests :
      (k : LevelsName)
      → type_weight o.type ≡ 2
      → levels_for o.type o.side ≡ k
      → price_by o.type o ≡ o.stop_price
      → IsApart k o.stop_price (shelves_of b)
      → Returns (insert_at k o.stop_price o b) (IsAccepted o.id o.open_quantity b)
  stop_rests k heavy right price far =
      Returns-mono (IsAccepted o.id o.open_quantity b) (insert_at k o.stop_price o b)
        (insert_at-Returns k o.stop_price o b w absent room
          (record {
            same_id = refl;
            same_symbol = symbol;
            right_levels = right;
            right_price = price;
          })
          (λ l. omega arith) far)
        λ b' (w', same, others, here, act). record {
          well_formed = w';
          same_symbol = same;
          none_other = λ j ne h. others j ne ∙ h;
          others_shrink = λ j ne. omega (arith, ap open_of (others j ne));
          no_more = omega (arith, here);
          two_more = omega (arith, act);
        }

  -- `insertStopOrder` and `insertTrailingStopOrder`, as `addStopOrder` chooses between them.
  pub rests-Returns :
      type_weight o.type ≡ 2
      → Returns
          (if is_trailing o then insert_trailing_stop_order o b else insert_stop_order o b)
          (IsAccepted o.id o.open_quantity b)
  rests-Returns heavy = elim (Bool-cases (is_trailing o)) [
    | inl trails ↦
        rw (trails, insert_trailing_stop_order-at o b)
          (stop_rests (levels_for trailing_stop o.side) heavy
            (trailing_levels o.type o.side heavy trails) (stop_price_by o.type o heavy)
            (IsApart-stops o.side o.stop_price b).1)
    | inr plain ↦
        rw (plain, insert_stop_order-at o b)
          (stop_rests (levels_for stop o.side) heavy (plain_levels o.type o.side heavy plain)
            (stop_price_by o.type o heavy) (IsApart-stops o.side o.stop_price b).0)
  ]
