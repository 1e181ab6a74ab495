-- ===== src/Book/Progress/Trailing.antt =====
-- `updateTrailingSellStopOrders` and `updateTrailingBuyStopOrders` on a well-formed book.
mod Moving
use quanta_trader.Common.{
  ℕ, ◌≡◌, refl, sym, fun_ext, ◌∙◌, ap, inl, inr, arith, true, ◌==◌, ==-eq, ==_refl, ◌&&◌, not,
  if◌then◌else◌, Bool-cases, Option-cases, none, some, List, [], ◌∷◌, ◌++◌, is_empty, Outcome, done,
  Returns, Returns->>=, Returns-mono, ◌>>=◌, >>=_assoc,
}
use quanta_trader.Common.Maps.{
  Map, find, put, emplace, emplace_old, find-emplace_new, find-put, sum_by-put,
}
use quanta_trader.Common.Maps.Ascending.{IsAscending, IsAscending-put, IsAscending-emplace}
use quanta_trader.Order.{Order, OrderType, OrderSide, sell, buy, set_stop_price}
use quanta_trader.Level
use quanta_trader.Level.{Level, linked, new_level, same_side}
use quanta_trader.Book.State.{
  PriceLevelOrderBook, LevelsName, OrderWithLevelIterator, set_levels, put_order, notify,
  same_levels,
}
use quanta_trader.Event.{order_updated}
use quanta_trader.Book.Prices.{calculate_stop_price}
use quanta_trader.Book.Insert.{level_side}
use quanta_trader.Book.Remove.{levels_for}
use quanta_trader.Book.Stops.{
  move_trailing, move_trailing_orders, move_trailing_levels, update_trailing_stop_orders,
  trailing_stop_levels, set_trailing_price, trailing_moves,
}
use quanta_trader.Book.Sound.{
  IsSound, IsFiled, IsLevelWrite, IsOrderWrite, price_by, open_of, Distinct, order_write_other,
  order_write_self,
}
use quanta_trader.Book.Sound.Crossing.{IsUncrossed}
use quanta_trader.Book.Sound.Link.{IsTarget, with_order, rewrite-IsSound, link-IsSound, total_le}
use quanta_trader.Book.Sound.Release.{all_ids, released-Distinct, released-levels, release-IsSound}
use quanta_trader.Book.Progress.{
  orders_of, shelves_of, activity, weight, IsLive, IsWellFormed, IsProgress, IsProgress-refl,
  IsProgress-trans, IsGood,
}
use quanta_trader.Book.Progress.Writes.{
  set_levels-IsAscending, put-write, emplace_found, swap_levels-write, IsLevelWrite-twice,
  same_levels_refl,
}
use quanta_trader.Book.Progress.Insertion.{same_side-levels_for}
use quanta_trader.Book.Progress.Trailing.Moving.{
  IsMoving, Moved, move_trailing-Returns, trailing_price,
}

-- The model's list of all orders of a map, moved one after the other.
move_trailing_orders-append :
    (side : OrderSide) (is js : List ℕ) (s : Map Level × PriceLevelOrderBook)
    → move_trailing_orders side (is ++ js) s
      ≡ (move_trailing_orders side is s >>= move_trailing_orders side js)
unfolding move_trailing_orders
move_trailing_orders-append side [] js s = refl
move_trailing_orders-append side (i ∷ is) js s =
    ap
      (λ (f : Map Level × PriceLevelOrderBook → Outcome (Map Level × PriceLevelOrderBook)).
        move_trailing side i s >>= f)
      (fun_ext (λ t. move_trailing_orders-append side is js t))
    ∙ sym (
        >>=_assoc (move_trailing side i s) (move_trailing_orders side is)
          (move_trailing_orders side js))

pub move_trailing_levels-all_ids :
    (side : OrderSide) (m : Map Level) (s : Map Level × PriceLevelOrderBook)
    → move_trailing_levels side m s ≡ move_trailing_orders side (all_ids m) s
unfolding move_trailing_levels all_ids move_trailing_orders
move_trailing_levels-all_ids side [] s = refl
move_trailing_levels-all_ids side (e ∷ m) s =
    rw (fun_ext (λ t. move_trailing_levels-all_ids side m t))
      (sym (move_trailing_orders-append side e.1.orders (all_ids m) s))

move_trailing_orders-Returns :
    (side : OrderSide) (loose : List ℕ) (updated : Map Level) (b : PriceLevelOrderBook)
    → IsMoving side loose updated b
    → Returns
        (move_trailing_orders side loose (updated, b))
        (λ t. IsMoving side [] t.0 t.1 × IsProgress b t.1)
unfolding move_trailing_orders linked
move_trailing_orders-Returns side [] updated b moving = (moving, IsProgress-refl b)
move_trailing_orders-Returns side (i ∷ loose) updated b moving =
    let (e, stored, shelf) = moving.trailing i (ground arith) in
    Returns->>= (λ t. IsMoving side [] t.0 t.1 × IsProgress b t.1)
      (move_trailing side i (updated, b)) (move_trailing_orders side loose)
      (move_trailing-Returns side i loose updated b moving e stored shelf)
      λ (updated', b') (m, p).
        Returns-mono (λ t. IsMoving side [] t.0 t.1 × IsProgress b t.1)
          (move_trailing_orders side loose (updated', b'))
          (move_trailing_orders-Returns side loose updated' b' m)
          λ t (m', p'). (m', IsProgress-trans p p')

pub empties :
    (b : PriceLevelOrderBook) (k j : LevelsName) (p : ℕ)
    → shelves_of (set_levels k [] b) j p ≡ (if same_levels j k then none else shelves_of b j p)
unfolding find
empties b k j p = elim (Bool-cases (same_levels j k)) [ inl same ↦ rw same | inr other ↦ rw other ]

start :
    (side : OrderSide) (b : PriceLevelOrderBook)
    → IsWellFormed b
    → IsMoving side (all_ids (b.levels (trailing_stop_levels side))) [] b
unfolding find
start side b w =
    let k = trailing_stop_levels side in
    let m = b.levels k in
    let emptied : (j : LevelsName) (p : ℕ)
        → shelves_of (set_levels k [] b) j p
          ≡ (if same_levels j k then none else shelves_of b j p) =
      empties b k in
    record {
      sound = release-IsSound w.sound k m (w.ascending k) (λ p. refl) emptied;
      sorted = tt;
      distinct = released-Distinct w.sound k m (w.ascending k) (λ p. refl) emptied;
      trailing = released-levels w.sound k m (w.ascending k) (λ p. refl) emptied;
      live = w.live;
      ascending = w.ascending;
      uncrossed = w.uncrossed;
    }

set_trailing_price-good :
    (side : OrderSide) (b : PriceLevelOrderBook)
    → IsWellFormed b
    → IsWellFormed (set_trailing_price side b) × IsProgress b (set_trailing_price side b)
unfolding activity
set_trailing_price-good sell b w = (
  record { sound = w.sound; ascending = w.ascending; uncrossed = w.uncrossed; live = w.live },
  record {
    same_symbol = refl;
    none_new = λ i h. h;
    shrinks = λ i. omega arith;
    calmer = omega arith;
  },
)
set_trailing_price-good buy b w = (
  record { sound = w.sound; ascending = w.ascending; uncrossed = w.uncrossed; live = w.live },
  record {
    same_symbol = refl;
    none_new = λ i h. h;
    shrinks = λ i. omega arith;
    calmer = omega arith;
  },
)

trailing-IsUncrossed :
    (side : OrderSide) (updated : Map Level) (b : PriceLevelOrderBook)
    → IsUncrossed (shelves_of b)
    → IsUncrossed (shelves_of (set_levels (trailing_stop_levels side) updated b))
trailing-IsUncrossed sell updated b u = record { apart = u.apart }
trailing-IsUncrossed buy updated b u = record { apart = u.apart }

-- Moving the trailing stop orders of a side, on a well-formed book, returns a well-formed book with
-- no new order, no order with more left open, and no more activity.
pub update_trailing_stop_orders-Returns :
    (side : OrderSide) (b : PriceLevelOrderBook)
    → IsWellFormed b
    → IsGood b (update_trailing_stop_orders side b)
unfolding update_trailing_stop_orders activity
update_trailing_stop_orders-Returns side b w =
    let k = trailing_stop_levels side in
    elim (Bool-cases (trailing_moves side b && not (is_empty (b.levels k)))) [
      | inr stays ↦ rw stays (set_trailing_price-good side b w)
      | inl moves ↦
          rw (moves, move_trailing_levels-all_ids side (b.levels k) ([], b))
            (Returns->>= (λ b'. IsWellFormed b' × IsProgress b b')
              (move_trailing_orders side (all_ids (b.levels k)) ([], b)) _
              (move_trailing_orders-Returns side (all_ids (b.levels k)) [] b (start side b w))
              λ (updated, b') (m, p). (
                record {
                  sound = m.sound;
                  ascending = set_levels-IsAscending k updated b' m.sorted m.ascending;
                  uncrossed = trailing-IsUncrossed side updated b' m.uncrossed;
                  live = m.live;
                },
                record {
                  same_symbol = p.same_symbol;
                  none_new = p.none_new;
                  shrinks = p.shrinks;
                  calmer = p.calmer;
                },
              ))
    ]
