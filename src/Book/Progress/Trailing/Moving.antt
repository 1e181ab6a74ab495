-- ===== src/Book/Progress/Trailing/Moving.antt =====
-- One step of the moves of trailing orders: `move_trailing` on a well-formed book whose trailing
-- orders are on their way to a new map.
use quanta_trader.Common.{
  ℕ, ◌≡◌, refl, sym, ◌∙◌, ap, inl, inr, arith, true, ◌==◌, ==-eq, ==_refl, Bool-cases, Option-cases,
  some, List, ◌∷◌, done, Returns,
}
use quanta_trader.Common.Maps.{
  Map, find, put, emplace, emplace_old, find-emplace_new, find-put, sum_by-put,
}
use quanta_trader.Common.Maps.Ascending.{IsAscending, IsAscending-put, IsAscending-emplace}
use quanta_trader.Order.{Order, OrderType, OrderSide, set_stop_price}
use quanta_trader.Level
use quanta_trader.Level.{Level, linked, new_level, same_side}
use quanta_trader.Book.State.{
  PriceLevelOrderBook, LevelsName, OrderWithLevelIterator, set_levels, put_order, notify,
}
use quanta_trader.Event.{order_updated}
use quanta_trader.Book.Prices.{calculate_stop_price}
use quanta_trader.Book.Insert.{level_side}
use quanta_trader.Book.Remove.{levels_for}
use quanta_trader.Book.Stops.{move_trailing, trailing_stop_levels}
use quanta_trader.Book.Sound.{
  IsSound, IsFiled, IsLevelWrite, IsOrderWrite, price_by, open_of, Distinct, order_write_other,
  order_write_self,
}
use quanta_trader.Book.Sound.Crossing.{IsUncrossed}
use quanta_trader.Book.Sound.Link.{IsTarget, with_order, rewrite-IsSound, link-IsSound, total_le}
use quanta_trader.Book.Progress.{orders_of, shelves_of, activity, weight, IsLive, IsProgress}
use quanta_trader.Book.Progress.Writes.{
  put-write, emplace_found, swap_levels-write, IsLevelWrite-twice, same_levels_refl,
}
use quanta_trader.Book.Progress.Insertion.{same_side-levels_for}

pub trailing_price :
    (t : OrderType) (s side : OrderSide) (o : Order)
    → levels_for t s ≡ trailing_stop_levels side
    → price_by t o ≡ o.stop_price
trailing_price t s side o h = ground arith

-- While the orders `loose` wait to be moved, with `updated` in the place of the old map.
pub record IsMoving (side : OrderSide) (loose : List ℕ) (updated : Map Level)
    (b : PriceLevelOrderBook) : Type 0 where
  pub sound :
      IsSound loose b.symbol_id
        (orders_of b)
        (shelves_of (set_levels (trailing_stop_levels side) updated b))
  pub sorted : IsAscending updated
  pub distinct : Distinct loose
  pub trailing :
      (i : ℕ)
      → linked i loose ≡ true
      → (e : OrderWithLevelIterator) × (find i b.orders ≡ some e)
        × (e.level_it.levels ≡ trailing_stop_levels side)
  pub live : (i : ℕ) (e : OrderWithLevelIterator) → find i b.orders ≡ some e → IsLive e
  pub ascending : (j : LevelsName) → IsAscending (b.levels j)
  pub uncrossed : IsUncrossed (shelves_of b)

module _ (side : OrderSide) (i : ℕ) (loose : List ℕ) (updated : Map Level) (b : PriceLevelOrderBook)
    (moving : IsMoving side (i ∷ loose) updated b) (e : OrderWithLevelIterator)
    (stored : find i b.orders ≡ some e)
    (shelf : e.level_it.levels ≡ trailing_stop_levels side) where
  abbrev k : LevelsName
  k = trailing_stop_levels side

  abbrev stop : ℕ
  stop = (calculate_stop_price e.order b).0

  abbrev order : Order
  order = set_stop_price stop e.order

  abbrev entry : OrderWithLevelIterator
  entry = record { order = order; level_it = record { levels = k; price = stop } }

  abbrev updated₁ : Map Level
  updated₁ = emplace stop (new_level stop (level_side k) b.symbol_id) updated

  abbrev updated₂ : Level → Map Level
  updated₂ level = put stop (with_order order i level) updated₁

  abbrev moved : PriceLevelOrderBook
  moved = notify (order_updated order) (put_order i entry b)

  right : levels_for e.order.type e.order.side ≡ k
  right = (moving.sound.filed i e stored).right_levels ∙ shelf

  entry-IsFiled : IsFiled b.symbol_id i entry
  entry-IsFiled =
      let f = moving.sound.filed i e stored in
      record {
        same_id = f.same_id;
        same_symbol = f.same_symbol;
        right_levels = right;
        right_price = trailing_price e.order.type e.order.side side order right;
      }

  order-write : IsOrderWrite i (some entry) (orders_of b) (orders_of moved)
  order-write = put-write i entry b.orders

  base :
      (level : Level) × IsTarget b.symbol_id k stop (shelves_of (set_levels k updated b)) level
      × (find stop updated₁ ≡ some level)
      × (level.side ≡ level_side k)
      × (level.symbol_id ≡ b.symbol_id)
  unfolding new_level
  base = elim (Option-cases (find stop updated)) [
    | inl new ↦ (
      new_level stop (level_side k) b.symbol_id,
      inr (rw same_levels_refl new, refl),
      ground (
        arith,
        find-emplace_new stop stop (new_level stop (level_side k) b.symbol_id) updated new,
      ),
      refl,
      refl,
    )
    | inr (level, old) ↦
        let found : shelves_of (set_levels k updated b) k stop ≡ some level =
          rw same_levels_refl old in
        let s = moving.sound.stocked k stop level found in
        (
          level,
          inl found,
          rw (emplace_old stop (new_level stop (level_side k) b.symbol_id) level updated old) old,
          s.right_side,
          s.level_symbol,
        )
  ]

  module _ (level : Level) (found : find stop updated₁ ≡ some level)
      (sided : level.side ≡ level_side k) (symbol : level.symbol_id ≡ b.symbol_id) where
    move_trailing-done : move_trailing side i (updated, b) ≡ done (updated₂ level, moved)
    unfolding move_trailing Level.add_order calculate_stop_price
    move_trailing-done =
        let f = moving.sound.filed i e stored in
        let suits : same_side e.order.side level.side ≡ true =
          rw (sided, ← right) (same_side-levels_for e.order.type e.order.side) in
        rw stored (rw found (rw (suits, f.same_symbol, symbol, ==_refl, f.same_id)))

  moved_opens : open_of (find i moved.orders) ≡ open_of (find i b.orders)
  moved_opens = ap open_of (order_write_self order-write) ∙ sym (ap open_of stored)

  rewritten :
      IsSound (i ∷ loose) b.symbol_id (orders_of moved) (shelves_of (set_levels k updated b))
  rewritten = rewrite-IsSound i entry moving.sound order-write entry-IsFiled (λ is d.
      let o : open_of (find i b.orders) ≡ e.order.open_quantity = ap open_of stored in
      omega (arith, total_le order-write (omega arith) is, moving.sound.bounded is d))

  module _ (level : Level)
      (target : IsTarget b.symbol_id k stop (shelves_of (set_levels k updated b)) level)
      (found : find stop updated₁ ≡ some level) where
    linked-write :
        IsLevelWrite k stop
          (some (with_order order i level))
          (shelves_of (set_levels k updated b))
          (shelves_of (set_levels k (updated₂ level) moved))
    linked-write =
        IsLevelWrite-twice
          (swap_levels-write k stop (some level) updated updated₁ b (λ q.
            emplace_found stop q (new_level stop (level_side k) b.symbol_id) level updated found))
          (swap_levels-write k stop (some (with_order order i level)) updated₁ (updated₂ level) b
            (λ q. find-put q stop (with_order order i level) updated₁))

    moved-trailing :
        (j : ℕ)
        → linked j loose ≡ true
        → (f : OrderWithLevelIterator) × (find j moved.orders ≡ some f) × (f.level_it.levels ≡ k)
    unfolding linked
    moved-trailing j h = elim (Bool-cases (j == i)) [
      | inl same ↦ (entry, ground (arith, ==-eq j i same, order_write_self order-write), refl)
      | inr ne ↦
          let (f, x, y) = moving.trailing j (ground arith) in
          (f, order_write_other order-write j ne ∙ x, y)
    ]

    moved-IsLive : (j : ℕ) (f : OrderWithLevelIterator) → find j moved.orders ≡ some f → IsLive f
    moved-IsLive j f h = elim (Bool-cases (j == i)) [
      | inl same ↦
          ground (arith, ==-eq j i same, order_write_self order-write, moving.live i e stored)
      | inr ne ↦ moving.live j f (sym (order_write_other order-write j ne) ∙ h)
    ]

    moved-IsMoving : IsMoving side loose (updated₂ level) moved
    moved-IsMoving = record {
      sound =
          link-IsSound i entry level rewritten (order_write_self order-write) moving.distinct.0
            target linked-write;
      sorted =
          IsAscending-put stop (with_order order i level) level updated₁ found
            (IsAscending-emplace stop _ updated moving.sorted);
      distinct = moving.distinct.1;
      trailing = moved-trailing;
      live = moved-IsLive;
      ascending = moving.ascending;
      uncrossed = moving.uncrossed;
    }

  moved-IsProgress : IsProgress b moved
  unfolding activity
  moved-IsProgress = record {
    same_symbol = refl;
    none_new = λ j h. elim (Bool-cases (j == i)) [
      | inl same ↦ absurd (ground (arith, ==-eq j i same))
      | inr ne ↦ order_write_other order-write j ne ∙ h
    ];
    shrinks = λ j. elim (Bool-cases (j == i)) [
      | inl same ↦ rw (==-eq j i same) (omega (arith, moved_opens))
      | inr ne ↦ omega (arith, ap open_of (order_write_other order-write j ne))
    ];
    calmer = omega (arith, sum_by-put weight i e entry b.orders stored);
  }

  -- One order is moved to the level of its new stop price.
  abbrev pub Moved : List ℕ → Map Level × PriceLevelOrderBook → Type 0
  Moved rest t = IsMoving side rest t.0 t.1 × IsProgress b t.1

  pub move_trailing-Returns : Returns (move_trailing side i (updated, b)) (Moved loose)
  move_trailing-Returns =
      let (level, target, found, sided, symbol) = base in
      rw (move_trailing-done level found sided symbol)
        (moved-IsMoving level target found, moved-IsProgress)
