-- ===== src/Book/Progress/Reduction.antt =====
-- An order of a well-formed book that loses some of its open quantity, and its level as much of its
-- volume: a trade, a cancellation or an execution from outside.
use quanta_trader.Common.{
  ℕ, ◌+◌, ◌≤◌, ◌≡◌, refl, sym, ◌∙◌, ap, inl, inr, arith, true, false, ◌==◌, ==-eq, Bool-cases, some,
  [], leb, le→leb, sub64,
}
use quanta_trader.Common.Maps.{find, sum_by-put}
use quanta_trader.Common.Maps.Ascending.{IsAscending, IsAscending-put}
use quanta_trader.Order.{Order, OrderType}
use quanta_trader.Level.{Level, linked}
use quanta_trader.Book.State.{
  PriceLevelOrderBook, OrderWithLevelIterator, LevelsName, put_order, put_level,
}
use quanta_trader.Book.Sound.{
  price_by, IsSound, IsFiled, IsLevelWrite, IsOrderWrite, open_of, order_write_other,
  order_write_self,
}
use quanta_trader.Book.Sound.Crossing.{IsUncrossed, IsUncrossed-write}
use quanta_trader.Book.Sound.Trade.{trade-IsSound, amount-le-volume}
use quanta_trader.Book.Progress.{
  orders_of, shelves_of, activity, weight, type_weight, IsLive, IsWellFormed, IsProgress,
}
use quanta_trader.Book.Progress.Writes.{set_levels-IsAscending, put_level-write, put-write}

-- What a trade or a cancellation keeps of an order.
pub record IsSameOrder (o o' : Order) : Type 0 where
  pub same_id : o'.id ≡ o.id
  pub same_type : o'.type ≡ o.type
  pub same_side : o'.side ≡ o.side
  pub same_time_in_force : o'.time_in_force ≡ o.time_in_force
  pub same_symbol : o'.symbol_id ≡ o.symbol_id
  pub same_price : o'.price ≡ o.price
  pub same_stop_price : o'.stop_price ≡ o.stop_price
  pub no_more : o'.open_quantity ≤ o.open_quantity

-- The order `r` becomes `r'`, with `amount` less left open; of the book only the handler and the
-- prices may have changed.
pub record IsReduction (r : Order) (b : PriceLevelOrderBook) (r' : Order) (amount : ℕ)
    (b' : PriceLevelOrderBook) : Type 0 where
  pub resting : IsSameOrder r r'
  pub same_orders : b'.orders ≡ b.orders
  pub same_levels : b'.levels ≡ b.levels
  pub same_symbol : b'.symbol_id ≡ b.symbol_id
  pub taken : r'.open_quantity + amount ≡ r.open_quantity

price_by-eq :
    (t u : OrderType) (o o' : Order)
    → t ≡ u
    → o.price ≡ o'.price
    → o.stop_price ≡ o'.stop_price
    → price_by t o ≡ price_by u o'
price_by-eq t u o o' e p q = ground arith

module _ (b : PriceLevelOrderBook) (w : IsWellFormed b) (i : ℕ) (e : OrderWithLevelIterator)
    (level : Level) (stored : find i b.orders ≡ some e)
    (at_level : find e.level_it.price (b.levels e.level_it.levels) ≡ some level) (r' : Order)
    (amount : ℕ) (b' : PriceLevelOrderBook) (reduction : IsReduction e.order b r' amount b') where
  abbrev pub entry' : OrderWithLevelIterator
  entry' = record e { order = r' }

  abbrev pub settled : PriceLevelOrderBook
  settled =
      put_level e.level_it (record level { volume = sub64 level.volume amount })
        (put_order i entry' b')

  pub settled-IsOrderWrite : IsOrderWrite i (some entry') (orders_of b) (orders_of settled)
  settled-IsOrderWrite = rw reduction.same_orders (put-write i entry' b.orders)

  settled-IsLevelWrite :
      IsLevelWrite e.level_it.levels e.level_it.price
        (some (record level { volume = sub64 level.volume amount }))
        (shelves_of b)
        (shelves_of settled)
  settled-IsLevelWrite =
      let h =
        put_level-write e.level_it.levels e.level_it.price
          (record level { volume = sub64 level.volume amount }) (put_order i entry' b') in
      record { level_write = λ j q. h.level_write j q ∙ rw reduction.same_levels }

  settled-IsFiled : IsFiled b.symbol_id i entry'
  settled-IsFiled =
      let f = w.sound.filed i e stored in
      let t = reduction.resting in
      record {
        same_id = t.same_id ∙ f.same_id;
        same_symbol = t.same_symbol ∙ f.same_symbol;
        right_levels = rw (t.same_type, t.same_side) f.right_levels;
        right_price =
            price_by-eq r'.type e.order.type r' e.order t.same_type t.same_price t.same_stop_price
            ∙ f.right_price;
      }

  pub settled-IsSound : IsSound [] settled.symbol_id (orders_of settled) (shelves_of settled)
  unfolding linked
  settled-IsSound = rw reduction.same_symbol (
      trade-IsSound w.sound i amount e r' level stored refl at_level reduction.taken settled-IsFiled
        settled-IsOrderWrite settled-IsLevelWrite)

  pub settled_volume : leb amount level.volume ≡ true
  unfolding linked
  settled_volume = le→leb amount level.volume (
      amount-le-volume w.sound i amount e r' level stored refl at_level reduction.taken
        settled-IsFiled settled-IsOrderWrite settled-IsLevelWrite)

  pub settled-IsAscending : (k : LevelsName) → IsAscending (settled.levels k)
  settled-IsAscending =
      set_levels-IsAscending e.level_it.levels _ (put_order i entry' b')
        (rw reduction.same_levels (
          IsAscending-put e.level_it.price _ level (b.levels e.level_it.levels) at_level
            (w.ascending e.level_it.levels)))
        (rw reduction.same_levels w.ascending)

  pub settled-IsUncrossed : IsUncrossed (shelves_of settled)
  settled-IsUncrossed =
      IsUncrossed-write w.uncrossed e.level_it.levels e.level_it.price level settled-IsLevelWrite
        at_level

  pub settled-IsLive :
      (j : ℕ) (f : OrderWithLevelIterator)
      → find j settled.orders ≡ some f
      → (j == i) ≡ false
      → IsLive f
  settled-IsLive j f h ne = w.live j f (sym (order_write_other settled-IsOrderWrite j ne) ∙ h)

  pub settled-activity : activity settled ≡ activity b
  unfolding activity
  settled-activity =
      let p = sum_by-put weight i e entry' b.orders stored in
      rw reduction.same_orders (omega (arith, p, ap type_weight reduction.resting.same_type))

  pub settled-IsProgress : IsProgress b settled
  settled-IsProgress = record {
    same_symbol = reduction.same_symbol;
    none_new = λ j h. elim (Bool-cases (j == i)) [
      | inl same ↦ absurd (ground (arith, ==-eq j i same))
      | inr ne ↦ order_write_other settled-IsOrderWrite j ne ∙ h
    ];
    shrinks = λ j. elim (Bool-cases (j == i)) [
      | inl same ↦
          let s : open_of (find i b.orders) ≡ e.order.open_quantity = ap open_of stored in
          let t : open_of (find i settled.orders) ≡ r'.open_quantity =
            ap open_of (order_write_self settled-IsOrderWrite) in
          rw (==-eq j i same) (omega (arith, reduction.taken))
      | inr ne ↦ omega (arith, ap open_of (order_write_other settled-IsOrderWrite j ne))
    ];
    calmer = omega (arith, settled-activity);
  }
