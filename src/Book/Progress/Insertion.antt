-- ===== src/Book/Progress/Insertion.antt =====
-- Putting an order into a well-formed book.
use quanta_trader.Common.{
  ℕ, ◌+◌, ◌<◌, ◌≡◌, refl, sym, ◌∙◌, ap, inl, inr, arith, true, false, ◌==◌, ==_refl, Bool-cases,
  Option-cases, none, some, List, [], ◌∷◌, u64_mod, done, Returns,
}
use quanta_trader.Common.Maps.{
  contains, find, emplace, emplace_old, find-emplace_new, sum_by-emplace,
}
use quanta_trader.Common.Maps.Ascending.{IsAscending, IsAscending-put, IsAscending-emplace}
use quanta_trader.Order.{Order, OrderSide, OrderType}
use quanta_trader.Level
use quanta_trader.Level.{Level, LevelSide, linked, new_level, same_side}
use quanta_trader.Book.State.{
  PriceLevelOrderBook, LevelsName, OrderWithLevelIterator, put_level, set_levels,
}
use quanta_trader.Book.Insert.{level_side, insert_at}
use quanta_trader.Book.Remove.{levels_for}
use quanta_trader.Book.Sound.{
  IsSound, IsFiled, IsLevelWrite, IsOrderWrite, open_of, order_write_other, order_write_self,
  Distinct, total, total_changed, total_other,
}
use quanta_trader.Book.Sound.Crossing.{IsApart, IsUncrossed-write_apart}
use quanta_trader.Book.Sound.Link.{
  IsTarget, with_order, loosen-IsSound, rewrite-IsSound, link-IsSound,
}
use quanta_trader.Book.Progress.{
  orders_of, shelves_of, activity, weight, IsLive, IsWellFormed, HasRoom,
}
use quanta_trader.Book.Progress.Writes.{
  set_levels-IsAscending, put_level-write, emplace_levels-write, IsLevelWrite-twice, emplace-write,
  same_levels_refl,
}

-- The map of an order's type and side is one of its side.
pub same_side-levels_for :
    (t : OrderType) (s : OrderSide) → same_side s (level_side (levels_for t s)) ≡ true
same_side-levels_for t s = ground arith

module _ (k : LevelsName) (price : ℕ) (order : Order) (b : PriceLevelOrderBook) where
  abbrev pub entry : OrderWithLevelIterator
  entry = record { order = order; level_it = record { levels = k; price = price } }

  abbrev pub fresh_level : Level
  fresh_level = new_level price (level_side k) b.symbol_id

  abbrev emplaced : PriceLevelOrderBook
  emplaced = set_levels k (emplace price fresh_level (b.levels k)) b

  abbrev pub stored_book : PriceLevelOrderBook
  stored_book = record emplaced { orders = emplace order.id entry b.orders }

  abbrev pub inserted : Level → PriceLevelOrderBook
  inserted level =
      put_level (record { levels = k; price = price }) (with_order order order.id level) stored_book

  module _ (level : Level) (absent : find order.id b.orders ≡ none)
      (found : find price (emplace price fresh_level (b.levels k)) ≡ some level)
      (side : same_side order.side level.side ≡ true)
      (symbol : order.symbol_id ≡ level.symbol_id) where
    pub insert_at-done : insert_at k price order b ≡ done (inserted level)
    unfolding insert_at Level.add_order
    insert_at-done =
        let unused : contains order.id b.orders ≡ false = rw (absent, contains) in
        rw (unused, insert_at) (rw same_levels_refl (rw found (rw (side, symbol, ==_refl))))

  -- The level that the order goes to.
  pub target_level :
      IsSound [] b.symbol_id (orders_of b) (shelves_of b)
      → (level : Level) × IsTarget b.symbol_id k price (shelves_of b) level
        × (find price (emplace price fresh_level (b.levels k)) ≡ some level)
        × (level.side ≡ level_side k)
        × (level.symbol_id ≡ b.symbol_id)
  unfolding new_level
  target_level sound = elim (Option-cases (find price (b.levels k))) [
    | inl new ↦ (
      fresh_level,
      inr (new, refl),
      ground (arith, find-emplace_new price price fresh_level (b.levels k) new),
      refl,
      refl,
    )
    | inr (level, old) ↦
        let s = sound.stocked k price level old in
        (
          level,
          inl old,
          rw (emplace_old price fresh_level level (b.levels k) old) old,
          s.right_side,
          s.level_symbol,
        )
  ]

  -- What the insertion of an order leaves.
  abbrev pub IsInsertion : PriceLevelOrderBook → Type 0
  IsInsertion b' =
      IsWellFormed b'
      × (b'.symbol_id ≡ b.symbol_id)
      × ((j : ℕ) → (j == order.id) ≡ false → find j b'.orders ≡ find j b.orders)
      × (open_of (find order.id b'.orders) ≡ order.open_quantity)
      × (activity b' ≡ activity b + weight entry)

  module _ (w : IsWellFormed b) (absent : find order.id b.orders ≡ none)
      (room : HasRoom order.open_quantity b) (filed : IsFiled b.symbol_id order.id entry)
      (live : IsLive entry) (far : IsApart k price (shelves_of b)) where
    stored-write : IsOrderWrite order.id (some entry) (orders_of b) (orders_of stored_book)
    stored-write = emplace-write order.id entry b.orders absent

    stored_bound : (is : List ℕ) → Distinct is → total (orders_of stored_book) is < u64_mod
    stored_bound is d =
        let o : open_of (find order.id b.orders) ≡ 0 = ap open_of absent in
        let n : open_of (find order.id stored_book.orders) ≡ order.open_quantity =
          ap open_of (order_write_self stored-write) in
        elim (Bool-cases (linked order.id is)) [
          | inl here ↦ omega (
            arith,
            total_changed order.id (orders_of b) (orders_of stored_book)
                (order_write_other stored-write) is d here,
            room.room is d,
          )
          | inr free ↦ omega (
            arith,
            total_other order.id (orders_of b) (orders_of stored_book)
                (order_write_other stored-write) is free,
            room.room is d,
          )
        ]

    stored-IsSound : IsSound (order.id ∷ []) b.symbol_id (orders_of stored_book) (shelves_of b)
    stored-IsSound =
        rewrite-IsSound order.id entry (loosen-IsSound order.id w.sound absent) stored-write filed
          stored_bound

    inserted-IsAscending :
        (level : Level)
        → find price (emplace price fresh_level (b.levels k)) ≡ some level
        → (j : LevelsName) → IsAscending ((inserted level).levels j)
    inserted-IsAscending level found =
        let m = emplace price fresh_level (b.levels k) in
        let sorted = IsAscending-emplace price fresh_level (b.levels k) (w.ascending k) in
        set_levels-IsAscending k _ stored_book
          (rw same_levels_refl (IsAscending-put price _ level m found sorted))
          (set_levels-IsAscending k m b sorted w.ascending)

    module _ (level : Level) (target : IsTarget b.symbol_id k price (shelves_of b) level)
        (found : find price (emplace price fresh_level (b.levels k)) ≡ some level) where
      inserted-write :
          IsLevelWrite k price
            (some (with_order order order.id level))
            (shelves_of b)
            (shelves_of (inserted level))
      inserted-write =
          IsLevelWrite-twice (emplace_levels-write k price fresh_level level b found)
            (put_level-write k price (with_order order order.id level) stored_book)

      inserted-IsSound :
          IsSound [] b.symbol_id (orders_of (inserted level)) (shelves_of (inserted level))
      unfolding linked
      inserted-IsSound =
          link-IsSound order.id entry level stored-IsSound (order_write_self stored-write) refl
            target inserted-write

      inserted-IsLive :
          (j : ℕ) (f : OrderWithLevelIterator) → find j (inserted level).orders ≡ some f → IsLive f
      inserted-IsLive j f h = elim (Bool-cases (j == order.id)) [
        | inl same ↦ ground (arith, stored-write.order_write j)
        | inr ne ↦ w.live j f (sym (order_write_other stored-write j ne) ∙ h)
      ]

      inserted-activity : activity (inserted level) ≡ activity b + weight entry
      unfolding activity
      inserted-activity = sum_by-emplace weight order.id entry b.orders absent

    -- An order that is not in the book, whose open quantity fits and which goes where it belongs, is
    -- inserted, and the book stays well-formed.
    pub insert_at-Returns : Returns (insert_at k price order b) IsInsertion
    insert_at-Returns =
        let (level, target, found, side, symbol) = target_level w.sound in
        let right : same_side order.side level.side ≡ true =
          rw (side, ← filed.right_levels) (same_side-levels_for order.type order.side) in
        rw (insert_at-done level absent found right (filed.same_symbol ∙ sym symbol)) (
          record {
            sound = inserted-IsSound level target found;
            ascending = inserted-IsAscending level found;
            uncrossed =
                IsUncrossed-write_apart w.uncrossed k price (inserted-write level target found) far;
            live = inserted-IsLive level target found;
          },
          refl,
          order_write_other stored-write,
          ap open_of (order_write_self stored-write),
          inserted-activity level target found,
        )
