-- ===== src/Book/Progress/Removal.antt =====
-- `deleteOrder` up to its call of `activateStopOrders`.
use quanta_trader.Common.{
  ℕ, ◌+◌, ◌≤◌, ◌≡◌, refl, sym, ◌∙◌, ap, ◌⊎◌, inl, inr, arith, true, false, ◌==◌, if◌then◌else◌,
  Bool-cases, none, some, List, [], ◌∷◌, is_empty, sub64, done, Returns,
}
use quanta_trader.Common.Maps.{find, put, erase, sum_by-erase}
use quanta_trader.Common.Maps.Ascending.{IsAscending, IsAscending-put, IsAscending-erase}
use quanta_trader.Level
use quanta_trader.Level.{Level, linked, unlink}
use quanta_trader.Event.{order_deleted}
use quanta_trader.Book.State.{
  PriceLevelOrderBook, LevelsName, OrderWithLevelIterator, notify, put_level, set_levels,
}
use quanta_trader.Book.Remove.{remove_order, erase_level}
use quanta_trader.Book.Sound.{
  IsSound, IsLevelWrite, IsOrderWrite, open_of, order_write_other, order_write_self, Distinct,
  total, total_changed, total_other,
}
use quanta_trader.Book.Sound.Crossing.{IsUncrossed, IsUncrossed-write}
use quanta_trader.Book.Sound.Unlink.{without, unlink-IsSound, erase-IsSound}
use quanta_trader.Book.Progress.{
  orders_of, shelves_of, activity, weight, IsLive, IsWellFormed, IsProgress, HasRoom,
}
use quanta_trader.Book.Progress.Writes.{
  set_levels-IsAscending, put_level-write, erase_levels-write, IsLevelWrite-twice, erase-write,
  same_levels_refl,
}

-- The book once the order has left its level, before and after an empty level is dropped.
abbrev pub left_level : ℕ → OrderWithLevelIterator → Level → Level
left_level i e level = record level {
  volume = sub64 level.volume e.order.open_quantity;
  orders = unlink i level.orders;
}

abbrev pub levelled : ℕ → OrderWithLevelIterator → Level → PriceLevelOrderBook → PriceLevelOrderBook
levelled i e level b =
    put_level e.level_it (left_level i e level) (notify (order_deleted e.order) b)

abbrev pub unlinked : ℕ → OrderWithLevelIterator → Level → PriceLevelOrderBook → PriceLevelOrderBook
unlinked i e level b =
    let b₁ = levelled i e level b in
    if is_empty (unlink i level.orders)
    then set_levels e.level_it.levels (erase e.level_it.price (b₁.levels e.level_it.levels)) b₁
    else b₁

abbrev pub removed : ℕ → OrderWithLevelIterator → Level → PriceLevelOrderBook → PriceLevelOrderBook
removed i e level b = record (unlinked i e level b) {
  orders = erase i (unlinked i e level b).orders;
}

module _ (b : PriceLevelOrderBook) (sound : IsSound [] b.symbol_id (orders_of b) (shelves_of b))
    (ascending : (k : LevelsName) → IsAscending (b.levels k))
    (uncrossed : IsUncrossed (shelves_of b)) (i : ℕ) (e : OrderWithLevelIterator)
    (stored : find i b.orders ≡ some e) where
  module _ (level : Level)
      (at_level : find e.level_it.price (b.levels e.level_it.levels) ≡ some level)
      (link : linked i level.orders ≡ true) where
    pub remove_order-done : remove_order i b ≡ done (removed i e level b)
    unfolding remove_order Level.delete_order erase_level
    remove_order-done =
        let f = sound.filed i e stored in
        elim (Bool-cases (is_empty (unlink i level.orders))) [
          | inl gone ↦
              rw (stored, at_level, f.same_id, link, gone, f.right_levels, same_levels_refl)
          | inr stays ↦ rw (stored, at_level, f.same_id, link, stays)
        ]

    unlinked_orders :
        ((unlinked i e level b).orders ≡ b.orders)
        × ((unlinked i e level b).symbol_id ≡ b.symbol_id)
    unlinked_orders = elim (Bool-cases (is_empty (unlink i level.orders))) [
      | inl gone ↦ (rw gone, rw gone)
      | inr stays ↦ (rw stays, rw stays)
    ]

    levelled-write :
        IsLevelWrite e.level_it.levels e.level_it.price
          (some (left_level i e level))
          (shelves_of b)
          (shelves_of (levelled i e level b))
    levelled-write =
        put_level-write e.level_it.levels e.level_it.price (left_level i e level)
          (notify (order_deleted e.order) b)

    unlinked-write :
        IsLevelWrite e.level_it.levels e.level_it.price
          (without e.order i level)
          (shelves_of b)
          (shelves_of (unlinked i e level b))
    unlinked-write = elim (Bool-cases (is_empty (unlink i level.orders))) [
      | inl gone ↦ rw gone (
          IsLevelWrite-twice levelled-write
            (erase_levels-write e.level_it.levels e.level_it.price (levelled i e level b)))
      | inr stays ↦ rw stays levelled-write
    ]

    pub removed-write : IsOrderWrite i none (orders_of b) (orders_of (removed i e level b))
    removed-write = rw (unlinked_orders.0) (erase-write i b.orders)

    removed-IsSound :
        IsSound [] b.symbol_id (orders_of (removed i e level b)) (shelves_of (removed i e level b))
    unfolding linked
    removed-IsSound =
        erase-IsSound i (unlink-IsSound sound i e level stored refl at_level unlinked-write) refl
          removed-write

    removed-shrinks :
        (j : ℕ) → open_of (find j (removed i e level b).orders) ≤ open_of (find j b.orders)
    removed-shrinks j = elim (Bool-cases (j == i)) [
      | inl same ↦ ground (arith, removed-write.order_write j)
      | inr ne ↦ ground (arith, removed-write.order_write j)
    ]

    removed-activity : activity (removed i e level b) + weight e ≤ activity b
    unfolding activity
    removed-activity = rw (unlinked_orders.0) (sum_by-erase weight i e b.orders stored)

    levelled-IsAscending : (k : LevelsName) → IsAscending ((levelled i e level b).levels k)
    levelled-IsAscending =
        set_levels-IsAscending e.level_it.levels
          (put e.level_it.price (left_level i e level) (b.levels e.level_it.levels))
          (notify (order_deleted e.order) b)
          (IsAscending-put e.level_it.price (left_level i e level) level
            (b.levels e.level_it.levels) at_level (ascending e.level_it.levels))
          ascending

    unlinked-IsAscending : (k : LevelsName) → IsAscending ((unlinked i e level b).levels k)
    unlinked-IsAscending = elim (Bool-cases (is_empty (unlink i level.orders))) [
      | inl gone ↦ rw gone (
          set_levels-IsAscending e.level_it.levels
            (erase e.level_it.price ((levelled i e level b).levels e.level_it.levels))
            (levelled i e level b)
            (IsAscending-erase e.level_it.price ((levelled i e level b).levels e.level_it.levels)
              (levelled-IsAscending e.level_it.levels))
            levelled-IsAscending)
      | inr stays ↦ rw stays levelled-IsAscending
    ]

    removed-WellFormed :
        ((j : ℕ) (f : OrderWithLevelIterator)
          → find j b.orders ≡ some f
          → (j == i) ≡ false
          → IsLive f)
        → IsWellFormed (removed i e level b)
    removed-WellFormed others = record {
      sound = rw unlinked_orders.1 removed-IsSound;
      ascending = unlinked-IsAscending;
      uncrossed =
          IsUncrossed-write uncrossed e.level_it.levels e.level_it.price level unlinked-write
            at_level;
      live = λ j f h. elim (Bool-cases (j == i)) [
        | inl same ↦ absurd (ground (arith, removed-write.order_write j))
        | inr ne ↦ others j f (sym (order_write_other removed-write j ne) ∙ h) ne
      ];
    }

    removed-IsProgress : IsProgress b (removed i e level b)
    removed-IsProgress = record {
      same_symbol = unlinked_orders.1;
      none_new = λ j h. ground (arith, removed-write.order_write j);
      shrinks = removed-shrinks;
      calmer = omega (arith, removed-activity);
    }

    removed_room :
        (is : List ℕ)
        → Distinct is
        → (total (orders_of (removed i e level b)) is + e.order.open_quantity
            ≤ total (orders_of b) is)
          ⊎ (linked i is ≡ false)
    removed_room is d = elim (Bool-cases (linked i is)) [
      | inr free ↦ inr free
      | inl in_list ↦
          let t =
            total_changed i (orders_of b) (orders_of (removed i e level b))
              (order_write_other removed-write) is d in_list in
          let o : open_of (find i b.orders) ≡ e.order.open_quantity = ap open_of stored in
          let n : open_of (find i (removed i e level b).orders) ≡ 0 =
            ap open_of (order_write_self removed-write) in
          inl (omega arith)
    ]

    removed-HasRoom : HasRoom e.order.open_quantity (removed i e level b)
    unfolding linked
    removed-HasRoom = record {
      room = λ is d. elim (removed_room is d) [
        | inl le ↦ omega (arith, sound.bounded is d)
        | inr free ↦
            let o : open_of (find i b.orders) ≡ e.order.open_quantity = ap open_of stored in
            let t =
              total_other i (orders_of b) (orders_of (removed i e level b))
                (order_write_other removed-write) is free in
            omega (arith, sound.bounded (i ∷ is) (free, d))
      ];
    }

  -- What `remove_order` leaves.
  abbrev pub IsRemoval : PriceLevelOrderBook → Type 0
  IsRemoval b' =
      IsWellFormed b'
      × IsProgress b b'
      × (find i b'.orders ≡ none)
      × (activity b' + weight e ≤ activity b)
      × HasRoom e.order.open_quantity b'

  -- Taking out an order that the book has returns a well-formed book without it, if every other
  -- limit order has something left open.
  pub remove_order-Returns :
      ((j : ℕ) (f : OrderWithLevelIterator)
        → find j b.orders ≡ some f
        → (j == i) ≡ false
        → IsLive f)
      → Returns (remove_order i b) IsRemoval
  unfolding linked
  remove_order-Returns others =
      let (level, at_level, link) = sound.placed i e stored refl in
      rw (remove_order-done level at_level link) (
        removed-WellFormed level at_level link others,
        removed-IsProgress level at_level link,
        order_write_self (removed-write level at_level link),
        removed-activity level at_level link,
        removed-HasRoom level at_level link,
      )
