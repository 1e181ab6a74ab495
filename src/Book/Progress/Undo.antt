-- ===== src/Book/Progress/Undo.antt =====
-- Deleting an order that has just been inserted: `deleteOrder` after `insertLimitOrder`,
-- `insertStopOrder` or `insertTrailingStopOrder`.
use quanta_trader.Common.{
  ℕ, ◌<◌, ◌≡◌, refl, sym, ◌∙◌, ap, fun_ext, inl, inr, arith, true, false, if◌then◌else◌, Bool-cases,
  none, some, [], ◌∷◌, ◌++◌, is_empty, u64_mod, sub64-add64, Outcome, done, ◌>>=◌,
}
use quanta_trader.Common.Maps.{
  Map, find, put, erase, emplace, emplace_old, find-put, find-emplace_new, put_twice, put_same,
  erase-put, erase-emplace_new,
}
use quanta_trader.Order.{Order}
use quanta_trader.Level
use quanta_trader.Level.{Level, linked, new_level, same_side}
use quanta_trader.Event.{order_deleted}
use quanta_trader.Book.State.{
  PriceLevelOrderBook, LevelsName, LevelIterator, same_levels, set_levels, put_level, notify,
}
use quanta_trader.Book.Insert.{insert_at}
use quanta_trader.Book.Remove.{erase_level, remove_order, delete_order}
use quanta_trader.Book.Sound.{IsFiled, linked-add, unlink-add, same_levels-eq}
use quanta_trader.Book.Sound.Link.{IsTarget, with_order}
use quanta_trader.Book.Progress.{shelves_of, IsWellFormed, HasRoom}
use quanta_trader.Book.Progress.Insertion.{
  entry, fresh_level, inserted, insert_at-done, target_level, same_side-levels_for,
}
use quanta_trader.Book.Progress.Writes.{same_levels_refl}

-- A level gets the order at its end and loses it again.
relink :
    (order : Order) (level : Level)
    → linked order.id level.orders ≡ false
    → level.volume < u64_mod
    → order.open_quantity < u64_mod
    → Level.delete_order order (with_order order order.id level) ≡ done level
unfolding Level.delete_order
relink order level free small fits =
    let link : linked order.id (level.orders ++ order.id ∷ []) ≡ true =
      ground (arith, linked-add order.id order.id level.orders) in
    rw (
      link,
      unlink-add order.id level.orders free,
      sub64-add64 level.volume order.open_quantity small fits,
    )

-- Two levels maps that agree under every name but one, which is written last.
levels-restored :
    (k : LevelsName) (m : Map Level) (f g : LevelsName → Map Level)
    → m ≡ g k
    → ((j : LevelsName) → same_levels j k ≡ false → f j ≡ g j)
    → (λ (j : LevelsName). if same_levels j k then m else f j) ≡ g
levels-restored k m f g self other = fun_ext λ j. elim (Bool-cases (same_levels j k)) [
  | inl same ↦ rw same (self ∙ ap g (sym (same_levels-eq j k same)))
  | inr ne ↦ rw ne (other j ne)
]

module _ (k : LevelsName) (price : ℕ) (order : Order) (b : PriceLevelOrderBook) where
  abbrev it : LevelIterator
  it = record { levels = k; price = price }

  erase-done :
      (b' : PriceLevelOrderBook)
      → erase_level k it b' ≡ done (set_levels k (erase price (b'.levels k)) b')
  unfolding erase_level
  erase-done b' = rw same_levels_refl

  -- The book with the order in its level, and what `deleteOrder` makes of it before it looks at the
  -- level's list.
  abbrev filled : Level → PriceLevelOrderBook
  filled level = inserted k price order b level

  abbrev emptied : Level → PriceLevelOrderBook
  emptied level = put_level it level (notify (order_deleted order) (filled level))

  module _ (absent : find order.id b.orders ≡ none) where
    orders-restored : erase order.id (emplace order.id (entry k price order b) b.orders) ≡ b.orders
    orders-restored = erase-emplace_new order.id (entry k price order b) b.orders absent

    same_book :
        (levels : LevelsName → Map Level)
        → levels ≡ b.levels
        → record (emptied (fresh_level k price order b)) {
          orders = erase order.id (emplace order.id (entry k price order b) b.orders);
          levels = levels;
        }
          ≡ notify (order_deleted order) b
    same_book levels h = rw (h, orders-restored)

    other_levels :
        (level : Level) (j : LevelsName)
        → same_levels j k ≡ false
        → (filled level).levels j ≡ b.levels j
    other_levels level j ne = rw ne

    -- The level was there: it is as it was.
    old_levels :
        (level : Level) → find price (b.levels k) ≡ some level → (emptied level).levels ≡ b.levels
    old_levels level old =
        levels-restored k _ (filled level).levels b.levels
          (rw same_levels_refl (
            rw (emplace_old price (fresh_level k price order b) level (b.levels k) old) (
              rw (put_twice price (with_order order order.id level) level (b.levels k))
                (put_same price level (b.levels k) old))))
          (other_levels level)

    -- The level is a new one: it is erased.
    new_levels :
        (level : Level)
        → find price (b.levels k) ≡ none
        → (set_levels k (erase price ((emptied level).levels k)) (emptied level)).levels ≡ b.levels
    new_levels level new =
        let m = emplace price (fresh_level k price order b) (b.levels k) in
        levels-restored k _ (emptied level).levels b.levels
          (rw same_levels_refl (
            erase-put price level (put price (with_order order order.id level) m)
            ∙ erase-put price (with_order order order.id level) m
            ∙ erase-emplace_new price (fresh_level k price order b) (b.levels k) new))
          (λ j ne. rw ne)

    module _ (level : Level) (filed : IsFiled b.symbol_id order.id (entry k price order b))
        (free : linked order.id level.orders ≡ false) (small : level.volume < u64_mod)
        (fits : order.open_quantity < u64_mod) where
      remove_filled : remove_order order.id (filled level) ≡ (
          (if is_empty level.orders then erase_level k it (emptied level) else done (emptied level))
          >>= λ b'. done (record b' { orders = erase order.id b'.orders }))
      unfolding remove_order
      remove_filled =
          let e = entry k price order b in
          let stored : find order.id (emplace order.id e b.orders) ≡ some e =
            ground (arith, find-emplace_new order.id order.id e b.orders absent) in
          let m = emplace price (fresh_level k price order b) (b.levels k) in
          let there : find price (put price (with_order order order.id level) m)
              ≡ some (with_order order order.id level) =
            ground (arith, find-put price price (with_order order order.id level) m) in
          rw (
            stored,
            same_levels_refl,
            there,
            relink order level free small fits,
            filed.right_levels,
          )

  module _ (w : IsWellFormed b) (absent : find order.id b.orders ≡ none)
      (room : HasRoom order.open_quantity b)
      (filed : IsFiled b.symbol_id order.id (entry k price order b)) where
    fits : order.open_quantity < u64_mod
    fits = omega (arith, room.room [] tt)

    -- A level that is there does not link the order, and its volume is no overflow.
    old_level :
        (level : Level)
        → find price (b.levels k) ≡ some level
        → (linked order.id level.orders ≡ false) × (level.volume < u64_mod)
    old_level level old = (
      elim (Bool-cases (linked order.id level.orders)) [
        | inl link ↦
            let (e, stored, _, _, _) = w.sound.member k price level order.id old link in
            absurd (ground arith)
        | inr free ↦ free
      ],
      let d = (w.sound.stocked k price level old).distinct in
          omega (arith, w.sound.volume k price level old, w.sound.bounded level.orders d),
    )

    removed :
        (level : Level)
        → IsTarget b.symbol_id k price (shelves_of b) level
        → remove_order order.id (filled level) ≡ done (notify (order_deleted order) b)
    unfolding new_level linked
    removed level (inl old) =
        let (free, small) = old_level level old in
        let stocked = w.sound.stocked k price level old in
        remove_filled absent level filed free small fits
        ∙ rw stocked.nonempty (ap done (same_book absent _ (old_levels absent level old)))
    removed level (inr (new, fresh)) =
        remove_filled absent level filed (rw fresh refl) (rw fresh (omega arith)) fits
        ∙ (let bare : is_empty level.orders ≡ true = rw fresh refl in
            ap
              (λ (m : Outcome PriceLevelOrderBook).
                m >>= λ b'. done (record b' { orders = erase order.id b'.orders }))
              (ap (λ c. if c then erase_level k it (emptied level) else done (emptied level)) bare
                ∙ erase-done (emptied level))
            ∙ ap done (same_book absent _ (new_levels absent level new)))

    -- An order that is not in a well-formed book, whose open quantity fits and which goes where its
    -- type, side and prices say, may be inserted into its level and deleted again: up to the call of
    -- `activateStopOrders` with which a deletion ends, the book is the one that there was before, with
    -- one event more, that the order was deleted. A level that was added for the order is gone, and
    -- one that was there has its volume and its list back.
    pub insert_at-delete_order :
        (activate : PriceLevelOrderBook → Outcome PriceLevelOrderBook)
        → (insert_at k price order b >>= delete_order activate order.id)
          ≡ activate (notify (order_deleted order) b)
    unfolding delete_order
    insert_at-delete_order activate =
        let (level, target, found, side, symbol) = target_level k price order b w.sound in
        let right : same_side order.side level.side ≡ true =
          rw (side, ← filed.right_levels) (same_side-levels_for order.type order.side) in
        rw (
          insert_at-done k price order b level absent found right (filed.same_symbol ∙ sym symbol),
          removed level target,
        )
