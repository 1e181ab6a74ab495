-- ===== src/Book/Queue/Joining.antt =====
-- An order that comes to rest in a book, in the two queues of the book: `insertLimitOrder`.
use quanta_trader.Common.{
  ℕ, ◌≡◌, refl, sym, ◌∙◌, ap, arith, true, false, ◌==◌, Bool-cases, inl, inr, none, some, [], ◌∷◌,
  Returns,
}
use quanta_trader.Common.Maps.{
  Map, find, put, emplace, emplace_old, emplace_new, put-insert_sorted, find-emplace_new,
}
use quanta_trader.Order.{Order, OrderSide, sell, buy, limit}
use quanta_trader.Level.{Level, linked, new_level, same_side}
use quanta_trader.Book.State.{PriceLevelOrderBook, LevelsName, same_levels}
use quanta_trader.Book.Insert.{insert_limit_order}
use quanta_trader.Book.Remove.{levels_for}
use quanta_trader.Book.Match.{opposite}
use quanta_trader.Book.Sound.{Orders}
use quanta_trader.Book.Sound.Link.{IsTarget, with_order}
use quanta_trader.Book.Progress.{orders_of, shelves_of, IsWellFormed, HasRoom}
use quanta_trader.Book.Progress.Insertion.{
  entry, fresh_level, inserted, insert_at-done, target_level, same_side-levels_for,
}
use quanta_trader.Book.Progress.Writes.{same_levels_refl}
use quanta_trader.Book.Progress.Matching.{insert_limit_order-at}
use quanta_trader.Book.Queue.{queue, ranked, flatten}
use quanta_trader.Book.Queue.Front.{entries_other}
use quanta_trader.Book.Queue.Arrival.{enqueue, arrival, facing}
use quanta_trader.Book.Queue.Levels.{AllLevels, AllLevels-found, AllLevels-ranked}
use quanta_trader.Book.Queue.Newest.{put-ranked, insert-ranked}

-- The level links other orders.
abbrev IsFree : ℕ → ℕ × Level → Type 0
IsFree i x = linked i x.1.orders ≡ false

flatten-same :
    (i : ℕ) (orders orders' : Orders)
    → ((j : ℕ) → (j == i) ≡ false → orders' j ≡ orders j)
    → (m : Map Level) → AllLevels (IsFree i) m
    → flatten orders' m ≡ flatten orders m
flatten-same i orders orders' same [] h = refl
flatten-same i orders orders' same (x ∷ m) (e, h) =
    rw
      (entries_other i orders orders' same x.0 x.1.orders e, flatten-same i orders orders' same m h)

module _ (k : LevelsName) (price : ℕ) (order : Order) (b : PriceLevelOrderBook) (w : IsWellFormed b)
    (absent : find order.id b.orders ≡ none) where
  abbrev i : ℕ
  i = order.id

  module _ (level : Level) (side : OrderSide) where
    abbrev after : PriceLevelOrderBook
    after = inserted k price order b level

    stored : find i after.orders ≡ some (entry k price order b)
    stored = ground (arith, find-emplace_new i i (entry k price order b) b.orders absent)

    after_other : (j : ℕ) → (j == i) ≡ false → find j after.orders ≡ find j b.orders
    after_other j ne = ground (arith, find-emplace_new j i (entry k price order b) b.orders absent)

    free : (j : LevelsName) → AllLevels (IsFree i) (b.levels j)
    free j = AllLevels-found (IsFree i) (b.levels j) (w.ascending j) λ q l found.
        elim (Bool-cases (linked i l.orders)) [
          | inl link ↦
              let (e, there, _, _, _) = w.sound.member j q l i found link in absurd (ground arith)
          | inr not_linked ↦ not_linked
        ]

    -- The levels under a name, with the orders that are stored now.
    as_before :
        (j : LevelsName)
        → flatten (orders_of after) (ranked side (b.levels j))
          ≡ flatten (orders_of b) (ranked side (b.levels j))
    as_before j =
        flatten-same i (orders_of b) (orders_of after) after_other (ranked side (b.levels j))
          (AllLevels-ranked (IsFree i) side (b.levels j) (free j))

    unmet_queue : same_levels (opposite side) k ≡ false → queue side after ≡ queue side b
    unmet_queue ne = rw ne (as_before (opposite side))

    own_levels :
        after.levels k
        ≡ put price
            (with_order order i level)
            (emplace price (fresh_level k price order b) (b.levels k))
    own_levels = rw same_levels_refl

    grown :
        IsTarget b.symbol_id k price (shelves_of b) level
        → flatten (orders_of after) (ranked side (after.levels k))
          ≡ enqueue side
              (arrival (orders_of after) price i)
              (flatten (orders_of after) (ranked side (b.levels k)))
    unfolding new_level
    grown (inl old) =
        ap (λ m. flatten (orders_of after) (ranked side m))
          (own_levels
            ∙ ap (put price (with_order order i level))
                (emplace_old price (fresh_level k price order b) level (b.levels k) old))
        ∙ put-ranked (orders_of after) price i (with_order order i level) level refl side
            (b.levels k) old (w.ascending k)
    grown (inr (new, fresh)) =
        ap (λ m. flatten (orders_of after) (ranked side m))
          (own_levels
            ∙ ap (put price (with_order order i level))
                (emplace_new price (fresh_level k price order b) (b.levels k) new)
            ∙ put-insert_sorted price (fresh_level k price order b) (with_order order i level)
                (b.levels k) new)
        ∙ insert-ranked (orders_of after) price i (with_order order i level) (rw fresh refl) side
            (b.levels k) new (w.ascending k)

    grown_queue :
        IsTarget b.symbol_id k price (shelves_of b) level
        → opposite side ≡ k
        → queue side after
          ≡ enqueue side
              (record { id = i; price = price; open_quantity = order.open_quantity })
              (queue side b)
    grown_queue target meets = rw meets (
        grown target
        ∙ ap (enqueue side (arrival (orders_of after) price i)) (as_before k)
        ∙ rw stored)

meets-facing : (side : OrderSide) → opposite (facing side) ≡ levels_for limit side
meets-facing sell = refl
meets-facing buy = refl

meets-other : (side : OrderSide) → same_levels (opposite side) (levels_for limit side) ≡ false
meets-other sell = refl
meets-other buy = refl

-- The order stands in the queue of its side at its place, and nothing else has changed.
pub record IsJoined (order : Order) (b b' : PriceLevelOrderBook) : Type 0 where
  pub joined_queue :
      queue (facing order.side) b'
      ≡ enqueue
          (facing order.side)
          (record { id = order.id; price = order.price; open_quantity = order.open_quantity })
          (queue (facing order.side) b)
  pub other_queue : queue order.side b' ≡ queue order.side b
  pub same_price : b'.last_traded_price ≡ b.last_traded_price
  pub others_kept :
      (j : LevelsName)
      → same_levels j (levels_for limit order.side) ≡ false
      → b'.levels j ≡ b.levels j

-- An order that is not in a well-formed book of its symbol, and whose open quantity fits, is
-- inserted by `insertLimitOrder`: in the queue that incoming orders of the other side meet it stands
-- behind all orders of its price or a better one and before all others, which keep their order and
-- their open quantities. The queue that incoming orders of its own side meet is as it was, and so
-- are the last traded price and the levels of the other maps.
pub insert_limit_order-enqueues :
    (order : Order) (b : PriceLevelOrderBook)
    → IsWellFormed b
    → find order.id b.orders ≡ none
    → HasRoom order.open_quantity b
    → order.symbol_id ≡ b.symbol_id
    → Returns (insert_limit_order order b) (IsJoined order b)
insert_limit_order-enqueues order b w absent room symbol =
    let k = levels_for limit order.side in
    let (level, target, found, side, symbol') = target_level k order.price order b w.sound in
    let right : same_side order.side level.side ≡ true =
      rw side (same_side-levels_for limit order.side) in
    rw
      (
        insert_limit_order-at order b,
        insert_at-done k order.price order b level absent found right (symbol ∙ sym symbol'),
      )
      (record {
        joined_queue =
            grown_queue k order.price order b w absent level (facing order.side) target
              (meets-facing order.side);
        other_queue =
            unmet_queue k order.price order b w absent level order.side (meets-other order.side);
        same_price = refl;
        others_kept = λ j ne. rw ne;
      })
