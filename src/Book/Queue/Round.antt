-- ===== src/Book/Queue/Round.antt =====
-- A round of the loop of `match` on a book without stop orders takes from the head of the queue.
use quanta_trader.Common.{
  ℕ, ◌-◌, ◌<◌, ◌≤◌, ◌≡◌, ◌⊎◌, sym, subst, ◌∙◌, ap, inl, inr, arith, true, false, ◌==◌, Bool-cases,
  some, List, ◌∷◌, is_empty, Outcome, done, Returns,
}
use quanta_trader.Common.Maps.{Map, find}
use quanta_trader.Order.{Order, OrderSide}
use quanta_trader.Level
use quanta_trader.Level.{Level, unlink}
use quanta_trader.Book.State.{
  PriceLevelOrderBook, LevelsName, OrderWithLevelIterator, levels_value, same_levels,
}
use quanta_trader.Book.Remove.{delete_order, remove_order}
use quanta_trader.Book.Match.{settle_front, opposite}
use quanta_trader.Book.Progress.{orders_of, IsWellFormed}
use quanta_trader.Book.Progress.Reduction
use quanta_trader.Book.Progress.Reduction.{IsReduction}
use quanta_trader.Book.Progress.Matching.{IsTrade}
use quanta_trader.Book.Queue.{Resting, flatten, queue, ranked}
use quanta_trader.Book.Queue.Ranked.{IsHead}
use quanta_trader.Book.Queue.Quiet.{HasNoStops, quiet}
use quanta_trader.Book.Queue.Front
use quanta_trader.Book.Queue.Front.{before_trade}

-- Of the maps only the one that the order is matched with has changed, and the queue is `rs`.
pub record IsNext (side : OrderSide) (b b' : PriceLevelOrderBook) (price : ℕ) (rs : List Resting)
    : Type 0 where
  pub new_queue : queue side b' ≡ rs
  pub new_price : b'.last_traded_price ≡ price
  pub others_kept :
      (j : LevelsName) → same_levels j (opposite side) ≡ false → b'.levels j ≡ b.levels j

-- The head `r` of the queue is taken whole, or the order is filled by a part of it.
abbrev pub IsServed :
    OrderSide
    → Order
    → PriceLevelOrderBook
    → Resting
    → List Resting
    → Order × PriceLevelOrderBook
    → Type 0
IsServed side o b r rs (o', b') =
    ((o.open_quantity < r.open_quantity)
      × (o'.open_quantity ≡ 0)
      × IsNext side b b' r.price
          (record r { open_quantity = r.open_quantity - o.open_quantity } ∷ rs))
    ⊎ ((r.open_quantity ≤ o.open_quantity)
        × (o'.open_quantity ≡ o.open_quantity - r.open_quantity)
        × IsNext side b b' r.price rs)

opposite_light :
    (j : LevelsName) (side : OrderSide) → 2 ≤ levels_value j → same_levels j (opposite side) ≡ false
opposite_light j side h = ground arith

-- A book that differs from one without stop orders in the map of the other side.
pub HasNoStops-next :
    (side : OrderSide) (b b' : PriceLevelOrderBook)
    → HasNoStops b
    → ((j : LevelsName) → same_levels j (opposite side) ≡ false → b'.levels j ≡ b.levels j)
    → HasNoStops b'
HasNoStops-next side b b' h same = record {
  no_stops = λ j stops. same j (opposite_light j side stops) ∙ h.no_stops j stops;
}

module _ (activate : PriceLevelOrderBook → Outcome PriceLevelOrderBook)
    (silent : (b : PriceLevelOrderBook) → HasNoStops b → activate b ≡ done (quiet b))
    (b : PriceLevelOrderBook) (w : IsWellFormed b) (calm : HasNoStops b) (i : ℕ)
    (e : OrderWithLevelIterator) (level : Level) (stored : find i b.orders ≡ some e)
    (at_level : find e.level_it.price (b.levels e.level_it.levels) ≡ some level) (side : OrderSide)
    (right : e.level_it.levels ≡ opposite side) (rest : Map Level)
    (head : IsHead side (b.levels e.level_it.levels) e.level_it.price level rest) (is : List ℕ)
    (first : level.orders ≡ i ∷ is) (o o' r' : Order) (b₁ : PriceLevelOrderBook)
    (trade : IsTrade o e.order b o' r' b₁) (priced : e.order.price ≡ e.level_it.price) where
  abbrev amount : ℕ
  amount = r'.last_executed_quantity

  abbrev settled : PriceLevelOrderBook
  settled = Reduction.settled b w i e level stored at_level r' amount b₁ trade.reduction

  abbrev without : PriceLevelOrderBook
  without =
      Front.without b w i e level stored at_level side rest head is first r' amount b₁
        trade.reduction

  abbrev behind : List Resting
  behind = Front.behind b w i e level stored at_level side rest head is first

  abbrev top : Resting
  top = record { id = i; price = e.level_it.price; open_quantity = e.order.open_quantity }

  pub before : queue side b ≡ top ∷ behind
  before =
      ap (λ k. flatten (orders_of b) (ranked side (b.levels k))) (sym right)
      ∙ before_trade b w i e level stored at_level side rest head is first

  settled_kept :
      (j : LevelsName) → same_levels j (opposite side) ≡ false → settled.levels j ≡ b.levels j
  settled_kept j other =
      let d = trade.reduction in
      let away : same_levels j e.level_it.levels ≡ false = rw right other in
      rw away (rw d.same_levels)

  without_kept :
      (j : LevelsName) → same_levels j (opposite side) ≡ false → without.levels j ≡ b.levels j
  without_kept j other =
      let away : same_levels j e.level_it.levels ≡ false = rw right other in
      elim (Bool-cases (is_empty (unlink i level.orders))) [
        | inl gone ↦ rw gone (rw away (ap (λ f. f j) trade.reduction.same_levels))
        | inr stays ↦ rw stays (rw away (ap (λ f. f j) trade.reduction.same_levels))
      ]

  without_price : without.last_traded_price ≡ b₁.last_traded_price
  without_price = elim (Bool-cases (is_empty (unlink i level.orders))) [
    | inl gone ↦ rw gone
    | inr stays ↦ rw stays
  ]

  price_left : b₁.last_traded_price ≡ e.level_it.price
  price_left = trade.at_price ∙ priced

  settle_front-kept :
      (r'.open_quantity == 0) ≡ false
      → settle_front activate e.level_it level i e (o', r', b₁) ≡ done (o', settled)
  unfolding settle_front Level.reduce_volume
  settle_front-kept some_open = rw (
    Reduction.settled_volume b w i e level stored at_level r' amount b₁ trade.reduction,
    some_open,
  )

  settle_front-taken :
      (r'.open_quantity == 0) ≡ true
      → settle_front activate e.level_it level i e (o', r', b₁) ≡ done (o', quiet without)
  unfolding settle_front Level.reduce_volume delete_order
  settle_front-taken zero_open =
      let named : r'.id ≡ i =
        trade.reduction.resting.same_id ∙ (w.sound.filed i e stored).same_id in
      let removes =
        Front.remove_order-settled b w i e level stored at_level side rest head is first r' amount
          b₁ trade.reduction in
      let removes' : remove_order r'.id settled ≡ done without =
        subst (λ x. remove_order x settled ≡ done without) (sym named) removes in
      let silenced = silent without (HasNoStops-next side b without calm without_kept) in
      rw (
        Reduction.settled_volume b w i e level stored at_level r' amount b₁ trade.reduction,
        zero_open,
        removes',
        silenced,
      )

  -- A round serves the order from the head of the queue.
  pub settle_front-IsServed :
      Returns
        (settle_front activate e.level_it level i e (o', r', b₁))
        (IsServed side o b top behind)
  settle_front-IsServed =
      let d = trade.reduction in
      elim (Bool-cases (r'.open_quantity == 0)) [
        | inr some_open ↦ rw (settle_front-kept some_open) (
            inl (
              ground (arith, trade.spent, d.taken, trade.filled),
              ground (arith, trade.filled),
              record {
                new_queue =
                    ap (λ k. flatten (orders_of settled) (ranked side (settled.levels k)))
                      (sym right)
                    ∙ Front.after_trade b w i e level stored at_level side rest head is first r'
                        amount b₁ d
                    ∙ ap
                        (λ q.
                          record { id = i; price = e.level_it.price; open_quantity = q } ∷ behind)
                        (ground (arith, trade.spent, d.taken, trade.filled));
                new_price = price_left;
                others_kept = settled_kept;
              },
            ))
        | inl zero_open ↦ rw (settle_front-taken zero_open) (
            inr (
              ground (arith, trade.spent, d.taken),
              ground (arith, trade.spent, d.taken),
              record {
                new_queue =
                    ap (λ k. flatten (orders_of without) (ranked side (without.levels k)))
                      (sym right)
                    ∙ Front.after_removal b w i e level stored at_level side rest head is first r'
                        amount b₁ d;
                new_price = without_price ∙ price_left;
                others_kept = without_kept;
              },
            ))
      ]
