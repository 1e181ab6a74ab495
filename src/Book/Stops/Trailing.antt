-- ===== src/Book/Stops/Trailing.antt =====
-- What `updateTrailingSellStopOrders` and `updateTrailingBuyStopOrders` make of each order.
use quanta_trader.Common.{
  ℕ, ◌≡◌, refl, sym, subst, ◌∙◌, ap, arith, inl, inr, true, false, ◌&&◌, ◌==◌, ==-eq, ==_refl,
  if◌then◌else◌, Bool-cases, Option-cases, some, List, [], ◌∷◌, is_empty, deref, Returns,
  Returns-Whenever, Whenever, Whenever->>=, Whenever-mono, Whenever-last,
}
use mathlib.Core.Option.{some-injective}
use quanta_trader.Common.Maps.{Map, find, emplace, find-put}
use quanta_trader.Order.{OrderSide, sell, buy}
use quanta_trader.Level
use quanta_trader.Level.{Level, linked}
use quanta_trader.Book.State.{
  PriceLevelOrderBook, OrderWithLevelIterator, LevelsName, same_levels, last_traded_buy_price,
  last_traded_sell_price,
}
use quanta_trader.Book.Prices.{market_price, calculate_stop_price}
use quanta_trader.Book.Insert.{level_side}
use quanta_trader.Book.Stops.{
  move_trailing, move_trailing_orders, move_trailing_levels, update_trailing_stop_orders,
  trailing_stop_levels, trailing_moves, set_trailing_price,
}
use quanta_trader.Book.Sound.{Distinct, same_levels-eq}
use quanta_trader.Book.Sound.Release.{all_ids, linked-all_ids, released-levels, released-Distinct}
use quanta_trader.Book.Progress.{IsWellFormed, IsProgress}
use quanta_trader.Book.Progress.Writes.{same_levels_refl}
use quanta_trader.Book.Progress.Trailing.{
  update_trailing_stop_orders-Returns, move_trailing_levels-all_ids, empties,
}

-- The order with the stop price that `calculateStopPrice` gives it now, and an iterator to the level
-- of that price.
abbrev pub retrailed :
    OrderSide → PriceLevelOrderBook → OrderWithLevelIterator → OrderWithLevelIterator
retrailed side b e = record {
  order = (calculate_stop_price e.order b).1;
  level_it = record {
    levels = trailing_stop_levels side;
    price = (calculate_stop_price e.order b).0;
  };
}

market_price-same :
    (s : OrderSide) (b b' : PriceLevelOrderBook)
    → b'.last_traded_price ≡ b.last_traded_price
    → market_price s b' ≡ market_price s b
unfolding market_price last_traded_buy_price last_traded_sell_price
market_price-same sell b b' same = same
market_price-same buy b b' same = rw same

retrailed_same :
    (side : OrderSide) (e : OrderWithLevelIterator) (b b' : PriceLevelOrderBook)
    → b'.last_traded_price ≡ b.last_traded_price
    → retrailed side b' e ≡ retrailed side b e
unfolding calculate_stop_price
retrailed_same side e b b' same = rw (market_price-same e.order.side b b' same)

-- One order has moved, and no other.
record HasMoved (side : OrderSide) (i : ℕ) (b b' : PriceLevelOrderBook) : Type 0 where
  same_price : b'.last_traded_price ≡ b.last_traded_price
  self :
      (e : OrderWithLevelIterator)
      → find i b.orders ≡ some e
      → find i b'.orders ≡ some (retrailed side b e)
  others : (j : ℕ) → (j == i) ≡ false → find j b'.orders ≡ find j b.orders

move_trailing-HasMoved :
    (side : OrderSide) (i : ℕ) (updated : Map Level) (b : PriceLevelOrderBook)
    → Whenever (move_trailing side i (updated, b)) (λ s. HasMoved side i b s.1)
unfolding move_trailing
move_trailing-HasMoved side i updated b = elim (Option-cases (find i b.orders)) [
  | inl missing ↦ rw missing tt
  | inr (e, stored) ↦
      let (price, order) = calculate_stop_price e.order b in
      let updated₁ =
        emplace price (Level.new_level price (level_side (trailing_stop_levels side)) b.symbol_id)
          updated in
      rw stored (
        Whenever-last _ (deref (find price updated₁)) _ λ level.
          Whenever-last _ (Level.add_order order level) _ λ level'. record {
            same_price = refl;
            self = λ f stored'.
                rw (find-put i i (retrailed side b e) b.orders, ==_refl)
                  (ap (λ x. some (retrailed side b x)) (some-injective _ _ (sym stored ∙ stored')));
            others = λ j other. ground (arith, find-put j i (retrailed side b e) b.orders);
          })
]

-- What the moves of a list leave of the order j.
module _ (side : OrderSide) (j : ℕ) where
  move_trailing_orders-others :
      (is : List ℕ) (updated : Map Level) (b : PriceLevelOrderBook)
      → linked j is ≡ false
      → Whenever
          (move_trailing_orders side is (updated, b))
          (λ s. find j s.1.orders ≡ find j b.orders)
  unfolding move_trailing_orders linked
  move_trailing_orders-others [] updated b away = refl
  move_trailing_orders-others (i ∷ is) updated b away =
      Whenever->>= _ (move_trailing side i (updated, b)) _ (move_trailing-HasMoved side i updated b)
        λ (updated', b') h.
          Whenever-mono _ (move_trailing_orders side is (updated', b'))
            (move_trailing_orders-others is updated' b' (ground arith))
            (λ s same. same ∙ h.others j (ground arith))

  move_trailing_orders_self :
      (is : List ℕ) (updated : Map Level) (b : PriceLevelOrderBook) (e : OrderWithLevelIterator)
      → Distinct is
      → linked j is ≡ true
      → find j b.orders ≡ some e
      → Whenever
          (move_trailing_orders side is (updated, b))
          (λ s. find j s.1.orders ≡ some (retrailed side b e))
  unfolding move_trailing_orders linked
  move_trailing_orders_self [] updated b e d here stored = cc
  move_trailing_orders_self (i ∷ is) updated b e (free, d) here stored =
      Whenever->>= _ (move_trailing side i (updated, b)) _ (move_trailing-HasMoved side i updated b)
        λ (updated', b') h. elim (Bool-cases (j == i)) [
          | inl same ↦
              let j-is = ==-eq j i same in
              Whenever-mono _ (move_trailing_orders side is (updated', b'))
                (move_trailing_orders-others is updated' b'
                  (subst (λ x. linked x is ≡ false) (sym j-is) free))
                (λ s kept.
                  kept
                  ∙ subst (λ x. find x b'.orders ≡ some (retrailed side b e)) (sym j-is)
                      (h.self e (subst (λ x. find x b.orders ≡ some e) j-is stored)))
          | inr other ↦
              Whenever-mono _ (move_trailing_orders side is (updated', b'))
                (move_trailing_orders_self is updated' b' e d (rw other at here)
                  (h.others j other ∙ stored))
                (λ s moved. moved ∙ ap some (retrailed_same side e b b' h.same_price))
        ]

kept_orders :
    (side : OrderSide) (b : PriceLevelOrderBook) (i : ℕ) {e : OrderWithLevelIterator}
    → find i b.orders ≡ some e
    → find i (set_trailing_price side b).orders ≡ some e
kept_orders sell b i stored = stored
kept_orders buy b i stored = stored

unlinked_empty : (i : ℕ) (m : Map Level) → is_empty m ≡ true → linked i (all_ids m) ≡ false
unfolding all_ids linked
unlinked_empty i [] bare = refl
unlinked_empty i (x ∷ m) bare = cc

module _ (side : OrderSide) (b : PriceLevelOrderBook) (w : IsWellFormed b) (i : ℕ)
    (e : OrderWithLevelIterator) (stored : find i b.orders ≡ some e) where
  abbrev k : LevelsName
  k = trailing_stop_levels side

  -- The moves reach the orders of the map.
  own_linked : e.level_it.levels ≡ k → linked i (all_ids (b.levels k)) ≡ true
  unfolding linked
  own_linked own =
      let (level, at_level, link) = w.sound.placed i e stored refl in
      linked-all_ids i e.level_it.price level (b.levels k)
        (subst (λ j. find e.level_it.price (b.levels j) ≡ some level) own at_level) link

  other_unlinked : same_levels e.level_it.levels k ≡ false → linked i (all_ids (b.levels k)) ≡ false
  other_unlinked other = elim (Bool-cases (linked i (all_ids (b.levels k)))) [
    | inr free ↦ free
    | inl link ↦
        let (f, stored', own) =
          released-levels w.sound k (b.levels k) (w.ascending k) (λ p. refl) (empties b k) i link in
        let there : e.level_it.levels ≡ k =
          ap (λ x. x.level_it.levels) (some-injective _ _ (sym stored ∙ stored')) ∙ own in
        let bad : true ≡ false =
          sym (same_levels_refl k) ∙ subst (λ x. same_levels x k ≡ false) there other in
        cc
  ]

  none_own : is_empty (b.levels k) ≡ true → same_levels e.level_it.levels k ≡ false
  unfolding all_ids linked
  none_own bare = elim (Bool-cases (same_levels e.level_it.levels k)) [
    | inr other ↦ other
    | inl own ↦
        let here = own_linked (same_levels-eq e.level_it.levels k own) in
        cc (unlinked_empty i (b.levels k) bare)
  ]

  all_moved : Whenever (move_trailing_levels side (b.levels k) ([], b)) (λ s.
      find i s.1.orders ≡ some (if same_levels e.level_it.levels k then retrailed side b e else e))
  all_moved =
      rw (move_trailing_levels-all_ids side (b.levels k) ([], b))
        (elim (Bool-cases (same_levels e.level_it.levels k)) [
          | inl own ↦ rw own (
              move_trailing_orders_self side i (all_ids (b.levels k)) [] b e
                (released-Distinct w.sound k (b.levels k) (w.ascending k) (λ p. refl) (empties b k))
                (own_linked (same_levels-eq e.level_it.levels k own)) stored)
          | inr other ↦ rw other (
              Whenever-mono _ (move_trailing_orders side (all_ids (b.levels k)) ([], b))
                (move_trailing_orders-others side i (all_ids (b.levels k)) [] b
                  (other_unlinked other))
                (λ s kept. kept ∙ stored))
        ])

  updated : Whenever (update_trailing_stop_orders side b) (λ b'.
      find i b'.orders
      ≡ some (
          if trailing_moves side b && same_levels e.level_it.levels k
          then retrailed side b e
          else e))
  unfolding update_trailing_stop_orders
  updated = elim (Bool-cases (trailing_moves side b)) [
    | inr stays ↦ rw stays (kept_orders side b i stored)
    | inl moves ↦ elim (Bool-cases (is_empty (b.levels k))) [
      | inl bare ↦ rw (moves, bare, none_own bare) (kept_orders side b i stored)
      | inr some_level ↦
          rw (moves, some_level)
            (Whenever->>= _ (move_trailing_levels side (b.levels k) ([], b)) _ all_moved
              (λ (m, b') h. h))
    ]
  ]

-- Moving the trailing stop orders of a side, on a well-formed book, returns a well-formed book with
-- no new order, no order with more left open, and no more activity. If the market has moved in their
-- favour, every order of the side's trailing map has the stop price that `calculateStopPrice` gives
-- it now, and its iterator leads to the level of that price in the rebuilt map; all other orders, and
-- if the market has not moved all orders, are as they were.
pub update_trailing_stop_orders-moves :
    (side : OrderSide) (b : PriceLevelOrderBook) (i : ℕ) (e : OrderWithLevelIterator)
    → IsWellFormed b
    → find i b.orders ≡ some e
    → Returns (update_trailing_stop_orders side b) (λ b'.
      (IsWellFormed b' × IsProgress b b')
      × (find i b'.orders
          ≡ some (
              if trailing_moves side b && same_levels e.level_it.levels (trailing_stop_levels side)
              then retrailed side b e
              else e)))
update_trailing_stop_orders-moves side b i e w stored =
    Returns-Whenever (λ b'. IsWellFormed b' × IsProgress b b') _
      (update_trailing_stop_orders side b) (update_trailing_stop_orders-Returns side b w)
      (updated side b w i e stored)
