-- ===== src/Book/Waiting.antt =====
-- Stop orders to sell that wait: what `activateStopOrders` guarantees of them when it ends.
pub mod Calls
use mathlib.Core.Option.{some-injective}
use quanta_trader.Common.{
  ℕ, zero, suc, deref, ◌≡◌, ◌⊎◌, refl, sym, subst, ◌∙◌, ap, inl, inr, Bool, true, false, Bool-cases,
  none, some, Option-cases, List, [], ◌∷◌, Outcome, done, fault, out_of_fuel, ◌>>=◌, Whenever,
  Whenever->>=, Whenever-mono, Whenever-last, not, ◌&&◌, is_empty, if◌then◌else◌,
}
use quanta_trader.Common.Maps.{Map, find, emplace}
use quanta_trader.Order.{Order, OrderSide, sell, buy}
use quanta_trader.Level
use quanta_trader.Level.{Level}
use quanta_trader.Book.Insert.{level_side}
use quanta_trader.Book.State.{
  PriceLevelOrderBook, LevelsName, find_order, set_levels, last_traded_buy_price, same_levels,
  stop_sell_levels, trailing_stop_sell_levels, trailing_stop_buy_levels,
}
use quanta_trader.Book.Prices.{triggered, market_price, calculate_stop_price}
use quanta_trader.Book.Stops.{
  stop_levels, trailing_stop_levels, next_stop_level, activate_front, activate_levels,
  activate_side, activate_round, activate_loop, activate_stop_orders, update_trailing_stop_orders,
  move_trailing, move_trailing_orders, move_trailing_levels, trailing_moves,
}

-- The level of the map whose turn is next is not set off by the price.
pub record IsIdle (side : OrderSide) (price : ℕ) (m : Map Level) : Type 0 where
  pub idle : (x : ℕ × Level) → next_stop_level side m ≡ some x → triggered side price x.0 ≡ false

-- No stop order to sell is set off by the price of the last trade.
pub record NoneDue (b : PriceLevelOrderBook) : Type 0 where
  pub stops : IsIdle sell b.last_traded_price (b.levels stop_sell_levels)
  pub trailing_stops : IsIdle sell b.last_traded_price (b.levels trailing_stop_sell_levels)

module _ (activate : PriceLevelOrderBook → Outcome PriceLevelOrderBook) where
  -- The loop either activates an order, or leaves all as it is, with no level to be set off.
  activate_levels-IsIdle :
      (rounds fuel : ℕ) (side : OrderSide) (k : LevelsName) (price : ℕ) (flag : Bool)
      (b : PriceLevelOrderBook)
      → Whenever
          (activate_levels activate rounds fuel side k price flag b)
          (λ t. (t.0 ≡ true) ⊎ ((t.1 ≡ b) × (flag ≡ false) × IsIdle side price (b.levels k)))
  unfolding activate_levels
  activate_levels-IsIdle zero fuel side k price flag b = tt
  activate_levels-IsIdle (suc n) fuel side k price flag b =
      let still : IsIdle side price (b.levels k)
          → (flag ≡ true) ⊎ ((b ≡ b) × (flag ≡ false) × IsIdle side price (b.levels k)) =
        λ idle. elim (Bool-cases flag) [ inl on ↦ inl on | inr off ↦ inr (refl, off, idle) ] in
      elim (Option-cases (next_stop_level side (b.levels k))) [
        | inl over ↦ rw (over, activate_levels) (still (record { idle = λ x next. cc }))
        | inr (x, next) ↦ elim (Bool-cases (triggered side price x.0)) [
          | inr waits ↦
              rw (next, activate_levels)
                (rw waits (
                  still (record {
                    idle = λ y next'.
                        subst (λ z. triggered side price z.0 ≡ false)
                          (some-injective _ _ (sym next ∙ next')) waits;
                  })))
          | inl goes ↦
              rw (next, activate_levels)
                (rw goes (
                  Whenever-last _
                    (activate_front activate fuel (record { levels = k; price = x.0 }) b) _
                    λ b'.
                      Whenever-mono _ (activate_levels activate n fuel side k price true b')
                        (activate_levels-IsIdle n fuel side k price true b')
                        λ t ends. elim ends [
                          | inl activated ↦ inl activated
                          | inr (same, flag, idle) ↦ cc
                        ]))
        ]
      ]

  -- So do both loops of a side, over the stop orders and the trailing stop orders.
  activate_side-IsIdle :
      (fuel : ℕ) (side : OrderSide) (b : PriceLevelOrderBook)
      → Whenever (activate_side activate fuel side b) (λ t.
        (t.0 ≡ true)
        ⊎ ((t.1 ≡ b)
            × IsIdle side (market_price side b) (b.levels (stop_levels side))
            × IsIdle side (market_price side b) (b.levels (trailing_stop_levels side))))
  unfolding activate_side
  activate_side-IsIdle fuel side b =
      Whenever->>= _
        (activate_levels activate fuel fuel side (stop_levels side) (market_price side b) false b) _
        (activate_levels-IsIdle fuel fuel side (stop_levels side) (market_price side b) false b)
        λ t first.
          Whenever-mono _
            (activate_levels activate fuel fuel side (trailing_stop_levels side)
              (market_price side t.1) t.0 t.1)
            (activate_levels-IsIdle fuel fuel side (trailing_stop_levels side)
              (market_price side t.1) t.0 t.1)
            λ u second. elim second [
              | inl activated ↦ inl activated
              | inr (same, flag, trailing) ↦ elim first [
                | inl activated ↦ cc
                | inr (same', _, plain) ↦ inr (
                  same ∙ same',
                  plain,
                  subst
                      (λ x.
                        IsIdle side (market_price side x) (x.levels (trailing_stop_levels side)))
                      same' trailing,
                )
              ]
            ]

-- What a move of trailing orders leaves as it is.
record IsMoved (b b' : PriceLevelOrderBook) : Type 0 where
  same_levels : b'.levels ≡ b.levels
  same_price : b'.last_traded_price ≡ b.last_traded_price

IsMoved-trans : {b c d : PriceLevelOrderBook} → IsMoved b c → IsMoved c d → IsMoved b d
IsMoved-trans p q = record {
  same_levels = q.same_levels ∙ p.same_levels;
  same_price = q.same_price ∙ p.same_price;
}

move_trailing-IsMoved :
    (side : OrderSide) (i : ℕ) (updated : Map Level) (b : PriceLevelOrderBook)
    → Whenever (move_trailing side i (updated, b)) (λ s. IsMoved b s.1)
unfolding move_trailing
move_trailing-IsMoved side i updated b = Whenever-last _ (find_order i b) _ λ e.
    let (price, order) = calculate_stop_price e.order b in
    let updated₁ =
      emplace price (Level.new_level price (level_side (trailing_stop_levels side)) b.symbol_id)
        updated in
    Whenever-last _ (deref (find price updated₁)) _ λ level.
      Whenever-last _ (Level.add_order order level) _
        λ level'. record { same_levels = refl; same_price = refl }

move_trailing_orders-IsMoved :
    (side : OrderSide) (is : List ℕ) (updated : Map Level) (b : PriceLevelOrderBook)
    → Whenever (move_trailing_orders side is (updated, b)) (λ s. IsMoved b s.1)
unfolding move_trailing_orders
move_trailing_orders-IsMoved side [] updated b = record { same_levels = refl; same_price = refl }
move_trailing_orders-IsMoved side (i ∷ is) updated b =
    Whenever->>= _ (move_trailing side i (updated, b)) _ (move_trailing-IsMoved side i updated b)
      λ (updated', b') h.
        Whenever-mono _ (move_trailing_orders side is (updated', b'))
          (move_trailing_orders-IsMoved side is updated' b') (λ s h'. IsMoved-trans h h')

move_trailing_levels-IsMoved :
    (side : OrderSide) (m updated : Map Level) (b : PriceLevelOrderBook)
    → Whenever (move_trailing_levels side m (updated, b)) (λ s. IsMoved b s.1)
unfolding move_trailing_levels
move_trailing_levels-IsMoved side [] updated b = record { same_levels = refl; same_price = refl }
move_trailing_levels-IsMoved side ((price, level) ∷ m) updated b =
    Whenever->>= _ (move_trailing_orders side level.orders (updated, b)) _
      (move_trailing_orders-IsMoved side level.orders updated b)
      λ (updated', b') h.
        Whenever-mono _ (move_trailing_levels side m (updated', b'))
          (move_trailing_levels-IsMoved side m updated' b') (λ s h'. IsMoved-trans h h')

moved-NoneDue : {b b' : PriceLevelOrderBook} → IsMoved b b' → NoneDue b → NoneDue b'
moved-NoneDue {b} {b'} m h = record {
  stops = kept stop_sell_levels h.stops;
  trailing_stops = kept trailing_stop_sell_levels h.trailing_stops;
}
  where
    kept :
        (k : LevelsName)
        → IsIdle sell b.last_traded_price (b.levels k)
        → IsIdle sell b'.last_traded_price (b'.levels k)
    kept k i =
        subst (λ p. IsIdle sell p (b'.levels k)) (sym m.same_price)
          (subst (λ ls. IsIdle sell b.last_traded_price (ls k)) (sym m.same_levels) i)

-- `updateTrailingBuyStopOrders` leaves the stop orders to sell and the last price as they are.
update_trailing_buy-NoneDue :
    (b : PriceLevelOrderBook) → NoneDue b → Whenever (update_trailing_stop_orders buy b) NoneDue
unfolding update_trailing_stop_orders
update_trailing_buy-NoneDue b h =
    let k = trailing_stop_buy_levels in
    elim (Bool-cases (trailing_moves buy b && not (is_empty (b.levels k)))) [
      | inr stays ↦ rw stays (record { stops = h.stops; trailing_stops = h.trailing_stops })
      | inl moves ↦ rw moves (
          Whenever->>= NoneDue (move_trailing_levels buy (b.levels k) ([], b)) _
            (move_trailing_levels-IsMoved buy (b.levels k) [] b)
            λ (updated, b') m.
              let h' = moved-NoneDue m h in
              record { stops = h'.stops; trailing_stops = h'.trailing_stops })
    ]

module _ (activate : PriceLevelOrderBook → Outcome PriceLevelOrderBook) where
  activate_round-NoneDue :
      (fuel : ℕ) (b : PriceLevelOrderBook)
      → Whenever (activate_round activate fuel b) (λ t. (t.0 ≡ true) ⊎ NoneDue t.1)
  unfolding activate_round market_price last_traded_buy_price
  activate_round-NoneDue fuel b = Whenever-last _ (activate_side activate fuel buy b) _ λ t₁.
      Whenever-last _ (update_trailing_stop_orders sell t₁.1) _ λ b₂.
        Whenever->>= _ (activate_side activate fuel sell b₂) _
          (activate_side-IsIdle activate fuel sell b₂)
          λ t₃ ends. elim ends [
            | inl on ↦ Whenever-last _ (update_trailing_stop_orders buy t₃.1) _ (λ b₄. inl on)
            | inr (same, stops, trailing_stops) ↦
                let due : NoneDue b₂ = record { stops = stops; trailing_stops = trailing_stops } in
                Whenever->>= _ (update_trailing_stop_orders buy t₃.1) _
                  (update_trailing_buy-NoneDue t₃.1 (subst NoneDue (sym same) due))
                  (λ b₄ due'. inr due')
          ]

  activate_loop-NoneDue :
      (rounds fuel : ℕ) (b : PriceLevelOrderBook)
      → Whenever (activate_loop activate rounds fuel b) NoneDue
  unfolding activate_loop
  activate_loop-NoneDue zero fuel b = tt
  activate_loop-NoneDue (suc n) fuel b =
      Whenever->>= NoneDue (activate_round activate fuel b) _ (activate_round-NoneDue fuel b)
        λ (cont, b') ends. elim (Bool-cases cont) [
          | inl on ↦ rw on (activate_loop-NoneDue n fuel b')
          | inr off ↦ rw off (elim ends [ inl on ↦ cc | inr idle ↦ idle ])
        ]

-- Whenever `activateStopOrders` returns, no stop order to sell is set off by the last price.
pub activate_stop_orders-NoneDue :
    (fuel : ℕ) (b : PriceLevelOrderBook) → Whenever (activate_stop_orders fuel b) NoneDue
unfolding activate_stop_orders
activate_stop_orders-NoneDue zero b = tt
activate_stop_orders-NoneDue (suc n) b = activate_loop-NoneDue (activate_stop_orders n) (suc n) n b
