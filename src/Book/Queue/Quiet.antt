-- ===== src/Book/Queue/Quiet.antt =====
-- `activateStopOrders` on a book without stop orders.
use quanta_trader.Common.{
  ℕ, suc, some, ◌∙◌, ◌≤◌, ◌≡◌, arith, Bool, false, [], Outcome, done, Bool-cases, inl, inr,
}
use quanta_trader.Order.{OrderSide, sell, buy}
use quanta_trader.Common.Maps.{find}
use quanta_trader.Level.{Level}
use quanta_trader.Book.Sound.{same_levels-eq}
use quanta_trader.Book.State.{
  PriceLevelOrderBook, LevelsName, levels_value, same_levels, stop_sell_levels, stop_buy_levels,
  trailing_stop_sell_levels, trailing_stop_buy_levels,
}
use quanta_trader.Book.Prices.{market_price}
use quanta_trader.Book.Stops.{
  activate_levels, activate_side, activate_round, activate_loop, activate_stop_orders,
  update_trailing_stop_orders, set_trailing_price, trailing_stop_levels, trailing_moves,
}

-- The book has no stop orders and no trailing stop orders.
pub record HasNoStops (b : PriceLevelOrderBook) : Type 0 where
  pub no_stops : (k : LevelsName) → 2 ≤ levels_value k → b.levels k ≡ []

-- A book that differs from one without stop orders in a map that has a level.
pub HasNoStops-beside :
    (b b' : PriceLevelOrderBook) (k : LevelsName) (p : ℕ) (l : Level)
    → find p (b.levels k) ≡ some l
    → ((j : LevelsName) → same_levels j k ≡ false → b'.levels j ≡ b.levels j)
    → HasNoStops b
    → HasNoStops b'
unfolding find
HasNoStops-beside b b' k p l found kept calm = record {
  no_stops = λ j stops. elim (Bool-cases (same_levels j k)) [
    | inl same ↦
        let none_there = calm.no_stops j stops in absurd (ground (arith, same_levels-eq j k same))
    | inr away ↦ kept j away ∙ calm.no_stops j stops
  ];
}

-- The reference prices of trailing stop orders follow the last trade.
abbrev pub quiet : PriceLevelOrderBook → PriceLevelOrderBook
quiet b = record b {
  trailing_buy_price = b.last_traded_price;
  trailing_sell_price = b.last_traded_price;
}

module _ (activate : PriceLevelOrderBook → Outcome PriceLevelOrderBook) (n : ℕ) where
  activate_levels_none :
      (side : OrderSide) (k : LevelsName) (price : ℕ) (flag : Bool) (b : PriceLevelOrderBook)
      → b.levels k ≡ []
      → activate_levels activate (suc n) (suc n) side k price flag b ≡ done (flag, b)
  unfolding activate_levels
  activate_levels_none sell k price flag b e = rw (e, activate_levels)
  activate_levels_none buy k price flag b e = rw (e, activate_levels)

  activate_side_none :
      (side : OrderSide) (b : PriceLevelOrderBook)
      → HasNoStops b
      → activate_side activate (suc n) side b ≡ done (false, b)
  unfolding activate_side
  activate_side_none sell b h = rw (
    activate_levels_none sell stop_sell_levels (market_price sell b) false b
        (h.no_stops stop_sell_levels (omega arith)),
    activate_levels_none sell trailing_stop_sell_levels (market_price sell b) false b
        (h.no_stops trailing_stop_sell_levels (omega arith)),
  )
  activate_side_none buy b h = rw (
    activate_levels_none buy stop_buy_levels (market_price buy b) false b
        (h.no_stops stop_buy_levels (omega arith)),
    activate_levels_none buy trailing_stop_buy_levels (market_price buy b) false b
        (h.no_stops trailing_stop_buy_levels (omega arith)),
  )

update_trailing_none :
    (side : OrderSide) (b : PriceLevelOrderBook)
    → HasNoStops b
    → update_trailing_stop_orders side b ≡ done (set_trailing_price side b)
unfolding update_trailing_stop_orders
update_trailing_none side b h =
    let e = h.no_stops (trailing_stop_levels side) (ground arith) in
    elim (Bool-cases (trailing_moves side b)) [ inl moves ↦ rw (moves, e) | inr stays ↦ rw stays ]

-- Without stop orders, `activateStopOrders` only moves the two reference prices.
pub activate_stop_orders-quiet :
    (n : ℕ) (b : PriceLevelOrderBook)
    → HasNoStops b
    → activate_stop_orders (suc (suc n)) b ≡ done (quiet b)
unfolding activate_stop_orders activate_loop activate_round
activate_stop_orders-quiet n b h =
    let b₂ = set_trailing_price sell b in
    let h₂ : HasNoStops b₂ = record { no_stops = h.no_stops } in
    rw (
      activate_side_none (activate_stop_orders (suc n)) n buy b h,
      update_trailing_none sell b h,
      activate_side_none (activate_stop_orders (suc n)) n sell b₂ h₂,
      update_trailing_none buy b₂ h₂,
    )
