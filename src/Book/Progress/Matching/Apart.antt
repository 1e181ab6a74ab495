-- ===== src/Book/Progress/Matching/Apart.antt =====
-- An order that no level matches may rest: the book stays uncrossed.
use quanta_trader.Common.{
  ℕ, ◌≡◌, ◌⊎◌, inl, inr, arith, false, ◌==◌, Bool-cases, Option-cases, none, some,
}
use quanta_trader.Common.Maps.Extremes.{first-le, le-last, first-none, last-none}
use quanta_trader.Order.{Order, OrderSide, sell, buy, limit}
use quanta_trader.Level.{Level}
use quanta_trader.Book.State.{PriceLevelOrderBook, sell_levels, buy_levels}
use quanta_trader.Book.Remove.{levels_for}
use quanta_trader.Book.Match.{matching_level, opposite, best_of, best_opposite, crosses}
use quanta_trader.Book.Sound.Crossing.{IsApart}
use quanta_trader.Book.Progress.{shelves_of, IsWellFormed}

unmatched_cases :
    (o : Order) (b : PriceLevelOrderBook)
    → matching_level o b ≡ none
    → (o.open_quantity == 0) ≡ false
    → (best_of o.side (b.levels (opposite o.side)) ≡ none)
      ⊎ ((e : ℕ × Level) × (best_of o.side (b.levels (opposite o.side)) ≡ some e)
          × (crosses o.side o.price e.0 ≡ false))
unfolding matching_level
unmatched_cases o b over some_open =
    elim (Option-cases (best_of o.side (b.levels (opposite o.side)))) [
      | inl empty ↦ inl empty
      | inr (e, best) ↦ elim (Bool-cases (crosses o.side o.price e.0)) [
        | inr worse ↦ inr (e, best, worse)
        | inl good ↦
            let found : matching_level o b
                ≡ some (record { levels = opposite o.side; price = e.0 }) =
              rw (best, matching_level, best_opposite) (rw (good, some_open)) in
            cc
      ]
    ]

by_side :
    (s : OrderSide) (price : ℕ) (b : PriceLevelOrderBook)
    → IsWellFormed b
    → (best_of s (b.levels (opposite s)) ≡ none)
      ⊎ ((e : ℕ × Level) × (best_of s (b.levels (opposite s)) ≡ some e)
          × (crosses s price e.0 ≡ false))
    → IsApart (levels_for limit s) price (shelves_of b)
by_side sell price b w (inl empty) = λ q m h. cc (last-none (b.levels buy_levels) q empty)
by_side sell price b w (inr (e, best, worse)) =
    λ q m h. ground (arith, le-last (b.levels buy_levels) e q m (w.ascending buy_levels) best h)
by_side buy price b w (inl empty) = λ q m h. cc (first-none (b.levels sell_levels) q empty)
by_side buy price b w (inr (e, best, worse)) =
    λ q m h. ground (arith, first-le (b.levels sell_levels) e q m (w.ascending sell_levels) best h)

-- Where the loop of `match` has stopped for an order with something left open, the other side's
-- prices are all worse than the order's.
pub matching_level-IsApart :
    (o : Order) (b : PriceLevelOrderBook)
    → IsWellFormed b
    → matching_level o b ≡ none
    → (o.open_quantity == 0) ≡ false
    → IsApart (levels_for limit o.side) o.price (shelves_of b)
matching_level-IsApart o b w over some_open =
    by_side o.side o.price b w (unmatched_cases o b over some_open)
